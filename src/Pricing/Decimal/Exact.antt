-- ===== src/Pricing/Decimal/Exact.antt =====
-- Values with at most twelve decimal places are whole numbers of picodollars.
use native.Mathlib.Nat.{
  pow-suc, pow-zero, mul_assoc, add-mul, mul-mod_left, mul-div_left, one-le-pow,
}
use dduo_solo_founder.Prelude.{
  ℕ, zero, suc, ◌+◌, ◌-◌, ◌*◌, ◌^◌, ◌≤◌, ◌≡◌, sym, ap, some, arith, max,
}
use dduo_solo_founder.Pricing.Decimal.{Decimal, add, pico_usd}

pow_add : (b m n : ℕ) → b ^ (m + n) ≡ b ^ m * b ^ n
pow_add b m zero = grind (arith, pow-zero b)
pow_add b m (suc n) =
    let e : m + suc n ≡ suc (m + n) = omega arith in
    rw (e, pow-suc, pow_add b m n, pow-suc) (mul_assoc _ _ _)

-- the digits moved by `a` places and then by `b` more
shift_twice : (c a b n : ℕ) → a + b ≡ n → c * 10 ^ a * 10 ^ b ≡ c * 10 ^ n
shift_twice c a b n e = rw (← e, pow_add 10 a b, mul_assoc)

-- the picodollars of a value with at most twelve decimal places
abbrev pub pico_value : Decimal → ℕ
pico_value x = x.coef * 10 ^ (12 - x.scale)

pub pico_usd_exact : (x : Decimal) → x.scale ≤ 12 → pico_usd x ≡ some (pico_value x)
unfolding pico_usd
pico_usd_exact x h =
    let split : x.coef * 10 ^ 12 ≡ pico_value x * 10 ^ x.scale =
      sym (shift_twice x.coef (12 - x.scale) x.scale 12 (omega arith)) in
    rw split (
      rw (mul-mod_left (pico_value x) (10 ^ x.scale))
        (ap some (mul-div_left (pico_value x) (one-le-pow x.scale 10 (omega arith)))))

pub pico_value-add :
    (x y : Decimal)
    → x.scale ≤ 12
    → y.scale ≤ 12
    → pico_value (add x y) ≡ pico_value x + pico_value y
unfolding add
pico_value-add x y hx hy =
    let s = max x.scale y.scale in
    rw (
      add-mul,
      shift_twice x.coef (s - x.scale) (12 - s) (12 - x.scale) (omega arith),
      shift_twice y.coef (s - y.scale) (12 - s) (12 - y.scale) (omega arith),
    )

pub scale-add : (x y : Decimal) {n : ℕ} → x.scale ≤ n → y.scale ≤ n → (add x y).scale ≤ n
unfolding add
scale-add x y hx hy = omega arith

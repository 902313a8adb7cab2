-- ===== src/Context/Digits.antt =====
-- The fuel of the decimal digits in the JSON lines of context_budget.py.
use dduo_solo_founder.Prelude.{
  ℕ, zero, suc, ◌+◌, ◌-◌, ◌*◌, ◌/◌, ◌%◌, ◌<◌, [], ◌∷◌, ◌≡◌, ap, ◌∙◌, arith, ltb, Bool-cases, inl,
  inr, false,
}
use dduo_solo_founder.Context.Text.{Text}
use dduo_solo_founder.Context.Json.{digits, decimal}

-- the number that decimal digits spell, behind a number that was read before
abbrev pub read : ℕ → Text → ℕ
read v [] = v
read v (c ∷ cs) = read (v * 10 + (c - 48)) cs

read-digits : (fuel n : ℕ) (acc : Text) → n < fuel → read 0 (digits fuel n acc) ≡ read n acc
unfolding digits
read-digits zero n acc le = absurd (omega (arith, le))
read-digits (suc fuel) n acc le = elim (Bool-cases (ltb n 10)) [
  | inl t ↦ rw (t, digits) (ap (λ m. read m acc) (spelled n))
  | inr t ↦
      rw (t, digits)
        (read-digits fuel (n / 10) ((48 + n % 10) ∷ acc) (smaller t)
          ∙ ap (λ m. read m acc) (split n))
]
  where
    spelled : (m : ℕ) → 0 * 10 + (48 + m - 48) ≡ m
    spelled m = omega arith

    split : (m : ℕ) → m / 10 * 10 + (48 + m % 10 - 48) ≡ m
    split m = omega arith

    smaller : ltb n 10 ≡ false → n / 10 < fuel
    smaller t = ground (arith, le)

-- With one more than the number as fuel, the digits spell the number.
pub read-decimal : (n : ℕ) → read 0 (decimal n) ≡ n
unfolding decimal
read-decimal n = read-digits (suc n) n [] (omega arith)

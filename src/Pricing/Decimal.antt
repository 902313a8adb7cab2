-- ===== src/Pricing/Decimal.antt =====
-- The non-negative values of Python's `decimal.Decimal` that pricing.py computes with.
-- `coef` and `scale` are the digits and the negated exponent: the value is coef / 10 ^ scale.
pub mod Exact
use dduo_solo_founder.Prelude.{
  ℕ, ◌+◌, ◌-◌, ◌*◌, ◌/◌, ◌%◌, ◌^◌, Bool, Option, none, some, ◌==◌, if◌then◌else◌, max,
}

pub record Decimal : Type 0 where
  pub coef : ℕ
  pub scale : ℕ

-- `Decimal("12.50")` is `dec 1250 2`.
abbrev pub dec : ℕ → ℕ → Decimal
dec c s = record { coef = c; scale = s }

-- the coefficient of the value at the scale `s`, for `x.scale` at most `s`
abbrev pub at_scale : ℕ → Decimal → ℕ
at_scale s x = x.coef * 10 ^ (s - x.scale)

unfoldable pub mul : Decimal → Decimal → Decimal
mul x y = dec (x.coef * y.coef) (x.scale + y.scale)

unfoldable pub add : Decimal → Decimal → Decimal
add x y = let s = max x.scale y.scale in dec (at_scale s x + at_scale s y) s

-- `x / MILLION`: a power of ten moves the point
unfoldable pub div_million : Decimal → Decimal
div_million x = dec x.coef (x.scale + 6)

-- `==` compares the values, not the digits
unfoldable pub equals : Decimal → Decimal → Bool
equals x y = x.coef * 10 ^ y.scale == y.coef * 10 ^ x.scale

-- `_pico_usd`; `none` stands for the `ValueError`
unfoldable pub pico_usd : Decimal → Option ℕ
pico_usd value =
    let scaled = value.coef * 10 ^ 12 in
    if scaled % 10 ^ value.scale == 0 then some (scaled / 10 ^ value.scale) else none

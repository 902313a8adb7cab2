-- ===== src/Prelude/Options.antt =====
-- Chains of steps that may return `None`.
use mathlib.Core.Path.{◌≡◌, refl}
use mathlib.Core.Logic.{◌⊎◌, inl, inr}
use mathlib.Core.Bool.{Bool, true, false}
use mathlib.Core.Option.{Option, none, some}
use dduo_solo_founder.Prelude.Tests.{if◌then◌else◌}

-- `if not test: return None`
abbrev pub guard : Bool → Option (Unit {0})
guard true = some tt
guard false = none

module _ {ℓ κ} {X : Type ℓ} {Y : Type κ} where
  infixl 10 ◌>>=◌
  abbrev pub ◌>>=◌ : Option X → (X → Option Y) → Option Y
  none >>= rest = none
  some x >>= rest = rest x

  -- a chain that gave a value
  pub >>=-eq-some :
      (first : Option X) (rest : X → Option Y) {y : Y}
      → (first >>= rest) ≡ some y
      → (x : X) × (first ≡ some x) × (rest x ≡ some y)
  >>=-eq-some none rest given = cc
  >>=-eq-some (some x) rest given = (x, refl, given)

module _ {κ} {Y : Type κ} where
  infixl 10 ◌>>◌
  abbrev pub ◌>>◌ : Option (Unit {0}) → Option Y → Option Y
  none >> rest = none
  some passed >> rest = rest

  pub guard-eq-some :
      (test : Bool) (rest : Option Y) {y : Y}
      → (guard test >> rest) ≡ some y
      → (test ≡ true) × (rest ≡ some y)
  guard-eq-some true rest given = (refl, given)
  guard-eq-some false rest given = cc

  pub some-eq-some : {x y : Y} → some x ≡ some y → x ≡ y
  some-eq-some given = cc

-- Inversion of a test whose branches are optional.
pub if-eq-some {ℓ} :
    {A : Type ℓ} (t : Bool) (x y : Option A) {a : A}
    → (if t then x else y) ≡ some a
    → ((t ≡ true) × (x ≡ some a)) ⊎ ((t ≡ false) × (y ≡ some a))
if-eq-some true x y h = inl (refl, h)
if-eq-some false x y h = inr (refl, h)

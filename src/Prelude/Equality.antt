-- ===== src/Prelude/Equality.antt =====
-- Python's `==` on the values that the models compare, as an interface with its law.
use Prim.Native.Nat.{ℕ}
use Prim.Native.String.{String}
use mathlib.Core.Path.{◌≡◌, refl}
use mathlib.Core.Logic.{◌↔◌}
use mathlib.Core.Bool.{Bool, true, false, ◌&&◌}
use mathlib.Core.Option.{Option, none, some}
use mathlib.Core.List.{List, [], ◌∷◌}
use native.Mathlib.Omega.{arith}
use text.Mathlib.Text.{◌==◌ as str_eq}
use text.Mathlib.TextEquality.{eq_iff}
use dduo_solo_founder.Prelude.Tests.{◌==◌}

-- a type whose values Python compares
pub record Eq {ℓ} (A : Type ℓ) : Type ℓ where
  pub equals : A → A → Bool
  pub agrees : (a b : A) → (equals a b ≡ true) ↔ (a ≡ b)

abbrev pub same {ℓ} : {A : Type ℓ} ⦃e : Eq A⦄ → A → A → Bool
same ⦃e⦄ = e.equals

pub same→eq {ℓ} : {A : Type ℓ} ⦃e : Eq A⦄ (a b : A) → same a b ≡ true → a ≡ b
same→eq ⦃e⦄ a b h = (e.agrees a b).0 h

pub same_self {ℓ} : {A : Type ℓ} ⦃e : Eq A⦄ (a : A) → same a a ≡ true
same_self ⦃e⦄ a = (e.agrees a a).1 refl

pub nat_law : (a b : ℕ) → ((a == b) ≡ true) ↔ (a ≡ b)
nat_law a b = ground arith

instance abbrev pub string_eq : Eq String
string_eq = record { equals = str_eq; agrees = eq_iff }

instance abbrev pub nat_eq : Eq ℕ
nat_eq = record { equals = ◌==◌; agrees = nat_law }

module _ {ℓ} {A : Type ℓ} ⦃e : Eq A⦄ where
  abbrev pub option_equals : Option A → Option A → Bool
  option_equals none none = true
  option_equals none (some b) = false
  option_equals (some a) none = false
  option_equals (some a) (some b) = e.equals a b

  pub option_law : (a b : Option A) → (option_equals a b ≡ true) ↔ (a ≡ b)
  option_law none none = (λ h. refl, λ h. refl)
  option_law none (some b) = (λ h. cc, λ h. cc)
  option_law (some a) none = (λ h. cc, λ h. cc)
  option_law (some a) (some b) = (λ h. cc ((e.agrees a b).0 h), λ h. (e.agrees a b).1 (cc))

  abbrev pub list_equals : List A → List A → Bool
  list_equals [] [] = true
  list_equals [] (y ∷ ys) = false
  list_equals (x ∷ xs) [] = false
  list_equals (x ∷ xs) (y ∷ ys) = e.equals x y && list_equals xs ys

  pub list_law : (a b : List A) → (list_equals a b ≡ true) ↔ (a ≡ b)
  list_law [] [] = (λ h. refl, λ h. refl)
  list_law [] (y ∷ ys) = (λ h. cc, λ h. cc)
  list_law (x ∷ xs) [] = (λ h. cc, λ h. cc)
  list_law (x ∷ xs) (y ∷ ys) = (
    λ h. ground (arith, e.agrees x y, list_law xs ys),
    λ h. ground (arith, e.agrees x y, list_law xs ys),
  )

  instance abbrev pub option_eq : Eq (Option A)
  option_eq = record { equals = option_equals; agrees = option_law }

  instance abbrev pub list_eq : Eq (List A)
  list_eq = record { equals = list_equals; agrees = list_law }

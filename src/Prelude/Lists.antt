-- ===== src/Prelude/Lists.antt =====
-- Lists measured by native numbers, predicates over lists, and the lemmas the components share.
use Prim.Native.Nat.{ℕ, suc, ◌+◌}
use mathlib.Core.Path.{◌≡◌, refl, sym, ap, subst}
use mathlib.Core.Logic.{◌⊎◌, inl, inr}
use mathlib.Core.List.{List, [], ◌∷◌, ◌++◌, map}
use mathlib.Core.Bool.{Bool, true, false, ◌||◌}
use mathlib.Core.Option.{Option, none, some}
use native.Mathlib.Omega.{arith}
use dduo_solo_founder.Prelude.Tests.{if◌then◌else◌, Bool-cases}

module _ {ℓ} {A : Type ℓ} where
  abbrev pub length : List A → ℕ
  length [] = 0
  length (x ∷ xs) = suc (length xs)

  pub length-append : (xs ys : List A) → length (xs ++ ys) ≡ length xs + length ys
  length-append [] ys = omega arith
  length-append (x ∷ xs) ys = omega (arith, length-append xs ys)

-- every item has the property
abbrev pub All {ℓ κ} : {X : Type ℓ} → (X → Type κ) → List X → Type κ
All holds [] = Unit
All holds (item ∷ items) = holds item × All holds items

-- `x` stands in the list.
pub data In {ℓ} {A : Type ℓ} (x : A) : List A → Type ℓ where
  here : {y : A} {ys : List A} → x ≡ y → In x (y ∷ ys)
  there : {y : A} {ys : List A} → In x ys → In x (y ∷ ys)

pub In-map {ℓ κ} :
    {A : Type ℓ} {B : Type κ} (f : A → B) (xs : List A) {b : B}
    → In b (map f xs)
    → (a : A) × In a xs × (b ≡ f a)
In-map f [] h = elim h [ ]
In-map f (x ∷ xs) (here e) = (x, here refl, e)
In-map f (x ∷ xs) (there h) = let (a, i, e) = In-map f xs h in (a, there i, e)

pub map-In {ℓ κ} :
    {A : Type ℓ} {B : Type κ} (f : A → B) (xs : List A) {a : A} → In a xs → In (f a) (map f xs)
map-In f [] h = elim h [ ]
map-In f (x ∷ xs) (here e) = here (ap f e)
map-In f (x ∷ xs) (there h) = there (map-In f xs h)

-- The rows of a table, as SQL selects and as the mapped objects are changed in place.
module _ {ℓ} {A : Type ℓ} where
  unfoldable pub select : (A → Bool) → List A → List A
  select test [] = []
  select test (x ∷ xs) = let rest = select test xs in if test x then x ∷ rest else rest

  unfoldable pub find_row : (A → Bool) → List A → Option A
  find_row test [] = none
  find_row test (x ∷ xs) = if test x then some x else find_row test xs

  unfoldable pub any_row : (A → Bool) → List A → Bool
  any_row test [] = false
  any_row test (x ∷ xs) = test x || any_row test xs

  abbrev pub update_row : (A → Bool) → (A → A) → A → A
  update_row test f x = if test x then f x else x

  unfoldable pub update_rows : (A → Bool) → (A → A) → List A → List A
  update_rows test f = map (update_row test f)

  pub In-append : {x : A} (xs ys : List A) → In x (xs ++ ys) → In x xs ⊎ In x ys
  In-append [] ys h = inr h
  In-append (y ∷ xs) ys (here e) = inl (here e)
  In-append (y ∷ xs) ys (there h) = elim (In-append xs ys h) [
    | inl i ↦ inl (there i)
    | inr i ↦ inr i
  ]

  pub In-append_left : {x : A} (xs ys : List A) → In x xs → In x (xs ++ ys)
  In-append_left [] ys h = elim h [ ]
  In-append_left (y ∷ xs) ys (here e) = here e
  In-append_left (y ∷ xs) ys (there h) = there (In-append_left xs ys h)

  pub In-append_right : {x : A} (xs ys : List A) → In x ys → In x (xs ++ ys)
  In-append_right [] ys h = h
  In-append_right (y ∷ xs) ys h = there (In-append_right xs ys h)

  pub In-last : {x y : A} (xs : List A) → In x (xs ++ y ∷ []) → In x xs ⊎ (x ≡ y)
  In-last [] (here e) = inr e
  In-last [] (there h) = elim h [ ]
  In-last (z ∷ xs) (here e) = inl (here e)
  In-last (z ∷ xs) (there h) = elim (In-last xs h) [ inl i ↦ inl (there i) | inr e ↦ inr e ]

  pub any_row-none :
      (test : A → Bool) (xs : List A) {x : A} → any_row test xs ≡ false → In x xs → test x ≡ false
  unfolding any_row
  any_row-none test [] h i = elim i [ ]
  any_row-none test (y ∷ xs) h (here e) = ground arith
  any_row-none test (y ∷ xs) h (there i) = any_row-none test xs (ground arith) i

  pub In-select :
      (test : A → Bool) (xs : List A) {x : A} → In x xs → test x ≡ true → In x (select test xs)
  unfolding select
  In-select test [] i t = elim i [ ]
  In-select test (y ∷ xs) {x} (here e) t =
      let ty : test y ≡ true = subst (λ z. test z ≡ true) e t in rw ty (here e)
  In-select test (y ∷ xs) (there i) t = elim (Bool-cases (test y)) [
    | inl ty ↦ rw ty (there (In-select test xs i t))
    | inr ty ↦ rw ty (In-select test xs i t)
  ]

  In-if :
      (b : Bool) {x y : A} (xs : List A)
      → In x (if b then y ∷ xs else xs)
      → ((b ≡ true) × (x ≡ y)) ⊎ In x xs
  In-if true xs (here e) = inl (refl, e)
  In-if true xs (there i) = inr i
  In-if false xs i = inr i

  pub select-In :
      (test : A → Bool) (xs : List A) {x : A} → In x (select test xs) → In x xs × (test x ≡ true)
  unfolding select
  select-In test [] h = elim h [ ]
  select-In test (y ∷ xs) h = elim (In-if (test y) (select test xs) h) [
    | inl (t, e) ↦ (here e, subst (λ z. test z ≡ true) (sym e) t)
    | inr i ↦ let (j, t) = select-In test xs i in (there j, t)
  ]

  pub find_row-In :
      (test : A → Bool) (xs : List A) {x : A}
      → find_row test xs ≡ some x
      → In x xs × (test x ≡ true)
  unfolding find_row
  find_row-In test [] h = absurd (ground arith)
  find_row-In test (y ∷ xs) h = elim (Bool-cases (test y)) [
    | inl t ↦ let e : y ≡ _ = ground arith in (here (sym e), subst (λ z. test z ≡ true) e t)
    | inr t ↦ let (i, q) = find_row-In test xs (ground arith) in (there i, q)
  ]

  pub In-update_rows :
      (test : A → Bool) (f : A → A) (xs : List A) {b : A}
      → In b (update_rows test f xs)
      → (a : A) × In a xs × (b ≡ update_row test f a)
  unfolding update_rows
  In-update_rows test f xs h = In-map (update_row test f) xs h

module _ {ℓ} {A : Type ℓ} (test : A → Bool) (f : A → A) where
  -- A row after an update is one that was selected and changed, or one that was left alone.
  pub update_rows-cases :
      (xs : List A) {b : A}
      → In b (update_rows test f xs)
      → (a : A) × In a xs × (((test a ≡ true) × (b ≡ f a)) ⊎ ((test a ≡ false) × (b ≡ a)))
  update_rows-cases xs {b} h =
      let (a, i, e) = In-update_rows test f xs h in
      elim (Bool-cases (test a)) [
        | inl t ↦ (a, i, inl (t, subst (λ c. b ≡ (if c then f a else a)) t e))
        | inr t ↦ (a, i, inr (t, subst (λ c. b ≡ (if c then f a else a)) t e))
      ]

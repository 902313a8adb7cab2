-- ===== src/Context/Order.antt =====
-- The order in which `compose_context` of context_budget.py considers the fragments.
use dduo_solo_founder.Prelude.{
  ℕ, Bool, true, false, ◌&&◌, ◌||◌, not, List, [], ◌∷◌, ◌≡◌, refl, ap, ◌≤◌, ◌⊎◌, inl, inr, arith,
  ltb, All, In, here, there, Bool-cases, ◌↔◌,
}
use dduo_solo_founder.Context.Fragment.{ℤ, pos, negsuc, less}
use dduo_solo_founder.Context.Compose.{Indexed, sorts_before, insert_indexed, sort_indexed}

-- `(priority, index)` in the order of tuples
abbrev tie : ℤ → ℕ → ℤ → ℕ → Bool
tie p i q j = less p q || not (less q p) && ltb i j

tie_trans :
    (p q r : ℤ) (i j k : ℕ) → tie q j p i ≡ false → tie r k q j ≡ false → tie r k p i ≡ false
tie_trans (pos p) (pos q) (pos r) i j k a b = ground arith
tie_trans (pos p) (pos q) (negsuc r) i j k a b = ground arith
tie_trans (pos p) (negsuc q) (pos r) i j k a b = ground arith
tie_trans (pos p) (negsuc q) (negsuc r) i j k a b = ground arith
tie_trans (negsuc p) (pos q) (pos r) i j k a b = ground arith
tie_trans (negsuc p) (pos q) (negsuc r) i j k a b = ground arith
tie_trans (negsuc p) (negsuc q) (pos r) i j k a b = ground arith
tie_trans (negsuc p) (negsuc q) (negsuc r) i j k a b = ground arith

tie_asym : (p q : ℤ) (i j : ℕ) → tie p i q j ≡ true → tie q j p i ≡ false
tie_asym (pos p) (pos q) i j a = ground arith
tie_asym (pos p) (negsuc q) i j a = ground arith
tie_asym (negsuc p) (pos q) i j a = ground arith
tie_asym (negsuc p) (negsuc q) i j a = ground arith

abbrev rank : Bool → Bool → Bool → Bool
rank a b t = a && not b || not (b && not a) && t

rank_asym : (a b s t : Bool) → (s ≡ true → t ≡ false) → rank a b s ≡ true → rank b a t ≡ false
rank_asym true true s t f h = ground (arith, f)
rank_asym true false s t f h = ground (arith, f)
rank_asym false true s t f h = ground (arith, f)
rank_asym false false s t f h = ground (arith, f)

rank_trans :
    (a b c s t u : Bool)
    → (s ≡ false → t ≡ false → u ≡ false)
    → rank b a s ≡ false
    → rank c b t ≡ false
    → rank c a u ≡ false
rank_trans true true true s t u f h k = ground (arith, f)
rank_trans true true false s t u f h k = ground (arith, f)
rank_trans true false true s t u f h k = ground (arith, f)
rank_trans true false false s t u f h k = ground (arith, f)
rank_trans false true true s t u f h k = ground (arith, f)
rank_trans false true false s t u f h k = ground (arith, f)
rank_trans false false true s t u f h k = ground (arith, f)
rank_trans false false false s t u f h k = ground (arith, f)

sorts_before_asym : (x y : Indexed) → sorts_before y x ≡ true → sorts_before x y ≡ false
sorts_before_asym (i, f) (j, g) h =
    rank_asym g.required f.required (tie g.priority j f.priority i) (tie f.priority i g.priority j)
      (tie_asym g.priority f.priority j i) h

sorts_before_trans :
    (x y z : Indexed)
    → sorts_before y x ≡ false
    → sorts_before z y ≡ false
    → sorts_before z x ≡ false
sorts_before_trans (i, f) (j, g) (k, h) a b =
    rank_trans f.required g.required h.required (tie g.priority j f.priority i)
      (tie h.priority k g.priority j) (tie h.priority k f.priority i)
      (tie_trans f.priority g.priority h.priority i j k) a b

-- nothing stands behind a fragment that sorts before it
abbrev IsOrdered : List Indexed → Type 0
IsOrdered [] = Unit
IsOrdered (x ∷ xs) = All (λ y. sorts_before y x ≡ false) xs × IsOrdered xs

insert_indexed-All :
    (x y : Indexed) (xs : List Indexed)
    → sorts_before x y ≡ false
    → All (λ z. sorts_before z y ≡ false) xs
    → All (λ z. sorts_before z y ≡ false) (insert_indexed x xs)
unfolding insert_indexed
insert_indexed-All x y [] h all = (h, tt)
insert_indexed-All x y (z ∷ xs) h (k, all) = elim (Bool-cases (sorts_before z x)) [
  | inl t ↦ rw (t, insert_indexed) (k, insert_indexed-All x y xs h all)
  | inr t ↦ rw (t, insert_indexed) (h, (k, all))
]

All-sorts_before :
    (x y : Indexed) (xs : List Indexed)
    → sorts_before y x ≡ false
    → All (λ z. sorts_before z y ≡ false) xs
    → All (λ z. sorts_before z x ≡ false) xs
All-sorts_before x y [] h all = tt
All-sorts_before x y (z ∷ xs) h (k, all) =
    (sorts_before_trans x y z h k, All-sorts_before x y xs h all)

insert_indexed-IsOrdered :
    (x : Indexed) (xs : List Indexed) → IsOrdered xs → IsOrdered (insert_indexed x xs)
unfolding insert_indexed
insert_indexed-IsOrdered x [] o = (tt, tt)
insert_indexed-IsOrdered x (y ∷ xs) (all, o) = elim (Bool-cases (sorts_before y x)) [
  | inl t ↦
      rw (t, insert_indexed)
        (insert_indexed-All x y xs (sorts_before_asym x y t) all, insert_indexed-IsOrdered x xs o)
  | inr t ↦ rw (t, insert_indexed) ((t, All-sorts_before x y xs t all), (all, o))
]

sort_indexed-IsOrdered : (xs : List Indexed) → IsOrdered (sort_indexed xs)
unfolding sort_indexed
sort_indexed-IsOrdered [] = tt
sort_indexed-IsOrdered (x ∷ xs) =
    insert_indexed-IsOrdered x (sort_indexed xs) (sort_indexed-IsOrdered xs)

-- an insertion adds its row, and nothing else
In-insert_indexed :
    (x : Indexed) (ys : List Indexed) {z : Indexed} → In z (x ∷ ys) ↔ In z (insert_indexed x ys)
unfolding insert_indexed
In-insert_indexed x [] = (λ h. h, λ h. h)
In-insert_indexed x (y ∷ ys) {z} = elim (Bool-cases (sorts_before y x)) [
  | inl t ↦ rw (t, insert_indexed) (behind (In-insert_indexed x ys))
  | inr t ↦ rw (t, insert_indexed) (λ h. h, λ h. h)
]
  where
    behind :
        In z (x ∷ ys) ↔ In z (insert_indexed x ys)
        → In z (x ∷ y ∷ ys) ↔ In z (y ∷ insert_indexed x ys)
    behind k = (
      λ h. elim h [
        | here e ↦ there (k.0 (here e))
        | there g ↦ elim g [ here e ↦ here e | there i ↦ there (k.0 (there i)) ]
      ],
      λ h. elim h [
        | here e ↦ there (here e)
        | there g ↦ elim (k.1 g) [ here e ↦ here e | there i ↦ there (there i) ]
      ],
    )

In-sort_indexed : (xs : List Indexed) {z : Indexed} → In z xs ↔ In z (sort_indexed xs)
unfolding sort_indexed
In-sort_indexed [] = (λ h. h, λ h. h)
In-sort_indexed (x ∷ xs) {z} =
    let k = In-insert_indexed x (sort_indexed xs) {z = z} in
    let r = In-sort_indexed xs {z = z} in
    (
      λ h. k.0 (elim h [ here e ↦ here e | there i ↦ there (r.0 i) ]),
      λ h. elim (k.1 h) [ here e ↦ here e | there i ↦ there (r.1 i) ],
    )

-- the smaller priority, and the earlier position where the priorities are equal
abbrev pub Precedes : ℤ → ℕ → ℤ → ℕ → Type 0
Precedes p i q j = (less p q ≡ true) ⊎ ((p ≡ q) × (i ≤ j))

-- `x` may stand in front of `y`: it is required and `y` is not, or both are alike and its priority
-- is smaller, or that is the same too and it comes first in the input
abbrev pub MayPrecede : Indexed → Indexed → Type 0
MayPrecede (i, f) (j, g) =
    ((f.required ≡ true) × (g.required ≡ false))
    ⊎ ((f.required ≡ g.required) × Precedes f.priority i g.priority j)

abbrev pub InOrder : List Indexed → Type 0
InOrder [] = Unit
InOrder (x ∷ xs) = All (MayPrecede x) xs × InOrder xs

tie-Precedes : (p q : ℤ) (i j : ℕ) → tie q j p i ≡ false → Precedes p i q j
tie-Precedes (pos p) (pos q) i j h = elim (Bool-cases (ltb p q)) [
  | inl t ↦ inl t
  | inr t ↦ let e : p ≡ q = ground arith in inr (ap pos e, ground arith)
]
tie-Precedes (pos p) (negsuc q) i j h = cc
tie-Precedes (negsuc p) (pos q) i j h = inl refl
tie-Precedes (negsuc p) (negsuc q) i j h = elim (Bool-cases (ltb q p)) [
  | inl t ↦ inl t
  | inr t ↦ let e : p ≡ q = ground arith in inr (ap negsuc e, ground arith)
]

ranked :
    (a b t : Bool) {A : Type 0}
    → (t ≡ false → A)
    → rank b a t ≡ false
    → ((a ≡ true) × (b ≡ false)) ⊎ ((a ≡ b) × A)
ranked true false t f h = inl (refl, refl)
ranked false true t f h = cc
ranked true true t f h = inr (refl, f (ground arith))
ranked false false t f h = inr (refl, f (ground arith))

not_after : (x y : Indexed) → sorts_before y x ≡ false → MayPrecede x y
not_after (i, f) (j, g) h =
    ranked f.required g.required (tie g.priority j f.priority i)
      (tie-Precedes f.priority g.priority i j) h

All-not_after :
    (x : Indexed) (xs : List Indexed)
    → All (λ y. sorts_before y x ≡ false) xs
    → All (MayPrecede x) xs
All-not_after x [] all = tt
All-not_after x (y ∷ xs) (h, all) = (not_after x y h, All-not_after x xs all)

IsOrdered-InOrder : (xs : List Indexed) → IsOrdered xs → InOrder xs
IsOrdered-InOrder [] o = tt
IsOrdered-InOrder (x ∷ xs) (all, o) = (All-not_after x xs all, IsOrdered-InOrder xs o)

-- The order in which the fragments are considered has the same fragments, each with its position,
-- and in it every required fragment stands in front of every other, among fragments that are alike
-- in this a smaller priority in front of a larger one, and among equal priorities the position in
-- the input decides.
pub sort_indexed-sorts :
    (xs : List Indexed) (x : Indexed)
    → InOrder (sort_indexed xs) × (In x xs ↔ In x (sort_indexed xs))
sort_indexed-sorts xs x =
    (IsOrdered-InOrder (sort_indexed xs) (sort_indexed-IsOrdered xs), In-sort_indexed xs)

-- ===== src/Context/Totals.antt =====
-- The counts of the delivery manifest of context_budget.py: `DeliveryManifest` and its properties.
use dduo_solo_founder.Prelude.{
  ℕ, ◌+◌, ◌≤◌, Bool, true, false, not, List, [], ◌∷◌, ◌++◌, Option, some, map, length, ◌≡◌, inl,
  inr, refl, sym, subst, ◌∙◌, arith, select, Bool-cases, if◌then◌else◌,
}
use dduo_solo_founder.Prelude.Options.{>>=-eq-some, some-eq-some}
use dduo_solo_founder.Prelude.Equality.{same, list_eq, nat_eq}
use dduo_solo_founder.Context.Text.{Text}
use dduo_solo_founder.Context.Fragment.{full, partial, omitted}
use dduo_solo_founder.Context.Json.{text_less}
use dduo_solo_founder.Context.Render.{Decision, DeliveryStatus, is_omitted, is_partial}
use dduo_solo_founder.Context.Delivery.{
  ComponentDelivery, DeliveryManifest, add_to_group, group, insert_group, sort_groups,
  component_delivery, component_deliveries, delivery_manifest, delivered_lines, reference,
}

unfoldable pub sum_components : (ComponentDelivery → ℕ) → List ComponentDelivery → ℕ
sum_components f [] = 0
sum_components f (c ∷ cs) = f c + sum_components f cs

abbrev pub total_produced : DeliveryManifest → ℕ
total_produced m = sum_components (λ c. c.produced) m.components

abbrev pub total_emitted : DeliveryManifest → ℕ
total_emitted m = sum_components (λ c. c.emitted) m.components

abbrev pub total_partial : DeliveryManifest → ℕ
total_partial m = sum_components (λ c. c.partial) m.components

abbrev pub total_omitted : DeliveryManifest → ℕ
total_omitted m = sum_components (λ c. c.omitted) m.components

-- the number of decisions that pass the test
abbrev tally : (Decision → Bool) → List Decision → ℕ
tally test [] = 0
tally test (d ∷ ds) = (if test d then 1 else 0) + tally test ds

tally-append :
    (test : Decision → Bool) (xs ys : List Decision)
    → tally test (xs ++ ys) ≡ tally test xs + tally test ys
tally-append test [] ys = omega arith
tally-append test (x ∷ xs) ys = omega (arith, tally-append test xs ys)

length-select :
    (test : Decision → Bool) (ds : List Decision) → length (select test ds) ≡ tally test ds
unfolding select
length-select test [] = refl
length-select test (d ∷ ds) = elim (Bool-cases (test d)) [
  | inl t ↦ rw t (omega (arith, length-select test ds))
  | inr t ↦ rw t (omega (arith, length-select test ds))
]

length-map {ℓ κ} :
    {A : Type ℓ} {B : Type κ} (f : A → B) (xs : List A) → length (map f xs) ≡ length xs
length-map f [] = refl
length-map f (x ∷ xs) = omega (arith, length-map f xs)

zero_sum : (n : ℕ) → 0 + n ≡ n
zero_sum n = omega arith

length-tally : (ds : List Decision) → length ds ≡ tally (λ d. true) ds
length-tally [] = refl
length-tally (d ∷ ds) = omega (arith, length-tally ds)

emitted_or_omitted :
    (ds : List Decision)
    → tally (λ d. not (is_omitted d)) ds + tally is_omitted ds ≡ tally (λ d. true) ds
emitted_or_omitted [] = refl
emitted_or_omitted (d ∷ ds) = elim (Bool-cases (is_omitted d)) [
  | inl t ↦ rw t (omega (arith, emitted_or_omitted ds))
  | inr t ↦ rw t (omega (arith, emitted_or_omitted ds))
]

partial_emitted : (ds : List Decision) → tally is_partial ds ≤ tally (λ d. not (is_omitted d)) ds
partial_emitted [] = omega arith
partial_emitted (d ∷ ds) =
    elim d.outcome
      as (λ o.
        (if (elim o [ partial ↦ true | _ ↦ false ]) then 1 else 0) + tally is_partial ds
        ≤ (if not (elim o [ omitted ↦ true | _ ↦ false ]) then 1 else 0)
          + tally (λ e. not (is_omitted e)) ds) [
            | full ↦ omega (arith, partial_emitted ds)
            | partial ↦ omega (arith, partial_emitted ds)
            | omitted ↦ omega (arith, partial_emitted ds)
          ]

module _ (test : Decision → Bool) where
  abbrev sum_groups : List (Text × List Decision) → ℕ
  sum_groups [] = 0
  sum_groups (g ∷ gs) = tally test g.1 + sum_groups gs

  sum_groups-add_to_group :
      (d : Decision) (gs : List (Text × List Decision))
      → sum_groups (add_to_group d gs) ≡ sum_groups gs + tally test (d ∷ [])
  unfolding add_to_group
  sum_groups-add_to_group d [] = omega arith
  sum_groups-add_to_group d ((name, rows) ∷ rest) =
      elim (Bool-cases (same name d.candidate.fragment.component)) [
        | inl t ↦ rw t (omega (arith, tally-append test rows (d ∷ [])))
        | inr t ↦ rw t (omega (arith, sum_groups-add_to_group d rest))
      ]

  sum_groups-group :
      (ds : List Decision) (gs : List (Text × List Decision))
      → sum_groups (group ds gs) ≡ sum_groups gs + tally test ds
  unfolding group
  sum_groups-group [] gs = omega arith
  sum_groups-group (d ∷ ds) gs =
      omega (arith, sum_groups-group ds (add_to_group d gs), sum_groups-add_to_group d gs)

  sum_groups-insert_group :
      (g : Text × List Decision) (gs : List (Text × List Decision))
      → sum_groups (insert_group g gs) ≡ tally test g.1 + sum_groups gs
  unfolding insert_group
  sum_groups-insert_group g [] = refl
  sum_groups-insert_group g (h ∷ rest) = elim (Bool-cases (text_less h.0 g.0)) [
    | inl t ↦ rw t (omega (arith, sum_groups-insert_group g rest))
    | inr t ↦ rw t refl
  ]

  sum_groups-sort_groups :
      (gs : List (Text × List Decision)) → sum_groups (sort_groups gs) ≡ sum_groups gs
  unfolding sort_groups
  sum_groups-sort_groups [] = refl
  sum_groups-sort_groups (g ∷ gs) =
      omega (arith, sum_groups-insert_group g (sort_groups gs), sum_groups-sort_groups gs)

  module _ (sha256 : List ℕ → Text) (field : ComponentDelivery → ℕ) where
    sum_components-component_deliveries :
        ((g : Text × List Decision) (c : ComponentDelivery)
          → component_delivery sha256 g ≡ some c
          → field c ≡ tally test g.1)
        → (gs : List (Text × List Decision)) {cs : List ComponentDelivery}
        → component_deliveries sha256 gs ≡ some cs
        → sum_components field cs ≡ sum_groups gs
    unfolding component_deliveries sum_components
    sum_components-component_deliveries counted [] h =
        subst (λ cs. sum_components field cs ≡ 0) (some-eq-some h) refl
    sum_components-component_deliveries counted (g ∷ gs) h =
        let (c, e, h1) = >>=-eq-some (component_delivery sha256 g) _ h in
        let (cs, es, h2) = >>=-eq-some (component_deliveries sha256 gs) _ h1 in
        subst (λ all. sum_components field all ≡ sum_groups (g ∷ gs)) {x = c ∷ cs} (some-eq-some h2)
          (omega (arith, counted g c e, sum_components-component_deliveries counted gs es))

-- the fields of one component against its decisions
module _ (sha256 : List ℕ → Text) where
  component_delivery-produced :
      (g : Text × List Decision) (c : ComponentDelivery)
      → component_delivery sha256 g ≡ some c
      → c.produced ≡ tally (λ d. true) g.1
  unfolding component_delivery
  component_delivery-produced (name, rows) c h =
      let (lines, l, e) = >>=-eq-some (delivered_lines rows) _ h in
      subst (λ k. k.produced ≡ tally (λ d. true) rows) (some-eq-some e) (length-tally rows)

  component_delivery-emitted :
      (g : Text × List Decision) (c : ComponentDelivery)
      → component_delivery sha256 g ≡ some c
      → c.emitted ≡ tally (λ d. not (is_omitted d)) g.1
  unfolding component_delivery
  component_delivery-emitted (name, rows) c h =
      let (lines, l, e) = >>=-eq-some (delivered_lines rows) _ h in
      subst (λ k. k.emitted ≡ tally (λ d. not (is_omitted d)) rows) (some-eq-some e)
        (length-map reference (select (λ d. not (is_omitted d)) rows)
          ∙ length-select (λ d. not (is_omitted d)) rows)

  component_delivery-omitted :
      (g : Text × List Decision) (c : ComponentDelivery)
      → component_delivery sha256 g ≡ some c
      → c.omitted ≡ tally is_omitted g.1
  unfolding component_delivery
  component_delivery-omitted (name, rows) c h =
      let (lines, l, e) = >>=-eq-some (delivered_lines rows) _ h in
      subst (λ k. k.omitted ≡ tally is_omitted rows) (some-eq-some e)
        (length-map reference (select is_omitted rows) ∙ length-select is_omitted rows)

  component_delivery-partial :
      (g : Text × List Decision) (c : ComponentDelivery)
      → component_delivery sha256 g ≡ some c
      → c.partial ≡ tally is_partial g.1
  unfolding component_delivery
  component_delivery-partial (name, rows) c h =
      let (lines, l, e) = >>=-eq-some (delivered_lines rows) _ h in
      subst (λ k. k.partial ≡ tally is_partial rows) (some-eq-some e)
        (length-map reference (select is_partial rows) ∙ length-select is_partial rows)

  sum_of :
      (test : Decision → Bool) (field : ComponentDelivery → ℕ)
      → ((g : Text × List Decision) (c : ComponentDelivery)
          → component_delivery sha256 g ≡ some c
          → field c ≡ tally test g.1)
      → (ds : List Decision) (budget : ℕ) (status : DeliveryStatus) (reason : Option Text)
        (m : DeliveryManifest)
      → delivery_manifest sha256 ds budget status reason ≡ some m
      → sum_components field m.components ≡ tally test ds
  unfolding delivery_manifest
  sum_of test field counted ds budget status reason m h =
      let (cs, k, e) = >>=-eq-some (component_deliveries sha256 (sort_groups (group ds []))) _ h in
      subst (λ n. sum_components field n.components ≡ tally test ds) (some-eq-some e)
        (sum_components-component_deliveries test sha256 field counted (sort_groups (group ds [])) k
          ∙ sum_groups-sort_groups test (group ds [])
          ∙ sum_groups-group test ds []
          ∙ zero_sum (tally test ds))

  -- In the manifest that `_delivery_manifest` builds of any decisions, the totals over the
  -- components say what became of every fragment: the produced fragments are all that were decided,
  -- each of them is emitted or omitted and none is both, and the partial ones are among the emitted.
  pub delivery_manifest-totals :
      (ds : List Decision) (budget : ℕ) (status : DeliveryStatus) (reason : Option Text)
      (m : DeliveryManifest)
      → delivery_manifest sha256 ds budget status reason ≡ some m
      → (total_produced m ≡ length ds)
        × (total_emitted m + total_omitted m ≡ total_produced m)
        × (total_partial m ≤ total_emitted m)
        × (total_omitted m ≡ length (select is_omitted ds))
  delivery_manifest-totals ds budget status reason m h =
      let p =
        sum_of (λ d. true) (λ c. c.produced) component_delivery-produced ds budget status reason m
          h in
      let e =
        sum_of (λ d. not (is_omitted d)) (λ c. c.emitted) component_delivery-emitted ds budget
          status reason m h in
      let o =
        sum_of is_omitted (λ c. c.omitted) component_delivery-omitted ds budget status reason m h in
      let q =
        sum_of is_partial (λ c. c.partial) component_delivery-partial ds budget status reason m h in
      (
        p ∙ sym (length-tally ds),
        omega (arith, p, e, o, emitted_or_omitted ds),
        omega (arith, e, q, partial_emitted ds),
        o ∙ sym (length-select is_omitted ds),
      )

-- ===== src/Context/Delivery.antt =====
-- The structured delivery manifest of context_budget.py, which observability reads.
use dduo_solo_founder.Prelude.{
  ℕ, not, List, [], ◌∷◌, ◌++◌, Option, none, some, map, length, if◌then◌else◌, select,
}
use dduo_solo_founder.Prelude.Options.{◌>>=◌}
use dduo_solo_founder.Prelude.Equality.{same, list_eq, nat_eq}
use dduo_solo_founder.Context.Text.{Text}
use dduo_solo_founder.Context.Json.{text_less}
use dduo_solo_founder.Context.Fragment.{full, partial, omitted, excerpt_line}
use dduo_solo_founder.Context.Measure.{ContextMeasurement, measure_lines}
use dduo_solo_founder.Context.Render.{
  Decision, DeliveryStatus, is_full, is_partial, is_omitted, context_format_version,
}

pub record ComponentDelivery : Type 0 where
  pub component : Text
  pub produced : ℕ
  pub emitted : ℕ
  pub partial : ℕ
  pub omitted : ℕ
  pub produced_references : List Text
  pub emitted_references : List Text
  pub partial_references : List Text
  pub omitted_references : List Text
  pub produced_measurement : ContextMeasurement
  pub emitted_measurement : ContextMeasurement
  pub non_full_source_measurement : ContextMeasurement

pub record DeliveryManifest : Type 0 where
  pub format_version : ℕ
  pub budget : ℕ
  pub status : DeliveryStatus
  pub components : List ComponentDelivery
  pub fallback_reason : Option Text

-- `grouped_candidates`, in the order of insertion
unfoldable pub add_to_group : Decision → List (Text × List Decision) → List (Text × List Decision)
add_to_group d [] = (d.candidate.fragment.component, d ∷ []) ∷ []
add_to_group d ((name, rows) ∷ rest) =
    let later = add_to_group d rest in
    if same name d.candidate.fragment.component
    then (name, rows ++ d ∷ []) ∷ rest
    else (name, rows) ∷ later

unfoldable pub group : List Decision → List (Text × List Decision) → List (Text × List Decision)
unfolding add_to_group
group [] groups = groups
group (d ∷ ds) groups = group ds (add_to_group d groups)

unfoldable pub insert_group :
    (Text × List Decision) → List (Text × List Decision) → List (Text × List Decision)
unfolding text_less
insert_group g [] = g ∷ []
insert_group g (h ∷ rest) =
    let later = insert_group g rest in if text_less h.0 g.0 then h ∷ later else g ∷ h ∷ rest

unfoldable pub sort_groups : List (Text × List Decision) → List (Text × List Decision)
unfolding insert_group
sort_groups [] = []
sort_groups (g ∷ gs) = insert_group g (sort_groups gs)

abbrev pub reference : Decision → Text
reference d = d.candidate.fragment.reference

abbrev pub source : Decision → Text
source d = d.candidate.full_line

-- the lines of `emitted_measurement`, which skips a missing excerpt
unfoldable pub delivered_lines : List Decision → Option (List Text)
unfolding excerpt_line
delivered_lines [] = some []
delivered_lines (d ∷ ds) =
    let later = delivered_lines ds in
    elim d.outcome [
      | full ↦ later >>= λ lines. some (d.candidate.full_line ∷ lines)
      | partial ↦ excerpt_line d.candidate >>= λ line.
          later >>= λ lines. elim line [ none ↦ some lines | some excerpt ↦ some (excerpt ∷ lines) ]
      | omitted ↦ later
    ]

module _ (sha256 : List ℕ → Text) where
  unfoldable pub component_delivery : (Text × List Decision) → Option ComponentDelivery
  unfolding select delivered_lines measure_lines
  component_delivery (component, rows) =
      let emitted = map reference (select (λ d. not (is_omitted d)) rows) in
      let partial = map reference (select is_partial rows) in
      let omitted = map reference (select is_omitted rows) in
      delivered_lines rows >>= λ lines. some (record {
        component = component;
        produced = length rows;
        emitted = length emitted;
        partial = length partial;
        omitted = length omitted;
        produced_references = map reference rows;
        emitted_references = emitted;
        partial_references = partial;
        omitted_references = omitted;
        produced_measurement = measure_lines sha256 (map source rows);
        emitted_measurement = measure_lines sha256 lines;
        non_full_source_measurement =
            measure_lines sha256 (map source (select (λ d. not (is_full d)) rows));
      })

  unfoldable pub component_deliveries :
      List (Text × List Decision) → Option (List ComponentDelivery)
  unfolding component_delivery
  component_deliveries [] = some []
  component_deliveries (g ∷ gs) =
      let later = component_deliveries gs in
      component_delivery g >>= λ c. later >>= λ cs. some (c ∷ cs)

  unfoldable pub delivery_manifest :
      List Decision → ℕ → DeliveryStatus → Option Text → Option DeliveryManifest
  unfolding component_deliveries sort_groups group
  delivery_manifest ds budget status reason =
      component_deliveries (sort_groups (group ds [])) >>= λ components. some (record {
        format_version = context_format_version;
        budget = budget;
        status = status;
        components = components;
        fallback_reason = reason;
      })

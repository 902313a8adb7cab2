-- ===== src/Context/Compose.antt =====
-- The composition of the automatic context under its budget: `_fallback`,
-- `compose_fallback_context`, `compose_context` and `measure_fragment_sources` of context_budget.py.
use dduo_solo_founder.Prelude.{
  ℕ, ◌+◌, Bool, true, false, ◌&&◌, ◌||◌, not, List, [], ◌∷◌, ◌++◌, Option, none, some, map,
  if◌then◌else◌, leb, ltb, any_row, select,
}
use dduo_solo_founder.Prelude.Options.{◌>>=◌, ◌>>◌, guard}
use dduo_solo_founder.Prelude.Equality.{same, list_eq, nat_eq}
use dduo_solo_founder.Context.Text.{Text, codes, context_units}
use dduo_solo_founder.Context.Json.{end, field, text, number, object, decimal, canonical_json}
use dduo_solo_founder.Context.Fragment.{
  ContextFragment, context_fragment, json, pos, less, Candidate, candidate, FragmentOutcome, full,
  partial, omitted, nonexpanding_excerpt, is_component,
}
use dduo_solo_founder.Context.Measure.{ContextMeasurement, measure, measure_lines}
use dduo_solo_founder.Context.Render.{
  Decision, DeliveryStatus, within_budget, fallback, is_full, render, all_lines, status,
  context_format_version,
}
use dduo_solo_founder.Context.Delivery.{DeliveryManifest, source, delivery_manifest}

pub record ComposedContext : Type 0 where
  pub content : Text
  pub measurement : ContextMeasurement
  pub produced_measurement : ContextMeasurement
  pub deferred_source_measurement : ContextMeasurement
  pub manifest : DeliveryManifest
  pub fallback_used : Bool

-- A budget that is not positive is refused, so that a natural number stands for it.
abbrev pub Indexed : Type 0
Indexed = ℕ × ContextFragment

abbrev pub is_identity : ContextFragment → ContextFragment → Bool
is_identity f g = same f.component g.component && same f.reference g.reference

-- the loop that numbers the fragments and refuses a repeated component and reference
unfoldable pub index_fragments :
    ℕ → List ContextFragment → List ContextFragment → Option (List Indexed)
unfolding any_row
index_fragments index seen [] = some []
index_fragments index seen (f ∷ fs) =
    let later = index_fragments (index + 1) (f ∷ seen) fs in
    guard (not (any_row (is_identity f) seen)) >> (later >>= λ rest. some ((index, f) ∷ rest))

-- `(not required, priority, index)` in the order of tuples
abbrev pub sorts_before : Indexed → Indexed → Bool
sorts_before (i, f) (j, g) =
    let tie = less f.priority g.priority || not (less g.priority f.priority) && ltb i j in
    f.required && not g.required || not (g.required && not f.required) && tie

unfoldable pub insert_indexed : Indexed → List Indexed → List Indexed
insert_indexed x [] = x ∷ []
insert_indexed x (y ∷ rest) =
    let later = insert_indexed x rest in if sorts_before y x then y ∷ later else x ∷ y ∷ rest

unfoldable pub sort_indexed : List Indexed → List Indexed
unfolding insert_indexed
sort_indexed [] = []
sort_indexed (x ∷ xs) = insert_indexed x (sort_indexed xs)

unfoldable pub make_candidates : List Indexed → Option (List Candidate)
unfolding candidate
make_candidates [] = some []
make_candidates ((index, f) ∷ rest) =
    let later = make_candidates rest in candidate index f >>= λ c. later >>= λ cs. some (c ∷ cs)

abbrev pub decide : FragmentOutcome → Candidate → Decision
decide outcome c = record { candidate = c; outcome = outcome }

-- `reserve_later_required` for the candidates after the current one, which are still omitted
unfoldable pub reserve_later_required : List Candidate → Option (List Decision)
unfolding nonexpanding_excerpt
reserve_later_required [] = some []
reserve_later_required (c ∷ cs) =
    let later = reserve_later_required cs in
    if not c.fragment.required
    then (later >>= λ ds. some (decide omitted c ∷ ds))
    else (nonexpanding_excerpt c >>= λ excerpt.
        later >>= λ ds. some (decide (elim excerpt [ none ↦ full | some line ↦ partial ]) c ∷ ds))

-- whether the content of the selection so far fits, with the longest spelling of the status
unfoldable pub fits : ℕ → List Decision → Option Bool
unfolding render context_units
fits budget ds =
    render ds budget within_budget none >>= λ content. some (leb (context_units content) budget)

-- one pass of the selection loop: the outcome of the candidate, or none at a barrier
unfoldable pub try_candidate :
    ℕ → List Decision → Candidate → List Decision → Option (Option FragmentOutcome)
unfolding fits nonexpanding_excerpt
try_candidate budget selected c reserved =
    fits budget (selected ++ decide full c ∷ reserved) >>= λ whole. elim whole [
      | true ↦ some (some full)
      | false ↦ nonexpanding_excerpt c >>= λ excerpt. elim excerpt [
        | none ↦ some none
        | some line ↦ fits budget (selected ++ decide partial c ∷ reserved) >>= λ small.
            some (if small then some partial else none)
      ]
    ]

-- The decided part of `outcomes`, and the candidates from the barrier on, whose outcome stays
-- `omitted`.
pub record Selection : Type 0 where
  pub selected : List Decision
  pub blocked : List Candidate

unfoldable pub select_prefix : ℕ → List Decision → List Candidate → Option Selection
unfolding reserve_later_required try_candidate
select_prefix budget selected [] = some (record { selected = selected; blocked = [] })
select_prefix budget selected (c ∷ cs) = reserve_later_required cs >>= λ reserved.
    try_candidate budget selected c reserved >>= λ choice. elim choice [
      | none ↦ some (record { selected = selected; blocked = c ∷ cs })
      | some outcome ↦ select_prefix budget (selected ++ decide outcome c ∷ []) cs
    ]

abbrev pub is_required : Candidate → Bool
is_required c = c.fragment.required

abbrev pub outcomes : Selection → List Decision
outcomes s = s.selected ++ map (decide omitted) s.blocked

unfoldable pub compact_line : ℕ → Option Text
unfolding canonical_json decimal
compact_line budget = canonical_json (
    object (
      field (codes "_dduo_context")
        (object (
          field (codes "budget") (number (decimal budget)) (
            field (codes "reason") (text (codes "manifest_exceeds_budget")) (
              field (codes "status") (text (codes "fallback"))
                (field (codes "version") (number (decimal context_format_version)) end)))))
        end))

unfoldable pub health_fragment : Text → Option ContextFragment
unfolding context_fragment
health_fragment message =
    context_fragment (codes "health") (pos 0) (codes "context-fallback")
      (json (field (codes "text") (text message) end)) none true

module _ (sha256 : List ℕ → Text) where
  unfoldable pub measure_render :
      List Decision → ℕ → DeliveryStatus → Option Text → Option ContextMeasurement
  unfolding all_lines measure_lines
  measure_render ds budget status reason =
      all_lines ds budget status reason >>= λ lines. some (measure_lines sha256 lines)

  unfoldable pub measure_fragment_sources : List ContextFragment → Option ContextMeasurement
  unfolding index_fragments make_candidates measure_lines
  measure_fragment_sources fragments = index_fragments 0 [] fragments >>= λ indexed.
      make_candidates indexed >>= λ cs. some (measure_lines sha256 (map (λ c. c.full_line) cs))

  unfoldable pub fallback_context :
      List Candidate → ℕ → ContextMeasurement → Text → Option ComposedContext
  unfolding delivery_manifest render context_units compact_line measure measure_lines
  fallback_context cs budget produced reason =
      let ds = map (decide omitted) cs in
      let result : Text → DeliveryManifest → ComposedContext = λ content manifest. record {
        content = content;
        measurement = measure sha256 content;
        produced_measurement = produced;
        deferred_source_measurement = measure_lines sha256 (map (λ c. c.full_line) cs);
        manifest = manifest;
        fallback_used = true;
      } in
      delivery_manifest sha256 ds budget fallback (some reason) >>= λ manifest.
      render ds budget fallback (some reason) >>= λ content.
      if leb (context_units content) budget
      then some (result content manifest)
      else (compact_line budget >>= λ compact.
          guard (leb (context_units compact) budget)
          >> some (
              result compact (record {
                format_version = context_format_version;
                budget = budget;
                status = fallback;
                components = [];
                fallback_reason = some (codes "manifest_exceeds_budget");
              })))

  -- what follows the checks of `compose_fallback_context`, for its one candidate
  unfoldable pub deliver_message : Candidate → ℕ → Text → Option ComposedContext
  unfolding measure_render render context_units fallback_context measure measure_lines
      delivery_manifest
  deliver_message c budget reason =
      let ds = decide full c ∷ [] in
      measure_render ds budget fallback (some reason) >>= λ produced.
      render ds budget fallback (some reason) >>= λ content.
      if ltb budget (context_units content)
      then fallback_context (c ∷ []) budget produced reason
      else (delivery_manifest sha256 ds budget fallback (some reason) >>= λ manifest. some (record {
        content = content;
        measurement = measure sha256 content;
        produced_measurement = produced;
        deferred_source_measurement = measure_lines sha256 [];
        manifest = manifest;
        fallback_used = true;
      }))

  unfoldable pub compose_fallback_context : Text → Text → ℕ → Option ComposedContext
  unfolding is_component health_fragment candidate deliver_message
  compose_fallback_context message reason budget =
      guard (is_component reason)
      >> (guard (ltb 0 budget)
          >> (health_fragment message >>= λ f.
              candidate 0 f >>= λ c. deliver_message c budget reason))

  -- what follows the selection loop
  unfoldable pub deliver :
      List Candidate → ℕ → ContextMeasurement → Selection → Option ComposedContext
  unfolding any_row status render context_units fallback_context delivery_manifest measure
      measure_lines select
  deliver cs budget produced s =
      if any_row is_required s.blocked
      then fallback_context cs budget produced (codes "required_fragment_exceeds_budget")
      else (render (outcomes s) budget (status (outcomes s)) none >>= λ content.
          if ltb budget (context_units content)
          then fallback_context cs budget produced (codes "final_budget_guard")
          else (delivery_manifest sha256 (outcomes s) budget (status (outcomes s)) none
              >>= λ manifest. some (record {
                content = content;
                measurement = measure sha256 content;
                produced_measurement = produced;
                deferred_source_measurement =
                    measure_lines sha256 (map source (select (λ d. not (is_full d)) (outcomes s)));
                manifest = manifest;
                fallback_used = false;
              })))

  unfoldable pub compose_context : List ContextFragment → ℕ → Option ComposedContext
  unfolding index_fragments sort_indexed make_candidates measure_render select_prefix deliver
  compose_context fragments budget =
      guard (ltb 0 budget)
      >> (index_fragments 0 [] fragments >>= λ indexed.
          make_candidates (sort_indexed indexed) >>= λ cs.
          measure_render (map (decide full) cs) budget within_budget none >>= λ produced.
          select_prefix budget [] cs >>= λ s. deliver cs budget produced s)

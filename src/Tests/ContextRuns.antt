-- ===== src/Tests/ContextRuns.antt =====
-- context_budget.py at two fragments, of which the second does not fit.
use dduo_solo_founder.Prelude.{
  In, ◌↔◌, ℕ, ◌+◌, ◌≤◌, true, false, List, [], ◌∷◌, Option, none, some, ◌≡◌, refl, All, any_row,
  length, select, map,
}
use dduo_solo_founder.Context.Text.{Text, codes, context_units}
use dduo_solo_founder.Context.Json.{end, field, text}
use dduo_solo_founder.Context.Fragment.{ContextFragment, json, pos, full, omitted}
use dduo_solo_founder.Context.Measure.{ContextMeasurement, join_lines, measure, measure_lines}
use dduo_solo_founder.Context.Render.{render, status, budgeted, is_omitted, Decision}
use dduo_solo_founder.Context.Delivery.{delivery_manifest, DeliveryManifest}
use dduo_solo_founder.Context.Compose.{
  ComposedContext, Selection, Indexed, compose_context, compose_fallback_context, index_fragments,
  make_candidates, sort_indexed, outcomes, is_required, decide,
}
use dduo_solo_founder.Context.Streaming.{measure_lines-join_lines}
use dduo_solo_founder.Context.Budget.{compose_context-Fits, compose_fallback_context-Fits}
use dduo_solo_founder.Context.Prefix.{compose_context-prefix, candidates, IsEmitted}
use dduo_solo_founder.Context.Order.{InOrder, sort_indexed-sorts}
use dduo_solo_founder.Context.Totals.{
  delivery_manifest-totals, total_produced, total_emitted, total_partial, total_omitted,
}

-- a stand-in for the digest
abbrev digest : List ℕ → Text
digest bytes = length bytes ∷ []

abbrev task_fragment : ContextFragment
task_fragment = record {
  component = codes "tasks";
  priority = pos 5;
  reference = codes "t1";
  payload = json (field (codes "title") (text (codes "Ship")) end);
  excerpt = none;
  required = true;
}

abbrev note_fragment : ContextFragment
note_fragment = record {
  component = codes "notes";
  priority = pos 1;
  reference = codes "n1";
  payload = json (
      field (codes "text") (text (codes "a note that is too long for what is left of the budget"))
        end);
  excerpt = none;
  required = false;
}

abbrev fragments : List ContextFragment
fragments = note_fragment ∷ task_fragment ∷ []

abbrev budget : ℕ
budget = 400

-- The value of a run that returns; the tests below use it for such runs alone.
abbrev value_of {ℓ} : {A : Type ℓ} → A → Option A → A
value_of other none = other
value_of other (some x) = x

abbrev no_manifest : DeliveryManifest
no_manifest = record {
  format_version = 0;
  budget = 0;
  status = budgeted;
  components = [];
  fallback_reason = none;
}

abbrev no_context : ComposedContext
no_context =
    let nothing : ContextMeasurement = record {
      characters = 0;
      utf16_units = 0;
      utf8_bytes = 0;
      budget_units = 0;
      sha256 = [];
    } in
    record {
      content = [];
      measurement = nothing;
      produced_measurement = nothing;
      deferred_source_measurement = nothing;
      manifest = no_manifest;
      fallback_used = true;
    }

composed : ComposedContext
unfolding compose_context
composed = value_of no_context (compose_context digest fragments budget)

composed_returned : compose_context digest fragments budget ≡ some composed
unfolding compose_context composed
composed_returned = refl

-- One fragment is delivered: the required one, though the other has a lower priority value.
one_delivered :
    map {B = Text × ℕ × ℕ} (λ c. (c.component, c.emitted, c.omitted)) composed.manifest.components
    ≡ (codes "notes", 0, 1) ∷ (codes "tasks", 1, 0) ∷ []
unfolding composed
one_delivered = refl

compose_context-Fits_example : context_units composed.content ≤ 400
compose_context-Fits_example =
    compose_context-Fits digest fragments budget composed composed_returned

message_context : ComposedContext
unfolding compose_fallback_context
message_context =
    value_of no_context (compose_fallback_context digest (codes "no memory") (codes "offline") 300)

message_returned :
    compose_fallback_context digest (codes "no memory") (codes "offline") 300 ≡ some message_context
unfolding compose_fallback_context message_context
message_returned = refl

compose_fallback_context-Fits_example : context_units message_context.content ≤ 300
compose_fallback_context-Fits_example =
    compose_fallback_context-Fits digest (codes "no memory") (codes "offline") 300 message_context
      message_returned

not_a_fallback : composed.fallback_used ≡ false
unfolding composed
not_a_fallback = refl

compose_context-prefix_example :
    (indexed : List Indexed) × (s : Selection) × (index_fragments 0 [] fragments ≡ some indexed)
    × (make_candidates (sort_indexed indexed) ≡ some (candidates s))
    × All IsEmitted s.selected
    × (any_row is_required s.blocked ≡ false)
    × (render (outcomes s) budget (status (outcomes s)) none ≡ some composed.content)
    × (delivery_manifest digest (outcomes s) budget (status (outcomes s)) none
        ≡ some composed.manifest)
compose_context-prefix_example =
    compose_context-prefix digest fragments budget composed composed_returned not_a_fallback

abbrev decisions : List Decision
decisions =
    decide full (record { index = 1; fragment = task_fragment; full_line = codes "{1}" })
    ∷ decide omitted (record { index = 0; fragment = note_fragment; full_line = codes "{2}" })
    ∷ []

two_components : DeliveryManifest
unfolding delivery_manifest
two_components = value_of no_manifest (delivery_manifest digest decisions 260 budgeted none)

manifest_returned : delivery_manifest digest decisions 260 budgeted none ≡ some two_components
unfolding delivery_manifest two_components
manifest_returned = refl

delivery_manifest-totals_example :
    (total_produced two_components ≡ 2)
    × (total_emitted two_components + total_omitted two_components ≡ total_produced two_components)
    × (total_partial two_components ≤ total_emitted two_components)
    × (total_omitted two_components ≡ length (select is_omitted decisions))
delivery_manifest-totals_example =
    delivery_manifest-totals digest decisions 260 budgeted none two_components manifest_returned

measure_lines-join_lines_example :
    measure_lines digest (codes "a" ∷ codes "bc" ∷ [])
    ≡ measure digest (join_lines (codes "a" ∷ codes "bc" ∷ []))
measure_lines-join_lines_example = measure_lines-join_lines digest (codes "a" ∷ codes "bc" ∷ [])

abbrev numbered : List Indexed
numbered = (0, note_fragment) ∷ (1, task_fragment) ∷ []

sort_indexed-sorts_example :
    InOrder (sort_indexed numbered)
    × (In (1, task_fragment) numbered ↔ In (1, task_fragment) (sort_indexed numbered))
sort_indexed-sorts_example = sort_indexed-sorts numbered (1, task_fragment)

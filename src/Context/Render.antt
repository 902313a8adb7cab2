-- ===== src/Context/Render.antt =====
-- The rendered context and its delivery manifest in context_budget.py.
use dduo_solo_founder.Prelude.{
  ℕ, ◌+◌, Bool, true, false, List, [], ◌∷◌, ◌++◌, Option, none, some, if◌then◌else◌, String,
}
use dduo_solo_founder.Prelude.Options.{◌>>=◌}
use dduo_solo_founder.Prelude.Equality.{same, list_eq, nat_eq}
use dduo_solo_founder.Context.Text.{Text, codes}
use dduo_solo_founder.Context.Json.{
  Json, Fields, end, field, text, number, object, decimal, canonical_json,
}
use dduo_solo_founder.Context.Fragment.{
  Candidate, FragmentOutcome, full, partial, omitted, excerpt_line,
}
use dduo_solo_founder.Context.Measure.{join_lines}

pub data DeliveryStatus : Type 0 where
  within_budget budgeted fallback : DeliveryStatus

abbrev pub spelling : DeliveryStatus → String
spelling within_budget = "within_budget"
spelling budgeted = "budgeted"
spelling fallback = "fallback"

-- A candidate with its outcome: the source keeps the two in lists of the same length that it zips.
pub record Decision : Type 0 where
  pub candidate : Candidate
  pub outcome : FragmentOutcome

abbrev pub is_full : Decision → Bool
is_full d = elim d.outcome [ FragmentOutcome.full ↦ true | _ ↦ false ]

abbrev pub is_partial : Decision → Bool
is_partial d = elim d.outcome [ FragmentOutcome.partial ↦ true | _ ↦ false ]

abbrev pub is_omitted : Decision → Bool
is_omitted d = elim d.outcome [ FragmentOutcome.omitted ↦ true | _ ↦ false ]

pub record Counts : Type 0 where
  pub produced : ℕ
  pub emitted : ℕ
  pub partial : ℕ
  pub omitted : ℕ

abbrev pub count : FragmentOutcome → Counts → Counts
count full n = record n { produced = n.produced + 1; emitted = n.emitted + 1 }
count partial n = record n {
  produced = n.produced + 1;
  emitted = n.emitted + 1;
  partial = n.partial + 1;
}
count omitted n = record n { produced = n.produced + 1; omitted = n.omitted + 1 }

abbrev pub no_counts : Counts
no_counts = record { produced = 0; emitted = 0; partial = 0; omitted = 0 }

-- `setdefault` and the increments, on a dictionary in the order of insertion
unfoldable pub count_component :
    Text → FragmentOutcome → List (Text × Counts) → List (Text × Counts)
count_component component outcome [] = (component, count outcome no_counts) ∷ []
count_component component outcome ((name, n) ∷ rest) =
    let later = count_component component outcome rest in
    if same name component then (name, count outcome n) ∷ rest else (name, n) ∷ later

unfoldable pub count_all : List Decision → List (Text × Counts) → List (Text × Counts)
unfolding count_component
count_all [] result = result
count_all (d ∷ ds) result =
    count_all ds (count_component d.candidate.fragment.component d.outcome result)

unfoldable pub component_counts : List Decision → List (Text × Counts)
unfolding count_all
component_counts ds = count_all ds []

unfoldable pub counts_json : Counts → Json
unfolding decimal
counts_json n = object (
    field (codes "produced") (number (decimal n.produced)) (
      field (codes "emitted") (number (decimal n.emitted)) (
        field (codes "partial") (number (decimal n.partial))
          (field (codes "omitted") (number (decimal n.omitted)) end))))

unfoldable pub counts_fields : List (Text × Counts) → Fields
unfolding counts_json
counts_fields [] = end
counts_fields ((name, n) ∷ rest) = field name (counts_json n) (counts_fields rest)

abbrev pub context_format_version : ℕ
context_format_version = 1

abbrev pub reason_field : Option Text → Fields
reason_field none = end
reason_field (some reason) = field (codes "reason") (text reason) end

unfoldable pub manifest_line : List Decision → ℕ → DeliveryStatus → Option Text → Option Text
unfolding component_counts counts_fields canonical_json decimal
manifest_line ds budget status reason = canonical_json (
    object (
      field (codes "_dduo_context")
        (object (
          field (codes "budget") (number (decimal budget)) (
            field (codes "components") (object (counts_fields (component_counts ds))) (
              field (codes "status") (text (codes (spelling status))) (
                field (codes "version") (number (decimal context_format_version))
                  (reason_field reason))))))
        end))

-- The line of a partial decision: `none` stands for the failed assertion as well.
unfoldable pub decision_line : Decision → Option (Option Text)
unfolding excerpt_line
decision_line d = elim d.outcome [
  | full ↦ some (some d.candidate.full_line)
  | partial ↦ excerpt_line d.candidate >>= λ line. line >>= λ excerpt. some (some excerpt)
  | omitted ↦ some none
]

unfoldable pub emitted_lines : List Decision → Option (List Text)
unfolding decision_line
emitted_lines [] = some []
emitted_lines (d ∷ ds) =
    let later = emitted_lines ds in
    decision_line d >>= λ line.
    later >>= λ lines. elim line [ none ↦ some lines | some emitted ↦ some (emitted ∷ lines) ]

-- the lines of `_render` and of `_measure_render`
unfoldable pub all_lines : List Decision → ℕ → DeliveryStatus → Option Text → Option (List Text)
unfolding emitted_lines manifest_line
all_lines ds budget status reason = emitted_lines ds >>= λ lines.
    manifest_line ds budget status reason >>= λ last. some (lines ++ last ∷ [])

unfoldable pub render : List Decision → ℕ → DeliveryStatus → Option Text → Option Text
unfolding all_lines join_lines
render ds budget status reason =
    all_lines ds budget status reason >>= λ lines. some (join_lines lines)

unfoldable pub status : List Decision → DeliveryStatus
status [] = within_budget
status (d ∷ ds) = let later = status ds in if is_full d then later else budgeted

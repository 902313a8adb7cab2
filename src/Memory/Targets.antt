-- ===== src/Memory/Targets.antt =====
-- `_current_by_key` and `_target_for_action` of memory_engine.py: which memory an action is about.
use dduo_solo_founder.Prelude.{
  Bool, true, false, ◌&&◌, List, [], ◌∷◌, Option, none, some, ltb, if◌then◌else◌, select, find_row,
}
use dduo_solo_founder.Prelude.Options.{◌>>=◌}
use dduo_solo_founder.Prelude.Equality.{same, list_eq, nat_eq}
use dduo_solo_founder.Context.Text.{Text}
use dduo_solo_founder.Memory.Keys.{normalize_node_key}
use dduo_solo_founder.Memory.Store.{
  NodeType, episode, reusable_fact, heuristic, is_active, Memory, MemoryAction, create,
  replace_current, set_status, MemoryActionPayload,
}

abbrev pub same_type : NodeType → NodeType → Bool
same_type episode episode = true
same_type reusable_fact reusable_fact = true
same_type heuristic heuristic = true
same_type _ _ = false

-- `order_by(desc(Memory.revision)).limit(1)`
unfoldable pub latest : List Memory → Option Memory
latest [] = none
latest (m ∷ ms) = elim (latest ms) [
  | none ↦ some m
  | some n ↦ if ltb m.revision n.revision then some n else some m
]

abbrev pub has_key : Text → NodeType → Text → Memory → Bool
has_key project node_type node_key m =
    same m.project_id project
    && same_type m.node_type node_type
    && same m.node_key node_key
    && is_active m.status

unfoldable pub current_by_key : Text → NodeType → Text → List Memory → Option Memory
unfolding latest select
current_by_key project node_type node_key ms =
    latest (select (has_key project node_type node_key) ms)

abbrev pub has_id : Text → Text → Memory → Bool
has_id project i m = same m.id i && same m.project_id project

abbrev pub current_in_group : Text → Text → Memory → Bool
current_in_group project group m =
    same m.project_id project && same m.memory_group_id group && is_active m.status

-- one pass of the loop over the sources
unfoldable pub current_of_source : Text → List Memory → Text → Option Memory
unfolding latest select find_row
current_of_source project ms i = find_row (has_id project i) ms >>= λ source.
    if is_active source.status
    then some source
    else latest (select (current_in_group project source.memory_group_id) ms)

unfoldable pub first_source : Text → List Memory → List Text → Option Memory
unfolding current_of_source
first_source project ms [] = none
first_source project ms (i ∷ is) = elim (current_of_source project ms i) [
  | some m ↦ some m
  | none ↦ first_source project ms is
]

abbrev pub reads_sources : MemoryAction → Bool
reads_sources create = false
reads_sources replace_current = true
reads_sources set_status = true

-- the outer `none` is the `ValueError` of an empty key
unfoldable pub target_for_action : Text → MemoryActionPayload → List Memory → Option (Option Memory)
unfolding first_source current_by_key normalize_node_key
target_for_action project a ms =
    let named =
      if reads_sources a.action then first_source project ms a.source_node_ids else none in
    elim named [
      | some m ↦ some (some m)
      | none ↦ normalize_node_key a.target_node_key >>= λ key.
          some (current_by_key project a.target_node_type key ms)
    ]

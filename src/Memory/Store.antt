-- ===== src/Memory/Store.antt =====
-- The rows that memory_engine.py reads and writes, from models.py, and the payload of a memory action
-- from schemas.py. Identifiers are texts.
use dduo_solo_founder.Prelude.{ℕ, Bool, true, false, List, [], ◌∷◌, Option, if◌then◌else◌}
use dduo_solo_founder.Prelude.Equality.{same, list_eq, nat_eq}
use dduo_solo_founder.Context.Text.{Text}
use dduo_solo_founder.Context.Json.{Json, Fields, end, field}

pub data NodeType : Type 0 where
  episode reusable_fact heuristic : NodeType

pub data MemoryStatus : Type 0 where
  active inactive superseded : MemoryStatus

abbrev pub is_active : MemoryStatus → Bool
is_active active = true
is_active inactive = false
is_active superseded = false

pub record Memory : Type 0 where
  pub id : Text
  pub project_id : Text
  pub node_type : NodeType
  pub node_key : Text
  pub text : Text
  pub status : MemoryStatus
  pub memory_group_id : Text
  pub revision : ℕ
  pub supersedes_id : Option Text
  pub superseded_by_id : Option Text
  pub source_turn_ids : List Text
  pub source_message_ids : List Text
  pub source_node_ids : List Text
  pub source_artifact_ids : List Text
  pub sleep_job_id : Option Text
  pub valid_from : ℕ
  pub valid_to : Option ℕ
  pub metadata_json : Fields
  pub created_at : ℕ
  pub updated_at : ℕ

-- the pending `memory.upsert` event
pub record MemoryEvent : Type 0 where
  pub project_id : Text
  pub aggregate_id : Text
  pub text : Text
  pub node_type : NodeType
  pub node_key : Text
  pub status : MemoryStatus
  pub revision : ℕ
  pub memory_group_id : Text
  pub actor_member_id : Option Text

pub record MemoryActivity : Type 0 where
  pub project_id : Text
  pub kind : Text
  pub summary : Text
  pub detail : Fields
  pub actor : Text
  pub actor_member_id : Option Text

pub record MemoryDb : Type 0 where
  pub memories : List Memory
  pub outbox : List MemoryEvent
  pub activities : List MemoryActivity

pub data MemoryAction : Type 0 where
  create replace_current set_status : MemoryAction

pub record MemoryActionPayload : Type 0 where
  pub action : MemoryAction
  pub target_node_type : NodeType
  pub target_node_key : Text
  pub text : Text
  pub status : MemoryStatus
  pub source_message_ids : List Text
  pub source_node_ids : List Text
  pub artifact_ids : List Text
  pub metadata : Fields

pub record SleepJob : Type 0 where
  pub id : Text
  pub project_id : Text
  pub provider : Text
  pub trigger : Text
  pub actor_member_id : Option Text

-- What a call takes from its surroundings: the clock, the member of the request's principal, none
-- for an anonymous one, and the identifiers that `uid` gives.
pub record Surroundings : Type 0 where
  pub now : ℕ
  pub request_member : Option Text
  pub new_memory_id : Text
  pub new_group_id : Text

-- `d[key] = value`
unfoldable pub set_key : Text → Json → Fields → Fields
set_key key value end = field key value end
set_key key value (field k v rest) =
    let later = set_key key value rest in if same k key then field k value rest else field k v later

-- `list(dict.fromkeys(...))`
unfoldable pub contains : Text → List Text → Bool
contains x [] = false
contains x (y ∷ ys) = let rest = contains x ys in if same y x then true else rest

unfoldable pub unique_from : List Text → List Text → List Text
unfolding contains
unique_from seen [] = []
unique_from seen (x ∷ xs) = elim (contains x seen) [
  | true ↦ unique_from seen xs
  | false ↦ x ∷ unique_from (x ∷ seen) xs
]

unfoldable pub from_keys : List Text → List Text
unfolding unique_from
from_keys xs = unique_from [] xs

-- ===== src/Memory/Sleep.antt =====
-- `enqueue_memory_index`, `apply_sleep_action` and `forget_memory` of memory_engine.py.
use dduo_solo_founder.Prelude.{
  ◌+◌, Bool, true, false, ◌&&◌, List, [], ◌∷◌, ◌++◌, Option, none, some, map, if◌then◌else◌, select,
  find_row, update_rows,
}
use dduo_solo_founder.Prelude.Options.{◌>>=◌}
use dduo_solo_founder.Prelude.Equality.{same, list_eq, nat_eq}
use dduo_solo_founder.Context.Text.{Text, codes}
use dduo_solo_founder.Context.Json.{end, field, text, object, number, decimal}
use dduo_solo_founder.Memory.Keys.{normalize_node_key, strip_chars, is_space}
use dduo_solo_founder.Memory.Store.{
  MemoryStatus, active, inactive, superseded, Memory, MemoryEvent, MemoryActivity, MemoryDb,
  MemoryAction, create, replace_current, set_status, MemoryActionPayload, SleepJob, Surroundings,
  set_key, from_keys,
}
use dduo_solo_founder.Memory.Targets.{has_id, target_for_action}

-- an empty member id is left out
abbrev pub truthy_member : Option Text → Option Text
truthy_member none = none
truthy_member (some []) = none
truthy_member (some (c ∷ cs)) = some (c ∷ cs)

unfoldable pub index_event : Surroundings → Option Text → Memory → MemoryEvent
index_event around actor m = record {
  project_id = m.project_id;
  aggregate_id = m.id;
  text = m.text;
  node_type = m.node_type;
  node_key = m.node_key;
  status = m.status;
  revision = m.revision;
  memory_group_id = m.memory_group_id;
  actor_member_id = truthy_member (elim actor [ none ↦ around.request_member | some i ↦ some i ]);
}

pub data Outcome : Type 0 where
  skipped status_updated replaced created : Outcome

abbrev pub status_text : MemoryStatus → Text
status_text active = codes "active"
status_text inactive = codes "inactive"
status_text superseded = codes "superseded"

abbrev pub action_text : MemoryAction → Text
action_text create = codes "create"
action_text replace_current = codes "replace_current"
action_text set_status = codes "set_status"

abbrev pub effective_action : MemoryAction → Bool → Text
effective_action create true = codes "replace_current"
effective_action create false = codes "create"
effective_action replace_current true = codes "replace_current"
effective_action replace_current false = codes "create_missing_target"
effective_action set_status found = codes "set_status"

pub record SleepCall : Type 0 where
  pub job : SleepJob
  pub action : MemoryActionPayload
  pub source_turn_ids : List Text
  pub source_artifact_ids : List Text
  pub memory_language : Text
  pub around : Surroundings

abbrev pub is_row : Text → Memory → Bool
is_row i m = same m.id i

abbrev pub actor_text : SleepCall → Text
actor_text c = codes "sleep:" ++ c.job.provider

unfoldable pub change_status : SleepCall → Memory → Memory
unfolding set_key
change_status c m = record m {
  status = c.action.status;
  valid_to = some c.around.now;
  updated_at = c.around.now;
  metadata_json =
      set_key (codes "last_sleep_job_id") (text c.job.id)
        (set_key (codes "last_status_reason") (object c.action.metadata) m.metadata_json);
}

unfoldable pub apply_status : SleepCall → Memory → MemoryDb → MemoryDb
unfolding change_status update_rows index_event
apply_status c target db =
    let changed = change_status c target in
    record {
      memories = update_rows (is_row target.id) (change_status c) db.memories;
      outbox = db.outbox ++ index_event c.around c.job.actor_member_id changed ∷ [];
      activities =
          db.activities
          ++ record {
            project_id = c.job.project_id;
            kind = codes "memory.status";
            summary =
                codes "Memory set to "
                ++ (status_text c.action.status ++ (codes ": " ++ target.node_key));
            detail = field (codes "memory_id") (text target.id) (
                field (codes "job_id") (text c.job.id)
                  (field (codes "action") (text (codes "set_status")) end));
            actor = actor_text c;
            actor_member_id = c.job.actor_member_id;
          }
            ∷ [];
    }

abbrev pub new_status : MemoryStatus → MemoryStatus
new_status active = active
new_status inactive = inactive
new_status superseded = active

abbrev pub from_target {ℓ} : {A : Type ℓ} → Option Memory → A → (Memory → A) → A
from_target none other f = other
from_target (some m) other f = f m

abbrev pub is_found : Option Memory → Bool
is_found none = false
is_found (some m) = true

unfoldable pub new_memory : SleepCall → Option Memory → Text → Memory
unfolding set_key from_keys strip_chars
new_memory c target node_key =
    let metadata =
      set_key (codes "language_policy_version") (text (codes "topic-user-language-v2")) (
        set_key (codes "language") (text c.memory_language) (
          set_key (codes "trigger") (text c.job.trigger) (
            set_key (codes "provider") (text c.job.provider) (
              set_key (codes "effective_action")
                (text (effective_action c.action.action (is_found target)))
                (set_key (codes "model_action") (text (action_text c.action.action))
                  c.action.metadata))))) in
    record {
      id = c.around.new_memory_id;
      project_id = c.job.project_id;
      node_type = from_target target c.action.target_node_type (λ t. t.node_type);
      node_key = node_key;
      text = strip_chars is_space c.action.text;
      status = new_status c.action.status;
      memory_group_id = from_target target c.around.new_group_id (λ t. t.memory_group_id);
      revision = from_target target 1 (λ t. t.revision + 1);
      supersedes_id = from_target target none (λ t. some t.id);
      superseded_by_id = none;
      source_turn_ids = from_keys c.source_turn_ids;
      source_message_ids = from_keys c.action.source_message_ids;
      source_node_ids = from_keys c.action.source_node_ids;
      source_artifact_ids = from_keys (
          from_target target [] (λ t. t.source_artifact_ids)
          ++ (c.source_artifact_ids ++ c.action.artifact_ids));
      sleep_job_id = some c.job.id;
      valid_from = c.around.now;
      valid_to = none;
      metadata_json = metadata;
      created_at = c.around.now;
      updated_at = c.around.now;
    }

abbrev pub supersede : SleepCall → Memory → Memory
supersede c m = record m {
  status = superseded;
  valid_to = some c.around.now;
  updated_at = c.around.now;
}

-- the link that is set after the flush of the new row
abbrev pub link : SleepCall → Memory → Memory
link c m = record m { superseded_by_id = some c.around.new_memory_id }

unfoldable pub write_revision : SleepCall → Option Memory → Memory → List Memory → List Memory
unfolding update_rows
write_revision c none m ms = ms ++ m ∷ []
write_revision c (some t) m ms =
    update_rows (is_row t.id) (link c) (update_rows (is_row t.id) (supersede c) ms ++ m ∷ [])

unfoldable pub revision_activity : SleepCall → Bool → Memory → MemoryActivity
unfolding decimal
revision_activity c found m = record {
  project_id = c.job.project_id;
  kind = if found then codes "memory.replaced" else codes "memory.created";
  summary =
      codes "Memory "
      ++ ((if found then codes "revised" else codes "created") ++ (codes ": " ++ m.node_key));
  detail = field (codes "memory_id") (text m.id) (
      field (codes "memory_group_id") (text m.memory_group_id) (
        field (codes "revision") (number (decimal m.revision)) (
          field (codes "job_id") (text c.job.id) (
            field (codes "model_action") (text (action_text c.action.action)) (
              field (codes "effective_action") (text (effective_action c.action.action found))
                end)))));
  actor = actor_text c;
  actor_member_id = c.job.actor_member_id;
}

unfoldable pub apply_revision : SleepCall → Option Memory → Text → MemoryDb → Memory × MemoryDb
unfolding new_memory write_revision index_event revision_activity
apply_revision c target node_key db =
    let m = new_memory c target node_key in
    let actor = c.job.actor_member_id in
    (
      m,
      record {
        memories = write_revision c target m db.memories;
        outbox =
            db.outbox
            ++ (from_target target []
                  (λ t. index_event c.around actor (link c (supersede c t)) ∷ [])
                ++ index_event c.around actor m ∷ []);
        activities = db.activities ++ revision_activity c (is_found target) m ∷ [];
      },
    )

abbrev pub is_status_action : MemoryAction → Bool
is_status_action create = false
is_status_action replace_current = false
is_status_action set_status = true

-- the node key of the written memory: that of its target, or the normalised one
unfoldable pub node_key_of : SleepCall → Option Memory → Option Text
unfolding normalize_node_key
node_key_of c none = normalize_node_key c.action.target_node_key
node_key_of c (some t) = some t.node_key

unfoldable pub apply_sleep_action :
    SleepCall → MemoryDb → Option (Option Memory × Outcome × MemoryDb)
unfolding target_for_action node_key_of apply_status apply_revision change_status
apply_sleep_action c db = target_for_action c.job.project_id c.action db.memories >>= λ target.
    node_key_of c target >>= λ node_key.
    if is_status_action c.action.action
    then elim target [
      | none ↦ some (none, skipped, db)
      | some t ↦ some (some (change_status c t), status_updated, apply_status c t db)
    ]
    else (let written = apply_revision c target node_key db in
        some (some written.0, if is_found target then replaced else created, written.1))

abbrev pub in_group : Text → Text → Memory → Bool
in_group project group m = same m.project_id project && same m.memory_group_id group

unfoldable pub forget : Surroundings → Text → Memory → Memory
unfolding set_key
forget around rationale m = record m {
  status = inactive;
  valid_to = elim m.valid_to [ none ↦ some around.now | some t ↦ some t ];
  updated_at = around.now;
  metadata_json = set_key (codes "forgotten_reason") (text rationale) m.metadata_json;
}

-- `none` stands for the `LookupError`
unfoldable pub forget_memory :
    Surroundings → Text → Text → Text → MemoryDb → Option (List Memory × MemoryDb)
unfolding find_row select update_rows forget index_event
forget_memory around project i rationale db = find_row (has_id project i) db.memories >>= λ m.
    (let rows = select (in_group project m.memory_group_id) db.memories in
      let forgotten = map (forget around rationale) rows in
      some (
        forgotten,
        record db {
          memories =
              update_rows (in_group project m.memory_group_id) (forget around rationale)
                db.memories;
          outbox = db.outbox ++ map (index_event around none) forgotten;
        },
      ))

-- ===== src/Index/Events.antt =====
-- The events of outbox.py, the claim of the next one, and what `enqueue_task_projection` and
-- `pending_task_projection_ids` of task_index.py write and read.
use dduo_solo_founder.Prelude.{
  ℕ, Bool, true, false, ◌&&◌, Option, none, some, List, [], ◌∷◌, ◌++◌, map, ltb, leb, ◌==◌,
  if◌then◌else◌, select, find_row, String,
}
use dduo_solo_founder.Context.Text.{Text}
use dduo_solo_founder.Work.Store.{RowId, Task}
use dduo_solo_founder.Team.Authority.{AuthorityRow, project_authority_predicate}

pub data EventType : Type 0 where
  memory_upsert task_upsert : EventType
  other_type : String → EventType

abbrev pub is_task_upsert : EventType → Bool
is_task_upsert memory_upsert = false
is_task_upsert task_upsert = true
is_task_upsert (other_type name) = false

pub data EventStatus : Type 0 where
  pending failed processed : EventStatus

-- `status IN ('pending', 'failed')`
abbrev pub is_open : EventStatus → Bool
is_open pending = true
is_open failed = true
is_open processed = false

-- Of the payload the two values that the processor reads: the text of a memory, and `task_version`,
-- which is none where the key is missing or holds no integer.
pub record OutboxEvent : Type 0 where
  pub id : RowId
  pub project_id : RowId
  pub event_type : EventType
  pub aggregate_id : RowId
  pub text : Option Text
  pub task_version : Option ℕ
  pub status : EventStatus
  pub attempts : ℕ
  pub delivery_priority : ℕ
  pub has_error : Bool
  pub created_at : ℕ
  pub next_attempt_at : ℕ
  pub processed_at : Option ℕ

pub data EventOrigin : Type 0 where
  live bootstrap restore : EventOrigin

abbrev pub origin_priority : EventOrigin → ℕ
origin_priority live = 0
origin_priority bootstrap = 10
origin_priority restore = 10

-- `enqueue_task_projection` for an origin that it accepts; `id` and `now` are the defaults of the row
unfoldable pub enqueue_task_projection :
    RowId → ℕ → Task → EventOrigin → List OutboxEvent → List OutboxEvent
enqueue_task_projection id now t origin events =
    events
    ++ record {
      id = id;
      project_id = t.project_id;
      event_type = task_upsert;
      aggregate_id = t.id;
      text = none;
      task_version = some t.version;
      status = pending;
      attempts = 0;
      delivery_priority = origin_priority origin;
      has_error = false;
      created_at = now;
      next_attempt_at = now;
      processed_at = none;
    }
      ∷ []

-- the observation of one attempt, without its measurements
pub record Observation : Type 0 where
  pub outbox_event_id : RowId
  pub attempt : ℕ
  pub success : Bool
  pub item_count : ℕ

pub record OutboxDb : Type 0 where
  pub projects : List AuthorityRow
  pub tasks : List Task
  pub events : List OutboxEvent
  pub observations : List Observation

abbrev pub is_project_row : RowId → AuthorityRow → Bool
is_project_row p row = row.project_id == p

abbrev pub is_task_of : RowId → RowId → Task → Bool
is_task_of p i t = t.id == i && t.project_id == p

abbrev pub is_event : RowId → OutboxEvent → Bool
is_event i e = e.id == i

abbrev pub version_matches : Option ℕ → Option Task → Bool
version_matches (some v) (some t) = v == t.version
version_matches none found = false
version_matches (some v) none = false

-- `pending_task_projection_ids`
unfoldable pub pending_task_projection_ids : RowId → OutboxDb → List RowId
unfolding select find_row
pending_task_projection_ids p db = map (λ e. e.aggregate_id) (select current db.events)
  where
    current : OutboxEvent → Bool
    current e =
        e.project_id == p
        && is_task_upsert e.event_type
        && is_open e.status
        && version_matches e.task_version
            (find_row (is_task_of e.project_id e.aggregate_id) db.tasks)

abbrev pub test_row {ℓ} : {A : Type ℓ} → (A → Bool) → Option A → Bool
test_row test none = false
test_row test (some row) = test row

-- the condition of the claim
unfoldable pub is_ready : ℕ → RowId → List AuthorityRow → OutboxEvent → Bool
unfolding find_row project_authority_predicate
is_ready now node projects e =
    is_open e.status
    && leb e.next_attempt_at now
    && test_row (project_authority_predicate node) (find_row (is_project_row e.project_id) projects)

-- `delivery_priority, next_attempt_at, created_at`
abbrev pub comes_first : OutboxEvent → OutboxEvent → Bool
comes_first a b =
    if a.delivery_priority == b.delivery_priority
    then if a.next_attempt_at == b.next_attempt_at
      then leb a.created_at b.created_at
      else ltb a.next_attempt_at b.next_attempt_at
    else ltb a.delivery_priority b.delivery_priority

abbrev pub earlier : OutboxEvent → Option OutboxEvent → OutboxEvent
earlier e none = e
earlier e (some best) = if comes_first e best then e else best

-- `.order_by(...).limit(1)`
unfoldable pub first_event : List OutboxEvent → Option OutboxEvent
first_event [] = none
first_event (e ∷ es) = some (earlier e (first_event es))

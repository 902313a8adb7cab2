-- ===== src/Work/Store.antt =====
-- The rows of backend/dduo_solo_founder/models.py that task and sprint operations read and write.
use dduo_solo_founder.Prelude.{
  ◌≡◌, refl, ◌⊎◌, inl, inr, ℕ, ◌+◌, String, Bool, true, false, ◌&&◌, Option, none, some, List, [],
  ◌∷◌, ◌++◌, ◌==◌, not, any_row, update_rows, if◌then◌else◌,
}

-- A text that is only compared for equality, such as a UUID. 0 stands for the empty text.
abbrev pub RowId : Type 0
RowId = ℕ

-- `if value:` on an optional identifier
abbrev pub truthy : Option RowId → Bool
truthy none = false
truthy (some i) = not (i == 0)

abbrev pub is_id : Option RowId → RowId → Bool
is_id none i = false
is_id (some j) i = j == i

pub data TaskKind : Type 0 where
  task epic : TaskKind

abbrev pub is_epic : TaskKind → Bool
is_epic task = false
is_epic epic = true

pub data TaskStatus : Type 0 where
  todo in_progress blocked done cancelled : TaskStatus

pub data TaskPriority : Type 0 where
  low medium high critical : TaskPriority

-- `status in TERMINAL`
abbrev pub is_terminal : TaskStatus → Bool
is_terminal todo = false
is_terminal in_progress = false
is_terminal blocked = false
is_terminal done = true
is_terminal cancelled = true

pub record Task : Type 0 where
  pub id : RowId
  pub project_id : RowId
  pub kind : TaskKind
  pub epic_id : Option RowId
  pub sprint_id : Option RowId
  pub title : String
  pub description : String
  pub status : TaskStatus
  pub priority : TaskPriority
  pub labels : List String
  pub objective : Option String
  pub next_action : Option String
  pub due_at : Option ℕ
  pub dependencies : List String
  pub rationale : Option String
  pub completion_evidence : Option String
  pub version : ℕ
  pub created_at : ℕ
  pub updated_at : ℕ

pub data SprintStatus : Type 0 where
  planned active archived : SprintStatus

abbrev pub is_planned : SprintStatus → Bool
is_planned planned = true
is_planned active = false
is_planned archived = false

abbrev pub is_active : SprintStatus → Bool
is_active planned = false
is_active active = true
is_active archived = false

abbrev pub is_archived : SprintStatus → Bool
is_archived planned = false
is_archived active = false
is_archived archived = true

pub record Sprint : Type 0 where
  pub id : RowId
  pub project_id : RowId
  pub title : String
  pub objective : String
  pub status : SprintStatus
  pub version : ℕ
  pub archive_version : Option ℕ
  pub started_at : Option ℕ
  pub archived_at : Option ℕ
  pub updated_at : ℕ

pub record Project : Type 0 where
  pub id : RowId
  pub task_index_generation : ℕ
  pub backup_dirty : Bool
  pub backup_generation : ℕ
  pub updated_at : ℕ

-- The closed task row stands for the JSON card that `compact_task` makes of it.
pub record SprintTaskSnapshot : Type 0 where
  pub project_id : RowId
  pub sprint_id : RowId
  pub closure_version : ℕ
  pub task_id : RowId
  pub snapshot : Task
  pub outcome : TaskStatus
  pub destination_sprint_id : Option RowId

pub record SprintMutation : Type 0 where
  pub project_id : RowId
  pub idempotency_key : String
  pub request_hash : ℕ
  pub response : Sprint

pub record TaskRevision : Type 0 where
  pub project_id : RowId
  pub task_id : RowId
  pub version : ℕ
  pub snapshot : Task
  pub actor : String
  pub actor_member_id : Option RowId
  pub session_id : Option RowId
  pub rationale : String

-- the `task.upsert` event of `enqueue_task_projection` with its origin `live`
pub record TaskEvent : Type 0 where
  pub project_id : RowId
  pub aggregate_id : RowId
  pub task_version : ℕ
  pub actor_member_id : Option RowId

pub data RecordedAction : Type 0 where
  task_create task_update task_complete : RecordedAction

pub data SprintOperation : Type 0 where
  sprint_create sprint_update sprint_start sprint_reopen sprint_archive sprint_history :
      SprintOperation

-- `kind`, `summary` and `detail` of an activity row are texts made of these values.
pub data ActivityEvent : Type 0 where
  task_event : RecordedAction → String → RowId → ActivityEvent
  sprint_event : SprintOperation → String → RowId → ℕ → ActivityEvent

pub record Activity : Type 0 where
  pub project_id : RowId
  pub event : ActivityEvent
  pub actor_member_id : Option RowId

pub record Db : Type 0 where
  pub projects : List Project
  pub sprints : List Sprint
  pub tasks : List Task
  pub snapshots : List SprintTaskSnapshot
  pub mutations : List SprintMutation
  pub revisions : List TaskRevision
  pub outbox : List TaskEvent
  pub activities : List Activity

-- the `HTTPException`, `ValueError` and `LookupError` of the two modules
pub data WorkError : Type 0 where
  project_not_found sprint_not_found key_reused sprint_version_conflict archived_sprint_edit
        only_planned_can_start already_active only_archived_can_reopen already_archived
        bad_destination bad_history title_required task_not_found task_version_conflict
        empty_sprint_id epic_in_sprint sprint_not_in_project archived_assignment archived_reopening
        epic_in_epic own_epic epic_not_found epic_has_tasks :
      WorkError

-- a call that raises, or returns
pub data Result {ℓ} (A : Type ℓ) : Type ℓ where
  err : WorkError → Result A
  ok : A → Result A

module _ {ℓ κ} {X : Type ℓ} {Y : Type κ} where
  infixl 10 ◌>>=◌
  abbrev pub ◌>>=◌ : Result X → (X → Result Y) → Result Y
  err raised >>= rest = err raised
  ok x >>= rest = rest x

module _ {κ} {Y : Type κ} where
  infixl 10 ◌>>◌
  abbrev pub ◌>>◌ : Result (Unit {0}) → Result Y → Result Y
  err raised >> rest = err raised
  ok done_first >> rest = rest

-- `if test: raise error`
abbrev pub raise_if : Bool → WorkError → Result (Unit {0})
raise_if true e = err e
raise_if false e = ok tt

-- who asks, and when: the request's principal and the clock
pub record Context : Type 0 where
  pub member : Option RowId
  pub anonymous : Bool
  pub now : ℕ

-- the member of an outbox event: none for an anonymous principal or an empty id
abbrev pub event_member : Context → Option RowId
event_member ctx = if not ctx.anonymous && truthy ctx.member then ctx.member else none

abbrev pub is_project : RowId → Project → Bool
is_project p row = row.id == p

-- `advance_task_index_generation`
unfoldable pub advance_task_index_generation : RowId → Db → Result Db
unfolding any_row update_rows
advance_task_index_generation p db =
    if any_row (is_project p) db.projects
    then ok (record db {
      projects =
          update_rows (is_project p)
            (λ row. record row { task_index_generation = row.task_index_generation + 1 })
            db.projects;
    })
    else err project_not_found

-- `activity` with `mark_project_dirty`, which a missing project makes a no-op
unfoldable pub log_activity : Context → RowId → ActivityEvent → Option RowId → Db → Db
unfolding update_rows
log_activity ctx p event member db = record db {
  activities =
      db.activities ++ record { project_id = p; event = event; actor_member_id = member } ∷ [];
  projects =
      update_rows (is_project p)
        (λ row. record row {
          backup_dirty = true;
          backup_generation = row.backup_generation + 1;
          updated_at = ctx.now;
        })
        db.projects;
}

abbrev pub projection : Option RowId → Task → TaskEvent
projection member t = record {
  project_id = t.project_id;
  aggregate_id = t.id;
  task_version = t.version;
  actor_member_id = member;
}

abbrev pub is_sprint : RowId → RowId → Sprint → Bool
is_sprint p i row = row.project_id == p && row.id == i

-- What is known of the steps of a transaction that returned.
module _ {ℓ κ} {X : Type ℓ} {Y : Type κ} where
  pub >>=-eq-ok :
      (first : Result X) (rest : X → Result Y) {y : Y}
      → (first >>= rest) ≡ ok y
      → (x : X) × (first ≡ ok x) × (rest x ≡ ok y)
  >>=-eq-ok (err raised) rest returned = cc
  >>=-eq-ok (ok x) rest returned = (x, refl, returned)

module _ {κ} {Y : Type κ} where
  pub raise_if-eq-ok :
      (test : Bool) (e : WorkError) (rest : Result Y) {y : Y}
      → (raise_if test e >> rest) ≡ ok y
      → (test ≡ false) × (rest ≡ ok y)
  raise_if-eq-ok true e rest returned = cc
  raise_if-eq-ok false e rest returned = (refl, returned)

  pub >>-eq-ok :
      (first : Result (Unit {0})) (rest : Result Y) {y : Y}
      → (first >> rest) ≡ ok y
      → (done_first : Unit {0}) × (first ≡ ok done_first) × (rest ≡ ok y)
  >>-eq-ok (err raised) rest returned = cc
  >>-eq-ok (ok done_first) rest returned = (done_first, refl, returned)

  -- the branch that a test chose
  pub if-eq-ok :
      (test : Bool) (first second : Result Y) {y : Y}
      → (if test then first else second) ≡ ok y
      → ((test ≡ true) × (first ≡ ok y)) ⊎ ((test ≡ false) × (second ≡ ok y))
  if-eq-ok true first second chosen = inl (refl, chosen)
  if-eq-ok false first second chosen = inr (refl, chosen)

  pub ok-eq-ok : {x y : Y} → ok x ≡ ok y → x ≡ y
  ok-eq-ok returned = cc

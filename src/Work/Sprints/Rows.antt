-- ===== src/Work/Sprints/Rows.antt =====
-- backend/dduo_solo_founder/sprint_work.py: requests, and the rows that the lifecycle reads and writes.
use dduo_solo_founder.Prelude.{
  ℕ, ◌+◌, String, Bool, true, false, ◌&&◌, ◌||◌, not, Option, none, some, List, [], ◌∷◌, ◌++◌, map,
  ◌==◌, select, find_row, update_rows, ltb, if◌then◌else◌,
}
use dduo_solo_founder.Work.Store.{
  RowId, is_id, is_epic, is_terminal, Task, planned, archived, Sprint, SprintTaskSnapshot,
  TaskRevision, SprintOperation, sprint_create, sprint_update, sprint_start, sprint_reopen,
  sprint_archive, sprint_history, Db, sprint_not_found, sprint_version_conflict, Result, ok, err,
  ◌>>=◌, ◌>>◌, raise_if, Context, event_member, advance_task_index_generation, projection,
  is_sprint,
}

-- The payloads of schemas.py, one for each operation.
pub data Request : Type 0 where
  create : String → String → Request
  update : ℕ → Option String → Option String → Request
  start : ℕ → Request
  reopen : ℕ → Request
  archive : ℕ → Option RowId → Request
  history : String → String → List RowId → Request

abbrev pub operation : Request → SprintOperation
operation (create title objective) = sprint_create
operation (update expected title objective) = sprint_update
operation (start expected) = sprint_start
operation (reopen expected) = sprint_reopen
operation (archive expected destination) = sprint_archive
operation (history title objective tasks) = sprint_history

-- the arguments of `mutate_sprint`, the row id that a new sprint would get, and the request's context
pub record Call : Type 0 where
  pub project : RowId
  pub sprint_id : Option RowId
  pub key : String
  pub request : Request
  pub fresh : RowId
  pub context : Context

unfoldable pub get_sprint : RowId → Option RowId → Db → Result Sprint
unfolding find_row
get_sprint p none db = err sprint_not_found
get_sprint p (some i) db = elim (find_row (is_sprint p i) db.sprints) [
  | none ↦ err sprint_not_found
  | some s ↦ ok s
]

abbrev pub new_sprint : Call → String → String → Sprint
new_sprint c title objective = record {
  id = c.fresh;
  project_id = c.project;
  title = title;
  objective = objective;
  status = planned;
  version = 1;
  archive_version = none;
  started_at = none;
  archived_at = none;
  updated_at = c.context.now;
}

-- the sprint of an operation on an existing one, with its version checked and advanced
unfoldable pub check_version : Call → ℕ → Db → Result Sprint
unfolding get_sprint
check_version c expected db = do
  s ← get_sprint c.project c.sprint_id db
  raise_if (not (s.version == expected)) sprint_version_conflict
  ok (record s { version = s.version + 1; updated_at = c.context.now })

-- `_save_task_placement`, the change of the row
abbrev pub place : Context → Option RowId → Task → Task
place ctx sprint_id t = record t {
  sprint_id = sprint_id;
  version = t.version + 1;
  updated_at = ctx.now;
}

abbrev pub placement_revision : Context → Task → TaskRevision
placement_revision ctx t = record {
  project_id = t.project_id;
  task_id = t.id;
  version = t.version;
  snapshot = t;
  actor = "agent";
  actor_member_id = ctx.member;
  session_id = none;
  rationale = "Sprint placement changed; execution status preserved";
}

-- `_closure_snapshot`
abbrev pub closure_snapshot : Sprint → Option RowId → Task → SprintTaskSnapshot
closure_snapshot s destination t = record {
  project_id = s.project_id;
  sprint_id = s.id;
  closure_version = s.version;
  task_id = t.id;
  snapshot = t;
  outcome = t.status;
  destination_sprint_id = destination;
}

-- `ORDER BY tasks.id`
unfoldable pub insert_by_id : Task → List Task → List Task
insert_by_id t [] = t ∷ []
insert_by_id t (u ∷ us) = if ltb u.id t.id then u ∷ insert_by_id t us else t ∷ u ∷ us

unfoldable pub order_by_id : List Task → List Task
unfolding insert_by_id
order_by_id [] = []
order_by_id (t ∷ ts) = insert_by_id t (order_by_id ts)

-- `_save_task_placement` for each row that `test` selects
unfoldable pub save_placements : Context → (Task → Bool) → Option RowId → Db → Db
unfolding update_rows select order_by_id
save_placements ctx test sprint_id db =
    let placed = map (place ctx sprint_id) (order_by_id (select test db.tasks)) in
    record db {
      tasks = update_rows test (place ctx sprint_id) db.tasks;
      revisions = db.revisions ++ map (placement_revision ctx) placed;
      outbox = db.outbox ++ map (projection (event_member ctx)) placed;
    }

abbrev pub in_sprint : RowId → RowId → Task → Bool
in_sprint p i t = t.project_id == p && is_id t.sprint_id i

-- the tasks of the sprint that are not done or cancelled
abbrev pub unfinished_in : RowId → RowId → Task → Bool
unfinished_in p i t = in_sprint p i t && not (is_terminal t.status)

unfoldable pub member_of : RowId → List RowId → Bool
member_of i [] = false
member_of i (j ∷ js) = i == j || member_of i js

abbrev pub in_history : RowId → List RowId → Task → Bool
in_history p ids t = t.project_id == p && member_of t.id ids

abbrev pub no_sprint : Option RowId → Bool
no_sprint none = true
no_sprint (some i) = false

-- a task that cannot enter a sprint's history
abbrev pub unfit : Task → Bool
unfit t = is_epic t.kind || not (is_terminal t.status) || not (no_sprint t.sprint_id)

abbrev pub no_rows : List Task → Bool
no_rows [] = true
no_rows (t ∷ ts) = false

-- `if tasks: await advance_task_index_generation(...)`
unfoldable pub advance_for : List Task → RowId → Db → Result Db
unfolding advance_task_index_generation
advance_for tasks p db = if no_rows tasks then ok db else advance_task_index_generation p db

-- the end of `archive` and `history`
abbrev pub close : Context → Sprint → Sprint
close ctx s = record s {
  status = archived;
  archive_version = some s.version;
  archived_at = some ctx.now;
}

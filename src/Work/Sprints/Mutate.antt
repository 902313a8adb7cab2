-- ===== src/Work/Sprints/Mutate.antt =====
-- `mutate_sprint` of backend/dduo_solo_founder/sprint_work.py. An error leaves the database as it
-- was: the caller's transaction is rolled back.
use dduo_solo_founder.Prelude.{
  ℕ, ◌+◌, String, Bool, ◌&&◌, ◌||◌, not, Option, none, some, List, [], ◌∷◌, ◌++◌, map, length, ◌==◌,
  str_eq, select, find_row, any_row, update_rows, if◌then◌else◌,
}
use dduo_solo_founder.Work.Store.{
  RowId, truthy, is_terminal, Task, planned, active, is_planned, is_active, is_archived, Sprint,
  is_project, SprintMutation, sprint_event, Db, project_not_found, key_reused, archived_sprint_edit,
  only_planned_can_start, already_active, only_archived_can_reopen, already_archived,
  bad_destination, bad_history, Result, ok, err, ◌>>=◌, ◌>>◌, raise_if, Context,
  advance_task_index_generation, log_activity, is_sprint,
}
use dduo_solo_founder.Work.Sprints.Rows.{
  Request, create, update, start, reopen, archive, history, operation, Call, get_sprint, new_sprint,
  check_version, place, closure_snapshot, order_by_id, save_placements, in_sprint, unfinished_in,
  in_history, unfit, advance_for, close,
}

abbrev pub or_else {ℓ} : {A : Type ℓ} → Option A → A → A
or_else none a = a
or_else (some b) a = b

-- the sprint that the operation is about, and the database with a new sprint's row
unfoldable pub open_sprint : Call → Request → Db → Result (Sprint × Db)
open_sprint c (create title objective) db =
    let s = new_sprint c title objective in ok (s, record db { sprints = db.sprints ++ s ∷ [] })
open_sprint c (history title objective tasks) db =
    let s = new_sprint c title objective in ok (s, record db { sprints = db.sprints ++ s ∷ [] })
open_sprint c (update expected title objective) db = do s ← check_version c expected db; ok (s, db)
open_sprint c (start expected) db = do s ← check_version c expected db; ok (s, db)
open_sprint c (reopen expected) db = do s ← check_version c expected db; ok (s, db)
open_sprint c (archive expected destination) db = do s ← check_version c expected db; ok (s, db)

-- a sprint that keeps its project from starting another
abbrev pub active_in : RowId → Sprint → Bool
active_in p s = s.project_id == p && is_active s.status

unfoldable pub named_destination : Call → Option RowId → Sprint → Db → Result (Option Sprint)
named_destination c chosen s db = do
  d ← get_sprint c.project chosen db
  raise_if (d.id == s.id || not (is_planned d.status)) bad_destination
  ok (some d)

-- the sprint that takes the unfinished work over, if one is named
unfoldable pub find_destination : Call → Option RowId → Sprint → Db → Result (Option Sprint)
find_destination c chosen s db = if truthy chosen then named_destination c chosen s db else ok none

abbrev pub sprint_id_of : Option Sprint → Option RowId
sprint_id_of none = none
sprint_id_of (some d) = some d.id

-- `if carried and destination is not None`: the preview of the destination is out of date
abbrev pub touch_destination : Context → Bool → Option Sprint → List Sprint → List Sprint
touch_destination ctx carried none sprints = sprints
touch_destination ctx carried (some d) sprints =
    if carried
    then update_rows (is_sprint d.project_id d.id)
        (λ row. record row { version = row.version + 1; updated_at = ctx.now }) sprints
    else sprints

abbrev pub closure_destination : Sprint → Option RowId → Task → Option RowId
closure_destination s target t = if is_terminal t.status then some s.id else target

unfoldable pub archive_sprint : Call → Option RowId → Sprint → Db → Result (Sprint × Db)
archive_sprint c chosen s db = do
  raise_if (is_archived s.status) already_archived
  destination ← find_destination c chosen s db
  let tasks = order_by_id (select (in_sprint c.project s.id) db.tasks)
  db1 ← advance_for tasks c.project db
  let target = sprint_id_of destination
  let closed = map (λ t. closure_snapshot s (closure_destination s target t) t) tasks
  let db2 = save_placements c.context (unfinished_in c.project s.id) target db1
  let carried = any_row (unfinished_in c.project s.id) db.tasks
  ok (
    close c.context s,
    record db2 {
      snapshots = db2.snapshots ++ closed;
      sprints = touch_destination c.context carried destination db2.sprints;
    },
  )

unfoldable pub record_history : Call → List RowId → Sprint → Db → Result (Sprint × Db)
record_history c ids s db = do
  let tasks = order_by_id (select (in_history c.project ids) db.tasks)
  raise_if (not (length tasks == length ids) || any_row unfit tasks) bad_history
  db1 ← advance_for tasks c.project db
  let db2 = save_placements c.context (in_history c.project ids) (some s.id) db1
  let closed = map (λ t. closure_snapshot s (some s.id) (place c.context (some s.id) t)) tasks
  ok (close c.context s, record db2 { snapshots = db2.snapshots ++ closed })

unfoldable pub transition : Call → Request → Sprint → Db → Result (Sprint × Db)
transition c (create title objective) s db = ok (s, db)
transition c (update expected title objective) s db = do
  raise_if (is_archived s.status) archived_sprint_edit
  ok (record s { title = or_else title s.title; objective = or_else objective s.objective }, db)
transition c (start expected) s db = do
  raise_if (not (is_planned s.status)) only_planned_can_start
  raise_if (any_row (active_in c.project) db.sprints) already_active
  db1 ← advance_task_index_generation c.project db
  ok (record s { status = active; started_at = some c.context.now }, db1)
transition c (reopen expected) s db = do
  raise_if (not (is_archived s.status)) only_archived_can_reopen
  db1 ← advance_task_index_generation c.project db
  ok (record s { status = planned }, db1)
transition c (archive expected chosen) s db = archive_sprint c chosen s db
transition c (history title objective ids) s db = record_history c ids s db

-- the flush of the changed row
unfoldable pub save_sprint : Sprint → Db → Db
unfolding update_rows
save_sprint s db = record db {
  sprints = update_rows (is_sprint s.project_id s.id) (λ row. s) db.sprints;
}

abbrev pub is_receipt : RowId → String → SprintMutation → Bool
is_receipt p key row = row.project_id == p && str_eq row.idempotency_key key

-- the receipt and the activity that end every operation
unfoldable pub record_receipt : Call → ℕ → Sprint → Db → Db
unfolding log_activity
record_receipt c digest s db =
    log_activity c.context c.project (sprint_event (operation c.request) s.title s.id s.version)
      c.context.member
      (record db {
        mutations =
            db.mutations
            ++ record {
              project_id = c.project;
              idempotency_key = c.key;
              request_hash = digest;
              response = s;
            }
              ∷ [];
      })

unfoldable pub apply_request : Call → ℕ → Db → Result (Sprint × Db)
apply_request c digest db = do
  opened ← open_sprint c c.request db
  changed ← transition c c.request opened.0 opened.1
  ok (changed.0, record_receipt c digest changed.0 (save_sprint changed.0 changed.1))

-- `snapshot_hash`, the SHA-256 of the operation's JSON, is a parameter.
unfoldable pub mutate_sprint :
    (Option RowId → String → Request → ℕ) → Call → Db → Result (Sprint × Db)
unfolding any_row find_row
mutate_sprint snapshot_hash c db = do
  raise_if (not (any_row (is_project c.project) db.projects)) project_not_found
  let digest = snapshot_hash c.sprint_id c.key c.request
  elim (find_row (is_receipt c.project c.key) db.mutations) [
    | some receipt ↦
        if receipt.request_hash == digest then ok (receipt.response, db) else err key_reused
    | none ↦ apply_request c digest db
  ]

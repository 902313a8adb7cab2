-- ===== src/Work/Tasks/Action.antt =====
-- `apply_task_action` of service.py. An error leaves the database as it was: the caller's transaction is rolled back.
use dduo_solo_founder.Prelude.{
  ℕ, ◌+◌, String, Bool, true, false, ◌&&◌, ◌||◌, not, Option, none, some, List, [], ◌∷◌, ◌++◌, ◌==◌,
  select, find_row, update_rows, ltb, leb, str_eq, if◌then◌else◌,
}
use dduo_solo_founder.Prelude.Equality.{option_eq, nat_eq}
use dduo_solo_founder.Work.Store.{
  RowId, is_id, task, is_epic, TaskStatus, todo, done, medium, Task, TaskRevision, task_create,
  task_update, task_complete, RecordedAction, task_event, Db, title_required, task_not_found,
  task_version_conflict, Result, ok, err, ◌>>=◌, ◌>>◌, Context, event_member,
  advance_task_index_generation, log_activity, projection,
}
use dduo_solo_founder.Work.Tasks.Values.{
  TaskValues, get, kind_number, status_number, all_applied, any_set, set_values,
}
use dduo_solo_founder.Work.Tasks.Checks.{
  validate_task_sprint, touch_task_sprints, validate_task_hierarchy,
}

pub data ActionKind : Type 0 where
  create update complete : ActionKind

abbrev pub is_complete : ActionKind → Bool
is_complete create = false
is_complete update = false
is_complete complete = true

-- The payload with the arguments of `apply_task_action`. `fresh` is the id that a new task gets, and
-- `actor_member_id` the given one or that of the principal.
pub record TaskCall : Type 0 where
  pub project : RowId
  pub action : ActionKind
  pub task_id : Option RowId
  pub values : TaskValues
  pub expected_version : Option ℕ
  pub dedupe_since : Option ℕ
  pub actor : String
  pub actor_member_id : Option RowId
  pub session_id : Option RowId
  pub fresh : RowId
  pub context : Context

abbrev pub is_task : RowId → RowId → Task → Bool
is_task p i t = t.project_id == p && t.id == i

-- `order_by(desc(Task.created_at)).limit(1)`
unfoldable pub newest : List Task → Option Task
newest [] = none
newest (t ∷ ts) = elim (newest ts) [
  | none ↦ some t
  | some u ↦ if ltb t.created_at u.created_at then some u else some t
]

abbrev pub new_task : TaskCall → String → Task
new_task c title = record {
  id = c.fresh;
  project_id = c.project;
  kind = get c.values.kind task;
  epic_id = none;
  sprint_id = none;
  title = title;
  description = "";
  status = todo;
  priority = medium;
  labels = [];
  objective = none;
  next_action = none;
  due_at = none;
  dependencies = [];
  rationale = none;
  completion_evidence = none;
  version = 1;
  created_at = c.context.now;
  updated_at = c.context.now;
}

-- the task of the action, whether it was created, and the table with its row
pub record OpenedTask : Type 0 where
  pub row : Task
  pub created : Bool
  pub tasks : List Task

abbrev pub opened_row : List Task → Task → OpenedTask
opened_row tasks t = record { row = t; created = false; tasks = tasks }

abbrev pub done_if : Bool → TaskStatus → TaskStatus
done_if true status = done
done_if false status = status

-- the row as the action leaves it, before its version
abbrev pub applied : TaskCall → Task → Task
applied c t =
    let u = set_values c.values t in record u { status = done_if (is_complete c.action) u.status }

abbrev pub is_done : TaskStatus → Bool
is_done status = status_number status == status_number done

abbrev pub versioned : TaskCall → Bool → Task → Task
versioned c created t = record t {
  version = t.version + (if created then 0 else 1);
  updated_at = c.context.now;
}

abbrev pub recorded_action : TaskCall → Bool → RecordedAction
recorded_action c true = task_create
recorded_action c false = if is_complete c.action then task_complete else task_update

abbrev pub revision_of : TaskCall → Task → TaskRevision
revision_of c t = record {
  project_id = c.project;
  task_id = t.id;
  version = t.version;
  snapshot = t;
  actor = c.actor;
  actor_member_id = c.actor_member_id;
  session_id = c.session_id;
  rationale = elim (get c.values.rationale none) [ none ↦ "" | some s ↦ s ];
}

abbrev pub has_row_id : RowId → Task → Bool
has_row_id i t = t.id == i

-- what follows the checks
unfoldable pub save_task : TaskCall → OpenedTask → Db → Result (Task × Db)
unfolding all_applied touch_task_sprints advance_task_index_generation log_activity update_rows
save_task c o db =
    let t = versioned c o.created (applied c o.row) in
    let changed =
      is_complete c.action && not (is_done o.row.status) || not (all_applied c.values o.row) in
    if not o.created && not changed
    then ok (o.row, db)
    else (advance_task_index_generation c.project (record db {
      tasks = update_rows (has_row_id t.id) (λ row. t) o.tasks;
      sprints = touch_task_sprints c.context c.project o.row.sprint_id t.sprint_id db.sprints;
    })
        >>= λ db1. ok (
          t,
          log_activity c.context c.project (task_event (recorded_action c o.created) t.title t.id)
              c.actor_member_id
              (record db1 {
                revisions = db1.revisions ++ revision_of c t ∷ [];
                outbox = db1.outbox ++ projection (event_member c.context) t ∷ [];
              }),
        ))

unfoldable pub version_conflict : TaskCall → OpenedTask → Bool
version_conflict c o = elim c.expected_version [
  | none ↦ false
  | some expected ↦ o.created || not (o.row.version == expected)
]

unfoldable pub already_applied : TaskCall → OpenedTask → Bool
unfolding all_applied any_set
already_applied c o =
    not o.created
    && (any_set c.values || is_complete c.action)
    && all_applied c.values o.row
    && (not (is_complete c.action) || is_done o.row.status)

-- `title_matches title row`: the row's title in lower case, as the database gives it, is the
-- stripped title in lower case.
module _ (title_matches : String → String → Bool) where
  abbrev pub is_duplicate : TaskCall → String → ℕ → Task → Bool
  is_duplicate c title since t =
      t.project_id == c.project
      && kind_number t.kind == kind_number (get c.values.kind task)
      && title_matches title t.title
      && leb since t.created_at

  unfoldable pub find_duplicate : TaskCall → String → List Task → Option Task
  unfolding newest select
  find_duplicate c title tasks = elim c.dedupe_since [
    | none ↦ none
    | some since ↦ newest (select (is_duplicate c title since) tasks)
  ]

  unfoldable pub create_or_reuse : TaskCall → String → List Task → OpenedTask
  unfolding find_duplicate
  create_or_reuse c title tasks = elim (find_duplicate c title tasks) [
    | some t ↦ opened_row tasks t
    | none ↦ record {
      row = new_task c title;
      created = true;
      tasks = tasks ++ new_task c title ∷ [];
    }
  ]

  unfoldable pub open_task : TaskCall → Db → Result OpenedTask
  unfolding create_or_reuse find_row
  open_task c db = elim c.action [
    | create ↦ elim c.values.title [
      | none ↦ err title_required
      | some title ↦
          if str_eq title "" then err title_required else ok (create_or_reuse c title db.tasks)
    ]
    | update ↦ elim (find_row (λ t. is_id c.task_id t.id && t.project_id == c.project) db.tasks) [
      | none ↦ err task_not_found
      | some t ↦ ok (opened_row db.tasks t)
    ]
    | complete ↦ elim (find_row (λ t. is_id c.task_id t.id && t.project_id == c.project) db.tasks) [
      | none ↦ err task_not_found
      | some t ↦ ok (opened_row db.tasks t)
    ]
  ]

  unfoldable pub apply_task_action : TaskCall → Db → Result (Task × Db)
  unfolding open_task version_conflict already_applied validate_task_sprint validate_task_hierarchy
      save_task
  apply_task_action c db = open_task c db >>= λ o.
      if version_conflict c o
      then (if already_applied c o then ok (o.row, db) else err task_version_conflict)
      else (validate_task_sprint c.project o.row c.values db.sprints
          >> (validate_task_hierarchy c.project (get c.values.kind o.row.kind)
                (get c.values.epic_id o.row.epic_id) o.row.id
                (is_epic o.row.kind && not (is_epic (get c.values.kind o.row.kind))) o.tasks
              >> save_task c o db))

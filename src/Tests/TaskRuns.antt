-- ===== src/Tests/TaskRuns.antt =====
-- service.py at the project of SprintRuns: a task is completed, with a version that is right.
use dduo_solo_founder.Prelude.{none, some, [], ◌∷◌, ◌++◌, ◌≡◌, refl, ◌⊎◌, str_eq, map, ℕ, false}
use dduo_solo_founder.Work.Store.{
  Task, TaskStatus, todo, done, Db, Result, ok, err, event_member, projection,
}
use dduo_solo_founder.Work.Consistency.{IsConsistent}
use dduo_solo_founder.Work.Tasks.Values.{TaskValues}
use dduo_solo_founder.Work.Tasks.Action.{TaskCall, complete, apply_task_action, revision_of}
use dduo_solo_founder.Work.Tasks.Keeps.{apply_task_action-IsConsistent}
use dduo_solo_founder.Work.Tasks.Recorded.{apply_task_action-recorded}
use dduo_solo_founder.Tests.SprintRuns.{sprint_db, IsConsistent-sprint_db, task_row}

abbrev pub no_values : TaskValues
no_values = record {
  kind = none;
  epic_id = none;
  sprint_id = none;
  title = none;
  description = none;
  status = none;
  priority = none;
  labels = none;
  objective = none;
  next_action = none;
  dependencies = none;
  rationale = none;
  completion_evidence = none;
  due_at = none;
}

abbrev pub complete_call : TaskCall
complete_call = record {
  project = 1;
  action = complete;
  task_id = some 20;
  values = no_values;
  expected_version = some 1;
  dedupe_since = none;
  actor = "agent";
  actor_member_id = some 7;
  session_id = none;
  fresh = 99;
  context = record { member = some 7; anonymous = false; now = 40 };
}

abbrev value : Result (Task × Db) → Task × Db
value (ok z) = z
value (err e) = (task_row 0 todo, sprint_db)

completed : Task × Db
unfolding apply_task_action
completed = value (apply_task_action str_eq complete_call sprint_db)

completed_returned : apply_task_action str_eq complete_call sprint_db ≡ ok completed
unfolding apply_task_action completed
completed_returned = refl

-- The preview of the task's sprint is out of date.
completed_tables :
    (map {B = ℕ × TaskStatus} (λ t. (t.version, t.status)) completed.1.tasks
      ≡ (2, done) ∷ (1, done) ∷ [])
    × (map {B = ℕ} (λ s. s.version) completed.1.sprints ≡ 3 ∷ 1 ∷ [])
unfolding completed
completed_tables = (refl, refl)

apply_task_action-IsConsistent_example : IsConsistent completed.1.sprints completed.1.tasks
apply_task_action-IsConsistent_example =
    apply_task_action-IsConsistent str_eq complete_call sprint_db IsConsistent-sprint_db
      completed_returned

apply_task_action-recorded_example :
    (completed.1 ≡ sprint_db)
    ⊎ ((completed.1.revisions ≡ sprint_db.revisions ++ revision_of complete_call completed.0 ∷ [])
        × (completed.1.outbox
            ≡ sprint_db.outbox ++ projection (event_member complete_call.context) completed.0 ∷ []))
apply_task_action-recorded_example =
    apply_task_action-recorded str_eq complete_call sprint_db completed_returned

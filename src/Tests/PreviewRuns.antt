-- ===== src/Tests/PreviewRuns.antt =====
-- The preview of the sprint that Tests.SprintRuns archives, a task created after it and the closure,
-- and where the tasks are listed.
use dduo_solo_founder.Prelude.{
  ◌+◌, ◌≡◌, ◌≢◌, refl, true, false, none, some, length, find_row, In, arith,
}
use dduo_solo_founder.Work.Store.{Task, Sprint, Db, Result, todo, active, ok, err}
use dduo_solo_founder.Work.Sprints.Mutate.{
  is_receipt, mutate_sprint, apply_request, open_sprint, transition, archive_sprint,
  find_destination, named_destination,
}
use dduo_solo_founder.Work.Sprints.Rows.{check_version, advance_for, order_by_id}
use dduo_solo_founder.Work.Sprints.Preview.{
  ClosePreview, close_preview, current_placement, any_placement, placement_predicate,
}
use dduo_solo_founder.Work.UniqueTasks.{HasUniqueTasks}
use dduo_solo_founder.Work.Previewed.{none_yet, then_action, close_preview-mutate_sprint}
use dduo_solo_founder.Work.Tasks.Action.{TaskCall, create, apply_task_action}
use dduo_solo_founder.Tests.TaskRuns.{no_values, complete_call}
use dduo_solo_founder.Work.Sprints.Placements.{placement_predicate_exclusive}
use dduo_solo_founder.Tests.SprintRuns.{
  sprint_row, task_row, sprint_db, archive_call, run_hash, In-two, IsConsistent-sprint_db,
}

abbrev preview : ClosePreview
preview = record {
  sprint = sprint_row 10 active 2;
  total = 2;
  completed_count = 1;
  unfinished_count = 1;
}

preview_run : close_preview 1 10 sprint_db ≡ ok preview
unfolding close_preview
preview_run = refl

abbrev value {ℓ} : {A : Type ℓ} → A → Result A → A
value default (ok z) = z
value default (err e) = default

unique_tasks : HasUniqueTasks sprint_db.tasks
unique_tasks a b ha hb e = let ca = In-two ha in let cb = In-two hb in ground (arith, ca, cb)

-- a task outside the sprint
abbrev create_call : TaskCall
create_call = record complete_call {
  action = create;
  task_id = none;
  values = record no_values { title = some "Next" };
  expected_version = none;
}

abbrev created : Task × Db
unfolding apply_task_action
created =
    value (task_row 0 todo, sprint_db) (apply_task_action (λ a b. false) create_call sprint_db)

create_run : apply_task_action (λ a b. false) create_call sprint_db ≡ ok created
unfolding apply_task_action created
create_run = refl

create_fresh : (x : Task) → In x sprint_db.tasks → x.id ≢ create_call.fresh
create_fresh x hx = let cx = In-two hx in ground (arith, cx)

no_receipt : find_row (is_receipt 1 "archive-1") created.1.mutations ≡ none
unfolding find_row created
no_receipt = refl

abbrev closed : Sprint × Db
unfolding mutate_sprint created
closed = value (sprint_row 0 active 0, sprint_db) (mutate_sprint run_hash archive_call created.1)

close_run : mutate_sprint run_hash archive_call created.1 ≡ ok closed
unfolding mutate_sprint created closed apply_request open_sprint check_version transition
    archive_sprint find_destination named_destination advance_for order_by_id
close_run = refl

close_preview-mutate_sprint_example :
    (length closed.1.snapshots ≡ length created.1.snapshots + preview.total)
    × (length closed.1.revisions ≡ length created.1.revisions + preview.unfinished_count)
    × (length closed.1.outbox ≡ length created.1.outbox + preview.unfinished_count)
    × (preview.total ≡ preview.completed_count + preview.unfinished_count)
close_preview-mutate_sprint_example =
    close_preview-mutate_sprint run_hash (λ a b. false) archive_call (some 11) 10 preview closed.0
      sprint_db created.1 closed.1 refl unique_tasks preview_run refl
      (then_action create_call none_yet create_fresh create_run) refl refl no_receipt close_run

current_not_any : current_placement ≢ any_placement
current_not_any h = cc

current_one :
    placement_predicate 1 current_placement none sprint_db.sprints (task_row 20 todo) ≡ true
unfolding placement_predicate
current_one = refl

current_two :
    placement_predicate 1 current_placement (some 10) sprint_db.sprints (task_row 20 todo) ≡ true
unfolding placement_predicate
current_two = refl

placement_predicate_exclusive_example : current_placement ≡ current_placement
placement_predicate_exclusive_example =
    placement_predicate_exclusive IsConsistent-sprint_db (task_row 20 todo) 1 current_placement
      current_placement none (some 10) current_not_any current_not_any current_one current_two

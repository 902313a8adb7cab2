-- ===== src/Work/Tasks/Checks.antt =====
-- `validate_task_sprint`, `touch_task_sprints` and `validate_task_hierarchy` of service.py.
use dduo_solo_founder.Prelude.{
  ◌+◌, Bool, false, ◌&&◌, ◌||◌, not, Option, none, some, List, ◌==◌, find_row, any_row, update_rows,
  if◌then◌else◌,
}
use dduo_solo_founder.Prelude.Equality.{same, option_eq, nat_eq}
use dduo_solo_founder.Work.Store.{
  RowId, truthy, is_id, TaskKind, is_epic, is_terminal, Task, is_archived, Sprint, empty_sprint_id,
  epic_in_sprint, sprint_not_in_project, archived_assignment, archived_reopening, epic_in_epic,
  own_epic, epic_not_found, epic_has_tasks, Result, ok, err, ◌>>◌, raise_if, Context, is_sprint,
}
use dduo_solo_founder.Work.Tasks.Values.{TaskValues, get, is_set}

-- the checks of a placement in an archived sprint
unfoldable pub validate_archived : RowId → Task → TaskValues → Result (Unit {0})
validate_archived i t v =
    raise_if (not (is_id t.sprint_id i) || is_set v.sprint_id) archived_assignment
    >> (raise_if (not (is_terminal (get v.status t.status))) archived_reopening >> ok tt)

-- the checks of a placement in a sprint
unfoldable pub validate_placement :
    RowId → Task → TaskValues → List Sprint → RowId → Result (Unit {0})
unfolding find_row validate_archived
validate_placement p t v sprints i =
    raise_if (i == 0) empty_sprint_id
    >> (raise_if (is_epic (get v.kind t.kind)) epic_in_sprint
        >> elim (find_row (is_sprint p i) sprints) [
          | none ↦ err sprint_not_in_project
          | some s ↦ if is_archived s.status then validate_archived i t v else ok tt
        ])

unfoldable pub validate_task_sprint : RowId → Task → TaskValues → List Sprint → Result (Unit {0})
unfolding validate_placement
validate_task_sprint p t v sprints = elim (get v.sprint_id t.sprint_id) [
  | none ↦ ok tt
  | some i ↦ validate_placement p t v sprints i
]

abbrev pub is_open_sprint : RowId → RowId → Sprint → Bool
is_open_sprint p i s = is_sprint p i s && not (is_archived s.status)

abbrev pub touch_sprint : Context → RowId → Option RowId → List Sprint → List Sprint
touch_sprint ctx p none sprints = sprints
touch_sprint ctx p (some i) sprints =
    if i == 0
    then sprints
    else update_rows (is_open_sprint p i)
        (λ s. record s { version = s.version + 1; updated_at = ctx.now }) sprints

-- two sprints, or one if they are the same
unfoldable pub touch_task_sprints :
    Context → RowId → Option RowId → Option RowId → List Sprint → List Sprint
unfolding update_rows
touch_task_sprints ctx p previous current sprints =
    if same previous current
    then touch_sprint ctx p current sprints
    else touch_sprint ctx p current (touch_sprint ctx p previous sprints)

abbrev pub is_epic_of : RowId → RowId → Task → Bool
is_epic_of p i t = t.id == i && t.project_id == p && is_epic t.kind

unfoldable pub validate_task_hierarchy :
    RowId → TaskKind → Option RowId → RowId → Bool → List Task → Result (Unit {0})
unfolding find_row any_row
validate_task_hierarchy p kind epic_id task_id converting tasks =
    raise_if (is_epic kind && truthy epic_id) epic_in_epic
    >> (raise_if (truthy epic_id && is_id epic_id task_id) own_epic
        >> (raise_if
              (truthy epic_id
                && not (elim epic_id [ none ↦ false | some i ↦ any_row (is_epic_of p i) tasks ]))
              epic_not_found
            >> (raise_if (converting && any_row (λ t. is_id t.epic_id task_id) tasks) epic_has_tasks
                >> ok tt)))

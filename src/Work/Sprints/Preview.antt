-- ===== src/Work/Sprints/Preview.antt =====
-- `close_preview` and `placement_predicate` of backend/dduo_solo_founder/sprint_work.py, which read the
-- placements.
use dduo_solo_founder.Prelude.{
  ℕ, ◌+◌, ◌-◌, Bool, true, ◌&&◌, ◌||◌, not, Option, none, some, List, [], ◌∷◌, any_row, ◌==◌,
  if◌then◌else◌,
}
use dduo_solo_founder.Work.Store.{
  RowId, is_id, is_epic, is_terminal, TaskStatus, todo, in_progress, blocked, done, cancelled, Task,
  is_active, is_archived, Sprint, Db, Result, ok, ◌>>=◌,
}
use dduo_solo_founder.Work.Sprints.Rows.{get_sprint, in_sprint, no_sprint}

pub record ClosePreview : Type 0 where
  pub sprint : Sprint
  pub total : ℕ
  pub completed_count : ℕ
  pub unfinished_count : ℕ

abbrev pub position : TaskStatus → ℕ
position todo = 0
position in_progress = 1
position blocked = 2
position done = 3
position cancelled = 4

abbrev pub has_status : TaskStatus → Task → Bool
has_status status t = position t.status == position status

-- `func.count` over the rows that `test` selects
unfoldable pub count_rows : (Task → Bool) → List Task → ℕ
count_rows test [] = 0
count_rows test (t ∷ ts) = (if test t then 1 else 0) + count_rows test ts

-- one of the counts, 0 for a status without a group
unfoldable pub count_status : RowId → RowId → TaskStatus → List Task → ℕ
unfolding count_rows
count_status p i status tasks = count_rows (λ t. in_sprint p i t && has_status status t) tasks

unfoldable pub close_preview : RowId → RowId → Db → Result ClosePreview
unfolding get_sprint count_status
close_preview p i db = do
  s ← get_sprint p (some i) db
  let count = λ (status : TaskStatus). count_status p i status db.tasks
  let completed = count done + count cancelled
  let total = count todo + count in_progress + count blocked + completed
  ok (record {
    sprint = s;
    total = total;
    completed_count = completed;
    unfinished_count = total - completed;
  })

pub data Placement : Type 0 where
  current_placement backlog_placement archive_placement any_placement : Placement

-- `Task.sprint_id.in_(...)`, for the sprints of the project that `test` selects
unfoldable pub in_sprints : RowId → (Sprint → Bool) → List Sprint → Task → Bool
unfolding any_row
in_sprints p test sprints t =
    any_row (λ s. s.project_id == p && test s && is_id t.sprint_id s.id) sprints

abbrev pub in_chosen : Option RowId → Task → Bool
in_chosen none t = true
in_chosen (some i) t = is_id t.sprint_id i

abbrev pub in_placement : RowId → Placement → List Sprint → Task → Bool
in_placement p current_placement sprints t = in_sprints p (λ s. is_active s.status) sprints t
in_placement p backlog_placement sprints t =
    no_sprint t.sprint_id && not (is_terminal t.status) && not (is_epic t.kind)
in_placement p archive_placement sprints t =
    in_sprints p (λ s. is_archived s.status) sprints t
    || no_sprint t.sprint_id && is_terminal t.status
in_placement p any_placement sprints t = true

unfoldable pub placement_predicate : RowId → Placement → Option RowId → List Sprint → Task → Bool
unfolding in_sprints
placement_predicate p placement sprint_id sprints t =
    t.project_id == p && in_chosen sprint_id t && in_placement p placement sprints t

-- ===== src/Work/Tasks/Keeps.antt =====
-- What `apply_task_action` of service.py keeps of the sprint and task tables.
use dduo_solo_founder.Prelude.{
  String, Bool, ◌&&◌, ◌||◌, not, Option, none, some, List, ◌≡◌, ◌≢◌, refl, sym, ap, subst, ◌∙◌, ◌⊎◌,
  inl, inr, arith, In, update_rows, update_rows-cases, Bool-cases, ◌==◌, ◌+◌,
}
use dduo_solo_founder.Prelude.Equality.{same, option_eq, nat_eq}
use dduo_solo_founder.Work.Store.{
  RowId, is_epic, Task, Sprint, Db, ok, err, >>=-eq-ok, >>-eq-ok, if-eq-ok, ok-eq-ok, Context,
  task_version_conflict, advance_task_index_generation, log_activity,
}
use dduo_solo_founder.Work.Consistency.{IsConsistent, touch-IsConsistent}
use dduo_solo_founder.Work.Sprints.Changed.{advance-SameTables, IsConsistent-same}
use dduo_solo_founder.Work.Tasks.Values.{get, all_applied}
use dduo_solo_founder.Work.Tasks.Action.{
  TaskCall, OpenedTask, has_row_id, applied, versioned, save_task, version_conflict,
  already_applied, open_task, apply_task_action, is_complete, is_done,
}
use dduo_solo_founder.Work.Tasks.Checks.{
  is_open_sprint, touch_sprint, touch_task_sprints, validate_task_sprint, validate_task_hierarchy,
}
use dduo_solo_founder.Work.Tasks.Placed.{IsPlaced, join-IsConsistent, validate_task_sprint-IsPlaced}
use dduo_solo_founder.Work.Tasks.Opened.{IsOpenedTask, open_task-IsOpenedTask}

touch_sprint-IsConsistent :
    (ctx : Context) (p : RowId) (o : Option RowId) {sprints : List Sprint} {tasks : List Task}
    → IsConsistent sprints tasks
    → IsConsistent (touch_sprint ctx p o sprints) tasks
touch_sprint-IsConsistent ctx p none c = c
touch_sprint-IsConsistent ctx p (some i) {sprints} {tasks} c = elim (Bool-cases (i == 0)) [
  | inl t ↦ rw t c
  | inr t ↦ rw t (
      touch-IsConsistent c (is_open_sprint p i)
        (λ s. record s { version = s.version + 1; updated_at = ctx.now }) (λ a. (refl, refl, refl)))
]

touch_task_sprints-IsConsistent :
    (ctx : Context) (p : RowId) (previous current : Option RowId) {sprints : List Sprint}
    {tasks : List Task}
    → IsConsistent sprints tasks
    → IsConsistent (touch_task_sprints ctx p previous current sprints) tasks
unfolding touch_task_sprints
touch_task_sprints-IsConsistent ctx p previous current c =
    elim (Bool-cases (same previous current)) [
      | inl t ↦ rw t (touch_sprint-IsConsistent ctx p current c)
      | inr t ↦
          rw t
            (touch_sprint-IsConsistent ctx p current (touch_sprint-IsConsistent ctx p previous c))
    ]

-- the rows after the changed one is written
saved_rows :
    (c : TaskCall) (tasks : List Task) (o : OpenedTask) (final : Task)
    → IsOpenedTask c tasks o
    → final.id ≡ o.row.id
    → (x : Task) → In x (update_rows (has_row_id final.id) (λ row. final) o.tasks)
    → In x tasks ⊎ (x ≡ final)
saved_rows c tasks o final op ids x hx =
    let (a, i, cases) = update_rows-cases (has_row_id final.id) (λ row. final) o.tasks hx in
    elim cases [
      | inl changed ↦ inr changed.1
      | inr kept ↦ elim (op.rows a i) [
        | inl j ↦ inl (subst (λ z. In z tasks) (sym kept.1) j)
        | inr e ↦
            let q = kept.0 in
            let r : a.id ≡ final.id = ap (λ z. z.id) e ∙ sym ids in absurd (ground arith)
      ]
    ]

save_task-IsConsistent :
    (c : TaskCall) (o : OpenedTask) (db : Db) {t : Task} {db' : Db}
    → IsConsistent db.sprints db.tasks
    → IsOpenedTask c db.tasks o
    → IsPlaced db.sprints (versioned c o.created (applied c o.row))
    → save_task c o db ≡ ok (t, db')
    → IsConsistent db'.sprints db'.tasks
unfolding save_task log_activity
save_task-IsConsistent c o db {t} {db'} k op placed h =
    let final = versioned c o.created (applied c o.row) in
    let changed =
      is_complete c.action && not (is_done o.row.status) || not (all_applied c.values o.row) in
    let sprints =
      touch_task_sprints c.context c.project o.row.sprint_id final.sprint_id db.sprints in
    let tasks = update_rows (has_row_id final.id) (λ row. final) o.tasks in
    elim (if-eq-ok (not o.created && not changed) _ _ h) [
      | inl (q, e) ↦ subst (λ (z : Task × Db). IsConsistent z.1.sprints z.1.tasks) (ok-eq-ok e) k
      | inr (q, e) ↦
          let (db1, advanced, e1) =
            >>=-eq-ok
              (advance_task_index_generation c.project
                (record db { tasks = tasks; sprints = sprints }))
              _ e in
          let stored = join-IsConsistent final k placed (saved_rows c db.tasks o final op refl) in
          subst (λ (z : Task × Db). IsConsistent z.1.sprints z.1.tasks) (ok-eq-ok e1)
            (IsConsistent-same (advance-SameTables c.project _ advanced) (
              touch_task_sprints-IsConsistent c.context c.project o.row.sprint_id final.sprint_id
                stored))
    ]

module _ (title_matches : String → String → Bool) where
  -- Every task action that succeeds keeps the tables consistent, as sprint operations do: every
  -- placed task is in a sprint of its own project, an archived sprint holds no unfinished task, no
  -- epic is in a sprint, and there is still one active sprint in a project and one row for an id.
  pub apply_task_action-IsConsistent :
      (c : TaskCall) (db : Db) {t : Task} {db' : Db}
      → IsConsistent db.sprints db.tasks
      → apply_task_action title_matches c db ≡ ok (t, db')
      → IsConsistent db'.sprints db'.tasks
  unfolding apply_task_action
  apply_task_action-IsConsistent c db {t} {db'} k h =
      let same_db : (z : Task × Db) → Type 0 = λ z. IsConsistent z.1.sprints z.1.tasks in
      let (o, opened, h1) = >>=-eq-ok (open_task title_matches c db) _ h in
      elim (if-eq-ok (version_conflict c o) _ _ h1) [
        | inl conflict ↦ elim (if-eq-ok (already_applied c o) _ _ conflict.1) [
          | inl applied_before ↦ subst same_db (ok-eq-ok applied_before.1) k
          | inr refused ↦ absurd (err_not_ok refused.1)
        ]
        | inr fine ↦
            let (_, placed, h2) =
              >>-eq-ok (validate_task_sprint c.project o.row c.values db.sprints) _ fine.1 in
            let (_, allowed, h3) =
              >>-eq-ok
                (validate_task_hierarchy c.project (get c.values.kind o.row.kind)
                  (get c.values.epic_id o.row.epic_id) o.row.id
                  (is_epic o.row.kind && not (is_epic (get c.values.kind o.row.kind))) o.tasks)
                _ h2 in
            let op = open_task-IsOpenedTask title_matches c db opened in
            save_task-IsConsistent c o db k op
              (validate_task_sprint-IsPlaced c o.created o.row db.sprints op.owner placed) h3
      ]
    where
      err_not_ok : {z : Task × Db} → err task_version_conflict ≢ ok z
      err_not_ok q = cc

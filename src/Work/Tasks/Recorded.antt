-- ===== src/Work/Tasks/Recorded.antt =====
-- The history that `apply_task_action` of service.py writes.
use dduo_solo_founder.Prelude.{
  String, Bool, not, ◌&&◌, ◌||◌, [], ◌∷◌, ◌++◌, ◌≡◌, ◌≢◌, refl, ap, subst, ◌⊎◌, inl, inr, arith,
  update_rows,
}
use dduo_solo_founder.Work.Store.{
  RowId, is_epic, Task, Db, ok, err, >>=-eq-ok, >>-eq-ok, if-eq-ok, ok-eq-ok, event_member,
  projection, task_version_conflict, advance_task_index_generation, log_activity,
}
use dduo_solo_founder.Work.Tasks.Values.{get, all_applied}
use dduo_solo_founder.Work.Tasks.Action.{
  TaskCall, OpenedTask, has_row_id, applied, versioned, save_task, version_conflict,
  already_applied, open_task, apply_task_action, is_complete, is_done, revision_of,
}
use dduo_solo_founder.Work.Tasks.Checks.{
  touch_task_sprints, validate_task_sprint, validate_task_hierarchy,
}

-- `advance_task_index_generation` touches neither the history nor the outbox
advance-same_history :
    (p : RowId) (db : Db) {db1 : Db}
    → advance_task_index_generation p db ≡ ok db1
    → (db1.revisions ≡ db.revisions) × (db1.outbox ≡ db.outbox)
unfolding advance_task_index_generation
advance-same_history p db h = ground arith

-- nothing was written, or the history and the outbox end with the task as it is now
abbrev Recorded : TaskCall → Db → Task × Db → Type 0
Recorded c db z =
    (z.1 ≡ db)
    ⊎ ((z.1.revisions ≡ db.revisions ++ revision_of c z.0 ∷ [])
        × (z.1.outbox ≡ db.outbox ++ projection (event_member c.context) z.0 ∷ []))

save_task-Recorded :
    (c : TaskCall) (o : OpenedTask) (db : Db) {t : Task} {db' : Db}
    → save_task c o db ≡ ok (t, db')
    → Recorded c db (t, db')
unfolding save_task log_activity
save_task-Recorded c o db {t} {db'} h =
    let final = versioned c o.created (applied c o.row) in
    let changed =
      is_complete c.action && not (is_done o.row.status) || not (all_applied c.values o.row) in
    let sprints =
      touch_task_sprints c.context c.project o.row.sprint_id final.sprint_id db.sprints in
    let tasks = update_rows (has_row_id final.id) (λ row. final) o.tasks in
    elim (if-eq-ok (not o.created && not changed) _ _ h) [
      | inl kept ↦ subst (Recorded c db) (ok-eq-ok kept.1) (inl refl)
      | inr written ↦
          let (db1, advanced, e) =
            >>=-eq-ok
              (advance_task_index_generation c.project
                (record db { tasks = tasks; sprints = sprints }))
              _ written.1 in
          let (revisions, outbox) = advance-same_history c.project _ advanced in
          subst (Recorded c db) (ok-eq-ok e) (
            inr (
              ap (λ l. l ++ revision_of c final ∷ []) revisions,
              ap (λ l. l ++ projection (event_member c.context) final ∷ []) outbox,
            ))
    ]

module _ (title_matches : String → String → Bool) where
  -- A task action that succeeds has written nothing, or it has added to the history the revision of
  -- the task that it returns, with its version, and to the outbox the event of that version.
  pub apply_task_action-recorded :
      (c : TaskCall) (db : Db) {t : Task} {db' : Db}
      → apply_task_action title_matches c db ≡ ok (t, db')
      → (db' ≡ db)
        ⊎ ((db'.revisions ≡ db.revisions ++ revision_of c t ∷ [])
            × (db'.outbox ≡ db.outbox ++ projection (event_member c.context) t ∷ []))
  unfolding apply_task_action
  apply_task_action-recorded c db {t} {db'} h =
      let (o, opened, h1) = >>=-eq-ok (open_task title_matches c db) _ h in
      elim (if-eq-ok (version_conflict c o) _ _ h1) [
        | inl conflict ↦ elim (if-eq-ok (already_applied c o) _ _ conflict.1) [
          | inl applied_before ↦ subst (Recorded c db) (ok-eq-ok applied_before.1) (inl refl)
          | inr refused ↦ absurd (err_not_ok refused.1)
        ]
        | inr fine ↦
            let (_, placed, h2) =
              >>-eq-ok (validate_task_sprint c.project o.row c.values db.sprints) _ fine.1 in
            let (_, allowed, h3) =
              >>-eq-ok
                (validate_task_hierarchy c.project (get c.values.kind o.row.kind)
                  (get c.values.epic_id o.row.epic_id) o.row.id
                  (is_epic o.row.kind && not (is_epic (get c.values.kind o.row.kind))) o.tasks)
                _ h2 in
            save_task-Recorded c o db h3
      ]
    where
      err_not_ok : {z : Task × Db} → err task_version_conflict ≢ ok z
      err_not_ok q = cc

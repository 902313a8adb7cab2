-- ===== src/Work/Later.antt =====
-- The operations of sprint_work.py and `apply_task_action` of service.py in any order, and what the
-- receipts of sprint operations answer after them.
use dduo_solo_founder.Prelude.{
  ℕ, ◌≡◌, ◌≢◌, refl, sym, ◌∙◌, ap, subst, ◌⊎◌, inl, inr, String, Bool, not, Option, ◌==◌, ◌&&◌,
  ◌||◌, find_row, any_row, update_rows, if◌then◌else◌,
}
use dduo_solo_founder.Work.Store.{
  RowId, is_epic, Task, Sprint, Db, ok, err, >>=-eq-ok, >>-eq-ok, if-eq-ok, ok-eq-ok, is_project,
  key_reused, task_version_conflict, advance_task_index_generation, log_activity,
}
use dduo_solo_founder.Work.Sprints.Rows.{Request, Call}
use dduo_solo_founder.Work.Sprints.Mutate.{mutate_sprint, is_receipt}
use dduo_solo_founder.Work.Sprints.WorkKept.{projects_kept}
use dduo_solo_founder.Work.Sprints.Replay.{IsAnswered, answered, call_keeps, find_row-append}
use dduo_solo_founder.Work.Tasks.Values.{get, all_applied}
use dduo_solo_founder.Work.Tasks.Action.{
  TaskCall, OpenedTask, has_row_id, applied, versioned, save_task, version_conflict,
  already_applied, open_task, apply_task_action, is_complete, is_done,
}
use dduo_solo_founder.Work.Tasks.Checks.{
  touch_task_sprints, validate_task_sprint, validate_task_hierarchy,
}

-- the receipts and the projects' ids are as they were
record IsUntouched (a b : Db) : Type 0 where
  pub mutations : a.mutations ≡ b.mutations
  pub project : (p : RowId) → any_row (is_project p) a.projects ≡ any_row (is_project p) b.projects

advance-IsUntouched :
    (p : RowId) (db : Db) {db1 : Db}
    → advance_task_index_generation p db ≡ ok db1
    → IsUntouched db1 db
unfolding advance_task_index_generation
advance-IsUntouched p db h = elim (if-eq-ok (any_row (is_project p) db.projects) _ _ h) [
  | inl (t, e) ↦
      subst (λ z. IsUntouched z db) (ok-eq-ok e)
        (record { mutations = refl; project = λ q. projects_kept q _ _ db.projects (λ x. refl) })
  | inr (t, e) ↦ cc
]

save_task-IsUntouched :
    (c : TaskCall) (o : OpenedTask) (db : Db) {t : Task} {db' : Db}
    → save_task c o db ≡ ok (t, db')
    → IsUntouched db' db
unfolding save_task log_activity
save_task-IsUntouched c o db {t} {db'} h =
    let final = versioned c o.created (applied c o.row) in
    let changed =
      is_complete c.action && not (is_done o.row.status) || not (all_applied c.values o.row) in
    elim (if-eq-ok (not o.created && not changed) _ _ h) [
      | inl (q, e) ↦
          subst (λ (z : Task × Db). IsUntouched z.1 db) (ok-eq-ok e)
            (record { mutations = refl; project = λ p. refl })
      | inr (q, e) ↦
          let (db1, advanced, e1) =
            >>=-eq-ok
              (advance_task_index_generation c.project (record db {
                tasks = update_rows (has_row_id final.id) (λ row. final) o.tasks;
                sprints =
                    touch_task_sprints c.context c.project o.row.sprint_id final.sprint_id
                      db.sprints;
              }))
              _ e in
          let k = advance-IsUntouched c.project _ advanced in
          subst (λ (z : Task × Db). IsUntouched z.1 db) (ok-eq-ok e1)
            (record {
              mutations = k.mutations;
              project = λ p. projects_kept p _ _ db1.projects (λ x. refl) ∙ k.project p;
            })
    ]

module _ (title_matches : String → String → Bool) where
  -- nothing was written, or the task that was opened and checked is saved
  pub apply_task_action-cases :
      (c : TaskCall) (db : Db) {t : Task} {db' : Db}
      → apply_task_action title_matches c db ≡ ok (t, db')
      → (db' ≡ db)
        ⊎ ((o : OpenedTask) × (open_task title_matches c db ≡ ok o)
            × (save_task c o db ≡ ok (t, db')))
  unfolding apply_task_action
  apply_task_action-cases c db h =
      let (o, opened, h1) = >>=-eq-ok (open_task title_matches c db) _ h in
      elim (if-eq-ok (version_conflict c o) _ _ h1) [
        | inl conflict ↦ elim (if-eq-ok (already_applied c o) _ _ conflict.1) [
          | inl done ↦ inl (ap (λ (z : Task × Db). z.1) (sym (ok-eq-ok done.1)))
          | inr refused ↦ absurd (err_not_ok refused.1)
        ]
        | inr fine ↦
            let (_, placed, h2) =
              >>-eq-ok (validate_task_sprint c.project o.row c.values db.sprints) _ fine.1 in
            let (_, allowed, h3) =
              >>-eq-ok
                (validate_task_hierarchy c.project (get c.values.kind o.row.kind)
                  (get c.values.epic_id o.row.epic_id) o.row.id
                  (is_epic o.row.kind && not (is_epic (get c.values.kind o.row.kind))) o.tasks)
                _ h2 in
            inr (o, opened, h3)
      ]
    where
      err_not_ok : {z : Task × Db} → err task_version_conflict ≢ ok z
      err_not_ok q = cc

-- the tables after any number of sprint operations and task actions that succeeded
pub data Later (snapshot_hash : Option RowId → String → Request → ℕ)
    (title_matches : String → String → Bool) (db : Db) : Db → Type 0 where
  at_once : Later snapshot_hash title_matches db db
  then_sprint :
      {before after : Db} {s : Sprint} (c : Call)
      → Later snapshot_hash title_matches db before
      → mutate_sprint snapshot_hash c before ≡ ok (s, after)
      → Later snapshot_hash title_matches db after
  then_task :
      {before after : Db} {t : Task} (c : TaskCall)
      → Later snapshot_hash title_matches db before
      → apply_task_action title_matches c before ≡ ok (t, after)
      → Later snapshot_hash title_matches db after

module _ (snapshot_hash : Option RowId → String → Request → ℕ)
    (title_matches : String → String → Bool) (c : Call) (digest : ℕ) (s : Sprint) where
  sprint-IsAnswered :
      (before after : Db) {x : Sprint} (later : Call)
      → mutate_sprint snapshot_hash later before ≡ ok (x, after)
      → IsAnswered c digest s before
      → IsAnswered c digest s after
  sprint-IsAnswered before after later h a =
      let ((rest, q), project) = call_keeps snapshot_hash later before h in
      record {
        receipt = a.receipt;
        found =
            ap (find_row (is_receipt c.project c.key)) q
            ∙ find_row-append (is_receipt c.project c.key) before.mutations rest a.found;
        hash = a.hash;
        response = a.response;
        project = project c.project ∙ a.project;
      }

  task-IsAnswered :
      (before after : Db) {t : Task} (later : TaskCall)
      → apply_task_action title_matches later before ≡ ok (t, after)
      → IsAnswered c digest s before
      → IsAnswered c digest s after
  task-IsAnswered before after later h a =
      elim (apply_task_action-cases title_matches later before h) [
        | inl same ↦ subst (IsAnswered c digest s) (sym same) a
        | inr (o, opened, saved) ↦
            let k = save_task-IsUntouched later o before saved in
            record {
              receipt = a.receipt;
              found = ap (find_row (is_receipt c.project c.key)) k.mutations ∙ a.found;
              hash = a.hash;
              response = a.response;
              project = k.project c.project ∙ a.project;
            }
      ]

  later-IsAnswered :
      (db after : Db)
      → Later snapshot_hash title_matches db after
      → IsAnswered c digest s db
      → IsAnswered c digest s after
  later-IsAnswered db after at_once a = a
  later-IsAnswered db after (then_sprint {before = mid} later run h) a =
      sprint-IsAnswered mid after later h (later-IsAnswered db mid run a)
  later-IsAnswered db after (then_task {before = mid} later run h) a =
      task-IsAnswered mid after later h (later-IsAnswered db mid run a)

-- After a sprint operation succeeded, and any number of other sprint operations and task actions after
-- it, a call with its key is answered from its receipt: with the same response and no change of the
-- tables if it is the same request (its hash is equal), with a conflict otherwise.
pub mutate_sprint_replay :
    (snapshot_hash : Option RowId → String → Request → ℕ) (title_matches : String → String → Bool)
    (c : Call) (db : Db) {s : Sprint} {db' : Db}
    → mutate_sprint snapshot_hash c db ≡ ok (s, db')
    → (after : Db) (c2 : Call) → Later snapshot_hash title_matches db' after
    → c2.project ≡ c.project
    → c2.key ≡ c.key
    → mutate_sprint snapshot_hash c2 after ≡ (
        if snapshot_hash c.sprint_id c.key c.request == snapshot_hash c2.sprint_id c2.key c2.request
        then ok (s, after)
        else err key_reused)
unfolding mutate_sprint
mutate_sprint_replay snapshot_hash title_matches c db {s} {db'} h after c2 run p k =
    let digest = snapshot_hash c.sprint_id c.key c.request in
    let a =
      later-IsAnswered snapshot_hash title_matches c digest s db' after run
        (answered snapshot_hash c db h) in
    let exists = ap (λ z. any_row (is_project z) after.projects) p ∙ a.project in
    let found =
      ap (λ z. find_row (is_receipt z c2.key) after.mutations) p
      ∙ ap (λ z. find_row (is_receipt c.project z) after.mutations) k
      ∙ a.found in
    rw (exists, found, a.hash, a.response)

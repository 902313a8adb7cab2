-- ===== src/Work/Tasks/Opened.antt =====
-- What `apply_task_action` of service.py knows of the task that it acts on.
use dduo_solo_founder.Prelude.{
  ℕ, String, Bool, true, ◌&&◌, Option, none, some, List, [], ◌∷◌, ◌++◌, ◌≡◌, ◌≢◌, refl, sym, subst,
  ◌⊎◌, inl, inr, arith, In, here, there, In-last, find_row, find_row-In, Option-cases,
  if◌then◌else◌, ◌==◌, str_eq, select-In, ltb,
}
use dduo_solo_founder.Prelude.Options.{some-eq-some, if-eq-some}
use dduo_solo_founder.Prelude.Equality.{option_eq, nat_eq}
use dduo_solo_founder.Work.Store.{
  Task, Db, ok, err, if-eq-ok, ok-eq-ok, is_id, title_required, task_not_found,
}
use dduo_solo_founder.Work.Tasks.Action.{
  TaskCall, ActionKind, create, update, complete, OpenedTask, opened_row, new_task, newest,
  find_duplicate, is_duplicate, create_or_reuse, open_task,
}

-- the task of an action, of the project of the call, in a table with at most that task as a new row
pub record IsOpenedTask (c : TaskCall) (tasks : List Task) (o : OpenedTask) : Type 0 where
  pub owner : o.row.project_id ≡ c.project
  pub rows : (x : Task) → In x o.tasks → In x tasks ⊎ (x ≡ o.row)
  -- a row of the table, or a new one without a sprint
  pub origin :
      ((o.tasks ≡ tasks) × In o.row tasks)
      ⊎ ((o.tasks ≡ tasks ++ o.row ∷ []) × (o.row.id ≡ c.fresh) × (o.row.sprint_id ≡ none))

newest-In : (ts : List Task) {t : Task} → newest ts ≡ some t → In t ts
unfolding newest
newest-In [] h = cc
newest-In (t ∷ ts) h = elim (later_of t (newest ts) h) [
  | inl e ↦ here (sym e)
  | inr e ↦ there (newest-In ts e)
]
  where
    later_of :
        (t : Task) (other : Option Task) {m : Task}
        → (elim other [
          | none ↦ some t
          | some u ↦ if ltb t.created_at u.created_at then some u else some t
        ])
          ≡ some m
        → (t ≡ m) ⊎ (other ≡ some m)
    later_of t none h = inl (some-eq-some h)
    later_of t (some u) h = elim (if-eq-some (ltb t.created_at u.created_at) (some u) (some t) h) [
      | inl chosen ↦ inr chosen.1
      | inr chosen ↦ inl (some-eq-some chosen.1)
    ]

-- a row of the table
stored-IsOpenedTask :
    (c : TaskCall) (tasks : List Task) (t : Task)
    → In t tasks
    → t.project_id ≡ c.project
    → IsOpenedTask c tasks (opened_row tasks t)
stored-IsOpenedTask c tasks t stored owner = record {
  owner = owner;
  rows = λ x i. inl i;
  origin = inl (refl, stored);
}

existing-IsOpenedTask :
    (c : TaskCall) (tasks : List Task) (found : Option Task) {o : OpenedTask}
    → find_row (λ t. is_id c.task_id t.id && t.project_id == c.project) tasks ≡ found
    → (elim found [ none ↦ err task_not_found | some t ↦ ok (opened_row tasks t) ]) ≡ ok o
    → IsOpenedTask c tasks o
existing-IsOpenedTask c tasks none e h = cc
existing-IsOpenedTask c tasks (some t) e h =
    let (i, q) = find_row-In _ tasks e in
    subst (IsOpenedTask c tasks) (ok-eq-ok h)
      (stored-IsOpenedTask c tasks t i (project (is_id c.task_id t.id) t.project_id c.project q))
  where
    project : (b : Bool) (m n : ℕ) → (b && m == n) ≡ true → m ≡ n
    project b m n q = ground arith

module _ (title_matches : String → String → Bool) where
  find_duplicate-In :
      (c : TaskCall) (title : String) (tasks : List Task) {t : Task}
      → find_duplicate title_matches c title tasks ≡ some t
      → In t tasks × (t.project_id ≡ c.project)
  unfolding find_duplicate
  find_duplicate-In c title tasks {t} h = elim (Option-cases c.dedupe_since) [
    | inl e ↦ let g = rw e at h in cc
    | inr (since, e) ↦
        let g = rw e at h in
        let (i, q) = select-In (is_duplicate title_matches c title since) tasks (newest-In _ g) in
        (i, ground arith)
  ]

  -- the row that was found, or the new one
  found_or_new :
      (c : TaskCall) (title : String) (tasks : List Task) (found : Option Task)
      → find_duplicate title_matches c title tasks ≡ found
      → IsOpenedTask c tasks (elim found [
        | some t ↦ opened_row tasks t
        | none ↦ record {
          row = new_task c title;
          created = true;
          tasks = tasks ++ new_task c title ∷ [];
        }
      ])
  found_or_new c title tasks none e = record {
    owner = refl;
    rows = λ x i. In-last tasks i;
    origin = inr (refl, refl, refl);
  }
  found_or_new c title tasks (some t) e =
      let (stored, owner) = find_duplicate-In c title tasks e in
      stored-IsOpenedTask c tasks t stored owner

  create_or_reuse-IsOpenedTask :
      (c : TaskCall) (title : String) (tasks : List Task)
      → IsOpenedTask c tasks (create_or_reuse title_matches c title tasks)
  unfolding create_or_reuse
  create_or_reuse-IsOpenedTask c title tasks =
      found_or_new c title tasks (find_duplicate title_matches c title tasks) refl

  created-IsOpenedTask :
      (c : TaskCall) (tasks : List Task) (title : Option String) {o : OpenedTask}
      → (elim title [
        | none ↦ err title_required
        | some s ↦
            if str_eq s "" then err title_required else ok (create_or_reuse title_matches c s tasks)
      ])
        ≡ ok o
      → IsOpenedTask c tasks o
  created-IsOpenedTask c tasks none h = cc
  created-IsOpenedTask c tasks (some s) h = elim (if-eq-ok (str_eq s "") _ _ h) [
    | inl chosen ↦ absurd (err_not_ok chosen.1)
    | inr chosen ↦
        subst (IsOpenedTask c tasks) (ok-eq-ok chosen.1) (create_or_reuse-IsOpenedTask c s tasks)
  ]
    where
      err_not_ok : {o : OpenedTask} → err title_required ≢ ok o
      err_not_ok q = cc

  -- `open_task` with its action as a variable
  action-IsOpenedTask :
      (c : TaskCall) (db : Db) (action : ActionKind) {o : OpenedTask}
      → (elim action [
        | create ↦ elim c.values.title [
          | none ↦ err title_required
          | some title ↦
              if str_eq title ""
              then err title_required
              else ok (create_or_reuse title_matches c title db.tasks)
        ]
        | update ↦
            elim (find_row (λ t. is_id c.task_id t.id && t.project_id == c.project) db.tasks) [
              | none ↦ err task_not_found
              | some t ↦ ok (opened_row db.tasks t)
            ]
        | complete ↦
            elim (find_row (λ t. is_id c.task_id t.id && t.project_id == c.project) db.tasks) [
              | none ↦ err task_not_found
              | some t ↦ ok (opened_row db.tasks t)
            ]
      ])
        ≡ ok o
      → IsOpenedTask c db.tasks o
  action-IsOpenedTask c db create h = created-IsOpenedTask c db.tasks c.values.title h
  action-IsOpenedTask c db update h = existing-IsOpenedTask c db.tasks _ refl h
  action-IsOpenedTask c db complete h = existing-IsOpenedTask c db.tasks _ refl h

  pub open_task-IsOpenedTask :
      (c : TaskCall) (db : Db) {o : OpenedTask}
      → open_task title_matches c db ≡ ok o
      → IsOpenedTask c db.tasks o
  unfolding open_task
  open_task-IsOpenedTask c db h = action-IsOpenedTask c db c.action h

-- ===== src/Work/Sprints/WorkKept.antt =====
-- What every sprint operation leaves alone: the tasks' ids and execution states, the receipts of
-- earlier operations, and the existence of the project.
use dduo_solo_founder.Prelude.{
  ℕ, ◌≡◌, refl, ◌∙◌, subst, Bool, not, Option, some, List, [], ◌∷◌, map, ◌==◌, any_row, update_rows,
  Bool-cases, inl, inr, select, length, ◌||◌,
}
use dduo_solo_founder.Work.Store.{
  RowId, Task, TaskStatus, Sprint, Db, Project, ok, ◌>>=◌, >>=-eq-ok, raise_if-eq-ok, ok-eq-ok,
  is_archived, is_planned, is_project, advance_task_index_generation, Context, archived_sprint_edit,
  only_planned_can_start, already_active, only_archived_can_reopen, already_archived, bad_history,
}
use dduo_solo_founder.Work.Sprints.Rows.{
  Request, create, update, start, reopen, archive, history, Call, check_version, place,
  save_placements, advance_for, unfinished_in, in_history, unfit, order_by_id,
}
use dduo_solo_founder.Work.Sprints.Mutate.{
  transition, open_sprint, active_in, archive_sprint, record_history, find_destination,
  sprint_id_of,
}

-- what a task is, wherever it is placed
abbrev pub execution : Task → RowId × TaskStatus
execution t = (t.id, t.status)

pub record IsKept (a b : Db) : Type 0 where
  pub work : map execution a.tasks ≡ map execution b.tasks
  pub mutations : a.mutations ≡ b.mutations
  pub project : (p : RowId) → any_row (is_project p) a.projects ≡ any_row (is_project p) b.projects

pub IsKept-refl : (a : Db) → IsKept a a
IsKept-refl a = record { work = refl; mutations = refl; project = λ p. refl }

pub IsKept-trans : {a b c : Db} → IsKept a b → IsKept b c → IsKept a c
IsKept-trans h k = record {
  work = h.work ∙ k.work;
  mutations = h.mutations ∙ k.mutations;
  project = λ p. h.project p ∙ k.project p;
}

placed_work :
    (ctx : Context) (test : Task → Bool) (target : Option RowId) (ts : List Task)
    → map execution (update_rows test (place ctx target) ts) ≡ map execution ts
unfolding update_rows
placed_work ctx test target [] = refl
placed_work ctx test target (t ∷ ts) = elim (Bool-cases (test t)) [
  | inl e ↦ rw (e, placed_work ctx test target ts)
  | inr e ↦ rw (e, placed_work ctx test target ts)
]

pub projects_kept :
    (p : RowId) (test : Project → Bool) (f : Project → Project) (ps : List Project)
    → ((x : Project) → (f x).id ≡ x.id)
    → any_row (is_project p) (update_rows test f ps) ≡ any_row (is_project p) ps
unfolding update_rows any_row
projects_kept p test f [] same = refl
projects_kept p test f (x ∷ ps) same = elim (Bool-cases (test x)) [
  | inl e ↦ rw (e, same x, projects_kept p test f ps same)
  | inr e ↦ rw (e, projects_kept p test f ps same)
]

advance-IsKept :
    (p : RowId) (db : Db) {db1 : Db} → advance_task_index_generation p db ≡ ok db1 → IsKept db1 db
unfolding advance_task_index_generation
advance-IsKept p db {db1} h = elim (Bool-cases (any_row (is_project p) db.projects)) [
  | inl e ↦
      subst (λ z. IsKept z db) (ok-eq-ok (rw e at h))
        (record {
          work = refl;
          mutations = refl;
          project = λ q. projects_kept q _ _ db.projects (λ x. refl);
        })
  | inr e ↦ absurd (let h1 = rw e at h in cc)
]

advance_for-IsKept :
    (ts : List Task) (p : RowId) (db : Db) {db1 : Db} → advance_for ts p db ≡ ok db1 → IsKept db1 db
unfolding advance_for
advance_for-IsKept [] p db h = subst (λ z. IsKept z db) (ok-eq-ok h) (IsKept-refl db)
advance_for-IsKept (t ∷ ts) p db h = advance-IsKept p db h

abbrev KeptBy : Call → Db → Sprint × Db → Type 0
KeptBy c db z = IsKept z.1 db

existing-IsKept :
    (c : Call) (v : ℕ) (db : Db) {z : Sprint × Db}
    → ◌>>=◌ {Y = Sprint × Db} (check_version c v db) (λ x. ok (x, db)) ≡ ok z
    → KeptBy c db z
existing-IsKept c v db h =
    let (x, _, h1) = >>=-eq-ok (check_version c v db) _ h in
    subst (KeptBy c db) (ok-eq-ok h1) (IsKept-refl db)

pub open_sprint-IsKept :
    (c : Call) (r : Request) (db : Db) {z : Sprint × Db} → open_sprint c r db ≡ ok z → KeptBy c db z
unfolding open_sprint
open_sprint-IsKept c (create t o) db h =
    subst (KeptBy c db) (ok-eq-ok h) (record { work = refl; mutations = refl; project = λ p. refl })
open_sprint-IsKept c (history t o ids) db h =
    subst (KeptBy c db) (ok-eq-ok h) (record { work = refl; mutations = refl; project = λ p. refl })
open_sprint-IsKept c (update v t o) db h = existing-IsKept c v db h
open_sprint-IsKept c (start v) db h = existing-IsKept c v db h
open_sprint-IsKept c (reopen v) db h = existing-IsKept c v db h
open_sprint-IsKept c (archive v d) db h = existing-IsKept c v db h

placements-IsKept :
    (ctx : Context) (test : Task → Bool) (target : Option RowId) (db : Db)
    → IsKept (save_placements ctx test target db) db
unfolding save_placements
placements-IsKept ctx test target db = record {
  work = placed_work ctx test target db.tasks;
  mutations = refl;
  project = λ p. refl;
}

archive-IsKept :
    (c : Call) (chosen : Option RowId) (s : Sprint) (db : Db) {z : Sprint × Db}
    → archive_sprint c chosen s db ≡ ok z
    → KeptBy c db z
unfolding archive_sprint
archive-IsKept c chosen s db h =
    let (_, h1) = raise_if-eq-ok (is_archived s.status) already_archived _ h in
    let (o, _, h2) = >>=-eq-ok (find_destination c chosen s db) _ h1 in
    let (db1, advanced, h3) = >>=-eq-ok (advance_for _ c.project db) _ h2 in
    let placed = placements-IsKept c.context (unfinished_in c.project s.id) (sprint_id_of o) db1 in
    subst (KeptBy c db) (ok-eq-ok h3) (
      IsKept-trans
        (record { work = placed.work; mutations = placed.mutations; project = placed.project })
        (advance_for-IsKept _ c.project db advanced))

history-IsKept :
    (c : Call) (ids : List RowId) (s : Sprint) (db : Db) {z : Sprint × Db}
    → record_history c ids s db ≡ ok z
    → KeptBy c db z
unfolding record_history
history-IsKept c ids s db h =
    let tasks = order_by_id (select (in_history c.project ids) db.tasks) in
    let (_, h1) =
      raise_if-eq-ok (not (length tasks == length ids) || any_row unfit tasks) bad_history _ h in
    let (db1, advanced, h2) = >>=-eq-ok (advance_for tasks c.project db) _ h1 in
    let placed = placements-IsKept c.context (in_history c.project ids) (some s.id) db1 in
    subst (KeptBy c db) (ok-eq-ok h2) (
      IsKept-trans
        (record { work = placed.work; mutations = placed.mutations; project = placed.project })
        (advance_for-IsKept tasks c.project db advanced))

pub transition-IsKept :
    (c : Call) (r : Request) (s : Sprint) (db : Db) {z : Sprint × Db}
    → transition c r s db ≡ ok z
    → KeptBy c db z
unfolding transition
transition-IsKept c (create t o) s db h = subst (KeptBy c db) (ok-eq-ok h) (IsKept-refl db)
transition-IsKept c (update v t o) s db h =
    let (_, h1) = raise_if-eq-ok (is_archived s.status) archived_sprint_edit _ h in
    subst (KeptBy c db) (ok-eq-ok h1) (IsKept-refl db)
transition-IsKept c (start v) s db h =
    let (_, h1) = raise_if-eq-ok (not (is_planned s.status)) only_planned_can_start _ h in
    let (_, h2) = raise_if-eq-ok (any_row (active_in c.project) db.sprints) already_active _ h1 in
    let (db1, advanced, h3) = >>=-eq-ok (advance_task_index_generation c.project db) _ h2 in
    subst (KeptBy c db) (ok-eq-ok h3) (advance-IsKept c.project db advanced)
transition-IsKept c (reopen v) s db h =
    let (_, h1) = raise_if-eq-ok (not (is_archived s.status)) only_archived_can_reopen _ h in
    let (db1, advanced, h2) = >>=-eq-ok (advance_task_index_generation c.project db) _ h1 in
    subst (KeptBy c db) (ok-eq-ok h2) (advance-IsKept c.project db advanced)
transition-IsKept c (archive v d) s db h = archive-IsKept c d s db h
transition-IsKept c (history t o ids) s db h = history-IsKept c ids s db h

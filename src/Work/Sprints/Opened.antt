-- ===== src/Work/Sprints/Opened.antt =====
-- The sprint that an operation opens, beside its row in the table.
use dduo_solo_founder.Prelude.{
  ℕ, ◌≡◌, ◌≢◌, refl, sym, ◌∙◌, ap, String, not, Option, none, some, List, [], ◌∷◌, ◌++◌, arith,
  ◌==◌, In, find_row, find_row-In, Option-cases, inl, inr, here, In-append_right, subst,
}
use dduo_solo_founder.Work.Store.{
  RowId, Task, Sprint, Db, ok, ◌>>=◌, is_sprint, >>=-eq-ok, raise_if-eq-ok, ok-eq-ok,
  sprint_version_conflict,
}
use dduo_solo_founder.Work.Consistency.{IsConsistent, append-IsConsistent}
use dduo_solo_founder.Work.Sprints.Rows.{
  Request, create, update, start, reopen, archive, history, Call, get_sprint, new_sprint,
  check_version,
}
use dduo_solo_founder.Work.Sprints.Mutate.{open_sprint}

-- `s` is the row with its id, up to the changes that the operation has made so far
pub record HasRow (s : Sprint) (sprints : List Sprint) : Type 0 where
  pub row : Sprint
  pub stored : In row sprints
  pub id : row.id ≡ s.id
  pub project : row.project_id ≡ s.project_id
  pub status : row.status ≡ s.status

pub get_sprint-In :
    (p : RowId) (i : Option RowId) (db : Db) {s : Sprint}
    → get_sprint p i db ≡ ok s
    → In s db.sprints × (s.project_id ≡ p)
unfolding get_sprint
get_sprint-In p none db h = absurd (ground arith)
get_sprint-In p (some i) db {s} h = elim (Option-cases (find_row (is_sprint p i) db.sprints)) [
  | inl e ↦ absurd (ground arith)
  | inr (x, e) ↦
      let (hx, tx) = find_row-In (is_sprint p i) db.sprints e in
      let q : x ≡ s = ground arith in
      (subst (λ z. In z db.sprints) q hx, subst (λ z. z.project_id ≡ p) q (ground arith))
]

pub check_version-HasRow :
    (c : Call) (expected : ℕ) (db : Db) {s : Sprint}
    → check_version c expected db ≡ ok s
    → HasRow s db.sprints × (s.project_id ≡ c.project)
unfolding check_version
check_version-HasRow c expected db h =
    let (x, found, h1) = >>=-eq-ok (get_sprint c.project c.sprint_id db) _ h in
    let (_, h2) = raise_if-eq-ok (not (x.version == expected)) sprint_version_conflict _ h1 in
    let q = ok-eq-ok h2 in
    let (hx, px) = get_sprint-In c.project c.sprint_id db found in
    (
      record {
        row = x;
        stored = hx;
        id = ap (λ z. z.id) q;
        project = ap (λ z. z.project_id) q;
        status = ap (λ z. z.status) q;
      },
      sym (ap (λ z. z.project_id) q) ∙ px,
    )

-- What `open_sprint` returns: a consistent database with the row of the opened sprint.
pub record IsOpened (c : Call) (tasks : List Task) (s : Sprint) (db : Db) : Type 0 where
  pub consistent : IsConsistent db.sprints db.tasks
  pub tasks_kept : db.tasks ≡ tasks
  pub found : HasRow s db.sprints
  pub project : s.project_id ≡ c.project

existing :
    (c : Call) (expected : ℕ) (db : Db) {s : Sprint} {db1 : Db}
    → IsConsistent db.sprints db.tasks
    → ◌>>=◌ {Y = Sprint × Db} (check_version c expected db) (λ x. ok (x, db)) ≡ ok (s, db1)
    → IsOpened c db.tasks s db1
existing c expected db k h =
    let (x, checked, h1) = >>=-eq-ok (check_version c expected db) _ h in
    let (hx, px) = check_version-HasRow c expected db checked in
    let q = ok-eq-ok h1 in
    subst (λ (z : Sprint × Db). IsOpened c db.tasks z.0 z.1) q
      (record { consistent = k; tasks_kept = refl; found = hx; project = px })

created :
    (c : Call) (title objective : String) (db : Db)
    → IsConsistent db.sprints db.tasks
    → ((a : Sprint) → In a db.sprints → a.id ≢ c.fresh)
    → let s = new_sprint c title objective in
      IsOpened c db.tasks s (record db { sprints = db.sprints ++ s ∷ [] })
created c title objective db k fresh =
    let s = new_sprint c title objective in
    record {
      consistent = append-IsConsistent k s refl fresh;
      tasks_kept = refl;
      found = record {
        row = s;
        stored = In-append_right db.sprints (s ∷ []) (here refl);
        id = refl;
        project = refl;
        status = refl;
      };
      project = refl;
    }

pub open_sprint-IsOpened :
    (c : Call) (r : Request) (db : Db) {s : Sprint} {db1 : Db}
    → IsConsistent db.sprints db.tasks
    → ((a : Sprint) → In a db.sprints → a.id ≢ c.fresh)
    → open_sprint c r db ≡ ok (s, db1)
    → IsOpened c db.tasks s db1
unfolding open_sprint
open_sprint-IsOpened c (create t o) db k fresh h =
    subst (λ (z : Sprint × Db). IsOpened c db.tasks z.0 z.1) (ok-eq-ok h) (created c t o db k fresh)
open_sprint-IsOpened c (history t o ids) db k fresh h =
    subst (λ (z : Sprint × Db). IsOpened c db.tasks z.0 z.1) (ok-eq-ok h) (created c t o db k fresh)
open_sprint-IsOpened c (update e t o) db k fresh h = existing c e db k h
open_sprint-IsOpened c (start e) db k fresh h = existing c e db k h
open_sprint-IsOpened c (reopen e) db k fresh h = existing c e db k h
open_sprint-IsOpened c (archive e d) db k fresh h = existing c e db k h

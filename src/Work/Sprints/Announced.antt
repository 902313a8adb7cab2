-- ===== src/Work/Sprints/Announced.antt =====
-- What the preview of a closure counts, and what a closure does.
use dduo_solo_founder.Prelude.{
  ℕ, suc, ◌+◌, ◌≡◌, refl, sym, ◌∙◌, ap, subst, String, Bool, true, false, ◌&&◌, not, Option, none,
  some, List, [], ◌∷◌, ◌++◌, map, length, length-append, arith, ltb, ◌==◌, find_row, any_row,
  select, if◌then◌else◌, inl, inr, Bool-cases, Option-cases, find_row-In,
}
use dduo_solo_founder.Work.Store.{
  RowId, is_terminal, TaskStatus, todo, in_progress, blocked, done, cancelled, Task, Sprint, Db, ok,
  is_project, is_archived, project_not_found, already_archived, sprint_version_conflict,
  advance_task_index_generation, log_activity, >>=-eq-ok, raise_if-eq-ok, ok-eq-ok, projection,
  is_sprint, event_member,
}
use dduo_solo_founder.Work.Sprints.Rows.{
  Request, archive, Call, get_sprint, check_version, place, placement_revision, advance_for,
  insert_by_id, order_by_id, save_placements, in_sprint, unfinished_in,
}
use dduo_solo_founder.Work.Sprints.Mutate.{
  archive_sprint, sprint_id_of, find_destination, open_sprint, transition, save_sprint,
  record_receipt, apply_request, mutate_sprint, is_receipt,
}
use dduo_solo_founder.Work.Sprints.Preview.{
  ClosePreview, position, count_rows, count_status, close_preview,
}

length-map {ℓ κ} :
    {A : Type ℓ} {B : Type κ} (f : A → B) (xs : List A) → length (map f xs) ≡ length xs
length-map f [] = refl
length-map f (x ∷ xs) = ap suc (length-map f xs)

length-select : (test : Task → Bool) (xs : List Task) → length (select test xs) ≡ count_rows test xs
unfolding select count_rows
length-select test [] = refl
length-select test (x ∷ xs) = elim (Bool-cases (test x)) [
  | inl t ↦ rw t (omega (arith, length-select test xs))
  | inr t ↦ rw t (omega (arith, length-select test xs))
]

length-insert_by_id : (t : Task) (xs : List Task) → length (insert_by_id t xs) ≡ length xs + 1
unfolding insert_by_id
length-insert_by_id t [] = refl
length-insert_by_id t (x ∷ xs) = elim (Bool-cases (ltb x.id t.id)) [
  | inl b ↦ rw b (omega (arith, length-insert_by_id t xs))
  | inr b ↦ rw b (omega arith)
]

length-order_by_id : (xs : List Task) → length (order_by_id xs) ≡ length xs
unfolding order_by_id
length-order_by_id [] = refl
length-order_by_id (x ∷ xs) =
    omega (arith, length-insert_by_id x (order_by_id xs), length-order_by_id xs)

-- rows that were selected, put in order and rewritten
length-rewritten {ℓ} :
    {B : Type ℓ} (f : Task → B) (test : Task → Bool) (xs : List Task)
    → length (map f (order_by_id (select test xs))) ≡ count_rows test xs
length-rewritten f test xs =
    length-map f (order_by_id (select test xs))
    ∙ length-order_by_id (select test xs)
    ∙ length-select test xs

added {ℓ} :
    {B : Type ℓ} {a b : List B} (rows : List B) {n : ℕ}
    → a ≡ b
    → length rows ≡ n
    → length (a ++ rows) ≡ length b + n
added {a = a} {b = b} rows e q =
    length-append a rows ∙ ap (λ z. length z + length rows) e ∙ ap (λ z. length b + z) q

abbrev one : Bool → ℕ
one b = if b then 1 else 0

abbrev has : TaskStatus → TaskStatus → Bool
has status s = position s == position status

abbrev open_groups : Bool → TaskStatus → ℕ
open_groups b s = one (b && has todo s) + one (b && has in_progress s) + one (b && has blocked s)

abbrev terminal_groups : Bool → TaskStatus → ℕ
terminal_groups b s = one (b && has done s) + one (b && has cancelled s)

open_group : (b : Bool) (s : TaskStatus) → open_groups b s ≡ one (b && not (is_terminal s))
open_group false s = refl
open_group true todo = refl
open_group true in_progress = refl
open_group true blocked = refl
open_group true done = refl
open_group true cancelled = refl

-- a row is in one of the groups
one_group : (b : Bool) (s : TaskStatus) → open_groups b s + terminal_groups b s ≡ one b
one_group false s = refl
one_group true todo = refl
one_group true in_progress = refl
one_group true blocked = refl
one_group true done = refl
one_group true cancelled = refl

module _ (p i : RowId) where
  abbrev open_count : List Task → ℕ
  open_count tasks =
      count_status p i todo tasks
      + count_status p i in_progress tasks
      + count_status p i blocked tasks

  abbrev terminal_count : List Task → ℕ
  terminal_count tasks = count_status p i done tasks + count_status p i cancelled tasks

  open_total : (tasks : List Task) → open_count tasks ≡ count_rows (unfinished_in p i) tasks
  unfolding count_status
  open_total [] = refl
  open_total (t ∷ ts) =
      let head = open_group (in_sprint p i t) t.status in let tail = open_total ts in omega arith

  all_total :
      (tasks : List Task)
      → open_count tasks + terminal_count tasks ≡ count_rows (in_sprint p i) tasks
  unfolding count_status
  all_total [] = refl
  all_total (t ∷ ts) =
      let head = one_group (in_sprint p i t) t.status in let tail = all_total ts in omega arith

-- the tables that a closure of sprint `i` extends, row for row of its tasks
pub record IsClosed (p i : RowId) (db db' : Db) : Type 0 where
  pub snapshots : length db'.snapshots ≡ length db.snapshots + count_rows (in_sprint p i) db.tasks
  pub revisions :
      length db'.revisions ≡ length db.revisions + count_rows (unfinished_in p i) db.tasks
  pub outbox : length db'.outbox ≡ length db.outbox + count_rows (unfinished_in p i) db.tasks

record SameRows (a b : Db) : Type 0 where
  pub tasks : a.tasks ≡ b.tasks
  pub snapshots : a.snapshots ≡ b.snapshots
  pub revisions : a.revisions ≡ b.revisions
  pub outbox : a.outbox ≡ b.outbox

advance_for-SameRows :
    (ts : List Task) (p : RowId) (db : Db) {db1 : Db}
    → advance_for ts p db ≡ ok db1
    → SameRows db1 db
unfolding advance_for advance_task_index_generation
advance_for-SameRows ts p db h = ground arith

archive_sprint-IsClosed :
    (c : Call) (chosen : Option RowId) (s s' : Sprint) (db db' : Db)
    → archive_sprint c chosen s db ≡ ok (s', db')
    → IsClosed c.project s.id db db'
unfolding archive_sprint save_placements
archive_sprint-IsClosed c chosen s s' db db' h =
    let (_, h1) = raise_if-eq-ok (is_archived s.status) already_archived _ h in
    let (o, found, h2) = >>=-eq-ok (find_destination c chosen s db) _ h1 in
    let tasks = order_by_id (select (in_sprint c.project s.id) db.tasks) in
    let (db1, advanced, h3) = >>=-eq-ok (advance_for tasks c.project db) _ h2 in
    let e = advance_for-SameRows tasks c.project db advanced in
    subst (λ (z : Sprint × Db). IsClosed c.project s.id db z.1) (ok-eq-ok h3)
      (let moved =
          map (place c.context (sprint_id_of o))
            (order_by_id (select (unfinished_in c.project s.id) db1.tasks)) in
        let count : length moved ≡ count_rows (unfinished_in c.project s.id) db.tasks =
          length-rewritten _ (unfinished_in c.project s.id) db1.tasks
          ∙ ap (count_rows (unfinished_in c.project s.id)) e.tasks in
        record {
          snapshots = added _ e.snapshots (length-rewritten _ (in_sprint c.project s.id) db.tasks);
          revisions = added _ e.revisions (length-map (placement_revision c.context) moved ∙ count);
          outbox =
              added _ e.outbox (length-map (projection (event_member c.context)) moved ∙ count);
        })

get_sprint-id : (p i : RowId) (db : Db) {s : Sprint} → get_sprint p (some i) db ≡ ok s → s.id ≡ i
unfolding get_sprint
get_sprint-id p i db {s} h = elim (Option-cases (find_row (is_sprint p i) db.sprints)) [
  | inl e ↦ absurd (ground arith)
  | inr (x, e) ↦
      let (stored, t) = find_row-In (is_sprint p i) db.sprints e in
      let q : x ≡ s = ground arith in subst (λ z. z.id ≡ i) q (ground arith)
]

-- the version that was previewed is the one that the request names
check_version-version :
    (c : Call) (expected : ℕ) (i : RowId) (db : Db) {s z : Sprint}
    → c.sprint_id ≡ some i
    → get_sprint c.project (some i) db ≡ ok s
    → check_version c expected db ≡ ok z
    → (s.version ≡ expected) × (z.id ≡ i)
unfolding check_version
check_version-version c expected i db {s} named found h =
    let (x, f, h1) = >>=-eq-ok (get_sprint c.project c.sprint_id db) _ h in
    let (agrees, h2) = raise_if-eq-ok (not (x.version == expected)) sprint_version_conflict _ h1 in
    let same : x ≡ s = ok-eq-ok (sym f ∙ ap (λ j. get_sprint c.project j db) named ∙ found) in
    (
      subst (λ z. z.version ≡ expected) same (ground arith),
      sym (ap (λ z. z.id) (ok-eq-ok h2)) ∙ ap (λ z. z.id) same ∙ get_sprint-id c.project i db found,
    )

apply_request-IsClosed :
    (c : Call) (digest expected : ℕ) (chosen : Option RowId) (i : RowId) (s s' : Sprint)
    (db db' : Db)
    → c.request ≡ archive expected chosen
    → c.sprint_id ≡ some i
    → get_sprint c.project (some i) db ≡ ok s
    → apply_request c digest db ≡ ok (s', db')
    → (s.version ≡ expected) × IsClosed c.project i db db'
unfolding apply_request open_sprint transition save_sprint record_receipt log_activity
apply_request-IsClosed c digest expected chosen i s s' db db' asked named found h =
    let (x, opened, h1) = >>=-eq-ok (open_sprint c c.request db) _ h in
    let (y, changed, h2) = >>=-eq-ok (transition c c.request x.0 x.1) _ h1 in
    let opened1 : open_sprint c (archive expected chosen) db ≡ ok x =
      subst (λ r. open_sprint c r db ≡ ok x) asked opened in
    let changed1 : transition c (archive expected chosen) x.0 x.1 ≡ ok y =
      subst (λ r. transition c r x.0 x.1 ≡ ok y) asked changed in
    let (z, checked, same) = >>=-eq-ok (check_version c expected db) _ opened1 in
    let (version, id) = check_version-version c expected i db named found checked in
    let closed : IsClosed c.project x.0.id x.1 y.1 =
      archive_sprint-IsClosed c chosen x.0 y.0 x.1 y.1 changed1 in
    let own : IsClosed c.project i db y.1 =
      subst (λ j. IsClosed c.project j db y.1) id
        (subst (λ (w : Sprint × Db). IsClosed c.project w.0.id w.1 y.1) (sym (ok-eq-ok same))
          closed) in
    (
      version,
      subst (λ (w : Sprint × Db). IsClosed c.project i db w.1) (ok-eq-ok h2)
          (record { snapshots = own.snapshots; revisions = own.revisions; outbox = own.outbox }),
    )

-- what the preview counts, row for row
pub close_preview-counts :
    (p i : RowId) (db : Db) {v : ClosePreview}
    → close_preview p i db ≡ ok v
    → (get_sprint p (some i) db ≡ ok v.sprint)
      × (v.total ≡ count_rows (in_sprint p i) db.tasks)
      × (v.unfinished_count ≡ count_rows (unfinished_in p i) db.tasks)
      × (v.total ≡ v.completed_count + v.unfinished_count)
unfolding close_preview
close_preview-counts p i db h =
    let (s, found, h1) = >>=-eq-ok (get_sprint p (some i) db) _ h in
    let q = ok-eq-ok h1 in
    let total = all_total p i db.tasks in
    let unfinished = open_total p i db.tasks in
    let vt = ap (λ x. x.total) q in
    let vc = ap (λ x. x.completed_count) q in
    let vu = ap (λ x. x.unfinished_count) q in
    (found ∙ ap (λ x. ok x.sprint) q, omega arith, omega arith, omega arith)

-- a first call that archives a sprint, found as `s`
pub mutate_sprint-IsClosed :
    (snapshot_hash : Option RowId → String → Request → ℕ) (c : Call) (expected : ℕ)
    (chosen : Option RowId) (i : RowId) (s s' : Sprint) (db db' : Db)
    → c.request ≡ archive expected chosen
    → c.sprint_id ≡ some i
    → find_row (is_receipt c.project c.key) db.mutations ≡ none
    → get_sprint c.project (some i) db ≡ ok s
    → mutate_sprint snapshot_hash c db ≡ ok (s', db')
    → (s.version ≡ expected) × IsClosed c.project i db db'
unfolding mutate_sprint
mutate_sprint-IsClosed snapshot_hash c expected chosen i s s' db db' asked named first found k =
    let (_, k1) =
      raise_if-eq-ok (not (any_row (is_project c.project) db.projects)) project_not_found _ k in
    apply_request-IsClosed c (snapshot_hash c.sprint_id c.key c.request) expected chosen i s s' db
      db' asked named found (rw first at k1)

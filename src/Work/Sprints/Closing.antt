-- ===== src/Work/Sprints/Closing.antt =====
-- The transitions that close a sprint: `archive` and `history`.
use dduo_solo_founder.Prelude.{
  ◌≡◌, refl, sym, ◌∙◌, ap, Bool, true, false, ◌||◌, not, Option, none, some, List, [], ◌∷◌, arith,
  ◌==◌, ltb, In, here, there, ◌⊎◌, inl, inr, subst, Bool-cases, any_row, any_row-none, select,
  In-select, update_rows, update_rows-cases, length,
}
use dduo_solo_founder.Prelude.Options.{some-eq-some}
use dduo_solo_founder.Work.Store.{
  RowId, truthy, is_epic, is_terminal, is_archived, is_planned, Task, Sprint, Db, ok, is_sprint,
  >>=-eq-ok, raise_if-eq-ok, ok-eq-ok, bad_destination, bad_history, already_archived,
}
use dduo_solo_founder.Work.Consistency.{IsConsistent, touch-IsConsistent, place-IsConsistent}
use dduo_solo_founder.Work.Sprints.Rows.{
  Call, get_sprint, advance_for, in_sprint, unfinished_in, save_placements, place, in_history,
  unfit, order_by_id, insert_by_id,
}
use dduo_solo_founder.Work.Sprints.Mutate.{
  archive_sprint, record_history, find_destination, named_destination, sprint_id_of,
  touch_destination,
}
use dduo_solo_founder.Work.Sprints.Opened.{HasRow, get_sprint-In}
use dduo_solo_founder.Work.Sprints.Changed.{IsChanged, advance_for-SameTables, IsConsistent-same}

abbrev IsDestination : Call → Sprint → List Sprint → Sprint → Type 0
IsDestination c s sprints d =
    In d sprints
    × (d.project_id ≡ c.project)
    × ((d.id == s.id) ≡ false)
    × (is_planned d.status ≡ true)

abbrev IsDestinations : Call → Sprint → List Sprint → Option Sprint → Type 0
IsDestinations c s sprints o = (d : Sprint) → o ≡ some d → IsDestination c s sprints d

named_destination-lem :
    (c : Call) (chosen : Option RowId) (s : Sprint) (db : Db) {o : Option Sprint}
    → named_destination c chosen s db ≡ ok o
    → IsDestinations c s db.sprints o
unfolding named_destination
named_destination-lem c chosen s db h d e =
    let (x, found, h1) = >>=-eq-ok (get_sprint c.project chosen db) _ h in
    let (passed, h2) =
      raise_if-eq-ok (x.id == s.id || not (is_planned x.status)) bad_destination _ h1 in
    let (hx, px) = get_sprint-In c.project chosen db found in
    let q : x ≡ d = some-eq-some (ok-eq-ok h2 ∙ e) in
    subst (IsDestination c s db.sprints) q (hx, px, ground arith, ground arith)

-- a destination is another planned sprint of the project
find_destination-IsDestination :
    (c : Call) (chosen : Option RowId) (s : Sprint) (db : Db) {o : Option Sprint}
    → find_destination c chosen s db ≡ ok o
    → IsDestinations c s db.sprints o
unfolding find_destination
find_destination-IsDestination c chosen s db {o} h = elim (Bool-cases (truthy chosen)) [
  | inl t ↦ named_destination-lem c chosen s db (rw t at h)
  | inr t ↦ λ d e. absurd (ground arith)
]

touched :
    (c : Call) (carried : Bool) (o : Option Sprint) (sprints : List Sprint) (tasks : List Task)
    → IsConsistent sprints tasks
    → IsConsistent (touch_destination c.context carried o sprints) tasks
touched c carried none sprints tasks k = k
touched c false (some d) sprints tasks k = k
touched c true (some d) sprints tasks k =
    touch-IsConsistent k (is_sprint d.project_id d.id) _ (λ a. (refl, refl, refl))

module _ (c : Call) (s : Sprint) (db : Db) (k : IsConsistent db.sprints db.tasks)
    (r : HasRow s db.sprints) (p : s.project_id ≡ c.project) where
  -- tasks of a sprint are in its project
  placed_project : (t : Task) → In t db.tasks → t.sprint_id ≡ some s.id → t.project_id ≡ c.project
  placed_project t ht e =
      let (x, hx, ix, px) = k.owned t s.id ht e in
      let q = k.unique x r.row hx r.stored (ix ∙ sym r.id) in ground arith

  -- unfinished work leaves the sprint for a planned one, or for the backlog
  moved :
      (o : Option Sprint)
      → IsDestinations c s db.sprints o
      → IsConsistent db.sprints
          (update_rows (unfinished_in c.project s.id) (place c.context (sprint_id_of o)) db.tasks)
  moved o dest =
      place-IsConsistent k c.context (unfinished_in c.project s.id) (sprint_id_of o) (home o dest)
        (λ t ht tt'. elim (Bool-cases (is_epic t.kind)) [
          | inl e ↦ absurd (let q = k.free_epics t ht e in ground arith)
          | inr e ↦ e
        ])
    where
      home :
          (o : Option Sprint)
          → IsDestinations c s db.sprints o
          → (i : RowId) → sprint_id_of o ≡ some i
          → (x : Sprint) × In x db.sprints
            × (x.id ≡ i)
            × ((t : Task)
                → In t db.tasks
                → unfinished_in c.project s.id t ≡ true
                → x.project_id ≡ t.project_id)
            × ((is_archived x.status ≡ false)
                ⊎ ((t : Task)
                    → In t db.tasks
                    → unfinished_in c.project s.id t ≡ true
                    → is_terminal t.status ≡ true))
      home none dest i e = absurd (ground arith)
      home (some d) dest i e =
          let (hd, pd, nd, st) = dest d refl in
          (d, hd, some-eq-some e, λ t ht tt'. ground arith, inl (ground arith))

  -- what stays is done or cancelled
  left_finished :
      (o : Option Sprint)
      → IsDestinations c s db.sprints o
      → (t : Task)
      → In t
          (update_rows (unfinished_in c.project s.id) (place c.context (sprint_id_of o)) db.tasks)
      → t.sprint_id ≡ some s.id
      → is_terminal t.status ≡ true
  left_finished o dest t ht e =
      let (a, ha, cases) =
        update_rows-cases (unfinished_in c.project s.id) (place c.context (sprint_id_of o)) db.tasks
          ht in
      elim cases [
        | inl (ta, eq) ↦ absurd (not_here o dest (sym (ap (λ z. z.sprint_id) eq) ∙ e))
        | inr (ta, eq) ↦
            let ea : a.sprint_id ≡ some s.id = sym (ap (λ z. z.sprint_id) eq) ∙ e in
            let pa = placed_project a ha ea in ground arith
      ]
    where
      not_here :
          (o : Option Sprint) → IsDestinations c s db.sprints o → sprint_id_of o ≡ some s.id → ⊥
      not_here none dest e = ground arith
      not_here (some d) dest e = let (hd, pd, nd, st) = dest d refl in ground arith

In-insert_by_id : (t : Task) (us : List Task) {x : Task} → In x (t ∷ us) → In x (insert_by_id t us)
unfolding insert_by_id
In-insert_by_id t [] h = h
In-insert_by_id t (u ∷ us) (here e) = elim (Bool-cases (ltb u.id t.id)) [
  | inl b ↦ rw b (there (In-insert_by_id t us (here e)))
  | inr b ↦ rw b (here e)
]
In-insert_by_id t (u ∷ us) (there (here e)) = elim (Bool-cases (ltb u.id t.id)) [
  | inl b ↦ rw b (here e)
  | inr b ↦ rw b (there (here e))
]
In-insert_by_id t (u ∷ us) (there (there i)) = elim (Bool-cases (ltb u.id t.id)) [
  | inl b ↦ rw b (there (In-insert_by_id t us (there i)))
  | inr b ↦ rw b (there (there i))
]

-- sorting the rows loses none
In-order_by_id : (ts : List Task) {x : Task} → In x ts → In x (order_by_id ts)
unfolding order_by_id
In-order_by_id [] h = h
In-order_by_id (t ∷ ts) (here e) = In-insert_by_id t (order_by_id ts) (here e)
In-order_by_id (t ∷ ts) (there i) = In-insert_by_id t (order_by_id ts) (there (In-order_by_id ts i))

pub archived_now :
    (c : Call) (chosen : Option RowId) (s s' : Sprint) (db db' : Db)
    → IsConsistent db.sprints db.tasks
    → HasRow s db.sprints
    → s.project_id ≡ c.project
    → archive_sprint c chosen s db ≡ ok (s', db')
    → IsChanged s' db' × (s'.id ≡ s.id) × (s'.project_id ≡ s.project_id)
unfolding archive_sprint save_placements
archived_now c chosen s s' db db' k r p h =
    let (_, h1) = raise_if-eq-ok (is_archived s.status) already_archived _ h in
    let (o, found, h2) = >>=-eq-ok (find_destination c chosen s db) _ h1 in
    let dest = find_destination-IsDestination c chosen s db found in
    let tasks = order_by_id (select (in_sprint c.project s.id) db.tasks) in
    let (db1, advanced, h3) = >>=-eq-ok (advance_for tasks c.project db) _ h2 in
    let e = advance_for-SameTables tasks c.project db advanced in
    let k1 = IsConsistent-same e k in
    let r1 = subst (HasRow s) (sym e.sprints) r in
    let dest1 = subst (λ z. IsDestinations c s z o) (sym e.sprints) dest in
    let placed = moved c s db1 k1 r1 p o dest1 in
    let carried = any_row (unfinished_in c.project s.id) db.tasks in
    subst
      (λ (z : Sprint × Db). IsChanged z.0 z.1 × (z.0.id ≡ s.id) × (z.0.project_id ≡ s.project_id))
      (ok-eq-ok h3)
      (
        record {
          consistent = touched c carried o db1.sprints _ placed;
          only = λ act a ia aa pa. absurd (ground arith);
          finished = λ arch t ht q. left_finished c s db1 k1 r1 p o dest1 t ht q;
        },
        refl,
        refl,
      )

-- every selected task may enter the history
any_row-unfit :
    (tasks : List Task) (t : Task)
    → any_row unfit tasks ≡ false
    → In t tasks
    → (is_epic t.kind ≡ false) × (is_terminal t.status ≡ true)
any_row-unfit tasks t h i = let q = any_row-none unfit tasks h i in ground arith

pub history_now :
    (c : Call) (ids : List RowId) (s s' : Sprint) (db db' : Db)
    → IsConsistent db.sprints db.tasks
    → HasRow s db.sprints
    → s.project_id ≡ c.project
    → ((t : Task) → In t db.tasks → t.sprint_id ≡ some s.id → is_terminal t.status ≡ true)
    → record_history c ids s db ≡ ok (s', db')
    → IsChanged s' db' × (s'.id ≡ s.id) × (s'.project_id ≡ s.project_id)
unfolding record_history save_placements
history_now c ids s s' db db' k r p empty h =
    let test = in_history c.project ids in
    let tasks = order_by_id (select test db.tasks) in
    let (passed, h1) =
      raise_if-eq-ok (not (length tasks == length ids) || any_row unfit tasks) bad_history _ h in
    let (db1, advanced, h2) = >>=-eq-ok (advance_for tasks c.project db) _ h1 in
    let e = advance_for-SameTables tasks c.project db advanced in
    let k1 = IsConsistent-same e k in
    let r1 = subst (HasRow s) (sym e.sprints) r in
    let fit : (t : Task)
        → In t db1.tasks
        → test t ≡ true
        → (is_epic t.kind ≡ false) × (is_terminal t.status ≡ true) =
      λ t ht tt'.
        any_row-unfit tasks t (ground arith)
          (In-order_by_id _ (In-select test db.tasks (subst (In t) e.tasks ht) tt')) in
    let empty1 : (t : Task)
        → In t db1.tasks
        → t.sprint_id ≡ some s.id
        → is_terminal t.status ≡ true =
      λ t ht q. empty t (subst (In t) e.tasks ht) q in
    let placed =
      place-IsConsistent k1 c.context test (some s.id)
        (λ i q. (
          r1.row,
          r1.stored,
          r1.id ∙ some-eq-some q,
          λ t ht tt'. ground (arith, r1.project),
          inr (λ t ht tt'. (fit t ht tt').1),
        ))
        (λ t ht tt'. (fit t ht tt').0) in
    subst
      (λ (z : Sprint × Db). IsChanged z.0 z.1 × (z.0.id ≡ s.id) × (z.0.project_id ≡ s.project_id))
      (ok-eq-ok h2)
      (
        record {
          consistent = placed;
          only = λ act a ia aa pa. absurd (ground arith);
          finished = λ arch t ht q.
              let (a, ha, cases) =
                update_rows-cases test (place c.context (some s.id)) db1.tasks ht in
              elim cases [
                | inl (ta, eq) ↦ ap (λ z. is_terminal z.status) eq ∙ (fit a ha ta).1
                | inr (ta, eq) ↦
                    ap (λ z. is_terminal z.status) eq
                    ∙ empty1 a ha (sym (ap (λ z. z.sprint_id) eq) ∙ q)
              ];
        },
        refl,
        refl,
      )

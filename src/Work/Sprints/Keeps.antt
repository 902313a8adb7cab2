-- ===== src/Work/Sprints/Keeps.antt =====
-- `mutate_sprint` keeps the tables consistent.
use dduo_solo_founder.Prelude.{
  ℕ, ◌≡◌, ◌≢◌, refl, sym, ◌∙◌, ap, subst, String, true, not, Option, some, List, arith, In,
  Option-cases, inl, inr, find_row, any_row, any_row-none,
}
use dduo_solo_founder.Work.Store.{
  RowId, Task, Sprint, Db, ok, >>=-eq-ok, raise_if-eq-ok, ok-eq-ok, is_archived, is_planned,
  is_terminal, is_project, advance_task_index_generation, archived_sprint_edit, project_not_found,
  only_planned_can_start, already_active, only_archived_can_reopen,
}
use dduo_solo_founder.Work.Consistency.{IsConsistent, replace-IsConsistent}
use dduo_solo_founder.Work.Sprints.Rows.{
  Request, create, update, start, reopen, archive, history, Call,
}
use dduo_solo_founder.Work.Sprints.Mutate.{
  transition, open_sprint, save_sprint, record_receipt, apply_request, mutate_sprint, is_receipt,
  active_in, or_else,
}
use dduo_solo_founder.Work.Sprints.Opened.{IsOpened, open_sprint-IsOpened}
use dduo_solo_founder.Work.Sprints.Closing.{archived_now, history_now}
use dduo_solo_founder.Work.Sprints.Changed.{
  IsChanged, kept, planned_now, advance-SameTables, IsConsistent-same,
}

abbrev IsHistory : Request → Type 0
IsHistory (history title objective ids) = Unit
IsHistory (create title objective) = ⊥
IsHistory (update expected title objective) = ⊥
IsHistory (start expected) = ⊥
IsHistory (reopen expected) = ⊥
IsHistory (archive expected destination) = ⊥

abbrev IsTransition : Sprint → Sprint × Db → Type 0
IsTransition s z = IsChanged z.0 z.1 × (z.0.id ≡ s.id) × (z.0.project_id ≡ s.project_id)

transition-IsChanged :
    (c : Call) (r : Request) (s s' : Sprint) (db db' : Db) {tasks : List Task}
    → IsOpened c tasks s db
    → (IsHistory r
        → (t : Task) → In t db.tasks
        → t.sprint_id ≡ some s.id
        → is_terminal t.status ≡ true)
    → transition c r s db ≡ ok (s', db')
    → IsTransition s (s', db')
unfolding transition
transition-IsChanged c (create t o) s s' db db' op empty h =
    subst (IsTransition s) (ok-eq-ok h)
      (kept s s db op.consistent op.found refl refl refl, refl, refl)
transition-IsChanged c (update e t o) s s' db db' op empty h =
    let (_, h1) = raise_if-eq-ok (is_archived s.status) archived_sprint_edit _ h in
    let s1 = record s { title = or_else t s.title; objective = or_else o s.objective } in
    subst (IsTransition s) (ok-eq-ok h1)
      (kept s s1 db op.consistent op.found refl refl refl, refl, refl)
transition-IsChanged c (start e) s s' db db' op empty h =
    let (_, h1) = raise_if-eq-ok (not (is_planned s.status)) only_planned_can_start _ h in
    let (free, h2) =
      raise_if-eq-ok (any_row (active_in c.project) db.sprints) already_active _ h1 in
    let (db1, advanced, h3) = >>=-eq-ok (advance_task_index_generation c.project db) _ h2 in
    let e = advance-SameTables c.project db advanced in
    subst (IsTransition s) (ok-eq-ok h3) (
      record {
        consistent = IsConsistent-same e op.consistent;
        only = λ act a ia aa pa. absurd (
            let q =
              any_row-none (active_in c.project) db.sprints free (subst (In a) e.sprints ia) in
            let p = op.project in ground arith);
        finished = λ arch t ht q. absurd (ground arith);
      },
      refl,
      refl,
    )
transition-IsChanged c (reopen e) s s' db db' op empty h =
    let (_, h1) = raise_if-eq-ok (not (is_archived s.status)) only_archived_can_reopen _ h in
    let (db1, advanced, h2) = >>=-eq-ok (advance_task_index_generation c.project db) _ h1 in
    let e = advance-SameTables c.project db advanced in
    subst (IsTransition s) (ok-eq-ok h2)
      (planned_now _ db1 (IsConsistent-same e op.consistent) refl, refl, refl)
transition-IsChanged c (archive e d) s s' db db' op empty h =
    archived_now c d s s' db db' op.consistent op.found op.project h
transition-IsChanged c (history t o ids) s s' db db' op empty h =
    history_now c ids s s' db db' op.consistent op.found op.project (empty tt) h

saved-IsConsistent :
    (s : Sprint) (db : Db)
    → IsChanged s db
    → IsConsistent (save_sprint s db).sprints (save_sprint s db).tasks
unfolding save_sprint
saved-IsConsistent s db k = replace-IsConsistent k.consistent s k.only k.finished

-- no task is in a sprint that the operation has just created
new_is_empty :
    (c : Call) (r : Request) (db : Db) {s : Sprint} {db1 : Db}
    → IsConsistent db.sprints db.tasks
    → ((a : Sprint) → In a db.sprints → a.id ≢ c.fresh)
    → open_sprint c r db ≡ ok (s, db1)
    → IsHistory r
    → (t : Task) → In t db1.tasks
    → t.sprint_id ≡ some s.id
    → is_terminal t.status ≡ true
unfolding open_sprint
new_is_empty c (history t o ids) db {s} {db1} k fresh h _ x hx e =
    let q = ok-eq-ok h in
    let ht : In x db.tasks = subst (In x) (sym (ap (λ (z : Sprint × Db). z.1.tasks) q)) hx in
    let es : x.sprint_id ≡ some c.fresh = e ∙ ap (λ (z : Sprint × Db). some z.0.id) (sym q) in
    let (a, ia, ea, _) = k.owned x c.fresh ht es in absurd (fresh a ia ea)
new_is_empty c (create t o) db k fresh h i x hx e = absurd i
new_is_empty c (update v t o) db k fresh h i x hx e = absurd i
new_is_empty c (start v) db k fresh h i x hx e = absurd i
new_is_empty c (reopen v) db k fresh h i x hx e = absurd i
new_is_empty c (archive v d) db k fresh h i x hx e = absurd i

-- the receipt and the activity are written to other tables
receipt-IsConsistent :
    (c : Call) (digest : ℕ) (s : Sprint) (db : Db)
    → IsConsistent db.sprints db.tasks
    → IsConsistent (record_receipt c digest s db).sprints (record_receipt c digest s db).tasks
unfolding record_receipt
receipt-IsConsistent c digest s db k = k

apply_request-IsConsistent :
    (c : Call) (digest : ℕ) (db : Db) {s : Sprint} {db' : Db}
    → IsConsistent db.sprints db.tasks
    → ((a : Sprint) → In a db.sprints → a.id ≢ c.fresh)
    → apply_request c digest db ≡ ok (s, db')
    → IsConsistent db'.sprints db'.tasks
unfolding apply_request
apply_request-IsConsistent c digest db k fresh h =
    let (opened, h0, h1) = >>=-eq-ok (open_sprint c c.request db) _ h in
    let (changed, h2, h3) = >>=-eq-ok (transition c c.request opened.0 opened.1) _ h1 in
    let op = open_sprint-IsOpened c c.request db k fresh h0 in
    let empty = new_is_empty c c.request db k fresh h0 in
    let (ch, _, _) =
      transition-IsChanged c c.request opened.0 changed.0 opened.1 changed.1 op empty h2 in
    subst (λ (z : Sprint × Db). IsConsistent z.1.sprints z.1.tasks) (ok-eq-ok h3)
      (receipt-IsConsistent c digest changed.0 _ (saved-IsConsistent changed.0 changed.1 ch))

-- Every sprint operation that succeeds keeps the tables consistent: at most one active sprint in a
-- project, no unfinished task in an archived sprint, every placed task in a sprint of its own
-- project, no epic in a sprint, and one row for an id. A new row's id must be unused.
pub mutate_sprint-IsConsistent :
    (snapshot_hash : Option RowId → String → Request → ℕ) (c : Call) (db : Db) {s : Sprint}
    {db' : Db}
    → IsConsistent db.sprints db.tasks
    → ((a : Sprint) → In a db.sprints → a.id ≢ c.fresh)
    → mutate_sprint snapshot_hash c db ≡ ok (s, db')
    → IsConsistent db'.sprints db'.tasks
unfolding mutate_sprint
mutate_sprint-IsConsistent snapshot_hash c db {s} {db'} k fresh h =
    let (_, h1) =
      raise_if-eq-ok (not (any_row (is_project c.project) db.projects)) project_not_found _ h in
    elim (Option-cases (find_row (is_receipt c.project c.key) db.mutations)) [
      | inl e ↦ apply_request-IsConsistent c _ db k fresh (rw e at h1)
      | inr (receipt, e) ↦
          let h2 = rw e at h1 in
          let q : db ≡ db' = ground arith in subst (λ (z : Db). IsConsistent z.sprints z.tasks) q k
    ]

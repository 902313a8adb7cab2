-- ===== src/Index/Caught.antt =====
-- The worker's loop over outbox.py and `pending_task_projection_ids` of task_index.py: what waits for
-- a project once the queue is empty.
use dduo_solo_founder.Prelude.{
  ℕ, ◌<◌, ◌≡◌, refl, sym, ◌∙◌, ap, subst, inl, inr, Bool, true, false, ◌&&◌, List, [], ◌∷◌, map,
  leb, ◌==◌, find_row, select, update_rows, map-In, In, here, there, update_rows-cases, Bool-cases,
  arith,
}
use dduo_solo_founder.Context.Text.{Text}
use dduo_solo_founder.Work.Store.{RowId}
use dduo_solo_founder.Team.Authority.{AuthorityRow, project_authority_predicate}
use dduo_solo_founder.Index.Events.{
  OutboxEvent, OutboxDb, is_event, is_open, is_project_row, is_ready, is_task_upsert,
  pending_task_projection_ids, test_row,
}
use dduo_solo_founder.Index.Projection.{VectorStore}
use dduo_solo_founder.Index.Reindexed.{false_not_true}
use dduo_solo_founder.Index.Outbox.{
  claimed_attempt, finish, succeeded, deliver_event, settle, process_one,
}
use dduo_solo_founder.Index.Attempts.{IsAttempt}
use dduo_solo_founder.Index.Drained.{content}
use dduo_solo_founder.Index.Emptied.{open_count, drain, Delivers, drain_invariant}

-- the events of project `p` are due at time `now`
abbrev pub IsDue : RowId → ℕ → List OutboxEvent → Type 0
IsDue p now events =
    (x : OutboxEvent) → In x events → (x.project_id == p) ≡ true → leb x.next_attempt_at now ≡ true

-- the node may claim the events of project `p`
abbrev pub IsServed : RowId → RowId → List AuthorityRow → Type 0
IsServed p node projects =
    test_row (project_authority_predicate node) (find_row (is_project_row p) projects) ≡ true

select-none :
    (test : OutboxEvent → Bool) (events : List OutboxEvent)
    → ((x : OutboxEvent) → In x events → test x ≡ false)
    → select test events ≡ []
unfolding select
select-none test [] h = refl
select-none test (x ∷ xs) h = rw (h x (here refl)) (select-none test xs (λ y i. h y (there i)))

IsReady-served :
    (p node now : ℕ) (projects : List AuthorityRow) (x : OutboxEvent)
    → x.project_id ≡ p
    → IsServed p node projects
    → is_open x.status ≡ true
    → leb x.next_attempt_at now ≡ true
    → is_ready now node projects x ≡ true
unfolding is_ready
IsReady-served p node now projects x own served opened due = rw (opened, due, own, served) refl

module _ {World Vector : Type 0} (store : VectorStore World Vector)
    (write_memory : World → RowId → RowId → Vector → World × Bool) (casefold : Text → Text)
    (hashed : List ℕ → ℕ) (max_characters max_utf8_bytes : ℕ) (now later : ℕ) (node p : RowId) where
  abbrev call : OutboxDb → World → Bool × OutboxDb × World
  call db w =
      process_one store write_memory casefold hashed max_characters max_utf8_bytes now later node
        db.projects db w

  abbrev CanDeliver : OutboxDb → Type 0
  CanDeliver db =
      Delivers store write_memory casefold hashed max_characters max_utf8_bytes now later node db

  abbrev IsPrompt : OutboxDb → World → Type 0
  IsPrompt db w = IsServed p node db.projects × IsDue p now db.events

  call-IsPrompt :
      (db : OutboxDb) (w : World)
      → CanDeliver db
      → IsPrompt db w
      → (a : IsAttempt store write_memory casefold hashed max_characters max_utf8_bytes now later
          node db w
          (call db w))
      → IsPrompt (call db w).1 (call db w).2
  unfolding settle
  call-IsPrompt db w delivers (served, due) a =
      let change = λ (s : Bool). λ (row : OutboxEvent). finish later s (claimed_attempt row) in
      let done : succeeded
            (deliver_event store write_memory casefold hashed max_characters max_utf8_bytes db.tasks
              w a.event).1
          ≡ true =
        delivers w a.event (map-In content db.events a.stored) in
      let still : IsDue p now (update_rows (is_event a.event.id) (change true) db.events) =
        λ x i own.
          let (y, j, q) = update_rows-cases (is_event a.event.id) (change true) db.events i in
          elim q [
            | inl (t, e) ↦
                subst (λ z. leb z.next_attempt_at now ≡ true) (sym e)
                  (due y j (subst (λ z. (z.project_id == p) ≡ true) e own))
            | inr (t, e) ↦
                subst (λ z. leb z.next_attempt_at now ≡ true) (sym e)
                  (due y j (subst (λ z. (z.project_id == p) ≡ true) e own))
          ] in
      subst (λ r. IsPrompt r.1 r.2) (sym a.result)
        (
          served,
          subst (λ s. IsDue p now (update_rows (is_event a.event.id) (change s) db.events))
              (sym done) still,
        )

  open_waits :
      (db : OutboxDb) (x : OutboxEvent)
      → (rest : Bool) → IsServed p node db.projects
      → ((x.project_id == p) ≡ true → leb x.next_attempt_at now ≡ true)
      → is_ready now node db.projects x ≡ false
      → (x.project_id == p && is_task_upsert x.event_type && is_open x.status && rest) ≡ false
  open_waits db x rest served due idle = elim (Bool-cases (x.project_id == p)) [
    | inr other ↦ rw other refl
    | inl own ↦ elim (Bool-cases (is_open x.status)) [
      | inr shut ↦ ground arith
      | inl opened ↦
          let same : x.project_id ≡ p = ground arith in
          absurd (
            false_not_true
              (sym idle ∙ IsReady-served p node now db.projects x same served opened (due own)))
    ]
  ]

  -- If every delivery succeeds, the node may claim the project's events and these are due, no task of
  -- the project is pending once the worker has made one call more than there are open events.
  pub drain_catches_up :
      (fuel : ℕ) (db : OutboxDb) (w : World)
      → CanDeliver db
      → IsServed p node db.projects
      → IsDue p now db.events
      → open_count db.events < fuel
      → pending_task_projection_ids p
          (drain store write_memory casefold hashed max_characters max_utf8_bytes now later node
            fuel db w).0
        ≡ []
  unfolding pending_task_projection_ids
  drain_catches_up fuel db w delivers served due le =
      let ((kept, prompt), idle) =
        drain_invariant store write_memory casefold hashed max_characters max_utf8_bytes now later
          node IsPrompt call-IsPrompt fuel db w delivers (served, due) le in
      let after =
        (drain store write_memory casefold hashed max_characters max_utf8_bytes now later node fuel
          db w).0 in
      ap (map (λ (e : OutboxEvent). e.aggregate_id))
        (select-none _ after.events (λ x i. open_waits after x _ kept (prompt x i) (idle x i)))

-- ===== src/Index/Drained.antt =====
-- What an attempt of outbox.py leaves of the events: their contents, and after a failure the time of
-- the next attempt.
use dduo_solo_founder.Prelude.{
  ℕ, zero, suc, ◌+◌, ◌^◌, ◌≤◌, ◌<◌, ◌≡◌, refl, sym, ◌∙◌, ap, subst, ◌⊎◌, inl, inr, Bool, true,
  false, Option, List, [], ◌∷◌, map, update_rows, In, update_rows-cases, Bool-cases, arith,
}
use dduo_solo_founder.Context.Text.{Text}
use dduo_solo_founder.Work.Store.{RowId, Task}
use dduo_solo_founder.Index.Events.{EventType, OutboxEvent, OutboxDb, is_open, is_event}
use dduo_solo_founder.Index.Projection.{CallOutcome, raised, VectorStore}
use dduo_solo_founder.Index.Outbox.{
  claimed_attempt, finish, succeeded, deliver_event, settle, process_one,
}
use dduo_solo_founder.Index.Attempts.{IsAttempt, process_one-IsAttempt}

-- what an event is about, which no attempt changes
pub record EventContent : Type 0 where
  pub id : RowId
  pub project_id : RowId
  pub event_type : EventType
  pub aggregate_id : RowId
  pub text : Option Text
  pub task_version : Option ℕ

abbrev pub content : OutboxEvent → EventContent
content e = record {
  id = e.id;
  project_id = e.project_id;
  event_type = e.event_type;
  aggregate_id = e.aggregate_id;
  text = e.text;
  task_version = e.task_version;
}

content-finish :
    (later : ℕ) (s : Bool) (e : OutboxEvent)
    → content (finish later s (claimed_attempt e)) ≡ content e
content-finish later true e = refl
content-finish later false e = refl

contents_kept :
    (test : OutboxEvent → Bool) (later : ℕ) (s : Bool) (events : List OutboxEvent)
    → map content (update_rows test (λ row. finish later s (claimed_attempt row)) events)
      ≡ map content events
unfolding update_rows
contents_kept test later s [] = refl
contents_kept test later s (e ∷ es) = elim (Bool-cases (test e)) [
  | inl t ↦ rw (t, content-finish later s e, contents_kept test later s es) refl
  | inr t ↦ rw (t, contents_kept test later s es) refl
]

pow_positive : (n : ℕ) → 1 ≤ 2 ^ n
pow_positive zero = omega arith
pow_positive (suc n) = grind (arith, pow_positive n)

-- an event whose attempt failed: it waits for the next one, which is due in at most five minutes
pub record IsRetried (later : ℕ) (x : OutboxEvent) : Type 0 where
  pub still_open : is_open x.status ≡ true
  pub error_kept : x.has_error ≡ true
  pub due_after : later < x.next_attempt_at
  pub due_by : x.next_attempt_at ≤ later + 300

failed-IsRetried :
    (later : ℕ) (e : OutboxEvent) → IsRetried later (finish later false (claimed_attempt e))
failed-IsRetried later e = record {
  still_open = refl;
  error_kept = refl;
  due_after = omega (arith, pow_positive (e.attempts + 1));
  due_by = omega arith;
}

module _ {World Vector : Type 0} (store : VectorStore World Vector)
    (write_memory : World → RowId → RowId → Vector → World × Bool) (casefold : Text → Text)
    (hashed : List ℕ → ℕ) (max_characters max_utf8_bytes : ℕ) (now later : ℕ) (node : RowId) where
  abbrev call : OutboxDb → World → Bool × OutboxDb × World
  call db w =
      process_one store write_memory casefold hashed max_characters max_utf8_bytes now later node
        db.projects db w

  abbrev outcome_of : List Task → World → OutboxEvent → CallOutcome ℕ
  outcome_of tasks w e =
      (deliver_event store write_memory casefold hashed max_characters max_utf8_bytes tasks w e).1

  -- A call loses no event and changes none of their contents, whatever the delivery does.
  pub process_one_keeps :
      (db : OutboxDb) (w : World) → map content (call db w).1.events ≡ map content db.events
  unfolding settle
  process_one_keeps db w =
      elim (process_one-IsAttempt store write_memory casefold hashed max_characters max_utf8_bytes
        now later node db w) [
          | inl (q, idle) ↦ ap (λ r. map content r.1.events) q
          | inr a ↦
              ap (λ r. map content r.1.events) a.result
              ∙ contents_kept (is_event a.event.id) later
                  (succeeded (outcome_of db.tasks w a.event)) db.events
        ]

  -- An attempt whose delivery raised leaves its event open, with the error, and due again after the
  -- attempt and at most 300 seconds later; every other event is left as it was.
  pub process_one_retries :
      (db : OutboxDb) (w : World)
      (a : IsAttempt store write_memory casefold hashed max_characters max_utf8_bytes now later node
        db w
        (call db w))
      → outcome_of db.tasks w a.event ≡ raised
      → (x : OutboxEvent) → In x (call db w).1.events
      → ((is_event a.event.id x ≡ true) × IsRetried later x)
        ⊎ ((is_event a.event.id x ≡ false) × In x db.events)
  unfolding settle
  process_one_retries db w a failed x i =
      let fail = λ (o : CallOutcome ℕ).
        λ (row : OutboxEvent). finish later (succeeded o) (claimed_attempt row) in
      let at : In x
          (update_rows (is_event a.event.id) (fail (outcome_of db.tasks w a.event)) db.events) =
        subst (λ r. In x r.1.events) a.result i in
      let at1 =
        subst (λ o. In x (update_rows (is_event a.event.id) (fail o) db.events)) failed at in
      let (y, j, q) = update_rows-cases (is_event a.event.id) (fail raised) db.events at1 in
      elim q [
        | inl (t, e) ↦ inl (
          subst (λ z. is_event a.event.id z ≡ true) (sym e) t,
          subst (IsRetried later) (sym e) (failed-IsRetried later y),
        )
        | inr (t, e) ↦ inr (
          subst (λ z. is_event a.event.id z ≡ false) (sym e) t,
          subst (λ z. In z db.events) (sym e) j,
        )
      ]

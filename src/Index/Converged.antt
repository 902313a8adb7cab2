-- ===== src/Index/Converged.antt =====
-- The worker's loop over outbox.py and task_index.py together: a task whose event was waiting is shown
-- once the queue is empty.
use dduo_solo_founder.Prelude.{
  ℕ, ◌<◌, ◌≡◌, refl, sym, ◌∙◌, ap, subst, ◌⊎◌, inl, inr, Bool, true, false, some, List, ◌==◌, map,
  map-In, if◌then◌else◌, find_row, update_rows, In, Bool-cases,
}
use dduo_solo_founder.Context.Text.{Text}
use dduo_solo_founder.Work.Store.{RowId, Task}
use dduo_solo_founder.Index.Events.{
  task_upsert, OutboxEvent, OutboxDb, is_task_of, is_event, is_ready,
}
use dduo_solo_founder.Index.Projection.{VectorStore}
use dduo_solo_founder.Index.Outbox.{
  claimed_attempt, finish, succeeded, deliver_event, settle, process_one,
}
use dduo_solo_founder.Index.Attempts.{IsAttempt}
use dduo_solo_founder.Index.Drained.{EventContent, content, process_one_keeps}
use dduo_solo_founder.Index.Emptied.{open_count, drain, Delivers, same_tables, drain_invariant}
use dduo_solo_founder.Index.Reindexed.{false_not_true}
use dduo_solo_founder.Index.Delivered.{Shown, IsOnlyRow, deliver_event-Shown, current_event-Shown}

-- two events of the queue with one id are about the same
abbrev pub HasUniqueIds : List OutboxEvent → Type 0
HasUniqueIds events =
    (a b : EventContent)
    → In a (map content events)
    → In b (map content events)
    → (a.id == b.id) ≡ true
    → a ≡ b

-- an event for the current version of task `t` that is ready
pub record IsWaiting (now : ℕ) (node : RowId) (t : Task) (db : OutboxDb) (e : OutboxEvent)
    : Type 0 where
  pub stored : In e db.events
  pub was_ready : is_ready now node db.projects e ≡ true
  pub kind : e.event_type ≡ task_upsert
  pub version : e.task_version ≡ some t.version
  pub about : find_row (is_task_of e.project_id e.aggregate_id) db.tasks ≡ some t

module _ {World Vector : Type 0} (store : VectorStore World Vector)
    (write_memory : World → RowId → RowId → Vector → World × Bool)
    (elsewhere : (w : World) (p m : RowId) (vector : Vector) (q u : RowId)
      → store.point (write_memory w p m vector).0 q u ≡ store.point w q u)
    (casefold : Text → Text) (hashed : List ℕ → ℕ) (max_characters max_utf8_bytes : ℕ) (t : Task)
    (now later : ℕ) (node : RowId) where
  abbrev call : OutboxDb → World → Bool × OutboxDb × World
  call db w =
      process_one store write_memory casefold hashed max_characters max_utf8_bytes now later node
        db.projects db w

  abbrev AttemptOf : OutboxDb → World → Type 0
  AttemptOf db w =
      IsAttempt store write_memory casefold hashed max_characters max_utf8_bytes now later node db w
        (call db w)

  abbrev IsShown : World → Type 0
  IsShown w = Shown store write_memory elsewhere casefold hashed max_characters max_utf8_bytes t w

  abbrev IsOnly : List Task → Type 0
  IsOnly tasks =
      IsOnlyRow store write_memory elsewhere casefold hashed max_characters max_utf8_bytes t tasks

  abbrev CanDeliver : OutboxDb → Type 0
  CanDeliver db =
      Delivers store write_memory casefold hashed max_characters max_utf8_bytes now later node db

  -- the task is shown, or an event waits that will show it
  abbrev IsCaught : OutboxDb → World → Type 0
  IsCaught db w = IsShown w ⊎ ((e : OutboxEvent) × IsWaiting now node t db e)

  module _ (db : OutboxDb) (w : World) (delivers : CanDeliver db) (ids : HasUniqueIds db.events)
      (only : IsOnly db.tasks) (a : AttemptOf db w) where
    attempt_delivers :
        succeeded
          (deliver_event store write_memory casefold hashed max_characters max_utf8_bytes db.tasks w
            a.event).1
        ≡ true
    attempt_delivers = delivers w a.event (map-In content db.events a.stored)

    Shown-after :
        IsShown
          (deliver_event store write_memory casefold hashed max_characters max_utf8_bytes db.tasks w
            a.event).0
        → IsShown (call db w).2
    Shown-after = subst IsShown (sym (ap (λ r. r.2) a.result))

    same_event :
        (e : OutboxEvent)
        → IsWaiting now node t db e
        → is_event a.event.id e ≡ true
        → IsShown (call db w).2
    same_event e x own =
        let q : content e ≡ content a.event =
          ids (content e) (content a.event) (map-In content db.events x.stored)
            (map-In content db.events a.stored) own in
        Shown-after (
          current_event-Shown store write_memory elsewhere casefold hashed max_characters
            max_utf8_bytes t db.tasks w a.event (subst (λ c. c.event_type ≡ task_upsert) q x.kind)
            (subst (λ c. c.task_version ≡ some t.version) q x.version)
            (subst (λ c. find_row (is_task_of c.project_id c.aggregate_id) db.tasks ≡ some t) q
              x.about)
            attempt_delivers)

    other_event :
        (e : OutboxEvent)
        → IsWaiting now node t db e
        → is_event a.event.id e ≡ false
        → IsWaiting now node t (call db w).1 e
    unfolding settle update_rows
    other_event e x other =
        let s =
          succeeded
            (deliver_event store write_memory casefold hashed max_characters max_utf8_bytes db.tasks
              w a.event).1 in
        let change = λ (row : OutboxEvent).
          if is_event a.event.id row then finish later s (claimed_attempt row) else row in
        let kept : change e ≡ e = rw other refl in
        subst (λ r. IsWaiting now node t r.1 e) (sym a.result)
          (record {
            stored =
                subst (λ z. In z (map change db.events)) kept (map-In change db.events x.stored);
            was_ready = x.was_ready;
            kind = x.kind;
            version = x.version;
            about = x.about;
          })

    call-IsCaught : IsCaught db w → IsCaught (call db w).1 (call db w).2
    call-IsCaught (inl s) = inl (
        Shown-after (
          deliver_event-Shown store write_memory elsewhere casefold hashed max_characters
            max_utf8_bytes t db.tasks w a.event only attempt_delivers s))
    call-IsCaught (inr (e, x)) = elim (Bool-cases (is_event a.event.id e)) [
      | inl own ↦ inl (same_event e x own)
      | inr other ↦ inr (e, other_event e x other)
    ]

  abbrev IsOrderly : OutboxDb → World → Type 0
  IsOrderly db w = HasUniqueIds db.events × IsOnly db.tasks × IsCaught db w

  call-IsOrderly :
      (db : OutboxDb) (w : World)
      → CanDeliver db
      → IsOrderly db w
      → AttemptOf db w
      → IsOrderly (call db w).1 (call db w).2
  call-IsOrderly db w delivers (ids, only, c) a =
      let (projects, tasks) =
        same_tables store write_memory casefold hashed max_characters max_utf8_bytes now later node
          db w a in
      let kept =
        process_one_keeps store write_memory casefold hashed max_characters max_utf8_bytes now later
          node db w in
      (
        λ x y i j. ids x y (subst (In x) kept i) (subst (In y) kept j),
        subst IsOnly (sym tasks) only,
        call-IsCaught db w delivers ids only a c,
      )

  -- If every delivery succeeds and memories are written to points of their own, a task that has a
  -- ready event for its current version is shown once the worker has made one call more than there
  -- are open events, whatever else was in the queue: its point holds its current document and
  -- payload. Ids of events and of tasks are unique.
  pub drain_shows :
      (fuel : ℕ) (db : OutboxDb) (w : World) (e : OutboxEvent)
      → CanDeliver db
      → HasUniqueIds db.events
      → IsOnly db.tasks
      → IsWaiting now node t db e
      → open_count db.events < fuel
      → IsShown
          (drain store write_memory casefold hashed max_characters max_utf8_bytes now later node
            fuel db w).1
  drain_shows fuel db w e delivers ids only x le =
      let ((unique, own, c), idle) =
        drain_invariant store write_memory casefold hashed max_characters max_utf8_bytes now later
          node IsOrderly call-IsOrderly fuel db w delivers (ids, only, inr (e, x)) le in
      elim c [
        | inl s ↦ s
        | inr (y, z) ↦ absurd (false_not_true (sym (idle y z.stored) ∙ z.was_ready))
      ]

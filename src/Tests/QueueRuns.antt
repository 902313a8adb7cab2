-- ===== src/Tests/QueueRuns.antt =====
-- The worker's loop at a queue of a memory event and a task event.
use dduo_solo_founder.Prelude.{◌≡◌, refl, sym, ◌∙◌, ap, some, none, [], ◌∷◌, here, there, arith}
use dduo_solo_founder.Context.Text.{codes}
use dduo_solo_founder.Memory.Keys.{lower}
use dduo_solo_founder.Index.Document.{TaskDocument, render_task_document}
use dduo_solo_founder.Index.Payload.{task_index_payload}
use dduo_solo_founder.Index.Events.{
  OutboxEvent, OutboxDb, memory_upsert, is_ready, pending_task_projection_ids,
}
use dduo_solo_founder.Index.Outbox.{deliver_event}
use dduo_solo_founder.Index.Emptied.{drain, Delivers}
use dduo_solo_founder.Index.Caught.{IsServed, IsDue, drain_catches_up}
use dduo_solo_founder.Index.Converged.{HasUniqueIds, IsWaiting, drain_shows}
use dduo_solo_founder.Tests.IndexRuns.{sample_store, hashed, sample_task, empty_points}
use dduo_solo_founder.Tests.OutboxRuns.{write_memory, outbox_db, good_event, always_indexed}

abbrev memory_event : OutboxEvent
memory_event = record good_event {
  id = 33;
  event_type = memory_upsert;
  aggregate_id = 9;
  text = some (codes "a memory");
  task_version = none;
}

abbrev mixed_db : OutboxDb
mixed_db = record outbox_db { events = memory_event ∷ good_event ∷ [] }

Delivers-mixed : Delivers sample_store write_memory lower hashed 600 512 9 10 1 mixed_db
unfolding deliver_event
Delivers-mixed v e (here q) = rw (ap (λ c. c.event_type) q, ap (λ c. c.text) q) refl
Delivers-mixed v e (there (here q)) =
    rw
      (
        ap (λ c. c.event_type) q,
        ap (λ c. c.task_version) q,
        ap (λ c. c.aggregate_id) q,
        ap (λ c. c.project_id) q,
      )
      (always_indexed v)
Delivers-mixed v e (there (there h)) = elim h [ ]

mixed-HasUniqueIds : HasUniqueIds mixed_db.events
mixed-HasUniqueIds a b (here p) (here q) same = p ∙ sym q
mixed-HasUniqueIds a b (there (here p)) (there (here q)) same = p ∙ sym q
mixed-HasUniqueIds a b (here p) (there (here q)) same =
    let x : a.id ≡ 33 = ap (λ c. c.id) p in let y : b.id ≡ 31 = ap (λ c. c.id) q in ground arith
mixed-HasUniqueIds a b (there (here p)) (here q) same =
    let x : a.id ≡ 31 = ap (λ c. c.id) p in let y : b.id ≡ 33 = ap (λ c. c.id) q in ground arith
mixed-HasUniqueIds a b (there (there h)) j same = elim h [ ]
mixed-HasUniqueIds a b i (there (there h)) same = elim h [ ]

good_event-IsWaiting : IsWaiting 9 1 sample_task mixed_db good_event
unfolding is_ready
good_event-IsWaiting = record {
  stored = there (here refl);
  was_ready = refl;
  kind = refl;
  version = refl;
  about = refl;
}

drain_shows_example :
    (d : TaskDocument) × (render_task_document lower hashed sample_task 600 512 ≡ some d)
    × ((drain sample_store write_memory lower hashed 600 512 9 10 1 3 mixed_db empty_points).1 1 20
        ≡ some (task_index_payload sample_task d))
drain_shows_example =
    drain_shows sample_store write_memory (λ w p m v q u. refl) lower hashed 600 512 sample_task 9
      10 1 3 mixed_db empty_points good_event Delivers-mixed mixed-HasUniqueIds
      (λ u i same. elim i [ here q ↦ q | there h ↦ elim h [ ] ]) good_event-IsWaiting (omega arith)

mixed-IsServed : IsServed 1 1 mixed_db.projects
unfolding is_ready
mixed-IsServed = refl

mixed-IsDue : IsDue 1 9 mixed_db.events
mixed-IsDue x (here q) own = rw (ap (λ e. e.next_attempt_at) q) refl
mixed-IsDue x (there (here q)) own = rw (ap (λ e. e.next_attempt_at) q) refl
mixed-IsDue x (there (there h)) own = elim h [ ]

-- at first the task is pending
mixed_pending : pending_task_projection_ids 1 mixed_db ≡ 20 ∷ []
unfolding pending_task_projection_ids
mixed_pending = refl

drain_catches_up_example :
    pending_task_projection_ids 1
      (drain sample_store write_memory lower hashed 600 512 9 10 1 3 mixed_db empty_points).0
    ≡ []
drain_catches_up_example =
    drain_catches_up sample_store write_memory lower hashed 600 512 9 10 1 1 3 mixed_db empty_points
      Delivers-mixed mixed-IsServed mixed-IsDue (omega arith)

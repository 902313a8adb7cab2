-- ===== src/Tests/OutboxRuns.antt =====
-- outbox.py at two events of one project: a task event that can be delivered, and one without a
-- version.
use dduo_solo_founder.Prelude.{
  ◌≡◌, refl, sym, ◌⊎◌, inl, inr, Bool, true, false, not, Option, none, some, [], ◌∷◌, here, there,
  In, arith, map, ◌==◌, ap, subst, Bool-cases,
}
use dduo_solo_founder.Context.Text.{Text}
use dduo_solo_founder.Memory.Keys.{lower}
use dduo_solo_founder.Work.Store.{RowId}
use dduo_solo_founder.Index.Document.{TaskDocument, render_task_document}
use dduo_solo_founder.Index.Payload.{TaskPayload, task_index_payload, has_payload}
use dduo_solo_founder.Index.Projection.{returned, raised, index_task, project_point, same_document}
use dduo_solo_founder.Index.Events.{
  OutboxEvent, OutboxDb, task_upsert, pending, failed, is_event, is_ready, enqueue_task_projection,
  live, comes_first,
}
use dduo_solo_founder.Index.Outbox.{process_one, deliver_event, succeeded, task_items}
use dduo_solo_founder.Index.Attempts.{IsAttempt}
use dduo_solo_founder.Index.Drained.{content, IsRetried, process_one_keeps, process_one_retries}
use dduo_solo_founder.Index.Emptied.{drain, Delivers, drain_empties}
use dduo_solo_founder.Index.Projected.{process_one-Shows}
use dduo_solo_founder.Tests.IndexRuns.{
  Points, sample_store, hashed, sample_task, empty_points, rendered, payload,
}
use dduo_solo_founder.Tests.TeamRuns.{row_one}

abbrev pub write_memory : Points → RowId → RowId → Text → Points × Bool
write_memory w p m v = (w, true)

abbrev pub outbox_db : OutboxDb
outbox_db = record {
  projects = record row_one { project_id = 1 } ∷ [];
  tasks = sample_task ∷ [];
  events = enqueue_task_projection 31 4 sample_task live [];
  observations = [];
}

abbrev bad_event : OutboxEvent
bad_event = record {
  id = 32;
  project_id = 1;
  event_type = task_upsert;
  aggregate_id = 20;
  text = none;
  task_version = none;
  status = failed;
  attempts = 9;
  delivery_priority = 0;
  has_error = true;
  created_at = 2;
  next_attempt_at = 3;
  processed_at = none;
}

abbrev bad_db : OutboxDb
bad_db = record outbox_db { events = bad_event ∷ [] }

abbrev call : OutboxDb → Bool × OutboxDb × Points
call db =
    process_one sample_store write_memory lower hashed 600 512 9 10 1 db.projects db empty_points

abbrev AttemptOn : OutboxDb → Type 0
AttemptOn db =
    IsAttempt sample_store write_memory lower hashed 600 512 9 10 1 db empty_points (call db)

process_one_keeps_example : map content (call outbox_db).1.events ≡ map content outbox_db.events
process_one_keeps_example =
    process_one_keeps sample_store write_memory lower hashed 600 512 9 10 1 outbox_db empty_points

bad_attempt : AttemptOn bad_db
unfolding process_one
bad_attempt = record {
  event = bad_event;
  stored = here refl;
  was_ready = refl;
  least = λ x i t. elim i [
    | here e ↦ subst (λ z. comes_first bad_event z ≡ true) (sym e) refl
    | there j ↦ elim j [ ]
  ];
  result = refl;
}

-- the event after the failed attempt
abbrev bad_after : OutboxEvent
bad_after = record bad_event { attempts = 10; next_attempt_at = 310 }

bad_after_In : In bad_after (call bad_db).1.events
unfolding process_one
bad_after_In = here refl

bad_delivery :
    (deliver_event sample_store write_memory lower hashed 600 512 bad_db.tasks empty_points
      bad_event).1
    ≡ raised
unfolding deliver_event
bad_delivery = refl

process_one_retries_example :
    ((is_event 32 bad_after ≡ true) × IsRetried 10 bad_after)
    ⊎ ((is_event 32 bad_after ≡ false) × In bad_after bad_db.events)
unfolding bad_attempt
process_one_retries_example =
    process_one_retries sample_store write_memory lower hashed 600 512 9 10 1 bad_db empty_points
      bad_attempt bad_delivery bad_after bad_after_In

abbrev pub good_event : OutboxEvent
good_event = record bad_event {
  id = 31;
  task_version = some 1;
  status = pending;
  attempts = 0;
  has_error = false;
  created_at = 4;
  next_attempt_at = 4;
}

good_attempt : AttemptOn outbox_db
unfolding process_one enqueue_task_projection
good_attempt = record {
  event = good_event;
  stored = here refl;
  was_ready = refl;
  least = λ x i t. elim i [
    | here e ↦ subst (λ z. comes_first good_event z ≡ true) (sym e) refl
    | there j ↦ elim j [ ]
  ];
  result = refl;
}

good_delivery :
    (deliver_event sample_store write_memory lower hashed 600 512 outbox_db.tasks empty_points
      good_event).1
    ≡ returned 1
unfolding deliver_event lower
good_delivery = refl

process_one-Shows_example :
    ((not (1 == 1) ≡ true) × ((call outbox_db).2 ≡ empty_points))
    ⊎ ((not (1 == 1) ≡ false)
        × ((d : TaskDocument) × (render_task_document lower hashed sample_task 600 512 ≡ some d)
            × ((call outbox_db).2 1 20 ≡ some (task_index_payload sample_task d))))
unfolding enqueue_task_projection process_one good_attempt
process_one-Shows_example =
    process_one-Shows sample_store write_memory lower hashed 600 512 9 10 1 outbox_db empty_points
      good_attempt sample_task 1 1 refl refl refl good_delivery

always_found :
    (v : Points) (found : Option TaskPayload)
    → succeeded
        (task_items sample_store write_memory lower hashed 600 512
          (project_point sample_store v sample_task rendered found)).1
      ≡ true
unfolding project_point
always_found v none = refl
always_found v (some existing) = elim (Bool-cases (has_payload existing payload)) [
  | inl same ↦ rw same refl
  | inr other ↦ rw other elim (Bool-cases (same_document sample_store existing rendered)) [
    | inl kept ↦ rw kept refl
    | inr fresh ↦ rw fresh refl
  ]
]

pub always_indexed :
    (v : Points)
    → succeeded
        (task_items sample_store write_memory lower hashed 600 512
          (index_task sample_store lower hashed 600 512 v sample_task (some 1))).1
      ≡ true
unfolding index_task rendered lower
always_indexed v = always_found v (v 1 20)

Delivers-sample : Delivers sample_store write_memory lower hashed 600 512 9 10 1 outbox_db
unfolding deliver_event enqueue_task_projection
Delivers-sample v e i = elim i [
  | here q ↦
      let type = ap (λ c. c.event_type) q in
      let version = ap (λ c. c.task_version) q in
      let task = ap (λ c. c.aggregate_id) q in
      let project = ap (λ c. c.project_id) q in rw (type, version, task, project) (always_indexed v)
  | there j ↦ elim j [ ]
]

drain_empties_example :
    ((x : OutboxEvent)
      → In x
          (drain sample_store write_memory lower hashed 600 512 9 10 1 2 outbox_db
            empty_points).0.events
      → is_ready 9 1
          (drain sample_store write_memory lower hashed 600 512 9 10 1 2 outbox_db
            empty_points).0.projects
          x
        ≡ false)
    × (map content
          (drain sample_store write_memory lower hashed 600 512 9 10 1 2 outbox_db
            empty_points).0.events
        ≡ map content outbox_db.events)
unfolding enqueue_task_projection
drain_empties_example =
    drain_empties sample_store write_memory lower hashed 600 512 9 10 1 2 outbox_db empty_points
      Delivers-sample (omega arith)

-- ===== src/Index/Outbox.antt =====
-- `OutboxProcessor.process_one` of outbox.py.
use dduo_solo_founder.Prelude.{
  ℕ, ◌+◌, ◌^◌, min, Bool, true, false, not, Option, none, some, List, [], ◌∷◌, ◌++◌, if◌then◌else◌,
  select, find_row, update_rows,
}
use dduo_solo_founder.Context.Text.{Text}
use dduo_solo_founder.Work.Store.{RowId, Task}
use dduo_solo_founder.Team.Authority.{AuthorityRow, project_authority_writable}
use dduo_solo_founder.Index.Events.{
  EventType, memory_upsert, task_upsert, other_type, failed, processed, OutboxEvent, Observation,
  OutboxDb, is_project_row, is_task_of, is_event, test_row, is_ready, first_event,
}
use dduo_solo_founder.Index.Projection.{
  CallOutcome, returned, raised, VectorStore, TaskIndexStatus, stale, TaskIndexOutcome, index_task,
  written_call,
}

abbrev pub claimed_attempt : OutboxEvent → OutboxEvent
claimed_attempt e = record e { attempts = e.attempts + 1 }

-- the end of an attempt at time `now`
abbrev pub finish : ℕ → Bool → OutboxEvent → OutboxEvent
finish now true e = record e { status = processed; processed_at = some now; has_error = false }
finish now false e = record e {
  status = failed;
  has_error = true;
  next_attempt_at = now + min (2 ^ e.attempts) 300;
}

abbrev pub succeeded {ℓ} : {A : Type ℓ} → CallOutcome A → Bool
succeeded (returned x) = true
succeeded raised = false

-- the `item_count` of an attempt
abbrev pub counted : CallOutcome ℕ → ℕ
counted (returned n) = n
counted raised = 1

module _ {World Vector : Type 0} (store : VectorStore World Vector)
    (write_memory : World → RowId → RowId → Vector → World × Bool) (casefold : Text → Text)
    (hashed : List ℕ → ℕ) (max_characters max_utf8_bytes : ℕ) where
  -- `upsert_observed` of the embedding service
  abbrev pub write_embedded :
      OutboxEvent → World × CallOutcome Vector → World × CallOutcome (Unit {0})
  write_embedded e (w, returned vector) =
      written_call (write_memory w e.project_id e.aggregate_id vector)
  write_embedded e (w, raised) = (w, raised)

  abbrev pub one_item {ℓ} : {A : Type ℓ} → World × CallOutcome A → World × CallOutcome ℕ
  one_item (w, returned x) = (w, returned 1)
  one_item (w, raised) = (w, raised)

  abbrev pub is_stale_status : TaskIndexStatus → Bool
  is_stale_status stale = true
  is_stale_status status = false

  abbrev pub task_items : World × CallOutcome TaskIndexOutcome → World × CallOutcome ℕ
  task_items (w, returned o) = (w, returned (if is_stale_status o.status then 0 else 1))
  task_items (w, raised) = (w, raised)

  unfoldable pub deliver_task : World → Option ℕ → Option Task → World × CallOutcome ℕ
  unfolding index_task
  deliver_task w none found = (w, raised)
  deliver_task w (some version) none = (w, returned 0)
  deliver_task w (some version) (some t) =
      task_items (index_task store casefold hashed max_characters max_utf8_bytes w t (some version))

  abbrev pub deliver_memory : World → OutboxEvent → Option Text → World × CallOutcome ℕ
  deliver_memory w e none = (w, raised)
  deliver_memory w e (some text) = one_item (write_embedded e (store.embed w text))

  -- the projection of one event, with its `item_count`
  unfoldable pub deliver_event : List Task → World → OutboxEvent → World × CallOutcome ℕ
  unfolding deliver_task find_row
  deliver_event tasks w e = by_type e.event_type
    where
      by_type : EventType → World × CallOutcome ℕ
      by_type memory_upsert = deliver_memory w e e.text
      by_type task_upsert =
          deliver_task w e.task_version (find_row (is_task_of e.project_id e.aggregate_id) tasks)
      by_type (other_type name) = (w, raised)

  abbrev pub observe : OutboxEvent → CallOutcome ℕ → Observation
  observe e outcome = record {
    outbox_event_id = e.id;
    attempt = e.attempts + 1;
    success = succeeded outcome;
    item_count = counted outcome;
  }

  -- the rows that the transaction commits
  unfoldable pub settle : ℕ → OutboxDb → OutboxEvent → CallOutcome ℕ → OutboxDb
  unfolding update_rows
  settle later db e outcome = record db {
    events =
        update_rows (is_event e.id) (λ row. finish later (succeeded outcome) (claimed_attempt row))
          db.events;
    observations = db.observations ++ observe e outcome ∷ [];
  }

  abbrev pub may_write : RowId → OutboxEvent → List AuthorityRow → Bool
  may_write node e projects =
      test_row (project_authority_writable node) (find_row (is_project_row e.project_id) projects)

  -- Whether the call found work, and the tables and the world after it. `now` is the time of the
  -- claim, `later` that of its end, and `projects_later` are the projects as they are read again then.
  unfoldable pub process_claimed :
      ℕ → RowId → List AuthorityRow → OutboxDb → World → OutboxEvent → Bool × OutboxDb × World
  unfolding find_row project_authority_writable deliver_event settle
  process_claimed later node projects_later db w e =
      let (v, outcome) = deliver_event db.tasks w e in
      if not (may_write node e db.projects)
      then (false, db, w)
      else if may_write node e projects_later
      then (true, settle later db e outcome, v)
      else (true, db, v)

  abbrev pub process_found :
      ℕ
      → RowId
      → List AuthorityRow
      → OutboxDb
      → World
      → Option OutboxEvent
      → Bool × OutboxDb × World
  process_found later node projects_later db w none = (false, db, w)
  process_found later node projects_later db w (some e) =
      process_claimed later node projects_later db w e

  unfoldable pub process_one :
      ℕ → ℕ → RowId → List AuthorityRow → OutboxDb → World → Bool × OutboxDb × World
  unfolding select is_ready first_event process_claimed
  process_one now later node projects_later db w =
      process_found later node projects_later db w
        (first_event (select (is_ready now node db.projects) db.events))

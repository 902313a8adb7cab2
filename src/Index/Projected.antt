-- ===== src/Index/Projected.antt =====
-- `process_one` of outbox.py and `index_task` of task_index.py together: what a task event that was
-- processed leaves in the collection.
use dduo_solo_founder.Prelude.{
  ℕ, ◌≡◌, refl, sym, ◌∙◌, ap, subst, ◌⊎◌, inl, inr, Bool, true, false, not, some, List, ◌==◌,
  find_row,
}
use dduo_solo_founder.Context.Text.{Text}
use dduo_solo_founder.Work.Store.{RowId, Task}
use dduo_solo_founder.Index.Document.{TaskDocument, render_task_document}
use dduo_solo_founder.Index.Payload.{task_index_payload}
use dduo_solo_founder.Index.Events.{task_upsert, OutboxDb, is_task_of}
use dduo_solo_founder.Index.Projection.{
  CallOutcome, returned, raised, VectorStore, TaskIndexOutcome, index_task,
}
use dduo_solo_founder.Index.Current.{index_task-IsReflected}
use dduo_solo_founder.Index.Outbox.{deliver_event, deliver_task, task_items, process_one}
use dduo_solo_founder.Index.Attempts.{IsAttempt}

module _ {World Vector : Type 0} (store : VectorStore World Vector)
    (write_memory : World → RowId → RowId → Vector → World × Bool) (casefold : Text → Text)
    (hashed : List ℕ → ℕ) (max_characters max_utf8_bytes : ℕ) where
  abbrev items : World × CallOutcome TaskIndexOutcome → World × CallOutcome ℕ
  items r = task_items store write_memory casefold hashed max_characters max_utf8_bytes r

  items_returned :
      (r : World × CallOutcome TaskIndexOutcome) {n : ℕ}
      → (items r).1 ≡ returned n
      → (o : TaskIndexOutcome) × (r ≡ ((items r).0, returned o))
  items_returned (w, raised) h = cc
  items_returned (w, returned o) h = (o, refl)

  -- the collection after the delivery of an event for version `v` of task `t`
  abbrev pub Shows : Task → ℕ → World → World → Type 0
  Shows t v before after =
      ((not (t.version == v) ≡ true) × (after ≡ before))
      ⊎ ((not (t.version == v) ≡ false)
          × ((d : TaskDocument) × (render_task_document casefold hashed t max_characters
                  max_utf8_bytes
                ≡ some d)
              × (store.point after t.project_id t.id ≡ some (task_index_payload t d))))

  pub task-Shows :
      (w : World) (t : Task) (v n : ℕ)
      → (items (index_task store casefold hashed max_characters max_utf8_bytes w t (some v))).1
        ≡ returned n
      → Shows t v w
          (items (index_task store casefold hashed max_characters max_utf8_bytes w t (some v))).0
  task-Shows w t v n h =
      let indexed = index_task store casefold hashed max_characters max_utf8_bytes w t (some v) in
      let (o, q) = items_returned indexed h in
      elim (index_task-IsReflected store casefold hashed max_characters max_utf8_bytes w t (some v)
        q) [
          | inl (old, status, kept) ↦ inl (old, kept)
          | inr (new, r) ↦ inr (new, (r.document, r.was_rendered, r.shown))
        ]

  -- When an attempt on a task event ends without an error and the task exists, there are two cases. The
  -- event was for another version of the task, and the collection is as it was; or it was for the
  -- task's version, and the collection shows its current document and payload.
  pub process_one-Shows :
      (now later : ℕ) (node : RowId) (db : OutboxDb) (w : World)
      (a : IsAttempt store write_memory casefold hashed max_characters max_utf8_bytes now later node
        db w
        (process_one store write_memory casefold hashed max_characters max_utf8_bytes now later node
          db.projects db w))
      (t : Task) (v n : ℕ)
      → a.event.event_type ≡ task_upsert
      → a.event.task_version ≡ some v
      → find_row (is_task_of a.event.project_id a.event.aggregate_id) db.tasks ≡ some t
      → (deliver_event store write_memory casefold hashed max_characters max_utf8_bytes db.tasks w
          a.event).1
        ≡ returned n
      → Shows t v w
          (process_one store write_memory casefold hashed max_characters max_utf8_bytes now later
            node db.projects db w).2
  unfolding deliver_event deliver_task
  process_one-Shows now later node db w a t v n kind version found done =
      let same : deliver_event store write_memory casefold hashed max_characters max_utf8_bytes
            db.tasks w a.event
          ≡ items (index_task store casefold hashed max_characters max_utf8_bytes w t (some v)) =
        rw (kind, version, found) refl in
      subst (Shows t v w) (sym (ap (λ r. r.2) a.result ∙ ap (λ r. r.0) same))
        (task-Shows w t v n (sym (ap (λ r. r.1) same) ∙ done))

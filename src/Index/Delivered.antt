-- ===== src/Index/Delivered.antt =====
-- What one delivery of outbox.py does to the point of one task, whichever event is delivered.
use dduo_solo_founder.Prelude.{
  ℕ, ◌≡◌, refl, sym, ◌∙◌, ap, subst, inl, inr, Bool, true, false, not, Option, none, some, List,
  ◌==◌, find_row, In, find_row-In, Bool-cases, arith,
}
use dduo_solo_founder.Context.Text.{Text}
use dduo_solo_founder.Work.Store.{RowId, Task}
use dduo_solo_founder.Index.Document.{TaskDocument, render_task_document}
use dduo_solo_founder.Index.Payload.{task_index_payload}
use dduo_solo_founder.Index.Events.{
  EventType, memory_upsert, task_upsert, other_type, OutboxEvent, is_task_of,
}
use dduo_solo_founder.Index.Projection.{
  CallOutcome, returned, raised, written_call, VectorStore, TaskIndexOutcome, index_task,
}
use dduo_solo_founder.Index.Reindexed.{index_task_elsewhere}
use dduo_solo_founder.Index.Outbox.{
  succeeded, deliver_event, deliver_task, deliver_memory, write_embedded, one_item, task_items,
}
use dduo_solo_founder.Index.Projected.{task-Shows}

returned_value : (o : CallOutcome ℕ) → succeeded o ≡ true → (n : ℕ) × (o ≡ returned n)
returned_value (returned n) h = (n, refl)
returned_value raised h = cc

module _ {World Vector : Type 0} (store : VectorStore World Vector)
    (write_memory : World → RowId → RowId → Vector → World × Bool)
    (elsewhere : (w : World) (p m : RowId) (vector : Vector) (q u : RowId)
      → store.point (write_memory w p m vector).0 q u ≡ store.point w q u)
    (casefold : Text → Text) (hashed : List ℕ → ℕ) (max_characters max_utf8_bytes : ℕ)
    (t : Task) where
  -- the collection shows the task's current document and payload
  abbrev pub Shown : World → Type 0
  Shown w =
      (d : TaskDocument) × (render_task_document casefold hashed t max_characters max_utf8_bytes
        ≡ some d)
      × (store.point w t.project_id t.id ≡ some (task_index_payload t d))

  abbrev pub SamePoint : World → World → Type 0
  SamePoint w v = store.point v t.project_id t.id ≡ store.point w t.project_id t.id

  still-Shown : {w v : World} → SamePoint w v → Shown w → Shown v
  still-Shown q (d, was_rendered, shown) = (d, was_rendered, q ∙ shown)

  abbrev delivered : List Task → World → OutboxEvent → World × CallOutcome ℕ
  delivered tasks w e =
      deliver_event store write_memory casefold hashed max_characters max_utf8_bytes tasks w e

  abbrev delivered_task : World → Option ℕ → Option Task → World × CallOutcome ℕ
  delivered_task w version found =
      deliver_task store write_memory casefold hashed max_characters max_utf8_bytes w version found

  abbrev indexed_by : World → Task → ℕ → World × CallOutcome TaskIndexOutcome
  indexed_by w u v = index_task store casefold hashed max_characters max_utf8_bytes w u (some v)

  abbrev items : World × CallOutcome TaskIndexOutcome → World × CallOutcome ℕ
  items r = task_items store write_memory casefold hashed max_characters max_utf8_bytes r

  written_same :
      (w : World) (r : World × Bool)
      → SamePoint w r.0
      → SamePoint w
          (one_item store write_memory casefold hashed max_characters max_utf8_bytes
            (written_call r)).0
  written_same w (v, true) q = q
  written_same w (v, false) q = q

  embedded_same :
      (w : World) (e : OutboxEvent) (r : World × CallOutcome Vector)
      → SamePoint w r.0
      → SamePoint w
          (one_item store write_memory casefold hashed max_characters max_utf8_bytes
            (write_embedded store write_memory casefold hashed max_characters max_utf8_bytes e r)).0
  embedded_same w e (v, raised) q = q
  embedded_same w e (v, returned vector) q =
      written_same w (write_memory v e.project_id e.aggregate_id vector)
        (elsewhere v e.project_id e.aggregate_id vector t.project_id t.id ∙ q)

  memory_same :
      (w : World) (e : OutboxEvent) (text : Option Text)
      → SamePoint w
          (deliver_memory store write_memory casefold hashed max_characters max_utf8_bytes w e
            text).0
  memory_same w e none = refl
  memory_same w e (some text) =
      embedded_same w e (store.embed w text) (store.embedded w text t.project_id t.id)

  items_world : (r : World × CallOutcome TaskIndexOutcome) → (items r).0 ≡ r.0
  items_world (w, returned o) = refl
  items_world (w, raised) = refl

  not-true : (n : ℕ) → not (n == n) ≡ true → ⊥
  not-true n h = ground arith

  -- indexing the task itself, for any version
  own-Shown :
      (w : World) (v : ℕ)
      → succeeded (items (indexed_by w t v)).1 ≡ true
      → Shown w
      → Shown (items (indexed_by w t v)).0
  own-Shown w v done shown =
      let (n, q) = returned_value (items (indexed_by w t v)).1 done in
      elim (task-Shows store write_memory casefold hashed max_characters max_utf8_bytes w t v n q) [
        | inl (old, kept) ↦ subst Shown (sym kept) shown
        | inr (fresh, now_shown) ↦ now_shown
      ]

  -- indexing it for its current version
  current-Shown :
      (w : World)
      → succeeded (items (indexed_by w t t.version)).1 ≡ true
      → Shown (items (indexed_by w t t.version)).0
  current-Shown w done =
      let (n, q) = returned_value (items (indexed_by w t t.version)).1 done in
      elim (task-Shows store write_memory casefold hashed max_characters max_utf8_bytes w t
        t.version n q) [
          | inl (old, kept) ↦ absurd (not-true t.version old)
          | inr (fresh, now_shown) ↦ now_shown
        ]

  -- the row with the task's id is the task
  abbrev pub IsOnlyRow : List Task → Type 0
  IsOnlyRow tasks = (u : Task) → In u tasks → (u.id == t.id) ≡ true → u ≡ t

  task-Shown :
      (tasks : List Task) (w : World) (version : Option ℕ) (found : Option Task)
      → ((u : Task) → found ≡ some u → (u.id == t.id) ≡ true → u ≡ t)
      → succeeded (delivered_task w version found).1 ≡ true
      → Shown w
      → Shown (delivered_task w version found).0
  unfolding deliver_task
  task-Shown tasks w none found only done shown = shown
  task-Shown tasks w (some v) none only done shown = shown
  task-Shown tasks w (some v) (some u) only done shown = elim (Bool-cases (u.id == t.id)) [
    | inl own ↦
        let row : t ≡ u = sym (only u refl own) in
        subst (λ z. Shown (items (indexed_by w z v)).0) row
          (own-Shown w v (subst (λ z. succeeded (items (indexed_by w z v)).1 ≡ true) (sym row) done)
            shown)
    | inr other ↦
        still-Shown
          (ap (λ x. store.point x t.project_id t.id) (items_world (indexed_by w u v))
            ∙ index_task_elsewhere store casefold hashed max_characters max_utf8_bytes u (some v) w
                t.project_id t.id other)
          shown
  ]

  -- A delivery that succeeded leaves a task that was shown as it is shown.
  pub deliver_event-Shown :
      (tasks : List Task) (w : World) (e : OutboxEvent)
      → IsOnlyRow tasks
      → succeeded (delivered tasks w e).1 ≡ true
      → Shown w
      → Shown (delivered tasks w e).0
  unfolding deliver_event
  deliver_event-Shown tasks w e only done shown = by_type e.event_type refl
    where
      by_type : (k : EventType) → e.event_type ≡ k → Shown (delivered tasks w e).0
      by_type memory_upsert q = rw q (still-Shown (memory_same w e e.text) shown)
      by_type task_upsert q = rw q (
          task-Shown tasks w e.task_version
            (find_row (is_task_of e.project_id e.aggregate_id) tasks)
            (λ u found own. only u (find_row-In _ tasks found).0 own) (rw q at done) shown)
      by_type (other_type name) q = rw q shown

  -- The delivery of an event for the current version of the task shows it.
  pub current_event-Shown :
      (tasks : List Task) (w : World) (e : OutboxEvent)
      → e.event_type ≡ task_upsert
      → e.task_version ≡ some t.version
      → find_row (is_task_of e.project_id e.aggregate_id) tasks ≡ some t
      → succeeded (delivered tasks w e).1 ≡ true
      → Shown (delivered tasks w e).0
  unfolding deliver_event deliver_task
  current_event-Shown tasks w e kind version found done =
      let same : delivered tasks w e ≡ items (indexed_by w t t.version) =
        rw (kind, version, found) refl in
      subst (λ r. Shown r.0) (sym same)
        (current-Shown w (subst (λ r. succeeded r.1 ≡ true) same done))

-- ===== src/Index/Projection.antt =====
-- `TaskIndexService.index_task` of task_index.py over the operations of embeddings.py that it calls.
use dduo_solo_founder.Prelude.{
  ℕ, ◌≡◌, Bool, true, false, ◌&&◌, not, Option, none, some, List, ◌==◌, if◌then◌else◌,
}
use dduo_solo_founder.Prelude.Equality.{same, list_eq, nat_eq}
use dduo_solo_founder.Context.Text.{Text}
use dduo_solo_founder.Work.Store.{RowId, Task}
use dduo_solo_founder.Index.Document.{TaskDocument, render_task_document}
use dduo_solo_founder.Index.Payload.{TaskPayload, task_index_payload, has_payload}

-- a call that leaves the world changed and returns, or raises
pub data CallOutcome {ℓ} (A : Type ℓ) : Type ℓ where
  returned : A → CallOutcome A
  raised : CallOutcome A

-- What is outside of the repository: the embedding provider and the collection of the task points in
-- Qdrant. A failed call may leave any world; what is documented is the effect on the points.
pub record VectorStore (World Vector : Type 0) : Type 0 where
  pub point : World → RowId → RowId → Option TaskPayload
  pub retrieve : World → RowId → RowId → CallOutcome (Option TaskPayload)
  pub embed : World → Text → World × CallOutcome Vector
  pub set_payload : World → RowId → RowId → TaskPayload → World × Bool
  pub upsert : World → RowId → RowId → Vector → TaskPayload → World × Bool
  -- a retrieved point is the stored one
  pub retrieved :
      (w : World) (p t : RowId) {found : Option TaskPayload}
      → retrieve w p t ≡ returned found
      → found ≡ point w p t
  -- embedding a text stores no point
  pub embedded : (w : World) (text : Text) (p t : RowId) → point (embed w text).0 p t ≡ point w p t
  -- a payload that was set on a stored point, or a point that was written, is what is stored
  pub payload_set :
      (w : World) (p t : RowId) (old new : TaskPayload)
      → point w p t ≡ some old
      → (set_payload w p t new).1 ≡ true
      → point (set_payload w p t new).0 p t ≡ some new
  pub upserted :
      (w : World) (p t : RowId) (vector : Vector) (new : TaskPayload)
      → (upsert w p t vector new).1 ≡ true
      → point (upsert w p t vector new).0 p t ≡ some new
  -- no call changes another task's point
  pub set_elsewhere :
      (w : World) (p t q u : RowId) (new : TaskPayload)
      → (t == u) ≡ false
      → point (set_payload w p t new).0 q u ≡ point w q u
  pub upserted_elsewhere :
      (w : World) (p t q u : RowId) (vector : Vector) (new : TaskPayload)
      → (t == u) ≡ false
      → point (upsert w p t vector new).0 q u ≡ point w q u

pub data TaskIndexStatus : Type 0 where
  indexed payload_updated current stale : TaskIndexStatus

-- The observed usage and durations of `TaskIndexOutcome` are left out.
pub record TaskIndexOutcome : Type 0 where
  pub status : TaskIndexStatus
  pub source_version : ℕ
  pub document : Option TaskDocument

-- a call that wrote, or raised
abbrev pub written_call {ℓ} : {World : Type ℓ} → World × Bool → World × CallOutcome (Unit {0})
written_call (w, true) = (w, returned tt)
written_call (w, false) = (w, raised)

module _ {World Vector : Type 0} (store : VectorStore World Vector) where
  abbrev pub write_vector :
      RowId → RowId → TaskPayload → World × CallOutcome Vector → World × CallOutcome (Unit {0})
  write_vector p t payload (w, returned vector) = written_call (store.upsert w p t vector payload)
  write_vector p t payload (w, raised) = (w, raised)

  -- of the embedding service
  unfoldable pub upsert_task_observed :
      World → RowId → RowId → Text → TaskPayload → World × CallOutcome (Unit {0})
  upsert_task_observed w p t text payload = write_vector p t payload (store.embed w text)

  unfoldable pub update_task_payload :
      World → RowId → RowId → TaskPayload → World × CallOutcome (Unit {0})
  update_task_payload w p t payload = written_call (store.set_payload w p t payload)

  -- the outcome of a call with its status
  abbrev pub report :
      TaskIndexStatus
      → ℕ
      → TaskDocument
      → World × CallOutcome (Unit {0})
      → World × CallOutcome TaskIndexOutcome
  report status version document (w, returned done) =
      (w, returned (record { status = status; source_version = version; document = some document }))
  report status version document (w, raised) = (w, raised)

  abbrev pub same_document : TaskPayload → TaskDocument → Bool
  same_document existing document =
      existing.semantic_hash == document.semantic_hash
      && same existing.index_render_version document.render_version

  -- what is done with the point that was found
  unfoldable pub project_point :
      World → Task → TaskDocument → Option TaskPayload → World × CallOutcome TaskIndexOutcome
  unfolding task_index_payload has_payload upsert_task_observed update_task_payload
  project_point w t document none =
      report indexed t.version document
        (upsert_task_observed w t.project_id t.id document.text (task_index_payload t document))
  project_point w t document (some existing) =
      let payload = task_index_payload t document in
      if has_payload existing payload
      then report current t.version document (w, returned tt)
      else if same_document existing document
      then report payload_updated t.version document
          (update_task_payload w t.project_id t.id payload)
      else report indexed t.version document
          (upsert_task_observed w t.project_id t.id document.text payload)

  unfoldable pub read_point :
      World
      → Task
      → TaskDocument
      → CallOutcome (Option TaskPayload)
      → World × CallOutcome TaskIndexOutcome
  unfolding project_point
  read_point w t document (returned found) = project_point w t document found
  read_point w t document raised = (w, raised)

  abbrev pub is_stale : Task → Option ℕ → Bool
  is_stale t none = false
  is_stale t (some expected) = not (t.version == expected)

  module _ (casefold : Text → Text) (hashed : List ℕ → ℕ) (max_characters max_utf8_bytes : ℕ) where
    unfoldable pub index_rendered :
        World → Task → Option TaskDocument → World × CallOutcome TaskIndexOutcome
    unfolding read_point
    index_rendered w t none = (w, raised)
    index_rendered w t (some document) =
        read_point w t document (store.retrieve w t.project_id t.id)

    unfoldable pub index_task : World → Task → Option ℕ → World × CallOutcome TaskIndexOutcome
    unfolding index_rendered render_task_document
    index_task w t expected_version =
        if is_stale t expected_version
        then (w, returned (record { status = stale; source_version = t.version; document = none }))
        else index_rendered w t
            (render_task_document casefold hashed t max_characters max_utf8_bytes)

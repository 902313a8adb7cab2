-- ===== src/Index/Reindexed.antt =====
-- `index_task` of task_index.py run again, and the points that it leaves alone.
use dduo_solo_founder.Prelude.{
  ℕ, ◌≡◌, refl, sym, ◌∙◌, Bool, true, false, Option, none, some, List, ◌==◌, inl, inr, Bool-cases,
}
use dduo_solo_founder.Context.Text.{Text}
use dduo_solo_founder.Work.Store.{RowId, Task}
use dduo_solo_founder.Index.Document.{TaskDocument, render_task_document}
use dduo_solo_founder.Index.Payload.{TaskPayload, task_index_payload, has_payload, has_payload_self}
use dduo_solo_founder.Index.Projection.{
  CallOutcome, returned, raised, VectorStore, TaskIndexStatus, indexed, payload_updated, current,
  TaskIndexOutcome, written_call, write_vector, upsert_task_observed, update_task_payload, report,
  same_document, project_point, read_point, is_stale, index_rendered, index_task,
}
use dduo_solo_founder.Index.Current.{IsReflected, index_task-IsReflected}

pub false_not_true : false ≡ true → ⊥
false_not_true h = cc

module _ {World Vector : Type 0} (store : VectorStore World Vector) where
  module _ (p t q u : RowId) (other : (t == u) ≡ false) (payload : TaskPayload) where
    -- the point of task `u` is the one of world `w`
    abbrev Kept {ℓ} : {A : Type ℓ} → World → World × A → Type 0
    Kept w (v, x) = store.point v q u ≡ store.point w q u

    written_call-Kept : (w : World) (r : World × Bool) → Kept w r → Kept w (written_call r)
    written_call-Kept w (v, true) h = h
    written_call-Kept w (v, false) h = h

    write_vector-Kept :
        (w : World) (r : World × CallOutcome Vector)
        → Kept w r
        → Kept w (write_vector store p t payload r)
    write_vector-Kept w (v, raised) h = h
    write_vector-Kept w (v, returned vector) h =
        written_call-Kept w (store.upsert v p t vector payload)
          (store.upserted_elsewhere v p t q u vector payload other ∙ h)

    upsert-Kept : (w : World) (text : Text) → Kept w (upsert_task_observed store w p t text payload)
    unfolding upsert_task_observed
    upsert-Kept w text = write_vector-Kept w (store.embed w text) (store.embedded w text q u)

    update-Kept : (w : World) → Kept w (update_task_payload store w p t payload)
    unfolding update_task_payload
    update-Kept w =
        written_call-Kept w (store.set_payload w p t payload)
          (store.set_elsewhere w p t q u payload other)

  module _ (t : Task) (q u : RowId) (other : (t.id == u) ≡ false) where
    abbrev Same : World → World × CallOutcome TaskIndexOutcome → Type 0
    Same w (v, x) = store.point v q u ≡ store.point w q u

    report-Same :
        (status : TaskIndexStatus) (d : TaskDocument) (w : World)
        (r : World × CallOutcome (Unit {0}))
        → store.point r.0 q u ≡ store.point w q u
        → Same w (report store status t.version d r)
    report-Same status d w (v, raised) h = h
    report-Same status d w (v, returned x) h = h

    project_point-Same :
        (d : TaskDocument) (w : World) (found : Option TaskPayload)
        → Same w (project_point store w t d found)
    unfolding project_point
    project_point-Same d w none =
        report-Same indexed d w _
          (upsert-Kept t.project_id t.id q u other (task_index_payload t d) w d.text)
    project_point-Same d w (some existing) =
        let payload = task_index_payload t d in
        elim (Bool-cases (has_payload existing payload)) [
          | inl same ↦ rw same refl
          | inr differs ↦ rw differs elim (Bool-cases (same_document store existing d)) [
            | inl kept ↦ rw kept (
                report-Same payload_updated d w _
                  (update-Kept t.project_id t.id q u other payload w))
            | inr fresh ↦ rw fresh (
                report-Same indexed d w _
                  (upsert-Kept t.project_id t.id q u other payload w d.text))
          ]
        ]

    read_point-Same :
        (d : TaskDocument) (w : World) (read : CallOutcome (Option TaskPayload))
        → Same w (read_point store w t d read)
    unfolding read_point
    read_point-Same d w raised = refl
    read_point-Same d w (returned found) = project_point-Same d w found

  module _ (casefold : Text → Text) (hashed : List ℕ → ℕ) (max_characters max_utf8_bytes : ℕ)
      (t : Task) (expected : Option ℕ) where
    abbrev run : World → World × CallOutcome TaskIndexOutcome
    run w = index_task store casefold hashed max_characters max_utf8_bytes w t expected

    index_rendered-Same :
        (w : World) (document : Option TaskDocument) (q u : RowId)
        → (other : (t.id == u) ≡ false)
        → Same t q u other w
            (index_rendered store casefold hashed max_characters max_utf8_bytes w t document)
    unfolding index_rendered
    index_rendered-Same w none q u other = refl
    index_rendered-Same w (some d) q u other =
        read_point-Same t q u other d w (store.retrieve w t.project_id t.id)

    -- Indexing a task leaves the point of every other task as it was, also when the call raises or
    -- finds the event stale.
    pub index_task_elsewhere :
        (w : World) (q u : RowId)
        → (t.id == u) ≡ false
        → store.point (run w).0 q u ≡ store.point w q u
    unfolding index_task
    index_task_elsewhere w q u other = elim (Bool-cases (is_stale store t expected)) [
      | inl old ↦ rw old refl
      | inr new ↦ rw new (
          index_rendered-Same w
            (render_task_document casefold hashed t max_characters max_utf8_bytes) q u other)
    ]

    again :
        (v : World) {o : TaskIndexOutcome} (document : Option TaskDocument)
        (found : Option TaskPayload)
        → IsReflected store t document v o
        → found ≡ store.point v t.project_id t.id
        → store.retrieve v t.project_id t.id ≡ returned found
        → index_rendered store casefold hashed max_characters max_utf8_bytes v t document ≡ (
          v,
          returned (record { status = current; source_version = t.version; document = document }),
        )
    unfolding index_rendered read_point project_point
    again v document found r at_point read =
        let d = r.document in
        rw
          (
            r.was_rendered,
            index_rendered,
            read,
            at_point,
            r.shown,
            has_payload_self (task_index_payload t d),
          )
          refl

    -- Once a call that was not stale has returned, calling again for the same task changes nothing and
    -- reports `current`, if the collection can be read: no text is embedded a second time.
    pub index_task-index_task :
        (w v : World) (o : TaskIndexOutcome) (found : Option TaskPayload)
        → run w ≡ (v, returned o)
        → is_stale store t expected ≡ false
        → store.retrieve v t.project_id t.id ≡ returned found
        → run v ≡ (
          v,
          returned (record {
            status = current;
            source_version = t.version;
            document = render_task_document casefold hashed t max_characters max_utf8_bytes;
          }),
        )
    unfolding index_task
    index_task-index_task w v o found h fresh read =
        let rendered = render_task_document casefold hashed t max_characters max_utf8_bytes in
        let at_point = store.retrieved v t.project_id t.id read in
        elim (index_task-IsReflected store casefold hashed max_characters max_utf8_bytes w t
          expected h) [
            | inl (old, was, kept) ↦ absurd (false_not_true (sym fresh ∙ old))
            | inr (new, r) ↦ rw fresh (again v rendered found r at_point read)
          ]

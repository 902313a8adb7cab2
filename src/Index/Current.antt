-- ===== src/Index/Current.antt =====
-- What `index_task` of task_index.py leaves in the collection of the task points.
use dduo_solo_founder.Prelude.{
  ℕ, ◌≡◌, refl, sym, ◌∙◌, ap, subst, Bool, true, false, Option, none, some, List, ◌⊎◌, inl, inr,
  Bool-cases,
}
use dduo_solo_founder.Context.Text.{Text}
use dduo_solo_founder.Work.Store.{RowId, Task}
use dduo_solo_founder.Index.Document.{TaskDocument, render_task_document}
use dduo_solo_founder.Index.Payload.{TaskPayload, task_index_payload, has_payload, has_payload-eq}
use dduo_solo_founder.Index.Projection.{
  CallOutcome, returned, raised, written_call, write_vector, VectorStore, TaskIndexStatus, indexed,
  payload_updated, current, stale, TaskIndexOutcome, upsert_task_observed, update_task_payload,
  report, same_document, project_point, read_point, is_stale, index_rendered, index_task,
}

pair_returned :
    {W A : Type 0} {v w : W} {x y : A}
    → ◌≡◌ {A = W × CallOutcome A} (w, returned x) (v, returned y)
    → (x ≡ y) × (v ≡ w)
pair_returned h = (cc, cc)

module _ {World Vector : Type 0} (store : VectorStore World Vector) where
  -- a call that returned left the payload in the task's point
  abbrev Holds : RowId → RowId → TaskPayload → World × CallOutcome (Unit {0}) → Type 0
  Holds p t payload (w, returned x) = store.point w p t ≡ some payload
  Holds p t payload (w, raised) = Unit {0}

  module _ (p t : RowId) (payload : TaskPayload) where
    written_call-Holds :
        (r : World × Bool)
        → (r.1 ≡ true → store.point r.0 p t ≡ some payload)
        → Holds p t payload (written_call r)
    written_call-Holds (w, true) h = h refl
    written_call-Holds (w, false) h = tt

    write_vector-Holds :
        (r : World × CallOutcome Vector) → Holds p t payload (write_vector store p t payload r)
    write_vector-Holds (w, raised) = tt
    write_vector-Holds (w, returned vector) =
        written_call-Holds (store.upsert w p t vector payload) (store.upserted w p t vector payload)

    upsert-Holds :
        (w : World) (text : Text)
        → Holds p t payload (upsert_task_observed store w p t text payload)
    unfolding upsert_task_observed
    upsert-Holds w text = write_vector-Holds (store.embed w text)

    update-Holds :
        (w : World) {old : TaskPayload}
        → store.point w p t ≡ some old
        → Holds p t payload (update_task_payload store w p t payload)
    unfolding update_task_payload
    update-Holds w {old} h =
        written_call-Holds (store.set_payload w p t payload) (store.payload_set w p t old payload h)

  -- The task's point shows its document, if the call returned.
  abbrev Reflects : Task → TaskDocument → World × CallOutcome TaskIndexOutcome → Type 0
  Reflects t d (w, returned o) =
      (o.source_version ≡ t.version)
      × (o.document ≡ some d)
      × (store.point w t.project_id t.id ≡ some (task_index_payload t d))
  Reflects t d (w, raised) = Unit {0}

  module _ (t : Task) (d : TaskDocument) where
    report-Reflects :
        (status : TaskIndexStatus) (r : World × CallOutcome (Unit {0}))
        → Holds t.project_id t.id (task_index_payload t d) r
        → Reflects t d (report store status t.version d r)
    report-Reflects status (w, raised) h = tt
    report-Reflects status (w, returned x) h = (refl, refl, h)

    project_point-Reflects :
        (w : World) (found : Option TaskPayload)
        → found ≡ store.point w t.project_id t.id
        → Reflects t d (project_point store w t d found)
    unfolding project_point
    project_point-Reflects w none h =
        report-Reflects indexed
          (upsert_task_observed store w t.project_id t.id d.text (task_index_payload t d))
          (upsert-Holds t.project_id t.id (task_index_payload t d) w d.text)
    project_point-Reflects w (some existing) h =
        let payload = task_index_payload t d in
        elim (Bool-cases (has_payload existing payload)) [
          | inl same ↦
              rw (same, report)
                (report-Reflects current (w, returned tt)
                  (sym h ∙ ap some (has_payload-eq existing payload same)))
          | inr other ↦
              rw (other, report)
                elim (Bool-cases (same_document store existing d)) [
                  | inl kept ↦
                      rw (kept, report)
                        (report-Reflects payload_updated
                          (update_task_payload store w t.project_id t.id payload)
                          (update-Holds t.project_id t.id payload w (sym h)))
                  | inr fresh ↦
                      rw (fresh, report)
                        (report-Reflects indexed
                          (upsert_task_observed store w t.project_id t.id d.text payload)
                          (upsert-Holds t.project_id t.id payload w d.text))
                ]
        ]

    read_point-Reflects :
        (w : World) (read : CallOutcome (Option TaskPayload))
        → store.retrieve w t.project_id t.id ≡ read
        → Reflects t d (read_point store w t d read)
    unfolding read_point
    read_point-Reflects w raised h = tt
    read_point-Reflects w (returned found) h =
        project_point-Reflects w found (store.retrieved w t.project_id t.id h)

  -- the outcome and the point of a task whose document was rendered
  pub record IsReflected (t : Task) (rendered : Option TaskDocument) (v : World)
      (o : TaskIndexOutcome) : Type 0 where
    pub document : TaskDocument
    pub was_rendered : rendered ≡ some document
    pub version : o.source_version ≡ t.version
    pub reported : o.document ≡ some document
    pub shown : store.point v t.project_id t.id ≡ some (task_index_payload t document)

  module _ (casefold : Text → Text) (hashed : List ℕ → ℕ) (max_characters max_utf8_bytes : ℕ)
      (w : World) (t : Task) (expected : Option ℕ) where
    abbrev rendered : Option TaskDocument
    rendered = render_task_document casefold hashed t max_characters max_utf8_bytes

    reflected :
        (document : Option TaskDocument) {v : World} {o : TaskIndexOutcome}
        → index_rendered store casefold hashed max_characters max_utf8_bytes w t document
          ≡ (v, returned o)
        → IsReflected t document v o
    unfolding index_rendered
    reflected none h = cc
    reflected (some d) h =
        let shown = read_point-Reflects t d w (store.retrieve w t.project_id t.id) refl in
        let (version, reported, held) = subst (Reflects t d) h shown in
        record {
          document = d;
          was_rendered = refl;
          version = version;
          reported = reported;
          shown = held;
        }

    -- `index_task` implements "the point of a task shows the task": when a call returns, the event's
    -- version was an old one and nothing was written, or the document of the task was rendered and
    -- the task's point holds exactly its payload, whichever of the three ways was taken.
    pub index_task-IsReflected :
        {v : World} {o : TaskIndexOutcome}
        → index_task store casefold hashed max_characters max_utf8_bytes w t expected
          ≡ (v, returned o)
        → ((is_stale store t expected ≡ true) × (o.status ≡ stale) × (v ≡ w))
          ⊎ ((is_stale store t expected ≡ false) × IsReflected t rendered v o)
    unfolding index_task
    index_task-IsReflected h = elim (Bool-cases (is_stale store t expected)) [
      | inl old ↦
          let (same, kept) = pair_returned (rw old at h) in
          inl (old, ap (λ p. p.status) (sym same), kept)
      | inr new ↦ inr (new, reflected rendered (rw new at h))
    ]

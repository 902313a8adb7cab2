-- ===== src/Tests/IndexRuns.antt =====
-- task_index.py and outbox.py at a small project: a task is projected, its event processed and the
-- queue emptied.
use dduo_solo_founder.Prelude.{
  ℕ, ◌≡◌, refl, ◌⊎◌, true, false, Option, none, some, List, [], ◌∷◌, ◌≤◌, arith, length, map, ◌==◌,
  if◌then◌else◌,
}
use dduo_solo_founder.Context.Text.{Text, codes}
use dduo_solo_founder.Memory.Keys.{lower}
use dduo_solo_founder.Work.Store.{RowId, Task, todo}
use dduo_solo_founder.Index.Labels.{normalized, render_labels}
use dduo_solo_founder.Index.Document.{
  TaskDocument, render_task_document, byte_length, truncate_utf8_middle,
}
use dduo_solo_founder.Index.Allotted.{render_task_document-bounds}
use dduo_solo_founder.Index.Payload.{TaskPayload, task_index_payload}
use dduo_solo_founder.Index.Projection.{
  returned, VectorStore, TaskIndexOutcome, TaskIndexStatus, indexed, current, stale, is_stale,
  index_task,
}
use dduo_solo_founder.Index.Current.{IsReflected, index_task-IsReflected}
use dduo_solo_founder.Index.Reindexed.{index_task-index_task}
use dduo_solo_founder.Tests.SprintRuns.{task_row}

abbrev pub Points : Type 0
Points = RowId → RowId → Option TaskPayload

abbrev pub put : Points → RowId → RowId → TaskPayload → Points
put w p t x q u = if t == u then some x else w q u

pub put_own : (w : Points) (p t : RowId) (x : TaskPayload) → put w p t x p t ≡ some x
put_own w p t x = let e : (t == t) ≡ true = ground arith in rw e refl

pub put_other :
    (w : Points) (p t q u : RowId) (x : TaskPayload) → (t == u) ≡ false → put w p t x q u ≡ w q u
put_other w p t q u x h = rw h refl

pub returned_eq : {x y : Option TaskPayload} → returned x ≡ returned y → y ≡ x
returned_eq h = cc

-- a store that never fails, whose vectors are the texts
abbrev pub sample_store : VectorStore Points Text
sample_store = record {
  point = λ w p t. w p t;
  retrieve = λ w p t. returned (w p t);
  embed = λ w text. (w, returned text);
  set_payload = λ w p t x. (put w p t x, true);
  upsert = λ w p t v x. (put w p t x, true);
  retrieved = λ w p t h. returned_eq h;
  embedded = λ w text p t. refl;
  payload_set = λ w p t old new h k. put_own w p t new;
  upserted = λ w p t v new k. put_own w p t new;
  set_elsewhere = λ w p t q u new h. put_other w p t q u new h;
  upserted_elsewhere = λ w p t q u v new h. put_other w p t q u new h;
}

abbrev pub hashed : List ℕ → ℕ
hashed bytes = length bytes

abbrev pub sample_task : Task
sample_task = record (task_row 20 todo) { labels = "b" ∷ "A" ∷ "b" ∷ [] }

labels_sorted : render_labels lower (map codes sample_task.labels) ≡ codes "A, b"
unfolding render_labels lower
labels_sorted = refl

spaces_normalized : normalized (codes "  a \n b  ") ≡ codes "a b"
unfolding normalized
spaces_normalized = refl

-- a cut inside of a character drops the whole character
cut_whole : truncate_utf8_middle (codes "aéééééé") 9 ≡ codes "aé…é"
unfolding truncate_utf8_middle
cut_whole = refl

abbrev document_or : Option TaskDocument → TaskDocument
document_or (some d) = d
document_or none = record {
  text = [];
  semantic_hash = 0;
  render_version = [];
  truncated = false;
  source_characters = 0;
  source_utf8_bytes = 0;
}

unfoldable pub rendered : TaskDocument
unfolding render_task_document lower
rendered = document_or (render_task_document lower hashed sample_task 600 512)

rendered-some : render_task_document lower hashed sample_task 600 512 ≡ some rendered
unfolding rendered render_task_document lower
rendered-some = refl

render_task_document-bounds_example :
    (length rendered.text ≤ 600) × (byte_length rendered.text ≤ 512)
render_task_document-bounds_example =
    render_task_document-bounds lower hashed sample_task 600 512 rendered-some

abbrev pub empty_points : Points
empty_points p t = none

abbrev pub payload : TaskPayload
payload = task_index_payload sample_task rendered

abbrev outcome_with : TaskIndexStatus → TaskIndexOutcome
outcome_with status = record { status = status; source_version = 1; document = some rendered }

indexed_run :
    index_task sample_store lower hashed 600 512 empty_points sample_task (some 1)
    ≡ (put empty_points 1 20 payload, returned (outcome_with indexed))
unfolding index_task rendered lower task_index_payload
indexed_run = refl

index_task-IsReflected_example :
    ((is_stale sample_store sample_task (some 1) ≡ true)
      × (indexed ≡ stale)
      × (put empty_points 1 20 payload ≡ empty_points))
    ⊎ ((is_stale sample_store sample_task (some 1) ≡ false)
        × IsReflected sample_store sample_task
            (render_task_document lower hashed sample_task 600 512)
            (put empty_points 1 20 payload)
            (outcome_with indexed))
index_task-IsReflected_example =
    index_task-IsReflected sample_store lower hashed 600 512 empty_points sample_task (some 1)
      indexed_run

index_task-index_task_example :
    index_task sample_store lower hashed 600 512
      (put empty_points 1 20 payload)
      sample_task
      (some 1)
    ≡ (
      put empty_points 1 20 payload,
      returned (record {
        status = current;
        source_version = 1;
        document = render_task_document lower hashed sample_task 600 512;
      }),
    )
index_task-index_task_example =
    index_task-index_task sample_store lower hashed 600 512 sample_task (some 1) empty_points
      (put empty_points 1 20 payload) (outcome_with indexed) (some payload) indexed_run refl refl

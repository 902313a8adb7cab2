-- ===== src/Work/Previewed.antt =====
-- A preview of a closure, actions of `apply_task_action` of service.py after it, and then the closure.
use dduo_solo_founder.Prelude.{
  ℕ, ◌+◌, ◌≡◌, ◌≢◌, refl, sym, ◌∙◌, ap, subst, inl, inr, String, Bool, true, false, not, Option,
  none, some, ◌==◌, ◌&&◌, ◌||◌, find_row, update_rows, In, Bool-cases, arith, length,
}
use dduo_solo_founder.Work.Store.{
  RowId, is_id, Task, Sprint, Db, ok, err, sprint_not_found, >>=-eq-ok, if-eq-ok, ok-eq-ok,
  is_sprint, is_archived, advance_task_index_generation, log_activity,
}
use dduo_solo_founder.Work.Sprints.Rows.{
  Request, archive, Call, get_sprint, in_sprint, unfinished_in,
}
use dduo_solo_founder.Work.Sprints.Mutate.{mutate_sprint, is_receipt}
use dduo_solo_founder.Work.Sprints.Changed.{SameTables, advance-SameTables}
use dduo_solo_founder.Work.Sprints.Preview.{ClosePreview, count_rows, close_preview}
use dduo_solo_founder.Work.Sprints.Announced.{close_preview-counts, mutate_sprint-IsClosed}
use dduo_solo_founder.Work.Tasks.Values.{all_applied}
use dduo_solo_founder.Work.Tasks.Action.{
  TaskCall, OpenedTask, has_row_id, applied, versioned, save_task, apply_task_action, is_complete,
  is_done,
}
use dduo_solo_founder.Work.Tasks.Opened.{IsOpenedTask, open_task-IsOpenedTask}
use dduo_solo_founder.Work.Tasks.Checks.{touch_task_sprints}
use dduo_solo_founder.Work.Later.{apply_task_action-cases}
use dduo_solo_founder.Work.Writes.{
  count_rows-update, count_rows-last, IsTouched, IsTouched-trans, IsRow,
  touch_task_sprints-TouchesOf,
}
use dduo_solo_founder.Work.UniqueTasks.{HasUniqueTasks, saved-HasUniqueTasks, opened-HasUniqueTasks}

-- the tables after any number of task actions that succeeded; the id of a new task is unused
pub data TaskWrites (title_matches : String → String → Bool) (db : Db) : Db → Type 0 where
  none_yet : TaskWrites title_matches db db
  then_action :
      {before after : Db} {t : Task} (c : TaskCall)
      → TaskWrites title_matches db before
      → ((x : Task) → In x before.tasks → x.id ≢ c.fresh)
      → apply_task_action title_matches c before ≡ ok (t, after)
      → TaskWrites title_matches db after

id_some : (o : Option RowId) (i : RowId) → is_id o i ≡ true → o ≡ some i
id_some none i h = cc
id_some (some j) i h = ap some (ground arith)

placed_parts :
    (p i : RowId) (t : Task) → in_sprint p i t ≡ true → (t.project_id ≡ p) × (t.sprint_id ≡ some i)
placed_parts p i t h = (ground arith, id_some t.sprint_id i (ground arith))

module _ (p i : RowId) (set : (i == 0) ≡ false) (s : Sprint)
    (unfinished : is_archived s.status ≡ false) (db : Db) where
  -- the sprint's row, and its tasks as long as the version is the one that was seen
  record Followed (mid : Db) : Type 0 where
    pub row : Sprint
    pub found : IsRow p i set mid.sprints row
    pub touched : IsTouched s row
    pub unique : HasUniqueTasks mid.tasks
    pub kept :
        row.version ≡ s.version
        → (test : Task → Bool) → ((x : Task) → in_sprint p i x ≡ false → test x ≡ false)
        → count_rows test mid.tasks ≡ count_rows test db.tasks

  Followed-same : {a b : Db} → SameTables a b → Followed b → Followed a
  Followed-same e f = record {
    row = f.row;
    found = subst (λ z. IsRow p i set z f.row) (sym e.sprints) f.found;
    touched = f.touched;
    unique = subst HasUniqueTasks (sym e.tasks) f.unique;
    kept = λ v test narrow. ap (count_rows test) e.tasks ∙ f.kept v test narrow;
  }

  module _ (c : TaskCall) (o : OpenedTask) (mid : Db) (f : Followed mid)
      (op : IsOpenedTask c mid.tasks o) (fresh : (x : Task) → In x mid.tasks → x.id ≢ c.fresh) where
    abbrev final : Task
    final = versioned c o.created (applied c o.row)

    abbrev saved_db : Db
    saved_db = record mid {
      tasks = update_rows (has_row_id final.id) (λ row. final) o.tasks;
      sprints = touch_task_sprints c.context c.project o.row.sprint_id final.sprint_id mid.sprints;
    }

    saved-Followed : Followed saved_db
    saved-Followed =
        let (unique, stored) = opened-HasUniqueTasks c mid.tasks o op f.unique fresh in
        let touches =
          touch_task_sprints-TouchesOf p i set c.context c.project o.row.sprint_id final.sprint_id
            mid.sprints f.row f.found in
        let seen : is_archived f.row.status ≡ false =
          ap is_archived f.touched.status ∙ unfinished in
        record {
          row = touches.row;
          found = touches.found;
          touched = IsTouched-trans f.touched touches.touched;
          unique = saved-HasUniqueTasks o.tasks final unique;
          kept = λ v test narrow.
              let before = f.touched.grows in
              let after = touches.touched.grows in
              let still : f.row.version ≡ s.version = omega arith in
              let old_out : in_sprint p i o.row ≡ false = elim (Bool-cases (in_sprint p i o.row)) [
                | inl t ↦
                    let (own, home) = placed_parts p i o.row t in
                    let moved = touches.moved (sym op.owner ∙ own) (inl home) seen in
                    absurd (omega arith)
                | inr t ↦ t
              ] in
              let new_out : in_sprint p i final ≡ false = elim (Bool-cases (in_sprint p i final)) [
                | inl t ↦
                    let (own, home) = placed_parts p i final t in
                    let moved = touches.moved (sym op.owner ∙ own) (inr home) seen in
                    absurd (omega arith)
                | inr t ↦ t
              ] in
              let only = λ (x : Task). λ (j : In x o.tasks). λ (t : has_row_id final.id x ≡ true).
                let same : x.id ≡ o.row.id = ground arith in unique x o.row j stored same in
              let saved =
                count_rows-update test (has_row_id final.id) final o.tasks
                  (λ x j t.
                    narrow x (subst (λ z. in_sprint p i z ≡ false) (sym (only x j t)) old_out))
                  (narrow final new_out) in
              let opened : count_rows test o.tasks ≡ count_rows test mid.tasks = elim op.origin [
                | inl (e, stored_row) ↦ ap (count_rows test) e
                | inr (e, id, free) ↦
                    ap (count_rows test) e
                    ∙ count_rows-last test mid.tasks o.row (narrow o.row old_out)
              ] in
              saved ∙ opened ∙ f.kept still test narrow;
        }

    save_task-Followed :
        {t : Task} {after : Db} → save_task c o mid ≡ ok (t, after) → Followed after
    unfolding save_task log_activity
    save_task-Followed h =
        let changed =
          is_complete c.action && not (is_done o.row.status) || not (all_applied c.values o.row) in
        elim (if-eq-ok (not o.created && not changed) _ _ h) [
          | inl (q, e) ↦ subst (λ (z : Task × Db). Followed z.1) (ok-eq-ok e) f
          | inr (q, e) ↦
              let (db1, advanced, e1) =
                >>=-eq-ok (advance_task_index_generation c.project saved_db) _ e in
              let same = advance-SameTables c.project saved_db advanced in
              subst (λ (z : Task × Db). Followed z.1) (ok-eq-ok e1)
                (Followed-same (record { sprints = same.sprints; tasks = same.tasks })
                  saved-Followed)
        ]

  writes-Followed :
      (title_matches : String → String → Bool) (mid : Db)
      → Followed db
      → TaskWrites title_matches db mid
      → Followed mid
  writes-Followed title_matches mid start none_yet = start
  writes-Followed title_matches mid start (then_action {before = earlier} c run fresh h) =
      let f = writes-Followed title_matches earlier start run in
      elim (apply_task_action-cases title_matches c earlier h) [
        | inl same ↦ subst Followed (sym same) f
        | inr (o, opened, saved) ↦
            save_task-Followed c o earlier f (open_task-IsOpenedTask title_matches c earlier opened)
              fresh saved
      ]

found_or_missing :
    (found : Option Sprint) {s : Sprint}
    → (elim found [ none ↦ err sprint_not_found | some x ↦ ok x ]) ≡ ok s
    → found ≡ some s
found_or_missing none h = cc
found_or_missing (some x) h = ap some (ok-eq-ok h)

get_sprint-IsRow :
    (p i : RowId) (set : (i == 0) ≡ false) (db : Db) {s : Sprint}
    → get_sprint p (some i) db ≡ ok s
    → IsRow p i set db.sprints s
unfolding get_sprint
get_sprint-IsRow p i set db h = found_or_missing (find_row (is_sprint p i) db.sprints) h

IsRow-get_sprint :
    (p i : RowId) (set : (i == 0) ≡ false) (db : Db) {s : Sprint}
    → IsRow p i set db.sprints s
    → get_sprint p (some i) db ≡ ok s
unfolding get_sprint
IsRow-get_sprint p i set db {s} h =
    subst (λ o. (elim o [ none ↦ err sprint_not_found | some x ↦ ok x ]) ≡ ok s) (sym h) refl

unfinished_narrow : (p i : RowId) (x : Task) → in_sprint p i x ≡ false → unfinished_in p i x ≡ false
unfinished_narrow p i x h = rw h refl

-- A sprint that is not archived is previewed, then any number of task actions succeed, and then a
-- first call that names the previewed version archives the sprint. If it succeeds, the preview still
-- was right: the closure takes one snapshot for each task of the preview's total, and moves as many
-- tasks as the preview counted unfinished, each with a revision and an event. The total is the sum
-- of the preview's two counts. Ids of tasks are unique, and the sprint's id is not the empty text.
pub close_preview-mutate_sprint :
    (snapshot_hash : Option RowId → String → Request → ℕ) (title_matches : String → String → Bool)
    (c : Call) (chosen : Option RowId) (i : RowId) (v : ClosePreview) (s' : Sprint)
    (db mid db' : Db)
    → (i == 0) ≡ false
    → HasUniqueTasks db.tasks
    → close_preview c.project i db ≡ ok v
    → is_archived v.sprint.status ≡ false
    → TaskWrites title_matches db mid
    → c.request ≡ archive v.sprint.version chosen
    → c.sprint_id ≡ some i
    → find_row (is_receipt c.project c.key) mid.mutations ≡ none
    → mutate_sprint snapshot_hash c mid ≡ ok (s', db')
    → (length db'.snapshots ≡ length mid.snapshots + v.total)
      × (length db'.revisions ≡ length mid.revisions + v.unfinished_count)
      × (length db'.outbox ≡ length mid.outbox + v.unfinished_count)
      × (v.total ≡ v.completed_count + v.unfinished_count)
close_preview-mutate_sprint snapshot_hash title_matches c chosen i v s' db mid db' set unique seen
      live writes asked named first h =
    let (found, total, unfinished, parts) = close_preview-counts c.project i db seen in
    let start : Followed c.project i set v.sprint live db db = record {
      row = v.sprint;
      found = get_sprint-IsRow c.project i set db found;
      touched = record { status = refl; grows = omega arith };
      unique = unique;
      kept = λ e test narrow. refl;
    } in
    let f = writes-Followed c.project i set v.sprint live db title_matches mid start writes in
    let (version, closed) =
      mutate_sprint-IsClosed snapshot_hash c v.sprint.version chosen i f.row s' mid db' asked named
        first (IsRow-get_sprint c.project i set mid f.found) h in
    let all = f.kept version (in_sprint c.project i) (λ x out. out) in
    let carried = f.kept version (unfinished_in c.project i) (unfinished_narrow c.project i) in
    let snapshots = closed.snapshots in
    let revisions = closed.revisions in
    let outbox = closed.outbox in (omega arith, omega arith, omega arith, parts)

-- ===== src/Tests/SprintRuns.antt =====
-- A project with an active sprint of two tasks, one of them unfinished, and a planned sprint: the
-- active sprint is archived, and its unfinished task is carried into the planned one.
use dduo_solo_founder.Prelude.{
  ℕ, ◌≡◌, ◌≢◌, refl, ◌⊎◌, inl, inr, String, false, none, some, Option, [], ◌∷◌, map, arith, In,
  here, there, if◌then◌else◌, ◌==◌, find_row, any_row, select, update_rows,
}
use dduo_solo_founder.Work.Store.{
  RowId, task, todo, done, medium, Task, TaskStatus, planned, active, archived, Sprint,
  SprintStatus, Db, Result, ok, err, key_reused, advance_task_index_generation, log_activity,
}
use dduo_solo_founder.Work.Consistency.{IsConsistent}
use dduo_solo_founder.Work.Sprints.Rows.{
  Request, archive, create, Call, get_sprint, check_version, save_placements, order_by_id,
  insert_by_id, advance_for,
}
use dduo_solo_founder.Work.Sprints.Mutate.{
  open_sprint, find_destination, named_destination, archive_sprint, transition, save_sprint,
  record_receipt, apply_request, mutate_sprint,
}
use dduo_solo_founder.Work.Sprints.Keeps.{mutate_sprint-IsConsistent}
use dduo_solo_founder.Work.Sprints.WorkKept.{execution}
use dduo_solo_founder.Work.Sprints.Replay.{mutate_sprint_keeps_work}
use dduo_solo_founder.Work.Later.{at_once, then_sprint, mutate_sprint_replay}

abbrev pub sprint_row : RowId → SprintStatus → ℕ → Sprint
sprint_row i status version = record {
  id = i;
  project_id = 1;
  title = "Sprint";
  objective = "";
  status = status;
  version = version;
  archive_version = none;
  started_at = none;
  archived_at = none;
  updated_at = 5;
}

abbrev pub task_row : RowId → TaskStatus → Task
task_row i status = record {
  id = i;
  project_id = 1;
  kind = task;
  epic_id = none;
  sprint_id = some 10;
  title = "Task";
  description = "";
  status = status;
  priority = medium;
  labels = [];
  objective = none;
  next_action = none;
  due_at = none;
  dependencies = [];
  rationale = none;
  completion_evidence = none;
  version = 1;
  created_at = 3;
  updated_at = 3;
}

abbrev pub sprint_db : Db
sprint_db = record {
  projects =
      record {
        id = 1;
        task_index_generation = 0;
        backup_dirty = false;
        backup_generation = 0;
        updated_at = 0;
      }
      ∷ [];
  sprints = sprint_row 10 active 2 ∷ sprint_row 11 planned 1 ∷ [];
  tasks = task_row 20 todo ∷ task_row 21 done ∷ [];
  snapshots = [];
  mutations = [];
  revisions = [];
  outbox = [];
  activities = [];
}

abbrev pub archive_call : Call
archive_call = record {
  project = 1;
  sprint_id = some 10;
  key = "archive-1";
  request = archive 2 (some 11);
  fresh = 99;
  context = record { member = some 7; anonymous = false; now = 40 };
}

-- a hash that tells the requests of these runs apart
abbrev pub run_hash : Option RowId → String → Request → ℕ
run_hash none key r = 0
run_hash (some i) key r = i

abbrev value : Result (Sprint × Db) → Sprint × Db
value (ok z) = z
value (err e) = (sprint_row 0 planned 0, sprint_db)

-- opens the whole operation
sprint_program : Unit {0}
unfolding mutate_sprint any_row find_row apply_request open_sprint check_version get_sprint
    transition archive_sprint find_destination named_destination advance_for save_placements
    order_by_id select update_rows advance_task_index_generation save_sprint record_receipt
    log_activity insert_by_id
sprint_program = tt

archive_run :
    mutate_sprint run_hash archive_call sprint_db
    ≡ ok (value (mutate_sprint run_hash archive_call sprint_db))
unfolding sprint_program
archive_run = refl

abbrev archive_result : Sprint × Db
archive_result = value (mutate_sprint run_hash archive_call sprint_db)

archive_carries :
    (map (λ (t : Task). t.sprint_id) archive_result.1.tasks ≡ some 11 ∷ some 10 ∷ [])
    × (map (λ (s : Sprint). s.version) archive_result.1.sprints ≡ 3 ∷ 2 ∷ [])
    × (map (λ (s : Sprint). s.status) archive_result.1.sprints ≡ archived ∷ planned ∷ [])
unfolding sprint_program
archive_carries = (refl, refl, refl)

pub In-two {ℓ} : {A : Type ℓ} {x a b : A} → In x (a ∷ b ∷ []) → (x ≡ a) ⊎ (x ≡ b)
In-two (here e) = inl e
In-two (there (here e)) = inr e
In-two (there (there h)) = elim h [ ]

pub IsConsistent-sprint_db : IsConsistent sprint_db.sprints sprint_db.tasks
IsConsistent-sprint_db = record {
  unique = λ a b ha hb i. let ca = In-two ha in let cb = In-two hb in ground (arith, ca, cb);
  one_active =
      λ a b ha hb aa ab p. let ca = In-two ha in let cb = In-two hb in ground (arith, ca, cb);
  owned = λ t i ht e.
      let ct = In-two ht in
      (sprint_row 10 active 2, here refl, ground (arith, ct), ground (arith, ct));
  settled = λ s t hs ht ar e. let cs = In-two hs in let ct = In-two ht in ground (arith, cs, ct);
  free_epics = λ t ht k. let ct = In-two ht in ground (arith, ct);
}

fresh_id : (a : Sprint) → In a sprint_db.sprints → a.id ≢ archive_call.fresh
fresh_id a ha = let ca = In-two ha in ground (arith, ca)

mutate_sprint-IsConsistent_example : IsConsistent archive_result.1.sprints archive_result.1.tasks
mutate_sprint-IsConsistent_example =
    mutate_sprint-IsConsistent run_hash archive_call sprint_db IsConsistent-sprint_db fresh_id
      archive_run

-- after the closure, a sprint is planned under another key
abbrev create_call : Call
create_call = record {
  project = 1;
  sprint_id = none;
  key = "create-1";
  request = create "Next" "";
  fresh = 12;
  context = record { member = none; anonymous = false; now = 50 };
}

abbrev create_result : Sprint × Db
create_result = value (mutate_sprint run_hash create_call archive_result.1)

create_run : mutate_sprint run_hash create_call archive_result.1 ≡ ok create_result
unfolding sprint_program
create_run = refl

mutate_sprint_replay_example :
    mutate_sprint run_hash (record archive_call { sprint_id = some 12 }) create_result.1
    ≡ (if ◌==◌ 10 12 then ok (archive_result.0, create_result.1) else err key_reused)
mutate_sprint_replay_example =
    mutate_sprint_replay run_hash (λ a b. false) archive_call sprint_db archive_run create_result.1
      (record archive_call { sprint_id = some 12 }) (then_sprint create_call at_once create_run)
      refl refl

mutate_sprint_keeps_work_example :
    map execution archive_result.1.tasks ≡ map execution sprint_db.tasks
mutate_sprint_keeps_work_example =
    mutate_sprint_keeps_work run_hash archive_call sprint_db archive_run

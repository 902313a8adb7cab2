-- ===== src/Work/Sprints/Changed.antt =====
-- Each transition of a sprint leaves tables in which the sprint's row may take its new state.
use dduo_solo_founder.Prelude.{◌≡◌, sym, true, some, List, arith, In, subst}
use dduo_solo_founder.Work.Store.{
  RowId, is_terminal, is_archived, is_active, is_planned, Task, Sprint, Db, ok,
  advance_task_index_generation,
}
use dduo_solo_founder.Work.Consistency.{IsConsistent}
use dduo_solo_founder.Work.Sprints.Rows.{advance_for}
use dduo_solo_founder.Work.Sprints.Opened.{HasRow}

-- The tables after a transition, and why the row of `s` may be saved.
pub record IsChanged (s : Sprint) (db : Db) : Type 0 where
  pub consistent : IsConsistent db.sprints db.tasks
  pub only :
      is_active s.status ≡ true
      → (a : Sprint) → In a db.sprints
      → is_active a.status ≡ true
      → a.project_id ≡ s.project_id
      → a.id ≡ s.id
  pub finished :
      is_archived s.status ≡ true
      → (t : Task) → In t db.tasks
      → t.sprint_id ≡ some s.id
      → is_terminal t.status ≡ true

-- a sprint in the state of its row
pub kept :
    (x s : Sprint) (db : Db)
    → IsConsistent db.sprints db.tasks
    → HasRow x db.sprints
    → s.id ≡ x.id
    → s.project_id ≡ x.project_id
    → s.status ≡ x.status
    → IsChanged s db
kept x s db k r i p st = record {
  consistent = k;
  only = λ act a ia aa pa.
      let q = k.one_active a r.row ia r.stored aa (ground arith) (ground arith) in ground arith;
  finished = λ arch t ht e. k.settled r.row t r.stored ht (ground arith) (ground arith);
}

-- a sprint that is planned now
pub planned_now :
    (s : Sprint) (db : Db)
    → IsConsistent db.sprints db.tasks
    → is_planned s.status ≡ true
    → IsChanged s db
planned_now s db k p = record {
  consistent = k;
  only = λ act a ia aa pa. absurd (ground arith);
  finished = λ arch t ht e. absurd (ground arith);
}

-- `advance_task_index_generation` does not touch the two tables
pub record SameTables (a b : Db) : Type 0 where
  pub sprints : a.sprints ≡ b.sprints
  pub tasks : a.tasks ≡ b.tasks

pub advance-SameTables :
    (p : RowId) (db : Db) {db1 : Db}
    → advance_task_index_generation p db ≡ ok db1
    → SameTables db1 db
unfolding advance_task_index_generation
advance-SameTables p db h = ground arith

pub advance_for-SameTables :
    (ts : List Task) (p : RowId) (db : Db) {db1 : Db}
    → advance_for ts p db ≡ ok db1
    → SameTables db1 db
unfolding advance_for advance_task_index_generation
advance_for-SameTables ts p db h = ground arith

pub IsConsistent-same :
    {a b : Db} → SameTables a b → IsConsistent b.sprints b.tasks → IsConsistent a.sprints a.tasks
IsConsistent-same {a} {b} e k =
    subst (λ z. IsConsistent z a.tasks) (sym e.sprints)
      (subst (λ z. IsConsistent b.sprints z) (sym e.tasks) k)

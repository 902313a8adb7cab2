-- ===== src/Index/Payload.antt =====
-- `task_index_payload` of task_index.py, and the comparison of a stored point with it.
use dduo_solo_founder.Prelude.{
  ℕ, zero, suc, ◌≡◌, refl, ◌∙◌, sym, ap, Bool, true, false, ◌&&◌, Option, List, [], ◌∷◌, All,
  length, arith, String, ◌==◌, not,
}
use dduo_solo_founder.Prelude.Equality.{
  same, same→eq, same_self, option_eq, list_eq, string_eq, nat_eq,
}
use dduo_solo_founder.Context.Text.{Text, encode_utf8}
use dduo_solo_founder.Work.Store.{
  RowId, TaskKind, task, epic, TaskStatus, todo, in_progress, blocked, done, cancelled,
  TaskPriority, low, medium, high, critical, Task,
}
use dduo_solo_founder.Work.Tasks.Values.{kind_number, status_number, priority_number}
use dduo_solo_founder.Index.Document.{TaskDocument, byte_length}

-- The key `record_type`, which is always "task", is left out.
pub record TaskPayload : Type 0 where
  pub task_id : RowId
  pub project_id : RowId
  pub source_version : ℕ
  pub semantic_hash : ℕ
  pub index_render_version : Text
  pub status : TaskStatus
  pub priority : TaskPriority
  pub kind : TaskKind
  pub epic_id : Option RowId
  pub sprint_id : Option RowId
  pub labels : List String
  pub document_truncated : Bool
  pub source_characters : ℕ
  pub source_utf8_bytes : ℕ
  pub indexed_characters : ℕ
  pub indexed_utf8_bytes : ℕ

unfoldable pub task_index_payload : Task → TaskDocument → TaskPayload
unfolding encode_utf8
task_index_payload t document = record {
  task_id = t.id;
  project_id = t.project_id;
  source_version = t.version;
  semantic_hash = document.semantic_hash;
  index_render_version = document.render_version;
  status = t.status;
  priority = t.priority;
  kind = t.kind;
  epic_id = t.epic_id;
  sprint_id = t.sprint_id;
  labels = t.labels;
  document_truncated = document.truncated;
  source_characters = document.source_characters;
  source_utf8_bytes = document.source_utf8_bytes;
  indexed_characters = length document.text;
  indexed_utf8_bytes = byte_length document.text;
}

abbrev pub same_bool : Bool → Bool → Bool
same_bool true b = b
same_bool false b = not b

-- `all(...)`
unfoldable pub all_true : List Bool → Bool
all_true [] = true
all_true (t ∷ ts) = t && all_true ts

-- the comparisons, in the order of the keys
abbrev pub key_tests : TaskPayload → TaskPayload → List Bool
key_tests existing payload =
    (existing.task_id == payload.task_id)
    ∷ (existing.project_id == payload.project_id)
    ∷ (existing.source_version == payload.source_version)
    ∷ (existing.semantic_hash == payload.semantic_hash)
    ∷ (same existing.index_render_version payload.index_render_version)
    ∷ (status_number existing.status == status_number payload.status)
    ∷ (priority_number existing.priority == priority_number payload.priority)
    ∷ (kind_number existing.kind == kind_number payload.kind)
    ∷ (same existing.epic_id payload.epic_id)
    ∷ (same existing.sprint_id payload.sprint_id)
    ∷ (same existing.labels payload.labels)
    ∷ (same_bool existing.document_truncated payload.document_truncated)
    ∷ (existing.source_characters == payload.source_characters)
    ∷ (existing.source_utf8_bytes == payload.source_utf8_bytes)
    ∷ (existing.indexed_characters == payload.indexed_characters)
    ∷ (existing.indexed_utf8_bytes == payload.indexed_utf8_bytes)
    ∷ []

-- `all(existing.get(key) == value for key, value in payload.items())`
unfoldable pub has_payload : TaskPayload → TaskPayload → Bool
unfolding all_true
has_payload existing payload = all_true (key_tests existing payload)

all_true-parts : (ts : List Bool) → all_true ts ≡ true → All (λ t. t ≡ true) ts
unfolding all_true
all_true-parts [] h = tt
all_true-parts (true ∷ ts) h = (refl, all_true-parts ts h)
all_true-parts (false ∷ ts) h = cc

same_nat : (a b : ℕ) → (a == b) ≡ true → a ≡ b
same_nat a b h = ground arith

same_flag : (a b : Bool) → same_bool a b ≡ true → a ≡ b
same_flag true true h = refl
same_flag true false h = cc
same_flag false true h = cc
same_flag false false h = refl

status_numbered : ℕ → TaskStatus
status_numbered zero = todo
status_numbered (suc zero) = in_progress
status_numbered (suc (suc zero)) = blocked
status_numbered (suc (suc (suc zero))) = done
status_numbered (suc (suc (suc (suc n)))) = cancelled

status_numbered_back : (s : TaskStatus) → status_numbered (status_number s) ≡ s
unfolding status_numbered
status_numbered_back todo = refl
status_numbered_back in_progress = refl
status_numbered_back blocked = refl
status_numbered_back done = refl
status_numbered_back cancelled = refl

same_status : (a b : TaskStatus) → (status_number a == status_number b) ≡ true → a ≡ b
same_status a b h =
    sym (status_numbered_back a)
    ∙ ap status_numbered (same_nat (status_number a) (status_number b) h)
    ∙ status_numbered_back b

priority_numbered : ℕ → TaskPriority
priority_numbered zero = low
priority_numbered (suc zero) = medium
priority_numbered (suc (suc zero)) = high
priority_numbered (suc (suc (suc n))) = critical

priority_numbered_back : (q : TaskPriority) → priority_numbered (priority_number q) ≡ q
unfolding priority_numbered
priority_numbered_back low = refl
priority_numbered_back medium = refl
priority_numbered_back high = refl
priority_numbered_back critical = refl

same_priority : (a b : TaskPriority) → (priority_number a == priority_number b) ≡ true → a ≡ b
same_priority a b h =
    sym (priority_numbered_back a)
    ∙ ap priority_numbered (same_nat (priority_number a) (priority_number b) h)
    ∙ priority_numbered_back b

same_kind : (a b : TaskKind) → (kind_number a == kind_number b) ≡ true → a ≡ b
same_kind task task h = refl
same_kind task epic h = cc
same_kind epic task h = cc
same_kind epic epic h = refl

-- A point that passes the comparison holds exactly the payload.
pub has_payload-eq : (a b : TaskPayload) → has_payload a b ≡ true → a ≡ b
unfolding has_payload
has_payload-eq a b h =
    let (
      q1,
      (
        q2,
        (
          q3,
          (q4, (q5, (q6, (q7, (q8, (q9, (q10, (q11, (q12, (q13, (q14, (q15, (q16, _))))))))))))),
        ),
      ),
    ) =
      all_true-parts (key_tests a b) h in
    let e1 = same_nat _ _ q1 in
    let e2 = same_nat _ _ q2 in
    let e3 = same_nat _ _ q3 in
    let e4 = same_nat _ _ q4 in
    let e5 = same→eq a.index_render_version b.index_render_version q5 in
    let e6 = same_status _ _ q6 in
    let e7 = same_priority _ _ q7 in
    let e8 = same_kind _ _ q8 in
    let e9 = same→eq a.epic_id b.epic_id q9 in
    let e10 = same→eq a.sprint_id b.sprint_id q10 in
    let e11 = same→eq a.labels b.labels q11 in
    let e12 = same_flag a.document_truncated b.document_truncated q12 in
    let e13 = same_nat _ _ q13 in
    let e14 = same_nat _ _ q14 in let e15 = same_nat _ _ q15 in let e16 = same_nat _ _ q16 in cc

all_true-join : (ts : List Bool) → All (λ t. t ≡ true) ts → all_true ts ≡ true
unfolding all_true
all_true-join [] h = refl
all_true-join (t ∷ ts) (q, h) = rw q (all_true-join ts h)

same_bool_self : (b : Bool) → same_bool b b ≡ true
same_bool_self true = refl
same_bool_self false = refl

nat_self : (n : ℕ) → (n == n) ≡ true
nat_self n = ground arith

pub has_payload_self : (a : TaskPayload) → has_payload a a ≡ true
unfolding has_payload
has_payload_self a = all_true-join (key_tests a a) (
  nat_self _,
  (
    nat_self _,
    (
      nat_self _,
      (
        nat_self _,
        (
          same_self a.index_render_version,
          (
            nat_self _,
            (
              nat_self _,
              (
                nat_self _,
                (
                  same_self a.epic_id,
                  (
                    same_self a.sprint_id,
                    (
                      same_self a.labels,
                      (
                        same_bool_self a.document_truncated,
                        (nat_self _, (nat_self _, (nat_self _, (nat_self _, tt)))),
                      ),
                    ),
                  ),
                ),
              ),
            ),
          ),
        ),
      ),
    ),
  ),
)

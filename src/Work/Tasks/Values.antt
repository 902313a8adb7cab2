-- ===== src/Work/Tasks/Values.antt =====
-- The payload of a task action, from schemas.py, and how its fields are compared and set.
use dduo_solo_founder.Prelude.{
  ℕ, String, Bool, true, false, ◌&&◌, not, Option, none, some, List, ◌==◌,
}
use dduo_solo_founder.Prelude.Equality.{same, option_eq, list_eq, string_eq, nat_eq}
use dduo_solo_founder.Work.Store.{
  RowId, TaskKind, task, epic, TaskStatus, todo, in_progress, blocked, done, cancelled,
  TaskPriority, low, medium, high, critical, Task,
}

-- The fields that were set, as `model_dump(exclude_unset=True)` gives them. The outer option tells
-- whether a field was set; the validator refuses `None` for the fields that cannot be null.
pub record TaskValues : Type 0 where
  pub kind : Option TaskKind
  pub epic_id : Option (Option RowId)
  pub sprint_id : Option (Option RowId)
  pub title : Option String
  pub description : Option String
  pub status : Option TaskStatus
  pub priority : Option TaskPriority
  pub labels : Option (List String)
  pub objective : Option (Option String)
  pub next_action : Option (Option String)
  pub dependencies : Option (List String)
  pub rationale : Option (Option String)
  pub completion_evidence : Option (Option String)
  pub due_at : Option (Option ℕ)

abbrev pub get {ℓ} : {A : Type ℓ} → Option A → A → A
get none stored = stored
get (some value) stored = value

abbrev pub is_set {ℓ} : {A : Type ℓ} → Option A → Bool
is_set none = false
is_set (some value) = true

abbrev pub kind_number : TaskKind → ℕ
kind_number task = 0
kind_number epic = 1

abbrev pub status_number : TaskStatus → ℕ
status_number todo = 0
status_number in_progress = 1
status_number blocked = 2
status_number done = 3
status_number cancelled = 4

abbrev pub priority_number : TaskPriority → ℕ
priority_number low = 0
priority_number medium = 1
priority_number high = 2
priority_number critical = 3

abbrev pub unset_or {ℓ} : {A : Type ℓ} → (A → Bool) → Option A → Bool
unset_or test none = true
unset_or test (some value) = test value

-- `all(getattr(task, key) == value for key, value in values.items())`
unfoldable pub all_applied : TaskValues → Task → Bool
all_applied v t =
    unset_or (λ k. kind_number t.kind == kind_number k) v.kind
    && unset_or (λ i. same t.epic_id i) v.epic_id
    && unset_or (λ i. same t.sprint_id i) v.sprint_id
    && unset_or (λ s. same t.title s) v.title
    && unset_or (λ s. same t.description s) v.description
    && unset_or (λ s. status_number t.status == status_number s) v.status
    && unset_or (λ q. priority_number t.priority == priority_number q) v.priority
    && unset_or (λ l. same t.labels l) v.labels
    && unset_or (λ s. same t.objective s) v.objective
    && unset_or (λ s. same t.next_action s) v.next_action
    && unset_or (λ l. same t.dependencies l) v.dependencies
    && unset_or (λ s. same t.rationale s) v.rationale
    && unset_or (λ s. same t.completion_evidence s) v.completion_evidence
    && unset_or (λ d. same t.due_at d) v.due_at

-- `bool(values)`
unfoldable pub any_set : TaskValues → Bool
any_set v = not (
    not (is_set v.kind)
    && not (is_set v.epic_id)
    && not (is_set v.sprint_id)
    && not (is_set v.title)
    && not (is_set v.description)
    && not (is_set v.status)
    && not (is_set v.priority)
    && not (is_set v.labels)
    && not (is_set v.objective)
    && not (is_set v.next_action)
    && not (is_set v.dependencies)
    && not (is_set v.rationale)
    && not (is_set v.completion_evidence)
    && not (is_set v.due_at))

-- the loop of `setattr`
abbrev pub set_values : TaskValues → Task → Task
set_values v t = record t {
  kind = get v.kind t.kind;
  epic_id = get v.epic_id t.epic_id;
  sprint_id = get v.sprint_id t.sprint_id;
  title = get v.title t.title;
  description = get v.description t.description;
  status = get v.status t.status;
  priority = get v.priority t.priority;
  labels = get v.labels t.labels;
  objective = get v.objective t.objective;
  next_action = get v.next_action t.next_action;
  dependencies = get v.dependencies t.dependencies;
  rationale = get v.rationale t.rationale;
  completion_evidence = get v.completion_evidence t.completion_evidence;
  due_at = get v.due_at t.due_at;
}

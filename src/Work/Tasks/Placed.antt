-- ===== src/Work/Tasks/Placed.antt =====
-- A task that `validate_task_sprint` of service.py accepted may stand in the table.
use dduo_solo_founder.Prelude.{
  Bool, true, false, ◌||◌, not, Option, none, some, List, ◌≡◌, ◌≢◌, refl, sym, ap, subst, ◌∙◌, ◌⊎◌,
  inl, inr, arith, In, find_row, find_row-In, if◌then◌else◌, ◌==◌,
}
use dduo_solo_founder.Work.Store.{
  RowId, is_epic, is_terminal, Task, is_archived, Sprint, ok, err, raise_if-eq-ok, is_sprint, is_id,
  empty_sprint_id, epic_in_sprint, archived_assignment, archived_reopening, TaskStatus,
  sprint_not_in_project,
}
use dduo_solo_founder.Work.Consistency.{IsConsistent}
use dduo_solo_founder.Work.Tasks.Values.{TaskValues, get, is_set}
use dduo_solo_founder.Work.Tasks.Action.{TaskCall, applied, versioned, done_if, is_complete}
use dduo_solo_founder.Work.Tasks.Checks.{
  validate_archived, validate_placement, validate_task_sprint,
}

-- a task whose placement agrees with the sprints
pub record IsPlaced (sprints : List Sprint) (t : Task) : Type 0 where
  pub home :
      (i : RowId)
      → t.sprint_id ≡ some i
      → (s : Sprint) × In s sprints
        × (s.id ≡ i)
        × (s.project_id ≡ t.project_id)
        × (is_archived s.status ≡ true → is_terminal t.status ≡ true)
  pub free : is_epic t.kind ≡ true → t.sprint_id ≡ none

-- a table whose rows are those of a consistent one and a placed task
pub join-IsConsistent :
    {sprints : List Sprint} {tasks after : List Task} (t : Task)
    → IsConsistent sprints tasks
    → IsPlaced sprints t
    → ((x : Task) → In x after → In x tasks ⊎ (x ≡ t))
    → IsConsistent sprints after
join-IsConsistent {sprints} {tasks} {after} t c p rows = record {
  unique = c.unique;
  one_active = c.one_active;
  owned = λ x i hx e. elim (rows x hx) [
    | inl ix ↦ c.owned x i ix e
    | inr ex ↦
        let (s, is, es, ps, room) = p.home i (sym (ap (λ z. z.sprint_id) ex) ∙ e) in
        (s, is, es, ps ∙ sym (ap (λ z. z.project_id) ex))
  ];
  settled = λ s x hs hx arch e. elim (rows x hx) [
    | inl ix ↦ c.settled s x hs ix arch e
    | inr ex ↦
        let (d, hd, ed, pd, room) = p.home s.id (sym (ap (λ z. z.sprint_id) ex) ∙ e) in
        let q : d ≡ s = c.unique d s hd hs ed in
        ap (λ z. is_terminal z.status) ex ∙ room (ap (λ z. is_archived z.status) q ∙ arch)
  ];
  free_epics = λ x hx k. elim (rows x hx) [
    | inl ix ↦ c.free_epics x ix k
    | inr ex ↦ ap (λ z. z.sprint_id) ex ∙ p.free (sym (ap (λ z. is_epic z.kind) ex) ∙ k)
  ];
}

archived-eq-ok :
    (i : RowId) (t : Task) (v : TaskValues) {u : Unit {0}}
    → validate_archived i t v ≡ ok u
    → is_terminal (get v.status t.status) ≡ true
unfolding validate_archived
archived-eq-ok i t v h =
    let (_, h1) =
      raise_if-eq-ok (not (is_id t.sprint_id i) || is_set v.sprint_id) archived_assignment _ h in
    let (ended, h2) =
      raise_if-eq-ok (not (is_terminal (get v.status t.status))) archived_reopening _ h1 in
    ground (arith, ended)

-- the row of the sprint of an accepted placement
found_row :
    (p i : RowId) (t : Task) (v : TaskValues) (sprints : List Sprint) (found : Option Sprint)
    {u : Unit {0}}
    → find_row (is_sprint p i) sprints ≡ found
    → (elim found [
      | none ↦ err sprint_not_in_project
      | some s ↦ if is_archived s.status then validate_archived i t v else ok tt
    ])
      ≡ ok u
    → (s : Sprint) × In s sprints
      × (s.id ≡ i)
      × (s.project_id ≡ p)
      × (is_archived s.status ≡ true → is_terminal (get v.status t.status) ≡ true)
found_row p i t v sprints none e h = cc
found_row p i t v sprints (some s) e h =
    let (stored, test) = find_row-In (is_sprint p i) sprints e in
    (
      s,
      stored,
      ground arith,
      ground arith,
      λ arch.
          archived-eq-ok i t v
            (subst (λ b. (if b then validate_archived i t v else ok tt) ≡ ok _) arch h),
    )

placement-eq-ok :
    (p i : RowId) (t : Task) (v : TaskValues) (sprints : List Sprint) {u : Unit {0}}
    → validate_placement p t v sprints i ≡ ok u
    → (is_epic (get v.kind t.kind) ≡ false)
      × ((s : Sprint) × In s sprints
          × (s.id ≡ i)
          × (s.project_id ≡ p)
          × (is_archived s.status ≡ true → is_terminal (get v.status t.status) ≡ true))
unfolding validate_placement
placement-eq-ok p i t v sprints h =
    let (_, h1) = raise_if-eq-ok (i == 0) empty_sprint_id _ h in
    let (plain, h2) = raise_if-eq-ok (is_epic (get v.kind t.kind)) epic_in_sprint _ h1 in
    (plain, found_row p i t v sprints (find_row (is_sprint p i) sprints) refl h2)

done_if-is_terminal :
    (b : Bool) (status : TaskStatus)
    → is_terminal status ≡ true
    → is_terminal (done_if b status) ≡ true
done_if-is_terminal true status h = refl
done_if-is_terminal false status h = h

-- The check, for any target, so that the cases below stand on a variable.
target-IsPlaced :
    (c : TaskCall) (created : Bool) (t : Task) (sprints : List Sprint) (target : Option RowId)
    {u : Unit {0}}
    → get c.values.sprint_id t.sprint_id ≡ target
    → t.project_id ≡ c.project
    → (elim target [ none ↦ ok tt | some i ↦ validate_placement c.project t c.values sprints i ])
      ≡ ok u
    → IsPlaced sprints (versioned c created (applied c t))
target-IsPlaced c created t sprints none e owner h = record {
  home = λ i f. absurd (none_not_some (sym e ∙ f));
  free = λ k. e;
}
  where
    none_not_some : {i : RowId} → none ≢ some i
    none_not_some q = cc
target-IsPlaced c created t sprints (some i) e owner h =
    let (plain, row) = placement-eq-ok c.project i t c.values sprints h in
    let (s, stored, ids, project, room) = row in
    record {
      home = λ j f.
          let same_sprint : i ≡ j = some_injective (sym e ∙ f) in
          (
            s,
            stored,
            ids ∙ same_sprint,
            project ∙ sym owner,
            λ arch.
                done_if-is_terminal (is_complete c.action) (get c.values.status t.status)
                  (room arch),
          );
      free = λ k. absurd (true_not_false (sym k ∙ plain));
    }
  where
    some_injective : {a b : RowId} → some a ≡ some b → a ≡ b
    some_injective q = cc

    true_not_false : true ≢ false
    true_not_false q = cc

pub validate_task_sprint-IsPlaced :
    (c : TaskCall) (created : Bool) (t : Task) (sprints : List Sprint) {u : Unit {0}}
    → t.project_id ≡ c.project
    → validate_task_sprint c.project t c.values sprints ≡ ok u
    → IsPlaced sprints (versioned c created (applied c t))
unfolding validate_task_sprint
validate_task_sprint-IsPlaced c created t sprints owner h =
    target-IsPlaced c created t sprints (get c.values.sprint_id t.sprint_id) refl owner h

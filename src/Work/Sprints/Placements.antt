-- ===== src/Work/Sprints/Placements.antt =====
-- The placements by which sprint_work.py lists tasks, on consistent tables.
use dduo_solo_founder.Prelude.{
  ◌≡◌, ◌≢◌, refl, sym, ◌∙◌, ap, subst, Bool, true, false, Option, none, some, List, [], ◌∷◌, arith,
  In, here, there, any_row, ◌⊎◌, inl, inr, Bool-cases,
}
use dduo_solo_founder.Prelude.Options.{some-eq-some}
use dduo_solo_founder.Work.Store.{RowId, is_id, is_terminal, Task, Sprint, is_active, is_archived}
use dduo_solo_founder.Work.Consistency.{IsConsistent}
use dduo_solo_founder.Work.Sprints.Rows.{no_sprint}
use dduo_solo_founder.Work.Sprints.Preview.{
  Placement, current_placement, backlog_placement, archive_placement, any_placement, in_sprints,
  in_placement, placement_predicate,
}

any_row-In :
    (test : Sprint → Bool) (sprints : List Sprint)
    → any_row test sprints ≡ true
    → (s : Sprint) × In s sprints × (test s ≡ true)
unfolding any_row
any_row-In test [] h = absurd (ground arith)
any_row-In test (x ∷ xs) h = elim (Bool-cases (test x)) [
  | inl t ↦ (x, here refl, t)
  | inr t ↦ let (s, i, q) = any_row-In test xs (ground arith) in (s, there i, q)
]

-- a sprint of the table that passes the test and holds the task
record IsHeld (test : Sprint → Bool) (sprints : List Sprint) (t : Task) : Type 0 where
  pub sprint : Sprint
  pub stored : In sprint sprints
  pub passed : test sprint ≡ true
  pub holds : t.sprint_id ≡ some sprint.id

is_id-eq : (o : Option RowId) (i : RowId) → is_id o i ≡ true → o ≡ some i
is_id-eq none i h = cc
is_id-eq (some j) i h = ap some (ground arith)

in_sprints-IsHeld :
    (p : RowId) (test : Sprint → Bool) (sprints : List Sprint) (t : Task)
    → in_sprints p test sprints t ≡ true
    → IsHeld test sprints t
unfolding in_sprints
in_sprints-IsHeld p test sprints t h =
    let (s, i, q) = any_row-In _ sprints h in
    record {
      sprint = s;
      stored = i;
      passed = ground arith;
      holds = is_id-eq t.sprint_id s.id (ground arith);
    }

-- why a task is in a placement
abbrev IsPlaced : Placement → List Sprint → Task → Type 0
IsPlaced current_placement sprints t = IsHeld (λ s. is_active s.status) sprints t
IsPlaced backlog_placement sprints t = (t.sprint_id ≡ none) × (is_terminal t.status ≡ false)
IsPlaced archive_placement sprints t =
    IsHeld (λ s. is_archived s.status) sprints t
    ⊎ ((t.sprint_id ≡ none) × (is_terminal t.status ≡ true))
IsPlaced any_placement sprints t = Unit {0}

no_sprint-eq : (o : Option RowId) → no_sprint o ≡ true → o ≡ none
no_sprint-eq none h = refl
no_sprint-eq (some i) h = cc

in_placement-IsPlaced :
    (p : RowId) (a : Placement) (sprints : List Sprint) (t : Task)
    → in_placement p a sprints t ≡ true
    → IsPlaced a sprints t
in_placement-IsPlaced p current_placement sprints t h =
    in_sprints-IsHeld p (λ s. is_active s.status) sprints t h
in_placement-IsPlaced p backlog_placement sprints t h =
    (no_sprint-eq t.sprint_id (ground arith), ground arith)
in_placement-IsPlaced p archive_placement sprints t h =
    elim (Bool-cases (in_sprints p (λ s. is_archived s.status) sprints t)) [
      | inl held ↦ inl (in_sprints-IsHeld p (λ s. is_archived s.status) sprints t held)
      | inr free ↦ inr (no_sprint-eq t.sprint_id (ground arith), ground arith)
    ]
in_placement-IsPlaced p any_placement sprints t h = tt

module _ {sprints : List Sprint} {tasks : List Task} (c : IsConsistent sprints tasks)
    (t : Task) where
  -- no sprint is active and archived
  one_status :
      IsHeld (λ s. is_active s.status) sprints t → IsHeld (λ s. is_archived s.status) sprints t → ⊥
  one_status a b =
      let q : a.sprint ≡ b.sprint =
        c.unique a.sprint b.sprint a.stored b.stored (some-eq-some (sym a.holds ∙ b.holds)) in
      let active_too : is_active b.sprint.status ≡ true =
        subst (λ z. is_active z.status ≡ true) q a.passed in
      let archived_too = b.passed in ground arith

  not_free : {test : Sprint → Bool} → IsHeld test sprints t → t.sprint_id ≡ none → ⊥
  not_free a free = let held = a.holds in cc

  current_not_backlog :
      IsPlaced current_placement sprints t → IsPlaced backlog_placement sprints t → ⊥
  current_not_backlog a (free, unfinished) = not_free a free

  current_not_archive :
      IsPlaced current_placement sprints t → IsPlaced archive_placement sprints t → ⊥
  current_not_archive a (inl b) = one_status a b
  current_not_archive a (inr (free, finished)) = not_free a free

  backlog_not_archive :
      IsPlaced backlog_placement sprints t → IsPlaced archive_placement sprints t → ⊥
  backlog_not_archive (free, unfinished) (inl b) = not_free b free
  backlog_not_archive (free, unfinished) (inr (also, finished)) = cc

  only_placement :
      (a b : Placement)
      → a ≢ any_placement
      → b ≢ any_placement
      → IsPlaced a sprints t
      → IsPlaced b sprints t
      → a ≡ b
  only_placement any_placement b x y h k = absurd (x refl)
  only_placement current_placement any_placement x y h k = absurd (y refl)
  only_placement backlog_placement any_placement x y h k = absurd (y refl)
  only_placement archive_placement any_placement x y h k = absurd (y refl)
  only_placement current_placement current_placement x y h k = refl
  only_placement backlog_placement backlog_placement x y h k = refl
  only_placement archive_placement archive_placement x y h k = refl
  only_placement current_placement backlog_placement x y h k = absurd (current_not_backlog h k)
  only_placement backlog_placement current_placement x y h k = absurd (current_not_backlog k h)
  only_placement current_placement archive_placement x y h k = absurd (current_not_archive h k)
  only_placement archive_placement current_placement x y h k = absurd (current_not_archive k h)
  only_placement backlog_placement archive_placement x y h k = absurd (backlog_not_archive h k)
  only_placement archive_placement backlog_placement x y h k = absurd (backlog_not_archive k h)

  -- On consistent tables no task is listed in two of the current sprint, the backlog and the archive,
  -- whichever sprint the lists are narrowed to.
  pub placement_predicate_exclusive :
      (p : RowId) (a b : Placement) (i j : Option RowId)
      → a ≢ any_placement
      → b ≢ any_placement
      → placement_predicate p a i sprints t ≡ true
      → placement_predicate p b j sprints t ≡ true
      → a ≡ b
  unfolding placement_predicate
  placement_predicate_exclusive p a b i j x y h k =
      only_placement a b x y (in_placement-IsPlaced p a sprints t (ground arith))
        (in_placement-IsPlaced p b sprints t (ground arith))

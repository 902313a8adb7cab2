-- ===== src/Work/Consistency.antt =====
-- What every transaction keeps of the sprint and task tables, and the ways to change them that
-- keep it.
use dduo_solo_founder.Prelude.{
  ◌≡◌, ◌≢◌, sym, ◌∙◌, ap, Bool, true, false, Option, none, some, List, [], ◌∷◌, ◌++◌, ◌⊎◌, inl, inr,
  arith, In, update_rows, update_rows-cases, In-map, map-In, map, update_row, In-last,
  In-append_left, Bool-cases,
}
use dduo_solo_founder.Work.Store.{
  RowId, is_epic, is_terminal, Task, is_planned, is_active, is_archived, Sprint, Context, is_sprint,
}
use dduo_solo_founder.Work.Sprints.Rows.{place}

pub record IsConsistent (sprints : List Sprint) (tasks : List Task) : Type 0 where
  -- an id names one row
  pub unique : (a b : Sprint) → In a sprints → In b sprints → a.id ≡ b.id → a ≡ b
  -- a project has at most one active sprint
  pub one_active :
      (a b : Sprint)
      → In a sprints
      → In b sprints
      → is_active a.status ≡ true
      → is_active b.status ≡ true
      → a.project_id ≡ b.project_id
      → a.id ≡ b.id
  -- a placed task has its sprint in its own project
  pub owned :
      (t : Task) (i : RowId)
      → In t tasks
      → t.sprint_id ≡ some i
      → (s : Sprint) × In s sprints × (s.id ≡ i) × (s.project_id ≡ t.project_id)
  -- an archived sprint holds no unfinished task
  pub settled :
      (s : Sprint) (t : Task)
      → In s sprints
      → In t tasks
      → is_archived s.status ≡ true
      → t.sprint_id ≡ some s.id
      → is_terminal t.status ≡ true
  -- epics belong to the project, never to a sprint
  pub free_epics : (t : Task) → In t tasks → is_epic t.kind ≡ true → t.sprint_id ≡ none

module _ {sprints : List Sprint} {tasks : List Task} (c : IsConsistent sprints tasks) where
  -- a change of the sprint rows that keeps their ids and projects
  map-IsConsistent :
      (g : Sprint → Sprint)
      → ((a : Sprint) → In a sprints → ((g a).id ≡ a.id) × ((g a).project_id ≡ a.project_id))
      → ((a b : Sprint)
          → In a sprints
          → In b sprints
          → is_active (g a).status ≡ true
          → is_active (g b).status ≡ true
          → a.project_id ≡ b.project_id
          → a.id ≡ b.id)
      → ((a : Sprint) (t : Task)
          → In a sprints
          → In t tasks
          → is_archived (g a).status ≡ true
          → t.sprint_id ≡ some a.id
          → is_terminal t.status ≡ true)
      → IsConsistent (map g sprints) tasks
  map-IsConsistent g ids act fin = record {
    unique = λ x y hx hy e.
        let (a, ia, ea) = In-map g sprints hx in
        let (b, ib, eb) = In-map g sprints hy in
        let q : a ≡ b = c.unique a b ia ib (ground (arith, ids a ia, ids b ib)) in
        ea ∙ ap g q ∙ sym eb;
    one_active = λ x y hx hy ax ay e.
        let (a, ia, ea) = In-map g sprints hx in
        let (b, ib, eb) = In-map g sprints hy in
        let (i, j) = ids a ia in
        let (k, l) = ids b ib in
        let q = act a b ia ib (ground arith) (ground arith) (ground arith) in ground arith;
    owned = λ t n ht e.
        let (s, hs, es, ps) = c.owned t n ht e in
        let (i, j) = ids s hs in (g s, map-In g sprints hs, i ∙ es, j ∙ ps);
    settled = λ x t hx ht ar e.
        let (a, ia, ea) = In-map g sprints hx in
        let (i, j) = ids a ia in fin a t ia ht (ground arith) (ground arith);
    free_epics = c.free_epics;
  }

  -- a change of rows that leaves their ids, projects and states alone
  pub touch-IsConsistent :
      (test : Sprint → Bool) (f : Sprint → Sprint)
      → ((a : Sprint)
          → ((f a).id ≡ a.id) × ((f a).project_id ≡ a.project_id) × ((f a).status ≡ a.status))
      → IsConsistent (update_rows test f sprints) tasks
  unfolding update_rows
  touch-IsConsistent test f same =
      map-IsConsistent (update_row test f) (λ a ia. ground (arith, same a))
        (λ a b ia ib aa ab e.
          c.one_active a b ia ib (ground (arith, same a)) (ground (arith, same b)) e)
        (λ a t ia ht ar e. c.settled a t ia ht (ground (arith, same a)) e)

  -- the row of a sprint in a new state
  pub replace-IsConsistent :
      (s : Sprint)
      → (is_active s.status ≡ true
          → (a : Sprint) → In a sprints
          → is_active a.status ≡ true
          → a.project_id ≡ s.project_id
          → a.id ≡ s.id)
      → (is_archived s.status ≡ true
          → (t : Task) → In t tasks
          → t.sprint_id ≡ some s.id
          → is_terminal t.status ≡ true)
      → IsConsistent (update_rows (is_sprint s.project_id s.id) (λ row. s) sprints) tasks
  unfolding update_rows
  replace-IsConsistent s only finished =
      map-IsConsistent (update_row (is_sprint s.project_id s.id) (λ row. s)) (λ a ia. ground arith)
        (λ a b ia ib aa ab e. elim (Bool-cases (is_sprint s.project_id s.id a)) [
          | inl ta ↦ elim (Bool-cases (is_sprint s.project_id s.id b)) [
            | inl tb ↦ ground arith
            | inr tb ↦
                let q = only (ground arith) b ib (ground arith) (ground arith) in ground arith
          ]
          | inr ta ↦ elim (Bool-cases (is_sprint s.project_id s.id b)) [
            | inl tb ↦
                let q = only (ground arith) a ia (ground arith) (ground arith) in ground arith
            | inr tb ↦ c.one_active a b ia ib (ground arith) (ground arith) e
          ]
        ])
        (λ a t ia ht ar e. elim (Bool-cases (is_sprint s.project_id s.id a)) [
          | inl ta ↦ finished (ground arith) t ht (ground arith)
          | inr ta ↦ c.settled a t ia ht (ground arith) e
        ])

  -- a planned sprint under a new id
  pub append-IsConsistent :
      (s : Sprint)
      → is_planned s.status ≡ true
      → ((a : Sprint) → In a sprints → a.id ≢ s.id)
      → IsConsistent (sprints ++ s ∷ []) tasks
  append-IsConsistent s p fresh = record {
    unique = λ x y hx hy e. elim (In-last sprints hx) [
      | inl ix ↦ elim (In-last sprints hy) [
        | inl iy ↦ c.unique x y ix iy e
        | inr ey ↦ absurd (fresh x ix (e ∙ ap (λ z. z.id) ey))
      ]
      | inr ex ↦ elim (In-last sprints hy) [
        | inl iy ↦ absurd (fresh y iy (sym e ∙ ap (λ z. z.id) ex))
        | inr ey ↦ ex ∙ sym ey
      ]
    ];
    one_active = λ x y hx hy ax ay e. elim (In-last sprints hx) [
      | inl ix ↦ elim (In-last sprints hy) [
        | inl iy ↦ c.one_active x y ix iy ax ay e
        | inr ey ↦ absurd (ground arith)
      ]
      | inr ex ↦ absurd (ground arith)
    ];
    owned = λ t n ht e.
        let (x, hx, ex, px) = c.owned t n ht e in (x, In-append_left sprints (s ∷ []) hx, ex, px);
    settled = λ x t hx ht ar e. elim (In-last sprints hx) [
      | inl ix ↦ c.settled x t ix ht ar e
      | inr ex ↦ absurd (ground arith)
    ];
    free_epics = c.free_epics;
  }

  -- tasks placed in another sprint of their project, or in the backlog
  pub place-IsConsistent :
      (ctx : Context) (test : Task → Bool) (target : Option RowId)
      → ((i : RowId)
          → target ≡ some i
          → (s : Sprint) × In s sprints
            × (s.id ≡ i)
            × ((t : Task) → In t tasks → test t ≡ true → s.project_id ≡ t.project_id)
            × ((is_archived s.status ≡ false)
                ⊎ ((t : Task) → In t tasks → test t ≡ true → is_terminal t.status ≡ true)))
      → ((t : Task) → In t tasks → test t ≡ true → is_epic t.kind ≡ false)
      → IsConsistent sprints (update_rows test (place ctx target) tasks)
  place-IsConsistent ctx test target home plain = record {
    unique = c.unique;
    one_active = c.one_active;
    owned = λ x n hx e.
        let (t, ht, cases) = update_rows-cases test (place ctx target) tasks hx in
        elim cases [
          | inl (tt', eq) ↦
              let (s, hs, es, ps, _) = home n (sym (ap (λ z. z.sprint_id) eq) ∙ e) in
              (s, hs, es, ps t ht tt' ∙ sym (ap (λ z. z.project_id) eq))
          | inr (_, eq) ↦
              let (s, hs, es, ps) = c.owned t n ht (sym (ap (λ z. z.sprint_id) eq) ∙ e) in
              (s, hs, es, ps ∙ sym (ap (λ z. z.project_id) eq))
        ];
    settled = λ s x hs hx ar e.
        let (t, ht, cases) = update_rows-cases test (place ctx target) tasks hx in
        elim cases [
          | inl (tt', eq) ↦
              let (d, hd, ed, _, room) = home s.id (sym (ap (λ z. z.sprint_id) eq) ∙ e) in
              let q : d ≡ s = c.unique d s hd hs ed in
              elim room [
                | inl ajar ↦ absurd (ground arith)
                | inr done ↦ ap (λ z. is_terminal z.status) eq ∙ done t ht tt'
              ]
          | inr (_, eq) ↦
              ap (λ z. is_terminal z.status) eq
              ∙ c.settled s t hs ht ar (sym (ap (λ z. z.sprint_id) eq) ∙ e)
        ];
    free_epics = λ x hx k.
        let (t, ht, cases) = update_rows-cases test (place ctx target) tasks hx in
        elim cases [
          | inl (tt', eq) ↦ absurd (let q = plain t ht tt' in ground arith)
          | inr (_, eq) ↦
              ap (λ z. z.sprint_id) eq ∙ c.free_epics t ht (sym (ap (λ z. is_epic z.kind) eq) ∙ k)
        ];
  }

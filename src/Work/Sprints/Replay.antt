-- ===== src/Work/Sprints/Replay.antt =====
-- The receipt that a call of `mutate_sprint` leaves, and the work that no sprint operation loses.
use dduo_solo_founder.Prelude.{
  ℕ, ◌≡◌, refl, sym, ◌∙◌, ap, subst, String, Bool, true, not, Option, none, some, List, [], ◌∷◌,
  ◌++◌, map, arith, ◌==◌, find_row, any_row, Option-cases, Bool-cases, inl, inr, eq_iff,
}
use dduo_solo_founder.Work.Store.{
  RowId, Sprint, Db, ok, >>=-eq-ok, raise_if-eq-ok, ok-eq-ok, is_project, SprintMutation,
  log_activity, project_not_found,
}
use dduo_solo_founder.Work.Sprints.Rows.{Request, Call}
use dduo_solo_founder.Work.Sprints.Mutate.{
  transition, open_sprint, save_sprint, record_receipt, apply_request, mutate_sprint, is_receipt,
}
use dduo_solo_founder.Work.Sprints.WorkKept.{
  execution, IsKept, IsKept-trans, projects_kept, open_sprint-IsKept, transition-IsKept,
}

abbrev receipt_of : Call → ℕ → Sprint → SprintMutation
receipt_of c digest s = record {
  project_id = c.project;
  idempotency_key = c.key;
  request_hash = digest;
  response = s;
}

record IsApplied (c : Call) (digest : ℕ) (db : Db) (s : Sprint) (db' : Db) : Type 0 where
  work : map execution db'.tasks ≡ map execution db.tasks
  mutations : db'.mutations ≡ db.mutations ++ receipt_of c digest s ∷ []
  project : (p : RowId) → any_row (is_project p) db'.projects ≡ any_row (is_project p) db.projects

recorded :
    (c : Call) (digest : ℕ) (db : Db) (s : Sprint) (db2 : Db)
    → IsKept db2 db
    → IsApplied c digest db s (record_receipt c digest s (save_sprint s db2))
unfolding record_receipt log_activity save_sprint
recorded c digest db s db2 k = record {
  work = k.work;
  mutations = ap (λ z. z ++ receipt_of c digest s ∷ []) k.mutations;
  project = λ p. projects_kept p _ _ db2.projects (λ x. refl) ∙ k.project p;
}

apply_request-IsApplied :
    (c : Call) (digest : ℕ) (db : Db) {s : Sprint} {db' : Db}
    → apply_request c digest db ≡ ok (s, db')
    → IsApplied c digest db s db'
unfolding apply_request
apply_request-IsApplied c digest db h =
    let (opened, h0, h1) = >>=-eq-ok (open_sprint c c.request db) _ h in
    let (changed, h2, h3) = >>=-eq-ok (transition c c.request opened.0 opened.1) _ h1 in
    let k =
      IsKept-trans (transition-IsKept c c.request opened.0 opened.1 h2)
        (open_sprint-IsKept c c.request db h0) in
    subst (λ (z : Sprint × Db). IsApplied c digest db z.0 z.1) (ok-eq-ok h3)
      (recorded c digest db changed.0 changed.1 k)

find_row-last {ℓ} :
    {A : Type ℓ} (test : A → Bool) (xs : List A) (x : A)
    → find_row test xs ≡ none
    → test x ≡ true
    → find_row test (xs ++ x ∷ []) ≡ some x
unfolding find_row
find_row-last test [] x h t = rw t
find_row-last test (y ∷ ys) x h t = elim (Bool-cases (test y)) [
  | inl e ↦ absurd (let q = rw e at h in cc)
  | inr e ↦ rw e (find_row-last test ys x (rw e at h) t)
]

append_none : (xs : List SprintMutation) → xs ++ [] ≡ xs
append_none [] = refl
append_none (x ∷ xs) = ap (λ z. x ∷ z) (append_none xs)

pub find_row-append {ℓ} :
    {A : Type ℓ} (test : A → Bool) (xs ys : List A) {x : A}
    → find_row test xs ≡ some x
    → find_row test (xs ++ ys) ≡ some x
unfolding find_row
find_row-append test [] ys h = cc
find_row-append test (y ∷ xs) ys h = elim (Bool-cases (test y)) [
  | inl t ↦ rw t (rw t at h)
  | inr t ↦ rw t (find_row-append test xs ys (rw t at h))
]

-- what a successful call leaves behind: its receipt, and the project.
pub record IsAnswered (c : Call) (digest : ℕ) (s : Sprint) (db' : Db) : Type 0 where
  pub receipt : SprintMutation
  pub found : find_row (is_receipt c.project c.key) db'.mutations ≡ some receipt
  pub hash : receipt.request_hash ≡ digest
  pub response : receipt.response ≡ s
  pub project : any_row (is_project c.project) db'.projects ≡ true

module _ (snapshot_hash : Option RowId → String → Request → ℕ) (c : Call) (db : Db) {s : Sprint}
    {db' : Db} (h : mutate_sprint snapshot_hash c db ≡ ok (s, db')) where
  pub answered : IsAnswered c (snapshot_hash c.sprint_id c.key c.request) s db'
  unfolding mutate_sprint
  answered =
      let digest = snapshot_hash c.sprint_id c.key c.request in
      let (exists, h1) =
        raise_if-eq-ok (not (any_row (is_project c.project) db.projects)) project_not_found _ h in
      elim (Option-cases (find_row (is_receipt c.project c.key) db.mutations)) [
        | inl e ↦
            let a = apply_request-IsApplied c digest db (rw e at h1) in
            record {
              receipt = receipt_of c digest s;
              found = rw a.mutations (
                  find_row-last (is_receipt c.project c.key) db.mutations (receipt_of c digest s) e
                    (ground (arith, eq_iff c.key c.key)));
              hash = refl;
              response = refl;
              project = a.project c.project ∙ ground arith;
            }
        | inr (r, e) ↦
            let h2 = rw e at h1 in
            elim (Bool-cases (r.request_hash == digest)) [
              | inl t ↦
                  let q = ok-eq-ok (rw t at h2) in
                  record {
                    receipt = r;
                    found =
                        ap
                          (λ (z : Sprint × Db). find_row (is_receipt c.project c.key) z.1.mutations)
                          (sym q)
                        ∙ e;
                    hash = ground arith;
                    response = ap (λ (z : Sprint × Db). z.0) q;
                    project =
                        ap (λ (z : Sprint × Db). any_row (is_project c.project) z.1.projects)
                          (sym q)
                        ∙ ground arith;
                  }
              | inr t ↦ absurd (let h3 = rw t at h2 in cc)
            ]
      ]

  -- No sprint operation loses a task or changes the execution state of one: the tasks, in order,
  -- have the ids and the states that they had.
  pub mutate_sprint_keeps_work : map execution db'.tasks ≡ map execution db.tasks
  unfolding mutate_sprint
  mutate_sprint_keeps_work =
      let (_, h1) =
        raise_if-eq-ok (not (any_row (is_project c.project) db.projects)) project_not_found _ h in
      elim (Option-cases (find_row (is_receipt c.project c.key) db.mutations)) [
        | inl e ↦ (apply_request-IsApplied c _ db (rw e at h1)).work
        | inr (r, e) ↦
            let h2 = rw e at h1 in
            let q : db ≡ db' = ground arith in ap (λ (z : Db). map execution z.tasks) (sym q)
      ]

  -- the receipts of earlier calls stay in front, and every project stays
  pub call_keeps :
      ((rest : List SprintMutation) × (db'.mutations ≡ db.mutations ++ rest))
      × ((p : RowId) → any_row (is_project p) db'.projects ≡ any_row (is_project p) db.projects)
  unfolding mutate_sprint
  call_keeps =
      let (_, h1) =
        raise_if-eq-ok (not (any_row (is_project c.project) db.projects)) project_not_found _ h in
      elim (Option-cases (find_row (is_receipt c.project c.key) db.mutations)) [
        | inl e ↦
            let a = apply_request-IsApplied c _ db (rw e at h1) in ((_, a.mutations), a.project)
        | inr (r, e) ↦
            let h2 = rw e at h1 in
            let q : db ≡ db' = ground arith in
            (
              ([], ap (λ (z : Db). z.mutations) (sym q) ∙ sym (append_none db.mutations)),
              λ p. ap (λ (z : Db). any_row (is_project p) z.projects) (sym q),
            )
      ]

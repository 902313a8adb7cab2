-- ===== src/Work/UniqueTasks.antt =====
-- The ids of tasks, which an action of `apply_task_action` of service.py keeps unique.
use dduo_solo_founder.Prelude.{
  ◌≡◌, ◌≢◌, refl, sym, ◌∙◌, ap, subst, inl, inr, List, [], ◌∷◌, ◌++◌, update_rows,
  update_rows-cases, In, here, In-append_right, In-last, arith,
}
use dduo_solo_founder.Work.Store.{Task}
use dduo_solo_founder.Work.Tasks.Action.{TaskCall, OpenedTask, has_row_id}
use dduo_solo_founder.Work.Tasks.Opened.{IsOpenedTask}

-- an id names one task
abbrev pub HasUniqueTasks : List Task → Type 0
HasUniqueTasks tasks = (a b : Task) → In a tasks → In b tasks → a.id ≡ b.id → a ≡ b

append-HasUniqueTasks :
    (tasks : List Task) (t : Task)
    → HasUniqueTasks tasks
    → ((x : Task) → In x tasks → x.id ≢ t.id)
    → HasUniqueTasks (tasks ++ t ∷ [])
append-HasUniqueTasks tasks t unique fresh a b i j e = elim (In-last tasks i) [
  | inl x ↦ elim (In-last tasks j) [
    | inl y ↦ unique a b x y e
    | inr q ↦ absurd (fresh a x (e ∙ ap (λ z. z.id) q))
  ]
  | inr q ↦ elim (In-last tasks j) [
    | inl y ↦ absurd (fresh b y (sym e ∙ ap (λ z. z.id) q))
    | inr r ↦ q ∙ sym r
  ]
]

pub saved-HasUniqueTasks :
    (tasks : List Task) (final : Task)
    → HasUniqueTasks tasks
    → HasUniqueTasks (update_rows (has_row_id final.id) (λ row. final) tasks)
saved-HasUniqueTasks tasks final unique a b i j e =
    let (x, ix, cx) = update_rows-cases (has_row_id final.id) (λ row. final) tasks i in
    let (y, iy, cy) = update_rows-cases (has_row_id final.id) (λ row. final) tasks j in
    elim cx [
      | inl (tx, q) ↦ elim cy [
        | inl (ty, r) ↦ q ∙ sym r
        | inr (ty, r) ↦
            let w : y.id ≡ final.id = ap (λ z. z.id) (sym r) ∙ sym e ∙ ap (λ z. z.id) q in
            absurd (ground arith)
      ]
      | inr (tx, q) ↦ elim cy [
        | inl (ty, r) ↦
            let w : x.id ≡ final.id = ap (λ z. z.id) (sym q) ∙ e ∙ ap (λ z. z.id) r in
            absurd (ground arith)
        | inr (ty, r) ↦ q ∙ unique x y ix iy (ap (λ z. z.id) (sym q) ∙ e ∙ ap (λ z. z.id) r) ∙ sym r
      ]
    ]

pub opened-HasUniqueTasks :
    (c : TaskCall) (tasks : List Task) (o : OpenedTask)
    → IsOpenedTask c tasks o
    → HasUniqueTasks tasks
    → ((x : Task) → In x tasks → x.id ≢ c.fresh)
    → HasUniqueTasks o.tasks × In o.row o.tasks
opened-HasUniqueTasks c tasks o op unique fresh = elim op.origin [
  | inl (e, stored) ↦ (subst HasUniqueTasks (sym e) unique, subst (In o.row) (sym e) stored)
  | inr (e, id, free) ↦ (
    subst HasUniqueTasks (sym e)
        (append-HasUniqueTasks tasks o.row unique (λ x i q. fresh x i (q ∙ id))),
    subst (In o.row) (sym e) (In-append_right tasks (o.row ∷ []) (here refl)),
  )
]

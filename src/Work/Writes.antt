-- ===== src/Work/Writes.antt =====
-- What an action of `apply_task_action` of service.py changes of the tasks of one open sprint: if the
-- sprint's version is as it was, nothing.
use dduo_solo_founder.Prelude.{
  ◌+◌, ◌≤◌, ◌<◌, ◌≡◌, refl, sym, ◌∙◌, ap, ◌⊎◌, inl, inr, Bool, true, false, Option, none, some,
  List, [], ◌∷◌, ◌++◌, ◌==◌, find_row, find_row-In, update_row, update_rows, In, here, there,
  Bool-cases, arith,
}
use dduo_solo_founder.Prelude.Options.{some-eq-some}
use dduo_solo_founder.Prelude.Equality.{same, same→eq, option_eq, nat_eq}
use dduo_solo_founder.Work.Store.{RowId, Task, Sprint, is_sprint, is_archived, Context}
use dduo_solo_founder.Work.Sprints.Preview.{count_rows}
use dduo_solo_founder.Work.Tasks.Checks.{is_open_sprint, touch_sprint, touch_task_sprints}

-- rows that the test does not count, before and after
pub count_rows-update :
    (test change : Task → Bool) (final : Task) (ts : List Task)
    → ((x : Task) → In x ts → change x ≡ true → test x ≡ false)
    → test final ≡ false
    → count_rows test (update_rows change (λ row. final) ts) ≡ count_rows test ts
unfolding count_rows update_rows
count_rows-update test change final [] out new = refl
count_rows-update test change final (x ∷ xs) out new =
    let rest = count_rows-update test change final xs (λ y i. out y (there i)) new in
    elim (Bool-cases (change x)) [
      | inl t ↦ rw (t, new, out x (here refl) t, rest) refl
      | inr t ↦ rw (t, rest) refl
    ]

pub count_rows-last :
    (test : Task → Bool) (ts : List Task) (x : Task)
    → test x ≡ false
    → count_rows test (ts ++ x ∷ []) ≡ count_rows test ts
unfolding count_rows
count_rows-last test [] x h = rw h refl
count_rows-last test (y ∷ ts) x h = rw (count_rows-last test ts x h) refl

test-update :
    (test change : Sprint → Bool) (f : Sprint → Sprint) (x : Sprint)
    → test (f x) ≡ test x
    → test (update_row change f x) ≡ test x
test-update test change f x alike = elim (Bool-cases (change x)) [
  | inl t ↦ rw t alike
  | inr t ↦ rw t refl
]

find_row-update :
    (test change : Sprint → Bool) (f : Sprint → Sprint) (xs : List Sprint) {s : Sprint}
    → ((x : Sprint) → test (f x) ≡ test x)
    → find_row test xs ≡ some s
    → find_row test (update_rows change f xs) ≡ some (update_row change f s)
unfolding find_row update_rows
find_row-update test change f [] alike h = cc
find_row-update test change f (x ∷ xs) alike h = elim (Bool-cases (test x)) [
  | inl t ↦
      rw (test-update test change f x (alike x), t)
        (ap (λ z. some (update_row change f z)) (some-eq-some (rw t at h)))
  | inr t ↦
      rw (test-update test change f x (alike x), t)
        (find_row-update test change f xs alike (rw t at h))
]

-- the sprint's row before and after some task actions
pub record IsTouched (s s' : Sprint) : Type 0 where
  pub status : s'.status ≡ s.status
  pub grows : s.version ≤ s'.version

pub IsTouched-trans : {a b c : Sprint} → IsTouched a b → IsTouched b c → IsTouched a c
IsTouched-trans h k = record {
  status = k.status ∙ h.status;
  grows = let x = h.grows in let y = k.grows in omega arith;
}

module _ (p i : RowId) (set : (i == 0) ≡ false) where
  abbrev pub IsRow : List Sprint → Sprint → Type 0
  IsRow sprints s = find_row (is_sprint p i) sprints ≡ some s

  abbrev later_version : Context → Sprint → Sprint
  later_version ctx s = record s { version = s.version + 1; updated_at = ctx.now }

  -- what a touch of sprint `o` in project `q` does to the row
  record TouchOf (q : RowId) (o : Option RowId) (s : Sprint) (sprints : List Sprint) : Type 0 where
    pub row : Sprint
    pub found : IsRow sprints row
    pub touched : IsTouched s row
    pub moved : q ≡ p → o ≡ some i → is_archived s.status ≡ false → s.version < row.version

  updated-IsTouched :
      (ctx : Context) (change : Sprint → Bool) (s : Sprint)
      → IsTouched s (update_row change (later_version ctx) s)
  updated-IsTouched ctx change s = elim (Bool-cases (change s)) [
    | inl t ↦ rw t (record { status = refl; grows = omega arith })
    | inr t ↦ rw t (record { status = refl; grows = omega arith })
  ]

  updated-version :
      (ctx : Context) (change : Sprint → Bool) (s : Sprint)
      → change s ≡ true
      → s.version < (update_row change (later_version ctx) s).version
  updated-version ctx change s t = rw t (omega arith)

  touch_sprint-TouchOf :
      (ctx : Context) (q : RowId) (o : Option RowId) (sprints : List Sprint) (s : Sprint)
      → IsRow sprints s
      → TouchOf q o s (touch_sprint ctx q o sprints)
  touch_sprint-TouchOf ctx q none sprints s h = record {
    row = s;
    found = h;
    touched = record { status = refl; grows = omega arith };
    moved = λ e k. cc;
  }
  touch_sprint-TouchOf ctx q (some j) sprints s h = elim (Bool-cases (j == 0)) [
    | inl z ↦ rw z (record {
      row = s;
      found = h;
      touched = record { status = refl; grows = omega arith };
      moved = λ e k unfinished. let same : j ≡ i = some-eq-some k in absurd (ground arith);
    })
    | inr z ↦ rw z (record {
      row = update_row (is_open_sprint q j) (later_version ctx) s;
      found =
          find_row-update (is_sprint p i) (is_open_sprint q j) (later_version ctx) sprints
            (λ x. refl) h;
      touched = updated-IsTouched ctx (is_open_sprint q j) s;
      moved = λ e k unfinished.
          let own = (find_row-In (is_sprint p i) sprints h).1 in
          let same : j ≡ i = some-eq-some k in
          updated-version ctx (is_open_sprint q j) s (ground arith);
    })
  ]

  -- what an action with the two sprints of its task does to the row
  pub record TouchesOf (q : RowId) (previous next : Option RowId) (s : Sprint)
      (sprints : List Sprint) : Type 0 where
    pub row : Sprint
    pub found : IsRow sprints row
    pub touched : IsTouched s row
    pub moved :
        q ≡ p
        → (previous ≡ some i) ⊎ (next ≡ some i)
        → is_archived s.status ≡ false
        → s.version < row.version

  pub touch_task_sprints-TouchesOf :
      (ctx : Context) (q : RowId) (previous next : Option RowId) (sprints : List Sprint)
      (s : Sprint)
      → IsRow sprints s
      → TouchesOf q previous next s (touch_task_sprints ctx q previous next sprints)
  unfolding touch_task_sprints
  touch_task_sprints-TouchesOf ctx q previous next sprints s h =
      elim (Bool-cases (same previous next)) [
        | inl t ↦
            let one = touch_sprint-TouchOf ctx q next sprints s h in
            let e : previous ≡ next = same→eq previous next t in
            rw t (record {
              row = one.row;
              found = one.found;
              touched = one.touched;
              moved = λ own either. one.moved own (elim either [ inl k ↦ sym e ∙ k | inr k ↦ k ]);
            })
        | inr t ↦
            let one = touch_sprint-TouchOf ctx q previous sprints s h in
            let two = touch_sprint-TouchOf ctx q next _ one.row one.found in
            let before = one.touched.grows in
            let after = two.touched.grows in
            rw t (record {
              row = two.row;
              found = two.found;
              touched = IsTouched-trans one.touched two.touched;
              moved = λ own either unfinished. elim either [
                | inl k ↦ let first = one.moved own k unfinished in omega arith
                | inr k ↦
                    let second = two.moved own k (ap is_archived one.touched.status ∙ unfinished) in
                    omega arith
              ];
            })
      ]

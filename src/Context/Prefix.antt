-- ===== src/Context/Prefix.antt =====
-- Which fragments `compose_context` of context_budget.py delivers when it does not fall back.
use dduo_solo_founder.Prelude.{
  ℕ, Bool, true, false, List, [], ◌∷◌, ◌++◌, Option, none, some, map, leb, ltb, ◌≡◌, refl, sym, ap,
  subst, ◌∙◌, any_row, All, if◌then◌else◌, inl, inr, ◌≢◌,
}
use dduo_solo_founder.Prelude.Options.{◌>>=◌, >>=-eq-some, some-eq-some, if-eq-some, guard-eq-some}
use dduo_solo_founder.Context.Text.{Text, context_units}
use dduo_solo_founder.Context.Fragment.{
  ContextFragment, Candidate, FragmentOutcome, full, partial, omitted, nonexpanding_excerpt,
}
use dduo_solo_founder.Context.Measure.{ContextMeasurement}
use dduo_solo_founder.Context.Render.{Decision, fallback, render, status, is_omitted}
use dduo_solo_founder.Context.Delivery.{delivery_manifest}
use dduo_solo_founder.Context.Compose.{
  ComposedContext, Selection, Indexed, outcomes, is_required, index_fragments, sort_indexed,
  make_candidates, select_prefix, deliver, fallback_context, compose_context, decide, fits,
  try_candidate, reserve_later_required, compact_line,
}
use dduo_solo_founder.Context.Budget.{compose_context-steps}

abbrev pub IsEmitted : Decision → Type 0
IsEmitted d = is_omitted d ≡ false

-- the answer of a pass, by the values of its three tests
barrier_or_IsEmitted :
    (whole : Option Bool) (excerpt : Option (Option Text)) (small : Option Bool)
    {o : FragmentOutcome} (c : Candidate)
    → (whole >>= λ w. elim w [
      | true ↦ some (some full)
      | false ↦ excerpt >>= λ e. elim e [
        | none ↦ some none
        | some line ↦ small >>= λ t. some (if t then some partial else none)
      ]
    ])
      ≡ some (some o)
    → IsEmitted (decide o c)
barrier_or_IsEmitted none excerpt small c h = cc
barrier_or_IsEmitted (some true) excerpt small c h =
    let e : full ≡ _ = cc in subst (λ o. IsEmitted (decide o c)) e refl
barrier_or_IsEmitted (some false) none small c h = cc
barrier_or_IsEmitted (some false) (some none) small c h = cc
barrier_or_IsEmitted (some false) (some (some line)) none c h = cc
barrier_or_IsEmitted (some false) (some (some line)) (some true) c h =
    let e : partial ≡ _ = cc in subst (λ o. IsEmitted (decide o c)) e refl
barrier_or_IsEmitted (some false) (some (some line)) (some false) c h = cc

try_candidate-emits :
    (budget : ℕ) (selected reserved : List Decision) (c : Candidate) {o : FragmentOutcome}
    → try_candidate budget selected c reserved ≡ some (some o)
    → IsEmitted (decide o c)
unfolding try_candidate
try_candidate-emits budget selected reserved c h =
    barrier_or_IsEmitted (fits budget (selected ++ decide full c ∷ reserved))
      (nonexpanding_excerpt c) (fits budget (selected ++ decide partial c ∷ reserved)) c h

All-append :
    (xs : List Decision) (y : Decision)
    → All IsEmitted xs
    → IsEmitted y
    → All IsEmitted (xs ++ y ∷ [])
All-append [] y h p = (p, tt)
All-append (x ∷ xs) y (q, h) p = (q, All-append xs y h p)

map-append_step {ℓ κ} :
    {A : Type ℓ} {B : Type κ} (f : A → B) (xs : List A) (y : A) (ys : List B)
    → map f (xs ++ y ∷ []) ++ ys ≡ map f xs ++ f y ∷ ys
map-append_step f [] y ys = refl
map-append_step f (x ∷ xs) y ys = ap (λ l. f x ∷ l) (map-append_step f xs y ys)

abbrev pub candidates : Selection → List Candidate
candidates s = map (λ d. d.candidate) s.selected ++ s.blocked

-- a selection that extends the decisions made so far by some of the candidates
abbrev Splits : List Decision → List Candidate → Selection → Type 0
Splits selected cs s =
    All IsEmitted s.selected × (candidates s ≡ map (λ d. d.candidate) selected ++ cs)

next_choice-Splits :
    (selected : List Decision) (c : Candidate) (cs : List Candidate) {s : Selection}
    (later : FragmentOutcome → Option Selection) (choice : Option FragmentOutcome)
    → ((o : FragmentOutcome)
        → choice ≡ some o
        → later o ≡ some s
        → Splits (selected ++ decide o c ∷ []) cs s)
    → All IsEmitted selected
    → (elim choice [
      | none ↦ some (record { selected = selected; blocked = c ∷ cs })
      | some o ↦ later o
    ])
      ≡ some s
    → Splits selected (c ∷ cs) s
next_choice-Splits selected c cs later none rest emitted h =
    subst (Splits selected (c ∷ cs)) (some-eq-some h) (emitted, refl)
next_choice-Splits selected c cs later (some o) rest emitted h =
    let (all, same_list) = rest o refl h in
    (all, same_list ∙ map-append_step (λ d. d.candidate) selected (decide o c) cs)

select_prefix-Splits :
    (budget : ℕ) (selected : List Decision) (cs : List Candidate) {s : Selection}
    → select_prefix budget selected cs ≡ some s
    → All IsEmitted selected
    → Splits selected cs s
unfolding select_prefix
select_prefix-Splits budget selected [] h emitted =
    subst (Splits selected []) (some-eq-some h) (emitted, refl)
select_prefix-Splits budget selected (c ∷ cs) {s} h emitted =
    let (reserved, r, h1) = >>=-eq-some (reserve_later_required cs) _ h in
    let (choice, t, h2) = >>=-eq-some (try_candidate budget selected c reserved) _ h1 in
    next_choice-Splits selected c cs (λ o. select_prefix budget (selected ++ decide o c ∷ []) cs)
      choice
      (λ o e g. select_prefix-Splits budget (selected ++ decide o c ∷ []) cs g (
        All-append selected (decide o c) emitted
          (try_candidate-emits budget selected reserved c (t ∙ ap some e))))
      emitted h2

true≢false : true ≢ false
true≢false e = cc

module _ (sha256 : List ℕ → Text) where
  fallback_context-used :
      (cs : List Candidate) (budget : ℕ) (produced : ContextMeasurement) (reason : Text)
      {x : ComposedContext}
      → fallback_context sha256 cs budget produced reason ≡ some x
      → x.fallback_used ≡ true
  unfolding fallback_context
  fallback_context-used cs budget produced reason h =
      let ds = map (decide omitted) cs in
      let used : ComposedContext → Type 0 = λ x. x.fallback_used ≡ true in
      let (manifest, m, h1) =
        >>=-eq-some (delivery_manifest sha256 ds budget fallback (some reason)) _ h in
      let (content, c, h2) = >>=-eq-some (render ds budget fallback (some reason)) _ h1 in
      elim (if-eq-some (leb (context_units content) budget) _ _ h2) [
        | inl (t, e) ↦ subst used (some-eq-some e) refl
        | inr (t, e) ↦
            let (compact, k, g) = >>=-eq-some (compact_line budget) _ e in
            let (fit, r) = guard-eq-some (leb (context_units compact) budget) _ g in
            subst used (some-eq-some r) refl
      ]

  -- What was delivered: the content and the manifest are those of a selection, whose decisions are
  -- all emitted and whose blocked candidates are all optional.
  abbrev Delivered : ℕ → Selection → ComposedContext → Type 0
  Delivered budget s x =
      (any_row is_required s.blocked ≡ false)
      × (render (outcomes s) budget (status (outcomes s)) none ≡ some x.content)
      × (delivery_manifest sha256 (outcomes s) budget (status (outcomes s)) none ≡ some x.manifest)

  deliver-Delivered :
      (cs : List Candidate) (budget : ℕ) (produced : ContextMeasurement) (s : Selection)
      {x : ComposedContext}
      → deliver sha256 cs budget produced s ≡ some x
      → x.fallback_used ≡ false
      → Delivered budget s x
  unfolding deliver
  deliver-Delivered cs budget produced s {x} h unused =
      let ds = outcomes s in
      elim (if-eq-some (any_row is_required s.blocked) _ _ h) [
        | inl (t, e) ↦
            absurd (true≢false (sym (fallback_context-used cs budget produced _ e) ∙ unused))
        | inr (t, e) ↦
            let (content, c, h1) = >>=-eq-some (render ds budget (status ds) none) _ e in
            elim (if-eq-some (ltb budget (context_units content)) _ _ h1) [
              | inl (u, e1) ↦
                  absurd (true≢false (sym (fallback_context-used cs budget produced _ e1) ∙ unused))
              | inr (u, e1) ↦
                  let (manifest, m, e2) =
                    >>=-eq-some (delivery_manifest sha256 ds budget (status ds) none) _ e1 in
                  subst (Delivered budget s) (some-eq-some e2) (t, c, m)
            ]
      ]

  -- A context that `compose_context` returns without a fallback delivers a prefix of the fragments in
  -- their order of required, priority and position: every candidate of the prefix is emitted, in
  -- full or by its excerpt, all the others are omitted, no required fragment is among these, and
  -- the content and the manifest are those of exactly these outcomes.
  pub compose_context-prefix :
      (fragments : List ContextFragment) (budget : ℕ) (x : ComposedContext)
      → compose_context sha256 fragments budget ≡ some x
      → x.fallback_used ≡ false
      → (indexed : List Indexed) × (s : Selection) × (index_fragments 0 [] fragments ≡ some indexed)
        × (make_candidates (sort_indexed indexed) ≡ some (candidates s))
        × All IsEmitted s.selected
        × (any_row is_required s.blocked ≡ false)
        × (render (outcomes s) budget (status (outcomes s)) none ≡ some x.content)
        × (delivery_manifest sha256 (outcomes s) budget (status (outcomes s)) none
            ≡ some x.manifest)
  compose_context-prefix fragments budget x h unused =
      let (indexed, cs, produced, s, i, c, q, d) =
        compose_context-steps sha256 fragments budget h in
      let (all, splits) = select_prefix-Splits budget [] cs q tt in
      let (optional, content, manifest) = deliver-Delivered cs budget produced s d unused in
      (indexed, s, i, c ∙ sym (ap some splits), all, optional, content, manifest)

-- ===== src/Context/Budget.antt =====
-- What `compose_context` and `compose_fallback_context` of context_budget.py promise: the budget, and
-- a prefix of the ordered fragments with every required one.
use dduo_solo_founder.Prelude.{
  ℕ, ◌≤◌, true, false, List, [], ◌∷◌, none, some, map, leb, ltb, ◌≡◌, inl, inr, refl, sym, subst,
  arith, any_row, leb→le,
}
use dduo_solo_founder.Prelude.Options.{
  ◌>>=◌, ◌>>◌, guard, guard-eq-some, some-eq-some, >>=-eq-some, if-eq-some,
}
use dduo_solo_founder.Context.Text.{Text, context_units}
use dduo_solo_founder.Context.Fragment.{
  ContextFragment, Candidate, full, omitted, candidate, is_component,
}
use dduo_solo_founder.Context.Measure.{ContextMeasurement, measure, measure_lines}
use dduo_solo_founder.Context.Render.{fallback, within_budget, render, status}
use dduo_solo_founder.Context.Delivery.{delivery_manifest}
use dduo_solo_founder.Context.Compose.{
  ComposedContext, Selection, Indexed, outcomes, is_required, index_fragments, sort_indexed,
  make_candidates, select_prefix, deliver, fallback_context, decide, compact_line, measure_render,
  health_fragment, deliver_message, compose_context, compose_fallback_context,
}

abbrev Fits : ℕ → ComposedContext → Type 0
Fits budget x = context_units x.content ≤ budget

guarded-Fits :
    (budget : ℕ) (content : Text) (x y : ComposedContext)
    → (guard (leb (context_units content) budget) >> some x) ≡ some y
    → x.content ≡ content
    → Fits budget y
guarded-Fits budget content x y h e =
    let (t, r) = guard-eq-some (leb (context_units content) budget) (some x) h in
    let same_context : x ≡ y = some-eq-some r in
    subst (Fits budget) same_context
      (subst (λ c. context_units c ≤ budget) (sym e) (leb→le (context_units content) budget t))

within : (a b : ℕ) → ltb b a ≡ false → a ≤ b
within a b h = ground arith

module _ (sha256 : List ℕ → Text) where
  fallback_context-Fits :
      (cs : List Candidate) (budget : ℕ) (produced : ContextMeasurement) (reason : Text)
      {x : ComposedContext}
      → fallback_context sha256 cs budget produced reason ≡ some x
      → Fits budget x
  unfolding fallback_context
  fallback_context-Fits cs budget produced reason {x} h =
      let ds = map (decide omitted) cs in
      let (manifest, m, h1) =
        >>=-eq-some (delivery_manifest sha256 ds budget fallback (some reason)) _ h in
      let (content, c, h2) = >>=-eq-some (render ds budget fallback (some reason)) _ h1 in
      elim (if-eq-some (leb (context_units content) budget) _ _ h2) [
        | inl (t, e) ↦
            subst (Fits budget) (some-eq-some e) (leb→le (context_units content) budget t)
        | inr (t, e) ↦
            let (compact, k, g) = >>=-eq-some (compact_line budget) _ e in
            guarded-Fits budget compact _ x g refl
      ]

  deliver-Fits :
      (cs : List Candidate) (budget : ℕ) (produced : ContextMeasurement) (s : Selection)
      {x : ComposedContext}
      → deliver sha256 cs budget produced s ≡ some x
      → Fits budget x
  unfolding deliver
  deliver-Fits cs budget produced s h =
      let ds = outcomes s in
      elim (if-eq-some (any_row is_required s.blocked) _ _ h) [
        | inl (t, e) ↦ fallback_context-Fits cs budget produced _ e
        | inr (t, e) ↦
            let (content, c, h1) = >>=-eq-some (render ds budget (status ds) none) _ e in
            elim (if-eq-some (ltb budget (context_units content)) _ _ h1) [
              | inl (u, e1) ↦ fallback_context-Fits cs budget produced _ e1
              | inr (u, e1) ↦
                  let (manifest, m, e2) =
                    >>=-eq-some (delivery_manifest sha256 ds budget (status ds) none) _ e1 in
                  subst (Fits budget) (some-eq-some e2) (within (context_units content) budget u)
            ]
      ]

  -- the steps of a composition that returned
  pub compose_context-steps :
      (fragments : List ContextFragment) (budget : ℕ) {x : ComposedContext}
      → compose_context sha256 fragments budget ≡ some x
      → (indexed : List Indexed) × (cs : List Candidate) × (produced : ContextMeasurement)
        × (s : Selection) × (index_fragments 0 [] fragments ≡ some indexed)
        × (make_candidates (sort_indexed indexed) ≡ some cs)
        × (select_prefix budget [] cs ≡ some s)
        × (deliver sha256 cs budget produced s ≡ some x)
  unfolding compose_context
  compose_context-steps fragments budget h =
      let (t, h0) = guard-eq-some (ltb 0 budget) _ h in
      let (indexed, i, h1) = >>=-eq-some (index_fragments 0 [] fragments) _ h0 in
      let (cs, c, h2) = >>=-eq-some (make_candidates (sort_indexed indexed)) _ h1 in
      let (produced, p, h3) =
        >>=-eq-some (measure_render sha256 (map (decide full) cs) budget within_budget none) _ h2 in
      let (s, q, h4) = >>=-eq-some (select_prefix budget [] cs) _ h3 in
      (indexed, cs, produced, s, i, c, q, h4)

  -- Whatever the fragments and the budget, a context that `compose_context` returns, as a fallback
  -- or not, has at most `budget` units: neither its code points nor its UTF-16 units are more.
  pub compose_context-Fits :
      (fragments : List ContextFragment) (budget : ℕ) (x : ComposedContext)
      → compose_context sha256 fragments budget ≡ some x
      → context_units x.content ≤ budget
  compose_context-Fits fragments budget x h =
      let (indexed, cs, produced, s, i, c, q, d) = compose_context-steps fragments budget h in
      deliver-Fits cs budget produced s d

  deliver_message-Fits :
      (c : Candidate) (budget : ℕ) (reason : Text) {x : ComposedContext}
      → deliver_message sha256 c budget reason ≡ some x
      → Fits budget x
  unfolding deliver_message
  deliver_message-Fits c budget reason h3 =
      let ds = decide full c ∷ [] in
      let (produced, p, h4) =
        >>=-eq-some (measure_render sha256 ds budget fallback (some reason)) _ h3 in
      let (content, q, h5) = >>=-eq-some (render ds budget fallback (some reason)) _ h4 in
      elim (if-eq-some (ltb budget (context_units content)) _ _ h5) [
        | inl (v, e) ↦ fallback_context-Fits (c ∷ []) budget produced reason e
        | inr (v, e) ↦
            let (manifest, m, e1) =
              >>=-eq-some (delivery_manifest sha256 ds budget fallback (some reason))
                (λ manifest. some (record {
                  content = content;
                  measurement = measure sha256 content;
                  produced_measurement = produced;
                  deferred_source_measurement = measure_lines sha256 [];
                  manifest = manifest;
                  fallback_used = true;
                }))
                e in
            subst (Fits budget) (some-eq-some e1) (within (context_units content) budget v)
      ]

  -- A context that `compose_fallback_context` returns has at most `budget` units too.
  pub compose_fallback_context-Fits :
      (message reason : Text) (budget : ℕ) (x : ComposedContext)
      → compose_fallback_context sha256 message reason budget ≡ some x
      → context_units x.content ≤ budget
  unfolding compose_fallback_context
  compose_fallback_context-Fits message reason budget x h =
      let (t, h0) = guard-eq-some (is_component reason) _ h in
      let (u, h1) = guard-eq-some (ltb 0 budget) _ h0 in
      let (f, i, h2) =
        >>=-eq-some (health_fragment message)
          (λ g. candidate 0 g >>= λ c. deliver_message sha256 c budget reason) h1 in
      let (c, j, h3) =
        >>=-eq-some (candidate 0 f) (λ c. deliver_message sha256 c budget reason) h2 in
      deliver_message-Fits c budget reason h3

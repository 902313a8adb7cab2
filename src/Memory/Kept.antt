-- ===== src/Memory/Kept.antt =====
-- How an action of memory_engine.py changes the table: a change in place, or the next revision.
use dduo_solo_founder.Prelude.{
  Bool, true, false, List, Option, none, some, ◌≡◌, ◌≢◌, refl, sym, ap, subst, ◌∙◌, arith, In,
  map-In, inl, inr, update_rows, update_rows-cases, update_row, Bool-cases, map-In,
}
use dduo_solo_founder.Prelude.Options.{some-eq-some}
use dduo_solo_founder.Prelude.Equality.{same, same_self, list_eq, nat_eq}
use dduo_solo_founder.Context.Text.{Text}
use dduo_solo_founder.Memory.Store.{is_active, Memory}
use dduo_solo_founder.Memory.Targets.{target_for_action, current_by_key}
use dduo_solo_founder.Memory.Sleep.{
  SleepCall, is_row, new_memory, supersede, link, write_revision, node_key_of,
}
use dduo_solo_founder.Memory.Chain.{
  IsChain, IsFrame, IsNext, map-IsChain, append-IsChain, true≢false,
}
use dduo_solo_founder.Memory.Found.{
  IsTarget, target_for_action-IsTarget, target_for_action-none, current_by_key-none,
}

unchanged : (a : Memory) → IsFrame a a
unchanged a = record {
  same_id = refl;
  same_project = refl;
  same_node_type = refl;
  same_key = refl;
  same_group = refl;
  same_revision = refl;
  same_supersedes = refl;
  not_revived = λ h. h;
}

update_row-IsFrame :
    (test : Memory → Bool) (f : Memory → Memory) (a : Memory)
    → (test a ≡ true → IsFrame a (f a))
    → IsFrame a (update_row test f a)
update_row-IsFrame test f a frame = elim (Bool-cases (test a)) [
  | inl t ↦ rw t (frame t)
  | inr t ↦ rw t (unchanged a)
]

-- an update in place that frames the rows it changes
pub update_rows-IsChain :
    (test : Memory → Bool) (f : Memory → Memory) {ms : List Memory}
    → ((a : Memory) → In a ms → test a ≡ true → IsFrame a (f a))
    → IsChain ms
    → IsChain (update_rows test f ms)
unfolding update_rows
update_rows-IsChain test f {ms} frame c =
    map-IsChain (update_row test f) (λ a i. update_row-IsFrame test f a (λ t. frame a i t)) c

-- The identifiers that `uid` gives are new.
pub record IsNew (c : SleepCall) (ms : List Memory) : Type 0 where
  pub new_id : (a : Memory) → In a ms → a.id ≢ c.around.new_memory_id
  pub new_group : (a : Memory) → In a ms → a.memory_group_id ≢ c.around.new_group_id

supersede-IsFrame : (c : SleepCall) (a : Memory) → IsFrame a (supersede c a)
supersede-IsFrame c a = record {
  same_id = refl;
  same_project = refl;
  same_node_type = refl;
  same_key = refl;
  same_group = refl;
  same_revision = refl;
  same_supersedes = refl;
  not_revived = λ h. cc;
}

link-IsFrame : (c : SleepCall) (a : Memory) → IsFrame a (link c a)
link-IsFrame c a = record {
  same_id = refl;
  same_project = refl;
  same_node_type = refl;
  same_key = refl;
  same_group = refl;
  same_revision = refl;
  same_supersedes = refl;
  not_revived = λ h. h;
}

module _ (c : SleepCall) {ms : List Memory} (chain : IsChain ms) (new : IsNew c ms) where
  first-IsNext :
      (key : Text)
      → current_by_key c.job.project_id c.action.target_node_type key ms ≡ none
      → IsNext ms (new_memory c none key)
  unfolding new_memory
  first-IsNext key nothing = record {
    fresh = new.new_id;
    current = λ a i s p t.
        current_by_key-none c.job.project_id c.action.target_node_type key ms nothing a i s p t;
    extends = λ a i e. absurd (new.new_group a i e);
    supersedes = λ i e. absurd (none_not_some e);
  }
    where
      none_not_some : {i : Text} → none ≢ some i
      none_not_some e = cc

  module _ {t : Memory} (target : IsTarget c.job.project_id ms t) where
    -- the rows once the target is superseded
    superseded_rows :
        (x : Memory)
        → In x (update_rows (is_row t.id) (supersede c) ms)
        → (a : Memory) × In a ms × IsFrame a x × (x.id ≡ t.id → is_active x.status ≡ false)
    superseded_rows x h =
        let (a, i, cases) = update_rows-cases (is_row t.id) (supersede c) ms h in
        elim cases [
          | inl changed ↦ (
            a,
            i,
            subst (IsFrame a) (sym changed.1) (supersede-IsFrame c a),
            λ same_id. ap (λ z. is_active z.status) changed.1,
          )
          | inr kept ↦ (
            a,
            i,
            subst (IsFrame a) (sym kept.1) (unchanged a),
            λ same_id.
                let ids : a.id ≡ t.id = sym (ap (λ z. z.id) kept.1) ∙ same_id in
                absurd (
                  true≢false (sym (subst (λ z. same a.id z ≡ true) ids (same_self a.id)) ∙ kept.0)),
          )
        ]

    target_stays :
        In (update_row (is_row t.id) (supersede c) t) (update_rows (is_row t.id) (supersede c) ms)
    unfolding update_rows
    target_stays = map-In (update_row (is_row t.id) (supersede c)) ms target.stored

    new_memory-IsNext :
        IsNext (update_rows (is_row t.id) (supersede c) ms) (new_memory c (some t) t.node_key)
    unfolding new_memory
    new_memory-IsNext = record {
      fresh =
          λ x h e. let (a, i, f, off) = superseded_rows x h in new.new_id a i (sym f.same_id ∙ e);
      current = λ x h s p n k.
          let (a, i, f, off) = superseded_rows x h in
          let ids : a.id ≡ t.id =
            chain.one_current a t i target.stored (f.not_revived s) target.current
              (cc (f.same_project, p, target.owned)) (cc (f.same_node_type, n))
              (cc (f.same_key, k)) in
          true≢false (sym s ∙ off (f.same_id ∙ ids));
      extends = λ x h e.
          let (a, i, f, off) = superseded_rows x h in
          let together : a.memory_group_id ≡ t.memory_group_id = sym f.same_group ∙ e in
          let (p, n, k) = chain.grouped a t i target.stored together in
          let le = chain.newest t a target.stored i target.current (sym together) in
          (
            f.same_project ∙ p ∙ target.owned,
            f.same_node_type ∙ n,
            f.same_key ∙ k,
            omega (arith, le, f.same_revision),
            elim (Bool-cases (is_active x.status)) [
              | inl s ↦ off (
                  f.same_id
                  ∙ chain.one_current a t i target.stored (f.not_revived s) target.current p n k)
              | inr s ↦ s
            ],
          );
      supersedes = λ i e.
          let f = update_row-IsFrame (is_row t.id) (supersede c) t (λ q. supersede-IsFrame c t) in
          (
            update_row (is_row t.id) (supersede c) t,
            target_stays,
            f.same_id ∙ some-eq-some e,
            f.same_group,
            omega (arith, f.same_revision),
          );
    }

  pub write_revision-IsChain :
      (target : Option Memory) (key : Text)
      → target_for_action c.job.project_id c.action ms ≡ some target
      → node_key_of c target ≡ some key
      → IsChain (write_revision c target (new_memory c target key) ms)
  unfolding write_revision node_key_of
  write_revision-IsChain none key found named =
      let (k, e, nothing) = target_for_action-none c.job.project_id c.action ms found in
      let keys : k ≡ key = some-eq-some (sym e ∙ named) in
      append-IsChain chain
        (subst (λ z. IsNext ms (new_memory c none z)) keys (first-IsNext k nothing))
  write_revision-IsChain (some t) key found named =
      let target = target_for_action-IsTarget c.job.project_id c.action ms found in
      let keys : t.node_key ≡ key = some-eq-some named in
      update_rows-IsChain (is_row t.id) (link c) (λ a i q. link-IsFrame c a)
        (append-IsChain
          (update_rows-IsChain (is_row t.id) (supersede c) (λ a i q. supersede-IsFrame c a) chain)
          (subst
            (λ z. IsNext (update_rows (is_row t.id) (supersede c) ms) (new_memory c (some t) z))
            keys (new_memory-IsNext target)))

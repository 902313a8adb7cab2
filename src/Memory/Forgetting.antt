-- ===== src/Memory/Forgetting.antt =====
-- What `forget_memory` of memory_engine.py leaves of a group.
use dduo_solo_founder.Prelude.{
  Bool, true, false, ◌&&◌, List, some, ◌≡◌, refl, sym, ap, subst, ◌∙◌, arith, In, inl, inr,
  update_rows, update_rows-cases, find_row, find_row-In,
}
use dduo_solo_founder.Prelude.Options.{>>=-eq-some, some-eq-some}
use dduo_solo_founder.Prelude.Equality.{same, same→eq, same_self, list_eq, nat_eq}
use dduo_solo_founder.Context.Text.{Text}
use dduo_solo_founder.Memory.Store.{is_active, Memory, MemoryDb, Surroundings}
use dduo_solo_founder.Memory.Targets.{has_id}
use dduo_solo_founder.Memory.Sleep.{forget, forget_memory, in_group}
use dduo_solo_founder.Memory.Chain.{IsChain, IsFrame, true≢false}
use dduo_solo_founder.Memory.Found.{and-eq-true}
use dduo_solo_founder.Memory.Kept.{update_rows-IsChain}

forget-IsFrame :
    (around : Surroundings) (rationale : Text) (a : Memory) → IsFrame a (forget around rationale a)
unfolding forget
forget-IsFrame around rationale a = record {
  same_id = refl;
  same_project = refl;
  same_node_type = refl;
  same_key = refl;
  same_group = refl;
  same_revision = refl;
  same_supersedes = refl;
  not_revived = λ h. cc;
}

-- one row after the group of a memory was forgotten
forgotten_row :
    (around : Surroundings) (project rationale : Text) {ms : List Memory} (n x : Memory)
    → IsChain ms
    → In n ms
    → n.project_id ≡ project
    → In x (update_rows (in_group project n.memory_group_id) (forget around rationale) ms)
    → x.memory_group_id ≡ n.memory_group_id
    → is_active x.status ≡ false
unfolding forget
forgotten_row around project rationale {ms} n x chain stored owned after together =
    let (a, i, cases) =
      update_rows-cases (in_group project n.memory_group_id) (forget around rationale) ms after in
    elim cases [
      | inl changed ↦ ap (λ z. is_active z.status) changed.1
      | inr kept ↦
          let group : a.memory_group_id ≡ n.memory_group_id =
            sym (ap (λ z. z.memory_group_id) kept.1) ∙ together in
          let (p, t, k) = chain.grouped a n i stored group in
          absurd (
            true≢false (
              sym (
                both (subst (λ z. same a.project_id z ≡ true) (p ∙ owned) (same_self a.project_id))
                  (subst (λ z. same a.memory_group_id z ≡ true) group
                    (same_self a.memory_group_id)))
              ∙ kept.0))
    ]
  where
    both : {a b : Bool} → a ≡ true → b ≡ true → (a && b) ≡ true
    both ha hb = ground arith

-- Forgetting a memory of consistent chains leaves consistent chains in which no revision of its
-- group is active, in whatever project it would be stored.
pub forget_memory-inactive :
    (around : Surroundings) (project i rationale : Text) (db : MemoryDb)
    (answer : List Memory × MemoryDb) (m x : Memory)
    → forget_memory around project i rationale db ≡ some answer
    → IsChain db.memories
    → In m db.memories
    → m.id ≡ i
    → In x answer.1.memories
    → x.memory_group_id ≡ m.memory_group_id
    → (is_active x.status ≡ false) × IsChain answer.1.memories
unfolding forget_memory forget
forget_memory-inactive around project i rationale db answer m x h chain stored named after
      together =
    let (n, found, h1) = >>=-eq-some (find_row (has_id project i) db.memories) _ h in
    let (there_is, q) = find_row-In (has_id project i) db.memories found in
    let (ids, owned) = and-eq-true (same n.id i) (same n.project_id project) q in
    let row : n ≡ m = chain.unique n m there_is stored (same→eq n.id i ids ∙ sym named) in
    let test = in_group project n.memory_group_id in
    let memories : answer.1.memories ≡ update_rows test (forget around rationale) db.memories =
      sym (ap (λ z. z.1.memories) (some-eq-some h1)) in
    (
      forgotten_row around project rationale n x chain there_is (same→eq n.project_id project owned)
          (subst (In x) memories after) (together ∙ ap (λ z. z.memory_group_id) (sym row)),
      subst IsChain (sym memories) (
          update_rows-IsChain test (forget around rationale)
            (λ a j t. forget-IsFrame around rationale a) chain),
    )

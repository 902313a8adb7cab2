-- ===== src/Team/Taking.antt =====
-- A node that takes a project over, and a backup that is restored: the routes of main.py keep one node
-- in charge.
use dduo_solo_founder.Prelude.{
  ◌≡◌, refl, sym, ◌∙◌, ap, subst, inl, inr, true, false, some, ◌==◌, Bool-cases, arith,
}
use dduo_solo_founder.Work.Store.{RowId, truthy}
use dduo_solo_founder.Team.Authority.{is_pending, is_transferred, AuthorityRow}
use dduo_solo_founder.Team.Handoff.{taken_over}
use dduo_solo_founder.Team.Requests.{AuthorityReceipt}
use dduo_solo_founder.Team.Nodes.{System, put_database, IsOwn}
use dduo_solo_founder.Team.Inversion.{pending_live, true_not_false}
use dduo_solo_founder.Team.Heads.{
  IsHead, OwnsAt, IsFinal, HasOneHead, some-eq, put_cases, put_here, put_there, Grows, ended_on,
  same_on, after, owners_after,
}

module _ (s : System) (c : HasOneHead s) (i : RowId) where
  abbrev pub HereIs : AuthorityRow → Type 0
  HereIs row = s.databases i ≡ some row

  module _ (row : AuthorityRow) (at : HereIs row) (receipt : AuthorityReceipt)
      (final : IsFinal s receipt) (target : receipt.target_node_id ≡ i) (set : (i == 0) ≡ false)
      (pending : is_pending row.authority_state ≡ true) where
    abbrev pub taken : AuthorityRow
    taken = taken_over i row

    abbrev pub taken_system : System
    taken_system = after s c i taken s.receipts

    -- if the node owns its database already, it is in charge
    IsHead-here : OwnsAt s i → IsHead s i
    IsHead-here o =
        let q : o.row ≡ row = some-eq (sym o.stored ∙ at) in
        record {
          row = row;
          stored = at;
          own = ap (λ z. z.authority_node_id) (sym q) ∙ o.own;
          live = pending_live row.authority_state pending;
        }

    only_here : (j : RowId) → IsHead s j → j ≡ i
    only_here j h = elim (c.ended receipt final) [
      | inl o ↦ c.one j i h (IsHead-here (subst (OwnsAt s) target o))
      | inr n ↦ absurd (n j h)
    ]

    only_after : (j : RowId) → IsHead taken_system j → j ≡ i
    only_after j h = elim (put_cases i taken s.databases j h.stored) [
      | inl (e, q) ↦ e
      | inr (n, q) ↦ only_here j (record { row = h.row; stored = q; own = h.own; live = h.live })
    ]

    owns_after : (k : RowId) → OwnsAt s k → OwnsAt taken_system k
    owns_after k o = elim (Bool-cases (k == i)) [
      | inl t ↦
          let e : k ≡ i = ground arith in
          record {
            row = taken;
            stored = ap (put_database i taken s.databases) e ∙ put_here i taken s.databases;
            own = ap some (sym e);
          }
      | inr t ↦ record {
        row = o.row;
        stored = put_there i taken s.databases k t ∙ o.stored;
        own = o.own;
      }
    ]

    owns_here : OwnsAt taken_system i
    owns_here = record { row = taken; stored = put_here i taken s.databases; own = refl }

    -- no transfer waits for another node
    ended_after : (r : AuthorityReceipt) → IsFinal s r → OwnsAt taken_system r.target_node_id
    ended_after r f = elim (c.same_target receipt r final f) [
      | inl o ↦ elim (c.ended r f) [
        | inl p ↦ owns_after r.target_node_id p
        | inr n ↦ absurd (n i (IsHead-here (subst (OwnsAt s) target o)))
      ]
      | inr (inl p) ↦ owns_after r.target_node_id p
      | inr (inr e) ↦ subst (OwnsAt taken_system) (sym target ∙ e) owns_here
    ]

    taken_set : truthy taken.authority_node_id ≡ true
    taken_set = ground arith

    pub takes_over-HasOneHead : HasOneHead taken_system
    takes_over-HasOneHead = record {
      owners = owners_after s c i taken taken_set;
      one = λ j k hj hk. only_after j hj ∙ sym (only_after k hk);
      ended = λ r f. inl (ended_after r f);
      same_target = λ a b fa fb. inl (ended_after a fa);
      retired = λ j x h o t. elim (put_cases i taken s.databases j h) [
        | inl (e, q) ↦
            let live = ap (λ z. is_transferred z.authority_state) q in
            absurd (true_not_false (sym t ∙ sym live))
        | inr (n, q) ↦ c.retired j x q o t
      ];
    }

  module _ (owner : RowId) (row : AuthorityRow) (set : row.authority_node_id ≡ some owner)
      (real : (owner == 0) ≡ false) (other : (owner == i) ≡ false)
      (mine : (x : AuthorityRow) → HereIs x → IsOwn i x → ⊥) where
    not_own : IsOwn i row → ⊥
    not_own h = let q : owner ≡ i = some-eq (sym set ∙ h) in true_not_false (ground arith)

    restored-Grows : Grows s (after s c i row s.receipts)
    restored-Grows = record {
      owned = λ k o. elim (Bool-cases (k == i)) [
        | inl t ↦
            let e : k ≡ i = ground arith in
            absurd (mine o.row (ap s.databases (sym e) ∙ o.stored) (o.own ∙ ap some e))
        | inr t ↦ record {
          row = o.row;
          stored = put_there i row s.databases k t ∙ o.stored;
          own = o.own;
        }
      ];
      heads = λ j h. elim (put_cases i row s.databases j h.stored) [
        | inl (e, q) ↦ absurd (not_own (ap (λ z. z.authority_node_id) q ∙ h.own ∙ ap some e))
        | inr (n, q) ↦ record { row = h.row; stored = q; own = h.own; live = h.live }
      ];
    }

    pub restored-HasOneHead : HasOneHead (after s c i row s.receipts)
    restored-HasOneHead = record {
      owners = owners_after s c i row (rw set (ground arith));
      one = λ j k hj hk. c.one j k (restored-Grows.heads j hj) (restored-Grows.heads k hk);
      ended = λ r f. ended_on restored-Grows r.target_node_id (c.ended r f);
      same_target = λ a b fa fb.
          same_on restored-Grows.owned a.target_node_id b.target_node_id (c.same_target a b fa fb);
      retired = λ j x h o t. elim (put_cases i row s.databases j h) [
        | inl (e, q) ↦ absurd (not_own (ap (λ z. z.authority_node_id) q ∙ o ∙ ap some e))
        | inr (n, q) ↦ c.retired j x q o t
      ];
    }

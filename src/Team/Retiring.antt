-- ===== src/Team/Retiring.antt =====
-- Requests of the authority routes of main.py that keep the owner of a database or retire it.
use dduo_solo_founder.Prelude.{
  ◌≡◌, refl, sym, ◌∙◌, ap, subst, ◌⊎◌, inl, inr, true, Option, some, ◌∷◌, In, here, there,
  Bool-cases,
}
use dduo_solo_founder.Work.Store.{RowId, truthy}
use dduo_solo_founder.Team.Authority.{is_transferred, AuthorityRow}
use dduo_solo_founder.Team.Requests.{
  answered, source_finalized, AuthorityReceipt, project_transfer_receipt,
}
use dduo_solo_founder.Team.Nodes.{System, put_database, add_receipt, IsOwn}
use dduo_solo_founder.Team.Effects.{final_receipt, IsNotFinal}
use dduo_solo_founder.Team.Inversion.{answered-eq, true_not_false, receipt-kind}
use dduo_solo_founder.Team.Heads.{
  IsHead, OwnsAt, NoHead, IsFinal, HasOneHead, some-eq, put_cases, put_here, Grows, ended_on,
  same_on, old_receipt, more_receipts, after, owners_after, grows,
}

module _ (s : System) (c : HasOneHead s) (i : RowId) (row : AuthorityRow)
    (at : s.databases i ≡ some row) where
  owner_set : truthy row.authority_node_id ≡ true
  owner_set = c.owners i row at

  pub keeps-HasOneHead :
      (next : AuthorityRow) (issued : Option AuthorityReceipt)
      → next.authority_node_id ≡ row.authority_node_id
      → is_transferred next.authority_state ≡ is_transferred row.authority_state
      → (is_transferred row.authority_state ≡ true → final_receipt next ≡ final_receipt row)
      → IsNotFinal issued
      → HasOneHead (after s c i next (add_receipt issued s.receipts))
  keeps-HasOneHead next issued same state final other =
      let receipts = add_receipt issued s.receipts in
      let g = grows s c i row next receipts at same (λ h. sym state ∙ h) in
      record {
        owners = owners_after s c i next (ap truthy same ∙ owner_set);
        one = λ j k hj hk. c.one j k (g.heads j hj) (g.heads k hk);
        ended = λ r f.
            ended_on g r.target_node_id
              (c.ended r (old_receipt issued s.receipts other f.0 f.1, f.1));
        same_target = λ a b fa fb. same_on g.owned a.target_node_id b.target_node_id (
            c.same_target a b (old_receipt issued s.receipts other fa.0 fa.1, fa.1)
              (old_receipt issued s.receipts other fb.0 fb.1, fb.1));
        retired = λ j x h own t. elim (put_cases i next s.databases j h) [
          | inl (e, q) ↦
              let t1 : is_transferred row.authority_state ≡ true =
                sym state ∙ ap (λ z. is_transferred z.authority_state) q ∙ t in
              let own1 : IsOwn i row =
                sym same ∙ ap (λ z. z.authority_node_id) q ∙ own ∙ ap some e in
              let (r, f, m) = c.retired i row at own1 t1 in
              (r, ap final_receipt (sym q) ∙ final t1 ∙ f, more_receipts issued m)
          | inr (n, q) ↦ let (r, f, m) = c.retired j x q own t in (r, f, more_receipts issued m)
        ];
      }

  -- the node is retired
  module _ (own : IsOwn i row) (receipt : AuthorityReceipt)
      (final : final_receipt row ≡ answered receipt) (retired_row : AuthorityRow)
      (same : retired_row.authority_node_id ≡ row.authority_node_id)
      (gone : is_transferred retired_row.authority_state ≡ true)
      (alike : final_receipt retired_row ≡ final_receipt row) where
    abbrev retired_system : System
    retired_system = after s c i retired_row (receipt ∷ s.receipts)

    retired-Grows : Grows s retired_system
    retired-Grows =
        grows s c i row retired_row (receipt ∷ s.receipts) at same
          (λ h. absurd (true_not_false (sym gone ∙ h)))

    receipt_final : receipt.kind ≡ source_finalized
    receipt_final = receipt-kind row source_finalized final

    -- the new receipt, and the old ones
    receipt_ended : OwnsAt s receipt.target_node_id ⊎ NoHead retired_system
    receipt_ended = elim (Bool-cases (is_transferred row.authority_state)) [
      | inl t ↦
          let (r, f, m) = c.retired i row at own t in
          let q : r ≡ receipt = answered-eq (sym f ∙ final) in
          elim (c.ended r (m, ap (λ z. z.kind) q ∙ receipt_final)) [
            | inl o ↦ inl (subst (λ z. OwnsAt s z.target_node_id) q o)
            | inr n ↦ inr (λ j h. n j (retired-Grows.heads j h))
          ]
      | inr t ↦ inr (λ j h.
          let before = retired-Grows.heads j h in
          let here_too : IsHead s i = record { row = row; stored = at; own = own; live = t } in
          let e : j ≡ i = c.one j i before here_too in
          let stored : some retired_row ≡ some h.row =
            sym (put_here i retired_row s.databases)
            ∙ ap (put_database i retired_row s.databases) (sym e)
            ∙ h.stored in
          true_not_false
            (sym gone ∙ ap (λ z. is_transferred z.authority_state) (some-eq stored) ∙ h.live))
    ]

    receipt_with :
        (b : AuthorityReceipt)
        → IsFinal s b
        → OwnsAt s receipt.target_node_id
          ⊎ OwnsAt s b.target_node_id
          ⊎ (receipt.target_node_id ≡ b.target_node_id)
    receipt_with b fb = elim (Bool-cases (is_transferred row.authority_state)) [
      | inl t ↦
          let (r, f, m) = c.retired i row at own t in
          let q : r ≡ receipt = answered-eq (sym f ∙ final) in
          c.same_target receipt b (subst (λ z. In z s.receipts) q m, receipt_final) fb
      | inr t ↦ elim (c.ended b fb) [
        | inl o ↦ inr (inl o)
        | inr n ↦ absurd (n i (record { row = row; stored = at; own = own; live = t }))
      ]
    ]

    -- a final receipt after the retirement is the new one or an old one
    IsFinal-cases : (r : AuthorityReceipt) → IsFinal retired_system r → (r ≡ receipt) ⊎ IsFinal s r
    IsFinal-cases r (here e, k) = inl e
    IsFinal-cases r (there m, k) = inr (m, k)

    waits_alike :
        (a b : AuthorityReceipt)
        → (a ≡ receipt) ⊎ IsFinal s a
        → (b ≡ receipt) ⊎ IsFinal s b
        → OwnsAt s a.target_node_id
          ⊎ OwnsAt s b.target_node_id
          ⊎ (a.target_node_id ≡ b.target_node_id)
    waits_alike a b (inl p) (inl q) = inr (inr (ap (λ z. z.target_node_id) (p ∙ sym q)))
    waits_alike a b (inl p) (inr fb) =
        subst
          (λ z.
            OwnsAt s z.target_node_id
            ⊎ OwnsAt s b.target_node_id
            ⊎ (z.target_node_id ≡ b.target_node_id))
          (sym p) (receipt_with b fb)
    waits_alike a b (inr fa) (inl q) = elim (receipt_with a fa) [
      | inl o ↦ inr (inl (subst (λ z. OwnsAt s z.target_node_id) (sym q) o))
      | inr (inl o) ↦ inl o
      | inr (inr e) ↦ inr (inr (sym e ∙ ap (λ z. z.target_node_id) (sym q)))
    ]
    waits_alike a b (inr fa) (inr fb) = c.same_target a b fa fb

    ended_cases :
        (r : AuthorityReceipt)
        → (r ≡ receipt) ⊎ IsFinal s r
        → OwnsAt retired_system r.target_node_id ⊎ NoHead retired_system
    ended_cases r (inl e) = elim receipt_ended [
      | inl o ↦
          inl (
            retired-Grows.owned r.target_node_id (subst (λ z. OwnsAt s z.target_node_id) (sym e) o))
      | inr n ↦ inr n
    ]
    ended_cases r (inr f) = ended_on retired-Grows r.target_node_id (c.ended r f)

    pub retires-HasOneHead : HasOneHead retired_system
    unfolding project_transfer_receipt
    retires-HasOneHead = record {
      owners = owners_after s c i retired_row (ap truthy same ∙ owner_set);
      one = λ j k hj hk. c.one j k (retired-Grows.heads j hj) (retired-Grows.heads k hk);
      ended = λ r f. ended_cases r (IsFinal-cases r f);
      same_target = λ a b fa fb.
          same_on retired-Grows.owned a.target_node_id b.target_node_id
            (waits_alike a b (IsFinal-cases a fa) (IsFinal-cases b fb));
      retired = λ j x h o t. elim (put_cases i retired_row s.databases j h) [
        | inl (e, q) ↦ (receipt, ap final_receipt (sym q) ∙ alike ∙ final, here refl)
        | inr (n, q) ↦ let (r, f, m) = c.retired j x q o t in (r, f, there m)
      ];
    }

-- ===== src/Team/Effects.antt =====
-- What a request of the authority routes of main.py does to the owner of a database.
use dduo_solo_founder.Prelude.{
  ℕ, ◌≡◌, refl, sym, ◌∙◌, ap, subst, inl, inr, true, false, ◌&&◌, ◌||◌, not, Option, none, some,
  List, ◌==◌, In, Bool-cases, arith,
}
use dduo_solo_founder.Work.Store.{RowId, truthy, is_id}
use dduo_solo_founder.Team.Authority.{is_active_state, is_pending, is_transferred, AuthorityRow}
use dduo_solo_founder.Team.Handoff.{
  initialize_project_authority, prepare_project_transfer, prepare_again, freeze, claimed,
  with_nonce, cancel_project_transfer, activate_transferred_project, taken_over, require_owner,
}
use dduo_solo_founder.Team.Requests.{
  AuthorityAnswer, answered, destination_ready, source_finalized, AuthorityReceipt, AuthorityToken,
  Host, mark_dirty, require_current_authority_node, project_transfer_receipt, refuse_if, ◌>>◌,
  source_unavailable, identity_unavailable, bound_to_another, cannot_be_transferred, backup_running,
}
use dduo_solo_founder.Team.Inversion.{
  >>-eq-answered, refuse_if-eq-answered, >>=-eq-answered, answered-eq, true_not_false, pending_live,
  active_live, second_false, not-false, receipt-kind, issue-receipt, claim_kept, claimed_kept,
  nonce_kept,
}

abbrev pub final_receipt : AuthorityRow → AuthorityAnswer AuthorityReceipt
final_receipt row = project_transfer_receipt row source_finalized

-- no receipt, or one that does not end a transfer
abbrev pub IsNotFinal : Option AuthorityReceipt → Type 0
IsNotFinal none = Unit {0}
IsNotFinal (some r) = r.kind ≡ destination_ready

-- What a request does: it keeps the owner, it retires the node, or the node takes over by a receipt
-- that ended the transfer to it.
pub data Effect (i : RowId) (receipts : List AuthorityReceipt) (row : AuthorityRow)
    : AuthorityRow → Option AuthorityReceipt → Type 0 where
  keeps :
      {next : AuthorityRow} {issued : Option AuthorityReceipt}
      → next.authority_node_id ≡ row.authority_node_id
      → is_transferred next.authority_state ≡ is_transferred row.authority_state
      → (is_transferred row.authority_state ≡ true → final_receipt next ≡ final_receipt row)
      → IsNotFinal issued
      → Effect i receipts row next issued
  retires :
      {next : AuthorityRow} {receipt : AuthorityReceipt}
      → row.authority_node_id ≡ some i
      → final_receipt row ≡ answered receipt
      → next.authority_node_id ≡ row.authority_node_id
      → is_transferred next.authority_state ≡ true
      → final_receipt next ≡ final_receipt row
      → Effect i receipts row next (some receipt)
  takes_over :
      (receipt : AuthorityReceipt)
      → In receipt receipts
      → receipt.kind ≡ source_finalized
      → receipt.target_node_id ≡ i
      → (i == 0) ≡ false
      → is_pending row.authority_state ≡ true
      → Effect i receipts row (taken_over i row) none

-- a request at a node whose database has an owner
module _ (h : Host) (receipts : List AuthorityReceipt) (row : AuthorityRow)
    (owned : truthy row.authority_node_id ≡ true) where
  abbrev Result : AuthorityRow → Option AuthorityReceipt → Type 0
  Result next issued = Effect h.node_id receipts row next issued

  pub writes-Effect : Result (mark_dirty row) none
  unfolding project_transfer_receipt
  writes-Effect = keeps refl refl (λ t. refl) tt

  pub cancels-Effect :
      {next : AuthorityRow} (g : ℕ)
      → cancel_project_transfer h g row ≡ answered next
      → Result next none
  unfolding cancel_project_transfer project_transfer_receipt
  cancels-Effect g e =
      let other = not (row.authority_generation == g) || not (is_pending row.authority_state) in
      let (m, e1) = refuse_if-eq-answered (not h.manages) _ _ e in
      let (p, e2) = refuse_if-eq-answered other _ _ e1 in
      let (o, e3) = >>-eq-answered (require_owner h row source_unavailable) _ e2 in
      let live = pending_live row.authority_state (second_false _ _ p) in
      subst (λ r. Result r none) (answered-eq e3)
        (keeps refl (sym live) (λ t. absurd (true_not_false (sym t ∙ live))) tt)

  pub initializes-Effect :
      {next : AuthorityRow} (node : RowId) (g : ℕ)
      → initialize_project_authority h node g row ≡ answered next
      → Result next none
  unfolding initialize_project_authority project_transfer_receipt
  initializes-Effect {next} node g e =
      let (c, e1) = refuse_if-eq-answered (not h.has_credential) _ _ e in
      let (o, e2) = >>-eq-answered (require_current_authority_node h node) _ e1 in
      let (k, e3) = refuse_if-eq-answered (not (row.authority_generation == g)) _ _ e2 in
      let (a, e4) = refuse_if-eq-answered (not (is_active_state row.authority_state)) _ _ e3 in
      let same = claim_kept node row row.authority_node_id owned e4 in
      subst (λ r. Result r none) (sym same) (keeps refl refl (λ t. refl) tt)

  pub activates-Effect :
      {token : AuthorityToken} (node : RowId) (g : ℕ)
      → activate_transferred_project h node g row ≡ answered token
      → Result row (some token.receipt)
  unfolding activate_transferred_project
  activates-Effect node g e =
      let other = not (is_pending row.authority_state) || not (row.authority_generation == g) in
      let (c, e1) = refuse_if-eq-answered (not h.has_credential) _ _ e in
      let (o, e2) = >>-eq-answered (require_current_authority_node h node) _ e1 in
      let (k, e3) = refuse_if-eq-answered other _ _ e2 in
      let (b, e4) = refuse_if-eq-answered (not (is_id row.authority_target_node_id node)) _ _ e3 in
      let (r, r1, e5) = >>=-eq-answered (project_transfer_receipt row destination_ready) _ e4 in
      keeps refl refl (λ t. refl)
        (ap (λ z. z.kind) (issue-receipt h r e5) ∙ receipt-kind row destination_ready r1)

  prepare_again-Effect :
      {next : AuthorityRow}
      → prepare_again h row ≡ answered next
      → is_pending row.authority_state ≡ true
      → Result next none
  unfolding prepare_again
  prepare_again-Effect e p =
      let (o, e1) =
        >>-eq-answered (require_owner h (claimed h (with_nonce h row)) identity_unavailable) _ e in
      let live = pending_live row.authority_state p in
      let (owner, state) = nonce_kept h row in
      let whole = claimed_kept h (with_nonce h row) (ap truthy owner ∙ owned) in
      let same = ap is_transferred (ap (λ r. r.authority_state) whole ∙ state) in
      subst (λ r. Result r none) (answered-eq e1)
        (keeps (ap (λ r. r.authority_node_id) whole ∙ owner) same
          (λ t. absurd (true_not_false (sym t ∙ live))) tt)

  freeze-Effect :
      {next : AuthorityRow} (target : RowId)
      → freeze h target row ≡ answered next
      → is_active_state row.authority_state ≡ true
      → Result next none
  unfolding freeze
  freeze-Effect target e a =
      let (o, e1) = >>-eq-answered (require_owner h (claimed h row) identity_unavailable) _ e in
      let live = active_live row.authority_state a in
      let whole = claimed_kept h row owned in
      subst (λ r. Result r none) (answered-eq e1)
        (keeps (ap (λ r. r.authority_node_id) whole) (sym live)
          (λ t. absurd (true_not_false (sym t ∙ live))) tt)

  pub prepares-Effect :
      {next : AuthorityRow} (g : ℕ) (target : RowId)
      → prepare_project_transfer h g target row ≡ answered next
      → Result next none
  unfolding prepare_project_transfer
  prepares-Effect {next} g target e =
      let (m, e1) = refuse_if-eq-answered (not h.manages) _ _ e in
      let (k, e2) = refuse_if-eq-answered (not (row.authority_generation == g)) _ _ e1 in
      let again = is_pending row.authority_state && is_id row.authority_target_node_id target in
      elim (Bool-cases again) [
        | inl t ↦ prepare_again-Effect (rw t at e2) (ground arith)
        | inr t ↦
            let e3 : (refuse_if (is_pending row.authority_state) bound_to_another
                  >> refuse_if (not (is_active_state row.authority_state)) cannot_be_transferred
                  >> refuse_if h.running_backup backup_running
                  >> freeze h target row)
                ≡ answered next =
              rw t at e2 in
            let (p, e4) = refuse_if-eq-answered (is_pending row.authority_state) _ _ e3 in
            let (a, e5) =
              refuse_if-eq-answered (not (is_active_state row.authority_state)) _ _ e4 in
            let (b, e6) = refuse_if-eq-answered h.running_backup _ _ e5 in
            freeze-Effect target e6 (not-false _ a)
      ]

-- ===== src/Team/Endings.antt =====
-- What the routes of main.py that end a transfer do to the owner of a database.
use dduo_solo_founder.Prelude.{
  ℕ, ◌≡◌, refl, sym, ◌∙◌, ap, subst, ◌⊎◌, inl, inr, Bool, true, false, ◌&&◌, ◌||◌, not,
  if◌then◌else◌, Option, none, some, List, In, ◌==◌, Bool-cases, arith,
}
use dduo_solo_founder.Work.Store.{RowId, truthy, is_id}
use dduo_solo_founder.Team.Authority.{
  transferred, is_active_state, is_pending, is_transferred, AuthorityRow, or_empty,
}
use dduo_solo_founder.Team.Handoff.{
  complete_checked, complete_transferred_project, finalized, retire, taken_over,
  finalize_old_project_authority, require_owner, already_taken,
}
use dduo_solo_founder.Team.Requests.{
  answered, refused, AuthorityError, ReceiptKind, destination_ready, source_finalized,
  AuthorityReceipt, AuthorityToken, issue, mark_activity, Host, require_current_authority_node,
  project_transfer_receipt, same_receipt_kind, same_receipt, verified, verified_transfer_receipt,
  refuse_if, ◌>>=◌, ◌>>◌, authority_secret, source_unavailable, not_awaiting, receipt_mismatch,
  another_node,
}
use dduo_solo_founder.Team.Nodes.{
  NodeRequest, writes, initializes, prepares, cancels, activates, completes, finalizes, IsAuthentic,
}
use dduo_solo_founder.Team.Effects.{
  final_receipt, Effect, keeps, retires, takes_over, writes-Effect, cancels-Effect,
  initializes-Effect, activates-Effect, prepares-Effect,
}
use dduo_solo_founder.Team.Inversion.{
  >>-eq-answered, refuse_if-eq-answered, >>=-eq-answered, answered-eq, second_false, not-false,
  issue-receipt,
}

kinds_equal : (a b : ReceiptKind) → same_receipt_kind a b ≡ true → a ≡ b
kinds_equal destination_ready destination_ready h = refl
kinds_equal destination_ready source_finalized h = cc
kinds_equal source_finalized destination_ready h = cc
kinds_equal source_finalized source_finalized h = refl

receipts_equal : (a b : AuthorityReceipt) → same_receipt a b ≡ true → a ≡ b
receipts_equal a b h =
    let k : same_receipt_kind a.kind b.kind ≡ true = ground arith in
    let e0 = kinds_equal a.kind b.kind k in
    let e1 : a.project_id ≡ b.project_id = ground arith in
    let e2 : a.source_node_id ≡ b.source_node_id = ground arith in
    let e3 : a.target_node_id ≡ b.target_node_id = ground arith in
    let e4 : a.source_generation ≡ b.source_generation = ground arith in
    let e5 : a.nonce ≡ b.nonce = ground arith in cc

own_of : (o : Option RowId) (n : RowId) → truthy o ≡ true → (or_empty o == n) ≡ true → o ≡ some n
own_of none n t h = cc
own_of (some i) n t h = let e : i ≡ n = ground arith in ap some e

id_of : (o : Option RowId) (n : RowId) → is_id o n ≡ true → or_empty o ≡ n
id_of none n h = cc
id_of (some i) n h = ground arith

refused_unless :
    (t : Bool) (error : AuthorityError) → refuse_if (not t) error ≡ answered tt → t ≡ true
refused_unless true error h = refl
refused_unless false error h = cc

current_node :
    (h : Host) (node : RowId)
    → require_current_authority_node h node ≡ answered tt
    → ((h.node_id == 0) ≡ false) × ((h.node_id == node) ≡ true)
unfolding require_current_authority_node
current_node h node e =
    let (z, e1) = refuse_if-eq-answered (h.node_id == 0) _ _ e in
    (z, refused_unless (h.node_id == node) another_node e1)

receipt-target :
    (row : AuthorityRow) {r : AuthorityReceipt}
    → final_receipt row ≡ answered r
    → r.target_node_id ≡ or_empty row.authority_target_node_id
unfolding project_transfer_receipt
receipt-target row h =
    let source = or_empty row.authority_node_id in
    let target = or_empty row.authority_target_node_id in
    let nonce = or_empty row.authority_transfer_nonce in
    let (t, e) = refuse_if-eq-answered (source == 0 || target == 0 || nonce == 0) _ _ h in
    ap (λ z. z.target_node_id) (sym (answered-eq e))

receipt_finalized :
    (row : AuthorityRow) {r : AuthorityReceipt}
    → project_transfer_receipt row destination_ready ≡ answered r
    → final_receipt row ≡ answered (finalized r)
unfolding project_transfer_receipt
receipt_finalized row h =
    let source = or_empty row.authority_node_id in
    let target = or_empty row.authority_target_node_id in
    let nonce = or_empty row.authority_transfer_nonce in
    let (t, e) = refuse_if-eq-answered (source == 0 || target == 0 || nonce == 0) _ _ h in
    rw t (ap (λ z. answered (finalized z)) (answered-eq e))

-- a token that was accepted is authentic, and of the kind
verified_token :
    (kind : ReceiptKind) (secret : RowId) (token : Option AuthorityToken)
    (receipts : List AuthorityReceipt) {r : AuthorityReceipt}
    → IsAuthentic secret receipts token
    → verified kind secret token ≡ answered r
    → In r receipts × (r.kind ≡ kind)
verified_token kind secret none receipts a h = cc
verified_token kind secret (some token) receipts a h =
    let test = token.signed_with == secret && same_receipt_kind token.receipt.kind kind in
    elim (Bool-cases test) [
      | inl t ↦
          let e : token.receipt ≡ _ = answered-eq (rw t at h) in
          let named : same_receipt_kind token.receipt.kind kind ≡ true = ground arith in
          (
            subst (λ z. In z receipts) e (a (ground arith)),
            ap (λ z. z.kind) (sym e) ∙ kinds_equal token.receipt.kind kind named,
          )
      | inr t ↦ let e : refused _ ≡ answered _ = rw t at h in cc
    ]

retire-owner : (row : AuthorityRow) → (retire row).authority_node_id ≡ row.authority_node_id
retire-owner row = elim (Bool-cases (is_transferred row.authority_state)) [
  | inl t ↦ rw t refl
  | inr t ↦ rw t refl
]

retire-gone : (row : AuthorityRow) → is_transferred (retire row).authority_state ≡ true
retire-gone row = elim (Bool-cases (is_transferred row.authority_state)) [
  | inl t ↦
      subst
        (λ b.
          is_transferred
            (if b
              then row
              else mark_activity (record row { authority_state = transferred })).authority_state
          ≡ true)
        (sym t) t
  | inr t ↦ rw t refl
]

retire-final : (row : AuthorityRow) → final_receipt (retire row) ≡ final_receipt row
unfolding project_transfer_receipt
retire-final row = elim (Bool-cases (is_transferred row.authority_state)) [
  | inl t ↦ rw t refl
  | inr t ↦ rw t refl
]

transfer_verified :
    (h : Host) (row : AuthorityRow) (token : Option AuthorityToken) (kind : ReceiptKind)
    {r : AuthorityReceipt}
    → verified_transfer_receipt h row token kind ≡ answered r
    → project_transfer_receipt row kind ≡ answered r
unfolding verified_transfer_receipt
transfer_verified h row token kind v =
    let (s, v1) = >>-eq-answered (authority_secret h) _ v in
    let (u, v2, v3) = >>=-eq-answered (verified kind h.secret token) _ v1 in
    let (x, v4, v5) = >>=-eq-answered (project_transfer_receipt row kind) _ v3 in
    let (q, v6) = refuse_if-eq-answered (not (same_receipt u x)) _ _ v5 in
    let same = receipts_equal u x (not-false _ q) in v4 ∙ ap answered (sym same ∙ answered-eq v6)

flipped : (a b : RowId) → (a == b) ≡ true → (b == a) ≡ true
flipped a b h = ground arith

first_false : (a b : Bool) → (not a || not b) ≡ false → a ≡ true
first_false true b h = refl
first_false false b h = ground arith

-- Either nothing changed, or the node took over by the receipt of the transfer to it.
completed_cases :
    (node : RowId) (g : ℕ) (row : AuthorityRow) (r : AuthorityReceipt) {next : AuthorityRow}
    → complete_checked node g row r ≡ answered next
    → (row ≡ next)
      ⊎ ((is_pending row.authority_state ≡ true)
          × (r.target_node_id ≡ node)
          × (taken_over node row ≡ next))
unfolding complete_checked
completed_cases node g row r {next} e =
    let again =
      already_taken node g row
      && r.project_id == row.project_id
      && r.target_node_id == node
      && r.source_generation == g in
    elim (Bool-cases again) [
      | inl t ↦ inl (answered-eq (rw t at e))
      | inr t ↦
          let other = not (is_pending row.authority_state) || not (row.authority_generation == g) in
          let e0 : (refuse_if other not_awaiting >> final_receipt row >>= λ expected.
          refuse_if (not (same_receipt r expected) || not (is_id row.authority_target_node_id node))
            receipt_mismatch
          >> answered (taken_over node row))
              ≡ answered next =
            rw t at e in
          let (p, e1) = refuse_if-eq-answered other _ _ e0 in
          let (x, f, e2) = >>=-eq-answered (final_receipt row) _ e1 in
          let wrong = not (same_receipt r x) || not (is_id row.authority_target_node_id node) in
          let (q, e3) = refuse_if-eq-answered wrong _ _ e2 in
          let same = receipts_equal r x (first_false _ _ q) in
          let at_target = id_of row.authority_target_node_id node (second_false _ _ q) in
          inr (
            first_false _ _ p,
            ap (λ z. z.target_node_id) same ∙ receipt-target row f ∙ at_target,
            answered-eq e3,
          )
    ]

same_node : {a b : RowId} → (a == b) ≡ true → b ≡ a
same_node h = ground arith

module _ (h : Host) (receipts : List AuthorityReceipt) (row : AuthorityRow)
    (owned : truthy row.authority_node_id ≡ true) where
  finalizes-Effect :
      {next : AuthorityRow} {answer : AuthorityToken} (g : ℕ) (token : Option AuthorityToken)
      → finalize_old_project_authority h g token row ≡ answered (next, answer)
      → Effect h.node_id receipts row next (some answer.receipt)
  unfolding finalize_old_project_authority
  finalizes-Effect g token e =
      let other = not (row.authority_generation == g) || is_active_state row.authority_state in
      let (m, e1) = refuse_if-eq-answered (not h.manages) _ _ e in
      let (p, e2) = refuse_if-eq-answered other _ _ e1 in
      let (o, e3) = >>-eq-answered (require_owner h row source_unavailable) _ e2 in
      let (r, v, e4) =
        >>=-eq-answered (verified_transfer_receipt h row token destination_ready) _ e3 in
      let (w, o1) = refuse_if-eq-answered (not (truthy row.authority_node_id)) _ _ o in
      let (z, n) = current_node h (or_empty row.authority_node_id) o1 in
      let (t, i, e5) = >>=-eq-answered (issue h (finalized r)) _ e4 in
      let same : (retire row, t) ≡ (_, _) = answered-eq e5 in
      let final = receipt_finalized row (transfer_verified h row token destination_ready v) in
      subst
        (λ (x : AuthorityRow × AuthorityToken).
          Effect h.node_id receipts row x.0 (some x.1.receipt))
        same
        (retires (own_of _ _ owned (flipped _ _ n))
          (final ∙ ap answered (sym (issue-receipt h (finalized r) i))) (retire-owner row)
          (retire-gone row) (retire-final row))

  completes-Effect :
      {next : AuthorityRow} (node : RowId) (g : ℕ) (token : Option AuthorityToken)
      → IsAuthentic h.secret receipts token
      → complete_transferred_project h node g token row ≡ answered next
      → Effect h.node_id receipts row next none
  unfolding complete_transferred_project complete_checked project_transfer_receipt
  completes-Effect {next} node g token authentic e =
      let (c, e1) = refuse_if-eq-answered (not h.has_credential) _ _ e in
      let (o, e2) = >>-eq-answered (require_current_authority_node h node) _ e1 in
      let (s, e3) = >>-eq-answered (authority_secret h) _ e2 in
      let (r, v, e4) = >>=-eq-answered (verified source_finalized h.secret token) _ e3 in
      let (z, n) = current_node h node o in
      let (issued, k) = verified_token source_finalized h.secret token receipts authentic v in
      elim (completed_cases node g row r e4) [
        | inl same ↦
            subst (λ x. Effect h.node_id receipts row x none) same (keeps refl refl (λ t. refl) tt)
        | inr taken ↦
            let (pending, target, same) = taken in
            let here : node ≡ h.node_id = same_node n in
            let over =
              takes_over r issued k target (subst (λ i. (i == 0) ≡ false) (sym here) z) pending in
            subst (λ x. Effect h.node_id receipts row x none) same
              (subst (λ i. Effect i receipts row (taken_over node row) none) here over)
      ]

  -- A request at a node keeps the owner of its database, retires the node, or lets the node take over
  -- by the receipt that ended the transfer to it.
  pub request-Effect :
      {next : AuthorityRow} {issued : Option AuthorityReceipt}
      → NodeRequest h receipts row next issued
      → Effect h.node_id receipts row next issued
  request-Effect (writes w) = writes-Effect h receipts row owned
  request-Effect (initializes node g e) = initializes-Effect h receipts row owned node g e
  request-Effect (prepares g target e) = prepares-Effect h receipts row owned g target e
  request-Effect (cancels g e) = cancels-Effect h receipts row owned g e
  request-Effect (activates node g e) = activates-Effect h receipts row owned node g e
  request-Effect (completes node g token a e) = completes-Effect node g token a e
  request-Effect (finalizes g token a e) = finalizes-Effect g token e

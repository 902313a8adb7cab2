-- ===== src/Team/Inversion.antt =====
-- How requests of the authority routes of main.py that were answered went.
use dduo_solo_founder.Prelude.{
  ◌≡◌, refl, sym, ap, inl, inr, Bool, true, false, ◌||◌, not, Option, none, some, ◌==◌, Bool-cases,
  arith,
}
use dduo_solo_founder.Work.Store.{RowId, truthy}
use dduo_solo_founder.Team.Authority.{
  AuthorityState, active, transfer_pending, transferred, is_active_state, is_pending,
  is_transferred, AuthorityRow, or_empty,
}
use dduo_solo_founder.Team.Handoff.{claimed, with_nonce, claim}
use dduo_solo_founder.Team.Requests.{
  AuthorityAnswer, answered, refused, AuthorityError, ReceiptKind, AuthorityReceipt, AuthorityToken,
  issue, authority_secret, Host, project_transfer_receipt, refuse_if, ◌>>=◌, ◌>>◌,
}

-- inversion of chains that answered
pub >>-eq-answered {ℓ} :
    {Y : Type ℓ} (first : AuthorityAnswer (Unit {0})) (rest : AuthorityAnswer Y) {y : Y}
    → (first >> rest) ≡ answered y
    → (first ≡ answered tt) × (rest ≡ answered y)
>>-eq-answered (refused e) rest h = cc
>>-eq-answered (answered tt) rest h = (refl, h)

pub refuse_if-eq-answered {ℓ} :
    {Y : Type ℓ} (t : Bool) (e : AuthorityError) (rest : AuthorityAnswer Y) {y : Y}
    → (refuse_if t e >> rest) ≡ answered y
    → (t ≡ false) × (rest ≡ answered y)
refuse_if-eq-answered true e rest h = cc
refuse_if-eq-answered false e rest h = (refl, h)

pub >>=-eq-answered {ℓ κ} :
    {X : Type ℓ} {Y : Type κ} (first : AuthorityAnswer X) (rest : X → AuthorityAnswer Y) {y : Y}
    → (first >>= rest) ≡ answered y
    → (x : X) × (first ≡ answered x) × (rest x ≡ answered y)
>>=-eq-answered (refused e) rest h = cc
>>=-eq-answered (answered x) rest h = (x, refl, h)

pub answered-eq : {Y : Type 0} {x y : Y} → answered x ≡ answered y → x ≡ y
answered-eq h = cc

pub true_not_false : true ≡ false → ⊥
true_not_false h = cc

pub pending_live : (state : AuthorityState) → is_pending state ≡ true → is_transferred state ≡ false
pending_live active h = cc
pending_live transfer_pending h = refl
pending_live transferred h = cc

pub active_live :
    (state : AuthorityState) → is_active_state state ≡ true → is_transferred state ≡ false
active_live active h = refl
active_live transfer_pending h = cc
active_live transferred h = cc

pub second_false : (a b : Bool) → (not a || not b) ≡ false → b ≡ true
second_false a true h = refl
second_false a false h = ground arith

pub receipt-kind :
    (row : AuthorityRow) (kind : ReceiptKind) {r : AuthorityReceipt}
    → project_transfer_receipt row kind ≡ answered r
    → r.kind ≡ kind
unfolding project_transfer_receipt
receipt-kind row kind h =
    let source = or_empty row.authority_node_id in
    let target = or_empty row.authority_target_node_id in
    let nonce = or_empty row.authority_transfer_nonce in
    let (t, e) = refuse_if-eq-answered (source == 0 || target == 0 || nonce == 0) _ _ h in
    ap (λ z. z.kind) (sym (answered-eq e))

-- the token that is issued holds the receipt
pub issue-receipt :
    (h : Host) (r : AuthorityReceipt) {token : AuthorityToken}
    → issue h r ≡ answered token
    → token.receipt ≡ r
issue-receipt h r e =
    let (q, e1) = >>-eq-answered (authority_secret h) _ e in
    ap (λ z. z.receipt) (sym (answered-eq e1))

pub not-false : (a : Bool) → not a ≡ false → a ≡ true
not-false true h = refl
not-false false h = cc

pub claim_kept :
    (node : RowId) (row : AuthorityRow) (owner : Option RowId) {next : AuthorityRow}
    → truthy owner ≡ true
    → claim node row owner ≡ answered next
    → next ≡ row
claim_kept node row none owned h = cc
claim_kept node row (some owner) owned h =
    let (t, e) = refuse_if-eq-answered (not (owner == node)) _ _ h in sym (answered-eq e)

pub claimed_kept :
    (h : Host) (row : AuthorityRow) → truthy row.authority_node_id ≡ true → claimed h row ≡ row
claimed_kept h row owned = rw owned refl

pub nonce_kept :
    (h : Host) (row : AuthorityRow)
    → ((with_nonce h row).authority_node_id ≡ row.authority_node_id)
      × ((with_nonce h row).authority_state ≡ row.authority_state)
nonce_kept h row = elim (Bool-cases (truthy row.authority_transfer_nonce)) [
  | inl t ↦ rw t (refl, refl)
  | inr t ↦ rw t (refl, refl)
]

-- ===== src/Team/Requests.antt =====
-- What the authority routes of main.py share: their errors, the receipts of authority_receipts.py, the
-- node that answers, and the checks.
use dduo_solo_founder.Prelude.{
  ℕ, ◌+◌, Bool, true, false, ◌&&◌, ◌||◌, not, Option, none, some, ◌==◌, if◌then◌else◌,
}
use dduo_solo_founder.Prelude.Equality.{option_eq, nat_eq}
use dduo_solo_founder.Work.Store.{RowId}
use dduo_solo_founder.Team.Authority.{AuthorityRow, or_empty}

-- the `HTTPException`s of the routes
pub data AuthorityError : Type 0 where
  manager_required credential_required identity_unavailable another_node secret_unavailable
        generation_changed not_active already_owned bound_to_another cannot_be_transferred
        backup_running not_pending source_unavailable proof_unavailable receipt_invalid
        receipt_mismatch not_awaiting only_active_recovers no_recovery_needed :
      AuthorityError

pub data AuthorityAnswer {ℓ} (A : Type ℓ) : Type ℓ where
  refused : AuthorityError → AuthorityAnswer A
  answered : A → AuthorityAnswer A

module _ {ℓ κ} {X : Type ℓ} {Y : Type κ} where
  infixr 10 ◌>>=◌
  abbrev pub ◌>>=◌ : AuthorityAnswer X → (X → AuthorityAnswer Y) → AuthorityAnswer Y
  refused error >>= rest = refused error
  answered x >>= rest = rest x

module _ {κ} {Y : Type κ} where
  infixr 10 ◌>>◌
  abbrev pub ◌>>◌ : AuthorityAnswer (Unit {0}) → AuthorityAnswer Y → AuthorityAnswer Y
  refused error >> rest = refused error
  answered passed >> rest = rest

-- `if test: raise error`
abbrev pub refuse_if : Bool → AuthorityError → AuthorityAnswer (Unit {0})
refuse_if true error = refused error
refuse_if false error = answered tt

pub data ReceiptKind : Type 0 where
  destination_ready source_finalized : ReceiptKind

pub record AuthorityReceipt : Type 0 where
  pub kind : ReceiptKind
  pub project_id : RowId
  pub source_node_id : RowId
  pub target_node_id : RowId
  pub source_generation : ℕ
  pub nonce : RowId

-- What a route reads besides the project's row: the request's rights, the environment of the node,
-- and whether a backup is scheduled or running.
pub record Host : Type 0 where
  -- `principal.can_manage_infrastructure`
  pub manages : Bool
  -- `require_node_authority` passes
  pub has_credential : Bool
  -- `DDUO_NODE_ID`, stripped
  pub node_id : RowId
  -- `DDUO_NODE_AUTHORITY_SECRET`, stripped
  pub secret : RowId
  pub running_backup : Bool
  -- what `secrets.token_hex` gives
  pub token : RowId

unfoldable pub require_current_authority_node : Host → RowId → AuthorityAnswer (Unit {0})
require_current_authority_node h node =
    refuse_if (h.node_id == 0) identity_unavailable
    >> refuse_if (not (h.node_id == node)) another_node

-- `mark_project_dirty`
abbrev pub mark_dirty : AuthorityRow → AuthorityRow
mark_dirty row = record row { backup_dirty = true; backup_generation = row.backup_generation + 1 }

-- `activity` of a kind that is not about backups, which marks the project once more
abbrev pub mark_activity : AuthorityRow → AuthorityRow
mark_activity row = mark_dirty row

unfoldable pub project_transfer_receipt :
    AuthorityRow → ReceiptKind → AuthorityAnswer AuthorityReceipt
project_transfer_receipt row kind =
    let source = or_empty row.authority_node_id in
    let target = or_empty row.authority_target_node_id in
    let nonce = or_empty row.authority_transfer_nonce in
    refuse_if (source == 0 || target == 0 || nonce == 0) proof_unavailable
    >> answered (record {
      kind = kind;
      project_id = row.project_id;
      source_node_id = source;
      target_node_id = target;
      source_generation = row.authority_generation;
      nonce = nonce;
    })

abbrev pub same_receipt_kind : ReceiptKind → ReceiptKind → Bool
same_receipt_kind destination_ready destination_ready = true
same_receipt_kind destination_ready source_finalized = false
same_receipt_kind source_finalized destination_ready = false
same_receipt_kind source_finalized source_finalized = true

abbrev pub same_receipt : AuthorityReceipt → AuthorityReceipt → Bool
same_receipt a b =
    same_receipt_kind a.kind b.kind
    && a.project_id == b.project_id
    && a.source_node_id == b.source_node_id
    && a.target_node_id == b.target_node_id
    && a.source_generation == b.source_generation
    && a.nonce == b.nonce

-- A token that is well formed: its receipt, and the secret that it was signed with.
pub record AuthorityToken : Type 0 where
  pub receipt : AuthorityReceipt
  pub signed_with : RowId

-- `verify_authority_receipt` for the token of the request, which is none where it is not well formed
abbrev pub verified : ReceiptKind → RowId → Option AuthorityToken → AuthorityAnswer AuthorityReceipt
verified kind secret none = refused receipt_invalid
verified kind secret (some token) =
    if token.signed_with == secret && same_receipt_kind token.receipt.kind kind
    then answered token.receipt
    else refused receipt_invalid

-- `HTTPException(503)` of `_authority_secret`
abbrev pub authority_secret : Host → AuthorityAnswer (Unit {0})
authority_secret h = refuse_if (h.secret == 0) secret_unavailable

-- `issue_authority_receipt(_authority_secret(), receipt)`
abbrev pub issue : Host → AuthorityReceipt → AuthorityAnswer AuthorityToken
issue h receipt =
    authority_secret h >> answered (record { receipt = receipt; signed_with = h.secret })

unfoldable pub verified_transfer_receipt :
    Host → AuthorityRow → Option AuthorityToken → ReceiptKind → AuthorityAnswer AuthorityReceipt
unfolding project_transfer_receipt
verified_transfer_receipt h row token kind =
    authority_secret h >> verified kind h.secret token >>= λ receipt.
    project_transfer_receipt row kind >>= λ expected.
    refuse_if (not (same_receipt receipt expected)) receipt_mismatch >> answered receipt

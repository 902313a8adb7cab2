-- ===== src/Team/Completes.antt =====
-- A handoff from node to node, request by request, through the authority routes of main.py.
use dduo_solo_founder.Prelude.{ℕ, ◌+◌, ◌≡◌, refl, true, false, some, ◌==◌, arith}
use dduo_solo_founder.Work.Store.{RowId}
use dduo_solo_founder.Team.Authority.{
  active, transfer_pending, transferred, AuthorityRow, project_authority_writable,
}
use dduo_solo_founder.Team.Handoff.{
  freeze, prepare_project_transfer, activate_transferred_project, complete_checked,
  complete_transferred_project, finalize_old_project_authority, taken_over,
}
use dduo_solo_founder.Team.Requests.{
  AuthorityAnswer, answered, ReceiptKind, destination_ready, source_finalized, AuthorityReceipt,
  AuthorityToken, mark_activity, Host, require_current_authority_node, project_transfer_receipt,
  verified_transfer_receipt, ◌>>=◌, mark_dirty,
}

-- The requests of one handoff: the source freezes the project, a copy of its database is restored on
-- the target, which shows that it is ready; the source retires, and the target takes over. The result
-- is the two databases.
unfoldable pub hand_off : Host → Host → AuthorityRow → AuthorityAnswer (AuthorityRow × AuthorityRow)
unfolding prepare_project_transfer activate_transferred_project finalize_old_project_authority
    complete_transferred_project
hand_off source target row =
    let g = row.authority_generation in
    prepare_project_transfer source g target.node_id row >>= λ frozen.
    activate_transferred_project target target.node_id g frozen >>= λ ready.
    finalize_old_project_authority source g (some ready) frozen >>= λ retired.
    complete_transferred_project target target.node_id g (some retired.1) frozen >>= λ taken.
    answered (retired.0, taken)

-- a node with its identity and secret, whose requests have the rights, and with no backup at work
pub record CanHandOff (h : Host) : Type 0 where
  pub manager : h.manages ≡ true
  pub credential : h.has_credential ≡ true
  pub identity : (h.node_id == 0) ≡ false
  pub secret : (h.secret == 0) ≡ false
  pub idle : h.running_backup ≡ false
  pub fresh : (h.token == 0) ≡ false

same_id : (n : ℕ) → (n == n) ≡ true
same_id n = ground arith

module _ (source target : Host) (row : AuthorityRow) (s : CanHandOff source) (t : CanHandOff target)
    (state : row.authority_state ≡ active) (owner : row.authority_node_id ≡ some source.node_id)
    (shared : source.secret ≡ target.secret) where
  abbrev frozen : AuthorityRow
  frozen = mark_activity (
      mark_dirty (record row {
        authority_state = transfer_pending;
        authority_target_node_id = some target.node_id;
        authority_transfer_nonce = some source.token;
      }))

  abbrev gone : AuthorityRow
  gone = mark_activity (record frozen { authority_state = transferred })

  abbrev receipt : ReceiptKind → AuthorityReceipt
  receipt kind = record {
    kind = kind;
    project_id = row.project_id;
    source_node_id = source.node_id;
    target_node_id = target.node_id;
    source_generation = row.authority_generation;
    nonce = source.token;
  }

  abbrev token : ReceiptKind → RowId → AuthorityToken
  token kind secret = record { receipt = receipt kind; signed_with = secret }

  shared_id : (target.secret == source.secret) ≡ true
  shared_id = let e = shared in ground arith

  shared_back : (source.secret == target.secret) ≡ true
  shared_back = let e = shared in ground arith

  prepared :
      prepare_project_transfer source row.authority_generation target.node_id row ≡ answered frozen
  unfolding prepare_project_transfer freeze require_current_authority_node
  prepared =
      rw
        (
          s.manager,
          same_id row.authority_generation,
          state,
          s.idle,
          owner,
          s.identity,
          same_id source.node_id,
          s.identity,
        )
        refl

  ready :
      activate_transferred_project target target.node_id row.authority_generation frozen
      ≡ answered (token destination_ready target.secret)
  unfolding activate_transferred_project require_current_authority_node project_transfer_receipt
  ready =
      simp
        (
          owner,
          t.credential,
          t.identity,
          same_id target.node_id,
          same_id row.authority_generation,
          s.identity,
          s.fresh,
          t.secret,
        )
        refl

  retired :
      finalize_old_project_authority source row.authority_generation
        (some (token destination_ready target.secret))
        frozen
      ≡ answered (gone, token source_finalized source.secret)
  unfolding finalize_old_project_authority require_current_authority_node verified_transfer_receipt
      project_transfer_receipt
  retired =
      simp
        (
          s.manager,
          owner,
          same_id row.authority_generation,
          s.identity,
          t.identity,
          same_id source.node_id,
          s.fresh,
          s.secret,
          shared_id,
          same_id row.project_id,
          same_id target.node_id,
          same_id source.token,
        )
        refl

  abbrev taken : AuthorityRow
  taken = taken_over target.node_id frozen

  completed :
      complete_transferred_project target target.node_id row.authority_generation
        (some (token source_finalized source.secret))
        frozen
      ≡ answered taken
  unfolding complete_transferred_project require_current_authority_node complete_checked
      project_transfer_receipt
  completed =
      simp
        (
          t.credential,
          owner,
          t.identity,
          same_id target.node_id,
          t.secret,
          shared_back,
          same_id row.authority_generation,
          s.identity,
          s.fresh,
          same_id row.project_id,
          same_id source.node_id,
          same_id source.token,
        )
        refl

  chain : hand_off source target row ≡ answered (gone, taken)
  unfolding hand_off
  chain = rw (prepared, ready, retired, completed) refl

-- A handoff between two nodes that have identities and one secret in common, with the rights it takes
-- and no backup at work, ends in order: the source cannot write any more and the target can, one
-- generation later.
pub hand_off-ends :
    (source target : Host) (row : AuthorityRow)
    → CanHandOff source
    → CanHandOff target
    → row.authority_state ≡ active
    → row.authority_node_id ≡ some source.node_id
    → source.secret ≡ target.secret
    → (retired : AuthorityRow) × (taken : AuthorityRow) × (hand_off source target row
        ≡ answered (retired, taken))
      × (project_authority_writable source.node_id retired ≡ false)
      × (project_authority_writable target.node_id taken ≡ true)
      × (taken.authority_generation ≡ row.authority_generation + 1)
unfolding hand_off project_authority_writable
hand_off-ends source target row s t state owner shared = (
  gone source target row s t state owner shared,
  taken source target row s t state owner shared,
  chain source target row s t state owner shared,
  refl,
  simp (t.identity, same_id target.node_id) refl,
  refl,
)

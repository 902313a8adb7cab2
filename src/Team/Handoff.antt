-- ===== src/Team/Handoff.antt =====
-- The authority routes of main.py: how a project's database is handed from one node to another.
use dduo_solo_founder.Prelude.{
  ℕ, ◌+◌, Bool, true, ◌&&◌, ◌||◌, not, Option, none, some, ◌==◌, if◌then◌else◌,
}
use dduo_solo_founder.Prelude.Equality.{option_eq, nat_eq}
use dduo_solo_founder.Work.Store.{RowId, truthy, is_id}
use dduo_solo_founder.Team.Authority.{
  active, transfer_pending, transferred, is_active_state, is_pending, is_transferred, AuthorityRow,
  or_empty,
}
use dduo_solo_founder.Team.Requests.{
  AuthorityError, AuthorityAnswer, answered, ◌>>=◌, ◌>>◌, refuse_if, destination_ready,
  source_finalized, AuthorityReceipt, AuthorityToken, issue, mark_activity, Host,
  require_current_authority_node, mark_dirty, project_transfer_receipt, same_receipt, verified,
  authority_secret, verified_transfer_receipt, manager_required, credential_required,
  identity_unavailable, generation_changed, not_active, already_owned, bound_to_another,
  cannot_be_transferred, backup_running, not_pending, source_unavailable, receipt_mismatch,
  not_awaiting, only_active_recovers, no_recovery_needed,
}

-- the end of the route: the owner is set where there is none
abbrev pub claim : RowId → AuthorityRow → Option RowId → AuthorityAnswer AuthorityRow
claim node row none =
    answered (mark_activity (mark_dirty (record row { authority_node_id = some node })))
claim node row (some owner) = refuse_if (not (owner == node)) already_owned >> answered row

unfoldable pub initialize_project_authority :
    Host → RowId → ℕ → AuthorityRow → AuthorityAnswer AuthorityRow
unfolding require_current_authority_node
initialize_project_authority h node expected_generation row =
    refuse_if (not h.has_credential) credential_required
    >> require_current_authority_node h node
    >> refuse_if (not (row.authority_generation == expected_generation)) generation_changed
    >> refuse_if (not (is_active_state row.authority_state)) not_active
    >> claim node row row.authority_node_id

-- `os.getenv("DDUO_NODE_ID", "").strip() or None`
abbrev pub own_id : Host → Option RowId
own_id h = if h.node_id == 0 then none else some h.node_id

-- the owner of a project, filled in where it is missing
abbrev pub claimed : Host → AuthorityRow → AuthorityRow
claimed h row =
    if truthy row.authority_node_id then row else record row { authority_node_id = own_id h }

abbrev pub require_owner : Host → AuthorityRow → AuthorityError → AuthorityAnswer (Unit {0})
require_owner h row missing =
    refuse_if (not (truthy row.authority_node_id)) missing
    >> require_current_authority_node h (or_empty row.authority_node_id)

abbrev pub with_nonce : Host → AuthorityRow → AuthorityRow
with_nonce h row =
    if truthy row.authority_transfer_nonce
    then row
    else record row { authority_transfer_nonce = some h.token }

-- the branch of a transfer that is prepared already
unfoldable pub prepare_again : Host → AuthorityRow → AuthorityAnswer AuthorityRow
unfolding require_current_authority_node
prepare_again h row =
    let next = claimed h (with_nonce h row) in
    require_owner h next identity_unavailable >> answered next

unfoldable pub freeze : Host → RowId → AuthorityRow → AuthorityAnswer AuthorityRow
unfolding require_current_authority_node
freeze h target row =
    let next = claimed h row in
    require_owner h next identity_unavailable
    >> answered (
        mark_activity (
          mark_dirty (record next {
            authority_state = transfer_pending;
            authority_target_node_id = some target;
            authority_transfer_nonce = some h.token;
          })))

unfoldable pub prepare_project_transfer :
    Host → ℕ → RowId → AuthorityRow → AuthorityAnswer AuthorityRow
unfolding prepare_again freeze
prepare_project_transfer h expected_generation target row =
    refuse_if (not h.manages) manager_required
    >> refuse_if (not (row.authority_generation == expected_generation)) generation_changed
    >> (if is_pending row.authority_state && is_id row.authority_target_node_id target
        then prepare_again h row
        else refuse_if (is_pending row.authority_state) bound_to_another
          >> refuse_if (not (is_active_state row.authority_state)) cannot_be_transferred
          >> refuse_if h.running_backup backup_running
          >> freeze h target row)

unfoldable pub cancel_project_transfer : Host → ℕ → AuthorityRow → AuthorityAnswer AuthorityRow
unfolding require_current_authority_node
cancel_project_transfer h expected_generation row =
    refuse_if (not h.manages) manager_required
    >> refuse_if
        (not (row.authority_generation == expected_generation)
          || not (is_pending row.authority_state))
        not_pending
    >> require_owner h row source_unavailable
    >> answered (
        mark_activity (
          mark_dirty (record row {
            authority_state = active;
            authority_target_node_id = none;
            authority_transfer_nonce = none;
          })))

-- changes nothing, and answers with a receipt
unfoldable pub activate_transferred_project :
    Host → RowId → ℕ → AuthorityRow → AuthorityAnswer AuthorityToken
unfolding require_current_authority_node project_transfer_receipt
activate_transferred_project h node expected_generation row =
    refuse_if (not h.has_credential) credential_required
    >> require_current_authority_node h node
    >> refuse_if
        (not (is_pending row.authority_state)
          || not (row.authority_generation == expected_generation))
        not_awaiting
    >> refuse_if (not (is_id row.authority_target_node_id node)) bound_to_another
    >> project_transfer_receipt row destination_ready
    >>= λ receipt. issue h receipt

-- the writes of a completed transfer
abbrev pub taken_over : RowId → AuthorityRow → AuthorityRow
taken_over node row = mark_activity (
    mark_dirty (record row {
      authority_node_id = some node;
      authority_target_node_id = none;
      authority_transfer_nonce = none;
      authority_generation = row.authority_generation + 1;
      authority_state = active;
    }))

abbrev pub already_taken : RowId → ℕ → AuthorityRow → Bool
already_taken node expected_generation row =
    is_active_state row.authority_state
    && is_id row.authority_node_id node
    && row.authority_generation == expected_generation + 1

unfoldable pub complete_checked :
    RowId → ℕ → AuthorityRow → AuthorityReceipt → AuthorityAnswer AuthorityRow
unfolding project_transfer_receipt
complete_checked node expected_generation row receipt =
    if already_taken node expected_generation row
      && receipt.project_id == row.project_id
      && receipt.target_node_id == node
      && receipt.source_generation == expected_generation
    then answered row
    else refuse_if
        (not (is_pending row.authority_state)
          || not (row.authority_generation == expected_generation))
        not_awaiting
      >> project_transfer_receipt row source_finalized
      >>= λ expected.
          refuse_if
            (not (same_receipt receipt expected) || not (is_id row.authority_target_node_id node))
            receipt_mismatch
          >> answered (taken_over node row)

unfoldable pub complete_transferred_project :
    Host → RowId → ℕ → Option AuthorityToken → AuthorityRow → AuthorityAnswer AuthorityRow
unfolding require_current_authority_node complete_checked
complete_transferred_project h node expected_generation token row =
    refuse_if (not h.has_credential) credential_required
    >> require_current_authority_node h node
    >> authority_secret h
    >> verified source_finalized h.secret token
    >>= λ receipt. complete_checked node expected_generation row receipt

unfoldable pub recover_project_authority :
    Host → RowId → ℕ → AuthorityRow → AuthorityAnswer AuthorityRow
unfolding require_current_authority_node
recover_project_authority h node expected_generation row =
    refuse_if (not h.has_credential) credential_required
    >> require_current_authority_node h node
    >> (if already_taken node expected_generation row
        then answered row
        else refuse_if (not (is_active_state row.authority_state)) only_active_recovers
          >> refuse_if (not (row.authority_generation == expected_generation)) generation_changed
          >> refuse_if (unowned row.authority_node_id) no_recovery_needed
          >> answered (taken_over node row))
  where
    unowned : Option RowId → Bool
    unowned none = true
    unowned (some owner) = owner == node

abbrev pub finalized : AuthorityReceipt → AuthorityReceipt
finalized receipt = record receipt { kind = source_finalized }

-- a row that is retired already is kept
abbrev pub retire : AuthorityRow → AuthorityRow
retire row =
    if is_transferred row.authority_state
    then row
    else mark_activity (record row { authority_state = transferred })

-- the row that is kept or retired, and the receipt of the answer
unfoldable pub finalize_old_project_authority :
    Host
    → ℕ
    → Option AuthorityToken
    → AuthorityRow
    → AuthorityAnswer (AuthorityRow × AuthorityToken)
unfolding require_current_authority_node verified_transfer_receipt
finalize_old_project_authority h expected_generation token row =
    refuse_if (not h.manages) manager_required
    >> refuse_if
        (not (row.authority_generation == expected_generation)
          || is_active_state row.authority_state)
        not_pending
    >> require_owner h row source_unavailable
    >> verified_transfer_receipt h row token destination_ready
    >>= λ receipt. issue h (finalized receipt) >>= λ token. answered (retire row, token)

-- ===== src/Team/Nodes.antt =====
-- The nodes that hold a database of one project, and what may happen to them: calls of the routes of
-- main.py and restored backups, in any order.
use dduo_solo_founder.Prelude.{
  ℕ, ◌≡◌, true, false, Option, none, some, List, ◌∷◌, ◌==◌, if◌then◌else◌, In,
}
use dduo_solo_founder.Work.Store.{RowId}
use dduo_solo_founder.Team.Authority.{AuthorityRow, is_transferred, project_authority_writable}
use dduo_solo_founder.Team.Handoff.{
  initialize_project_authority, prepare_project_transfer, cancel_project_transfer,
  activate_transferred_project, complete_transferred_project, finalize_old_project_authority,
}
use dduo_solo_founder.Team.Requests.{answered, AuthorityReceipt, AuthorityToken, Host, mark_dirty}

-- the databases by node, and the receipts that the routes have answered
pub record System : Type 0 where
  pub databases : RowId → Option AuthorityRow
  pub receipts : List AuthorityReceipt

abbrev pub put_database :
    RowId → AuthorityRow → (RowId → Option AuthorityRow) → RowId → Option AuthorityRow
put_database i row databases j = if j == i then some row else databases j

abbrev pub add_receipt : Option AuthorityReceipt → List AuthorityReceipt → List AuthorityReceipt
add_receipt none receipts = receipts
add_receipt (some r) receipts = r ∷ receipts

-- Nobody forges a signature: the receipt of a token that is signed with the secret was answered
-- before.
abbrev pub IsAuthentic : RowId → List AuthorityReceipt → Option AuthorityToken → Type 0
IsAuthentic secret receipts none = Unit {0}
IsAuthentic secret receipts (some token) =
    (token.signed_with == secret) ≡ true → In token.receipt receipts

-- One request at a node: the row before and after it, and the receipt of its answer. A recovery after
-- the loss of a node is not among them: it rests on the word of the operator.
pub data NodeRequest (h : Host) (receipts : List AuthorityReceipt) (row : AuthorityRow)
    : AuthorityRow → Option AuthorityReceipt → Type 0 where
  writes :
      project_authority_writable h.node_id row ≡ true
      → NodeRequest h receipts row (mark_dirty row) none
  initializes :
      {next : AuthorityRow} (node : RowId) (expected_generation : ℕ)
      → initialize_project_authority h node expected_generation row ≡ answered next
      → NodeRequest h receipts row next none
  prepares :
      {next : AuthorityRow} (expected_generation : ℕ) (target : RowId)
      → prepare_project_transfer h expected_generation target row ≡ answered next
      → NodeRequest h receipts row next none
  cancels :
      {next : AuthorityRow} (expected_generation : ℕ)
      → cancel_project_transfer h expected_generation row ≡ answered next
      → NodeRequest h receipts row next none
  activates :
      {token : AuthorityToken} (node : RowId) (expected_generation : ℕ)
      → activate_transferred_project h node expected_generation row ≡ answered token
      → NodeRequest h receipts row row (some token.receipt)
  completes :
      {next : AuthorityRow} (node : RowId) (expected_generation : ℕ) (token : Option AuthorityToken)
      → IsAuthentic h.secret receipts token
      → complete_transferred_project h node expected_generation token row ≡ answered next
      → NodeRequest h receipts row next none
  finalizes :
      {next : AuthorityRow} {answer : AuthorityToken} (expected_generation : ℕ)
      (token : Option AuthorityToken)
      → IsAuthentic h.secret receipts token
      → finalize_old_project_authority h expected_generation token row ≡ answered (next, answer)
      → NodeRequest h receipts row next (some answer.receipt)

-- the project's database at node `i` is the node's own
abbrev pub IsOwn : RowId → AuthorityRow → Type 0
IsOwn i row = row.authority_node_id ≡ some i

pub data Step (s : System) : System → Type 0 where
  requested :
      (h : Host) (row : AuthorityRow) {next : AuthorityRow} {issued : Option AuthorityReceipt}
      → s.databases h.node_id ≡ some row
      → NodeRequest h s.receipts row next issued
      → Step s (record {
        databases = put_database h.node_id next s.databases;
        receipts = add_receipt issued s.receipts;
      })
  -- A backup of another node's database, however old it is, is restored on a node that has no
  -- database or one that names another owner. A node that owned the project before still names itself.
  restored :
      (i owner : RowId) (row : AuthorityRow)
      → row.authority_node_id ≡ some owner
      → (owner == 0) ≡ false
      → (owner == i) ≡ false
      → ((mine : AuthorityRow) → s.databases i ≡ some mine → IsOwn i mine → ⊥)
      → Step s (record { databases = put_database i row s.databases; receipts = s.receipts })
  -- A node that is in charge restores a backup of its own database, however old it is, in which it is
  -- in charge too.
  reinstated :
      (i : RowId) (mine row : AuthorityRow)
      → s.databases i ≡ some mine
      → IsOwn i mine
      → is_transferred mine.authority_state ≡ false
      → IsOwn i row
      → is_transferred row.authority_state ≡ false
      → Step s (record { databases = put_database i row s.databases; receipts = s.receipts })

-- any number of steps
pub data Run (s : System) : System → Type 0 where
  at_start : Run s s
  and_then : {t u : System} → Run s t → Step t u → Run s u

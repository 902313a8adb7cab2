-- ===== src/Tests/TeamRuns.antt =====
-- main.py, team.py and authority_receipts.py at two nodes: a project moves from node 1 to node 2.
use dduo_solo_founder.Prelude.{
  ℕ, ◌+◌, ◌≡◌, refl, true, false, none, some, List, [], ◌∷◌, ◌≤◌, arith, length, ◌==◌,
  if◌then◌else◌,
}
use dduo_solo_founder.Prelude.Equality.{list_eq, nat_eq}
use dduo_solo_founder.Context.Text.{Text}
use dduo_solo_founder.Work.Store.{RowId}
use dduo_solo_founder.Team.Authority.{
  active, transfer_pending, transferred, AuthorityRow, project_authority_predicate, writable_by,
  project_authority_writable, authority_predicate-writable,
}
use dduo_solo_founder.Team.Handoff.{
  finalize_old_project_authority, complete_transferred_project, taken_over,
}
use dduo_solo_founder.Team.Requests.{
  answered, refused, AuthorityReceipt, ReceiptKind, destination_ready, source_finalized, Host,
  mark_dirty, mark_activity, AuthorityToken, receipt_mismatch, receipt_invalid,
}
use dduo_solo_founder.Team.Nodes.{System, put_database}
use dduo_solo_founder.Team.OneWriter.{IsWritable}
use dduo_solo_founder.Team.Completes.{hand_off, CanHandOff, hand_off-ends}
use dduo_solo_founder.Team.Encoding.{encoded, decoded, decoded-encoded}
use dduo_solo_founder.Team.Tokens.{sign_token, check_token, check_token-sign_token}

abbrev pub row_one : AuthorityRow
row_one = record {
  project_id = 5;
  authority_node_id = some 1;
  authority_target_node_id = none;
  authority_transfer_nonce = none;
  authority_generation = 3;
  authority_state = active;
  backup_dirty = false;
  backup_generation = 8;
}

abbrev host_at : RowId → RowId → Host
host_at node token = record {
  manages = true;
  has_credential = true;
  node_id = node;
  secret = 4;
  running_backup = false;
  token = token;
}

abbrev row_frozen : AuthorityRow
row_frozen = mark_activity (
    mark_dirty (record row_one {
      authority_state = transfer_pending;
      authority_target_node_id = some 2;
      authority_transfer_nonce = some 77;
    }))

abbrev receipt_of : ReceiptKind → AuthorityReceipt
receipt_of kind = record {
  kind = kind;
  project_id = 5;
  source_node_id = 1;
  target_node_id = 2;
  source_generation = 3;
  nonce = 77;
}

abbrev token_of : ReceiptKind → AuthorityToken
token_of kind = record { receipt = receipt_of kind; signed_with = 4 }

abbrev row_retired : AuthorityRow
row_retired = mark_activity (record row_frozen { authority_state = transferred })

retired :
    finalize_old_project_authority (host_at 1 0) 3 (some (token_of destination_ready)) row_frozen
    ≡ answered (row_retired, token_of source_finalized)
unfolding finalize_old_project_authority
retired = refl

completed :
    complete_transferred_project (host_at 2 0) 2 3 (some (token_of source_finalized)) row_frozen
    ≡ answered (taken_over 2 row_frozen)
unfolding complete_transferred_project
completed = refl

-- A cancelled transfer's receipt does not complete another one.
old_receipt_refused :
    complete_transferred_project
      (host_at 2 0)
      2
      3
      (some (token_of source_finalized))
      (record row_frozen { authority_transfer_nonce = some 78 })
    ≡ refused receipt_mismatch
unfolding complete_transferred_project
old_receipt_refused = refl

-- nor does one that another secret signed
other_secret_refused :
    complete_transferred_project
      (host_at 2 0)
      2
      3
      (some (record { receipt = receipt_of source_finalized; signed_with = 5 }))
      row_frozen
    ≡ refused receipt_invalid
unfolding complete_transferred_project
other_secret_refused = refl

abbrev moved : System
moved = record {
  databases = put_database 2 (taken_over 2 row_frozen) (
      put_database 1 row_retired (
        put_database 2 row_frozen (
          put_database 2 row_frozen
            (put_database 1 row_frozen (put_database 1 row_one (λ j. none))))));
  receipts = receipt_of source_finalized ∷ receipt_of destination_ready ∷ [];
}

-- Why a restore on a node that gave the project away is no step: with its own old backup it would
-- write again, beside the new node.
abbrev brought_back : System
brought_back = record {
  databases = put_database 1 row_one moved.databases;
  receipts = moved.receipts;
}

both-IsWritable : IsWritable brought_back 1 × IsWritable brought_back 2
unfolding project_authority_writable
both-IsWritable = (
  record { row = row_one; stored = refl; writable = refl },
  record { row = taken_over 2 row_frozen; stored = refl; writable = refl },
)

abbrev node_two : RowId
node_two = 2

source_can : CanHandOff (host_at 1 77)
source_can = record {
  manager = refl;
  credential = refl;
  identity = refl;
  secret = refl;
  idle = refl;
  fresh = refl;
}

target_can : CanHandOff (host_at 2 6)
target_can = record {
  manager = refl;
  credential = refl;
  identity = refl;
  secret = refl;
  idle = refl;
  fresh = refl;
}

hand_off-ends_example :
    (retired : AuthorityRow) × (taken : AuthorityRow) × (hand_off
        (host_at 1 77)
        (host_at 2 6)
        row_one
      ≡ answered (retired, taken))
    × (project_authority_writable 1 retired ≡ false)
    × (project_authority_writable 2 taken ≡ true)
    × (taken.authority_generation ≡ 3 + 1)
hand_off-ends_example =
    hand_off-ends (host_at 1 77) (host_at 2 6) row_one source_can target_can refl refl refl

-- 9 stands for the text of node 1 with a space behind it
abbrev strip_space : RowId → RowId
strip_space i = if i == 9 then 1 else i

authority_predicate-writable_example :
    project_authority_predicate 1 row_one ≡ writable_by strip_space 1 row_one
authority_predicate-writable_example =
    authority_predicate-writable strip_space 1 row_one (refl, refl)

-- an owner that is the empty text, or has a space behind it: the routes let the project be written, no
-- worker claims its events
other_owners :
    (project_authority_predicate 1 (record row_one { authority_node_id = some 0 }) ≡ false)
    × (writable_by strip_space 1 (record row_one { authority_node_id = some 0 }) ≡ true)
    × (project_authority_predicate 1 (record row_one { authority_node_id = some 9 }) ≡ false)
    × (writable_by strip_space 1 (record row_one { authority_node_id = some 9 }) ≡ true)
unfolding project_authority_predicate writable_by
other_owners = (refl, refl, refl, refl)

-- a digest for the tests
abbrev digest : List ℕ → List ℕ → List ℕ
digest secret message = 7 ∷ 250 ∷ []

abbrev token : Text
token = sign_token digest (1 ∷ []) (0xff ∷ 0 ∷ 9 ∷ 200 ∷ [])

decoded-encoded_example :
    decoded (encoded (0xff ∷ 0 ∷ 9 ∷ 200 ∷ [])) ≡ some (0xff ∷ 0 ∷ 9 ∷ 200 ∷ [])
decoded-encoded_example =
    decoded-encoded 0xff (0 ∷ 9 ∷ 200 ∷ [])
      (omega arith, (omega arith, (omega arith, (omega arith, tt))))

token_short : length token ≤ 2048
unfolding sign_token
token_short = omega arith

check_token-sign_token_example : check_token digest (1 ∷ []) token ≡ some (0xff ∷ 0 ∷ 9 ∷ 200 ∷ [])
check_token-sign_token_example =
    check_token-sign_token digest (1 ∷ []) 0xff (0 ∷ 9 ∷ 200 ∷ []) 7 (250 ∷ []) refl
      (omega arith, (omega arith, (omega arith, (omega arith, tt))))
      (omega arith, (omega arith, tt)) refl token_short

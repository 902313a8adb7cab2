-- ===== src/Team/Authority.antt =====
-- The authority columns of a project and the fence on its writes, from models.py and team.py.
use dduo_solo_founder.Prelude.{
  ℕ, ◌≡◌, Bool, true, false, ◌&&◌, ◌||◌, Option, none, some, ◌==◌, arith,
}
use dduo_solo_founder.Work.Store.{RowId}

pub data AuthorityState : Type 0 where
  active transfer_pending transferred : AuthorityState

abbrev pub is_active_state : AuthorityState → Bool
is_active_state active = true
is_active_state transfer_pending = false
is_active_state transferred = false

abbrev pub is_pending : AuthorityState → Bool
is_pending active = false
is_pending transfer_pending = true
is_pending transferred = false

abbrev pub is_transferred : AuthorityState → Bool
is_transferred active = false
is_transferred transfer_pending = false
is_transferred transferred = true

-- 0 stands for the empty text. The routes write ids that match a pattern without spaces, and
-- `own_id`, which is stripped, so that they read their own values without stripping them again.
pub record AuthorityRow : Type 0 where
  pub project_id : RowId
  pub authority_node_id : Option RowId
  pub authority_target_node_id : Option RowId
  pub authority_transfer_nonce : Option RowId
  pub authority_generation : ℕ
  pub authority_state : AuthorityState
  pub backup_dirty : Bool
  pub backup_generation : ℕ

-- `(value or "").strip()`
abbrev pub or_empty : Option RowId → RowId
or_empty none = 0
or_empty (some i) = i

-- The fence, with `strip` for the owner. `node` is the environment's `DDUO_NODE_ID`, stripped.
unfoldable pub writable_by : (RowId → RowId) → RowId → AuthorityRow → Bool
writable_by strip node row =
    let owner = strip (or_empty row.authority_node_id) in
    is_active_state row.authority_state && (owner == 0 || owner == node)

-- the fence on the ids that the routes write, which have no spaces to strip
unfoldable pub project_authority_writable : RowId → AuthorityRow → Bool
project_authority_writable node row =
    let owner = or_empty row.authority_node_id in
    is_active_state row.authority_state && (owner == 0 || owner == node)

abbrev pub owns : RowId → Option RowId → Bool
owns node none = true
owns node (some i) = i == node

-- the same test as the SQL condition of a worker's claim
unfoldable pub project_authority_predicate : RowId → AuthorityRow → Bool
project_authority_predicate node row =
    is_active_state row.authority_state && owns node row.authority_node_id

claim_allowed :
    (a : Bool) (node : RowId) (owner : Option RowId)
    → (a && owns node owner) ≡ true
    → (a && (or_empty owner == 0 || or_empty owner == node)) ≡ true
claim_allowed a node none h = ground arith
claim_allowed a node (some i) h = ground arith

-- where the SQL condition of a worker's claim holds, the fence of the routes lets the project be
-- written
pub predicate_writable :
    (node : RowId) (row : AuthorityRow)
    → project_authority_predicate node row ≡ true
    → project_authority_writable node row ≡ true
unfolding project_authority_predicate project_authority_writable
predicate_writable node row =
    claim_allowed (is_active_state row.authority_state) node row.authority_node_id

-- the owner is an id that `strip` leaves alone, and not the empty text
abbrev pub IsPlain : (RowId → RowId) → Option RowId → Type 0
IsPlain strip none = strip 0 ≡ 0
IsPlain strip (some i) = (strip i ≡ i) × ((i == 0) ≡ false)

agree :
    (strip : RowId → RowId) (a : Bool) (node : RowId) (owner : Option RowId)
    → IsPlain strip owner
    → (a && owns node owner)
      ≡ (a && (strip (or_empty owner) == 0 || strip (or_empty owner) == node))
agree strip a node none plain = rw plain (ground arith)
agree strip a node (some i) (plain, set) = rw plain (ground arith)

-- The SQL condition of a worker's claim and the fence of the routes agree on every project that has
-- no owner, or one whose id is not the empty text and has no spaces around it.
pub authority_predicate-writable :
    (strip : RowId → RowId) (node : RowId) (row : AuthorityRow)
    → IsPlain strip row.authority_node_id
    → project_authority_predicate node row ≡ writable_by strip node row
unfolding project_authority_predicate writable_by
authority_predicate-writable strip node row =
    agree strip (is_active_state row.authority_state) node row.authority_node_id

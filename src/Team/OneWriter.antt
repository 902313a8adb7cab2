-- ===== src/Team/OneWriter.antt =====
-- No order of requests and restored backups makes two nodes writable: the routes of main.py and the
-- fence of team.py.
use dduo_solo_founder.Prelude.{◌≡◌, true, none, some, []}
use dduo_solo_founder.Work.Store.{RowId}
use dduo_solo_founder.Team.Authority.{AuthorityRow, project_authority_writable}
use dduo_solo_founder.Team.Nodes.{System, put_database}

-- the node accepts writes to the project
pub record IsWritable (s : System) (i : RowId) : Type 0 where
  pub row : AuthorityRow
  pub stored : s.databases i ≡ some row
  pub writable : project_authority_writable i row ≡ true

-- one node with its database, and no receipts
abbrev pub founded : RowId → AuthorityRow → System
founded i row = record { databases = put_database i row (λ j. none); receipts = [] }

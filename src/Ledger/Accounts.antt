-- ===== src/Ledger/Accounts.antt =====
-- The accounts of the ledger: what the requests hold and have written, against the tables `serves`
-- and `transmitted`.
pub mod Tally
pub mod Rows
pub mod Opening
pub mod Closing
pub mod Writing
pub mod Steps
pub mod Progressing
pub mod Settling
pub mod Emptying
pub mod History
pub mod Reserving
use aim_data_gateway.Prelude.{ℕ, suc, min, ◌+◌, ◌≤◌, ◌<◌, ◌≡◌, List, [], ◌∷◌, All}
use aim_data_gateway.Segment.{count_at}
use aim_data_gateway.Segment.Runs.{IsRuns}
use aim_data_gateway.Segment.Normalize.{AllOnes}
use aim_data_gateway.Ledger.State.{PermissionRow, RequestRow, Table, Db}
use Tally.{HasOwner, IdsDescend, held, written}

-- A response writes a part of its range from the start on.
abbrev pub IsWithin : RequestRow → Type 0
IsWithin r = (r.start ≤ r.next) × (r.next ≤ r.end + 1)

-- The books of every order and file balance: both tables are stored runs; no byte has more than two
-- serves; what the requests hold is counted as served; and a byte is transmitted exactly if a request
-- has written it.
pub record Balanced (ps : List PermissionRow) (serves transmitted : Table) (rs : List RequestRow)
    : Type 0 where
  pub serves_runs : (o f : ℕ) → IsRuns (serves o f)
  pub serves_cap : (o f x : ℕ) → count_at (serves o f) x ≤ 2
  pub transmitted_runs : (o f : ℕ) → IsRuns (transmitted o f)
  pub transmitted_ones : (o f : ℕ) → AllOnes (transmitted o f)
  pub held_served : (o f x : ℕ) → held ps o f rs x ≤ count_at (serves o f) x
  pub written_transmitted : (o f x : ℕ) → count_at (transmitted o f) x ≡ min 1 (written ps o f rs x)
  pub within : All IsWithin rs
  pub ids : IdsDescend rs
  pub owners : All (HasOwner ps) rs

abbrev pub IsBalanced : Db → Type 0
IsBalanced db = Balanced db.permissions db.serves db.transmitted db.requests

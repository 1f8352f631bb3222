-- ===== src/Gateway.antt =====
-- The gateway process, internal/gateway/gateway.go: how receipts pass from the ledger's outbox into the
-- audit log, and the rotation of pinned keys.
pub mod Poll
pub mod Runs
pub mod Delivery
pub mod History
pub mod Progress
pub mod Keys
pub mod Rotation
pub mod Separation
pub mod Bootstrap
pub mod Offers
use aim_data_gateway.Prelude.{ℕ, suc, ◌+◌, Bool, List, [], ◌∷◌, length}
use aim_data_gateway.Ledger.State.{Db}

-- An entry of the audit log: a receipt, by its number, or another message.
pub data Logged : Type 0 where
  receipt : ℕ → Logged
  other : Logged

-- The fields of `Gateway` that `Poll` uses. The log is what its files hold, the newest entry first,
-- so that the number of an entry is how many there are from it on.
pub record Gateway : Type 0 where
  pub ledger : Db
  pub log : List Logged
  pub log_failed : Bool
  pub unmarked_receipt : ℕ
  pub unmarked_audit : ℕ

-- What becomes of a call of `Append`: the entry is stored; the call is refused; or a write fails, which
-- fails the log, with the entry lost or found again when the log is opened.
pub data Appending : Type 0 where
  kept refused lost found : Appending

-- One round of `Poll`: its `Append`, and whether its update of the ledger succeeds.
pub record Round : Type 0 where
  pub appending : Appending
  pub marked : Bool

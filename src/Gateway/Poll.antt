-- ===== src/Gateway/Poll.antt =====
-- `Open`, `Poll`, `Delivered` and `Reconcile` of internal/gateway/gateway.go, as far as they move
-- receipts.
use aim_data_gateway.Prelude.{
  ℕ, suc, Bool, true, false, not, List, [], ◌∷◌, length, ◌==◌, if◌then◌else◌,
}
use aim_data_gateway.Ledger.State.{Db, OutboxRow}
use aim_data_gateway.Ledger.Receipt.{
  pending_receipts, mark_receipt_audited, reconcile_receipts, mark_receipt_delivered,
}
use aim_data_gateway.Gateway.{
  Gateway, Logged, receipt, other, Appending, kept, refused, lost, found, Round,
}

-- `MarkReceiptAudited` succeeds, and the receipt is no longer unmarked.
abbrev pub mark : ℕ → ℕ → Gateway → Gateway
mark seq audit_seq g = record g {
  ledger = mark_receipt_audited g.ledger seq audit_seq;
  unmarked_receipt = 0;
}

-- The entry of a receipt is in the log: mark it in the ledger, or remember that it is not.
abbrev pub after_append : Bool → ℕ → Gateway → Bool × Gateway
after_append true seq g =
    let number = suc (length g.log) in
    (true, mark seq number (record g { log = receipt seq ∷ g.log; unmarked_audit = number }))
after_append false seq g = (
  false,
  record g {
    log = receipt seq ∷ g.log;
    unmarked_receipt = seq;
    unmarked_audit = suc (length g.log);
  },
)

abbrev pub append_receipt : Appending → Bool → ℕ → Gateway → Bool × Gateway
append_receipt kept marked seq g = after_append marked seq g
append_receipt refused marked seq g = (false, g)
append_receipt lost marked seq g = (false, record g { log_failed = true })
append_receipt found marked seq g =
    (false, record g { log = receipt seq ∷ g.log; log_failed = true })

abbrev pub mark_unmarked : Bool → ℕ → Gateway → Bool × Gateway
mark_unmarked true seq g = (true, mark seq g.unmarked_audit g)
mark_unmarked false seq g = (false, g)

-- The body of the loop of `Poll`, and whether the loop goes on.
unfoldable pub poll_receipt : Round → OutboxRow → Gateway → Bool × Gateway
poll_receipt round r g =
    if g.unmarked_receipt == r.seq
    then mark_unmarked round.marked r.seq g
    else if not (r.body.seq == r.seq)
    then (false, g)
    else if g.log_failed
    then (false, g)
    else append_receipt round.appending round.marked r.seq g

abbrev pub poll_on : (Gateway → Gateway) → Bool × Gateway → Gateway
poll_on rest (true, g) = rest g
poll_on rest (false, g) = g

-- A round for each receipt that is queued; the context ends with the rounds.
unfoldable pub poll_queued : List Round → List OutboxRow → Gateway → Gateway
poll_queued [] queued g = g
poll_queued (round ∷ rounds) [] g = g
poll_queued (round ∷ rounds) (r ∷ queued) g =
    poll_on (poll_queued rounds queued) (poll_receipt round r g)

-- `Poll`
unfoldable pub poll : List Round → Gateway → Gateway
poll rounds g = poll_queued rounds (pending_receipts g.ledger) g

-- `Open`: the log is walked, oldest entry first, and every receipt in it is marked.
unfoldable pub mark_logged : List Logged → Db → Db
mark_logged [] db = db
mark_logged (receipt seq ∷ older) db =
    mark_receipt_audited (mark_logged older db) seq (suc (length older))
mark_logged (other ∷ older) db = mark_logged older db

unfoldable pub open_gateway : List Logged → Db → Gateway
open_gateway log db = record {
  ledger = mark_logged log db;
  log = log;
  log_failed = false;
  unmarked_receipt = 0;
  unmarked_audit = 0;
}

-- `Delivered` of a receipt, and `Reconcile`.
unfoldable pub delivered : ℕ → ℕ → Gateway → Gateway
delivered seq stamp g = record g { ledger = mark_receipt_delivered g.ledger seq stamp }

unfoldable pub reconcile : ℕ → ℕ → Gateway → Gateway
reconcile seq stamp g = record g { ledger = reconcile_receipts g.ledger seq stamp }

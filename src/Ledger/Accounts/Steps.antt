-- ===== src/Ledger/Accounts/Steps.antt =====
-- The books over `Reserve` and `queueTx` (internal/ledger/ledger.go).
use aim_data_gateway.Prelude.{ℕ, ◌≡◌, refl, Bool, arith}
use aim_data_gateway.Prelude.Int.{ℤ, pos_part}
use aim_data_gateway.Prelude.Result.{ok, tx_inv}
use aim_data_gateway.Ledger.State.{Permission, Outcome, Db, segments}
use aim_data_gateway.Ledger.Receipt.{queued_outcome, queue_receipt, queue_tx}
use aim_data_gateway.Ledger.Reserve.{Request, reserve_tx, reserve}
use aim_data_gateway.Ledger.Reserve.Clip.{clip_bounds, clip-below_two}
use aim_data_gateway.Ledger.Reserve.Effect.{
  reserve_tx-Reserved, reserve_range-bounds, bind_permission-owner, reserved_db, opened_row,
  reserved_eq, Keeps-bind_permission,
}
use aim_data_gateway.Ledger.Accounts.{IsBalanced}
use aim_data_gateway.Ledger.Accounts.Opening.{Balanced-open}

-- The four tables of the books are those of the other state.
abbrev pub SameBooks : Db → Db → Type 0
SameBooks db db' =
    (db'.permissions ≡ db.permissions)
    × (db'.serves ≡ db.serves)
    × (db'.transmitted ≡ db.transmitted)
    × (db'.requests ≡ db.requests)

pub SameBooks-IsBalanced : (db db' : Db) → SameBooks db db' → IsBalanced db → IsBalanced db'
SameBooks-IsBalanced db db' same books = rw (same.0, same.1, same.2, same.3) books

queue_receipt-SameBooks :
    (key_ok : Bool) (stamp oid fid : ℕ) (o : Outcome) (db db' : Db)
    → queue_receipt key_ok stamp oid fid o db ≡ ok db'
    → SameBooks db db'
unfolding queue_receipt
queue_receipt-SameBooks key_ok stamp oid fid o db db' h = ground arith

pub queue_tx-SameBooks :
    (key_ok : Bool) (stamp oid fid : ℕ) (o : Outcome) (complete : Bool) (db db' : Db)
    → queue_tx key_ok stamp oid fid o complete db ≡ ok db'
    → SameBooks db db'
unfolding queue_tx
queue_tx-SameBooks key_ok stamp oid fid o complete db db' h =
    ground (arith, queue_receipt-SameBooks key_ok stamp oid fid (queued_outcome o complete) db db')

-- The next state of a successful reservation balances.
reserve_tx-IsBalanced :
    (db : Db) (p : Permission) (start end : ℤ) (now stamp : ℕ) (req : Request) (db' : Db)
    → IsBalanced db
    → reserve_tx db p start end now stamp ≡ ok (req, db')
    → IsBalanced db'
unfolding segments
reserve_tx-IsBalanced db p start end now stamp req db' books h =
    let done = reserve_tx-Reserved db p start end now stamp req db' h in
    let plan = done.plan in
    let (at_start, ordered, clipped) = reserve_range-bounds db p start end plan done.ranged in
    let (row, owned, eo, ef, live) = bind_permission-owner db p stamp now done.guarded in
    let committed : db' ≡ reserved_db db p stamp plan =
      reserved_eq db p stamp plan req db' (books.serves_runs p.order_id p.file_id) done.applied in
    rw committed (
      Balanced-open db.permissions _ db.serves db.transmitted db.requests books
        (Keeps-bind_permission db.permissions p stamp) (opened_row db p plan) row p.order_id
        p.file_id owned eo ef refl refl refl
        (clip_bounds _ plan.start (pos_part end) plan.end ordered clipped).0
        (λ x a b.
          clip-below_two _ plan.start (pos_part end) plan.end x
            (books.serves_runs p.order_id p.file_id) ordered clipped a b))

-- Whatever `Reserve` answers, the books balance after it.
pub reserve-IsBalanced :
    (db : Db) (p : Permission) (start end : ℤ) (now stamp : ℕ)
    → IsBalanced db
    → IsBalanced (reserve db p start end now stamp).1
unfolding reserve
reserve-IsBalanced db p start end now stamp books =
    tx_inv IsBalanced db (reserve_tx db p start end now stamp) books
      (λ req db' h. reserve_tx-IsBalanced db p start end now stamp req db' books h)

-- ===== src/Ledger/Accounts/History.antt =====
-- Histories of the ledger (internal/ledger/ledger.go): reservations, writes, settlements, crashes and
-- control instructions in any order.
use aim_data_gateway.Prelude.{
  ℕ, min, ◌≤◌, ◌<◌, ◌≡◌, refl, subst, inl, inr, Bool-cases, Bool, some, List, [], length, arith,
}
use aim_data_gateway.Prelude.Query.{exists}
use aim_data_gateway.Prelude.Int.{ℤ}
use aim_data_gateway.Segment.{count_at}
use aim_data_gateway.Ledger.State.{Permission, RequestRow, FileRow, OfferRow, Outcome, Db}
use aim_data_gateway.Ledger.Receipt.{
  mark_receipt_audited, reconcile_receipts, reset_receipt_delivery, mark_receipt_delivered,
}
use aim_data_gateway.Ledger.Reserve.{reserve}
use aim_data_gateway.Ledger.Settle.{
  finish_empty, progress, settle_outcome, recover_request, recover,
}
use aim_data_gateway.Ledger.Control.{
  seen, put_file, mark_changed, mark_missing, set_changed, put_offer, pending_approval, was_seen,
  approve, close_expired, revoke, revoke_instruction,
}
use aim_data_gateway.Ledger.Write.{Round, Written, write_chunk}
use aim_data_gateway.Ledger.Write.Laws.{write_chunk-IsDone, close_expired-IsBalanced}
use aim_data_gateway.Ledger.Accounts.{IsBalanced, IsWithin}
use aim_data_gateway.Ledger.Accounts.Tally.{tally, holds, wrote, held, written}
use aim_data_gateway.Ledger.Accounts.Rows.{tally-le}
use aim_data_gateway.Ledger.Accounts.Steps.{reserve-IsBalanced}
use aim_data_gateway.Ledger.Accounts.Progressing.{progress-IsBalanced}
use aim_data_gateway.Ledger.Accounts.Settling.{
  settle_outcome-IsBalanced, recover_request-IsBalanced, recover-IsBalanced,
}
use aim_data_gateway.Ledger.Accounts.Emptying.{
  finish_empty-IsBalanced, revoke_tx-IsBalanced, revoke_instruction-IsBalanced,
}

-- One call of the ledger that changes its state, with any arguments.
pub data Step (db : Db) : Db → Type 0 where
  reserving :
      (p : Permission) (start end : ℤ) (now stamp : ℕ)
      → Step db (reserve db p start end now stamp).1
  emptying :
      (p : Permission) (key_ok : Bool) (now stamp : ℕ)
      → Step db (finish_empty db p key_ok now stamp).1
  progressing : (key_ok : Bool) (stamp id n : ℕ) → Step db (progress db key_ok stamp id n).1
  writing :
      (key_ok : Bool) (stamp id len first : ℕ) (rounds : List Round) (now : ℕ) (w : Written)
      → len < length rounds
      → write_chunk db key_ok stamp id len first rounds now ≡ some w
      → Step db w.db
  settling :
      (key_ok : Bool) (stamp id : ℕ) (o : Outcome) → Step db (settle_outcome db key_ok stamp id o).1
  recovering_request :
      (key_ok : Bool) (stamp id : ℕ) → Step db (recover_request db key_ok stamp id).1
  recovering : (key_ok : Bool) (stamp : ℕ) → Step db (recover db key_ok stamp).1
  seeing : (iid : ℕ) → Step db (seen db iid).1
  putting_file : (f : FileRow) → Step db (put_file db f)
  marking_changed : (fid : ℕ) → Step db (mark_changed db fid)
  marking_missing : (fid : ℕ) → Step db (mark_missing db fid)
  putting_offer : (o : OfferRow) → Step db (put_offer db o)
  approving : (fid sha lvid stamp : ℕ) → Step db (approve db fid sha lvid stamp).1
  expiring : (at stamp : ℕ) → Step db (close_expired db at stamp)
  revoking : (jti now : ℕ) → Step db (revoke db jti now).1
  instructed : (iid jti now : ℕ) → Step db (revoke_instruction db iid jti now).1
  auditing : (seq audit_seq : ℕ) → Step db (mark_receipt_audited db seq audit_seq)
  reconciling : (seq stamp : ℕ) → Step db (reconcile_receipts db seq stamp)
  resetting : Step db (reset_receipt_delivery db)
  delivering : (seq stamp : ℕ) → Step db (mark_receipt_delivered db seq stamp)

pub data Reach (s : Db) : Db → Type 0 where
  here : Reach s s
  next : {t u : Db} → Reach s t → Step t u → Reach s u

-- The schema before anything is stored.
abbrev pub empty_db : Db
empty_db = record {
  offers = [];
  seen = [];
  files = [];
  permissions = [];
  serves = λ o f. [];
  transmitted = λ o f. [];
  requests = [];
  revocations = [];
  answers = [];
  outbox = [];
  audited = [];
  completed = [];
}

-- Each call of the ledger, with any arguments and whatever it answers, leads from balanced books to
-- balanced books.
pub Step-IsBalanced : (db db' : Db) → IsBalanced db → Step db db' → IsBalanced db'
unfolding seen was_seen put_file set_changed mark_changed mark_missing put_offer approve revoke
    mark_receipt_audited reconcile_receipts reset_receipt_delivery mark_receipt_delivered
Step-IsBalanced db db' b (reserving p start end now stamp) =
    reserve-IsBalanced db p start end now stamp b
Step-IsBalanced db db' b (emptying p key_ok now stamp) =
    finish_empty-IsBalanced db p key_ok now stamp b
Step-IsBalanced db db' b (progressing key_ok stamp id n) =
    progress-IsBalanced db key_ok stamp id n b
Step-IsBalanced db db' b (writing key_ok stamp id len first rounds now w short e) =
    let (v, returned, good) = write_chunk-IsDone db key_ok stamp len rounds now b short id first in
    let same : v ≡ w = ground arith in subst (λ (u : Written). IsBalanced u.db) same good.books
Step-IsBalanced db db' b (settling key_ok stamp id o) =
    settle_outcome-IsBalanced db key_ok stamp id o b
Step-IsBalanced db db' b (recovering_request key_ok stamp id) =
    recover_request-IsBalanced db key_ok stamp id b
Step-IsBalanced db db' b (recovering key_ok stamp) = recover-IsBalanced db key_ok stamp b
Step-IsBalanced db db' b (seeing iid) = elim (Bool-cases (was_seen db iid)) [
  | inl old ↦ rw old b
  | inr new ↦ rw new b
]
Step-IsBalanced db db' b (putting_file f) = b
Step-IsBalanced db db' b (marking_changed fid) = b
Step-IsBalanced db db' b (marking_missing fid) = b
Step-IsBalanced db db' b (putting_offer o) = b
Step-IsBalanced db db' b (approving fid sha lvid stamp) =
    elim (Bool-cases (exists (pending_approval fid sha lvid) db.offers)) [
      | inl pending ↦ rw pending b
      | inr none_pending ↦ rw none_pending b
    ]
Step-IsBalanced db db' b (expiring at stamp) = close_expired-IsBalanced db at stamp b
Step-IsBalanced db db' b (revoking jti now) = revoke_tx-IsBalanced db jti now b
Step-IsBalanced db db' b (instructed iid jti now) = revoke_instruction-IsBalanced db iid jti now b
Step-IsBalanced db db' b (auditing seq audit_seq) = b
Step-IsBalanced db db' b (reconciling seq stamp) = b
Step-IsBalanced db db' b resetting = b
Step-IsBalanced db db' b (delivering seq stamp) = b

empty_db-IsBalanced : IsBalanced empty_db
unfolding count_at tally
empty_db-IsBalanced = record {
  serves_runs = λ o f. tt;
  serves_cap = λ o f x. omega arith;
  transmitted_runs = λ o f. tt;
  transmitted_ones = λ o f. tt;
  held_served = λ o f x. omega arith;
  written_transmitted = λ o f x. refl;
  within = tt;
  ids = tt;
  owners = tt;
}

-- In every state that the ledger reaches from the empty schema the books balance.
pub Reach-IsBalanced : (db : Db) → Reach empty_db db → IsBalanced db
Reach-IsBalanced db here = empty_db-IsBalanced
Reach-IsBalanced db (next {t} past step) = Step-IsBalanced t db (Reach-IsBalanced t past) step

wrote-holds : (x : ℕ) (r : RequestRow) → IsWithin r → wrote r x ≤ holds r x
wrote-holds x r w = ground arith

pub written-held :
    (db : Db) (o f x : ℕ)
    → IsBalanced db
    → written db.permissions o f db.requests x ≤ held db.permissions o f db.requests x
written-held db o f x b =
    tally-le wrote holds db.permissions o f x db.requests (wrote-holds x) b.within

-- In every state reached from the empty schema, the responses of one order and file that have
-- recorded a byte as written are at most those that hold it, and these are at most two; a byte is
-- in the transmitted rows exactly if one has recorded it, and then it is counted as served.
pub held-two :
    (db : Db) (o f x : ℕ)
    → Reach empty_db db
    → (written db.permissions o f db.requests x ≤ held db.permissions o f db.requests x)
      × (held db.permissions o f db.requests x ≤ 2)
      × (count_at (db.transmitted o f) x ≡ min 1 (written db.permissions o f db.requests x))
      × (count_at (db.transmitted o f) x ≤ count_at (db.serves o f) x)
held-two db o f x past =
    let b = Reach-IsBalanced db past in
    let first = written-held db o f x b in
    let served = b.held_served o f x in
    let cap = b.serves_cap o f x in
    let sent = b.written_transmitted o f x in (first, omega arith, sent, omega arith)

-- ===== src/Ledger/Receipt.antt =====
-- Receipts (internal/ledger/ledger.go): `receiptTx`, `queueTx`, and the outbox of receipts up to
-- their delivery. `key_ok` tells whether the signing key has the size of an ed25519 private key;
-- `stamp` is the value of `now()`.
pub mod Completion
use aim_data_gateway.Prelude.{
  ℕ, suc, ◌+◌, ◌-◌, min, max, Bool, true, false, not, ◌&&◌, ◌||◌, Option, none, some, List, [], ◌∷◌,
  map, ltb, leb, ◌==◌, if◌then◌else◌,
}
use aim_data_gateway.Prelude.Query.{exists, select, update_where}
use aim_data_gateway.Prelude.Result.{
  Result, ok, no_rows, no_key, incomplete_receipt, ◌>>=◌, ◌>>◌, refuse_if, or_err,
}
use aim_data_gateway.Segment.{Segment, sort_points, width, count_bytes}
use aim_data_gateway.Ledger.State.{
  PermissionRow, Outcome, Receipt, OutboxRow, Db, find_file, is_completed, segments,
}

abbrev pub is_complete : Outcome → Bool
is_complete Outcome.complete = true
is_complete _ = false

-- `outcome != "aborted_block_mismatch"`
abbrev pub blocks_are_verified : Outcome → Bool
blocks_are_verified Outcome.aborted_block_mismatch = false
blocks_are_verified _ = true

-- max(0, min(x.b, y.b) - max(x.a, y.a) + 1): the positions that two segments share.
abbrev pub overlap : Segment → Segment → ℕ
overlap x y = min x.b y.b + 1 - max x.a y.a

-- The inner loop over `tr`.
unfoldable pub overlaps : Segment → List Segment → ℕ
overlaps x [] = 0
overlaps x (y ∷ tr) = overlap x y + overlaps x tr

-- Σ over the segments with two serves of what is not transmitted.
unfoldable pub unwritten_bytes : List Segment → List Segment → ℕ
unwritten_bytes [] tr = 0
unwritten_bytes (x ∷ ss) tr =
    let rest = unwritten_bytes ss tr in if x.c == 2 then (width x - overlaps x tr) + rest else rest

-- min(bound_at) and max(closed_at), which skip NULL.
abbrev pub earlier : Option ℕ → Option ℕ → Option ℕ
earlier none b = b
earlier (some a) none = some a
earlier (some a) (some b) = some (min a b)

abbrev pub later : Option ℕ → Option ℕ → Option ℕ
later none b = b
later (some a) none = some a
later (some a) (some b) = some (max a b)

unfoldable pub min_bound_at : List PermissionRow → Option ℕ
min_bound_at [] = none
min_bound_at (p ∷ ps) = earlier p.bound_at (min_bound_at ps)

unfoldable pub max_closed_at : List PermissionRow → Option ℕ
max_closed_at [] = none
max_closed_at (p ∷ ps) = later p.closed_at (max_closed_at ps)

abbrev first_byte : ℕ → ℕ → Option ℕ → Option ℕ
first_byte bytes stamp none = if ltb 0 bytes then some stamp else none
first_byte bytes stamp (some at) = some at

unfoldable pub receipt_tx : ℕ → ℕ → ℕ → Outcome → ℕ → Db → Result Receipt
receipt_tx stamp oid fid outcome seq db = do
  f ← or_err (find_file db fid) no_rows
  let tr = segments db.transmitted oid fid
  let ss = segments db.serves oid fid
  let ps = select (λ (p : PermissionRow). p.oid == oid && p.fid == fid) db.permissions
  let bytes = count_bytes tr
  ok (record {
    order_id = oid;
    file_id = fid;
    sha256 = f.sha;
    size_bytes = f.size;
    jtis = sort_points (map (λ (p : PermissionRow). p.jti) ps);
    transmitted = map (λ (x : Segment). (x.a, x.b)) tr;
    transmitted_bytes = bytes;
    max_serves_reached_bytes = unwritten_bytes ss tr;
    outcome = outcome;
    blocks_verified = blocks_are_verified outcome;
    first_byte_at = first_byte bytes stamp (min_bound_at ps);
    last_byte_at = if ltb 0 bytes then some stamp else max_closed_at ps;
    seq = seq;
  })

-- coalesce(max(seq), 0) + 1
unfoldable pub max_seq : List OutboxRow → ℕ
max_seq [] = 0
max_seq (r ∷ rows) = max r.seq (max_seq rows)

-- `if complete { outcome = "complete" }; if outcome == "" { outcome = "in_progress" }`
abbrev pub queued_outcome : Outcome → Bool → Outcome
queued_outcome o true = Outcome.complete
queued_outcome Outcome.unset false = Outcome.in_progress
queued_outcome o false = o

-- The rest of `queueTx`, past the test for a receipt of completion that exists.
unfoldable pub queue_receipt : Bool → ℕ → ℕ → ℕ → Outcome → Db → Result Db
queue_receipt key_ok stamp oid fid outcome db = do
  let seq = suc (max_seq db.outbox)
  r ← receipt_tx stamp oid fid outcome seq db
  refuse_if
      (is_complete outcome && (not (r.transmitted_bytes == r.size_bytes) || not r.blocks_verified))
      incomplete_receipt
  refuse_if (not key_ok) no_key
  ok (record db {
    outbox = record { seq = seq; body = r; sent_at = none } ∷ db.outbox;
    completed = if is_complete outcome then (oid, fid) ∷ db.completed else db.completed;
  })

unfoldable pub queue_tx : Bool → ℕ → ℕ → ℕ → Outcome → Bool → Db → Result Db
queue_tx key_ok stamp oid fid outcome complete db =
    let o = queued_outcome outcome complete in
    if is_complete o && is_completed db oid fid
    then ok db
    else queue_receipt key_ok stamp oid fid o db

-- coalesce(max(seq), 0) FROM receipts_audited
unfoldable pub max_audited : List (ℕ × ℕ) → ℕ
max_audited [] = 0
max_audited ((s, a) ∷ rows) = max s (max_audited rows)

unfoldable pub insert_queued : OutboxRow → List OutboxRow → List OutboxRow
insert_queued r [] = r ∷ []
insert_queued r (q ∷ qs) = if leb r.seq q.seq then r ∷ q ∷ qs else q ∷ insert_queued r qs

unfoldable pub sort_queued : List OutboxRow → List OutboxRow
sort_queued [] = []
sort_queued (r ∷ rs) = insert_queued r (sort_queued rs)

-- `PendingReceipts`: what lies above the last audited receipt, by sequence number.
unfoldable pub pending_receipts : Db → List OutboxRow
pending_receipts db =
    sort_queued (select (λ (r : OutboxRow). ltb (max_audited db.audited) r.seq) db.outbox)

unfoldable pub put_audited : ℕ → ℕ → List (ℕ × ℕ) → List (ℕ × ℕ)
put_audited seq audit_seq [] = (seq, audit_seq) ∷ []
put_audited seq audit_seq ((s, a) ∷ rows) =
    if s == seq then (s, audit_seq) ∷ rows else (s, a) ∷ put_audited seq audit_seq rows

-- `MarkReceiptAudited`
unfoldable pub mark_receipt_audited : Db → ℕ → ℕ → Db
mark_receipt_audited db seq audit_seq = record db { audited = put_audited seq audit_seq db.audited }

-- An entry of the receipt in the audit log that the other side has, up to `seq`.
abbrev pub acknowledged : List (ℕ × ℕ) → ℕ → OutboxRow → Bool
acknowledged rows seq r = exists (λ (e : ℕ × ℕ). e.0 == r.seq && leb e.1 seq) rows

-- `ReconcileReceipts`: delivery follows the authoritative sequence number.
unfoldable pub reconcile_receipts : Db → ℕ → ℕ → Db
reconcile_receipts db seq stamp = record db {
  outbox =
      map
        (λ (r : OutboxRow). record r {
          sent_at = if acknowledged db.audited seq r then some stamp else none;
        })
        db.outbox;
}

-- `ResetReceiptDelivery`
unfoldable pub reset_receipt_delivery : Db → Db
reset_receipt_delivery db = record db {
  outbox = map (λ (r : OutboxRow). record r { sent_at = none }) db.outbox;
}

abbrev pub unsent : ℕ → OutboxRow → Bool
unsent seq r = r.seq == seq && (elim r.sent_at [ none ↦ true | some _ ↦ false ])

-- `MarkReceiptDelivered`
unfoldable pub mark_receipt_delivered : Db → ℕ → ℕ → Db
mark_receipt_delivered db seq stamp = record db {
  outbox = update_where (unsent seq) (λ r. record r { sent_at = some stamp }) db.outbox;
}

-- ===== src/Ledger/Receipt/Completion.antt =====
-- The receipt of completion (internal/ledger/ledger.go, `queueTx`).
use aim_data_gateway.Prelude.{
  ℕ, suc, ◌<◌, ◌≡◌, refl, sym, ◌∙◌, Bool, true, false, not, ◌||◌, none, some, ◌∷◌, map, arith, ◌==◌,
  ==_iff, inl, inr, Bool-cases,
}
use aim_data_gateway.Prelude.Query.{exists}
use aim_data_gateway.Prelude.Result.{ok, incomplete_receipt, no_key, ◌>>◌, refuse_if, >>=-eq-ok}
use aim_data_gateway.Segment.{Segment, count_at, count_bytes}
use aim_data_gateway.Segment.Runs.{IsRuns, EndsBelow}
use aim_data_gateway.Segment.Normalize.{AllOnes}
use aim_data_gateway.Segment.Bytes.{count_bytes-full}
use aim_data_gateway.Ledger.State.{FileRow, Outcome, Receipt, Db, find_file, is_completed, segments}
use aim_data_gateway.Ledger.Receipt.{receipt_tx, max_seq, queue_receipt, queue_tx}

-- What one call of `queueTx` for a completed transfer adds, for the stored file f.
pub record IsCompletion (oid fid : ℕ) (f : FileRow) (db db' : Db) : Type 0 where
  pub receipt : Receipt
  pub of_order : receipt.order_id ≡ oid
  pub of_file : receipt.file_id ≡ fid
  pub hash : receipt.sha256 ≡ f.sha
  pub size : receipt.size_bytes ≡ f.size
  pub outcome : receipt.outcome ≡ Outcome.complete
  pub number : receipt.seq ≡ suc (max_seq db.outbox)
  pub ranges : receipt.transmitted ≡ map (λ (x : Segment). (x.a, x.b)) (db.transmitted oid fid)
  pub whole : (x : ℕ) → x < f.size → count_at (db.transmitted oid fid) x ≡ 1
  pub next : db' ≡ record db {
    outbox = record { seq = suc (max_seq db.outbox); body = receipt; sent_at = none } ∷ db.outbox;
    completed = (oid, fid) ∷ db.completed;
  }

-- The fields of the receipt of a stored file.
receipt_tx-fields :
    (stamp oid fid seq : ℕ) (db : Db) (f : FileRow) (r : Receipt)
    → find_file db fid ≡ some f
    → receipt_tx stamp oid fid Outcome.complete seq db ≡ ok r
    → (r.order_id ≡ oid)
      × (r.file_id ≡ fid)
      × (r.sha256 ≡ f.sha)
      × (r.size_bytes ≡ f.size)
      × (r.outcome ≡ Outcome.complete)
      × (r.seq ≡ seq)
      × (r.transmitted ≡ map (λ (x : Segment). (x.a, x.b)) (db.transmitted oid fid))
      × (r.transmitted_bytes ≡ count_bytes (db.transmitted oid fid))
unfolding receipt_tx segments
receipt_tx-fields stamp oid fid seq db f r found made = ground (arith, found)

-- The state that `queueTx` commits with the receipt of a completion.
abbrev completed_with : Db → ℕ → ℕ → Receipt → Db
completed_with db oid fid r = record db {
  outbox = record { seq = suc (max_seq db.outbox); body = r; sent_at = none } ∷ db.outbox;
  completed = (oid, fid) ∷ db.completed;
}

committed :
    (key_ok : Bool) (oid fid : ℕ) (r : Receipt) (db db' : Db)
    → (refuse_if
          (not (r.transmitted_bytes == r.size_bytes) || not r.blocks_verified)
          incomplete_receipt
        >> (refuse_if (not key_ok) no_key >> ok (completed_with db oid fid r)))
      ≡ ok db'
    → (r.transmitted_bytes ≡ r.size_bytes) × (db' ≡ completed_with db oid fid r)
committed key_ok oid fid r db db' h = ground (arith, ==_iff r.transmitted_bytes r.size_bytes)

-- For a stored file whose transmitted rows are stored runs that end below its size: where `queueTx` with
-- the completion of a transfer that was not completed succeeds, every byte of the file is transmitted;
-- and it adds one receipt with the next sequence number, which names the order and the file with the
-- stored hash and size and the transmitted ranges, and records the completion, and no other change.
pub queue_tx-IsCompletion :
    (key_ok : Bool) (stamp oid fid : ℕ) (o : Outcome) (db db' : Db) (f : FileRow)
    → IsRuns (db.transmitted oid fid)
    → AllOnes (db.transmitted oid fid)
    → find_file db fid ≡ some f
    → EndsBelow f.size (db.transmitted oid fid)
    → is_completed db oid fid ≡ false
    → queue_tx key_ok stamp oid fid o true db ≡ ok db'
    → IsCompletion oid fid f db db'
unfolding queue_tx queue_receipt
queue_tx-IsCompletion key_ok stamp oid fid o db db' f runs ones found ends fresh h =
    let seq = suc (max_seq db.outbox) in
    let first : queue_receipt key_ok stamp oid fid Outcome.complete db ≡ ok db' =
      ground (arith, fresh) in
    let (r, made, rest) = >>=-eq-ok (receipt_tx stamp oid fid Outcome.complete seq db) _ first in
    let (of_order, of_file, hash, size, outcome, number, ranges, bytes) =
      receipt_tx-fields stamp oid fid seq db f r found made in
    let (whole, next) = committed key_ok oid fid r db db' rest in
    let full = count_bytes-full (db.transmitted oid fid) f.size runs ones ends in
    record {
      receipt = r;
      of_order = of_order;
      of_file = of_file;
      hash = hash;
      size = size;
      outcome = outcome;
      number = number;
      ranges = ranges;
      whole = full.0 (sym bytes ∙ whole ∙ size);
      next = next;
    }

-- The receipt of a stored file that is whole.
receipt_tx-whole :
    (stamp oid fid seq : ℕ) (db : Db) (f : FileRow)
    → find_file db fid ≡ some f
    → count_bytes (db.transmitted oid fid) ≡ f.size
    → (r : Receipt) × (receipt_tx stamp oid fid Outcome.complete seq db ≡ ok r)
      × (r.transmitted_bytes ≡ r.size_bytes)
      × (r.blocks_verified ≡ true)
unfolding receipt_tx segments
receipt_tx-whole stamp oid fid seq db f found bytes = rw found (_, refl, bytes, refl)

-- For a stored file whose transmitted rows are stored runs that end below its size: where every byte of
-- it is transmitted and the signing key has its size, `queueTx` with the completion of a transfer
-- succeeds, and the transfer is completed afterwards.
pub queue_tx-completes :
    (stamp oid fid : ℕ) (o : Outcome) (db : Db) (f : FileRow)
    → IsRuns (db.transmitted oid fid)
    → AllOnes (db.transmitted oid fid)
    → find_file db fid ≡ some f
    → EndsBelow f.size (db.transmitted oid fid)
    → ((x : ℕ) → x < f.size → count_at (db.transmitted oid fid) x ≡ 1)
    → (db' : Db) × (queue_tx true stamp oid fid o true db ≡ ok db')
      × (is_completed db' oid fid ≡ true)
unfolding queue_tx queue_receipt exists
queue_tx-completes stamp oid fid o db f runs ones found ends all =
    let bytes = (count_bytes-full (db.transmitted oid fid) f.size runs ones ends).1 all in
    let (r, made, whole, blocks) =
      receipt_tx-whole stamp oid fid (suc (max_seq db.outbox)) db f found bytes in
    elim (Bool-cases (is_completed db oid fid)) [
      | inl done ↦ (db, rw done refl, done)
      | inr fresh ↦ (
        completed_with db oid fid r,
        ground (arith, fresh, ==_iff r.transmitted_bytes r.size_bytes),
        ground (arith, ==_iff oid oid, ==_iff fid fid),
      )
    ]

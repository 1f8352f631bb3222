-- ===== src/Tests/Receipts.antt =====
-- The receipt of a file of ten bytes that is transmitted whole.
use aim_data_gateway.Prelude.{ℕ, ◌<◌, arith, ◌≡◌, refl, true, none, some, [], ◌∷◌}
use aim_data_gateway.Prelude.Query.{exists, find, select, update_where}
use aim_data_gateway.Prelude.Result.{ok}
use aim_data_gateway.Segment.{insert_point, sort_points, count_at, count_bytes}
use aim_data_gateway.Segment.Runs.{IsRuns}
use aim_data_gateway.Ledger.State.{FileRow, Outcome, Receipt, Db, segments, is_completed}
use aim_data_gateway.Ledger.Control.{put_file, upsert}
use aim_data_gateway.Ledger.Receipt.{
  receipt_tx, max_seq, queue_receipt, queue_tx, queued_outcome, overlaps, unwritten_bytes,
  min_bound_at, max_closed_at,
}
use aim_data_gateway.Ledger.Receipt.Completion.{
  IsCompletion, queue_tx-IsCompletion, queue_tx-completes,
}
use aim_data_gateway.Ledger.Accounts.History.{empty_db}

abbrev a_file : FileRow
a_file = record {
  fid = 3;
  source = [];
  relative_path = [];
  size = 10;
  sha = 5;
  block_hashes = 1 ∷ [];
  display_name = [];
  root = [];
  changed = 0;
}

abbrev pub whole_db : Db
whole_db = record (put_file empty_db a_file) {
  transmitted = λ o f. record { a = 0; b = 9; c = 1 } ∷ [];
}

abbrev a_receipt : Receipt
a_receipt = record {
  order_id = 2;
  file_id = 3;
  sha256 = 5;
  size_bytes = 10;
  jtis = [];
  transmitted = (0, 9) ∷ [];
  transmitted_bytes = 10;
  max_serves_reached_bytes = 0;
  outcome = Outcome.complete;
  blocks_verified = true;
  first_byte_at = some 77;
  last_byte_at = some 77;
  seq = 1;
}

abbrev pub completed_db : Db
completed_db = record whole_db {
  outbox = record { seq = 1; body = a_receipt; sent_at = none } ∷ [];
  completed = (2, 3) ∷ [];
}

completion_run : queue_tx true 77 2 3 Outcome.in_progress true whole_db ≡ ok completed_db
unfolding queue_tx queue_receipt queued_outcome receipt_tx max_seq overlaps unwritten_bytes
    min_bound_at max_closed_at find exists select update_where put_file upsert segments count_bytes
    sort_points insert_point
completion_run = refl

whole_runs : IsRuns (whole_db.transmitted 2 3)
whole_runs = (omega arith, omega arith, tt, tt)

queue_tx-IsCompletion_example : IsCompletion 2 3 a_file whole_db completed_db
unfolding exists find put_file upsert
queue_tx-IsCompletion_example =
    queue_tx-IsCompletion true 77 2 3 Outcome.in_progress whole_db completed_db a_file whole_runs
      (refl, tt) refl (omega arith, tt) refl completion_run

ten_bytes : (x : ℕ) → x < 10 → count_at (whole_db.transmitted 2 3) x ≡ 1
unfolding count_at
ten_bytes x l = ground arith

queue_tx-completes_example :
    (db' : Db) × (queue_tx true 77 2 3 Outcome.in_progress true whole_db ≡ ok db')
    × (is_completed db' 2 3 ≡ true)
unfolding find exists put_file upsert
queue_tx-completes_example =
    queue_tx-completes 77 2 3 Outcome.in_progress whole_db a_file whole_runs (refl, tt) refl
      (omega arith, tt) ten_bytes

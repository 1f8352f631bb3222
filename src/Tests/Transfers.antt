-- ===== src/Tests/Transfers.antt =====
-- A transfer of one file, from its offer to the end of a response.
use aim_data_gateway.Prelude.{
  ◌≤◌, ◌<◌, ◌≡◌, ◌≢◌, ◌↔◌, refl, true, false, none, some, List, [], ◌∷◌, arith, min,
}
use aim_data_gateway.Prelude.Int.{pos, ◌+ℤ◌}
use aim_data_gateway.Prelude.Query.{count, exists, find, update_where}
use aim_data_gateway.Prelude.Result.{ok, err, exhausted, tx}
use aim_data_gateway.Segment.{
  count_at, boundaries, sort_points, insert_point, push_run, shifted, sweep_step, sweep, transform,
  covered, first_untransmitted, count_bytes,
}
use aim_data_gateway.Ledger.State.{
  Permission, FileRow, OfferRow, OfferState, KeyClass, Db, segments, rewrite, rewrite_rows,
  insert_row, max_id,
}
use aim_data_gateway.Ledger.Reserve.{
  Request, reserve, reserve_tx, reserve_guard, reserve_range, reserve_offer, reserve_apply, clip,
  bind_permission,
}
use aim_data_gateway.Ledger.Reserve.Exhaustion.{IsAsked, reserve-exhausted}
use aim_data_gateway.Ledger.Control.{put_file, put_offer, upsert, revoke}
use aim_data_gateway.Ledger.Accounts.{IsBalanced}
use aim_data_gateway.Ledger.Accounts.Tally.{held, written}
use aim_data_gateway.Ledger.Accounts.History.{
  Reach, here, next, putting_file, putting_offer, reserving, empty_db, Reach-IsBalanced, held-two,
  Step-IsBalanced,
}
use aim_data_gateway.Ledger.Accounts.Reserving.{IsServed, reserve-IsServed, revoke-reserve}
use aim_data_gateway.Ledger.Write.{Round, write_chunk}
use aim_data_gateway.Ledger.Write.Laws.{IsDone, write_chunk-IsDone}
use aim_data_gateway.Prelude.Query.{select}
use aim_data_gateway.Ledger.Write.{Written}
use aim_data_gateway.Ledger.State.{valid_blocks}
use aim_data_gateway.Ledger.Prepare.{
  Config, prepare, prepare_refusal, file_refusal, offer_refusal, is_exhausted,
}
use aim_data_gateway.Ledger.Prepare.Readiness.{prepare-IsReady}

abbrev a_file : FileRow
a_file = record {
  fid = 3;
  source = [];
  relative_path = [];
  size = 10;
  sha = 5;
  block_hashes = 1 ∷ [];
  display_name = [];
  root = [];
  changed = 0;
}

abbrev an_offer : OfferRow
an_offer = record {
  fid = 3;
  sha = 5;
  lvid = 4;
  iid = 7;
  state = OfferState.offered;
  approved_locally_at = none;
  key_class = KeyClass.listing;
}

abbrev a_permission : Permission
a_permission = record {
  audience = 1;
  order_id = 2;
  listing_version_id = 4;
  file_id = 3;
  sha256 = 5;
  jti = 6;
  start_deadline = 100;
  transfer_deadline = 200;
  resume_offset = 0;
}

abbrev offered_db : Db
offered_db = put_offer (put_file empty_db a_file) an_offer

offered_db-Reach : Reach empty_db offered_db
offered_db-Reach = next (next here (putting_file a_file)) (putting_offer an_offer)

abbrev served_db : Db
served_db = (reserve offered_db a_permission (pos 2) (pos 9) 50 1).1

served_db-Reach : Reach empty_db served_db
served_db-Reach = next offered_db-Reach (reserving a_permission (pos 2) (pos 9) 50 1)

held-two_example :
    (written served_db.permissions 2 3 served_db.requests 5
      ≤ held served_db.permissions 2 3 served_db.requests 5)
    × (held served_db.permissions 2 3 served_db.requests 5 ≤ 2)
    × (count_at (served_db.transmitted 2 3) 5
        ≡ min 1 (written served_db.permissions 2 3 served_db.requests 5))
    × (count_at (served_db.transmitted 2 3) 5 ≤ count_at (served_db.serves 2 3) 5)
held-two_example = held-two served_db 2 3 5 served_db-Reach

Step-IsBalanced_example : IsBalanced served_db
Step-IsBalanced_example =
    Step-IsBalanced offered_db served_db (Reach-IsBalanced offered_db offered_db-Reach)
      (reserving a_permission (pos 2) (pos 9) 50 1)

abbrev a_request : Request
a_request = record { id = 1; start = 2; end = 9 }

reserve-ok : reserve offered_db a_permission (pos 2) (pos 9) 50 1 ≡ (ok a_request, served_db)
unfolding reserve reserve_tx reserve_guard reserve_range reserve_offer reserve_apply clip
    bind_permission put_file put_offer upsert tx count exists find update_where segments covered
    rewrite rewrite_rows insert_row max_id transform sweep sweep_step shifted count_at boundaries
    sort_points insert_point push_run ◌+ℤ◌
reserve-ok = refl

reserve-IsServed_example : IsServed offered_db served_db a_permission (pos 2) (pos 9) a_request
reserve-IsServed_example =
    reserve-IsServed offered_db a_permission (pos 2) (pos 9) 50 1 a_request served_db
      (Reach-IsBalanced offered_db offered_db-Reach) reserve-ok

revoke-reserve_example :
    reserve (revoke offered_db 6 40).1 a_permission (pos 2) (pos 9) 50 1 ≢ (ok a_request, served_db)
revoke-reserve_example =
    revoke-reserve offered_db a_permission (pos 2) (pos 9) 40 50 1 a_request served_db

abbrev a_round : Round
a_round = record { now = 60; count = pos 8; failed = false }

abbrev some_rounds : List Round
some_rounds =
    a_round ∷ a_round ∷ a_round ∷ a_round ∷ a_round ∷ a_round ∷ a_round ∷ a_round ∷ a_round ∷ []

-- The eight bytes of the response to `a_request`, all in the first write.
write_chunk-IsDone_example :
    (w : Written) × (write_chunk served_db true 1 1 8 55 some_rounds 61 ≡ some w) × IsDone 8 w
write_chunk-IsDone_example =
    write_chunk-IsDone served_db true 1 8 some_rounds 61
      (Reach-IsBalanced served_db served_db-Reach) (omega arith) 1 55

abbrev a_config : Config
a_config = record { sources = []; offer_ceiling = []; offer_requires_local_approval = false }

ready_run : (prepare a_config true served_db 2 3 5).ready ≡ true
unfolding prepare prepare_refusal file_refusal offer_refusal is_exhausted find exists select
    valid_blocks segments covered first_untransmitted count_bytes reserve reserve_tx reserve_guard
    reserve_range reserve_offer reserve_apply clip bind_permission put_file put_offer upsert tx
    count update_where rewrite rewrite_rows insert_row max_id transform sweep sweep_step shifted
    count_at boundaries sort_points insert_point push_run ◌+ℤ◌
ready_run = refl

prepare-IsReady_example :
    ((prepare a_config true offered_db 2 3 5).resume_offset < 10)
    × (count_at (offered_db.transmitted 2 3) (prepare a_config true offered_db 2 3 5).resume_offset
        ≡ 0)
    × (count_at (offered_db.serves 2 3) (prepare a_config true offered_db 2 3 5).resume_offset ≢ 2)
    × (file_refusal a_config true offered_db 3 5 (some a_file) ≡ none)
unfolding prepare prepare_refusal file_refusal offer_refusal is_exhausted find exists select
    valid_blocks segments covered count_bytes put_file put_offer upsert
prepare-IsReady_example =
    prepare-IsReady a_config true offered_db 2 3 5 a_file
      (Reach-IsBalanced offered_db offered_db-Reach) tt refl (omega arith) refl

abbrev twice_db : Db
twice_db = (reserve served_db a_permission (pos 2) (pos 9) 50 1).1

twice_db-Reach : Reach empty_db twice_db
twice_db-Reach = next served_db-Reach (reserving a_permission (pos 2) (pos 9) 50 1)

-- The byte 4 is at two serves after two reservations.
reserve-exhausted_example :
    ((reserve twice_db a_permission (pos 4) (pos 9) 50 1).0 ≡ err exhausted) ↔ (
      (reserve_guard twice_db a_permission 50 ≡ ok tt)
      × IsAsked twice_db a_permission (pos 4) (pos 9)
      × (count_at (twice_db.serves 2 3) 4 ≡ 2))
reserve-exhausted_example =
    reserve-exhausted twice_db a_permission (pos 4) (pos 9) 50 1
      (Reach-IsBalanced twice_db twice_db-Reach)

exhausted_run : (reserve twice_db a_permission (pos 4) (pos 9) 50 1).0 ≡ err exhausted
unfolding reserve reserve_tx reserve_guard reserve_range reserve_offer reserve_apply clip
    bind_permission put_file put_offer upsert tx count exists find update_where segments covered
    rewrite rewrite_rows insert_row max_id transform sweep sweep_step shifted count_at boundaries
    sort_points insert_point push_run ◌+ℤ◌
exhausted_run = refl

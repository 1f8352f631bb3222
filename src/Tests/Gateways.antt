-- ===== src/Tests/Gateways.antt =====
-- Receipts on their way to the audit log, and rotations of keys.
use aim_data_gateway.Prelude.{false, none, ℕ, ◌≡◌, refl, inl, true, some, [], ◌∷◌, arith}
use aim_data_gateway.Prelude.Query.{find, exists, select, update_where}
use aim_data_gateway.Prelude.Result.{ok}
use aim_data_gateway.Segment.{insert_point, sort_points, count_bytes}
use aim_data_gateway.Ledger.State.{Db, find_file, valid_blocks, Outcome, segments}
use aim_data_gateway.Ledger.Control.{put_file, upsert}
use aim_data_gateway.Ledger.Receipt.{
  receipt_tx, max_seq, max_audited, queue_receipt, overlaps, unwritten_bytes, min_bound_at,
  max_closed_at,
}
use aim_data_gateway.Gateway.{Gateway, found, Round}
use aim_data_gateway.Gateway.Poll.{poll, open_gateway, mark_logged}
use aim_data_gateway.Gateway.Runs.{down, row_numbers, logged_receipts}
use aim_data_gateway.Gateway.Delivery.{last_audited, InOrder}
use aim_data_gateway.Gateway.History.{
  Reaches, starts, polls, queues, reopens, with_ledger, Reaches-InOrder,
}
use aim_data_gateway.Gateway.Progress.{good_rounds, poll-delivers}
use aim_data_gateway.Gateway.Keys.{Key, Pins, scan, has_kid, append_unique_keys, key_rotation}
use aim_data_gateway.Gateway.Rotation.{AreApart, IsSeparate, first_of, find-append_unique_keys}
use aim_data_gateway.Gateway.Bootstrap.{bootstrap, paired, rotates, bootstraps, Holds-IsSeparate}
use aim_data_gateway.Gateway.Offers.{OfferAck, offered_refusal, handle_offer, handle_offer-ready}
use aim_data_gateway.Ledger.Prepare.{Config, file_refusal}
use aim_data_gateway.Ledger.Control.{was_seen}
use aim_data_gateway.Tests.Receipts.{whole_db, completed_db}

abbrev first_gateway : Gateway
first_gateway = open_gateway [] whole_db

-- An append fails, but its entry is found again.
abbrev found_round : Round
found_round = record { appending = found; marked = true }

abbrev crashed_gateway : Gateway
crashed_gateway = poll (found_round ∷ []) (with_ledger completed_db first_gateway)

queued_run : queue_receipt true 77 2 3 Outcome.complete whole_db ≡ ok completed_db
unfolding queue_receipt receipt_tx max_seq overlaps unwritten_bytes min_bound_at max_closed_at find
    exists select update_where put_file upsert segments count_bytes sort_points insert_point
queued_run = refl

crashed_gateway-Reaches : Reaches (open_gateway crashed_gateway.log crashed_gateway.ledger)
unfolding put_file open_gateway mark_logged
crashed_gateway-Reaches = reopens (
    polls (found_round ∷ [])
      (queues true 77 2 3 Outcome.complete queued_run (starts whole_db refl refl)))

Reaches-InOrder_example :
    (n k : ℕ) × InOrder n k (open_gateway crashed_gateway.log crashed_gateway.ledger)
Reaches-InOrder_example =
    Reaches-InOrder (open_gateway crashed_gateway.log crashed_gateway.ledger)
      crashed_gateway-Reaches

abbrev waiting_gateway : Gateway
waiting_gateway = open_gateway [] completed_db

waiting_gateway-InOrder : InOrder 1 0 waiting_gateway
unfolding open_gateway mark_logged row_numbers down logged_receipts max_audited put_file
waiting_gateway-InOrder = record {
  numbered = refl;
  logged = refl;
  bounded = omega arith;
  linked = inl (refl, refl);
}

poll-delivers_example :
    (last_audited (poll (good_rounds 1) waiting_gateway) ≡ 1)
    × (logged_receipts (poll (good_rounds 1) waiting_gateway).log ≡ down 1)
unfolding open_gateway mark_logged max_audited put_file
poll-delivers_example =
    poll-delivers 1 0 1 waiting_gateway waiting_gateway-InOrder (refl, tt) refl (omega arith)

abbrev key_of : ℕ → ℕ → Key
key_of kid key = record { kid = kid; eddsa = true; key = key }

find-append_unique_keys_example :
    find (has_kid 7) (append_unique_keys (key_of 7 1 ∷ []) (key_of 7 2 ∷ []))
    ≡ first_of (find (has_kid 7) (key_of 7 1 ∷ [])) (find (has_kid 7) (key_of 7 2 ∷ []))
find-append_unique_keys_example = find-append_unique_keys 7 (key_of 7 1 ∷ []) (key_of 7 2 ∷ [])

abbrev some_pins : Pins
some_pins = record {
  permission_keys = key_of 1 11 ∷ [];
  scan_spec_keys = key_of 2 12 ∷ [];
  listing_keys = key_of 3 13 ∷ [];
  minimum_version = 1;
  key_expires = [];
}

some_pins-IsSeparate : IsSeparate some_pins
unfolding IsSeparate AreApart exists
some_pins-IsSeparate kid = ground arith

-- A rotation of the scan keys by a new key and a permission key, and a bootstrap that comes too late.
abbrev turned_pins : Pins
turned_pins =
    (key_rotation (λ k. some k) true scan 2 99 (key_of 4 14 ∷ key_of 1 15 ∷ []) some_pins).1

abbrev late_pins : Pins
late_pins =
    (bootstrap (λ k. true) (λ k. some k) (λ live. some (key_of 5 16 ∷ [])) true 50 turned_pins).1

Holds-IsSeparate_example : IsSeparate late_pins
Holds-IsSeparate_example =
    Holds-IsSeparate some_pins late_pins
      (bootstraps (λ k. true) (λ k. some k) (λ live. some (key_of 5 16 ∷ [])) true 50
        (rotates (λ k. some k) true scan 2 99 (key_of 4 14 ∷ key_of 1 15 ∷ []) paired))
      some_pins-IsSeparate

abbrev open_config : Config
open_config = record { sources = []; offer_ceiling = []; offer_requires_local_approval = false }

abbrev ready_ack : OfferAck
ready_ack = record { iid = 1; fid = 3; ready = true; refusal = none }

abbrev after_offer : Db
after_offer = (handle_offer true true 1 3 5 9 whole_db).1

offered_run : handle_offer true true 1 3 5 9 whole_db ≡ (some ready_ack, after_offer)
unfolding handle_offer offered_refusal was_seen find exists put_file upsert valid_blocks
offered_run = refl

handle_offer-ready_example :
    file_refusal open_config true after_offer 3 5 (find_file after_offer 3) ≡ none
handle_offer-ready_example =
    handle_offer-ready open_config true 1 3 5 9 whole_db after_offer ready_ack offered_run refl refl

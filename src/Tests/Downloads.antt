-- ===== src/Tests/Downloads.antt =====
-- A range header, and a download of one file up to its reservation.
use aim_data_gateway.Prelude.{◌≡◌, refl, true, false, none, some, List, [], ◌∷◌, ℕ}
use aim_data_gateway.Prelude.Query.{exists, find, update_where}
use aim_data_gateway.Ledger.State.{
  Permission, FileRow, OfferRow, OfferState, KeyClass, Db, valid_blocks,
}
use aim_data_gateway.Ledger.Control.{put_file, put_offer, upsert, revoke}
use aim_data_gateway.Ledger.Prepare.{Config}
use aim_data_gateway.Ledger.Accounts.History.{empty_db}
use aim_data_gateway.Door.{
  ByteRange, parse_range, cut_prefix, has_comma, cut_dash, dash_range, parse_int, parse_digits,
}
use aim_data_gateway.Door.Range.{IsInside, parse_range-IsInside}
use aim_data_gateway.Door.Download.{reserving, download_answer, permitted_answer, file_answer}

abbrev a_file : FileRow
a_file = record {
  fid = 3;
  source = [];
  relative_path = [];
  size = 10;
  sha = 5;
  block_hashes = 1 ∷ [];
  display_name = [];
  root = [];
  changed = 0;
}

abbrev an_offer : OfferRow
an_offer = record {
  fid = 3;
  sha = 5;
  lvid = 4;
  iid = 7;
  state = OfferState.offered;
  approved_locally_at = none;
  key_class = KeyClass.listing;
}

abbrev a_permission : Permission
a_permission = record {
  audience = 1;
  order_id = 2;
  listing_version_id = 4;
  file_id = 3;
  sha256 = 5;
  jti = 6;
  start_deadline = 100;
  transfer_deadline = 200;
  resume_offset = 0;
}

abbrev offered_db : Db
offered_db = put_offer (put_file empty_db a_file) an_offer

abbrev a_config : Config
a_config = record { sources = []; offer_ceiling = []; offer_requires_local_approval = false }

-- "bytes=2-5"
abbrev a_header : List ℕ
a_header = 98 ∷ 121 ∷ 116 ∷ 101 ∷ 115 ∷ 61 ∷ 50 ∷ 45 ∷ 53 ∷ []

parse_range_run : parse_range a_header 4 ≡ some (record { start = 2; end = 3; partial = true })
unfolding parse_range cut_prefix has_comma cut_dash dash_range parse_int parse_digits
parse_range_run = refl

parse_range-IsInside_example : IsInside 4 (parse_range a_header 4)
parse_range-IsInside_example = parse_range-IsInside a_header 4

abbrev a_range : ByteRange
a_range = record { start = 2; end = 5; partial = true }

download_run :
    download_answer 1 a_config (λ f. true) offered_db (some a_permission) 3 a_header 50 1
    ≡ (reserving a_range, offered_db)
unfolding download_answer permitted_answer file_answer find exists update_where valid_blocks
    put_file put_offer upsert parse_range cut_prefix has_comma cut_dash dash_range parse_int
    parse_digits
download_run = refl

-- A permission whose receipt of revocation came: the download passes its checks, and Reserve refuses.
abbrev revoked_db : Db
revoked_db = (revoke offered_db 6 40).1

-- ===== src/Door/Download.antt =====
-- `token` and the ladder of refusals in `download`, up to the reservation (internal/door/door.go). The
-- clock is read once; `none` stands for a permission that wire.VerifyPermission refuses.
pub mod Admitted
pub mod Reserving
use aim_data_gateway.Prelude.{
  ℕ, Bool, true, false, not, ◌&&◌, ◌||◌, Option, none, some, List, [], ◌∷◌, leb, ◌==◌,
  if◌then◌else◌,
}
use aim_data_gateway.Prelude.Result.{Error}
use aim_data_gateway.Ledger.State.{
  Permission, PermissionRow, is_bound, is_live, FileRow, OfferRow, Db, find_permission, find_file,
  find_offer, valid_blocks,
}
use aim_data_gateway.Ledger.Reserve.{offered_for_listing}
use aim_data_gateway.Ledger.Control.{close_expired}
use aim_data_gateway.Ledger.Prepare.{Config, is_approved, same_bytes}
use aim_data_gateway.Door.{ByteRange, cut_prefix, parse_range}

-- "Bearer "
abbrev pub bearer : List ℕ
bearer = 66 ∷ 101 ∷ 97 ∷ 114 ∷ 101 ∷ 114 ∷ 32 ∷ []

abbrev pub non_empty : List ℕ → Option (List ℕ)
non_empty [] = none
non_empty (c ∷ s) = some (c ∷ s)

abbrev pub bearer_token : Option (List ℕ) → Option (List ℕ)
bearer_token none = none
bearer_token (some h) = non_empty h

abbrev pub same_token : Option (List ℕ) → List ℕ → Option (List ℕ)
same_token none q = none
same_token (some h) q = if same_bytes h q then some h else none

-- `token`: the Authorization header, and the values of the query parameter t if it is there.
unfoldable pub token : List ℕ → Option (List (List ℕ)) → Option (List ℕ)
token [] none = none
token (c ∷ h) none = bearer_token (cut_prefix (c ∷ h) bearer)
token [] (some (q ∷ [])) = non_empty q
token (c ∷ h) (some (q ∷ [])) = same_token (bearer_token (cut_prefix (c ∷ h) bearer)) q
token _ (some _) = none

-- The codes of `fail`.
pub data Code : Type 0 where
  invalid_permission wrong_audience wrong_file not_offered file_missing file_changed : Code
  outside_ceiling awaiting_local_approval permission_expired permission_closed : Code
  invalid_range coverage_fragmented coverage_exhausted internal_error : Code

-- A refusal with its status, an empty file to finish, or a range to reserve.
pub data Answer : Type 0 where
  refused : ℕ → Code → Answer
  finishing : FileRow → Answer
  reserving : ByteRange → Answer

abbrev pub is_permitted : Permission → PermissionRow → Bool
is_permitted p row = row.oid == p.order_id && row.fid == p.file_id && row.sha == p.sha256

abbrev pub bound_for : Permission → Option PermissionRow → Bool
bound_for p none = false
bound_for p (some row) = is_bound row.state && is_permitted p row

abbrev pub closed_for : Permission → Option PermissionRow → Bool
closed_for p none = false
closed_for p (some row) = not (is_live row.state) || not (is_permitted p row)

abbrev pub approved : Option OfferRow → Bool
approved none = false
approved (some o) = is_approved o

abbrev pub is_blank : List ℕ → Bool
is_blank [] = true
is_blank (c ∷ s) = false

abbrev pub ranged : Option ByteRange → Answer
ranged none = refused 416 Code.invalid_range
ranged (some r) = reserving r

-- The end of the ladder, for a file that is served.
abbrev pub range_answer : FileRow → List ℕ → Answer
range_answer f range =
    if f.size == 0 && is_blank range then finishing f else ranged (parse_range range f.size)

-- The checks of the file, and of the deadlines, which close what is expired.
unfoldable pub file_answer :
    Config → (FileRow → Bool) → Db → Permission → List ℕ → ℕ → ℕ → Option FileRow → Answer × Db
file_answer c within db p range now stamp none = (refused 404 Code.file_missing, db)
file_answer c within db p range now stamp (some f) =
    let row = find_permission db p.jti in
    let o = find_offer db p.file_id p.sha256 p.listing_version_id in
    if not (f.changed == 0) || not (f.sha == p.sha256) || not (valid_blocks f)
    then (refused 409 Code.file_changed, db)
    else if not (within f)
    then (refused 403 Code.outside_ceiling, db)
    else if c.offer_requires_local_approval && not (approved o)
    then (refused 403 Code.awaiting_local_approval, db)
    else if leb p.transfer_deadline now || (not (bound_for p row) && leb p.start_deadline now)
    then (refused 403 Code.permission_expired, close_expired db now stamp)
    else if closed_for p row
    then (refused 403 Code.permission_closed, db)
    else (range_answer f range, db)

unfoldable pub permitted_answer :
    ℕ → Config → (FileRow → Bool) → Db → Permission → ℕ → List ℕ → ℕ → ℕ → Answer × Db
permitted_answer gateway c within db p fid range now stamp =
    if not (p.audience == gateway)
    then (refused 403 Code.wrong_audience, db)
    else if not (p.file_id == fid)
    then (refused 403 Code.wrong_file, db)
    else if not (bound_for p (find_permission db p.jti))
        && not (offered_for_listing (find_offer db p.file_id p.sha256 p.listing_version_id))
    then (refused 403 Code.not_offered, db)
    else file_answer c within db p range now stamp (find_file db p.file_id)

unfoldable pub download_answer :
    ℕ → Config → (FileRow → Bool) → Db → Option Permission → ℕ → List ℕ → ℕ → ℕ → Answer × Db
download_answer gateway c within db none fid range now stamp =
    (refused 401 Code.invalid_permission, db)
download_answer gateway c within db (some p) fid range now stamp =
    permitted_answer gateway c within db p fid range now stamp

-- The answer to an error of `Reserve`.
unfoldable pub reserve_refusal : Error → Answer
reserve_refusal Error.fragmented = refused 409 Code.coverage_fragmented
reserve_refusal Error.exhausted = refused 409 Code.coverage_exhausted
reserve_refusal Error.closed = refused 403 Code.permission_closed
reserve_refusal Error.deadline = refused 403 Code.permission_expired
reserve_refusal _ = refused 500 Code.internal_error

-- ===== src/Ledger/Reserve.antt =====
-- `Reserve` (internal/ledger/ledger.go): the checks of a download, then the rows that it writes in
-- one transaction. `now` is the clock in Unix seconds, read once for the whole transaction.
pub mod Clip
pub mod Effect
pub mod Exhaustion
use aim_data_gateway.Prelude.{
  ℕ, suc, ◌+◌, ◌-◌, Bool, true, false, not, ◌&&◌, ◌||◌, Option, none, some, List, [], ◌∷◌, length,
  ltb, leb, ◌==◌, if◌then◌else◌,
}
use aim_data_gateway.Prelude.Int.{ℤ, pos, pos_part, ltb_ℤ}
use aim_data_gateway.Prelude.Query.{count, update_where}
use aim_data_gateway.Prelude.Result.{
  Result, ok, err, closed, deadline, exhausted, fragmented, invalid_range, no_rows, ◌>>=◌, ◌>>◌,
  refuse_if, or_err, tx,
}
use aim_data_gateway.Segment.{Segment, covered, transform}
use aim_data_gateway.Ledger.State.{
  Permission, PermissionState, is_bound, is_live, PermissionRow, RequestRow, OfferState, KeyClass,
  OfferRow, Db, find_permission, find_file, find_offer, is_revoked, is_completed, owner, max_id,
  rewrite, segments,
}

-- The request that `Reserve` returns.
pub record Request : Type 0 where
  pub id : ℕ
  pub start : ℕ
  pub end : ℕ

-- A stored permission that is not this one, or is closed or revoked.
abbrev pub mismatch : Permission → Option PermissionRow → Bool
mismatch p none = false
mismatch p (some row) =
    not (row.oid == p.order_id)
    || not (row.fid == p.file_id)
    || not (row.sha == p.sha256)
    || not (row.sd == p.start_deadline)
    || not (row.td == p.transfer_deadline)
    || not (row.ro == p.resume_offset)
    || not (is_live row.state)

abbrev pub row_is_bound : Option PermissionRow → Bool
row_is_bound none = false
row_is_bound (some row) = is_bound row.state

abbrev pub offered_for_listing : Option OfferRow → Bool
offered_for_listing none = false
offered_for_listing (some o) = elim o.state [
  | OfferState.offered ↦ elim o.key_class [
    | KeyClass.listing ↦ true
    | KeyClass.permission_key ↦ false
  ]
  | OfferState.withdrawn ↦ false
]

-- The loop over the serves: stop before the first byte already at two serves.
unfoldable pub clip : List Segment → ℕ → ℕ → Result ℕ
clip [] start end = ok end
clip (x ∷ ss) start end =
    if (x.c == 2) && leb x.a end && leb start x.b
    then (if leb x.a start then err exhausted else ok (x.a - 1))
    else clip ss start end

-- A request that is open and isolated, of the order and file.
abbrev pub is_isolated_for : Db → ℕ → ℕ → RequestRow → Bool
is_isolated_for db oid fid r = elim (owner db r) [
  | none ↦ false
  | some p ↦ p.oid == oid && p.fid == fid && r.is_open && r.isolated
]

-- `isolate`: the response starts away from what is transmitted.
abbrev pub isolates : List Segment → ℕ → Bool
isolates tr start = ltb 0 start && not (covered tr (start - 1) (start - 1))

-- What the checks settle before anything is written.
pub record Plan : Type 0 where
  pub start : ℕ
  pub end : ℕ
  pub isolate : Bool

-- The checks on the permission, the deadlines, the revocation and the completion.
unfoldable pub reserve_guard : Db → Permission → ℕ → Result (Unit {0})
reserve_guard db p now = do
  let row = find_permission db p.jti
  refuse_if (mismatch p row) closed
  refuse_if (leb p.transfer_deadline now || (not (row_is_bound row) && leb p.start_deadline now))
      deadline
  refuse_if (is_revoked db p.jti) closed
  refuse_if (is_completed db p.order_id p.file_id) closed

-- The checks on the file and the range, and the clipping.
unfoldable pub reserve_range : Db → Permission → ℤ → ℤ → Result Plan
reserve_range db p start end = do
  let ss = segments db.serves p.order_id p.file_id
  let tr = segments db.transmitted p.order_id p.file_id
  f ← or_err (find_file db p.file_id) no_rows
  refuse_if (f.size == 0 || covered tr 0 (f.size - 1)) closed
  refuse_if (ltb_ℤ start (pos 0) || ltb_ℤ end start) invalid_range
  let from = pos_part start
  last ← clip ss from (pos_part end)
  let isolate = isolates tr from
  let opened = count (is_isolated_for db p.order_id p.file_id) db.requests
  refuse_if (isolate && ltb 1024 (length tr + opened + 1)) fragmented
  ok (record { start = from; end = last; isolate = isolate })

-- A permission that is not bound yet needs its offer.
unfoldable pub reserve_offer : Db → Permission → Result (Unit {0})
reserve_offer db p =
    refuse_if
      (not (row_is_bound (find_permission db p.jti))
        && not (offered_for_listing (find_offer db p.file_id p.sha256 p.listing_version_id)))
      closed

-- The first use binds the permission: INSERT where it is missing, UPDATE where it is issued.
unfoldable pub bind_permission :
    List PermissionRow → Option PermissionRow → Permission → ℕ → List PermissionRow
bind_permission ps none p stamp =
    record {
      jti = p.jti;
      oid = p.order_id;
      fid = p.file_id;
      sha = p.sha256;
      sd = p.start_deadline;
      td = p.transfer_deadline;
      ro = p.resume_offset;
      state = PermissionState.bound;
      bound_at = some stamp;
      closed_at = none;
    }
    ∷ ps
bind_permission ps (some row) p stamp =
    if is_bound row.state
    then ps
    else update_where (λ (q : PermissionRow). q.jti == p.jti)
        (λ q. record q { state = PermissionState.bound; bound_at = some stamp }) ps

-- The writes: bind, count the serves of the range, and open the request.
unfoldable pub reserve_apply : Db → Permission → ℕ → Plan → Result (Request × Db)
reserve_apply db p stamp plan = do
  let ss = segments db.serves p.order_id p.file_id
  serves ← rewrite db.serves p.order_id p.file_id (transform ss plan.start plan.end (pos 1))
  let id = suc (max_id db.requests)
  ok (
    record { id = id; start = plan.start; end = plan.end },
    record db {
      permissions = bind_permission db.permissions (find_permission db p.jti) p stamp;
      serves = serves;
      requests =
          record {
            id = id;
            jti = p.jti;
            start = plan.start;
            end = plan.end;
            next = plan.start;
            is_open = true;
            isolated = plan.isolate;
          }
          ∷ db.requests;
    },
  )

unfoldable pub reserve_tx : Db → Permission → ℤ → ℤ → ℕ → ℕ → Result (Request × Db)
reserve_tx db p start end now stamp = do
  reserve_guard db p now
  plan ← reserve_range db p start end
  reserve_offer db p
  reserve_apply db p stamp plan

unfoldable pub reserve : Db → Permission → ℤ → ℤ → ℕ → ℕ → Result Request × Db
reserve db p start end now stamp = tx db (reserve_tx db p start end now stamp)

-- ===== src/Ledger/Settle.antt =====
-- `FinishEmpty`, `Progress`, `settle` and `Recover` (internal/ledger/ledger.go).
use aim_data_gateway.Prelude.{
  ℕ, ◌+◌, ◌-◌, min, max, Bool, true, false, not, ◌&&◌, ◌||◌, Option, none, some, List, [], ◌∷◌, map,
  ltb, leb, ◌==◌, if◌then◌else◌,
}
use aim_data_gateway.Prelude.Int.{negsuc}
use aim_data_gateway.Prelude.Query.{find, update_where}
use aim_data_gateway.Prelude.Result.{
  Result, ok, closed, invalid_progress, no_rows, constraint, ◌>>=◌, ◌>>◌, refuse_if, or_err, tx,
}
use aim_data_gateway.Segment.{covered, transform, mark}
use aim_data_gateway.Ledger.State.{
  Permission, PermissionState, is_bound, is_live, PermissionRow, RequestRow, Outcome, Db,
  find_permission, find_file, find_offer, find_request, is_revoked, is_completed, owner, rewrite,
  rewrite_transmitted, segments, block_size,
}
use aim_data_gateway.Ledger.Receipt.{queue_tx}
use aim_data_gateway.Ledger.Reserve.{offered_for_listing, bind_permission}

-- UPDATE permissions SET state='closed', closed_at=now WHERE oid, fid AND state IN ('issued','bound')
unfoldable pub close_permissions : ℕ → ℕ → ℕ → List PermissionRow → List PermissionRow
close_permissions stamp oid fid =
    update_where (λ (p : PermissionRow). p.oid == oid && p.fid == fid && is_live p.state)
      (λ p. record p { state = PermissionState.closed; closed_at = some stamp })

-- SELECT state FROM permissions WHERE jti, oid, fid, sha256.
abbrev pub find_exact : Db → Permission → Option PermissionRow
find_exact db p =
    find
      (λ (q : PermissionRow).
        q.jti == p.jti && q.oid == p.order_id && q.fid == p.file_id && q.sha == p.sha256)
      db.permissions

abbrev pub dead : Option PermissionRow → Bool
dead none = false
dead (some q) = not (is_live q.state)

abbrev pub found_bound : Option PermissionRow → Bool
found_bound none = false
found_bound (some q) = is_bound q.state

-- INSERT where the permission is missing; an issued one is left as it is.
abbrev pub insert_missing :
    List PermissionRow → Option PermissionRow → Permission → ℕ → List PermissionRow
insert_missing ps none p stamp = bind_permission ps none p stamp
insert_missing ps (some q) p stamp = ps

-- An INSERT of a permission whose jti is there, under another order or file, violates the key.
abbrev pub jti_conflict : Option PermissionRow → Option PermissionRow → Bool
jti_conflict none (some other) = true
jti_conflict _ _ = false

-- The checks of `FinishEmpty` that do not write.
unfoldable pub finish_empty_guard : Db → Permission → ℕ → Result (Unit {0})
finish_empty_guard db p now = do
  f ← or_err (find_file db p.file_id) no_rows
  refuse_if (not (f.size == 0) || not (f.sha == p.sha256)) closed
  refuse_if (is_completed db p.order_id p.file_id) closed
  refuse_if (is_revoked db p.jti || leb p.start_deadline now || leb p.transfer_deadline now) closed
  let row = find_exact db p
  refuse_if (dead row) closed
  refuse_if
      (not (found_bound row)
        && not (offered_for_listing (find_offer db p.file_id p.sha256 p.listing_version_id)))
      closed

-- The rows after `FinishEmpty` has inserted the permission and closed those of the order and file.
abbrev pub finish_empty_db : Db → Permission → ℕ → Db
finish_empty_db db p stamp = record db {
  permissions =
      close_permissions stamp p.order_id p.file_id
        (insert_missing db.permissions (find_exact db p) p stamp);
}

unfoldable pub finish_empty_apply : Db → Permission → Bool → ℕ → Result (Unit {0} × Db)
finish_empty_apply db p key_ok stamp = do
  db' ←
      queue_tx key_ok stamp p.order_id p.file_id Outcome.complete true (finish_empty_db db p stamp)
  ok (tt, db')

-- `FinishEmpty`: closes an empty file without a byte range.
unfoldable pub finish_empty_tx : Db → Permission → Bool → ℕ → ℕ → Result (Unit {0} × Db)
finish_empty_tx db p key_ok now stamp = do
  finish_empty_guard db p now
  refuse_if (jti_conflict (find_exact db p) (find_permission db p.jti)) constraint
  finish_empty_apply db p key_ok stamp

unfoldable pub finish_empty : Db → Permission → Bool → ℕ → ℕ → Result (Unit {0}) × Db
finish_empty db p key_ok now stamp = tx db (finish_empty_tx db p key_ok now stamp)

abbrev pub set_next : ℕ → RequestRow → RequestRow
set_next n r = record r { next = n }

abbrev pub set_closed : RequestRow → RequestRow
set_closed r = record r { is_open = false }

abbrev pub with_id : ℕ → RequestRow → Bool
with_id id r = r.id == id

-- `Progress` past its checks, where bytes were written: `n` is writtenThrough + 1, and `r` the row
-- of the request.
unfoldable pub progress_mark :
    Db → Bool → ℕ → RequestRow → PermissionRow → ℕ → Result (Unit {0} × Db)
progress_mark db key_ok stamp r p n = do
  let tr = segments db.transmitted p.oid p.fid
  transmitted ← rewrite_transmitted db.transmitted p.oid p.fid (mark tr r.next (n - 1))
  db' ← queue_tx key_ok stamp p.oid p.fid Outcome.in_progress false (record db {
    transmitted = transmitted;
    requests = update_where (with_id r.id) (set_next n) db.requests;
  })
  ok (tt, db')

unfoldable pub progress_apply :
    Db → Bool → ℕ → RequestRow → PermissionRow → ℕ → Result (Unit {0} × Db)
progress_apply db key_ok stamp r p n =
    if ltb r.next n
    then progress_mark db key_ok stamp r p n
    else ok (tt, record db { requests = update_where (with_id r.id) (set_next n) db.requests })

unfoldable pub progress_tx : Db → Bool → ℕ → ℕ → ℕ → Result (Unit {0} × Db)
progress_tx db key_ok stamp id n = do
  r ← or_err (find_request db id) no_rows
  p ← or_err (owner db r) no_rows
  refuse_if (not r.is_open || ltb n r.next || ltb (r.end + 1) n) invalid_progress
  progress_apply db key_ok stamp r p n

unfoldable pub progress : Db → Bool → ℕ → ℕ → ℕ → Result (Unit {0}) × Db
progress db key_ok stamp id n = tx db (progress_tx db key_ok stamp id n)

-- keep + 1: what the response has kept of its range. After a crash one more window may have left.
abbrev pub kept : Bool → RequestRow → ℕ
kept false r = r.next
kept true r = min (r.end + 1) (r.next + block_size)

-- `outcome != ""`
abbrev pub outcome_is_set : Outcome → Bool
outcome_is_set Outcome.unset = false
outcome_is_set _ = true

-- The end of `settle`: on a covered file the permissions are closed and the receipt is complete.
unfoldable pub settle_finish :
    Db → Bool → ℕ → PermissionRow → Bool → Outcome → Result (Unit {0} × Db)
settle_finish db key_ok stamp p crash outcome = do
  let tr = segments db.transmitted p.oid p.fid
  f ← or_err (find_file db p.fid) no_rows
  let complete = f.size == 0 || covered tr 0 (f.size - 1)
  let ps = if complete then close_permissions stamp p.oid p.fid db.permissions else db.permissions
  let db' = record db { permissions = ps }
  db'' ←
      (if complete || (not crash && outcome_is_set outcome)
        then queue_tx key_ok stamp p.oid p.fid outcome complete db'
        else ok db')
  ok (tt, db'')

-- `settle` of a request that is open: what it did not keep is no longer counted as served.
unfoldable pub settle_open :
    Db → Bool → ℕ → RequestRow → PermissionRow → Bool → Outcome → Result (Unit {0} × Db)
settle_open db key_ok stamp r p crash outcome = do
  let ss = segments db.serves p.oid p.fid
  serves ←
      rewrite db.serves p.oid p.fid (transform ss (max r.start (kept crash r)) r.end (negsuc 0))
  settle_finish
      (record db { serves = serves; requests = update_where (with_id r.id) set_closed db.requests })
      key_ok stamp p crash outcome

unfoldable pub settle_tx : Db → Bool → ℕ → ℕ → Bool → Outcome → Result (Unit {0} × Db)
settle_tx db key_ok stamp id crash outcome = do
  r ← or_err (find_request db id) no_rows
  p ← or_err (owner db r) no_rows
  if r.is_open then settle_open db key_ok stamp r p crash outcome else ok (tt, db)

-- `SettleOutcome`; `Settle` is the case of no outcome.
unfoldable pub settle_outcome : Db → Bool → ℕ → ℕ → Outcome → Result (Unit {0}) × Db
settle_outcome db key_ok stamp id outcome = tx db (settle_tx db key_ok stamp id false outcome)

-- `RecoverRequest`
unfoldable pub recover_request : Db → Bool → ℕ → ℕ → Result (Unit {0}) × Db
recover_request db key_ok stamp id = tx db (settle_tx db key_ok stamp id true Outcome.unset)

-- ORDER BY p.oid, p.fid, r.id
abbrev pub OpenKey : Type 0
OpenKey = ℕ × ℕ × ℕ

unfoldable pub key_before : OpenKey → OpenKey → Bool
key_before (o, f, i) (o', f', i') = ltb o o' || (o == o' && (ltb f f' || (f == f' && leb i i')))

unfoldable pub insert_key : OpenKey → List OpenKey → List OpenKey
insert_key k [] = k ∷ []
insert_key k (l ∷ ks) = if key_before k l then k ∷ l ∷ ks else l ∷ insert_key k ks

-- The open requests that have a permission, ordered.
unfoldable pub open_keys : Db → List RequestRow → List OpenKey
open_keys db [] = []
open_keys db (r ∷ rs) =
    let rest = open_keys db rs in
    if r.is_open
    then elim (owner db r) [ none ↦ rest | some p ↦ insert_key (p.oid, p.fid, r.id) rest ]
    else rest

abbrev pub open_ids : Db → List ℕ
open_ids db = map (λ (k : OpenKey). k.2) (open_keys db db.requests)

-- The loop of `Recover`: crash settlement of each id, all in one transaction.
unfoldable pub recover_ids : Db → Bool → ℕ → List ℕ → Result (Unit {0} × Db)
recover_ids db key_ok stamp [] = ok (tt, db)
recover_ids db key_ok stamp (id ∷ ids) =
    settle_tx db key_ok stamp id true Outcome.unset
    >>= (λ (u, db'). recover_ids db' key_ok stamp ids)

unfoldable pub recover : Db → Bool → ℕ → Result (Unit {0}) × Db
recover db key_ok stamp = tx db (recover_ids db key_ok stamp (open_ids db))

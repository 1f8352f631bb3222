-- ===== src/Ledger/State.antt =====
-- The tables of the ledger (internal/ledger/ledger.go, `schema`) as lists of rows.
-- Identifiers (jti, oid, fid, sha256, lvid, iid) are only compared, and in one query ordered: they
-- are numbers. Unix seconds and the stamps of `now()` are numbers too.
use aim_data_gateway.Prelude.{
  ℕ, ◌+◌, ◌-◌, ◌*◌, ◌/◌, max, Bool, true, false, ◌&&◌, Option, List, [], ◌∷◌, length, ltb, ◌==◌,
  if◌then◌else◌,
}
use aim_data_gateway.Prelude.Query.{find, exists}
use aim_data_gateway.Prelude.Result.{Result, ok, err, constraint, ◌>>=◌}
use aim_data_gateway.Segment.{Segment, set_ones}

-- A signed permission as wire.VerifyPermission returns it.
pub record Permission : Type 0 where
  pub audience : ℕ
  pub order_id : ℕ
  pub listing_version_id : ℕ
  pub file_id : ℕ
  pub sha256 : ℕ
  pub jti : ℕ
  pub start_deadline : ℕ
  pub transfer_deadline : ℕ
  pub resume_offset : ℕ

pub data PermissionState : Type 0 where
  issued bound closed revoked : PermissionState

abbrev pub is_bound : PermissionState → Bool
is_bound PermissionState.bound = true
is_bound _ = false

-- `state IN ('issued','bound')`
abbrev pub is_live : PermissionState → Bool
is_live PermissionState.issued = true
is_live PermissionState.bound = true
is_live _ = false

-- `permissions`
pub record PermissionRow : Type 0 where
  pub jti : ℕ
  pub oid : ℕ
  pub fid : ℕ
  pub sha : ℕ
  pub sd : ℕ
  pub td : ℕ
  pub ro : ℕ
  pub state : PermissionState
  pub bound_at : Option ℕ
  pub closed_at : Option ℕ

-- `files`: `changed` is 0, 1 (changed) or 2 (missing). Paths and names are byte strings.
pub record FileRow : Type 0 where
  pub fid : ℕ
  pub source : List ℕ
  pub relative_path : List ℕ
  pub size : ℕ
  pub sha : ℕ
  pub block_hashes : List ℕ
  pub display_name : List ℕ
  pub root : List ℕ
  pub changed : ℕ

-- `requests`: `next` is written_through + 1, since written_through is -1 before the first byte of a
-- response that starts at 0. `end` is the last byte of the response.
pub record RequestRow : Type 0 where
  pub id : ℕ
  pub jti : ℕ
  pub start : ℕ
  pub end : ℕ
  pub next : ℕ
  pub is_open : Bool
  pub isolated : Bool

-- `offers`
pub data OfferState : Type 0 where
  offered withdrawn : OfferState

pub data KeyClass : Type 0 where
  listing permission_key : KeyClass

pub record OfferRow : Type 0 where
  pub fid : ℕ
  pub sha : ℕ
  pub lvid : ℕ
  pub iid : ℕ
  pub state : OfferState
  pub approved_locally_at : Option ℕ
  pub key_class : KeyClass

-- `serves` and `transmitted`: the segments of one order and file, ordered by start.
abbrev pub Table : Type 0
Table = ℕ → ℕ → List Segment

-- The outcome of a receipt; `unset` is the empty string.
pub data Outcome : Type 0 where
  unset complete in_progress aborted_block_mismatch aborted_deadline : Outcome

-- wire.Receipt
pub record Receipt : Type 0 where
  pub order_id : ℕ
  pub file_id : ℕ
  pub sha256 : ℕ
  pub size_bytes : ℕ
  pub jtis : List ℕ
  pub transmitted : List (ℕ × ℕ)
  pub transmitted_bytes : ℕ
  pub max_serves_reached_bytes : ℕ
  pub outcome : Outcome
  pub blocks_verified : Bool
  pub first_byte_at : Option ℕ
  pub last_byte_at : Option ℕ
  pub seq : ℕ

-- `receipts_outbox`: `body` is the signed token of a receipt, kept as the receipt that it signs.
pub record OutboxRow : Type 0 where
  pub seq : ℕ
  pub body : Receipt
  pub sent_at : Option ℕ

-- wire.RevokeAck, without its constant op.
pub data StateBefore : Type 0 where
  unknown active closed expired : StateBefore

pub record RevokeAck : Type 0 where
  pub jti : ℕ
  pub state_before : StateBefore

pub record Db : Type 0 where
  pub offers : List OfferRow
  pub seen : List ℕ
  pub files : List FileRow
  pub permissions : List PermissionRow
  pub serves : Table
  pub transmitted : Table
  pub requests : List RequestRow
  pub revocations : List ℕ
  pub answers : List (ℕ × RevokeAck)
  pub outbox : List OutboxRow
  pub audited : List (ℕ × ℕ)
  pub completed : List (ℕ × ℕ)

-- Keys of rows.
abbrev pub same_pair : ℕ → ℕ → ℕ × ℕ → Bool
same_pair oid fid (o, f) = o == oid && f == fid

abbrev pub find_permission : Db → ℕ → Option PermissionRow
find_permission db jti = find (λ (p : PermissionRow). p.jti == jti) db.permissions

abbrev pub find_file : Db → ℕ → Option FileRow
find_file db fid = find (λ (f : FileRow). f.fid == fid) db.files

abbrev pub find_offer : Db → ℕ → ℕ → ℕ → Option OfferRow
find_offer db fid sha lvid =
    find (λ (o : OfferRow). o.fid == fid && o.sha == sha && o.lvid == lvid) db.offers

abbrev pub find_request : Db → ℕ → Option RequestRow
find_request db id = find (λ (r : RequestRow). r.id == id) db.requests

-- count(*) FROM revocations WHERE jti=?
abbrev pub is_revoked : Db → ℕ → Bool
is_revoked db jti = exists (λ (j : ℕ). j == jti) db.revocations

-- count(*) FROM completed WHERE oid=? AND fid=?
abbrev pub is_completed : Db → ℕ → ℕ → Bool
is_completed db oid fid = exists (same_pair oid fid) db.completed

-- The order and file of a request: `requests r JOIN permissions p ON p.jti=r.jti`.
abbrev pub owner : Db → RequestRow → Option PermissionRow
owner db r = find_permission db r.jti

-- The next rowid of an INTEGER PRIMARY KEY: one more than the largest.
unfoldable pub max_id : List RequestRow → ℕ
max_id [] = 0
max_id (r ∷ rs) = max r.id (max_id rs)

-- One INSERT INTO serves or transmitted: PRIMARY KEY(oid,fid,start) refuses a second row.
unfoldable pub insert_row : Segment → List Segment → Result (List Segment)
insert_row x [] = ok (x ∷ [])
insert_row x (y ∷ s) =
    let rest = insert_row x s >>= (λ t. ok (y ∷ t)) in
    if x.a == y.a then err constraint else if ltb x.a y.a then ok (x ∷ y ∷ s) else rest

-- The rows that `rewrite` leaves for one order and file: those of s with a count.
unfoldable pub rewrite_rows : List Segment → Result (List Segment)
rewrite_rows [] = ok []
rewrite_rows (x ∷ s) = let rest = rewrite_rows s in if x.c == 0 then rest else rest >>= insert_row x

abbrev pub put_table : Table → ℕ → ℕ → List Segment → Table
put_table t oid fid s o f = if o == oid && f == fid then s else t o f

-- `rewrite`: DELETE the rows of the order and file, then INSERT.
unfoldable pub rewrite : Table → ℕ → ℕ → List Segment → Result Table
rewrite t oid fid s = rewrite_rows s >>= (λ rows. ok (put_table t oid fid rows))

-- `transmitted` has no count column: `segments` reads each of its rows with the count 1.
unfoldable pub rewrite_transmitted : Table → ℕ → ℕ → List Segment → Result Table
rewrite_transmitted t oid fid s =
    rewrite_rows s >>= (λ rows. ok (put_table t oid fid (set_ones rows)))

-- `segments`: SELECT … ORDER BY start.
unfoldable pub segments : Table → ℕ → ℕ → List Segment
segments t oid fid = t oid fid

abbrev pub block_size : ℕ
block_size = 8 * 1048576

-- File.ValidBlocks
unfoldable pub valid_blocks : FileRow → Bool
valid_blocks f = length f.block_hashes == (f.size + block_size - 1) / block_size

-- ===== src/Census/Raw.antt =====
-- The counters of a census (verification/occupancy.go, `censusRaw`), less the findings inside of the
-- files. The format of a member gives its extension class and whether it is an archive.
pub mod Sizes
use aim_data_gateway.Prelude.{
  ℕ, suc, ◌+◌, ◌≡◌, refl, Bool, true, false, not, ◌&&◌, ◌||◌, Option, none, some, List, [], ◌∷◌,
  length, arith, if◌then◌else◌, ◌==◌, ==_iff, inl, inr, ◌⊎◌, Bool-cases,
}
use aim_data_gateway.Prelude.Query.{exists}
use aim_data_gateway.Census.{Bucket, size_bucket}
use aim_data_gateway.Census.Partition.{CensusCell, Cells, members_of, assign, partition}
use aim_data_gateway.Census.Total.{total, is_map, assign-total, partition-total}

pub record Member : Type 0 where
  pub size : ℕ
  pub extension : ℕ
  pub is_archive : Bool

pub data ReadState : Type 0 where
  fully partly not_read : ReadState

-- censusMemberResult
pub record MemberResult : Type 0 where
  pub state : ReadState
  pub reason : Option ℕ
  pub stored_read : ℕ
  pub processed : ℕ
  pub readable : ℕ
  pub unreadable : ℕ
  pub opened : Bool
  pub plain : Bool
  pub entries : ℕ
  pub entry_bytes : ℕ
  pub reasons : Cells

pub record CensusRaw : Type 0 where
  pub members : ℕ
  pub stored : ℕ
  pub archives : ℕ
  pub opened : ℕ
  pub partial : ℕ
  pub entries : ℕ
  pub entry_bytes : ℕ
  pub fully : ℕ
  pub partly : ℕ
  pub unread : ℕ
  pub stored_read : ℕ
  pub processed : ℕ
  pub readable : ℕ
  pub unreadable : ℕ
  pub extensions : Cells
  pub sizes : Cells
  pub reasons : Cells
  pub interior_reasons : Cells

-- The labels of the buckets, in the order of their strings.
abbrev pub bucket_label : Bucket → ℕ
bucket_label Bucket.empty = 1
bucket_label Bucket.under_100kb = 2
bucket_label Bucket.under_100mb = 3
bucket_label Bucket.under_10kb = 4
bucket_label Bucket.under_10mb = 5
bucket_label Bucket.under_1kb = 6
bucket_label Bucket.under_1mb = 7
bucket_label Bucket.over_100mb = 8

-- m[k] += n
unfoldable pub add_to : ℕ → ℕ → Cells → Cells
add_to k n cs = assign k (members_of k cs + n) cs

abbrev pub empty_raw : CensusRaw
empty_raw = record {
  members = 0;
  stored = 0;
  archives = 0;
  opened = 0;
  partial = 0;
  entries = 0;
  entry_bytes = 0;
  fully = 0;
  partly = 0;
  unread = 0;
  stored_read = 0;
  processed = 0;
  readable = 0;
  unreadable = 0;
  extensions = [];
  sizes = [];
  reasons = [];
  interior_reasons = [];
}

-- The loop of newCensusRaw.
unfoldable pub count_members : CensusRaw → List Member → CensusRaw
count_members r [] = r
count_members r (m ∷ ms) =
    count_members
      (record r {
        members = suc r.members;
        stored = r.stored + m.size;
        archives = if m.is_archive then suc r.archives else r.archives;
        extensions = add_to m.extension 1 r.extensions;
        sizes = add_to (bucket_label (size_bucket m.size)) 1 r.sizes;
      })
      ms

unfoldable pub new_census_raw : List Member → CensusRaw
new_census_raw ms = count_members empty_raw ms

abbrev pub count_state : ReadState → CensusRaw → CensusRaw
count_state ReadState.fully r = record r { fully = suc r.fully }
count_state ReadState.partly r = record r { partly = suc r.partly }
count_state ReadState.not_read r = record r { unread = suc r.unread }

abbrev pub count_reason : Option ℕ → Cells → Cells
count_reason none cs = cs
count_reason (some k) cs = add_to k 1 cs

abbrev pub is_fully : ReadState → Bool
is_fully ReadState.fully = true
is_fully _ = false

unfoldable pub add_all : Cells → Cells → Cells
add_all [] cs = cs
add_all (x ∷ xs) cs = add_all xs (add_to x.class x.members cs)

-- An archive that was opened and is not a plain stream.
abbrev pub count_interior : Member → MemberResult → CensusRaw → CensusRaw
count_interior m x r =
    if m.is_archive && x.opened && not x.plain
    then record r {
      opened = suc r.opened;
      partial = if is_fully x.state then r.partial else suc r.partial;
      entries = r.entries + x.entries;
      entry_bytes = r.entry_bytes + x.entry_bytes;
    }
    else r

unfoldable pub add_member : CensusRaw → Member → MemberResult → CensusRaw
add_member r m x =
    let s = count_state x.state r in
    count_interior m x (record s {
      reasons = count_reason x.reason r.reasons;
      stored_read = r.stored_read + x.stored_read;
      processed = r.processed + x.processed;
      readable = r.readable + x.readable;
      unreadable = r.unreadable + x.unreadable;
      interior_reasons = add_all x.reasons r.interior_reasons;
    })

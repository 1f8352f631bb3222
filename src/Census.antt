-- ===== src/Census.antt =====
-- The suppression of small counts in a content census (verification/occupancy.go). Counts are
-- numbers: the scanner only adds to them.
pub mod Partition
pub mod Privacy
pub mod Total
pub mod Raw
use aim_data_gateway.Prelude.{ℕ, ◌-◌, ◌*◌, Bool, true, false, ◌&&◌, ltb, leb, ◌==◌, if◌then◌else◌}

-- countBand
pub data Band : Type 0 where
  band_0 band_1_9 band_10_99 band_100_999 band_1000 : Band

unfoldable pub count_band : ℕ → Band
count_band n =
    if n == 0
    then Band.band_0
    else if ltb n 10
    then Band.band_1_9
    else if ltb n 100
    then Band.band_10_99
    else if ltb n 1000
    then Band.band_100_999
    else Band.band_1000

-- sizeBucket
pub data Bucket : Type 0 where
  empty under_1kb under_10kb under_100kb under_1mb under_10mb under_100mb over_100mb : Bucket

unfoldable pub size_bucket : ℕ → Bucket
size_bucket n =
    if n == 0
    then Bucket.empty
    else if ltb n 1024
    then Bucket.under_1kb
    else if ltb n (10 * 1024)
    then Bucket.under_10kb
    else if ltb n (100 * 1024)
    then Bucket.under_100kb
    else if ltb n 1048576
    then Bucket.under_1mb
    else if ltb n (10 * 1048576)
    then Bucket.under_10mb
    else if ltb n (100 * 1048576)
    then Bucket.under_100mb
    else Bucket.over_100mb

-- A published value (`any`): the exact number, or the band or bucket it lies in.
pub data Published : Type 0 where
  exact : ℕ → Published
  in_band : Band → Published
  in_bucket : Bucket → Published

unfoldable pub population : ℕ → Published
population n = if ltb n 10 then in_band (count_band n) else exact n

pub data FindingState : Type 0 where
  not_checked suppressed checked : FindingState

unfoldable pub finding_state : ℕ → FindingState
finding_state n =
    if n == 0
    then FindingState.not_checked
    else if ltb n 10
    then FindingState.suppressed
    else FindingState.checked

-- `whole-part >= 10`, where whole may be below part.
unfoldable pub part_count : ℕ → ℕ → Published
part_count part whole =
    if leb 10 part && leb 10 (whole - part) then exact part else in_band (count_band part)

unfoldable pub byte_count : ℕ → ℕ → Bool → Published
byte_count n pop is_exact = if leb 10 pop && is_exact then exact n else in_bucket (size_bucket n)

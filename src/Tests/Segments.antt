-- ===== src/Tests/Segments.antt =====
-- Segments of a file of ten bytes.
use aim_data_gateway.Prelude.{
  ℕ, ◌≤◌, ◌<◌, ◌≡◌, ◌≢◌, ◌↔◌, refl, true, List, [], ◌∷◌, arith, ◌&&◌, leb, if◌then◌else◌,
}
use aim_data_gateway.Prelude.Int.{pos, negsuc, pos_part, ◌+ℤ◌}
use aim_data_gateway.Prelude.Result.{ok}
use aim_data_gateway.Segment.{
  Segment, count_at, transform, covered, first_untransmitted, count_bytes, mark,
}
use aim_data_gateway.Ledger.Reserve.{clip}
use aim_data_gateway.Ledger.Reserve.Clip.{clip-below_two}
use aim_data_gateway.Segment.Runs.{IsRuns}
use aim_data_gateway.Segment.Transform.{count_at-transform, transform-IsRuns}
use aim_data_gateway.Segment.Canonical.{transform-transform}
use aim_data_gateway.Segment.Normalize.{count_at-mark}
use aim_data_gateway.Segment.Coverage.{covered_iff, first_untransmitted_lem}
use aim_data_gateway.Segment.Bytes.{count_bytes-covered}

abbrev some_serves : List Segment
some_serves = record { a = 4; b = 6; c = 2 } ∷ record { a = 7; b = 9; c = 1 } ∷ []

some_serves-IsRuns : IsRuns some_serves
some_serves-IsRuns = (
  omega arith,
  omega arith,
  (omega arith, λ e f. omega arith),
  (omega arith, omega arith, tt, tt),
)

count_at-transform_example : count_at (transform some_serves 5 8 (negsuc 0)) 8 ≡ (
    if leb 5 8 && leb 8 8
    then pos_part (pos (count_at some_serves 8) +ℤ negsuc 0)
    else count_at some_serves 8)
count_at-transform_example = count_at-transform some_serves 5 8 (negsuc 0) 8

transform-IsRuns_example : IsRuns (transform some_serves 5 8 (negsuc 0))
transform-IsRuns_example = transform-IsRuns some_serves 5 8 (negsuc 0) some_serves-IsRuns

transform-transform_example :
    transform (transform some_serves 2 8 (pos 1)) 2 8 (negsuc 0) ≡ some_serves
transform-transform_example = transform-transform some_serves 2 8 some_serves-IsRuns

abbrev some_transmitted : List Segment
some_transmitted = record { a = 0; b = 3; c = 1 } ∷ record { a = 6; b = 9; c = 1 } ∷ []

some_transmitted-IsRuns : IsRuns some_transmitted
some_transmitted-IsRuns = (
  omega arith,
  omega arith,
  (omega arith, λ e f. omega arith),
  (omega arith, omega arith, tt, tt),
)

count_at-mark_example :
    count_at (mark some_transmitted 3 5) 4
    ≡ (if leb 3 4 && leb 4 5 then 1 else count_at some_transmitted 4)
count_at-mark_example =
    count_at-mark some_transmitted 3 5 some_transmitted-IsRuns (refl, (refl, tt)) 4

covered_iff_example :
    (covered some_transmitted 6 8 ≡ true)
    ↔ ((x : ℕ) → 6 ≤ x → x ≤ 8 → count_at some_transmitted x ≡ 1)
covered_iff_example =
    covered_iff some_transmitted 6 8 some_transmitted-IsRuns (refl, (refl, tt)) (omega arith)

first_untransmitted_lem_example :
    (first_untransmitted some_transmitted 10 ≤ 10)
    × ((x : ℕ) → x < first_untransmitted some_transmitted 10 → count_at some_transmitted x ≡ 1)
    × (first_untransmitted some_transmitted 10 < 10
        → count_at some_transmitted (first_untransmitted some_transmitted 10) ≡ 0)
first_untransmitted_lem_example =
    first_untransmitted_lem some_transmitted 10 some_transmitted-IsRuns (refl, (refl, tt))

count_bytes-covered_example :
    (count_bytes some_transmitted ≡ 10) ↔ (covered some_transmitted 0 9 ≡ true)
count_bytes-covered_example =
    count_bytes-covered some_transmitted 10 (omega arith) some_transmitted-IsRuns (refl, (refl, tt))
      (omega arith, (omega arith, tt))

clip_run : clip some_serves 2 8 ≡ ok 3
unfolding clip
clip_run = refl

clip-below_two_example : count_at some_serves 3 ≢ 2
clip-below_two_example =
    clip-below_two some_serves 2 8 3 3 some_serves-IsRuns (omega arith) clip_run (omega arith)
      (omega arith)

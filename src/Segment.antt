-- ===== src/Segment.antt =====
-- Byte ranges of one purchased file (internal/ledger/ledger.go): `segment`, `transform`,
-- `covered`, `firstUntransmitted`, `countBytes`, `normalize`.
-- A segment is a closed range a..b of byte positions with a count c. Positions and counts are never
-- negative in the tables, so they are numbers; a change of a count is an integer.
pub mod Runs
pub mod Points
pub mod Transform
pub mod Canonical
pub mod Coverage
pub mod Normalize
pub mod Bytes
use aim_data_gateway.Prelude.{
  ℕ, ◌+◌, ◌-◌, min, max, Bool, true, false, ◌&&◌, List, [], ◌∷◌, ltb, leb, ◌==◌, if◌then◌else◌,
}
use aim_data_gateway.Prelude.Int.{ℤ, pos, pos_part, ◌+ℤ◌, leb_ℤ}

pub record Segment : Type 0 where
  pub a : ℕ
  pub b : ℕ
  pub c : ℕ

-- `x.a <= lo && lo <= x.b`
abbrev pub contains : Segment → ℕ → Bool
contains x lo = leb x.a lo && leb lo x.b

-- The inner loop of `transform`: the count of the first segment that holds the position.
unfoldable pub count_at : List Segment → ℕ → ℕ
count_at [] lo = 0
count_at (x ∷ s) lo = if contains x lo then x.c else count_at s lo

-- `points`: both ends of the change, then both ends of every segment.
unfoldable pub boundaries : List Segment → List ℕ
boundaries [] = []
boundaries (x ∷ s) = x.a ∷ (x.b + 1) ∷ boundaries s

-- `sort.Slice` on the points, by `<`.
unfoldable pub insert_point : ℕ → List ℕ → List ℕ
insert_point p [] = p ∷ []
insert_point p (q ∷ ps) = if leb p q then p ∷ q ∷ ps else q ∷ insert_point p ps

unfoldable pub sort_points : List ℕ → List ℕ
sort_points [] = []
sort_points (p ∷ ps) = insert_point p (sort_points ps)

-- The end of the loop body: extend the last run, or append a new one.
unfoldable pub push_run : List Segment → ℕ → ℕ → ℕ → List Segment
push_run [] lo hi c = record { a = lo; b = hi; c = c } ∷ []
push_run (x ∷ []) lo hi c =
    if (x.b + 1 == lo) && (x.c == c)
    then record x { b = hi } ∷ []
    else x ∷ record { a = lo; b = hi; c = c } ∷ []
push_run (x ∷ y ∷ out) lo hi c = x ∷ push_run (y ∷ out) lo hi c

module _ (s : List Segment) (a b : ℕ) (delta : ℤ) where
  -- The new count at `lo`, before it is tested against 0.
  unfoldable pub shifted : ℕ → ℤ
  shifted lo = if leb a lo && leb lo b then pos (count_at s lo) +ℤ delta else pos (count_at s lo)

  -- One round of the loop, from the point `p` up to the next point `q`: lo is p, and hi is q - 1.
  unfoldable pub sweep_step : List Segment → ℕ → ℕ → List Segment
  sweep_step out p q =
      if leb q p
      then out
      else if leb_ℤ (shifted p) (pos 0)
      then out
      else push_run out p (q - 1) (pos_part (shifted p))

  unfoldable pub sweep : List Segment → List ℕ → List Segment
  sweep out [] = out
  sweep out (p ∷ []) = out
  sweep out (p ∷ q ∷ ps) = sweep (sweep_step out p q) (q ∷ ps)

  unfoldable pub transform : List Segment
  transform = if ltb b a then s else sweep [] (sort_points (a ∷ (b + 1) ∷ boundaries s))

unfoldable pub covered : List Segment → ℕ → ℕ → Bool
covered [] a b = false
covered (x ∷ s) a b = if leb x.a a && leb b x.b then true else covered s a b

-- The loop of `firstUntransmitted`, from the position `next`.
unfoldable pub first_gap : List Segment → ℕ → ℕ
first_gap [] next = next
first_gap (x ∷ s) next =
    let rest = first_gap s (if leb next x.b then x.b + 1 else next) in
    if ltb next x.a then next else rest

unfoldable pub first_untransmitted : List Segment → ℕ → ℕ
first_untransmitted s size = min (first_gap s 0) size

-- x.b - x.a + 1 of a segment with x.a <= x.b.
abbrev pub width : Segment → ℕ
width x = x.b + 1 - x.a

unfoldable pub count_bytes : List Segment → ℕ
count_bytes [] = 0
count_bytes (x ∷ s) = width x + count_bytes s

-- One round of `normalize`: extend the last run of `out`, or append the segment.
unfoldable pub join_run : List Segment → Segment → List Segment
join_run [] x = x ∷ []
join_run (y ∷ []) x =
    if leb x.a (y.b + 1) && (x.c == y.c) then record y { b = max y.b x.b } ∷ [] else y ∷ x ∷ []
join_run (y ∷ z ∷ out) x = y ∷ join_run (z ∷ out) x

unfoldable pub normalize_from : List Segment → List Segment → List Segment
normalize_from out [] = out
normalize_from out (x ∷ s) = normalize_from (join_run out x) s

unfoldable pub normalize : List Segment → List Segment
normalize = normalize_from []

-- `for i := range tr { tr[i].c = 1 }` in `Progress`.
unfoldable pub set_ones : List Segment → List Segment
set_ones [] = []
set_ones (x ∷ s) = record x { c = 1 } ∷ set_ones s

-- The transmitted runs after the positions lo..hi are written, as `Progress` computes them.
unfoldable pub mark : List Segment → ℕ → ℕ → List Segment
mark tr lo hi = normalize (set_ones (transform tr lo hi (pos 1)))

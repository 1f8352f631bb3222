-- ===== src/Segment/Runs.antt =====
-- The shape of a stored list of segments: runs in increasing order, not empty, with positive counts,
-- and no two that could be one. `push_run` keeps it.
use aim_data_gateway.Prelude.{
  ℕ, ◌+◌, ◌≤◌, ◌<◌, ◌≡◌, ◌≢◌, refl, ◌&&◌, List, [], ◌∷◌, arith, leb, ==_iff, if◌then◌else◌,
}
use aim_data_gateway.Segment.{Segment, count_at, push_run}

-- What follows `x` starts after it, and not right behind it with the same count.
abbrev pub Gap : Segment → List Segment → Type 0
Gap x [] = Unit
Gap x (y ∷ s) = (x.b < y.a) × (x.b + 1 ≡ y.a → x.c ≢ y.c)

abbrev pub IsRuns : List Segment → Type 0
IsRuns [] = Unit
IsRuns (x ∷ s) = (x.a ≤ x.b) × (0 < x.c) × Gap x s × IsRuns s

-- Every segment ends before `n`.
abbrev pub EndsBelow : ℕ → List Segment → Type 0
EndsBelow n [] = Unit
EndsBelow n (x ∷ s) = (x.b < n) × EndsBelow n s

pub EndsBelow-le : (m n : ℕ) (s : List Segment) → m ≤ n → EndsBelow m s → EndsBelow n s
EndsBelow-le m n [] l h = tt
EndsBelow-le m n (x ∷ s) l h = (omega arith, EndsBelow-le m n s l h.1)

-- A position past the end of every segment has no count.
pub count_at-above : (n x : ℕ) (s : List Segment) → EndsBelow n s → n ≤ x → count_at s x ≡ 0
unfolding count_at
count_at-above n x [] h l = refl
count_at-above n x (y ∷ s) h l = ground (arith, count_at-above n x s h.1 l)

module _ (lo hi c : ℕ) where
  pub Gap-push_run :
      (x : Segment) (y : Segment) (out : List Segment)
      → Gap x (y ∷ out)
      → Gap x (push_run (y ∷ out) lo hi c)
  unfolding push_run
  Gap-push_run x y [] g = ground (arith)
  Gap-push_run x y (z ∷ out) g = g

  pub push_run-IsRuns :
      (out : List Segment)
      → lo ≤ hi
      → 0 < c
      → IsRuns out
      → EndsBelow lo out
      → IsRuns (push_run out lo hi c)
  unfolding push_run
  push_run-IsRuns [] l p r e = (l, p, tt, tt)
  push_run-IsRuns (x ∷ []) l p r e = ground (arith, ==_iff (x.b + 1) lo, ==_iff x.c c)
  push_run-IsRuns (x ∷ y ∷ out) l p r e =
      (r.0, r.1, Gap-push_run x y out r.2, push_run-IsRuns (y ∷ out) l p r.3 e.1)

  pub push_run-EndsBelow :
      (out : List Segment) (n : ℕ)
      → lo ≤ hi
      → hi < n
      → EndsBelow lo out
      → EndsBelow n (push_run out lo hi c)
  unfolding push_run
  push_run-EndsBelow [] n l u e = (omega arith, tt)
  push_run-EndsBelow (x ∷ []) n l u e = ground arith
  push_run-EndsBelow (x ∷ y ∷ out) n l u e = (omega arith, push_run-EndsBelow (y ∷ out) n l u e.1)

  -- The positions lo..hi get the count c, and no other position changes.
  pub count_at-push_run :
      (x : ℕ) (out : List Segment)
      → lo ≤ hi
      → IsRuns out
      → EndsBelow lo out
      → count_at (push_run out lo hi c) x ≡ (if leb lo x && leb x hi then c else count_at out x)
  unfolding push_run count_at
  count_at-push_run x [] l r e = ground arith
  count_at-push_run x (y ∷ []) l r e = ground arith
  count_at-push_run x (y ∷ z ∷ out) l r e = ground (arith, count_at-push_run x (z ∷ out) l r.3 e.1)

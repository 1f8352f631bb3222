-- ===== src/Segment/Bytes.antt =====
-- `countBytes` of the transmitted runs, against the number of positions that count.
use aim_data_gateway.Prelude.{
  ℕ, zero, suc, min, ◌+◌, ◌-◌, ◌≤◌, ◌<◌, ◌≡◌, ◌↔◌, refl, inl, inr, ap, ◌∙◌, true, Bool-cases, ◌==◌,
  ==_iff, ◌&&◌, List, [], ◌∷◌, arith, leb, if◌then◌else◌,
}
use aim_data_gateway.Segment.{Segment, count_at, covered, count_bytes}
use aim_data_gateway.Segment.Runs.{IsRuns, EndsBelow}
use aim_data_gateway.Segment.Canonical.{count_at-before}
use aim_data_gateway.Segment.Normalize.{AllOnes, AllOnes-count_at}
use aim_data_gateway.Segment.Coverage.{covered_iff}

-- How many of the positions below `n` have a count.
abbrev pub sum_below : ℕ → (ℕ → ℕ) → ℕ
sum_below zero f = 0
sum_below (suc n) f = sum_below n f + f n

sum_below-add :
    (n : ℕ) (f g h : ℕ → ℕ)
    → ((x : ℕ) → f x ≡ g x + h x)
    → sum_below n f ≡ sum_below n g + sum_below n h
sum_below-add zero f g h e = omega arith
sum_below-add (suc n) f g h e = omega (arith, sum_below-add n f g h e, e n)

abbrev indicator : ℕ → ℕ → ℕ → ℕ
indicator a b x = if leb a x && leb x b then 1 else 0

sum_below-indicator : (n a b : ℕ) → a ≤ b → sum_below n (indicator a b) ≡ min n (b + 1) - min n a
sum_below-indicator zero a b l = omega arith
sum_below-indicator (suc n) a b l = ground (arith, sum_below-indicator n a b l)

sum_below-zero : (n : ℕ) → 0 ≡ sum_below n (λ x. 0)
sum_below-zero zero = refl
sum_below-zero (suc n) = omega (arith, sum_below-zero n)

-- The count at a position is that of the first run there, or of the others: never both.
count_at-split :
    (y : Segment) (s : List Segment) (x : ℕ)
    → IsRuns (y ∷ s)
    → y.c ≡ 1
    → count_at (y ∷ s) x ≡ indicator y.a y.b x + count_at s x
unfolding count_at
count_at-split y s x r o = ground (arith, count_at-before y s x r.2 r.3)

-- `countBytes` is the number of positions below the size that count.
pub count_bytes-sum_below :
    (s : List Segment) (n : ℕ)
    → IsRuns s
    → AllOnes s
    → EndsBelow n s
    → count_bytes s ≡ sum_below n (count_at s)
unfolding count_bytes
count_bytes-sum_below [] n r o e = unfold count_at in sum_below-zero n
count_bytes-sum_below (y ∷ s) n r o e = omega (
  arith,
  count_bytes-sum_below s n r.3 o.1 e.1,
  sum_below-indicator n y.a y.b r.0,
  sum_below-add n (count_at (y ∷ s)) (indicator y.a y.b) (count_at s)
      (λ x. count_at-split y s x r o.0),
)

-- A sum of n counts of at most 1 is n only if every one of them is 1.
sum_below-le : (n : ℕ) (f : ℕ → ℕ) → ((x : ℕ) → f x ≤ 1) → sum_below n f ≤ n
sum_below-le zero f h = omega arith
sum_below-le (suc n) f h = omega (arith, sum_below-le n f h, h n)

sum_below-full :
    (n : ℕ) (f : ℕ → ℕ) → ((x : ℕ) → f x ≤ 1) → sum_below n f ≡ n → (x : ℕ) → x < n → f x ≡ 1
sum_below-full zero f h e x l = absurd (omega arith)
sum_below-full (suc n) f h e x l = elim (Bool-cases (x == n)) [
  | inl at ↦ ap f ((==_iff x n).0 at) ∙ omega (arith, h n, sum_below-le n f h)
  | inr other ↦ sum_below-full n f h (omega (arith, h n, sum_below-le n f h)) x (ground arith)
]

sum_below-ones : (n : ℕ) (f : ℕ → ℕ) → ((x : ℕ) → x < n → f x ≡ 1) → sum_below n f ≡ n
sum_below-ones zero f h = refl
sum_below-ones (suc n) f h =
    omega (arith, h n (omega arith), sum_below-ones n f (λ x l. h x (omega arith)))

-- `countBytes` is the size exactly if every position below it counts.
pub count_bytes-full :
    (s : List Segment) (size : ℕ)
    → IsRuns s
    → AllOnes s
    → EndsBelow size s
    → (count_bytes s ≡ size) ↔ ((x : ℕ) → x < size → count_at s x ≡ 1)
count_bytes-full s size r o e = (
  λ h.
      sum_below-full size (count_at s) (λ y. AllOnes-count_at s y o)
        (omega (arith, count_bytes-sum_below s size r o e)),
  λ h. count_bytes-sum_below s size r o e ∙ sum_below-ones size (count_at s) h,
)

-- For a file that is not empty, and whose stored transmitted runs end below its size: the bytes that
-- they count are the size exactly if the whole file is covered.
pub count_bytes-covered :
    (s : List Segment) (size : ℕ)
    → 0 < size
    → IsRuns s
    → AllOnes s
    → EndsBelow size s
    → (count_bytes s ≡ size) ↔ (covered s 0 (size - 1) ≡ true)
count_bytes-covered s size pos_size r o e =
    let full = count_bytes-full s size r o e in
    let whole = covered_iff s 0 (size - 1) r o (omega arith) in
    (
      λ h. whole.1 (λ x l u. full.0 h x (omega arith)),
      λ h. full.1 (λ x l. whole.0 h x (omega arith) (omega arith)),
    )

-- ===== src/Segment/Coverage.antt =====
-- What the questions about the transmitted runs answer: `covered`, `firstUntransmitted` and
-- `countBytes`.
use aim_data_gateway.Prelude.{
  ℕ, min, ◌+◌, ◌≤◌, ◌<◌, ◌≡◌, ◌↔◌, refl, sym, ◌∙◌, inl, inr, true, false, ◌&&◌, List, [], ◌∷◌,
  arith, ltb, leb, ltb→lt, Bool-cases,
}
use aim_data_gateway.Segment.{Segment, count_at, covered, first_gap, first_untransmitted}
use aim_data_gateway.Segment.Runs.{IsRuns}
use aim_data_gateway.Segment.Canonical.{count_at-before, count_at-tail, count_at-behind}
use aim_data_gateway.Segment.Normalize.{AllOnes, Starts, Gap-Starts, Starts-zero}

covered-count_at :
    (s : List Segment) (a b x : ℕ)
    → AllOnes s
    → covered s a b ≡ true
    → a ≤ x
    → x ≤ b
    → count_at s x ≡ 1
unfolding covered count_at
covered-count_at [] a b x o h l u = absurd (ground arith)
covered-count_at (y ∷ s) a b x o h l u = ground (arith, covered-count_at s a b x o.1)

-- Where the first run does not cover a..b, but all of a..b has a count, a..b lies behind it.
past_head :
    (y : Segment) (s : List Segment) (a b : ℕ)
    → IsRuns (y ∷ s)
    → y.c ≡ 1
    → a ≤ b
    → ((x : ℕ) → a ≤ x → x ≤ b → count_at (y ∷ s) x ≡ 1)
    → (leb y.a a && leb b y.b) ≡ false
    → y.b < a
unfolding count_at
past_head y s a b r one l h p =
    ground (arith, h a, h (y.b + 1), count_at-before y s a r.2 r.3, count_at-behind y s r.2 r.3 r.1)

count_at-covered :
    (s : List Segment) (a b : ℕ)
    → IsRuns s
    → AllOnes s
    → a ≤ b
    → ((x : ℕ) → a ≤ x → x ≤ b → count_at s x ≡ 1)
    → covered s a b ≡ true
unfolding covered
count_at-covered [] a b r o l h = unfold count_at in absurd (ground (arith, h a))
count_at-covered (y ∷ s) a b r o l h = elim (Bool-cases (leb y.a a && leb b y.b)) [
  | inl e ↦ rw e
  | inr e ↦
      let p = past_head y s a b r o.0 l h e in
      rw e (
        count_at-covered s a b r.3 o.1 l
          λ x la ub. sym (count_at-tail y s x (omega arith)) ∙ h x la ub)
]

-- Over stored runs of count 1, `covered` tells exactly whether every position of the range counts.
pub covered_iff :
    (s : List Segment) (a b : ℕ)
    → IsRuns s
    → AllOnes s
    → a ≤ b
    → (covered s a b ≡ true) ↔ ((x : ℕ) → a ≤ x → x ≤ b → count_at s x ≡ 1)
covered_iff s a b r o l = (λ h x. covered-count_at s a b x o h, λ h. count_at-covered s a b r o l h)

-- `g` is the first position from `n` on that has no count.
pub record IsFirstGap (s : List Segment) (n g : ℕ) : Type 0 where
  pub reached : n ≤ g
  pub filled : (x : ℕ) → n ≤ x → x < g → count_at s x ≡ 1
  pub open_at : count_at s g ≡ 0

gap_before_head :
    (y : Segment) (s : List Segment) (n : ℕ) → IsRuns (y ∷ s) → n < y.a → IsFirstGap (y ∷ s) n n
gap_before_head y s n r l = record {
  reached = omega arith;
  filled = λ x a b. absurd (omega arith);
  open_at = unfold count_at in ground (arith, count_at-before y s n r.2 r.3);
}

gap_behind_head :
    (y : Segment) (s : List Segment) (n g : ℕ)
    → IsRuns (y ∷ s)
    → y.c ≡ 1
    → n ≡ y.a
    → IsFirstGap s (y.b + 1) g
    → IsFirstGap (y ∷ s) n g
gap_behind_head y s n g r o e h = record {
  reached = omega arith;
  filled = λ x a b. unfold count_at in ground (arith, h.filled x);
  open_at = count_at-tail y s g (omega arith) ∙ h.open_at;
}

first_gap-IsFirstGap :
    (s : List Segment) (n : ℕ) → IsRuns s → AllOnes s → Starts n s → IsFirstGap s n (first_gap s n)
unfolding first_gap
first_gap-IsFirstGap [] n r o st = record {
  reached = omega arith;
  filled = λ x l u. absurd (omega arith);
  open_at = unfold count_at in refl;
}
first_gap-IsFirstGap (y ∷ s) n r o st = elim (Bool-cases (ltb n y.a)) [
  | inl e ↦ rw e (gap_before_head y s n r (ltb→lt n y.a e))
  | inr e ↦
      let at_head : n ≡ y.a = ground arith in
      let inside : leb n y.b ≡ true = ground arith in
      rw (e, inside)
        (gap_behind_head y s n _ r o.0 at_head
          (first_gap-IsFirstGap s (y.b + 1) r.3 o.1 (Gap-Starts y s r.2)))
]

-- `firstUntransmitted` is at most the size, every position below it counts as transmitted, and it
-- is itself not transmitted unless it is the size.
pub first_untransmitted_lem :
    (s : List Segment) (size : ℕ)
    → IsRuns s
    → AllOnes s
    → (first_untransmitted s size ≤ size)
      × ((x : ℕ) → x < first_untransmitted s size → count_at s x ≡ 1)
      × (first_untransmitted s size < size → count_at s (first_untransmitted s size) ≡ 0)
unfolding first_untransmitted
first_untransmitted_lem s size r o =
    let g = first_gap-IsFirstGap s 0 r o (Starts-zero s) in
    (omega arith, λ x l. g.filled x (omega arith) (omega arith), λ l. least l g.open_at)
  where
    least :
        min (first_gap s 0) size < size
        → count_at s (first_gap s 0) ≡ 0
        → count_at s (min (first_gap s 0) size) ≡ 0
    least l z = let e : min (first_gap s 0) size ≡ first_gap s 0 = omega arith in rw e z

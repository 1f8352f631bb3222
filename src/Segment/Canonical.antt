-- ===== src/Segment/Canonical.antt =====
-- Stored lists of runs against the counts of their positions (internal/ledger/ledger.go, `transform`).
use aim_data_gateway.Prelude.{
  ℕ, ◌+◌, ◌≤◌, ◌<◌, ◌≡◌, ◌≢◌, refl, sym, ◌∙◌, inl, inr, List, [], ◌∷◌, arith, leb, leb→le,
  Bool-cases,
}
use aim_data_gateway.Prelude.Int.{pos, negsuc, ◌+ℤ◌}
use aim_data_gateway.Segment.{Segment, count_at, transform}
use aim_data_gateway.Segment.Runs.{Gap, IsRuns}
use aim_data_gateway.Segment.Transform.{count_at-transform, transform-IsRuns}

pub count_at-before :
    (x : Segment) (s : List Segment) (z : ℕ) → Gap x s → IsRuns s → z ≤ x.b → count_at s z ≡ 0
unfolding count_at
count_at-before x [] z g r l = refl
count_at-before x (y ∷ s) z g r l = ground (arith, count_at-before y s z r.2 r.3)

pub count_at-tail :
    (x : Segment) (s : List Segment) (z : ℕ) → x.b < z → count_at (x ∷ s) z ≡ count_at s z
unfolding count_at
count_at-tail x s z l = ground arith

pub count_at-front :
    (x : Segment) (s : List Segment) (z : ℕ) → IsRuns (x ∷ s) → z < x.a → count_at (x ∷ s) z ≡ 0
unfolding count_at
count_at-front x s z r l = ground (arith, count_at-before x s z r.2 r.3)

pub count_at-inside :
    (x : Segment) (s : List Segment) (z : ℕ) → x.a ≤ z → z ≤ x.b → count_at (x ∷ s) z ≡ x.c
unfolding count_at
count_at-inside x s z l u = ground arith

-- Right behind a run the count is another one.
pub count_at-behind :
    (x : Segment) (s : List Segment) → Gap x s → IsRuns s → 0 < x.c → count_at s (x.b + 1) ≢ x.c
unfolding count_at
count_at-behind x [] g r p e = omega arith
count_at-behind x (y ∷ s) g r p e = ground (arith, count_at-before y s (x.b + 1) r.2 r.3)

module _ (x : Segment) (s : List Segment) (y : Segment) (t : List Segment) where
  heads_start :
      IsRuns (x ∷ s) → IsRuns (y ∷ t) → count_at (x ∷ s) x.a ≡ count_at (y ∷ t) x.a → y.a ≤ x.a
  unfolding count_at
  heads_start r q e = ground (arith, count_at-before y t x.a q.2 q.3)

  heads_end :
      IsRuns (x ∷ s)
      → IsRuns (y ∷ t)
      → x.a ≡ y.a
      → x.c ≡ y.c
      → count_at (x ∷ s) (x.b + 1) ≡ count_at (y ∷ t) (x.b + 1)
      → y.b ≤ x.b
  unfolding count_at
  heads_end r q ea ec e = ground (arith, count_at-behind x s r.2 r.3 r.1)

  heads_count :
      IsRuns (x ∷ s)
      → IsRuns (y ∷ t)
      → x.a ≡ y.a
      → count_at (x ∷ s) x.a ≡ count_at (y ∷ t) x.a
      → x.c ≡ y.c
  unfolding count_at
  heads_count r q ea e = ground arith

  tails_count :
      (z : ℕ)
      → IsRuns (x ∷ s)
      → IsRuns (y ∷ t)
      → x.a ≡ y.a
      → x.b ≡ y.b
      → count_at (x ∷ s) z ≡ count_at (y ∷ t) z
      → count_at s z ≡ count_at t z
  tails_count z r q ea eb e = elim (Bool-cases (leb z x.b)) [
    | inl l ↦
        count_at-before x s z r.2 r.3 (leb→le z x.b l)
        ∙ sym (count_at-before y t z q.2 q.3 (omega (arith, leb→le z x.b l)))
    | inr g ↦ sym (count_at-tail x s z (ground arith)) ∙ e ∙ count_at-tail y t z (ground arith)
  ]

  cons_path : x.a ≡ y.a → x.b ≡ y.b → x.c ≡ y.c → s ≡ t → ◌≡◌ {A = List Segment} (x ∷ s) (y ∷ t)
  cons_path ea eb ec et i = record { a = ea i; b = eb i; c = ec i } ∷ et i

-- Two lists of runs with the same counts at all positions are equal.
pub IsRuns-canonical :
    (s t : List Segment) → IsRuns s → IsRuns t → ((x : ℕ) → count_at s x ≡ count_at t x) → s ≡ t
IsRuns-canonical [] [] r q h = refl
IsRuns-canonical [] (y ∷ t) r q h = unfold count_at in absurd (ground (arith, h y.a))
IsRuns-canonical (x ∷ s) [] r q h = unfold count_at in absurd (ground (arith, h x.a))
IsRuns-canonical (x ∷ s) (y ∷ t) r q h =
    let ea : x.a ≡ y.a =
      omega (arith, heads_start x s y t r q (h x.a), heads_start y t x s q r (sym (h y.a))) in
    let ec : x.c ≡ y.c = heads_count x s y t r q ea (h x.a) in
    let eb : x.b ≡ y.b = omega (
      arith,
      heads_end x s y t r q ea ec (h (x.b + 1)),
      heads_end y t x s q r (sym ea) (sym ec) (sym (h (y.b + 1))),
    ) in
    cons_path x s y t ea eb ec
      (IsRuns-canonical s t r.3 q.3 (λ z. tails_count x s y t z r q ea eb (h z)))

-- On stored runs, adding 1 on a range and then subtracting 1 on it restores the list.
pub transform-transform :
    (s : List Segment) (a b : ℕ) → IsRuns s → transform (transform s a b (pos 1)) a b (negsuc 0) ≡ s
unfolding ◌+ℤ◌
transform-transform s a b r =
    IsRuns-canonical _ s
      (transform-IsRuns (transform s a b (pos 1)) a b (negsuc 0) (transform-IsRuns s a b (pos 1) r))
      r
      λ x. ground (
        arith,
        count_at-transform (transform s a b (pos 1)) a b (negsuc 0) x,
        count_at-transform s a b (pos 1) x,
      )

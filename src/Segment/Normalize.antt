-- ===== src/Segment/Normalize.antt =====
-- The update of the transmitted runs in `Progress`: a range is added, every count is set to 1, and
-- `normalize` joins the runs that then touch.
use aim_data_gateway.Prelude.{
  ℕ, min, ◌+◌, ◌≤◌, ◌<◌, ◌≡◌, refl, ap, ◌∙◌, ◌&&◌, List, [], ◌∷◌, All, arith, ltb, leb,
  if◌then◌else◌,
}
use aim_data_gateway.Prelude.Int.{pos, ◌+ℤ◌}
use aim_data_gateway.Segment.{
  Segment, count_at, push_run, join_run, normalize_from, normalize, transform, set_ones, mark,
}
use aim_data_gateway.Segment.Runs.{
  Gap, IsRuns, EndsBelow, EndsBelow-le, count_at-above, push_run-IsRuns, push_run-EndsBelow,
  count_at-push_run,
}
use aim_data_gateway.Segment.Transform.{count_at-transform, transform-IsRuns}

abbrev pub AllOnes : List Segment → Type 0
AllOnes = All (λ x. x.c ≡ 1)

-- Increasing and disjoint; runs may touch.
abbrev IsOrdered : ℕ → List Segment → Type 0
IsOrdered n [] = Unit
IsOrdered n (x ∷ s) = (n ≤ x.a) × (x.a ≤ x.b) × IsOrdered (x.b + 1) s

-- Behind runs that end before it, a segment of count 1 is joined as `transform` joins it.
join_run-push_run :
    (out : List Segment) (x : Segment)
    → AllOnes out
    → x.c ≡ 1
    → x.a ≤ x.b
    → EndsBelow x.a out
    → join_run out x ≡ push_run out x.a x.b 1
unfolding join_run push_run
join_run-push_run [] x o e l h = λ i. record { a = x.a; b = x.b; c = e i } ∷ []
join_run-push_run (y ∷ []) x o e l h = ground arith
join_run-push_run (y ∷ z ∷ out) x o e l h =
    ap (λ t. y ∷ t) (join_run-push_run (z ∷ out) x o.1 e l h.1)

push_run-AllOnes : (out : List Segment) (lo hi : ℕ) → AllOnes out → AllOnes (push_run out lo hi 1)
unfolding push_run
push_run-AllOnes [] lo hi o = (refl, tt)
push_run-AllOnes (y ∷ []) lo hi o = ground arith
push_run-AllOnes (y ∷ z ∷ out) lo hi o = (o.0, push_run-AllOnes (z ∷ out) lo hi o.1)

count_at-IsOrdered_before :
    (n : ℕ) (s : List Segment) (x : ℕ) → IsOrdered n s → x < n → count_at s x ≡ 0
unfolding count_at
count_at-IsOrdered_before n [] x d l = refl
count_at-IsOrdered_before n (y ∷ s) x d l =
    ground (arith, count_at-IsOrdered_before (y.b + 1) s x d.2)

joined_count :
    (n : ℕ) (out s : List Segment) (y : Segment) (x : ℕ)
    → EndsBelow n out
    → IsOrdered n (y ∷ s)
    → y.c ≡ 1
    → count_at (push_run out y.a y.b 1) x ≡ (if leb y.a x && leb x y.b then 1 else count_at out x)
    → (if ltb x (y.b + 1) then count_at (push_run out y.a y.b 1) x else count_at s x)
      ≡ (if ltb x n then count_at out x else count_at (y ∷ s) x)
unfolding count_at
joined_count n out s y x e d one p =
    ground (arith, p, count_at-above n x out e, count_at-IsOrdered_before (y.b + 1) s x d.2)

-- What `normalize` keeps of the runs that it has built when it reaches `s`.
normalize_from_lem :
    (n : ℕ) (out s : List Segment)
    → IsRuns out
    → AllOnes out
    → EndsBelow n out
    → IsOrdered n s
    → AllOnes s
    → IsRuns (normalize_from out s)
      × AllOnes (normalize_from out s)
      × ((x : ℕ)
          → count_at (normalize_from out s) x ≡ (if ltb x n then count_at out x else count_at s x))
unfolding normalize_from
normalize_from_lem n out [] r o e d os =
    (r, o, λ x. unfold count_at in ground (arith, count_at-above n x out e))
normalize_from_lem n out (y ∷ s) r o e d os =
    let e' : EndsBelow y.a out = EndsBelow-le n y.a out d.0 e in
    let joined = join_run-push_run out y o os.0 d.1 e' in
    let ih =
      normalize_from_lem (y.b + 1) (push_run out y.a y.b 1) s
        (push_run-IsRuns y.a y.b 1 out d.1 (omega arith) r e') (push_run-AllOnes out y.a y.b o)
        (push_run-EndsBelow y.a y.b 1 out (y.b + 1) d.1 (omega arith) e') d.2 os.1 in
    rw joined (
      ih.0,
      ih.1,
      λ x. ih.2 x ∙ joined_count n out s y x e d os.0 (count_at-push_run y.a y.b 1 x out d.1 r e'),
    )

abbrev pub Starts : ℕ → List Segment → Type 0
Starts n [] = Unit
Starts n (y ∷ s) = n ≤ y.a

pub Gap-Starts : (x : Segment) (s : List Segment) → Gap x s → Starts (x.b + 1) s
Gap-Starts x [] g = tt
Gap-Starts x (y ∷ s) g = omega arith

set_ones-IsOrdered : (n : ℕ) (s : List Segment) → Starts n s → IsRuns s → IsOrdered n (set_ones s)
unfolding set_ones
set_ones-IsOrdered n [] h r = tt
set_ones-IsOrdered n (y ∷ s) h r = (h, r.0, set_ones-IsOrdered (y.b + 1) s (Gap-Starts y s r.2) r.3)

pub Starts-zero : (s : List Segment) → Starts 0 s
Starts-zero [] = tt
Starts-zero (y ∷ s) = omega arith

set_ones-AllOnes : (s : List Segment) → AllOnes (set_ones s)
unfolding set_ones
set_ones-AllOnes [] = tt
set_ones-AllOnes (y ∷ s) = (refl, set_ones-AllOnes s)

-- The positions that had a count have the count 1.
count_at-set_ones :
    (s : List Segment) (x : ℕ) → IsRuns s → count_at (set_ones s) x ≡ min 1 (count_at s x)
unfolding set_ones count_at
count_at-set_ones [] x r = refl
count_at-set_ones (y ∷ s) x r = ground (arith, count_at-set_ones s x r.3)

pub AllOnes-count_at : (s : List Segment) (x : ℕ) → AllOnes s → count_at s x ≤ 1
unfolding count_at
AllOnes-count_at [] x o = omega arith
AllOnes-count_at (y ∷ s) x o = ground (arith, AllOnes-count_at s x o.1)

module _ (tr : List Segment) (lo hi : ℕ) where
  marked :
      IsRuns tr
      → IsRuns (mark tr lo hi)
        × AllOnes (mark tr lo hi)
        × ((x : ℕ)
            → count_at (mark tr lo hi) x ≡ count_at (set_ones (transform tr lo hi (pos 1))) x)
  unfolding mark normalize
  marked r =
      let changed = transform-IsRuns tr lo hi (pos 1) r in
      let t = set_ones (transform tr lo hi (pos 1)) in
      let (r', o', c) =
        normalize_from_lem 0 [] t tt tt tt
          (set_ones-IsOrdered 0 _ (Starts-zero (transform tr lo hi (pos 1))) changed)
          (set_ones-AllOnes (transform tr lo hi (pos 1))) in
      (r', o', λ x. c x ∙ ground arith)

  -- After the positions lo..hi are marked, they count as transmitted, and no other position
  -- changes.
  pub count_at-mark :
      IsRuns tr
      → AllOnes tr
      → (x : ℕ) → count_at (mark tr lo hi) x ≡ (if leb lo x && leb x hi then 1 else count_at tr x)
  unfolding ◌+ℤ◌
  count_at-mark r o x =
      (marked r).2 x
      ∙ count_at-set_ones (transform tr lo hi (pos 1)) x (transform-IsRuns tr lo hi (pos 1) r)
      ∙ ground (arith, count_at-transform tr lo hi (pos 1) x, AllOnes-count_at tr x o)

  pub mark-IsRuns : IsRuns tr → IsRuns (mark tr lo hi)
  mark-IsRuns r = (marked r).0

  pub mark-AllOnes : IsRuns tr → AllOnes (mark tr lo hi)
  mark-AllOnes r = (marked r).1

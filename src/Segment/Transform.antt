-- ===== src/Segment/Transform.antt =====
-- The counts and the shape of what `transform` returns (internal/ledger/ledger.go).
use aim_data_gateway.Prelude.{
  ℕ, ◌+◌, ◌-◌, ◌≤◌, ◌<◌, ◌≡◌, refl, ◌⊎◌, inl, inr, ◌&&◌, List, [], ◌∷◌, arith, ltb, leb,
  if◌then◌else◌, Bool-cases,
}
use aim_data_gateway.Prelude.Int.{ℤ, pos, pos_part, ◌+ℤ◌}
use aim_data_gateway.Segment.{
  Segment, count_at, boundaries, sort_points, shifted, sweep_step, sweep, transform,
}
use aim_data_gateway.Segment.Runs.{
  IsRuns, EndsBelow, EndsBelow-le, count_at-above, push_run-IsRuns, push_run-EndsBelow,
  count_at-push_run,
}
use aim_data_gateway.Segment.Points.{
  IsSorted, last_from, Elem, Avoids, sort_points-IsSorted, Elem-sort_points, Elem-Avoids,
  Elem-bounds,
}

-- `f` is constant from each point up to the next.
abbrev Steady : (ℕ → ℕ) → List ℕ → Type 0
Steady f [] = Unit
Steady f (p ∷ []) = Unit
Steady f (p ∷ q ∷ ps) = ((x : ℕ) → p ≤ x → x < q → f x ≡ f p) × Steady f (q ∷ ps)

module _ (s : List Segment) (a b : ℕ) (delta : ℤ) where
  -- The count that the sweep gives the position `x`.
  level : ℕ → ℕ
  level x = pos_part (shifted s a b delta x)

  step_IsRuns :
      (out : List Segment) (p q : ℕ)
      → p ≤ q
      → IsRuns out
      → EndsBelow p out
      → IsRuns (sweep_step s a b delta out p q) × EndsBelow q (sweep_step s a b delta out p q)
  unfolding sweep_step level
  step_IsRuns out p q l r e = ground (
    arith,
    EndsBelow-le p q out l e,
    push_run-IsRuns p (q - 1) (level p) out,
    push_run-EndsBelow p (q - 1) (level p) out q,
  )

  count_at-step :
      (x : ℕ) (out : List Segment) (p q : ℕ)
      → p ≤ q
      → IsRuns out
      → EndsBelow p out
      → ((y : ℕ) → p ≤ y → y < q → level y ≡ level p)
      → count_at (sweep_step s a b delta out p q) x
        ≡ (if leb p x && ltb x q then level x else count_at out x)
  unfolding sweep_step level
  count_at-step x out p q l r e steady =
      ground
        (arith, steady x, count_at-above p x out e, count_at-push_run p (q - 1) (level p) x out)

  sweep-IsRuns :
      (out : List Segment) (p : ℕ) (ps : List ℕ)
      → IsSorted (p ∷ ps)
      → IsRuns out
      → EndsBelow p out
      → IsRuns (sweep s a b delta out (p ∷ ps))
  unfolding sweep
  sweep-IsRuns out p [] h r e = r
  sweep-IsRuns out p (q ∷ ps) h r e =
      let (r', e') = step_IsRuns out p q h.0.0 r e in
      sweep-IsRuns (sweep_step s a b delta out p q) q ps h.1 r' e'

  count_at-sweep :
      (x : ℕ) (out : List Segment) (p : ℕ) (ps : List ℕ)
      → IsSorted (p ∷ ps)
      → IsRuns out
      → EndsBelow p out
      → Steady level (p ∷ ps)
      → count_at (sweep s a b delta out (p ∷ ps)) x
        ≡ (if leb p x && ltb x (last_from p ps) then level x else count_at out x)
  unfolding sweep
  count_at-sweep x out p [] h r e st = ground arith
  count_at-sweep x out p (q ∷ ps) h r e st =
      let (r', e') = step_IsRuns out p q h.0.0 r e in
      ground (
        arith,
        count_at-sweep x (sweep_step s a b delta out p q) q ps h.1 r' e' st.1,
        count_at-step x out p q h.0.0 r e st.0,
        (Elem-bounds q q ps h.1 (inl refl)).1,
      )

-- Each end of each segment of `s` is avoided by the points.
abbrev AllAvoid : List Segment → List ℕ → Type 0
AllAvoid [] ps = Unit
AllAvoid (y ∷ s) ps = Avoids y.a ps × Avoids (y.b + 1) ps × AllAvoid s ps

AllAvoid-Elem :
    (s : List Segment) (ps : List ℕ)
    → IsSorted ps
    → ((m : ℕ) → Elem m (boundaries s) → Elem m ps)
    → AllAvoid s ps
unfolding boundaries
AllAvoid-Elem [] ps h f = tt
AllAvoid-Elem (y ∷ s) ps h f = (
  Elem-Avoids y.a ps h (f y.a (inl refl)),
  Elem-Avoids (y.b + 1) ps h (f (y.b + 1) (inr (inl refl))),
  AllAvoid-Elem s ps h (λ m e. f m (inr (inr e))),
)

AllAvoid-tail :
    (s : List Segment) (p q : ℕ) (ps : List ℕ) → AllAvoid s (p ∷ q ∷ ps) → AllAvoid s (q ∷ ps)
AllAvoid-tail [] p q ps h = tt
AllAvoid-tail (y ∷ s) p q ps h = (h.0.1, h.1.1, AllAvoid-tail s p q ps h.2)

-- Between two consecutive points the looked up count does not change.
count_at-steady :
    (s : List Segment) (p q : ℕ) (ps : List ℕ) (x : ℕ)
    → AllAvoid s (p ∷ q ∷ ps)
    → p ≤ x
    → x < q
    → count_at s x ≡ count_at s p
unfolding count_at
count_at-steady [] p q ps x h l u = refl
count_at-steady (y ∷ s) p q ps x h l u =
    ground (arith, h.0.0, h.1.0, count_at-steady s p q ps x h.2 l u)

level-Steady :
    (s : List Segment) (a b : ℕ) (delta : ℤ) (ps : List ℕ)
    → AllAvoid s ps
    → Avoids a ps
    → Avoids (b + 1) ps
    → Steady (level s a b delta) ps
unfolding level shifted
level-Steady s a b delta [] h ha hb = tt
level-Steady s a b delta (p ∷ []) h ha hb = tt
level-Steady s a b delta (p ∷ q ∷ ps) h ha hb = (
  λ x l u. ground (arith, count_at-steady s p q ps x h l u, ha.0, hb.0),
  level-Steady s a b delta (q ∷ ps) (AllAvoid-tail s p q ps h) ha.1 hb.1,
)

-- Outside the span of the points there is no segment.
count_at-outside :
    (s : List Segment) (lo hi x : ℕ)
    → ((m : ℕ) → Elem m (boundaries s) → (lo ≤ m) × (m ≤ hi))
    → (x < lo) ⊎ (hi ≤ x)
    → count_at s x ≡ 0
unfolding count_at boundaries
count_at-outside [] lo hi x f o = refl
count_at-outside (y ∷ s) lo hi x f o = ground (
  arith,
  f y.a (inl refl),
  f (y.b + 1) (inr (inl refl)),
  count_at-outside s lo hi x (λ m e. f m (inr (inr e))) o,
)

level-outside :
    (s : List Segment) (a b : ℕ) (delta : ℤ) (lo hi x : ℕ)
    → ((m : ℕ) → Elem m (a ∷ (b + 1) ∷ boundaries s) → (lo ≤ m) × (m ≤ hi))
    → (x < lo) ⊎ (hi ≤ x)
    → level s a b delta x ≡ 0
unfolding level shifted
level-outside s a b delta lo hi x f o = ground (
  arith,
  f a (inl refl),
  f (b + 1) (inr (inl refl)),
  count_at-outside s lo hi x (λ m e. f m (inr (inr e))) o,
)

module _ (s : List Segment) (a b : ℕ) (delta : ℤ) where
  -- The sweep over any sorted list that holds every point.
  sweep-level :
      (ps : List ℕ)
      → IsSorted ps
      → ((m : ℕ) → Elem m (a ∷ (b + 1) ∷ boundaries s) → Elem m ps)
      → IsRuns (sweep s a b delta [] ps)
        × ((x : ℕ) → count_at (sweep s a b delta [] ps) x ≡ level s a b delta x)
  unfolding count_at
  sweep-level [] h f = absurd (f a (inl refl))
  sweep-level (p ∷ ps) h f = (
    sweep-IsRuns s a b delta [] p ps h tt tt,
    λ x. ground (
      arith,
      count_at-sweep s a b delta x [] p ps h tt tt steady,
      level-outside s a b delta p (last_from p ps) x (λ m e. Elem-bounds m p ps h (f m e)),
    ),
  )
    where
      steady : Steady (level s a b delta) (p ∷ ps)
      steady =
          level-Steady s a b delta (p ∷ ps) (AllAvoid-Elem s (p ∷ ps) h (λ m e. f m (inr (inr e))))
            (Elem-Avoids a (p ∷ ps) h (f a (inl refl)))
            (Elem-Avoids (b + 1) (p ∷ ps) h (f (b + 1) (inr (inl refl))))

  swept :
      IsRuns (sweep s a b delta [] (sort_points (a ∷ (b + 1) ∷ boundaries s)))
      × ((x : ℕ)
          → count_at (sweep s a b delta [] (sort_points (a ∷ (b + 1) ∷ boundaries s))) x
            ≡ level s a b delta x)
  swept =
      let ps = a ∷ (b + 1) ∷ boundaries s in
      sweep-level (sort_points ps) (sort_points-IsSorted ps) (λ m. Elem-sort_points m ps)

  -- After `transform`, the count of every position x of the range a..b is its old count plus the
  -- change, or 0 where that sum is negative, and every other position keeps its count.
  pub count_at-transform :
      (x : ℕ)
      → count_at (transform s a b delta) x
        ≡ (if leb a x && leb x b then pos_part (pos (count_at s x) +ℤ delta) else count_at s x)
  unfolding transform level shifted
  count_at-transform x = elim (Bool-cases (ltb b a)) [
    | inl e ↦ rw e (ground arith)
    | inr e ↦ rw e (rw (swept.1 x) (ground arith))
  ]

  -- `transform` returns maximal runs in increasing order, with positive counts.
  pub transform-IsRuns : IsRuns s → IsRuns (transform s a b delta)
  unfolding transform
  transform-IsRuns r = elim (Bool-cases (ltb b a)) [ inl e ↦ rw e r | inr e ↦ rw e swept.0 ]

-- ===== src/Ledger/Reserve/Clip.antt =====
-- The loop of `Reserve` over the serves: the range is cut before the first byte at two serves.
use aim_data_gateway.Prelude.{
  ℕ, ◌+◌, ◌-◌, ◌≤◌, ◌<◌, ◌≡◌, ◌≢◌, ◌↔◌, sym, ◌∙◌, Bool, true, false, ◌&&◌, List, [], ◌∷◌, arith,
  leb, leb→le, ◌==◌, if◌then◌else◌, inl, inr, Bool-cases,
}
use aim_data_gateway.Prelude.Result.{ok, err, exhausted}
use aim_data_gateway.Segment.{Segment, count_at}
use aim_data_gateway.Segment.Runs.{IsRuns}
use aim_data_gateway.Segment.Canonical.{
  count_at-before, count_at-tail, count_at-front, count_at-inside,
}
use aim_data_gateway.Ledger.Reserve.{clip}

pub clip_bounds :
    (ss : List Segment) (start end last : ℕ)
    → start ≤ end
    → clip ss start end ≡ ok last
    → (start ≤ last) × (last ≤ end)
unfolding clip
clip_bounds [] start end last l h = ground arith
clip_bounds (y ∷ ss) start end last l h = ground (arith, clip_bounds ss start end last l)

-- The test of the loop: a segment at two serves that meets the range.
abbrev meets : Segment → ℕ → ℕ → Bool
meets y start end = (y.c == 2) && leb y.a end && leb start y.b

clip-hit :
    (y : Segment) (ss : List Segment) (start end : ℕ)
    → meets y start end ≡ true
    → clip (y ∷ ss) start end ≡ (if leb y.a start then err exhausted else ok (y.a - 1))
unfolding clip
clip-hit y ss start end h = rw h

clip-miss :
    (y : Segment) (ss : List Segment) (start end : ℕ)
    → meets y start end ≡ false
    → clip (y ∷ ss) start end ≡ clip ss start end
unfolding clip
clip-miss y ss start end h = rw h

-- Where the loop stops at `y`, it stops right before it.
hit-last :
    (y : Segment) (start last : ℕ)
    → (if leb y.a start then err exhausted else ok (y.a - 1)) ≡ ok last
    → (start < y.a) × (last + 1 ≡ y.a)
hit-last y start last h = ground arith

below_two_step :
    (y : Segment) (ss : List Segment) (start end last x : ℕ)
    → meets y start end ≡ false
    → start ≤ end
    → (start ≤ last) × (last ≤ end)
    → x ≤ last
    → start ≤ x
    → count_at (y ∷ ss) x ≡ 2
    → ¬ (count_at ss x ≡ 2)
    → ⊥
unfolding count_at
below_two_step y ss start end last x miss l bounds b a e n = ground arith

-- A count behind the first run is found behind it.
stops_step :
    (y : Segment) (ss : List Segment) (x : ℕ)
    → IsRuns (y ∷ ss)
    → count_at ss x ≡ 2
    → count_at (y ∷ ss) x ≡ 2
stops_step y ss x r two = elim (Bool-cases (leb x y.b)) [
  | inl l ↦ absurd (omega (arith, count_at-before y ss x r.2 r.3 (leb→le x y.b l)))
  | inr g ↦ count_at-tail y ss x (ground arith) ∙ two
]

hit_exhausted :
    (y : Segment) (ss : List Segment) (start end : ℕ)
    → IsRuns (y ∷ ss)
    → meets y start end ≡ true
    → ((if leb y.a start then err exhausted else ok (y.a - 1)) ≡ err exhausted)
      ↔ (count_at (y ∷ ss) start ≡ 2)
hit_exhausted y ss start end r hit = elim (Bool-cases (leb y.a start)) [
  | inl l ↦
      (λ h. count_at-inside y ss start (leb→le _ _ l) (ground arith) ∙ ground arith, λ h. rw l)
  | inr g ↦ (
    λ h. absurd (ground arith),
    λ h. absurd (omega (arith, count_at-front y ss start r (ground arith))),
  )
]

miss_exhausted :
    (y : Segment) (ss : List Segment) (start end : ℕ)
    → IsRuns (y ∷ ss)
    → start ≤ end
    → meets y start end ≡ false
    → (clip ss start end ≡ err exhausted) ↔ (count_at ss start ≡ 2)
    → (clip ss start end ≡ err exhausted) ↔ (count_at (y ∷ ss) start ≡ 2)
miss_exhausted y ss start end r l miss ih =
    (λ h. stops_step y ss start r (ih.0 h), λ h. ih.1 (unfold count_at in ground arith))

-- No position of the clipped range is at two serves.
pub clip-below_two :
    (ss : List Segment) (start end last x : ℕ)
    → IsRuns ss
    → start ≤ end
    → clip ss start end ≡ ok last
    → start ≤ x
    → x ≤ last
    → count_at ss x ≢ 2
clip-below_two [] start end last x r l h a b e = unfold count_at in omega arith
clip-below_two (y ∷ ss) start end last x r l h a b e = elim (Bool-cases (meets y start end)) [
  | inl hit ↦
      let stop = hit-last y start last (sym (clip-hit y ss start end hit) ∙ h) in
      omega (arith, count_at-front y ss x r (omega arith))
  | inr miss ↦
      let h' : clip ss start end ≡ ok last = sym (clip-miss y ss start end miss) ∙ h in
      below_two_step y ss start end last x miss l (clip_bounds ss start end last l h') b a e
        (clip-below_two ss start end last x r.3 l h' a b)
]

-- What is cut off begins with a position at two serves.
pub clip-stops :
    (ss : List Segment) (start end last : ℕ)
    → IsRuns ss
    → start ≤ end
    → clip ss start end ≡ ok last
    → last < end
    → count_at ss (last + 1) ≡ 2
clip-stops [] start end last r l h b = unfold clip in ground arith
clip-stops (y ∷ ss) start end last r l h b = elim (Bool-cases (meets y start end)) [
  | inl hit ↦
      let stop = hit-last y start last (sym (clip-hit y ss start end hit) ∙ h) in
      count_at-inside y ss (last + 1) (omega arith) (omega (arith, r.0)) ∙ ground arith
  | inr miss ↦
      let h' : clip ss start end ≡ ok last = sym (clip-miss y ss start end miss) ∙ h in
      let two = clip-stops ss start end last r.3 l h' b in stops_step y ss (last + 1) r two
]

-- The loop stops as exhausted exactly if the first byte is at two serves.
pub clip-exhausted :
    (ss : List Segment) (start end : ℕ)
    → IsRuns ss
    → start ≤ end
    → (clip ss start end ≡ err exhausted) ↔ (count_at ss start ≡ 2)
clip-exhausted [] start end r l = unfold clip count_at in ((λ h. ground arith), (λ h. ground arith))
clip-exhausted (y ∷ ss) start end r l = elim (Bool-cases (meets y start end)) [
  | inl hit ↦ rw (clip-hit y ss start end hit) (hit_exhausted y ss start end r hit)
  | inr miss ↦
      rw (clip-miss y ss start end miss)
        (miss_exhausted y ss start end r l miss (clip-exhausted ss start end r.3 l))
]

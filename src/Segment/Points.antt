-- ===== src/Segment/Points.antt =====
-- The points of `transform`: sorted, they hold every boundary, so no boundary lies between two
-- consecutive points.
use aim_data_gateway.Prelude.{
  ℕ, ◌≤◌, ◌≡◌, refl, ◌⊎◌, inl, inr, List, [], ◌∷◌, All, All-imp, arith, leb, Bool-cases,
}
use aim_data_gateway.Segment.{insert_point, sort_points}

abbrev pub IsSorted : List ℕ → Type 0
IsSorted [] = Unit
IsSorted (p ∷ ps) = All (λ q. p ≤ q) ps × IsSorted ps

-- The head of the list, or `d`; and its last element, or `p`.
abbrev pub last_from : ℕ → List ℕ → ℕ
last_from p [] = p
last_from p (q ∷ ps) = last_from q ps

abbrev pub Elem : ℕ → List ℕ → Type 0
Elem m [] = ⊥
Elem m (p ∷ ps) = (m ≡ p) ⊎ Elem m ps

-- No two consecutive points have `m` strictly between them.
abbrev pub Avoids : ℕ → List ℕ → Type 0
Avoids m [] = Unit
Avoids m (p ∷ []) = Unit
Avoids m (p ∷ q ∷ ps) = ((m ≤ p) ⊎ (q ≤ m)) × Avoids m (q ∷ ps)

All-insert_point :
    (P : ℕ → Type 0) (p : ℕ) (ps : List ℕ) → P p → All P ps → All P (insert_point p ps)
unfolding insert_point
All-insert_point P p [] h hs = (h, tt)
All-insert_point P p (q ∷ ps) h hs = elim (Bool-cases (leb p q)) [
  | inl e ↦ rw e (h, hs)
  | inr e ↦ rw e (hs.0, All-insert_point P p ps h hs.1)
]

insert_point-IsSorted : (p : ℕ) (ps : List ℕ) → IsSorted ps → IsSorted (insert_point p ps)
unfolding insert_point
insert_point-IsSorted p [] h = (tt, tt)
insert_point-IsSorted p (q ∷ ps) h = elim (Bool-cases (leb p q)) [
  | inl e ↦
      let l : p ≤ q = ground arith in
      rw e ((l, All-imp (λ x. q ≤ x) (λ x. p ≤ x) (λ x hx. omega arith) ps h.0), h)
  | inr e ↦
      rw e (All-insert_point (λ x. q ≤ x) p ps (ground arith) h.0, insert_point-IsSorted p ps h.1)
]

pub sort_points-IsSorted : (ps : List ℕ) → IsSorted (sort_points ps)
unfolding sort_points
sort_points-IsSorted [] = tt
sort_points-IsSorted (p ∷ ps) = insert_point-IsSorted p (sort_points ps) (sort_points-IsSorted ps)

Elem-insert_point : (m p : ℕ) (ps : List ℕ) → (m ≡ p) ⊎ Elem m ps → Elem m (insert_point p ps)
unfolding insert_point
Elem-insert_point m p [] h = h
Elem-insert_point m p (q ∷ ps) (inl e) = ground (arith, Elem-insert_point m p ps (inl e))
Elem-insert_point m p (q ∷ ps) (inr (inl e)) = ground arith
Elem-insert_point m p (q ∷ ps) (inr (inr e)) = ground (arith, Elem-insert_point m p ps (inr e))

pub Elem-sort_points : (m : ℕ) (ps : List ℕ) → Elem m ps → Elem m (sort_points ps)
unfolding sort_points
Elem-sort_points m [] h = h
Elem-sort_points m (p ∷ ps) (inl e) = Elem-insert_point m p (sort_points ps) (inl e)
Elem-sort_points m (p ∷ ps) (inr e) =
    Elem-insert_point m p (sort_points ps) (inr (Elem-sort_points m ps e))

le_head-Avoids : (m p : ℕ) (ps : List ℕ) → m ≤ p → IsSorted (p ∷ ps) → Avoids m (p ∷ ps)
le_head-Avoids m p [] l h = tt
le_head-Avoids m p (q ∷ ps) l h = (inl l, le_head-Avoids m q ps (omega arith) h.1)

Elem-ge_head : (m p : ℕ) (ps : List ℕ) → All (λ q. p ≤ q) ps → Elem m ps → p ≤ m
Elem-ge_head m p [] h e = elim e [ ]
Elem-ge_head m p (q ∷ ps) h (inl e) = omega arith
Elem-ge_head m p (q ∷ ps) h (inr e) = Elem-ge_head m p ps h.1 e

pub Elem-Avoids : (m : ℕ) (ps : List ℕ) → IsSorted ps → Elem m ps → Avoids m ps
Elem-Avoids m [] h e = elim e [ ]
Elem-Avoids m (p ∷ []) h (inr e) = elim e [ ]
Elem-Avoids m (p ∷ ps) h (inl e) = le_head-Avoids m p ps (omega arith) h
Elem-Avoids m (p ∷ q ∷ ps) h (inr (inl e)) =
    (inr (omega arith), le_head-Avoids m q ps (omega arith) h.1)
Elem-Avoids m (p ∷ q ∷ ps) h (inr (inr e)) =
    (inr (Elem-ge_head m q ps h.1.0 e), Elem-Avoids m (q ∷ ps) h.1 (inr e))

-- A point of the list lies between its head and its last element.
pub Elem-bounds :
    (m p : ℕ) (ps : List ℕ) → IsSorted (p ∷ ps) → Elem m (p ∷ ps) → (p ≤ m) × (m ≤ last_from p ps)
Elem-bounds m p [] h (inl e) = (omega arith, omega arith)
Elem-bounds m p [] h (inr e) = elim e [ ]
Elem-bounds m p (q ∷ ps) h (inl e) = (omega arith, omega (arith, Elem-bounds q q ps h.1 (inl refl)))
Elem-bounds m p (q ∷ ps) h (inr e) = let ih = Elem-bounds m q ps h.1 e in (omega (arith, ih), ih.1)

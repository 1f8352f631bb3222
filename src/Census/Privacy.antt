-- ===== src/Census/Privacy.antt =====
-- The cells that `partition` publishes (verification/occupancy.go), against the limit of 10.
use aim_data_gateway.Prelude.{
  ℕ, zero, suc, ◌+◌, ◌≤◌, ◌<◌, ◌≡◌, refl, Bool, true, false, [], ◌∷◌, length, All, arith, ltb, leb,
  ◌==◌, ==_iff, if◌then◌else◌, inl, inr, ◌⊎◌, Bool-cases,
}
use aim_data_gateway.Prelude.Query.{exists, select}
use aim_data_gateway.Census.Partition.{
  CensusCell, Cells, CensusPartition, fully_read, other, partly_read, unread, members_of, delete,
  assign, low_map, positive, merge_read, read_cells, sum_small, large, comes_first, smallest,
  absorb, add_other, merge_small, insert_cell, sort_cells, publish, partition,
}

abbrev pub IsLarge : CensusCell → Type 0
IsLarge x = 10 ≤ x.members

All-select :
    (P : CensusCell → Type 0) (test : CensusCell → Bool) (cs : Cells)
    → All P cs
    → All P (select test cs)
unfolding select
All-select P test [] h = tt
All-select P test (x ∷ cs) h = elim (Bool-cases (test x)) [
  | inl e ↦ rw e (h.0, All-select P test cs h.1)
  | inr e ↦ rw e (All-select P test cs h.1)
]

large-IsLarge : (cs : Cells) → All IsLarge (large cs)
unfolding large select
large-IsLarge [] = tt
large-IsLarge (x ∷ cs) = elim (Bool-cases (ltb x.members 10)) [
  | inl e ↦ rw e (large-IsLarge cs)
  | inr e ↦ rw e (ground arith, large-IsLarge cs)
]

assign-IsLarge : (k n : ℕ) (cs : Cells) → 10 ≤ n → All IsLarge cs → All IsLarge (assign k n cs)
unfolding assign
assign-IsLarge k n [] le h = (le, tt)
assign-IsLarge k n (x ∷ cs) le h = elim (Bool-cases (x.class == k)) [
  | inl e ↦ rw e (le, h.1)
  | inr e ↦ rw e (h.0, assign-IsLarge k n cs le h.1)
]

insert_cell-All :
    (P : CensusCell → Type 0) (x : CensusCell) (cs : Cells)
    → P x
    → All P cs
    → All P (insert_cell x cs)
unfolding insert_cell
insert_cell-All P x [] p h = (p, tt)
insert_cell-All P x (y ∷ cs) p h = elim (Bool-cases (leb x.class y.class)) [
  | inl e ↦ rw e (p, h)
  | inr e ↦ rw e (h.0, insert_cell-All P x cs p h.1)
]

sort_cells-All : (P : CensusCell → Type 0) (cs : Cells) → All P cs → All P (sort_cells cs)
unfolding sort_cells
sort_cells-All P [] h = tt
sort_cells-All P (x ∷ cs) h = insert_cell-All P x (sort_cells cs) h.0 (sort_cells-All P cs h.1)

insert_cell-length : (x : CensusCell) (cs : Cells) → length (insert_cell x cs) ≡ suc (length cs)
unfolding insert_cell
insert_cell-length x [] = refl
insert_cell-length x (y ∷ cs) = ground (arith, insert_cell-length x cs)

sort_cells-length : (cs : Cells) → length (sort_cells cs) ≡ length cs
unfolding sort_cells
sort_cells-length [] = refl
sort_cells-length (x ∷ cs) =
    ground (arith, insert_cell-length x (sort_cells cs), sort_cells-length cs)

delete-length : (k : ℕ) (cs : Cells) → length (delete k cs) ≤ length cs
unfolding delete select
delete-length k [] = omega arith
delete-length k (x ∷ cs) = ground (arith, delete-length k cs)

abbrev has : ℕ → CensusCell → Bool
has k y = y.class == k

delete-shrinks : (k : ℕ) (cs : Cells) → exists (has k) cs ≡ true → length (delete k cs) < length cs
unfolding delete select exists
delete-shrinks k [] h = absurd (ground arith)
delete-shrinks k (x ∷ cs) h = ground (arith, delete-length k cs, delete-shrinks k cs)

exists-weaken :
    (k : ℕ) (x : CensusCell) (cs : Cells)
    → exists (has k) cs ≡ true
    → exists (has k) (x ∷ cs) ≡ true
unfolding exists
exists-weaken k x cs h = ground arith

exists-skip :
    (k : ℕ) (x y : CensusCell) (cs : Cells)
    → exists (has k) (x ∷ cs) ≡ true
    → exists (has k) (x ∷ y ∷ cs) ≡ true
unfolding exists
exists-skip k x y cs h = ground arith

smaller-exists :
    (b : Bool) (x y : CensusCell) (cs : Cells)
    → exists (has (smallest y cs).class) (y ∷ cs) ≡ true
    → exists (has (smallest x cs).class) (x ∷ cs) ≡ true
    → exists (has (smallest (if b then y else x) cs).class) (x ∷ y ∷ cs) ≡ true
smaller-exists true x y cs hy hx = exists-weaken (smallest y cs).class x (y ∷ cs) hy
smaller-exists false x y cs hy hx = exists-skip (smallest x cs).class x y cs hx

-- The least cell is one of the cells.
smallest-exists : (x : CensusCell) (cs : Cells) → exists (has (smallest x cs).class) (x ∷ cs) ≡ true
unfolding smallest
smallest-exists x [] = unfold exists in ground (arith, ==_iff x.class x.class)
smallest-exists x (y ∷ cs) =
    smaller-exists (comes_first y x) x y cs (smallest-exists y cs) (smallest-exists x cs)

-- With as many rounds as cells, the loop ends with a large sum or without cells.
absorb-Ends :
    (fuel n : ℕ) (cs : Cells)
    → length cs ≤ fuel
    → (10 ≤ (absorb fuel n cs).0) ⊎ ((absorb fuel n cs).1 ≡ [])
unfolding absorb
absorb-Ends zero n [] le = inr refl
absorb-Ends zero n (x ∷ cs) le = absurd (omega arith)
absorb-Ends (suc fuel) n [] le = inr refl
absorb-Ends (suc fuel) n (x ∷ cs) le =
    let y = smallest x cs in
    let shrinks = delete-shrinks y.class (x ∷ cs) (smallest-exists x cs) in
    elim (Bool-cases (ltb n 10)) [
      | inl e ↦
          rw (e, absorb)
            (absorb-Ends fuel (n + members_of y.class (x ∷ cs)) (delete y.class (x ∷ cs))
              (omega arith))
      | inr e ↦ rw (e, absorb) (inl (ground arith))
    ]

absorb-IsLarge : (fuel n : ℕ) (cs : Cells) → All IsLarge cs → All IsLarge (absorb fuel n cs).1
unfolding absorb delete
absorb-IsLarge zero n cs h = h
absorb-IsLarge (suc fuel) n [] h = tt
absorb-IsLarge (suc fuel) n (x ∷ cs) h =
    let y = smallest x cs in
    elim (Bool-cases (ltb n 10)) [
      | inl e ↦
          rw (e, absorb)
            (absorb-IsLarge fuel (n + members_of y.class (x ∷ cs)) (delete y.class (x ∷ cs))
              (All-select IsLarge _ (x ∷ cs) h))
      | inr e ↦ rw (e, absorb) h
    ]

-- Either all cells are large or there is at most one.
abbrev Publishable : Cells → Type 0
Publishable cs = All IsLarge cs ⊎ (length cs ≤ 1)

add_other-Publishable :
    (n : ℕ) (cs : Cells) → All IsLarge cs → (10 ≤ n) ⊎ (cs ≡ []) → Publishable (add_other (n, cs))
unfolding add_other
add_other-Publishable n cs h (inl le) = inl (assign-IsLarge other _ cs (omega arith) h)
add_other-Publishable n [] h (inr e) = inr (unfold assign in omega arith)
add_other-Publishable n (x ∷ cs) h (inr e) = absurd (ground arith)

merge_small-Publishable : (cs : Cells) → Publishable (merge_small cs)
unfolding merge_small
merge_small-Publishable cs = elim (Bool-cases (ltb 0 (sum_small cs))) [
  | inl e ↦ rw e (
      add_other-Publishable _ _
        (absorb-IsLarge (length (large cs)) (sum_small cs) (large cs) (large-IsLarge cs))
        (absorb-Ends (length (large cs)) (sum_small cs) (large cs) (omega arith)))
  | inr e ↦ rw e (inl (large-IsLarge cs))
]

-- The counts of the three read states, as `finish` hands them over.
abbrev pub read_states : ℕ → ℕ → ℕ → Cells
read_states fully partly not_read =
    record { class = fully_read; members = fully }
    ∷ record { class = partly_read; members = partly }
    ∷ record { class = unread; members = not_read }
    ∷ []

read_cells-Publishable :
    (fully partly not_read : ℕ)
    → Publishable (read_cells (positive (read_states fully partly not_read)))
unfolding read_cells merge_read low_map positive select exists assign delete members_of
read_cells-Publishable fully partly not_read = ground arith

-- The cells of a published partition are large, and there are none or at least two.
pub record IsPrivate (p : CensusPartition) : Type 0 where
  pub cells_large : All IsLarge p.cells
  pub not_single : (p.cells ≡ []) ⊎ (2 ≤ length p.cells)

publish-IsPrivate : (pop : ℕ) (cs : Cells) → Publishable cs → IsPrivate (publish pop cs)
unfolding publish
publish-IsPrivate pop cs (inl h) = elim (Bool-cases (leb (length cs) 1)) [
  | inl e ↦ rw e (record { cells_large = tt; not_single = inl refl })
  | inr e ↦
      let same = sort_cells-length cs in
      rw e (record { cells_large = sort_cells-All IsLarge cs h; not_single = inr (ground arith) })
]
publish-IsPrivate pop cs (inr le) =
    let e : leb (length cs) 1 ≡ true = ground arith in
    rw e (record { cells_large = tt; not_single = inl refl })

-- With its argument readState false, and for any counts and any population, every cell that `partition`
-- publishes has at least 10 members, and a partition is published with two cells or more, or with none.
pub partition-IsPrivate : (counts : Cells) (pop : ℕ) → IsPrivate (partition counts pop false)
unfolding partition
partition-IsPrivate counts pop = elim (Bool-cases (ltb pop 10)) [
  | inl e ↦ rw e (record { cells_large = tt; not_single = inl refl })
  | inr e ↦ rw e (publish-IsPrivate pop _ (merge_small-Publishable (positive counts)))
]

-- The partition by read state, for any counts of the three states, publishes cells of at least 10
-- members, two or more of them, or none.
pub partition-read_states-IsPrivate :
    (fully partly not_read pop : ℕ)
    → IsPrivate (partition (read_states fully partly not_read) pop true)
unfolding partition
partition-read_states-IsPrivate fully partly not_read pop = elim (Bool-cases (ltb pop 10)) [
  | inl e ↦ rw e (record { cells_large = tt; not_single = inl refl })
  | inr e ↦ rw e (publish-IsPrivate pop _ (read_cells-Publishable fully partly not_read))
]

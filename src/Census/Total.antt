-- ===== src/Census/Total.antt =====
-- The totals of cells in `partition` (verification/occupancy.go).
use aim_data_gateway.Prelude.{
  ℕ, zero, suc, ◌+◌, ◌≡◌, refl, Bool, true, false, not, ◌&&◌, [], ◌∷◌, length, arith, ltb, leb,
  ◌==◌, ==_iff, inl, inr, ◌⊎◌, Bool-cases,
}
use aim_data_gateway.Prelude.Query.{exists, select}
use aim_data_gateway.Census.Partition.{
  CensusCell, Cells, other, members_of, delete, assign, positive, sum_small, large, smallest,
  absorb, add_other, merge_small, insert_cell, sort_cells, publish, partition,
}

-- Σ n over the cells.
unfoldable pub total : Cells → ℕ
total [] = 0
total (x ∷ cs) = x.members + total cs

abbrev has : ℕ → CensusCell → Bool
has k y = y.class == k

-- No two cells have the same label.
unfoldable pub is_map : Cells → Bool
is_map [] = true
is_map (x ∷ cs) = not (exists (has x.class) cs) && is_map cs

exists-select :
    (k : ℕ) (test : CensusCell → Bool) (cs : Cells)
    → exists (has k) cs ≡ false
    → exists (has k) (select test cs) ≡ false
unfolding exists select
exists-select k test [] h = refl
exists-select k test (x ∷ cs) h = ground (arith, exists-select k test cs)

select-is_map :
    (test : CensusCell → Bool) (cs : Cells) → is_map cs ≡ true → is_map (select test cs) ≡ true
unfolding is_map select
select-is_map test [] h = refl
select-is_map test (x ∷ cs) h = ground (arith, exists-select x.class test cs, select-is_map test cs)

pub assign-total : (k n : ℕ) (cs : Cells) → total (assign k n cs) + members_of k cs ≡ total cs + n
unfolding total assign members_of
assign-total k n [] = omega arith
assign-total k n (x ∷ cs) = ground (arith, assign-total k n cs)

delete-absent : (k : ℕ) (cs : Cells) → exists (has k) cs ≡ false → total (delete k cs) ≡ total cs
unfolding total delete select exists
delete-absent k [] h = refl
delete-absent k (x ∷ cs) h = ground (arith, delete-absent k cs)

delete-total :
    (k : ℕ) (cs : Cells) → is_map cs ≡ true → total (delete k cs) + members_of k cs ≡ total cs
unfolding total delete select members_of is_map
delete-total k [] h = refl
delete-total k (x ∷ cs) h = ground (arith, delete-total k cs, ==_iff x.class k, delete-absent k cs)

large-total : (cs : Cells) → total (large cs) + sum_small cs ≡ total cs
unfolding total large select sum_small
large-total [] = refl
large-total (x ∷ cs) = ground (arith, large-total cs)

positive-total : (cs : Cells) → total (positive cs) ≡ total cs
unfolding total positive select
positive-total [] = refl
positive-total (x ∷ cs) = ground (arith, positive-total cs)

absorb-total :
    (fuel n : ℕ) (cs : Cells)
    → is_map cs ≡ true
    → (absorb fuel n cs).0 + total (absorb fuel n cs).1 ≡ n + total cs
unfolding absorb
absorb-total zero n cs h = refl
absorb-total (suc fuel) n [] h = refl
absorb-total (suc fuel) n (x ∷ cs) h =
    let k = (smallest x cs).class in
    let gone = delete-total k (x ∷ cs) h in
    elim (Bool-cases (ltb n 10)) [
      | inl e ↦
          let rest =
            absorb-total fuel (n + members_of k (x ∷ cs)) (delete k (x ∷ cs))
              (unfold delete in select-is_map _ (x ∷ cs) h) in
          rw (e, absorb) (omega arith)
      | inr e ↦ rw (e, absorb) refl
    ]

add_other-total : (n : ℕ) (cs : Cells) → total (add_other (n, cs)) ≡ n + total cs
unfolding add_other
add_other-total n cs = let put = assign-total other (members_of other cs + n) cs in omega arith

merge_small-total : (cs : Cells) → is_map cs ≡ true → total (merge_small cs) ≡ total cs
unfolding merge_small
merge_small-total cs h =
    let parts = large-total cs in
    elim (Bool-cases (ltb 0 (sum_small cs))) [
      | inl e ↦
          let m : is_map (large cs) ≡ true = unfold large in select-is_map _ cs h in
          let kept = absorb-total (length (large cs)) (sum_small cs) (large cs) m in
          let added =
            add_other-total (absorb (length (large cs)) (sum_small cs) (large cs)).0
              (absorb (length (large cs)) (sum_small cs) (large cs)).1 in
          rw e (omega arith)
      | inr e ↦ rw e (ground arith)
    ]

insert_cell-total : (x : CensusCell) (cs : Cells) → total (insert_cell x cs) ≡ x.members + total cs
unfolding total insert_cell
insert_cell-total x [] = refl
insert_cell-total x (y ∷ cs) = ground (arith, insert_cell-total x cs)

sort_cells-total : (cs : Cells) → total (sort_cells cs) ≡ total cs
unfolding total sort_cells
sort_cells-total [] = refl
sort_cells-total (x ∷ cs) = ground (arith, insert_cell-total x (sort_cells cs), sort_cells-total cs)

publish-total :
    (pop : ℕ) (cs : Cells)
    → ((publish pop cs).cells ≡ []) ⊎ (total (publish pop cs).cells ≡ total cs)
unfolding publish
publish-total pop cs = elim (Bool-cases (leb (length cs) 1)) [
  | inl e ↦ rw e (inl refl)
  | inr e ↦ rw e (inr (sort_cells-total cs))
]

-- If no label occurs twice in the counts, a partition that is not by read state publishes no cell, or
-- cells that have together as many members as the counts.
pub partition-total :
    (counts : Cells) (pop : ℕ)
    → is_map counts ≡ true
    → ((partition counts pop false).cells ≡ [])
      ⊎ (total (partition counts pop false).cells ≡ total counts)
unfolding partition
partition-total counts pop h = elim (Bool-cases (ltb pop 10)) [
  | inl e ↦ rw e (inl refl)
  | inr e ↦
      let all = merge_small-total (positive counts) (unfold positive in select-is_map _ counts h) in
      let pos = positive-total counts in
      rw (e, partition)
        (elim (publish-total pop (merge_small (positive counts))) [
          | inl none ↦ inl none
          | inr same ↦ inr (omega arith)
        ])
]

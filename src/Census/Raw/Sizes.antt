-- ===== src/Census/Raw/Sizes.antt =====
-- The totals of the buckets of a census (verification/occupancy.go, `newCensusRaw`).
use aim_data_gateway.Prelude.{
  ℕ, suc, ◌+◌, ◌≡◌, refl, true, false, List, [], ◌∷◌, length, arith, if◌then◌else◌, ◌==◌, ==_iff,
  inl, inr, ◌⊎◌,
}
use aim_data_gateway.Prelude.Query.{exists}
use aim_data_gateway.Census.{size_bucket}
use aim_data_gateway.Census.Partition.{CensusCell, Cells, members_of, assign, partition}
use aim_data_gateway.Census.Total.{total, is_map, assign-total, partition-total}
use aim_data_gateway.Census.Raw.{
  Member, CensusRaw, bucket_label, add_to, empty_raw, count_members, new_census_raw,
}

add_to-total : (k n : ℕ) (cs : Cells) → total (add_to k n cs) ≡ total cs + n
unfolding add_to
add_to-total k n cs = let put = assign-total k (members_of k cs + n) cs in omega arith

exists-assign :
    (j k n : ℕ) (cs : Cells)
    → (k == j) ≡ false
    → exists (λ (y : CensusCell). y.class == j) (assign k n cs)
      ≡ exists (λ (y : CensusCell). y.class == j) cs
unfolding exists assign
exists-assign j k n [] e = rw e refl
exists-assign j k n (x ∷ cs) e = ground (arith, exists-assign j k n cs, ==_iff x.class k)

assign-is_map : (k n : ℕ) (cs : Cells) → is_map cs ≡ true → is_map (assign k n cs) ≡ true
unfolding is_map assign
assign-is_map k n [] h = unfold exists in refl
assign-is_map k n (x ∷ cs) h =
    ground (
      arith,
      assign-is_map k n cs,
      exists-assign x.class k n cs,
      ==_iff x.class k,
      ==_iff k x.class,
    )

count_members-total :
    (ms : List Member) (r : CensusRaw)
    → is_map r.sizes ≡ true
    → (is_map (count_members r ms).sizes ≡ true)
      × (total (count_members r ms).sizes ≡ total r.sizes + length ms)
unfolding count_members
count_members-total [] r h = (h, omega arith)
count_members-total (m ∷ ms) r h =
    let k = bucket_label (size_bucket m.size) in
    let put = add_to-total k 1 r.sizes in
    let kept : is_map (add_to k 1 r.sizes) ≡ true = unfold add_to in assign-is_map k _ r.sizes h in
    let rest =
      count_members-total ms
        (record r {
          members = suc r.members;
          stored = r.stored + m.size;
          archives = if m.is_archive then suc r.archives else r.archives;
          extensions = add_to m.extension 1 r.extensions;
          sizes = add_to (bucket_label (size_bucket m.size)) 1 r.sizes;
        })
        kept in
    (rest.0, omega arith)

-- For any members of a listing, the cells by size that a census publishes, if it publishes any, count
-- together every member of the listing once.
pub sizes-partition :
    (ms : List Member) (pop : ℕ)
    → ((partition (new_census_raw ms).sizes pop false).cells ≡ [])
      ⊎ (total (partition (new_census_raw ms).sizes pop false).cells ≡ length ms)
unfolding new_census_raw
sizes-partition ms pop =
    let (once, sum) = count_members-total ms empty_raw (unfold is_map in refl) in
    let none_yet : total [] ≡ 0 = unfold total in refl in
    elim (partition-total (count_members empty_raw ms).sizes pop once) [
      | inl hidden ↦ inl hidden
      | inr same ↦ inr (omega arith)
    ]

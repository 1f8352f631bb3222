-- ===== src/Census/Partition.antt =====
-- `partition` and `lowMap` (verification/occupancy.go). A map from labels to counts is an association
-- list. Labels are numbers in the order of their strings; the fixed labels are those of the source.
use aim_data_gateway.Prelude.{
  ℕ, zero, suc, ◌+◌, Bool, not, ◌&&◌, ◌||◌, List, [], ◌∷◌, length, ltb, leb, ◌==◌, if◌then◌else◌,
}
use aim_data_gateway.Prelude.Query.{exists, select}
use aim_data_gateway.Census.{Published, population, FindingState, finding_state}

pub record CensusCell : Type 0 where
  pub class : ℕ
  pub members : ℕ

abbrev pub Cells : Type 0
Cells = List CensusCell

pub record CensusPartition : Type 0 where
  pub state : FindingState
  pub population : Published
  pub cells : Cells

-- "fully_read" < "other" < "partly_read" < "unread"
abbrev pub fully_read : ℕ
fully_read = 1000

abbrev pub other : ℕ
other = 2000

abbrev pub partly_read : ℕ
partly_read = 3000

abbrev pub unread : ℕ
unread = 4000

-- cells[k], which is 0 on a missing key.
unfoldable pub members_of : ℕ → Cells → ℕ
members_of k [] = 0
members_of k (x ∷ cs) = if x.class == k then x.members else members_of k cs

-- delete(cells, k)
unfoldable pub delete : ℕ → Cells → Cells
delete k = select (λ (x : CensusCell). not (x.class == k))

-- cells[k] = n
unfoldable pub assign : ℕ → ℕ → Cells → Cells
assign k n [] = record { class = k; members = n } ∷ []
assign k n (x ∷ cs) =
    if x.class == k then record { class = k; members = n } ∷ cs else x ∷ assign k n cs

abbrev pub is_low : CensusCell → Bool
is_low x = ltb 0 x.members && ltb x.members 10

-- lowMap
unfoldable pub low_map : Cells → Bool
low_map = exists is_low

-- The cells with a count.
unfoldable pub positive : Cells → Cells
positive = select (λ (x : CensusCell). ltb 0 x.members)

-- The branch of `readState`.
unfoldable pub merge_read : Cells → Cells
merge_read cells =
    let n = members_of fully_read cells + members_of partly_read cells in
    let cs = assign other n (delete partly_read (delete fully_read cells)) in
    let u = members_of unread cs in
    if ltb u 10 || ltb n 10 then delete unread (assign other (members_of other cs + u) cs) else cs

unfoldable pub read_cells : Cells → Cells
read_cells cells = if low_map cells then merge_read cells else cells

-- The sum of the counts below 10.
unfoldable pub sum_small : Cells → ℕ
sum_small [] = 0
sum_small (x ∷ cs) = let rest = sum_small cs in if ltb x.members 10 then x.members + rest else rest

-- The cells that are left.
unfoldable pub large : Cells → Cells
large = select (λ (x : CensusCell). not (ltb x.members 10))

-- The key with the least count, and the least of these.
abbrev pub comes_first : CensusCell → CensusCell → Bool
comes_first x y = ltb x.members y.members || (x.members == y.members && ltb x.class y.class)

unfoldable pub smallest : CensusCell → Cells → CensusCell
smallest x [] = x
smallest x (y ∷ cs) = smallest (if comes_first y x then y else x) cs

-- `for other < 10 && len(cells) > 0`, on fuel: each round deletes a cell.
unfoldable pub absorb : ℕ → ℕ → Cells → ℕ × Cells
absorb zero n cs = (n, cs)
absorb (suc fuel) n [] = (n, [])
absorb (suc fuel) n (x ∷ cs) =
    let y = smallest x cs in
    let rest = absorb fuel (n + members_of y.class (x ∷ cs)) (delete y.class (x ∷ cs)) in
    if ltb n 10 then rest else (n, x ∷ cs)

unfoldable pub add_other : ℕ × Cells → Cells
add_other (n, cs) = assign other (members_of other cs + n) cs

unfoldable pub merge_small : Cells → Cells
merge_small cells =
    let n = sum_small cells in
    let cs = large cells in if ltb 0 n then add_other (absorb (length cs) n cs) else cs

unfoldable pub insert_cell : CensusCell → Cells → Cells
insert_cell x [] = x ∷ []
insert_cell x (y ∷ cs) = if leb x.class y.class then x ∷ y ∷ cs else y ∷ insert_cell x cs

-- sort.Strings over the keys.
unfoldable pub sort_cells : Cells → Cells
sort_cells [] = []
sort_cells (x ∷ cs) = insert_cell x (sort_cells cs)

-- `if len(cells) <= 1 { out.State = suppressed }`
unfoldable pub publish : ℕ → Cells → CensusPartition
publish pop cells =
    if leb (length cells) 1
    then record { state = FindingState.suppressed; population = population pop; cells = [] }
    else record { state = finding_state pop; population = population pop; cells = sort_cells cells }

unfoldable pub partition : Cells → ℕ → Bool → CensusPartition
partition counts pop read_state =
    if ltb pop 10
    then record { state = finding_state pop; population = population pop; cells = [] }
    else publish pop
        (if read_state then read_cells (positive counts) else merge_small (positive counts))

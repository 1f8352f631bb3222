-- ===== src/Ledger/Tables.antt =====
-- The tables `serves` and `transmitted` after `rewrite` (internal/ledger/ledger.go).
use aim_data_gateway.Prelude.{
  ℕ, ◌≤◌, ◌≡◌, refl, sym, subst, inl, inr, true, false, Bool-cases, ◌&&◌, List, [], ◌∷◌, arith,
  ◌==◌,
}
use aim_data_gateway.Prelude.Result.{ok}
use aim_data_gateway.Prelude.Int.{ℤ}
use aim_data_gateway.Segment.{Segment, set_ones, transform}
use aim_data_gateway.Segment.Transform.{transform-IsRuns}
use aim_data_gateway.Segment.Runs.{Gap, IsRuns}
use aim_data_gateway.Segment.Normalize.{AllOnes}
use aim_data_gateway.Ledger.State.{
  Table, insert_row, rewrite_rows, put_table, rewrite, rewrite_transmitted,
}

insert_row-front :
    (x : Segment) (s : List Segment) → x.a ≤ x.b → Gap x s → insert_row x s ≡ ok (x ∷ s)
unfolding insert_row
insert_row-front x [] l g = refl
insert_row-front x (y ∷ s) l g = ground arith

pub rewrite_rows-IsRuns : (s : List Segment) → IsRuns s → rewrite_rows s ≡ ok s
unfolding rewrite_rows
rewrite_rows-IsRuns [] r = refl
rewrite_rows-IsRuns (x ∷ s) r =
    ground (arith, rewrite_rows-IsRuns s r.3, insert_row-front x s r.0 r.2)

pub set_ones-AllOnes_id : (s : List Segment) → AllOnes s → set_ones s ≡ s
unfolding set_ones
set_ones-AllOnes_id [] o = refl
set_ones-AllOnes_id (x ∷ s) o =
    λ i. record { a = x.a; b = x.b; c = sym o.0 i } ∷ set_ones-AllOnes_id s o.1 i

module _ (t : Table) (oid fid : ℕ) (s : List Segment) where
  pub rewrite-IsRuns : IsRuns s → rewrite t oid fid s ≡ ok (put_table t oid fid s)
  unfolding rewrite
  rewrite-IsRuns r = rw (rewrite_rows-IsRuns s r)

  pub rewrite_transmitted-IsRuns :
      IsRuns s → AllOnes s → rewrite_transmitted t oid fid s ≡ ok (put_table t oid fid s)
  unfolding rewrite_transmitted
  rewrite_transmitted-IsRuns r o = rw (rewrite_rows-IsRuns s r, set_ones-AllOnes_id s o)

-- One order and file against all others.
pub at_key {ℓ} :
    (P : ℕ → ℕ → Type ℓ) (oid fid : ℕ)
    → P oid fid
    → ((o f : ℕ) → (o == oid && f == fid) ≡ false → P o f)
    → (o f : ℕ) → P o f
at_key P oid fid here there o f = elim (Bool-cases (o == oid && f == fid)) [
  | inl e ↦
      subst (λ k. P o k) (sym (same_right o f e))
        (subst (λ k. P k fid) (sym (same_left o f e)) here)
  | inr e ↦ there o f e
]
  where
    same_left : (o f : ℕ) → (o == oid && f == fid) ≡ true → o ≡ oid
    same_left o f e = ground arith

    same_right : (o f : ℕ) → (o == oid && f == fid) ≡ true → f ≡ fid
    same_right o f e = ground arith

module _ (t : Table) (oid fid : ℕ) (s : List Segment) where
  pub put_table_self : put_table t oid fid s oid fid ≡ s
  put_table_self = ground arith

  pub put_table-other :
      (o f : ℕ) → (o == oid && f == fid) ≡ false → put_table t oid fid s o f ≡ t o f
  put_table-other o f e = rw e

-- The table after the counts of one range have changed.
unfoldable pub shift : Table → ℕ → ℕ → ℕ → ℕ → ℤ → Table
shift t oid fid a b delta = put_table t oid fid (transform (t oid fid) a b delta)

module _ (t : Table) (oid fid a b : ℕ) (delta : ℤ) where
  pub shift_self : shift t oid fid a b delta oid fid ≡ transform (t oid fid) a b delta
  unfolding shift
  shift_self = put_table_self t oid fid (transform (t oid fid) a b delta)

  pub shift-other :
      (o f : ℕ) → (o == oid && f == fid) ≡ false → shift t oid fid a b delta o f ≡ t o f
  unfolding shift
  shift-other = put_table-other t oid fid (transform (t oid fid) a b delta)

  pub shift-IsRuns :
      ((o f : ℕ) → IsRuns (t o f)) → (o f : ℕ) → IsRuns (shift t oid fid a b delta o f)
  shift-IsRuns r =
      at_key (λ o f. IsRuns (shift t oid fid a b delta o f)) oid fid
        (rw shift_self (transform-IsRuns _ a b delta (r oid fid)))
        (λ o f e. rw (shift-other o f e) (r o f))

  pub rewrite-transform :
      IsRuns (t oid fid)
      → rewrite t oid fid (transform (t oid fid) a b delta) ≡ ok (shift t oid fid a b delta)
  unfolding shift
  rewrite-transform r =
      rewrite-IsRuns t oid fid (transform (t oid fid) a b delta) (transform-IsRuns _ a b delta r)

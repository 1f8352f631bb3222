-- ===== src/Ledger/Accounts/Opening.antt =====
-- The books when a request opens (internal/ledger/ledger.go, `Reserve`).
use aim_data_gateway.Prelude.{
  ℕ, suc, ◌+◌, ◌≤◌, ◌<◌, ◌≡◌, ◌≢◌, refl, sym, subst, ◌∙◌, true, false, ◌&&◌, some, List, ◌∷◌, All,
  arith, leb, ◌==◌, if◌then◌else◌,
}
use aim_data_gateway.Prelude.Int.{pos, ◌+ℤ◌}
use aim_data_gateway.Segment.{count_at}
use aim_data_gateway.Segment.Transform.{count_at-transform}
use aim_data_gateway.Ledger.State.{PermissionRow, RequestRow, Table, max_id}
use aim_data_gateway.Ledger.Tables.{at_key, shift, shift_self, shift-other, shift-IsRuns}
use aim_data_gateway.Ledger.Accounts.{Balanced}
use aim_data_gateway.Ledger.Accounts.Tally.{owner_in, is_for, tally, holds, wrote, held, written}
use aim_data_gateway.Ledger.Accounts.Rows.{Keeps, owners-Keeps, tally-Keeps, ids-max_id}

-- The sum with a new row in front.
tally-cons :
    (g : RequestRow → ℕ → ℕ) (ps : List PermissionRow) (o f x : ℕ) (r : RequestRow)
    (rs : List RequestRow)
    → tally g ps o f (r ∷ rs) x
      ≡ (if is_for o f (owner_in ps r.jti) then g r x else 0) + tally g ps o f rs x
unfolding tally
tally-cons g ps o f x r rs = refl

module _ (ps qs : List PermissionRow) (serves transmitted : Table) (rs : List RequestRow)
    (books : Balanced ps serves transmitted rs) (kept : Keeps ps qs) (r : RequestRow)
    (p : PermissionRow) (oid fid : ℕ) (owned : owner_in qs r.jti ≡ some p)
    (same_order : p.oid ≡ oid) (same_file : p.fid ≡ fid) (fresh : r.id ≡ suc (max_id rs))
    (opened : r.is_open ≡ true) (unwritten : r.next ≡ r.start) (ordered : r.start ≤ r.end)
    (room : (x : ℕ) → r.start ≤ x → x ≤ r.end → count_at (serves oid fid) x ≢ 2) where
  abbrev after : Table
  after = shift serves oid fid r.start r.end (pos 1)

  -- The serves after the request has opened.
  count_at-after_self :
      (x : ℕ)
      → count_at (after oid fid) x
        ≡ count_at (serves oid fid) x + (if leb r.start x && leb x r.end then 1 else 0)
  unfolding ◌+ℤ◌
  count_at-after_self x =
      rw (shift_self serves oid fid r.start r.end (pos 1))
        (count_at-transform (serves oid fid) r.start r.end (pos 1) x ∙ ground arith)

  after-other : (o f : ℕ) → (o == oid && f == fid) ≡ false → after o f ≡ serves o f
  after-other = shift-other serves oid fid r.start r.end (pos 1)

  is_for-other : (o f : ℕ) → (o == oid && f == fid) ≡ false → is_for o f (owner_in qs r.jti) ≡ false
  is_for-other o f e = rw owned (ground arith)

  held_self :
      (x : ℕ)
      → held qs oid fid (r ∷ rs) x
        ≡ held ps oid fid rs x + (if leb r.start x && leb x r.end then 1 else 0)
  held_self x =
      tally-cons holds qs oid fid x r rs
      ∙ rw (owned, tally-Keeps ps qs kept holds oid fid x rs books.owners, opened) (ground arith)

  held-other :
      (o f x : ℕ) → (o == oid && f == fid) ≡ false → held qs o f (r ∷ rs) x ≡ held ps o f rs x
  held-other o f x e =
      tally-cons holds qs o f x r rs
      ∙ rw (is_for-other o f e) (omega (arith, tally-Keeps ps qs kept holds o f x rs books.owners))

  -- A request that has written nothing adds nothing.
  written-same : (o f x : ℕ) → written qs o f (r ∷ rs) x ≡ written ps o f rs x
  written-same o f x =
      tally-cons wrote qs o f x r rs
      ∙ ground (arith, tally-Keeps ps qs kept wrote o f x rs books.owners)

  pub Balanced-open : Balanced qs (shift serves oid fid r.start r.end (pos 1)) transmitted (r ∷ rs)
  Balanced-open = record {
    serves_runs = shift-IsRuns serves oid fid r.start r.end (pos 1) books.serves_runs;
    serves_cap =
        at_key (λ o f. (x : ℕ) → count_at (after o f) x ≤ 2) oid fid
          (λ x. ground (arith, count_at-after_self x, books.serves_cap oid fid x, room x))
          (λ o f e x. rw (after-other o f e) (books.serves_cap o f x));
    transmitted_runs = books.transmitted_runs;
    transmitted_ones = books.transmitted_ones;
    held_served =
        at_key (λ o f. (x : ℕ) → held qs o f (r ∷ rs) x ≤ count_at (after o f) x) oid fid
          (λ x. omega (arith, count_at-after_self x, held_self x, books.held_served oid fid x))
          (λ o f e x. rw (after-other o f e, held-other o f x e) (books.held_served o f x));
    written_transmitted = λ o f x. rw (written-same o f x) (books.written_transmitted o f x);
    within = ((omega arith, omega arith), books.within);
    ids =
        (subst (λ k. All (λ (q : RequestRow). q.id < k) rs) (sym fresh) (ids-max_id rs), books.ids);
    owners = (record { row = p; found = owned }, owners-Keeps ps qs kept rs books.owners);
  }

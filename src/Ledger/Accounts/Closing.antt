-- ===== src/Ledger/Accounts/Closing.antt =====
-- The books when a request settles (internal/ledger/ledger.go, `settle`): it then holds what it has
-- written.
use aim_data_gateway.Prelude.{
  ℕ, ◌+◌, ◌-◌, ◌≤◌, ◌≡◌, refl, ◌∙◌, true, false, ◌&&◌, some, List, All, arith, leb, ◌==◌,
  if◌then◌else◌,
}
use aim_data_gateway.Prelude.Int.{negsuc, ◌+ℤ◌}
use aim_data_gateway.Prelude.Query.{find, update_where}
use aim_data_gateway.Segment.{count_at}
use aim_data_gateway.Segment.Transform.{count_at-transform}
use aim_data_gateway.Ledger.State.{PermissionRow, RequestRow, Table}
use aim_data_gateway.Ledger.Settle.{with_id, set_closed}
use aim_data_gateway.Ledger.Tables.{at_key, shift, shift_self, shift-other, shift-IsRuns}
use aim_data_gateway.Ledger.Accounts.{IsWithin, Balanced}
use aim_data_gateway.Ledger.Accounts.Tally.{
  owner_in, is_for, tally, tally-update_where, holds, wrote, held, written, HasOwner,
}
use aim_data_gateway.Ledger.Accounts.Rows.{
  Keeps, owners-Keeps, tally-Keeps, All-find, All-update_where_any, IdsDescend-update_where,
}

module _ (ps qs : List PermissionRow) (serves transmitted : Table) (rs : List RequestRow)
    (books : Balanced ps serves transmitted rs) (kept : Keeps ps qs) (r : RequestRow)
    (p : PermissionRow) (lo : ℕ) (found : find (with_id r.id) rs ≡ some r)
    (owned : owner_in ps r.jti ≡ some p) (opened : r.is_open ≡ true) (past_start : r.start ≤ lo)
    (past_written : r.next ≤ lo) where
  abbrev after : Table
  after = shift serves p.oid p.fid lo r.end (negsuc 0)

  abbrev rows : List RequestRow
  rows = update_where (with_id r.id) set_closed rs

  r-IsWithin : IsWithin r
  r-IsWithin = All-find IsWithin (with_id r.id) rs r found books.within

  count_at-after_self :
      (x : ℕ)
      → count_at (after p.oid p.fid) x ≡ (
          if leb lo x && leb x r.end
          then count_at (serves p.oid p.fid) x - 1
          else count_at (serves p.oid p.fid) x)
  unfolding ◌+ℤ◌
  count_at-after_self x =
      rw (shift_self serves p.oid p.fid lo r.end (negsuc 0))
        (count_at-transform (serves p.oid p.fid) lo r.end (negsuc 0) x ∙ ground arith)

  after-other : (o f : ℕ) → (o == p.oid && f == p.fid) ≡ false → after o f ≡ serves o f
  after-other = shift-other serves p.oid p.fid lo r.end (negsuc 0)

  rows-owners : All (HasOwner ps) rows
  rows-owners =
      All-update_where_any (HasOwner ps) r.id set_closed
        (λ q h. record { row = h.row; found = h.found }) rs books.owners

  changed :
      (g : RequestRow → ℕ → ℕ) (o f x : ℕ)
      → tally g qs o f rows x + (if is_for o f (some p) then g r x else 0)
        ≡ tally g ps o f rs x + (if is_for o f (some p) then g (set_closed r) x else 0)
  changed g o f x =
      rw (tally-Keeps ps qs kept g o f x rows rows-owners) (
        rw owned at
          (tally-update_where g ps o f x r.id set_closed rs r (λ q. refl) books.ids found))

  -- On every position the request gives up exactly what `serves` counts less.
  held_served_self : (x : ℕ) → held qs p.oid p.fid rows x ≤ count_at (after p.oid p.fid) x
  held_served_self x = ground (
    arith,
    r-IsWithin,
    count_at-after_self x,
    changed holds p.oid p.fid x,
    books.held_served p.oid p.fid x,
  )

  held-other :
      (o f x : ℕ) → (o == p.oid && f == p.fid) ≡ false → held qs o f rows x ≡ held ps o f rs x
  held-other o f x e = ground (arith, changed holds o f x)

  written-same : (o f x : ℕ) → written qs o f rows x ≡ written ps o f rs x
  written-same o f x = ground (arith, changed wrote o f x)

  serves_cap_self : (x : ℕ) → count_at (after p.oid p.fid) x ≤ 2
  serves_cap_self x = ground (arith, count_at-after_self x, books.serves_cap p.oid p.fid x)

  pub Balanced-close :
      Balanced qs
        (shift serves p.oid p.fid lo r.end (negsuc 0))
        transmitted
        (update_where (with_id r.id) set_closed rs)
  Balanced-close = record {
    serves_runs = shift-IsRuns serves p.oid p.fid lo r.end (negsuc 0) books.serves_runs;
    serves_cap =
        at_key (λ o f. (x : ℕ) → count_at (after o f) x ≤ 2) p.oid p.fid serves_cap_self
          (λ o f e x. rw (after-other o f e) (books.serves_cap o f x));
    transmitted_runs = books.transmitted_runs;
    transmitted_ones = books.transmitted_ones;
    held_served =
        at_key (λ o f. (x : ℕ) → held qs o f rows x ≤ count_at (after o f) x) p.oid p.fid
          held_served_self
          (λ o f e x. rw (after-other o f e, held-other o f x e) (books.held_served o f x));
    written_transmitted = λ o f x. rw (written-same o f x) (books.written_transmitted o f x);
    within = All-update_where_any IsWithin r.id set_closed (λ q h. h) rs books.within;
    ids = IdsDescend-update_where r.id set_closed (λ q. refl) rs books.ids;
    owners = owners-Keeps ps qs kept rows rows-owners;
  }

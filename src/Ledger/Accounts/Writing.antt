-- ===== src/Ledger/Accounts/Writing.antt =====
-- The books when a request has written more bytes (internal/ledger/ledger.go, `Progress`).
use aim_data_gateway.Prelude.{
  ℕ, min, ◌+◌, ◌-◌, ◌≤◌, ◌<◌, ◌≡◌, refl, ◌∙◌, true, false, ◌&&◌, some, List, All, arith, ltb, leb,
  ◌==◌, if◌then◌else◌,
}
use aim_data_gateway.Prelude.Query.{find, update_where}
use aim_data_gateway.Segment.{count_at, mark}
use aim_data_gateway.Segment.Runs.{IsRuns}
use aim_data_gateway.Segment.Normalize.{AllOnes, count_at-mark, mark-IsRuns, mark-AllOnes}
use aim_data_gateway.Ledger.State.{PermissionRow, RequestRow, Table, put_table}
use aim_data_gateway.Ledger.Settle.{with_id, set_next}
use aim_data_gateway.Ledger.Tables.{at_key, put_table_self, put_table-other}
use aim_data_gateway.Ledger.Accounts.{IsWithin, Balanced}
use aim_data_gateway.Ledger.Accounts.Tally.{
  owner_in, is_for, tally, tally-update_where, holds, wrote, held, written, HasOwner, IdsDescend,
}
use aim_data_gateway.Ledger.Accounts.Rows.{
  All-find, All-update_where, All-update_where_any, IdsDescend-update_where,
}

module _ (ps : List PermissionRow) (serves transmitted : Table) (rs : List RequestRow)
    (books : Balanced ps serves transmitted rs) (r : RequestRow) (p : PermissionRow) (n : ℕ)
    (found : find (with_id r.id) rs ≡ some r) (owned : owner_in ps r.jti ≡ some p)
    (opened : r.is_open ≡ true) (forward : r.next ≤ n) (inside : n ≤ r.end + 1) where
  abbrev rows : List RequestRow
  rows = update_where (with_id r.id) (set_next n) rs

  r-IsWithin : IsWithin r
  r-IsWithin = All-find IsWithin (with_id r.id) rs r found books.within

  changed :
      (g : RequestRow → ℕ → ℕ) (o f x : ℕ)
      → tally g ps o f rows x + (if is_for o f (some p) then g r x else 0)
        ≡ tally g ps o f rs x + (if is_for o f (some p) then g (set_next n r) x else 0)
  changed g o f x =
      rw owned at (tally-update_where g ps o f x r.id (set_next n) rs r (λ q. refl) books.ids found)

  held-same : (o f x : ℕ) → held ps o f rows x ≡ held ps o f rs x
  held-same o f x = ground (arith, changed holds o f x)

  written-other :
      (o f x : ℕ) → (o == p.oid && f == p.fid) ≡ false → written ps o f rows x ≡ written ps o f rs x
  written-other o f x e = ground (arith, changed wrote o f x)

  written_self :
      (x : ℕ)
      → written ps p.oid p.fid rows x
        ≡ written ps p.oid p.fid rs x + (if leb r.next x && ltb x n then 1 else 0)
  written_self x = ground (arith, r-IsWithin, changed wrote p.oid p.fid x)

  rows-IsWithin : All IsWithin rows
  rows-IsWithin =
      All-update_where IsWithin r.id (set_next n) rs r books.ids found
        (omega (arith, r-IsWithin), inside) books.within

  rows-owners : All (HasOwner ps) rows
  rows-owners =
      All-update_where_any (HasOwner ps) r.id (set_next n)
        (λ q h. record { row = h.row; found = h.found }) rs books.owners

  rows-ids : IdsDescend rows
  rows-ids = IdsDescend-update_where r.id (set_next n) (λ q. refl) rs books.ids

  -- Where nothing new was written, only the row changes.
  pub Balanced-stay : n ≡ r.next → Balanced ps serves transmitted rows
  Balanced-stay same = record {
    serves_runs = books.serves_runs;
    serves_cap = books.serves_cap;
    transmitted_runs = books.transmitted_runs;
    transmitted_ones = books.transmitted_ones;
    held_served = λ o f x. rw (held-same o f x) (books.held_served o f x);
    written_transmitted =
        at_key (λ o f. (x : ℕ) → count_at (transmitted o f) x ≡ min 1 (written ps o f rows x)) p.oid
          p.fid (λ x. ground (arith, written_self x, books.written_transmitted p.oid p.fid x))
          (λ o f e x. rw (written-other o f x e) (books.written_transmitted o f x));
    within = rows-IsWithin;
    ids = rows-ids;
    owners = rows-owners;
  }

  abbrev after : Table
  after = put_table transmitted p.oid p.fid (mark (transmitted p.oid p.fid) r.next (n - 1))

  after_self : after p.oid p.fid ≡ mark (transmitted p.oid p.fid) r.next (n - 1)
  after_self =
      put_table_self transmitted p.oid p.fid (mark (transmitted p.oid p.fid) r.next (n - 1))

  after-other : (o f : ℕ) → (o == p.oid && f == p.fid) ≡ false → after o f ≡ transmitted o f
  after-other =
      put_table-other transmitted p.oid p.fid (mark (transmitted p.oid p.fid) r.next (n - 1))

  marked_written :
      (x : ℕ)
      → r.next < n
      → count_at (mark (transmitted p.oid p.fid) r.next (n - 1)) x
        ≡ min 1 (written ps p.oid p.fid rows x)
  marked_written x l =
      count_at-mark (transmitted p.oid p.fid) r.next (n - 1) (books.transmitted_runs p.oid p.fid)
        (books.transmitted_ones p.oid p.fid) x
      ∙ ground (arith, written_self x, books.written_transmitted p.oid p.fid x)

  pub Balanced-write : r.next < n → Balanced ps serves after rows
  Balanced-write l = record {
    serves_runs = books.serves_runs;
    serves_cap = books.serves_cap;
    transmitted_runs =
        at_key (λ o f. IsRuns (after o f)) p.oid p.fid
          (rw after_self (mark-IsRuns _ r.next (n - 1) (books.transmitted_runs p.oid p.fid)))
          (λ o f e. rw (after-other o f e) (books.transmitted_runs o f));
    transmitted_ones =
        at_key (λ o f. AllOnes (after o f)) p.oid p.fid
          (rw after_self (mark-AllOnes _ r.next (n - 1) (books.transmitted_runs p.oid p.fid)))
          (λ o f e. rw (after-other o f e) (books.transmitted_ones o f));
    held_served = λ o f x. rw (held-same o f x) (books.held_served o f x);
    written_transmitted =
        at_key (λ o f. (x : ℕ) → count_at (after o f) x ≡ min 1 (written ps o f rows x)) p.oid p.fid
          (λ x. rw after_self (marked_written x l))
          (λ o f e x.
            rw (after-other o f e, written-other o f x e) (books.written_transmitted o f x));
    within = rows-IsWithin;
    ids = rows-ids;
    owners = rows-owners;
  }

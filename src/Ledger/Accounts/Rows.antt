-- ===== src/Ledger/Accounts/Rows.antt =====
-- What an update or an insertion of one row leaves true of all rows.
use aim_data_gateway.Prelude.{
  ℕ, suc, ◌≤◌, ◌<◌, ◌≡◌, refl, subst, sym, Bool, none, some, List, [], ◌∷◌, All, All-imp, arith,
  ==_iff, ◌==◌, if◌then◌else◌, inl, inr, Bool-cases,
}
use aim_data_gateway.Prelude.Query.{find, update_where}
use aim_data_gateway.Ledger.State.{PermissionRow, RequestRow, Table, max_id}
use aim_data_gateway.Ledger.Settle.{with_id}
use aim_data_gateway.Ledger.Accounts.{IsWithin, Balanced}
use aim_data_gateway.Ledger.Accounts.Tally.{
  owner_in, is_for, tally, holds, wrote, HasOwner, IdsDescend, update_where-absent,
}

-- Every permission is still there, for the same order and file.
abbrev pub Keeps : List PermissionRow → List PermissionRow → Type 0
Keeps ps qs =
    (j : ℕ) (p : PermissionRow)
    → owner_in ps j ≡ some p
    → (q : PermissionRow) × (owner_in qs j ≡ some q) × (q.oid ≡ p.oid) × (q.fid ≡ p.fid)

pub Keeps-refl : (ps : List PermissionRow) → Keeps ps ps
Keeps-refl ps j p h = (p, h, refl, refl)

pub Keeps-cons :
    (p : PermissionRow) (ps : List PermissionRow) → owner_in ps p.jti ≡ none → Keeps ps (p ∷ ps)
unfolding find
Keeps-cons p ps absent j q h = (q, ground (arith), refl, refl)

pub Keeps-update_where :
    (test : PermissionRow → Bool) (change : PermissionRow → PermissionRow)
    → ((p : PermissionRow)
        → ((change p).jti ≡ p.jti) × ((change p).oid ≡ p.oid) × ((change p).fid ≡ p.fid))
    → (ps : List PermissionRow) → Keeps ps (update_where test change ps)
unfolding find update_where
Keeps-update_where test change keep [] j p h = cc
Keeps-update_where test change keep (q ∷ ps) j p h = elim (Bool-cases (q.jti == j)) [
  | inl e ↦ (
    if test q then change q else q,
    ground (arith, keep q),
    ground (arith, keep q),
    ground (arith, keep q),
  )
  | inr e ↦
      let (r, found, eo, ef) = Keeps-update_where test change keep ps j p (ground arith) in
      (r, ground (arith, keep q), eo, ef)
]

module _ (ps qs : List PermissionRow) (kept : Keeps ps qs) where
  pub owners-Keeps : (rs : List RequestRow) → All (HasOwner ps) rs → All (HasOwner qs) rs
  owners-Keeps =
      All-imp (HasOwner ps) (HasOwner qs) λ r h.
        let (q, found, eo, ef) = kept r.jti h.row h.found in record { row = q; found = found }

  is_for-Keeps :
      (o f : ℕ) (r : RequestRow)
      → HasOwner ps r
      → is_for o f (owner_in qs r.jti) ≡ is_for o f (owner_in ps r.jti)
  is_for-Keeps o f r h =
      let (q, found, eo, ef) = kept r.jti h.row h.found in rw (found, h.found, eo, ef)

  pub tally-Keeps :
      (g : RequestRow → ℕ → ℕ) (o f x : ℕ) (rs : List RequestRow)
      → All (HasOwner ps) rs
      → tally g qs o f rs x ≡ tally g ps o f rs x
  unfolding tally
  tally-Keeps g o f x [] h = refl
  tally-Keeps g o f x (r ∷ rs) h = rw (is_for-Keeps o f r h.0, tally-Keeps g o f x rs h.1)

pub tally-le :
    (g h : RequestRow → ℕ → ℕ) (ps : List PermissionRow) (o f x : ℕ) (rs : List RequestRow)
    → ((r : RequestRow) → IsWithin r → g r x ≤ h r x)
    → All IsWithin rs
    → tally g ps o f rs x ≤ tally h ps o f rs x
unfolding tally
tally-le g h ps o f x [] le w = omega arith
tally-le g h ps o f x (r ∷ rs) le w = ground (arith, le r w.0, tally-le g h ps o f x rs le w.1)

pub All-update_where :
    (P : RequestRow → Type 0) (id : ℕ) (change : RequestRow → RequestRow) (rs : List RequestRow)
    (r : RequestRow)
    → IdsDescend rs
    → find (with_id id) rs ≡ some r
    → P (change r)
    → All P rs
    → All P (update_where (with_id id) change rs)
unfolding find update_where
All-update_where P id change [] r d h p a = tt
All-update_where P id change (q ∷ rs) r d h p a = elim (Bool-cases (q.id == id)) [
  | inl e ↦
      let absent =
        update_where-absent id change rs
          (subst (λ k. All (λ (s : RequestRow). s.id < k) rs) ((==_iff q.id id).0 e) d.0) in
      let same : q ≡ r = ground arith in
      rw e (subst (λ s. P (change s)) (sym same) p, rw absent a.1)
  | inr e ↦ rw e (a.0, All-update_where P id change rs r d.1 (ground arith) p a.1)
]

pub All-update_where_any :
    (P : RequestRow → Type 0) (id : ℕ) (change : RequestRow → RequestRow)
    → ((r : RequestRow) → P r → P (change r))
    → (rs : List RequestRow) → All P rs
    → All P (update_where (with_id id) change rs)
unfolding update_where
All-update_where_any P id change keep [] a = tt
All-update_where_any P id change keep (q ∷ rs) a = elim (Bool-cases (q.id == id)) [
  | inl e ↦ rw e (keep q a.0, All-update_where_any P id change keep rs a.1)
  | inr e ↦ rw e (a.0, All-update_where_any P id change keep rs a.1)
]

pub IdsDescend-update_where :
    (id : ℕ) (change : RequestRow → RequestRow)
    → ((r : RequestRow) → (change r).id ≡ r.id)
    → (rs : List RequestRow) → IdsDescend rs
    → IdsDescend (update_where (with_id id) change rs)
unfolding update_where
IdsDescend-update_where id change keep [] d = tt
IdsDescend-update_where id change keep (q ∷ rs) d = (
  All-update_where_any (λ (s : RequestRow). s.id < (if q.id == id then change q else q).id) id
      change (λ s h. omega (arith, keep s)) rs
      (All-imp (λ (s : RequestRow). s.id < q.id) _ (λ s h. ground (arith, keep q)) rs d.0),
  IdsDescend-update_where id change keep rs d.1,
)

pub ids-max_id : (rs : List RequestRow) → All (λ (q : RequestRow). q.id < suc (max_id rs)) rs
unfolding max_id
ids-max_id [] = tt
ids-max_id (r ∷ rs) = (
  omega arith,
  All-imp (λ (q : RequestRow). q.id < suc (max_id rs)) _ (λ q h. omega arith) rs (ids-max_id rs),
)

pub All-find :
    (P : RequestRow → Type 0) (test : RequestRow → Bool) (rs : List RequestRow) (r : RequestRow)
    → find test rs ≡ some r
    → All P rs
    → P r
unfolding find
All-find P test [] r h a = cc
All-find P test (q ∷ rs) r h a = elim (Bool-cases (test q)) [
  | inl e ↦ subst P (ground arith) a.0
  | inr e ↦ All-find P test rs r (ground arith) a.1
]

-- The books balance with other permission rows for the same orders and files.
pub Balanced-Keeps :
    (ps qs : List PermissionRow) (serves transmitted : Table) (rs : List RequestRow)
    → Keeps ps qs
    → Balanced ps serves transmitted rs
    → Balanced qs serves transmitted rs
Balanced-Keeps ps qs serves transmitted rs kept books = record {
  serves_runs = books.serves_runs;
  serves_cap = books.serves_cap;
  transmitted_runs = books.transmitted_runs;
  transmitted_ones = books.transmitted_ones;
  held_served =
      λ o f x. rw (tally-Keeps ps qs kept holds o f x rs books.owners) (books.held_served o f x);
  written_transmitted = λ o f x.
      rw (tally-Keeps ps qs kept wrote o f x rs books.owners) (books.written_transmitted o f x);
  within = books.within;
  ids = books.ids;
  owners = owners-Keeps ps qs kept rs books.owners;
}

-- ===== src/Ledger/Accounts/Tally.antt =====
-- Sums over the requests of one order and file, and how they change with a row.
use aim_data_gateway.Prelude.{
  ℕ, ◌+◌, ◌<◌, ◌≡◌, refl, subst, Bool, false, ◌&&◌, Option, none, some, List, [], ◌∷◌, All, arith,
  ltb, leb, ==_iff, ◌==◌, inl, inr, Bool-cases, if◌then◌else◌,
}
use aim_data_gateway.Prelude.Query.{find, update_where}
use aim_data_gateway.Ledger.State.{PermissionRow, RequestRow}
use aim_data_gateway.Ledger.Settle.{with_id}

abbrev pub owner_in : List PermissionRow → ℕ → Option PermissionRow
owner_in ps jti = find (λ (p : PermissionRow). p.jti == jti) ps

abbrev pub is_for : ℕ → ℕ → Option PermissionRow → Bool
is_for o f none = false
is_for o f (some p) = p.oid == o && p.fid == f

-- A request keeps its whole range while it is open, and what it has written once it is settled.
abbrev pub holds : RequestRow → ℕ → ℕ
holds r x = if leb r.start x && ltb x (if r.is_open then r.end + 1 else r.next) then 1 else 0

abbrev pub wrote : RequestRow → ℕ → ℕ
wrote r x = if leb r.start x && ltb x r.next then 1 else 0

-- The requests of an order and file, weighed by `g` at one position.
unfoldable pub tally : (RequestRow → ℕ → ℕ) → List PermissionRow → ℕ → ℕ → List RequestRow → ℕ → ℕ
tally g ps o f [] x = 0
tally g ps o f (r ∷ rs) x =
    (if is_for o f (owner_in ps r.jti) then g r x else 0) + tally g ps o f rs x

abbrev pub held : List PermissionRow → ℕ → ℕ → List RequestRow → ℕ → ℕ
held = tally holds

abbrev pub written : List PermissionRow → ℕ → ℕ → List RequestRow → ℕ → ℕ
written = tally wrote

-- The permission of a request is stored.
pub record HasOwner (ps : List PermissionRow) (r : RequestRow) : Type 0 where
  pub row : PermissionRow
  pub found : owner_in ps r.jti ≡ some row

-- Each id is above those of the older rows.
abbrev pub IdsDescend : List RequestRow → Type 0
IdsDescend [] = Unit
IdsDescend (r ∷ rs) = All (λ (q : RequestRow). q.id < r.id) rs × IdsDescend rs

-- A row whose id is below all others' is not updated.
pub update_where-absent :
    (id : ℕ) (change : RequestRow → RequestRow) (rs : List RequestRow)
    → All (λ (q : RequestRow). q.id < id) rs
    → update_where (with_id id) change rs ≡ rs
unfolding update_where
update_where-absent id change [] h = refl
update_where-absent id change (r ∷ rs) h = ground (arith, update_where-absent id change rs h.1)

pub find-id :
    (id : ℕ) (rs : List RequestRow) (r : RequestRow) → find (with_id id) rs ≡ some r → r.id ≡ id
unfolding find
find-id id [] r h = cc
find-id id (q ∷ rs) r h = ground (arith, find-id id rs r)

module _ (g : RequestRow → ℕ → ℕ) (ps : List PermissionRow) (o f x : ℕ) where
  -- The sum after one row has changed.
  pub tally-update_where :
      (id : ℕ) (change : RequestRow → RequestRow) (rs : List RequestRow) (r : RequestRow)
      → ((q : RequestRow) → (change q).jti ≡ q.jti)
      → IdsDescend rs
      → find (with_id id) rs ≡ some r
      → tally g ps o f (update_where (with_id id) change rs) x
          + (if is_for o f (owner_in ps r.jti) then g r x else 0)
        ≡ tally g ps o f rs x + (if is_for o f (owner_in ps r.jti) then g (change r) x else 0)
  unfolding tally update_where find
  tally-update_where id change [] r keep d h = cc
  tally-update_where id change (q ∷ rs) r keep d h = elim (Bool-cases (q.id == id)) [
    | inl e ↦ ground (
      arith,
      keep q,
      update_where-absent id change rs
          (subst (λ k. All (λ (p : RequestRow). p.id < k) rs) ((==_iff q.id id).0 e) d.0),
    )
    | inr e ↦ ground (arith, tally-update_where id change rs r keep d.1)
  ]

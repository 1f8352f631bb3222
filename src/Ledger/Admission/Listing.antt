-- ===== src/Ledger/Admission/Listing.antt =====
-- The listings of stored admissions (internal/ledger/verification.go): `VerificationToken`,
-- `Verifications` and `UnlinkedVerifications`.
use aim_data_gateway.Prelude.{
  ℕ, Bool, not, ◌&&◌, ◌||◌, Option, List, [], ◌∷◌, ltb, leb, ◌==◌, if◌then◌else◌,
}
use aim_data_gateway.Prelude.Query.{find, select}
use aim_data_gateway.Ledger.Admission.{Admission, Verifications, is_null}

-- WHERE spec_bytes=? LIMIT 1
unfoldable pub verification_token : Verifications → ℕ → Option Admission
verification_token db token = find (λ (a : Admission). a.spec == token) db.admissions

-- ORDER BY committed_at, spec_id
abbrev pub listed_before : Admission → Admission → Bool
listed_before a b =
    ltb a.committed_at b.committed_at
    || (a.committed_at == b.committed_at && leb a.spec_id b.spec_id)

unfoldable pub insert_listed : Admission → List Admission → List Admission
insert_listed a [] = a ∷ []
insert_listed a (b ∷ rows) = if listed_before a b then a ∷ b ∷ rows else b ∷ insert_listed a rows

unfoldable pub sort_listed : List Admission → List Admission
sort_listed [] = []
sort_listed (a ∷ rows) = insert_listed a (sort_listed rows)

unfoldable pub verifications_where : Verifications → (Admission → Bool) → List Admission
verifications_where db test = sort_listed (select test db.admissions)

-- A result that no entry of the audit log is linked to.
abbrev pub is_unlinked : Admission → Bool
is_unlinked a = not (is_null a.result) && is_null a.audit_seq

unfoldable pub unlinked_verifications : Verifications → List Admission
unlinked_verifications db = verifications_where db is_unlinked

-- ===== src/Ledger/Control.antt =====
-- The operations of control instructions (internal/ledger/ledger.go): seen instructions, files,
-- offers, approval, expiry and revocation. `stamp` is the value of `now()`.
use aim_data_gateway.Prelude.{
  ℕ, Bool, true, false, not, ◌&&◌, ◌||◌, Option, none, some, List, ◌∷◌, leb, ◌==◌, if◌then◌else◌,
}
use aim_data_gateway.Prelude.Query.{find, exists, update_where}
use aim_data_gateway.Prelude.Result.{Result, ok, err, not_pending}
use aim_data_gateway.Ledger.State.{
  PermissionState, PermissionRow, is_live, FileRow, OfferState, OfferRow, StateBefore, RevokeAck,
  Db, find_permission,
}

-- `Seen`: INSERT OR IGNORE; the answer tells whether the instruction was there.
unfoldable pub seen : Db → ℕ → Bool × Db
seen db iid =
    if exists (λ (i : ℕ). i == iid) db.seen
    then (true, db)
    else (false, record db { seen = iid ∷ db.seen })

unfoldable pub was_seen : Db → ℕ → Bool
was_seen db iid = exists (λ (i : ℕ). i == iid) db.seen

-- An INSERT … ON CONFLICT DO UPDATE: replace the row with the key, or add one.
unfoldable pub upsert {ℓ} : {A : Type ℓ} → (A → Bool) → (A → A) → A → List A → List A
upsert test change new rows = if exists test rows then update_where test change rows else new ∷ rows

-- `PutFile`: the row of a scanned file, with changed = 0.
unfoldable pub put_file : Db → FileRow → Db
put_file db f = record db {
  files =
      upsert (λ (g : FileRow). g.fid == f.fid) (λ g. record f { changed = 0 })
        (record f { changed = 0 }) db.files;
}

unfoldable pub set_changed : Db → ℕ → ℕ → Db
set_changed db fid n = record db {
  files = update_where (λ (g : FileRow). g.fid == fid) (λ g. record g { changed = n }) db.files;
}

unfoldable pub mark_changed : Db → ℕ → Db
mark_changed db fid = set_changed db fid 1

unfoldable pub mark_missing : Db → ℕ → Db
mark_missing db fid = set_changed db fid 2

abbrev pub is_offered : OfferState → Bool
is_offered OfferState.offered = true
is_offered OfferState.withdrawn = false

-- approved_locally_at of an offer that is put again: kept by a withdrawal and by the same
-- instruction, and otherwise that of the new offer.
unfoldable pub kept_approval : OfferRow → OfferRow → Option ℕ
kept_approval old new =
    if not (is_offered new.state)
      || (is_offered old.state && is_offered new.state && old.iid == new.iid)
    then old.approved_locally_at
    else new.approved_locally_at

abbrev pub same_offer : ℕ → ℕ → ℕ → OfferRow → Bool
same_offer fid sha lvid o = o.fid == fid && o.sha == sha && o.lvid == lvid

-- `PutOffer`
unfoldable pub put_offer : Db → OfferRow → Db
put_offer db o = record db {
  offers =
      upsert (same_offer o.fid o.sha o.lvid)
        (λ old. record o { approved_locally_at = kept_approval old o }) o db.offers;
}

abbrev pub is_none : Option ℕ → Bool
is_none none = true
is_none (some _) = false

abbrev pub pending_approval : ℕ → ℕ → ℕ → OfferRow → Bool
pending_approval fid sha lvid o =
    same_offer fid sha lvid o && is_offered o.state && is_none o.approved_locally_at

-- `Approve`: fails if no row was updated.
unfoldable pub approve : Db → ℕ → ℕ → ℕ → ℕ → Result (Unit {0}) × Db
approve db fid sha lvid stamp =
    if exists (pending_approval fid sha lvid) db.offers
    then (
      ok tt,
      record db {
        offers =
            update_where (pending_approval fid sha lvid)
              (λ o. record o { approved_locally_at = some stamp }) db.offers;
      },
    )
    else (err not_pending, db)

-- `CloseExpired`
unfoldable pub close_expired : Db → ℕ → ℕ → Db
close_expired db at stamp = record db {
  permissions =
      update_where (λ (p : PermissionRow). is_live p.state && leb p.td at)
        (λ p. record p { state = PermissionState.closed; closed_at = some stamp }) db.permissions;
}

-- The state that a revocation reports.
unfoldable pub state_before : Option PermissionRow → ℕ → StateBefore
state_before none now = StateBefore.unknown
state_before (some p) now =
    if not (is_live p.state)
    then StateBefore.closed
    else if leb p.td now
    then StateBefore.expired
    else StateBefore.active

abbrev pub add_revocation : ℕ → List ℕ → List ℕ
add_revocation jti js = if exists (λ (j : ℕ). j == jti) js then js else jti ∷ js

-- `revokeTx`: the permission, if it is stored, is revoked, and the revocation is recorded.
unfoldable pub revoke_tx : Db → ℕ → ℕ → RevokeAck × Db
revoke_tx db jti now = (
  record { jti = jti; state_before = state_before (find_permission db jti) now },
  record db {
    permissions =
        update_where (λ (p : PermissionRow). p.jti == jti)
          (λ p. record p { state = PermissionState.revoked }) db.permissions;
    revocations = add_revocation jti db.revocations;
  },
)

-- `Revoke`
unfoldable pub revoke : Db → ℕ → ℕ → RevokeAck × Db
revoke = revoke_tx

abbrev pub answer_of : Db → ℕ → Option (ℕ × RevokeAck)
answer_of db iid = find (λ (a : ℕ × RevokeAck). a.0 == iid) db.answers

-- `RevokeInstruction`: an instruction that was answered gets the same answer again.
unfoldable pub revoke_instruction : Db → ℕ → ℕ → ℕ → RevokeAck × Db
revoke_instruction db iid jti now = elim (answer_of db iid) [
  | some (i, a) ↦ (a, db)
  | none ↦
      let (a, db') = revoke_tx db jti now in (a, record db' { answers = (iid, a) ∷ db'.answers })
]

-- ===== src/Ledger/Admission/Replay.antt =====
-- Repeated calls of `Admit` and `ClaimVerification` (internal/ledger/verification.go).
use aim_data_gateway.Prelude.{
  ℕ, ◌≡◌, ◌≢◌, refl, sym, ◌∙◌, subst, some, true, false, List, [], ◌∷◌, arith, ==_iff, inl, inr,
  Bool-cases, Option-cases, ◌==◌,
}
use aim_data_gateway.Prelude.Query.{find, count, exists, update_where}
use aim_data_gateway.Prelude.Result.{ok, tx, tx-eq-ok}
use aim_data_gateway.Ledger.Admission.{
  Admission, Verifications, VerificationState, find_spec, is_refused, violates, admitted, admit_new,
  admit_tx, admit, claimable, set_state, claim_verification,
}
use aim_data_gateway.Ledger.Admission.Retention.{
  IsStored, RetainedReach, RetainedReach-IsStored, committed-IsStored,
}

-- A committed admission was not stored before, and it leads to `admitted`.
admit-true :
    (db : Verifications) (a : Admission) (at : ℕ) (db' : Verifications)
    → admit db a at ≡ (ok true, db')
    → admitted db a at ≡ db'
unfolding admit admit_tx admit_new
admit-true db a at db' h = let m = tx-eq-ok db (admit_tx db a at) h in ground (arith, m)

-- An admission whose row is stored is known.
stored-again :
    (db : Verifications) (a : Admission) (at later : ℕ)
    → IsStored a at db.admissions
    → admit db a later ≡ (ok false, db)
unfolding admit admit_tx tx
stored-again db a at later (r, found, is_row) =
    ground (arith, found, is_row.spec_hash, ==_iff r.spec_hash a.spec_hash)

find-exists :
    (id nonce : ℕ) (rows : List Admission) (r : Admission)
    → find (λ (x : Admission). x.spec_id == id) rows ≡ some r
    → r.nonce ≡ nonce
    → exists (λ (x : Admission). x.nonce == nonce) rows ≡ true
unfolding find exists
find-exists id nonce [] r h same = cc
find-exists id nonce (x ∷ rows) r h same =
    ground (arith, find-exists id nonce rows r, ==_iff x.nonce nonce)

stored-reuse :
    (db : Verifications) (a b : Admission) (at later : ℕ)
    → b.nonce ≡ a.nonce
    → IsStored a at db.admissions
    → (admit db b later).0 ≢ ok true
unfolding admit admit_tx tx admit_new is_refused violates
stored-reuse db a b at later same (r, found, is_row) h =
    let used = find-exists a.spec_id b.nonce db.admissions r found (is_row.nonce ∙ sym same) in
    elim (Option-cases (find_spec db b.spec_id)) [
      | inl new ↦ ground (arith, used, new)
      | inr (q, old) ↦ ground (arith, old)
    ]

-- Once an admission is committed, and after any further calls on the verification tables, of which none
-- is a retention that a probe meets more than thirty days after its commit: admitting it again answers
-- false without an error and changes nothing, and no admission with the same nonce is committed.
pub admit-admit :
    (db : Verifications) (a b : Admission) (at later : ℕ) (db' after : Verifications)
    → b.nonce ≡ a.nonce
    → admit db a at ≡ (ok true, db')
    → RetainedReach a at db' after
    → (admit after a later ≡ (ok false, after)) × (¬ ((admit after b later).0 ≡ ok true))
admit-admit db a b at later db' after same h past =
    let first =
      subst (λ (d : Verifications). IsStored a at d.admissions) (admit-true db a at db' h)
        (committed-IsStored a at db) in
    let stored = RetainedReach-IsStored a at db' after first past in
    (stored-again after a at later stored, stored-reuse after a b at later same stored)

count-claimed :
    (id : ℕ) (rows : List Admission)
    → count (claimable id) (update_where (claimable id) (set_state VerificationState.running) rows)
      ≡ 0
unfolding count update_where
count-claimed id [] = refl
count-claimed id (a ∷ rows) = elim (Bool-cases (claimable id a)) [
  | inl e ↦ rw e (ground (arith, count-claimed id rows))
  | inr e ↦ rw (e, update_where) (ground (arith, count-claimed id rows))
]

-- After any claim of an admission, whatever it answered, another claim of it answers false.
pub claim_verification-claim_verification :
    (db : Verifications) (id : ℕ) → (claim_verification (claim_verification db id).1 id).0 ≡ false
unfolding claim_verification
claim_verification-claim_verification db id = rw (count-claimed id db.admissions) refl

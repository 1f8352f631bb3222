-- ===== src/Ledger/Admission/Retention.antt =====
-- How long an admission stays stored (internal/ledger/verification.go): no call but
-- `PruneVerification` deletes it, and that only a probe of more than thirty days.
use aim_data_gateway.Prelude.{
  ℕ, ◌+◌, ◌-◌, ◌*◌, ◌/◌, ◌≤◌, ◌≡◌, ◌⊎◌, refl, subst, ap, ◌∙◌, Bool, true, false, not, none, some,
  List, [], ◌∷◌, arith, ◌==◌, ==_iff, if◌then◌else◌, inl, inr, Bool-cases, Option-cases,
}
use aim_data_gateway.Prelude.Query.{find, select, update_where}
use aim_data_gateway.Prelude.Result.{ok, tx_inv}
use aim_data_gateway.Ledger.Admission.{
  Admission, Verifications, VerificationState, second, find_spec, is_probe, admitted_row, admitted,
  admit_new, admit_tx, admit, verification_event, set_state, claim_verification, save_result,
  save_verification, set_audit_seq, audit_verification, set_delivered, reconcile_verification,
  interrupt_verifications, is_prunable, prune_verification,
}
use aim_data_gateway.Ledger.Admission.History.{
  VerificationStep, admitting, recording, claiming, saving, linking, acknowledging, interrupting,
  pruning,
}

abbrev pub thirty_days : ℕ
thirty_days = 30 * 24 * 3600 * second

-- A call that leaves an admission of the time `at` stored: any, but for the retention of a probe after
-- more than thirty days.
abbrev pub IsRetaining :
    (a : Admission) (at : ℕ) {db db' : Verifications} → VerificationStep db db' → Type 0
IsRetaining a at (pruning now) = (is_probe a.variant ≡ false) ⊎ (now ≤ at + thirty_days)
IsRetaining a at _ = Unit {0}

pub data RetainedReach (a : Admission) (at : ℕ) (s : Verifications) : Verifications → Type 0 where
  start : RetainedReach a at s s
  further :
      {t u : Verifications}
      → RetainedReach a at s t
      → (step : VerificationStep t u) → IsRetaining a at step
      → RetainedReach a at s u

-- The row of an admission that was committed at `at`.
pub record IsRowOf (a : Admission) (at : ℕ) (r : Admission) : Type 0 where
  pub spec_hash : r.spec_hash ≡ a.spec_hash
  pub nonce : r.nonce ≡ a.nonce
  pub variant : r.variant ≡ a.variant
  pub committed : r.committed_at ≡ at / second

abbrev has_id : ℕ → Admission → Bool
has_id id r = r.spec_id == id

abbrev pub IsStored : Admission → ℕ → List Admission → Type 0
IsStored a at rows = (r : Admission) × (find (has_id a.spec_id) rows ≡ some r) × IsRowOf a at r

find-update :
    (id : ℕ) (test : Admission → Bool) (change : Admission → Admission) (rows : List Admission)
    (r : Admission)
    → ((x : Admission) → (change x).spec_id ≡ x.spec_id)
    → find (has_id id) rows ≡ some r
    → find (has_id id) (update_where test change rows) ≡ some (if test r then change r else r)
unfolding find update_where
find-update id test change [] r keep h = cc
find-update id test change (x ∷ rows) r keep h = elim (Bool-cases (test x)) [
  | inl e ↦ ground (arith, e, keep x, find-update id test change rows r keep)
  | inr e ↦ ground (arith, e, find-update id test change rows r keep)
]

find-select :
    (id : ℕ) (keep : Admission → Bool) (rows : List Admission) (r : Admission)
    → keep r ≡ true
    → find (has_id id) rows ≡ some r
    → find (has_id id) (select keep rows) ≡ some r
unfolding find select
find-select id keep [] r kept h = cc
find-select id keep (x ∷ rows) r kept h = elim (Bool-cases (x.spec_id == id)) [
  | inl e ↦
      let same : x ≡ r = ground (arith, e) in rw (ap keep same ∙ kept) (ground (arith, e, same))
  | inr e ↦ elim (Bool-cases (keep x)) [
    | inl k ↦ ground (arith, e, k, find-select id keep rows r kept)
    | inr k ↦ ground (arith, e, k, find-select id keep rows r kept)
  ]
]

module _ (a : Admission) (at : ℕ) where
  -- An update that keeps the columns of the admission keeps its row.
  update_where-IsStored :
      (test : Admission → Bool) (change : Admission → Admission) (rows : List Admission)
      → ((x : Admission) → (change x).spec_id ≡ x.spec_id)
      → ((x : Admission) → IsRowOf a at x → IsRowOf a at (change x))
      → IsStored a at rows
      → IsStored a at (update_where test change rows)
  update_where-IsStored test change rows keep row (r, found, is_row) = (
    if test r then change r else r,
    find-update a.spec_id test change rows r keep found,
    elim (Bool-cases (test r)) [ inl e ↦ rw e (row r is_row) | inr e ↦ rw e is_row ],
  )

  changed-IsRowOf :
      (r r' : Admission)
      → r'.spec_hash ≡ r.spec_hash
      → r'.nonce ≡ r.nonce
      → r'.variant ≡ r.variant
      → r'.committed_at ≡ r.committed_at
      → IsRowOf a at r
      → IsRowOf a at r'
  changed-IsRowOf r r' hash nonce variant committed is_row = record {
    spec_hash = hash ∙ is_row.spec_hash;
    nonce = nonce ∙ is_row.nonce;
    variant = variant ∙ is_row.variant;
    committed = committed ∙ is_row.committed;
  }

  -- An update of the state, the result or the delivery of some rows.
  updated-IsStored :
      (test : Admission → Bool) (change : Admission → Admission) (rows : List Admission)
      → ((x : Admission) → (change x).spec_id ≡ x.spec_id)
      → ((x : Admission) → (change x).spec_hash ≡ x.spec_hash)
      → ((x : Admission) → (change x).nonce ≡ x.nonce)
      → ((x : Admission) → (change x).variant ≡ x.variant)
      → ((x : Admission) → (change x).committed_at ≡ x.committed_at)
      → IsStored a at rows
      → IsStored a at (update_where test change rows)
  updated-IsStored test change rows id hash nonce variant committed =
      update_where-IsStored test change rows id
        (λ x. changed-IsRowOf x (change x) (hash x) (nonce x) (variant x) (committed x))

  -- A new row has another identifier than the one that is stored.
  admitted-IsStored :
      (db : Verifications) (b : Admission) (now : ℕ)
      → find_spec db b.spec_id ≡ none
      → IsStored a at db.admissions
      → IsStored a at (admitted db b now).admissions
  unfolding admitted find
  admitted-IsStored db b now new (r, found, is_row) = elim (Bool-cases (b.spec_id == a.spec_id)) [
    | inl e ↦
        let same : b.spec_id ≡ a.spec_id = (==_iff b.spec_id a.spec_id).0 e in
        absurd (cc (ap (find_spec db) same, new, found))
    | inr e ↦ (r, rw e found, is_row)
  ]

  admit_tx-IsStored :
      (db : Verifications) (b : Admission) (now : ℕ) (answer : Bool) (db' : Verifications)
      → IsStored a at db.admissions
      → admit_tx db b now ≡ ok (answer, db')
      → IsStored a at db'.admissions
  unfolding admit_tx admit_new
  admit_tx-IsStored db b now answer db' kept h = elim (Option-cases (find_spec db b.spec_id)) [
    | inl new ↦
        let same : admitted db b now ≡ db' = ground (arith, new) in
        subst (λ (d : Verifications). IsStored a at d.admissions) same
          (admitted-IsStored db b now new kept)
    | inr (r, old) ↦
        let same : db ≡ db' = ground (arith, old) in
        subst (λ (d : Verifications). IsStored a at d.admissions) same kept
  ]

  not_prunable :
      (r : Admission) (now : ℕ)
      → IsRowOf a at r
      → (is_probe a.variant ≡ false) ⊎ (now ≤ at + thirty_days)
      → not (is_prunable ((now - thirty_days) / second) r) ≡ true
  unfolding is_prunable
  not_prunable r now is_row (inl scan) =
      let variant : is_probe r.variant ≡ false = ap is_probe is_row.variant ∙ scan in
      ground (arith, variant)
  not_prunable r now is_row (inr early) =
      let committed = is_row.committed in
      let le : (now - thirty_days) / second ≤ r.committed_at = omega arith in ground arith

  step-IsStored :
      (db db' : Verifications) (step : VerificationStep db db')
      → IsRetaining a at step
      → IsStored a at db.admissions
      → IsStored a at db'.admissions
  unfolding admit verification_event claim_verification save_verification audit_verification
      reconcile_verification interrupt_verifications prune_verification
  step-IsStored db db' (admitting b now) u kept =
      tx_inv (λ (d : Verifications). IsStored a at d.admissions) db _ kept
        (λ answer d h. admit_tx-IsStored db b now answer d kept h)
  step-IsStored db db' (recording b result code now) u kept = kept
  step-IsStored db db' (claiming id) u kept =
      updated-IsStored _ (set_state VerificationState.running) db.admissions (λ x. refl) (λ x. refl)
        (λ x. refl) (λ x. refl) (λ x. refl) kept
  step-IsStored db db' (saving id s result) u kept =
      updated-IsStored _ (save_result s result) db.admissions (λ x. refl) (λ x. refl) (λ x. refl)
        (λ x. refl) (λ x. refl) kept
  step-IsStored db db' (linking id seq) u kept =
      updated-IsStored _ (set_audit_seq seq) db.admissions (λ x. refl) (λ x. refl) (λ x. refl)
        (λ x. refl) (λ x. refl) kept
  step-IsStored db db' (acknowledging seq) u kept =
      updated-IsStored _ (set_delivered seq) db.admissions (λ x. refl) (λ x. refl) (λ x. refl)
        (λ x. refl) (λ x. refl) kept
  step-IsStored db db' interrupting u kept =
      updated-IsStored _ (set_state VerificationState.interrupted) db.admissions (λ x. refl)
        (λ x. refl) (λ x. refl) (λ x. refl) (λ x. refl) kept
  step-IsStored db db' (pruning now) retained (r, found, is_row) = (
    r,
    find-select a.spec_id _ db.admissions r (not_prunable r now is_row retained) found,
    is_row,
  )

  pub RetainedReach-IsStored :
      (db db' : Verifications)
      → IsStored a at db.admissions
      → RetainedReach a at db db'
      → IsStored a at db'.admissions
  RetainedReach-IsStored db db' kept start = kept
  RetainedReach-IsStored db db' kept (further {t} past step retained) =
      step-IsStored t db' step retained (RetainedReach-IsStored db t kept past)

  -- The admission itself, once it is committed.
  pub committed-IsStored : (db : Verifications) → IsStored a at (admitted db a at).admissions
  unfolding admitted find
  committed-IsStored db = (
    admitted_row a (at / second),
    ground (arith, ==_iff a.spec_id a.spec_id),
    record { spec_hash = refl; nonce = refl; variant = refl; committed = refl },
  )

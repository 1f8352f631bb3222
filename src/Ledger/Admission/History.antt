-- ===== src/Ledger/Admission/History.antt =====
-- Histories of the verification tables (internal/ledger/verification.go).
use aim_data_gateway.Prelude.{
  ℕ, ◌-◌, ◌*◌, ◌/◌, ◌≤◌, ◌≡◌, refl, subst, Bool, not, Option, none, List, [], arith, inl, inr,
  Bool-cases, Option-cases,
}
use aim_data_gateway.Prelude.Query.{count, select}
use aim_data_gateway.Prelude.Result.{ok, tx_inv}
use aim_data_gateway.Ledger.Admission.{
  Admission, Verifications, VerificationState, second, accepted_count, find_spec, is_refused,
  admitted, admit_new, admit_tx, admit, verification_event, claimable, set_state,
  claim_verification, save_result, save_verification, set_audit_seq, audit_verification,
  set_delivered, reconcile_verification, interrupt_verifications, on_day, is_prunable, prune_daily,
  prune_verification,
}
use aim_data_gateway.Ledger.Admission.Quota.{
  IsMetered, count-select, count-absent, update_where-IsMetered, admitted-IsMetered, has_spec,
  has_nonce, has_authorization,
}

admit_new-IsMetered :
    (db : Verifications) (a : Admission) (at : ℕ) (b : Bool) (db' : Verifications)
    → IsMetered db
    → admit_new db a at ≡ ok (b, db')
    → IsMetered db'
unfolding admit_new
admit_new-IsMetered db a at b db' m h = elim (Bool-cases (is_refused db a at)) [
  | inl e ↦ absurd (ground (arith, e))
  | inr e ↦
      let same : admitted db a at ≡ db' = ground (arith, e) in
      subst IsMetered same (admitted-IsMetered db a at m e)
]

admit_tx-IsMetered :
    (db : Verifications) (a : Admission) (at : ℕ) (b : Bool) (db' : Verifications)
    → IsMetered db
    → admit_tx db a at ≡ ok (b, db')
    → IsMetered db'
unfolding admit_tx
admit_tx-IsMetered db a at b db' m h = elim (Option-cases (find_spec db a.spec_id)) [
  | inl new ↦ admit_new-IsMetered db a at b db' m (ground (arith, new))
  | inr (r, old) ↦ let same : db ≡ db' = ground (arith, old) in subst IsMetered same m
]

pub admit-IsMetered :
    (db : Verifications) (a : Admission) (at : ℕ) → IsMetered db → IsMetered (admit db a at).1
unfolding admit
admit-IsMetered db a at m =
    tx_inv IsMetered db _ m (λ b db' h. admit_tx-IsMetered db a at b db' m h)

prune_daily-counted :
    (cutoff : ℕ) (rows : List Admission) (t : ℕ → ℕ → Option ℕ) (l d : ℕ)
    → count (on_day l d) rows ≤ accepted_count (t l d)
    → count (on_day l d) rows ≤ accepted_count (prune_daily cutoff rows t l d)
prune_daily-counted cutoff rows t l d le = ground (arith, count-absent (on_day l d) rows)

prune_daily-ten :
    (cutoff : ℕ) (rows : List Admission) (t : ℕ → ℕ → Option ℕ) (l d : ℕ)
    → accepted_count (t l d) ≤ 10
    → accepted_count (prune_daily cutoff rows t l d) ≤ 10
prune_daily-ten cutoff rows t l d le = ground arith

-- Retention deletes a day's count only where no admission of the day is left.
prune_verification-IsMetered :
    (db : Verifications) (at : ℕ) → IsMetered db → IsMetered (prune_verification db at)
unfolding prune_verification
prune_verification-IsMetered db at m =
    let cutoff = (at - 30 * 24 * 3600 * second) / second in
    let keep : Admission → Bool = λ a. not (is_prunable cutoff a) in
    let rows = select keep db.admissions in
    record {
      spec_once = λ n.
          let le = count-select (has_spec n) keep db.admissions in
          let b = m.spec_once n in omega arith;
      nonce_once = λ n.
          let le = count-select (has_nonce n) keep db.admissions in
          let b = m.nonce_once n in omega arith;
      authorization_once = λ n.
          let le = count-select (has_authorization n) keep db.admissions in
          let b = m.authorization_once n in omega arith;
      counted = λ l d.
          let le = count-select (on_day l d) keep db.admissions in
          let b = m.counted l d in prune_daily-counted cutoff rows db.daily l d (omega arith);
      ten = λ l d. prune_daily-ten cutoff rows db.daily l d (m.ten l d);
    }

-- One call on the verification tables, with any arguments.
pub data VerificationStep (db : Verifications) : Verifications → Type 0 where
  admitting : (a : Admission) (at : ℕ) → VerificationStep db (admit db a at).1
  recording :
      (a : Admission) (result code at : ℕ)
      → VerificationStep db (verification_event db a result code at)
  claiming : (id : ℕ) → VerificationStep db (claim_verification db id).1
  saving :
      (id : ℕ) (s : VerificationState) (result : ℕ)
      → VerificationStep db (save_verification db id s result)
  linking : (id seq : ℕ) → VerificationStep db (audit_verification db id seq)
  acknowledging : (seq : ℕ) → VerificationStep db (reconcile_verification db seq)
  interrupting : VerificationStep db (interrupt_verifications db)
  pruning : (at : ℕ) → VerificationStep db (prune_verification db at)

pub data VerificationReach (s : Verifications) : Verifications → Type 0 where
  start : VerificationReach s s
  further :
      {t u : Verifications} → VerificationReach s t → VerificationStep t u → VerificationReach s u

VerificationStep-IsMetered :
    (db db' : Verifications) → IsMetered db → VerificationStep db db' → IsMetered db'
unfolding verification_event claim_verification save_verification audit_verification
    reconcile_verification interrupt_verifications
VerificationStep-IsMetered db db' m (admitting a at) = admit-IsMetered db a at m
VerificationStep-IsMetered db db' m (recording a result code at) = record {
  spec_once = m.spec_once;
  nonce_once = m.nonce_once;
  authorization_once = m.authorization_once;
  counted = m.counted;
  ten = m.ten;
}
VerificationStep-IsMetered db db' m (claiming id) =
    update_where-IsMetered (claimable id) (set_state VerificationState.running) (λ a. refl)
      (λ a. refl) (λ a. refl) (λ a. refl) (λ a. refl) db m
VerificationStep-IsMetered db db' m (saving id s result) =
    update_where-IsMetered _ (save_result s result) (λ a. refl) (λ a. refl) (λ a. refl) (λ a. refl)
      (λ a. refl) db m
VerificationStep-IsMetered db db' m (linking id seq) =
    update_where-IsMetered _ (set_audit_seq seq) (λ a. refl) (λ a. refl) (λ a. refl) (λ a. refl)
      (λ a. refl) db m
VerificationStep-IsMetered db db' m (acknowledging seq) =
    update_where-IsMetered _ (set_delivered seq) (λ a. refl) (λ a. refl) (λ a. refl) (λ a. refl)
      (λ a. refl) db m
VerificationStep-IsMetered db db' m interrupting =
    update_where-IsMetered _ (set_state VerificationState.interrupted) (λ a. refl) (λ a. refl)
      (λ a. refl) (λ a. refl) (λ a. refl) db m
VerificationStep-IsMetered db db' m (pruning at) = prune_verification-IsMetered db at m

-- The tables of the schema before anything is stored.
abbrev pub no_verifications : Verifications
no_verifications = record {
  admissions = [];
  daily = λ l d. none;
  clock = none;
  events = [];
  next_event = 1;
}

VerificationReach-IsMetered :
    (db : Verifications) → VerificationReach no_verifications db → IsMetered db
VerificationReach-IsMetered db start =
    unfold count in
    record {
      spec_once = λ n. omega arith;
      nonce_once = λ n. omega arith;
      authorization_once = λ n. omega arith;
      counted = λ l d. omega arith;
      ten = λ l d. omega arith;
    }
VerificationReach-IsMetered db (further {t} past step) =
    VerificationStep-IsMetered t db (VerificationReach-IsMetered t past) step

-- In every state that the verification tables reach from the empty schema, by any calls in any order,
-- retention included: at most ten stored admissions are of one listing and one UTC day, and no two of
-- one nonce or of one owner authorization.
pub daily_quota :
    (db : Verifications) (l d n : ℕ)
    → VerificationReach no_verifications db
    → (count (on_day l d) db.admissions ≤ 10)
      × (count (has_nonce n) db.admissions ≤ 1)
      × (count (has_authorization n) db.admissions ≤ 1)
daily_quota db l d n past =
    let m = VerificationReach-IsMetered db past in
    let c = m.counted l d in
    let t = m.ten l d in (omega arith, m.nonce_once n, m.authorization_once n)

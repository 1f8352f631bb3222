-- ===== src/Ledger/Admission.antt =====
-- The verification tables of the ledger (internal/ledger/verification.go): `Admit`, the state of an
-- admission, the audit and delivery of its result, and the retention of `PruneVerification`.
-- Identifiers, hashes and byte strings are only compared and are numbers. `at` is in nanoseconds
-- since 1970, the stored times are in seconds, and a UTC day is the number of its days.
pub mod Quota
pub mod Retention
pub mod Replay
pub mod History
pub mod Listing
use aim_data_gateway.Prelude.{
  ℕ, suc, ◌+◌, ◌-◌, ◌*◌, ◌/◌, max, Bool, true, false, not, ◌&&◌, ◌||◌, Option, none, some, List, [],
  ◌∷◌, ◌++◌, ltb, leb, ◌==◌, if◌then◌else◌,
}
use aim_data_gateway.Prelude.Query.{find, count, exists, select, update_where}
use aim_data_gateway.Prelude.Result.{Result, ok, err, consent, tx}

-- CHECK(variant IN ('probe','scan')): any other string is refused.
pub data Variant : Type 0 where
  probe scan unknown : Variant

pub data VerificationState : Type 0 where
  accepted running reported refused interrupted : VerificationState

-- `Admission`, with the columns utc_day and delivered of its row.
pub record Admission : Type 0 where
  pub spec_id : ℕ
  pub runner_id : ℕ
  pub listing_id : ℕ
  pub version_id : ℕ
  pub manifest_hash : ℕ
  pub spec_hash : ℕ
  pub nonce : ℕ
  pub authorization_id : ℕ
  pub variant : Variant
  pub state : VerificationState
  pub iid : ℕ
  pub receipt_key_id : ℕ
  pub scanner_version : ℕ
  pub accepted_at : ℕ
  pub issued_at : ℕ
  pub expires_at : ℕ
  pub committed_at : ℕ
  pub utc_day : ℕ
  pub spec : ℕ
  pub snapshot : ℕ
  pub result : Option ℕ
  pub audit_seq : Option ℕ
  pub delivered : Bool

-- A row of verification_local_events.
pub record LocalEvent : Type 0 where
  pub id : ℕ
  pub received_at : ℕ
  pub spec_hash : ℕ
  pub spec_id : ℕ
  pub result : ℕ
  pub refusal_code : ℕ

-- `daily` is the count of a listing and day, if the table has it; `clock` the latest time that an
-- admission was committed at; `next_event` the next AUTOINCREMENT id.
pub record Verifications : Type 0 where
  pub admissions : List Admission
  pub daily : ℕ → ℕ → Option ℕ
  pub clock : Option ℕ
  pub events : List LocalEvent
  pub next_event : ℕ

abbrev pub second : ℕ
second = 1000000000

abbrev pub day_of : ℕ → ℕ
day_of unix = unix / 86400

abbrev pub find_spec : Verifications → ℕ → Option Admission
find_spec db id = find (λ (a : Admission). a.spec_id == id) db.admissions

-- last_utc, which is 0 if no admission was committed.
abbrev pub last_utc : Option ℕ → ℕ
last_utc none = 0
last_utc (some t) = t

-- The tests of the times of an admission against the clock.
unfoldable pub is_untimely : Admission → ℕ → ℕ → Bool
is_untimely a at last =
    ltb a.issued_at a.accepted_at
    || leb a.expires_at a.issued_at
    || ltb 86400 (a.expires_at - a.issued_at)
    || ltb (at + 300 * second) (a.issued_at * second)
    || ltb (a.issued_at * second + 86700 * second) at
    || ltb (a.accepted_at * second + 86700 * second) at
    || ltb (a.expires_at * second + 300 * second) at
    || ltb (at / second + 300) last

-- INSERT OR IGNORE INTO verification_daily VALUES(?,?,0), seen from the row's UPDATE.
abbrev pub accepted_count : Option ℕ → ℕ
accepted_count none = 0
accepted_count (some n) = n

abbrev pub put_daily : (ℕ → ℕ → Option ℕ) → ℕ → ℕ → ℕ → ℕ → ℕ → Option ℕ
put_daily t listing day n l d = if l == listing && d == day then some n else t l d

abbrev pub is_unknown : Variant → Bool
is_unknown Variant.unknown = true
is_unknown _ = false

-- The PRIMARY KEY, UNIQUE and CHECK constraints of an INSERT INTO verification_admissions.
unfoldable pub violates : List Admission → Admission → Bool
violates rows a =
    is_unknown a.variant
    || exists (λ (r : Admission). r.spec_id == a.spec_id) rows
    || exists (λ (r : Admission). r.nonce == a.nonce) rows
    || exists (λ (r : Admission). r.authorization_id == a.authorization_id) rows

-- The row that `Admit` inserts.
abbrev pub admitted_row : Admission → ℕ → Admission
admitted_row a unix = record a {
  state = VerificationState.accepted;
  committed_at = unix;
  utc_day = day_of unix;
  result = none;
  audit_seq = none;
  delivered = false;
}

abbrev pub add_event : Verifications → ℕ → ℕ → ℕ → ℕ → ℕ → Verifications
add_event db unix spec_hash spec_id result code = record db {
  events =
      db.events
      ++ record {
        id = db.next_event;
        received_at = unix;
        spec_hash = spec_hash;
        spec_id = spec_id;
        result = result;
        refusal_code = code;
      }
        ∷ [];
  next_event = suc db.next_event;
}

-- The event results and codes that `Admit` writes: 'accepted' and ''.
abbrev pub result_accepted : ℕ
result_accepted = 1

abbrev pub no_code : ℕ
no_code = 0

-- The tests of `Admit` for a specification that is not stored.
unfoldable pub is_refused : Verifications → Admission → ℕ → Bool
is_refused db a at =
    is_untimely a at (last_utc db.clock)
    || leb 10 (accepted_count (db.daily a.listing_id (day_of (at / second))))
    || violates db.admissions a

-- The rows that `Admit` writes.
unfoldable pub admitted : Verifications → Admission → ℕ → Verifications
admitted db a at =
    let unix = at / second in
    let day = day_of unix in
    add_event
      (record db {
        admissions = admitted_row a unix ∷ db.admissions;
        daily =
            put_daily db.daily a.listing_id day (suc (accepted_count (db.daily a.listing_id day)));
        clock = some (max (last_utc db.clock) unix);
      })
      unix a.spec_hash a.spec_id result_accepted no_code

unfoldable pub admit_new : Verifications → Admission → ℕ → Result (Bool × Verifications)
admit_new db a at = if is_refused db a at then err consent else ok (true, admitted db a at)

unfoldable pub admit_tx : Verifications → Admission → ℕ → Result (Bool × Verifications)
admit_tx db a at = elim (find_spec db a.spec_id) [
  | none ↦ admit_new db a at
  | some r ↦ if r.spec_hash == a.spec_hash then ok (false, db) else err consent
]

-- `Admit`: `at` is the clock that is read inside the transaction.
unfoldable pub admit : Verifications → Admission → ℕ → Result Bool × Verifications
admit db a at = tx db (admit_tx db a at)

-- `VerificationEvent`
unfoldable pub verification_event : Verifications → Admission → ℕ → ℕ → ℕ → Verifications
verification_event db a result code at =
    add_event db (at / second) a.spec_hash a.spec_id result code

-- `VerificationEvents`
unfoldable pub verification_events : Verifications → ℕ → List LocalEvent
verification_events db after = select (λ (e : LocalEvent). ltb after e.id) db.events

abbrev pub is_accepted : VerificationState → Bool
is_accepted VerificationState.accepted = true
is_accepted _ = false

abbrev pub is_pending : VerificationState → Bool
is_pending VerificationState.accepted = true
is_pending VerificationState.running = true
is_pending _ = false

abbrev pub claimable : ℕ → Admission → Bool
claimable id a = a.spec_id == id && is_accepted a.state

abbrev pub set_state : VerificationState → Admission → Admission
set_state s a = record a { state = s }

-- `ClaimVerification`: true if exactly one row was updated.
unfoldable pub claim_verification : Verifications → ℕ → Bool × Verifications
claim_verification db id = (
  count (claimable id) db.admissions == 1,
  record db {
    admissions = update_where (claimable id) (set_state VerificationState.running) db.admissions;
  },
)

abbrev pub is_null : Option ℕ → Bool
is_null none = true
is_null (some _) = false

abbrev pub save_result : VerificationState → ℕ → Admission → Admission
save_result s result a = record a { state = s; result = some result }

-- `SaveVerification`
unfoldable pub save_verification : Verifications → ℕ → VerificationState → ℕ → Verifications
save_verification db id s result = record db {
  admissions =
      update_where (λ (a : Admission). a.spec_id == id && is_null a.result) (save_result s result)
        db.admissions;
}

abbrev pub seq_fits : Option ℕ → ℕ → Bool
seq_fits none seq = true
seq_fits (some s) seq = s == seq

abbrev pub set_audit_seq : ℕ → Admission → Admission
set_audit_seq seq a = record a { audit_seq = some seq }

-- `AuditVerification`
unfoldable pub audit_verification : Verifications → ℕ → ℕ → Verifications
audit_verification db id seq = record db {
  admissions =
      update_where (λ (a : Admission). a.spec_id == id && seq_fits a.audit_seq seq)
        (set_audit_seq seq) db.admissions;
}

abbrev pub seq_reached : Option ℕ → ℕ → Bool
seq_reached none seq = false
seq_reached (some s) seq = leb s seq

abbrev pub set_delivered : ℕ → Admission → Admission
set_delivered seq a = record a { delivered = seq_reached a.audit_seq seq }

-- `ReconcileVerification`
unfoldable pub reconcile_verification : Verifications → ℕ → Verifications
reconcile_verification db seq = record db {
  admissions =
      update_where (λ (a : Admission). not (is_null a.audit_seq)) (set_delivered seq) db.admissions;
}

-- `InterruptVerifications`
unfoldable pub interrupt_verifications : Verifications → Verifications
interrupt_verifications db = record db {
  admissions =
      update_where (λ (a : Admission). is_pending a.state) (set_state VerificationState.interrupted)
        db.admissions;
}

abbrev pub is_scan : Variant → Bool
is_scan Variant.scan = true
is_scan _ = false

abbrev pub is_probe : Variant → Bool
is_probe Variant.probe = true
is_probe _ = false

-- The admissions for whose sake an event is retained.
unfoldable pub retains : LocalEvent → Admission → Bool
retains e a = a.spec_id == e.spec_id && (is_scan a.variant || not a.delivered || is_pending a.state)

unfoldable pub is_prunable : ℕ → Admission → Bool
is_prunable cutoff a =
    ltb a.committed_at cutoff && is_probe a.variant && not (is_pending a.state) && a.delivered

abbrev pub on_day : ℕ → ℕ → Admission → Bool
on_day l d a = a.listing_id == l && a.utc_day == d

-- DELETE FROM verification_daily, with the admissions that are left.
abbrev pub prune_daily : ℕ → List Admission → (ℕ → ℕ → Option ℕ) → ℕ → ℕ → Option ℕ
prune_daily cutoff rows t l d =
    if ltb d (day_of cutoff) && not (exists (on_day l d) rows) then none else t l d

-- `PruneVerification`: thirty days.
unfoldable pub prune_verification : Verifications → ℕ → Verifications
prune_verification db at =
    let cutoff = (at - 30 * 24 * 3600 * second) / second in
    let rows = select (λ (a : Admission). not (is_prunable cutoff a)) db.admissions in
    record db {
      events =
          select
            (λ (e : LocalEvent).
              not (ltb e.received_at cutoff && not (exists (retains e) db.admissions)))
            db.events;
      admissions = rows;
      daily = prune_daily cutoff rows db.daily;
    }

-- ===== src/Tests/Verifications.antt =====
-- An admission, and partitions of a census.
use aim_data_gateway.Prelude.{List, ℕ, ◌+◌, ◌≤◌, ◌≡◌, ◌⊎◌, inl, refl, true, false, none, [], ◌∷◌}
use aim_data_gateway.Prelude.Query.{count, exists, find}
use aim_data_gateway.Prelude.Result.{ok, tx}
use aim_data_gateway.Prelude.{◌*◌}
use aim_data_gateway.Census.Partition.{Cells, partition}
use aim_data_gateway.Census.Privacy.{
  IsPrivate, read_states, partition-IsPrivate, partition-read_states-IsPrivate,
}
use aim_data_gateway.Census.Total.{total, is_map, partition-total}
use aim_data_gateway.Ledger.Admission.{
  Admission, Variant, VerificationState, Verifications, admit, admit_tx, admit_new, is_refused,
  is_untimely, violates, prune_verification, on_day, claim_verification,
}
use aim_data_gateway.Ledger.Admission.Quota.{has_nonce, has_authorization}
use aim_data_gateway.Ledger.Admission.History.{
  VerificationReach, no_verifications, admitting, pruning, daily_quota,
}
use aim_data_gateway.Ledger.Admission.Retention.{RetainedReach, start, further}
use aim_data_gateway.Ledger.Admission.Replay.{admit-admit, claim_verification-claim_verification}
use aim_data_gateway.Census.Raw.{Member, new_census_raw}
use aim_data_gateway.Census.Raw.Sizes.{sizes-partition}

abbrev some_counts : Cells
some_counts =
    record { class = 1; members = 25 }
    ∷ record { class = 2; members = 4 }
    ∷ record { class = 3; members = 12 }
    ∷ record { class = 4; members = 30 }
    ∷ []

partition-IsPrivate_example : IsPrivate (partition some_counts 71 false)
partition-IsPrivate_example = partition-IsPrivate some_counts 71

partition-read_states-IsPrivate_example : IsPrivate (partition (read_states 40 3 20) 63 true)
partition-read_states-IsPrivate_example = partition-read_states-IsPrivate 40 3 20 63

partition-total_example :
    ((partition some_counts 71 false).cells ≡ [])
    ⊎ (total (partition some_counts 71 false).cells ≡ total some_counts)
unfolding is_map exists
partition-total_example = partition-total some_counts 71 refl

abbrev some_members : List Member
some_members =
    record { size = 500; extension = 1; is_archive = false }
    ∷ record { size = 0; extension = 2; is_archive = false }
    ∷ record { size = 600; extension = 2; is_archive = true }
    ∷ []

sizes-partition_example :
    ((partition (new_census_raw some_members).sizes 30 false).cells ≡ [])
    ⊎ (total (partition (new_census_raw some_members).sizes 30 false).cells ≡ 3)
sizes-partition_example = sizes-partition some_members 30

abbrev an_admission : Admission
an_admission = record {
  spec_id = 1;
  runner_id = 2;
  listing_id = 3;
  version_id = 4;
  manifest_hash = 5;
  spec_hash = 6;
  nonce = 7;
  authorization_id = 8;
  variant = Variant.scan;
  state = VerificationState.accepted;
  iid = 9;
  receipt_key_id = 10;
  scanner_version = 11;
  accepted_at = 100000;
  issued_at = 100000;
  expires_at = 100600;
  committed_at = 0;
  utc_day = 0;
  spec = 12;
  snapshot = 13;
  result = none;
  audit_seq = none;
  delivered = false;
}

abbrev admission_time : ℕ
admission_time = 100010 * 1000000000

abbrev admitted_db : Verifications
admitted_db = (admit no_verifications an_admission admission_time).1

admit_run : admit no_verifications an_admission admission_time ≡ (ok true, admitted_db)
unfolding admit admit_tx admit_new is_refused is_untimely violates exists find tx
admit_run = refl

daily_quota_example :
    (count (on_day 3 1) admitted_db.admissions ≤ 10)
    × (count (has_nonce 7) admitted_db.admissions ≤ 1)
    × (count (has_authorization 7) admitted_db.admissions ≤ 1)
daily_quota_example =
    daily_quota admitted_db 3 1 7
      (VerificationReach.further VerificationReach.start (admitting an_admission admission_time))

-- A retention a year later keeps the admission of a scan.
abbrev pruned_db : Verifications
pruned_db = prune_verification admitted_db (admission_time + 365 * 86400 * 1000000000)

pruned_db-RetainedReach : RetainedReach an_admission admission_time admitted_db pruned_db
pruned_db-RetainedReach =
    further start (pruning (admission_time + 365 * 86400 * 1000000000)) (inl refl)

admit-admit_example :
    (admit pruned_db an_admission (admission_time + 5) ≡ (ok false, pruned_db))
    × (¬ (
        (admit pruned_db (record an_admission { spec_id = 20 }) (admission_time + 5)).0 ≡ ok true))
admit-admit_example =
    admit-admit no_verifications an_admission (record an_admission { spec_id = 20 }) admission_time
      (admission_time + 5) admitted_db pruned_db refl admit_run pruned_db-RetainedReach

claim_verification-claim_verification_example :
    (claim_verification (claim_verification admitted_db 1).1 1).0 ≡ false
claim_verification-claim_verification_example = claim_verification-claim_verification admitted_db 1

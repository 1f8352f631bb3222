-- ===== src/Ledger/Admission/Quota.antt =====
-- The quota of a day and the keys of an admission over `Admit` (internal/ledger/verification.go).
use aim_data_gateway.Prelude.{
  ℕ, ◌/◌, ◌≤◌, ◌<◌, ◌≡◌, refl, subst, Bool, true, false, ◌&&◌, List, [], ◌∷◌, arith, ◌==◌, ==_iff,
  inl, inr, Bool-cases,
}
use aim_data_gateway.Prelude.Query.{count, exists, select, update_where}
use aim_data_gateway.Ledger.Admission.{
  Admission, Verifications, second, is_refused, admitted, day_of, accepted_count, violates, on_day,
}

pub count-select :
    (p test : Admission → Bool) (rows : List Admission) → count p (select test rows) ≤ count p rows
unfolding count select
count-select p test [] = omega arith
count-select p test (a ∷ rows) = ground (arith, count-select p test rows)

count-update_where :
    (p test : Admission → Bool) (change : Admission → Admission)
    → ((a : Admission) → p (change a) ≡ p a)
    → (rows : List Admission) → count p (update_where test change rows) ≡ count p rows
unfolding count update_where
count-update_where p test change keep [] = refl
count-update_where p test change keep (a ∷ rows) =
    ground (arith, keep a, count-update_where p test change keep rows)

pub count-absent :
    (p : Admission → Bool) (rows : List Admission) → exists p rows ≡ false → count p rows ≡ 0
unfolding count exists
count-absent p [] h = refl
count-absent p (a ∷ rows) h = ground (arith, count-absent p rows)

abbrev pub has_spec : ℕ → Admission → Bool
has_spec n a = a.spec_id == n

abbrev pub has_nonce : ℕ → Admission → Bool
has_nonce n a = a.nonce == n

abbrev pub has_authorization : ℕ → Admission → Bool
has_authorization n a = a.authorization_id == n

-- What the schema and `Admit` keep true of the rows.
pub record IsMetered (db : Verifications) : Type 0 where
  pub spec_once : (n : ℕ) → count (has_spec n) db.admissions ≤ 1
  pub nonce_once : (n : ℕ) → count (has_nonce n) db.admissions ≤ 1
  pub authorization_once : (n : ℕ) → count (has_authorization n) db.admissions ≤ 1
  pub counted : (l d : ℕ) → count (on_day l d) db.admissions ≤ accepted_count (db.daily l d)
  pub ten : (l d : ℕ) → accepted_count (db.daily l d) ≤ 10

-- A change of rows that keeps the keys keeps the meters.
module _ (test : Admission → Bool) (change : Admission → Admission)
    (spec : (a : Admission) → (change a).spec_id ≡ a.spec_id)
    (nonce : (a : Admission) → (change a).nonce ≡ a.nonce)
    (authorization : (a : Admission) → (change a).authorization_id ≡ a.authorization_id)
    (listing : (a : Admission) → (change a).listing_id ≡ a.listing_id)
    (day : (a : Admission) → (change a).utc_day ≡ a.utc_day) where
  pub update_where-IsMetered :
      (db : Verifications)
      → IsMetered db
      → IsMetered (record db { admissions = update_where test change db.admissions })
  update_where-IsMetered db m = record {
    spec_once = λ n.
        rw (count-update_where (has_spec n) test change (λ a. rw (spec a) refl) db.admissions)
          (m.spec_once n);
    nonce_once = λ n.
        rw (count-update_where (has_nonce n) test change (λ a. rw (nonce a) refl) db.admissions)
          (m.nonce_once n);
    authorization_once = λ n.
        rw
          (count-update_where (has_authorization n) test change (λ a. rw (authorization a) refl)
            db.admissions)
          (m.authorization_once n);
    counted = λ l d.
        rw
          (count-update_where (on_day l d) test change (λ a. rw (listing a, day a) refl)
            db.admissions)
          (m.counted l d);
    ten = m.ten;
  }

count-fresh :
    (p : Admission → Bool) (a : Admission) (rows : List Admission)
    → (p a ≡ true → exists p rows ≡ false)
    → count p rows ≤ 1
    → count p (a ∷ rows) ≤ 1
unfolding count
count-fresh p a rows fresh le = elim (Bool-cases (p a)) [
  | inl e ↦ let gone = count-absent p rows (fresh e) in rw e (omega arith)
  | inr e ↦ rw e le
]

exists-has :
    (g : Admission → ℕ) (n k : ℕ) (rows : List Admission)
    → k ≡ n
    → exists (λ (r : Admission). g r == k) rows ≡ false
    → exists (λ (r : Admission). g r == n) rows ≡ false
exists-has g n k rows e h = subst (λ j. exists (λ (r : Admission). g r == j) rows ≡ false) e h

module _ (db : Verifications) (a : Admission) (at : ℕ) (m : IsMetered db)
    (passed : is_refused db a at ≡ false) where
  admitted-spec : exists (λ (r : Admission). r.spec_id == a.spec_id) db.admissions ≡ false
  unfolding is_refused violates
  admitted-spec = ground (arith, passed)

  admitted-nonce : exists (λ (r : Admission). r.nonce == a.nonce) db.admissions ≡ false
  unfolding is_refused violates
  admitted-nonce = ground (arith, passed)

  admitted-authorization :
      exists (λ (r : Admission). r.authorization_id == a.authorization_id) db.admissions ≡ false
  unfolding is_refused violates
  admitted-authorization = ground (arith, passed)

  admitted-below : accepted_count (db.daily a.listing_id (day_of (at / second))) < 10
  unfolding is_refused violates
  admitted-below = ground (arith, passed)

  admitted-counted :
      (l d : ℕ)
      → count (on_day l d) (admitted db a at).admissions
        ≤ accepted_count ((admitted db a at).daily l d)
  unfolding admitted count
  admitted-counted l d = elim (Bool-cases (a.listing_id == l && day_of (at / second) == d)) [
    | inl e ↦
        let el : a.listing_id ≡ l = ground arith in
        let ed : day_of (at / second) ≡ d = ground arith in
        let before = m.counted a.listing_id (day_of (at / second)) in
        subst
          (λ k.
            count (on_day k d) (admitted db a at).admissions
            ≤ accepted_count ((admitted db a at).daily k d))
          el
          (subst
            (λ k.
              count (on_day a.listing_id k) (admitted db a at).admissions
              ≤ accepted_count ((admitted db a at).daily a.listing_id k))
            ed (ground arith))
    | inr e ↦ ground (arith, m.counted l d)
  ]

  admitted-ten : (l d : ℕ) → accepted_count ((admitted db a at).daily l d) ≤ 10
  unfolding admitted
  admitted-ten l d = ground (arith, m.ten l d, admitted-below)

  pub admitted-IsMetered : IsMetered (admitted db a at)
  unfolding admitted
  admitted-IsMetered = record {
    spec_once = λ n.
        count-fresh (has_spec n) _ db.admissions
          (λ e.
            exists-has (λ r. r.spec_id) n a.spec_id db.admissions ((==_iff a.spec_id n).0 e)
              admitted-spec)
          (m.spec_once n);
    nonce_once = λ n.
        count-fresh (has_nonce n) _ db.admissions
          (λ e.
            exists-has (λ r. r.nonce) n a.nonce db.admissions ((==_iff a.nonce n).0 e)
              admitted-nonce)
          (m.nonce_once n);
    authorization_once = λ n.
        count-fresh (has_authorization n) _ db.admissions
          (λ e.
            exists-has (λ r. r.authorization_id) n a.authorization_id db.admissions
              ((==_iff a.authorization_id n).0 e) admitted-authorization)
          (m.authorization_once n);
    counted = admitted-counted;
    ten = admitted-ten;
  }

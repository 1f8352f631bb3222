-- ===== src/Ledger/Prepare/Readiness.antt =====
-- What a ready answer of `Prepare` means (internal/ledger/ledger.go).
use aim_data_gateway.Prelude.{
  ℕ, ◌-◌, ◌<◌, ◌≡◌, ◌≢◌, refl, subst, Bool, true, false, ◌&&◌, ◌||◌, Option, none, some, List, [],
  ◌∷◌, arith, ltb, leb, ◌==◌, ==_iff, inl, inr, Bool-cases,
}
use aim_data_gateway.Segment.{Segment, count_at, covered, first_untransmitted, count_bytes}
use aim_data_gateway.Segment.Runs.{IsRuns, EndsBelow}
use aim_data_gateway.Segment.Normalize.{AllOnes}
use aim_data_gateway.Segment.Coverage.{covered_iff, first_untransmitted_lem}
use aim_data_gateway.Segment.Bytes.{count_bytes-covered}
use aim_data_gateway.Ledger.State.{FileRow, Db, find_file, is_completed, segments}
use aim_data_gateway.Ledger.Accounts.{IsBalanced}
use aim_data_gateway.Ledger.Prepare.{
  Config, Refusal, refuse_when, is_ready, is_exhausted, size_of, file_refusal, prepare_refusal,
  prepare,
}

-- A file that is not covered has an untransmitted byte.
resume-below :
    (tr : List Segment) (size : ℕ)
    → 0 < size
    → IsRuns tr
    → AllOnes tr
    → EndsBelow size tr
    → (count_bytes tr == size) ≡ false
    → first_untransmitted tr size < size
resume-below tr size pos_size r o e open_file =
    let (le, filled, gap) = first_untransmitted_lem tr size r o in
    elim (Bool-cases (ltb (first_untransmitted tr size) size)) [
      | inl lt ↦ ground arith
      | inr full ↦
          let all : first_untransmitted tr size ≡ size = ground arith in
          let whole =
            (covered_iff tr 0 (size - 1) r o (omega arith)).1 (λ x l u. filled x (omega arith)) in
          let bytes = (count_bytes-covered tr size pos_size r o e).1 whole in
          absurd (ground (arith, ==_iff (count_bytes tr) size))
    ]

-- A byte at two serves of which nothing is exhausted is transmitted.
exhausted-count_at :
    (ss tr : List Segment) (x : ℕ)
    → AllOnes tr
    → IsRuns ss
    → IsRuns tr
    → is_exhausted ss tr ≡ false
    → count_at ss x ≡ 2
    → count_at tr x ≡ 1
unfolding is_exhausted count_at
exhausted-count_at [] tr x o rs rt h two = absurd (omega arith)
exhausted-count_at (y ∷ ss) tr x o rs rt h two = elim (Bool-cases (leb y.a x && leb x y.b)) [
  | inl e ↦
      let c : covered tr y.a y.b ≡ true = ground arith in
      (covered_iff tr y.a y.b rt o rs.0).0 c x (ground arith) (ground arith)
  | inr e ↦ exhausted-count_at ss tr x o rs.3 rt (ground arith) (ground arith)
]

refuse_when-is_ready :
    (b b' : Bool) (r r' : Refusal) (o : Option Refusal)
    → is_ready (refuse_when b r (refuse_when b' r' o)) ≡ true
    → (o ≡ none) × (b' ≡ false) × (b ≡ false)
refuse_when-is_ready true true r r' none h = cc
refuse_when-is_ready true false r r' none h = cc
refuse_when-is_ready false true r r' none h = cc
refuse_when-is_ready false false r r' none h = (refl, refl, refl)
refuse_when-is_ready b b' r r' (some o) h = absurd (ground arith)

right_false : (a b : Bool) → (a || b) ≡ false → b ≡ false
right_false a b h = ground arith

-- What holds when the refusals of the coverage do not apply.
module _ (c : Config) (within : Bool) (db : Db) (oid fid sha : ℕ) (f : FileRow) where
  abbrev Passes : Type 0
  Passes =
      (file_refusal c within db fid sha (some f) ≡ none)
      × (is_exhausted (db.serves oid fid) (db.transmitted oid fid) ≡ false)
      × ((ltb 0 f.size && count_bytes (db.transmitted oid fid) == f.size) ≡ false)

  ready-Passes :
      find_file db fid ≡ some f → is_ready (prepare_refusal c within db oid fid sha) ≡ true → Passes
  unfolding prepare_refusal segments
  ready-Passes found h =
      let ss = db.serves oid fid in
      let tr = db.transmitted oid fid in
      let (file, exhausted, complete) =
        refuse_when-is_ready (is_completed db oid fid || (ltb 0 f.size && count_bytes tr == f.size))
          (is_exhausted ss tr) Refusal.complete Refusal.coverage_exhausted
          (file_refusal c within db fid sha (some f))
          (subst
            (λ g.
              is_ready (
                refuse_when
                  (is_completed db oid fid || (ltb 0 (size_of g) && count_bytes tr == size_of g))
                  Refusal.complete
                  (refuse_when (is_exhausted ss tr) Refusal.coverage_exhausted
                    (file_refusal c within db fid sha g)))
              ≡ true)
            found h) in
      (file, exhausted, right_false (is_completed db oid fid) _ complete)

-- On balanced books, and if what is transmitted lies below the size of a file that is not empty, then a
-- ready `Prepare` promises a first byte: the resume offset is below the size, the byte there is not
-- transmitted and not at two serves; and the file itself has no refusal.
pub prepare-IsReady :
    (c : Config) (within : Bool) (db : Db) (oid fid sha : ℕ) (f : FileRow)
    → IsBalanced db
    → EndsBelow f.size (db.transmitted oid fid)
    → find_file db fid ≡ some f
    → 0 < f.size
    → (prepare c within db oid fid sha).ready ≡ true
    → ((prepare c within db oid fid sha).resume_offset < f.size)
      × (count_at (db.transmitted oid fid) (prepare c within db oid fid sha).resume_offset ≡ 0)
      × (count_at (db.serves oid fid) (prepare c within db oid fid sha).resume_offset ≢ 2)
      × (file_refusal c within db fid sha (some f) ≡ none)
unfolding prepare segments
prepare-IsReady c within db oid fid sha f books ends found some_bytes h =
    let ss = db.serves oid fid in
    let tr = db.transmitted oid fid in
    let runs = books.transmitted_runs oid fid in
    let ones = books.transmitted_ones oid fid in
    let (file, exhausted, partly) = ready-Passes c within db oid fid sha f found h in
    let below = resume-below tr f.size some_bytes runs ones ends (ground arith) in
    let gap = (first_untransmitted_lem tr f.size runs ones).2 below in
    rw found (
      below,
      gap,
      (λ two.
          let one =
            exhausted-count_at ss tr _ ones (books.serves_runs oid fid) runs exhausted two in
          omega arith),
      file,
    )

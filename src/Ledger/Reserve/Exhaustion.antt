-- ===== src/Ledger/Reserve/Exhaustion.antt =====
-- The errors of `Reserve` (internal/ledger/ledger.go), and when it reports that a byte is exhausted.
use aim_data_gateway.Prelude.{
  ℕ, ◌-◌, ◌≤◌, ◌<◌, ◌≡◌, ◌⊎◌, ◌↔◌, refl, false, some, List, [], ◌∷◌, arith, inl, inr, Option-cases,
}
use aim_data_gateway.Prelude.Int.{ℤ, pos, negsuc, pos_part, ◌≤ℤ◌}
use aim_data_gateway.Prelude.Result.{
  Error, Result, ok, err, closed, deadline, exhausted, fragmented, >>=-eq-err, tx-err, err-tx,
}
use aim_data_gateway.Segment.{Segment, count_at, covered}
use aim_data_gateway.Segment.Runs.{IsRuns}
use aim_data_gateway.Ledger.State.{Permission, FileRow, Db, find_file, segments}
use aim_data_gateway.Ledger.Accounts.{IsBalanced}
use aim_data_gateway.Ledger.Reserve.{
  clip, reserve_guard, reserve_range, reserve_offer, reserve_tx, reserve,
}
use aim_data_gateway.Ledger.Reserve.Clip.{clip-exhausted}
use aim_data_gateway.Ledger.Reserve.Effect.{reserve_apply-lem}

pub clip-err :
    (ss : List Segment) (start end : ℕ) (e : Error) → clip ss start end ≡ err e → e ≡ exhausted
unfolding clip
clip-err [] start end e h = cc
clip-err (x ∷ ss) start end e h = ground (arith, clip-err ss start end e)

pub reserve_guard-err :
    (db : Db) (p : Permission) (now : ℕ) (e : Error)
    → reserve_guard db p now ≡ err e
    → (e ≡ closed) ⊎ (e ≡ deadline)
unfolding reserve_guard
reserve_guard-err db p now e h = ground arith

pub reserve_offer-err :
    (db : Db) (p : Permission) (e : Error) → reserve_offer db p ≡ err e → e ≡ closed
unfolding reserve_offer
reserve_offer-err db p e h = ground arith

-- The file and the range that `Reserve` goes on with to the serves.
pub record IsAsked (db : Db) (p : Permission) (start end : ℤ) : Type 0 where
  pub file : FileRow
  pub stored : find_file db p.file_id ≡ some file
  pub some_bytes : 0 < file.size
  pub uncovered : covered (db.transmitted p.order_id p.file_id) 0 (file.size - 1) ≡ false
  pub from_start : pos 0 ≤ℤ start
  pub ordered : start ≤ℤ end

module _ (db : Db) (p : Permission) (start end : ℤ) where
  abbrev clipped : Result ℕ
  clipped = clip (db.serves p.order_id p.file_id) (pos_part start) (pos_part end)

  reserve_range-exhausted :
      reserve_range db p start end ≡ err exhausted
      → IsAsked db p start end × (clipped ≡ err exhausted)
  unfolding reserve_range segments
  reserve_range-exhausted h = elim (Option-cases (find_file db p.file_id)) [
    | inl absent ↦ absurd (ground (arith, absent))
    | inr (f, stored) ↦ (
      record {
        file = f;
        stored = stored;
        some_bytes = ground (arith, stored);
        uncovered = ground (arith, stored);
        from_start = ground (arith, stored);
        ordered = ground (arith, stored);
      },
      ground (arith, stored),
    )
  ]

  exhausted-reserve_range :
      IsAsked db p start end
      → clipped ≡ err exhausted
      → reserve_range db p start end ≡ err exhausted
  unfolding reserve_range segments
  exhausted-reserve_range asked h = ground (arith, asked.stored, asked.uncovered)

  -- The error of a range that is asked for is one of the coverage.
  pub reserve_range-err :
      (f : FileRow) (e : Error)
      → find_file db p.file_id ≡ some f
      → pos 0 ≤ℤ start
      → start ≤ℤ end
      → reserve_range db p start end ≡ err e
      → (e ≡ closed) ⊎ (e ≡ exhausted) ⊎ (e ≡ fragmented)
  unfolding reserve_range
  reserve_range-err f e stored low ordered h = ground (
    arith,
    stored,
    clip-err (segments db.serves p.order_id p.file_id) (pos_part start) (pos_part end) e,
  )

parts-le : (start end : ℤ) → pos 0 ≤ℤ start → start ≤ℤ end → pos_part start ≤ pos_part end
parts-le (pos a) (pos b) low le = omega arith
parts-le (pos a) (negsuc b) low le = absurd (omega arith)
parts-le (negsuc a) end low le = absurd (omega arith)

module _ (db : Db) (p : Permission) (start end : ℤ) (now stamp : ℕ) where
  -- Where `Reserve` fails, one of its checks has; on stored runs its writes do not.
  pub reserve-err :
      (e : Error)
      → IsRuns (db.serves p.order_id p.file_id)
      → (reserve db p start end now stamp).0 ≡ err e
      → (reserve_guard db p now ≡ err e)
        ⊎ ((reserve_guard db p now ≡ ok tt) × (reserve_range db p start end ≡ err e))
        ⊎ (reserve_offer db p ≡ err e)
  unfolding reserve reserve_tx
  reserve-err e runs h =
      elim (>>=-eq-err (reserve_guard db p now) _
        (tx-err db (reserve_tx db p start end now stamp) h)) [
          | inl guard ↦ inl guard
          | inr (u, passed, rest) ↦ elim (>>=-eq-err (reserve_range db p start end) _ rest) [
            | inl range ↦ inr (inl (passed, range))
            | inr (plan, planned, rest') ↦ elim (>>=-eq-err (reserve_offer db p) _ rest') [
              | inl offer ↦ inr (inr offer)
              | inr (v, offered, applied) ↦
                  absurd (cc (reserve_apply-lem db p stamp plan runs, applied))
            ]
          ]
        ]

  err-reserve :
      (e : Error)
      → reserve_guard db p now ≡ ok tt
      → reserve_range db p start end ≡ err e
      → (reserve db p start end now stamp).0 ≡ err e
  unfolding reserve reserve_tx
  err-reserve e passed range =
      err-tx db (reserve_tx db p start end now stamp) (rw (passed, range) refl)

  -- On balanced books, `Reserve` reports that its byte is exhausted exactly if its checks of the
  -- permission, the deadlines, the revocation and the completion pass, the file is stored, not empty and
  -- not transmitted whole, the range starts at 0 or later and ends at its start or later, and the first
  -- byte asked for is at two serves.
  pub reserve-exhausted :
      IsBalanced db
      → ((reserve db p start end now stamp).0 ≡ err exhausted) ↔ (
          (reserve_guard db p now ≡ ok tt)
          × IsAsked db p start end
          × (count_at (db.serves p.order_id p.file_id) (pos_part start) ≡ 2))
  reserve-exhausted books =
      let runs = books.serves_runs p.order_id p.file_id in
      let loop =
        clip-exhausted (db.serves p.order_id p.file_id) (pos_part start) (pos_part end) runs in
      (
        λ h. elim (reserve-err exhausted runs h) [
          | inl guard ↦ absurd (ground (arith, reserve_guard-err db p now exhausted guard))
          | inr (inr offer) ↦ absurd (cc (reserve_offer-err db p exhausted offer))
          | inr (inl (passed, range)) ↦
              let (asked, cut) = reserve_range-exhausted db p start end range in
              (passed, asked, (loop (parts-le start end asked.from_start asked.ordered)).0 cut)
        ],
        λ (passed, asked, two).
            let cut = (loop (parts-le start end asked.from_start asked.ordered)).1 two in
            err-reserve exhausted passed (exhausted-reserve_range db p start end asked cut),
      )

-- ===== src/Ledger/Write/Laws.antt =====
-- The books and the length of the chunk over `WriteChunk` (internal/ledger/ledger.go).
use aim_data_gateway.Prelude.{
  ℕ, min, ◌+◌, ◌-◌, ◌≤◌, ◌<◌, ◌≡◌, refl, Bool, false, not, ◌&&◌, ◌||◌, Option, none, some, List, [],
  ◌∷◌, length, arith, ltb, leb, ◌==◌, inl, inr, Bool-cases, Option-cases,
}
use aim_data_gateway.Prelude.Int.{ℤ, pos, pos_part, ltb_ℤ}
use aim_data_gateway.Prelude.Result.{Error, Result, ok, err}
use aim_data_gateway.Ledger.State.{
  PermissionRow, RequestRow, FileRow, Db, find_file, find_request, owner, block_size, is_bound,
}
use aim_data_gateway.Ledger.Control.{close_expired}
use aim_data_gateway.Ledger.Write.{
  Round, Written, Progressing, LoopEnd, broke, returned, RoundEnd, again, ended, checkpoint_at,
  after_write, checkpointed, write_round, write_loop, finish_write, last_checkpoint, end_write,
  write_guard, write_checked, write_joined, write_chunk,
}
use aim_data_gateway.Ledger.Accounts.{IsBalanced}
use aim_data_gateway.Ledger.Accounts.Rows.{Keeps-update_where, Balanced-Keeps}
use aim_data_gateway.Ledger.Accounts.Progressing.{progress-IsBalanced}

pub close_expired-IsBalanced :
    (db : Db) (at stamp : ℕ) → IsBalanced db → IsBalanced (close_expired db at stamp)
unfolding close_expired
close_expired-IsBalanced db at stamp books =
    Balanced-Keeps db.permissions _ db.serves db.transmitted db.requests
      (Keeps-update_where _ _ (λ p. (refl, refl, refl)) db.permissions) books

-- A state in the loop over a chunk of `len` bytes.
pub record InLoop (len : ℕ) (s : Progressing) : Type 0 where
  pub books : IsBalanced s.db
  pub fits : s.written ≤ len

pub record IsDone (len : ℕ) (w : Written) : Type 0 where
  pub books : IsBalanced w.db
  pub fits : w.written ≤ len

abbrev GoodEnd : ℕ → LoopEnd → Type 0
GoodEnd len (broke s e) = InLoop len s
GoodEnd len (returned w) = IsDone len w

-- Another round starts only after at least one byte was written.
abbrev GoodRound : ℕ → ℕ → RoundEnd → Type 0
GoodRound len before (again s) = InLoop len s × (before < s.written)
GoodRound len before (ended e) = GoodEnd len e

count_fits :
    (count : ℤ) (len written limit : ℕ)
    → (ltb_ℤ count (pos 0) || ltb (limit - written) (pos_part count)) ≡ false
    → limit ≤ len
    → written ≤ len
    → written + pos_part count ≤ len
count_fits count len written limit h l w = ground arith

module _ (key_ok : Bool) (stamp id td next len : ℕ) where
  checkpoint_at-IsBalanced :
      (db : Db) (w : ℕ)
      → IsBalanced db
      → IsBalanced (checkpoint_at key_ok stamp id td next len db w).1
  unfolding checkpoint_at
  checkpoint_at-IsBalanced db w books = progress-IsBalanced db key_ok stamp id (next + w) books

  after_write-GoodRound :
      (r : Round) (n before : ℕ) (s : Progressing)
      → InLoop len s
      → s.written ≡ before + n
      → GoodRound len before (after_write key_ok stamp id td next len r n s)
  unfolding after_write
  after_write-GoodRound r n before s good e = elim (Bool-cases r.failed) [
    | inl f ↦ rw f good
    | inr f ↦ elim (Bool-cases (n == 0)) [
      | inl z ↦ rw (f, z) good
      | inr z ↦ rw (f, z) (good, ground arith)
    ]
  ]

  checkpointed-GoodRound :
      (r : Round) (n before w : ℕ) (m : Result (Unit {0}) × Db)
      → IsBalanced m.1
      → w ≤ len
      → w ≡ before + n
      → GoodRound len before (checkpointed key_ok stamp id td next len r n w m)
  unfolding checkpointed
  checkpointed-GoodRound r n before w (ok u, db) books fits e =
      after_write-GoodRound r n before _ (record { books = books; fits = fits }) e
  checkpointed-GoodRound r n before w (err x, db) books fits e = record {
    books = books;
    fits = fits;
  }

  write_round-GoodRound :
      (r : Round) (s : Progressing)
      → InLoop len s
      → GoodRound len s.written (write_round key_ok stamp id td next len r s)
  unfolding write_round
  write_round-GoodRound r s good =
      let limit = min len (s.checkpoint + block_size) in
      let n = pos_part r.count in
      elim (Bool-cases (ltb_ℤ r.count (pos 0) || ltb (limit - s.written) n)) [
        | inl bad ↦ rw bad (record { books = good.books; fits = good.fits })
        | inr valid ↦
            let fits = count_fits r.count len s.written limit valid (omega arith) good.fits in
            elim (Bool-cases ((s.written + n == limit) && ltb limit len)) [
              | inl full ↦
                  rw (valid, full)
                    (checkpointed-GoodRound r n s.written (s.written + n) _
                      (checkpoint_at-IsBalanced s.db (s.written + n) good.books) fits refl)
              | inr part ↦
                  rw (valid, part)
                    (after_write-GoodRound r n s.written _
                      (record { books = good.books; fits = fits }) refl)
            ]
      ]

  -- The cases of one round of the loop.
  abbrev step : List Round → Progressing → RoundEnd → Option LoopEnd
  step rs s m = elim m [ again t ↦ write_loop key_ok stamp id td next len rs t | ended e ↦ some e ]

  next_round :
      (rs : List Round) (s : Progressing) (m : RoundEnd)
      → GoodRound len s.written m
      → ((t : Progressing)
          → InLoop len t
          → s.written < t.written
          → (e : LoopEnd) × (write_loop key_ok stamp id td next len rs t ≡ some e) × GoodEnd len e)
      → (e : LoopEnd) × (step rs s m ≡ some e) × GoodEnd len e
  next_round rs s (again t) g rec = rec t g.0 g.1
  next_round rs s (ended e) g rec = (e, refl, g)

  -- With more rounds than bytes that are left the loop ends, in a good state.
  write_loop-GoodEnd :
      (rounds : List Round) (s : Progressing)
      → InLoop len s
      → len < s.written + length rounds
      → (e : LoopEnd) × (write_loop key_ok stamp id td next len rounds s ≡ some e) × GoodEnd len e
  unfolding write_loop
  write_loop-GoodEnd [] s good fuel = absurd (omega (arith, good.fits))
  write_loop-GoodEnd (r ∷ rs) s good fuel = elim (Bool-cases (ltb s.written len)) [
    | inr e ↦ rw (e, write_loop) (broke s none, refl, good)
    | inl e ↦ elim (Bool-cases (leb td r.now)) [
      | inl late ↦ rw (e, late, write_loop) (broke s (some Error.deadline), refl, good)
      | inr early ↦
          rw (e, early, write_loop)
            (next_round rs s (write_round key_ok stamp id td next len r s)
              (write_round-GoodRound r s good)
              (λ t g less. write_loop-GoodEnd rs t g (omega arith)))
    ]
  ]

  finish_write-IsDone :
      (now : ℕ) (s : Progressing) (e : Option Error)
      → InLoop len s
      → IsDone len (finish_write key_ok stamp id td next len now s e)
  unfolding finish_write
  finish_write-IsDone now s e good = elim (Bool-cases (leb td now)) [
    | inl late ↦
        rw late
          (record { books = close_expired-IsBalanced s.db now stamp good.books; fits = good.fits })
    | inr early ↦ rw early (record { books = good.books; fits = good.fits })
  ]

  last_checkpoint-IsDone :
      (now : ℕ) (s : Progressing) (e : Option Error) (m : Result (Unit {0}) × Db)
      → s.written ≤ len
      → IsBalanced m.1
      → IsDone len (last_checkpoint key_ok stamp id td next len now s e m)
  unfolding last_checkpoint
  last_checkpoint-IsDone now s e (ok u, db) fits books =
      finish_write-IsDone now (record s { db = db }) e (record { books = books; fits = fits })
  last_checkpoint-IsDone now s e (err x, db) fits books = record { books = books; fits = fits }

  end_write-IsDone :
      (now : ℕ) (e : LoopEnd)
      → GoodEnd len e
      → IsDone len (end_write key_ok stamp id td next len now e)
  unfolding end_write
  end_write-IsDone now (returned w) good = good
  end_write-IsDone now (broke s e) good = elim (Bool-cases (ltb s.checkpoint s.written)) [
    | inl more ↦ rw more (
        last_checkpoint-IsDone now s e _ good.fits
          (checkpoint_at-IsBalanced s.db s.written good.books))
    | inr all ↦ rw all (finish_write-IsDone now s e good)
  ]

-- The result is there, and is good.
abbrev Ends : ℕ → Option Written → Type 0
Ends len o = (w : Written) × (o ≡ some w) × IsDone len w

refused-Ends :
    (len : ℕ) (db : Db) (e : Error)
    → IsBalanced db
    → Ends len (some (record { written = 0; error = some e; db = db }))
refused-Ends len db e books = (_, refl, record { books = books; fits = omega arith })

module _ (db : Db) (key_ok : Bool) (stamp len : ℕ) (rounds : List Round) (now : ℕ)
    (books : IsBalanced db) (fuel : len < length rounds) where
  write_checked-Ends :
      (p : PermissionRow) (r : RequestRow) (m : Result (Unit {0}))
      → Ends len (write_checked db key_ok stamp p r len rounds now m)
  unfolding write_checked
  write_checked-Ends p r (err e) = refused-Ends len db e books
  write_checked-Ends p r (ok u) =
      let (e, ends, good) =
        write_loop-GoodEnd key_ok stamp r.id p.td r.next len rounds
          (record { db = db; written = 0; checkpoint = 0 })
          (record { books = books; fits = omega arith }) (omega arith) in
      rw (ends, write_checked)
        (_, refl, end_write-IsDone key_ok stamp r.id p.td r.next len now e good)

  write_joined-Ends :
      (p : PermissionRow) (r : RequestRow) (f : FileRow) (first : ℕ)
      → Ends len (write_joined db key_ok stamp p r f first len rounds now)
  unfolding write_joined
  write_joined-Ends p r f first = elim (Bool-cases (not r.is_open || not (is_bound p.state))) [
    | inl shut ↦ rw shut (refused-Ends len db Error.closed books)
    | inr live ↦ elim (Bool-cases (leb p.td first)) [
      | inl late ↦
          rw (live, late)
            (
              _,
              refl,
              record { books = close_expired-IsBalanced db first stamp books; fits = omega arith },
            )
      | inr early ↦ rw (live, early) (write_checked-Ends p r (write_guard db p r f len))
    ]
  ]

  -- On balanced books, and given more rounds than bytes, `WriteChunk` returns: it reports at most
  -- the bytes of its chunk, and the books balance after it.
  pub write_chunk-IsDone :
      (id first : ℕ)
      → (w : Written) × (write_chunk db key_ok stamp id len first rounds now ≡ some w)
        × IsDone len w
  unfolding write_chunk
  write_chunk-IsDone id first = elim (Option-cases (find_request db id)) [
    | inl gone ↦ rw (gone, write_chunk) (refused-Ends len db Error.no_rows books)
    | inr (r, found) ↦ elim (Option-cases (owner db r)) [
      | inl gone ↦ rw (found, gone, write_chunk) (refused-Ends len db Error.no_rows books)
      | inr (p, owned) ↦ elim (Option-cases (find_file db p.fid)) [
        | inl gone ↦ rw (found, owned, gone, write_chunk) (refused-Ends len db Error.no_rows books)
        | inr (f, stored) ↦ rw (found, owned, stored, write_chunk) (write_joined-Ends p r f first)
      ]
    ]
  ]

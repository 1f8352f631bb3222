-- ===== src/Ledger/Write.antt =====
-- `WriteChunk` (internal/ledger/ledger.go). The environment of the loop is a list of rounds: what the
-- clock shows before the write, and what the network write returns. `none` means that the list ended
-- before the loop did.
pub mod Laws
use aim_data_gateway.Prelude.{
  ℕ, suc, min, ◌+◌, ◌-◌, Bool, true, false, not, ◌&&◌, ◌||◌, Option, none, some, List, [], ◌∷◌, ltb,
  leb, ◌==◌, if◌then◌else◌,
}
use aim_data_gateway.Prelude.Int.{ℤ, pos, pos_part, ltb_ℤ}
use aim_data_gateway.Prelude.Result.{
  Error, Result, ok, err, closed, deadline, invalid_chunk, invalid_write, no_rows, write_failed,
  ◌>>=◌, ◌>>◌, refuse_if, or_err,
}
use aim_data_gateway.Segment.{covered}
use aim_data_gateway.Ledger.State.{
  PermissionRow, is_bound, RequestRow, FileRow, Db, find_file, find_request, owner, is_completed,
  segments, block_size,
}
use aim_data_gateway.Ledger.Settle.{progress}
use aim_data_gateway.Ledger.Control.{close_expired}

pub record Round : Type 0 where
  pub now : ℕ
  pub count : ℤ
  pub failed : Bool

-- The bytes written, the error if any, and the state.
pub record Written : Type 0 where
  pub written : ℕ
  pub error : Option Error
  pub db : Db

-- What the loop works on: the state, the bytes written, and those that are checkpointed.
pub record Progressing : Type 0 where
  pub db : Db
  pub written : ℕ
  pub checkpoint : ℕ

-- How the loop ended: by `break` or its test, with writeErr, or by `return`.
pub data LoopEnd : Type 0 where
  broke : Progressing → Option Error → LoopEnd
  returned : Written → LoopEnd

-- One call of `write`, when its result is valid and was counted: the checkpoint of a full window,
-- then the end of the loop or another round.
pub data RoundEnd : Type 0 where
  again : Progressing → RoundEnd
  ended : LoopEnd → RoundEnd

module _ (key_ok : Bool) (stamp id td next len : ℕ) where
  -- `Progress` up to `w` bytes of this chunk; its error becomes ErrProgress.
  unfoldable pub checkpoint_at : Db → ℕ → Result (Unit {0}) × Db
  checkpoint_at db w = progress db key_ok stamp id (next + w)

  -- After the checkpoint: `if err != nil || n == 0 { break }`.
  unfoldable pub after_write : Round → ℕ → Progressing → RoundEnd
  after_write r n s =
      if r.failed
      then ended (broke s (some write_failed))
      else if n == 0
      then ended (broke s none)
      else again s

  unfoldable pub checkpointed : Round → ℕ → ℕ → Result (Unit {0}) × Db → RoundEnd
  checkpointed r n w (ok _, db) = after_write r n (record { db = db; written = w; checkpoint = w })
  checkpointed r n w (err e, db) =
      ended (returned (record { written = w; error = some Error.progress; db = db }))

  -- The body of the loop, past its deadline test.
  unfoldable pub write_round : Round → Progressing → RoundEnd
  write_round r s =
      let limit = min len (s.checkpoint + block_size) in
      let n = pos_part r.count in
      let w = s.written + n in
      if ltb_ℤ r.count (pos 0) || ltb (limit - s.written) n
      then ended (returned (record { written = s.written; error = some invalid_write; db = s.db }))
      else if (w == limit) && ltb limit len
      then checkpointed r n w (checkpoint_at s.db w)
      else after_write r n (record s { written = w })

  unfoldable pub write_loop : List Round → Progressing → Option LoopEnd
  write_loop [] s = if ltb s.written len then none else some (broke s none)
  write_loop (r ∷ rs) s = elim (ltb s.written len) [
    | false ↦ some (broke s none)
    | true ↦ elim (leb td r.now) [
      | true ↦ some (broke s (some deadline))
      | false ↦ elim (write_round r s) [ again t ↦ write_loop rs t | ended e ↦ some e ]
    ]
  ]

  -- The test of the deadline after the last checkpoint.
  unfoldable pub finish_write : ℕ → Progressing → Option Error → Written
  finish_write now s e =
      if leb td now
      then record { written = s.written; error = some deadline; db = close_expired s.db now stamp }
      else record { written = s.written; error = e; db = s.db }

  unfoldable pub last_checkpoint : ℕ → Progressing → Option Error → Result (Unit {0}) × Db → Written
  last_checkpoint now s e (ok _, db) = finish_write now (record s { db = db }) e
  last_checkpoint now s e (err _, db) = record {
    written = s.written;
    error = some Error.progress;
    db = db;
  }

  unfoldable pub end_write : ℕ → LoopEnd → Written
  end_write now (returned w) = w
  end_write now (broke s e) =
      if ltb s.checkpoint s.written
      then last_checkpoint now s e (checkpoint_at s.db s.written)
      else finish_write now s e

-- The checks of `WriteChunk` before its loop.
unfoldable pub write_guard : Db → PermissionRow → RequestRow → FileRow → ℕ → Result (Unit {0})
write_guard db p r f len = do
  refuse_if (is_completed db p.oid p.fid) closed
  refuse_if (f.size == 0 || covered (segments db.transmitted p.oid p.fid) 0 (f.size - 1)) closed
  refuse_if (len == 0 || ltb (r.end + 1) (r.next + len)) invalid_chunk

abbrev refused : Db → Error → Option Written
refused db e = some (record { written = 0; error = some e; db = db })

unfoldable pub write_checked :
    Db
    → Bool
    → ℕ
    → PermissionRow
    → RequestRow
    → ℕ
    → List Round
    → ℕ
    → Result (Unit {0})
    → Option Written
write_checked db key_ok stamp p r len rounds now (err e) = refused db e
write_checked db key_ok stamp p r len rounds now (ok _) =
    elim (write_loop key_ok stamp r.id p.td r.next len rounds
      (record { db = db; written = 0; checkpoint = 0 })) [
        | none ↦ none
        | some e ↦ some (end_write key_ok stamp r.id p.td r.next len now e)
      ]

unfoldable pub write_joined :
    Db → Bool → ℕ → PermissionRow → RequestRow → FileRow → ℕ → ℕ → List Round → ℕ → Option Written
write_joined db key_ok stamp p r f first len rounds now =
    if not r.is_open || not (is_bound p.state)
    then refused db closed
    else if leb p.td first
    then some (record { written = 0; error = some deadline; db = close_expired db first stamp })
    else write_checked db key_ok stamp p r len rounds now (write_guard db p r f len)

-- `first` is the clock of the first deadline test, and `now` that of the last.
unfoldable pub write_chunk : Db → Bool → ℕ → ℕ → ℕ → ℕ → List Round → ℕ → Option Written
write_chunk db key_ok stamp id len first rounds now = elim (find_request db id) [
  | none ↦ refused db no_rows
  | some r ↦ elim (owner db r) [
    | none ↦ refused db no_rows
    | some p ↦ elim (find_file db p.fid) [
      | none ↦ refused db no_rows
      | some f ↦ write_joined db key_ok stamp p r f first len rounds now
    ]
  ]
]

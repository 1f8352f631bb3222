-- ===== src/Audit/Durability.antt =====
-- What is stored after a call of `Append` of internal/audit/audit.go, and what `Open` makes of it.
use aim_data_gateway.Prelude.{
  ℕ, zero, suc, ◌+◌, ◌^◌, ◌≤◌, ◌≡◌, refl, sym, subst, Bool, true, false, ◌&&◌, ◌⊎◌, Option, none,
  some, List, [], ◌∷◌, arith, ltb, ◌==◌, inl, inr, Bool-cases,
}
use aim_data_gateway.Audit.{Entry, Chain, Log, AuditFile, Crypto, utf8_length}
use aim_data_gateway.Audit.Open.{read_files, file_size, repaired, open_log}
use aim_data_gateway.Audit.Append.{
  rotation_bytes, add_line, write_to, appended, rotated, Answer, stored_answer, failed_answer,
  write_entry, Outcome, stored, open_failed, write_failed, sync_failed, directory_failed, take,
  with_place,
}
use aim_data_gateway.Audit.Chains.{
  IsCurrent, Agrees, read_files-newest, open_log-Agrees, read_line-bounded,
}
use aim_data_gateway.Audit.Recovery.{
  Follows, read_files-line, read_files-torn, write_to-here, write_to-newer,
}

-- In memory and in the files, from the old chain to the new: an entry that is returned is in both, and
-- a refusal leaves the memory alone.
abbrev pub IsKept : Option Entry → Chain → Chain → Chain → Chain → Type 0
IsKept none memory after old new = memory ≡ old
IsKept (some e) memory after old new = (memory ≡ new) × (after ≡ new)

utf8_length-take : (n : ℕ) (s : List ℕ) → utf8_length (take n s) ≤ utf8_length s
unfolding utf8_length take
utf8_length-take zero s = omega arith
utf8_length-take (suc n) [] = omega arith
utf8_length-take (suc n) (c ∷ s) = omega (arith, utf8_length-take n s)

module _ (crypto : Crypto) where
  -- A log that takes further calls agrees with its files.
  abbrev pub AgreesUnless : Bool → Log → List AuditFile → Type 0
  AgreesUnless true log files = Unit
  AgreesUnless false log files = Agrees crypto log files

  -- The outcome of a call on a log, whose entry would make the chain `new`: opening the files succeeds,
  -- with a log that agrees with them and holds the old chain or the new one.
  pub record Restart (log : Log) (new : Chain) (answer : Answer crypto) : Type 0 where
    pub log_after : Log
    pub opens : open_log crypto answer.1.1 ≡ some (log_after, repaired answer.1.1)
    pub agrees : Agrees crypto log_after (repaired answer.1.1)
    pub old_or_new : (log_after.chain ≡ log.chain) ⊎ (log_after.chain ≡ new)
    pub kept : IsKept answer.0 answer.1.0.chain log_after.chain log.chain new
    pub alive : AgreesUnless answer.1.0.failed answer.1.0 answer.1.1

  restart :
      (log : Log) (new : Chain) (answer : Answer crypto) (c : Chain)
      → read_files crypto true answer.1.1 ≡ some c
      → ((c ≡ log.chain) ⊎ (c ≡ new))
      → IsKept answer.0 answer.1.0.chain c log.chain new
      → AgreesUnless answer.1.0.failed answer.1.0 answer.1.1
      → Restart log new answer
  restart log new answer c h which kept alive =
      let opened = open_log-Agrees crypto answer.1.1 c h in
      record {
        log_after = opened.0;
        opens = opened.1;
        agrees = opened.2;
        old_or_new = subst (λ x. (x ≡ log.chain) ⊎ (x ≡ new)) (sym opened.3) which;
        kept = subst (λ x. IsKept answer.0 answer.1.0.chain x log.chain new) (sym opened.3) kept;
        alive = alive;
      }

  pub agrees_unless :
      (failed : Bool) (log : Log) (files : List AuditFile)
      → Agrees crypto log files
      → AgreesUnless failed log files
  agrees_unless true log files h = tt
  agrees_unless false log files h = h

  -- A call that is refused leaves everything alone.
  pub refused-Restart :
      (log : Log) (new : Chain) (files : List AuditFile)
      → Agrees crypto log files
      → Restart log new (none, (log, files))
  refused-Restart log new files h =
      restart log new (none, (log, files)) log.chain
        (unfold Agrees in (read_files-newest crypto files log.chain h.0).0) (inl refl) refl
        (agrees_unless log.failed log files h)

  -- At the next file, the log still agrees with the files.
  next-IsCurrent :
      (log : Log) (files : List AuditFile)
      → IsCurrent log files
      → IsCurrent (with_place (suc log.index) 0 log.failed log) files
  unfolding IsCurrent
  next-IsCurrent log [] h = refl
  next-IsCurrent log (f ∷ older) (inl here) = let at = here.0 in inr (omega (arith, at), refl)
  next-IsCurrent log (f ∷ older) (inr newer) =
      let above = newer.0 in inr (omega (arith, above), refl)

  pub rotated-Agrees :
      (bytes : ℕ) (log : Log) (files : List AuditFile)
      → Agrees crypto log files
      → Agrees crypto (rotated bytes log) files × ((rotated bytes log).chain ≡ log.chain)
  unfolding Agrees rotated
  rotated-Agrees bytes log files h =
      elim (Bool-cases (ltb rotation_bytes (log.size + bytes + 1) && ltb 0 log.size)) [
        | inl full ↦ rw full ((h.0, next-IsCurrent log files h.1), refl)
        | inr fits ↦ rw fits (h, refl)
      ]

  module _ (line : List ℕ) (e : Entry) where
    stored-IsCurrent :
        (log : Log) (files : List AuditFile)
        → IsCurrent log files
        → IsCurrent
            (stored_answer crypto e line log files).1.0
            (write_to log.index (add_line line) files)
    unfolding IsCurrent file_size
    stored-IsCurrent log [] h = unfold write_to in inl (refl, omega (arith, h))
    stored-IsCurrent log (f ∷ older) (inl here) =
        let at = here.1 in
        subst (IsCurrent (stored_answer crypto e line log (f ∷ older)).1.0)
          (sym (write_to-here log.index (add_line line) f older here.0))
          (inl (here.0, omega (arith, at)))
    stored-IsCurrent log (f ∷ older) (inr newer) =
        let empty = newer.1 in
        subst (IsCurrent (stored_answer crypto e line log (f ∷ older)).1.0)
          (sym (write_to-newer log.index (add_line line) f older newer.0))
          (inl (refl, omega (arith, empty)))

    stored-Agrees :
        (log : Log) (files : List AuditFile)
        → Agrees crypto log files
        → Follows crypto line e log
        → Agrees crypto
            (stored_answer crypto e line log files).1.0
            (stored_answer crypto e line log files).1.1
    unfolding Agrees
    stored-Agrees log files h follows =
        (read_files-line crypto line e log files h follows, stored-IsCurrent log files h.1)

    stored-Restart :
        (log : Log) (files : List AuditFile)
        → Agrees crypto log files
        → Follows crypto line e log
        → Restart log (appended crypto line e log) (stored_answer crypto e line log files)
    stored-Restart log files h follows =
        let new = appended crypto line e log in
        let agrees = stored-Agrees log files h follows in
        restart log new (stored_answer crypto e line log files) new
          (read_files-newest crypto (write_to log.index (add_line line) files) new
            (read_files-line crypto line e log files h follows)).0
          (inr refl) (refl, refl) (agrees_unless log.failed _ _ agrees)

    unsynced-Restart :
        (log : Log) (files : List AuditFile)
        → Agrees crypto log files
        → Follows crypto line e log
        → Restart log
            (appended crypto line e log)
            (failed_answer crypto log (write_to log.index (add_line line) files))
    unsynced-Restart log files h follows =
        let new = appended crypto line e log in
        restart log new (failed_answer crypto log (write_to log.index (add_line line) files)) new
          (read_files-newest crypto (write_to log.index (add_line line) files) new
            (read_files-line crypto line e log files h follows)).0
          (inr refl) refl tt

    -- A part of a line that `Open` reads leaves room in its buffer.
    torn_bounded :
        (n : ℕ) (log : Log) → Follows crypto line e log → utf8_length (take n line) + 1 ≤ 2 ^ 21
    torn_bounded n log follows = omega (
      arith,
      utf8_length-take n line,
      read_line-bounded crypto line log.chain (follows log.chain refl refl),
    )

    pub write_entry-Restart :
        (outcome : Outcome) (log : Log) (files : List AuditFile)
        → Agrees crypto log files
        → Follows crypto line e log
        → Restart log (appended crypto line e log) (write_entry crypto outcome e line log files)
    unfolding write_entry
    write_entry-Restart stored log files h follows = stored-Restart log files h follows
    write_entry-Restart open_failed log files h follows =
        refused-Restart log (appended crypto line e log) files h
    write_entry-Restart (write_failed n) log files h follows =
        restart log (appended crypto line e log)
          (write_entry crypto (write_failed n) e line log files) log.chain
          (read_files-torn crypto (take n line) log files (torn_bounded n log follows) h) (inl refl)
          refl tt
    write_entry-Restart sync_failed log files h follows = unsynced-Restart log files h follows
    write_entry-Restart directory_failed log files h follows = elim (Bool-cases (log.size == 0)) [
      | inl at ↦ rw at (unsynced-Restart log files h follows)
      | inr at ↦ rw at (stored-Restart log files h follows)
    ]

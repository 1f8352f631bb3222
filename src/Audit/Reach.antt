-- ===== src/Audit/Reach.antt =====
-- The states that the audit log and its directory reach: by calls of `Append`, whatever becomes of
-- their writes, and by restarts, at which `Open` reads the directory.
use mathlib.Core.Option.{some_inj}
use aim_data_gateway.Prelude.{
  ℕ, ◌≡◌, refl, sym, ap, subst, ◌∙◌, true, some, none, List, [], inl, inr, Bool-cases,
}
use aim_data_gateway.Json.{Json}
use aim_data_gateway.Audit.{Log, AuditFile, Crypto, no_chain}
use aim_data_gateway.Audit.Open.{read_files, repaired, open_log}
use aim_data_gateway.Audit.Append.{Answer, append, Outcome}
use aim_data_gateway.Audit.Chains.{Agrees, read_files-newest, open_log-Agrees}
use aim_data_gateway.Audit.Durability.{AgreesUnless, agrees_unless}
use aim_data_gateway.Audit.History.{IsReadable, append-Restart}

module _ (crypto : Crypto) where
  pub data Reaches : Log → List AuditFile → Type 0 where
    -- Opening an empty directory.
    opens :
        {log : Log} {files : List AuditFile}
        → open_log crypto [] ≡ some (log, files)
        → Reaches log files
    -- A call.
    appends :
        (outcome : Outcome) (now message_type : List ℕ) (body : Json) {log : Log}
        {files : List AuditFile}
        → IsReadable crypto now message_type body log
        → Reaches log files
        → Reaches
            (append crypto outcome now message_type body log files).1.0
            (append crypto outcome now message_type body log files).1.1
    -- The process ends, and another opens the directory.
    restarts :
        {log log' : Log} {files files' : List AuditFile}
        → open_log crypto files ≡ some (log', files')
        → Reaches log files
        → Reaches log' files'

  -- The directory opens, with a log that agrees with it; and so does the log in memory, unless it has
  -- failed.
  pub record IsRecoverable (log : Log) (files : List AuditFile) : Type 0 where
    pub reopened : Log
    pub opens_eq : open_log crypto files ≡ some (reopened, repaired files)
    pub agrees : Agrees crypto reopened (repaired files)
    pub alive : AgreesUnless crypto log.failed log files

  opened-IsRecoverable :
      (log log' : Log) (files files' : List AuditFile)
      → open_log crypto files ≡ some (log, repaired files)
      → Agrees crypto log (repaired files)
      → open_log crypto files ≡ some (log', files')
      → IsRecoverable log' files'
  unfolding Agrees
  opened-IsRecoverable log log' files files' opening agrees opening' =
      let same = some_inj.0 (sym opening ∙ opening') in
      let there = ap (λ p. p.1) same in
      let here = subst (λ p. Agrees crypto p.0 p.1) same agrees in
      let newest = read_files-newest crypto files' log'.chain here.0 in
      let again = open_log-Agrees crypto files' log'.chain newest.0 in
      record {
        reopened = again.0;
        opens_eq = again.1;
        agrees = again.2;
        alive = agrees_unless crypto log'.failed log' files' here;
      }

  append-failed :
      (outcome : Outcome) (now message_type : List ℕ) (body : Json) (log : Log)
      (files : List AuditFile)
      → log.failed ≡ true
      → append crypto outcome now message_type body log files ≡ (none, (log, files))
  unfolding append
  append-failed outcome now message_type body log files h = rw h refl

  append-IsRecoverable :
      (outcome : Outcome) (now message_type : List ℕ) (body : Json) (log : Log)
      (files : List AuditFile)
      → IsReadable crypto now message_type body log
      → IsRecoverable log files
      → IsRecoverable
          (append crypto outcome now message_type body log files).1.0
          (append crypto outcome now message_type body log files).1.1
  append-IsRecoverable outcome now message_type body log files readable r =
      elim (Bool-cases log.failed) [
        | inl failed ↦
            subst (λ (a : Answer crypto). IsRecoverable a.1.0 a.1.1)
              (sym (append-failed outcome now message_type body log files failed)) r
        | inr ready ↦
            let done =
              append-Restart crypto outcome now message_type body log files readable
                (subst (λ failed. AgreesUnless crypto failed log files) ready r.alive) in
            record {
              reopened = done.log_after;
              opens_eq = done.opens;
              agrees = done.agrees;
              alive = done.alive;
            }
      ]

  -- In every state reached from the empty directory, by calls whose writes may fail in any way and by
  -- restarts at any time, `Open` succeeds and makes a log that agrees with the files, and a log that
  -- has not failed agrees with the files too. The calls are those whose entry `Open` can read: its
  -- texts are of code points, the numbers of its body are integers, its sequence number is below
  -- 2^63, and its line fits in 2 MiB.
  pub Reaches-IsRecoverable :
      (log : Log) (files : List AuditFile) → Reaches log files → IsRecoverable log files
  unfolding read_files
  Reaches-IsRecoverable log files (opens h) =
      let first = open_log-Agrees crypto [] no_chain refl in
      opened-IsRecoverable first.0 log [] files first.1 first.2 h
  Reaches-IsRecoverable _ _ (appends outcome now message_type body {log} {files} readable before) =
      append-IsRecoverable outcome now message_type body log files readable
        (Reaches-IsRecoverable log files before)
  Reaches-IsRecoverable log' files' (restarts {log} {log' = _} {files} h before) =
      let r = Reaches-IsRecoverable log files before in
      opened-IsRecoverable r.reopened log' files files' r.opens_eq r.agrees h

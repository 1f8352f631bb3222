-- ===== src/Audit/Recovery.antt =====
-- Writes of `Append` of internal/audit/audit.go, whatever becomes of them, and `Open` after them.
use aim_data_gateway.Prelude.{
  ℕ, suc, ◌+◌, ◌^◌, ◌≤◌, ◌<◌, ◌≡◌, refl, sym, ap, ◌∙◌, true, false, some, List, [], ◌∷◌, arith, leb,
  ◌==◌, if◌then◌else◌, inl, inr, Bool-cases,
}
use aim_data_gateway.Audit.{Entry, Chain, Rotation, Log, AuditFile, Crypto, utf8_length}
use aim_data_gateway.Audit.Open.{
  then_chain, extend, read_torn, add_rotation, read_line, read_lines, add_file, read_file,
  read_files, file_size,
}
use aim_data_gateway.Audit.Append.{add_line, add_torn, new_file, write_to, appended}
use aim_data_gateway.Audit.Chains.{
  IsCurrent, Agrees, Parts, read_files-Parts, read_files-new_file, read_lines-counts, newest_torn,
}

-- Writes go to the newest file, or make a newer one.
pub write_to-here :
    (path : ℕ) (change : AuditFile → AuditFile) (f : AuditFile) (older : List AuditFile)
    → path ≡ f.index
    → write_to path change (f ∷ older) ≡ change f ∷ older
unfolding write_to
write_to-here path change f older h = ground (arith, h)

pub write_to-newer :
    (path : ℕ) (change : AuditFile → AuditFile) (f : AuditFile) (older : List AuditFile)
    → f.index < path
    → write_to path change (f ∷ older) ≡ change (new_file path) ∷ f ∷ older
unfolding write_to
write_to-newer path change f older h = ground (arith, h)

module _ (crypto : Crypto) where
  -- Text of less than 2 MiB without a newline at the end of a file is not read.
  pub read_files-torn :
      (text : List ℕ) (log : Log) (files : List AuditFile)
      → utf8_length text + 1 ≤ 2 ^ 21
      → Agrees crypto log files
      → read_files crypto true (write_to log.index (add_torn text) files) ≡ some log.chain
  unfolding Agrees IsCurrent
  read_files-torn text log [] short h =
      unfold write_to in read_files-new_file crypto log.index text [] log.chain short h.0
  read_files-torn text log (f ∷ older) short (h, inl here) =
      ap (read_files crypto true) (write_to-here log.index (add_torn text) f older here.0)
      ∙ torn_here (read_files-Parts crypto f older log.chain h)
    where
      torn_here :
          Parts crypto f older log.chain
          → read_files crypto true (add_torn text f ∷ older) ≡ some log.chain
      torn_here parts =
          unfold read_files read_file in
          ap (λ o. then_chain o (read_file crypto true (add_torn text f))) parts.older_eq
          ∙ ap
              (λ o.
                add_file crypto (suc parts.before_file.seq) f (then_chain o (read_torn true text)))
              parts.lines_eq
          ∙ ap (add_file crypto (suc parts.before_file.seq) f)
              (newest_torn crypto text parts.after_lines short)
          ∙ ap some parts.chain_eq
  read_files-torn text log (f ∷ older) short (h, inr newer) =
      ap (read_files crypto true) (write_to-newer log.index (add_torn text) f older newer.0)
      ∙ read_files-new_file crypto log.index text (f ∷ older) log.chain short h

  module _ (line : List ℕ) (e : Entry) where
    -- The line is read as the entry after the chain of the log.
    abbrev pub Follows : Log → Type 0
    Follows log =
        (c : Chain)
        → c.seq ≡ log.chain.seq
        → c.prev ≡ log.chain.prev
        → read_line crypto line c ≡ some (extend crypto line e c)

    -- The line opens a rotation exactly if it is the first of its file.
    rotation_new :
        (log : Log)
        → log.size ≡ 0
        → add_rotation (suc log.chain.seq) log.index (extend crypto line e log.chain)
          ≡ appended crypto line e log
    unfolding add_rotation appended
    rotation_new log empty = ground (arith, empty)

    abbrev appended_to : Chain → ℕ → ℕ → Chain
    appended_to c path size =
        let next = extend crypto line e c in
        let rotations : List Rotation = record { first = suc c.seq; path = path } ∷ c.rotations in
        if size == 0
        then record { seq = next.seq; prev = next.prev; last = e; rotations = rotations }
        else next

    rotation_lines :
        (lines : List (List ℕ)) (path : ℕ) (b a : Chain)
        → read_lines crypto lines b ≡ some a
        → add_rotation (suc b.seq) path (extend crypto line e a)
          ≡ appended_to (add_rotation (suc b.seq) path a) path (file_size lines)
    unfolding add_rotation file_size
    rotation_lines [] path b a h =
        let counts = read_lines-counts crypto [] b a h in ground (arith, counts)
    rotation_lines (l ∷ lines) path b a h =
        let counts = read_lines-counts crypto (l ∷ lines) b a h in ground (arith, counts)

    read_files-new_line :
        (log : Log) (files : List AuditFile)
        → read_files crypto false files ≡ some log.chain
        → log.size ≡ 0
        → Follows log
        → read_files crypto false (add_line line (new_file log.index) ∷ files)
          ≡ some (appended crypto line e log)
    unfolding read_files read_file read_lines add_rotation appended read_torn
    read_files-new_line log files h empty follows =
        let file = add_line line (new_file log.index) in
        ap (λ o. then_chain o (read_file crypto false file)) h
        ∙ ap (λ o. add_file crypto (suc log.chain.seq) file (then_chain o (read_torn false [])))
            (follows log.chain refl refl)
        ∙ ap some (rotation_new log empty)

    rotation_here :
        (log : Log) (lines : List (List ℕ)) (path : ℕ) (b a : Chain)
        → read_lines crypto lines b ≡ some a
        → add_rotation (suc b.seq) path a ≡ log.chain
        → log.index ≡ path
        → log.size ≡ file_size lines
        → add_rotation (suc b.seq) path (extend crypto line e a) ≡ appended crypto line e log
    unfolding appended
    rotation_here log lines path b a h chain_eq index_eq size_eq =
        rotation_lines lines path b a h
        ∙ ap (λ c. appended_to c path (file_size lines)) chain_eq
        ∙ ap (λ i. appended_to log.chain i (file_size lines)) (sym index_eq)
        ∙ ap (λ s. appended_to log.chain log.index s) (sym size_eq)

    rotation_keeps :
        (n path : ℕ) (c : Chain)
        → ((add_rotation n path c).seq ≡ c.seq) × ((add_rotation n path c).prev ≡ c.prev)
    unfolding add_rotation
    rotation_keeps n path c = elim (Bool-cases (leb n c.seq)) [
      | inl le ↦ rw le (refl, refl)
      | inr gt ↦ rw gt (refl, refl)
    ]

    line_here :
        (log : Log) (f : AuditFile) (older : List AuditFile)
        → ((log.index ≡ f.index) × (log.size ≡ file_size f.lines))
        → Parts crypto f older log.chain
        → Follows log
        → read_files crypto false (add_line line f ∷ older) ≡ some (appended crypto line e log)
    unfolding read_files read_file read_lines read_torn
    line_here log f older here parts follows =
        let b = parts.before_file in
        let a = parts.after_lines in
        let kept = rotation_keeps (suc b.seq) f.index a in
        let next =
          follows a (sym kept.0 ∙ ap (λ c. c.seq) parts.chain_eq)
            (sym kept.1 ∙ ap (λ c. c.prev) parts.chain_eq) in
        ap (λ o. then_chain o (read_file crypto false (add_line line f))) parts.older_eq
        ∙ ap
            (λ o.
              add_file crypto (suc b.seq) f
                (then_chain (then_chain o (read_line crypto line)) (read_torn false f.torn)))
            parts.lines_eq
        ∙ ap (λ o. add_file crypto (suc b.seq) f (then_chain o (read_torn false f.torn))) next
        ∙ ap (λ t. add_file crypto (suc b.seq) f (read_torn false t (extend crypto line e a)))
            parts.torn_eq
        ∙ ap some
            (rotation_here log f.lines f.index b a parts.lines_eq parts.chain_eq here.0 here.1)

    pub read_files-line :
        (log : Log) (files : List AuditFile)
        → Agrees crypto log files
        → Follows log
        → read_files crypto false (write_to log.index (add_line line) files)
          ≡ some (appended crypto line e log)
    unfolding Agrees IsCurrent
    read_files-line log [] h follows = unfold write_to in read_files-new_line log [] h.0 h.1 follows
    read_files-line log (f ∷ older) (h, inl here) follows =
        ap (read_files crypto false) (write_to-here log.index (add_line line) f older here.0)
        ∙ line_here log f older here (read_files-Parts crypto f older log.chain h) follows
    read_files-line log (f ∷ older) (h, inr newer) follows =
        ap (read_files crypto false) (write_to-newer log.index (add_line line) f older newer.0)
        ∙ read_files-new_line log (f ∷ older) h newer.1 follows

-- ===== src/Audit/Chains.antt =====
-- The chain that `Open` of internal/audit/audit.go reads, before and after a write of `Append`.
use mathlib.Core.Option.{some_inj}
use aim_data_gateway.Prelude.{
  ℕ, suc, ◌+◌, ◌^◌, ◌≤◌, ◌<◌, ◌≡◌, refl, sym, ap, ◌∙◌, true, false, ◌⊎◌, Option, none, some, List,
  [], ◌∷◌, length, arith, leb, inl, inr, Bool-cases,
}
use aim_data_gateway.Audit.{Entry, Chain, Log, AuditFile, Crypto, utf8_length}
use aim_data_gateway.Audit.Lines.{validate_raw}
use aim_data_gateway.Audit.Open.{
  then_chain, extend, is_next, read_torn, add_rotation, read_entry, read_line, read_lines, add_file,
  read_file, read_files, file_size, newest_index, newest_size, repaired, log_of, open_log,
}
use aim_data_gateway.Audit.Append.{add_torn, new_file}

-- The log is at its newest file, or at one that is not there yet.
unfoldable pub IsCurrent : Log → List AuditFile → Type 0
IsCurrent log [] = log.size ≡ 0
IsCurrent log (f ∷ older) =
    ((log.index ≡ f.index) × (log.size ≡ file_size f.lines))
    ⊎ ((f.index < log.index) × (log.size ≡ 0))

module _ (crypto : Crypto) where
  -- The files hold exactly the chain of the log.
  unfoldable pub Agrees : Log → List AuditFile → Type 0
  Agrees log files = (read_files crypto false files ≡ some log.chain) × IsCurrent log files

  pub then_chain-eq-some :
      (o : Option Chain) (k : Chain → Option Chain) {c : Chain}
      → then_chain o k ≡ some c
      → (a : Chain) × (o ≡ some a) × (k a ≡ some c)
  then_chain-eq-some none k h = cc
  then_chain-eq-some (some a) k h = (a, refl, h)

  add_file-eq-some :
      (first : ℕ) (f : AuditFile) (o : Option Chain) {c : Chain}
      → add_file crypto first f o ≡ some c
      → (a : Chain) × (o ≡ some a) × (add_rotation first f.index a ≡ c)
  add_file-eq-some first f none h = cc
  add_file-eq-some first f (some a) h = (a, refl, some_inj.0 h)

  read_torn-eq-some :
      (torn : List ℕ) (c : Chain) {d : Chain}
      → read_torn false torn c ≡ some d
      → (torn ≡ []) × (c ≡ d)
  unfolding read_torn
  read_torn-eq-some [] c h = (refl, some_inj.0 h)
  read_torn-eq-some (x ∷ torn) c h = cc

  pub newest_torn :
      (torn : List ℕ) (c : Chain) → utf8_length torn + 1 ≤ 2 ^ 21 → read_torn true torn c ≡ some c
  unfolding read_torn
  newest_torn [] c short = refl
  newest_torn (x ∷ torn) c short = ground arith

  torn_newest : (torn : List ℕ) (c : Chain) {d : Chain} → read_torn true torn c ≡ some d → c ≡ d
  unfolding read_torn
  torn_newest [] c h = some_inj.0 h
  torn_newest (x ∷ torn) c h = ground arith

  -- The last file with the text behind its last newline dropped.
  read_file-repaired :
      (f : AuditFile) (before : Chain) (c : Chain)
      → read_file crypto true f before ≡ some c
      → read_file crypto false (add_torn [] f) before ≡ some c
  unfolding read_file
  read_file-repaired f before c h =
      let a =
        add_file-eq-some (suc before.seq) f
          (then_chain (read_lines crypto f.lines before) (read_torn true f.torn)) h in
      let d = then_chain-eq-some (read_lines crypto f.lines before) (read_torn true f.torn) a.1 in
      let same = torn_newest f.torn d.0 d.2 in
      ap (λ o. add_file crypto (suc before.seq) f (then_chain o (read_torn false []))) d.1
      ∙ unfold read_torn in
        (ap (λ x. some (add_rotation (suc before.seq) f.index x)) same ∙ ap some a.2)

  -- Where files read, the newest of them counts by its lines.
  read_files-repaired :
      (files : List AuditFile) (c : Chain)
      → read_files crypto true files ≡ some c
      → read_files crypto false (repaired files) ≡ some c
  unfolding read_files repaired
  read_files-repaired [] c h = h
  read_files-repaired (f ∷ older) c h =
      let a = then_chain-eq-some (read_files crypto false older) (read_file crypto true f) h in
      ap (λ o. then_chain o (read_file crypto false (add_torn [] f))) a.1
      ∙ read_file-repaired f a.0 c a.2

  abbrev opened : List AuditFile → Chain → Log
  opened files c = record {
    chain = c;
    index = newest_index files;
    size = newest_size files;
    cursor = record { seq = 0; path = 0; offset = 0 };
    failed = false;
  }

  opened-IsCurrent :
      (files : List AuditFile) (c : Chain) → IsCurrent (opened files c) (repaired files)
  unfolding IsCurrent repaired newest_index newest_size
  opened-IsCurrent [] c = refl
  opened-IsCurrent (f ∷ older) c = inl (refl, refl)

  -- Opening succeeds if the chain reads, and the log that it makes agrees with the files.
  pub open_log-Agrees :
      (files : List AuditFile) (c : Chain)
      → read_files crypto true files ≡ some c
      → (log : Log) × (open_log crypto files ≡ some (log, repaired files))
        × Agrees log (repaired files)
        × (log.chain ≡ c)
  unfolding open_log Agrees
  open_log-Agrees files c h = (
    opened files c,
    ap (log_of crypto files) h,
    (read_files-repaired files c h, opened-IsCurrent files c),
    refl,
  )

  -- A chain that reads with no text behind its last newline, and where it comes from.
  pub record Parts (f : AuditFile) (older : List AuditFile) (c : Chain) : Type 0 where
    pub before_file : Chain
    pub after_lines : Chain
    pub older_eq : read_files crypto false older ≡ some before_file
    pub lines_eq : read_lines crypto f.lines before_file ≡ some after_lines
    pub torn_eq : f.torn ≡ []
    pub chain_eq : add_rotation (suc before_file.seq) f.index after_lines ≡ c

  pub read_files-Parts :
      (f : AuditFile) (older : List AuditFile) (c : Chain)
      → read_files crypto false (f ∷ older) ≡ some c
      → Parts f older c
  unfolding read_files read_file
  read_files-Parts f older c h =
      let a = then_chain-eq-some (read_files crypto false older) (read_file crypto false f) h in
      let b =
        add_file-eq-some (suc a.0.seq) f
          (then_chain (read_lines crypto f.lines a.0) (read_torn false f.torn)) a.2 in
      let d = then_chain-eq-some (read_lines crypto f.lines a.0) (read_torn false f.torn) b.1 in
      let t = read_torn-eq-some f.torn d.0 d.2 in
      record {
        before_file = a.0;
        after_lines = d.0;
        older_eq = a.1;
        lines_eq = d.1;
        torn_eq = t.0;
        chain_eq = ap (add_rotation (suc a.0.seq) f.index) t.1 ∙ b.2;
      }

  newest_Parts :
      (f : AuditFile) (older : List AuditFile) (c : Chain)
      → Parts f older c
      → read_files crypto true (f ∷ older) ≡ some c
  unfolding read_files read_file read_torn
  newest_Parts f older c parts =
      let b = parts.before_file in
      ap (λ o. then_chain o (read_file crypto true f)) parts.older_eq
      ∙ ap (λ o. add_file crypto (suc b.seq) f (then_chain o (read_torn true f.torn)))
          parts.lines_eq
      ∙ ap (λ t. add_file crypto (suc b.seq) f (read_torn true t parts.after_lines)) parts.torn_eq
      ∙ ap some parts.chain_eq

  -- Files with no text behind a last newline read alike, whether the newest of them is the last or not.
  pub read_files-newest :
      (files : List AuditFile) (c : Chain)
      → read_files crypto false files ≡ some c
      → (read_files crypto true files ≡ some c) × (repaired files ≡ files)
  unfolding repaired read_files
  read_files-newest [] c h = (h, refl)
  read_files-newest (f ∷ older) c h =
      let parts = read_files-Parts f older c h in
      (newest_Parts f older c parts, ap (λ torn. add_torn torn f ∷ older) (sym parts.torn_eq))

  -- A new file with one line, or with none yet.
  pub read_files-new_file :
      (path : ℕ) (torn : List ℕ) (files : List AuditFile) (c : Chain)
      → utf8_length torn + 1 ≤ 2 ^ 21
      → read_files crypto false files ≡ some c
      → read_files crypto true (add_torn torn (new_file path) ∷ files) ≡ some c
  unfolding read_files read_file read_lines add_rotation
  read_files-new_file path torn files c short h =
      ap (λ o. then_chain o (read_file crypto true (add_torn torn (new_file path)))) h
      ∙ ap (add_file crypto (suc c.seq) (new_file path)) (newest_torn torn c short)
      ∙ ground arith

  read_entry-eq-some :
      (line : List ℕ) (c : Chain) (o : Option Entry) {d : Chain}
      → read_entry crypto line c o ≡ some d
      → (d.seq ≡ suc c.seq) × (d.rotations ≡ c.rotations)
  read_entry-eq-some line c none h = cc
  read_entry-eq-some line c (some e) {d = d} h = elim (Bool-cases (is_next e c)) [
    | inl same_next ↦
        let same : extend crypto line e c ≡ d = some_inj.0 (rw same_next at h) in
        (ap (λ x. x.seq) (sym same), ap (λ x. x.rotations) (sym same))
    | inr at ↦ absurd (ground (arith, at, h))
  ]

  read_line-counts :
      (line : List ℕ) (c d : Chain)
      → read_line crypto line c ≡ some d
      → (d.seq ≡ suc c.seq) × (d.rotations ≡ c.rotations)
  unfolding read_line
  read_line-counts line c d h = elim (Bool-cases (leb (utf8_length line + 1) (2 ^ 21))) [
    | inl at ↦ read_entry-eq-some line c (validate_raw crypto line) (sym (rw at) ∙ h)
    | inr at ↦ absurd (ground (arith, at, h))
  ]

  pub read_line-bounded :
      (line : List ℕ) (c : Chain) {d : Chain}
      → read_line crypto line c ≡ some d
      → utf8_length line + 1 ≤ 2 ^ 21
  unfolding read_line
  read_line-bounded line c h = ground arith

  -- Reading lines counts them, and leaves the rotations.
  pub read_lines-counts :
      (lines : List (List ℕ)) (c d : Chain)
      → read_lines crypto lines c ≡ some d
      → (d.seq ≡ c.seq + length lines) × (d.rotations ≡ c.rotations)
  unfolding read_lines
  read_lines-counts [] c d h =
      let same = some_inj.0 h in
      (ap (λ e. e.seq) (sym same) ∙ omega arith, ap (λ e. e.rotations) (sym same))
  read_lines-counts (line ∷ older) c d h =
      let a = then_chain-eq-some (read_lines crypto older c) (read_line crypto line) h in
      let last = read_line-counts line a.0 d a.2 in
      let rest = read_lines-counts older c a.0 a.1 in
      (omega (arith, last.0, rest.0), last.1 ∙ rest.1)

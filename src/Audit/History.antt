-- ===== src/Audit/History.antt =====
-- `Append` of internal/audit/audit.go as a whole, and the states that the log and its directory reach.
use aim_data_gateway.Prelude.{
  ℕ, ◌+◌, ◌^◌, ◌≤◌, ◌≡◌, refl, sym, ap, subst, ◌∙◌, true, not, ◌&&◌, ◌⊎◌, Option, none, some, List,
  arith, leb, inl, inr, Bool-cases,
}
use aim_data_gateway.Json.{Json}
use aim_data_gateway.Json.Reads.{if_both}
use aim_data_gateway.Json.Canonical.{same_text, same_text_refl}
use aim_data_gateway.Audit.{Entry, Chain, Log, AuditFile, Crypto, utf8_length}
use aim_data_gateway.Audit.Lines.{line_of, validate_raw, is_valid, check_entry, scan_report}
use aim_data_gateway.Audit.Open.{extend, is_next, read_entry, read_line}
use aim_data_gateway.Audit.Append.{
  appended, rotated, new_entry, Answer, write_valid, append, allowed, is_oversized, Outcome,
}
use aim_data_gateway.Audit.Validation.{IsEntry, validate_raw-line_of}
use aim_data_gateway.Audit.Chains.{Agrees}
use aim_data_gateway.Audit.Recovery.{Follows}
use aim_data_gateway.Audit.Durability.{
  IsKept, Restart, refused-Restart, rotated-Agrees, write_entry-Restart,
}

module _ (crypto : Crypto) where
  abbrev pub new_line : List ℕ → List ℕ → Json → Log → List ℕ
  new_line now message_type body log = line_of (new_entry crypto log.chain now message_type body)

  -- The chain once the entry of a call is stored.
  abbrev pub next_chain : List ℕ → List ℕ → Json → Log → Chain
  next_chain now message_type body log =
      let e = new_entry crypto log.chain now message_type body in
      appended crypto (line_of e) e (rotated (utf8_length (line_of e)) log)

  -- The entry of a call is one that `Open` will read: its texts are of code points, its body holds
  -- integers, its number is below 2^63, and its line fits in 2 MiB.
  abbrev pub IsReadable : List ℕ → List ℕ → Json → Log → Type 0
  IsReadable now message_type body log =
      IsEntry (new_entry crypto log.chain now message_type body)
      × (utf8_length (new_line now message_type body log) + 1 ≤ 2 ^ 21)

  is_next-new :
      (c d : Chain) (now message_type : List ℕ) (body : Json)
      → d.seq ≡ c.seq
      → d.prev ≡ c.prev
      → is_next (new_entry crypto c now message_type body) d ≡ true
  unfolding new_entry
  is_next-new c d now message_type body seq prev =
      let same = ap (same_text c.prev) prev ∙ same_text_refl c.prev in ground (arith, seq, same)

  read_entry-new :
      (c d : Chain) (now message_type : List ℕ) (body : Json) (line : List ℕ)
      → d.seq ≡ c.seq
      → d.prev ≡ c.prev
      → read_entry crypto line d (some (new_entry crypto c now message_type body))
        ≡ some (extend crypto line (new_entry crypto c now message_type body) d)
  read_entry-new c d now message_type body line seq prev =
      rw (is_next-new c d now message_type body seq prev) refl

  check_entry-eq :
      (raw : List ℕ) (e x : Entry)
      → check_entry crypto raw (some e) ≡ some x
      → check_entry crypto raw (some e) ≡ some e
  check_entry-eq raw e x h = elim (Bool-cases (is_valid crypto raw e)) [
    | inl valid ↦ rw valid refl
    | inr invalid ↦ absurd (ground (arith, invalid, h))
  ]

  -- Only the chain of the log before the call matters.
  Restart-chain :
      (log other : Log) (new : Chain) (answer : Answer crypto)
      → other.chain ≡ log.chain
      → Restart crypto other new answer
      → Restart crypto log new answer
  Restart-chain log other new answer same r = record {
    log_after = r.log_after;
    opens = r.opens;
    agrees = r.agrees;
    old_or_new =
        subst (λ old. (r.log_after.chain ≡ old) ⊎ (r.log_after.chain ≡ new)) same r.old_or_new;
    kept = subst (λ old. IsKept answer.0 answer.1.0.chain r.log_after.chain old new) same r.kept;
    alive = r.alive;
  }

  leb_fits : (m n : ℕ) → m ≤ n → leb m n ≡ true
  leb_fits m n h = ground (arith, h)

  module _ (now message_type : List ℕ) (body : Json) (log : Log)
      (readable : IsReadable now message_type body log) where
    abbrev this_entry : Entry
    this_entry = new_entry crypto log.chain now message_type body

    -- A line that `ValidateRaw` accepts is the next line of the chain.
    valid-Follows :
        (checked : Entry)
        → validate_raw crypto (line_of this_entry) ≡ some checked
        → Follows crypto (line_of this_entry) this_entry log
    unfolding read_line
    valid-Follows checked h c seq prev =
        let line = line_of this_entry in
        let checks = validate_raw-line_of crypto this_entry readable.0 in
        let valid = checks ∙ check_entry-eq line this_entry checked (sym checks ∙ h) in
        rw (leb_fits (utf8_length line + 1) (2 ^ 21) readable.1) (
          ap (read_entry crypto line c) valid
          ∙ read_entry-new log.chain c now message_type body line seq prev)

    write_valid-Restart :
        (outcome : Outcome) (files : List AuditFile) (o : Option Entry)
        → validate_raw crypto (line_of this_entry) ≡ o
        → Agrees crypto log files
        → Restart crypto log
            (next_chain now message_type body log)
            (write_valid crypto outcome (line_of this_entry) this_entry o log files)
    write_valid-Restart outcome files none h agrees = refused-Restart crypto log _ files agrees
    write_valid-Restart outcome files (some checked) h agrees =
        let line = line_of this_entry in
        let moved = rotated-Agrees crypto (utf8_length line) log files agrees in
        Restart-chain log (rotated (utf8_length line) log) _ _ moved.1 (
          write_entry-Restart crypto line this_entry outcome (rotated (utf8_length line) log) files
            moved.0
            (λ c seq prev.
              valid-Follows checked h c (seq ∙ ap (λ x. x.seq) moved.1)
                (prev ∙ ap (λ x. x.prev) moved.1)))

  -- For a call of `Append` whose entry is one that `Open` can read (its texts are of code points, the
  -- numbers of its body are integers, its sequence number is below 2^63, and its line fits in 2 MiB), on a
  -- log that agrees with its files, and whatever becomes of the write: opening the files afterwards
  -- succeeds with a log that agrees with them and holds the old chain or the one with the entry; an
  -- entry that was returned is in it, and a refusal leaves the chain in memory alone.
  pub append-Restart :
      (outcome : Outcome) (now message_type : List ℕ) (body : Json) (log : Log)
      (files : List AuditFile)
      → IsReadable now message_type body log
      → Agrees crypto log files
      → Restart crypto log
          (next_chain now message_type body log)
          (append crypto outcome now message_type body log files)
  unfolding append
  append-Restart outcome now message_type body log files readable agrees =
      let e = new_entry crypto log.chain now message_type body in
      let Outcome_Restart = Restart crypto log (next_chain now message_type body log) in
      let refused =
        refused-Restart crypto log (next_chain now message_type body log) files agrees in
      if_both Outcome_Restart log.failed refused (
        if_both Outcome_Restart (not (allowed message_type)) refused (
          if_both Outcome_Restart
            (same_text message_type scan_report && not (crypto.scan_report_ok body)) refused
            (if_both Outcome_Restart (is_oversized crypto e (line_of e)) refused (
              write_valid-Restart now message_type body log readable outcome files
                (validate_raw crypto (line_of e)) refl agrees))))

-- ===== src/Audit/Success.antt =====
-- `Append` of internal/audit/audit.go on a log that works.
use aim_data_gateway.Prelude.{
  ℕ, suc, ◌<◌, ◌≡◌, refl, ◌∙◌, true, false, some, List, [], ◌∷◌, length, arith, lt→ltb,
}
use aim_data_gateway.Json.{Json}
use aim_data_gateway.Json.Canonical.{same_text}
use aim_data_gateway.Audit.{Entry, Log, AuditFile, Crypto}
use aim_data_gateway.Audit.Lines.{
  canonical_text, unsigned_json, line_of, is_valid, check_entry, validate_raw, scan_report,
}
use aim_data_gateway.Audit.Append.{
  new_entry, unsigned_entry, write_entry, write_valid, append, allowed, is_one_of, is_oversized,
  stored,
}
use aim_data_gateway.Audit.Validation.{validate_raw-line_of}
use aim_data_gateway.Audit.History.{IsReadable}

module _ (crypto : Crypto) (now message_type : List ℕ) (body : Json) (log : Log) where
  abbrev this_entry : Entry
  this_entry = new_entry crypto log.chain now message_type body

  -- The entry of a call passes the checks of `ValidateRaw`.
  valid_entry :
      ((text : List ℕ) → crypto.verify text (crypto.sign text) ≡ true)
      → 0 < length message_type
      → same_text message_type scan_report ≡ false
      → is_valid crypto (line_of this_entry) this_entry ≡ true
  unfolding is_valid new_entry unsigned_json
  valid_entry sound typed plain =
      let signed =
        sound (
          canonical_text (unsigned_json (unsigned_entry crypto log.chain now message_type body))) in
      rw
        (
          lt→ltb 0 (suc log.chain.seq) (omega arith),
          lt→ltb 0 (length message_type) typed,
          plain,
          signed,
        )
        refl

  not_oversized :
      same_text message_type scan_report ≡ false
      → is_oversized crypto this_entry (line_of this_entry) ≡ false
  unfolding new_entry
  not_oversized plain = rw plain refl

allowed_typed : (s : List ℕ) → allowed s ≡ true → 0 < length s
unfolding allowed is_one_of same_text
allowed_typed [] h = cc
allowed_typed (c ∷ s) h = omega arith

-- If the signatures that are made verify: a call with a type that is allowed, other than a scan report,
-- whose entry `Open` will read, on a log that has not failed, returns that entry when the write is stored.
pub append-stores :
    (crypto : Crypto) (now message_type : List ℕ) (body : Json) (log : Log) (files : List AuditFile)
    → ((text : List ℕ) → crypto.verify text (crypto.sign text) ≡ true)
    → IsReadable crypto now message_type body log
    → allowed message_type ≡ true
    → same_text message_type scan_report ≡ false
    → log.failed ≡ false
    → (append crypto stored now message_type body log files).0
      ≡ some (new_entry crypto log.chain now message_type body)
unfolding append
append-stores crypto now message_type body log files sound readable allows plain ready =
    let e = new_entry crypto log.chain now message_type body in
    let valid =
      valid_entry crypto now message_type body log sound (allowed_typed message_type allows)
        plain in
    let checked : validate_raw crypto (line_of e) ≡ some e =
      validate_raw-line_of crypto e readable.0 ∙ checks e (line_of e) valid in
    rw (ready, allows, plain, not_oversized crypto now message_type body log plain, checked)
      (written e (line_of e) _ files)
  where
    checks :
        (e : Entry) (raw : List ℕ)
        → is_valid crypto raw e ≡ true
        → check_entry crypto raw (some e) ≡ some e
    checks e raw h = rw h refl

    written :
        (e : Entry) (line : List ℕ) (log : Log) (files : List AuditFile)
        → (write_valid crypto stored line e (some e) log files).0 ≡ some e
    written e line log files = unfold write_entry in refl

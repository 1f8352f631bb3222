-- ===== src/Tests/Audits.antt =====
-- A write of the audit log that fails half way.
use aim_data_gateway.Prelude.{ℕ, ◌≡◌, refl, true, false, some, List, [], ◌∷◌, arith, leb→le}
use aim_data_gateway.Json.{Json, null, number, string, object, no_members, member, before}
use aim_data_gateway.Json.Read.{
  skip, insert_member, read_elements, read_members, read_head, read_value, read_text,
}
use aim_data_gateway.Json.Strings.{
  hex_value, read_hex, read_low, read_escape, read_char, read_chars, write_chars, write_char,
  unicode_escape, short_escape, is_escaped, hex_digit,
}
use aim_data_gateway.Json.Numbers.{is_number, scan, scan_all, is_number_char, take_number}
use aim_data_gateway.Json.Write.{write}
use aim_data_gateway.Json.Values.{IsValue}
use aim_data_gateway.Json.Decimal.{
  digits, decimal, digits_value, natural, is_int64, has_fraction, has_leading_zero, is_integer,
}
use aim_data_gateway.Json.Canonical.{same_text}
use aim_data_gateway.Audit.{Entry, AuditFile, Chain, Log, Crypto, no_chain, utf8_width, utf8_length}
use aim_data_gateway.Audit.Lines.{entry_json, unsigned_json, canonical_text, line_of}
use aim_data_gateway.Audit.Lines.{
  field, fields_count, string_field, uint64_field, entry_of, decode_raw, is_valid, validate_raw,
}
use aim_data_gateway.Audit.Open.{
  read_torn, add_rotation, read_line, read_lines, read_file, read_files, newest_index, newest_size,
  repaired, open_log,
}
use aim_data_gateway.Audit.Append.{
  allowed, is_one_of, stored, new_entry, append, write_failed, sync_failed,
}
use aim_data_gateway.Audit.Chains.{IsCurrent, Agrees}
use aim_data_gateway.Audit.Durability.{Restart}
use aim_data_gateway.Audit.History.{new_line, IsReadable, next_chain, append-Restart}
use aim_data_gateway.Audit.Evidence.{all_lines, all_lines_inj}
use aim_data_gateway.Audit.Success.{append-stores}
use aim_data_gateway.Audit.Walk.{walk, numbers, walk-numbers}
use aim_data_gateway.Gateway.Runs.{down}
use aim_data_gateway.Audit.Reach.{opens, appends, IsRecoverable, Reaches-IsRecoverable}

-- A signature that is one letter, and a hash that is the line.
abbrev letter_crypto : Crypto
letter_crypto = record {
  hash = λ line. line;
  sign = λ text. 97 ∷ [];
  verify = λ text sig. same_text sig (97 ∷ []);
  scan_report_ok = λ body. true;
}

abbrev first_log : Log
first_log = record {
  chain = no_chain;
  index = 0;
  size = 0;
  cursor = record { seq = 0; path = 0; offset = 0 };
  failed = false;
}

first_log-Agrees : Agrees letter_crypto first_log []
unfolding Agrees IsCurrent read_files
first_log-Agrees = (refl, refl)

-- {"seq":1}
abbrev a_body : Json
a_body = object (member (115 ∷ 101 ∷ 113 ∷ []) (number (49 ∷ [])) no_members)

abbrev receipt_type : List ℕ
receipt_type = 114 ∷ 101 ∷ 99 ∷ 101 ∷ 105 ∷ 112 ∷ 116 ∷ []

a_body-IsValue : IsValue is_integer a_body
unfolding IsValue is_number scan scan_all is_integer has_fraction has_leading_zero is_int64 natural
    digits_value
a_body-IsValue = (((refl, (refl, (refl, tt))), tt), ((refl, refl), tt))

a_call-IsReadable : IsReadable letter_crypto (48 ∷ []) receipt_type a_body first_log
unfolding new_entry line_of canonical_text entry_json write write_chars write_char unicode_escape
    short_escape is_escaped hex_digit decimal digits utf8_width utf8_length
a_call-IsReadable = (
  record {
    positive = omega arith;
    bounded = omega arith;
    is_body = a_body-IsValue;
    time_scalars = (refl, tt);
    type_scalars = (refl, (refl, (refl, (refl, (refl, (refl, (refl, tt)))))));
    prev_scalars = tt;
    sig_scalars = (refl, tt);
  },
  leb→le _ _ refl,
)

append-Restart_example :
    Restart letter_crypto first_log
      (next_chain letter_crypto (48 ∷ []) receipt_type a_body first_log)
      (append letter_crypto (write_failed 5) (48 ∷ []) receipt_type a_body first_log [])
append-Restart_example =
    append-Restart letter_crypto (write_failed 5) (48 ∷ []) receipt_type a_body first_log []
      a_call-IsReadable first_log-Agrees

first_log-opens : open_log letter_crypto [] ≡ some (first_log, [])
unfolding open_log read_files newest_index newest_size repaired
first_log-opens = refl

Reaches-IsRecoverable_example :
    IsRecoverable letter_crypto
      (append letter_crypto sync_failed (48 ∷ []) receipt_type a_body first_log []).1.0
      (append letter_crypto sync_failed (48 ∷ []) receipt_type a_body first_log []).1.1
Reaches-IsRecoverable_example =
    Reaches-IsRecoverable letter_crypto
      (append letter_crypto sync_failed (48 ∷ []) receipt_type a_body first_log []).1.0
      (append letter_crypto sync_failed (48 ∷ []) receipt_type a_body first_log []).1.1
      (appends sync_failed (48 ∷ []) receipt_type a_body a_call-IsReadable (opens first_log-opens))

-- The line of a first entry whose previous hash is null, not the empty string.
abbrev null_line : List ℕ
null_line = canonical_text (
    object (
      member (98 ∷ 111 ∷ 100 ∷ 121 ∷ []) a_body (
        member (109 ∷ 101 ∷ 115 ∷ 115 ∷ 97 ∷ 103 ∷ 101 ∷ 95 ∷ 116 ∷ 121 ∷ 112 ∷ 101 ∷ [])
          (string receipt_type)
          (member (112 ∷ 114 ∷ 101 ∷ 118 ∷ 95 ∷ 104 ∷ 97 ∷ 115 ∷ 104 ∷ []) null (
            member (115 ∷ 101 ∷ 113 ∷ []) (number (49 ∷ [])) (
              member (115 ∷ 105 ∷ 103 ∷ []) (string (97 ∷ []))
                (member (116 ∷ 105 ∷ 109 ∷ 101 ∷ []) (string (48 ∷ [])) no_members)))))))

-- It validates as the entry whose own line is another.
null_run :
    validate_raw letter_crypto null_line
    ≡ some (new_entry letter_crypto no_chain (48 ∷ []) receipt_type a_body)
unfolding validate_raw decode_raw canonical_text write write_chars write_char unicode_escape
    short_escape is_escaped hex_digit read_text read_value read_head read_elements read_members skip
    insert_member before read_chars read_char read_escape read_low read_hex hex_value take_number
    is_number scan scan_all is_number_char is_integer has_fraction has_leading_zero is_int64 natural
    digits_value entry_of field fields_count string_field uint64_field same_text is_valid
    unsigned_json decimal digits new_entry utf8_length utf8_width
null_run = refl

null_line-differs :
    same_text null_line (line_of (new_entry letter_crypto no_chain (48 ∷ []) receipt_type a_body))
    ≡ false
unfolding canonical_text write write_chars write_char unicode_escape short_escape is_escaped
    hex_digit line_of entry_json decimal digits new_entry same_text
null_line-differs = refl

abbrev a_line : List ℕ
a_line = new_line letter_crypto (48 ∷ []) receipt_type a_body first_log

abbrev one_file : ℕ → List AuditFile
one_file index = record { index = index; lines = a_line ∷ []; torn = [] } ∷ []

abbrev one_chain : ℕ → Chain
one_chain index = record {
  seq = 1;
  prev = a_line;
  last = new_entry letter_crypto no_chain (48 ∷ []) receipt_type a_body;
  rotations = record { first = 1; path = index } ∷ [];
}

one_file-reads :
    (index : ℕ) → read_files letter_crypto false (one_file index) ≡ some (one_chain index)
unfolding read_files read_file read_lines read_line read_torn add_rotation line_of entry_json
    validate_raw decode_raw canonical_text write write_chars write_char unicode_escape short_escape
    is_escaped hex_digit read_text read_value read_head read_elements read_members skip
    insert_member before read_chars read_char read_escape read_low read_hex hex_value take_number
    is_number scan scan_all is_number_char is_integer has_fraction has_leading_zero is_int64 natural
    digits_value entry_of field fields_count string_field uint64_field same_text is_valid
    unsigned_json decimal digits new_entry utf8_length utf8_width
one_file-reads index = refl

all_lines_inj_example : all_lines (one_file 0) ≡ all_lines (one_file 5)
all_lines_inj_example =
    all_lines_inj letter_crypto (λ s t h. h) (one_file 0) (one_file 5) (one_chain 0) (one_chain 5)
      (one_file-reads 0) (one_file-reads 5) refl refl

append-stores_example :
    (append letter_crypto stored (48 ∷ []) receipt_type a_body first_log []).0
    ≡ some (new_entry letter_crypto no_chain (48 ∷ []) receipt_type a_body)
unfolding allowed is_one_of same_text
append-stores_example =
    append-stores letter_crypto (48 ∷ []) receipt_type a_body first_log [] (λ text. refl)
      a_call-IsReadable refl refl refl

walk-numbers_example :
    (es : List Entry) × (walk (validate_raw letter_crypto) (one_file 5) ≡ some es)
    × (numbers es ≡ down (one_chain 5).seq)
walk-numbers_example =
    walk-numbers letter_crypto (validate_raw letter_crypto) (λ line e h. h) (one_file 5)
      (one_chain 5) (one_file-reads 5)

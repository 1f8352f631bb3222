-- ===== src/Audit/Lines.antt =====
-- Entries of the audit log and their lines: `ValidateRaw`, and how `Append` makes an entry.
use aim_data_gateway.Prelude.{
  ℕ, suc, ◌^◌, Bool, not, ◌&&◌, ◌||◌, Option, none, some, List, [], ◌∷◌, length, ltb, leb, ◌==◌,
  if◌then◌else◌,
}
use aim_data_gateway.Json.{Json, Members, null, number, string, object, no_members, member}
use aim_data_gateway.Json.Strings.{Style}
use aim_data_gateway.Json.Write.{write}
use aim_data_gateway.Json.Read.{read_text}
use aim_data_gateway.Json.Decimal.{decimal, natural, is_integer}
use aim_data_gateway.Json.Canonical.{same_text}
use aim_data_gateway.Audit.{Entry, Crypto, utf8_length}

abbrev pub key_body : List ℕ
key_body = 98 ∷ 111 ∷ 100 ∷ 121 ∷ []

abbrev pub key_message_type : List ℕ
key_message_type = 109 ∷ 101 ∷ 115 ∷ 115 ∷ 97 ∷ 103 ∷ 101 ∷ 95 ∷ 116 ∷ 121 ∷ 112 ∷ 101 ∷ []

abbrev pub key_prev_hash : List ℕ
key_prev_hash = 112 ∷ 114 ∷ 101 ∷ 118 ∷ 95 ∷ 104 ∷ 97 ∷ 115 ∷ 104 ∷ []

abbrev pub key_seq : List ℕ
key_seq = 115 ∷ 101 ∷ 113 ∷ []

abbrev pub key_sig : List ℕ
key_sig = 115 ∷ 105 ∷ 103 ∷ []

abbrev pub key_time : List ℕ
key_time = 116 ∷ 105 ∷ 109 ∷ 101 ∷ []

abbrev pub scan_report : List ℕ
scan_report = 115 ∷ 99 ∷ 97 ∷ 110 ∷ 95 ∷ 114 ∷ 101 ∷ 112 ∷ 111 ∷ 114 ∷ 116 ∷ []

-- `Entry` and `unsigned` as values, their keys sorted.
unfoldable pub entry_json : Entry → Json
entry_json e = object (
    member key_body e.body (
      member key_message_type (string e.message_type) (
        member key_prev_hash (string e.prev_hash) (
          member key_seq (number (decimal e.seq))
            (member key_sig (string e.sig) (member key_time (string e.time) no_members))))))

unfoldable pub unsigned_json : Entry → Json
unsigned_json e = object (
    member key_body e.body (
      member key_message_type (string e.message_type) (
        member key_prev_hash (string e.prev_hash)
          (member key_seq (number (decimal e.seq)) (member key_time (string e.time) no_members)))))

-- `wire.Canonical`
unfoldable pub canonical_text : Json → List ℕ
canonical_text v = write Style.go v []

unfoldable pub line_of : Entry → List ℕ
line_of e = canonical_text (entry_json e)

unfoldable pub field : List ℕ → Members → Option Json
field k no_members = none
field k (member j v ms) = let rest = field k ms in if same_text k j then some v else rest

unfoldable pub fields_count : Members → ℕ
fields_count no_members = 0
fields_count (member k v ms) = suc (fields_count ms)

-- json.Unmarshal into a string and into a uint64: null leaves the zero value.
unfoldable pub string_field : Option Json → Option (List ℕ)
string_field (some (string s)) = some s
string_field (some null) = some []
string_field _ = none

abbrev pub below_2_64 : Option ℕ → Option ℕ
below_2_64 none = none
below_2_64 (some n) = if ltb n (2 ^ 64) then some n else none

unfoldable pub uint64_field : Option Json → Option ℕ
uint64_field (some (number n)) = below_2_64 (natural n)
uint64_field (some null) = some 0
uint64_field _ = none

abbrev pub entry_from :
    Option Json
    → Option (List ℕ)
    → Option (List ℕ)
    → Option ℕ
    → Option (List ℕ)
    → Option (List ℕ)
    → Option Entry
entry_from (some b) (some m) (some p) (some n) (some g) (some t) =
    some (record { seq = n; time = t; message_type = m; body = b; prev_hash = p; sig = g })
entry_from _ _ _ _ _ _ = none

-- Six fields, none of them missing; then json.Unmarshal.
unfoldable pub entry_of : Json → Option Entry
entry_of (object ms) =
    let entry =
      entry_from (field key_body ms) (string_field (field key_message_type ms))
        (string_field (field key_prev_hash ms)) (uint64_field (field key_seq ms))
        (string_field (field key_sig ms)) (string_field (field key_time ms)) in
    if fields_count ms == 6 then entry else none
entry_of _ = none

-- The part of `value` that decodes a text of the log.
unfoldable pub decode_raw : List ℕ → Option Json
decode_raw raw = read_text is_integer (suc (length raw)) raw

module _ (crypto : Crypto) where
  abbrev pub is_scan_report : Entry → Bool
  is_scan_report e = same_text e.message_type scan_report

  -- What `ValidateRaw` asks of the decoded entry.
  unfoldable pub is_valid : List ℕ → Entry → Bool
  is_valid raw e =
      ltb 0 e.seq
      && ltb 0 (length e.message_type)
      && (not (is_scan_report e)
          || (leb (utf8_length raw) (2 ^ 20) && crypto.scan_report_ok e.body))
      && crypto.verify (canonical_text (unsigned_json e)) e.sig

  abbrev pub check_entry : List ℕ → Option Entry → Option Entry
  check_entry raw none = none
  check_entry raw (some e) = if is_valid raw e then some e else none

  abbrev pub check_value : List ℕ → Option Json → Option Entry
  check_value raw none = none
  check_value raw (some v) =
      let entry = check_entry raw (entry_of v) in
      if same_text (canonical_text v) raw then entry else none

  -- `ValidateRaw`
  unfoldable pub validate_raw : List ℕ → Option Entry
  validate_raw raw = check_value raw (decode_raw raw)

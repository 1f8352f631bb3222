-- ===== src/Audit/Validation.antt =====
-- The lines that `Append` makes, as `ValidateRaw` and `Open` of internal/audit/audit.go read them.
use aim_data_gateway.Prelude.{
  ℕ, suc, ◌^◌, ◌<◌, ◌≡◌, refl, sym, ap, ◌∙◌, Bool, true, not, ◌&&◌, some, List, [], ◌∷◌, All,
  length, arith, lt→ltb, inl, inr, Bool-cases,
}
use aim_data_gateway.Json.{Json, before}
use aim_data_gateway.Json.Strings.{Style, IsScalar, is_surrogate}
use aim_data_gateway.Json.Write.{write}
use aim_data_gateway.Json.Values.{IsValue}
use aim_data_gateway.Json.Texts.{read_text-write, levels-length-write}
use aim_data_gateway.Json.Decimal.{
  is_integer, natural-decimal, decimal-is_number, decimal-is_integer,
}
use aim_data_gateway.Json.Canonical.{same_text, same_text_refl}
use aim_data_gateway.Audit.{Entry, Crypto}
use aim_data_gateway.Audit.Lines.{
  key_body, key_message_type, key_prev_hash, key_seq, key_sig, key_time, entry_json, canonical_text,
  line_of, field, fields_count, string_field, uint64_field, entry_of, decode_raw, check_entry,
  check_value, validate_raw,
}

-- An entry with texts of code points, a body of integers, and a sequence number below 2^63.
pub record IsEntry (e : Entry) : Type 0 where
  pub positive : 0 < e.seq
  pub bounded : e.seq < 2 ^ 63
  pub is_body : IsValue is_integer e.body
  pub time_scalars : All IsScalar e.time
  pub type_scalars : All IsScalar e.message_type
  pub prev_scalars : All IsScalar e.prev_hash
  pub sig_scalars : All IsScalar e.sig

-- A text of code points, by a test.
abbrev are_scalars : List ℕ → Bool
are_scalars [] = true
are_scalars (c ∷ s) = not (is_surrogate c) && are_scalars s

scalars : (s : List ℕ) → are_scalars s ≡ true → All IsScalar s
scalars [] h = tt
scalars (c ∷ s) h = elim (Bool-cases (is_surrogate c)) [
  | inl e ↦ absurd (ground (arith, e, h))
  | inr e ↦ (e, scalars s (sym (rw e) ∙ h))
]

pub entry_json-IsValue : (e : Entry) → IsEntry e → IsValue is_integer (entry_json e)
unfolding IsValue entry_json before
entry_json-IsValue e is = (
  (scalars key_body refl, refl),
  (
    is.is_body,
    (
      (scalars key_message_type refl, refl),
      (
        is.type_scalars,
        (
          (scalars key_prev_hash refl, refl),
          (
            is.prev_scalars,
            (
              (scalars key_seq refl, refl),
              (
                (
                  decimal-is_number e.seq is.positive,
                  decimal-is_integer e.seq is.positive is.bounded,
                ),
                (
                  (scalars key_sig refl, refl),
                  (is.sig_scalars, ((scalars key_time refl, tt), (is.time_scalars, tt))),
                ),
              ),
            ),
          ),
        ),
      ),
    ),
  ),
)

entry_of-entry_json : (e : Entry) → IsEntry e → entry_of (entry_json e) ≡ some e
unfolding entry_of entry_json fields_count field same_text string_field uint64_field
entry_of-entry_json e is =
    rw (natural-decimal e.seq is.positive, lt→ltb e.seq (2 ^ 64) (omega (arith, is.bounded))) refl

-- The line of an entry decodes to its value.
decode_raw-line_of : (e : Entry) → IsEntry e → decode_raw (line_of e) ≡ some (entry_json e)
unfolding decode_raw line_of canonical_text
decode_raw-line_of e is =
    read_text-write is_integer Style.go (entry_json e)
      (suc (length (write Style.go (entry_json e) []))) (entry_json-IsValue e is)
      (omega
        (arith, levels-length-write is_integer Style.go (entry_json e) (entry_json-IsValue e is)))

module _ (crypto : Crypto) where
  -- Of the line of an entry, `ValidateRaw` asks what it asks of the entry.
  pub validate_raw-line_of :
      (e : Entry)
      → IsEntry e
      → validate_raw crypto (line_of e) ≡ check_entry crypto (line_of e) (some e)
  unfolding validate_raw
  validate_raw-line_of e is =
      ap (check_value crypto (line_of e)) (decode_raw-line_of e is)
      ∙ same_line (line_of e) (entry_json e) (unfold line_of in refl)
      ∙ ap (check_entry crypto (line_of e)) (entry_of-entry_json e is)
    where
      same_line :
          (raw : List ℕ) (v : Json)
          → canonical_text v ≡ raw
          → check_value crypto raw (some v) ≡ check_entry crypto raw (entry_of v)
      same_line raw v h = rw (h, same_text_refl raw) refl

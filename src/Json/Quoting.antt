-- ===== src/Json/Quoting.antt =====
-- Strings of JSON, written by json.Marshal or `pythonString` (verification/canonical.go), and read again.
use mathlib.Core.List.{append_assoc}
use aim_data_gateway.Prelude.{
  ℕ, zero, suc, ◌+◌, ◌*◌, ◌/◌, ◌%◌, ◌<◌, ◌≡◌, refl, ap, ◌∙◌, true, false, some, List, [], ◌∷◌, ◌++◌,
  All, length, arith, ltb, ◌==◌, inl, inr, Bool-cases,
}
use aim_data_gateway.Json.Strings.{
  Style, go, python, hex_digit, unicode_escape, short_escape, is_escaped, write_char, write_chars,
  hex_value, join_hex, with_rest, read_hex, read_escape, read_char, push, read_chars, IsScalar,
}

hex_value-hex_digit : (d : ℕ) → d < 16 → hex_value (hex_digit d) ≡ some d
unfolding hex_value hex_digit
hex_value-hex_digit d h = ground arith

digits_sum : (c : ℕ) → c / 4096 * 4096 + c / 256 % 16 * 256 + c / 16 % 16 * 16 + c % 16 ≡ c
digits_sum c = omega arith

read_hex-values :
    (a b c d v w x y : ℕ) (s : List ℕ)
    → hex_value a ≡ some v
    → hex_value b ≡ some w
    → hex_value c ≡ some x
    → hex_value d ≡ some y
    → read_hex (a ∷ b ∷ c ∷ d ∷ s) ≡ some (v * 4096 + w * 256 + x * 16 + y, s)
unfolding read_hex
read_hex-values a b c d v w x y s ha hb hc hd =
    ap (λ o. with_rest o s)
      (ap (λ i. join_hex i (hex_value b) (hex_value c) (hex_value d)) ha
        ∙ ap (λ i. join_hex (some v) i (hex_value c) (hex_value d)) hb
        ∙ ap (λ i. join_hex (some v) (some w) i (hex_value d)) hc
        ∙ ap (λ i. join_hex (some v) (some w) (some x) i) hd)

read_hex-digits :
    (c : ℕ) (s : List ℕ)
    → c < 65536
    → read_hex (
        hex_digit (c / 4096)
        ∷ hex_digit (c / 256 % 16)
        ∷ hex_digit (c / 16 % 16)
        ∷ hex_digit (c % 16)
        ∷ s)
      ≡ some (c, s)
read_hex-digits c s h =
    read_hex-values _ _ _ _ (c / 4096) (c / 256 % 16) (c / 16 % 16) (c % 16) s
      (hex_value-hex_digit (c / 4096) (omega arith))
      (hex_value-hex_digit (c / 256 % 16) (omega arith))
      (hex_value-hex_digit (c / 16 % 16) (omega arith)) (hex_value-hex_digit (c % 16) (omega arith))
    ∙ ap (λ n. some (n, s)) (digits_sum c)

read_char-unicode :
    (c : ℕ) (s : List ℕ) → c < 65536 → IsScalar c → read_char (unicode_escape c ++ s) ≡ some (c, s)
unfolding read_char read_escape unicode_escape
read_char-unicode c s h scalar = rw (read_hex-digits c s h, scalar)

is_escaped-small : (style : Style) (c : ℕ) → is_escaped style c ≡ true → c < 65536
unfolding is_escaped
is_escaped-small go c h = ground arith
is_escaped-small python c h = ground arith

plain_char : (style : Style) (c : ℕ) → is_escaped style c ≡ false → ltb c 32 ≡ false
unfolding is_escaped
plain_char go c h = ground arith
plain_char python c h = h

read_char-short :
    (c : ℕ) (s : List ℕ)
    → ltb 0 (short_escape c) ≡ true
    → read_char (92 ∷ short_escape c ∷ s) ≡ some (c, s)
unfolding read_char read_escape short_escape
read_char-short c s h = ground arith

not_backslash : (c : ℕ) → ltb 0 (short_escape c) ≡ false → ((c == 92) ≡ false) × ((c == 34) ≡ false)
unfolding short_escape
not_backslash c h = ground arith

read_chars-plain :
    (c : ℕ) (s : List ℕ) (fuel : ℕ)
    → (c == 34) ≡ false
    → read_char (c ∷ s) ≡ some (c, s)
    → read_chars (suc fuel) (c ∷ s) ≡ push c (read_chars fuel s)
unfolding read_chars
read_chars-plain c s fuel e h = rw (e, h, read_chars)

read_chars-backslash :
    (c : ℕ) (s t : List ℕ) (fuel : ℕ)
    → read_char (92 ∷ s) ≡ some (c, t)
    → read_chars (suc fuel) (92 ∷ s) ≡ push c (read_chars fuel t)
unfolding read_chars
read_chars-backslash c s t fuel h = rw (h, read_chars)

-- A character that is written is read first, in either style.
read_chars-write_char :
    (style : Style) (c : ℕ) (s : List ℕ) (fuel : ℕ)
    → IsScalar c
    → read_chars (suc fuel) (write_char style c ++ s) ≡ push c (read_chars fuel s)
unfolding write_char
read_chars-write_char style c s fuel scalar = elim (Bool-cases (ltb 0 (short_escape c))) [
  | inl e ↦ rw e (read_chars-backslash c _ s fuel (read_char-short c s e))
  | inr e ↦ elim (Bool-cases (is_escaped style c)) [
    | inl f ↦
        rw (e, f)
          (unfold unicode_escape in
            read_chars-backslash c _ s fuel
              (read_char-unicode c s (is_escaped-small style c f) scalar))
    | inr f ↦
        rw (e, f)
          (read_chars-plain c s fuel (not_backslash c e).1
            (unfold read_char in rw ((not_backslash c e).0, plain_char style c f)))
  ]
]

-- A string that is written reads back, whatever follows its closing quote.
pub read_chars-write_chars :
    (style : Style) (s rest : List ℕ) (fuel : ℕ)
    → All IsScalar s
    → length s < fuel
    → read_chars fuel (write_chars style s ++ (34 ∷ rest)) ≡ some (s, rest)
unfolding write_chars
read_chars-write_chars style s rest zero scalars le = absurd (omega arith)
read_chars-write_chars style [] rest (suc fuel) scalars le = unfold read_chars in refl
read_chars-write_chars style (c ∷ s) rest (suc fuel) scalars le = rw append_assoc (
    read_chars-write_char style c (write_chars style s ++ (34 ∷ rest)) fuel scalars.0
    ∙ ap (push c) (read_chars-write_chars style s rest fuel scalars.1 (omega arith)))

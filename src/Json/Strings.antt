-- ===== src/Json/Strings.antt =====
-- Strings of JSON: how json.Marshal and `pythonString` (verification/canonical.go) write them, and how
-- encoding/json reads them.
use aim_data_gateway.Prelude.{
  ℕ, zero, suc, ◌+◌, ◌-◌, ◌*◌, ◌/◌, ◌%◌, ◌≡◌, Bool, false, ◌&&◌, ◌||◌, Option, none, some, List, [],
  ◌∷◌, ◌++◌, ltb, leb, ◌==◌, if◌then◌else◌,
}

-- The writer of encoding/json, or that of Python's json with compact separators.
pub data Style : Type 0 where
  go python : Style

unfoldable pub hex_digit : ℕ → ℕ
hex_digit d = if ltb d 10 then 48 + d else 87 + d

unfoldable pub unicode_escape : ℕ → List ℕ
unicode_escape c =
    92
    ∷ 117
    ∷ hex_digit (c / 4096)
    ∷ hex_digit (c / 256 % 16)
    ∷ hex_digit (c / 16 % 16)
    ∷ hex_digit (c % 16)
    ∷ []

-- The escapes of one letter; 0 stands for none.
unfoldable pub short_escape : ℕ → ℕ
short_escape c =
    if c == 34
    then 34
    else if c == 92
    then 92
    else if c == 8
    then 98
    else if c == 9
    then 116
    else if c == 10
    then 110
    else if c == 12
    then 102
    else if c == 13
    then 114
    else 0

-- json.Marshal also escapes <, >, & and the separators U+2028 and U+2029.
unfoldable pub is_escaped : Style → ℕ → Bool
is_escaped python c = ltb c 32
is_escaped go c = ltb c 32 || c == 38 || c == 60 || c == 62 || c == 8232 || c == 8233

unfoldable pub write_char : Style → ℕ → List ℕ
write_char style c =
    if ltb 0 (short_escape c)
    then 92 ∷ short_escape c ∷ []
    else if is_escaped style c
    then unicode_escape c
    else c ∷ []

unfoldable pub write_chars : Style → List ℕ → List ℕ
write_chars style [] = []
write_chars style (c ∷ s) = write_char style c ++ write_chars style s

-- Values of four hexadecimal digits.
unfoldable pub hex_value : ℕ → Option ℕ
hex_value c =
    if leb 48 c && leb c 57
    then some (c - 48)
    else if leb 97 c && leb c 102
    then some (c - 87)
    else if leb 65 c && leb c 70
    then some (c - 55)
    else none

abbrev pub join_hex : Option ℕ → Option ℕ → Option ℕ → Option ℕ → Option ℕ
join_hex (some a) (some b) (some c) (some d) = some (a * 4096 + b * 256 + c * 16 + d)
join_hex _ _ _ _ = none

abbrev pub with_rest : Option ℕ → List ℕ → Option (ℕ × List ℕ)
with_rest none s = none
with_rest (some n) s = some (n, s)

-- The digits of an escape, as a value and what follows.
unfoldable pub read_hex : List ℕ → Option (ℕ × List ℕ)
read_hex (a ∷ b ∷ c ∷ d ∷ s) =
    with_rest (join_hex (hex_value a) (hex_value b) (hex_value c) (hex_value d)) s
read_hex _ = none

abbrev pub replacement : ℕ
replacement = 65533

abbrev pub is_surrogate : ℕ → Bool
is_surrogate n = leb 55296 n && ltb n 57344

abbrev pub is_pair : ℕ → ℕ → Bool
is_pair hi lo = ltb hi 56320 && leb 56320 lo && ltb lo 57344

-- The second escape of a surrogate pair, or the replacement character.
abbrev pub pair_or : ℕ → List ℕ → Option (ℕ × List ℕ) → ℕ × List ℕ
pair_or hi s none = (replacement, s)
pair_or hi s (some (lo, t)) =
    if is_pair hi lo then ((hi - 55296) * 1024 + (lo - 56320) + 65536, t) else (replacement, s)

unfoldable pub read_low : ℕ → List ℕ → ℕ × List ℕ
read_low hi (a ∷ b ∷ s) =
    if a == 92 && b == 117 then pair_or hi (a ∷ b ∷ s) (read_hex s) else (replacement, a ∷ b ∷ s)
read_low hi s = (replacement, s)

abbrev pub joined : Option (ℕ × List ℕ) → Option (ℕ × List ℕ)
joined none = none
joined (some (n, s)) = if is_surrogate n then some (read_low n s) else some (n, s)

-- What follows a backslash.
unfoldable pub read_escape : List ℕ → Option (ℕ × List ℕ)
read_escape [] = none
read_escape (e ∷ s) =
    if e == 34 || e == 92 || e == 47
    then some (e, s)
    else if e == 98
    then some (8, s)
    else if e == 116
    then some (9, s)
    else if e == 110
    then some (10, s)
    else if e == 102
    then some (12, s)
    else if e == 114
    then some (13, s)
    else if e == 117
    then joined (read_hex s)
    else none

unfoldable pub read_char : List ℕ → Option (ℕ × List ℕ)
read_char [] = none
read_char (c ∷ s) = if c == 92 then read_escape s else if ltb c 32 then none else some (c, s)

abbrev pub push : ℕ → Option (List ℕ × List ℕ) → Option (List ℕ × List ℕ)
push c none = none
push c (some (s, t)) = some (c ∷ s, t)

abbrev pub after_char :
    (List ℕ → Option (List ℕ × List ℕ)) → Option (ℕ × List ℕ) → Option (List ℕ × List ℕ)
after_char more none = none
after_char more (some (d, t)) = push d (more t)

-- The rest of a string, up to its closing quote; each round takes a character of the text.
unfoldable pub read_chars : ℕ → List ℕ → Option (List ℕ × List ℕ)
read_chars zero s = none
read_chars (suc fuel) [] = none
read_chars (suc fuel) (c ∷ s) =
    if c == 34 then some ([], s) else after_char (read_chars fuel) (read_char (c ∷ s))

-- A code point that is not a surrogate.
abbrev pub IsScalar : ℕ → Type 0
IsScalar c = is_surrogate c ≡ false

-- ===== src/Json/Numbers.antt =====
-- The numbers of JSON as encoding/json scans them, by their texts.
use aim_data_gateway.Prelude.{
  ℕ, ◌≡◌, refl, Bool, true, false, ◌&&◌, ◌||◌, List, [], ◌∷◌, ◌++◌, arith, leb, ◌==◌, if◌then◌else◌,
  inl, inr, Bool-cases,
}

abbrev pub is_digit : ℕ → Bool
is_digit c = leb 48 c && leb c 57

abbrev pub is_exponent : ℕ → Bool
is_exponent c = c == 69 || c == 101

-- The characters of a number: digits, signs, the point and the exponent.
unfoldable pub is_number_char : ℕ → Bool
is_number_char c = is_digit c || c == 43 || c == 45 || c == 46 || c == 69 || c == 101

-- How far a number has come: nothing, its sign, a leading 0, its integer, the point, its fraction, the
-- exponent letter, the exponent's sign, the exponent; or that it is none.
pub data Scan : Type 0 where
  nothing signed zeroed whole point fraction letter letter_signed exponent refused : Scan

abbrev after_whole : ℕ → Scan
after_whole c = if c == 46 then point else if is_exponent c then letter else refused

unfoldable pub scan : Scan → ℕ → Scan
scan nothing c =
    if c == 45 then signed else if c == 48 then zeroed else if is_digit c then whole else refused
scan signed c = if c == 48 then zeroed else if is_digit c then whole else refused
scan zeroed c = after_whole c
scan whole c = if is_digit c then whole else after_whole c
scan point c = if is_digit c then fraction else refused
scan fraction c = if is_digit c then fraction else if is_exponent c then letter else refused
scan letter c =
    if c == 43 || c == 45 then letter_signed else if is_digit c then exponent else refused
scan letter_signed c = if is_digit c then exponent else refused
scan exponent c = if is_digit c then exponent else refused
scan refused c = refused

abbrev pub is_whole : Scan → Bool
is_whole zeroed = true
is_whole whole = true
is_whole fraction = true
is_whole exponent = true
is_whole _ = false

unfoldable pub scan_all : Scan → List ℕ → Scan
scan_all state [] = state
scan_all state (c ∷ s) = scan_all (scan state c) s

unfoldable pub is_number : List ℕ → Bool
is_number s = is_whole (scan_all nothing s)

abbrev pub onto : ℕ → List ℕ × List ℕ → List ℕ × List ℕ
onto c (s, t) = (c ∷ s, t)

-- The characters of a number, and what follows them.
unfoldable pub take_number : List ℕ → List ℕ × List ℕ
take_number [] = ([], [])
take_number (c ∷ s) =
    let rest = take_number s in if is_number_char c then onto c rest else ([], c ∷ s)

-- The text does not go on with a number.
abbrev pub Stops : List ℕ → Type 0
Stops [] = Unit
Stops (c ∷ s) = is_number_char c ≡ false

pub scan_all-refused : (s : List ℕ) → is_whole (scan_all refused s) ≡ false
unfolding scan_all scan
scan_all-refused [] = refl
scan_all-refused (c ∷ s) = scan_all-refused s

scan-is_number_char : (state : Scan) (c : ℕ) → is_number_char c ≡ false → scan state c ≡ refused
unfolding scan is_number_char
scan-is_number_char nothing c h = ground arith
scan-is_number_char signed c h = ground arith
scan-is_number_char zeroed c h = ground arith
scan-is_number_char whole c h = ground arith
scan-is_number_char point c h = ground arith
scan-is_number_char fraction c h = ground arith
scan-is_number_char letter c h = ground arith
scan-is_number_char letter_signed c h = ground arith
scan-is_number_char exponent c h = ground arith
scan-is_number_char refused c h = refl

take_number-Stops : (s : List ℕ) → Stops s → take_number s ≡ ([], s)
unfolding take_number
take_number-Stops [] h = refl
take_number-Stops (c ∷ s) h = rw h

take_number-scan :
    (state : Scan) (s rest : List ℕ)
    → is_whole (scan_all state s) ≡ true
    → Stops rest
    → take_number (s ++ rest) ≡ (s, rest)
unfolding take_number scan_all
take_number-scan state [] rest h stops = take_number-Stops rest stops
take_number-scan state (c ∷ s) rest h stops = elim (Bool-cases (is_number_char c)) [
  | inl e ↦ rw (e, take_number-scan (scan state c) s rest h stops)
  | inr e ↦
      let gone = scan-is_number_char state c e in
      let none_left = scan_all-refused s in absurd (ground (arith, gone, none_left))
]

-- The text of a number is taken whole, if what follows does not go on with it.
pub take_number-is_number :
    (s rest : List ℕ) → is_number s ≡ true → Stops rest → take_number (s ++ rest) ≡ (s, rest)
unfolding is_number
take_number-is_number s rest h stops = take_number-scan nothing s rest h stops

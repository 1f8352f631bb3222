-- ===== src/Door.antt =====
-- The checks of the download door before a reservation (internal/door/door.go): the token, the range
-- and the ladder of refusals in `download`. Header values and strings are lists of bytes.
pub mod Range
pub mod Download
use aim_data_gateway.Prelude.{
  ℕ, zero, suc, ◌+◌, ◌-◌, ◌*◌, ◌^◌, min, Bool, true, false, not, ◌&&◌, ◌||◌, Option, none, some,
  List, [], ◌∷◌, ltb, leb, ◌==◌, if◌then◌else◌,
}
use aim_data_gateway.Prelude.Int.{ℤ, pos, negsuc}

-- strconv.ParseInt(s, 10, 64) of the digits of a string.
abbrev pub is_digit : ℕ → Bool
is_digit c = leb 48 c && leb c 57

unfoldable pub parse_digits : ℕ → List ℕ → Option ℕ
parse_digits n [] = some n
parse_digits n (c ∷ s) =
    let rest = parse_digits (n * 10 + (c - 48)) s in if is_digit c then rest else none

abbrev pub parse_nat : List ℕ → Option ℕ
parse_nat [] = none
parse_nat (c ∷ s) = parse_digits 0 (c ∷ s)

-- The magnitude is below 2^63, and for a negative number at most 2^63.
abbrev pub in_range : ℕ → Option ℕ → Option ℕ
in_range limit none = none
in_range limit (some n) = if ltb n limit then some n else none

abbrev pub positive_int : Option ℕ → Option ℤ
positive_int none = none
positive_int (some n) = some (pos n)

abbrev pub negative_int : Option ℕ → Option ℤ
negative_int none = none
negative_int (some zero) = some (pos 0)
negative_int (some (suc n)) = some (negsuc n)

unfoldable pub parse_int : List ℕ → Option ℤ
parse_int [] = none
parse_int (c ∷ s) =
    if c == 43
    then positive_int (in_range (2 ^ 63) (parse_nat s))
    else if c == 45
    then negative_int (in_range (2 ^ 63 + 1) (parse_nat s))
    else positive_int (in_range (2 ^ 63) (parse_nat (c ∷ s)))

-- strings.Cut(v, "-")
unfoldable pub cut_dash : List ℕ → Option (List ℕ × List ℕ)
cut_dash [] = none
cut_dash (c ∷ s) =
    let rest = cut_dash s in
    if c == 45 then some ([], s) else elim rest [ none ↦ none | some (a, b) ↦ some (c ∷ a, b) ]

unfoldable pub has_comma : List ℕ → Bool
has_comma [] = false
has_comma (c ∷ s) = (c == 44) || has_comma s

-- strings.CutPrefix, as HasPrefix with TrimPrefix.
unfoldable pub cut_prefix : List ℕ → List ℕ → Option (List ℕ)
cut_prefix s [] = some s
cut_prefix [] (c ∷ p) = none
cut_prefix (d ∷ s) (c ∷ p) = let rest = cut_prefix s p in if d == c then rest else none

-- "bytes="
abbrev pub bytes_unit : List ℕ
bytes_unit = 98 ∷ 121 ∷ 116 ∷ 101 ∷ 115 ∷ 61 ∷ []

pub record ByteRange : Type 0 where
  pub start : ℕ
  pub end : ℕ
  pub partial : Bool

-- A suffix of n bytes.
abbrev pub suffix_range : Option ℤ → ℕ → Option ByteRange
suffix_range (some (pos (suc n))) size =
    some (record { start = size - suc n; end = size - 1; partial = true })
suffix_range _ size = none

-- The end of a range, once its start is known.
abbrev pub end_range : ℕ → Option ℤ → ℕ → Option ByteRange
end_range start (some (pos end)) size =
    if ltb end start
    then none
    else some (record { start = start; end = min end (size - 1); partial = true })
end_range start _ size = none

abbrev pub open_range : ℕ → List ℕ → ℕ → Option ByteRange
open_range start [] size = some (record { start = start; end = size - 1; partial = true })
open_range start (c ∷ b) size = end_range start (parse_int (c ∷ b)) size

abbrev pub start_range : Option ℤ → List ℕ → ℕ → Option ByteRange
start_range (some (pos start)) b size = if leb size start then none else open_range start b size
start_range _ b size = none

unfoldable pub dash_range : Option (List ℕ × List ℕ) → ℕ → Option ByteRange
dash_range none size = none
dash_range (some ([], b)) size = suffix_range (parse_int b) size
dash_range (some (c ∷ a, b)) size = start_range (parse_int (c ∷ a)) b size

abbrev pub unit_range : Option (List ℕ) → ℕ → Option ByteRange
unit_range none size = none
unit_range (some v) size = if has_comma v then none else dash_range (cut_dash v) size

-- parseRange: `none` is an error.
unfoldable pub parse_range : List ℕ → ℕ → Option ByteRange
parse_range [] size =
    if size == 0 then none else some (record { start = 0; end = size - 1; partial = false })
parse_range (c ∷ s) size =
    if size == 0 then none else unit_range (cut_prefix (c ∷ s) bytes_unit) size

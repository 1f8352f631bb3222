-- ===== src/Json/RoundTrip.antt =====
-- The texts of values: `write` of internal/wire/wire.go and `encodePython` of verification/canonical.go,
-- read by `value` of internal/audit/audit.go and `jsonValue` of verification/canonical.go.
use aim_data_gateway.Prelude.{
  ℕ, zero, suc, ◌≤◌, ◌<◌, ◌≡◌, refl, ap, ◌∙◌, Bool, true, false, ◌||◌, Option, none, some, List, [],
  ◌∷◌, ◌++◌, All, length, length-append, arith, ◌==◌, inl, inr, Bool-cases,
}
use aim_data_gateway.Json.{
  Json, Elements, Members, null, boolean, number, string, array, object, no_elements, element,
  no_members, member,
}
use aim_data_gateway.Json.Strings.{
  Style, IsScalar, unicode_escape, write_char, write_chars, read_chars,
}
use aim_data_gateway.Json.Quoting.{read_chars-write_chars}
use aim_data_gateway.Json.Numbers.{
  is_number, is_digit, is_whole, scan, scan_all, nothing, is_number_char, Stops,
  take_number-is_number, scan_all-refused,
}
use aim_data_gateway.Json.Write.{write, write_elements, write_members, write_string, comma}
use aim_data_gateway.Json.Read.{
  Reading, array_round, then_element, then_member, skip, expect, quoted, listed, mapped,
  then_elements, then_members, inserted, insert_member, separated, read_key, key_value,
  read_elements, read_members, numeral, read_head, read_value,
}
use aim_data_gateway.Json.Values.{
  IsBefore, IsValue, AreValues, AreMembers, levels, levels_elements, levels_members, need,
  need_elements, need_members, need_pos, levels_pos,
}

-- The characters that values begin with.
abbrev is_start : ℕ → Bool
is_start c =
    c == 34 || c == 91 || c == 123 || c == 110 || c == 116 || c == 102 || c == 45 || is_digit c

abbrev Starts : List ℕ → Type 0
Starts [] = ⊥
Starts (c ∷ s) = is_start c ≡ true

skip-Starts : (s : List ℕ) → Starts s → skip s ≡ s
unfolding skip
skip-Starts [] h = absurd h
skip-Starts (c ∷ s) h = ground arith

abbrev starts_number : ℕ → Bool
starts_number c = c == 45 || is_digit c

refused_number :
    (c : ℕ) (s : List ℕ) → starts_number c ≡ false → is_whole (scan_all (scan nothing c) s) ≡ false
unfolding scan
refused_number c s e = let none_left = scan_all-refused s in ground (arith, none_left)

-- A number begins with a digit or its sign.
number-start : (c : ℕ) (s : List ℕ) → is_number (c ∷ s) ≡ true → starts_number c ≡ true
unfolding is_number scan_all
number-start c s h = elim (Bool-cases (starts_number c)) [
  | inl e ↦ e
  | inr e ↦ let gone = refused_number c s e in absurd (ground (arith, gone))
]

number-Starts : (n rest : List ℕ) → is_number n ≡ true → Starts (n ++ rest)
number-Starts [] rest h = unfold is_number scan_all in cc
number-Starts (c ∷ s) rest h = let start = number-start c s h in ground (arith, start)

-- What a value is written as begins with a character of its own.
write-Starts :
    (ok_number : List ℕ → Bool) (style : Style) (v : Json) (rest : List ℕ)
    → IsValue ok_number v
    → Starts (write style v rest)
unfolding write IsValue
write-Starts ok_number style null rest h = refl
write-Starts ok_number style (boolean true) rest h = refl
write-Starts ok_number style (boolean false) rest h = refl
write-Starts ok_number style (number n) rest h = number-Starts n rest h.0
write-Starts ok_number style (string s) rest h = refl
write-Starts ok_number style (array xs) rest h = refl
write-Starts ok_number style (object ms) rest h = refl

numeral-number :
    (ok_number : List ℕ → Bool) (n rest : List ℕ)
    → is_number n ≡ true
    → ok_number n ≡ true
    → numeral ok_number (n, rest) ≡ some (number n, rest)
numeral-number ok_number n rest h ok = rw (h, ok) refl

-- A number is read by the numbers' case, up to where it stops.
read_head-number :
    (ok_number : List ℕ → Bool) (elements : Bool → List ℕ → Option (Elements × List ℕ))
    (members : Bool → List ℕ → Option (Members × List ℕ)) (n rest : List ℕ)
    → is_number n ≡ true
    → ok_number n ≡ true
    → Stops rest
    → read_head ok_number elements members (n ++ rest) ≡ some (number n, rest)
unfolding read_head
read_head-number ok_number elements members [] rest h ok stops = unfold is_number scan_all in cc
read_head-number ok_number elements members (c ∷ n) rest h ok stops =
    let start = number-start c n h in
    let answer =
      ap (numeral ok_number) (take_number-is_number (c ∷ n) rest h stops)
      ∙ numeral-number ok_number (c ∷ n) rest h ok in
    ground (arith, start, answer)

expect-Starts : (s : List ℕ) (x : ℕ) → Starts s → is_start x ≡ false → expect x s ≡ none
expect-Starts [] x h e = absurd h
expect-Starts (c ∷ s) x h e = ground arith

length-write_char : (style : Style) (c : ℕ) → 0 < length (write_char style c)
unfolding write_char unicode_escape
length-write_char style c = ground arith

length-write_chars : (style : Style) (s : List ℕ) → length s ≤ length (write_chars style s)
unfolding write_chars
length-write_chars style [] = omega arith
length-write_chars style (c ∷ s) = omega (
  arith,
  length-append (write_char style c) (write_chars style s),
  length-write_char style c,
  length-write_chars style s,
)

-- The fuel that a string is read with is enough.
read_chars-quoted :
    (style : Style) (s rest : List ℕ)
    → All IsScalar s
    → read_chars
        (suc (length (write_chars style s ++ (34 ∷ rest))))
        (write_chars style s ++ (34 ∷ rest))
      ≡ some (s, rest)
read_chars-quoted style s rest scalars =
    read_chars-write_chars style s rest _ scalars
      (omega (arith, length-append (write_chars style s) (34 ∷ rest), length-write_chars style s))

insert_member-before :
    (k : List ℕ) (v : Json) (ms : Members)
    → IsBefore k ms
    → insert_member k v ms ≡ some (member k v ms)
unfolding insert_member
insert_member-before k v no_members h = refl
insert_member-before k v (member j w ms) h = rw h

-- What stands behind a value in an array or object does not go on with a number.
elements_stop :
    (style : Style) (xs : Elements) (rest : List ℕ) → Stops (write_elements style false xs rest)
unfolding write is_number_char
elements_stop style no_elements rest = refl
elements_stop style (element v xs) rest = refl

members_stop :
    (style : Style) (ms : Members) (rest : List ℕ) → Stops (write_members style false ms rest)
unfolding write is_number_char
members_stop style no_members rest = refl
members_stop style (member k v ms) rest = refl

-- A first or a later element: what is in front of it is passed over.
before_element :
    (first : Bool) (s : List ℕ)
    → Starts s
    → (expect 93 (skip (comma first s)) ≡ none) × (separated first (skip (comma first s)) ≡ some s)
unfolding skip
before_element true s h =
    (ap (expect 93) (skip-Starts s h) ∙ expect-Starts s 93 h refl, ap some (skip-Starts s h))
before_element false s h = (refl, refl)

read_elements-step :
    (rounds : ℕ) (read : List ℕ → Reading) (first : Bool) (s : List ℕ)
    → Starts s
    → read_elements (suc rounds) read first (comma first s)
      ≡ then_elements (read_elements rounds read false) (read s)
unfolding read_elements
read_elements-step rounds read first s h =
    ap
      (λ o.
        array_round read (read_elements rounds read false) o
          (separated first (skip (comma first s))))
      (before_element first s h).0
    ∙ ap (array_round read (read_elements rounds read false) none) (before_element first s h).1

read_key-write :
    (style : Style) (k rest : List ℕ)
    → All IsScalar k
    → read_key (write_string style k rest) ≡ some (k, rest)
read_key-write style k rest scalars = read_chars-quoted style k rest scalars

read_members-step :
    (style : Style) (rounds : ℕ) (read : List ℕ → Reading) (first : Bool) (k s : List ℕ)
    → All IsScalar k
    → read_members (suc rounds) read first (comma first (write_string style k (58 ∷ s)))
      ≡ then_members (read_members rounds read false) k (read s)
unfolding read_members skip
read_members-step style rounds read true k s scalars =
    ap (key_value read (read_members rounds read false)) (read_key-write style k (58 ∷ s) scalars)
read_members-step style rounds read false k s scalars =
    ap (key_value read (read_members rounds read false)) (read_key-write style k (58 ∷ s) scalars)

module _ (ok_number : List ℕ → Bool) (style : Style) where
  mutual
    unfolding skip read_value read_elements read_members read_head write IsValue levels need

    pub read_value-write :
        (v : Json) (rest : List ℕ) (fuel room : ℕ)
        → IsValue ok_number v
        → need v ≤ fuel
        → levels v ≤ room
        → Stops rest
        → read_value ok_number fuel room (write style v rest) ≡ some (v, rest)
    read_value-write v rest zero room is enough deep stops = absurd (omega (arith, need_pos v))
    read_value-write v rest (suc fuel) zero is enough deep stops =
        absurd (omega (arith, levels_pos v))
    read_value-write null rest (suc fuel) (suc room) is enough deep stops = refl
    read_value-write (boolean true) rest (suc fuel) (suc room) is enough deep stops = refl
    read_value-write (boolean false) rest (suc fuel) (suc room) is enough deep stops = refl
    read_value-write (number n) rest (suc fuel) (suc room) is enough deep stops =
        ap
          (read_head ok_number (read_elements fuel (read_value ok_number fuel room))
            (read_members fuel (read_value ok_number fuel room)))
          (skip-Starts (n ++ rest) (number-Starts n rest is.0))
        ∙ read_head-number ok_number (read_elements fuel (read_value ok_number fuel room))
            (read_members fuel (read_value ok_number fuel room)) n rest is.0 is.1 stops
    read_value-write (string s) rest (suc fuel) (suc room) is enough deep stops =
        ap quoted (read_chars-quoted style s rest is)
    read_value-write (array xs) rest (suc fuel) (suc room) is enough deep stops = ap listed (
        read_elements-write true xs rest fuel fuel room is (omega arith) (omega arith)
          (omega arith))
    read_value-write (object ms) rest (suc fuel) (suc room) is enough deep stops = ap mapped (
        read_members-write true ms rest fuel fuel room is (omega arith) (omega arith) (omega arith))

    read_elements-write :
        (first : Bool) (xs : Elements) (rest : List ℕ) (rounds fuel room : ℕ)
        → AreValues ok_number xs
        → need_elements xs ≤ rounds
        → need_elements xs ≤ fuel
        → levels_elements xs ≤ room
        → read_elements rounds
            (read_value ok_number fuel room)
            first
            (write_elements style first xs rest)
          ≡ some (xs, rest)
    read_elements-write first no_elements rest zero fuel room is enough fits deep =
        absurd (omega arith)
    read_elements-write first no_elements rest (suc rounds) fuel room is enough fits deep = refl
    read_elements-write first (element v xs) rest zero fuel room is enough fits deep =
        absurd (omega (arith, need_pos v))
    read_elements-write first (element v xs) rest (suc rounds) fuel room is enough fits deep =
        read_elements-step rounds (read_value ok_number fuel room) first _
          (write-Starts ok_number style v _ is.0)
        ∙ ap (then_elements (read_elements rounds (read_value ok_number fuel room) false)) (
            read_value-write v (write_elements style false xs rest) fuel room is.0 (omega arith)
              (omega arith) (elements_stop style xs rest))
        ∙ ap (then_element v) (
            read_elements-write false xs rest rounds fuel room is.1 (omega (arith, need_pos v))
              (omega arith) (omega arith))

    read_members-write :
        (first : Bool) (ms : Members) (rest : List ℕ) (rounds fuel room : ℕ)
        → AreMembers ok_number ms
        → need_members ms ≤ rounds
        → need_members ms ≤ fuel
        → levels_members ms ≤ room
        → read_members rounds
            (read_value ok_number fuel room)
            first
            (write_members style first ms rest)
          ≡ some (ms, rest)
    read_members-write first no_members rest zero fuel room is enough fits deep =
        absurd (omega arith)
    read_members-write first no_members rest (suc rounds) fuel room is enough fits deep = refl
    read_members-write first (member k v ms) rest zero fuel room is enough fits deep =
        absurd (omega (arith, need_pos v))
    read_members-write first (member k v ms) rest (suc rounds) fuel room is enough fits deep =
        read_members-step style rounds (read_value ok_number fuel room) first k _ is.0.0
        ∙ ap (then_members (read_members rounds (read_value ok_number fuel room) false) k) (
            read_value-write v (write_members style false ms rest) fuel room is.1.0 (omega arith)
              (omega arith) (members_stop style ms rest))
        ∙ ap (then_member k v) (
            read_members-write false ms rest rounds fuel room is.1.1 (omega (arith, need_pos v))
              (omega arith) (omega arith))
        ∙ ap (λ o. inserted o rest) (insert_member-before k v ms is.0.1)

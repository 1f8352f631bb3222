-- ===== src/Json/Texts.antt =====
-- Whole texts of values, as `decodeJSON` (verification/canonical.go) and `ValidateRaw`
-- (internal/audit/audit.go) read them.
use aim_data_gateway.Prelude.{
  ℕ, suc, ◌+◌, ◌≤◌, ◌<◌, ◌≡◌, ap, Bool, true, false, some, List, [], ◌∷◌, ◌++◌, length,
  length-append, arith,
}
use aim_data_gateway.Json.{
  Json, Elements, Members, null, boolean, number, string, array, object, no_elements, element,
  no_members, member,
}
use aim_data_gateway.Json.Strings.{Style, write_chars}
use aim_data_gateway.Json.Numbers.{is_number, scan_all}
use aim_data_gateway.Json.Write.{write, write_elements, write_members, write_string, comma}
use aim_data_gateway.Json.Read.{skip, whole_text, read_text}
use aim_data_gateway.Json.Values.{
  IsValue, AreValues, AreMembers, levels, levels_elements, levels_members, need, need_elements,
  need_members,
}
use aim_data_gateway.Json.RoundTrip.{read_value-write}

length-comma : (first : Bool) (s : List ℕ) → length s ≤ length (comma first s)
length-comma true s = omega arith
length-comma false s = omega arith

length-write_string :
    (style : Style) (s rest : List ℕ) → length rest < length (write_string style s rest)
length-write_string style s rest = omega (arith, length-append (write_chars style s) (34 ∷ rest))

length-number : (n rest : List ℕ) → is_number n ≡ true → length rest < length (n ++ rest)
unfolding is_number scan_all
length-number [] rest h = cc
length-number (c ∷ n) rest h = omega (arith, length-append n rest)

-- A text is at least as long as the rounds that reading it takes.
module _ (ok_number : List ℕ → Bool) (style : Style) where
  mutual
    unfolding write IsValue need

    length-write :
        (v : Json) (rest : List ℕ)
        → IsValue ok_number v
        → need v + length rest ≤ length (write style v rest)
    length-write null rest is = omega arith
    length-write (boolean true) rest is = omega arith
    length-write (boolean false) rest is = omega arith
    length-write (number n) rest is = omega (arith, length-number n rest is.0)
    length-write (string s) rest is = omega (arith, length-write_string style s rest)
    length-write (array xs) rest is = omega (arith, length-write_elements true xs rest is)
    length-write (object ms) rest is = omega (arith, length-write_members true ms rest is)

    length-write_elements :
        (first : Bool) (xs : Elements) (rest : List ℕ)
        → AreValues ok_number xs
        → need_elements xs + length rest ≤ length (write_elements style first xs rest)
    length-write_elements first no_elements rest is = omega arith
    length-write_elements first (element v xs) rest is = omega (
      arith,
      length-comma first (write style v (write_elements style false xs rest)),
      length-write v (write_elements style false xs rest) is.0,
      length-write_elements false xs rest is.1,
    )

    length-write_members :
        (first : Bool) (ms : Members) (rest : List ℕ)
        → AreMembers ok_number ms
        → need_members ms + length rest ≤ length (write_members style first ms rest)
    length-write_members first no_members rest is = omega arith
    length-write_members first (member k v ms) rest is = omega (
      arith,
      length-comma first
          (write_string style k (58 ∷ write style v (write_members style false ms rest))),
      length-write_string style k (58 ∷ write style v (write_members style false ms rest)),
      length-write v (write_members style false ms rest) is.1.0,
      length-write_members false ms rest is.1.1,
    )

mutual
  unfolding need levels

  levels-need : (v : Json) → levels v ≤ need v
  levels-need null = omega arith
  levels-need (boolean b) = omega arith
  levels-need (number n) = omega arith
  levels-need (string s) = omega arith
  levels-need (array xs) = omega (arith, levels-need_elements xs)
  levels-need (object ms) = omega (arith, levels-need_members ms)

  levels-need_elements : (xs : Elements) → levels_elements xs ≤ need_elements xs
  levels-need_elements no_elements = omega arith
  levels-need_elements (element v xs) = omega (arith, levels-need v, levels-need_elements xs)

  levels-need_members : (ms : Members) → levels_members ms ≤ need_members ms
  levels-need_members no_members = omega arith
  levels-need_members (member k v ms) = omega (arith, levels-need v, levels-need_members ms)

-- The canonical text of a value reads back as that value, in either style, when the value's depth is
-- within the reader's room.
pub read_text-write :
    (ok_number : List ℕ → Bool) (style : Style) (v : Json) (room : ℕ)
    → IsValue ok_number v
    → levels v ≤ room
    → read_text ok_number room (write style v []) ≡ some v
unfolding read_text skip
read_text-write ok_number style v room is deep = ap (whole_text ok_number) (
    read_value-write ok_number style v [] (suc (length (write style v []))) room is
      (omega (arith, length-write ok_number style v [] is)) deep tt)

-- A value has no more levels than its text has characters.
pub levels-length-write :
    (ok_number : List ℕ → Bool) (style : Style) (v : Json)
    → IsValue ok_number v
    → levels v ≤ length (write style v [])
levels-length-write ok_number style v is =
    omega (arith, levels-need v, length-write ok_number style v [] is)

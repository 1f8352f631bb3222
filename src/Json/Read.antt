-- ===== src/Json/Read.antt =====
-- The readers over the tokens of encoding/json: `value` (internal/audit/audit.go) and `jsonValue`
-- (verification/canonical.go). Both refuse a key that occurs twice in an object.
use aim_data_gateway.Prelude.{
  ℕ, zero, suc, Bool, true, false, ◌&&◌, ◌||◌, Option, none, some, List, [], ◌∷◌, length, ◌==◌,
  if◌then◌else◌,
}
use aim_data_gateway.Json.{
  Json, Elements, Members, null, boolean, number, string, array, object, no_elements, element,
  no_members, member, before,
}
use aim_data_gateway.Json.Strings.{read_chars}
use aim_data_gateway.Json.Numbers.{is_number, take_number}

abbrev pub Reading : Type 0
Reading = Option (Json × List ℕ)

-- Space between tokens.
unfoldable pub skip : List ℕ → List ℕ
skip [] = []
skip (c ∷ s) = let rest = skip s in if c == 32 || c == 9 || c == 10 || c == 13 then rest else c ∷ s

-- The text behind a character that must come next.
abbrev pub expect : ℕ → List ℕ → Option (List ℕ)
expect x [] = none
expect x (c ∷ s) = if c == x then some s else none

abbrev pub expect_then : Option (List ℕ) → (List ℕ → Option (List ℕ)) → Option (List ℕ)
expect_then none k = none
expect_then (some s) k = k s

abbrev pub literal : Json → Option (List ℕ) → Reading
literal v none = none
literal v (some s) = some (v, s)

abbrev pub read_null : List ℕ → Reading
read_null s =
    literal null (expect_then (expect 117 s) (λ t. expect_then (expect 108 t) (expect 108)))

abbrev pub read_true : List ℕ → Reading
read_true s =
    literal (boolean true)
      (expect_then (expect 114 s) (λ t. expect_then (expect 117 t) (expect 101)))

abbrev pub read_false : List ℕ → Reading
read_false s = literal (boolean false) (
    expect_then (expect 97 s)
      (λ t. expect_then (expect 108 t) (λ u. expect_then (expect 115 u) (expect 101))))

abbrev pub quoted : Option (List ℕ × List ℕ) → Reading
quoted none = none
quoted (some (s, t)) = some (string s, t)

abbrev pub listed : Option (Elements × List ℕ) → Reading
listed none = none
listed (some (xs, t)) = some (array xs, t)

abbrev pub mapped : Option (Members × List ℕ) → Reading
mapped none = none
mapped (some (ms, t)) = some (object ms, t)

-- m[k] = v, where k must be new.
abbrev pub in_front : List ℕ → Json → Option Members → Option Members
in_front k v none = none
in_front k v (some ms) = some (member k v ms)

unfoldable pub insert_member : List ℕ → Json → Members → Option Members
insert_member k v no_members = some (member k v no_members)
insert_member k v (member j w ms) =
    let rest = in_front j w (insert_member k v ms) in
    if before k j then some (member k v (member j w ms)) else if before j k then rest else none

abbrev pub then_element : Json → Option (Elements × List ℕ) → Option (Elements × List ℕ)
then_element v none = none
then_element v (some (xs, t)) = some (element v xs, t)

-- An element with the elements after it; a member with those after it.
abbrev pub then_elements :
    (List ℕ → Option (Elements × List ℕ)) → Reading → Option (Elements × List ℕ)
then_elements more none = none
then_elements more (some (v, s)) = then_element v (more s)

abbrev pub inserted : Option Members → List ℕ → Option (Members × List ℕ)
inserted none t = none
inserted (some ms) t = some (ms, t)

abbrev pub then_member : List ℕ → Json → Option (Members × List ℕ) → Option (Members × List ℕ)
then_member k v none = none
then_member k v (some (ms, t)) = inserted (insert_member k v ms) t

abbrev pub then_members :
    (List ℕ → Option (Members × List ℕ)) → List ℕ → Reading → Option (Members × List ℕ)
then_members more k none = none
then_members more k (some (v, s)) = then_member k v (more s)

-- Past the comma, which the first element does not have.
abbrev pub separated : Bool → List ℕ → Option (List ℕ)
separated true s = some s
separated false s = expect 44 s

abbrev pub read_key : List ℕ → Option (List ℕ × List ℕ)
read_key [] = none
read_key (c ∷ s) = if c == 34 then read_chars (suc (length s)) s else none

-- The value behind a key's colon.
abbrev pub value_of_key :
    (List ℕ → Reading)
    → (List ℕ → Option (Members × List ℕ))
    → List ℕ
    → Option (List ℕ)
    → Option (Members × List ℕ)
value_of_key read more k none = none
value_of_key read more k (some t) = then_members more k (read t)

abbrev pub key_value :
    (List ℕ → Reading)
    → (List ℕ → Option (Members × List ℕ))
    → Option (List ℕ × List ℕ)
    → Option (Members × List ℕ)
key_value read more none = none
key_value read more (some (k, s)) = value_of_key read more k (expect 58 (skip s))

-- One round in an array: its end, or a further value behind the comma.
abbrev pub array_round :
    (List ℕ → Reading)
    → (List ℕ → Option (Elements × List ℕ))
    → Option (List ℕ)
    → Option (List ℕ)
    → Option (Elements × List ℕ)
array_round read more (some t) next = some (no_elements, t)
array_round read more none none = none
array_round read more none (some t) = then_elements more (read t)

-- One round in an object: its end, or a further key and value behind the comma.
abbrev pub object_round :
    (List ℕ → Reading)
    → (List ℕ → Option (Members × List ℕ))
    → Option (List ℕ)
    → Option (List ℕ)
    → Option (Members × List ℕ)
object_round read more (some t) next = some (no_members, t)
object_round read more none none = none
object_round read more none (some t) = key_value read more (read_key (skip t))

-- The elements of an array up to its bracket, by a reader of values.
unfoldable pub read_elements : ℕ → (List ℕ → Reading) → Bool → List ℕ → Option (Elements × List ℕ)
read_elements zero read first s = none
read_elements (suc fuel) read first s =
    array_round read (read_elements fuel read false) (expect 93 (skip s)) (separated first (skip s))

-- The members of an object up to its brace.
unfoldable pub read_members : ℕ → (List ℕ → Reading) → Bool → List ℕ → Option (Members × List ℕ)
read_members zero read first s = none
read_members (suc fuel) read first s =
    object_round read (read_members fuel read false) (expect 125 (skip s))
      (separated first (skip s))

-- `ok_number` is a further test of the texts of numbers. `room` is how deep values may still nest: 33
-- levels in `jsonValue`, whose depth is at most 32.
module _ (ok_number : List ℕ → Bool) where
  abbrev pub numeral : List ℕ × List ℕ → Reading
  numeral (n, t) = if is_number n && ok_number n then some (number n, t) else none

  -- A value by its first character.
  unfoldable pub read_head :
      (Bool → List ℕ → Option (Elements × List ℕ))
      → (Bool → List ℕ → Option (Members × List ℕ))
      → List ℕ
      → Reading
  read_head elements members [] = none
  read_head elements members (c ∷ s) =
      if c == 34
      then quoted (read_chars (suc (length s)) s)
      else if c == 91
      then listed (elements true s)
      else if c == 123
      then mapped (members true s)
      else if c == 110
      then read_null s
      else if c == 116
      then read_true s
      else if c == 102
      then read_false s
      else numeral (take_number (c ∷ s))

  unfoldable pub read_value : ℕ → ℕ → List ℕ → Reading
  read_value zero room s = none
  read_value (suc fuel) zero s = none
  read_value (suc fuel) (suc room) s =
      let read = read_value fuel room in
      read_head (read_elements fuel read) (read_members fuel read) (skip s)

  -- The whole text is one value, but for space at its end.
  abbrev pub at_end : Json → List ℕ → Option Json
  at_end v [] = some v
  at_end v (c ∷ t) = none

  abbrev pub whole_text : Reading → Option Json
  whole_text none = none
  whole_text (some (v, s)) = at_end v (skip s)

  unfoldable pub read_text : ℕ → List ℕ → Option Json
  read_text room s = whole_text (read_value (suc (length s)) room s)

-- ===== src/Json/Values.antt =====
-- Values of JSON as the readers return them, how deep they nest, and how many rounds reading them takes.
use aim_data_gateway.Prelude.{ℕ, suc, ◌+◌, ◌<◌, max, ◌≡◌, Bool, true, List, All, arith}
use aim_data_gateway.Json.{
  Json, Elements, Members, null, boolean, number, string, array, object, no_elements, element,
  no_members, member, before,
}
use aim_data_gateway.Json.Strings.{IsScalar}
use aim_data_gateway.Json.Numbers.{is_number}

-- The key is before the keys of the members.
abbrev pub IsBefore : List ℕ → Members → Type 0
IsBefore k no_members = Unit
IsBefore k (member j w ms) = before k j ≡ true

module _ (ok_number : List ℕ → Bool) where
  -- A value that a reader can have returned: its strings are of code points, its numbers are of the
  -- grammar and pass the reader's test, and its keys ascend.
  unfoldable mutual
    pub IsValue : Json → Type 0
    IsValue null = Unit
    IsValue (boolean b) = Unit
    IsValue (number n) = (is_number n ≡ true) × (ok_number n ≡ true)
    IsValue (string s) = All IsScalar s
    IsValue (array xs) = AreValues xs
    IsValue (object ms) = AreMembers ms

    pub AreValues : Elements → Type 0
    AreValues no_elements = Unit
    AreValues (element v xs) = IsValue v × AreValues xs

    pub AreMembers : Members → Type 0
    AreMembers no_members = Unit
    AreMembers (member k v ms) = (All IsScalar k × IsBefore k ms) × (IsValue v × AreMembers ms)

-- How deep the values of a value nest, itself included.
unfoldable mutual
  pub levels : Json → ℕ
  levels null = 1
  levels (boolean b) = 1
  levels (number n) = 1
  levels (string s) = 1
  levels (array xs) = suc (levels_elements xs)
  levels (object ms) = suc (levels_members ms)

  pub levels_elements : Elements → ℕ
  levels_elements no_elements = 0
  levels_elements (element v xs) = max (levels v) (levels_elements xs)

  pub levels_members : Members → ℕ
  levels_members no_members = 0
  levels_members (member k v ms) = max (levels v) (levels_members ms)

-- The rounds that reading takes.
unfoldable mutual
  pub need : Json → ℕ
  need null = 1
  need (boolean b) = 1
  need (number n) = 1
  need (string s) = 1
  need (array xs) = suc (need_elements xs)
  need (object ms) = suc (need_members ms)

  pub need_elements : Elements → ℕ
  need_elements no_elements = 1
  need_elements (element v xs) = need v + need_elements xs

  pub need_members : Members → ℕ
  need_members no_members = 1
  need_members (member k v ms) = need v + need_members ms

pub need_pos : (v : Json) → 0 < need v
unfolding need
need_pos null = omega arith
need_pos (boolean b) = omega arith
need_pos (number n) = omega arith
need_pos (string s) = omega arith
need_pos (array xs) = omega arith
need_pos (object ms) = omega arith

pub levels_pos : (v : Json) → 0 < levels v
unfolding levels
levels_pos null = omega arith
levels_pos (boolean b) = omega arith
levels_pos (number n) = omega arith
levels_pos (string s) = omega arith
levels_pos (array xs) = omega arith
levels_pos (object ms) = omega arith

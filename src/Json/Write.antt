-- ===== src/Json/Write.antt =====
-- `write` (internal/wire/wire.go) and `encodePython` (verification/canonical.go), but for the form of
-- numbers, which are written as they are.
use aim_data_gateway.Prelude.{ℕ, Bool, true, false, List, ◌∷◌, ◌++◌}
use aim_data_gateway.Json.{
  Json, Elements, Members, null, boolean, number, string, array, object, no_elements, element,
  no_members, member,
}
use aim_data_gateway.Json.Strings.{Style, write_chars}

-- A string between quotes, with the text that follows it.
abbrev pub write_string : Style → List ℕ → List ℕ → List ℕ
write_string style s rest = 34 ∷ (write_chars style s ++ (34 ∷ rest))

-- `if i > 0 { write "," }`
abbrev pub comma : Bool → List ℕ → List ℕ
comma true s = s
comma false s = 44 ∷ s

-- The text of a value, in front of `rest`.
module _ (style : Style) where
  unfoldable mutual
    pub write : Json → List ℕ → List ℕ
    write null rest = 110 ∷ 117 ∷ 108 ∷ 108 ∷ rest
    write (boolean true) rest = 116 ∷ 114 ∷ 117 ∷ 101 ∷ rest
    write (boolean false) rest = 102 ∷ 97 ∷ 108 ∷ 115 ∷ 101 ∷ rest
    write (number n) rest = n ++ rest
    write (string s) rest = write_string style s rest
    write (array xs) rest = 91 ∷ write_elements true xs rest
    write (object ms) rest = 123 ∷ write_members true ms rest

    pub write_elements : Bool → Elements → List ℕ → List ℕ
    write_elements first no_elements rest = 93 ∷ rest
    write_elements first (element v xs) rest = comma first (write v (write_elements false xs rest))

    pub write_members : Bool → Members → List ℕ → List ℕ
    write_members first no_members rest = 125 ∷ rest
    write_members first (member k v ms) rest =
        comma first (write_string style k (58 ∷ write v (write_members false ms rest)))

-- ===== src/Tests/Texts.antt =====
-- Canonical texts of a small value.
use aim_data_gateway.Prelude.{
  ℕ, ◌≤◌, ◌≡◌, refl, ◌↔◌, Bool, true, false, none, some, List, [], ◌∷◌, All, leb→le,
}
use aim_data_gateway.Json.{
  Json, boolean, number, string, array, object, no_elements, element, no_members, member, before,
}
use aim_data_gateway.Json.Strings.{
  Style, IsScalar, write_chars, write_char, unicode_escape, short_escape, is_escaped, hex_digit,
  hex_value, read_hex, read_low, read_escape, read_char, read_chars,
}
use aim_data_gateway.Json.Numbers.{is_number, scan, scan_all, is_number_char, take_number}
use aim_data_gateway.Json.Write.{write}
use aim_data_gateway.Json.Read.{
  skip, insert_member, read_elements, read_members, read_head, read_value, read_text,
}
use aim_data_gateway.Json.Values.{IsValue, levels}
use aim_data_gateway.Json.Texts.{read_text-write}
use aim_data_gateway.Json.Lists.{IsValueIn}
use aim_data_gateway.Json.Sound.{read_text-IsValueIn}
use aim_data_gateway.Json.Canonical.{
  Floats, canonical, parse_canonical, parse_canonical_iff, rewritten, number_text, integer_text,
  is_float, same_text,
}

-- {"a":["é\n",true],"b":-7}
abbrev small_value : Json
small_value = object (
    member (97 ∷ []) (array (element (string (233 ∷ 10 ∷ [])) (element (boolean true) no_elements)))
      (member (98 ∷ []) (number (45 ∷ 55 ∷ [])) no_members))

abbrev small_text : List ℕ
small_text =
    123 ∷ 34 ∷ 97 ∷ 34 ∷ 58 ∷ 91 ∷ 34 ∷ 233 ∷ 92 ∷ 110 ∷ 34 ∷ 44 ∷ 116 ∷ 114 ∷ 117 ∷ 101 ∷ 93 ∷ 44
    ∷ 34 ∷ 98 ∷ 34 ∷ 58 ∷ 45 ∷ 55 ∷ 125 ∷ []

abbrev any_number : List ℕ → Bool
any_number n = true

small_value-IsValue : IsValue any_number small_value
unfolding IsValue is_number scan scan_all before
small_value-IsValue =
    (((refl, tt), refl), (((refl, (refl, tt)), (tt, tt)), (((refl, tt), tt), ((refl, refl), tt))))

small_value-levels : levels small_value ≤ 33
unfolding levels
small_value-levels = leb→le 3 33 refl

small_text-scalars : All IsScalar small_text
small_text-scalars = (
  refl,
  (
    refl,
    (
      refl,
      (
        refl,
        (
          refl,
          (
            refl,
            (
              refl,
              (
                refl,
                (
                  refl,
                  (
                    refl,
                    (
                      refl,
                      (
                        refl,
                        (
                          refl,
                          (
                            refl,
                            (
                              refl,
                              (
                                refl,
                                (
                                  refl,
                                  (
                                    refl,
                                    (refl, (refl, (refl, (refl, (refl, (refl, (refl, tt))))))),
                                  ),
                                ),
                              ),
                            ),
                          ),
                        ),
                      ),
                    ),
                  ),
                ),
              ),
            ),
          ),
        ),
      ),
    ),
  ),
)

read_small : read_text any_number 33 small_text ≡ some small_value
unfolding read_text read_value read_head read_elements read_members skip insert_member before
    read_chars read_char read_escape read_low read_hex hex_value take_number is_number scan scan_all
    is_number_char
read_small = refl

write_small : write Style.python small_value [] ≡ small_text
unfolding write write_chars write_char unicode_escape short_escape is_escaped hex_digit
write_small = refl

read_text-write_example : read_text any_number 33 (write Style.go small_value []) ≡ some small_value
read_text-write_example =
    read_text-write any_number Style.go small_value 33 small_value-IsValue small_value-levels

read_text-IsValueIn_example : IsValueIn any_number 33 small_value
read_text-IsValueIn_example =
    read_text-IsValueIn any_number 33 small_text small_value small_text-scalars read_small

-- A float64 that stands for no number: the value has none.
abbrev no_floats : Floats
no_floats = record {
  Float = Unit;
  parse = λ s. none;
  is_finite = λ f. true;
  is_far = λ f. false;
  plain = λ f. 48 ∷ [];
  scientific = λ f. 48 ∷ [];
}

small_value-IsNormal : rewritten no_floats small_value ≡ some small_value
unfolding rewritten number_text integer_text is_float same_text
small_value-IsNormal = refl

parse_canonical_iff_example :
    (parse_canonical no_floats small_text ≡ some small_value)
    ↔ (canonical no_floats small_value ≡ some small_text)
parse_canonical_iff_example =
    parse_canonical_iff no_floats small_value small_text small_value-IsValue small_value-levels
      small_value-IsNormal

-- ===== src/Json/Canonical.antt =====
-- The frozen format of facts and receipts, verification/canonical.go: `Canonical` and `ParseCanonical`.
-- The floating-point numbers of strconv are a parameter: a type, with what the source asks of it.
use mathlib.Core.Option.{some_inj}
use aim_data_gateway.Prelude.{
  ℕ, ◌≤◌, ◌≡◌, refl, sym, ap, ◌∙◌, ◌↔◌, Bool, true, false, ◌||◌, ◌&&◌, not, Option, none, some,
  List, [], ◌∷◌, ◌++◌, arith, ◌==◌, if◌then◌else◌, inl, inr, Bool-cases,
}
use aim_data_gateway.Json.{
  Json, Elements, Members, null, boolean, number, string, array, object, no_elements, element,
  no_members, member,
}
use aim_data_gateway.Json.Strings.{Style}
use aim_data_gateway.Json.Write.{write}
use aim_data_gateway.Json.Read.{read_text}
use aim_data_gateway.Json.Values.{IsValue, levels}
use aim_data_gateway.Json.Texts.{read_text-write}

-- What the source uses of float64: `parse` is json.Number.Float64, `is_finite` excludes infinities and
-- NaN, `is_far` holds of numbers other than 0 below 1e-4 or from 1e16, and `plain` and `scientific` are
-- the two forms of strconv.FormatFloat.
pub record Floats : Type 1 where
  pub Float : Type 0
  pub parse : List ℕ → Option Float
  pub is_finite : Float → Bool
  pub is_far : Float → Bool
  pub plain : Float → List ℕ
  pub scientific : Float → List ℕ

-- bytes.Equal
unfoldable pub same_text : List ℕ → List ℕ → Bool
same_text [] [] = true
same_text [] (d ∷ t) = false
same_text (c ∷ s) [] = false
same_text (c ∷ s) (d ∷ t) = c == d && same_text s t

-- strings.ContainsAny(s, ".")
unfoldable pub has_point : List ℕ → Bool
has_point [] = false
has_point (c ∷ s) = c == 46 || has_point s

-- strings.ContainsAny(s, ".eE")
unfoldable pub is_float : List ℕ → Bool
is_float [] = false
is_float (c ∷ s) = c == 46 || c == 101 || c == 69 || is_float s

-- The text of a big.Int that was read from a number of JSON.
unfoldable pub integer_text : List ℕ → List ℕ
integer_text n = if same_text n (45 ∷ 48 ∷ []) then 48 ∷ [] else n

module _ (floats : Floats) where
  unfoldable pub python_float : floats.Float → Option (List ℕ)
  python_float f =
      let fixed = floats.plain f in
      let far = floats.scientific f in
      if not (floats.is_finite f)
      then none
      else if floats.is_far f
      then some far
      else if has_point fixed
      then some fixed
      else some (fixed ++ (46 ∷ 48 ∷ []))

  abbrev pub float_text : Option floats.Float → Option (List ℕ)
  float_text none = none
  float_text (some f) = python_float f

  -- How a number is written, unless it is out of range.
  unfoldable pub number_text : List ℕ → Option (List ℕ)
  number_text n = if is_float n then float_text (floats.parse n) else some (integer_text n)

  abbrev pub as_number : Option (List ℕ) → Option Json
  as_number none = none
  as_number (some n) = some (number n)

  abbrev pub as_array : Option Elements → Option Json
  as_array none = none
  as_array (some xs) = some (array xs)

  abbrev pub as_object : Option Members → Option Json
  as_object none = none
  as_object (some ms) = some (object ms)

  abbrev pub both_elements : Option Json → Option Elements → Option Elements
  both_elements (some v) (some xs) = some (element v xs)
  both_elements _ _ = none

  abbrev pub both_members : List ℕ → Option Json → Option Members → Option Members
  both_members k (some v) (some ms) = some (member k v ms)
  both_members k _ _ = none

  -- The value with every number in the form in which it is written.
  unfoldable mutual
    pub rewritten : Json → Option Json
    rewritten null = some null
    rewritten (boolean b) = some (boolean b)
    rewritten (number n) = as_number (number_text n)
    rewritten (string s) = some (string s)
    rewritten (array xs) = as_array (rewritten_elements xs)
    rewritten (object ms) = as_object (rewritten_members ms)

    pub rewritten_elements : Elements → Option Elements
    rewritten_elements no_elements = some no_elements
    rewritten_elements (element v xs) = both_elements (rewritten v) (rewritten_elements xs)

    pub rewritten_members : Members → Option Members
    rewritten_members no_members = some no_members
    rewritten_members (member k v ms) = both_members k (rewritten v) (rewritten_members ms)

  abbrev pub text_of : Option Json → Option (List ℕ)
  text_of none = none
  text_of (some v) = some (write Style.python v [])

  -- `Canonical`
  unfoldable pub canonical : Json → Option (List ℕ)
  canonical v = text_of (rewritten v)

  -- `decodeJSON`, with `jsonValue` to the depth 32.
  unfoldable pub decode_json : List ℕ → Option Json
  decode_json raw = read_text (λ n. true) 33 raw

  abbrev pub if_same : Json → List ℕ → Option (List ℕ) → Option Json
  if_same v raw none = none
  if_same v raw (some text) = if same_text text raw then some v else none

  abbrev pub check : List ℕ → Option Json → Option Json
  check raw none = none
  check raw (some v) = if_same v raw (canonical v)

  -- `ParseCanonical`
  unfoldable pub parse_canonical : List ℕ → Option Json
  parse_canonical raw = check raw (decode_json raw)

pub same_text_refl : (s : List ℕ) → same_text s s ≡ true
unfolding same_text
same_text_refl [] = refl
same_text_refl (c ∷ s) = let rest = same_text_refl s in ground (arith, rest)

pub same_text→eq : (s t : List ℕ) → same_text s t ≡ true → s ≡ t
unfolding same_text
same_text→eq [] [] h = refl
same_text→eq [] (d ∷ t) h = cc
same_text→eq (c ∷ s) [] h = cc
same_text→eq (c ∷ s) (d ∷ t) h = elim (Bool-cases (same_text s t)) [
  | inl e ↦
      let tails = same_text→eq s t e in
      let heads : c ≡ d = ground arith in ap (λ x. x ∷ s) heads ∙ ap (λ x. d ∷ x) tails
  | inr e ↦ absurd (ground arith)
]

module _ (floats : Floats) where
  -- Every number in the value is in the form in which it is written.
  abbrev pub IsNormal : Json → Type 0
  IsNormal v = rewritten floats v ≡ some v

  canonical-IsNormal : (v : Json) → IsNormal v → canonical floats v ≡ some (write Style.python v [])
  unfolding canonical
  canonical-IsNormal v h = ap (text_of floats) h

  check-same :
      (v : Json) (raw : List ℕ) → canonical floats v ≡ some raw → check floats raw (some v) ≡ some v
  check-same v raw h = ap (if_same floats v raw) h ∙ rw (same_text_refl raw) refl

  if_same-eq :
      (v w : Json) (raw : List ℕ) (o : Option (List ℕ))
      → if_same floats v raw o ≡ some w
      → (v ≡ w) × (o ≡ some raw)
  if_same-eq v w raw none h = cc
  if_same-eq v w raw (some text) h = elim (Bool-cases (same_text text raw)) [
    | inl e ↦ (some_inj.0 (sym (rw e) ∙ h), ap some (same_text→eq text raw e))
    | inr e ↦ absurd (ground (arith, h))
  ]

  check-eq :
      (w : Json) (raw : List ℕ) (o : Option Json)
      → check floats raw o ≡ some w
      → canonical floats w ≡ some raw
  check-eq w raw none h = cc
  check-eq w raw (some v) h =
      let both = if_same-eq v w raw (canonical floats v) h in
      ap (canonical floats) (sym both.0) ∙ both.1

  -- For a well-formed value of at most 33 levels, whose numbers are in the form that `Canonical` writes:
  -- `ParseCanonical` accepts a text as that value exactly if it is the value's canonical text.
  pub parse_canonical_iff :
      (v : Json) (raw : List ℕ)
      → IsValue (λ n. true) v
      → levels v ≤ 33
      → IsNormal v
      → (parse_canonical floats raw ≡ some v) ↔ (canonical floats v ≡ some raw)
  unfolding parse_canonical decode_json
  parse_canonical_iff v raw is deep normal = (
    check-eq v raw (decode_json floats raw),
    λ h.
        let text : write Style.python v [] ≡ raw =
          some_inj.0 (sym (canonical-IsNormal v normal) ∙ h) in
        let decoded : decode_json floats raw ≡ some v =
          ap (decode_json floats) (sym text)
          ∙ read_text-write (λ n. true) Style.python v 33 is deep in
        ap (check floats raw) decoded ∙ check-same v raw h,
  )

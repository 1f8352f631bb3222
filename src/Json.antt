-- ===== src/Json.antt =====
-- JSON values as Go holds them after decoding with UseNumber, and their canonical texts: `Canonical` of
-- internal/wire/wire.go, and verification/canonical.go. A text is a list of code points: the source
-- refuses bytes that are not valid UTF-8 before it decodes them.
pub mod Strings
pub mod Quoting
pub mod Numbers
pub mod Write
pub mod Read
pub mod Values
pub mod RoundTrip
pub mod Texts
pub mod Canonical
pub mod Reads
pub mod Lists
pub mod Sound
pub mod Decimal
use aim_data_gateway.Prelude.{ℕ, Bool, true, false, List, [], ◌∷◌, ltb, ◌==◌, if◌then◌else◌}

-- A number is its text (json.Number). A map is the list of its members, ordered by key as sort.Strings
-- orders them, which is the order of their code points.
mutual
  pub data Json : Type 0 where
    null : Json
    boolean : Bool → Json
    number : List ℕ → Json
    string : List ℕ → Json
    array : Elements → Json
    object : Members → Json

  pub data Elements : Type 0 where
    no_elements : Elements
    element : Json → Elements → Elements

  pub data Members : Type 0 where
    no_members : Members
    member : List ℕ → Json → Members → Members

-- The order of strings.
unfoldable pub before : List ℕ → List ℕ → Bool
before s [] = false
before [] (d ∷ t) = true
before (c ∷ s) (d ∷ t) = if ltb c d then true else if c == d then before s t else false

-- ===== src/Json/Reads.antt =====
-- What the readers of JSON return: strings, numbers, keys and nesting of the values of `jsonValue`
-- (verification/canonical.go) and `value` (internal/audit/audit.go).
use aim_data_gateway.Prelude.{
  ℕ, zero, suc, ◌+◌, ◌-◌, ◌*◌, refl, Bool, true, false, ◌&&◌, ◌||◌, Option, none, some, List, [],
  ◌∷◌, All, length, arith, ltb, ◌==◌, if◌then◌else◌, inl, inr, Bool-cases,
}
use aim_data_gateway.Json.Strings.{
  IsScalar, is_surrogate, hex_value, join_hex, with_rest, read_hex, pair_or, is_pair, read_low,
  joined, read_escape, read_char, push, after_char, read_chars,
}
use aim_data_gateway.Json.Numbers.{is_number_char, take_number}
use aim_data_gateway.Json.Read.{skip, expect, expect_then, separated, read_key}

abbrev pub AreScalars : List ℕ → Type 0
AreScalars s = All IsScalar s

-- What holds of both branches holds of the conditional.
pub if_both {ℓ κ} :
    {A : Type ℓ} (P : A → Type κ) (test : Bool) {x y : A} → P x → P y → P (if test then x else y)
if_both P true p q = p
if_both P false p q = q

-- The answer is none, or it satisfies `P` and what is left is of code points.
abbrev pub Reads {ℓ κ} : {A : Type ℓ} → (A → Type κ) → Option (A × List ℕ) → Type κ
Reads P none = Unit
Reads P (some (x, t)) = P x × All IsScalar t

pub hex-Reads :
    (a b c d : Option ℕ) (s : List ℕ)
    → AreScalars s
    → Reads (λ n. Unit {0}) (with_rest (join_hex a b c d) s)
hex-Reads (some a) (some b) (some c) (some d) s h = (tt, h)
hex-Reads none b c d s h = tt
hex-Reads (some a) none c d s h = tt
hex-Reads (some a) (some b) none d s h = tt
hex-Reads (some a) (some b) (some c) none s h = tt

pub read_hex-Reads : (s : List ℕ) → AreScalars s → Reads (λ n. Unit {0}) (read_hex s)
unfolding read_hex
read_hex-Reads [] h = tt
read_hex-Reads (a ∷ []) h = tt
read_hex-Reads (a ∷ b ∷ []) h = tt
read_hex-Reads (a ∷ b ∷ c ∷ []) h = tt
read_hex-Reads (a ∷ b ∷ c ∷ d ∷ s) h =
    hex-Reads (hex_value a) (hex_value b) (hex_value c) (hex_value d) s h.1.1.1.1

pub pair-IsScalar : (hi lo : ℕ) → IsScalar ((hi - 55296) * 1024 + (lo - 56320) + 65536)
pair-IsScalar hi lo = ground arith

abbrev pub Scalar2 : ℕ × List ℕ → Type 0
Scalar2 (n, t) = IsScalar n × AreScalars t

pub pair_or-Scalar2 :
    (hi : ℕ) (s : List ℕ) (o : Option (ℕ × List ℕ))
    → AreScalars s
    → Reads (λ n. Unit {0}) o
    → Scalar2 (pair_or hi s o)
pair_or-Scalar2 hi s none h r = (refl, h)
pair_or-Scalar2 hi s (some (lo, t)) h r =
    if_both Scalar2 (is_pair hi lo) (pair-IsScalar hi lo, r.1) (refl, h)

pub read_low-Scalar2 : (hi : ℕ) (s : List ℕ) → AreScalars s → Scalar2 (read_low hi s)
unfolding read_low
read_low-Scalar2 hi [] h = (refl, h)
read_low-Scalar2 hi (a ∷ []) h = (refl, h)
read_low-Scalar2 hi (a ∷ b ∷ s) h =
    if_both Scalar2 (a == 92 && b == 117)
      (pair_or-Scalar2 hi (a ∷ b ∷ s) (read_hex s) h (read_hex-Reads s h.1.1)) (refl, h)

pub joined-Reads : (o : Option (ℕ × List ℕ)) → Reads (λ n. Unit {0}) o → Reads IsScalar (joined o)
joined-Reads none r = tt
joined-Reads (some (n, s)) r = elim (Bool-cases (is_surrogate n)) [
  | inl e ↦ rw e (read_low-Scalar2 n s r.1)
  | inr e ↦ rw e (e, r.1)
]

pub read_escape-Reads : (s : List ℕ) → AreScalars s → Reads IsScalar (read_escape s)
unfolding read_escape
read_escape-Reads [] h = tt
read_escape-Reads (e ∷ s) h = if_both (Reads IsScalar) (e == 34 || e == 92 || e == 47) h (
    if_both (Reads IsScalar) (e == 98) (refl, h.1)
      (if_both (Reads IsScalar) (e == 116) (refl, h.1)
        (if_both (Reads IsScalar) (e == 110) (refl, h.1)
          (if_both (Reads IsScalar) (e == 102) (refl, h.1)
            (if_both (Reads IsScalar) (e == 114) (refl, h.1)
              (if_both (Reads IsScalar) (e == 117)
                (joined-Reads (read_hex s) (read_hex-Reads s h.1)) tt))))))

pub read_char-Reads : (s : List ℕ) → AreScalars s → Reads IsScalar (read_char s)
unfolding read_char
read_char-Reads [] h = tt
read_char-Reads (c ∷ s) h =
    if_both (Reads IsScalar) (c == 92) (read_escape-Reads s h.1)
      (if_both (Reads IsScalar) (ltb c 32) tt h)

pub push-Reads :
    (c : ℕ) (o : Option (List ℕ × List ℕ))
    → IsScalar c
    → Reads AreScalars o
    → Reads AreScalars (push c o)
push-Reads c none h r = tt
push-Reads c (some (s, t)) h r = ((h, r.0), r.1)

pub after_char-Reads :
    (more : List ℕ → Option (List ℕ × List ℕ)) (o : Option (ℕ × List ℕ))
    → ((t : List ℕ) → AreScalars t → Reads AreScalars (more t))
    → Reads IsScalar o
    → Reads AreScalars (after_char more o)
after_char-Reads more none m r = tt
after_char-Reads more (some (d, t)) m r = push-Reads d (more t) r.0 (m t r.1)

-- The strings that are read are of code points, surrogates excluded.
pub read_chars-Reads : (fuel : ℕ) (s : List ℕ) → AreScalars s → Reads AreScalars (read_chars fuel s)
unfolding read_chars
read_chars-Reads zero s h = tt
read_chars-Reads (suc fuel) [] h = tt
read_chars-Reads (suc fuel) (c ∷ s) h =
    if_both (Reads AreScalars) (c == 34) (tt, h.1)
      (after_char-Reads (read_chars fuel) (read_char (c ∷ s)) (read_chars-Reads fuel)
        (read_char-Reads (c ∷ s) h))

pub take_number-scalars : (s : List ℕ) → AreScalars s → AreScalars (take_number s).1
unfolding take_number
take_number-scalars [] h = tt
take_number-scalars (c ∷ s) h =
    if_both {A = List ℕ × List ℕ} (λ p. AreScalars p.1) (is_number_char c)
      (take_number-scalars s h.1) h

pub skip-scalars : (s : List ℕ) → AreScalars s → AreScalars (skip s)
unfolding skip
skip-scalars [] h = tt
skip-scalars (c ∷ s) h =
    if_both AreScalars (c == 32 || c == 9 || c == 10 || c == 13) (skip-scalars s h.1) h

abbrev pub Left : Option (List ℕ) → Type 0
Left none = Unit
Left (some t) = AreScalars t

pub expect-Left : (x : ℕ) (s : List ℕ) → AreScalars s → Left (expect x s)
expect-Left x [] h = tt
expect-Left x (c ∷ s) h = if_both Left (c == x) h.1 tt

pub expect_then-Left :
    (o : Option (List ℕ)) (k : List ℕ → Option (List ℕ))
    → Left o
    → ((t : List ℕ) → AreScalars t → Left (k t))
    → Left (expect_then o k)
expect_then-Left none k h m = tt
expect_then-Left (some s) k h m = m s h

pub read_key-Reads : (s : List ℕ) → AreScalars s → Reads AreScalars (read_key s)
read_key-Reads [] h = tt
read_key-Reads (c ∷ s) h =
    if_both (Reads AreScalars) (c == 34) (read_chars-Reads (suc (length s)) s h.1) tt

pub separated-Left : (first : Bool) (s : List ℕ) → AreScalars s → Left (separated first s)
separated-Left true s h = h
separated-Left false s h = expect-Left 44 s h

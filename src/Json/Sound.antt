-- ===== src/Json/Sound.antt =====
-- The values that `jsonValue` (verification/canonical.go) and `value` (internal/audit/audit.go) return.
use mathlib.Core.Option.{some_inj}
use aim_data_gateway.Prelude.{
  ℕ, zero, suc, ◌≡◌, subst, Bool, true, false, Option, none, some, List, [], ◌∷◌, All, length,
  arith, ◌==◌, inl, inr, Bool-cases,
}
use aim_data_gateway.Json.{Json, Elements, Members, null, boolean}
use aim_data_gateway.Json.Strings.{IsScalar, read_chars}
use aim_data_gateway.Json.Numbers.{is_number, take_number}
use aim_data_gateway.Json.Read.{
  Reading, skip, expect, expect_then, literal, read_null, read_true, read_false, quoted, listed,
  mapped, read_elements, read_members, numeral, read_head, read_value, at_end, whole_text,
  read_text,
}
use aim_data_gateway.Json.Values.{IsValue, levels}
use aim_data_gateway.Json.Reads.{
  AreScalars, if_both, Reads, read_chars-Reads, take_number-scalars, skip-scalars, Left,
  expect-Left, expect_then-Left,
}
use aim_data_gateway.Json.Lists.{
  IsValueIn, ReadsElements, ReadsMembers, read_elements-Reads, read_members-Reads,
}

module _ (ok_number : List ℕ → Bool) where
  module _ (room : ℕ) where
    -- A value of one of the kinds that the first character tells.
    abbrev ReadsValue : Reading → Type 0
    ReadsValue o = Reads (IsValueIn ok_number (suc room)) o

    literal-Reads :
        (v : Json) (o : Option (List ℕ))
        → IsValueIn ok_number (suc room) v
        → Left o
        → ReadsValue (literal v o)
    literal-Reads v none h l = tt
    literal-Reads v (some s) h l = (h, l)

    quoted-Reads : (o : Option (List ℕ × List ℕ)) → Reads AreScalars o → ReadsValue (quoted o)
    unfolding IsValue levels
    quoted-Reads none r = tt
    quoted-Reads (some (s, t)) r = ((r.0, omega arith), r.1)

    listed-Reads :
        (o : Option (Elements × List ℕ)) → ReadsElements ok_number room o → ReadsValue (listed o)
    unfolding IsValue levels
    listed-Reads none r = tt
    listed-Reads (some (xs, t)) r = ((r.0.0, omega (arith, r.0.1)), r.1)

    mapped-Reads :
        (o : Option (Members × List ℕ)) → ReadsMembers ok_number room o → ReadsValue (mapped o)
    unfolding IsValue levels
    mapped-Reads none r = tt
    mapped-Reads (some (ms, t)) r = ((r.0.0, omega (arith, r.0.1)), r.1)

    numeral-Reads : (n t : List ℕ) → AreScalars t → ReadsValue (numeral ok_number (n, t))
    unfolding IsValue levels
    numeral-Reads n t h = elim (Bool-cases (is_number n)) [
      | inl e ↦ elim (Bool-cases (ok_number n)) [
        | inl f ↦ rw (e, f) (((e, f), omega arith), h)
        | inr f ↦ rw (e, f) tt
      ]
      | inr e ↦ rw e tt
    ]

    read_null-Reads : (s : List ℕ) → AreScalars s → ReadsValue (read_null s)
    unfolding IsValue levels
    read_null-Reads s h =
        literal-Reads null
          (expect_then (expect 117 s) (λ t. expect_then (expect 108 t) (expect 108)))
          (tt, omega arith)
          (expect_then-Left (expect 117 s) (λ t. expect_then (expect 108 t) (expect 108))
            (expect-Left 117 s h)
            (λ t g.
              expect_then-Left (expect 108 t) (expect 108) (expect-Left 108 t g) (expect-Left 108)))

    read_true-Reads : (s : List ℕ) → AreScalars s → ReadsValue (read_true s)
    unfolding IsValue levels
    read_true-Reads s h =
        literal-Reads (boolean true)
          (expect_then (expect 114 s) (λ t. expect_then (expect 117 t) (expect 101)))
          (tt, omega arith)
          (expect_then-Left (expect 114 s) (λ t. expect_then (expect 117 t) (expect 101))
            (expect-Left 114 s h)
            (λ t g.
              expect_then-Left (expect 117 t) (expect 101) (expect-Left 117 t g) (expect-Left 101)))

    read_false-Reads : (s : List ℕ) → AreScalars s → ReadsValue (read_false s)
    unfolding IsValue levels
    read_false-Reads s h =
        literal-Reads (boolean false)
          (expect_then (expect 97 s)
            (λ t. expect_then (expect 108 t) (λ u. expect_then (expect 115 u) (expect 101))))
          (tt, omega arith)
          (expect_then-Left (expect 97 s)
            (λ t. expect_then (expect 108 t) (λ u. expect_then (expect 115 u) (expect 101)))
            (expect-Left 97 s h)
            (λ t g.
              expect_then-Left (expect 108 t) (λ u. expect_then (expect 115 u) (expect 101))
                (expect-Left 108 t g)
                (λ u k.
                  expect_then-Left (expect 115 u) (expect 101) (expect-Left 115 u k)
                    (expect-Left 101))))

    read_head-Reads :
        (elements : Bool → List ℕ → Option (Elements × List ℕ))
        (members : Bool → List ℕ → Option (Members × List ℕ)) (s : List ℕ)
        → ((t : List ℕ) → AreScalars t → ReadsElements ok_number room (elements true t))
        → ((t : List ℕ) → AreScalars t → ReadsMembers ok_number room (members true t))
        → AreScalars s
        → ReadsValue (read_head ok_number elements members s)
    unfolding read_head
    read_head-Reads elements members [] es ms h = tt
    read_head-Reads elements members (c ∷ s) es ms h =
        if_both ReadsValue (c == 34)
          (quoted-Reads (read_chars (suc (length s)) s) (read_chars-Reads (suc (length s)) s h.1))
          (if_both ReadsValue (c == 91) (listed-Reads (elements true s) (es s h.1)) (
            if_both ReadsValue (c == 123) (mapped-Reads (members true s) (ms s h.1)) (
              if_both ReadsValue (c == 110) (read_null-Reads s h.1) (
                if_both ReadsValue (c == 116) (read_true-Reads s h.1) (
                  if_both ReadsValue (c == 102) (read_false-Reads s h.1) (
                    numeral-Reads (take_number (c ∷ s)).0 (take_number (c ∷ s)).1
                      (take_number-scalars (c ∷ s) h)))))))

  read_value-Reads :
      (fuel room : ℕ) (s : List ℕ)
      → AreScalars s
      → Reads (IsValueIn ok_number room) (read_value ok_number fuel room s)
  unfolding read_value
  read_value-Reads zero room s h = tt
  read_value-Reads (suc fuel) zero s h = tt
  read_value-Reads (suc fuel) (suc room) s h =
      let read = read_value ok_number fuel room in
      read_head-Reads room (read_elements fuel read) (read_members fuel read) (skip s)
        (read_elements-Reads ok_number room read (read_value-Reads fuel room) fuel true)
        (read_members-Reads ok_number room read (read_value-Reads fuel room) fuel true)
        (skip-scalars s h)

  at_end-eq : (w v : Json) (s : List ℕ) → at_end ok_number w s ≡ some v → w ≡ v
  at_end-eq w v [] e = some_inj.0 e
  at_end-eq w v (c ∷ t) e = cc

  whole_text-in :
      (room : ℕ) (o : Reading) (v : Json)
      → Reads (IsValueIn ok_number room) o
      → whole_text ok_number o ≡ some v
      → IsValueIn ok_number room v
  whole_text-in room none v r e = cc
  whole_text-in room (some (w, s)) v r e =
      subst (IsValueIn ok_number room) (at_end-eq w v (skip s) e) r.0

  -- What is read from a text of code points is a value in order, at most `room` levels deep.
  pub read_text-IsValueIn :
      (room : ℕ) (s : List ℕ) (v : Json)
      → All IsScalar s
      → read_text ok_number room s ≡ some v
      → IsValueIn ok_number room v
  unfolding read_text
  read_text-IsValueIn room s v h e =
      whole_text-in room (read_value ok_number (suc (length s)) room s) v
        (read_value-Reads (suc (length s)) room s h) e

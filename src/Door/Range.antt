-- ===== src/Door/Range.antt =====
-- The ranges that `parseRange` accepts (internal/door/door.go).
use aim_data_gateway.Prelude.{
  ℕ, zero, suc, ◌≤◌, ◌<◌, Option, none, some, List, [], ◌∷◌, arith, ltb, leb, ◌==◌, inl, inr,
  Bool-cases,
}
use aim_data_gateway.Prelude.Int.{ℤ, pos, negsuc}
use aim_data_gateway.Door.{
  ByteRange, parse_int, cut_dash, has_comma, cut_prefix, bytes_unit, suffix_range, end_range,
  open_range, start_range, dash_range, unit_range, parse_range,
}

-- The range lies in a file of that size.
abbrev pub IsInside : ℕ → Option ByteRange → Type 0
IsInside size none = Unit
IsInside size (some r) = (r.start ≤ r.end) × (r.end < size)

module _ (size : ℕ) (some_bytes : 0 < size) where
  suffix_range-IsInside : (n : Option ℤ) → IsInside size (suffix_range n size)
  suffix_range-IsInside none = tt
  suffix_range-IsInside (some (negsuc n)) = tt
  suffix_range-IsInside (some (pos Prim.Native.Nat.zero)) = tt
  suffix_range-IsInside (some (pos (suc n))) = (omega arith, omega arith)

  end_range-IsInside :
      (start : ℕ) (n : Option ℤ) → start < size → IsInside size (end_range start n size)
  end_range-IsInside start none lt = tt
  end_range-IsInside start (some (negsuc n)) lt = tt
  end_range-IsInside start (some (pos end)) lt = elim (Bool-cases (ltb end start)) [
    | inl e ↦ rw e tt
    | inr e ↦ rw e (ground arith, omega arith)
  ]

  open_range-IsInside :
      (start : ℕ) (b : List ℕ) → start < size → IsInside size (open_range start b size)
  open_range-IsInside start [] lt = (omega arith, omega arith)
  open_range-IsInside start (c ∷ b) lt = end_range-IsInside start (parse_int (c ∷ b)) lt

  start_range-IsInside : (n : Option ℤ) (b : List ℕ) → IsInside size (start_range n b size)
  start_range-IsInside none b = tt
  start_range-IsInside (some (negsuc n)) b = tt
  start_range-IsInside (some (pos start)) b = elim (Bool-cases (leb size start)) [
    | inl e ↦ rw e tt
    | inr e ↦ rw (e, open_range) (open_range-IsInside start b (ground arith))
  ]

  dash_range-IsInside : (v : Option (List ℕ × List ℕ)) → IsInside size (dash_range v size)
  unfolding dash_range
  dash_range-IsInside none = tt
  dash_range-IsInside (some ([], b)) = suffix_range-IsInside (parse_int b)
  dash_range-IsInside (some (c ∷ a, b)) = start_range-IsInside (parse_int (c ∷ a)) b

  unit_range-IsInside : (v : Option (List ℕ)) → IsInside size (unit_range v size)
  unit_range-IsInside none = tt
  unit_range-IsInside (some v) = elim (Bool-cases (has_comma v)) [
    | inl e ↦ rw e tt
    | inr e ↦ rw e (dash_range-IsInside (cut_dash v))
  ]

-- For any header and any size, a range that `parseRange` accepts starts at or before its end, and its
-- end is a byte of the file.
pub parse_range-IsInside : (s : List ℕ) (size : ℕ) → IsInside size (parse_range s size)
unfolding parse_range
parse_range-IsInside [] size = elim (Bool-cases (size == 0)) [
  | inl e ↦ rw e tt
  | inr e ↦ rw e (omega arith, ground arith)
]
parse_range-IsInside (c ∷ s) size = elim (Bool-cases (size == 0)) [
  | inl e ↦ rw e tt
  | inr e ↦ rw e (unit_range-IsInside size (ground arith) (cut_prefix (c ∷ s) bytes_unit))
]

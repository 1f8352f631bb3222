-- ===== src/Json/Decimal.antt =====
-- Integers in decimal (strconv.FormatUint, strconv.ParseInt and ParseUint), and the test of
-- internal/audit/audit.go that a number of JSON is such an integer of 64 bits.
use mathlib.Core.Option.{some_inj}
use aim_data_gateway.Prelude.{
  ℕ, zero, suc, ◌+◌, ◌-◌, ◌*◌, ◌/◌, ◌%◌, ◌^◌, ◌<◌, ◌≡◌, refl, sym, ap, ◌∙◌, Bool, true, false, not,
  ◌&&◌, ◌||◌, Option, none, some, List, [], ◌∷◌, ◌++◌, All, arith, ltb, leb, ◌==◌, if◌then◌else◌,
  inl, inr, Bool-cases,
}
use aim_data_gateway.Json.Numbers.{is_digit, is_number, scan, scan_all, Scan, nothing, whole}

-- The digits of n; more fuel than n is enough.
unfoldable pub digits : ℕ → ℕ → List ℕ
digits zero n = []
digits (suc fuel) n =
    let front = digits fuel (n / 10) in
    if ltb n 10 then (48 + n) ∷ [] else front ++ ((48 + n % 10) ∷ [])

unfoldable pub decimal : ℕ → List ℕ
decimal n = digits (suc n) n

-- The value of digits behind those of `n`.
unfoldable pub digits_value : ℕ → List ℕ → Option ℕ
digits_value n [] = some n
digits_value n (c ∷ s) =
    let rest = digits_value (n * 10 + (c - 48)) s in if is_digit c then rest else none

unfoldable pub natural : List ℕ → Option ℕ
natural [] = none
natural (c ∷ s) = digits_value 0 (c ∷ s)

abbrev pub at_most : ℕ → Option ℕ → Bool
at_most n none = false
at_most n (some v) = leb v n

-- strconv.ParseInt(s, 10, 64) succeeds; a number of JSON has no sign +.
unfoldable pub is_int64 : List ℕ → Bool
is_int64 [] = false
is_int64 (c ∷ s) =
    if c == 45 then at_most (2 ^ 63) (natural s) else at_most (2 ^ 63 - 1) (natural (c ∷ s))

-- strings.ContainsAny(s, ".eE+")
unfoldable pub has_fraction : List ℕ → Bool
has_fraction [] = false
has_fraction (c ∷ s) = c == 46 || c == 101 || c == 69 || c == 43 || has_fraction s

-- A 0 in front of further digits, or "-0" with or without them.
unfoldable pub has_leading_zero : List ℕ → Bool
has_leading_zero (c ∷ d ∷ s) = c == 48 || (c == 45 && d == 48)
has_leading_zero _ = false

unfoldable pub is_integer : List ℕ → Bool
is_integer s = not (has_fraction s) && not (has_leading_zero s) && is_int64 s

digits_value-append :
    (n v c : ℕ) (s : List ℕ)
    → digits_value n s ≡ some v
    → is_digit c ≡ true
    → digits_value n (s ++ (c ∷ [])) ≡ some (v * 10 + (c - 48))
unfolding digits_value
digits_value-append n v c [] h d = rw d (let same = some_inj.0 h in ap some (omega (arith, same)))
digits_value-append n v c (e ∷ s) h d = elim (Bool-cases (is_digit e)) [
  | inl at ↦ rw at (digits_value-append (n * 10 + (e - 48)) v c s (sym (rw at) ∙ h) d)
  | inr off ↦ absurd (ground (arith, off, h))
]

scan_all-append :
    (c : ℕ) (s : List ℕ) (state : Scan) → scan_all state (s ++ (c ∷ [])) ≡ scan (scan_all state s) c
unfolding scan_all
scan_all-append c [] state = refl
scan_all-append c (d ∷ s) state = scan_all-append c s (scan state d)

scan_whole : (c : ℕ) → is_digit c ≡ true → scan whole c ≡ whole
unfolding scan
scan_whole c h = ground arith

-- What the digits of a number are, by the last of them.
digits-value : (fuel n : ℕ) → n < fuel → digits_value 0 (digits fuel n) ≡ some n
unfolding digits
digits-value zero n h = absurd (omega arith)
digits-value (suc fuel) n h = elim (Bool-cases (ltb n 10)) [
  | inl e ↦ rw e (unfold digits_value in ground (arith, e))
  | inr e ↦ rw e (
      digits_value-append 0 (n / 10) (48 + n % 10) (digits fuel (n / 10))
        (digits-value fuel (n / 10) (ground (arith, e))) (ground arith)
      ∙ ap some (omega arith))
]

digits-scan : (fuel n : ℕ) → n < fuel → 0 < n → scan_all nothing (digits fuel n) ≡ whole
unfolding digits
digits-scan zero n h p = absurd (omega arith)
digits-scan (suc fuel) n h p = elim (Bool-cases (ltb n 10)) [
  | inl e ↦ rw e (unfold scan_all scan in ground (arith, e, p))
  | inr e ↦ rw e (
      scan_all-append (48 + n % 10) (digits fuel (n / 10)) nothing
      ∙ ap (λ state. scan state (48 + n % 10))
          (digits-scan fuel (n / 10) (omega arith) (ground (arith, e)))
      ∙ scan_whole (48 + n % 10) (ground arith))
]

All-snoc {ℓ κ} :
    {A : Type ℓ} (P : A → Type κ) (xs : List A) (y : A) → All P xs → P y → All P (xs ++ (y ∷ []))
All-snoc P [] y h p = (p, tt)
All-snoc P (x ∷ xs) y h p = (h.0, All-snoc P xs y h.1 p)

digits-All : (fuel n : ℕ) → All (λ c. is_digit c ≡ true) (digits fuel n)
unfolding digits
digits-All zero n = tt
digits-All (suc fuel) n = elim (Bool-cases (ltb n 10)) [
  | inl e ↦ rw e (ground (arith, e), tt)
  | inr e ↦ rw e (
      All-snoc (λ c. is_digit c ≡ true) (digits fuel (n / 10)) (48 + n % 10)
        (digits-All fuel (n / 10)) (ground arith))
]

-- A number other than 0 begins with a digit other than 0.
abbrev StartsPositive : List ℕ → Type 0
StartsPositive [] = ⊥
StartsPositive (c ∷ s) = (48 < c) × (c < 58)

append-StartsPositive : (s t : List ℕ) → StartsPositive s → StartsPositive (s ++ t)
append-StartsPositive [] t h = absurd h
append-StartsPositive (c ∷ s) t h = h

digits-StartsPositive : (fuel n : ℕ) → n < fuel → 0 < n → StartsPositive (digits fuel n)
unfolding digits
digits-StartsPositive zero n h p = absurd (omega arith)
digits-StartsPositive (suc fuel) n h p = elim (Bool-cases (ltb n 10)) [
  | inl e ↦ rw e (omega arith, ground (arith, e))
  | inr e ↦ rw e (
      append-StartsPositive (digits fuel (n / 10)) ((48 + n % 10) ∷ [])
        (digits-StartsPositive fuel (n / 10) (omega arith) (ground (arith, e))))
]

digits_no_fraction : (s : List ℕ) → All (λ c. is_digit c ≡ true) s → has_fraction s ≡ false
unfolding has_fraction
digits_no_fraction [] h = refl
digits_no_fraction (c ∷ s) h =
    let first = h.0 in let rest = digits_no_fraction s h.1 in ground (arith, first, rest)

positive_no_zero : (s : List ℕ) → StartsPositive s → has_leading_zero s ≡ false
unfolding has_leading_zero
positive_no_zero [] h = absurd h
positive_no_zero (c ∷ []) h = refl
positive_no_zero (c ∷ d ∷ s) h = let low = h.0 in ground (arith, low)

not_sign : (c : ℕ) → 48 < c → (c == 45) ≡ false
not_sign c h = ground arith

positive_int64 :
    (s : List ℕ) (n : ℕ)
    → StartsPositive s
    → digits_value 0 s ≡ some n
    → n < 2 ^ 63
    → is_int64 s ≡ true
unfolding is_int64 natural
positive_int64 [] n h v le = absurd h
positive_int64 (c ∷ s) n h v le =
    rw (not_sign c h.0) (ap (at_most (2 ^ 63 - 1)) v ∙ ground (arith, le))

natural-value :
    (s : List ℕ) (n : ℕ) → StartsPositive s → digits_value 0 s ≡ some n → natural s ≡ some n
unfolding natural
natural-value [] n h v = absurd h
natural-value (c ∷ s) n h v = v

module _ (n : ℕ) (positive : 0 < n) where
  pub natural-decimal : natural (decimal n) ≡ some n
  unfolding decimal
  natural-decimal =
      natural-value (digits (suc n) n) n (digits-StartsPositive (suc n) n (omega arith) positive)
        (digits-value (suc n) n (omega arith))

  pub decimal-is_number : is_number (decimal n) ≡ true
  unfolding decimal is_number
  decimal-is_number = rw (digits-scan (suc n) n (omega arith) positive) refl

  pub decimal-is_integer : n < 2 ^ 63 → is_integer (decimal n) ≡ true
  unfolding decimal is_integer
  decimal-is_integer h =
      rw
        (
          digits_no_fraction (digits (suc n) n) (digits-All (suc n) n),
          positive_no_zero (digits (suc n) n)
              (digits-StartsPositive (suc n) n (omega arith) positive),
          positive_int64 (digits (suc n) n) n
              (digits-StartsPositive (suc n) n (omega arith) positive)
              (digits-value (suc n) n (omega arith)) h,
        )
        refl

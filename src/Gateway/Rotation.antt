-- ===== src/Gateway/Rotation.antt =====
-- Which keys a rotation of internal/gateway/gateway.go pins.
use aim_data_gateway.Prelude.{
  ℕ, ◌≡◌, refl, sym, ap, ◌∙◌, inl, inr, Bool, true, false, ◌&&◌, ◌||◌, Option, none, some, List, [],
  ◌∷◌, ◌++◌, arith, ◌==◌, Bool-cases, ==_iff,
}
use aim_data_gateway.Prelude.Query.{find, exists}
use aim_data_gateway.Gateway.Keys.{Key, Pins, has_kid, append_unique_keys, meets, with_expiry}

abbrev pub first_of : Option Key → Option Key → Option Key
first_of none o = o
first_of (some k) o = some k

abbrev is_some : Option Key → Bool
is_some none = false
is_some (some k) = true

first_of_assoc : (o p q : Option Key) → first_of (first_of o p) q ≡ first_of o (first_of p q)
first_of_assoc none p q = refl
first_of_assoc (some k) p q = refl

exists-find : (test : Key → Bool) (keys : List Key) → exists test keys ≡ is_some (find test keys)
unfolding exists find
exists-find test [] = refl
exists-find test (k ∷ keys) = let rest = exists-find test keys in ground (arith, rest)

find-append :
    (test : Key → Bool) (xs ys : List Key)
    → find test (xs ++ ys) ≡ first_of (find test xs) (find test ys)
unfolding find
find-append test [] ys = refl
find-append test (k ∷ xs) ys = elim (Bool-cases (test k)) [
  | inl hit ↦ rw hit refl
  | inr miss ↦ rw miss (find-append test xs ys)
]

first_of-found : (o p : Option Key) → is_some o ≡ true → first_of o p ≡ o
first_of-found none p h = cc
first_of-found (some k) p h = refl

skip_known :
    (kid : ℕ) (key : Key) (existing added : List Key)
    → exists (has_kid key.kid) existing ≡ true
    → first_of (find (has_kid kid) existing) (find (has_kid kid) added)
      ≡ first_of (find (has_kid kid) existing) (find (has_kid kid) (key ∷ added))
skip_known kid key existing added known = elim (Bool-cases (key.kid == kid)) [
  | inl same ↦
      let at = (==_iff key.kid kid).0 same in
      let there =
        sym (exists-find (has_kid kid) existing)
        ∙ ap (λ i. exists (has_kid i) existing) (sym at)
        ∙ known in
      first_of-found (find (has_kid kid) existing) (find (has_kid kid) added) there
      ∙ sym (first_of-found (find (has_kid kid) existing) (find (has_kid kid) (key ∷ added)) there)
  | inr differs ↦ ap (first_of (find (has_kid kid) existing)) (sym (unfold find in rw differs refl))
]

-- A key that is pinned already is kept, and of new keys with one kid the first is pinned.
pub find-append_unique_keys :
    (kid : ℕ) (existing added : List Key)
    → find (has_kid kid) (append_unique_keys existing added)
      ≡ first_of (find (has_kid kid) existing) (find (has_kid kid) added)
unfolding append_unique_keys
find-append_unique_keys kid existing [] = unfold find in first_none (find (has_kid kid) existing)
  where
    first_none : (o : Option Key) → o ≡ first_of o none
    first_none none = refl
    first_none (some k) = refl
find-append_unique_keys kid existing (key ∷ added) =
    elim (Bool-cases (exists (has_kid key.kid) existing)) [
      | inl known ↦
          rw known
            (find-append_unique_keys kid existing added ∙ skip_known kid key existing added known)
      | inr new ↦ rw new (
          find-append_unique_keys kid (existing ++ (key ∷ [])) added
          ∙ ap (λ o. first_of o (find (has_kid kid) added))
              (find-append (has_kid kid) existing (key ∷ []))
          ∙ first_of_assoc (find (has_kid kid) existing) (find (has_kid kid) (key ∷ []))
              (find (has_kid kid) added)
          ∙ ap (first_of (find (has_kid kid) existing))
              (sym (find-append (has_kid kid) (key ∷ []) added)))
    ]

is_some-first_of : (o p : Option Key) → is_some (first_of o p) ≡ (is_some o || is_some p)
is_some-first_of none p = refl
is_some-first_of (some k) p = refl

pub exists-append :
    (test : Key → Bool) (xs ys : List Key)
    → exists test (xs ++ ys) ≡ (exists test xs || exists test ys)
exists-append test xs ys =
    exists-find test (xs ++ ys)
    ∙ ap is_some (find-append test xs ys)
    ∙ is_some-first_of (find test xs) (find test ys)
    ∙ ap (λ b. b || is_some (find test ys)) (sym (exists-find test xs))
    ∙ ap (λ b. exists test xs || b) (sym (exists-find test ys))

-- The kids after an addition are those before and those added.
pub exists-append_unique_keys :
    (kid : ℕ) (existing added : List Key)
    → exists (has_kid kid) (append_unique_keys existing added)
      ≡ (exists (has_kid kid) existing || exists (has_kid kid) added)
exists-append_unique_keys kid existing added =
    exists-find (has_kid kid) (append_unique_keys existing added)
    ∙ ap is_some (find-append_unique_keys kid existing added)
    ∙ is_some-first_of (find (has_kid kid) existing) (find (has_kid kid) added)
    ∙ ap (λ b. b || is_some (find (has_kid kid) added)) (sym (exists-find (has_kid kid) existing))
    ∙ ap (λ b. exists (has_kid kid) existing || b) (sym (exists-find (has_kid kid) added))

-- No kid is in both lists.
unfoldable pub AreApart : List Key → List Key → Type 0
AreApart xs ys = (kid : ℕ) → (exists (has_kid kid) xs && exists (has_kid kid) ys) ≡ false

-- No kid of the scan keys is one of the permission keys or listing keys.
unfoldable pub IsSeparate : Pins → Type 0
IsSeparate pins = AreApart pins.scan_spec_keys (pins.permission_keys ++ pins.listing_keys)

pub meets-AreApart : (keys others : List Key) → meets keys others ≡ false → AreApart keys others
unfolding meets AreApart exists
meets-AreApart [] others h kid = refl
meets-AreApart (k ∷ keys) others h kid = elim (Bool-cases (k.kid == kid)) [
  | inl same ↦
      let at = (==_iff k.kid kid).0 same in
      let other_side = ap (λ i. exists (has_kid i) others) (sym at) in
      ground (arith, same, other_side, h)
  | inr differs ↦ let rest = meets-AreApart keys others (ground (arith, h)) kid in rw differs rest
]

pub with_expiry-keys :
    (signer deadline : ℕ) (pins : Pins)
    → ((with_expiry signer deadline pins).permission_keys ≡ pins.permission_keys)
      × (((with_expiry signer deadline pins).scan_spec_keys ≡ pins.scan_spec_keys)
          × ((with_expiry signer deadline pins).listing_keys ≡ pins.listing_keys))
unfolding with_expiry
with_expiry-keys signer deadline pins = ground arith

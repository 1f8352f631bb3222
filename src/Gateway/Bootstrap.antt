-- ===== src/Gateway/Bootstrap.antt =====
-- The bootstrap of the scan keys: `VerificationControl` (internal/gateway/gateway.go) for a token of that
-- type, with `ValidateKeySet` (internal/wire/verification.go).
use mathlib.Core.List.{append_assoc}
use aim_data_gateway.Prelude.{
  ℕ, ◌≡◌, refl, ap, ◌∙◌, inl, inr, Bool, true, false, not, ◌&&◌, ◌||◌, Option, none, some, List, [],
  ◌∷◌, ◌++◌, arith, ltb, ◌==◌, if◌then◌else◌, Bool-cases, ==_iff,
}
use aim_data_gateway.Prelude.Query.{exists, select}
use aim_data_gateway.Json.Reads.{if_both}
use aim_data_gateway.Gateway.Keys.{
  Key, Pins, KeyClass, has_kid, key_map, expiry, key_rotation, set_minimum_version,
}
use aim_data_gateway.Gateway.Rotation.{AreApart, IsSeparate, exists-append}
use aim_data_gateway.Gateway.Separation.{key_rotation-IsSeparate}

-- `seen[k.KID]`
unfoldable pub is_seen : ℕ → List ℕ → Bool
is_seen kid [] = false
is_seen kid (k ∷ seen) = k == kid || is_seen kid seen

-- Keys that have not expired at `now`.
abbrev pub is_unexpired : ℕ → List (ℕ × ℕ) → ℕ × ℕ → Bool
is_unexpired now expires (kid, key) = elim (expiry kid expires) [
  | none ↦ true
  | some at ↦ ltb now at
]

-- `ok_key`: the key decodes to 32 bytes, is of EdDSA, and its kid is an identifier. `verify` is
-- VerifyScanBootstrap of the token, by the keys that are live.
module _ (ok_key : Key → Bool) (decode_key : ℕ → Option ℕ)
    (verify : List (ℕ × ℕ) → Option (List Key)) where
  unfoldable pub valid_keys : List ℕ → List Key → Bool
  valid_keys seen [] = true
  valid_keys seen (k ∷ keys) =
      ok_key k && not (is_seen k.kid seen) && valid_keys (k.kid ∷ seen) keys

  -- `ValidateKeySet(pins.PermissionKeys, pins.ListingKeys, b.Keys)`
  unfoldable pub validate_key_set : Pins → List Key → Bool
  validate_key_set pins keys = valid_keys [] (pins.permission_keys ++ (pins.listing_keys ++ keys))

  abbrev pub install : Bool → Pins → Option (List Key) → Bool × Pins
  install saved pins none = (false, pins)
  install saved pins (some keys) =
      if validate_key_set pins keys && saved
      then (true, record pins { scan_spec_keys = keys })
      else (false, pins)

  abbrev pub verified : ℕ → Pins → Option (List (ℕ × ℕ)) → Option (List Key)
  verified now pins none = none
  verified now pins (some keys) = verify (select (is_unexpired now pins.key_expires) keys)

  abbrev pub install_first : Bool → Pins → List Key → Option (List Key) → Bool × Pins
  install_first saved pins [] found = install saved pins found
  install_first saved pins (k ∷ keys) found = (false, pins)

  unfoldable pub bootstrap : Bool → ℕ → Pins → Bool × Pins
  bootstrap saved now pins =
      install_first saved pins pins.scan_spec_keys
        (verified now pins (key_map decode_key [] pins.listing_keys))

  valid_keys-seen :
      (kid : ℕ) (seen : List ℕ) (keys : List Key)
      → valid_keys seen keys ≡ true
      → (is_seen kid seen && exists (has_kid kid) keys) ≡ false
  unfolding valid_keys exists is_seen
  valid_keys-seen kid seen [] h = ground arith
  valid_keys-seen kid seen (k ∷ keys) h = elim (Bool-cases (k.kid == kid)) [
    | inl same ↦
        let at = ap (λ i. is_seen i seen) ((==_iff k.kid kid).0 same) in ground (arith, same, at, h)
    | inr differs ↦
        let rest = valid_keys-seen kid (k.kid ∷ seen) keys (ground (arith, h)) in
        ground (arith, differs, rest)
  ]

  valid_keys-AreApart :
      (seen : List ℕ) (xs ys : List Key) → valid_keys seen (xs ++ ys) ≡ true → AreApart xs ys
  unfolding valid_keys exists AreApart is_seen
  valid_keys-AreApart seen [] ys h kid = refl
  valid_keys-AreApart seen (x ∷ xs) ys h kid = elim (Bool-cases (x.kid == kid)) [
    | inl same ↦
        let fresh = valid_keys-seen kid (x.kid ∷ seen) (xs ++ ys) (ground (arith, h)) in
        let both = exists-append (has_kid kid) xs ys in ground (arith, same, fresh, both)
    | inr differs ↦
        let rest = valid_keys-AreApart (x.kid ∷ seen) xs ys (ground (arith, h)) kid in
        ground (arith, differs, rest)
  ]

  AreApart-symm : (xs ys : List Key) → AreApart xs ys → AreApart ys xs
  unfolding AreApart
  AreApart-symm xs ys h kid = let apart = h kid in ground (arith, apart)

  validate_key_set-AreApart :
      (pins : Pins) (keys : List Key)
      → validate_key_set pins keys ≡ true
      → AreApart keys (pins.permission_keys ++ pins.listing_keys)
  unfolding validate_key_set
  validate_key_set-AreApart pins keys h =
      AreApart-symm (pins.permission_keys ++ pins.listing_keys) keys (
        valid_keys-AreApart [] (pins.permission_keys ++ pins.listing_keys) keys
          (ap (valid_keys []) (append_assoc pins.permission_keys pins.listing_keys keys) ∙ h))

  install-IsSeparate :
      (saved : Bool) (pins : Pins) (found : Option (List Key))
      → IsSeparate pins
      → IsSeparate (install saved pins found).1
  unfolding IsSeparate
  install-IsSeparate saved pins none h = h
  install-IsSeparate saved pins (some keys) h = elim (Bool-cases (validate_key_set pins keys)) [
    | inl valid ↦ rw valid (
        if_both {A = Bool × Pins}
          (λ p. AreApart p.1.scan_spec_keys (p.1.permission_keys ++ p.1.listing_keys)) saved
          (validate_key_set-AreApart pins keys valid) h)
    | inr invalid ↦ rw invalid h
  ]

  bootstrap-IsSeparate :
      (saved : Bool) (now : ℕ) (pins : Pins)
      → IsSeparate pins
      → IsSeparate (bootstrap saved now pins).1
  unfolding bootstrap
  bootstrap-IsSeparate saved now pins h =
      first saved pins pins.scan_spec_keys
        (verified now pins (key_map decode_key [] pins.listing_keys)) h
    where
      first :
          (saved : Bool) (pins : Pins) (keys : List Key) (found : Option (List Key))
          → IsSeparate pins
          → IsSeparate (install_first saved pins keys found).1
      first saved pins [] found h = install-IsSeparate saved pins found h
      first saved pins (k ∷ keys) found h = h

-- The pins that a gateway holds, from those that it starts with: by rotations of any class, new minimum
-- versions and bootstraps, whatever they answer.
pub data Holds : Pins → Pins → Type 0 where
  paired : {pins : Pins} → Holds pins pins
  rotates :
      (decode_key : ℕ → Option ℕ) (saved : Bool) (class : KeyClass) (signer deadline : ℕ)
      (keys : List Key) {first pins : Pins}
      → Holds first pins
      → Holds first (key_rotation decode_key saved class signer deadline keys pins).1
  versions :
      (saved : Bool) (version : ℕ) {first pins : Pins}
      → Holds first pins
      → Holds first (set_minimum_version saved version pins).1
  bootstraps :
      (ok_key : Key → Bool) (decode_key : ℕ → Option ℕ) (verify : List (ℕ × ℕ) → Option (List Key))
      (saved : Bool) (now : ℕ) {first pins : Pins}
      → Holds first pins
      → Holds first (bootstrap ok_key decode_key verify saved now pins).1

set_minimum_version-IsSeparate :
    (saved : Bool) (version : ℕ) (pins : Pins)
    → IsSeparate pins
    → IsSeparate (set_minimum_version saved version pins).1
unfolding set_minimum_version IsSeparate
set_minimum_version-IsSeparate true version pins h = h
set_minimum_version-IsSeparate false version pins h = h

-- If no kid of the scan keys is one of the other classes at first, none ever is, over any rotations, new
-- minimum versions and bootstraps.
pub Holds-IsSeparate : (first pins : Pins) → Holds first pins → IsSeparate first → IsSeparate pins
Holds-IsSeparate first _ paired h = h
Holds-IsSeparate first _ (rotates decode_key saved class signer deadline keys {pins = pins} before)
      h =
    key_rotation-IsSeparate decode_key saved class signer deadline keys pins
      (Holds-IsSeparate first pins before h)
Holds-IsSeparate first _ (versions saved version {pins = pins} before) h =
    set_minimum_version-IsSeparate saved version pins (Holds-IsSeparate first pins before h)
Holds-IsSeparate first _ (bootstraps ok_key decode_key verify saved now {pins = pins} before) h =
    bootstrap-IsSeparate ok_key decode_key verify saved now pins
      (Holds-IsSeparate first pins before h)

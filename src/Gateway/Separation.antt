-- ===== src/Gateway/Separation.antt =====
-- The classes of pinned keys over rotations (internal/gateway/gateway.go).
use aim_data_gateway.Prelude.{
  ℕ, ◌≡◌, sym, ap, ◌∙◌, Bool, false, ◌&&◌, ◌||◌, Option, List, ◌++◌, arith,
}
use aim_data_gateway.Prelude.Query.{exists}
use aim_data_gateway.Gateway.Keys.{
  Key, Pins, KeyClass, permission, scan, listing, has_kid, append_unique_keys, crosses,
  rotated_pins, keys_ok, key_rotation,
}
use aim_data_gateway.Gateway.Rotation.{
  AreApart, IsSeparate, exists-append, exists-append_unique_keys, meets-AreApart, with_expiry-keys,
}
use aim_data_gateway.Gateway.Delivery.{if_split}

module _ (kid : ℕ) (pins : Pins) (keys : List Key) where
  abbrev with_kid : List Key → Bool
  with_kid ks = exists (has_kid kid) ks

  separate_at :
      IsSeparate pins
      → (with_kid pins.scan_spec_keys
          && (with_kid pins.permission_keys || with_kid pins.listing_keys))
        ≡ false
  unfolding IsSeparate AreApart
  separate_at h =
      ap (λ b. with_kid pins.scan_spec_keys && b)
        (sym (exists-append (has_kid kid) pins.permission_keys pins.listing_keys))
      ∙ h kid

rotated_pins-IsSeparate :
    (class : KeyClass) (signer deadline : ℕ) (keys : List Key) (pins : Pins)
    → crosses class pins keys ≡ false
    → IsSeparate pins
    → IsSeparate (rotated_pins class signer deadline keys pins)
unfolding rotated_pins crosses IsSeparate AreApart
rotated_pins-IsSeparate permission signer deadline keys pins c h kid =
    let kept = with_expiry-keys signer deadline pins in
    let before = separate_at kid pins keys h in
    let apart = meets-AreApart keys pins.scan_spec_keys c kid in
    let after =
      exists-append (has_kid kid) (append_unique_keys pins.permission_keys keys)
        pins.listing_keys in
    let added = exists-append_unique_keys kid pins.permission_keys keys in
    rw (kept.1.0, kept.1.1) (ground (arith, before, apart, after, added))
rotated_pins-IsSeparate listing signer deadline keys pins c h kid =
    let kept = with_expiry-keys signer deadline pins in
    let before = separate_at kid pins keys h in
    let apart = meets-AreApart keys pins.scan_spec_keys c kid in
    let after =
      exists-append (has_kid kid) pins.permission_keys
        (append_unique_keys pins.listing_keys keys) in
    let added = exists-append_unique_keys kid pins.listing_keys keys in
    rw (kept.0, kept.1.0) (ground (arith, before, apart, after, added))
rotated_pins-IsSeparate scan signer deadline keys pins c h kid =
    let kept = with_expiry-keys signer deadline pins in
    let before = separate_at kid pins keys h in
    let apart = meets-AreApart keys (pins.permission_keys ++ pins.listing_keys) c kid in
    let after = exists-append (has_kid kid) pins.permission_keys pins.listing_keys in
    let added = exists-append_unique_keys kid pins.scan_spec_keys keys in
    rw (kept.0, kept.1.1) (ground (arith, before, apart, after, added))

-- A rotation, whatever it answers, keeps the scan keys apart from the keys of the other classes.
pub key_rotation-IsSeparate :
    (decode_key : ℕ → Option ℕ) (saved : Bool) (class : KeyClass) (signer deadline : ℕ)
    (keys : List Key) (pins : Pins)
    → IsSeparate pins
    → IsSeparate (key_rotation decode_key saved class signer deadline keys pins).1
unfolding key_rotation
key_rotation-IsSeparate decode_key saved class signer deadline keys pins h =
    if_split {A = Bool × Pins} (λ p. IsSeparate p.1) (crosses class pins keys) (λ e. h)
      (λ e.
        if_split {A = Bool × Pins} (λ p. IsSeparate p.1)
          (keys_ok decode_key class (rotated_pins class signer deadline keys pins) && saved)
          (λ ok. rotated_pins-IsSeparate class signer deadline keys pins e h) (λ bad. h))

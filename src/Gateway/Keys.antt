-- ===== src/Gateway/Keys.antt =====
-- The pinned keys: `key_rotation` and `minimum_version` of `Handle`, `appendUniqueKeys`, `keyMap`
-- (internal/gateway/gateway.go) and `ValidateKeySet` (internal/wire/verification.go).
use aim_data_gateway.Prelude.{
  ℕ, Bool, true, false, not, ◌&&◌, ◌||◌, Option, none, some, List, [], ◌∷◌, ◌++◌, ◌==◌,
  if◌then◌else◌,
}
use aim_data_gateway.Prelude.Query.{exists}

-- wire.Key. `key` is its base64 text; `eddsa` tells whether `alg` is "EdDSA".
pub record Key : Type 0 where
  pub kid : ℕ
  pub eddsa : Bool
  pub key : ℕ

-- The part of pairing.Pins that control messages change. An expiry is the time it stands for.
pub record Pins : Type 0 where
  pub permission_keys : List Key
  pub scan_spec_keys : List Key
  pub listing_keys : List Key
  pub minimum_version : ℕ
  pub key_expires : List (ℕ × ℕ)

pub data KeyClass : Type 0 where
  permission scan listing : KeyClass

abbrev pub has_kid : ℕ → Key → Bool
has_kid kid k = k.kid == kid

unfoldable pub append_unique_keys : List Key → List Key → List Key
append_unique_keys existing [] = existing
append_unique_keys existing (key ∷ added) =
    let kept = append_unique_keys existing added in
    let longer = append_unique_keys (existing ++ (key ∷ [])) added in
    if exists (has_kid key.kid) existing then kept else longer

-- `added.KID == existing.KID` for some of the one and some of the other.
unfoldable pub meets : List Key → List Key → Bool
meets [] others = false
meets (added ∷ keys) others = exists (has_kid added.kid) others || meets keys others

-- The kids of a rotation may not stand on the other side of the scan keys.
unfoldable pub crosses : KeyClass → Pins → List Key → Bool
crosses permission pins keys = meets keys pins.scan_spec_keys
crosses scan pins keys = meets keys (pins.permission_keys ++ pins.listing_keys)
crosses listing pins keys = meets keys pins.scan_spec_keys

unfoldable pub expiry : ℕ → List (ℕ × ℕ) → Option ℕ
expiry kid [] = none
expiry kid ((k, at) ∷ rest) = if k == kid then some at else expiry kid rest

-- `if pins.KeyExpires[signer] == "" { … = now + 7 days }`
unfoldable pub with_expiry : ℕ → ℕ → Pins → Pins
with_expiry signer deadline pins = elim (expiry signer pins.key_expires) [
  | some at ↦ pins
  | none ↦ record pins { key_expires = (signer, deadline) ∷ pins.key_expires }
]

unfoldable pub rotated_pins : KeyClass → ℕ → ℕ → List Key → Pins → Pins
rotated_pins permission signer deadline keys pins = record (with_expiry signer deadline pins) {
  permission_keys = append_unique_keys pins.permission_keys keys;
}
rotated_pins scan signer deadline keys pins = record (with_expiry signer deadline pins) {
  scan_spec_keys = append_unique_keys pins.scan_spec_keys keys;
}
rotated_pins listing signer deadline keys pins = record (with_expiry signer deadline pins) {
  listing_keys = append_unique_keys pins.listing_keys keys;
}

-- "minimum_version"
unfoldable pub set_minimum_version : Bool → ℕ → Pins → Bool × Pins
set_minimum_version saved version pins =
    if saved then (true, record pins { minimum_version = version }) else (false, pins)

-- base64.RawURLEncoding.DecodeString, when the result has the size of a public key.
module _ (decode_key : ℕ → Option ℕ) where
  abbrev pub put_key : Key → Option ℕ → Option (List (ℕ × ℕ)) → Option (List (ℕ × ℕ))
  put_key k (some b) (some out) =
      if not k.eddsa || k.kid == 0 then none else some ((k.kid, b) ∷ out)
  put_key k _ _ = none

  -- `keyMap`; the entry in front is the one that a lookup finds.
  unfoldable pub key_map : List (ℕ × ℕ) → List Key → Option (List (ℕ × ℕ))
  key_map out [] = some out
  key_map out (k ∷ keys) = elim (put_key k (decode_key k.key) (some out)) [
    | none ↦ none
    | some out' ↦ key_map out' keys
  ]

  -- `permissionKeys, err = keyMap(…)` is asked for in one class only.
  unfoldable pub keys_ok : KeyClass → Pins → Bool
  keys_ok permission pins = elim (key_map [] pins.permission_keys) [
    | none ↦ false
    | some out ↦ true
  ]
  keys_ok scan pins = true
  keys_ok listing pins = true

  -- "key_rotation": `saved` tells whether `savePins` succeeds. The answer is whether there is no error.
  unfoldable pub key_rotation : Bool → KeyClass → ℕ → ℕ → List Key → Pins → Bool × Pins
  key_rotation saved class signer deadline keys pins =
      let rotated = rotated_pins class signer deadline keys pins in
      if crosses class pins keys
      then (false, pins)
      else if keys_ok class rotated && saved
      then (true, rotated)
      else (false, pins)

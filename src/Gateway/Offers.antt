-- ===== src/Gateway/Offers.antt =====
-- The instructions "offer" and "unoffer" of `Handle` (internal/gateway/gateway.go), and `Prepare`
-- (internal/ledger/ledger.go) after them.
use mathlib.Core.Option.{some_inj}
use aim_data_gateway.Prelude.{
  ℕ, ◌≡◌, refl, ap, subst, ◌∙◌, inl, inr, Bool, true, false, not, ◌||◌, Option, none, some, List,
  [], ◌∷◌, arith, ◌==◌, if◌then◌else◌, Bool-cases,
}
use aim_data_gateway.Prelude.Query.{exists, update_where}
use aim_data_gateway.Ledger.State.{
  Db, FileRow, OfferRow, OfferState, KeyClass, find_file, valid_blocks,
}
use aim_data_gateway.Ledger.Control.{was_seen, put_offer, upsert, same_offer, kept_approval}
use aim_data_gateway.Ledger.Prepare.{
  Config, Refusal, file_missing, file_changed, outside_ceiling, file_refusal, offer_refusal,
  is_listed_offer,
}

-- wire.OfferAck, without its constant op.
pub record OfferAck : Type 0 where
  pub iid : ℕ
  pub fid : ℕ
  pub ready : Bool
  pub refusal : Option Refusal

-- `within` is what `WithinCeiling` answers.
unfoldable pub offered_refusal : Bool → ℕ → Option FileRow → Option Refusal
offered_refusal within sha none = some file_missing
offered_refusal within sha (some f) =
    if f.changed == 2
    then some file_missing
    else if not (f.sha == sha) || not (f.changed == 0) || not (valid_blocks f)
    then some file_changed
    else if not within
    then some outside_ceiling
    else none

abbrev pub offer_row : ℕ → ℕ → ℕ → ℕ → OfferState → OfferRow
offer_row iid fid sha lvid state = record {
  fid = fid;
  sha = sha;
  lvid = lvid;
  iid = iid;
  state = state;
  approved_locally_at = none;
  key_class = KeyClass.listing;
}

abbrev pub put : ℕ → ℕ → ℕ → ℕ → OfferState → Db → Option OfferAck × Db
put iid fid sha lvid state db = (
  some (record { iid = iid; fid = fid; ready = true; refusal = none }),
  put_offer db (offer_row iid fid sha lvid state),
)

abbrev pub refused_or_put : ℕ → ℕ → ℕ → ℕ → Db → Option Refusal → Option OfferAck × Db
refused_or_put iid fid sha lvid db (some r) =
    (some (record { iid = iid; fid = fid; ready = false; refusal = some r }), db)
refused_or_put iid fid sha lvid db none = put iid fid sha lvid OfferState.offered db

-- "offer" where `offers` holds, and "unoffer" else. An instruction that was seen has no answer.
unfoldable pub handle_offer : Bool → Bool → ℕ → ℕ → ℕ → ℕ → Db → Option OfferAck × Db
handle_offer offers within iid fid sha lvid db =
    let offering =
      refused_or_put iid fid sha lvid db (offered_refusal within sha (find_file db fid)) in
    if was_seen db iid
    then (none, db)
    else if offers
    then offering
    else put iid fid sha lvid OfferState.withdrawn db

exists-update_where :
    (p test : OfferRow → Bool) (change : OfferRow → OfferRow) (rows : List OfferRow)
    → ((o : OfferRow) → p (change o) ≡ true)
    → exists test rows ≡ true
    → exists p (update_where test change rows) ≡ true
unfolding exists update_where
exists-update_where p test change [] h e = cc
exists-update_where p test change (o ∷ rows) h e = elim (Bool-cases (test o)) [
  | inl hit ↦ rw (hit, h o) refl
  | inr miss ↦
      let rest = exists-update_where p test change rows h (rw miss at e) in
      ground (arith, miss, rest)
]

exists-upsert :
    (p test : OfferRow → Bool) (change : OfferRow → OfferRow) (new : OfferRow)
    (rows : List OfferRow)
    → ((o : OfferRow) → p (change o) ≡ true)
    → p new ≡ true
    → exists p (upsert test change new rows) ≡ true
unfolding upsert
exists-upsert p test change new rows h n = elim (Bool-cases (exists test rows)) [
  | inl there ↦ rw there (exists-update_where p test change rows h there)
  | inr gone ↦ rw gone (unfold exists in rw n refl)
]

file_refusal-offered :
    (c : Config) (within : Bool) (db : Db) (fid sha : ℕ) (o : Option FileRow)
    → offered_refusal within sha o ≡ none
    → file_refusal c within db fid sha o ≡ offer_refusal c db fid sha
unfolding offered_refusal file_refusal
file_refusal-offered c within db fid sha none h = cc
file_refusal-offered c within db fid sha (some f) h = ground (arith, h)

same_refl : (n : ℕ) → (n == n) ≡ true
same_refl n = ground arith

listed :
    (iid fid sha lvid : ℕ) (approved : Option ℕ)
    → is_listed_offer fid sha
        (record (offer_row iid fid sha lvid OfferState.offered) { approved_locally_at = approved })
      ≡ true
listed iid fid sha lvid approved = rw (same_refl fid, same_refl sha) refl

offer_refusal-put :
    (c : Config) (iid fid sha lvid : ℕ) (db : Db)
    → c.offer_requires_local_approval ≡ false
    → offer_refusal c (put_offer db (offer_row iid fid sha lvid OfferState.offered)) fid sha ≡ none
unfolding offer_refusal put_offer
offer_refusal-put c iid fid sha lvid db local =
    let row = offer_row iid fid sha lvid OfferState.offered in
    let there =
      exists-upsert (is_listed_offer fid sha) (same_offer fid sha lvid)
        (λ old. record row { approved_locally_at = kept_approval old row }) row db.offers
        (λ old. listed iid fid sha lvid (kept_approval old row)) (listed iid fid sha lvid none) in
    rw (there, local) refl

refused_or_put-ready :
    (c : Config) (within : Bool) (iid fid sha lvid : ℕ) (db db' : Db) (ack : OfferAck)
    (o : Option Refusal)
    → offered_refusal within sha (find_file db fid) ≡ o
    → refused_or_put iid fid sha lvid db o ≡ (some ack, db')
    → ack.ready ≡ true
    → c.offer_requires_local_approval ≡ false
    → file_refusal c within db' fid sha (find_file db' fid) ≡ none
unfolding put_offer
refused_or_put-ready c within iid fid sha lvid db db' ack (some r) ok h ready local =
    let same = some_inj.0 (ap (λ p. p.0) h) in
    let clash : false ≡ true = ap (λ (a : OfferAck). a.ready) same ∙ ready in cc
refused_or_put-ready c within iid fid sha lvid db db' ack none ok h ready local =
    subst (λ (x : Db). file_refusal c within x fid sha (find_file x fid) ≡ none) (ap (λ p. p.1) h)
      (file_refusal-offered c within (put_offer db (offer_row iid fid sha lvid OfferState.offered))
          fid sha (find_file db fid) ok
        ∙ offer_refusal-put c iid fid sha lvid db local)

-- Where offers need no local approval: after an offer that is answered as ready, `Prepare` for the file
-- and its hash finds nothing to refuse in the file and its offers.
pub handle_offer-ready :
    (c : Config) (within : Bool) (iid fid sha lvid : ℕ) (db db' : Db) (ack : OfferAck)
    → handle_offer true within iid fid sha lvid db ≡ (some ack, db')
    → ack.ready ≡ true
    → c.offer_requires_local_approval ≡ false
    → file_refusal c within db' fid sha (find_file db' fid) ≡ none
unfolding handle_offer
handle_offer-ready c within iid fid sha lvid db db' ack h ready local =
    elim (Bool-cases (was_seen db iid)) [
      | inl old ↦ absurd (ground (arith, old, h))
      | inr new ↦
          refused_or_put-ready c within iid fid sha lvid db db' ack
            (offered_refusal within sha (find_file db fid)) refl (rw new at h) ready local
    ]

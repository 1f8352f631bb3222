-- ===== src/Ledger/Prepare.antt =====
-- `Prepare` and `WithinCeiling` (internal/ledger/ledger.go).
pub mod Readiness
use aim_data_gateway.Prelude.{
  ℕ, suc, ◌+◌, ◌-◌, max, Bool, true, false, not, ◌&&◌, ◌||◌, Option, none, some, List, [], ◌∷◌,
  ◌++◌, length, ltb, ◌==◌, if◌then◌else◌,
}
use aim_data_gateway.Prelude.Query.{exists, select}
use aim_data_gateway.Segment.{Segment, covered, first_untransmitted, count_bytes}
use aim_data_gateway.Ledger.State.{
  FileRow, OfferRow, KeyClass, Db, find_file, is_completed, segments, valid_blocks,
}
use aim_data_gateway.Ledger.Control.{is_offered}

-- Strings as lists of bytes.
unfoldable pub same_bytes : List ℕ → List ℕ → Bool
same_bytes [] [] = true
same_bytes (x ∷ xs) (y ∷ ys) = (x == y) && same_bytes xs ys
same_bytes _ _ = false

unfoldable pub has_prefix : List ℕ → List ℕ → Bool
has_prefix s [] = true
has_prefix [] (y ∷ ys) = false
has_prefix (x ∷ xs) (y ∷ ys) = (x == y) && has_prefix xs ys

-- The string without a suffix, if it has it: strings.HasSuffix with strings.TrimSuffix.
unfoldable pub cut_suffix : List ℕ → List ℕ → Option (List ℕ)
cut_suffix [] suffix = if same_bytes [] suffix then some [] else none
cut_suffix (x ∷ s) suffix =
    let rest = cut_suffix s suffix in
    if same_bytes (x ∷ s) suffix then some [] else elim rest [ none ↦ none | some t ↦ some (x ∷ t) ]

pub record Source : Type 0 where
  pub name : List ℕ
  pub path : List ℕ

-- The part of config.Config that the ledger reads.
pub record Config : Type 0 where
  pub sources : List Source
  pub offer_ceiling : List (List ℕ)
  pub offer_requires_local_approval : Bool

abbrev pub slash : List ℕ
slash = 47 ∷ []

-- "/**"
abbrev pub all_below : List ℕ
all_below = 47 ∷ 42 ∷ 42 ∷ []

-- `eval_symlinks` is filepath.EvalSymlinks on the file system, and `matches` the result of
-- filepath.Match, with false for a pattern that is malformed.
module _ (eval_symlinks : List ℕ → Option (List ℕ)) (matches : List ℕ → List ℕ → Bool) where
  abbrev pub resolves_to : Option (List ℕ) → List ℕ → Bool
  resolves_to none root = false
  resolves_to (some r) root = same_bytes r root

  -- The first source of the name decides.
  unfoldable pub source_found : List Source → FileRow → Bool
  source_found [] f = false
  source_found (s ∷ ss) f =
      if same_bytes s.name f.source
      then resolves_to (eval_symlinks s.path) f.root
      else source_found ss f

  abbrev pub below : Option (List ℕ) → List ℕ → Bool
  below none path = false
  below (some base) path = has_prefix path (base ++ slash)

  unfoldable pub some_glob : List (List ℕ) → List ℕ → Bool
  some_glob [] path = false
  some_glob (glob ∷ globs) path =
      below (cut_suffix glob all_below) path || matches glob path || some_glob globs path

  abbrev pub is_empty : {A : Type 0} → List A → Bool
  is_empty [] = true
  is_empty (x ∷ xs) = false

  unfoldable pub within_ceiling : Config → FileRow → Bool
  within_ceiling c f =
      (is_empty c.sources || source_found c.sources f)
      && (is_empty c.offer_ceiling
          || some_glob c.offer_ceiling (f.source ++ slash ++ f.relative_path))

-- The refusals of wire.PrepareAck; `none` is readiness.
pub data Refusal : Type 0 where
  file_missing file_changed outside_ceiling not_offered awaiting_local_approval : Refusal
  coverage_exhausted complete : Refusal

pub record PrepareAck : Type 0 where
  pub resume_offset : ℕ
  pub transmitted_bytes : ℕ
  pub interval_count : ℕ
  pub max_serve_count : ℕ
  pub ready : Bool
  pub refusal : Option Refusal

abbrev pub is_listing : KeyClass → Bool
is_listing KeyClass.listing = true
is_listing KeyClass.permission_key = false

abbrev pub is_listed_offer : ℕ → ℕ → OfferRow → Bool
is_listed_offer fid sha o =
    o.fid == fid && o.sha == sha && is_offered o.state && is_listing o.key_class

abbrev pub is_approved : OfferRow → Bool
is_approved o = elim o.approved_locally_at [ none ↦ false | some _ ↦ true ]

-- The refusal by the offers of the file.
unfoldable pub offer_refusal : Config → Db → ℕ → ℕ → Option Refusal
offer_refusal c db fid sha =
    let listed = select (is_listed_offer fid sha) db.offers in
    if not (exists (is_listed_offer fid sha) db.offers)
    then some Refusal.not_offered
    else if c.offer_requires_local_approval && not (exists is_approved listed)
    then some Refusal.awaiting_local_approval
    else none

-- The refusal by the file: `within` is what `WithinCeiling` answers.
unfoldable pub file_refusal : Config → Bool → Db → ℕ → ℕ → Option FileRow → Option Refusal
file_refusal c within db fid sha none = some Refusal.file_missing
file_refusal c within db fid sha (some f) =
    if f.changed == 2
    then some Refusal.file_missing
    else if not (f.changed == 0) || not (f.sha == sha) || not (valid_blocks f)
    then some Refusal.file_changed
    else if not within
    then some Refusal.outside_ceiling
    else offer_refusal c db fid sha

-- The loop over `serves`: a segment with two serves that is not covered.
unfoldable pub max_serve_count : List Segment → ℕ
max_serve_count [] = 0
max_serve_count (x ∷ ss) = max x.c (max_serve_count ss)

unfoldable pub is_exhausted : List Segment → List Segment → Bool
is_exhausted [] tr = false
is_exhausted (x ∷ ss) tr = (x.c == 2 && not (covered tr x.a x.b)) || is_exhausted ss tr

abbrev pub refuse_when : Bool → Refusal → Option Refusal → Option Refusal
refuse_when true r none = some r
refuse_when _ r o = o

abbrev pub is_ready : Option Refusal → Bool
is_ready none = true
is_ready (some _) = false

-- f.Size, which is 0 for the zero File of a missing row.
abbrev pub size_of : Option FileRow → ℕ
size_of none = 0
size_of (some f) = f.size

unfoldable pub prepare_refusal : Config → Bool → Db → ℕ → ℕ → ℕ → Option Refusal
prepare_refusal c within db oid fid sha =
    let f = find_file db fid in
    let tr = segments db.transmitted oid fid in
    refuse_when (is_completed db oid fid || (ltb 0 (size_of f) && count_bytes tr == size_of f))
      Refusal.complete
      (refuse_when (is_exhausted (segments db.serves oid fid) tr) Refusal.coverage_exhausted
        (file_refusal c within db fid sha f))

-- `Prepare`
unfoldable pub prepare : Config → Bool → Db → ℕ → ℕ → ℕ → PrepareAck
prepare c within db oid fid sha =
    let tr = segments db.transmitted oid fid in
    let refusal = prepare_refusal c within db oid fid sha in
    record {
      resume_offset = first_untransmitted tr (size_of (find_file db fid));
      transmitted_bytes = count_bytes tr;
      interval_count = length tr;
      max_serve_count = max_serve_count (segments db.serves oid fid);
      ready = is_ready refusal;
      refusal = refusal;
    }

-- ===== src/Audit/Evidence.antt =====
-- The hash chain of the audit log (internal/audit/audit.go): what the last hash says of the lines.
use mathlib.Core.Option.{some_inj}
use aim_data_gateway.Prelude.{
  ℕ, suc, ◌+◌, ◌^◌, ◌≡◌, refl, sym, ap, subst, ◌∙◌, true, false, Option, none, some, List, [], ◌∷◌,
  ◌++◌, arith, leb, inl, inr, Bool-cases,
}
use aim_data_gateway.Json.Canonical.{same_text, same_text→eq}
use aim_data_gateway.Audit.{Entry, Chain, AuditFile, Crypto, no_chain, utf8_length}
use aim_data_gateway.Audit.Lines.{validate_raw}
use aim_data_gateway.Audit.Open.{
  is_next, add_rotation, read_entry, read_line, read_lines, read_files, extend,
}
use aim_data_gateway.Audit.Chains.{read_files-Parts, then_chain-eq-some}

-- The lines of all files, the newest first.
unfoldable pub all_lines : List AuditFile → List (List ℕ)
all_lines [] = []
all_lines (f ∷ older) = f.lines ++ all_lines older

module _ (crypto : Crypto) where
  -- A line whose entry holds the hash `before`.
  record IsLink (line : List ℕ) (before : List ℕ) : Type 0 where
    entry : Entry
    valid : validate_raw crypto line ≡ some entry
    holds : entry.prev_hash ≡ before

  -- n lines, each with the hash of the line before it, and the hash of the last.
  Spine : List (List ℕ) → ℕ → List ℕ → Type 0
  Spine [] n hash = (n ≡ 0) × (hash ≡ [])
  Spine (line ∷ lines) n hash =
      (m : ℕ) × (before : List ℕ) × ((n ≡ suc m) × (hash ≡ crypto.hash line))
      × (IsLink line before × Spine lines m before)

  is_next-eq : (e : Entry) (c : Chain) → is_next e c ≡ true → e.prev_hash ≡ c.prev
  is_next-eq e c h = elim (Bool-cases (same_text e.prev_hash c.prev)) [
    | inl same ↦ same_text→eq e.prev_hash c.prev same
    | inr differs ↦ absurd (ground (arith, differs, h))
  ]

  read_entry-Spine :
      (line : List ℕ) (lines : List (List ℕ)) (c d : Chain) (o : Option Entry)
      → validate_raw crypto line ≡ o
      → read_entry crypto line c o ≡ some d
      → Spine lines c.seq c.prev
      → Spine (line ∷ lines) d.seq d.prev
  unfolding Spine
  read_entry-Spine line lines c d none v h spine = cc
  read_entry-Spine line lines c d (some e) v h spine = elim (Bool-cases (is_next e c)) [
    | inl next ↦
        let same : extend crypto line e c ≡ d = some_inj.0 (rw next at h) in
        (
          c.seq,
          c.prev,
          (ap (λ x. x.seq) (sym same), ap (λ x. x.prev) (sym same)),
          (record { entry = e; valid = v; holds = is_next-eq e c next }, spine),
        )
    | inr other ↦ absurd (ground (arith, other, h))
  ]

  read_line-Spine :
      (line : List ℕ) (lines : List (List ℕ)) (c d : Chain)
      → read_line crypto line c ≡ some d
      → Spine lines c.seq c.prev
      → Spine (line ∷ lines) d.seq d.prev
  unfolding read_line
  read_line-Spine line lines c d h spine = elim (Bool-cases (leb (utf8_length line + 1) (2 ^ 21))) [
    | inl fits ↦
        read_entry-Spine line lines c d (validate_raw crypto line) refl (rw fits at h) spine
    | inr long ↦ absurd (ground (arith, long, h))
  ]

  read_lines-Spine :
      (lines base : List (List ℕ)) (c d : Chain)
      → read_lines crypto lines c ≡ some d
      → Spine base c.seq c.prev
      → Spine (lines ++ base) d.seq d.prev
  unfolding read_lines
  read_lines-Spine [] base c d h spine =
      let same = some_inj.0 h in subst (λ (x : Chain). Spine base x.seq x.prev) same spine
  read_lines-Spine (line ∷ lines) base c d h spine =
      let a = then_chain-eq-some crypto (read_lines crypto lines c) (read_line crypto line) h in
      read_line-Spine line (lines ++ base) a.0 d a.2 (read_lines-Spine lines base c a.0 a.1 spine)

  add_rotation-Spine :
      (lines : List (List ℕ)) (first path : ℕ) (c : Chain)
      → Spine lines c.seq c.prev
      → Spine lines (add_rotation first path c).seq (add_rotation first path c).prev
  unfolding add_rotation
  add_rotation-Spine lines first path c spine = elim (Bool-cases (leb first c.seq)) [
    | inl le ↦ rw le spine
    | inr gt ↦ rw gt spine
  ]

  read_files-Spine :
      (files : List AuditFile) (c : Chain)
      → read_files crypto false files ≡ some c
      → Spine (all_lines files) c.seq c.prev
  unfolding all_lines read_files Spine
  read_files-Spine [] c h =
      let same : no_chain ≡ c = some_inj.0 h in
      (ap (λ x. x.seq) (sym same), ap (λ x. x.prev) (sym same))
  read_files-Spine (f ∷ older) c h =
      let parts = read_files-Parts crypto f older c h in
      subst (λ (x : Chain). Spine (f.lines ++ all_lines older) x.seq x.prev) parts.chain_eq
        (add_rotation-Spine (f.lines ++ all_lines older) (suc parts.before_file.seq) f.index
          parts.after_lines
          (read_lines-Spine f.lines (all_lines older) parts.before_file parts.after_lines
            parts.lines_eq (read_files-Spine older parts.before_file parts.older_eq)))

  Spine-inj :
      ((s t : List ℕ) → crypto.hash s ≡ crypto.hash t → s ≡ t)
      → (xs ys : List (List ℕ)) (n : ℕ) (hash : List ℕ) → Spine xs n hash
      → Spine ys n hash
      → xs ≡ ys
  unfolding Spine
  Spine-inj inj [] [] n hash x y = refl
  Spine-inj inj [] (l ∷ ys) n hash x (m, before, (count, hashed), (link, rest)) =
      absurd (omega (arith, count, x.0))
  Spine-inj inj (l ∷ xs) [] n hash (m, before, (count, hashed), (link, rest)) y =
      absurd (omega (arith, count, y.0))
  Spine-inj inj (l ∷ xs) (k ∷ ys) n hash (m, before, (count, hashed), (link, rest))
        (m', before', (count', hashed'), (link', rest')) =
      let same_line = inj l k (sym hashed ∙ hashed') in
      let same_entry =
        some_inj.0 (sym link.valid ∙ ap (validate_raw crypto) same_line ∙ link'.valid) in
      let same_before : before ≡ before' =
        sym link.holds ∙ ap (λ (e : Entry). e.prev_hash) same_entry ∙ link'.holds in
      let same_count : m ≡ m' = omega (arith, count, count') in
      ap (λ s. s ∷ xs) same_line
      ∙ ap (λ s. k ∷ s)
          (Spine-inj inj xs ys m' before'
            (subst (λ i. Spine xs i before') same_count (subst (Spine xs m) same_before rest))
            rest')

  -- If the hash has no collisions, two directories whose chains read with the same number of entries and
  -- the same last hash have the same lines, in the same order, however they are split into files.
  pub all_lines_inj :
      ((s t : List ℕ) → crypto.hash s ≡ crypto.hash t → s ≡ t)
      → (files files' : List AuditFile) (c c' : Chain) → read_files crypto false files ≡ some c
      → read_files crypto false files' ≡ some c'
      → c.seq ≡ c'.seq
      → c.prev ≡ c'.prev
      → all_lines files ≡ all_lines files'
  all_lines_inj inj files files' c c' h h' seq prev =
      Spine-inj inj (all_lines files) (all_lines files') c'.seq c'.prev
        (subst (λ p. Spine (all_lines files) c'.seq p) prev
          (subst (λ n. Spine (all_lines files) n c.prev) seq (read_files-Spine files c h)))
        (read_files-Spine files' c' h')

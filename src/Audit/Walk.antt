-- ===== src/Audit/Walk.antt =====
-- `Walk` and `Entries` of internal/audit/audit.go. `unmarshal` is json.Unmarshal of a line into an entry.
use mathlib.Core.Option.{some_inj}
use aim_data_gateway.Prelude.{
  ℕ, suc, ◌+◌, ◌^◌, ◌≡◌, refl, sym, ap, subst, ◌∙◌, true, false, Option, none, some, List, [], ◌∷◌,
  arith, leb, if◌then◌else◌, inl, inr, Bool-cases,
}
use aim_data_gateway.Audit.{Entry, Chain, AuditFile, Crypto, no_chain, utf8_length}
use aim_data_gateway.Audit.Lines.{validate_raw}
use aim_data_gateway.Audit.Open.{
  extend, is_next, add_rotation, read_entry, read_line, read_lines, read_files,
}
use aim_data_gateway.Audit.Chains.{read_files-Parts, then_chain-eq-some}
use aim_data_gateway.Gateway.Runs.{down}

module _ (unmarshal : List ℕ → Option Entry) where
  abbrev pub visit : Option (List Entry) → Option Entry → Option (List Entry)
  visit (some es) (some e) = some (e ∷ es)
  visit _ _ = none

  -- The scanner's buffer holds 2 MiB. The entries that are visited are listed, the newest first.
  unfoldable pub walk_line : List ℕ → Option (List Entry) → Option (List Entry)
  walk_line line visited =
      if leb (utf8_length line + 1) (2 ^ 21) then visit visited (unmarshal line) else none

  unfoldable pub walk_lines : List (List ℕ) → Option (List Entry) → Option (List Entry)
  walk_lines [] visited = visited
  walk_lines (line ∷ older) visited = walk_line line (walk_lines older visited)

  -- The scanner also yields text behind the last newline.
  unfoldable pub walk_torn : List ℕ → Option (List Entry) → Option (List Entry)
  walk_torn [] visited = visited
  walk_torn (x ∷ torn) visited = walk_line (x ∷ torn) visited

  unfoldable pub walk : List AuditFile → Option (List Entry)
  walk [] = some []
  walk (f ∷ older) = walk_torn f.torn (walk_lines f.lines (walk older))

-- The numbers of entries.
unfoldable pub numbers : List Entry → List ℕ
numbers [] = []
numbers (e ∷ es) = e.seq ∷ numbers es

module _ (crypto : Crypto) (unmarshal : List ℕ → Option Entry)
    (agrees : (line : List ℕ) (e : Entry)
      → validate_raw crypto line ≡ some e
      → unmarshal line ≡ some e) where
  -- The walk has listed the entries of the chain.
  Walked : Option (List Entry) → Chain → Type 0
  Walked o c = (es : List Entry) × (o ≡ some es) × (numbers es ≡ down c.seq)

  is_next-seq : (e : Entry) (c : Chain) → is_next e c ≡ true → e.seq ≡ suc c.seq
  is_next-seq e c h = ground (arith, h)

  read_entry-Walked :
      (line : List ℕ) (c d : Chain) (visited : Option (List Entry)) (o : Option Entry)
      → validate_raw crypto line ≡ o
      → read_entry crypto line c o ≡ some d
      → Walked visited c
      → Walked (visit unmarshal visited (unmarshal line)) d
  unfolding Walked numbers down
  read_entry-Walked line c d visited none v h w = cc
  read_entry-Walked line c d visited (some e) v h (es, o, n) = elim (Bool-cases (is_next e c)) [
    | inl next ↦
        let same : extend crypto line e c ≡ d = some_inj.0 (rw next at h) in
        (
          e ∷ es,
          ap (λ x. visit unmarshal x (unmarshal line)) o
              ∙ ap (visit unmarshal (some es)) (agrees line e v),
          ap (λ i. i ∷ numbers es) (is_next-seq e c next)
              ∙ ap (λ s. suc c.seq ∷ s) n
              ∙ ap (λ (x : Chain). down x.seq) same,
        )
    | inr other ↦ absurd (ground (arith, other, h))
  ]

  read_line-Walked :
      (line : List ℕ) (c d : Chain) (visited : Option (List Entry))
      → read_line crypto line c ≡ some d
      → Walked visited c
      → Walked (walk_line unmarshal line visited) d
  unfolding read_line walk_line
  read_line-Walked line c d visited h w = elim (Bool-cases (leb (utf8_length line + 1) (2 ^ 21))) [
    | inl fits ↦
        rw fits
          (read_entry-Walked line c d visited (validate_raw crypto line) refl (rw fits at h) w)
    | inr long ↦ absurd (ground (arith, long, h))
  ]

  read_lines-Walked :
      (lines : List (List ℕ)) (c d : Chain) (visited : Option (List Entry))
      → read_lines crypto lines c ≡ some d
      → Walked visited c
      → Walked (walk_lines unmarshal lines visited) d
  unfolding read_lines walk_lines
  read_lines-Walked [] c d visited h w = subst (Walked visited) (some_inj.0 h) w
  read_lines-Walked (line ∷ lines) c d visited h w =
      let a = then_chain-eq-some crypto (read_lines crypto lines c) (read_line crypto line) h in
      read_line-Walked line a.0 d (walk_lines unmarshal lines visited) a.2
        (read_lines-Walked lines c a.0 visited a.1 w)

  add_rotation-Walked :
      (o : Option (List Entry)) (first path : ℕ) (c : Chain)
      → Walked o c
      → Walked o (add_rotation first path c)
  unfolding add_rotation Walked
  add_rotation-Walked o first path c w = elim (Bool-cases (leb first c.seq)) [
    | inl le ↦ rw le w
    | inr gt ↦ rw gt w
  ]

  -- On files whose chain reads, `Walk` fails at no entry, and visits the entries 1 to the last, each once
  -- and in order.
  pub walk-numbers :
      (files : List AuditFile) (c : Chain)
      → read_files crypto false files ≡ some c
      → (es : List Entry) × (walk unmarshal files ≡ some es) × (numbers es ≡ down c.seq)
  unfolding walk walk_torn Walked read_files numbers down
  walk-numbers [] c h =
      let same : no_chain ≡ c = some_inj.0 h in ([], refl, ap (λ (x : Chain). down x.seq) same)
  walk-numbers (f ∷ older) c h =
      let parts = read_files-Parts crypto f older c h in
      let before = walk-numbers older parts.before_file parts.older_eq in
      let there =
        read_lines-Walked f.lines parts.before_file parts.after_lines (walk unmarshal older)
          parts.lines_eq before in
      let turned =
        add_rotation-Walked (walk_lines unmarshal f.lines (walk unmarshal older))
          (suc parts.before_file.seq) f.index parts.after_lines there in
      let at_end =
        subst (Walked (walk_lines unmarshal f.lines (walk unmarshal older))) parts.chain_eq
          turned in
      subst
        (λ torn.
          Walked (walk_torn unmarshal torn (walk_lines unmarshal f.lines (walk unmarshal older))) c)
        (sym parts.torn_eq) at_end

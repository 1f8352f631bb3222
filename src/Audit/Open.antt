-- ===== src/Audit/Open.antt =====
-- `openWithSync` of internal/audit/audit.go: the chain that the files of the directory hold. The files
-- are given newest first, in the order of their indices; reads, renames and syncs succeed.
use aim_data_gateway.Prelude.{
  ℕ, suc, ◌+◌, ◌^◌, Bool, true, false, ◌&&◌, Option, none, some, List, [], ◌∷◌, leb, ◌==◌,
  if◌then◌else◌,
}
use aim_data_gateway.Json.Canonical.{same_text}
use aim_data_gateway.Audit.{Entry, Chain, Rotation, Log, AuditFile, Crypto, no_chain, utf8_length}
use aim_data_gateway.Audit.Lines.{validate_raw}

abbrev pub then_chain : Option Chain → (Chain → Option Chain) → Option Chain
then_chain none k = none
then_chain (some c) k = k c

-- The newest line becomes the last of the chain.
abbrev pub extend : Crypto → List ℕ → Entry → Chain → Chain
extend crypto line e c = record {
  seq = suc c.seq;
  prev = crypto.hash line;
  last = e;
  rotations = c.rotations;
}

abbrev pub is_next : Entry → Chain → Bool
is_next e c = e.seq == suc c.seq && same_text e.prev_hash c.prev

-- The text behind the last newline is dropped from the newest file, if it leaves room in the buffer of
-- 2 MiB; elsewhere it breaks the chain.
unfoldable pub read_torn : Bool → List ℕ → Chain → Option Chain
read_torn newest [] c = some c
read_torn true (x ∷ torn) c = if leb (utf8_length (x ∷ torn) + 1) (2 ^ 21) then some c else none
read_torn false (x ∷ torn) c = none

-- `if l.seq >= first { l.rotations = append(…) }`
unfoldable pub add_rotation : ℕ → ℕ → Chain → Chain
add_rotation first path c =
    let rotations : List Rotation = record { first = first; path = path } ∷ c.rotations in
    let added : Chain = record {
      seq = c.seq;
      prev = c.prev;
      last = c.last;
      rotations = rotations;
    } in
    if leb first c.seq then added else c

unfoldable pub file_size : List (List ℕ) → ℕ
file_size [] = 0
file_size (line ∷ older) = utf8_length line + 1 + file_size older

unfoldable pub newest_index : List AuditFile → ℕ
newest_index [] = 0
newest_index (f ∷ older) = f.index

unfoldable pub newest_size : List AuditFile → ℕ
newest_size [] = 0
newest_size (f ∷ older) = file_size f.lines

-- The directory once the torn text of its newest file is truncated.
unfoldable pub repaired : List AuditFile → List AuditFile
repaired [] = []
repaired (f ∷ older) = record { index = f.index; lines = f.lines; torn = [] } ∷ older

module _ (crypto : Crypto) where
  abbrev pub read_entry : List ℕ → Chain → Option Entry → Option Chain
  read_entry line c none = none
  read_entry line c (some e) = if is_next e c then some (extend crypto line e c) else none

  -- The buffer of the reader holds 2 MiB.
  unfoldable pub read_line : List ℕ → Chain → Option Chain
  read_line line c =
      let next = read_entry line c (validate_raw crypto line) in
      if leb (utf8_length line + 1) (2 ^ 21) then next else none

  unfoldable pub read_lines : List (List ℕ) → Chain → Option Chain
  read_lines [] c = some c
  read_lines (line ∷ older) c = then_chain (read_lines older c) (read_line line)

  abbrev pub add_file : ℕ → AuditFile → Option Chain → Option Chain
  add_file first f none = none
  add_file first f (some c) = some (add_rotation first f.index c)

  unfoldable pub read_file : Bool → AuditFile → Chain → Option Chain
  read_file newest f c =
      add_file (suc c.seq) f (then_chain (read_lines f.lines c) (read_torn newest f.torn))

  unfoldable pub read_files : Bool → List AuditFile → Option Chain
  read_files newest [] = some no_chain
  read_files newest (f ∷ older) = then_chain (read_files false older) (read_file newest f)

  abbrev pub log_of : List AuditFile → Option Chain → Option (Log × List AuditFile)
  log_of files none = none
  log_of files (some c) = some (
    record {
      chain = c;
      index = newest_index files;
      size = newest_size files;
      cursor = record { seq = 0; path = 0; offset = 0 };
      failed = false;
    },
    repaired files,
  )

  -- `Open`
  unfoldable pub open_log : List AuditFile → Option (Log × List AuditFile)
  open_log files = log_of files (read_files true files)

-- ===== src/Audit/Append.antt =====
-- `Append` of internal/audit/audit.go.
use aim_data_gateway.Prelude.{
  ℕ, zero, suc, ◌+◌, ◌^◌, Bool, true, false, not, ◌&&◌, ◌||◌, Option, none, some, List, [], ◌∷◌,
  ltb, ◌==◌, if◌then◌else◌,
}
use aim_data_gateway.Json.{Json}
use aim_data_gateway.Json.Canonical.{same_text}
use aim_data_gateway.Audit.{Entry, Chain, Rotation, Log, AuditFile, Crypto, utf8_length}
use aim_data_gateway.Audit.Lines.{scan_report, canonical_text, unsigned_json, line_of, validate_raw}
use aim_data_gateway.Audit.Open.{extend}

-- RotationBytes
abbrev pub rotation_bytes : ℕ
rotation_bytes = 100000000

abbrev pub message_types : List (List ℕ)
message_types =
    (105 ∷ 110 ∷ 118 ∷ 101 ∷ 110 ∷ 116 ∷ 111 ∷ 114 ∷ 121 ∷ [])
    ∷ (100 ∷ 101 ∷ 115 ∷ 99 ∷ 114 ∷ 105 ∷ 112 ∷ 116 ∷ 105 ∷ 111 ∷ 110 ∷ [])
    ∷ (114 ∷ 101 ∷ 99 ∷ 101 ∷ 105 ∷ 112 ∷ 116 ∷ [])
    ∷ (99 ∷ 97 ∷ 110 ∷ 97 ∷ 114 ∷ 121 ∷ 95 ∷ 114 ∷ 101 ∷ 115 ∷ 117 ∷ 108 ∷ 116 ∷ [])
    ∷ (114 ∷ 101 ∷ 118 ∷ 111 ∷ 99 ∷ 97 ∷ 116 ∷ 105 ∷ 111 ∷ 110 ∷ 95 ∷ 97 ∷ 99 ∷ 107 ∷ [])
    ∷ (111 ∷ 102 ∷ 102 ∷ 101 ∷ 114 ∷ 95 ∷ 97 ∷ 99 ∷ 107 ∷ [])
    ∷ (112 ∷ 114 ∷ 101 ∷ 112 ∷ 97 ∷ 114 ∷ 101 ∷ 95 ∷ 97 ∷ 99 ∷ 107 ∷ [])
    ∷ (101 ∷ 114 ∷ 114 ∷ 111 ∷ 114 ∷ [])
    ∷ (115 ∷ 99 ∷ 97 ∷ 110 ∷ 95 ∷ 114 ∷ 101 ∷ 112 ∷ 111 ∷ 114 ∷ 116 ∷ [])
    ∷ []

unfoldable pub is_one_of : List ℕ → List (List ℕ) → Bool
is_one_of s [] = false
is_one_of s (t ∷ ts) = same_text t s || is_one_of s ts

unfoldable pub allowed : List ℕ → Bool
allowed s = is_one_of s message_types

-- How the file system answers: all is stored; the file cannot be opened; the write fails and leaves the
-- first n characters of the line; the line is written, but its sync or close fails; or the sync of the
-- directory fails, which is asked for when the file is new.
pub data Outcome : Type 0 where
  stored : Outcome
  open_failed : Outcome
  write_failed : ℕ → Outcome
  sync_failed : Outcome
  directory_failed : Outcome

unfoldable pub take : ℕ → List ℕ → List ℕ
take zero s = []
take (suc n) [] = []
take (suc n) (c ∷ s) = c ∷ take n s

abbrev pub add_line : List ℕ → AuditFile → AuditFile
add_line line f = record { index = f.index; lines = line ∷ f.lines; torn = f.torn }

abbrev pub add_torn : List ℕ → AuditFile → AuditFile
add_torn text f = record { index = f.index; lines = f.lines; torn = text }

abbrev pub new_file : ℕ → AuditFile
new_file path = record { index = path; lines = []; torn = [] }

-- A write to the end of the file of that index, which is created where there is none.
unfoldable pub write_to : ℕ → (AuditFile → AuditFile) → List AuditFile → List AuditFile
write_to path change [] = change (new_file path) ∷ []
write_to path change (f ∷ older) =
    let rest = f ∷ write_to path change older in
    if f.index == path
    then change f ∷ older
    else if ltb f.index path
    then change (new_file path) ∷ f ∷ older
    else rest

abbrev pub with_place : ℕ → ℕ → Bool → Log → Log
with_place index size failed log = record {
  chain = log.chain;
  index = index;
  size = size;
  cursor = log.cursor;
  failed = failed;
}

-- The next file, once this one would exceed its size.
unfoldable pub rotated : ℕ → Log → Log
rotated bytes log =
    if ltb rotation_bytes (log.size + bytes + 1) && ltb 0 log.size
    then with_place (suc log.index) 0 log.failed log
    else log

-- The chain with a line more, and its rotation if it is the first line of its file.
unfoldable pub appended : Crypto → List ℕ → Entry → Log → Chain
appended crypto line e log =
    let next = extend crypto line e log.chain in
    let rotations : List Rotation =
      record { first = suc log.chain.seq; path = log.index } ∷ log.chain.rotations in
    if log.size == 0
    then record { seq = next.seq; prev = next.prev; last = e; rotations = rotations }
    else next

module _ (crypto : Crypto) where
  abbrev pub unsigned_entry : Chain → List ℕ → List ℕ → Json → Entry
  unsigned_entry c now message_type body = record {
    seq = suc c.seq;
    time = now;
    message_type = message_type;
    body = body;
    prev_hash = c.prev;
    sig = [];
  }

  unfoldable pub new_entry : Chain → List ℕ → List ℕ → Json → Entry
  new_entry c now message_type body =
      let sig =
        crypto.sign (canonical_text (unsigned_json (unsigned_entry c now message_type body))) in
      record {
        seq = suc c.seq;
        time = now;
        message_type = message_type;
        body = body;
        prev_hash = c.prev;
        sig = sig;
      }

  abbrev pub Answer : Type 0
  Answer = Option Entry × (Log × List AuditFile)

  abbrev pub stored_answer : Entry → List ℕ → Log → List AuditFile → Answer
  stored_answer e line log files =
      let size = log.size + (utf8_length line + 1) in
      let log' : Log = record {
        chain = appended crypto line e log;
        index = log.index;
        size = size;
        cursor = log.cursor;
        failed = log.failed;
      } in
      (some e, (log', write_to log.index (add_line line) files))

  abbrev pub failed_answer : Log → List AuditFile → Answer
  failed_answer log files = (none, (with_place log.index log.size true log, files))

  -- The write of a line, in a log that is at the file to write.
  unfoldable pub write_entry : Outcome → Entry → List ℕ → Log → List AuditFile → Answer
  write_entry stored e line log files = stored_answer e line log files
  write_entry open_failed e line log files = (none, (log, files))
  write_entry (write_failed n) e line log files =
      failed_answer log (write_to log.index (add_torn (take n line)) files)
  write_entry sync_failed e line log files =
      failed_answer log (write_to log.index (add_line line) files)
  write_entry directory_failed e line log files =
      let failing = failed_answer log (write_to log.index (add_line line) files) in
      let storing = stored_answer e line log files in if log.size == 0 then failing else storing

  abbrev pub write_valid : Outcome → List ℕ → Entry → Option Entry → Log → List AuditFile → Answer
  write_valid outcome line e none log files = (none, (log, files))
  write_valid outcome line e (some checked) log files =
      write_entry outcome e line (rotated (utf8_length line) log) files

  abbrev pub is_oversized : Entry → List ℕ → Bool
  is_oversized e line = same_text e.message_type scan_report && ltb (2 ^ 20) (utf8_length line)

  -- The body is what json.Marshal makes of the source's argument, and `now` the time.
  unfoldable pub append : Outcome → List ℕ → List ℕ → Json → Log → List AuditFile → Answer
  append outcome now message_type body log files =
      let e = new_entry log.chain now message_type body in
      let line = line_of e in
      let writing = write_valid outcome line e (validate_raw crypto line) log files in
      if log.failed
      then (none, (log, files))
      else if not (allowed message_type)
      then (none, (log, files))
      else if same_text message_type scan_report && not (crypto.scan_report_ok body)
      then (none, (log, files))
      else if is_oversized e line
      then (none, (log, files))
      else writing

-- ===== src/Audit.antt =====
-- The audit log, internal/audit/audit.go: a directory of files, each of lines, each line the canonical
-- text of an entry that is signed and holds the hash of the line before it.
pub mod Lines
pub mod Open
pub mod Append
pub mod Validation
pub mod Chains
pub mod Recovery
pub mod Durability
pub mod History
pub mod Reach
pub mod Evidence
pub mod Walk
pub mod Success
use aim_data_gateway.Prelude.{ℕ, ◌+◌, Bool, false, List, [], ◌∷◌, ltb, if◌then◌else◌}
use aim_data_gateway.Json.{Json, null}

-- `Body` is held as its value, whose canonical text is the source's json.RawMessage.
pub record Entry : Type 0 where
  pub seq : ℕ
  pub time : List ℕ
  pub message_type : List ℕ
  pub body : Json
  pub prev_hash : List ℕ
  pub sig : List ℕ

pub record Rotation : Type 0 where
  pub first : ℕ
  pub path : ℕ

pub record Cursor : Type 0 where
  pub seq : ℕ
  pub path : ℕ
  pub offset : ℕ

-- The fields of `Log` that follow from the entries: seq, prev, last and rotations, the newest first.
pub record Chain : Type 0 where
  pub seq : ℕ
  pub prev : List ℕ
  pub last : Entry
  pub rotations : List Rotation

-- The other fields of `Log`. The index of a file stands for its path.
pub record Log : Type 0 where
  pub chain : Chain
  pub index : ℕ
  pub size : ℕ
  pub cursor : Cursor
  pub failed : Bool

-- A file: its lines, the newest first, and the text behind the last newline.
pub record AuditFile : Type 0 where
  pub index : ℕ
  pub lines : List (List ℕ)
  pub torn : List ℕ

abbrev pub no_entry : Entry
no_entry = record { seq = 0; time = []; message_type = []; body = null; prev_hash = []; sig = [] }

abbrev pub no_chain : Chain
no_chain = record { seq = 0; prev = []; last = no_entry; rotations = [] }

-- What the log uses of its environment: the hash of a line, in hexadecimal, the signature of a text by
-- the gateway's key, in hexadecimal, its verification by the public key, and the check of scan reports.
pub record Crypto : Type 0 where
  pub hash : List ℕ → List ℕ
  pub sign : List ℕ → List ℕ
  pub verify : List ℕ → List ℕ → Bool
  pub scan_report_ok : Json → Bool

-- The bytes of a code point and of a text in UTF-8.
unfoldable pub utf8_width : ℕ → ℕ
utf8_width c = if ltb c 128 then 1 else if ltb c 2048 then 2 else if ltb c 65536 then 3 else 4

unfoldable pub utf8_length : List ℕ → ℕ
utf8_length [] = 0
utf8_length (c ∷ s) = utf8_width c + utf8_length s

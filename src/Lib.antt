-- ===== src/Lib.antt =====
-- The transfer ledger of the data gateway, its verification admissions, the suppression of small
-- counts in its census, the checks of its download door, its audit log with the canonical texts that it
-- is made of, and the passage of receipts from the ledger into that log.
--
-- A buyer downloads a file of an order through the door (internal/door/door.go), which asks the ledger
-- (internal/ledger/ledger.go) to reserve a byte range, writes it in chunks through the ledger, and
-- settles the request. The ledger counts for every byte of an order and file how often it was served,
-- at most twice, and which bytes are transmitted, and queues the receipts that the control channel
-- delivers. Verification jobs are admitted by the same database (internal/ledger/verification.go), and
-- what a scan publishes is suppressed where it is small (verification/occupancy.go). The gateway
-- process (internal/gateway/gateway.go) polls the ledger's outbox and appends every receipt to the audit
-- log (internal/audit/audit.go), whose lines are canonical JSON (internal/wire/wire.go). Facts of scans
-- have a canonical form of their own (verification/canonical.go).
--
--   Prelude          Boolean tests, integers, tables as lists of rows, error results, transactions
--   Segment          type segment, transform, covered, firstUntransmitted, countBytes, normalize
--   Ledger/State     the schema: one record per table row, and Db with all tables
--   Ledger/Receipt   receiptTx, queueTx and the receipts_outbox operations
--   Ledger/Reserve   Reserve, as its checks, its range and its writes
--   Ledger/Settle    FinishEmpty, Progress, settle, SettleOutcome, Recover, RecoverRequest
--   Ledger/Control   Seen, PutFile, MarkChanged, PutOffer, Approve, CloseExpired, Revoke, RevokeInstruction
--   Ledger/Write     WriteChunk and its loop
--   Ledger/Prepare   Prepare and WithinCeiling
--   Ledger/Accounts  the books: requests against the tables serves and transmitted, over all calls
--   Ledger/Admission Admit and the life of an admission
--   Door             parseRange, token, and download up to its reservation, and the Reserve after it
--   Census           countBand, sizeBucket, population, findingState, partCount, byteCount, partition, censusRaw
--   Json             values of JSON; how they are written, and read by jsonValue and value
--   Json/Canonical   Canonical and ParseCanonical of verification/canonical.go
--   Audit            Entry, Log and its files
--   Audit/Lines      ValidateRaw
--   Audit/Open       Open, as the chain that the files hold
--   Audit/Append     Append and rotation, with the failures of its writes
--   Audit/Recovery, Durability, History, Reach
--                    a write and the opening after it, and all states over calls and restarts
--   Audit/Success    a call of Append on a log that works
--   Audit/Walk       Walk and Entries
--   Audit/Evidence   what the last hash says of the lines
--   Gateway/Poll     Open, Poll, Delivered and Reconcile, as far as they move receipts
--   Gateway/Delivery, History, Progress
--                    receipts over rounds of Poll and restarts
--   Gateway/Keys     key_rotation and minimum_version of Handle, appendUniqueKeys, keyMap
--   Gateway/Bootstrap
--                    VerificationControl for a bootstrap of scan keys, and ValidateKeySet
--   Gateway/Offers   offer and unoffer of Handle, and Prepare after them
--   Tests            runs at concrete inputs
--
-- A call is a function from the database to its answer and the next database. `tx` rolls back on an
-- error, as the source's transactions do. A clock reading is an argument; where the source reads the
-- clock twice in one transaction the model reads it once. Strings that are only compared are numbers.
-- `written_through`, which is -1 before the first byte, is kept one higher, as `next`. Sizes and
-- counts are natural numbers: they count bytes of files and rows and stay far below 2^63.
--
-- A text is a list of code points, which the source's checks of UTF-8 allow; sizes in bytes are those of
-- UTF-8. A map of JSON is the list of its members by ascending key. The tokens of encoding/json are
-- modelled as its documentation states them: the grammar of numbers, the escapes of strings with the
-- replacement of lone surrogates, and space between tokens. float64, SHA-256 and ed25519 are parameters,
-- and so is the check of a scan report's body. The directory of the log is a list of files, the newest
-- first, each a list of lines and the text behind its last newline; a line holds no newline, since the
-- writer escapes it. A write of Append may fail with any number of the line's characters on disk.
--
-- Fuel and ends of loops: the environment of `write_chunk` is a list of rounds, and more rounds than
-- bytes are enough, since each round that goes on has written a byte. The loop of `partition` that
-- merges small cells has as many rounds as there are cells, and deletes one in each. The readers of JSON
-- take as much fuel as the text has characters and one more: a round that goes on has read a character.
--
-- Not modelled: SQL errors other than violated constraints, the opening of the database file, the
-- signature of a receipt (the model keeps the receipt that is signed), and the locks of a transfer,
-- whose effect is that the calls of one order and file do not overlap. The resolution of symbolic links
-- and filepath.Match are arguments. Of the audit log, Read with its cursor and the failures of file reads
-- are left out; of the gateway, the inventory, descriptions and the rest of the dispatch.
-- The scanner and its readers, the channel, the runner and the cloud deployments are outside of this
-- library.
pub mod Prelude
pub mod Segment
pub mod Ledger
pub mod Door
pub mod Census
pub mod Json
pub mod Audit
pub mod Gateway
pub mod Tests

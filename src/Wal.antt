-- ===== src/Wal.antt =====
-- src/wal.rs: the write-ahead log. A log's file and buffer are a `BufAppend`; the path and the
-- rename of the file are the database's.
pub mod Decode
pub mod Replay
pub mod Append
pub mod Crash
pub mod Reopen
pub mod Examples
use lsm_tree_key_value_stora.Prelude.{
  ℕ, zero, suc, ◌+◌, ◌%◌, ◌^◌, Bool, true, false, ◌&&◌, not, Option, none, some, List, [], ◌∷◌,
  ◌++◌, length, take, ltb, leb, ◌==◌, if◌then◌else◌,
}
use lsm_tree_key_value_stora.Errors.{
  Error, Result, ok, err, io, corrupt, bad_format, not_found, wal_frame_too_short,
  wal_trailing_bytes, v1_cannot_batch, ◌>>=◌,
}
use lsm_tree_key_value_stora.Bytes.{Bytes, to_le, from_le, slice}
use lsm_tree_key_value_stora.Record.{Record, decode_at, encode_into}
use lsm_tree_key_value_stora.Header
use lsm_tree_key_value_stora.Header.{
  Hashes, Checksum, Kind, empty, versioned, legacy, hash, wal_checksum, wal_magic, wal_version,
  header_len, classify, frames_start,
}
use lsm_tree_key_value_stora.Frames.{next_frame}
use lsm_tree_key_value_stora.Files
use lsm_tree_key_value_stora.Files.{
  Exec, ◌then_do◌, SyncMode, durable, File, BufAppend, flush, write, sync_file_as,
}

-- `struct Wal`, without its path.
pub record Wal : Type 0 where
  pub file : BufAppend
  pub sync : SyncMode
  pub checksum : Checksum
  pub counted : Bool

-- `!matches!(kind, Kind::Legacy | Kind::Versioned(1))`
unfoldable pub is_counted : Kind → Bool
is_counted legacy = false
is_counted empty = true
is_counted (versioned v) = not (v == 1)

abbrev pub finish : Result (Unit {0}) × BufAppend → Wal → Result Wal
finish (ok u, b) w = ok (record w { file = b })
finish (err e, b) w = err e

abbrev pub write_header : Exec BufAppend (Unit {0})
write_header = write (Header.encode wal_magic wal_version) then_do flush

-- `opened` is the answer of `fs.open(path, OpenMode::Truncate)`.
unfoldable pub create : Result File → SyncMode → Result Wal
create opened sync = opened >>= λ f.
    let w : Wal = record {
      file = Files.new f;
      sync = sync;
      checksum = wal_checksum (versioned wal_version);
      counted = true;
    } in
    finish (write_header w.file) w

abbrev effective : Kind → Kind
effective empty = versioned wal_version
effective (versioned v) = versioned v
effective legacy = legacy

-- `opened`, `size` and `read` are the answers of `fs.open(path, OpenMode::Append)`, of `file.size()` and
-- of `file.read_at(0, &mut front)`, the bytes that it read: a read may be short.
unfoldable pub open_append : Result File → Result ℕ → Result Bytes → SyncMode → Result Wal
open_append opened size read sync = opened >>= λ f. size >>= λ existing.
    (if existing == 0 then ok [] else read) >>= λ front.
    classify front wal_magic wal_version >>= λ kind.
    let w : Wal = record {
      file = Files.new f;
      sync = sync;
      checksum = wal_checksum (effective kind);
      counted = is_counted (effective kind);
    } in
    if existing == 0 then finish (write_header w.file) w else ok w

-- The loop over the records of a batch.
unfoldable pub encode_all : List Record → Bytes → Bytes
encode_all [] buf = buf
encode_all (r ∷ rs) buf = encode_all rs (encode_into r buf)

unfoldable pub payload_of : Bool → List Record → Bytes
payload_of counted rs = encode_all rs (if counted then to_le 4 (length rs % 2 ^ 32) else [])

-- The three writes, the flush and the sync that end an append.
unfoldable pub append_payload : Hashes → Checksum → SyncMode → Bytes → Exec BufAppend (Unit {0})
append_payload h c mode payload =
    write (to_le 4 (hash h c payload))
    then_do write (to_le 4 (length payload % 2 ^ 32))
    then_do write payload
    then_do flush
    then_do sync_file_as mode

unfoldable pub append_batch : Hashes → List Record → Wal → Result (Unit {0}) × Wal
append_batch h records w =
    if length records == 0
    then (ok tt, w)
    else if not w.counted && ltb 1 (length records)
    then (err (bad_format (v1_cannot_batch (length records))), w)
    else (let (r, b) = append_payload h w.checksum w.sync (payload_of w.counted records) w.file in
        (r, record w { file = b }))

unfoldable pub append : Hashes → Record → Wal → Result (Unit {0}) × Wal
append h r w = append_batch h (r ∷ []) w

unfoldable pub sync : Wal → Result (Unit {0}) × Wal
sync w = let (r, b) = (flush then_do sync_file_as durable) w.file in (r, record w { file = b })

-- `for _ in 0..count { batch.push(Record::decode_at(payload, &mut rpos)?) }`
unfoldable pub decode_records : ℕ → Bytes → ℕ → List Record → Result (List Record × ℕ)
decode_records zero payload rpos batch = ok (batch, rpos)
decode_records (suc count) payload rpos batch =
    decode_at payload rpos >>= λ p. decode_records count payload p.1 (batch ++ (p.0 ∷ []))

-- The number of records in a payload, and the position of the first.
unfoldable pub batch_count : Bool → Bytes → Result (ℕ × ℕ)
batch_count false payload = ok (1, 0)
batch_count true payload =
    if ltb (length payload) 4
    then err (corrupt wal_frame_too_short)
    else ok (from_le (slice payload 0 4), 4)

abbrev pub all_read : Bytes → List Record × ℕ → Result (List Record)
all_read payload (batch, rpos) =
    if rpos == length payload then ok batch else err (corrupt wal_trailing_bytes)

unfoldable pub decode_payload : Bool → Bytes → Result (List Record)
decode_payload counted payload = batch_count counted payload >>= λ p.
    decode_records p.0 payload p.1 [] >>= λ q. all_read payload q

-- The loop of `replay`. Each round moves `pos` by eight bytes or more, so a fuel above the number
-- of bytes never runs out.
unfoldable pub replay_frames :
    Hashes → Checksum → Bool → ℕ → Bytes → ℕ → List Record → Result (List Record)
replay_frames h c counted zero bytes pos records = ok records
replay_frames h c counted (suc fuel) bytes pos records = elim (next_frame h c bytes pos) [
  | none ↦ ok records
  | some (payload, end) ↦ decode_payload counted payload >>= λ batch.
      replay_frames h c counted fuel bytes end (records ++ batch)
]

unfoldable pub replay_kind : Hashes → Bytes → Kind → Result (List Record)
replay_kind h bytes empty = ok []
replay_kind h bytes (versioned v) =
    replay_frames h (wal_checksum (versioned v)) (is_counted (versioned v)) (suc (length bytes))
      bytes (frames_start (versioned v)) []
replay_kind h bytes legacy =
    replay_frames h (wal_checksum legacy) (is_counted legacy) (suc (length bytes)) bytes
      (frames_start legacy) []

unfoldable pub replay_bytes : Hashes → Bytes → Result (List Record)
replay_bytes h bytes = classify bytes wal_magic wal_version >>= λ kind. replay_kind h bytes kind

-- `opened` is the answer of `fs.open(path, OpenMode::Read)`; an open file stands for the answer of its
-- `read_all`.
unfoldable pub replay : Hashes → Result (Result Bytes) → Result (List Record)
replay h (ok read) = read >>= λ bytes. replay_bytes h bytes
replay h (err (io not_found)) = ok []
replay h (err e) = err e

-- ===== src/Manifest.antt =====
-- src/manifest.rs: the log of the changes to the set of live tables and to the counters, and its
-- replay. The directory and `CURRENT` are not modelled; a generation's file is a `BufAppend`.
pub mod Edits
pub mod Replay
pub mod Append
pub mod Examples
use lsm_tree_key_value_stora.Prelude.{
  ℕ, zero, suc, ◌-◌, ◌%◌, ◌^◌, ◌&&◌, Option, none, some, List, [], ◌∷◌, ◌++◌, length, ltb, ◌==◌,
  if◌then◌else◌,
}
use lsm_tree_key_value_stora.Order.{nat_ord}
use lsm_tree_key_value_stora.SortedMap.{Entries, insert, remove}
use lsm_tree_key_value_stora.Errors.{
  Error, Result, ok, err, io, corrupt, not_found, bad_payload_length, bad_edit_tag,
  no_readable_frame, ◌>>=◌,
}
use lsm_tree_key_value_stora.Bytes.{Bytes, to_le, from_le, slice}
use lsm_tree_key_value_stora.Record.{first_byte}
use lsm_tree_key_value_stora.Header.{
  Hashes, Checksum, Kind, empty, versioned, legacy, hash, manifest_checksum, manifest_magic,
  manifest_version, classify, frames_start,
}
use lsm_tree_key_value_stora.Frames.{next_frame}
use lsm_tree_key_value_stora.Files
use lsm_tree_key_value_stora.Files.{Exec, ◌then_do◌, BufAppend, write}

abbrev pub payload_len : ℕ
payload_len = 9

pub data VersionEdit : Type 0 where
  add_table delete_table set_next_seq set_next_sst_id : ℕ → VersionEdit

abbrev tag_body : VersionEdit → ℕ × ℕ
tag_body (add_table id) = (0, id)
tag_body (delete_table id) = (1, id)
tag_body (set_next_seq s) = (2, s)
tag_body (set_next_sst_id id) = (3, id)

unfoldable pub encode : VersionEdit → Bytes
encode e = (tag_body e).0 ∷ to_le 8 (tag_body e).1

abbrev edit_of : ℕ → ℕ → Result VersionEdit
edit_of tag body =
    if tag == 0
    then ok (add_table body)
    else if tag == 1
    then ok (delete_table body)
    else if tag == 2
    then ok (set_next_seq body)
    else if tag == 3
    then ok (set_next_sst_id body)
    else err (corrupt (bad_edit_tag tag))

unfoldable pub decode : Bytes → Result VersionEdit
decode payload =
    if length payload == payload_len
    then edit_of (first_byte payload) (from_le (slice payload 1 9))
    else err (corrupt bad_payload_length)

-- `BTreeSet<u64>` is a map whose values say nothing.
pub record ManifestState : Type 0 where
  pub live_tables : Entries ℕ (Unit {0})
  pub next_seq : ℕ
  pub next_sst_id : ℕ

-- `ManifestState::default()`
abbrev pub no_tables : ManifestState
no_tables = record { live_tables = []; next_seq = 0; next_sst_id = 0 }

unfoldable pub apply : VersionEdit → ManifestState → ManifestState
apply (add_table id) s = record s { live_tables = insert id tt s.live_tables }
apply (delete_table id) s = record s { live_tables = remove id s.live_tables }
apply (set_next_seq n) s = record s { next_seq = n }
apply (set_next_sst_id id) s = record s { next_sst_id = id }

abbrev pub add_tables : Entries ℕ (Unit {0}) → List VersionEdit
add_tables [] = []
add_tables (e ∷ m) = add_table e.0 ∷ add_tables m

unfoldable pub snapshot_edits : ManifestState → List VersionEdit
snapshot_edits s =
    set_next_seq s.next_seq ∷ (set_next_sst_id s.next_sst_id ∷ add_tables s.live_tables)

-- The loop of `append_batch`: three writes for each edit.
unfoldable pub write_edits : Hashes → Checksum → List VersionEdit → Exec BufAppend (Unit {0})
write_edits h c [] b = (ok tt, b)
write_edits h c (e ∷ es) b =
    (write (to_le 4 (hash h c (encode e)))
        then_do write (to_le 4 (length (encode e) % 2 ^ 32))
        then_do write (encode e)
        then_do write_edits h c es)
      b

unfoldable pub append_batch : Hashes → Checksum → List VersionEdit → Exec BufAppend (Unit {0})
append_batch h c edits = write_edits h c edits then_do Files.sync

-- The loop of `replay`; the second part of the answer is the count of frames.
unfoldable pub replay_edits :
    Hashes → Checksum → ℕ → Bytes → ℕ → ManifestState → ℕ → Result (ManifestState × ℕ)
replay_edits h c zero bytes pos state frames = ok (state, frames)
replay_edits h c (suc fuel) bytes pos state frames = elim (next_frame h c bytes pos) [
  | none ↦ ok (state, frames)
  | some (payload, end) ↦
      decode payload >>= λ edit. replay_edits h c fuel bytes end (apply edit state) (suc frames)
]

-- A manifest with bytes behind its header and no readable frame is refused.
abbrev pub checked : Bytes → ℕ → ManifestState × ℕ → Result ManifestState
checked bytes first_frame (state, frames) =
    if frames == 0 && ltb first_frame (length bytes)
    then err (corrupt (no_readable_frame (length bytes - first_frame)))
    else ok state

unfoldable pub replay_kind : Hashes → Bytes → Kind → Result ManifestState
replay_kind h bytes empty = ok no_tables
replay_kind h bytes (versioned v) =
    replay_edits h (manifest_checksum (versioned v)) (suc (length bytes)) bytes
      (frames_start (versioned v)) no_tables 0
    >>= λ p. checked bytes (frames_start (versioned v)) p
replay_kind h bytes legacy =
    replay_edits h (manifest_checksum legacy) (suc (length bytes)) bytes (frames_start legacy)
      no_tables 0
    >>= λ p. checked bytes (frames_start legacy) p

unfoldable pub replay_bytes : Hashes → Bytes → Result ManifestState
replay_bytes h bytes =
    classify bytes manifest_magic manifest_version >>= λ kind. replay_kind h bytes kind

-- `opened` is the answer of `fs.open(path, OpenMode::Read)`; an open file stands for the answer of its
-- `read_all`.
unfoldable pub replay : Hashes → Result (Result Bytes) → Result ManifestState
replay h (ok read) = read >>= λ bytes. replay_bytes h bytes
replay h (err (io not_found)) = ok no_tables
replay h (err e) = err e

-- ===== src/Frames.antt =====
-- The frames of the two logs (src/wal.rs, src/manifest.rs): `[crc32:4][payload_len:4][payload]`.
pub mod Laws
pub mod Torn
use lsm_tree_key_value_stora.Prelude.{
  ℕ, ◌+◌, ◌%◌, ◌^◌, ◌&&◌, Option, none, some, List, ◌++◌, length, ltb, leb, ◌==◌, if◌then◌else◌,
}
use lsm_tree_key_value_stora.Bytes.{Bytes, to_le, from_le, slice}
use lsm_tree_key_value_stora.Record.{usize_mod}
use lsm_tree_key_value_stora.Header.{Hashes, Checksum, hash}

-- crc32 + payload_len
abbrev pub frame_header : ℕ
frame_header = 8

-- The three writes of an append.
unfoldable pub frame : Hashes → Checksum → Bytes → Bytes
frame h c payload = to_le 4 (hash h c payload) ++ (to_le 4 (length payload % 2 ^ 32) ++ payload)

-- The test of the replay loop and the head of its body: the payload of the frame at `pos` and the
-- position behind it, or nothing where the loop ends or breaks.
unfoldable pub next_frame : Hashes → Checksum → Bytes → ℕ → Option (Bytes × ℕ)
next_frame h c bytes pos =
    if leb (pos + frame_header) (length bytes)
    then (let crc = from_le (slice bytes pos (pos + 4)) in
        let len = from_le (slice bytes (pos + 4) (pos + 8)) in
        let start = pos + frame_header in
        let end = start + len in
        if ltb end usize_mod && leb end (length bytes)
        then (let payload = slice bytes start end in
            if hash h c payload == crc then some (payload, end) else none)
        else none)
    else none

-- ===== src/Header.antt =====
-- src/header.rs: the eight bytes at the front of a log file, `[magic:4][version:u16][reserved:u16]`,
-- and the checksum that the version selects. The two CRCs are functions of the crates `crc32fast`
-- and `crc32c`; they are the parameter `Hashes`.
pub mod Laws
pub mod Examples
use lsm_tree_key_value_stora.Prelude.{
  ℕ, ◌+◌, ◌^◌, ◌<◌, Bool, ◌&&◌, List, [], ◌∷◌, ◌++◌, length, ltb, leb, ◌==◌, if◌then◌else◌,
}
use lsm_tree_key_value_stora.Order.{key_eq, bytes_ord}
use lsm_tree_key_value_stora.Errors.{Result, ok, err, bad_format, newer_version}
use lsm_tree_key_value_stora.Bytes.{Bytes, to_le, from_le, slice}

-- `crc32fast::hash` and `crc32c::crc32c`, which return a `u32`.
pub record Hashes : Type 0 where
  pub iso_hdlc : Bytes → ℕ
  pub castagnoli : Bytes → ℕ
  pub iso_hdlc_fits : (b : Bytes) → iso_hdlc b < 2 ^ 32
  pub castagnoli_fits : (b : Bytes) → castagnoli b < 2 ^ 32

abbrev pub header_len : ℕ
header_len = 8

abbrev pub wal_version : ℕ
wal_version = 3

abbrev pub manifest_version : ℕ
manifest_version = 2

pub data Checksum : Type 0 where
  iso_hdlc castagnoli : Checksum

unfoldable pub hash : Hashes → Checksum → Bytes → ℕ
hash h Checksum.iso_hdlc bytes = h.iso_hdlc bytes
hash h Checksum.castagnoli bytes = h.castagnoli bytes

-- What the first bytes of a file turned out to be.
pub data Kind : Type 0 where
  empty : Kind
  versioned : ℕ → Kind
  legacy : Kind

unfoldable pub wal_checksum : Kind → Checksum
wal_checksum (versioned v) = if leb 3 v then Checksum.castagnoli else Checksum.iso_hdlc
wal_checksum empty = Checksum.iso_hdlc
wal_checksum legacy = Checksum.iso_hdlc

unfoldable pub manifest_checksum : Kind → Checksum
manifest_checksum (versioned v) = if leb 2 v then Checksum.castagnoli else Checksum.iso_hdlc
manifest_checksum empty = Checksum.iso_hdlc
manifest_checksum legacy = Checksum.iso_hdlc

-- `b"LSMW"` and `b"LSMM"`
abbrev pub wal_magic : Bytes
wal_magic = b'L' ∷ b'S' ∷ b'M' ∷ b'W' ∷ []

abbrev pub manifest_magic : Bytes
manifest_magic = b'L' ∷ b'S' ∷ b'M' ∷ b'M' ∷ []

-- The reserved bytes stay zero.
unfoldable pub encode : Bytes → ℕ → Bytes
encode magic version = magic ++ (to_le 2 version ++ (0 ∷ 0 ∷ []))

-- `bytes` is the whole file, or as much of its front as was read.
unfoldable pub classify : Bytes → Bytes → ℕ → Result Kind
classify bytes magic newest =
    if length bytes == 0
    then ok empty
    else if leb header_len (length bytes) && key_eq (slice bytes 0 4) magic
    then (let version = from_le (slice bytes 4 6) in
        if ltb newest version
        then err (bad_format (newer_version version))
        else ok (versioned version))
    else ok legacy

unfoldable pub frames_start : Kind → ℕ
frames_start legacy = 0
frames_start empty = header_len
frames_start (versioned v) = header_len

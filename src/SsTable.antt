-- ===== src/SsTable.antt =====
-- src/sstable/mod.rs: an immutable sorted table in a file. Here are the types that the writer and the
-- reader share; lz4 is a crate, the parameter `Lz4`.
pub mod Writer
pub mod Cache
pub mod Reader
pub mod Walk
pub mod Blocks
pub mod Lookup
pub mod Contents
pub mod Walking
pub mod Bracket
pub mod Cuts
pub mod Filing
pub mod Image
pub mod Reading
pub mod Stored
pub mod RoundTrip
pub mod Examples
pub mod FileExamples
use lsm_tree_key_value_stora.Prelude.{ℕ, ◌*◌, ◌≡◌, ◌<◌, Option, some, List, [], ◌∷◌, length}
use lsm_tree_key_value_stora.Bytes.{Bytes}

-- `compress_prepend_size`, and `decompress_size_prepended`, whose error is absent.
pub record Lz4 : Type 0 where
  pub compress : Bytes → Bytes
  pub decompress : Bytes → Option Bytes

-- What the crate documents: a round trip, and an output that starts with four bytes of size.
pub record IsLossless (z : Lz4) : Type 0 where
  pub decompress-compress : (raw : Bytes) → z.decompress (z.compress raw) ≡ some raw
  pub compress_pos : (raw : Bytes) → 0 < length (z.compress raw)

-- An element of the block index: `(first_key, block_offset, compressed_len)`.
pub record Entry : Type 0 where
  pub first_key : Bytes
  pub block_offset : ℕ
  pub comp_len : ℕ

-- "LSM2"
abbrev pub magic : Bytes
magic = 76 ∷ 83 ∷ 77 ∷ 50 ∷ []

abbrev pub format_version : ℕ
format_version = 2

abbrev pub footer_len : ℕ
footer_len = 44

abbrev pub block_size : ℕ
block_size = 4 * 1024

abbrev pub block_cache_cap : ℕ
block_cache_cap = 64

-- ===== src/SsTable/Examples.antt =====
-- A table of two blocks, with a compression that prepends four bytes, and the theorems on it.
use lsm_tree_key_value_stora.Prelude.{
  ◌+◌, ◌≡◌, refl, true, Option, none, some, List, [], ◌∷◌, ◌++◌, arith, length, drop,
}
use lsm_tree_key_value_stora.Order.{
  list_ord, nat_ord, rev_ord, pair_ord, version_ord, bytes_ord, cmp_list,
}
use lsm_tree_key_value_stora.Errors.{ok}
use lsm_tree_key_value_stora.Bytes.{Bytes, to_le, from_le, slice}
use lsm_tree_key_value_stora.Record.{encode, decode_at, decode, u64, u32, u8, bytes, value_of_kind}
use lsm_tree_key_value_stora.Record.Examples.{apple, grave}
use lsm_tree_key_value_stora.Visible.{newest}
use lsm_tree_key_value_stora.Bloom
use lsm_tree_key_value_stora.Bloom.{BloomFilter}
use lsm_tree_key_value_stora.Bloom.Examples.{added}
use lsm_tree_key_value_stora.SsTable.{Lz4, IsLossless}
use lsm_tree_key_value_stora.SsTable.Cache
use lsm_tree_key_value_stora.SsTable.Cache.{find}
use lsm_tree_key_value_stora.SsTable.Cache.Laws.{new-IsValid, put-IsValid}
use lsm_tree_key_value_stora.SsTable.Reader.{
  ReadFile, SsTableReader, read_block, decode_all, get_at,
}
use lsm_tree_key_value_stora.SsTable.Blocks.{Part}
use lsm_tree_key_value_stora.SsTable.Lookup.{IsTable, get_at-newest}
use lsm_tree_key_value_stora.SsTable.Walk.{collect, scan}
use lsm_tree_key_value_stora.SsTable.Bracket.{scan-kept}

abbrev decompress_prefixed : Bytes → Option Bytes
decompress_prefixed [] = none
decompress_prefixed (a ∷ bs) = some (drop 3 bs)

abbrev pub prefixing : Lz4
prefixing = record { compress = λ raw. 0 ∷ 0 ∷ 0 ∷ 0 ∷ raw; decompress = decompress_prefixed }

pub prefixing-IsLossless : IsLossless prefixing
prefixing-IsLossless = record {
  decompress-compress = λ raw. refl;
  compress_pos = λ raw. omega arith;
}

abbrev image : Bytes
image = prefixing.compress (encode apple) ++ prefixing.compress (encode grave)

abbrev image_file : ReadFile
image_file = record {
  size = ok (length image);
  read_exact_at = λ off n. ok (slice image off (off + n));
}

abbrev pub apple_part : Part
apple_part = record {
  entry = record { first_key = 97 ∷ []; block_offset = 0; comp_len = 24 };
  records = apple ∷ [];
}

abbrev pub grave_part : Part
grave_part = record {
  entry = record { first_key = 98 ∷ []; block_offset = 24; comp_len = 22 };
  records = grave ∷ [];
}

abbrev pub two_parts : List Part
two_parts = apple_part ∷ grave_part ∷ []

abbrev pub full_filter : BloomFilter
full_filter = record { bits = 255 ∷ 255 ∷ 255 ∷ []; bit_count = 20; k = 3 }

abbrev pub two_blocks : SsTableReader
two_blocks = record {
  file = image_file;
  index = apple_part.entry ∷ grave_part.entry ∷ [];
  bloom = full_filter;
  bloom_enabled = true;
  record_count = 2;
  cache = Cache.new;
}

apple_read : read_block prefixing image_file 0 24 ≡ ok (apple ∷ [])
unfolding read_block decode_all decode_at decode u64 u32 u8 bytes value_of_kind encode to_le from_le
    slice
apple_read = refl

grave_read : read_block prefixing image_file 24 22 ≡ ok (grave ∷ [])
unfolding read_block decode_all decode_at decode u64 u32 u8 bytes value_of_kind encode to_le from_le
    slice
grave_read = refl

pub two_blocks-IsTable : IsTable prefixing added two_parts two_blocks
unfolding cmp_list list_ord nat_ord rev_ord pair_ord Cache.get find Bloom.contains Bloom.all_probes
    Bloom.get_bit Bloom.has_bit
two_blocks-IsTable = record {
  indexed = refl;
  stored = (apple_read, (grave_read, tt));
  apart = (
    (λ _. refl, (λ e. absurd (omega arith), tt)),
    ((λ e. absurd (omega arith), (λ _. refl, tt)), tt),
  );
  ordered = (
    (tt, tt),
    record { first = apple; others = []; whole = refl; indexed = refl },
    ((refl, tt), tt),
    ((tt, tt), record { first = grave; others = []; whole = refl; indexed = refl }, (tt, tt), tt),
  );
  filtered = (refl, (refl, tt));
  coherent = λ o b h. absurd (cc h);
  cache_valid = new-IsValid;
}

get_at-newest_example :
    ((get_at prefixing added (98 ∷ []) 7 two_blocks).0
      ≡ ok (newest (98 ∷ []) 7 (apple ∷ grave ∷ [])))
    × IsTable prefixing added two_parts (get_at prefixing added (98 ∷ []) 7 two_blocks).1
get_at-newest_example =
    get_at-newest prefixing added (98 ∷ []) 7 two_parts two_blocks two_blocks-IsTable

-- The walk from the second key.
scan-kept_example : collect 5 prefixing (scan (some (98 ∷ [])) two_blocks) ≡ ok grave ∷ []
unfolding cmp_list list_ord nat_ord
scan-kept_example =
    scan-kept prefixing added two_blocks two_parts (some (98 ∷ [])) 5 two_blocks-IsTable
      (omega arith)

put-IsValid_example : Cache.Laws.IsValid (Cache.put 24 (grave ∷ []) Cache.new)
put-IsValid_example = put-IsValid 24 (grave ∷ []) Cache.new new-IsValid

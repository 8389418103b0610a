-- ===== src/SsTable/Reader.antt =====
-- src/sstable/mod.rs, `SsTableReader`: opening a table, and point lookups through the block cache. A
-- file open for reading is its `size` and its `read_exact_at`; every read may fail. The lock of the
-- cache is left out, since each use of it is one operation.
use Prim.Native.Nat.Ordering.{lt, eq, gt}
use lsm_tree_key_value_stora.Prelude.{
  ℕ, zero, suc, ◌+◌, ◌-◌, ◌%◌, ◌^◌, Bool, ◌&&◌, ◌||◌, not, Option, none, some, List, [], ◌∷◌, ◌++◌,
  length, get_elem?, ltb, leb, ◌==◌, if◌then◌else◌,
}
use lsm_tree_key_value_stora.Order.{key_eq, bytes_ord}
use lsm_tree_key_value_stora.Errors.{
  Result, ok, err, corrupt, bad_format, index_truncated, block_decompression, table_too_small,
  bad_table_magic, offsets_out_of_range, ◌>>=◌,
}
use lsm_tree_key_value_stora.Bytes.{Bytes, from_le, slice}
use lsm_tree_key_value_stora.Record.{Record, decode_at, usize_mod}
use lsm_tree_key_value_stora.MemTable.{u64_max}
use lsm_tree_key_value_stora.Bloom
use lsm_tree_key_value_stora.Bloom.{SeededHash, BloomFilter}
use lsm_tree_key_value_stora.Files.{Exec}
use lsm_tree_key_value_stora.SsTable.{Lz4, Entry, magic, footer_len}
use lsm_tree_key_value_stora.SsTable.Cache
use lsm_tree_key_value_stora.SsTable.Cache.{BlockCache}

-- `read_exact_at off n`: the bytes that fill a buffer of `n`.
pub record ReadFile : Type 0 where
  pub size : Result ℕ
  pub read_exact_at : ℕ → ℕ → Result Bytes

pub record SsTableReader : Type 0 where
  pub file : ReadFile
  pub index : List Entry
  pub bloom : BloomFilter
  pub bloom_enabled : Bool
  pub record_count : ℕ
  pub cache : BlockCache

-- `read_bytes(buf, &mut pos, n)`, which answers the new position beside the bytes.
unfoldable pub read_bytes : Bytes → ℕ → ℕ → Result (Bytes × ℕ)
read_bytes buf pos n =
    let end = pos + n in
    if ltb end usize_mod && leb end (length buf)
    then ok (slice buf pos end, end)
    else err (corrupt index_truncated)

unfoldable pub read_u32 : Bytes → ℕ → Result (ℕ × ℕ)
read_u32 buf pos = read_bytes buf pos 4 >>= λ p. ok (from_le p.0, p.1)

unfoldable pub read_u64 : Bytes → ℕ → Result (ℕ × ℕ)
read_u64 buf pos = read_bytes buf pos 8 >>= λ p. ok (from_le p.0, p.1)

unfoldable pub read_entry : Bytes → ℕ → Result (Entry × ℕ)
read_entry buf pos = read_u32 buf pos >>= λ kl. read_bytes buf kl.1 kl.0 >>= λ key.
    read_u64 buf key.1 >>= λ o. read_u32 buf o.1 >>= λ c.
    ok (record { first_key = key.0; block_offset = o.0; comp_len = c.0 }, c.1)

-- `for _ in 0..index_entries`, with `n` rounds to go.
unfoldable pub read_index : Bytes → ℕ → ℕ → Result (List Entry)
read_index buf pos zero = ok []
read_index buf pos (suc n) =
    read_entry buf pos >>= λ e. read_index buf e.1 n >>= λ es. ok (e.0 ∷ es)

-- The fields of the footer.
pub record Footer : Type 0 where
  pub index_offset : ℕ
  pub index_entries : ℕ
  pub bloom_offset : ℕ
  pub bloom_len : ℕ
  pub record_count : ℕ

unfoldable pub parse_footer : Bytes → Result Footer
parse_footer footer =
    if key_eq (slice footer 40 44) magic
    then ok (record {
      index_offset = from_le (slice footer 0 8);
      index_entries = from_le (slice footer 8 12);
      bloom_offset = from_le (slice footer 12 20);
      bloom_len = from_le (slice footer 20 28);
      record_count = from_le (slice footer 28 36);
    })
    else err (bad_format bad_table_magic)

-- The sum of two `u64` wraps.
unfoldable pub check_offsets : ℕ → Footer → Result (Unit {0})
check_offsets footer_start f =
    if ltb f.bloom_offset f.index_offset
      || ltb footer_start ((f.bloom_offset + f.bloom_len) % 2 ^ 64)
    then err (bad_format offsets_out_of_range)
    else ok tt

-- What `open` does behind the checks of the footer.
unfoldable pub load_parts : ReadFile → Bool → Footer → Result SsTableReader
load_parts file bloom_enabled f =
    file.read_exact_at f.index_offset (f.bloom_offset - f.index_offset) >>= λ ibuf.
    read_index ibuf 0 f.index_entries >>= λ index.
    file.read_exact_at f.bloom_offset f.bloom_len >>= λ bbuf. Bloom.decode bbuf >>= λ bloom.
    ok (record {
      file = file;
      index = index;
      bloom = bloom;
      bloom_enabled = bloom_enabled;
      record_count = f.record_count;
      cache = Cache.new;
    })

-- `SsTableReader::open`, on what the file system opened.
unfoldable pub open_table : Result ReadFile → Bool → Result SsTableReader
open_table opened bloom_enabled = opened >>= λ file. file.size >>= λ file_len.
    if ltb file_len footer_len
    then err (bad_format table_too_small)
    else (file.read_exact_at (file_len - footer_len) footer_len >>= λ footer.
        parse_footer footer >>= λ f.
        check_offsets (file_len - footer_len) f >>= λ _. load_parts file bloom_enabled f)

-- `while pos < raw.len()`. A record takes a byte or more, so the length of `raw` is enough fuel.
unfoldable pub decode_all : ℕ → Bytes → ℕ → Result (List Record)
decode_all zero raw pos = ok []
decode_all (suc fuel) raw pos =
    let rest = decode_at raw pos >>= λ p. decode_all fuel raw p.1 >>= λ rs. ok (p.0 ∷ rs) in
    if ltb pos (length raw) then rest else ok []

abbrev pub decompressed : Option Bytes → Result Bytes
decompressed (some raw) = ok raw
decompressed none = err (corrupt block_decompression)

-- A block from the file.
unfoldable pub read_block : Lz4 → ReadFile → ℕ → ℕ → Result (List Record)
read_block z file block_offset comp_len = file.read_exact_at block_offset comp_len >>= λ comp.
    decompressed (z.decompress comp) >>= λ raw. decode_all (length raw) raw 0

abbrev pub cached : ℕ → Result (List Record) → Exec SsTableReader (List Record)
cached offset (ok block) t = (ok block, record t { cache = Cache.put offset block t.cache })
cached offset (err e) t = (err e, t)

unfoldable pub load_block : Lz4 → ℕ → ℕ → Exec SsTableReader (List Record)
load_block z block_offset comp_len t = elim (Cache.get block_offset t.cache) [
  | some block ↦ (ok block, t)
  | none ↦ cached block_offset (read_block z t.file block_offset comp_len) t
]

-- `Ok(i)` and `Err(i)` of `binary_search_by`
pub data Search : Type 0 where
  found : ℕ → Search
  insert_at : ℕ → Search

-- What `binary_search_by` promises of an index whose first keys ascend strictly, from element `i` on.
unfoldable pub binary_search : Bytes → ℕ → List Entry → Search
binary_search key i [] = insert_at i
binary_search key i (e ∷ es) = elim (bytes_ord.cmp e.first_key key) [
  | lt ↦ binary_search key (suc i) es
  | eq ↦ found i
  | gt ↦ insert_at i
]

-- The block that could hold the key; `None` where the key is below every first key.
abbrev pub block_idx : Search → Option ℕ
block_idx (found i) = some i
block_idx (insert_at zero) = none
block_idx (insert_at (suc i)) = some i

-- The loop over the records of the block.
unfoldable pub scan_block : Bytes → ℕ → List Record → Option Record
scan_block key seq_bound [] = none
scan_block key seq_bound (r ∷ rs) = elim (bytes_ord.cmp r.key key) [
  | eq ↦ if ltb r.seq seq_bound then some r else scan_block key seq_bound rs
  | gt ↦ none
  | lt ↦ scan_block key seq_bound rs
]

abbrev pub scanned :
    Bytes → ℕ → Result (List Record) × SsTableReader → Result (Option Record) × SsTableReader
scanned key seq_bound (ok block, t) = (ok (scan_block key seq_bound block), t)
scanned key seq_bound (err e, t) = (err e, t)

-- An index out of range would panic; `get_at` asks for one that the search gave.
abbrev pub lookup_in : Lz4 → Bytes → ℕ → Option Entry → Exec SsTableReader (Option Record)
lookup_in z key seq_bound none t = (ok none, t)
lookup_in z key seq_bound (some e) t =
    scanned key seq_bound (load_block z e.block_offset e.comp_len t)

abbrev pub entry_at : List Entry → Option ℕ → Option Entry
entry_at index none = none
entry_at index (some i) = get_elem? index i

unfoldable pub get_at : Lz4 → SeededHash → Bytes → ℕ → Exec SsTableReader (Option Record)
get_at z h key seq_bound t =
    if length t.index == 0
    then (ok none, t)
    else if t.bloom_enabled && not (Bloom.contains h key t.bloom)
    then (ok none, t)
    else lookup_in z key seq_bound (entry_at t.index (block_idx (binary_search key 0 t.index))) t

unfoldable pub get : Lz4 → SeededHash → Bytes → Exec SsTableReader (Option Record)
unfolding get_at
get z h key = get_at z h key u64_max

-- `records.extend(block)`, with what the later rounds add.
abbrev pub prefixed :
    List Record → Result (List Record) × SsTableReader → Result (List Record) × SsTableReader
prefixed block (ok rs, t) = (ok (block ++ rs), t)
prefixed block (err e, t) = (err e, t)

abbrev pub extended :
    Result (List Record) × SsTableReader
    → (SsTableReader → Result (List Record) × SsTableReader)
    → Result (List Record) × SsTableReader
extended (err e, t) rest = (err e, t)
extended (ok block, t) rest = prefixed block (rest t)

-- The loop of `iter_all` over the index.
unfoldable pub each_block : Lz4 → List Entry → Exec SsTableReader (List Record)
each_block z [] t = (ok [], t)
each_block z (e ∷ es) t = extended (load_block z e.block_offset e.comp_len t) (each_block z es)

unfoldable pub iter_all : Lz4 → Exec SsTableReader (List Record)
iter_all z t = each_block z t.index t

-- `block_bracketing`
abbrev pub bracket_of : Search → ℕ
bracket_of (found i) = i
bracket_of (insert_at zero) = 0
bracket_of (insert_at (suc i)) = i

unfoldable pub block_bracketing : Bytes → List Entry → Option ℕ
block_bracketing key index =
    if length index == 0 then none else some (bracket_of (binary_search key 0 index))

-- ===== src/SsTable/Writer.antt =====
-- src/sstable/mod.rs, `SsTableWriter::write`: records into compressed blocks, the index of the blocks,
-- the filter and the footer.
use lsm_tree_key_value_stora.Prelude.{
  ℕ, ◌+◌, ◌%◌, ◌^◌, Bool, true, ◌&&◌, not, List, [], ◌∷◌, ◌++◌, length, leb, ◌==◌, if◌then◌else◌,
}
use lsm_tree_key_value_stora.Order.{key_eq, bytes_ord}
use lsm_tree_key_value_stora.Errors.{Result, ok, err}
use lsm_tree_key_value_stora.Bytes.{Bytes, to_le}
use lsm_tree_key_value_stora.Record.{Record, encode_into}
use lsm_tree_key_value_stora.Bloom
use lsm_tree_key_value_stora.Bloom.{SeededHash, BloomFilter}
use lsm_tree_key_value_stora.Files
use lsm_tree_key_value_stora.Files.{Exec, ◌then_do◌, File, BufAppend}
use lsm_tree_key_value_stora.SsTable.{Lz4, Entry, magic, format_version, block_size}

-- The local variables of `write`.
pub record Writer : Type 0 where
  pub w : BufAppend
  pub bloom : BloomFilter
  pub index : List Entry
  pub offset : ℕ
  pub block : Bytes
  pub block_first_key : Bytes

unfoldable pub new : File → BloomFilter → Writer
new file bloom = record {
  w = Files.new file;
  bloom = bloom;
  index = [];
  offset = 0;
  block = [];
  block_first_key = [];
}

abbrev pub answered : Result (Unit {0}) × BufAppend → Exec Writer (Unit {0})
answered (r, b) s = (r, record s { w = b })

-- An operation on `w`.
unfoldable pub on_file : Exec BufAppend (Unit {0}) → Exec Writer (Unit {0})
on_file m s = answered (m s.w) s

-- What follows the write of a compressed block.
unfoldable pub push_entry : Bytes → Exec Writer (Unit {0})
push_entry comp s = (
  ok tt,
  record s {
    index =
        s.index
        ++ (record {
          first_key = s.block_first_key;
          block_offset = s.offset;
          comp_len = length comp % 2 ^ 32;
        }
            ∷ []);
    block_first_key = [];
    offset = s.offset + length comp;
    block = [];
  },
)

-- The closure `flush_block`.
unfoldable pub flush_block : Lz4 → Exec Writer (Unit {0})
flush_block z s =
    if length s.block == 0
    then (ok tt, s)
    else (let comp = z.compress s.block in (on_file (Files.write comp) then_do push_entry comp) s)

-- The record into the filter and the block.
unfoldable pub take_record : SeededHash → Record → Writer → Writer
take_record h r s = record s {
  bloom = Bloom.insert h r.key s.bloom;
  block_first_key = if length s.block == 0 then r.key else s.block_first_key;
  block = encode_into r s.block;
}

-- `records.get(i + 1).is_none_or(|next| next.key != record.key)`
unfoldable pub next_differs : Record → List Record → Bool
next_differs r [] = true
next_differs r (next ∷ rs) = not (key_eq next.key r.key)

-- The body of the loop over the records.
unfoldable pub step : Lz4 → SeededHash → Record → List Record → Exec Writer (Unit {0})
step z h r rs s =
    let s' = take_record h r s in
    if leb block_size (length s'.block) && next_differs r rs then flush_block z s' else (ok tt, s')

unfoldable pub each_record : Lz4 → SeededHash → List Record → Exec Writer (Unit {0})
each_record z h [] s = (ok tt, s)
each_record z h (r ∷ rs) s = (step z h r rs then_do each_record z h rs) s

-- The loop that writes the index.
unfoldable pub write_index : List Entry → Exec BufAppend (Unit {0})
write_index [] b = (ok tt, b)
write_index (e ∷ es) b =
    (Files.write (to_le 4 (length e.first_key % 2 ^ 32))
        then_do Files.write e.first_key
        then_do Files.write (to_le 8 e.block_offset)
        then_do Files.write (to_le 4 e.comp_len)
        then_do write_index es)
      b

-- The loop that computes `bloom_offset`.
unfoldable pub end_of_index : ℕ → List Entry → ℕ
end_of_index o [] = o
end_of_index o (e ∷ es) = end_of_index (o + (4 + length e.first_key + 8 + 4)) es

-- What follows the blocks: `count` is `records.len() as u64`.
unfoldable pub write_tail : ℕ → List Entry → BloomFilter → ℕ → Exec BufAppend (Unit {0})
write_tail index_offset index bloom count =
    write_index index
    then_do Files.write (Bloom.encode bloom)
    then_do Files.write (to_le 8 index_offset)
    then_do Files.write (to_le 4 (length index % 2 ^ 32))
    then_do Files.write (to_le 8 (end_of_index index_offset index))
    then_do Files.write (to_le 8 (length (Bloom.encode bloom)))
    then_do Files.write (to_le 8 count)
    then_do Files.write (to_le 4 format_version)
    then_do Files.write magic
    then_do Files.sync

abbrev pub tail_of : ℕ → Exec Writer (Unit {0})
tail_of count s = on_file (write_tail s.offset s.index s.bloom count) s

unfoldable pub write_all : Lz4 → SeededHash → List Record → Exec Writer (Unit {0})
write_all z h records =
    each_record z h records then_do flush_block z then_do tail_of (length records)

abbrev pub counted : ℕ → Result (Unit {0}) × Writer → Result ℕ × File
counted n (ok u, s) = (ok n, s.w.file)
counted n (err e, s) = (err e, s.w.file)

-- `SsTableWriter::write` to the file that `open` has truncated; the filter is `BloomFilter::new` of
-- the number of records.
unfoldable pub write : Lz4 → SeededHash → BloomFilter → List Record → File → Result ℕ × File
write z h bloom records file = counted (length records) (write_all z h records (new file bloom))

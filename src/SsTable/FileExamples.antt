-- ===== src/SsTable/FileExamples.antt =====
-- A table of two records that is written to an empty file and opened again.
use lsm_tree_key_value_stora.Prelude.{◌+◌, ◌<◌, ◌^◌, ◌≡◌, refl, true, List, [], ◌∷◌, arith, length}
use lsm_tree_key_value_stora.Order.{list_ord, nat_ord, rev_ord, pair_ord, cmp_list}
use lsm_tree_key_value_stora.Errors.{ok}
use lsm_tree_key_value_stora.Bytes.{Bytes, to_le, slice}
use lsm_tree_key_value_stora.Record.{Record, encode, encode_into, usize_mod}
use lsm_tree_key_value_stora.Record.Examples.{apple, grave, apple-Fits, grave-Fits}
use lsm_tree_key_value_stora.Visible.{IsRun}
use lsm_tree_key_value_stora.Bloom
use lsm_tree_key_value_stora.Bloom.{BloomFilter, set_probes, set_bit, with_bit}
use lsm_tree_key_value_stora.Bloom.Laws.{Encodable, new-IsValid}
use lsm_tree_key_value_stora.Bloom.Examples.{added}
use lsm_tree_key_value_stora.Files
use lsm_tree_key_value_stora.Files.{File}
use lsm_tree_key_value_stora.Wal.Decode.{encodings}
use lsm_tree_key_value_stora.SsTable.Writer
use lsm_tree_key_value_stora.SsTable.Reader.{ReadFile, SsTableReader, open_table}
use lsm_tree_key_value_stora.SsTable.Blocks.{Part, all_records}
use lsm_tree_key_value_stora.SsTable.Lookup.{IsTable}
use lsm_tree_key_value_stora.SsTable.RoundTrip.{open_table-write}
use lsm_tree_key_value_stora.SsTable.Examples.{prefixing, prefixing-IsLossless}

abbrev pub two_records : List Record
two_records = apple ∷ grave ∷ []

pub two_records-IsRun : IsRun two_records
unfolding cmp_list list_ord nat_ord rev_ord pair_ord
two_records-IsRun = ((refl, tt), (tt, tt))

abbrev pub truncated : File
truncated = record { contents = []; kept = []; fates = [] }

abbrev pub twenty_bits : BloomFilter
twenty_bits = Bloom.new 20 3

pub twenty_bits-Encodable : Encodable twenty_bits
twenty_bits-Encodable = record {
  valid = new-IsValid 20 3 (omega arith) (omega arith);
  k_fits = unfold Bloom.new in omega arith;
  bits_fit = unfold Bloom.new in omega arith;
}

pub encoded_small : length (encodings two_records) < usize_mod
unfolding encodings encode to_le
encoded_small = omega arith

abbrev pub written : Bytes
written = (Writer.write prefixing added twenty_bits two_records truncated).1.contents

abbrev pub written_file : ReadFile
written_file = record {
  size = ok (length written);
  read_exact_at = λ offset n. ok (slice written offset (offset + n));
}

pub write_succeeds : (Writer.write prefixing added twenty_bits two_records truncated).0 ≡ ok 2
unfolding Writer.write Writer.write_all Writer.new Writer.each_record Writer.step Writer.take_record
    Writer.next_differs Writer.flush_block Writer.on_file Writer.push_entry Writer.write_tail
    Writer.write_index Writer.end_of_index Files.new Files.with_capacity Files.write Files.flush
    Files.append Files.sync Files.sync_as Bloom.new Bloom.insert set_probes set_bit with_bit
    Bloom.encode encode encode_into to_le
write_succeeds = refl

pub written_small : length written < 2 ^ 32
unfolding Writer.write Writer.write_all Writer.new Writer.each_record Writer.step Writer.take_record
    Writer.next_differs Writer.flush_block Writer.on_file Writer.push_entry Writer.write_tail
    Writer.write_index Writer.end_of_index Files.new Files.with_capacity Files.write Files.flush
    Files.append Files.sync Files.sync_as Bloom.new Bloom.insert set_probes set_bit with_bit
    Bloom.encode encode encode_into to_le
written_small = omega arith

open_table-write_example :
    (parts : List Part) × (t : SsTableReader) × (open_table (ok written_file) true ≡ ok t)
    × IsTable prefixing added parts t
    × (all_records parts ≡ two_records)
    × (t.record_count ≡ 2)
open_table-write_example =
    open_table-write prefixing added twenty_bits two_records truncated 2 written_file true
      prefixing-IsLossless twenty_bits-Encodable (apple-Fits, (grave-Fits, tt)) two_records-IsRun
      encoded_small refl write_succeeds written_small
      (record { size_known = refl; readable = λ offset n inside. refl })

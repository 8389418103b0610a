-- ===== src/Db/ReopenExamples.antt =====
-- A directory with a live table, an orphan and a scratch file, opened again.
use lsm_tree_key_value_stora.Prelude.{◌≡◌, refl, true, List, [], ◌∷◌, length, take}
use lsm_tree_key_value_stora.Errors.{ok}
use lsm_tree_key_value_stora.Order.{nat_ord}
use lsm_tree_key_value_stora.Bytes.{Bytes}
use lsm_tree_key_value_stora.Record.Examples.{apple-Fits, grave-Fits}
use lsm_tree_key_value_stora.Header
use lsm_tree_key_value_stora.Header.{versioned, wal_checksum}
use lsm_tree_key_value_stora.Header.Examples.{sums}
use lsm_tree_key_value_stora.Bloom.Examples.{added}
use lsm_tree_key_value_stora.Files
use lsm_tree_key_value_stora.Files.{File, durable}
use lsm_tree_key_value_stora.MemTable
use lsm_tree_key_value_stora.MemTable.{default_threshold}
use lsm_tree_key_value_stora.MemTable.Laws
use lsm_tree_key_value_stora.Wal.{is_counted}
use lsm_tree_key_value_stora.Wal.Replay.{image}
use lsm_tree_key_value_stora.SsTable.Reader.{SsTableReader, open_table}
use lsm_tree_key_value_stora.SsTable.Blocks.{Part, all_records}
use lsm_tree_key_value_stora.SsTable.Lookup.{IsTable}
use lsm_tree_key_value_stora.SsTable.RoundTrip.{open_table-write}
use lsm_tree_key_value_stora.SsTable.Examples.{prefixing, prefixing-IsLossless}
use lsm_tree_key_value_stora.SsTable.FileExamples.{
  two_records, two_records-IsRun, truncated, twenty_bits, twenty_bits-Encodable, encoded_small,
  write_succeeds, written_small, written_file,
}
use lsm_tree_key_value_stora.Db.{DbInner}
use lsm_tree_key_value_stora.Db.Contents.{contents}
use lsm_tree_key_value_stora.Db.Open.{Directory, sst_name, scratch_name, other_name}
use lsm_tree_key_value_stora.Db.Examples.{running, no_file}

-- The table of the file, opened.
opened_file :
    (parts : List Part) × (t : SsTableReader) × (open_table (ok written_file) true ≡ ok t)
    × IsTable prefixing added parts t
    × (all_records parts ≡ two_records)
    × (t.record_count ≡ 2)
opened_file =
    open_table-write prefixing added twenty_bits two_records truncated 2 written_file true
      prefixing-IsLossless twenty_bits-Encodable (apple-Fits, (grave-Fits, tt)) two_records-IsRun
      encoded_small refl write_succeeds written_small
      (record { size_known = refl; readable = λ offset n inside. refl })

abbrev parts : List (List Part)
parts = opened_file.0 ∷ []

-- A log of no batch.
abbrev bare_file : File
bare_file = record { contents = image sums 3 []; kept = []; fates = [] }

abbrev flushed : DbInner
flushed = record running {
  wal = record {
    file = Files.new bare_file;
    sync = durable;
    checksum = wal_checksum (versioned 3);
    counted = is_counted (versioned 3);
  };
  active = MemTable.new default_threshold;
  sstables = record { id = 0; reader = opened_file.1 } ∷ [];
  next_seq = 7;
}

abbrev directory : Directory
directory = record {
  created = ok tt;
  lock_existed = true;
  lock_opened = ok tt;
  lock_synced = ok tt;
  manifest_exists = true;
  manifest_opened =
      ok (Files.new no_file, record { live_tables = (0, tt) ∷ []; next_seq = 7; next_sst_id = 1 });
  first_list = ok [];
  manifest_created = ok (Files.new no_file);
  names = ok (sst_name 4 ∷ scratch_name ∷ sst_name 0 ∷ other_name ∷ []);
  removed = λ name. ok tt;
  sst_file = λ id. ok written_file;
  wal_read = ok (ok (image sums 3 []));
  wal_file = ok bare_file;
  wal_size = ok (length bare_file.contents);
  wal_front = ok (take 8 bare_file.contents);
}

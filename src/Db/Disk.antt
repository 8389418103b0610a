-- ===== src/Db/Disk.antt =====
-- src/db.rs: what a flush and a compaction ask of the file system, and the way a table gets to its
-- place, which they share: write it to a scratch file, rename it, sync the directory, open it.
use lsm_tree_key_value_stora.Prelude.{ℕ, Bool, List, length}
use lsm_tree_key_value_stora.Errors.{Result, ok, err, ◌>>=◌}
use lsm_tree_key_value_stora.Bytes.{Bytes}
use lsm_tree_key_value_stora.Record.{Record}
use lsm_tree_key_value_stora.Files.{File}
use lsm_tree_key_value_stora.Bloom
use lsm_tree_key_value_stora.Bloom.{BloomFilter}
use lsm_tree_key_value_stora.SsTable.Writer
use lsm_tree_key_value_stora.SsTable.Reader.{ReadFile, SsTableReader, open_table}
use lsm_tree_key_value_stora.Db.{Crates}

-- The answers of the file system during one operation. `reopen` opens the renamed table, whose file
-- has the bytes given.
pub record Disk : Type 0 where
  pub table_file : Result File
  pub renamed : Result (Unit {0})
  pub dir_synced : Result (Unit {0})
  pub reopen : Bytes → Result ReadFile
  pub log_file : Result File
  pub log_renamed : Result (Unit {0})
  pub log_dir_synced : Result (Unit {0})
  pub table_size : ℕ → Result ℕ
  pub removed : ℕ → Result (Unit {0})
  pub removals_synced : Result (Unit {0})

-- `BloomFilter::new(records.len(), BLOOM_FP_RATE)`
abbrev pub sized_filter : Crates → List Record → BloomFilter
sized_filter c records = Bloom.new (c.sizing (length records)).0 (c.sizing (length records)).1

abbrev pub written_bytes : Result ℕ × File → Result Bytes
written_bytes (ok n, f) = ok f.contents
written_bytes (err e, f) = err e

unfoldable pub store_table : Crates → Disk → Bool → List Record → Result SsTableReader
store_table c d bloom_enabled records = d.table_file >>= λ f.
    written_bytes (Writer.write c.lz4 c.seeded (sized_filter c records) records f) >>= λ bytes.
    d.renamed >>= λ _. d.dir_synced >>= λ _. open_table (d.reopen bytes) bloom_enabled

-- ===== src/Db/Examples.antt =====
-- A database with one table and one version in its MemTable, on a disk that works, and the theorems
-- on it.
use lsm_tree_key_value_stora.Prelude.{
  ◌-◌, take, ℕ, ◌+◌, ◌≡◌, refl, true, none, some, List, [], ◌∷◌, arith, length,
}
use lsm_tree_key_value_stora.Order.{list_ord, nat_ord, rev_ord, pair_ord, version_ord, bytes_ord}
use lsm_tree_key_value_stora.SortedMap
use lsm_tree_key_value_stora.Errors.{Error, ok, err, io, other_io}
use lsm_tree_key_value_stora.Bytes.{Bytes, slice}
use lsm_tree_key_value_stora.Record.{Record}
use lsm_tree_key_value_stora.Visible.{newest, value_of}
use lsm_tree_key_value_stora.Header.{wal_checksum, versioned}
use lsm_tree_key_value_stora.Header.Examples.{sums}
use lsm_tree_key_value_stora.Files
use lsm_tree_key_value_stora.Files.{File, durable}
use lsm_tree_key_value_stora.MemTable
use lsm_tree_key_value_stora.MemTable.{MemTable}
use lsm_tree_key_value_stora.MemTable.Laws
use lsm_tree_key_value_stora.Wal.{Wal}
use lsm_tree_key_value_stora.Bloom.Examples.{added}
use lsm_tree_key_value_stora.SsTable.Blocks.{Part}
use lsm_tree_key_value_stora.SsTable.Examples.{prefixing, two_parts, two_blocks, two_blocks-IsTable}
use lsm_tree_key_value_stora.Db.{Crates, DbInner, default_options, get_at, write_batch, WriteBatch}
use lsm_tree_key_value_stora.SsTable.Reader.{ReadFile}
use lsm_tree_key_value_stora.Bytes.{slice}
use lsm_tree_key_value_stora.Db.Disk.{Disk}
use lsm_tree_key_value_stora.Db.Contents.{IsValid, contents}
use lsm_tree_key_value_stora.Db.Reads.{get_at-contents}
use lsm_tree_key_value_stora.Db.Batches.{behind, write_batch-get_at}

abbrev pub crates : Crates
crates = record { lz4 = prefixing; seeded = added; sizing = λ n. (20, 3); hashes = sums }

abbrev pub plum : Record
plum = record { key = 97 ∷ []; value = some (3 ∷ []); seq = 7 }

abbrev pub no_file : File
no_file = record { contents = []; kept = []; fates = [] }

abbrev pub log : Wal
log = record {
  file = Files.new no_file;
  sync = durable;
  checksum = wal_checksum (versioned 3);
  counted = true;
}

-- A disk on which everything works, but for removals.
abbrev pub reopened : Bytes → ReadFile
reopened b = record { size = ok (length b); read_exact_at = λ off n. ok (slice b off (off + n)) }

abbrev pub disk : Disk
disk = record {
  table_file = ok no_file;
  renamed = ok tt;
  dir_synced = ok tt;
  reopen = λ b. ok (reopened b);
  log_file = ok no_file;
  log_renamed = ok tt;
  log_dir_synced = ok tt;
  table_size = λ id. ok 100;
  removed = λ id. err (io other_io);
  removals_synced = ok tt;
}

abbrev pub running : DbInner
running = record {
  opts = default_options;
  wal = log;
  active = MemTable.insert plum (MemTable.new 1000);
  frozen = none;
  sstables = record { id = 0; reader = two_blocks } ∷ [];
  next_sst_id = 1;
  next_seq = 8;
  manifest = Files.new no_file;
  snapshots = [];
  flush_signals = 0;
  compact_signals = 0;
  failed = none;
}

abbrev pub parts : List (List Part)
parts = two_parts ∷ []

pub running-IsValid : IsValid crates parts running
unfolding MemTable.insert MemTable.iter SortedMap.insert
running-IsValid = record {
  tables = (two_blocks-IsTable, tt);
  active_valid =
      MemTable.Laws.insert-IsValid plum (MemTable.new 1000) (omega arith)
        (MemTable.Laws.new-IsValid 1000);
  frozen_valid = tt;
  layered = ((tt, (tt, tt)), tt);
  frozen_after = (tt, (tt, tt));
  active_after = ((omega arith, tt), ((omega arith, tt), tt));
  seq_below = (omega arith, (omega arith, (omega arith, tt)));
  seq_fits = omega arith;
}

get_at-contents_example :
    ((get_at crates (97 ∷ []) 8 running).0
      ≡ ok (value_of (newest (97 ∷ []) 8 (contents parts running))))
    × IsValid crates parts (get_at crates (97 ∷ []) 8 running).1
    × (contents parts (get_at crates (97 ∷ []) 8 running).1 ≡ contents parts running)
get_at-contents_example = get_at-contents crates (97 ∷ []) 8 parts running running-IsValid refl

abbrev two_ops : WriteBatch
two_ops = (98 ∷ [], some (4 ∷ [])) ∷ (97 ∷ [], none) ∷ []

write_batch-get_at_example :
    IsValid crates parts (write_batch crates two_ops running).1
    × ((write_batch crates two_ops running).1.failed ≡ none)
    × ((write_batch crates two_ops running).0 ≡ ok tt
        → (key : Bytes) (bound : ℕ)
        → (get_at crates key bound (write_batch crates two_ops running).1).0
          ≡ ok (
              behind key
                (take (bound - 8) two_ops)
                (value_of (newest key bound (contents parts running)))))
    × ((e : Error)
        → (write_batch crates two_ops running).0 ≡ err e
        → (key : Bytes) (bound : ℕ)
        → (get_at crates key bound (write_batch crates two_ops running).1).0
          ≡ (get_at crates key bound running).0)
write_batch-get_at_example =
    write_batch-get_at crates parts two_ops running running-IsValid refl (omega arith)

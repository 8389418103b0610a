-- ===== src/Db/Flush.antt =====
-- src/db.rs, `flush_inner` and `flush_impl`, step by step: freeze the MemTable, store it as a table,
-- record the table in the manifest, publish it, and rewrite the log.
use lsm_tree_key_value_stora.Prelude.{
  ℕ, ◌+◌, Option, none, some, List, [], ◌∷◌, ◌++◌, if◌then◌else◌,
}
use lsm_tree_key_value_stora.Errors.{Result, ok, err, ◌>>=◌}
use lsm_tree_key_value_stora.Record.{Record}
use lsm_tree_key_value_stora.Header.{Hashes, manifest_checksum, versioned, manifest_version}
use lsm_tree_key_value_stora.Files.{Exec, continue, ◌then_do◌, BufAppend, SyncMode}
use lsm_tree_key_value_stora.MemTable
use lsm_tree_key_value_stora.MemTable.{MemTable}
use lsm_tree_key_value_stora.Manifest
use lsm_tree_key_value_stora.Manifest.{VersionEdit, add_table, set_next_sst_id, set_next_seq}
use lsm_tree_key_value_stora.SsTable.Reader.{SsTableReader}
use lsm_tree_key_value_stora.Wal
use lsm_tree_key_value_stora.Wal.{Wal, sync as sync_wal}
use lsm_tree_key_value_stora.Db.{Crates, DbInner, health, fail, added}
use lsm_tree_key_value_stora.Db.Disk.{Disk, store_table}

-- The swap of the active MemTable for a fresh one; `None` where there is nothing to flush.
unfoldable pub freeze : DbInner → Option (MemTable × DbInner)
freeze db =
    if MemTable.is_empty db.active
    then none
    else some (
      db.active,
      record db { active = MemTable.new db.opts.memtable_threshold; frozen = some db.active },
    )

-- `next_sst_id.fetch_add(1)`
abbrev pub take_id : DbInner → DbInner
take_id db = record db { next_sst_id = added db.next_sst_id 1 }

abbrev pub logged_edits : Result (Unit {0}) × BufAppend → Exec DbInner (Unit {0})
logged_edits (r, b) db = (r, record db { manifest = b })

-- `self.manifest.lock().append_batch(..)`; a manifest that `open` has rolled is of the newest version.
unfoldable pub append_edits : Crates → List VersionEdit → Exec DbInner (Unit {0})
append_edits c edits db =
    logged_edits
      (Manifest.append_batch c.hashes (manifest_checksum (versioned manifest_version)) edits
        db.manifest)
      db

-- The new table goes behind the others.
unfoldable pub publish : ℕ → SsTableReader → Exec DbInner (Unit {0})
publish id reader db =
    (ok tt, record db { sstables = db.sstables ++ (record { id = id; reader = reader } ∷ []) })

-- `for record in active.iter() { fresh.append(record)? }`
unfoldable pub append_each : Hashes → List Record → Wal → Result Wal
append_each h [] w = ok w
append_each h (r ∷ rs) w = (Wal.append h r w).0 >>= λ _. append_each h rs (Wal.append h r w).1

abbrev pub synced_log : Result (Unit {0}) × Wal → Result Wal
synced_log (ok u, w) = ok w
synced_log (err e, w) = err e

-- A log that backs the records given, built beside the live one and renamed over it.
unfoldable pub fresh_log : Crates → Disk → SyncMode → List Record → Result Wal
fresh_log c d mode records = Wal.create d.log_file mode >>= λ fresh.
    append_each c.hashes records fresh >>= λ full.
    synced_log (sync_wal full) >>= λ w. d.log_renamed >>= λ _. d.log_dir_synced >>= λ _. ok w

abbrev pub swapped : Result Wal → Exec DbInner (Unit {0})
swapped (ok w) db = (ok tt, record db { wal = w })
swapped (err e) db = (err e, db)

unfoldable pub rewrite_wal : Crates → Disk → Exec DbInner (Unit {0})
rewrite_wal c d db = swapped (fresh_log c d db.opts.sync_wal (MemTable.iter db.active)) db

-- The frozen slot is cleared, and the compaction worker gets a message.
unfoldable pub finish_flush : Exec DbInner (Unit {0})
finish_flush db = (ok tt, record db { frozen = none; compact_signals = db.compact_signals + 1 })

-- What `flush_impl` does once the table is open.
unfoldable pub install : Crates → Disk → ℕ → SsTableReader → Exec DbInner (Unit {0})
install c d id reader db =
    (append_edits c (add_table id ∷ set_next_sst_id db.next_sst_id ∷ set_next_seq db.next_seq ∷ [])
        then_do publish id reader
        then_do rewrite_wal c d
        then_do finish_flush)
      db

abbrev pub flush_frozen : Crates → Disk → Option (MemTable × DbInner) → Exec DbInner (Unit {0})
flush_frozen c d none db = (ok tt, db)
flush_frozen c d (some (frozen, frozen_db)) db =
    continue (store_table c d frozen_db.opts.bloom_enabled (MemTable.iter frozen))
      (install c d frozen_db.next_sst_id) (take_id frozen_db)

unfoldable pub flush_impl : Crates → Disk → Exec DbInner (Unit {0})
flush_impl c d db = flush_frozen c d (freeze db) db

-- `map_err(|e| self.fail(e))`
abbrev pub latched : {A : Type 0} → Result A × DbInner → Result A × DbInner
latched (ok a, db) = (ok a, db)
latched (err e, db) = let (e', db') = fail e db in (err e', db')

unfoldable pub flush_inner : Crates → Disk → Exec DbInner (Unit {0})
unfolding health
flush_inner c d = health then_do (λ db. latched (flush_impl c d db))

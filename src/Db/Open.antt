-- ===== src/Db/Open.antt =====
-- src/db.rs, `assemble` and `migrate_dir`, with the lock of src/fsutil.rs: what opening a directory makes
-- of the manifest, the tables and the log that are there.
use lsm_tree_key_value_stora.Prelude.{
  ℕ, Bool, true, false, Option, none, some, List, [], ◌∷◌, map, leb, max, ◌==◌, ◌||◌, if◌then◌else◌,
}
use lsm_tree_key_value_stora.Order.{nat_ord}
use lsm_tree_key_value_stora.SortedMap
use lsm_tree_key_value_stora.SortedMap.{Entries}
use lsm_tree_key_value_stora.Errors.{Result, ok, err, io, would_block, not_found, locked, ◌>>=◌}
use lsm_tree_key_value_stora.Bytes.{Bytes}
use lsm_tree_key_value_stora.Record.{Record}
use lsm_tree_key_value_stora.Header.{versioned, manifest_checksum, manifest_version}
use lsm_tree_key_value_stora.Files.{File, BufAppend}
use lsm_tree_key_value_stora.MemTable
use lsm_tree_key_value_stora.MemTable.{MemTable}
use lsm_tree_key_value_stora.Manifest
use lsm_tree_key_value_stora.Manifest.{VersionEdit, ManifestState, add_table, set_next_sst_id}
use lsm_tree_key_value_stora.Wal
use lsm_tree_key_value_stora.Wal.{Wal}
use lsm_tree_key_value_stora.SsTable.Reader.{ReadFile, open_table}
use lsm_tree_key_value_stora.Db.{Crates, Options, SsTable, DbInner, added}

-- What `parse_sst_id` and the tests of the loop tell of a file name.
pub data Name : Type 0 where
  sst_name : ℕ → Name
  scratch_name other_name : Name

-- The answers of the file system, and of `Manifest::open` and `Manifest::create` on it. `first_list` is
-- the listing of `migrate_dir`.
-- `sst_file` answers an open of a table whose name is in the directory, `wal_read` the open of the log and
-- `read_all`, `wal_size` and `wal_front` the calls of `open_append` on it.
pub record Directory : Type 0 where
  pub created : Result (Unit {0})
  pub lock_existed : Bool
  pub lock_opened : Result (Unit {0})
  pub lock_synced : Result (Unit {0})
  pub manifest_exists : Bool
  pub manifest_opened : Result (BufAppend × ManifestState)
  pub first_list : Result (List Name)
  pub manifest_created : Result BufAppend
  pub names : Result (List Name)
  pub removed : Name → Result (Unit {0})
  pub sst_file : ℕ → Result ReadFile
  pub wal_read : Result (Result Bytes)
  pub wal_file : Result File
  pub wal_size : Result ℕ
  pub wal_front : Result Bytes

-- `map_err` of a lock that another handle holds.
abbrev pub lock_answer : Result (Unit {0}) → Result (Unit {0})
lock_answer (ok u) = ok u
lock_answer (err (io would_block)) = err locked
lock_answer (err e) = err e

-- `DirLock::acquire`
unfoldable pub acquire : Bool → Result (Unit {0}) → Result (Unit {0}) → Result (Unit {0})
acquire existed opened synced = lock_answer opened >>= λ _. if existed then ok tt else synced

-- The ids of the tables among the names.
unfoldable pub sst_ids : List Name → List ℕ
sst_ids [] = []
sst_ids (sst_name id ∷ names) = id ∷ sst_ids names
sst_ids (scratch_name ∷ names) = sst_ids names
sst_ids (other_name ∷ names) = sst_ids names

-- `sort_unstable`
unfoldable pub insert_id : ℕ → List ℕ → List ℕ
insert_id id [] = id ∷ []
insert_id id (n ∷ ids) =
    let rest = insert_id id ids in if leb id n then id ∷ (n ∷ ids) else n ∷ rest

unfoldable pub sort_ids : List ℕ → List ℕ
sort_ids [] = []
sort_ids (id ∷ ids) = insert_id id (sort_ids ids)

-- `last().map_or(0, |&id| id + 1)`
unfoldable pub id_after : List ℕ → ℕ
id_after [] = 0
id_after (id ∷ []) = added id 1
id_after (id ∷ n ∷ ids) = id_after (n ∷ ids)

-- `into_iter().collect()` into the set
unfoldable pub collected : List ℕ → Entries ℕ (Unit {0})
collected [] = []
collected (id ∷ ids) = SortedMap.insert id tt (collected ids)

abbrev pub with_state :
    ManifestState → Result (Unit {0}) × BufAppend → Result (BufAppend × ManifestState)
with_state s (ok u, b) = ok (b, s)
with_state s (err e, b) = err e

unfoldable pub migrate_dir : Crates → Directory → Result (BufAppend × ManifestState)
migrate_dir c d = d.first_list >>= λ names.
    let ids = sort_ids (sst_ids names) in
    let next = id_after ids in
    d.manifest_created >>= λ manifest.
    with_state (record { live_tables = collected ids; next_seq = 0; next_sst_id = next })
      (Manifest.append_batch c.hashes (manifest_checksum (versioned manifest_version))
        (set_next_sst_id next ∷ map add_table ids) manifest)

-- The manifest that is there, or a new one.
unfoldable pub found_manifest : Crates → Directory → Result (BufAppend × ManifestState)
found_manifest c d = if d.manifest_exists then d.manifest_opened else migrate_dir c d

abbrev pub is_live : Option (Unit {0}) → Bool
is_live (some u) = true
is_live none = false

-- The loop that removes orphan tables and scratch files; it answers the names that are left.
unfoldable pub reclaim :
    Entries ℕ (Unit {0}) → (Name → Result (Unit {0})) → List Name → Result (List Name)
reclaim live removed [] = ok []
reclaim live removed (sst_name id ∷ names) =
    let rest = reclaim live removed names in
    if is_live (SortedMap.lookup id live)
    then (rest >>= λ left. ok (sst_name id ∷ left))
    else (removed (sst_name id) >>= λ _. rest)
reclaim live removed (scratch_name ∷ names) =
    removed scratch_name >>= λ _. reclaim live removed names
reclaim live removed (other_name ∷ names) =
    reclaim live removed names >>= λ left. ok (other_name ∷ left)

unfoldable pub names_table : ℕ → List Name → Bool
names_table id [] = false
names_table id (sst_name n ∷ names) = (id == n) || names_table id names
names_table id (scratch_name ∷ names) = names_table id names
names_table id (other_name ∷ names) = names_table id names

-- `fs.open` of a table: a file whose name is not in the directory is not found.
unfoldable pub table_at : (ℕ → Result ReadFile) → List Name → ℕ → Result ReadFile
table_at sst_file left id = if names_table id left then sst_file id else err (io not_found)

-- The live tables, oldest first.
unfoldable pub open_live :
    (ℕ → Result ReadFile) → Bool → Entries ℕ (Unit {0}) → Result (List SsTable)
open_live sst_file bloom_enabled [] = ok []
open_live sst_file bloom_enabled (e ∷ live) = open_table (sst_file e.0) bloom_enabled >>= λ t.
    open_live sst_file bloom_enabled live >>= λ ts. ok (record { id = e.0; reader = t } ∷ ts)

-- The loop over the replayed records.
unfoldable pub restore : List Record → MemTable → ℕ → MemTable × ℕ
restore [] m next_seq = (m, next_seq)
restore (r ∷ rs) m next_seq = restore rs (MemTable.insert r m) (max next_seq (added r.seq 1))

unfoldable pub assembled :
    Options → BufAppend → ManifestState → List SsTable → MemTable × ℕ → Wal → DbInner
assembled opts manifest state sstables restored wal = record {
  opts = opts;
  wal = wal;
  active = restored.0;
  frozen = none;
  sstables = sstables;
  next_sst_id = state.next_sst_id;
  next_seq = restored.1;
  manifest = manifest;
  snapshots = [];
  flush_signals = 0;
  compact_signals = 0;
  failed = none;
}

unfoldable pub assemble : Crates → Options → Directory → Result DbInner
assemble c opts d = d.created >>= λ _. acquire d.lock_existed d.lock_opened d.lock_synced >>= λ _.
    found_manifest c d >>= λ m. d.names >>= λ names.
    reclaim m.1.live_tables d.removed names >>= λ left.
    open_live (table_at d.sst_file left) opts.bloom_enabled m.1.live_tables >>= λ sstables.
    Wal.replay c.hashes d.wal_read >>= λ replayed.
    Wal.open_append d.wal_file d.wal_size d.wal_front opts.sync_wal >>= λ wal. ok (
      assembled opts m.0 m.1 sstables
        (restore replayed (MemTable.new opts.memtable_threshold) m.1.next_seq) wal)

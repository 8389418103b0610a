-- ===== src/Db.antt =====
-- src/db.rs: the engine's state, and the operations on it that read and write no table file. A method
-- is a function from the state to a result and the next state. What an operation does under a lock
-- is one step; a message to a worker thread is counted, and sending it never fails.
pub mod Scan
pub mod Disk
pub mod Flush
pub mod Compact
pub mod Work
pub mod Health
pub mod Contents
pub mod Reads
pub mod Numbers
pub mod Writes
pub mod Batches
pub mod Stores
pub mod Flushes
pub mod FlushReads
pub mod Latches
pub mod Merged
pub mod Picked
pub mod Tiers
pub mod Splice
pub mod Compactions
pub mod Open
pub mod Reclaim
pub mod Recovery
pub mod Durable
pub mod Publish
pub mod Steps
pub mod Horizons
pub mod Shrinks
pub mod Examples
pub mod UpkeepExamples
pub mod LatchExamples
pub mod RecoveryExamples
pub mod ReopenExamples
use lsm_tree_key_value_stora.Prelude.{
  ℕ, zero, suc, ◌+◌, ◌-◌, ◌%◌, ◌^◌, Bool, true, false, ◌&&◌, ◌||◌, not, Option, none, some, List,
  [], ◌∷◌, ◌++◌, length, leb, ◌==◌, if◌then◌else◌,
}
use lsm_tree_key_value_stora.Order.{nat_ord}
use lsm_tree_key_value_stora.SortedMap
use lsm_tree_key_value_stora.SortedMap.{Entries}
use lsm_tree_key_value_stora.Errors.{Error, Result, ok, err, poisoned}
use lsm_tree_key_value_stora.Bytes.{Bytes}
use lsm_tree_key_value_stora.Record.{Record, put, tombstone}
use lsm_tree_key_value_stora.Header.{Hashes}
use lsm_tree_key_value_stora.Files.{Exec, continue, ◌then_do◌, SyncMode, durable, BufAppend}
use lsm_tree_key_value_stora.MemTable
use lsm_tree_key_value_stora.MemTable.{MemTable, u64_max, default_threshold}
use lsm_tree_key_value_stora.Wal
use lsm_tree_key_value_stora.Wal.{Wal}
use lsm_tree_key_value_stora.Bloom.{SeededHash}
use lsm_tree_key_value_stora.SsTable.{Lz4}
use lsm_tree_key_value_stora.SsTable.Reader
use lsm_tree_key_value_stora.SsTable.Reader.{SsTableReader}

-- The crates that the engine calls; `sizing n` is the number of bits and of probes that the
-- floating-point formulas give for `n` keys.
pub record Crates : Type 0 where
  pub lz4 : Lz4
  pub seeded : SeededHash
  pub sizing : ℕ → ℕ × ℕ
  pub hashes : Hashes

pub data Maintenance : Type 0 where
  threads manual : Maintenance

pub record Options : Type 0 where
  pub memtable_threshold : ℕ
  pub sync_wal : SyncMode
  pub compaction_threshold : ℕ
  pub bloom_enabled : Bool
  pub maintenance : Maintenance

-- `Options::default()`
abbrev pub default_options : Options
default_options = record {
  memtable_threshold = default_threshold;
  sync_wal = durable;
  compaction_threshold = 4;
  bloom_enabled = true;
  maintenance = threads;
}

-- `struct WriteBatch`
abbrev pub WriteBatch : Type 0
WriteBatch = List (Bytes × Option Bytes)

unfoldable pub batch_put : Bytes → Bytes → WriteBatch → WriteBatch
batch_put key value ops = ops ++ ((key, some value) ∷ [])

unfoldable pub batch_delete : Bytes → WriteBatch → WriteBatch
batch_delete key ops = ops ++ ((key, none) ∷ [])

pub record SsTable : Type 0 where
  pub id : ℕ
  pub reader : SsTableReader

-- `struct DbInner`. `manifest` is the log of the current generation; `flush_signals` and
-- `compact_signals` count the messages to the two workers.
pub record DbInner : Type 0 where
  pub opts : Options
  pub wal : Wal
  pub active : MemTable
  pub frozen : Option MemTable
  pub sstables : List SsTable
  pub next_sst_id : ℕ
  pub next_seq : ℕ
  pub manifest : BufAppend
  pub snapshots : Entries ℕ ℕ
  pub flush_signals : ℕ
  pub compact_signals : ℕ
  pub failed : Option Error

abbrev pub first_failure : Option Error → Error → Error
first_failure none e = e
first_failure (some first) e = first

-- `fail`: the first error stays.
unfoldable pub fail : Error → DbInner → Error × DbInner
fail e db =
    (poisoned (first_failure db.failed e), record db { failed = some (first_failure db.failed e) })

abbrev pub health_of : Option Error → Result (Unit {0})
health_of none = ok tt
health_of (some e) = err (poisoned e)

unfoldable pub health : Exec DbInner (Unit {0})
health db = (health_of db.failed, db)

-- `fetch_add` of a `u64`
abbrev pub added : ℕ → ℕ → ℕ
added x n = (x + n) % 2 ^ 64

abbrev pub record_of : Bytes → Option Bytes → ℕ → Record
record_of key (some v) seq = put key v seq
record_of key none seq = tombstone key seq

-- The send of `Task::Flush` where the MemTable is full.
unfoldable pub triggered : DbInner → DbInner
triggered db =
    if MemTable.is_full db.active then record db { flush_signals = db.flush_signals + 1 } else db

unfoldable pub insert_all : List Record → MemTable → MemTable
insert_all [] m = m
insert_all (r ∷ rs) m = insert_all rs (MemTable.insert r m)

-- The log's answer; the records become visible where it took them.
abbrev pub published : List Record → Result (Unit {0}) × Wal → Exec DbInner (Unit {0})
published records (ok u, w) db =
    (ok tt, triggered (record db { wal = w; active = insert_all records db.active }))
published records (err e, w) db = (err e, record db { wal = w })

-- `write` behind the health check.
unfoldable pub write_healthy : Crates → Bytes → Option Bytes → Exec DbInner (Unit {0})
write_healthy c key value db =
    let r = record_of key value db.next_seq in
    published (r ∷ []) (Wal.append c.hashes r db.wal) (record db { next_seq = added db.next_seq 1 })

unfoldable pub write : Crates → Bytes → Option Bytes → Exec DbInner (Unit {0})
unfolding health
write c key value = health then_do write_healthy c key value

-- `batch.ops.iter().enumerate().map(..)`, from the sequence number of the first.
unfoldable pub numbered : ℕ → WriteBatch → List Record
numbered seq [] = []
numbered seq ((key, value) ∷ ops) = record_of key value seq ∷ numbered (added seq 1) ops

unfoldable pub write_batch_healthy : Crates → WriteBatch → Exec DbInner (Unit {0})
write_batch_healthy c ops db =
    if length ops == 0
    then (ok tt, db)
    else (let records = numbered db.next_seq ops in
        published records (Wal.append_batch c.hashes records db.wal)
          (record db { next_seq = added db.next_seq (length ops) }))

unfoldable pub write_batch : Crates → WriteBatch → Exec DbInner (Unit {0})
unfolding health
write_batch c ops = health then_do write_batch_healthy c ops

abbrev pub beside :
    SsTable
    → Result (Option Record) × SsTableReader
    → List SsTable
    → Result (Option Record) × List SsTable
beside t (r, reader) ts = (r, record t { reader = reader } ∷ ts)

abbrev pub or_older :
    SsTable
    → (SsTableReader → Result (Option Record) × SsTableReader)
    → Result (Option Record) × List SsTable
    → Result (Option Record) × List SsTable
or_older t look (ok none, ts) = beside t (look t.reader) ts
or_older t look (ok (some r), ts) = (ok (some r), t ∷ ts)
or_older t look (err e, ts) = (err e, t ∷ ts)

-- `sstables.iter().rev()`: the tables behind one in the list are asked before it. The caches of the
-- tables that were asked have changed.
unfoldable pub search_tables :
    Crates → Bytes → ℕ → List SsTable → Result (Option Record) × List SsTable
search_tables c key seq_bound [] = (ok none, [])
search_tables c key seq_bound (t ∷ ts) =
    or_older t (Reader.get_at c.lz4 c.seeded key seq_bound) (search_tables c key seq_bound ts)

-- `record.value`; absent where there is no record.
abbrev pub value_in : Option Record → Option Bytes
value_in none = none
value_in (some r) = r.value

abbrev pub from_tables :
    Result (Option Record) × List SsTable → DbInner → Result (Option Bytes) × DbInner
from_tables (ok r, ts) db = (ok (value_in r), record db { sstables = ts })
from_tables (err e, ts) db = (err e, record db { sstables = ts })

abbrev pub get_frozen : Bytes → ℕ → Option MemTable → Option Record
get_frozen key seq_bound none = none
get_frozen key seq_bound (some m) = MemTable.get_at key seq_bound m

-- The first source that has a record answers.
abbrev pub or_else : Option Record → Exec DbInner (Option Bytes) → Exec DbInner (Option Bytes)
or_else (some r) next db = (ok r.value, db)
or_else none next db = next db

unfoldable pub get_healthy : Crates → Bytes → ℕ → Exec DbInner (Option Bytes)
get_healthy c key seq_bound db =
    or_else (MemTable.get_at key seq_bound db.active)
      (or_else (get_frozen key seq_bound db.frozen)
        (λ d. from_tables (search_tables c key seq_bound d.sstables) d))
      db

-- `DbInner::get_at`
unfoldable pub get_at : Crates → Bytes → ℕ → Exec DbInner (Option Bytes)
unfolding health
get_at c key seq_bound = health then_do get_healthy c key seq_bound

unfoldable pub get : Crates → Bytes → Exec DbInner (Option Bytes)
unfolding get_at
get c key = get_at c key u64_max

abbrev pub count_of : Option ℕ → ℕ
count_of none = 0
count_of (some n) = n

-- `Db::snapshot`: the horizon, which is held until the snapshot is dropped.
unfoldable pub snapshot : DbInner → ℕ × DbInner
snapshot db = (
  db.next_seq,
  record db {
    snapshots =
        SortedMap.insert db.next_seq (count_of (SortedMap.lookup db.next_seq db.snapshots) + 1)
          db.snapshots;
  },
)

abbrev pub released : ℕ → Option ℕ → Entries ℕ ℕ → Entries ℕ ℕ
released horizon none m = m
released horizon (some n) m =
    if n - 1 == 0 then SortedMap.remove horizon m else SortedMap.insert horizon (n - 1) m

-- `Drop for Snapshot`
unfoldable pub drop_snapshot : ℕ → DbInner → DbInner
drop_snapshot horizon db = record db {
  snapshots = released horizon (SortedMap.lookup horizon db.snapshots) db.snapshots;
}

abbrev pub first_key : Entries ℕ ℕ → ℕ
first_key [] = u64_max
first_key (e ∷ m) = e.0

-- The keys of the map come in ascending order.
unfoldable pub min_snapshot_seq : DbInner → ℕ
min_snapshot_seq db = first_key db.snapshots

abbrev pub is_some : Option MemTable → Bool
is_some none = false
is_some (some m) = true

unfoldable pub flush_is_due : DbInner → Bool
flush_is_due db =
    if is_some db.frozen
    then true
    else not (MemTable.is_empty db.active) && MemTable.is_full db.active

unfoldable pub compaction_is_due : DbInner → Bool
compaction_is_due db = leb db.opts.compaction_threshold (length db.sstables)

unfoldable pub pending_work : DbInner → Bool
unfolding flush_is_due compaction_is_due
pending_work db = flush_is_due db || compaction_is_due db

-- ===== src/Db/Scan.antt =====
-- src/db.rs, `scan_at`: the merge of a key range across the MemTables and every table.
use lsm_tree_key_value_stora.Prelude.{
  ℕ, zero, suc, Option, none, some, List, [], ◌∷◌, ◌++◌, map, length, ◌==◌, if◌then◌else◌,
}
use lsm_tree_key_value_stora.Errors.{Result, ok, ◌>>=◌}
use lsm_tree_key_value_stora.Bytes.{Bytes}
use lsm_tree_key_value_stora.Members.{concat}
use lsm_tree_key_value_stora.Files.{Exec, ◌then_do◌}
use lsm_tree_key_value_stora.MemTable
use lsm_tree_key_value_stora.MemTable.{MemTable}
use lsm_tree_key_value_stora.Scan
use lsm_tree_key_value_stora.Scan.{Item}
use lsm_tree_key_value_stora.SsTable.Walk
use lsm_tree_key_value_stora.Db.{Crates, SsTable, DbInner, health}

-- `from_memtable`
abbrev pub from_memtable : Option Bytes → Option Bytes → MemTable → List Item
from_memtable start end m = map ok (MemTable.range start end m)

abbrev pub frozen_source : Option Bytes → Option Bytes → Option MemTable → List (List Item)
frozen_source start end none = []
frozen_source start end (some m) = from_memtable start end m ∷ []

-- The items of each table's iterator, which `steps` rounds of its loop give. The walks leave blocks in
-- the caches; that is not recorded, since a cache changes no answer.
unfoldable pub table_sources : Crates → ℕ → Option Bytes → List SsTable → List (List Item)
table_sources c steps start [] = []
table_sources c steps start (t ∷ ts) =
    Walk.collect steps c.lz4 (Walk.scan start t.reader) ∷ table_sources c steps start ts

unfoldable pub sources : Crates → ℕ → Option Bytes → Option Bytes → DbInner → List (List Item)
sources c steps start end db =
    from_memtable start end db.active
    ∷ (frozen_source start end db.frozen ++ table_sources c steps start db.sstables)

-- The loop over the merge, with room for `room` more results. It ends when the last place is taken.
unfoldable pub gather : ℕ → List (Result (Bytes × Bytes)) → Result (List (Bytes × Bytes))
gather room [] = ok []
gather zero (item ∷ items) = ok []
gather (suc room) (item ∷ items) =
    item >>= λ kv. if room == 0 then ok (kv ∷ []) else (gather room items >>= λ kvs. ok (kv ∷ kvs))

unfoldable pub scan_healthy :
    Crates → ℕ → Option Bytes → Option Bytes → ℕ → ℕ → Exec DbInner (List (Bytes × Bytes))
scan_healthy c steps start end limit seq_bound db =
    if limit == 0
    then (ok [], db)
    else (let all = sources c steps start end db in
        (gather limit (Scan.collect (length (concat all)) (Scan.new all seq_bound end)), db))

-- `steps` bounds the rounds of the walk over one table.
unfoldable pub scan_at :
    Crates → ℕ → Option Bytes → Option Bytes → ℕ → ℕ → Exec DbInner (List (Bytes × Bytes))
unfolding health
scan_at c steps start end limit seq_bound =
    health then_do scan_healthy c steps start end limit seq_bound

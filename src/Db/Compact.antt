-- ===== src/Db/Compact.antt =====
-- src/db.rs, `compact_step` and `pick_compaction`: choose a run of tables of one size tier, merge it,
-- and put the merged table in the place of the run.
use lsm_tree_key_value_stora.Prelude.{
  ℕ, zero, suc, ◌+◌, ◌-◌, ◌/◌, Bool, true, false, Option, none, some, List, [], ◌∷◌, ◌++◌, map,
  length, take, drop, ltb, leb, ◌==◌, if◌then◌else◌,
}
use lsm_tree_key_value_stora.Errors.{Result, ok, err, corrupt, run_vanished, ◌>>=◌}
use lsm_tree_key_value_stora.Record.{Record}
use lsm_tree_key_value_stora.Files.{Exec, continue, ◌then_do◌}
use lsm_tree_key_value_stora.Compaction.{compact, collect_all}
use lsm_tree_key_value_stora.Manifest.{delete_table}
use lsm_tree_key_value_stora.SsTable.Reader.{SsTableReader, iter_all}
use lsm_tree_key_value_stora.Db.{Crates, SsTable, DbInner, health, min_snapshot_seq}
use lsm_tree_key_value_stora.Db.Disk.{Disk, store_table}
use lsm_tree_key_value_stora.Db.Flush.{append_edits, latched}

-- `64 - len.leading_zeros()`: the bit width. A fuel of 64 halvings is enough for a `u64`.
unfoldable pub bit_width : ℕ → ℕ → ℕ
bit_width zero n = 0
bit_width (suc fuel) n = let rest = bit_width fuel (n / 2) in if n == 0 then 0 else suc rest

-- The first loop: the tier of each table.
unfoldable pub tiers_of : Disk → List SsTable → Result (List ℕ)
tiers_of d [] = ok []
tiers_of d (t ∷ ts) =
    d.table_size t.id >>= λ len. tiers_of d ts >>= λ tiers. ok (bit_width 64 len ∷ tiers)

-- The inner loop: how many tiers at the head of the list equal the given one.
unfoldable pub run_length : ℕ → List ℕ → ℕ
run_length tier [] = 0
run_length tier (t ∷ tiers) = let rest = run_length tier tiers in if t == tier then suc rest else 0

-- The outer loop from index `i` on; `tiers` are those from there. Each round takes a tier or more, so
-- their number is enough fuel.
unfoldable pub find_run : ℕ → ℕ → ℕ → List ℕ → Option (ℕ × ℕ)
find_run zero threshold i tiers = none
find_run (suc fuel) threshold i [] = none
find_run (suc fuel) threshold i (t ∷ tiers) =
    let n = suc (run_length t tiers) in
    let rest = find_run fuel threshold (i + n) (drop n (t ∷ tiers)) in
    if leb threshold n then some (i, i + n) else rest

unfoldable pub pick_compaction : Disk → List SsTable → ℕ → Result (Option (ℕ × ℕ))
pick_compaction d tables threshold =
    if ltb (length tables) threshold
    then ok none
    else (tiers_of d tables >>= λ tiers. ok (find_run (length tiers) threshold 0 tiers))

-- `tables[start..end]`
abbrev pub range_of : ℕ × ℕ → List SsTable → List SsTable
range_of (start, end) tables = take (end - start) (drop start tables)

-- `run.last()`
abbrev pub last_of : List SsTable → Option SsTable
last_of [] = none
last_of (t ∷ []) = some t
last_of (t ∷ u ∷ ts) = last_of (u ∷ ts)

-- `run[0].id == tables[0].id`
abbrev pub same_first : List SsTable → List SsTable → Bool
same_first (r ∷ run) (t ∷ tables) = r.id == t.id
same_first [] tables = false
same_first (r ∷ run) [] = false

abbrev pub ids_of : List SsTable → List ℕ
ids_of [] = []
ids_of (t ∷ ts) = t.id ∷ ids_of ts

-- `run[..run.len() - 1]`
abbrev pub all_but_last : List SsTable → List SsTable
all_but_last [] = []
all_but_last (t ∷ []) = []
all_but_last (t ∷ u ∷ ts) = t ∷ all_but_last (u ∷ ts)

-- What each `iter_all` answers. It fills caches of tables that the merged one replaces.
abbrev pub read_run : Crates → List SsTable → List (Result (List Record))
read_run c run = map (λ t. (iter_all c.lz4 t.reader).0) run

-- `compaction::compact` of the run to the scratch file, and the way of that file to its place.
unfoldable pub store_merged : Crates → Disk → Bool → List SsTable → Bool → ℕ → Result SsTableReader
store_merged c d bloom_enabled run drop_tombstones min_snapshot_seq =
    collect_all (read_run c run) >>= λ inputs.
    store_table c d bloom_enabled (compact inputs drop_tombstones min_snapshot_seq)

abbrev pub next_index : Option ℕ → Option ℕ
next_index none = none
next_index (some i) = some (suc i)

-- `cur.iter().position(|t| t.id == max_id)`
unfoldable pub position : ℕ → List SsTable → Option ℕ
position id [] = none
position id (t ∷ ts) = let rest = position id ts in if t.id == id then some 0 else next_index rest

-- The live set with the run, which ends at `end_pos`, replaced.
unfoldable pub spliced : List SsTable → ℕ → ℕ → SsTable → List SsTable
spliced cur end_pos run_len merged =
    take (end_pos + 1 - run_len) cur ++ (merged ∷ drop (end_pos + 1) cur)

abbrev pub splice_at : Option ℕ → ℕ → SsTable → Exec DbInner (Unit {0})
splice_at none run_len merged db = (err (corrupt run_vanished), db)
splice_at (some end_pos) run_len merged db =
    (ok tt, record db { sstables = spliced db.sstables end_pos run_len merged })

unfoldable pub splice : ℕ → SsTable → Exec DbInner (Unit {0})
splice run_len merged db = splice_at (position merged.id db.sstables) run_len merged db

unfoldable pub remove_each : Disk → List ℕ → Result (Unit {0})
remove_each d [] = ok tt
remove_each d (id ∷ ids) = d.removed id >>= λ _. remove_each d ids

abbrev pub answering : Result (Unit {0}) → Exec DbInner (Unit {0})
answering r db = (r, db)

-- The publish step, with the merged table open.
unfoldable pub publish_run : Crates → Disk → List SsTable → ℕ → SsTableReader → Exec DbInner Bool
publish_run c d run max_id reader =
    append_edits c (map delete_table (ids_of (all_but_last run)))
    then_do splice (length run) (record { id = max_id; reader = reader })
    then_do answering (remove_each d (ids_of (all_but_last run)))
    then_do answering d.removals_synced
    then_do (λ db. (ok true, db))

abbrev pub merge_run : Crates → Disk → List SsTable → Option SsTable → Exec DbInner Bool
merge_run c d run none db = (ok false, db)
merge_run c d run (some last) db =
    continue
      (store_merged c d db.opts.bloom_enabled run (same_first run db.sstables)
        (min_snapshot_seq db))
      (publish_run c d run last.id) db

abbrev pub merge_picked : Crates → Disk → Option (ℕ × ℕ) → Exec DbInner Bool
merge_picked c d none db = (ok false, db)
merge_picked c d (some range) db =
    merge_run c d (range_of range db.sstables) (last_of (range_of range db.sstables)) db

unfoldable pub compact_step_impl : Crates → Disk → Exec DbInner Bool
compact_step_impl c d db =
    continue (pick_compaction d db.sstables db.opts.compaction_threshold) (merge_picked c d) db

unfoldable pub compact_step : Crates → Disk → Exec DbInner Bool
unfolding health
compact_step c d = health then_do (λ db. latched (compact_step_impl c d db))

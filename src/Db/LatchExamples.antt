-- ===== src/Db/LatchExamples.antt =====
-- A flush that fails on the example database, and what is asked of it next.
use lsm_tree_key_value_stora.Prelude.{◌≡◌, refl, none, some, [], ◌∷◌, All}
use lsm_tree_key_value_stora.Errors.{err, io, other_io, poisoned}
use lsm_tree_key_value_stora.SortedMap
use lsm_tree_key_value_stora.MemTable
use lsm_tree_key_value_stora.Db.{health, fail}
use lsm_tree_key_value_stora.Db.Disk.{Disk, store_table}
use lsm_tree_key_value_stora.Db.Flush.{flush_inner, flush_impl, freeze}
use lsm_tree_key_value_stora.Db.Latches.{writes, flushes, runs, Runs, done, more, upkeep-Runs}
use lsm_tree_key_value_stora.Db.Examples.{crates, disk, running}

-- A disk on which no scratch file can be made.
abbrev full_disk : Disk
full_disk = record disk { table_file = err (io other_io) }

flush_fails : (runs crates (flushes full_disk) running).0 ≡ some (poisoned (io other_io))
unfolding flush_inner flush_impl freeze store_table health fail MemTable.is_empty MemTable.insert
    SortedMap.insert
flush_fails = refl

-- A delete behind it.
three_more :
    Runs crates
      (runs crates (flushes full_disk) running).1
      ((runs crates (writes (97 ∷ []) none) (runs crates (flushes full_disk) running).1).0 ∷ [])
      (runs crates (writes (97 ∷ []) none) (runs crates (flushes full_disk) running).1).1
three_more = more (writes (97 ∷ []) none) _ (done _)

upkeep-Runs_example :
    ((runs crates (writes (97 ∷ []) none) (runs crates (flushes full_disk) running).1).1
      ≡ (runs crates (flushes full_disk) running).1)
    × All
        (λ o. o ≡ some (poisoned (io other_io)))
        ((runs crates (writes (97 ∷ []) none) (runs crates (flushes full_disk) running).1).0 ∷ [])
upkeep-Runs_example =
    upkeep-Runs crates (flushes full_disk) running _ (poisoned (io other_io)) _ tt refl flush_fails
      three_more

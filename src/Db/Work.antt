-- ===== src/Db/Work.antt =====
-- src/db.rs and src/compactor.rs: the public operations that drive flushes and compactions, and the
-- loops of the two worker threads over the messages that they receive.
use lsm_tree_key_value_stora.Prelude.{
  ℕ, zero, suc, Bool, true, false, Option, none, some, List, [], ◌∷◌, if◌then◌else◌,
}
use lsm_tree_key_value_stora.Errors.{Result, ok, err}
use lsm_tree_key_value_stora.Files.{Exec, ◌then_do◌}
use lsm_tree_key_value_stora.Db.{Crates, DbInner, flush_is_due}
use lsm_tree_key_value_stora.Db.Disk.{Disk}
use lsm_tree_key_value_stora.Db.Flush.{flush_inner}
use lsm_tree_key_value_stora.Db.Compact.{compact_step}

-- `while self.inner.compact_step()? {}`, on the answers of the file system to each step. No answer
-- where the fuel runs out.
unfoldable pub compact_all :
    Crates → ℕ → (ℕ → Disk) → ℕ → DbInner → Option (Result (Unit {0}) × DbInner)
compact_all c zero d i db = none
compact_all c (suc fuel) d i db =
    let p = compact_step c (d i) db in
    elim p.0 [
      | ok true ↦ compact_all c fuel d (suc i) p.1
      | ok false ↦ some (ok tt, p.1)
      | err e ↦ some (err e, p.1)
    ]

-- `Db::flush`: the first disk is the flush's.
unfoldable pub flush : Crates → ℕ → (ℕ → Disk) → DbInner → Option (Result (Unit {0}) × DbInner)
flush c fuel d db =
    let p = flush_inner c (d 0) db in
    elim p.0 [ ok u ↦ compact_all c fuel d 1 p.1 | err e ↦ some (err e, p.1) ]

-- `Db::flush_only`
unfoldable pub flush_only : Crates → Disk → Exec DbInner (Unit {0})
flush_only c d = flush_inner c d

abbrev pub always_true : Exec DbInner Bool
always_true db = (ok true, db)

-- `Db::maintain`
unfoldable pub maintain : Crates → Disk → Exec DbInner Bool
maintain c d db =
    if flush_is_due db then (flush_inner c d then_do always_true) db else compact_step c d db

-- `enum Task`
pub data Task : Type 0 where
  flush_task shutdown_task : Task

-- `worker_loop`, on the messages that it will receive; the loop ends with the channel.
unfoldable pub worker_loop : Crates → (ℕ → Disk) → ℕ → List Task → DbInner → DbInner
worker_loop c d i [] db = db
worker_loop c d i (shutdown_task ∷ tasks) db = db
worker_loop c d i (flush_task ∷ tasks) db =
    let p = flush_inner c (d i) db in
    elim p.0 [ ok u ↦ worker_loop c d (suc i) tasks p.1 | err e ↦ p.1 ]

-- `enum CompactMsg`
pub data CompactMsg : Type 0 where
  run shutdown : CompactMsg

-- `compaction_loop`; `d i j` is the disk of step `j` of round `i`, and each round's fuel is given. No
-- answer where a round's fuel runs out.
unfoldable pub compaction_loop :
    Crates → ℕ → (ℕ → ℕ → Disk) → ℕ → List CompactMsg → DbInner → Option DbInner
compaction_loop c fuel d i [] db = some db
compaction_loop c fuel d i (shutdown ∷ msgs) db = some db
compaction_loop c fuel d i (run ∷ msgs) db = elim (compact_all c fuel (d i) 0 db) [
  | none ↦ none
  | some p ↦ compaction_loop c fuel d (suc i) msgs p.1
]

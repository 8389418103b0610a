-- ===== src/Db/Health.antt =====
-- The latch of the first failure: what every public operation does before anything else.
use lsm_tree_key_value_stora.Prelude.{ℕ, ◌≡◌, ap, Option, none, some}
use lsm_tree_key_value_stora.Errors.{Error, err, poisoned}
use lsm_tree_key_value_stora.Bytes.{Bytes}
use lsm_tree_key_value_stora.Files.{Exec, continue, ◌then_do◌}
use lsm_tree_key_value_stora.Db.{
  Crates, WriteBatch, DbInner, health, health_of, write, write_batch, get_at, write_healthy,
  write_batch_healthy, get_healthy,
}
use lsm_tree_key_value_stora.Db.Scan.{scan_at, scan_healthy}
use lsm_tree_key_value_stora.Db.Disk.{Disk}
use lsm_tree_key_value_stora.Db.Flush.{flush_inner, flush_impl, latched}
use lsm_tree_key_value_stora.Db.Compact.{compact_step, compact_step_impl}

module _ {B : Type 0} (m : Exec DbInner B) (db : DbInner) where
  pub healthy : db.failed ≡ none → (health then_do m) db ≡ m db
  unfolding health
  healthy e = ap (λ o. continue (health_of o) (λ _. m) db) e

  pub refused : {e : Error} → db.failed ≡ some e → (health then_do m) db ≡ (err (poisoned e), db)
  unfolding health
  refused e = ap (λ o. continue (health_of o) (λ _. m) db) e

-- An answer that refuses, from a database that is as it was.
abbrev pub Refuses : {B : Type 0} → Error → DbInner → Exec DbInner B → Type 0
Refuses e db m = m db ≡ (err (poisoned e), db)

-- A database that keeps a failure refuses every operation with it, and stays as it is.
pub failed-Refuses :
    (c : Crates) (db : DbInner) (e : Error)
    → db.failed ≡ some e
    → ((key : Bytes) (value : Option Bytes) → Refuses e db (write c key value))
      × ((ops : WriteBatch) → Refuses e db (write_batch c ops))
      × ((key : Bytes) (bound : ℕ) → Refuses e db (get_at c key bound))
      × ((steps limit bound : ℕ) (start end : Option Bytes)
          → Refuses e db (scan_at c steps start end limit bound))
      × ((d : Disk) → Refuses e db (flush_inner c d))
      × ((d : Disk) → Refuses e db (compact_step c d))
unfolding write write_batch get_at scan_at flush_inner compact_step
failed-Refuses c db e f = (
  λ key value. refused (write_healthy c key value) db f,
  λ ops. refused (write_batch_healthy c ops) db f,
  λ key bound. refused (get_healthy c key bound) db f,
  λ steps limit bound start end. refused (scan_healthy c steps start end limit bound) db f,
  λ d. refused (λ db. latched (flush_impl c d db)) db f,
  λ d. refused (λ db. latched (compact_step_impl c d db)) db f,
)

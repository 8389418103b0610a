-- ===== src/Db/Latches.antt =====
-- src/db.rs, `fail` and `health`: what is left of a database when a flush or a compaction has failed.
use lsm_tree_key_value_stora.Prelude.{
  ℕ, ◌≡◌, ap, sym, ◌∙◌, refl, All, subst, Option, none, some, List, [], ◌∷◌,
}
use lsm_tree_key_value_stora.Errors.{Error, Result, ok, err, poisoned}
use lsm_tree_key_value_stora.Bytes.{Bytes}
use lsm_tree_key_value_stora.Db.{Crates, WriteBatch, DbInner, health, write, write_batch, get_at}
use lsm_tree_key_value_stora.Db.Health.{failed-Refuses, healthy}
use lsm_tree_key_value_stora.Db.Scan.{scan_at}
use lsm_tree_key_value_stora.Db.Disk.{Disk}
use lsm_tree_key_value_stora.Db.Flush.{flush_inner, flush_impl, latched}
use lsm_tree_key_value_stora.Db.Compact.{compact_step, compact_step_impl}
use lsm_tree_key_value_stora.Db.Flushes.{Latches, latched-Latches}

-- An operation, with the answers that the file system gives during it.
pub data Operation : Type 0 where
  writes : Bytes → Option Bytes → Operation
  batches : WriteBatch → Operation
  reads : Bytes → ℕ → Operation
  scans : ℕ → Option Bytes → Option Bytes → ℕ → ℕ → Operation
  flushes compacts : Disk → Operation

-- The error that the operation answers, if it fails, and the database behind it.
abbrev failure : {A : Type 0} → Result A × DbInner → Option Error × DbInner
failure (ok a, db) = (none, db)
failure (err e, db) = (some e, db)

abbrev pub runs : Crates → Operation → DbInner → Option Error × DbInner
runs c (writes key value) db = failure (write c key value db)
runs c (batches ops) db = failure (write_batch c ops db)
runs c (reads key bound) db = failure (get_at c key bound db)
runs c (scans steps start end limit bound) db = failure (scan_at c steps start end limit bound db)
runs c (flushes d) db = failure (flush_inner c d db)
runs c (compacts d) db = failure (compact_step c d db)

-- A row of operations, and the errors that they answer.
pub data Runs (c : Crates) : DbInner → List (Option Error) → DbInner → Type 0 where
  done : (db : DbInner) → Runs c db [] db
  more :
      (op : Operation) (db : DbInner) {es : List (Option Error)} {last : DbInner}
      → Runs c (runs c op db).1 es last
      → Runs c db ((runs c op db).0 ∷ es) last

abbrev pub IsUpkeep : Operation → Type 0
IsUpkeep (writes key value) = ⊥
IsUpkeep (batches ops) = ⊥
IsUpkeep (reads key bound) = ⊥
IsUpkeep (scans steps start end limit bound) = ⊥
IsUpkeep (flushes d) = Unit
IsUpkeep (compacts d) = Unit

failure_err :
    {A : Type 0} (p : Result A × DbInner) (e : Error) → (failure p).0 ≡ some e → p.0 ≡ err e
failure_err (ok a, db) e h = absurd (cc h)
failure_err (err x, db) e h = cc h

failure-db : {A : Type 0} (p : Result A × DbInner) → (failure p).1 ≡ p.1
failure-db (ok a, db) = refl
failure-db (err x, db) = refl

-- An operation on a database that has failed.
refused_operation :
    (c : Crates) (op : Operation) (db : DbInner) (first : Error)
    → db.failed ≡ some first
    → runs c op db ≡ (some (poisoned first), db)
refused_operation c (writes key value) db first f =
    ap failure ((failed-Refuses c db first f).0 key value)
refused_operation c (batches ops) db first f = ap failure ((failed-Refuses c db first f).1 ops)
refused_operation c (reads key bound) db first f =
    ap failure ((failed-Refuses c db first f).2 key bound)
refused_operation c (scans steps start end limit bound) db first f =
    ap failure ((failed-Refuses c db first f).3 steps limit bound start end)
refused_operation c (flushes d) db first f = ap failure ((failed-Refuses c db first f).4 d)
refused_operation c (compacts d) db first f = ap failure ((failed-Refuses c db first f).5 d)

refused_row :
    (c : Crates) (first : Error) {db last : DbInner} {es : List (Option Error)}
    → db.failed ≡ some first
    → Runs c db es last
    → (last ≡ db) × All (λ o. o ≡ some (poisoned first)) es
refused_row c first f (done db) = (refl, tt)
refused_row c first f (more op db rest) =
    let e = refused_operation c op db first f in
    let (same, all) = refused_row c first (ap (λ p. p.1.failed) e ∙ f) rest in
    (same ∙ ap (λ p. p.1) e, (ap (λ p. p.0) e, all))

upkeep-Latches :
    (c : Crates) (op : Operation) (db : DbInner) (e : Error)
    → IsUpkeep op
    → db.failed ≡ none
    → (runs c op db).0 ≡ some e
    → (first : Error) × ((runs c op db).1.failed ≡ some first) × (e ≡ poisoned first)
unfolding flush_inner compact_step health
upkeep-Latches c (flushes d) db e u f h =
    let latches : Latches (flush_inner c d db) =
      subst Latches (sym (healthy (λ db. latched (flush_impl c d db)) db f))
        (latched-Latches (flush_impl c d db)) in
    let (first, k, q) = latches e (failure_err (flush_inner c d db) e h) in
    (first, ap (λ x. x.failed) (failure-db (flush_inner c d db)) ∙ k, q)
upkeep-Latches c (compacts d) db e u f h =
    let latches : Latches (compact_step c d db) =
      subst Latches (sym (healthy (λ db. latched (compact_step_impl c d db)) db f))
        (latched-Latches (compact_step_impl c d db)) in
    let (first, k, q) = latches e (failure_err (compact_step c d db) e h) in
    (first, ap (λ x. x.failed) (failure-db (compact_step c d db)) ∙ k, q)
upkeep-Latches c (writes key value) db e u f h = absurd u
upkeep-Latches c (batches ops) db e u f h = absurd u
upkeep-Latches c (reads key bound) db e u f h = absurd u
upkeep-Latches c (scans steps start end limit bound) db e u f h = absurd u

-- A flush or a compaction step has failed on a database that had not failed before. Then each
-- operation of any row that follows, a write, batch, read, scan, flush or compaction step, whatever
-- the file system would answer, fails with the very error of that flush or compaction, and the
-- database stays as that one left it: nothing gets into the log, the MemTable or the tables.
pub upkeep-Runs :
    (c : Crates) (op : Operation) (db last : DbInner) (e : Error) (es : List (Option Error))
    → IsUpkeep op
    → db.failed ≡ none
    → (runs c op db).0 ≡ some e
    → Runs c (runs c op db).1 es last
    → (last ≡ (runs c op db).1) × All (λ o. o ≡ some e) es
upkeep-Runs c op db last e es u f h row =
    let (first, k, q) = upkeep-Latches c op db e u f h in
    let (same, all) = refused_row c first k row in
    (same, subst (λ x. All (λ o. o ≡ some x) es) (sym q) all)

-- ===== src/Db/Shrinks.antt =====
-- Compaction ends: each step that merges leaves fewer tables.
use lsm_tree_key_value_stora.Prelude.{
  ℕ, zero, suc, ◌+◌, ◌-◌, ◌≤◌, ◌<◌, ◌≡◌, refl, ap, sym, ◌∙◌, subst, Bool, true, false, Option, none,
  some, List, ◌∷◌, ◌++◌, arith, length, drop, inl, inr, length-append, length-take, length-drop,
  Option-cases,
}
use lsm_tree_key_value_stora.Errors.{Result, ok, err}
use lsm_tree_key_value_stora.Files.{continue}
use lsm_tree_key_value_stora.SsTable.Reader.{SsTableReader}
use lsm_tree_key_value_stora.Db.{Crates, SsTable, DbInner, min_snapshot_seq, health}
use lsm_tree_key_value_stora.Db.Health.{healthy, refused}
use lsm_tree_key_value_stora.Db.Disk.{Disk}
use lsm_tree_key_value_stora.Db.Flush.{latched}
use lsm_tree_key_value_stora.Db.Compact.{
  range_of, last_of, same_first, store_merged, publish_run, merge_run, merge_picked,
  pick_compaction, compact_step_impl, compact_step,
}
use lsm_tree_key_value_stora.Db.Flushes.{latched_ok}
use lsm_tree_key_value_stora.Db.Picked.{pick_compaction-IsRunAt}
use lsm_tree_key_value_stora.Db.Splice.{
  DistinctIds, Around, range_of-Around, last_of_ended, splice_lem, spliced-DistinctIds,
}
use lsm_tree_key_value_stora.Db.Publish.{publish_run_ok}
use lsm_tree_key_value_stora.Db.Work.{compact_all}

module _ (c : Crates) (d : Disk) (db : DbInner) (distinct : DistinctIds db.sstables) where
  -- What a step that merged leaves.
  abbrev Shrunk : Bool → DbInner → Type 0
  Shrunk merged db' =
      merged ≡ true
      → DistinctIds db'.sstables
        × (length db'.sstables + db.opts.compaction_threshold ≤ length db.sstables + 1)
        × (db'.opts ≡ db.opts)

  module _ (a b : ℕ) (below : a < b) (inside : b ≤ length db.sstables)
      (enough : db.opts.compaction_threshold ≤ b - a) where
    abbrev run : List SsTable
    run = range_of (a, b) db.sstables

    around : Around db.sstables run
    around = range_of-Around a b db.sstables below inside

    published-Shrunk :
        (r : Result SsTableReader) (merged : Bool)
        → (continue r (publish_run c d run around.last.id) db).0 ≡ ok merged
        → Shrunk merged (continue r (publish_run c d run around.last.id) db).1
    published-Shrunk (err e) merged h = absurd (cc h)
    published-Shrunk (ok t) merged h =
        let s = around in
        let table : SsTable = record { id = s.last.id; reader = t } in
        let (log, e, f) =
          publish_run_ok c d run s.last.id t db (s.pre ++ (table ∷ s.post)) merged
            (λ x q. splice_lem db.sstables run s distinct table refl x q) h in
        let n = ap length s.whole in
        let l1 = length-append s.pre (run ++ s.post) in
        let l2 = length-append run s.post in
        let l3 = length-append s.pre (table ∷ s.post) in
        let l4 = length-take (b - a) (drop a db.sstables) in
        let l5 = length-drop a db.sstables in
        subst (Shrunk merged) (sym f) (λ _. (
          spliced-DistinctIds db.sstables run s distinct table refl,
          omega (arith, n, l1, l2, l3, l4, l5),
          refl,
        ))

    merged-Shrunk :
        (merged : Bool)
        → (merge_run c d run (last_of run) db).0 ≡ ok merged
        → Shrunk merged (merge_run c d run (last_of run) db).1
    merged-Shrunk merged =
        subst
          (λ o. (merge_run c d run o db).0 ≡ ok merged → Shrunk merged (merge_run c d run o db).1)
          (sym (ap last_of around.ended ∙ last_of_ended around.init around.last))
          (published-Shrunk
            (store_merged c d db.opts.bloom_enabled run (same_first run db.sstables)
              (min_snapshot_seq db))
            merged)

  picked-Shrunk :
      (r : Result (Option (ℕ × ℕ))) (merged : Bool)
      → pick_compaction d db.sstables db.opts.compaction_threshold ≡ r
      → (continue r (merge_picked c d) db).0 ≡ ok merged
      → Shrunk merged (continue r (merge_picked c d) db).1
  picked-Shrunk (err e) merged k h = absurd (cc h)
  picked-Shrunk (ok none) merged k h = let e : ok false ≡ ok merged = h in λ m. absurd (cc (m, e))
  picked-Shrunk (ok (some (i, j))) merged k h =
      let (tiers, t, l, at) =
        pick_compaction-IsRunAt d db.sstables db.opts.compaction_threshold i j k in
      let l1 = ap length at.whole in
      let l2 = length-append at.pre (at.run ++ at.post) in
      let l3 = length-append at.run at.post in
      merged-Shrunk i j (omega (arith, at.ends, at.some_tables))
        (omega (arith, at.ends, at.starts, l, l1, l2, l3)) (omega (arith, at.ends, at.long_enough))
        merged h

  -- A step that merges leaves different ids, the same options, and fewer tables by the threshold less
  -- one.
  compact_step-Shrunk :
      (merged : Bool) → (compact_step c d db).0 ≡ ok merged → Shrunk merged (compact_step c d db).1
  unfolding compact_step compact_step_impl health
  compact_step-Shrunk merged = elim (Option-cases db.failed) [
    | inl e ↦
        subst (λ p. p.0 ≡ ok merged → Shrunk merged p.1)
          (sym (healthy (λ db. latched (compact_step_impl c d db)) db e))
          (latched_ok Shrunk (compact_step_impl c d db)
            (λ m. picked-Shrunk (pick_compaction d db.sstables db.opts.compaction_threshold) m refl)
            merged)
    | inr (x, e) ↦
        subst (λ p. p.0 ≡ ok merged → Shrunk merged p.1)
          (sym (refused (λ db. latched (compact_step_impl c d db)) db e)) (λ h. absurd (cc h))
  ]

abbrev Ends : Option (Result (Unit {0}) × DbInner) → Type 0
Ends o = (out : Result (Unit {0}) × DbInner) × (o ≡ some out)

-- Where the tables have different ids and the threshold is two or more, whatever the file system
-- answers, the loop of compactions ends within one step more than there are tables.
pub compact_all-ends :
    (fuel : ℕ) (c : Crates) (d : ℕ → Disk) (i : ℕ) (db : DbInner)
    → DistinctIds db.sstables
    → 2 ≤ db.opts.compaction_threshold
    → length db.sstables < fuel
    → (out : Result (Unit {0}) × DbInner) × (compact_all c fuel d i db ≡ some out)
unfolding compact_all
compact_all-ends zero c d i db distinct t l = absurd (omega arith)
compact_all-ends (suc fuel) c d i db distinct t l =
    round (compact_step c (d i) db) (compact_step-Shrunk c (d i) db distinct)
      (λ x ids h k. compact_all-ends fuel c d (suc i) x ids h k)
  where
    round :
        (p : Result Bool × DbInner)
        → ((merged : Bool) → p.0 ≡ ok merged → Shrunk c (d i) db distinct merged p.1)
        → ((x : DbInner)
            → DistinctIds x.sstables
            → 2 ≤ x.opts.compaction_threshold
            → length x.sstables < fuel
            → Ends (compact_all c fuel d (suc i) x))
        → Ends (elim p.0 [
          | ok true ↦ compact_all c fuel d (suc i) p.1
          | ok false ↦ some (ok tt, p.1)
          | err e ↦ some (err e, p.1)
        ])
    round (err e, x) k rest = ((err e, x), refl)
    round (ok false, x) k rest = ((ok tt, x), refl)
    round (ok true, x) k rest =
        let (ids, fewer, opts) = k true refl refl in
        rest x ids (subst (λ o. 2 ≤ o.compaction_threshold) (sym opts) t) (omega (arith, fewer))

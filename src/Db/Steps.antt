-- ===== src/Db/Steps.antt =====
-- A whole compaction step, from the choice of the run to the publication of the merged table.
use lsm_tree_key_value_stora.Prelude.{
  ℕ, ◌+◌, ◌-◌, ◌≤◌, ◌<◌, ◌≡◌, refl, ap, sym, ◌∙◌, subst, subst₂, Bool, true, false, Option, none,
  some, List, [], ◌∷◌, ◌++◌, arith, length, drop, length-append, length-take, length-drop, All,
}
use lsm_tree_key_value_stora.Errors.{Result, ok, err, >>=-eq_ok}
use lsm_tree_key_value_stora.Bytes.{Bytes}
use lsm_tree_key_value_stora.Record.{Record, usize_mod}
use lsm_tree_key_value_stora.Record.RoundTrip.{Fits}
use lsm_tree_key_value_stora.Wal.Decode.{encodings}
use lsm_tree_key_value_stora.Visible.{newest, value_of, IsRun}
use lsm_tree_key_value_stora.Compaction.{compact, collect_all}
use lsm_tree_key_value_stora.Files.{continue, BufAppend}
use lsm_tree_key_value_stora.SsTable.Reader.{SsTableReader}
use lsm_tree_key_value_stora.SsTable.Blocks.{Part, all_records}
use lsm_tree_key_value_stora.Db.{Crates, SsTable, DbInner, health, min_snapshot_seq}
use lsm_tree_key_value_stora.Db.Health.{healthy}
use lsm_tree_key_value_stora.Db.Disk.{Disk, store_table}
use lsm_tree_key_value_stora.Db.Flush.{latched}
use lsm_tree_key_value_stora.Db.Compact.{
  range_of, last_of, same_first, read_run, store_merged, publish_run, merge_run, merge_picked,
  pick_compaction, compact_step_impl, compact_step,
}
use lsm_tree_key_value_stora.Db.Contents.{Holds, Layered, contents, IsValid}
use lsm_tree_key_value_stora.Db.Flushes.{Latches, latched-Latches, latched_ok}
use lsm_tree_key_value_stora.Db.Stores.{IsSound, IsFaithful, TableFits, Stored, store_table-Stored}
use lsm_tree_key_value_stora.Db.Picked.{pick_compaction-IsRunAt}
use lsm_tree_key_value_stora.Db.Splice.{
  DistinctIds, Around, range_of-Around, last_of_ended, splice_lem, spliced-DistinctIds,
}
use lsm_tree_key_value_stora.Db.Compactions.{
  Holds-split, Holds-join, Holds-Ordered, runs, collect_all-runs, merged-IsRun, dropped_first,
  compacted-IsValid, compacted_value,
}
use lsm_tree_key_value_stora.Db.Publish.{output_of_run, output_of_pick, output_of, publish_run_ok}

module _ (c : Crates) (d : Disk) (pss : List (List Part)) (db : DbInner) (v : IsValid c pss db)
    (distinct : DistinctIds db.sstables) where
  -- What a step leaves: `merged` tells whether it merged a run.
  abbrev pub Compacted : Bool → DbInner → Type 0
  Compacted merged db' =
      (pss' : List (List Part)) × IsValid c pss' db'
      × DistinctIds db'.sstables
      × ((key : Bytes) (bound : ℕ)
          → min_snapshot_seq db ≤ bound
          → value_of (newest key bound (contents pss' db'))
            ≡ value_of (newest key bound (contents pss db)))
      × (merged ≡ true
          → length db'.sstables + db.opts.compaction_threshold ≤ length db.sstables + 1)
      × (db'.opts ≡ db.opts)
      × (db'.failed ≡ db.failed)
      × (db'.snapshots ≡ db.snapshots)
      × (db'.next_seq ≡ db.next_seq)

  unchanged : Compacted false db
  unchanged = (pss, v, distinct, λ key bound h. refl, λ e. absurd (cc e), refl, refl, refl, refl)

  module _ (a b : ℕ) (below : a < b) (inside : b ≤ length db.sstables)
      (enough : db.opts.compaction_threshold ≤ b - a) where
    abbrev run : List SsTable
    run = range_of (a, b) db.sstables

    abbrev drop_tombstones : Bool
    drop_tombstones = same_first run db.sstables

    around : Around db.sstables run
    around = range_of-Around a b db.sstables below inside

    length-range : length run ≡ b - a
    length-range =
        omega (arith, length-take (b - a) (drop a db.sstables), length-drop a db.sstables)

    -- The records that the step stores are a run.
    output-IsRun :
        (inputs : List (List Record))
        → collect_all (read_run c run) ≡ ok inputs
        → IsRun (compact inputs drop_tombstones (min_snapshot_seq db))
    output-IsRun inputs reads =
        let s = around in
        let (pre, rest, e1, h1, h2) =
          Holds-split c s.pre (run ++ s.post) pss (subst (λ ts. Holds c ts pss) s.whole v.tables) in
        let (mid, post, e2, h3, h4) = Holds-split c run s.post rest h2 in
        let r : runs mid ≡ inputs = cc (reads, collect_all-runs c run mid h3) in
        subst (λ x. IsRun (compact x drop_tombstones (min_snapshot_seq db))) r
          (merged-IsRun pre mid post drop_tombstones (min_snapshot_seq db)
            (Holds-Ordered c run mid h3) (subst Layered (e1 ∙ ap (λ x. pre ++ x) e2) v.layered))

    replaced :
        (log : BufAppend) (t : SsTable)
        → t.id ≡ around.last.id
        → (inputs : List (List Record)) → collect_all (read_run c run) ≡ ok inputs
        → Stored c (compact inputs drop_tombstones (min_snapshot_seq db)) t.reader
        → Compacted true (record db { manifest = log; sstables = around.pre ++ (t ∷ around.post) })
    replaced log t same inputs reads stored =
        let s = around in
        let (pre, rest, e1, h1, h2) =
          Holds-split c s.pre (run ++ s.post) pss (subst (λ ts. Holds c ts pss) s.whole v.tables) in
        let (mid, post, e2, h3, h4) = Holds-split c run s.post rest h2 in
        let whole : pss ≡ pre ++ (mid ++ post) = e1 ∙ ap (λ x. pre ++ x) e2 in
        let v' = subst (λ x. IsValid c x db) whole v in
        let r : inputs ≡ runs mid = cc (reads, collect_all-runs c run mid h3) in
        let same_records : all_records stored.parts
            ≡ compact (runs mid) drop_tombstones (min_snapshot_seq db) =
          stored.same ∙ ap (λ x. compact x drop_tombstones (min_snapshot_seq db)) r in
        let ordered = Holds-Ordered c run mid h3 in
        let bottom : drop_tombstones ≡ true → pre ≡ [] =
          λ e. no_tables c s.pre pre (dropped_first db.sstables run s distinct e) h1 in
        let holds : Holds c (s.pre ++ (t ∷ s.post)) (pre ++ (stored.parts ∷ post)) =
          Holds-join c s.pre (t ∷ s.post) pre (stored.parts ∷ post) h1 (stored.table, h4) in
        (
          pre ++ (stored.parts ∷ post),
          compacted-IsValid pre mid post stored.parts drop_tombstones (min_snapshot_seq db)
              same_records bottom ordered v'.layered c db v' log (s.pre ++ (t ∷ s.post)) holds,
          spliced-DistinctIds db.sstables run s distinct t same,
          λ key bound h.
              compacted_value pre mid post stored.parts drop_tombstones (min_snapshot_seq db)
                same_records bottom ordered v'.layered c db v' log (s.pre ++ (t ∷ s.post)) holds key
                bound h
              ∙ ap (λ x. value_of (newest key bound (contents x db))) (sym whole),
          λ _.
              let n = ap length s.whole in
              let l1 = length-append s.pre (run ++ s.post) in
              let l2 = length-append run s.post in
              let l3 = length-append s.pre (t ∷ s.post) in
              omega (arith, n, l1, l2, l3, length-range),
          refl,
          refl,
          refl,
          refl,
        )
      where
        no_tables :
            (c : Crates) (ts : List SsTable) (ps : List (List Part))
            → ts ≡ []
            → Holds c ts ps
            → ps ≡ []
        no_tables c [] [] e h = refl
        no_tables c [] (p ∷ ps) e h = absurd h
        no_tables c (t ∷ ts) ps e h = absurd (cc e)

    module _
        (stored : (inputs : List (List Record)) (t : SsTableReader)
          → collect_all (read_run c run) ≡ ok inputs
          → store_table c d db.opts.bloom_enabled
              (compact inputs drop_tombstones (min_snapshot_seq db))
            ≡ ok t
          → Stored c (compact inputs drop_tombstones (min_snapshot_seq db)) t) where
      published_ok :
          (r : Result SsTableReader) (b : Bool)
          → store_merged c d db.opts.bloom_enabled run drop_tombstones (min_snapshot_seq db) ≡ r
          → (continue r (publish_run c d run around.last.id) db).0 ≡ ok b
          → Compacted b (continue r (publish_run c d run around.last.id) db).1
      unfolding store_merged
      published_ok (err e) b k h = absurd (cc h)
      published_ok (ok t) b k h =
          let (inputs, reads, s) = >>=-eq_ok (collect_all (read_run c run)) _ k in
          let merged : SsTable = record { id = around.last.id; reader = t } in
          let (log, e, f) =
            publish_run_ok c d run around.last.id t db (around.pre ++ (merged ∷ around.post)) b
              (λ x q. splice_lem db.sstables run around distinct merged refl x q) h in
          subst₂ Compacted (sym e) (sym f)
            (replaced log merged refl inputs reads (stored inputs t reads s))

      merge_ok :
          (b' : Bool)
          → (merge_run c d run (last_of run) db).0 ≡ ok b'
          → Compacted b' (merge_run c d run (last_of run) db).1
      merge_ok b' =
          let e : last_of run ≡ some around.last =
            ap last_of around.ended ∙ last_of_ended around.init around.last in
          subst (λ o. (merge_run c d run o db).0 ≡ ok b' → Compacted b' (merge_run c d run o db).1)
            (sym e)
            (published_ok
              (store_merged c d db.opts.bloom_enabled run drop_tombstones (min_snapshot_seq db)) b'
              refl)

  module _ (sound : IsSound c) (faithful : IsFaithful d) (fits : All Fits (output_of c d db))
      (in_memory : length (encodings (output_of c d db)) < usize_mod)
      (small : TableFits c d (output_of c d db)) where
    picked_ok :
        (r : Result (Option (ℕ × ℕ))) (b : Bool)
        → pick_compaction d db.sstables db.opts.compaction_threshold ≡ r
        → (continue r (merge_picked c d) db).0 ≡ ok b
        → Compacted b (continue r (merge_picked c d) db).1
    picked_ok (err e) b k h = absurd (cc h)
    picked_ok (ok none) b k h =
        let e : ok false ≡ ok b = h in subst (λ x. Compacted x db) (cc e) unchanged
    picked_ok (ok (some (i, j))) b k h =
        let (tiers, t, l, at) =
          pick_compaction-IsRunAt d db.sstables db.opts.compaction_threshold i j k in
        let l1 = ap length at.whole in
        let l2 = length-append at.pre (at.run ++ at.post) in
        let l3 = length-append at.run at.post in
        let below : i < j = omega (arith, at.ends, at.some_tables) in
        let inside : j ≤ length db.sstables = omega (arith, at.ends, at.starts, l, l1, l2, l3) in
        let long : db.opts.compaction_threshold ≤ j - i = omega (arith, at.ends, at.long_enough) in
        merge_ok i j below inside long
          (λ inputs t reads s.
            let e : output_of c d db
                ≡ compact inputs (same_first (range_of (i, j) db.sstables) db.sstables)
                    (min_snapshot_seq db) =
              ap (λ p. output_of_pick p c db) k
              ∙ ap
                  (λ q.
                    output_of_run q (same_first (range_of (i, j) db.sstables) db.sstables)
                      (min_snapshot_seq db))
                  reads in
            store_table-Stored c d db.opts.bloom_enabled _ t sound faithful
              (record {
                run = output-IsRun i j below inside long inputs reads;
                fits = subst (All Fits) e fits;
                in_memory = subst (λ rs. length (encodings rs) < usize_mod) e in_memory;
              })
              (subst (TableFits c d) e small) s)
          b h

-- What a step that answers leaves, and that a step that fails latches its failure.
pub compact_step-Compacted :
    (c : Crates) (d : Disk) (pss : List (List Part)) (db : DbInner)
    → (v : IsValid c pss db) → (distinct : DistinctIds db.sstables) → db.failed ≡ none
    → IsSound c
    → IsFaithful d
    → All Fits (output_of c d db)
    → length (encodings (output_of c d db)) < usize_mod
    → TableFits c d (output_of c d db)
    → ((merged : Bool)
        → (compact_step c d db).0 ≡ ok merged
        → Compacted c d pss db v distinct merged (compact_step c d db).1)
      × Latches (compact_step c d db)
unfolding compact_step compact_step_impl health
compact_step-Compacted c d pss db v distinct f sound faithful fits in_memory small =
    subst (λ p. ((b : Bool) → p.0 ≡ ok b → Compacted c d pss db v distinct b p.1) × Latches p)
      (sym (healthy (λ db. latched (compact_step_impl c d db)) db f))
      (
        latched_ok (Compacted c d pss db v distinct) (compact_step_impl c d db) (λ b.
            picked_ok c d pss db v distinct sound faithful fits in_memory small
              (pick_compaction d db.sstables db.opts.compaction_threshold) b refl),
        latched-Latches (compact_step_impl c d db),
      )

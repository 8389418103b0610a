-- ===== src/Db/Publish.antt =====
-- The records that a compaction step stores, and what a successful publication leaves.
use lsm_tree_key_value_stora.Prelude.{
  ℕ, ◌≡◌, refl, ap, sym, ◌∙◌, Bool, true, Option, none, some, List, [], map, length,
}
use lsm_tree_key_value_stora.Errors.{Result, ok, err}
use lsm_tree_key_value_stora.Record.{Record}
use lsm_tree_key_value_stora.Compaction.{compact, collect_all}
use lsm_tree_key_value_stora.Files.{Exec, ◌then_do◌, BufAppend}
use lsm_tree_key_value_stora.Files.Laws.{then_do-eq_ok}
use lsm_tree_key_value_stora.Manifest.{delete_table}
use lsm_tree_key_value_stora.SsTable.Reader.{SsTableReader}
use lsm_tree_key_value_stora.Db.{Crates, SsTable, DbInner, min_snapshot_seq}
use lsm_tree_key_value_stora.Db.Disk.{Disk}
use lsm_tree_key_value_stora.Db.Flush.{append_edits}
use lsm_tree_key_value_stora.Db.Compact.{
  range_of, same_first, ids_of, all_but_last, read_run, splice, remove_each, answering, publish_run,
  pick_compaction,
}

-- What a step stores; nothing where it picks no run.
abbrev pub output_of_run : Result (List (List Record)) → Bool → ℕ → List Record
output_of_run (ok inputs) drop_tombstones horizon = compact inputs drop_tombstones horizon
output_of_run (err e) drop_tombstones horizon = []

abbrev pub output_of_pick : Result (Option (ℕ × ℕ)) → Crates → DbInner → List Record
output_of_pick (ok (some range)) c db =
    output_of_run (collect_all (read_run c (range_of range db.sstables)))
      (same_first (range_of range db.sstables) db.sstables) (min_snapshot_seq db)
output_of_pick (ok none) c db = []
output_of_pick (err e) c db = []

abbrev pub output_of : Crates → Disk → DbInner → List Record
output_of c d db = output_of_pick (pick_compaction d db.sstables db.opts.compaction_threshold) c db

-- A successful publication, where the splice finds the run.
pub publish_run_ok :
    (c : Crates) (d : Disk) (run : List SsTable) (max_id : ℕ) (t : SsTableReader) (db : DbInner)
    (ts : List SsTable) (b : Bool)
    → ((x : DbInner)
        → x.sstables ≡ db.sstables
        → splice (length run) (record { id = max_id; reader = t }) x
          ≡ (ok tt, record x { sstables = ts }))
    → (publish_run c d run max_id t db).0 ≡ ok b
    → (log : BufAppend) × (b ≡ true)
      × ((publish_run c d run max_id t db).1 ≡ record db { manifest = log; sstables = ts })
unfolding publish_run append_edits
publish_run_ok c d run max_id t db ts b at_run h =
    let a : Exec DbInner (Unit {0}) =
      append_edits c (map delete_table (ids_of (all_but_last run))) in
    let s : Exec DbInner (Unit {0}) = splice (length run) (record { id = max_id; reader = t }) in
    let r : Exec DbInner (Unit {0}) = answering (remove_each d (ids_of (all_but_last run))) in
    let y : Exec DbInner (Unit {0}) = answering d.removals_synced in
    let m2 : Exec DbInner (Unit {0}) = a then_do s in
    let m3 : Exec DbInner (Unit {0}) = m2 then_do r in
    let m4 : Exec DbInner (Unit {0}) = m3 then_do y in
    let last : Exec DbInner Bool = λ x. (ok true, x) in
    let (h4, e4) = then_do-eq_ok m4 last db b h in
    let (h3, e3) = then_do-eq_ok m3 y db tt h4 in
    let (h2, e2) = then_do-eq_ok m2 r db tt h3 in
    let (h1, e1) = then_do-eq_ok a s db tt h2 in
    let k : ok true ≡ ok b = sym (ap (λ p. p.0) e4) ∙ h in
    (
      (a db).1.manifest,
      sym (cc k),
      ap (λ p. p.1) e4
          ∙ ap (λ p. p.1) e3
          ∙ ap (λ p. p.1) e2
          ∙ ap (λ p. p.1) e1
          ∙ ap (λ p. p.1) (at_run (a db).1 refl),
    )

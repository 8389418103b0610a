-- ===== src/Db/Horizons.antt =====
-- src/db.rs, `compact_step` and `min_snapshot_seq`: what a compaction step leaves to every reader, those
-- with a live snapshot included.
use lsm_tree_key_value_stora.Prelude.{
  ℕ, ◌+◌, ◌≤◌, ◌<◌, max, ◌≡◌, ◌⊎◌, refl, ap, sym, ◌∙◌, Bool, true, none, some, List, [], ◌∷◌, arith,
  length, All, inl, inr, Bool-cases, lt→ltb,
}
use lsm_tree_key_value_stora.Order.{nat_ord, key_eq, ◌≺◌, eq_of_key_eq}
use lsm_tree_key_value_stora.Errors.{Error, ok, err, poisoned}
use lsm_tree_key_value_stora.Bytes.{Bytes}
use lsm_tree_key_value_stora.Record.{Record, usize_mod}
use lsm_tree_key_value_stora.Record.RoundTrip.{Fits}
use lsm_tree_key_value_stora.SortedMap
use lsm_tree_key_value_stora.SortedMap.{Entries}
use lsm_tree_key_value_stora.Wal.Decode.{encodings}
use lsm_tree_key_value_stora.Visible.{newest, value_of, sees}
use lsm_tree_key_value_stora.SsTable.Blocks.{Part}
use lsm_tree_key_value_stora.Db.{Crates, DbInner, min_snapshot_seq, get_at, first_key}
use lsm_tree_key_value_stora.Db.Disk.{Disk}
use lsm_tree_key_value_stora.Db.Compact.{compact_step}
use lsm_tree_key_value_stora.Db.Contents.{contents, IsValid}
use lsm_tree_key_value_stora.Db.Reads.{get_at-contents}
use lsm_tree_key_value_stora.Db.Stores.{IsSound, IsFaithful, TableFits}
use lsm_tree_key_value_stora.Db.Splice.{DistinctIds}
use lsm_tree_key_value_stora.Db.Publish.{output_of}
use lsm_tree_key_value_stora.Db.Steps.{compact_step-Compacted}

-- A bound that some reader may have: that of a live snapshot, or one that no version is at or above, as
-- a read without a snapshot has and every snapshot that is taken later.
abbrev pub CanRead : DbInner → ℕ → Type 0
CanRead db bound =
    ((count : ℕ) × (SortedMap.lookup bound db.snapshots ≡ some count)) ⊎ (db.next_seq ≤ bound)

lt_of_before : (a b : ℕ) → a ≺ b → a < b
unfolding nat_ord
lt_of_before a b h = ground arith

above_least :
    (low : ℕ) (m : Entries ℕ ℕ) (k count : ℕ)
    → SortedMap.Below low m
    → SortedMap.lookup k m ≡ some count
    → low ≤ k
unfolding SortedMap.lookup
above_least low [] k count b h = absurd (cc h)
above_least low (e ∷ m) k count b h = elim (Bool-cases (key_eq k e.0)) [
  | inl q ↦
      let same : k ≡ e.0 = eq_of_key_eq k e.0 q in
      let l : low < e.0 = lt_of_before low e.0 b.0 in omega (arith, same, l)
  | inr q ↦ above_least low m k count b.1 (rw q at h)
]

-- The first key of a map is the lowest.
first_key_least :
    (m : Entries ℕ ℕ) (k count : ℕ)
    → SortedMap.IsSorted m
    → SortedMap.lookup k m ≡ some count
    → first_key m ≤ k
unfolding SortedMap.lookup
first_key_least [] k count s h = absurd (cc h)
first_key_least (e ∷ m) k count s h = elim (Bool-cases (key_eq k e.0)) [
  | inl q ↦ let same : k ≡ e.0 = eq_of_key_eq k e.0 q in omega (arith, same)
  | inr q ↦ above_least e.0 m k count s.0 (rw q at h)
]

-- A bound above all versions sees what any other such bound sees.
newest_above :
    (key : Bytes) (n a b : ℕ) (rs : List Record)
    → n ≤ a
    → n ≤ b
    → All (λ r. r.seq < n) rs
    → newest key a rs ≡ newest key b rs
unfolding newest sees
newest_above key n a b [] l k h = refl
newest_above key n a b (r ∷ rs) l k h =
    rw
      (
        lt→ltb r.seq a (omega (arith, h.0)),
        lt→ltb r.seq b (omega (arith, h.0)),
        newest_above key n a b rs l k h.1,
      )
      refl

-- What holds of all bounds from the horizon on holds of every reader.
reader-values :
    (c : Crates) (pss pss' : List (List Part)) (db db' : DbInner) (key : Bytes)
    → IsValid c pss db
    → IsValid c pss' db'
    → SortedMap.IsSorted db.snapshots
    → db'.next_seq ≡ db.next_seq
    → ((bound : ℕ)
        → min_snapshot_seq db ≤ bound
        → value_of (newest key bound (contents pss' db'))
          ≡ value_of (newest key bound (contents pss db)))
    → (bound : ℕ) → CanRead db bound
    → value_of (newest key bound (contents pss' db'))
      ≡ value_of (newest key bound (contents pss db))
unfolding min_snapshot_seq
reader-values c pss pss' db db' key v v' sorted same values bound (inl (count, live)) =
    values bound (first_key_least db.snapshots bound count sorted live)
reader-values c pss pss' db db' key v v' sorted same values bound (inr l) =
    let far : ℕ = max bound (first_key db.snapshots) in
    ap value_of (
      newest_above key db'.next_seq bound far (contents pss' db') (omega (arith, same))
        (omega (arith, same)) v'.seq_below)
    ∙ values far (omega arith)
    ∙ ap value_of
        (newest_above key db.next_seq far bound (contents pss db) (omega arith) l v.seq_below)

-- A compaction step of a valid database that has not failed, whose tables have different ids and whose
-- snapshots are in order, on crates and a file system that keep their promises, where the records
-- that it stores fit their fields and in memory, and their table is smaller than 4 GiB. Where it answers,
-- the database stays valid with different ids, has not failed, and every reader, with the bound of
-- a live snapshot or one that is not below the next sequence number, gets the same answer for every
-- key as before; if it answers that it merged, the tables are fewer by the threshold less one, at
-- least. Where it fails, the error is the poisoned form of the failure that the database keeps.
pub compact_step-get_at :
    (c : Crates) (d : Disk) (pss : List (List Part)) (db : DbInner)
    → IsValid c pss db
    → DistinctIds db.sstables
    → SortedMap.IsSorted db.snapshots
    → db.failed ≡ none
    → IsSound c
    → IsFaithful d
    → All Fits (output_of c d db)
    → length (encodings (output_of c d db)) < usize_mod
    → TableFits c d (output_of c d db)
    → ((merged : Bool)
        → (compact_step c d db).0 ≡ ok merged
        → (pss' : List (List Part)) × IsValid c pss' (compact_step c d db).1
          × DistinctIds (compact_step c d db).1.sstables
          × ((compact_step c d db).1.failed ≡ none)
          × ((key : Bytes) (bound : ℕ)
              → CanRead db bound
              → (get_at c key bound (compact_step c d db).1).0 ≡ (get_at c key bound db).0)
          × (merged ≡ true
              → length (compact_step c d db).1.sstables + db.opts.compaction_threshold
                ≤ length db.sstables + 1))
      × ((e : Error)
          → (compact_step c d db).0 ≡ err e
          → (first : Error) × ((compact_step c d db).1.failed ≡ some first) × (e ≡ poisoned first))
compact_step-get_at c d pss db v distinct sorted f sound faithful fits in_memory small =
    let (answers, latches) =
      compact_step-Compacted c d pss db v distinct f sound faithful fits in_memory small in
    (
      λ merged k.
          let (pss', v', distinct', values, shorter, _, failed_same, _, seq_same) =
            answers merged k in
          let f' = failed_same ∙ f in
          (
            pss',
            v',
            distinct',
            f',
            λ key bound r.
                (get_at-contents c key bound pss' (compact_step c d db).1 v' f').0
                ∙ ap ok (
                    reader-values c pss pss' db (compact_step c d db).1 key v v' sorted seq_same
                      (values key) bound r)
                ∙ sym (get_at-contents c key bound pss db v f).0,
            shorter,
          ),
      latches,
    )

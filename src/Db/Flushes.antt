-- ===== src/Db/Flushes.antt =====
-- A flush moves the MemTable into a table and changes nothing that a reader sees; where a step fails,
-- the failure is latched.
use lsm_tree_key_value_stora.Prelude.{
  ℕ, ◌+◌, ◌<◌, ◌≡◌, refl, ap, sym, ◌∙◌, subst, true, false, ◌⊎◌, Option, none, some, List, [], ◌∷◌,
  ◌++◌, suc, arith, length, leb, leb→le, All, All-append, All-left, All-right, inl, inr, Bool-cases,
  append_assoc, append-nil,
}
use lsm_tree_key_value_stora.Errors.{Error, Result, ok, err, poisoned}
use lsm_tree_key_value_stora.Record.{Record, usize_mod}
use lsm_tree_key_value_stora.Record.RoundTrip.{Fits}
use lsm_tree_key_value_stora.Order.{VersionKey}
use lsm_tree_key_value_stora.SortedMap.{Entries, values}
use lsm_tree_key_value_stora.Files.{continue, ◌then_do◌, BufAppend}
use lsm_tree_key_value_stora.Files.Laws.{then_do-eq_ok}
use lsm_tree_key_value_stora.MemTable
use lsm_tree_key_value_stora.MemTable.{MemTable}
use lsm_tree_key_value_stora.MemTable.Laws
use lsm_tree_key_value_stora.MemTable.Laws.Lookup.{iter-IsRun}
use lsm_tree_key_value_stora.Header.{versioned, manifest_checksum, manifest_version}
use lsm_tree_key_value_stora.Manifest
use lsm_tree_key_value_stora.Manifest.{add_table, set_next_sst_id, set_next_seq}
use lsm_tree_key_value_stora.Wal.{Wal}
use lsm_tree_key_value_stora.Wal.Decode.{encodings}
use lsm_tree_key_value_stora.SsTable.Reader.{SsTableReader}
use lsm_tree_key_value_stora.SsTable.Blocks.{Part, all_records}
use lsm_tree_key_value_stora.SsTable.Lookup.{IsTable}
use lsm_tree_key_value_stora.Db.{Crates, SsTable, DbInner, added, health, fail, first_failure}
use lsm_tree_key_value_stora.Db.Health.{healthy}
use lsm_tree_key_value_stora.Db.Disk.{Disk, store_table}
use lsm_tree_key_value_stora.Db.Flush.{
  freeze, append_edits, publish, fresh_log, swapped, rewrite_wal, finish_flush, install,
  flush_frozen, flush_impl, latched, flush_inner, take_id,
}
use lsm_tree_key_value_stora.Db.Stores.{IsSound, IsFaithful, TableFits, Stored, store_table-Stored}
use lsm_tree_key_value_stora.Db.Contents.{
  Holds, in_tables, Before, Layered, in_frozen, contents, IsValid, Before-nil,
}

Holds-append :
    (c : Crates) (ts : List SsTable) (pss : List (List Part)) (t : SsTable) (ps : List Part)
    → Holds c ts pss
    → IsTable c.lz4 c.seeded ps t.reader
    → Holds c (ts ++ (t ∷ [])) (pss ++ (ps ∷ []))
Holds-append c [] [] t ps h w = (w, tt)
Holds-append c [] (qs ∷ pss) t ps h w = absurd h
Holds-append c (u ∷ ts) [] t ps h w = absurd h
Holds-append c (u ∷ ts) (qs ∷ pss) t ps h w = (h.0, Holds-append c ts pss t ps h.1 w)

pub in_tables-append :
    (pss qss : List (List Part)) → in_tables (pss ++ qss) ≡ in_tables pss ++ in_tables qss
in_tables-append [] qss = refl
in_tables-append (ps ∷ pss) qss =
    ap (λ rs. all_records ps ++ rs) (in_tables-append pss qss)
    ∙ sym (append_assoc (all_records ps) (in_tables pss) (in_tables qss))

in_tables-last :
    (pss : List (List Part)) (ps : List Part)
    → in_tables (pss ++ (ps ∷ [])) ≡ in_tables pss ++ all_records ps
in_tables-last pss ps =
    in_tables-append pss (ps ∷ []) ∙ ap (λ rs. in_tables pss ++ rs) (append-nil (all_records ps))

pub Before-right : (xs ys zs : List Record) → Before xs ys → Before xs zs → Before xs (ys ++ zs)
Before-right [] ys zs a b = tt
Before-right (x ∷ xs) ys zs a b = (All-append _ ys zs a.0 b.0, Before-right xs ys zs a.1 b.1)

Layered-last :
    (pss : List (List Part)) (ps : List Part)
    → Layered pss
    → Before (in_tables pss) (all_records ps)
    → Layered (pss ++ (ps ∷ []))
Layered-last [] ps l b = (Before-nil (all_records ps), tt)
Layered-last (qs ∷ pss) ps l b = (
  subst (Before (all_records qs)) (sym (in_tables-last pss ps)) (
      Before-right (all_records qs) (in_tables pss) (all_records ps) l.0
        (All-left _ (all_records qs) (in_tables pss) b)),
  Layered-last pss ps l.1 (All-right _ (all_records qs) (in_tables pss) b),
)

-- A successful end of a flush, from the opened table on.
pub install_ok :
    (c : Crates) (d : Disk) (id : ℕ) (t : SsTableReader) (db : DbInner)
    → (install c d id t db).0 ≡ ok tt
    → (b : BufAppend) × (w : Wal) × (Manifest.append_batch c.hashes
          (manifest_checksum (versioned manifest_version))
          (add_table id ∷ set_next_sst_id db.next_sst_id ∷ set_next_seq db.next_seq ∷ [])
          db.manifest
        ≡ (ok tt, b))
      × ((install c d id t db).1 ≡ record db {
        manifest = b;
        sstables = db.sstables ++ (record { id = id; reader = t } ∷ []);
        wal = w;
        frozen = none;
        compact_signals = db.compact_signals + 1;
      })
unfolding install append_edits publish rewrite_wal finish_flush
install_ok c d id t db h =
    let edits = add_table id ∷ set_next_sst_id db.next_sst_id ∷ set_next_seq db.next_seq ∷ [] in
    let a = append_edits c edits in
    let (h3, e3) =
      then_do-eq_ok ((a then_do publish id t) then_do rewrite_wal c d) finish_flush db tt h in
    let (h2, e2) = then_do-eq_ok (a then_do publish id t) (rewrite_wal c d) db tt h3 in
    let (h1, e1) = then_do-eq_ok a (publish id t) db tt h2 in
    let db2 : DbInner = (publish id t (a db).1).1 in
    let r2 : ((a then_do publish id t) then_do rewrite_wal c d) db ≡ rewrite_wal c d db2 =
      e2 ∙ ap (λ p. rewrite_wal c d p.1) e1 in
    let (w, f) =
      log_of (fresh_log c d db.opts.sync_wal (MemTable.iter db.active)) db2
        (sym (ap (λ p. p.0) r2) ∙ h3) in
    (
      (a db).1.manifest,
      w,
      ap (λ r. (r, (a db).1.manifest)) h1,
      ap (λ p. p.1) e3
          ∙ ap (λ p. (finish_flush p.1).1) r2
          ∙ ap (λ r. (finish_flush (swapped r db2).1).1) f,
    )
  where
    log_of : (r : Result Wal) (x : DbInner) → (swapped r x).0 ≡ ok tt → (w : Wal) × (r ≡ ok w)
    log_of (ok w) x h = (w, refl)
    log_of (err e) x h = absurd (cc h)

-- The answer of an operation that failed, and the failure that stays.
abbrev pub Latches : {A : Type 0} → Result A × DbInner → Type 0
Latches p =
    (e : Error) → p.0 ≡ err e → (first : Error) × (p.1.failed ≡ some first) × (e ≡ poisoned first)

pub latched-Latches : {A : Type 0} (p : Result A × DbInner) → Latches (latched p)
unfolding fail
latched-Latches (ok a, db) e h = absurd (cc h)
latched-Latches (err x, db) e h = (first_failure db.failed x, refl, cc h)

pub latched_ok :
    {A : Type 0} (P : A → DbInner → Type 0) (p : Result A × DbInner)
    → ((a : A) → p.0 ≡ ok a → P a p.1)
    → (a : A) → (latched p).0 ≡ ok a
    → P a (latched p).1
unfolding fail
latched_ok P (ok b, db) k a h = k a h
latched_ok P (err x, db) k a h = absurd (cc h)

empty-iter : (m : MemTable) → MemTable.is_empty m ≡ true → MemTable.iter m ≡ []
unfolding MemTable.is_empty MemTable.iter
empty-iter m h = nil (m.map) h
  where
    nil : (e : Entries VersionKey Record) → leb (length e) 0 ≡ true → values e ≡ []
    nil [] h = refl
    nil (x ∷ xs) h = absurd (omega (arith, leb→le (suc (length xs)) 0 h))

freeze-none : (db : DbInner) → MemTable.is_empty db.active ≡ true → freeze db ≡ none
unfolding freeze
freeze-none db e = rw e refl

freeze-some :
    (db : DbInner)
    → MemTable.is_empty db.active ≡ false
    → freeze db
      ≡ some (
        db.active,
        record db { active = MemTable.new db.opts.memtable_threshold; frozen = some db.active },
      )
unfolding freeze
freeze-some db e = rw e refl

module _ (c : Crates) (pss : List (List Part)) (db : DbInner) (v : IsValid c pss db)
    (thawed : db.frozen ≡ none) where
  -- The manifest behind a flush, which logs a new table under the next id where there was something to
  -- flush.
  abbrev pub Edited : DbInner → Type 0
  Edited db' =
      ((MemTable.is_empty db.active ≡ true) × (db'.manifest ≡ db.manifest))
      ⊎ ((MemTable.is_empty db.active ≡ false)
          × (Manifest.append_batch c.hashes (manifest_checksum (versioned manifest_version))
                (add_table db.next_sst_id
                  ∷ set_next_sst_id (added db.next_sst_id 1)
                  ∷ set_next_seq db.next_seq
                  ∷ [])
                db.manifest
              ≡ (ok tt, db'.manifest)))

  -- A database without frozen versions, with an empty MemTable, that holds what `db` does.
  abbrev pub Flushed : DbInner → Type 0
  Flushed db' =
      (pss' : List (List Part)) × IsValid c pss' db'
      × (contents pss' db' ≡ contents pss db)
      × (MemTable.iter db'.active ≡ [])
      × (db'.frozen ≡ none)
      × (db'.failed ≡ db.failed)
      × Edited db'

  abbrev after_flush : ℕ → ℕ → BufAppend → Wal → ℕ → ℕ → SsTableReader → DbInner
  after_flush threshold next_id b w signals id t = record db {
    active = MemTable.new threshold;
    frozen = none;
    sstables = db.sstables ++ (record { id = id; reader = t } ∷ []);
    next_sst_id = next_id;
    manifest = b;
    wal = w;
    compact_signals = signals;
  }

  held : contents pss db ≡ in_tables pss ++ MemTable.iter db.active
  held = ap (λ o. in_tables pss ++ (in_frozen o ++ MemTable.iter db.active)) thawed

  tables_first : Before (in_tables pss) (MemTable.iter db.active)
  tables_first = All-left _ (in_tables pss) (in_frozen db.frozen) v.active_after

  after_flush-Flushed :
      (threshold next_id : ℕ) (b : BufAppend) (w : Wal) (signals id : ℕ) (t : SsTableReader)
      → Stored c (MemTable.iter db.active) t
      → Edited (after_flush threshold next_id b w signals id t)
      → Flushed (after_flush threshold next_id b w signals id t)
  unfolding MemTable.iter
  after_flush-Flushed threshold next_id b w signals id t s edited =
      let pss' = pss ++ (s.parts ∷ []) in
      let e : in_tables pss' ≡ in_tables pss ++ MemTable.iter db.active =
        in_tables-last pss s.parts ∙ ap (λ rs. in_tables pss ++ rs) s.same in
      let same : in_tables pss' ++ [] ≡ contents pss db =
        append-nil (in_tables pss') ∙ e ∙ sym held in
      (
        pss',
        record {
          tables =
              Holds-append c db.sstables pss (record { id = id; reader = t }) s.parts v.tables
                s.table;
          active_valid = MemTable.Laws.new-IsValid threshold;
          frozen_valid = tt;
          layered =
              Layered-last pss s.parts v.layered
                (subst (Before (in_tables pss)) (sym s.same) tables_first);
          frozen_after = Before-nil (in_tables pss');
          active_after = Before-nil (in_tables pss' ++ []);
          seq_below = subst (All (λ r. r.seq < db.next_seq)) (sym same) v.seq_below;
          seq_fits = v.seq_fits;
        },
        same,
        refl,
        refl,
        refl,
        edited,
      )

  module _ (d : Disk)
      (stored : (t : SsTableReader)
        → store_table c d db.opts.bloom_enabled (MemTable.iter db.active) ≡ ok t
        → Stored c (MemTable.iter db.active) t) where
    flush_impl_ok : (u : Unit {0}) → (flush_impl c d db).0 ≡ ok u → Flushed (flush_impl c d db).1
    unfolding flush_impl
    flush_impl_ok u h = elim (Bool-cases (MemTable.is_empty db.active)) [
      | inl e ↦
          ended (sym (freeze-none db e))
            (λ _. (pss, v, refl, empty-iter db.active e, thawed, refl, inl (e, refl))) h
      | inr e ↦
          ended (sym (freeze-some db e))
            (stored_ok e (store_table c d db.opts.bloom_enabled (MemTable.iter db.active)) refl) h
    ]
      where
        frozen_db : DbInner
        frozen_db = take_id (record db {
          active = MemTable.new db.opts.memtable_threshold;
          frozen = some db.active;
        })

        ended :
            {o p : Option (MemTable × DbInner)}
            → o ≡ p
            → ((flush_frozen c d o db).0 ≡ ok u → Flushed (flush_frozen c d o db).1)
            → (flush_frozen c d p db).0 ≡ ok u
            → Flushed (flush_frozen c d p db).1
        ended = subst (λ o. (flush_frozen c d o db).0 ≡ ok u → Flushed (flush_frozen c d o db).1)

        stored_ok :
            MemTable.is_empty db.active ≡ false
            → (r : Result SsTableReader)
            → store_table c d db.opts.bloom_enabled (MemTable.iter db.active) ≡ r
            → (continue r (install c d db.next_sst_id) frozen_db).0 ≡ ok u
            → Flushed (continue r (install c d db.next_sst_id) frozen_db).1
        stored_ok some_versions (ok t) k h =
            let (b, w, logged, e) = install_ok c d db.next_sst_id t frozen_db h in
            subst Flushed (sym e) (
              after_flush-Flushed db.opts.memtable_threshold frozen_db.next_sst_id b w
                (db.compact_signals + 1) db.next_sst_id t (stored t k)
                (inr (some_versions, logged)))
        stored_ok some_versions (err x) k h = absurd (cc h)

-- What a flush that succeeds leaves, and that one that fails latches its failure.
pub flush_inner-Flushed :
    (c : Crates) (d : Disk) (pss : List (List Part)) (db : DbInner)
    → (v : IsValid c pss db) → db.failed ≡ none
    → (thawed : db.frozen ≡ none) → IsSound c
    → IsFaithful d
    → All Fits (MemTable.iter db.active)
    → length (encodings (MemTable.iter db.active)) < usize_mod
    → TableFits c d (MemTable.iter db.active)
    → ((flush_inner c d db).0 ≡ ok tt → Flushed c pss db v thawed (flush_inner c d db).1)
      × Latches (flush_inner c d db)
unfolding flush_inner health
flush_inner-Flushed c d pss db v f thawed sound faithful fits in_memory small =
    let stored : (t : SsTableReader)
        → store_table c d db.opts.bloom_enabled (MemTable.iter db.active) ≡ ok t
        → Stored c (MemTable.iter db.active) t =
      λ t.
        store_table-Stored c d db.opts.bloom_enabled (MemTable.iter db.active) t sound faithful
          (record { run = iter-IsRun db.active v.active_valid; fits = fits; in_memory = in_memory })
          small in
    subst (λ p. (p.0 ≡ ok tt → Flushed c pss db v thawed p.1) × Latches p)
      (sym (healthy (λ db. latched (flush_impl c d db)) db f))
      (
        latched_ok (λ u. Flushed c pss db v thawed) (flush_impl c d db)
            (flush_impl_ok c pss db v thawed d stored) tt,
        latched-Latches (flush_impl c d db),
      )

-- ===== src/Db/Recovery.antt =====
-- Opening the directory that a database left, cleanly or not.
use lsm_tree_key_value_stora.Prelude.{
  ℕ, ◌+◌, ◌^◌, ◌≤◌, ◌<◌, ◌≡◌, refl, ap, ap₂, sym, ◌∙◌, subst, subst₂, true, take, max, none, List,
  [], ◌∷◌, ◌++◌, arith, length, All, All-append, append-nil,
}
use lsm_tree_key_value_stora.Errors.{ok}
use lsm_tree_key_value_stora.Bytes.{Bytes}
use lsm_tree_key_value_stora.Visible.{newest, value_of}
use lsm_tree_key_value_stora.Record.{Record, usize_mod}
use lsm_tree_key_value_stora.Header.{Hashes, wal_version}
use lsm_tree_key_value_stora.Files
use lsm_tree_key_value_stora.Files.{File, BufAppend, SyncMode}
use lsm_tree_key_value_stora.Visible.Runs.{All-map, All-zip}
use lsm_tree_key_value_stora.MemTable
use lsm_tree_key_value_stora.MemTable.Laws
use lsm_tree_key_value_stora.MemTable.{MemTable}
use lsm_tree_key_value_stora.Manifest.{ManifestState}
use lsm_tree_key_value_stora.Wal
use lsm_tree_key_value_stora.Wal.{Wal, is_counted}
use lsm_tree_key_value_stora.Wal.Replay.{all_records, image}
use lsm_tree_key_value_stora.Wal.Append.{IsLog}
use lsm_tree_key_value_stora.Wal.Crash.{Fitting, replay_whole}
use lsm_tree_key_value_stora.Wal.Reopen.{reopened, open_append-reopened}
use lsm_tree_key_value_stora.SsTable.Blocks.{Part}
use lsm_tree_key_value_stora.Db.{Crates, SsTable, DbInner, insert_all, added, get_at}
use lsm_tree_key_value_stora.Db.Contents.{
  Holds, in_tables, in_frozen, Before, contents, IsValid, Before-nil,
}
use lsm_tree_key_value_stora.Db.Numbers.{iter-insert}
use lsm_tree_key_value_stora.Db.Reads.{get_at-contents}
use lsm_tree_key_value_stora.Db.Reclaim.{reclaim-Left, all_live, open_live-table_at}
use lsm_tree_key_value_stora.Db.Open.{
  Name, Directory, acquire, found_manifest, names_table, reclaim, table_at, open_live, restore,
  assembled, assemble,
}

-- The MemTable of the database is what the batches in its log make, of records that it numbered.
pub record Logged (c : Crates) (v : ℕ) (bs : List (List Record)) (db : DbInner) : Type 0 where
  pub log : IsLog c.hashes v bs db.wal
  pub known : v ≤ wal_version
  pub fits : Fitting c.hashes v known bs
  pub small : length (image c.hashes v bs) < usize_mod
  pub rebuilt : db.active ≡ insert_all (all_records bs) (MemTable.new db.opts.memtable_threshold)
  pub numbered : All (λ r. r.seq < db.next_seq) (all_records bs)

-- The directory has the tables of the database and a log with these bytes: nothing fails, the manifest
-- names tables that are listed, that open and that hold what the database's hold, with a number that is
-- not too low.
pub record Keeps (c : Crates) (pss : List (List Part)) (db : DbInner) (log : Bytes) (d : Directory)
    : Type 0 where
  pub manifest : BufAppend
  pub state : ManifestState
  pub listed : List Name
  pub tables : List SsTable
  pub log_file : File
  pub created : d.created ≡ ok tt
  pub lock_taken : acquire d.lock_existed d.lock_opened d.lock_synced ≡ ok tt
  pub manifest_found : found_manifest c d ≡ ok (manifest, state)
  pub names_listed : d.names ≡ ok listed
  pub removes : (name : Name) → d.removed name ≡ ok tt
  pub present : All (λ e. names_table e.0 listed ≡ true) state.live_tables
  pub tables_open : open_live d.sst_file db.opts.bloom_enabled state.live_tables ≡ ok tables
  pub tables_hold : Holds c tables pss
  pub numbered : All (λ r. r.seq < state.next_seq) (in_tables pss)
  pub not_ahead : state.next_seq ≤ db.next_seq
  pub log_read : d.wal_read ≡ ok (ok log)
  pub log_opened : d.wal_file ≡ ok log_file
  pub log_same : log_file.contents ≡ log
  pub log_size : d.wal_size ≡ ok (length log_file.contents)
  pub log_front : d.wal_front ≡ ok (take 8 log_file.contents)

module _ (limit : ℕ) (fits : limit < 2 ^ 64) where
  -- The replayed records are inserted in their order, and the counter passes all of them.
  restore_lem :
      (rs : List Record) (m : MemTable) (n : ℕ)
      → n ≤ limit
      → All (λ r. r.seq < limit) rs
      → (k : ℕ) × (restore rs m n ≡ (insert_all rs m, k))
        × (n ≤ k)
        × (k ≤ limit)
        × All (λ r. r.seq < k) rs
  unfolding restore insert_all
  restore_lem [] m n l a = (n, refl, omega arith, l, tt)
  restore_lem (r ∷ rs) m n l a =
      let one : added r.seq 1 ≡ r.seq + 1 = omega (arith, a.0) in
      let (k, e, low, high, b) =
        restore_lem rs (MemTable.insert r m) (max n (added r.seq 1)) (omega (arith, one, a.0))
          a.1 in
      (k, e, omega (arith, low), high, (omega (arith, low, one), b))

iter-insert_all :
    (P : Record → Type 0) (rs : List Record) (m : MemTable)
    → All P rs
    → All P (MemTable.iter m)
    → All P (MemTable.iter (insert_all rs m))
unfolding insert_all
iter-insert_all P [] m a b = b
iter-insert_all P (r ∷ rs) m a b =
    iter-insert_all P rs (MemTable.insert r m) a.1 (iter-insert P r m a.0 b)

reopened-IsLog :
    (h : Hashes) (v : ℕ) (bs : List (List Record)) (f : File) (mode : SyncMode)
    → f.contents ≡ image h v bs
    → IsLog h v bs (reopened v f mode)
unfolding Files.new Files.with_capacity
reopened-IsLog h v bs f mode e = record {
  stored = e;
  drained = refl;
  same_checksum = refl;
  same_count = refl;
}

-- The tables of the directory open behind the reclaiming loop as before it.
tables_left :
    (c : Crates) (pss : List (List Part)) (db : DbInner) (log : Bytes) (d : Directory)
    (k : Keeps c pss db log d)
    → (left : List Name) × (reclaim k.state.live_tables d.removed k.listed ≡ ok left)
      × (open_live (table_at d.sst_file left) db.opts.bloom_enabled k.state.live_tables
          ≡ ok k.tables)
tables_left c pss db log d k =
    let live = k.state.live_tables in
    let (left, e, l) = reclaim-Left live d.removed k.removes k.listed in
    let there : All (λ e. names_table e.0 left ≡ true) live =
      All-zip (λ e a b. l e.0 a b) live (all_live live) k.present in
    (left, e, open_live-table_at d.sst_file left db.opts.bloom_enabled live there ∙ k.tables_open)

pub assemble-contents :
    (c : Crates) (pss : List (List Part)) (v : ℕ) (bs : List (List Record)) (db : DbInner)
    (d : Directory)
    → IsValid c pss db
    → db.frozen ≡ none
    → Logged c v bs db
    → Keeps c pss db db.wal.file.file.contents d
    → (opened : DbInner) × (assemble c db.opts d ≡ ok opened)
      × IsValid c pss opened
      × (contents pss opened ≡ contents pss db)
      × Logged c v bs opened
      × (opened.failed ≡ none)
      × ((key : Bytes) (bound : ℕ)
          → (get_at c key bound opened).0 ≡ ok (value_of (newest key bound (contents pss db))))
unfolding assemble assembled Wal.replay
assemble-contents c pss v bs db d valid thawed logged keeps =
    let rs = all_records bs in
    let fresh = MemTable.new db.opts.memtable_threshold in
    let (n, restored, low, high, below) =
      restore_lem db.next_seq valid.seq_fits rs fresh keeps.state.next_seq keeps.not_ahead
        logged.numbered in
    let replayed : Wal.replay_bytes c.hashes db.wal.file.file.contents ≡ ok rs =
      ap (Wal.replay_bytes c.hashes) logged.log.stored
      ∙ replay_whole c.hashes v logged.known bs logged.fits logged.small in
    let log_bytes : keeps.log_file.contents ≡ image c.hashes v bs ++ [] =
      keeps.log_same ∙ logged.log.stored ∙ sym (append-nil (image c.hashes v bs)) in
    let wal_again =
      open_append-reopened c.hashes v logged.known bs [] keeps.log_file db.opts.sync_wal 8 log_bytes
        (omega arith) (omega arith) in
    let (left, reclaimed, tables_open) = tables_left c pss db db.wal.file.file.contents d keeps in
    let wal : Wal = reopened v keeps.log_file db.opts.sync_wal in
    let opened : DbInner =
      assembled db.opts keeps.manifest keeps.state keeps.tables (insert_all rs fresh, n) wal in
    let e : assemble c db.opts d ≡ ok opened = simp (
      keeps.created, keeps.lock_taken, keeps.manifest_found, keeps.names_listed, reclaimed,
      tables_open, keeps.log_read, replayed, keeps.log_opened, keeps.log_size, keeps.log_front,
      wal_again, restored,
    ) in
    let same : contents pss opened ≡ contents pss db =
      ap₂ (λ o m. in_tables pss ++ (in_frozen o ++ MemTable.iter m)) (sym thawed)
        (sym logged.rebuilt) in
    let opened_valid : IsValid c pss opened = record {
      tables = keeps.tables_hold;
      active_valid = subst MemTable.Laws.IsValid logged.rebuilt valid.active_valid;
      frozen_valid = tt;
      layered = valid.layered;
      frozen_after = Before-nil (in_tables pss);
      active_after =
          subst₂ (λ o m. Before (in_tables pss ++ in_frozen o) (MemTable.iter m)) thawed
            logged.rebuilt valid.active_after;
      seq_below =
          All-append _ (in_tables pss) (MemTable.iter (insert_all rs fresh))
            (All-map (in_tables pss) (λ r l. omega (arith, low)) keeps.numbered)
            (iter-insert_all (λ r. r.seq < n) rs fresh below (unfold MemTable.iter in tt));
      seq_fits = omega (arith, high, valid.seq_fits);
    } in
    (
      opened,
      e,
      opened_valid,
      same,
      record {
        log =
            reopened-IsLog c.hashes v bs keeps.log_file db.opts.sync_wal
              (keeps.log_same ∙ logged.log.stored);
        known = logged.known;
        fits = logged.fits;
        small = logged.small;
        rebuilt = refl;
        numbered = below;
      },
      refl,
      λ key bound.
          (get_at-contents c key bound pss opened opened_valid refl).0
          ∙ ap (λ rs. ok (value_of (newest key bound rs))) same,
    )

-- ===== src/Db/FlushReads.antt =====
-- src/db.rs, `flush_inner`: what a flush leaves to every reader, and to the next opening.
use lsm_tree_key_value_stora.Prelude.{
  ℕ, ◌<◌, ◌≡◌, ap, sym, ◌∙◌, subst, true, false, none, some, List, [], ◌∷◌, ◌++◌, arith, length,
  All, All-left, inl, inr, append-nil, length-append, if◌then◌else◌, ◌⊎◌,
}
use lsm_tree_key_value_stora.Errors.{Error, ok, err, poisoned}
use lsm_tree_key_value_stora.Bytes.{Bytes}
use lsm_tree_key_value_stora.Record.{usize_mod}
use lsm_tree_key_value_stora.Record.RoundTrip
use lsm_tree_key_value_stora.Header.{versioned, manifest_checksum, manifest_version}
use lsm_tree_key_value_stora.Frames.Torn.{next_frame_short}
use lsm_tree_key_value_stora.Files.{BufAppend}
use lsm_tree_key_value_stora.MemTable
use lsm_tree_key_value_stora.Manifest
use lsm_tree_key_value_stora.Manifest.{
  VersionEdit, add_table, set_next_sst_id, set_next_seq, replay_bytes, no_tables,
}
use lsm_tree_key_value_stora.Manifest.Edits.{Fits, apply_all}
use lsm_tree_key_value_stora.Manifest.Replay.{manifest_image, replay_bytes-manifest_image}
use lsm_tree_key_value_stora.Manifest.Append.{append_batch-replay, manifest_image-append}
use lsm_tree_key_value_stora.Visible.{newest, value_of}
use lsm_tree_key_value_stora.Wal.Decode.{encodings}
use lsm_tree_key_value_stora.SsTable.Blocks.{Part}
use lsm_tree_key_value_stora.Db.{Crates, DbInner, added, get_at}
use lsm_tree_key_value_stora.Db.Disk.{Disk}
use lsm_tree_key_value_stora.Db.Flush.{flush_inner}
use lsm_tree_key_value_stora.Db.Contents.{contents, IsValid}
use lsm_tree_key_value_stora.Db.Reads.{get_at-contents}
use lsm_tree_key_value_stora.Db.Stores.{IsSound, IsFaithful, TableFits}
use lsm_tree_key_value_stora.Db.Flushes.{flush_inner-Flushed}

-- A new table under the next id, the id after it, and the next sequence number.
abbrev pub table_edits : DbInner → List VersionEdit
table_edits db =
    add_table db.next_sst_id
    ∷ set_next_sst_id (added db.next_sst_id 1)
    ∷ set_next_seq db.next_seq
    ∷ []

-- The manifest file holds these edits, nothing waits in its buffer, and there is room for the edits of a
-- flush: all of them fit their fields, and their bytes can be addressed.
pub record HasManifest (c : Crates) (first : VersionEdit) (before : List VersionEdit) (db : DbInner)
    : Type 0 where
  pub stored : db.manifest.file.contents ≡ manifest_image c.hashes manifest_version (first ∷ before)
  pub drained : db.manifest.buf ≡ []
  pub fits : All Fits (first ∷ (before ++ table_edits db))
  pub small :
      length (manifest_image c.hashes manifest_version (first ∷ (before ++ table_edits db)))
      < usize_mod

module _ (c : Crates) (first : VersionEdit) (before : List VersionEdit) (db : DbInner)
    (m : HasManifest c first before db) where
  image_small : length (manifest_image c.hashes manifest_version (first ∷ before)) < usize_mod
  image_small = omega (
    arith,
    m.small,
    ap length (manifest_image-append c.hashes manifest_version (first ∷ before) (table_edits db)),
    length-append (manifest_image c.hashes manifest_version (first ∷ before)) _,
  )

  replay_before :
      replay_bytes c.hashes db.manifest.file.contents ≡ ok (apply_all (first ∷ before) no_tables)
  replay_before =
      let image : Bytes = manifest_image c.hashes manifest_version (first ∷ before) in
      let whole : db.manifest.file.contents ≡ image ++ [] = m.stored ∙ sym (append-nil image) in
      ap (replay_bytes c.hashes) whole
      ∙ replay_bytes-manifest_image c.hashes manifest_version (omega arith) first before []
          (m.fits.0, All-left Fits before (table_edits db) m.fits.1)
          (subst (λ b. length b < usize_mod) (sym (append-nil image)) image_small)
          (next_frame_short c.hashes _ image [] (omega arith))

  -- The manifest behind a flush replays to the edits before it and those of the flush.
  replay_edited :
      (b : BufAppend)
      → ((MemTable.is_empty db.active ≡ true) × (b ≡ db.manifest))
        ⊎ ((MemTable.is_empty db.active ≡ false)
            × (Manifest.append_batch c.hashes
                  (manifest_checksum (versioned manifest_version))
                  (table_edits db)
                  db.manifest
                ≡ (ok tt, b)))
      → replay_bytes c.hashes b.file.contents
        ≡ ok (
            apply_all
              (first ∷ (before ++ (if MemTable.is_empty db.active then [] else table_edits db)))
              no_tables)
  replay_edited b (inl (e, same)) = rw (e, same, append-nil before) replay_before
  replay_edited b (inr (e, q)) =
      let (n, r, all) =
        append_batch-replay c.hashes manifest_version (omega arith) first before (table_edits db)
          db.manifest m.stored m.drained m.fits m.small in
      rw e (
        ap (λ p. replay_bytes c.hashes p.1.file.contents) (sym q)
        ∙ r
        ∙ ap (λ es. ok (apply_all (first ∷ (before ++ es)) no_tables)) (all (ap (λ p. p.0) q)))

-- A flush of a database that is valid, has not failed and has nothing frozen, on crates and a file system
-- that keep their promises, where the records of the MemTable fit their fields and in memory, their
-- table is smaller than 4 GiB, and the manifest file holds a first edit and others, with room for
-- three more. Where it succeeds, the database is valid and has not failed, holds the versions of before
-- in their order, in tables only, and each read at any bound answers as before; the manifest replays
-- to the edits before, and, unless the MemTable was empty, a new table with the next id, the id after
-- it and the next sequence number. Where it fails, the error is the poisoned form of the failure that
-- the database keeps from then on.
pub flush_inner-get_at :
    (c : Crates) (d : Disk) (pss : List (List Part)) (db : DbInner) (first : VersionEdit)
    (before : List VersionEdit)
    → IsValid c pss db
    → db.failed ≡ none
    → db.frozen ≡ none
    → IsSound c
    → IsFaithful d
    → All RoundTrip.Fits (MemTable.iter db.active)
    → length (encodings (MemTable.iter db.active)) < usize_mod
    → TableFits c d (MemTable.iter db.active)
    → HasManifest c first before db
    → ((flush_inner c d db).0 ≡ ok tt
        → (pss' : List (List Part)) × IsValid c pss' (flush_inner c d db).1
          × ((flush_inner c d db).1.failed ≡ none)
          × (contents pss' (flush_inner c d db).1 ≡ contents pss db)
          × (MemTable.iter (flush_inner c d db).1.active ≡ [])
          × ((flush_inner c d db).1.frozen ≡ none)
          × ((key : Bytes) (bound : ℕ)
              → (get_at c key bound (flush_inner c d db).1).0 ≡ (get_at c key bound db).0)
          × (replay_bytes c.hashes (flush_inner c d db).1.manifest.file.contents
              ≡ ok (
                  apply_all
                    (first
                      ∷ (before ++ (if MemTable.is_empty db.active then [] else table_edits db)))
                    no_tables)))
      × ((e : Error)
          → (flush_inner c d db).0 ≡ err e
          → (first : Error) × ((flush_inner c d db).1.failed ≡ some first) × (e ≡ poisoned first))
flush_inner-get_at c d pss db first before v f thawed sound faithful fits in_memory small m =
    let (flushed, latches) =
      flush_inner-Flushed c d pss db v f thawed sound faithful fits in_memory small in
    (
      λ k.
          let (pss', v', same, none_active, none_frozen, failed_same, edited) = flushed k in
          let f' = failed_same ∙ f in
          (
            pss',
            v',
            f',
            same,
            none_active,
            none_frozen,
            λ key bound.
                (get_at-contents c key bound pss' (flush_inner c d db).1 v' f').0
                ∙ ap (λ rs. ok (value_of (newest key bound rs))) same
                ∙ sym (get_at-contents c key bound pss db v f).0,
            replay_edited c first before db m (flush_inner c d db).1.manifest edited,
          ),
      latches,
    )

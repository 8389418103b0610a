-- ===== src/Db/UpkeepExamples.antt =====
-- A flush, a compaction step and the loop of compactions on the example database.
use lsm_tree_key_value_stora.Errors.{Result, poisoned}
use lsm_tree_key_value_stora.Prelude.{Bool, ◌<◌, ◌≤◌}
use lsm_tree_key_value_stora.Record.{usize_mod}
use lsm_tree_key_value_stora.Prelude.{
  ℕ, ◌+◌, ◌-◌, ◌++◌, if◌then◌else◌, ◌≡◌, refl, true, none, some, List, [], ◌∷◌, arith, length, All,
  ap, sym, subst, ◌^◌,
}
use lsm_tree_key_value_stora.Order.{list_ord, nat_ord, rev_ord, pair_ord, version_ord, bytes_ord}
use lsm_tree_key_value_stora.SortedMap
use lsm_tree_key_value_stora.Errors.{Error, ok, err}
use lsm_tree_key_value_stora.Bytes.{Bytes, to_le, from_le, slice}
use lsm_tree_key_value_stora.Bloom
use lsm_tree_key_value_stora.Bloom.Laws.{new-IsValid}
use lsm_tree_key_value_stora.Record.{
  encode, encode_into, decode_at, decode, u64, u32, u8, bytes, value_of_kind,
}
use lsm_tree_key_value_stora.Record.RoundTrip.{Fits}
use lsm_tree_key_value_stora.Wal.Decode.{encodings}
use lsm_tree_key_value_stora.SsTable.Reading.{Reads}
use lsm_tree_key_value_stora.Db.Stores.{IsSound, IsFaithful, TableFits}
use lsm_tree_key_value_stora.Db.FlushReads.{HasManifest, table_edits, flush_inner-get_at}
use lsm_tree_key_value_stora.Header
use lsm_tree_key_value_stora.Header.Examples.{sums}
use lsm_tree_key_value_stora.Frames.{frame}
use lsm_tree_key_value_stora.Manifest
use lsm_tree_key_value_stora.Manifest.{add_table, replay_bytes, no_tables}
use lsm_tree_key_value_stora.Manifest.Edits.{apply_all}
use lsm_tree_key_value_stora.Manifest.Replay.{manifest_image, frames_of}
use lsm_tree_key_value_stora.SsTable.Writer
use lsm_tree_key_value_stora.Files
use lsm_tree_key_value_stora.Bloom.{set_probes, set_bit, with_bit}
use lsm_tree_key_value_stora.Db.Disk.{sized_filter}
use lsm_tree_key_value_stora.Db.Publish.{output_of}
use lsm_tree_key_value_stora.MemTable
use lsm_tree_key_value_stora.MemTable.{MemTable}
use lsm_tree_key_value_stora.SsTable.Blocks.{Part}
use lsm_tree_key_value_stora.SsTable.Examples.{prefixing-IsLossless}
use lsm_tree_key_value_stora.Db.{DbInner, default_options, min_snapshot_seq, get_at}
use lsm_tree_key_value_stora.SsTable.Reader.{
  iter_all, each_block, load_block, read_block, decode_all,
}
use lsm_tree_key_value_stora.Bytes.{slice}
use lsm_tree_key_value_stora.Compaction.{
  collect_all, compact, merge, drain, first_items, pop_least, next, keep_groups, keep_group,
  same_key, retain, sort_desc, insert_desc, peel,
}
use lsm_tree_key_value_stora.SsTable.Cache
use lsm_tree_key_value_stora.SsTable.Cache.{find}
use lsm_tree_key_value_stora.Record.Examples.{apple, apple-Fits}
use lsm_tree_key_value_stora.Db.Flush.{flush_inner}
use lsm_tree_key_value_stora.Db.Compact.{
  range_of, compact_step, pick_compaction, tiers_of, bit_width, run_length, find_run,
}
use lsm_tree_key_value_stora.Db.Contents.{IsValid, contents}
use lsm_tree_key_value_stora.Order.{cmp_list}
use lsm_tree_key_value_stora.Db.Splice.{DistinctIds}
use lsm_tree_key_value_stora.Db.Horizons.{CanRead, compact_step-get_at}
use lsm_tree_key_value_stora.Db.Work.{compact_all}
use lsm_tree_key_value_stora.Db.Shrinks.{compact_all-ends}
use lsm_tree_key_value_stora.Db.Tiers.{HasTier, pick_compaction-HasTier}
use lsm_tree_key_value_stora.Db.Examples.{
  crates, no_file, reopened, disk, running, parts, plum, running-IsValid,
}

sound : IsSound crates
sound = record {
  lossless = prefixing-IsLossless;
  sized = λ n. record {
    valid = new-IsValid 20 3 (omega arith) (omega arith);
    k_fits = unfold Bloom.new in omega arith;
    bits_fit = unfold Bloom.new in omega arith;
  };
}

faithful : IsFaithful disk
faithful = record {
  truncated = λ f h. let e : no_file ≡ f = cc h in ap (λ f. f.contents) (sym e);
  reopened = λ bytes file h.
      let same : reopened bytes ≡ file = cc h in
      subst (Reads bytes) same (record { size_known = refl; readable = λ offset n inside. refl });
}

plum-Fits : Fits plum
plum-Fits = record { seq_fits = omega arith; key_fits = omega arith; value_fits = omega arith }

-- The same database with a manifest of one edit.
abbrev listed : DbInner
listed = record running {
  manifest = record running.manifest {
    file = record no_file { contents = manifest_image sums 2 (add_table 0 ∷ []) };
    buf = [];
  };
}

listed-IsValid : IsValid crates parts listed
listed-IsValid = record {
  tables = running-IsValid.tables;
  active_valid = running-IsValid.active_valid;
  frozen_valid = running-IsValid.frozen_valid;
  layered = running-IsValid.layered;
  frozen_after = running-IsValid.frozen_after;
  active_after = running-IsValid.active_after;
  seq_below = running-IsValid.seq_below;
  seq_fits = running-IsValid.seq_fits;
}

listed-HasManifest : HasManifest crates (add_table 0) [] listed
unfolding manifest_image frames_of frame Manifest.encode to_le Header.encode
listed-HasManifest = record {
  stored = refl;
  drained = refl;
  fits = (omega arith, (omega arith, (omega arith, (omega arith, tt))));
  small = omega arith;
}

plum-TableFits : TableFits crates disk (MemTable.iter listed.active)
unfolding MemTable.iter MemTable.insert SortedMap.insert Writer.write Writer.write_all Writer.new
    Writer.each_record Writer.step Writer.take_record Writer.next_differs Writer.flush_block
    Writer.on_file Writer.push_entry Writer.write_tail Writer.write_index Writer.end_of_index
    Files.new Files.with_capacity Files.write Files.flush Files.append Files.sync Files.sync_as
    Bloom.new Bloom.insert set_probes set_bit with_bit Bloom.encode encode encode_into to_le
plum-TableFits f h =
    let e : no_file ≡ f = cc h in
    subst
      (λ f.
        length
          (Writer.write crates.lz4 crates.seeded (sized_filter crates (MemTable.iter listed.active))
            (MemTable.iter listed.active) f).1.contents
        < 2 ^ 32)
      e (omega arith)

flush_inner-get_at_example :
    ((flush_inner crates disk listed).0 ≡ ok tt
      → (pss' : List (List Part)) × IsValid crates pss' (flush_inner crates disk listed).1
        × ((flush_inner crates disk listed).1.failed ≡ none)
        × (contents pss' (flush_inner crates disk listed).1 ≡ contents parts listed)
        × (MemTable.iter (flush_inner crates disk listed).1.active ≡ [])
        × ((flush_inner crates disk listed).1.frozen ≡ none)
        × ((key : Bytes) (bound : ℕ)
            → (get_at crates key bound (flush_inner crates disk listed).1).0
              ≡ (get_at crates key bound listed).0)
        × (replay_bytes sums (flush_inner crates disk listed).1.manifest.file.contents
            ≡ ok (
                apply_all
                  (add_table 0
                    ∷ ([] ++ (if MemTable.is_empty listed.active then [] else table_edits listed)))
                  no_tables)))
    × ((e : Error)
        → (flush_inner crates disk listed).0 ≡ err e
        → (first : Error) × ((flush_inner crates disk listed).1.failed ≡ some first)
          × (e ≡ poisoned first))
unfolding MemTable.iter MemTable.insert SortedMap.insert encodings encode to_le
flush_inner-get_at_example =
    flush_inner-get_at crates disk parts listed (add_table 0) [] listed-IsValid refl refl sound
      faithful (plum-Fits, tt) (omega arith) plum-TableFits listed-HasManifest

-- A database that merges every table.
abbrev eager : DbInner
eager = record running { opts = record default_options { compaction_threshold = 1 } }

eager-IsValid : IsValid crates parts eager
eager-IsValid = record {
  tables = running-IsValid.tables;
  active_valid = running-IsValid.active_valid;
  frozen_valid = running-IsValid.frozen_valid;
  layered = running-IsValid.layered;
  frozen_after = running-IsValid.frozen_after;
  active_after = running-IsValid.active_after;
  seq_below = running-IsValid.seq_below;
  seq_fits = running-IsValid.seq_fits;
}

-- A step merges the one table, whose tombstone goes.
eager_output : output_of crates disk eager ≡ apple ∷ []
unfolding pick_compaction tiers_of bit_width run_length find_run collect_all iter_all each_block
    load_block Cache.get find read_block decode_all decode_at decode u64 u32 u8 bytes value_of_kind
    encode to_le from_le slice compact merge drain first_items pop_least next keep_groups keep_group
    same_key retain sort_desc insert_desc peel cmp_list list_ord nat_ord rev_ord pair_ord
    min_snapshot_seq Cache.put
eager_output = refl

eager-Fits : All Fits (output_of crates disk eager)
eager-Fits = subst (All Fits) (sym eager_output) (apple-Fits, tt)

eager_small : length (encodings (output_of crates disk eager)) < usize_mod
eager_small =
    subst (λ rs. length (encodings rs) < usize_mod) (sym eager_output)
      (unfold encodings encode to_le in omega arith)

eager-IsSorted : SortedMap.IsSorted eager.snapshots
eager-IsSorted = tt

apple-TableFits : TableFits crates disk (apple ∷ [])
unfolding Writer.write Writer.write_all Writer.new Writer.each_record Writer.step Writer.take_record
    Writer.next_differs Writer.flush_block Writer.on_file Writer.push_entry Writer.write_tail
    Writer.write_index Writer.end_of_index Files.new Files.with_capacity Files.write Files.flush
    Files.append Files.sync Files.sync_as Bloom.new Bloom.insert set_probes set_bit with_bit
    Bloom.encode encode encode_into to_le
apple-TableFits f h =
    let e : no_file ≡ f = cc h in
    subst
      (λ f.
        length
          (Writer.write crates.lz4 crates.seeded (sized_filter crates (apple ∷ [])) (apple ∷ [])
            f).1.contents
        < 2 ^ 32)
      e (omega arith)

eager-TableFits : TableFits crates disk (output_of crates disk eager)
eager-TableFits = subst (TableFits crates disk) (sym eager_output) apple-TableFits

compact_step-get_at_example :
    ((merged : Bool)
      → (compact_step crates disk eager).0 ≡ ok merged
      → (pss' : List (List Part)) × IsValid crates pss' (compact_step crates disk eager).1
        × DistinctIds (compact_step crates disk eager).1.sstables
        × ((compact_step crates disk eager).1.failed ≡ none)
        × ((key : Bytes) (bound : ℕ)
            → CanRead eager bound
            → (get_at crates key bound (compact_step crates disk eager).1).0
              ≡ (get_at crates key bound eager).0)
        × (merged ≡ true → length (compact_step crates disk eager).1.sstables + 1 ≤ 1 + 1))
    × ((e : Error)
        → (compact_step crates disk eager).0 ≡ err e
        → (first : Error) × ((compact_step crates disk eager).1.failed ≡ some first)
          × (e ≡ poisoned first))
compact_step-get_at_example =
    compact_step-get_at crates disk parts eager eager-IsValid (tt, tt) eager-IsSorted refl sound
      faithful eager-Fits eager_small eager-TableFits

compact_all-ends_example :
    (out : Result (Unit {0}) × DbInner) × (compact_all crates 2 (λ i. disk) 0 running ≡ some out)
compact_all-ends_example =
    compact_all-ends 2 crates (λ i. disk) 0 running (tt, tt) (omega arith) (omega arith)

eager_pick : pick_compaction disk eager.sstables 1 ≡ ok (some (0, 1))
unfolding pick_compaction tiers_of bit_width run_length find_run
eager_pick = refl

sized : (id size : ℕ) → disk.table_size id ≡ ok size → size < 2 ^ 64
sized id size h = let e : 100 ≡ size = cc h in omega (arith, e)

pick_compaction-HasTier_example :
    (0 < 1)
    × (1 ≤ 1)
    × (1 ≤ 1 - 0)
    × ((tier : ℕ) × All (HasTier disk sized tier) (range_of (0, 1) eager.sstables))
pick_compaction-HasTier_example = pick_compaction-HasTier disk sized eager.sstables 1 0 1 eager_pick

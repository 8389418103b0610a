-- ===== src/Manifest/Examples.antt =====
-- A manifest of two live tables, and the theorems on it.
use lsm_tree_key_value_stora.Prelude.{
  List, ℕ, false, ◌<◌, ◌≡◌, refl, [], ◌∷◌, ◌++◌, arith, length, take, All,
}
use lsm_tree_key_value_stora.Order.{nat_ord}
use lsm_tree_key_value_stora.SortedMap.{IsSorted}
use lsm_tree_key_value_stora.Errors.{ok, err, corrupt, no_readable_frame}
use lsm_tree_key_value_stora.Bytes.{Bytes, to_le}
use lsm_tree_key_value_stora.Record.{usize_mod}
use lsm_tree_key_value_stora.Header
use lsm_tree_key_value_stora.Header.{versioned, manifest_checksum, hash}
use lsm_tree_key_value_stora.Header.Examples.{sums}
use lsm_tree_key_value_stora.Frames.{frame}
use lsm_tree_key_value_stora.Frames.Torn.{next_frame_short}
use lsm_tree_key_value_stora.Manifest.{
  append_batch, VersionEdit, add_table, delete_table, ManifestState, no_tables, encode,
  snapshot_edits, replay_bytes,
}
use lsm_tree_key_value_stora.Files.{BufAppend, fails}
use lsm_tree_key_value_stora.Manifest.Append.{append_batch-replay}
use lsm_tree_key_value_stora.Manifest.Edits.{Fits, apply_all}
use lsm_tree_key_value_stora.Manifest.Replay.{
  frames_of, manifest_image, replay_bytes-manifest_image, replay_refuses,
  replay_bytes-snapshot_edits,
}

abbrev two_tables : ManifestState
two_tables = record { live_tables = (3, tt) ∷ ((7, tt) ∷ []); next_seq = 40; next_sst_id = 8 }

two_tables-IsSorted : IsSorted two_tables.live_tables
unfolding nat_ord
two_tables-IsSorted = ((refl, tt), (tt, tt))

two_tables-Fits : All Fits (snapshot_edits two_tables)
unfolding snapshot_edits
two_tables-Fits = (omega arith, (omega arith, (omega arith, (omega arith, tt))))

two_tables_small : length (manifest_image sums 2 (snapshot_edits two_tables)) < usize_mod
unfolding manifest_image frames_of frame snapshot_edits encode to_le Header.encode
two_tables_small = omega arith

replay_bytes-snapshot_edits_example :
    replay_bytes sums (manifest_image sums 2 (snapshot_edits two_tables)) ≡ ok two_tables
replay_bytes-snapshot_edits_example =
    replay_bytes-snapshot_edits sums 2 (omega arith) two_tables two_tables-IsSorted two_tables-Fits
      two_tables_small

small_log :
    (tail : Bytes)
    → length tail < 100
    → length (manifest_image sums 2 (add_table 3 ∷ []) ++ tail) < usize_mod
unfolding manifest_image frames_of frame encode to_le Header.encode
small_log tail l = omega (arith, l)

replay_bytes-manifest_image_example :
    replay_bytes sums (manifest_image sums 2 (add_table 3 ∷ []) ++ (1 ∷ []))
    ≡ ok (apply_all (add_table 3 ∷ []) no_tables)
replay_bytes-manifest_image_example =
    replay_bytes-manifest_image sums 2 (omega arith) (add_table 3) [] (1 ∷ []) (omega arith, tt)
      (small_log (1 ∷ []) (omega arith))
      (next_frame_short sums (manifest_checksum (versioned 2))
        (manifest_image sums 2 (add_table 3 ∷ [])) (1 ∷ []) (omega arith))

bare_small : length (manifest_image sums 2 [] ++ (1 ∷ 2 ∷ 3 ∷ [])) < usize_mod
unfolding manifest_image frames_of Header.encode to_le
bare_small = omega arith

replay_refuses_example :
    replay_bytes sums (manifest_image sums 2 [] ++ (1 ∷ 2 ∷ 3 ∷ []))
    ≡ err (corrupt (no_readable_frame 3))
replay_refuses_example =
    replay_refuses sums 2 (omega arith) (1 ∷ 2 ∷ 3 ∷ []) (omega arith) bare_small (
      next_frame_short sums (manifest_checksum (versioned 2)) (manifest_image sums 2 [])
        (1 ∷ 2 ∷ 3 ∷ []) (omega arith))

-- The append of two more edits, of which twenty bytes reach the file.
abbrev failing : BufAppend
failing = record {
  file = record {
    contents = manifest_image sums 2 (add_table 3 ∷ []);
    kept = [];
    fates = fails 20 ∷ [];
  };
  buf = [];
  cap = 100;
  write_failed = false;
}

abbrev more : List VersionEdit
more = add_table 9 ∷ (delete_table 3 ∷ [])

more_small : length (manifest_image sums 2 (add_table 3 ∷ ([] ++ more))) < usize_mod
unfolding manifest_image frames_of frame encode to_le Header.encode
more_small = omega arith

append_batch-replay_example :
    (n : ℕ) × (replay_bytes sums
        (append_batch sums (manifest_checksum (versioned 2)) more failing).1.file.contents
      ≡ ok (apply_all (add_table 3 ∷ ([] ++ take n more)) no_tables))
    × ((append_batch sums (manifest_checksum (versioned 2)) more failing).0 ≡ ok tt
        → take n more ≡ more)
append_batch-replay_example =
    append_batch-replay sums 2 (omega arith) (add_table 3) [] more failing refl refl
      (omega arith, (omega arith, (omega arith, tt))) more_small

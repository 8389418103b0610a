-- ===== src/Wal/Examples.antt =====
-- A log of one batch, an append that fails in the middle, and the theorems on them.
use lsm_tree_key_value_stora.Prelude.{
  ◌≤◌, ◌<◌, ◌≡◌, ◌≢◌, refl, true, false, List, [], ◌∷◌, ◌++◌, arith, length, take, drop, ◌⊎◌,
}
use lsm_tree_key_value_stora.Errors.{Error, ok, err}
use lsm_tree_key_value_stora.Bytes.{Bytes, to_le}
use lsm_tree_key_value_stora.Record.{Record, encode, encode_into, usize_mod}
use lsm_tree_key_value_stora.Record.Examples.{apple, grave, apple-Fits, grave-Fits}
use lsm_tree_key_value_stora.Header
use lsm_tree_key_value_stora.Header.{Checksum, Kind, versioned, wal_checksum, hash, Hashes}
use lsm_tree_key_value_stora.Header.Examples.{sums}
use lsm_tree_key_value_stora.Frames.{frame}
use lsm_tree_key_value_stora.Frames.Torn.{next_frame_short}
use lsm_tree_key_value_stora.Files.{fails, durable}
use lsm_tree_key_value_stora.Wal.{
  open_append, append_payload, Wal, append_batch, payload_of, encode_all, is_counted, replay_frames,
  replay_bytes,
}
use lsm_tree_key_value_stora.Wal.Reopen.{reopened, open_append-reopened, append_batch_lost}
use lsm_tree_key_value_stora.Files
use lsm_tree_key_value_stora.Files.{File}
use lsm_tree_key_value_stora.Wal.Decode.{FitsBatch}
use lsm_tree_key_value_stora.Wal.Replay.{
  frames_of, image, all_records, replay_frames-fuel, replay_bytes-image,
}
use lsm_tree_key_value_stora.Wal.Append.{IsLog}
use lsm_tree_key_value_stora.Wal.Crash.{replay_torn, append_batch_atomic}

abbrev pub first : List Record
first = apple ∷ []

abbrev second : List Record
second = grave ∷ []

pub first-FitsBatch : FitsBatch (is_counted (versioned 3)) first
unfolding is_counted payload_of encode_all encode_into encode to_le
first-FitsBatch = record {
  records_fit = (apple-Fits, tt);
  count_fits = omega arith;
  payload_fits = omega arith;
  single = λ e. refl;
}

second-FitsBatch : FitsBatch (is_counted (versioned 3)) second
unfolding is_counted payload_of encode_all encode_into encode to_le
second-FitsBatch = record {
  records_fit = (grave-Fits, tt);
  count_fits = omega arith;
  payload_fits = omega arith;
  single = λ e. refl;
}

pub small_log :
    (tail : Bytes) → length tail < 100 → length (image sums 3 (first ∷ []) ++ tail) < usize_mod
unfolding image frames_of frame payload_of encode_all encode_into encode to_le is_counted
    Header.encode
small_log tail l = omega (arith, l)

length-first : length (image sums 3 (first ∷ [])) ≡ 40
unfolding image frames_of frame payload_of encode_all encode_into encode to_le is_counted
    Header.encode
length-first = refl

small_both : length (image sums 3 (first ∷ (second ∷ []))) < usize_mod
unfolding image frames_of frame payload_of encode_all encode_into encode to_le is_counted
    Header.encode
small_both = omega arith

replay_bytes-image_example :
    replay_bytes sums (image sums 3 (first ∷ []) ++ (1 ∷ 2 ∷ [])) ≡ ok (all_records (first ∷ []))
replay_bytes-image_example =
    replay_bytes-image sums 3 (omega arith) (first ∷ []) (1 ∷ 2 ∷ []) (first-FitsBatch, tt)
      (small_log (1 ∷ 2 ∷ []) (omega arith))
      (next_frame_short sums (wal_checksum (versioned 3)) (image sums 3 (first ∷ [])) (1 ∷ 2 ∷ [])
        (omega arith))

replay_frames-fuel_example :
    replay_frames sums (wal_checksum (versioned 3)) true 40 (image sums 3 (first ∷ [])) 8 []
    ≡ replay_frames sums (wal_checksum (versioned 3)) true 90 (image sums 3 (first ∷ [])) 8 []
replay_frames-fuel_example =
    replay_frames-fuel sums (wal_checksum (versioned 3)) true 40 90 (image sums 3 (first ∷ [])) 8 []
      (omega (arith, length-first)) (omega (arith, length-first))

abbrev torn : Bytes
torn =
    take 12 (frame sums (wal_checksum (versioned 3)) (payload_of (is_counted (versioned 3)) second))

abbrev back : Bytes
back =
    drop 13 (frame sums (wal_checksum (versioned 3)) (payload_of (is_counted (versioned 3)) second))

second_cut :
    frame sums (wal_checksum (versioned 3)) (payload_of (is_counted (versioned 3)) second)
    ≡ torn ++ (6 ∷ back)
unfolding frame payload_of encode_all encode_into encode to_le is_counted
second_cut = refl

torn_short : length torn < 100
unfolding frame payload_of encode_all encode_into encode to_le is_counted
torn_short = omega arith

replay_torn_example :
    replay_bytes sums (image sums 3 (first ∷ []) ++ torn) ≡ ok (all_records (first ∷ []))
replay_torn_example =
    replay_torn sums 3 (omega arith) (first ∷ []) second torn back 6 (first-FitsBatch, tt)
      second-FitsBatch (small_log torn torn_short) second_cut

-- The whole frame of a later batch stands behind the torn one.
abbrev more : Bytes
more = frame sums (wal_checksum (versioned 3)) (payload_of (is_counted (versioned 3)) first)

more_short : length (torn ++ more) < 100
unfolding frame payload_of encode_all encode_into encode to_le is_counted
more_short = omega arith

torn_long : 8 ≤ length torn
unfolding frame payload_of encode_all encode_into encode to_le is_counted
torn_long = omega arith

other_sum :
    hash sums
      (wal_checksum (versioned 3))
      (take (length (payload_of (is_counted (versioned 3)) second)) (drop 8 torn ++ more))
    ≢ hash sums (wal_checksum (versioned 3)) (payload_of (is_counted (versioned 3)) second)
unfolding frame payload_of encode_all encode_into encode to_le is_counted hash wal_checksum
other_sum e = omega (arith, e)

-- The next append to the file fails after five bytes.
abbrev pub log : Wal
log = record {
  file = record {
    file = record { contents = image sums 3 (first ∷ []); kept = []; fates = fails 5 ∷ [] };
    buf = [];
    cap = 100;
    write_failed = false;
  };
  sync = durable;
  checksum = Checksum.castagnoli;
  counted = true;
}

pub log-IsLog : IsLog sums 3 (first ∷ []) log
unfolding wal_checksum is_counted
log-IsLog = record { stored = refl; drained = refl; same_checksum = refl; same_count = refl }

append_batch_atomic_example :
    (((append_batch sums second log).0 ≡ ok tt)
      × IsLog sums 3 ((first ∷ []) ++ (second ∷ [])) (append_batch sums second log).1)
    ⊎ ((e : Error) × ((append_batch sums second log).0 ≡ err e)
        × ((replay_bytes sums (append_batch sums second log).1.file.file.contents
              ≡ ok (all_records (first ∷ [])))
            ⊎ (replay_bytes sums (append_batch sums second log).1.file.file.contents
                ≡ ok (all_records (first ∷ []) ++ second))))
append_batch_atomic_example =
    append_batch_atomic sums 3 (omega arith) (first ∷ []) second log log-IsLog (first-FitsBatch, tt)
      second-FitsBatch (omega arith) small_both

-- The log with a torn frame behind it, opened again.
abbrev torn_file : File
torn_file = record { contents = image sums 3 (first ∷ []) ++ torn; kept = []; fates = [] }

header_read :
    open_append
      (ok torn_file)
      (ok (length torn_file.contents))
      (ok (take 8 torn_file.contents))
      durable
    ≡ ok (reopened 3 torn_file durable)
header_read =
    open_append-reopened sums 3 (omega arith) (first ∷ []) torn torn_file durable 8 refl
      (omega arith) (omega arith)

appended_ok : (append_batch sums first (reopened 3 torn_file durable)).0 ≡ ok tt
unfolding append_batch append_payload Files.new Files.with_capacity Files.write Files.flush
    Files.append Files.sync_file_as Files.sync_as is_counted payload_of encode_all encode_into
    encode to_le
appended_ok = refl

append_batch_lost_example :
    replay_bytes sums (append_batch sums first (reopened 3 torn_file durable)).1.file.file.contents
    ≡ ok (all_records (first ∷ []))
append_batch_lost_example =
    append_batch_lost sums 3 (omega arith) (first ∷ []) second first torn back 6 torn_file durable
      (first-FitsBatch, tt) second-FitsBatch first-FitsBatch (omega arith) refl
      (reopened 3 torn_file durable) header_read appended_ok torn_long second_cut
      (small_log (torn ++ more) more_short) other_sum

-- ===== src/Db/RecoveryExamples.antt =====
-- A directory with a log of two batches and files to reclaim, opened again.
use lsm_tree_key_value_stora.Prelude.{ℕ, ◌-◌, some, take, ◌++◌}
use lsm_tree_key_value_stora.Prelude.{
  ◌<◌, ◌≡◌, refl, true, List, [], ◌∷◌, arith, length, subst, sym, ◌∙◌, append-nil,
}
use lsm_tree_key_value_stora.SortedMap
use lsm_tree_key_value_stora.Order.{pair_ord, list_ord, nat_ord}
use lsm_tree_key_value_stora.Errors.{ok}
use lsm_tree_key_value_stora.Record.{Record, usize_mod, encoded_len, encode, encode_into, put}
use lsm_tree_key_value_stora.Record.Examples.{apple}
use lsm_tree_key_value_stora.Header.Examples.{sums}
use lsm_tree_key_value_stora.Files
use lsm_tree_key_value_stora.Files.{File}
use lsm_tree_key_value_stora.MemTable
use lsm_tree_key_value_stora.MemTable.{default_threshold}
use lsm_tree_key_value_stora.MemTable.Laws
use lsm_tree_key_value_stora.Bytes.{Bytes, to_le}
use lsm_tree_key_value_stora.Header
use lsm_tree_key_value_stora.Header.{versioned}
use lsm_tree_key_value_stora.Frames.{frame}
use lsm_tree_key_value_stora.Wal.{is_counted, payload_of, encode_all, append_batch, append_payload}
use lsm_tree_key_value_stora.Wal.Decode.{FitsBatch}
use lsm_tree_key_value_stora.Wal.Replay.{all_records, image, frames_of}
use lsm_tree_key_value_stora.Wal.Examples.{first, first-FitsBatch, small_log, log, log-IsLog}
use lsm_tree_key_value_stora.Db.{
  DbInner, default_options, insert_all, WriteBatch, numbered, write_batch, write_batch_healthy,
  get_at, triggered,
}
use lsm_tree_key_value_stora.Db.Durable.{Survives, write_batch-assemble}
use lsm_tree_key_value_stora.Db.Batches.{behind}
use lsm_tree_key_value_stora.Visible.{newest, value_of}
use lsm_tree_key_value_stora.Db.Contents.{contents, IsValid}
use lsm_tree_key_value_stora.Db.Open.{
  Directory, sst_name, scratch_name, other_name, acquire, found_manifest, reclaim, open_live,
  assemble,
}
use lsm_tree_key_value_stora.Db.Recovery.{Logged, Keeps}
use lsm_tree_key_value_stora.Db.Examples.{crates, running, no_file, reopened}

abbrev batches : List (List Record)
batches = first ∷ []

-- The database that wrote the batch and was not closed.
abbrev crashed : DbInner
crashed = record running {
  wal = log;
  active = insert_all (all_records batches) (MemTable.new default_threshold);
  sstables = [];
  next_sst_id = 0;
  next_seq = 6;
}

crashed-IsValid : IsValid crates [] crashed
unfolding insert_all MemTable.insert MemTable.iter SortedMap.insert
crashed-IsValid = record {
  tables = tt;
  active_valid =
      MemTable.Laws.insert-IsValid apple (MemTable.new default_threshold) (omega arith)
        (MemTable.Laws.new-IsValid default_threshold);
  frozen_valid = tt;
  layered = tt;
  frozen_after = tt;
  active_after = tt;
  seq_below = (omega arith, tt);
  seq_fits = omega arith;
}

small_image : length (image sums 3 batches) < usize_mod
small_image =
    subst (λ b. length b < usize_mod) (append-nil (image sums 3 batches))
      (small_log [] (omega arith))

abbrev log_on_disk : File
log_on_disk = record { contents = image sums 3 batches; kept = []; fates = [] }

abbrev directory : Directory
directory = record {
  created = ok tt;
  lock_existed = true;
  lock_opened = ok tt;
  lock_synced = ok tt;
  manifest_exists = true;
  manifest_opened =
      ok (Files.new no_file, record { live_tables = []; next_seq = 0; next_sst_id = 0 });
  first_list = ok [];
  manifest_created = ok (Files.new no_file);
  names = ok (sst_name 4 ∷ scratch_name ∷ other_name ∷ []);
  removed = λ name. ok tt;
  sst_file = λ id. ok (reopened []);
  wal_read = ok (ok (image sums 3 batches));
  wal_file = ok log_on_disk;
  wal_size = ok (length log_on_disk.contents);
  wal_front = ok (take 8 log_on_disk.contents);
}

-- The same with a file on which everything works.
abbrev clean : DbInner
clean = record crashed { wal = record log { file = record log.file { file = log_on_disk } } }

clean-IsValid : IsValid crates [] clean
clean-IsValid = record {
  tables = crashed-IsValid.tables;
  active_valid = crashed-IsValid.active_valid;
  frozen_valid = crashed-IsValid.frozen_valid;
  layered = crashed-IsValid.layered;
  frozen_after = crashed-IsValid.frozen_after;
  active_after = crashed-IsValid.active_after;
  seq_below = crashed-IsValid.seq_below;
  seq_fits = crashed-IsValid.seq_fits;
}

clean-Logged : Logged crates 3 batches clean
clean-Logged = record {
  log = record {
    stored = refl;
    drained = log-IsLog.drained;
    same_checksum = log-IsLog.same_checksum;
    same_count = log-IsLog.same_count;
  };
  known = omega arith;
  fits = (first-FitsBatch, tt);
  small = small_image;
  rebuilt = refl;
  numbered = (omega arith, tt);
}

abbrev one_op : WriteBatch
one_op = (98 ∷ [], some (4 ∷ [])) ∷ []

one_op-FitsBatch : FitsBatch (is_counted (versioned 3)) (numbered 6 one_op)
unfolding numbered is_counted payload_of encode_all encode_into encode to_le put
one_op-FitsBatch = record {
  records_fit =
      (record { seq_fits = omega arith; key_fits = omega arith; value_fits = omega arith }, tt);
  count_fits = omega arith;
  payload_fits = omega arith;
  single = λ e. refl;
}

both_small : length (image sums 3 (batches ++ (numbered 6 one_op ∷ []))) < usize_mod
unfolding numbered image frames_of frame payload_of encode_all encode_into encode to_le is_counted
    put Header.encode
both_small = omega arith

abbrev written : DbInner
written = (write_batch crates one_op clean).1

write_succeeds : (write_batch crates one_op clean).0 ≡ ok tt
unfolding write_batch write_batch_healthy append_batch numbered append_payload Files.write to_le
    payload_of encode_all encode_into encode put Files.sync_file_as
write_succeeds = refl

abbrev directory_behind : Directory
directory_behind = record directory {
  wal_read = ok (ok written.wal.file.file.contents);
  wal_file = ok written.wal.file.file;
  wal_size = ok (length written.wal.file.file.contents);
  wal_front = ok (take 8 written.wal.file.file.contents);
}

behind-Keeps : Keeps crates [] written written.wal.file.file.contents directory_behind
unfolding acquire found_manifest reclaim open_live SortedMap.lookup
behind-Keeps = record {
  manifest = Files.new no_file;
  state = record { live_tables = []; next_seq = 0; next_sst_id = 0 };
  listed = sst_name 4 ∷ scratch_name ∷ other_name ∷ [];
  tables = [];
  log_file = written.wal.file.file;
  created = refl;
  lock_taken = refl;
  manifest_found = refl;
  names_listed = refl;
  removes = λ name. refl;
  present = tt;
  tables_open = refl;
  tables_hold = tt;
  numbered = tt;
  not_ahead = omega arith;
  log_read = refl;
  log_opened = refl;
  log_same = refl;
  log_size = refl;
  log_front = refl;
}

-- The sync kept all of the log.
written-kept : written.wal.file.file.kept ≡ written.wal.file.file.contents
unfolding write_batch write_batch_healthy append_batch numbered append_payload Files.write to_le
    payload_of encode_all encode_into encode put Files.sync_file_as Files.sync_as triggered
    MemTable.is_full insert_all MemTable.insert SortedMap.lookup SortedMap.insert pair_ord list_ord
    nat_ord encoded_len
written-kept = refl

written-Survives : Survives written.wal.file.file written.wal.file.file.contents
written-Survives = (
  [],
  [],
  sym written-kept ∙ sym (append-nil written.wal.file.file.kept),
  sym (append-nil written.wal.file.file.contents),
)

write_batch-assemble_example :
    (opened : DbInner) × (assemble crates default_options directory_behind ≡ ok opened)
    × IsValid crates [] opened
    × (contents [] opened ≡ contents [] written)
    × ((key : Bytes) (bound : ℕ)
        → (get_at crates key bound opened).0
          ≡ ok (
              behind key
                (take (bound - 6) one_op)
                (value_of (newest key bound (contents [] clean)))))
write_batch-assemble_example =
    write_batch-assemble crates [] 3 batches one_op clean directory_behind
      written.wal.file.file.contents clean-IsValid refl refl refl (omega arith) (omega arith)
      clean-Logged one_op-FitsBatch both_small write_succeeds written-Survives behind-Keeps

-- ===== src/Db/Durable.antt =====
-- src/db.rs and src/wal.rs: a batch, its durable append, and the opening behind a power loss.
use lsm_tree_key_value_stora.Prelude.{
  ℕ, suc, ◌+◌, ◌-◌, ◌%◌, ◌≤◌, take, length-append, append-nil, ◌^◌, ◌<◌, ◌≡◌, refl, ap, sym, ◌∙◌,
  subst, none, List, [], ◌∷◌, ◌++◌, arith, length, All, All-append, inl, inr, Bool-cases,
  eq-false_of_pos,
}
use lsm_tree_key_value_stora.Errors.{Result, ok, err}
use lsm_tree_key_value_stora.Bytes.{Bytes, to_le}
use lsm_tree_key_value_stora.Record.{Record, usize_mod}
use lsm_tree_key_value_stora.Header.{Hashes, Checksum, hash, versioned, wal_version}
use lsm_tree_key_value_stora.Visible.{newest, value_of}
use lsm_tree_key_value_stora.Files.{
  Exec, ◌then_do◌, durable, File, BufAppend, write, flush, sync_file_as,
}
use lsm_tree_key_value_stora.Files.Laws.{then_do-eq_ok, sync_file_as-kept}
use lsm_tree_key_value_stora.Visible.Runs.{All-map}
use lsm_tree_key_value_stora.MemTable
use lsm_tree_key_value_stora.MemTable.{MemTable}
use lsm_tree_key_value_stora.Wal
use lsm_tree_key_value_stora.Wal.{Wal, is_counted, append_payload, payload_of}
use lsm_tree_key_value_stora.Wal.Decode.{FitsBatch}
use lsm_tree_key_value_stora.Wal.Replay.{all_records, image}
use lsm_tree_key_value_stora.Wal.Append.{IsLog, all_records-append}
use lsm_tree_key_value_stora.Wal.Crash.{append_batch_atomic, accepted}
use lsm_tree_key_value_stora.SsTable.Blocks.{Part}
use lsm_tree_key_value_stora.Db.{
  Crates, DbInner, WriteBatch, insert_all, added, numbered, published, triggered, write_batch,
  write_batch_healthy, health, get_at,
}
use lsm_tree_key_value_stora.Db.Health.{healthy}
use lsm_tree_key_value_stora.Db.Contents.{contents, IsValid}
use lsm_tree_key_value_stora.Db.Writes.{write_batch-newest}
use lsm_tree_key_value_stora.Db.Numbers.{record_of-seq, added_lem}
use lsm_tree_key_value_stora.Db.Batches.{behind, numbered-behind}
use lsm_tree_key_value_stora.Db.Open.{Directory, assemble}
use lsm_tree_key_value_stora.Db.Recovery.{Logged, Keeps, assemble-contents}

insert_all-append :
    (xs ys : List Record) (m : MemTable) → insert_all (xs ++ ys) m ≡ insert_all ys (insert_all xs m)
unfolding insert_all
insert_all-append [] ys m = refl
insert_all-append (x ∷ xs) ys m = insert_all-append xs ys (MemTable.insert x m)

numbered_below :
    (seq : ℕ) (ops : WriteBatch)
    → seq + length ops < 2 ^ 64
    → All (λ r. r.seq < seq + length ops) (numbered seq ops)
unfolding numbered
numbered_below seq [] h = tt
numbered_below seq ((key, value) ∷ ops) h = (
  omega (arith, record_of-seq key value seq),
  rw (added_lem seq 1 (omega arith)) (
      All-map (numbered (seq + 1) ops) (λ r l. omega arith)
        (numbered_below (seq + 1) ops (omega arith))),
)

-- The state behind a batch that the log took.
abbrev after_batch : WriteBatch → ℕ → DbInner → Wal → DbInner
after_batch ops signals db w = record db {
  next_seq = added db.next_seq (length ops);
  wal = w;
  active = insert_all (numbered db.next_seq ops) db.active;
  flush_signals = signals;
}

published_ok :
    (ops : WriteBatch) (db : DbInner) (q : Result (Unit {0}) × Wal)
    → q.0 ≡ ok tt
    → (n : ℕ) × ((published
          (numbered db.next_seq ops)
          q
          (record db { next_seq = added db.next_seq (length ops) })).1
        ≡ after_batch ops n db q.1)
unfolding triggered
published_ok ops db (err e, w) h = absurd (cc h)
published_ok ops db (ok u, w) h =
    elim (Bool-cases (MemTable.is_full (insert_all (numbered db.next_seq ops) db.active))) [
      | inl e ↦ (db.flush_signals + 1, rw e refl)
      | inr e ↦ (db.flush_signals, rw e refl)
    ]

module _ (c : Crates) (ops : WriteBatch) (db : DbInner) where
  abbrev logged : Result (Unit {0}) × Wal
  logged = Wal.append_batch c.hashes (numbered db.next_seq ops) db.wal

  acknowledged :
      db.failed ≡ none
      → 0 < length ops
      → logged.0 ≡ ok tt
      → (n : ℕ) × ((write_batch c ops db).1 ≡ after_batch ops n db logged.1)
  unfolding write_batch write_batch_healthy health
  acknowledged f some_ops k =
      let (n, e) = published_ok ops db logged k in
      (
        n,
        ap (λ p. p.1) (healthy (write_batch_healthy c ops) db f)
            ∙ rw (eq-false_of_pos (length ops) some_ops) e,
      )

length-numbered : (seq : ℕ) (ops : WriteBatch) → length (numbered seq ops) ≡ length ops
unfolding numbered
length-numbered seq [] = refl
length-numbered seq ((key, value) ∷ ops) = ap suc (length-numbered (added seq 1) ops)

-- An acknowledged batch extends the log and the MemTable alike.
write_batch-Logged :
    (c : Crates) (pss : List (List Part)) (v : ℕ) (bs : List (List Record)) (ops : WriteBatch)
    (db : DbInner)
    → IsValid c pss db
    → db.failed ≡ none
    → db.next_seq + length ops < 2 ^ 64
    → 0 < length ops
    → Logged c v bs db
    → FitsBatch (is_counted (versioned v)) (numbered db.next_seq ops)
    → length (image c.hashes v (bs ++ (numbered db.next_seq ops ∷ []))) < usize_mod
    → (write_batch c ops db).0 ≡ ok tt
    → Logged c v (bs ++ (numbered db.next_seq ops ∷ [])) (write_batch c ops db).1
      × ((write_batch c ops db).1.frozen ≡ db.frozen)
      × ((write_batch c ops db).1.opts ≡ db.opts)
write_batch-Logged c pss v bs ops db valid f room some_ops l fits small k =
    let rs = numbered db.next_seq ops in
    let same = (write_batch-newest c pss ops db valid f room).1 in
    let k' : (Wal.append_batch c.hashes rs db.wal).0 ≡ ok tt = sym same ∙ k in
    let (n, e) = acknowledged c ops db f some_ops k' in
    let log : IsLog c.hashes v (bs ++ (rs ∷ [])) (Wal.append_batch c.hashes rs db.wal).1 =
      elim (append_batch_atomic c.hashes v l.known bs rs db.wal l.log l.fits fits
        (omega (arith, length-numbered db.next_seq ops)) small) [
          | inl (_, q) ↦ q
          | inr (x, q, _) ↦ absurd (cc (q, k'))
        ] in
    let kept : Logged c v (bs ++ (rs ∷ []))
        (after_batch ops n db (Wal.append_batch c.hashes rs db.wal).1) =
      record {
        log = log;
        known = l.known;
        fits = All-append _ bs (rs ∷ []) l.fits (fits, tt);
        small = small;
        rebuilt =
            ap (insert_all rs) l.rebuilt
            ∙ sym (insert_all-append (all_records bs) rs (MemTable.new db.opts.memtable_threshold))
            ∙ ap (λ xs. insert_all xs (MemTable.new db.opts.memtable_threshold))
                (sym (all_records-append bs rs));
        numbered =
            subst (λ m. All (λ r. r.seq < m) (all_records (bs ++ (rs ∷ []))))
              (sym (added_lem db.next_seq (length ops) room))
              (subst (All (λ r. r.seq < db.next_seq + length ops)) (sym (all_records-append bs rs))
                (All-append _ (all_records bs) rs
                  (All-map (all_records bs) (λ r h. omega arith) l.numbered)
                  (numbered_below db.next_seq ops room)));
      } in
    (subst (Logged c v (bs ++ (rs ∷ []))) (sym e) kept, ap (λ x. x.frozen) e, ap (λ x. x.opts) e)

-- What a power loss may leave of a file: all that a durable sync kept, and of the bytes behind it the
-- first ones, or none.
abbrev pub Survives : File → Bytes → Type 0
Survives f bytes = (more lost : Bytes) × (bytes ≡ f.kept ++ more) × (f.contents ≡ bytes ++ lost)

nil_of_append : (xs ys : Bytes) → length (xs ++ ys) ≡ length xs → ys ≡ []
nil_of_append xs [] h = refl
nil_of_append xs (y ∷ ys) h = absurd (omega (arith, length-append xs (y ∷ ys), h))

-- Of a file that was kept whole, all survives.
Survives-whole :
    (f : File) (bytes : Bytes) → f.kept ≡ f.contents → Survives f bytes → bytes ≡ f.contents
Survives-whole f bytes whole (more, lost, e, g) =
    let n : length (bytes ++ lost) ≡ length bytes = omega (
      arith,
      ap length e,
      ap length g,
      ap length whole,
      length-append f.kept more,
      length-append bytes lost,
    ) in
    sym (append-nil bytes) ∙ ap (λ x. bytes ++ x) (sym (nil_of_append bytes lost n)) ∙ sym g

-- An append under durable syncs that succeeds is kept.
append_payload-kept :
    (h : Hashes) (x : Checksum) (payload : Bytes) (b : BufAppend)
    → (append_payload h x durable payload b).0 ≡ ok tt
    → (append_payload h x durable payload b).1.file.kept
      ≡ (append_payload h x durable payload b).1.file.contents
unfolding append_payload
append_payload-kept h x payload b k =
    let before : Exec BufAppend (Unit {0}) =
      write (to_le 4 (hash h x payload))
      then_do write (to_le 4 (length payload % 2 ^ 32))
      then_do write payload
      then_do flush in
    let (_, e) = then_do-eq_ok before (sync_file_as durable) b tt k in
    ap (λ p. p.1.file.kept) e
    ∙ sync_file_as-kept (before b).1 (ap (λ p. p.0) (sym e) ∙ k)
    ∙ ap (λ p. p.1.file.contents) (sym e)

append_batch-kept :
    (h : Hashes) (v : ℕ) (known : v ≤ wal_version) (rs : List Record) (w : Wal)
    → w.sync ≡ durable
    → FitsBatch w.counted rs
    → 0 < length rs
    → (Wal.append_batch h rs w).0 ≡ ok tt
    → (Wal.append_batch h rs w).1.file.file.kept ≡ (Wal.append_batch h rs w).1.file.file.contents
append_batch-kept h v known rs w d fits some k =
    let done = accepted h v known rs w fits some in
    let answer = append_payload h w.checksum w.sync (payload_of w.counted rs) w.file in
    let kept : answer.0 ≡ ok tt → answer.1.file.kept ≡ answer.1.file.contents =
      subst
        (λ mode.
          (append_payload h w.checksum mode (payload_of w.counted rs) w.file).0 ≡ ok tt
          → (append_payload h w.checksum mode (payload_of w.counted rs) w.file).1.file.kept
            ≡ (append_payload h w.checksum mode (payload_of w.counted rs) w.file).1.file.contents)
        (sym d) (append_payload-kept h w.checksum (payload_of w.counted rs) w.file) in
    ap (λ p. p.1.file.file.kept) done
    ∙ kept (ap (λ p. p.0) (sym done) ∙ k)
    ∙ ap (λ p. p.1.file.file.contents) (sym done)

-- A batch of one write or more, on a valid database that has not failed, has nothing frozen, syncs its log
-- durably and has a MemTable that is what its log makes, with numbers left, and which fits the log's
-- format. If it was acknowledged, a power loss right behind it loses nothing of it: let the log be left
-- with the bytes that durable syncs kept and any part of those written since, from their front, and
-- the directory be one with that log and the tables of the database, where nothing fails. Then it opens,
-- the opened database is valid and holds the same versions, and each read of it at any bound answers
-- what the batch's writes made of the values before the batch.
pub write_batch-assemble :
    (c : Crates) (pss : List (List Part)) (v : ℕ) (bs : List (List Record)) (ops : WriteBatch)
    (db : DbInner) (d : Directory) (log : Bytes)
    → IsValid c pss db
    → db.failed ≡ none
    → db.frozen ≡ none
    → db.wal.sync ≡ durable
    → db.next_seq + length ops < 2 ^ 64
    → 0 < length ops
    → Logged c v bs db
    → FitsBatch (is_counted (versioned v)) (numbered db.next_seq ops)
    → length (image c.hashes v (bs ++ (numbered db.next_seq ops ∷ []))) < usize_mod
    → (write_batch c ops db).0 ≡ ok tt
    → Survives (write_batch c ops db).1.wal.file.file log
    → Keeps c pss (write_batch c ops db).1 log d
    → (opened : DbInner) × (assemble c db.opts d ≡ ok opened)
      × IsValid c pss opened
      × (contents pss opened ≡ contents pss (write_batch c ops db).1)
      × ((key : Bytes) (bound : ℕ)
          → (get_at c key bound opened).0
            ≡ ok (
                behind key
                  (take (bound - db.next_seq) ops)
                  (value_of (newest key bound (contents pss db)))))
write_batch-assemble c pss v bs ops db d log valid f thawed synced room some_ops l fits small k left
      keeps =
    let rs = numbered db.next_seq ops in
    let (valid', same_end, same_log, sees, _) = write_batch-newest c pss ops db valid f room in
    let (l', frozen_same, opts_same) =
      write_batch-Logged c pss v bs ops db valid f room some_ops l fits small k in
    let kept : (write_batch c ops db).1.wal.file.file.kept
        ≡ (write_batch c ops db).1.wal.file.file.contents =
      ap (λ w. w.file.file.kept) same_log
      ∙ append_batch-kept c.hashes v l.known rs db.wal synced
          (subst (λ n. FitsBatch n rs) (sym l.log.same_count) fits)
          (omega (arith, length-numbered db.next_seq ops)) (sym same_end ∙ k)
      ∙ ap (λ w. w.file.file.contents) (sym same_log) in
    let whole = Survives-whole (write_batch c ops db).1.wal.file.file log kept left in
    let (opened, e, opened_valid, same, _, _, reads) =
      assemble-contents c pss v (bs ++ (rs ∷ [])) (write_batch c ops db).1 d valid'
        (frozen_same ∙ thawed) l'
        (subst (λ b. Keeps c pss (write_batch c ops db).1 b d) whole keeps) in
    (
      opened,
      ap (λ o. assemble c o d) (sym opts_same) ∙ e,
      opened_valid,
      same,
      λ key bound.
          reads key bound
          ∙ ap (λ o. ok (value_of o)) (sees k key bound)
          ∙ ap ok
              (numbered-behind key bound ops db.next_seq (newest key bound (contents pss db)) room),
    )

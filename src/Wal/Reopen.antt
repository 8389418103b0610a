-- ===== src/Wal/Reopen.antt =====
-- What opening a log for appending makes of it, and of a torn frame at its end.
use lsm_tree_key_value_stora.Prelude.{
  ℕ, ◌≤◌, ◌<◌, ◌≡◌, ◌≢◌, refl, ap, ap₂, sym, subst, ◌∙◌, false, List, [], ◌∷◌, ◌++◌, arith, length,
  take, drop, length-append, length-take, take-append, take-length, lt→leb, eq_of_==, Bool-cases,
  inl, inr, if◌then◌else◌, append_assoc, append-nil, eq-false_of_pos, ◌==◌,
}
use lsm_tree_key_value_stora.Errors.{Result, ok, err}
use lsm_tree_key_value_stora.Bytes.{Bytes}
use lsm_tree_key_value_stora.Record.{Record, usize_mod}
use lsm_tree_key_value_stora.Header
use lsm_tree_key_value_stora.Header.{
  Hashes, versioned, legacy, wal_checksum, wal_version, wal_magic, hash,
}
use lsm_tree_key_value_stora.Header.Laws.{length-encode}
use lsm_tree_key_value_stora.Files
use lsm_tree_key_value_stora.Files.{File, SyncMode, BufAppend}
use lsm_tree_key_value_stora.Wal.{
  Wal, open_append, append_batch, payload_of, replay_bytes, is_counted,
}
use lsm_tree_key_value_stora.Wal.Decode.{FitsBatch}
use lsm_tree_key_value_stora.Wal.Replay.{all_records, image, frames_of, headed_kind}
use lsm_tree_key_value_stora.Wal.Append.{append_payload_lem}
use lsm_tree_key_value_stora.Wal.Crash.{Fitting, frame_of, replay_behind_torn, accepted}

-- The log that is appended to as its header says.
abbrev pub reopened : ℕ → File → SyncMode → Wal
reopened v f mode = record {
  file = Files.new f;
  sync = mode;
  checksum = wal_checksum (versioned v);
  counted = is_counted (versioned v);
}

-- The log that is appended to as one that has no header.
abbrev pub headless : File → SyncMode → Wal
headless f mode = record {
  file = Files.new f;
  sync = mode;
  checksum = wal_checksum legacy;
  counted = is_counted legacy;
}

-- Fewer bytes than a header has are taken for a log without one.
short_kind :
    (bytes : Bytes) (n : ℕ)
    → length bytes ≡ n
    → 0 < n
    → n < 8
    → Header.classify bytes wal_magic wal_version ≡ ok legacy
unfolding Header.classify
short_kind bytes n e some short =
    rw (
      eq-false_of_pos (length bytes) (omega (arith, e)),
      lt→leb 8 (length bytes) (omega (arith, e)),
    )

module _ (h : Hashes) (v : ℕ) (known : v ≤ wal_version) (bs : List (List Record)) (tail : Bytes)
    (f : File) (mode : SyncMode) where
  header_front :
      f.contents ≡ image h v bs ++ tail
      → (rest : Bytes) × (f.contents ≡ Header.encode wal_magic v ++ rest)
  unfolding image
  header_front e = (
    frames_of h (wal_checksum (versioned v)) (is_counted (versioned v)) bs ++ tail,
    e
        ∙ append_assoc (Header.encode wal_magic v)
            (frames_of h (wal_checksum (versioned v)) (is_counted (versioned v)) bs) tail,
  )

  header_length : length (Header.encode wal_magic v) ≡ 8
  header_length = length-encode wal_magic refl v []

  -- The first bytes of the file are the first ones of its header.
  front_part :
      (n : ℕ)
      → n ≤ 8
      → f.contents ≡ image h v bs ++ tail
      → take n f.contents ≡ take n (Header.encode wal_magic v)
  front_part n l e =
      let (rest, q) = header_front e in
      ap (take n) q ∙ take-append n (Header.encode wal_magic v) rest (omega (arith, header_length))

  some_bytes : f.contents ≡ image h v bs ++ tail → (length f.contents == 0) ≡ false
  some_bytes e =
      let (rest, q) = header_front e in
      eq-false_of_pos (length f.contents)
        (omega (arith, ap length q, length-append (Header.encode wal_magic v) rest, header_length))

  pub open_append-reopened :
      (n : ℕ)
      → f.contents ≡ image h v bs ++ tail
      → 0 < n
      → n ≤ 8
      → open_append (ok f) (ok (length f.contents)) (ok (take n f.contents)) mode
        ≡ ok (if n == 8 then reopened v f mode else headless f mode)
  unfolding open_append
  open_append-reopened n e some l = elim (Bool-cases (n == 8)) [
    | inl q ↦
        let m : n ≡ 8 = eq_of_== n 8 q in
        let front : take n f.contents ≡ Header.encode wal_magic v ++ [] =
          front_part n l e
          ∙ ap (λ k. take k (Header.encode wal_magic v)) (m ∙ sym header_length)
          ∙ ap (take (length (Header.encode wal_magic v)))
              (sym (append-nil (Header.encode wal_magic v)))
          ∙ take-length (Header.encode wal_magic v) []
          ∙ sym (append-nil (Header.encode wal_magic v)) in
        rw (q, some_bytes e, front) (rw (headed_kind h v known []))
    | inr q ↦
        let short : n < 8 = ground (arith, q, l) in
        let size : length (take n f.contents) ≡ n =
          ap length (front_part n l e)
          ∙ length-take n (Header.encode wal_magic v)
          ∙ omega (arith, header_length) in
        rw (q, some_bytes e) (rw (short_kind (take n f.contents) n size some short))
  ]

new-buf : (f : File) → (Files.new f).buf ≡ []
unfolding Files.new Files.with_capacity
new-buf f = refl

new-file : (f : File) → (Files.new f).file ≡ f
unfolding Files.new Files.with_capacity
new-file f = refl

abbrev opened : Wal → Result Wal → Wal
opened w (ok v) = v
opened w (err e) = w

module _ (h : Hashes) (v : ℕ) (known : v ≤ wal_version) (bs : List (List Record))
    (rs next : List Record) (front back : Bytes) (b : ℕ) (f : File) (mode : SyncMode)
    (fits : Fitting h v known bs) (torn_fits : FitsBatch (is_counted (versioned v)) rs)
    (next_fits : FitsBatch (is_counted (versioned v)) next) (some_records : 0 < length next)
    (stored : f.contents ≡ image h v bs ++ front) where
  -- The frame of `next` stands behind what the file held.
  appended :
      (append_batch h next (reopened v f mode)).0 ≡ ok tt
      → (append_batch h next (reopened v f mode)).1.file.file.contents
        ≡ image h v bs ++ (front ++ frame_of h v known next)
  appended q =
      let w : Wal = reopened v f mode in
      let step = accepted h v known next w next_fits some_records in
      let (part, left, grown, whole, on_ok) =
        append_payload_lem h w.checksum mode (payload_of w.counted next) (Files.new f)
          (new-buf f) in
      let none_left : left ≡ [] = (on_ok (ap (λ p. p.0) (sym step) ∙ q)).0 in
      let all : part ≡ frame_of h v known next =
        sym (append-nil part) ∙ ap (λ x. part ++ x) (sym none_left) ∙ sym whole in
      ap (λ p. p.1.file.file.contents) step
      ∙ grown
      ∙ ap₂ (λ x y. x ++ y) (ap (λ x. x.contents) (new-file f) ∙ stored) all
      ∙ append_assoc (image h v bs) front (frame_of h v known next)

  -- A log is opened, with its size and its header read in whole, behind which the torn frame of a
  -- batch stands, of eight bytes or more, and a
  -- batch is appended with success: unless the new bytes happen to complete the torn payload, replay
  -- answers the records of the log and none of the batch. All batches fit, and the version is one
  -- that this build knows.
  pub append_batch_lost :
      (w : Wal)
      → open_append (ok f) (ok (length f.contents)) (ok (take 8 f.contents)) mode ≡ ok w
      → (append_batch h next w).0 ≡ ok tt
      → 8 ≤ length front
      → frame_of h v known rs ≡ front ++ (b ∷ back)
      → length (image h v bs ++ (front ++ frame_of h v known next)) < usize_mod
      → hash h (wal_checksum (versioned v)) (
          take
            (length (payload_of (is_counted (versioned v)) rs))
            (drop 8 front ++ frame_of h v known next))
        ≢ hash h (wal_checksum (versioned v)) (payload_of (is_counted (versioned v)) rs)
      → replay_bytes h (append_batch h next w).1.file.file.contents ≡ ok (all_records bs)
  append_batch_lost w o q long cut small bad =
      let same : w ≡ reopened v f mode = ap (opened w) (
        sym o
        ∙ open_append-reopened h v known bs front f mode 8 stored (omega arith) (omega arith)) in
      let q' = subst (λ x. (append_batch h next x).0 ≡ ok tt) same q in
      ap (λ x. replay_bytes h (append_batch h next x).1.file.file.contents) same
      ∙ ap (replay_bytes h) (appended q')
      ∙ replay_behind_torn h v known bs rs front back (frame_of h v known next) b fits torn_fits
          small long cut bad

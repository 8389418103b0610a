-- ===== src/Wal/Crash.antt =====
-- What survives a crash or a failure in the middle of an append, and what does not survive an
-- append behind a torn frame.
use lsm_tree_key_value_stora.Prelude.{
  ℕ, ◌≤◌, ◌<◌, ◌≡◌, ◌≢◌, refl, ap, ap₂, sym, subst, ◌∙◌, Bool, true, false, not, ◌&&◌, ltb, List,
  [], ◌∷◌, ◌++◌, arith, length, take, drop, length-append, All, All-append, append-nil, ◌⊎◌, inl,
  inr, eq-false_of_pos,
}
use lsm_tree_key_value_stora.Errors.{Error, Result, ok, err}
use lsm_tree_key_value_stora.Bytes.{Bytes}
use lsm_tree_key_value_stora.Record.{Record, usize_mod}
use lsm_tree_key_value_stora.Header.{Hashes, versioned, wal_checksum, wal_version, hash}
use lsm_tree_key_value_stora.Frames.{frame}
use lsm_tree_key_value_stora.Frames.Torn.{next_frame_torn, next_frame_short, next_frame_behind_torn}
use lsm_tree_key_value_stora.Files.Laws.{unit_cases}
use lsm_tree_key_value_stora.Wal.{
  Wal, append_payload, append_batch, payload_of, replay_bytes, is_counted,
}
use lsm_tree_key_value_stora.Wal.Decode.{FitsBatch}
use lsm_tree_key_value_stora.Wal.Replay.{all_records, image, replay_bytes-image}
use lsm_tree_key_value_stora.Wal.Append.{
  IsLog, append_payload_lem, image-append, all_records-append,
}

module _ (h : Hashes) (v : ℕ) (known : v ≤ wal_version) where
  abbrev pub Fitting : List (List Record) → Type 0
  Fitting = All (FitsBatch (is_counted (versioned v)))

  abbrev pub frame_of : List Record → Bytes
  frame_of rs = frame h (wal_checksum (versioned v)) (payload_of (is_counted (versioned v)) rs)

  -- A log of whole frames replays to its records.
  pub replay_whole :
      (bs : List (List Record))
      → Fitting bs
      → length (image h v bs) < usize_mod
      → replay_bytes h (image h v bs) ≡ ok (all_records bs)
  replay_whole bs f small =
      let e = append-nil (image h v bs) in
      subst (λ x. replay_bytes h x ≡ ok (all_records bs)) e
        (replay_bytes-image h v known bs [] f (rw e small)
          (next_frame_short h _ (image h v bs) [] (omega arith)))

  -- Any proper part of the frame of a batch that fits, behind a log of whole frames of any version
  -- that this build knows, loses that batch and no other record: replay answers the records of the
  -- log.
  pub replay_torn :
      (bs : List (List Record)) (rs : List Record) (front back : Bytes) (b : ℕ)
      → Fitting bs
      → FitsBatch (is_counted (versioned v)) rs
      → length (image h v bs ++ front) < usize_mod
      → frame_of rs ≡ front ++ (b ∷ back)
      → replay_bytes h (image h v bs ++ front) ≡ ok (all_records bs)
  replay_torn bs rs front back b f fr small e =
      replay_bytes-image h v known bs front f small
        (next_frame_torn h _ (image h v bs) _ front back b fr.payload_fits small e)

  -- Where the torn frame of a batch that fits, of eight bytes or more, stands behind a log of any
  -- version that this build knows, replay loses whatever stands behind it: the bytes there count as
  -- the rest of the torn payload, and replay stops unless they happen to verify.
  pub replay_behind_torn :
      (bs : List (List Record)) (rs : List Record) (front back more : Bytes) (b : ℕ)
      → Fitting bs
      → FitsBatch (is_counted (versioned v)) rs
      → length (image h v bs ++ (front ++ more)) < usize_mod
      → 8 ≤ length front
      → frame_of rs ≡ front ++ (b ∷ back)
      → hash h
          (wal_checksum (versioned v))
          (take (length (payload_of (is_counted (versioned v)) rs)) (drop 8 front ++ more))
        ≢ hash h (wal_checksum (versioned v)) (payload_of (is_counted (versioned v)) rs)
      → replay_bytes h (image h v bs ++ (front ++ more)) ≡ ok (all_records bs)
  replay_behind_torn bs rs front back more b f fr small long e bad =
      replay_bytes-image h v known bs (front ++ more) f small (
        next_frame_behind_torn h _ (image h v bs) _ front back more b fr.payload_fits long small e
          bad)

  accepts :
      (counted : Bool) (rs : List Record)
      → FitsBatch counted rs
      → (not counted && ltb 1 (length rs)) ≡ false
  accepts true rs f = refl
  accepts false rs f = rw (f.single refl)

  -- Nothing but the buffered file changes, as the writes of the frame change it.
  pub accepted :
      (rs : List Record) (w : Wal)
      → FitsBatch w.counted rs
      → 0 < length rs
      → append_batch h rs w ≡ (
        (append_payload h w.checksum w.sync (payload_of w.counted rs) w.file).0,
        record w { file = (append_payload h w.checksum w.sync (payload_of w.counted rs) w.file).1 },
      )
  unfolding append_batch
  accepted rs w f n = rw (eq-false_of_pos (length rs) n, accepts w.counted rs f)

  module _ (bs : List (List Record)) (rs : List Record) (w : Wal) (log : IsLog h v bs w)
      (f : Fitting bs) (fr : FitsBatch (is_counted (versioned v)) rs) (some_records : 0 < length rs)
      (small : length (image h v (bs ++ (rs ∷ []))) < usize_mod) where
    abbrev answer : Result (Unit {0})
    answer = (append_batch h rs w).0

    abbrev left : Wal
    left = (append_batch h rs w).1

    same_frame : frame h w.checksum (payload_of w.counted rs) ≡ frame_of rs
    same_frame = ap₂ (λ c p. frame h c (payload_of p rs)) log.same_checksum log.same_count

    after_failure :
        (front back : Bytes)
        → left.file.file.contents ≡ image h v bs ++ front
        → frame_of rs ≡ front ++ back
        → (replay_bytes h left.file.file.contents ≡ ok (all_records bs))
          ⊎ (replay_bytes h left.file.file.contents ≡ ok (all_records bs ++ rs))
    after_failure front [] grown whole =
        let all : left.file.file.contents ≡ image h v (bs ++ (rs ∷ [])) =
          grown
          ∙ ap (λ x. image h v bs ++ x) (sym (append-nil front) ∙ sym whole)
          ∙ sym (image-append h v bs rs) in
        let fits : Fitting (bs ++ (rs ∷ [])) =
          All-append (FitsBatch (is_counted (versioned v))) bs (rs ∷ []) f (fr, tt) in
        inr (
          ap (replay_bytes h) all
          ∙ replay_whole (bs ++ (rs ∷ [])) fits small
          ∙ ap ok (all_records-append bs rs))
    after_failure front (b ∷ back) grown whole =
        let short : length (image h v bs ++ front) < usize_mod = omega (
          arith,
          small,
          ap length (image-append h v bs rs),
          length-append (image h v bs) (frame_of rs),
          length-append (image h v bs) front,
          ap length whole,
          length-append front (b ∷ back),
        ) in
        inl (ap (replay_bytes h) grown ∙ replay_torn bs rs front back b f fr short whole)

    grown-IsLog :
        (front back : Bytes)
        → left.file.file.contents ≡ image h v bs ++ front
        → frame_of rs ≡ front ++ back
        → append_batch h rs w ≡ (
          (append_payload h w.checksum w.sync (payload_of w.counted rs) w.file).0,
          record w {
            file = (append_payload h w.checksum w.sync (payload_of w.counted rs) w.file).1;
          },
        )
        → back ≡ []
        → (append_payload h w.checksum w.sync (payload_of w.counted rs) w.file).1.buf ≡ []
        → IsLog h v (bs ++ (rs ∷ [])) left
    grown-IsLog front back grown whole done none_back drained = record {
      stored =
          grown
          ∙ ap (λ x. image h v bs ++ x)
              (sym (append-nil front) ∙ ap (λ x. front ++ x) (sym none_back) ∙ sym whole)
          ∙ sym (image-append h v bs rs);
      drained = ap (λ p. p.1.file.buf) done ∙ drained;
      same_checksum = ap (λ p. p.1.checksum) done ∙ log.same_checksum;
      same_count = ap (λ p. p.1.counted) done ∙ log.same_count;
    }

    -- For a log of whole frames with nothing in its buffer, in any version that this build knows,
    -- and a batch of one record or more that fits the format: whatever fails on the way, an append
    -- that succeeds leaves a log with one more batch, and one that fails leaves a file that replays
    -- to the records before it, or to those and the whole batch.
    pub append_batch_atomic :
        ((answer ≡ ok tt) × IsLog h v (bs ++ (rs ∷ [])) left)
        ⊎ ((e : Error) × (answer ≡ err e)
            × ((replay_bytes h left.file.file.contents ≡ ok (all_records bs))
                ⊎ (replay_bytes h left.file.file.contents ≡ ok (all_records bs ++ rs))))
    append_batch_atomic =
        let (front, back, grown, whole, on_ok) =
          append_payload_lem h w.checksum w.sync (payload_of w.counted rs) w.file log.drained in
        let done =
          accepted rs w (subst (λ c. FitsBatch c rs) (sym log.same_count) fr) some_records in
        let grown' : left.file.file.contents ≡ image h v bs ++ front =
          ap (λ p. p.1.file.file.contents) done ∙ grown ∙ ap (λ x. x ++ front) log.stored in
        let whole' : frame_of rs ≡ front ++ back = sym same_frame ∙ whole in
        elim (unit_cases (append_payload h w.checksum w.sync (payload_of w.counted rs) w.file).0) [
          | inl e ↦ inl (
            ap (λ p. p.0) done ∙ e,
            grown-IsLog front back grown' whole' done (on_ok e).0 (on_ok e).1,
          )
          | inr (x, e) ↦ inr (x, ap (λ p. p.0) done ∙ e, after_failure front back grown' whole')
        ]

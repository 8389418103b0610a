-- ===== src/Wal/Replay.antt =====
-- Replay of whole frames, up to the first place where no frame verifies; and the fuel.
use lsm_tree_key_value_stora.Prelude.{
  ℕ, zero, suc, ◌-◌, ◌≤◌, ◌<◌, ◌≡◌, refl, ap, sym, subst, subst₂, ◌∙◌, Bool, none, some, List, [],
  ◌∷◌, ◌++◌, arith, length, length-append, All, append_assoc, append-nil, inl, inr, Option-cases,
  le→ltb,
}
use lsm_tree_key_value_stora.Errors.{Result, ok, err, ◌>>=◌}
use lsm_tree_key_value_stora.Bytes.{Bytes}
use lsm_tree_key_value_stora.Record.{Record, usize_mod}
use lsm_tree_key_value_stora.Header
use lsm_tree_key_value_stora.Header.{
  Hashes, Checksum, Kind, empty, versioned, legacy, wal_checksum, wal_magic, wal_version,
  header_len, classify, frames_start,
}
use lsm_tree_key_value_stora.Header.Laws.{classify-encode, length-encode}
use lsm_tree_key_value_stora.Frames.{frame, next_frame}
use lsm_tree_key_value_stora.Frames.Laws.{next_frame-frame, length-frame, next_frame_bounds}
use lsm_tree_key_value_stora.Wal.{
  payload_of, decode_payload, replay_frames, replay_kind, replay_bytes, is_counted,
}
use lsm_tree_key_value_stora.Wal.Decode.{FitsBatch, decode_payload-payload_of}

-- The frames of the batches, and the records in them.
unfoldable pub frames_of : Hashes → Checksum → Bool → List (List Record) → Bytes
frames_of h c counted [] = []
frames_of h c counted (b ∷ bs) = frame h c (payload_of counted b) ++ frames_of h c counted bs

abbrev pub all_records : List (List Record) → List Record
all_records [] = []
all_records (b ∷ bs) = b ++ all_records bs

module _ (h : Hashes) (c : Checksum) (counted : Bool) where
  length-frames_of : (bs : List (List Record)) → length bs ≤ length (frames_of h c counted bs)
  unfolding frames_of
  length-frames_of [] = omega arith
  length-frames_of (b ∷ bs) = omega (
    arith,
    length-append (frame h c (payload_of counted b)) (frames_of h c counted bs),
    length-frame h c (payload_of counted b),
    length-frames_of bs,
  )

  -- One round of the loop.
  stop_round :
      (fuel : ℕ) (bytes : Bytes) (pos : ℕ) (acc : List Record)
      → next_frame h c bytes pos ≡ none
      → replay_frames h c counted (suc fuel) bytes pos acc ≡ ok acc
  unfolding replay_frames
  stop_round fuel bytes pos acc e = rw (e, replay_frames)

  next_round :
      (fuel : ℕ) (bytes : Bytes) (pos : ℕ) (acc : List Record) (payload : Bytes) (end : ℕ)
      → next_frame h c bytes pos ≡ some (payload, end)
      → replay_frames h c counted (suc fuel) bytes pos acc ≡ (
          decode_payload counted payload >>= λ batch.
          replay_frames h c counted fuel bytes end (acc ++ batch))
  unfolding replay_frames
  next_round fuel bytes pos acc payload end e = rw (e, replay_frames)

  -- The loop reads all whole frames, and ends where the next one does not verify.
  pub replay_frames-frames_of :
      (pre tail : Bytes) (bs : List (List Record)) (fuel : ℕ) (acc : List Record)
      → All (FitsBatch counted) bs
      → length (pre ++ (frames_of h c counted bs ++ tail)) < usize_mod
      → length bs < fuel
      → next_frame h c
          (pre ++ (frames_of h c counted bs ++ tail))
          (length (pre ++ frames_of h c counted bs))
        ≡ none
      → replay_frames h c counted fuel (pre ++ (frames_of h c counted bs ++ tail)) (length pre) acc
        ≡ ok (acc ++ all_records bs)
  unfolding frames_of
  replay_frames-frames_of pre tail bs zero acc f small fl stop = elim fl [ ]
  replay_frames-frames_of pre tail [] (suc fuel) acc f small fl stop =
      stop_round fuel (pre ++ tail) (length pre) acc (rw append-nil at stop)
      ∙ ap ok (sym (append-nil acc))
  replay_frames-frames_of pre tail (b ∷ bs) (suc fuel) acc f small fl stop =
      let fr : Bytes = frame h c (payload_of counted b) in
      let rest : Bytes = frames_of h c counted bs in
      let front : pre ++ ((fr ++ rest) ++ tail) ≡ (pre ++ fr) ++ (rest ++ tail) =
        simp append_assoc in
      let small' = subst (λ x. length x < usize_mod) front small in
      let ih =
        replay_frames-frames_of (pre ++ fr) tail bs fuel (acc ++ b) f.1 small' (omega arith) (
          subst₂ (λ x y. next_frame h c x (length y) ≡ none) front (sym (append_assoc pre fr rest))
            stop) in
      let head =
        next_frame-frame h c pre (payload_of counted b) (rest ++ tail) f.0.payload_fits
          (subst (λ x. length x < usize_mod) (append_assoc pre fr (rest ++ tail)) small') in
      rw (append_assoc fr rest tail) (
        rw (next_round fuel _ (length pre) acc (payload_of counted b) _ head) (
          rw (decode_payload-payload_of counted b f.0)
            (simp (append_assoc, length-append pre fr) at ih)))

  -- Any fuel above the number of bytes left gives the same answer: it never runs out.
  pub replay_frames-fuel :
      (f g : ℕ) (bytes : Bytes) (pos : ℕ) (acc : List Record)
      → length bytes - pos < f
      → length bytes - pos < g
      → replay_frames h c counted f bytes pos acc ≡ replay_frames h c counted g bytes pos acc
  replay_frames-fuel zero g bytes pos acc hf hg = elim hf [ ]
  replay_frames-fuel (suc f) zero bytes pos acc hf hg = elim hg [ ]
  replay_frames-fuel (suc f) (suc g) bytes pos acc hf hg =
      elim (Option-cases (next_frame h c bytes pos)) [
        | inl e ↦ stop_round f bytes pos acc e ∙ sym (stop_round g bytes pos acc e)
        | inr ((payload, end), e) ↦
            let b = next_frame_bounds h c bytes pos payload end e in
            next_round f bytes pos acc payload end e
            ∙ again (decode_payload counted payload) (λ batch.
              replay_frames-fuel f g bytes end (acc ++ batch) (omega (arith, b)) (omega (arith, b)))
            ∙ sym (next_round g bytes pos acc payload end e)
      ]
    where
      again :
          (m : Result (List Record)) {k n : List Record → Result (List Record)}
          → ((batch : List Record) → k batch ≡ n batch)
          → (m >>= k) ≡ (m >>= n)
      again (ok batch) p = p batch
      again (err e) p = refl

-- A log file of format version `v`.
unfoldable pub image : Hashes → ℕ → List (List Record) → Bytes
image h v bs =
    Header.encode wal_magic v
    ++ frames_of h (wal_checksum (versioned v)) (is_counted (versioned v)) bs

module _ (h : Hashes) (v : ℕ) (known : v ≤ wal_version) where
  pub headed_kind :
      (rest : Bytes)
      → classify (Header.encode wal_magic v ++ rest) wal_magic wal_version ≡ ok (versioned v)
  headed_kind rest =
      classify-encode wal_magic refl v rest wal_version (omega arith)
      ∙ (rw (le→ltb wal_version v known))

  -- Replay of a log of any version that this build knows, whose batches fit the format and whose
  -- bytes can be addressed, reads every whole frame, and drops what stands behind them if no frame
  -- verifies there.
  pub replay_bytes-image :
      (bs : List (List Record)) (tail : Bytes)
      → All (FitsBatch (is_counted (versioned v))) bs
      → length (image h v bs ++ tail) < usize_mod
      → next_frame h (wal_checksum (versioned v)) (image h v bs ++ tail) (length (image h v bs))
        ≡ none
      → replay_bytes h (image h v bs ++ tail) ≡ ok (all_records bs)
  unfolding replay_bytes replay_kind image frames_start
  replay_bytes-image bs tail f small stop =
      let c = wal_checksum (versioned v) in
      let counted = is_counted (versioned v) in
      let front : Bytes = Header.encode wal_magic v in
      let rest : Bytes = frames_of h c counted bs in
      let l : length front ≡ 8 = length-encode wal_magic refl v [] in
      let e : (front ++ rest) ++ tail ≡ front ++ (rest ++ tail) = append_assoc front rest tail in
      let r =
        replay_frames-frames_of h c counted front tail bs (suc (length (front ++ (rest ++ tail))))
          [] f (subst (λ x. length x < usize_mod) e small)
          (omega (
            arith,
            length-append front (rest ++ tail),
            length-append rest tail,
            length-frames_of h c counted bs,
          ))
          (subst (λ x. next_frame h c x (length (front ++ rest)) ≡ none) e stop) in
      rw e (rw (headed_kind (rest ++ tail)) (rw l at r))

-- ===== src/Manifest/Replay.antt =====
-- Replay of a manifest of whole frames, with a torn end, and with no readable frame.
use lsm_tree_key_value_stora.Prelude.{
  ℕ, zero, suc, ◌+◌, ◌≤◌, ◌<◌, ◌≡◌, refl, ap, sym, subst, subst₂, ◌∙◌, none, some, List, [], ◌∷◌,
  ◌++◌, arith, length, length-append, All, append_assoc, append-nil, lt→ltb, le→ltb,
  eq-false_of_pos,
}
use lsm_tree_key_value_stora.Order.{nat_ord}
use lsm_tree_key_value_stora.SortedMap.{IsSorted}
use lsm_tree_key_value_stora.Errors.{ok, err, corrupt, no_readable_frame, ◌>>=◌}
use lsm_tree_key_value_stora.Bytes.{Bytes}
use lsm_tree_key_value_stora.Record.{usize_mod}
use lsm_tree_key_value_stora.Header
use lsm_tree_key_value_stora.Header.{
  Hashes, Checksum, versioned, manifest_checksum, manifest_magic, manifest_version, classify,
  frames_start,
}
use lsm_tree_key_value_stora.Header.Laws.{classify-encode, length-encode}
use lsm_tree_key_value_stora.Frames.{frame, next_frame}
use lsm_tree_key_value_stora.Frames.Laws.{next_frame-frame, length-frame}
use lsm_tree_key_value_stora.Frames.Torn.{next_frame_short, next_frame_torn}
use lsm_tree_key_value_stora.Manifest.{
  VersionEdit, ManifestState, no_tables, apply, encode, decode, snapshot_edits, replay_edits,
  replay_kind, replay_bytes, checked,
}
use lsm_tree_key_value_stora.Manifest.Edits
use lsm_tree_key_value_stora.Manifest.Edits.{
  Fits, decode-encode_edit, apply_all, apply_all-snapshot_edits,
}

-- The frames of the edits.
unfoldable pub frames_of : Hashes → Checksum → List VersionEdit → Bytes
frames_of h c [] = []
frames_of h c (e ∷ es) = frame h c (encode e) ++ frames_of h c es

module _ (h : Hashes) (c : Checksum) where
  length-frames_of : (es : List VersionEdit) → length es ≤ length (frames_of h c es)
  unfolding frames_of
  length-frames_of [] = omega arith
  length-frames_of (e ∷ es) = omega (
    arith,
    length-append (frame h c (encode e)) (frames_of h c es),
    length-frame h c (encode e),
    length-frames_of es,
  )

  -- One round of the loop.
  stop_round :
      (fuel : ℕ) (bytes : Bytes) (pos : ℕ) (s : ManifestState) (n : ℕ)
      → next_frame h c bytes pos ≡ none
      → replay_edits h c (suc fuel) bytes pos s n ≡ ok (s, n)
  unfolding replay_edits
  stop_round fuel bytes pos s n e = rw (e, replay_edits)

  next_round :
      (fuel : ℕ) (bytes : Bytes) (pos : ℕ) (s : ManifestState) (n : ℕ) (payload : Bytes) (end : ℕ)
      → next_frame h c bytes pos ≡ some (payload, end)
      → replay_edits h c (suc fuel) bytes pos s n
        ≡ (decode payload >>= λ edit. replay_edits h c fuel bytes end (apply edit s) (suc n))
  unfolding replay_edits
  next_round fuel bytes pos s n payload end e = rw (e, replay_edits)

  replay_edits-frames_of :
      (pre tail : Bytes) (es : List VersionEdit) (fuel : ℕ) (s : ManifestState) (n : ℕ)
      → All Fits es
      → length (pre ++ (frames_of h c es ++ tail)) < usize_mod
      → length es < fuel
      → next_frame h c (pre ++ (frames_of h c es ++ tail)) (length (pre ++ frames_of h c es)) ≡ none
      → replay_edits h c fuel (pre ++ (frames_of h c es ++ tail)) (length pre) s n
        ≡ ok (apply_all es s, n + length es)
  unfolding frames_of
  replay_edits-frames_of pre tail es zero s n f small fl stop = elim fl [ ]
  replay_edits-frames_of pre tail [] (suc fuel) s n f small fl stop =
      stop_round fuel (pre ++ tail) (length pre) s n (rw append-nil at stop)
      ∙ ap (λ k. ok (s, k)) (omega arith)
  replay_edits-frames_of pre tail (e ∷ es) (suc fuel) s n f small fl stop =
      let fr : Bytes = frame h c (encode e) in
      let rest : Bytes = frames_of h c es in
      let front : pre ++ ((fr ++ rest) ++ tail) ≡ (pre ++ fr) ++ (rest ++ tail) =
        simp append_assoc in
      let small' = subst (λ x. length x < usize_mod) front small in
      let counted : suc n + length es ≡ n + suc (length es) = omega arith in
      let ih =
        replay_edits-frames_of (pre ++ fr) tail es fuel (apply e s) (suc n) f.1 small' (omega arith)
          (subst₂ (λ x y. next_frame h c x (length y) ≡ none) front (sym (append_assoc pre fr rest))
            stop)
        ∙ ap (λ k. ok (apply_all es (apply e s), k)) counted in
      let head =
        next_frame-frame h c pre (encode e) (rest ++ tail) (omega (arith, Edits.length-encode e))
          (subst (λ x. length x < usize_mod) (append_assoc pre fr (rest ++ tail)) small') in
      rw (append_assoc fr rest tail) (
        rw (next_round fuel _ (length pre) s n (encode e) _ head)
          (rw (decode-encode_edit e f.0) (simp (append_assoc, length-append pre fr) at ih)))

-- A manifest file of format version `v`.
unfoldable pub manifest_image : Hashes → ℕ → List VersionEdit → Bytes
manifest_image h v es =
    Header.encode manifest_magic v ++ frames_of h (manifest_checksum (versioned v)) es

module _ (h : Hashes) (v : ℕ) (known : v ≤ manifest_version) where
  headed_kind :
      (rest : Bytes)
      → classify (Header.encode manifest_magic v ++ rest) manifest_magic manifest_version
        ≡ ok (versioned v)
  headed_kind rest =
      classify-encode manifest_magic refl v rest manifest_version (omega arith)
      ∙ (rw (le→ltb manifest_version v known))

  -- What `replay` answers for whole frames and what stands behind them.
  replay_bytes-frames :
      (es : List VersionEdit) (tail : Bytes)
      → All Fits es
      → length (manifest_image h v es ++ tail) < usize_mod
      → next_frame h
          (manifest_checksum (versioned v))
          (manifest_image h v es ++ tail)
          (length (manifest_image h v es))
        ≡ none
      → replay_bytes h (manifest_image h v es ++ tail)
        ≡ checked (manifest_image h v es ++ tail) 8 (apply_all es no_tables, 0 + length es)
  unfolding replay_bytes replay_kind manifest_image frames_start
  replay_bytes-frames es tail f small stop =
      let c = manifest_checksum (versioned v) in
      let front : Bytes = Header.encode manifest_magic v in
      let rest : Bytes = frames_of h c es in
      let l : length front ≡ 8 = length-encode manifest_magic refl v [] in
      let e : (front ++ rest) ++ tail ≡ front ++ (rest ++ tail) = append_assoc front rest tail in
      let r =
        replay_edits-frames_of h c front tail es (suc (length (front ++ (rest ++ tail)))) no_tables
          0 f (subst (λ x. length x < usize_mod) e small)
          (omega (
            arith,
            length-append front (rest ++ tail),
            length-append rest tail,
            length-frames_of h c es,
          ))
          (subst (λ x. next_frame h c x (length (front ++ rest)) ≡ none) e stop) in
      rw e (rw (headed_kind (rest ++ tail)) (rw (rw l at r)))

  -- A manifest of one edit or more, all of which fit, in a version that this build knows replays to
  -- the state that the edits make, whatever stands behind them if no frame verifies there.
  pub replay_bytes-manifest_image :
      (e : VersionEdit) (es : List VersionEdit) (tail : Bytes)
      → All Fits (e ∷ es)
      → length (manifest_image h v (e ∷ es) ++ tail) < usize_mod
      → next_frame h
          (manifest_checksum (versioned v))
          (manifest_image h v (e ∷ es) ++ tail)
          (length (manifest_image h v (e ∷ es)))
        ≡ none
      → replay_bytes h (manifest_image h v (e ∷ es) ++ tail) ≡ ok (apply_all (e ∷ es) no_tables)
  replay_bytes-manifest_image e es tail f small stop =
      replay_bytes-frames (e ∷ es) tail f small stop
      ∙ (rw (eq-false_of_pos (0 + length (e ∷ es)) (omega arith)))

  -- Any proper part of the frame of an edit, behind a manifest of one edit or more, all of which
  -- fit, is dropped: replay answers the state that the edits before it make.
  pub replay_torn_edit :
      (e : VersionEdit) (es : List VersionEdit) (next : VersionEdit) (front back : Bytes) (b : ℕ)
      → All Fits (e ∷ es)
      → length (manifest_image h v (e ∷ es) ++ front) < usize_mod
      → frame h (manifest_checksum (versioned v)) (encode next) ≡ front ++ (b ∷ back)
      → replay_bytes h (manifest_image h v (e ∷ es) ++ front) ≡ ok (apply_all (e ∷ es) no_tables)
  replay_torn_edit e es next front back b f small q =
      replay_bytes-manifest_image e es front f small (
        next_frame_torn h _ (manifest_image h v (e ∷ es)) (encode next) front back b
          (omega (arith, Edits.length-encode next)) small q)

  length_headed : (tail : Bytes) → length (manifest_image h v [] ++ tail) ≡ 8 + length tail
  unfolding manifest_image frames_of
  length_headed tail = rw append-nil (
      omega (
        arith,
        length-append (Header.encode manifest_magic v) tail,
        length-encode manifest_magic refl v [],
      ))

  -- Where one byte or more stands behind the header and no frame verifies there, replay refuses the
  -- manifest.
  pub replay_refuses :
      (tail : Bytes)
      → 0 < length tail
      → length (manifest_image h v [] ++ tail) < usize_mod
      → next_frame h
          (manifest_checksum (versioned v))
          (manifest_image h v [] ++ tail)
          (length (manifest_image h v []))
        ≡ none
      → replay_bytes h (manifest_image h v [] ++ tail)
        ≡ err (corrupt (no_readable_frame (length tail)))
  replay_refuses tail some_bytes small stop =
      let l : length (manifest_image h v [] ++ tail) ≡ 8 + length tail = length_headed tail in
      replay_bytes-frames [] tail tt small stop
      ∙ (rw (lt→ltb 8 (length (manifest_image h v [] ++ tail)) (omega (arith, l)))
          (ap (λ k. err (corrupt (no_readable_frame k))) (omega (arith, l))))

  -- The header and the snapshot edits of a state whose tables are sorted and whose numbers fit, as a
  -- rollover writes them, replay to that state.
  pub replay_bytes-snapshot_edits :
      (s : ManifestState)
      → IsSorted s.live_tables
      → All Fits (snapshot_edits s)
      → length (manifest_image h v (snapshot_edits s)) < usize_mod
      → replay_bytes h (manifest_image h v (snapshot_edits s)) ≡ ok s
  unfolding snapshot_edits
  replay_bytes-snapshot_edits s o f small =
      let es = snapshot_edits s in
      let e = append-nil (manifest_image h v es) in
      subst (λ x. replay_bytes h x ≡ ok (apply_all es no_tables)) e
        (replay_bytes-manifest_image _ _ [] f (subst (λ x. length x < usize_mod) (sym e) small)
          (next_frame_short h _ (manifest_image h v es) [] (omega arith)))
      ∙ ap ok (apply_all-snapshot_edits s o)

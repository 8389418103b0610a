-- ===== src/Manifest/Append.antt =====
-- An append to a manifest that fails in the middle leaves a prefix of its edits.
use lsm_tree_key_value_stora.Prelude.{
  ℕ, zero, suc, ◌%◌, ◌^◌, ◌≤◌, ◌<◌, ◌≡◌, refl, ap, sym, subst, ◌∙◌, List, [], ◌∷◌, ◌++◌, arith,
  length, take, length-append, All, All-append, append_assoc, append-nil, append_split, ltb, ltb→lt,
  Bool-cases, ◌⊎◌, inl, inr,
}
use lsm_tree_key_value_stora.Errors.{Result, ok}
use lsm_tree_key_value_stora.Bytes.{Bytes, to_le}
use lsm_tree_key_value_stora.Record.{usize_mod}
use lsm_tree_key_value_stora.Header.{
  Hashes, Checksum, versioned, manifest_checksum, manifest_version, hash,
}
use lsm_tree_key_value_stora.Frames.{frame}
use lsm_tree_key_value_stora.Frames.Torn.{next_frame_short, next_frame_torn}
use lsm_tree_key_value_stora.Files
use lsm_tree_key_value_stora.Files.{Exec, BufAppend, write, ◌then_do◌}
use lsm_tree_key_value_stora.Files.Laws.{
  Wrote, Clean, unit_cases, untouched-Wrote, write-Wrote, then_do-Wrote, then_do-Clean_last,
  sync-Wrote, sync-Clean,
}
use lsm_tree_key_value_stora.Manifest.{
  VersionEdit, encode, no_tables, write_edits, append_batch, replay_bytes,
}
use lsm_tree_key_value_stora.Manifest.Edits
use lsm_tree_key_value_stora.Manifest.Edits.{Fits, apply_all}
use lsm_tree_key_value_stora.Manifest.Replay.{
  frames_of, manifest_image, replay_bytes-manifest_image,
}

module _ (h : Hashes) (c : Checksum) where
  write_edits-Wrote :
      (es : List VersionEdit) (b : BufAppend) → Wrote b (frames_of h c es) (write_edits h c es b)
  unfolding write_edits frames_of frame
  write_edits-Wrote [] b = untouched-Wrote b
  write_edits-Wrote (e ∷ es) b =
      let crc_bytes : Bytes = to_le 4 (hash h c (encode e)) in
      let len_bytes : Bytes = to_le 4 (length (encode e) % 2 ^ 32) in
      let two =
        then_do-Wrote (write crc_bytes) (write len_bytes) b _ _ (write-Wrote crc_bytes b)
          (write-Wrote len_bytes) in
      let three =
        then_do-Wrote (write crc_bytes then_do write len_bytes) (write (encode e)) b _ _ two
          (write-Wrote (encode e)) in
      let all =
        then_do-Wrote (write crc_bytes then_do write len_bytes then_do write (encode e))
          (write_edits h c es) b _ _ three (write_edits-Wrote es) in
      subst (λ x. Wrote b x (write_edits h c (e ∷ es) b)) (simp append_assoc) all

  append_batch-Wrote :
      (es : List VersionEdit) (b : BufAppend)
      → Wrote b (frames_of h c es ++ []) (append_batch h c es b)
  unfolding append_batch
  append_batch-Wrote es b =
      then_do-Wrote (write_edits h c es) Files.sync b _ _ (write_edits-Wrote es b) sync-Wrote

  append_batch-Clean : (es : List VersionEdit) (b : BufAppend) → Clean (append_batch h c es b)
  unfolding append_batch
  append_batch-Clean es b = then_do-Clean_last (write_edits h c es) Files.sync b sync-Clean

  -- Nothing, or a proper part of a frame.
  abbrev Torn : Bytes → Type 0
  Torn torn =
      (torn ≡ [])
      ⊎ ((e : VersionEdit) × (b : ℕ) × (back : Bytes) × (frame h c (encode e) ≡ torn ++ (b ∷ back)))

  -- A part of the frames is some whole frames and a torn one.
  frames_of_part :
      (es : List VersionEdit) (front back : Bytes)
      → frames_of h c es ≡ front ++ back
      → (n : ℕ) × (torn : Bytes) × (front ≡ frames_of h c (take n es) ++ torn) × Torn torn
  unfolding frames_of
  frames_of_part [] [] back e = (0, [], refl, inl refl)
  frames_of_part [] (x ∷ front) back e = cc
  frames_of_part (e ∷ es) front back q =
      elim (Bool-cases (ltb (length front) (length (frame h c (encode e))))) [
        | inl s ↦
            let l = ltb→lt (length front) (length (frame h c (encode e))) s in
            let (zs, a, _) =
              append_split front back (frame h c (encode e)) (frames_of h c es) (sym q)
                (omega (arith, l)) in
            (0, front, refl, cut zs l a)
        | inr s ↦
            let (zs, a, r) =
              append_split (frame h c (encode e)) (frames_of h c es) front back q (ground arith) in
            let (n, torn, p, t) = frames_of_part es zs back r in
            (
              suc n,
              torn,
              a
                  ∙ ap (λ x. frame h c (encode e) ++ x) p
                  ∙ sym (append_assoc (frame h c (encode e)) (frames_of h c (take n es)) torn),
              t,
            )
      ]
    where
      cut :
          (zs : Bytes)
          → length front < length (frame h c (encode e))
          → frame h c (encode e) ≡ front ++ zs
          → Torn front
      cut [] l a = absurd (omega (arith, l, ap length a, ap length (append-nil front)))
      cut (b ∷ zs) l a = inr (e, b, zs, a)

  frames_of-append :
      (es fs : List VersionEdit) → frames_of h c (es ++ fs) ≡ frames_of h c es ++ frames_of h c fs
  unfolding frames_of
  frames_of-append [] fs = refl
  frames_of-append (e ∷ es) fs =
      ap (λ x. frame h c (encode e) ++ x) (frames_of-append es fs)
      ∙ sym (append_assoc (frame h c (encode e)) (frames_of h c es) (frames_of h c fs))

pub manifest_image-append :
    (h : Hashes) (v : ℕ) (es fs : List VersionEdit)
    → manifest_image h v (es ++ fs)
      ≡ manifest_image h v es ++ frames_of h (manifest_checksum (versioned v)) fs
unfolding manifest_image
manifest_image-append h v es fs =
    rw (frames_of-append h (manifest_checksum (versioned v)) es fs) (simp append_assoc)

All-take : (es : List VersionEdit) (n : ℕ) → All Fits es → All Fits (take n es)
All-take es zero f = tt
All-take [] (suc n) f = tt
All-take (e ∷ es) (suc n) f = (f.0, All-take es n f.1)

All-split : (es fs : List VersionEdit) → All Fits (es ++ fs) → All Fits es × All Fits fs
All-split [] fs f = (tt, f)
All-split (e ∷ es) fs f = let (a, b) = All-split es fs f.1 in ((f.0, a), b)

take-all : (es : List VersionEdit) → take (length es) es ≡ es
take-all [] = refl
take-all (e ∷ es) = ap (λ x. e ∷ x) (take-all es)

module _ (h : Hashes) (v : ℕ) (known : v ≤ manifest_version) (e : VersionEdit)
    (before es : List VersionEdit) (b : BufAppend)
    (stored : b.file.contents ≡ manifest_image h v (e ∷ before)) (drained : b.buf ≡ [])
    (fits : All Fits (e ∷ (before ++ es)))
    (small : length (manifest_image h v (e ∷ (before ++ es))) < usize_mod) where
  abbrev checksum : Checksum
  checksum = manifest_checksum (versioned v)

  abbrev outcome : Result (Unit {0}) × BufAppend
  outcome = append_batch h checksum es b

  -- A manifest whose last frame is torn, or none is.
  replay_part :
      (n : ℕ) (torn : Bytes)
      → length (manifest_image h v (e ∷ (before ++ take n es)) ++ torn) < usize_mod
      → Torn h checksum torn
      → replay_bytes h (manifest_image h v (e ∷ (before ++ take n es)) ++ torn)
        ≡ ok (apply_all (e ∷ (before ++ take n es)) no_tables)
  replay_part n torn l t =
      let parts = All-split before es fits.1 in
      let fits' : All Fits (e ∷ (before ++ take n es)) =
        (fits.0, All-append Fits before (take n es) parts.0 (All-take es n parts.1)) in
      replay_bytes-manifest_image h v known e (before ++ take n es) torn fits' l (elim t [
        | inl q ↦ next_frame_short h checksum _ torn (omega (arith, ap length q))
        | inr (d, x, back, q) ↦
            next_frame_torn h checksum _ (encode d) torn back x
              (omega (arith, Edits.length-encode d)) l q
      ])

  written : Wrote b (frames_of h checksum es ++ []) outcome
  written = append_batch-Wrote h checksum es b

  whole : frames_of h checksum es ≡ written.front ++ written.back
  whole =
      sym (append-nil (frames_of h checksum es))
      ∙ ap (λ x. x ++ (frames_of h checksum es ++ [])) (sym drained)
      ∙ written.whole

  -- From the whole frames among what was written, and the torn one.
  replay_written :
      (n : ℕ) (torn : Bytes)
      → written.front ≡ frames_of h checksum (take n es) ++ torn
      → Torn h checksum torn
      → replay_bytes h outcome.1.file.contents
        ≡ ok (apply_all (e ∷ (before ++ take n es)) no_tables)
  replay_written n torn p t =
      let image : Bytes = manifest_image h v (e ∷ before) in
      let part : Bytes = frames_of h checksum (take n es) in
      let here : image ++ written.front ≡ manifest_image h v (e ∷ (before ++ take n es)) ++ torn =
        ap (λ x. image ++ x) p
        ∙ sym (append_assoc image part torn)
        ∙ ap (λ x. x ++ torn) (sym (manifest_image-append h v (e ∷ before) (take n es))) in
      let l : length (image ++ written.front) < usize_mod = omega (
        arith,
        small,
        ap length (manifest_image-append h v (e ∷ before) es),
        length-append image (frames_of h checksum es),
        length-append image written.front,
        ap length whole,
        length-append written.front written.back,
      ) in
      ap (replay_bytes h) (written.grown ∙ ap (λ x. x ++ written.front) stored ∙ here)
      ∙ replay_part n torn (subst (λ x. length x < usize_mod) here l) t

  -- An append to a manifest of one edit or more that has nothing in its buffer, whatever fails on
  -- the way, leaves a file that replays to the state after the edits before it and the first few of
  -- its own, and after all of them where it succeeds.
  pub append_batch-replay :
      (n : ℕ) × (replay_bytes h outcome.1.file.contents
        ≡ ok (apply_all (e ∷ (before ++ take n es)) no_tables))
      × (outcome.0 ≡ ok tt → take n es ≡ es)
  append_batch-replay = elim (unit_cases outcome.0) [
    | inl q ↦
        let none_back : written.back ≡ [] =
          sym (written.kept q) ∙ append_batch-Clean h checksum es b q in
        let all : written.front ≡ frames_of h checksum (take (length es) es) ++ [] =
          sym (append-nil written.front)
          ∙ ap (λ x. written.front ++ x) (sym none_back)
          ∙ sym whole
          ∙ ap (frames_of h checksum) (sym (take-all es))
          ∙ sym (append-nil (frames_of h checksum (take (length es) es))) in
        (length es, replay_written (length es) [] all (inl refl), λ _. take-all es)
    | inr (x, q) ↦
        let (n, torn, p, t) = frames_of_part h checksum es written.front written.back whole in
        (n, replay_written n torn p t, λ k. cc)
  ]

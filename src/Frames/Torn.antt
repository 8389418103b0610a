-- ===== src/Frames/Torn.antt =====
-- Torn frames: what a crash in the middle of an append leaves, and what is appended behind it.
use lsm_tree_key_value_stora.Prelude.{
  ℕ, ◌+◌, ◌^◌, ◌≤◌, ◌<◌, ◌≡◌, ◌≢◌, refl, ap, sym, ◌∙◌, none, [], ◌∷◌, ◌++◌, arith, length, take,
  drop, ltb, length-append, lt→leb, ltb→lt, append_assoc, append-nil, append_split, ◌⊎◌, Bool-cases,
  inl, inr,
}
use lsm_tree_key_value_stora.Bytes.{Bytes, to_le, length-to_le}
use lsm_tree_key_value_stora.Record.{usize_mod}
use lsm_tree_key_value_stora.Header.{Hashes, Checksum, hash}
use lsm_tree_key_value_stora.Frames.{frame, next_frame}
use lsm_tree_key_value_stora.Frames.Laws.{hash_fits, frame-split, next_frame-headed}

drop_header : (a n : ℕ) (part : Bytes) → drop 8 (to_le 4 a ++ (to_le 4 n ++ part)) ≡ part
unfolding to_le
drop_header a n part = refl

module _ (h : Hashes) (c : Checksum) (pre : Bytes) where
  -- The header of a torn frame is all there: what follows it counts as its payload.
  next_frame_torn_payload :
      (payload part more : Bytes)
      → length payload < 2 ^ 32
      → length (pre ++ (to_le 4 (hash h c payload) ++ (to_le 4 (length payload) ++ (part ++ more))))
        < usize_mod
      → (length (part ++ more) < length payload)
        ⊎ (hash h c (take (length payload) (part ++ more)) ≢ hash h c payload)
      → next_frame h c
          (pre ++ (to_le 4 (hash h c payload) ++ (to_le 4 (length payload) ++ (part ++ more))))
          (length pre)
        ≡ none
  next_frame_torn_payload payload part more fits small bad =
      rw
        (next_frame-headed h c pre (part ++ more) (hash h c payload) (length payload)
          (hash_fits h c payload) fits small)
        (ground arith)

  -- The header of a frame, and the part of the payload that was written.
  torn_parts :
      (payload front back : Bytes) (b : ℕ)
      → length payload < 2 ^ 32
      → 8 ≤ length front
      → frame h c payload ≡ front ++ (b ∷ back)
      → (part : Bytes) × (front ≡ to_le 4 (hash h c payload) ++ (to_le 4 (length payload) ++ part))
        × (payload ≡ part ++ (b ∷ back))
  torn_parts payload front back b fits long e =
      let split : frame h c payload
          ≡ to_le 4 (hash h c payload) ++ (to_le 4 (length payload) ++ payload) =
        simp append-nil at (frame-split h c payload [] fits) in
      let l1 = length-to_le 4 (hash h c payload) in
      let l2 = length-to_le 4 (length payload) in
      let (rest, e1, e2) =
        append_split (to_le 4 (hash h c payload)) (to_le 4 (length payload) ++ payload) front
          (b ∷ back) (sym split ∙ e) (omega (arith, l1)) in
      let (part, e3, e4) =
        append_split (to_le 4 (length payload)) payload rest (b ∷ back) e2
          (omega (arith, l1, l2, ap length e1, length-append (to_le 4 (hash h c payload)) rest)) in
      (part, e1 ∙ ap (λ x. to_le 4 (hash h c payload) ++ x) e3, e4)

  -- No frame starts where less than a frame header is left.
  pub next_frame_short :
      (rest : Bytes) → length rest < 8 → next_frame h c (pre ++ rest) (length pre) ≡ none
  unfolding next_frame
  next_frame_short rest l =
      let gt' : length (pre ++ rest) < length pre + 8 = omega (arith, length-append pre rest) in
      rw (lt→leb _ _ gt')

  -- A frame that was cut short, at any byte, ends the loop.
  pub next_frame_torn :
      (payload front back : Bytes) (b : ℕ)
      → length payload < 2 ^ 32
      → length (pre ++ front) < usize_mod
      → frame h c payload ≡ front ++ (b ∷ back)
      → next_frame h c (pre ++ front) (length pre) ≡ none
  next_frame_torn payload front back b fits small e = elim (Bool-cases (ltb (length front) 8)) [
    | inl s ↦ next_frame_short front (ltb→lt _ _ s)
    | inr s ↦
        let (part, e1, e2) = torn_parts payload front back b fits (ground (arith, s)) e in
        let e1' : front ≡ to_le 4 (hash h c payload) ++ (to_le 4 (length payload) ++ (part ++ [])) =
          e1 ∙ simp append-nil in
        rw e1' (
          next_frame_torn_payload payload part [] fits (rw e1' at small) (
            inl
              (omega (arith, ap length e2, length-append part (b ∷ back), length-append part []))))
  ]

  -- What is written behind a torn frame is not read: its bytes are taken for the rest of the torn
  -- payload, and end the loop if they are too few or do not verify.
  pub next_frame_behind_torn :
      (payload front back more : Bytes) (b : ℕ)
      → length payload < 2 ^ 32
      → 8 ≤ length front
      → length (pre ++ (front ++ more)) < usize_mod
      → frame h c payload ≡ front ++ (b ∷ back)
      → hash h c (take (length payload) (drop 8 front ++ more)) ≢ hash h c payload
      → next_frame h c (pre ++ (front ++ more)) (length pre) ≡ none
  next_frame_behind_torn payload front back more b fits long small e bad =
      let (part, e1, e2) = torn_parts payload front back b fits long e in
      let e3 : front ++ more
          ≡ to_le 4 (hash h c payload) ++ (to_le 4 (length payload) ++ (part ++ more)) =
        ap (λ x. x ++ more) e1 ∙ simp append_assoc in
      let d : drop 8 front ≡ part =
        ap (drop 8) e1 ∙ drop_header (hash h c payload) (length payload) part in
      rw e3 (next_frame_torn_payload payload part more fits (rw e3 at small) (inr (rw d at bad)))

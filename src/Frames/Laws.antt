-- ===== src/Frames/Laws.antt =====
-- What the replay loop makes of a whole frame, of a frame that was cut short, and of one whose
-- payload does not verify.
use lsm_tree_key_value_stora.Prelude.{
  ℕ, ◌+◌, ◌-◌, ◌%◌, ◌^◌, ◌≤◌, ◌<◌, ◌≡◌, refl, ap, Bool, ◌&&◌, true, false, none, some, ◌++◌, arith,
  length, take, leb, ◌==◌, length-append, drop-length, take-length, lt→ltb, le→leb, leb→le, lt→leb,
  append_assoc, ==_refl, Bool-cases, inl, inr, if◌then◌else◌,
}
use lsm_tree_key_value_stora.Bytes.{
  Bytes, to_le, from_le, slice, slice_part, length-to_le, from_le-to_le,
}
use lsm_tree_key_value_stora.Record.{usize_mod}
use lsm_tree_key_value_stora.Header.{Hashes, Checksum, hash}
use lsm_tree_key_value_stora.Frames.{frame, next_frame}

and_false : (b : Bool) → (b && false) ≡ false
and_false true = refl
and_false false = refl

pub hash_fits : (h : Hashes) (c : Checksum) (b : Bytes) → hash h c b < 2 ^ 32
unfolding hash
hash_fits h Checksum.iso_hdlc b = h.iso_hdlc_fits b
hash_fits h Checksum.castagnoli b = h.castagnoli_fits b

pub length-frame :
    (h : Hashes) (c : Checksum) (payload : Bytes) → length (frame h c payload) ≡ 8 + length payload
unfolding frame
length-frame h c payload = omega (
  arith,
  length-append (to_le 4 (hash h c payload)) (to_le 4 (length payload % 2 ^ 32) ++ payload),
  length-append (to_le 4 (length payload % 2 ^ 32)) payload,
  length-to_le 4 (hash h c payload),
  length-to_le 4 (length payload % 2 ^ 32),
)

-- The two header fields that stand at `pos`, with whatever follows them.
module _ (h : Hashes) (c : Checksum) (pre rest : Bytes) (crc len : ℕ) where
  abbrev pub headed : Bytes
  headed = pre ++ (to_le 4 crc ++ (to_le 4 len ++ rest))

  length-headed : length headed ≡ length pre + 8 + length rest
  length-headed = omega (
    arith,
    length-append pre (to_le 4 crc ++ (to_le 4 len ++ rest)),
    length-append (to_le 4 crc) (to_le 4 len ++ rest),
    length-append (to_le 4 len) rest,
    length-to_le 4 crc,
    length-to_le 4 len,
  )

  crc_at : crc < 2 ^ 32 → from_le (slice headed (length pre) (length pre + 4)) ≡ crc
  crc_at f =
      rw
        (slice_part pre (to_le 4 crc) (to_le 4 len ++ rest) (length pre) (length pre + 4) refl
          (omega (arith, length-to_le 4 crc)))
        (from_le-to_le 4 crc f)

  len_at : len < 2 ^ 32 → from_le (slice headed (length pre + 4) (length pre + 8)) ≡ len
  len_at f = rw (← append_assoc pre (to_le 4 crc) (to_le 4 len ++ rest)) (
      rw
        (slice_part (pre ++ to_le 4 crc) (to_le 4 len) rest (length pre + 4) (length pre + 8)
          (omega (arith, l)) (omega (arith, l, length-to_le 4 len)))
        (from_le-to_le 4 len f))
    where
      l : length (pre ++ to_le 4 crc) ≡ length pre + 4
      l = omega (arith, length-append pre (to_le 4 crc), length-to_le 4 crc)

  payload_at :
      len ≤ length rest → slice headed (length pre + 8) (length pre + 8 + len) ≡ take len rest
  unfolding slice
  payload_at f =
      let e : length pre + 8 + len - (length pre + 8) ≡ len = omega arith in
      let d : headed ≡ (pre ++ (to_le 4 crc ++ to_le 4 len)) ++ rest = simp append_assoc in
      rw (e, d, ← l, drop-length (pre ++ (to_le 4 crc ++ to_le 4 len)) rest)
    where
      l : length (pre ++ (to_le 4 crc ++ to_le 4 len)) ≡ length pre + 8
      l = omega (
        arith,
        length-append pre (to_le 4 crc ++ to_le 4 len),
        length-append (to_le 4 crc) (to_le 4 len),
        length-to_le 4 crc,
        length-to_le 4 len,
      )

  -- At a frame's header the loop takes `len` bytes if they are there, and checks them.
  pub next_frame-headed :
      crc < 2 ^ 32
      → len < 2 ^ 32
      → length headed < usize_mod
      → next_frame h c headed (length pre) ≡ (
          if leb len (length rest)
          then (if hash h c (take len rest) == crc
              then some (take len rest, length pre + 8 + len)
              else none)
          else none)
  unfolding next_frame
  next_frame-headed fc fl small =
      let inside : length pre + 8 ≤ length headed = omega (arith, length-headed) in
      rw (le→leb _ _ inside, crc_at fc, len_at fl)
        (elim (Bool-cases (leb len (length rest))) [
          | inl f ↦
              let le : len ≤ length rest = leb→le _ _ f in
              let le' : length pre + 8 + len ≤ length headed = omega (arith, length-headed, le) in
              rw (
                f,
                le→leb _ _ le',
                lt→ltb (length pre + 8 + len) usize_mod (omega (arith, le', small)),
                payload_at le,
              )
          | inr f ↦
              let gt' : length headed < length pre + 8 + len = ground (arith, length-headed, f) in
              rw (f, lt→leb _ _ gt') (rw and_false refl)
        ])

module _ (h : Hashes) (c : Checksum) where
  pub frame-split :
      (payload post : Bytes)
      → length payload < 2 ^ 32
      → frame h c payload ++ post
        ≡ to_le 4 (hash h c payload) ++ (to_le 4 (length payload) ++ (payload ++ post))
  unfolding frame
  frame-split payload post fits =
      let e : length payload % 2 ^ 32 ≡ length payload = omega arith in rw e (simp append_assoc)

module _ (h : Hashes) (c : Checksum) (pre : Bytes) where
  -- A whole frame is taken, and the loop goes on behind it.
  pub next_frame-frame :
      (payload post : Bytes)
      → length payload < 2 ^ 32
      → length (pre ++ (frame h c payload ++ post)) < usize_mod
      → next_frame h c (pre ++ (frame h c payload ++ post)) (length pre)
        ≡ some (payload, length pre + length (frame h c payload))
  next_frame-frame payload post fits small =
      rw (length-frame, frame-split h c payload post fits)
        (rw
          (next_frame-headed h c pre (payload ++ post) (hash h c payload) (length payload)
            (hash_fits h c payload) fits (rw (frame-split h c payload post fits) at small))
          (rw
            (
              le→leb (length payload) (length (payload ++ post))
                  (omega (arith, length-append payload post)),
              take-length payload post,
              ==_refl (hash h c payload),
            )
            (ap (λ k. some (payload, k)) (omega arith))))

-- A frame that is taken lies inside the buffer, and the loop moves past its header at least.
pub next_frame_bounds :
    (h : Hashes) (c : Checksum) (bytes : Bytes) (pos : ℕ) (payload : Bytes) (end : ℕ)
    → next_frame h c bytes pos ≡ some (payload, end)
    → (pos + 8 ≤ end) × (end ≤ length bytes)
unfolding next_frame
next_frame_bounds h c bytes pos payload end e = ground arith

-- ===== src/SsTable/Reading.antt =====
-- Reading back the parts of a table's file: the footer, the index and the blocks.
use lsm_tree_key_value_stora.Prelude.{
  ℕ, zero, suc, ◌+◌, ◌%◌, ◌^◌, ◌≤◌, ◌<◌, ◌≡◌, refl, ap, ◌∙◌, List, [], ◌∷◌, ◌++◌, arith, length,
  All, append_assoc, length-append, lt→ltb, le→leb, le→ltb,
}
use lsm_tree_key_value_stora.Order.{bytes_ord, key_eq_refl}
use lsm_tree_key_value_stora.Errors.{ok}
use lsm_tree_key_value_stora.Bytes.{Bytes, to_le, from_le, slice, from_le-to_le, length-to_le}
use lsm_tree_key_value_stora.Record.{Record, Reader, encode, encoded_len, usize_mod}
use lsm_tree_key_value_stora.Record.RoundTrip.{
  Fits, At, At-append, At-advance, At-le, slice-At, decode_at-encode, length-encode,
}
use lsm_tree_key_value_stora.Wal.Decode.{encodings}
use lsm_tree_key_value_stora.SsTable.{Entry, magic, format_version}
use lsm_tree_key_value_stora.SsTable.Reader.{
  Footer, ReadFile, read_bytes, read_u32, read_u64, read_entry, read_index, parse_footer,
  decode_all,
}
use lsm_tree_key_value_stora.SsTable.Image.{index_bytes, footer_bytes}

-- An open file that can be read: its size, and every range inside it.
pub record Reads (bytes : Bytes) (file : ReadFile) : Type 0 where
  pub size_known : file.size ≡ ok (length bytes)
  pub readable :
      (offset n : ℕ)
      → offset + n ≤ length bytes
      → file.read_exact_at offset n ≡ ok (slice bytes offset (offset + n))

-- The read of a part at a known place.
pub read_part :
    (bytes pre mid post : Bytes) (file : ReadFile) (offset n : ℕ)
    → Reads bytes file
    → length bytes < usize_mod
    → bytes ≡ pre ++ (mid ++ post)
    → offset ≡ length pre
    → n ≡ length mid
    → file.read_exact_at offset n ≡ ok mid
read_part bytes pre mid post file offset n reads small e eo en =
    let l1 = length-append pre (mid ++ post) in
    let l2 = length-append mid post in
    let h : At (record { buf = pre ++ (mid ++ post); pos = length pre }) (mid ++ post) =
      At-append pre (mid ++ post) (omega (arith, ap length e)) in
    reads.readable offset n (omega (arith, ap length e))
    ∙ ap ok (rw (e, eo, en) (slice-At _ mid post h))

abbrev cursor : Bytes → ℕ → Reader
cursor buf pos = record { buf = buf; pos = pos }

module _ (buf : Bytes) (pos : ℕ) (post : Bytes) where
  read_bytes-At :
      (mid : Bytes)
      → At (cursor buf pos) (mid ++ post)
      → read_bytes buf pos (length mid) ≡ ok (mid, pos + length mid)
  unfolding read_bytes
  read_bytes-At mid h =
      let l = length-append mid post in
      let below : pos + length mid ≤ length buf = omega (arith, h.inside, l) in
      let small : pos + length mid < usize_mod = omega (arith, h.small, below) in
      rw (lt→ltb _ _ small, le→leb _ _ below, slice-At (cursor buf pos) mid post h)

  read_u32-At :
      (n : ℕ)
      → n < 2 ^ 32
      → At (cursor buf pos) (to_le 4 n ++ post)
      → read_u32 buf pos ≡ ok (n, pos + 4)
  unfolding read_u32
  read_u32-At n f h =
      rw (rw length-to_le at (read_bytes-At (to_le 4 n) h)) (rw (from_le-to_le 4 n f))

  read_u64-At :
      (n : ℕ)
      → n < 2 ^ 64
      → At (cursor buf pos) (to_le 8 n ++ post)
      → read_u64 buf pos ≡ ok (n, pos + 8)
  unfolding read_u64
  read_u64-At n f h =
      rw (rw length-to_le at (read_bytes-At (to_le 8 n) h)) (rw (from_le-to_le 8 n f))

-- The integers of an element of the index fit their fields.
pub record EntryFits (e : Entry) : Type 0 where
  pub key_fits : length e.first_key < 2 ^ 32
  pub offset_fits : e.block_offset < 2 ^ 64
  pub len_fits : e.comp_len < 2 ^ 32

abbrev behind : ℕ → Entry → ℕ
behind pos e = pos + 4 + length e.first_key + 8 + 4

read_entry-At :
    (buf : Bytes) (pos : ℕ) (e : Entry) (es : List Entry)
    → EntryFits e
    → At (cursor buf pos) (index_bytes (e ∷ es))
    → (read_entry buf pos ≡ ok (e, behind pos e)) × At (cursor buf (behind pos e)) (index_bytes es)
unfolding read_entry index_bytes
read_entry-At buf pos e es f h =
    let kl : length e.first_key % 2 ^ 32 ≡ length e.first_key = omega (arith, f.key_fits) in
    let h0 = rw kl at h in
    let h1 = At-le (cursor buf pos) _ 4 (length e.first_key) h0 in
    let h2 = At-advance _ e.first_key _ h1 in
    let h3 = At-le _ _ 8 e.block_offset h2 in
    let h4 = At-le _ _ 4 e.comp_len h3 in
    (
      rw (read_u32-At buf pos _ (length e.first_key) f.key_fits h0) (
          rw (read_bytes-At buf (pos + 4) _ e.first_key h1) (
            rw (read_u64-At buf (pos + 4 + length e.first_key) _ e.block_offset f.offset_fits h2) (
              rw (read_u32-At buf (pos + 4 + length e.first_key + 8) _ e.comp_len f.len_fits h3)))),
      h4,
    )

-- The index reads back.
pub read_index-At :
    (buf : Bytes) (pos : ℕ) (es : List Entry)
    → All EntryFits es
    → At (cursor buf pos) (index_bytes es)
    → read_index buf pos (length es) ≡ ok es
unfolding read_index
read_index-At buf pos [] f h = refl
read_index-At buf pos (e ∷ es) f h =
    let (r, h') = read_entry-At buf pos e es f.0 h in
    rw r (rw (read_index-At buf (behind pos e) es f.1 h'))

pub record FooterFits (f : Footer) : Type 0 where
  pub index_offset_fits : f.index_offset < 2 ^ 64
  pub index_entries_fit : f.index_entries < 2 ^ 32
  pub bloom_offset_fits : f.bloom_offset < 2 ^ 64
  pub bloom_len_fits : f.bloom_len < 2 ^ 64
  pub record_count_fits : f.record_count < 2 ^ 64

field-At :
    (r : Reader) (w n : ℕ) (post : Bytes)
    → n < 256 ^ w
    → At r (to_le w n ++ post)
    → from_le (slice r.buf r.pos (r.pos + w)) ≡ n
field-At r w n post f h =
    ap from_le (rw length-to_le at (slice-At r (to_le w n) post h)) ∙ from_le-to_le w n f

pub length-footer_bytes : (f : Footer) → length (footer_bytes f) ≡ 44
unfolding footer_bytes
length-footer_bytes f = simp (length-append, length-to_le)

-- The footer reads back.
pub parse_footer-footer_bytes : (f : Footer) → FooterFits f → parse_footer (footer_bytes f) ≡ ok f
unfolding parse_footer footer_bytes
parse_footer-footer_bytes f k =
    let l = length-footer_bytes f in
    let h0 : At (cursor (footer_bytes f) 0) (footer_bytes f) =
      At-append [] (footer_bytes f) (omega (arith, l)) in
    let h1 = At-le _ _ 8 f.index_offset h0 in
    let h2 = At-le _ _ 4 f.index_entries h1 in
    let h3 = At-le _ _ 8 f.bloom_offset h2 in
    let h4 = At-le _ _ 8 f.bloom_len h3 in
    let h5 = At-le _ _ 8 f.record_count h4 in
    let h6 = At-le _ _ 4 format_version h5 in
    rw (
      slice-At _ magic [] h6,
      field-At _ 8 f.index_offset _ k.index_offset_fits h0,
      field-At _ 4 f.index_entries _ k.index_entries_fit h1,
      field-At _ 8 f.bloom_offset _ k.bloom_offset_fits h2,
      field-At _ 8 f.bloom_len _ k.bloom_len_fits h3,
      field-At _ 8 f.record_count _ k.record_count_fits h4,
      key_eq_refl magic,
    )

encode_pos : (r : Record) → 0 < length (encode r)
unfolding encoded_len
encode_pos r = omega (arith, length-encode r)

-- The records of a block read back, on fuel as long as the block.
pub decode_all-encodings :
    (fuel : ℕ) (pre : Bytes) (rs : List Record)
    → All Fits rs
    → length rs ≤ fuel
    → length (pre ++ encodings rs) < usize_mod
    → decode_all fuel (pre ++ encodings rs) (length pre) ≡ ok rs
unfolding decode_all encodings
decode_all-encodings zero pre [] f l small = refl
decode_all-encodings zero pre (r ∷ rs) f l small = absurd (omega arith)
decode_all-encodings (suc fuel) pre [] f l small =
    rw (le→ltb (length pre) (length (pre ++ [])) (omega (arith, length-append pre [])))
decode_all-encodings (suc fuel) pre (r ∷ rs) f l small =
    let some_bytes : length pre < length (pre ++ (encode r ++ encodings rs)) = omega (
      arith,
      length-append pre (encode r ++ encodings rs),
      length-append (encode r) (encodings rs),
      encode_pos r,
    ) in
    let next =
      decode_all-encodings fuel (pre ++ encode r) rs f.1 (omega arith) (rw append_assoc small) in
    rw (lt→ltb _ _ some_bytes, decode_at-encode pre (encodings rs) r f.0 small)
      (rw
        (
          ← length-encode r,
          ← length-append pre (encode r),
          ← append_assoc pre (encode r) (encodings rs),
        )
        (rw next refl))

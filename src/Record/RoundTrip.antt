-- ===== src/Record/RoundTrip.antt =====
-- Reading back what `encode` wrote, at any position of a larger buffer.
use lsm_tree_key_value_stora.Prelude.{
  ℕ, ◌+◌, ◌-◌, ◌%◌, ◌^◌, ◌≤◌, ◌<◌, ◌≡◌, refl, ap, subst, ◌∙◌, Option, none, some, [], ◌∷◌, ◌++◌,
  arith, length, drop, length-append, drop-add, lt→ltb, le→leb, drop-length, take-length,
  append_assoc,
}
use lsm_tree_key_value_stora.Errors.{ok}
use lsm_tree_key_value_stora.Bytes.{Bytes, to_le, slice, length-to_le, from_le-to_le}
use lsm_tree_key_value_stora.Record.{
  Record, Reader, encode, encoded_len, value_len, kind, encode_value, usize_mod, bytes, u8, u32,
  u64, value_of_kind, decode, decode_at,
}

-- The record's integers fit their fields on disk.
pub record Fits (r : Record) : Type 0 where
  pub seq_fits : r.seq < 2 ^ 64
  pub key_fits : length r.key < 2 ^ 32
  pub value_fits : value_len r.value < 2 ^ 32

-- What the cursor has yet to read is `rest`.
pub record At (r : Reader) (rest : Bytes) : Type 0 where
  pub unread : drop r.pos r.buf ≡ rest
  pub inside : r.pos + length rest ≡ length r.buf
  pub small : length r.buf < usize_mod

abbrev pub advance : Reader → ℕ → Reader
advance r n = record r { pos = r.pos + n }

pub slice-At :
    (r : Reader) (mid post : Bytes)
    → At r (mid ++ post)
    → slice r.buf r.pos (r.pos + length mid) ≡ mid
unfolding slice
slice-At r mid post h =
    let e : r.pos + length mid - r.pos ≡ length mid = omega arith in
    rw (e, h.unread) (take-length mid post)

-- `bytes` returns the part that stands at the cursor, and moves past it.
pub bytes-At :
    (r : Reader) (mid post : Bytes)
    → At r (mid ++ post)
    → bytes r (length mid) ≡ ok (mid, advance r (length mid))
unfolding bytes
bytes-At r mid post h =
    let l = length-append mid post in
    let below : r.pos + length mid ≤ length r.buf = omega (arith, h.inside, l) in
    let small : r.pos + length mid < usize_mod = omega (arith, h.small, below) in
    rw (lt→ltb _ _ small, le→leb _ _ below, slice-At r mid post h)

pub At-advance :
    (r : Reader) (mid post : Bytes) → At r (mid ++ post) → At (advance r (length mid)) post
At-advance r mid post h = record {
  unread =
      drop-add r.pos (length mid) r.buf ∙ ap (drop (length mid)) h.unread ∙ drop-length mid post;
  inside = omega (arith, h.inside, length-append mid post);
  small = h.small;
}

module _ (r : Reader) (post : Bytes) where
  u8-At : (b : ℕ) → At r (b ∷ post) → u8 r ≡ ok (b, advance r 1)
  unfolding u8
  u8-At b h = rw (bytes-At r (b ∷ []) post h)

  At-u8 : (b : ℕ) → At r (b ∷ post) → At (advance r 1) post
  At-u8 b h = At-advance r (b ∷ []) post h

  pub At-le : (w n : ℕ) → At r (to_le w n ++ post) → At (advance r w) post
  At-le w n h = rw length-to_le at (At-advance r (to_le w n) post h)

  bytes-le : (w n : ℕ) → At r (to_le w n ++ post) → bytes r w ≡ ok (to_le w n, advance r w)
  bytes-le w n h = rw length-to_le at (bytes-At r (to_le w n) post h)

  u32-At : (n : ℕ) → n < 2 ^ 32 → At r (to_le 4 n ++ post) → u32 r ≡ ok (n, advance r 4)
  unfolding u32
  u32-At n small h = rw (bytes-le 4 n h) (rw (from_le-to_le 4 n small))

  u64-At : (n : ℕ) → n < 2 ^ 64 → At r (to_le 8 n ++ post) → u64 r ≡ ok (n, advance r 8)
  unfolding u64
  u64-At n small h = rw (bytes-le 8 n h) (rw (from_le-to_le 8 n small))

length-encode_value : (v : Option Bytes) → length (encode_value v) ≡ 4 + value_len v
length-encode_value none = length-to_le 4 0
length-encode_value (some v) =
    length-append (to_le 4 (length v % 2 ^ 32)) v
    ∙ ap (λ k. k + length v) (length-to_le 4 (length v % 2 ^ 32))

pub length-encode : (r : Record) → length (encode r) ≡ encoded_len r
unfolding encode encoded_len
length-encode r = omega (
  arith,
  length-append (to_le 8 r.seq)
      (kind r.value ∷ (to_le 4 (length r.key % 2 ^ 32) ++ (r.key ++ encode_value r.value))),
  length-append (to_le 4 (length r.key % 2 ^ 32)) (r.key ++ encode_value r.value),
  length-append r.key (encode_value r.value),
  length-to_le 8 r.seq,
  length-to_le 4 (length r.key % 2 ^ 32),
  length-encode_value r.value,
)

-- The bytes that stand for a value: a tombstone has none.
abbrev raw_value : Option Bytes → Bytes
raw_value none = []
raw_value (some v) = v

value_of_kind-raw_value : (v : Option Bytes) → value_of_kind (kind v) (raw_value v) ≡ ok v
unfolding value_of_kind
value_of_kind-raw_value none = refl
value_of_kind-raw_value (some v) = refl

-- The length field and the bytes behind it, as `to_le` and the rest.
length-raw_value : (v : Option Bytes) → length (raw_value v) ≡ value_len v
length-raw_value none = refl
length-raw_value (some v) = refl

encode_value-split :
    (v : Option Bytes) (post : Bytes)
    → value_len v < 2 ^ 32
    → encode_value v ++ post ≡ to_le 4 (value_len v) ++ (raw_value v ++ post)
encode_value-split none post h = refl
encode_value-split (some v) post h =
    let e : length v % 2 ^ 32 ≡ length v = omega arith in rw (e, append_assoc)

-- The encoding, bracketed to the right in front of what follows it.
encode-split :
    (r : Record) (post : Bytes)
    → Fits r
    → encode r ++ post
      ≡ to_le 8 r.seq
        ++ (kind r.value
            ∷ (to_le 4 (length r.key)
                ++ (r.key ++ (to_le 4 (value_len r.value) ++ (raw_value r.value ++ post)))))
unfolding encode
encode-split r post f =
    let e : length r.key % 2 ^ 32 ≡ length r.key = omega (arith, f.key_fits) in
    rw e (simp append_assoc (rw (encode_value-split r.value post f.value_fits)))

module _ (rd : Reader) (r : Record) (post : Bytes) (f : Fits r) (h : At rd (encode r ++ post)) where
  abbrev After : ℕ → Bytes → Type 0
  After n rest = At (advance rd n) rest

  At-seq : At rd (
      to_le 8 r.seq
      ++ (kind r.value
          ∷ (to_le 4 (length r.key)
              ++ (r.key ++ (to_le 4 (value_len r.value) ++ (raw_value r.value ++ post))))))
  At-seq = subst (At rd) (encode-split r post f) h

  At-kind : At (advance rd 8) (
      kind r.value
      ∷ (to_le 4 (length r.key)
          ++ (r.key ++ (to_le 4 (value_len r.value) ++ (raw_value r.value ++ post)))))
  At-kind = At-le rd _ 8 r.seq At-seq

  At-key_len : At (advance (advance rd 8) 1) (
      to_le 4 (length r.key)
      ++ (r.key ++ (to_le 4 (value_len r.value) ++ (raw_value r.value ++ post))))
  At-key_len = At-u8 (advance rd 8) _ (kind r.value) At-kind

  At-key :
      At
        (advance (advance (advance rd 8) 1) 4)
        (r.key ++ (to_le 4 (value_len r.value) ++ (raw_value r.value ++ post)))
  At-key = At-le _ _ 4 (length r.key) At-key_len

  At-value_len :
      At
        (advance (advance (advance (advance rd 8) 1) 4) (length r.key))
        (to_le 4 (value_len r.value) ++ (raw_value r.value ++ post))
  At-value_len = At-advance _ r.key _ At-key

  At-value :
      At
        (advance (advance (advance (advance (advance rd 8) 1) 4) (length r.key)) 4)
        (raw_value r.value ++ post)
  At-value = At-le _ _ 4 (value_len r.value) At-value_len

  read_value :
      bytes
        (advance (advance (advance (advance (advance rd 8) 1) 4) (length r.key)) 4)
        (value_len r.value)
      ≡ ok (
        raw_value r.value,
        advance
            (advance (advance (advance (advance (advance rd 8) 1) 4) (length r.key)) 4)
            (value_len r.value),
      )
  read_value = rw length-raw_value at (bytes-At _ (raw_value r.value) post At-value)

  -- Decoding the encoding gives the record back, and moves the cursor just past it.
  pub decode-encode : decode rd ≡ ok (r, advance rd (encoded_len r))
  unfolding decode encoded_len
  decode-encode = rw (u64-At rd _ r.seq f.seq_fits At-seq) (
      rw (u8-At _ _ (kind r.value) At-kind) (
        rw (u32-At _ _ (length r.key) f.key_fits At-key_len) (
          rw (bytes-At _ r.key _ At-key) (
            rw (u32-At _ _ (value_len r.value) f.value_fits At-value_len) (
              rw read_value (
                rw value_of_kind-raw_value
                  (ap (λ p. ok (r, record rd { pos = p })) (omega arith))))))))

pub At-append :
    (pre rest : Bytes)
    → length (pre ++ rest) < usize_mod
    → At (record { buf = pre ++ rest; pos = length pre }) rest
At-append pre rest h = record {
  unread = drop-length pre rest;
  inside = omega (arith, length-append pre rest);
  small = h;
}

-- A record whose integers fit their fields reads back from any position of a buffer that can be
-- addressed, whatever stands before and behind it, and the position moves by `encoded_len`.
pub decode_at-encode :
    (pre post : Bytes) (r : Record)
    → Fits r
    → length (pre ++ (encode r ++ post)) < usize_mod
    → decode_at (pre ++ (encode r ++ post)) (length pre) ≡ ok (r, length pre + encoded_len r)
unfolding decode_at
decode_at-encode pre post r f h = rw (
    decode-encode (record { buf = pre ++ (encode r ++ post); pos = length pre }) r post f
      (At-append pre (encode r ++ post) h))

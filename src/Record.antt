-- ===== src/Record.antt =====
-- src/record.rs: one versioned mutation, its payload encoding
-- `[seq:8][type:1][key_len:4][key][val_len:4][val]`, and the bounds-checked cursor that reads it.
pub mod RoundTrip
pub mod Prefix
pub mod Examples
use lsm_tree_key_value_stora.Prelude.{
  ℕ, ◌+◌, ◌%◌, ◌^◌, ◌<◌, ◌&&◌, Option, none, some, List, [], ◌∷◌, ◌++◌, length, ltb, leb,
  if◌then◌else◌, get_elem?, ◌==◌,
}
use lsm_tree_key_value_stora.Errors.{
  Error, Result, ok, err, corrupt, record_truncated, bad_record_type, ◌>>=◌,
}
use lsm_tree_key_value_stora.Bytes.{Bytes, to_le, from_le, slice}

-- `value == None` is a tombstone.
pub record Record : Type 0 where
  pub key : Bytes
  pub value : Option Bytes
  pub seq : ℕ

unfoldable pub put : Bytes → Bytes → ℕ → Record
put key value seq = record { key = key; value = some value; seq = seq }

unfoldable pub tombstone : Bytes → ℕ → Record
tombstone key seq = record { key = key; value = none; seq = seq }

abbrev pub value_len : Option Bytes → ℕ
value_len none = 0
value_len (some v) = length v

unfoldable pub encoded_len : Record → ℕ
encoded_len r = 8 + 1 + 4 + length r.key + 4 + value_len r.value

abbrev pub kind : Option Bytes → ℕ
kind (some v) = 0
kind none = 1

-- `[val_len:4][val]`; the length is cast by `as u32`.
abbrev pub encode_value : Option Bytes → Bytes
encode_value (some v) = to_le 4 (length v % 2 ^ 32) ++ v
encode_value none = to_le 4 0

unfoldable pub encode : Record → Bytes
encode r =
    to_le 8 r.seq
    ++ (kind r.value ∷ (to_le 4 (length r.key % 2 ^ 32) ++ (r.key ++ encode_value r.value)))

-- Appends to `buf`.
unfoldable pub encode_into : Record → Bytes → Bytes
encode_into r buf = buf ++ encode r

-- `struct Reader`
pub record Reader : Type 0 where
  pub buf : Bytes
  pub pos : ℕ

abbrev pub usize_mod : ℕ
usize_mod = 2 ^ 64

-- `checked_add` answers `None` past `usize::MAX`, and so does the filter past the buffer's end.
unfoldable pub bytes : Reader → ℕ → Result (Bytes × Reader)
bytes r n =
    let end = r.pos + n in
    if ltb end usize_mod && leb end (length r.buf)
    then ok (slice r.buf r.pos end, record r { pos = end })
    else err (corrupt record_truncated)

-- `out[0]` of a slice of one byte
abbrev pub first_byte : Bytes → ℕ
first_byte [] = 0
first_byte (b ∷ bs) = b

unfoldable pub u8 : Reader → Result (ℕ × Reader)
u8 r = bytes r 1 >>= λ p. ok (first_byte p.0, p.1)

unfoldable pub u32 : Reader → Result (ℕ × Reader)
u32 r = bytes r 4 >>= λ p. ok (from_le p.0, p.1)

unfoldable pub u64 : Reader → Result (ℕ × Reader)
u64 r = bytes r 8 >>= λ p. ok (from_le p.0, p.1)

-- `match kind { 0 => Some(val), 1 => None, other => Err(..) }`
unfoldable pub value_of_kind : ℕ → Bytes → Result (Option Bytes)
value_of_kind k val =
    if k == 0 then ok (some val) else if k == 1 then ok none else err (corrupt (bad_record_type k))

-- The fields in order, on a cursor of their own.
unfoldable pub decode : Reader → Result (Record × Reader)
decode r = u64 r >>= λ s. u8 s.1 >>= λ k. u32 k.1 >>= λ kl. bytes kl.1 kl.0 >>= λ key.
    u32 key.1 >>= λ vl. bytes vl.1 vl.0 >>= λ val.
    value_of_kind k.0 val.0 >>= λ v. ok (record { key = key.0; value = v; seq = s.0 }, val.1)

-- The record at `buf[pos..]` and the advanced `pos`, which is written back on success only.
unfoldable pub decode_at : Bytes → ℕ → Result (Record × ℕ)
decode_at buf pos = decode (record { buf = buf; pos = pos }) >>= λ p. ok (p.0, p.1.pos)

-- ===== src/Bloom.antt =====
-- src/bloom.rs: the filter that tells which keys an SSTable cannot hold. The hash is
-- `xxh3_64_with_seed` of a crate, the parameter `SeededHash`; the floating-point sizing of `new` is
-- an argument, the number of bits and of probes.
pub mod Laws
pub mod Examples
use lsm_tree_key_value_stora.Prelude.{
  ℕ, zero, suc, ◌+◌, ◌*◌, ◌/◌, ◌%◌, ◌^◌, Bool, true, false, ◌||◌, ◌&&◌, List, [], ◌∷◌, ◌++◌, length,
  drop, ltb, ◌==◌, if◌then◌else◌, not,
}
use lsm_tree_key_value_stora.Errors.{
  Result, ok, err, corrupt, bloom_truncated, bloom_length_mismatch, bloom_zero_parameters,
}
use lsm_tree_key_value_stora.Bytes.{Bytes, to_le, from_le, slice}

abbrev pub SeededHash : Type 0
SeededHash = Bytes → ℕ → ℕ

pub record BloomFilter : Type 0 where
  pub bits : Bytes
  pub bit_count : ℕ
  pub k : ℕ

-- `bit_count.div_ceil(8)`
abbrev pub byte_len : ℕ → ℕ
byte_len bit_count = (bit_count + 7) / 8

-- `vec![0u8; n]`
abbrev pub zeros : ℕ → Bytes
zeros zero = []
zeros (suc n) = 0 ∷ zeros n

-- `new`, from the results of its floating-point sizing.
unfoldable pub new : ℕ → ℕ → BloomFilter
new bit_count k = record { bits = zeros (byte_len bit_count); bit_count = bit_count; k = k }

-- `byte & (1 << j) != 0`, digit by digit
unfoldable pub has_bit : ℕ → ℕ → Bool
has_bit zero byte = byte % 2 == 1
has_bit (suc j) byte = has_bit j (byte / 2)

-- `byte | (1 << j)`
unfoldable pub with_bit : ℕ → ℕ → ℕ
with_bit zero byte = if byte % 2 == 1 then byte else byte + 1
with_bit (suc j) byte = byte % 2 + 2 * with_bit j (byte / 2)

-- `bits[i] |= 1 << j`
unfoldable pub set_bit : ℕ → ℕ → Bytes → Bytes
set_bit i j [] = []
set_bit zero j (b ∷ bs) = with_bit j b ∷ bs
set_bit (suc i) j (b ∷ bs) = b ∷ set_bit i j bs

-- `bits[i] & (1 << j) != 0`
unfoldable pub get_bit : ℕ → ℕ → Bytes → Bool
get_bit i j [] = false
get_bit zero j (b ∷ bs) = has_bit j b
get_bit (suc i) j (b ∷ bs) = get_bit i j bs

-- `h1.wrapping_add(i.wrapping_mul(h2)) % self.bit_count`; neither `new` nor `decode` makes a filter
-- of no bits.
abbrev pub probe : SeededHash → Bytes → ℕ → ℕ → ℕ
probe h key bit_count i = (h key 0 + i * h key 1 % 2 ^ 64) % 2 ^ 64 % bit_count

-- `for i in 0..k`, with `n` rounds to go.
unfoldable pub set_probes : SeededHash → Bytes → ℕ → ℕ → ℕ → Bytes → Bytes
set_probes h key bit_count i zero bits = bits
set_probes h key bit_count i (suc n) bits =
    let bit = probe h key bit_count i in
    set_probes h key bit_count (suc i) n (set_bit (bit / 8) (bit % 8) bits)

unfoldable pub insert : SeededHash → Bytes → BloomFilter → BloomFilter
insert h key f = record f { bits = set_probes h key f.bit_count 0 f.k f.bits }

unfoldable pub all_probes : SeededHash → Bytes → ℕ → ℕ → ℕ → Bytes → Bool
all_probes h key bit_count i zero bits = true
all_probes h key bit_count i (suc n) bits =
    let bit = probe h key bit_count i in
    let rest = all_probes h key bit_count (suc i) n bits in
    if not (get_bit (bit / 8) (bit % 8) bits) then false else rest

unfoldable pub contains : SeededHash → Bytes → BloomFilter → Bool
contains h key f = all_probes h key f.bit_count 0 f.k f.bits

unfoldable pub encode : BloomFilter → Bytes
encode f = to_le 4 f.k ++ (to_le 8 f.bit_count ++ f.bits)

unfoldable pub decode : Bytes → Result BloomFilter
decode buf =
    if ltb (length buf) 12
    then err (corrupt bloom_truncated)
    else (let k = from_le (slice buf 0 4) in
        let bit_count = from_le (slice buf 4 12) in
        if not (length buf == 12 + byte_len bit_count)
        then err (corrupt bloom_length_mismatch)
        else if k == 0 || bit_count == 0
        then err (corrupt bloom_zero_parameters)
        else ok (record { bits = drop 12 buf; bit_count = bit_count; k = k }))

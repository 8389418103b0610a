-- ===== src/Bloom/Laws.antt =====
-- The filter never denies a key that was inserted, and survives its encoding.
use lsm_tree_key_value_stora.Prelude.{
  ℕ, zero, suc, ◌+◌, ◌*◌, ◌/◌, ◌%◌, ◌^◌, ◌<◌, ◌≡◌, refl, ap, sym, ◌∙◌, Bool, true, false, List, [],
  ◌∷◌, ◌++◌, arith, length, drop, length-append, drop-length, append_assoc, ltb, ◌==◌, ==_refl,
  eq-false_of_pos, inl, inr, if◌then◌else◌, Bool-cases, le→ltb,
}
use native.Mathlib.Nat.{mod-lt}
use lsm_tree_key_value_stora.Errors.{ok}
use lsm_tree_key_value_stora.Bytes.{
  Bytes, to_le, from_le, slice, from_le-to_le, slice_part, length-to_le,
}
use lsm_tree_key_value_stora.Members.{◌∈◌}
use lsm_tree_key_value_stora.Bloom.{
  SeededHash, BloomFilter, byte_len, zeros, new, has_bit, with_bit, set_bit, get_bit, probe,
  set_probes, insert, all_probes, contains, encode, decode,
}

has_bit-with_bit : (j b : ℕ) → has_bit j (with_bit j b) ≡ true
unfolding has_bit with_bit
has_bit-with_bit zero b = ground arith
has_bit-with_bit (suc j) b =
    let e : (b % 2 + 2 * with_bit j (b / 2)) / 2 ≡ with_bit j (b / 2) = omega arith in
    ap (has_bit j) e ∙ has_bit-with_bit j (b / 2)

-- A bit that was set stays set.
has_bit_kept : (i j b : ℕ) → has_bit j b ≡ true → has_bit j (with_bit i b) ≡ true
unfolding has_bit with_bit
has_bit_kept zero zero b h = ground arith
has_bit_kept zero (suc j) b h =
    let e : (if b % 2 == 1 then b else b + 1) / 2 ≡ b / 2 = ground arith in ap (has_bit j) e ∙ h
has_bit_kept (suc i) zero b h =
    let e : (b % 2 + 2 * with_bit i (b / 2)) % 2 ≡ b % 2 = omega arith in ap (λ x. x == 1) e ∙ h
has_bit_kept (suc i) (suc j) b h =
    let e : (b % 2 + 2 * with_bit i (b / 2)) / 2 ≡ with_bit i (b / 2) = omega arith in
    ap (has_bit j) e ∙ has_bit_kept i j (b / 2) h

get_bit-set_bit : (i j : ℕ) (bs : Bytes) → i < length bs → get_bit i j (set_bit i j bs) ≡ true
unfolding get_bit set_bit
get_bit-set_bit i j [] l = absurd (omega (arith, l))
get_bit-set_bit zero j (b ∷ bs) l = has_bit-with_bit j b
get_bit-set_bit (suc i) j (b ∷ bs) l = get_bit-set_bit i j bs (omega (arith, l))

get_bit_kept :
    (i j p q : ℕ) (bs : Bytes) → get_bit p q bs ≡ true → get_bit p q (set_bit i j bs) ≡ true
unfolding get_bit set_bit
get_bit_kept i j p q [] h = h
get_bit_kept zero j zero q (b ∷ bs) h = has_bit_kept j q b h
get_bit_kept zero j (suc p) q (b ∷ bs) h = h
get_bit_kept (suc i) j zero q (b ∷ bs) h = h
get_bit_kept (suc i) j (suc p) q (b ∷ bs) h = get_bit_kept i j p q bs h

length-set_bit : (i j : ℕ) (bs : Bytes) → length (set_bit i j bs) ≡ length bs
unfolding set_bit
length-set_bit i j [] = refl
length-set_bit zero j (b ∷ bs) = refl
length-set_bit (suc i) j (b ∷ bs) = ap suc (length-set_bit i j bs)

length-zeros : (n : ℕ) → length (zeros n) ≡ n
length-zeros zero = refl
length-zeros (suc n) = ap suc (length-zeros n)

-- The bits fill whole bytes, and the parameters are those that `decode` lets through.
pub record IsValid (f : BloomFilter) : Type 0 where
  pub whole : length f.bits ≡ byte_len f.bit_count
  pub some_bits : 0 < f.bit_count
  pub some_probes : 0 < f.k

pub new-IsValid : (bit_count k : ℕ) → 0 < bit_count → 0 < k → IsValid (new bit_count k)
unfolding new
new-IsValid bit_count k b p = record {
  whole = length-zeros (byte_len bit_count);
  some_bits = b;
  some_probes = p;
}

module _ (h : SeededHash) (key : Bytes) (bit_count : ℕ) where
  abbrev at : ℕ → Bytes → Bool
  at i bits = get_bit (probe h key bit_count i / 8) (probe h key bit_count i % 8) bits

  set_probes_kept :
      (p q i n : ℕ) (bits : Bytes)
      → get_bit p q bits ≡ true
      → get_bit p q (set_probes h key bit_count i n bits) ≡ true
  unfolding set_probes
  set_probes_kept p q i zero bits g = g
  set_probes_kept p q i (suc n) bits g =
      set_probes_kept p q (suc i) n _ (get_bit_kept _ _ p q bits g)

  length-set_probes :
      (i n : ℕ) (bits : Bytes) → length (set_probes h key bit_count i n bits) ≡ length bits
  unfolding set_probes
  length-set_probes i zero bits = refl
  length-set_probes i (suc n) bits = length-set_probes (suc i) n _ ∙ length-set_bit _ _ bits

  probe_inside : (i : ℕ) → 0 < bit_count → probe h key bit_count i / 8 < byte_len bit_count
  probe_inside i l = omega (arith, mod-lt ((h key 0 + i * h key 1 % 2 ^ 64) % 2 ^ 64) l)

  all_probes-set_probes :
      (i n : ℕ) (bits : Bytes)
      → 0 < bit_count
      → length bits ≡ byte_len bit_count
      → all_probes h key bit_count i n (set_probes h key bit_count i n bits) ≡ true
  unfolding all_probes set_probes
  all_probes-set_probes i zero bits l w = refl
  all_probes-set_probes i (suc n) bits l w =
      let more : Bytes = set_bit (probe h key bit_count i / 8) (probe h key bit_count i % 8) bits in
      let inside = probe_inside i l in
      rw
        (set_probes_kept _ _ (suc i) n more (
          get_bit-set_bit (probe h key bit_count i / 8) (probe h key bit_count i % 8) bits
            (omega (arith, inside, w))))
        (all_probes-set_probes (suc i) n more l (length-set_bit _ _ bits ∙ w))

-- Two probe loops over the same bits: setting more bits changes no answer from true.
all_probes_kept :
    (h : SeededHash) (key other : Bytes) (bit_count i n j m : ℕ) (bits : Bytes)
    → all_probes h key bit_count i n bits ≡ true
    → all_probes h key bit_count i n (set_probes h other bit_count j m bits) ≡ true
unfolding all_probes
all_probes_kept h key other bit_count i zero j m bits a = refl
all_probes_kept h key other bit_count i (suc n) j m bits a =
    elim (Bool-cases (at h key bit_count i bits)) [
      | inl e ↦
          rw (set_probes_kept h other bit_count _ _ j m bits e)
            (all_probes_kept h key other bit_count (suc i) n j m bits (rw e at a))
      | inr e ↦ absurd (cc (rw e at a))
    ]

insert-IsValid :
    (h : SeededHash) (key : Bytes) (f : BloomFilter) → IsValid f → IsValid (insert h key f)
unfolding insert
insert-IsValid h key f v = record {
  whole = length-set_probes h key f.bit_count 0 f.k f.bits ∙ v.whole;
  some_bits = v.some_bits;
  some_probes = v.some_probes;
}

contains-insert :
    (h : SeededHash) (key : Bytes) (f : BloomFilter)
    → IsValid f
    → contains h key (insert h key f) ≡ true
unfolding contains insert
contains-insert h key f v = all_probes-set_probes h key f.bit_count 0 f.k f.bits v.some_bits v.whole

contains_kept :
    (h : SeededHash) (key other : Bytes) (f : BloomFilter)
    → contains h key f ≡ true
    → contains h key (insert h other f) ≡ true
unfolding contains insert
contains_kept h key other f c = all_probes_kept h key other f.bit_count 0 f.k 0 f.k f.bits c

-- The filter of an SSTable's keys.
abbrev pub insert_all : SeededHash → List Bytes → BloomFilter → BloomFilter
insert_all h [] f = f
insert_all h (key ∷ keys) f = insert_all h keys (insert h key f)

contains_kept_all :
    (h : SeededHash) (key : Bytes) (keys : List Bytes) (f : BloomFilter)
    → contains h key f ≡ true
    → contains h key (insert_all h keys f) ≡ true
contains_kept_all h key [] f c = c
contains_kept_all h key (other ∷ keys) f c =
    contains_kept_all h key keys (insert h other f) (contains_kept h key other f c)

-- No false negatives: a filter that the keys of a list were put into, in any order and with any
-- hash, says of each of them that it may be there.
pub contains-insert_all :
    (h : SeededHash) (keys : List Bytes) (f : BloomFilter) (key : Bytes)
    → IsValid f
    → key ∈ keys
    → contains h key (insert_all h keys f) ≡ true
contains-insert_all h [] f key v k = absurd k
contains-insert_all h (other ∷ keys) f key v (inl e) =
    contains_kept_all h key keys (insert h other f) (rw e (contains-insert h other f v))
contains-insert_all h (other ∷ keys) f key v (inr k) =
    contains-insert_all h keys (insert h other f) key (insert-IsValid h other f v) k

-- A filter whose parameters fit the fields of its encoding.
pub record Encodable (f : BloomFilter) : Type 0 where
  pub valid : IsValid f
  pub k_fits : f.k < 2 ^ 32
  pub bits_fit : f.bit_count < 2 ^ 64

pub insert_all-Encodable :
    (h : SeededHash) (keys : List Bytes) (f : BloomFilter)
    → Encodable f
    → Encodable (insert_all h keys f)
unfolding insert
insert_all-Encodable h [] f e = e
insert_all-Encodable h (key ∷ keys) f e =
    insert_all-Encodable h keys (insert h key f)
      (record { valid = insert-IsValid h key f e.valid; k_fits = e.k_fits; bits_fit = e.bits_fit })

-- Decoding the encoding of a valid filter gives it back.
pub decode-encode_filter :
    (f : BloomFilter) → IsValid f → f.k < 2 ^ 32 → f.bit_count < 2 ^ 64 → decode (encode f) ≡ ok f
unfolding decode encode
decode-encode_filter f v fk fb =
    let l4 = length-to_le 4 f.k in
    let l8 = length-to_le 8 f.bit_count in
    let kb : Bytes = to_le 4 f.k in
    let cb : Bytes = to_le 8 f.bit_count in
    let all : length (kb ++ (cb ++ f.bits)) ≡ 12 + byte_len f.bit_count =
      omega (arith, l4, l8, v.whole, length-append kb (cb ++ f.bits), length-append cb f.bits) in
    let k_at : from_le (slice (kb ++ (cb ++ f.bits)) 0 4) ≡ f.k =
      ap from_le (slice_part [] kb (cb ++ f.bits) 0 4 refl (omega (arith, l4)))
      ∙ from_le-to_le 4 f.k fk in
    let count_at : from_le (slice (kb ++ (cb ++ f.bits)) 4 12) ≡ f.bit_count =
      ap from_le (slice_part kb cb f.bits 4 12 (omega (arith, l4)) (omega (arith, l4, l8)))
      ∙ from_le-to_le 8 f.bit_count fb in
    let twelve : length (kb ++ cb) ≡ 12 = omega (arith, l4, l8, length-append kb cb) in
    let bits_at : drop 12 (kb ++ (cb ++ f.bits)) ≡ f.bits =
      ap (drop 12) (sym (append_assoc kb cb f.bits))
      ∙ ap (λ n. drop n ((kb ++ cb) ++ f.bits)) (sym twelve)
      ∙ drop-length (kb ++ cb) f.bits in
    let big : ltb (length (kb ++ (cb ++ f.bits))) 12 ≡ false =
      le→ltb (length (kb ++ (cb ++ f.bits))) 12 (omega (arith, all)) in
    let same : (length (kb ++ (cb ++ f.bits)) == 12 + byte_len f.bit_count) ≡ true =
      rw all (==_refl (12 + byte_len f.bit_count)) in
    rw (
      big,
      count_at,
      k_at,
      bits_at,
      same,
      eq-false_of_pos f.k v.some_probes,
      eq-false_of_pos f.bit_count v.some_bits,
    )

-- ===== src/Bloom/Examples.antt =====
-- A filter of twenty bits and three probes, with a hash that adds the bytes up.
use lsm_tree_key_value_stora.Prelude.{◌+◌, ◌*◌, ◌≡◌, refl, true, List, [], ◌∷◌, arith, inl, inr}
use lsm_tree_key_value_stora.Errors.{ok}
use lsm_tree_key_value_stora.Bytes.{Bytes}
use lsm_tree_key_value_stora.Bloom.{SeededHash, BloomFilter, new, contains, encode, decode}
use lsm_tree_key_value_stora.Bloom.Laws.{
  IsValid, new-IsValid, insert_all, contains-insert_all, decode-encode_filter,
}

abbrev pub added : SeededHash
added [] seed = seed
added (b ∷ bs) seed = b + 7 * added bs seed

abbrev twenty : BloomFilter
twenty = new 20 3

twenty-IsValid : IsValid twenty
twenty-IsValid = new-IsValid 20 3 (omega arith) (omega arith)

abbrev two_keys : List Bytes
two_keys = (5 ∷ []) ∷ ((9 ∷ 4 ∷ []) ∷ [])

contains-insert_all_example : contains added (9 ∷ 4 ∷ []) (insert_all added two_keys twenty) ≡ true
contains-insert_all_example =
    contains-insert_all added two_keys twenty (9 ∷ 4 ∷ []) twenty-IsValid (inr (inl refl))

twenty_k : twenty.k ≡ 3
unfolding new
twenty_k = refl

twenty_count : twenty.bit_count ≡ 20
unfolding new
twenty_count = refl

decode-encode_filter_example : decode (encode twenty) ≡ ok twenty
decode-encode_filter_example =
    decode-encode_filter twenty twenty-IsValid (omega (arith, twenty_k))
      (omega (arith, twenty_count))

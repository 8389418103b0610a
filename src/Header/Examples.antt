-- ===== src/Header/Examples.antt =====
-- Two checksums for the tests: functions that stand for those of the crates.
use lsm_tree_key_value_stora.Prelude.{ℕ, ◌+◌, ◌%◌, ◌^◌, ◌≡◌, refl, [], ◌∷◌, ◌++◌, arith}
use lsm_tree_key_value_stora.Errors.{err, bad_format, newer_version}
use lsm_tree_key_value_stora.Bytes.{Bytes}
use lsm_tree_key_value_stora.Header.{Hashes, encode, classify, wal_magic}
use lsm_tree_key_value_stora.Header.Laws.{classify-encode}

abbrev sum : Bytes → ℕ
sum [] = 0
sum (b ∷ bs) = b + sum bs

abbrev pub sums : Hashes
sums = record {
  iso_hdlc = λ b. sum b % 2 ^ 32;
  castagnoli = λ b. (1 + sum b) % 2 ^ 32;
  iso_hdlc_fits = λ b. omega arith;
  castagnoli_fits = λ b. omega arith;
}

-- A log of version 4 is refused by a build that knows version 3.
classify-encode_example :
    classify (encode wal_magic 4 ++ (7 ∷ [])) wal_magic 3 ≡ err (bad_format (newer_version 4))
classify-encode_example = classify-encode wal_magic refl 4 (7 ∷ []) 3 (omega arith)

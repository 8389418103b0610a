-- ===== src/Record/Examples.antt =====
-- Records for the tests, and the theorems on them.
use lsm_tree_key_value_stora.Prelude.{
  ◌+◌, ◌^◌, ◌<◌, ◌≡◌, refl, none, some, [], ◌∷◌, ◌++◌, arith, length,
}
use lsm_tree_key_value_stora.Errors.{ok, err, corrupt, record_truncated}
use lsm_tree_key_value_stora.Bytes.{Bytes, to_le}
use lsm_tree_key_value_stora.Record.{Record, encode, encoded_len, decode_at}
use lsm_tree_key_value_stora.Record.RoundTrip.{Fits, decode_at-encode}
use lsm_tree_key_value_stora.Record.Prefix.{decode_at_truncated}

abbrev pub apple : Record
apple = record { key = 97 ∷ []; value = some (1 ∷ 2 ∷ []); seq = 5 }

abbrev pub grave : Record
grave = record { key = 98 ∷ []; value = none; seq = 6 }

pub apple-Fits : Fits apple
apple-Fits = record { seq_fits = omega arith; key_fits = omega arith; value_fits = omega arith }

pub grave-Fits : Fits grave
grave-Fits = record { seq_fits = omega arith; key_fits = omega arith; value_fits = omega arith }

buffer_small : length ((9 ∷ []) ++ (encode apple ++ (8 ∷ []))) < 2 ^ 64
unfolding encode to_le
buffer_small = omega arith

decode_at-encode_example :
    decode_at ((9 ∷ []) ++ (encode apple ++ (8 ∷ []))) 1 ≡ ok (apple, 1 + encoded_len apple)
decode_at-encode_example = decode_at-encode (9 ∷ []) (8 ∷ []) apple apple-Fits buffer_small

abbrev grave_front : Bytes
grave_front = 6 ∷ 0 ∷ 0 ∷ 0 ∷ 0 ∷ 0 ∷ 0 ∷ 0 ∷ 1 ∷ 1 ∷ 0 ∷ 0 ∷ 0 ∷ 98 ∷ 0 ∷ 0 ∷ []

grave_cut : encode grave ≡ grave_front ++ (0 ∷ 0 ∷ [])
unfolding encode to_le
grave_cut = refl

grave_small : encoded_len grave < 2 ^ 64
unfolding encoded_len
grave_small = omega arith

decode_at_truncated_example : decode_at grave_front 0 ≡ err (corrupt record_truncated)
decode_at_truncated_example =
    decode_at_truncated grave grave_front (0 ∷ []) 0 grave-Fits grave_small grave_cut

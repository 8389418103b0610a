-- ===== src/Wal/Decode.antt =====
-- The payload of a batch decodes to the batch.
use lsm_tree_key_value_stora.Prelude.{
  ◌%◌, ◌^◌, ◌≤◌, ◌<◌, ◌≡◌, refl, ap, sym, ◌∙◌, Bool, true, false, List, [], ◌∷◌, ◌++◌, arith,
  length, length-append, All, append_assoc, append-nil, le→ltb, ==_refl,
}
use lsm_tree_key_value_stora.Errors.{ok}
use lsm_tree_key_value_stora.Bytes.{Bytes, to_le, slice_part, length-to_le, from_le-to_le}
use lsm_tree_key_value_stora.Record.{Record, encode, encode_into, usize_mod}
use lsm_tree_key_value_stora.Record.RoundTrip.{Fits, decode_at-encode, length-encode}
use lsm_tree_key_value_stora.Wal.{
  encode_all, payload_of, decode_records, batch_count, decode_payload,
}

-- The encodings of the records, one behind the other.
unfoldable pub encodings : List Record → Bytes
encodings [] = []
encodings (r ∷ rs) = encode r ++ encodings rs

pub encode_all-encodings :
    (rs : List Record) (buf : Bytes) → encode_all rs buf ≡ buf ++ encodings rs
unfolding encode_all encodings encode_into
encode_all-encodings [] buf = sym (append-nil buf)
encode_all-encodings (r ∷ rs) buf =
    encode_all-encodings rs (buf ++ encode r) ∙ append_assoc buf (encode r) (encodings rs)

-- What a batch needs to fit the frame format: integers in range, and one record where the format
-- has no count.
pub record FitsBatch (counted : Bool) (rs : List Record) : Type 0 where
  pub records_fit : All Fits rs
  pub count_fits : length rs < 2 ^ 32
  pub payload_fits : length (payload_of counted rs) < 2 ^ 32
  pub single : counted ≡ false → length rs ≡ 1

decode_records-encodings :
    (pre : Bytes) (rs acc : List Record)
    → All Fits rs
    → length (pre ++ encodings rs) < usize_mod
    → decode_records (length rs) (pre ++ encodings rs) (length pre) acc
      ≡ ok (acc ++ rs, length (pre ++ encodings rs))
unfolding decode_records encodings
decode_records-encodings pre [] acc f small = simp append-nil
decode_records-encodings pre (r ∷ rs) acc f small =
    rw (decode_at-encode pre (encodings rs) r f.0 small) (
      rw
        (
          ← length-encode r,
          ← length-append pre (encode r),
          ← append_assoc pre (encode r) (encodings rs),
        )
        (rw
          (decode_records-encodings (pre ++ encode r) rs (acc ++ (r ∷ [])) f.1
            (rw append_assoc small))
          (simp append_assoc)))

module _ (rs : List Record) where
  counted_payload : payload_of true rs ≡ to_le 4 (length rs % 2 ^ 32) ++ encodings rs
  unfolding payload_of
  counted_payload = encode_all-encodings rs (to_le 4 (length rs % 2 ^ 32))

  single_payload : payload_of false rs ≡ encodings rs
  unfolding payload_of
  single_payload = encode_all-encodings rs []

decode_counted :
    (rs : List Record) → FitsBatch true rs → decode_payload true (payload_of true rs) ≡ ok rs
unfolding decode_payload batch_count
decode_counted rs f =
    let e : length rs % 2 ^ 32 ≡ length rs = omega (arith, f.count_fits) in
    let p : payload_of true rs ≡ to_le 4 (length rs) ++ encodings rs =
      counted_payload rs ∙ ap (λ n. to_le 4 n ++ encodings rs) e in
    let l = length-append (to_le 4 (length rs)) (encodings rs) in
    let long : 4 ≤ length (to_le 4 (length rs) ++ encodings rs) =
      omega (arith, l, length-to_le 4 (length rs)) in
    let small : length (to_le 4 (length rs) ++ encodings rs) < usize_mod =
      omega (arith, f.payload_fits, ap length p) in
    let d =
      rw length-to_le at
        (decode_records-encodings (to_le 4 (length rs)) rs [] f.records_fit small) in
    rw p (
      rw
        (
          le→ltb _ _ long,
          slice_part [] (to_le 4 (length rs)) (encodings rs) 0 4 refl
              (omega (arith, length-to_le 4 (length rs))),
          from_le-to_le 4 (length rs) f.count_fits,
        )
        (rw d (rw ==_refl)))

decode_single :
    (rs : List Record) → FitsBatch false rs → decode_payload false (payload_of false rs) ≡ ok rs
unfolding decode_payload batch_count
decode_single rs f =
    let small : length (encodings rs) < usize_mod =
      omega (arith, f.payload_fits, ap length (single_payload rs)) in
    let d = rw (f.single refl) at (decode_records-encodings [] rs [] f.records_fit small) in
    rw (single_payload rs) (rw d (rw ==_refl))

-- Replay reads a batch back from the payload that an append wrote, in either format.
pub decode_payload-payload_of :
    (counted : Bool) (rs : List Record)
    → FitsBatch counted rs
    → decode_payload counted (payload_of counted rs) ≡ ok rs
decode_payload-payload_of true rs f = decode_counted rs f
decode_payload-payload_of false rs f = decode_single rs f

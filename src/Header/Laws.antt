-- ===== src/Header/Laws.antt =====
-- What `classify` makes of a header that this build or an older one wrote.
use lsm_tree_key_value_stora.Prelude.{
  ℕ, ◌^◌, ◌≤◌, ◌<◌, ◌≡◌, refl, [], ◌∷◌, ◌++◌, arith, length, length-append, le→leb, eq-false_of_pos,
  append_assoc, if◌then◌else◌, ltb,
}
use lsm_tree_key_value_stora.Order.{key_eq_refl, bytes_ord}
use lsm_tree_key_value_stora.Errors.{ok, err, bad_format, newer_version}
use lsm_tree_key_value_stora.Bytes.{Bytes, to_le, slice, slice_part, length-to_le, from_le-to_le}
use lsm_tree_key_value_stora.Header.{header_len, encode, classify, versioned}

module _ (magic : Bytes) (four : length magic ≡ 4) (version : ℕ) (rest : Bytes) where
  pub length-encode : length (encode magic version) ≡ header_len
  unfolding encode
  length-encode = omega (
    arith,
    four,
    length-append magic (to_le 2 version ++ (0 ∷ 0 ∷ [])),
    length-append (to_le 2 version) (0 ∷ 0 ∷ []),
    length-to_le 2 version,
  )

  magic_at : slice (encode magic version ++ rest) 0 4 ≡ magic
  unfolding encode
  magic_at = rw (append_assoc magic (to_le 2 version ++ (0 ∷ 0 ∷ [])) rest) (
      slice_part [] magic ((to_le 2 version ++ (0 ∷ 0 ∷ [])) ++ rest) 0 4 refl
        (omega (arith, four)))

  version_at : slice (encode magic version ++ rest) 4 6 ≡ to_le 2 version
  unfolding encode
  version_at = rw (append_assoc magic (to_le 2 version ++ (0 ∷ 0 ∷ [])) rest) (
      rw (append_assoc (to_le 2 version) (0 ∷ 0 ∷ []) rest) (
        slice_part magic (to_le 2 version) ((0 ∷ 0 ∷ []) ++ rest) 4 6 (omega (arith, four))
          (omega (arith, four, length-to_le 2 version))))

  -- A header of a version up to `newest` is recognised, whatever follows it; a later one is
  -- refused.
  pub classify-encode :
      (newest : ℕ)
      → version < 2 ^ 16
      → classify (encode magic version ++ rest) magic newest ≡ (
          if ltb newest version
          then err (bad_format (newer_version version))
          else ok (versioned version))
  unfolding classify
  classify-encode newest fits =
      let l : header_len ≤ length (encode magic version ++ rest) =
        omega (arith, length-encode, length-append (encode magic version) rest) in
      rw
        (
          eq-false_of_pos (length (encode magic version ++ rest)) (omega arith),
          le→leb _ _ l,
          magic_at,
          key_eq_refl magic,
        )
        (rw (version_at, from_le-to_le 2 version fits))

-- ===== src/Errors.antt =====
-- src/error.rs: the errors of the engine and `Result`. The texts of the messages are
-- constructors of `Reason`; the ones that print a number carry it.
use lsm_tree_key_value_stora.Prelude.{ℕ, ◌≡◌, refl}

pub data Reason : Type 0 where
  record_truncated : Reason
  bad_record_type : ℕ → Reason
  wal_frame_too_short wal_trailing_bytes : Reason
  bad_payload_length : Reason
  bad_edit_tag : ℕ → Reason
  no_readable_frame : ℕ → Reason
  bloom_truncated bloom_length_mismatch bloom_zero_parameters : Reason
  index_truncated block_decompression : Reason
  table_too_small bad_table_magic offsets_out_of_range : Reason
  newer_version : ℕ → Reason
  v1_cannot_batch : ℕ → Reason
  bad_current run_vanished not_empty manifest_exists : Reason

-- The kinds of `std::io::Error` that the code tells apart.
pub data IoKind : Type 0 where
  not_found would_block other_io : IoKind

pub data Error : Type 0 where
  io : IoKind → Error
  corrupt : Reason → Error
  bad_format : Reason → Error
  locked : Error
  poisoned : Error → Error

pub data Result {ℓ} (A : Type ℓ) : Type ℓ where
  ok : A → Result A
  err : Error → Result A

infixl 5 ◌>>=◌
abbrev pub ◌>>=◌ {ℓ κ} : {A : Type ℓ} {B : Type κ} → Result A → (A → Result B) → Result B
ok value >>= next = next value
err e >>= next = err e

-- A chain that succeeds went through a value of its first part.
pub >>=-eq_ok {ℓ κ} :
    {A : Type ℓ} {B : Type κ} (m : Result A) (next : A → Result B) {b : B}
    → (m >>= next) ≡ ok b
    → (a : A) × (m ≡ ok a) × (next a ≡ ok b)
>>=-eq_ok (ok a) next h = (a, refl, h)
>>=-eq_ok (err e) next h = absurd (cc h)

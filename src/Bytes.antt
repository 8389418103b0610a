-- ===== src/Bytes.antt =====
-- Bytes as numbers below 256: the little-endian integers of Rust's `to_le_bytes` and
-- `from_le_bytes`, and slices `&buf[a..b]`.
use native.Mathlib.Nat.{pow-suc}
use lsm_tree_key_value_stora.Prelude.{
  ℕ, zero, suc, ◌+◌, ◌-◌, ◌*◌, ◌/◌, ◌%◌, ◌^◌, ◌≤◌, ◌<◌, ◌≡◌, refl, ap, List, [], ◌∷◌, ◌++◌, arith,
  length, take, drop, All, length-drop, length-take, drop-append, take-append, drop-length,
  take-length,
}

abbrev pub Bytes : Type 0
Bytes = List ℕ

abbrev pub IsByte : ℕ → Type 0
IsByte b = b < 256

abbrev pub IsBytes : Bytes → Type 0
IsBytes = All IsByte

-- `x.to_le_bytes()` of an integer of `w` bytes
unfoldable pub to_le : ℕ → ℕ → Bytes
to_le zero n = []
to_le (suc w) n = (n % 256) ∷ to_le w (n / 256)

unfoldable pub from_le : Bytes → ℕ
from_le [] = 0
from_le (b ∷ bs) = b + 256 * from_le bs

-- `&buf[a..b]`, for `a <= b <= buf.len()`
unfoldable pub slice : Bytes → ℕ → ℕ → Bytes
slice buf a b = take (b - a) (drop a buf)

pub length-to_le : (w n : ℕ) → length (to_le w n) ≡ w
unfolding to_le
length-to_le zero n = refl
length-to_le (suc w) n = ap suc (length-to_le w (n / 256))

pub to_le-IsBytes : (w n : ℕ) → IsBytes (to_le w n)
unfolding to_le
to_le-IsBytes zero n = tt
to_le-IsBytes (suc w) n = (omega arith, to_le-IsBytes w (n / 256))

-- Writing and reading back an integer that fits in `w` bytes.
pub from_le-to_le : (w n : ℕ) → n < 256 ^ w → from_le (to_le w n) ≡ n
unfolding to_le from_le
from_le-to_le zero n h = omega arith
from_le-to_le (suc w) n h =
    let e = from_le-to_le w (n / 256) (omega (arith, pow-suc 256 w)) in omega (arith, e)

pub length-slice : (buf : Bytes) (a b : ℕ) → a ≤ b → b ≤ length buf → length (slice buf a b) ≡ b - a
unfolding slice
length-slice buf a b h k = omega (arith, length-take (b - a) (drop a buf), length-drop a buf)

-- A slice of the first part is not changed by what stands behind it.
pub slice-append :
    (buf more : Bytes) (a b : ℕ) → a ≤ b → b ≤ length buf → slice (buf ++ more) a b ≡ slice buf a b
unfolding slice
slice-append buf more a b h k =
    rw (drop-append a buf more (omega arith))
      (take-append (b - a) (drop a buf) more (omega (arith, length-drop a buf)))

-- A slice at a known position of a buffer that is cut in parts.
pub slice_part :
    (pre mid post : Bytes) (a b : ℕ)
    → a ≡ length pre
    → b ≡ length pre + length mid
    → slice (pre ++ (mid ++ post)) a b ≡ mid
unfolding slice
slice_part pre mid post a b ea eb =
    let e : b - a ≡ length mid = omega arith in
    rw (e, ea, drop-length pre (mid ++ post)) (take-length mid post)

-- ===== src/Visible.antt =====
-- The meaning of a collection of versions: the record that a read of `key` sees below a sequence
-- bound is the one of that key with the largest sequence number below the bound.
pub mod Laws
pub mod Runs
pub mod Members
use lsm_tree_key_value_stora.Prelude.{
  ℕ, ◌≡◌, Bool, ◌&&◌, Option, none, some, List, [], ◌∷◌, ltb, if◌then◌else◌, All,
}
use lsm_tree_key_value_stora.Order.{VersionKey, rev, key_eq, ◌≺◌, bytes_ord, version_ord}
use lsm_tree_key_value_stora.Bytes.{Bytes}
use lsm_tree_key_value_stora.Record.{Record}

unfoldable pub sees : Bytes → ℕ → Record → Bool
sees key bound r = key_eq r.key key && ltb r.seq bound

-- The one with the larger sequence number.
abbrev pub later : Option Record → Option Record → Option Record
later none o = o
later (some r) none = some r
later (some r) (some s) = if ltb r.seq s.seq then some s else some r

abbrev pub pick : Bytes → ℕ → Record → Option Record
pick key bound r = if sees key bound r then some r else none

unfoldable pub newest : Bytes → ℕ → List Record → Option Record
newest key bound [] = none
newest key bound (r ∷ rs) = later (pick key bound r) (newest key bound rs)

-- The value that a read returns: a tombstone reads as absent.
abbrev pub value_of : Option Record → Option Bytes
value_of none = none
value_of (some r) = r.value

-- `(key, Reverse(seq))`: keys ascend, and within a key the sequence numbers descend.
abbrev pub version_key : Record → VersionKey
version_key r = (r.key, rev r.seq)

infix 50 ◌⊲◌
abbrev pub ◌⊲◌ : Record → Record → Type 0
r ⊲ s = version_key r ≺ version_key s

-- The order in which a MemTable, a data block and an SSTable hold their records.
abbrev pub IsRun : List Record → Type 0
IsRun [] = Unit
IsRun (r ∷ rs) = All (λ s. r ⊲ s) rs × IsRun rs

-- ===== src/MemTable.antt =====
-- src/memtable.rs: the in-memory write buffer, every version of every key.
pub mod Laws
pub mod Examples
use lsm_tree_key_value_stora.Prelude.{
  ℕ, ◌+◌, ◌-◌, ◌^◌, Bool, Option, none, some, List, [], ◌∷◌, ltb, leb, if◌then◌else◌, length, ◌*◌,
}
use lsm_tree_key_value_stora.Order.{VersionKey, rev, key_lt, bytes_ord, version_ord}
use lsm_tree_key_value_stora.Bytes.{Bytes}
use lsm_tree_key_value_stora.Record.{Record, encoded_len}
use lsm_tree_key_value_stora.SortedMap
use lsm_tree_key_value_stora.SortedMap.{Entries, values}

abbrev pub default_threshold : ℕ
default_threshold = 4 * 1024 * 1024

-- `u64::MAX`
abbrev pub u64_max : ℕ
u64_max = 2 ^ 64 - 1

pub record MemTable : Type 0 where
  pub map : Entries VersionKey Record
  pub size : ℕ
  pub threshold : ℕ

abbrev pub new : ℕ → MemTable
new threshold = record { map = []; size = 0; threshold = threshold }

-- `match self.map.insert(key, record)` on the entry that was there before.
abbrev pub grown : ℕ → ℕ → Option Record → ℕ
grown size new_len (some old) = size - encoded_len old + new_len
grown size new_len none = size + new_len

unfoldable pub insert : Record → MemTable → MemTable
insert r m =
    let key : VersionKey = (r.key, rev r.seq) in
    record m {
      map = SortedMap.insert key r m.map;
      size = grown m.size (encoded_len r) (SortedMap.lookup key m.map);
    }

-- `iterator.find(|r| r.seq < seq_bound)`
unfoldable pub find_below : ℕ → List Record → Option Record
find_below bound [] = none
find_below bound (r ∷ rs) = if ltb r.seq bound then some r else find_below bound rs

unfoldable pub versions_of : Bytes → MemTable → List Record
versions_of key m =
    values (SortedMap.range_to (key, rev 0) (SortedMap.range_from (key, rev u64_max) m.map))

unfoldable pub get_at : Bytes → ℕ → MemTable → Option Record
get_at key seq_bound m = find_below seq_bound (versions_of key m)

unfoldable pub get : Bytes → MemTable → Option Record
get key m = get_at key u64_max m

unfoldable pub iter : MemTable → List Record
iter m = values m.map

-- `take_while(|record| record.key < end)`; no end takes all.
unfoldable pub take_below : Option Bytes → List Record → List Record
take_below none rs = rs
take_below (some e) [] = []
take_below (some e) (r ∷ rs) =
    let rest = take_below (some e) rs in if key_lt r.key e then r ∷ rest else []

abbrev start_at : Option Bytes → Entries VersionKey Record → Entries VersionKey Record
start_at (some k) m = SortedMap.range_from (k, rev u64_max) m
start_at none m = m

unfoldable pub range : Option Bytes → Option Bytes → MemTable → List Record
range start end m = take_below end (values (start_at start m.map))

abbrev pub len : MemTable → ℕ
len m = length m.map

unfoldable pub is_empty : MemTable → Bool
is_empty m = leb (length m.map) 0

unfoldable pub is_full : MemTable → Bool
is_full m = leb m.threshold m.size

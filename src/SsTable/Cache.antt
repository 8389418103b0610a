-- ===== src/SsTable/Cache.antt =====
-- src/sstable/mod.rs, `BlockCache`: a bounded FIFO cache of decoded blocks. The hash map is its list of
-- entries, in no order that the code depends on.
pub mod Laws
use lsm_tree_key_value_stora.Prelude.{
  ℕ, Bool, true, false, Option, none, some, List, [], ◌∷◌, ◌++◌, length, leb, ◌==◌, if◌then◌else◌,
  not,
}
use lsm_tree_key_value_stora.Record.{Record}
use lsm_tree_key_value_stora.SsTable.{block_cache_cap}

pub record BlockCache : Type 0 where
  pub map : List (ℕ × List Record)
  pub order : List ℕ

abbrev pub new : BlockCache
new = record { map = []; order = [] }

-- `HashMap::get`
unfoldable pub find : ℕ → List (ℕ × List Record) → Option (List Record)
find offset [] = none
find offset ((o, b) ∷ rest) = if o == offset then some b else find offset rest

-- `HashMap::remove`
unfoldable pub remove : ℕ → List (ℕ × List Record) → List (ℕ × List Record)
remove offset [] = []
remove offset ((o, b) ∷ rest) =
    let rest' = remove offset rest in if o == offset then rest' else (o, b) ∷ rest'

unfoldable pub get : ℕ → BlockCache → Option (List Record)
get offset c = find offset c.map

-- `self.map.insert`, of an offset that is not in the map, and `order.push_back`.
abbrev pub push : ℕ → List Record → BlockCache → BlockCache
push offset block c = record {
  map = c.map ++ ((offset, block) ∷ []);
  order = c.order ++ (offset ∷ []);
}

-- `pop_front`, and the removal of what it gives.
abbrev pub evict : BlockCache → List ℕ → BlockCache
evict c [] = c
evict c (evicted ∷ rest) = record { map = remove evicted c.map; order = rest }

abbrev pub make_room : BlockCache → BlockCache
make_room c = if leb block_cache_cap (length c.order) then evict c c.order else c

abbrev pub put_new : ℕ → List Record → BlockCache → Option (List Record) → BlockCache
put_new offset block c (some b) = c
put_new offset block c none = push offset block (make_room c)

unfoldable pub put : ℕ → List Record → BlockCache → BlockCache
put offset block c = put_new offset block c (find offset c.map)

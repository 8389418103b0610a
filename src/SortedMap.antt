-- ===== src/SortedMap.antt =====
-- `std::collections::BTreeMap`, as its entries in ascending order of the key: what the engine
-- uses of it (`insert`, `get`, `range`, `values`) for the MemTable and the snapshot table.
pub mod Laws
use Prim.Native.Nat.Ordering.{lt, eq, gt}
use lsm_tree_key_value_stora.Prelude.{◌≡◌, Option, none, some, List, [], ◌∷◌, if◌then◌else◌, All}
use lsm_tree_key_value_stora.Order.{Ord, ◌≺◌, key_lt, key_eq}

abbrev pub Entries {ℓ κ} : Type ℓ → Type κ → Type (ℓ ⊔ κ)
Entries K V = List (K × V)

module _ {ℓ κ} {K : Type ℓ} {V : Type κ} ⦃o : Ord K⦄ where
  unfoldable pub lookup : K → Entries K V → Option V
  lookup k [] = none
  lookup k ((j, w) ∷ m) = if key_eq k j then some w else lookup k m

  unfoldable pub insert : K → V → Entries K V → Entries K V
  insert k v [] = (k, v) ∷ []
  insert k v ((j, w) ∷ m) = elim (o.cmp k j) [
    | lt ↦ (k, v) ∷ ((j, w) ∷ m)
    | eq ↦ (k, v) ∷ m
    | gt ↦ (j, w) ∷ insert k v m
  ]

  unfoldable pub remove : K → Entries K V → Entries K V
  remove k [] = []
  remove k ((j, w) ∷ m) = let rest = remove k m in if key_eq k j then m else (j, w) ∷ rest

  -- The entries from `low` on, `Bound::Included(low)`.
  unfoldable pub range_from : K → Entries K V → Entries K V
  range_from low [] = []
  range_from low ((j, w) ∷ m) =
      let rest = range_from low m in if key_lt j low then rest else (j, w) ∷ m

  -- The entries up to `high`, `Bound::Included(high)`.
  unfoldable pub range_to : K → Entries K V → Entries K V
  range_to high [] = []
  range_to high ((j, w) ∷ m) =
      let rest = range_to high m in if key_lt high j then [] else (j, w) ∷ rest

  abbrev pub Below : K → Entries K V → Type 0
  Below k m = All (λ e. k ≺ e.0) m

  abbrev pub IsSorted : Entries K V → Type 0
  IsSorted [] = Unit
  IsSorted (e ∷ m) = Below e.0 m × IsSorted m

module _ {ℓ κ} {K : Type ℓ} {V : Type κ} where
  abbrev pub values : Entries K V → List V
  values [] = []
  values (e ∷ m) = e.1 ∷ values m

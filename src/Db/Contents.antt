-- ===== src/Db/Contents.antt =====
-- What a database holds: the versions in its tables and MemTables, and the invariant that its parts are
-- well-formed and layered, each with larger sequence numbers than the older ones.
use lsm_tree_key_value_stora.Prelude.{
  ℕ, ◌<◌, ◌^◌, ◌≡◌, refl, ◌∙◌, Option, none, some, List, [], ◌∷◌, ◌++◌, All, All-append, lt→ltb,
}
use lsm_tree_key_value_stora.Bytes.{Bytes}
use lsm_tree_key_value_stora.Record.{Record}
use lsm_tree_key_value_stora.Members.{All-at}
use lsm_tree_key_value_stora.Visible.{newest, later}
use lsm_tree_key_value_stora.Visible.Laws.{newest-append}
use lsm_tree_key_value_stora.Visible.Members.{IsNewest, newest-IsNewest}
use lsm_tree_key_value_stora.MemTable
use lsm_tree_key_value_stora.MemTable.{MemTable}
use lsm_tree_key_value_stora.MemTable.Laws
use lsm_tree_key_value_stora.SsTable.Blocks.{Part, all_records}
use lsm_tree_key_value_stora.SsTable.Lookup.{IsTable}
use lsm_tree_key_value_stora.Db.{Crates, SsTable, DbInner}

-- The tables hold the blocks `pss`, one list of blocks for each.
abbrev pub Holds : Crates → List SsTable → List (List Part) → Type 0
Holds c [] [] = Unit
Holds c [] (ps ∷ pss) = ⊥
Holds c (t ∷ ts) [] = ⊥
Holds c (t ∷ ts) (ps ∷ pss) = IsTable c.lz4 c.seeded ps t.reader × Holds c ts pss

-- The versions in the tables, oldest table first.
abbrev pub in_tables : List (List Part) → List Record
in_tables [] = []
in_tables (ps ∷ pss) = all_records ps ++ in_tables pss

-- Every version of the first is older than every version of the second.
abbrev pub Before : List Record → List Record → Type 0
Before xs ys = All (λ x. All (λ y. x.seq < y.seq) ys) xs

abbrev pub Layered : List (List Part) → Type 0
Layered [] = Unit
Layered (ps ∷ pss) = Before (all_records ps) (in_tables pss) × Layered pss

abbrev pub in_frozen : Option MemTable → List Record
in_frozen none = []
in_frozen (some m) = MemTable.iter m

abbrev pub FrozenIsValid : Option MemTable → Type 0
FrozenIsValid none = Unit
FrozenIsValid (some m) = MemTable.Laws.IsValid m

-- All versions that the database holds.
abbrev pub contents : List (List Part) → DbInner → List Record
contents pss db = in_tables pss ++ (in_frozen db.frozen ++ MemTable.iter db.active)

pub record IsValid (c : Crates) (pss : List (List Part)) (db : DbInner) : Type 0 where
  pub tables : Holds c db.sstables pss
  pub active_valid : MemTable.Laws.IsValid db.active
  pub frozen_valid : FrozenIsValid db.frozen
  pub layered : Layered pss
  pub frozen_after : Before (in_tables pss) (in_frozen db.frozen)
  pub active_after : Before (in_tables pss ++ in_frozen db.frozen) (MemTable.iter db.active)
  pub seq_below : All (λ r. r.seq < db.next_seq) (contents pss db)
  pub seq_fits : db.next_seq < 2 ^ 64

-- A version that the newer layer sees hides the older layer.
abbrev pub prefer : Option Record → Option Record → Option Record
prefer none o = o
prefer (some r) o = some r

pub newest-Before :
    (key : Bytes) (bound : ℕ) (xs ys : List Record)
    → Before xs ys
    → newest key bound (xs ++ ys) ≡ prefer (newest key bound ys) (newest key bound xs)
newest-Before key bound xs ys b =
    newest-append key bound xs ys
    ∙ layered (newest key bound xs) (newest key bound ys) (newest-IsNewest key bound xs)
        (newest-IsNewest key bound ys)
  where
    layered :
        (o p : Option Record)
        → IsNewest key bound xs o
        → IsNewest key bound ys p
        → later o p ≡ prefer p o
    layered none none m n = refl
    layered none (some s) m n = refl
    layered (some r) none m n = refl
    layered (some r) (some s) m n =
        let l = All-at _ s ys (All-at _ r xs b m.0) n.0 in rw (lt→ltb r.seq s.seq l)

pub Before-append : (xs ys zs : List Record) → Before xs zs → Before ys zs → Before (xs ++ ys) zs
Before-append xs ys zs a b = All-append _ xs ys a b

pub Before-nil : (xs : List Record) → Before xs []
Before-nil [] = tt
Before-nil (x ∷ xs) = (tt, Before-nil xs)

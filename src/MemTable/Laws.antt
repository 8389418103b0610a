-- ===== src/MemTable/Laws.antt =====
-- The MemTable's invariant, and its operations as operations on the set of versions.
pub mod Lookup
pub mod Range
use Prim.Native.Nat.Ordering.{lt, eq, gt}
use lsm_tree_key_value_stora.Prelude.{
  ℕ, ◌+◌, ◌≤◌, ◌≡◌, ◌≢◌, refl, ap, sym, subst, ◌∙◌, true, false, Option, none, some, List, [], ◌∷◌,
  arith, All, Bool-cases, inl, inr, ltb,
}
use lsm_tree_key_value_stora.Order.{
  VersionKey, version_ord, rev, gt_irrefl, eq_of_key_eq, cmp_cases, key_eq_refl,
}
use lsm_tree_key_value_stora.Bytes.{Bytes}
use lsm_tree_key_value_stora.Record.{Record, encoded_len}
use lsm_tree_key_value_stora.Visible.{version_key, sees, later, pick, newest}
use lsm_tree_key_value_stora.Visible.Laws.{later-pick_same, later-pick_comm}
use lsm_tree_key_value_stora.SortedMap
use lsm_tree_key_value_stora.SortedMap.{Entries, values, IsSorted}
use lsm_tree_key_value_stora.SortedMap.Laws.{
  insert-lt, insert-eq, insert-gt, insert-IsSorted, lookup-Below, Below-trans,
}
use lsm_tree_key_value_stora.MemTable.{MemTable, u64_max, grown, new, insert, iter}

abbrev pub Keyed : VersionKey × Record → Type 0
Keyed e = (e.0 ≡ version_key e.1) × (e.1.seq ≤ u64_max)

abbrev pub total_len : List Record → ℕ
total_len [] = 0
total_len (r ∷ rs) = encoded_len r + total_len rs

pub record IsValid (m : MemTable) : Type 0 where
  pub sorted : IsSorted m.map
  pub keyed : All Keyed m.map
  pub counted : m.size ≡ total_len (values m.map)

pub new-IsValid : (threshold : ℕ) → IsValid (new threshold)
new-IsValid t = record { sorted = tt; keyed = tt; counted = refl }

insert-Keyed :
    (r : Record) (m : Entries VersionKey Record)
    → r.seq ≤ u64_max
    → All Keyed m
    → All Keyed (SortedMap.insert (version_key r) r m)
unfolding SortedMap.insert
insert-Keyed r [] h a = ((refl, h), tt)
insert-Keyed r (e ∷ m) h a = ground (arith, insert-Keyed r m h a.1)

abbrev old_len : Option Record → ℕ
old_len none = 0
old_len (some r) = encoded_len r

total_len-insert :
    (k : VersionKey) (r : Record) (m : Entries VersionKey Record)
    → IsSorted m
    → total_len (values (SortedMap.insert k r m)) + old_len (SortedMap.lookup k m)
      ≡ total_len (values m) + encoded_len r
unfolding SortedMap.insert SortedMap.lookup
total_len-insert k r [] s = omega arith
total_len-insert k r (e ∷ m) s =
    ground (arith, total_len-insert k r m s.1, lookup-Below k m, Below-trans k e.0 m)

old_len-le :
    (k : VersionKey) (m : Entries VersionKey Record)
    → old_len (SortedMap.lookup k m) ≤ total_len (values m)
unfolding SortedMap.lookup
old_len-le k [] = omega arith
old_len-le k (e ∷ m) = ground (arith, old_len-le k m)

-- `insert` keeps the invariant; the subtraction in its size never passes zero.
pub insert-IsValid :
    (r : Record) (m : MemTable) → r.seq ≤ u64_max → IsValid m → IsValid (insert r m)
unfolding insert
insert-IsValid r m h v = record {
  sorted = insert-IsSorted (version_key r) r m.map v.sorted;
  keyed = insert-Keyed r m.map h v.keyed;
  counted = ground (
    arith,
    v.counted,
    total_len-insert (version_key r) r m.map v.sorted,
    old_len-le (version_key r) m.map,
  );
}

newest-SortedMap-insert :
    (key : Bytes) (bound : ℕ) (r : Record) (m : Entries VersionKey Record)
    → All Keyed m
    → newest key bound (values (SortedMap.insert (version_key r) r m))
      ≡ later (pick key bound r) (newest key bound (values m))
unfolding SortedMap.insert newest
newest-SortedMap-insert key bound r [] a = refl
newest-SortedMap-insert key bound r (e ∷ m) a =
    let ih = newest-SortedMap-insert key bound r m a.1 in
    elim (cmp_cases (version_key r) e.0) [
      | inl l ↦ rw (insert-lt (version_key r) r e m l)
      | inr (inl q) ↦
          rw (insert-eq (version_key r) r e m q)
            (sym (later-pick_same key bound r e.1 _ (version_ord.eq_of_cmp _ _ q ∙ a.0.0)))
      | inr (inr g) ↦ rw (insert-gt (version_key r) r e m g) (
          ap (later (pick key bound e.1)) ih
          ∙ later-pick_comm key bound e.1 r _
              λ d. gt_irrefl e.0 (subst (λ k. version_ord.cmp k e.0 ≡ gt) (sym (a.0.0 ∙ d)) g))
    ]

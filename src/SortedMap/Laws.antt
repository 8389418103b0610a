-- ===== src/SortedMap/Laws.antt =====
-- The order of the entries, and `lookup` after `insert`.
use Prim.Native.Nat.Ordering.{lt, eq, gt}
use lsm_tree_key_value_stora.Prelude.{
  ◌≡◌, refl, none, some, [], ◌∷◌, arith, if◌then◌else◌, inl, inr, Bool-cases,
}
use lsm_tree_key_value_stora.Order.{Ord, ◌≺◌, key_eq, gt_iff_lt}
use lsm_tree_key_value_stora.SortedMap.{Entries, lookup, insert, remove, Below, IsSorted}

module _ {ℓ κ} {K : Type ℓ} {V : Type κ} ⦃o : Ord K⦄ where
  pub Below-trans : (j k : K) (m : Entries K V) → j ≺ k → Below k m → Below j m
  Below-trans j k [] h b = tt
  Below-trans j k (e ∷ m) h b = (o.lt_trans j k e.0 h b.0, Below-trans j k m h b.1)

  Below-insert : (j k : K) (v : V) (m : Entries K V) → j ≺ k → Below j m → Below j (insert k v m)
  unfolding insert
  Below-insert j k v [] h b = (h, tt)
  Below-insert j k v (e ∷ m) h b = ground (arith, Below-insert j k v m h b.1)

  pub insert-IsSorted : (k : K) (v : V) (m : Entries K V) → IsSorted m → IsSorted (insert k v m)
  unfolding insert
  insert-IsSorted k v [] s = (tt, tt)
  insert-IsSorted k v (e ∷ m) s = ground (
    arith,
    insert-IsSorted k v m s.1,
    Below-insert e.0 k v m,
    Below-trans k e.0 m,
    gt_iff_lt k e.0,
    o.eq_of_cmp k e.0,
  )

  Below-remove : (j k : K) (m : Entries K V) → Below j m → Below j (remove k m)
  unfolding remove
  Below-remove j k [] b = tt
  Below-remove j k (e ∷ m) b = elim (Bool-cases (key_eq k e.0)) [
    | inl h ↦ rw h b.1
    | inr h ↦ rw h (b.0, Below-remove j k m b.1)
  ]

  pub remove-IsSorted : (k : K) (m : Entries K V) → IsSorted m → IsSorted (remove k m)
  unfolding remove
  remove-IsSorted k [] s = tt
  remove-IsSorted k (e ∷ m) s = elim (Bool-cases (key_eq k e.0)) [
    | inl h ↦ rw h s.1
    | inr h ↦ rw h (Below-remove e.0 k m s.0, remove-IsSorted k m s.1)
  ]

  pub lookup-Below : (k : K) (m : Entries K V) → Below k m → lookup k m ≡ none
  unfolding lookup
  lookup-Below k [] b = refl
  lookup-Below k (e ∷ m) b = rw b.0 (lookup-Below k m b.1)

  pub lookup-insert :
      (k j : K) (v : V) (m : Entries K V)
      → lookup j (insert k v m) ≡ (if key_eq j k then some v else lookup j m)
  unfolding lookup insert
  lookup-insert k j v [] = refl
  lookup-insert k j v (e ∷ m) = ground (
    arith,
    lookup-insert k j v m,
    o.eq_of_cmp k e.0,
    o.eq_of_cmp j e.0,
    o.eq_of_cmp j k,
    o.cmp_swap j k,
    o.cmp_refl k,
  )

-- The three ways in which `insert` meets an entry.
module _ {ℓ κ} {K : Type ℓ} {V : Type κ} ⦃o : Ord K⦄ (k : K) (v : V) (e : K × V)
    (m : Entries K V) where
  pub insert-lt : o.cmp k e.0 ≡ lt → insert k v (e ∷ m) ≡ (k, v) ∷ (e ∷ m)
  unfolding insert
  insert-lt h = ground arith

  pub insert-eq : o.cmp k e.0 ≡ eq → insert k v (e ∷ m) ≡ (k, v) ∷ m
  unfolding insert
  insert-eq h = ground arith

  pub insert-gt : o.cmp k e.0 ≡ gt → insert k v (e ∷ m) ≡ e ∷ insert k v m
  unfolding insert
  insert-gt h = ground arith

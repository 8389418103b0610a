-- ===== src/Db/Reclaim.antt =====
-- src/db.rs, the reclaiming loop of `assemble`: which tables are still there when the live ones are
-- opened.
use lsm_tree_key_value_stora.Prelude.{
  ℕ, ◌≡◌, refl, ap, Bool, true, false, List, [], ◌∷◌, All, inl, inr, Bool-cases, ◌==◌, eq_of_==,
}
use lsm_tree_key_value_stora.Order.{nat_ord, key_eq, key_eq_refl}
use lsm_tree_key_value_stora.Errors.{Result, ok}
use lsm_tree_key_value_stora.Visible.Runs.{All-map}
use lsm_tree_key_value_stora.SortedMap
use lsm_tree_key_value_stora.SortedMap.{Entries}
use lsm_tree_key_value_stora.SsTable.Reader.{ReadFile}
use lsm_tree_key_value_stora.Db.Open.{
  Name, sst_name, scratch_name, other_name, is_live, names_table, reclaim, table_at, open_live,
}

module _ (live : Entries ℕ (Unit {0})) (removed : Name → Result (Unit {0}))
    (works : (name : Name) → removed name ≡ ok tt) where
  -- Of a listing, a live table is left if it was there.
  abbrev pub Left : List Name → List Name → Type 0
  Left names left =
      (id : ℕ)
      → is_live (SortedMap.lookup id live) ≡ true
      → names_table id names ≡ true
      → names_table id left ≡ true

  Left-cons :
      (n : ℕ) (names left : List Name)
      → Left names left
      → Left (sst_name n ∷ names) (sst_name n ∷ left)
  unfolding names_table
  Left-cons n names left k id l h = elim (Bool-cases (id == n)) [
    | inl e ↦ rw e refl
    | inr e ↦ rw e (k id l (rw e at h))
  ]

  Left-orphan :
      (n : ℕ) (names left : List Name)
      → is_live (SortedMap.lookup n live) ≡ false
      → Left names left
      → Left (sst_name n ∷ names) left
  unfolding names_table
  Left-orphan n names left dead k id l h = elim (Bool-cases (id == n)) [
    | inl e ↦
        let same : id ≡ n = eq_of_== id n e in
        absurd (cc (l, dead, ap (λ i. is_live (SortedMap.lookup i live)) same))
    | inr e ↦ k id l (rw e at h)
  ]

  -- The loop ends, and leaves the live tables that were there.
  pub reclaim-Left :
      (names : List Name)
      → (left : List Name) × (reclaim live removed names ≡ ok left) × Left names left
  unfolding reclaim names_table
  reclaim-Left [] = ([], refl, λ id l h. h)
  reclaim-Left (sst_name n ∷ names) =
      let (left, e, k) = reclaim-Left names in
      elim (Bool-cases (is_live (SortedMap.lookup n live))) [
        | inl q ↦ (sst_name n ∷ left, rw (q, e) refl, Left-cons n names left k)
        | inr q ↦ (left, rw (q, works (sst_name n), e) refl, Left-orphan n names left q k)
      ]
  reclaim-Left (scratch_name ∷ names) =
      let (left, e, k) = reclaim-Left names in (left, rw (works scratch_name, e) refl, k)
  reclaim-Left (other_name ∷ names) =
      let (left, e, k) = reclaim-Left names in (other_name ∷ left, rw e refl, k)

-- An entry of a map is found in it.
entry_live :
    (e : ℕ × Unit {0}) (m : Entries ℕ (Unit {0})) → is_live (SortedMap.lookup e.0 (e ∷ m)) ≡ true
unfolding SortedMap.lookup
entry_live e m = rw (key_eq_refl e.0) refl

still_live :
    (j : ℕ) (e : ℕ × Unit {0}) (m : Entries ℕ (Unit {0}))
    → is_live (SortedMap.lookup j m) ≡ true
    → is_live (SortedMap.lookup j (e ∷ m)) ≡ true
unfolding SortedMap.lookup
still_live j e m h = elim (Bool-cases (key_eq j e.0)) [ inl q ↦ rw q refl | inr q ↦ rw q h ]

-- Every entry of a map is live.
pub all_live : (m : Entries ℕ (Unit {0})) → All (λ e. is_live (SortedMap.lookup e.0 m) ≡ true) m
all_live [] = tt
all_live (e ∷ m) = (entry_live e m, All-map m (λ j h. still_live j.0 e m h) (all_live m))

-- Tables whose names are left open as they would have before.
pub open_live-table_at :
    (sst_file : ℕ → Result ReadFile) (left : List Name) (bloom_enabled : Bool)
    (m : Entries ℕ (Unit {0}))
    → All (λ e. names_table e.0 left ≡ true) m
    → open_live (table_at sst_file left) bloom_enabled m ≡ open_live sst_file bloom_enabled m
unfolding open_live table_at
open_live-table_at sst_file left bloom_enabled [] a = refl
open_live-table_at sst_file left bloom_enabled (e ∷ m) a =
    rw (a.0, open_live-table_at sst_file left bloom_enabled m a.1) refl

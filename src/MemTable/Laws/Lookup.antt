-- ===== src/MemTable/Laws/Lookup.antt =====
-- `get_at` reads the newest visible version, and `iter` yields a run.
use lsm_tree_key_value_stora.Prelude.{
  ℕ, ◌≤◌, ◌<◌, ◌≡◌, refl, ap, sym, subst, ◌∙◌, [], ◌∷◌, arith, All, Bool-cases, inl, inr, ◌⊎◌,
}
use lsm_tree_key_value_stora.Order.{
  VersionKey, version_ord, bytes_ord, nat_ord, rev_ord, pair_ord, rev, key_lt, cmp_cases,
  cmp-eq_of_eq, lt_of_key_lt, gt_iff_lt, ◌≺◌,
}
use lsm_tree_key_value_stora.Bytes.{Bytes}
use lsm_tree_key_value_stora.Record.{Record}
use lsm_tree_key_value_stora.Visible.{version_key, later, pick, newest, IsRun, ◌⊲◌}
use lsm_tree_key_value_stora.Visible.Runs.{
  newest_beyond, newest_skip, newest_first, ⊲_cases, not_seen_gt,
}
use lsm_tree_key_value_stora.SortedMap
use lsm_tree_key_value_stora.SortedMap.{Entries, values, IsSorted, Below}
use lsm_tree_key_value_stora.MemTable.{
  MemTable, u64_max, find_below, versions_of, get_at, iter, insert,
}
use lsm_tree_key_value_stora.MemTable.Laws.{Keyed, IsValid, insert-IsValid, newest-SortedMap-insert}

Below-values :
    (r : Record) (m : Entries VersionKey Record)
    → All Keyed m
    → Below (version_key r) m
    → All (λ s. r ⊲ s) (values m)
Below-values r [] a b = tt
Below-values r (e ∷ m) a b = (subst (λ k. version_key r ≺ k) a.0.0 b.0, Below-values r m a.1 b.1)

values-IsRun : (m : Entries VersionKey Record) → All Keyed m → IsSorted m → IsRun (values m)
values-IsRun [] a s = tt
values-IsRun (e ∷ m) a s =
    (Below-values e.1 m a.1 (subst (λ k. Below k m) a.0.0 s.0), values-IsRun m a.1 s.1)

-- A flush streams the MemTable in the order that an SSTable wants.
pub iter-IsRun : (m : MemTable) → IsValid m → IsRun (iter m)
unfolding iter
iter-IsRun m v = values-IsRun m.map v.keyed v.sorted

-- Where `range_from (key, MAX)` and `range_to (key, 0)` cut.
past_key : (key : Bytes) (w : Record) → key_lt (key, rev 0) (version_key w) ≡ key_lt key w.key
unfolding pair_ord rev_ord nat_ord
past_key key w = ground arith

before_key :
    (key : Bytes) (w : Record)
    → w.seq ≤ u64_max
    → key_lt (version_key w) (key, rev u64_max) ≡ key_lt w.key key
unfolding pair_ord rev_ord nat_ord
before_key key w h = ground arith

abbrev NotBelow : Bytes → VersionKey × Record → Type 0
NotBelow key e = ¬ (e.1.key ≺ key)

find_in_range :
    (key : Bytes) (bound : ℕ) (m : Entries VersionKey Record)
    → All Keyed m
    → IsRun (values m)
    → All (NotBelow key) m
    → find_below bound (values (SortedMap.range_to (key, rev 0) m)) ≡ newest key bound (values m)
unfolding find_below SortedMap.range_to
find_in_range key bound [] a s n = unfold newest in refl
find_in_range key bound (e ∷ m) a s n =
    let ih = find_in_range key bound m a.1 s.1 n.1 in
    rw (a.0.0, past_key key e.1)
      (elim (cmp_cases e.1.key key) [
        | inl l ↦ absurd (n.0 l)
        | inr (inl q) ↦
            let k = bytes_ord.eq_of_cmp e.1.key key q in
            rw (cmp-eq_of_eq key e.1.key (sym k), newest_first key bound e.1 _ k s.0, ih)
        | inr (inr g) ↦
            let l = gt_iff_lt e.1.key key g in rw (l, newest_beyond key bound e.1 _ l s.0)
      ])

-- Behind an entry that is not below `key` there is none below it.
NotBelow-rest :
    (key : Bytes) (e : VersionKey × Record) (m : Entries VersionKey Record)
    → NotBelow key e
    → All (λ s. e.1 ⊲ s) (values m)
    → All (NotBelow key) m
NotBelow-rest key e [] h a = tt
NotBelow-rest key e (d ∷ m) h a = (rest (⊲_cases e.1 d.1 a.0), NotBelow-rest key e m h a.1)
  where
    rest : (e.1.key ≺ d.1.key) ⊎ ((e.1.key ≡ d.1.key) × (d.1.seq < e.1.seq)) → NotBelow key d
    rest (inl l) q = h (bytes_ord.lt_trans e.1.key d.1.key key l q)
    rest (inr (k, _)) q = h (rw k q)

find_from_start :
    (key : Bytes) (bound : ℕ) (m : Entries VersionKey Record)
    → All Keyed m
    → IsRun (values m)
    → find_below bound
        (values (SortedMap.range_to (key, rev 0) (SortedMap.range_from (key, rev u64_max) m)))
      ≡ newest key bound (values m)
unfolding SortedMap.range_from
find_from_start key bound [] a s = find_in_range key bound [] a s tt
find_from_start key bound (e ∷ m) a s =
    let ih = find_from_start key bound m a.1 s.1 in
    rw (a.0.0, before_key key e.1 a.0.1)
      (elim (Bool-cases (key_lt e.1.key key)) [
        | inl l ↦
            let skip =
              newest_skip key bound e.1 (values m)
                (not_seen_gt key bound e.1 (lt_of_key_lt e.1.key key l)) in
            rw (l, skip) ih
        | inr g ↦
            rw (g, ← a.0.0)
              (find_in_range key bound (e ∷ m) a s (
                let h : NotBelow key e = λ q. ground (arith, q, g) in
                (h, NotBelow-rest key e m h s.0)))
      ])

-- A read below a bound finds the newest version that the bound can see.
pub get_at-eq-newest :
    (key : Bytes) (bound : ℕ) (m : MemTable)
    → IsValid m
    → get_at key bound m ≡ newest key bound (iter m)
unfolding get_at versions_of iter
get_at-eq-newest key bound m v =
    find_from_start key bound m.map v.keyed (values-IsRun m.map v.keyed v.sorted)

-- The contents of the MemTable after `insert`.
pub newest-insert :
    (key : Bytes) (bound : ℕ) (r : Record) (m : MemTable)
    → IsValid m
    → newest key bound (iter (insert r m)) ≡ later (pick key bound r) (newest key bound (iter m))
unfolding iter insert
newest-insert key bound r m v = newest-SortedMap-insert key bound r m.map v.keyed

-- After `insert`, a read finds the new record where it sees it and nothing newer, and otherwise
-- what it found before.
pub get_at-insert :
    (key : Bytes) (bound : ℕ) (r : Record) (m : MemTable)
    → r.seq ≤ u64_max
    → IsValid m
    → get_at key bound (insert r m) ≡ later (pick key bound r) (get_at key bound m)
get_at-insert key bound r m h v =
    get_at-eq-newest key bound (insert r m) (insert-IsValid r m h v)
    ∙ newest-insert key bound r m v
    ∙ ap (later (pick key bound r)) (sym (get_at-eq-newest key bound m v))

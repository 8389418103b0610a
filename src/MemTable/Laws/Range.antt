-- ===== src/MemTable/Laws/Range.antt =====
-- What a range holds.
use lsm_tree_key_value_stora.Prelude.{
  ◌≤◌, ◌≡◌, ap, ◌∙◌, true, false, Option, none, some, List, [], ◌∷◌, arith, All, Bool-cases, inl,
  inr, ◌↔◌,
}
use lsm_tree_key_value_stora.Order.{
  ≼_refl, ◌≺◌, ◌≼◌, key_lt, ≼_trans, ≼_of_≺, lt_of_key_lt, bytes_ord, version_ord, pair_ord,
  rev_ord, nat_ord, rev, VersionKey,
}
use lsm_tree_key_value_stora.SortedMap
use lsm_tree_key_value_stora.SortedMap.{Entries, values, IsSorted, Below}
use lsm_tree_key_value_stora.Bytes.{Bytes}
use lsm_tree_key_value_stora.Record.{Record}
use lsm_tree_key_value_stora.Members.{◌∈◌, All-at}
use lsm_tree_key_value_stora.Visible.{version_key, IsRun, ◌⊲◌}
use lsm_tree_key_value_stora.Visible.Runs.{⊲_cases}
use lsm_tree_key_value_stora.MemTable.{MemTable, u64_max, range, iter, take_below, start_at}
use lsm_tree_key_value_stora.MemTable.Laws.{Keyed, IsValid}
use lsm_tree_key_value_stora.MemTable.Laws.Lookup.{iter-IsRun}

abbrev pub FromStart : Option Bytes → Record → Type 0
FromStart none r = Unit
FromStart (some k) r = k ≼ r.key

abbrev pub BeforeEnd : Option Bytes → Record → Type 0
BeforeEnd none r = Unit
BeforeEnd (some e) r = r.key ≺ e

-- Where `range_from (key, MAX)` cuts.
cut :
    (key : Bytes) (w : Record)
    → w.seq ≤ u64_max
    → key_lt (version_key w) (key, rev u64_max) ≡ key_lt w.key key
unfolding pair_ord rev_ord nat_ord
cut key w l = ground arith

first_key_≼ : (r s : Record) → r ⊲ s → r.key ≼ s.key
first_key_≼ r s h = elim (⊲_cases r s h) [
  | inl l ↦ ≼_of_≺ r.key s.key l
  | inr (e, _) ↦ rw e (≼_refl s.key)
]

not_≺_of_≼ : (a b : Bytes) → a ≼ b → ¬ (b ≺ a)
not_≺_of_≼ a b h l = cc (rw l at h)

-- The records from a key on, in a run that the map holds.
module _ (key : Bytes) where
  abbrev from : Entries VersionKey Record → List Record
  from m = values (SortedMap.range_from (key, rev u64_max) m)

  from_cases :
      (P : List Record → Type 0) (e : VersionKey × Record) (m : Entries VersionKey Record)
      → Keyed e
      → (key_lt e.1.key key ≡ true → P (from m))
      → (key_lt e.1.key key ≡ false → P (e.1 ∷ values m))
      → P (from (e ∷ m))
  unfolding SortedMap.range_from
  from_cases P e m k f g =
      let c : key_lt e.0 (key, rev u64_max) ≡ key_lt e.1.key key =
        ap (λ j. key_lt j (key, rev u64_max)) k.0 ∙ cut key e.1 k.1 in
      elim (Bool-cases (key_lt e.1.key key)) [ inl h ↦ rw (c ∙ h) (f h) | inr h ↦ rw (c ∙ h) (g h) ]

  from-sound :
      (m : Entries VersionKey Record) (x : Record)
      → All Keyed m
      → IsRun (values m)
      → x ∈ from m
      → (x ∈ values m) × (key ≼ x.key)
  unfolding SortedMap.range_from
  from-sound [] x a s = λ k. absurd k
  from-sound (e ∷ m) x a s =
      from_cases (λ l. x ∈ l → (x ∈ values (e ∷ m)) × (key ≼ x.key)) e m a.0
        (λ _ k. let (i, l) = from-sound m x a.1 s.1 k in (inr i, l))
        (λ h. elim [
          | inl q ↦ (inl q, rw q h)
          | inr i ↦ (
            inr i,
            ≼_trans key e.1.key x.key h
                (first_key_≼ e.1 x (All-at (λ u. e.1 ⊲ u) x (values m) s.0 i)),
          )
        ])

  from-complete :
      (m : Entries VersionKey Record) (x : Record)
      → All Keyed m
      → x ∈ values m
      → key ≼ x.key
      → x ∈ from m
  unfolding SortedMap.range_from
  from-complete [] x a k l = absurd k
  from-complete (e ∷ m) x a k l =
      from_cases (λ l. x ∈ l) e m a.0
        (λ h. elim k [
          | inl q ↦ absurd (cc (h, ap (λ u. key_lt u.key key) q, l))
          | inr i ↦ from-complete m x a.1 i l
        ])
        (λ _. k)

  from-IsRun : (m : Entries VersionKey Record) → All Keyed m → IsRun (values m) → IsRun (from m)
  unfolding SortedMap.range_from
  from-IsRun [] a s = tt
  from-IsRun (e ∷ m) a s = from_cases IsRun e m a.0 (λ _. from-IsRun m a.1 s.1) (λ _. s)

module _ (end : Bytes) where
  take_below-sound :
      (rs : List Record) (x : Record) → x ∈ take_below (some end) rs → (x ∈ rs) × (x.key ≺ end)
  unfolding take_below
  take_below-sound [] x = λ k. absurd k
  take_below-sound (r ∷ rs) x = elim (Bool-cases (key_lt r.key end)) [
    | inl h ↦ rw h (elim [
      | inl e ↦ (inl e, rw e (lt_of_key_lt r.key end h))
      | inr k ↦ let (i, l) = take_below-sound rs x k in (inr i, l)
    ])
    | inr h ↦ rw h (λ k. absurd k)
  ]

  take_below-complete :
      (rs : List Record) (x : Record)
      → IsRun rs
      → x ∈ rs
      → x.key ≺ end
      → x ∈ take_below (some end) rs
  unfolding take_below
  take_below-complete [] x s k l = absurd k
  take_below-complete (r ∷ rs) x s k l = elim (Bool-cases (key_lt r.key end)) [
    | inl h ↦ rw h (elim k [ inl e ↦ inl e | inr i ↦ inr (take_below-complete rs x s.1 i l) ])
    | inr h ↦ absurd (elim k [
      | inl e ↦ lt_of r x e h l
      | inr i ↦
          not_≺_of_≼ end x.key
            (≼_trans end r.key x.key h (first_key_≼ r x (All-at (λ u. r ⊲ u) x rs s.0 i))) l
    ])
  ]
    where
      lt_of : (r x : Record) → x ≡ r → key_lt r.key end ≡ false → x.key ≺ end → ⊥
      lt_of r x e h l = not_≺_of_≼ end x.key (rw e h) l

start_at-cases :
    (start : Option Bytes) (m : Entries VersionKey Record) (x : Record)
    → All Keyed m
    → IsRun (values m)
    → IsRun (values (start_at start m))
      × ((x ∈ values (start_at start m)) ↔ ((x ∈ values m) × FromStart start x))
start_at-cases none m x a s = (s, (λ k. (k, tt), λ k. k.0))
start_at-cases (some key) m x a s =
    (from-IsRun key m a s, (from-sound key m x a s, λ k. from-complete key m x a k.0 k.1))

-- A range of a valid MemTable holds exactly the versions whose keys are not below its start and
-- below its end, where it has them.
pub range_members :
    (start end : Option Bytes) (m : MemTable) (x : Record)
    → IsValid m
    → (x ∈ range start end m) ↔ ((x ∈ iter m) × FromStart start x × BeforeEnd end x)
unfolding range iter take_below
range_members start none m x v =
    let (_, c) = start_at-cases start m.map x v.keyed (iter-IsRun m v) in
    (λ k. let (i, l) = c.0 k in (i, l, tt), λ k. c.1 (k.0, k.1))
range_members start (some e) m x v =
    let (run, c) = start_at-cases start m.map x v.keyed (iter-IsRun m v) in
    (
      λ k.
          let (i, l) = take_below-sound e (values (start_at start m.map)) x k in
          let (j, s) = c.0 i in (j, s, l),
      λ k. take_below-complete e (values (start_at start m.map)) x run (c.1 (k.0, k.1)) k.2,
    )

-- ===== src/Compaction/Peel.antt =====
-- What the peeling of trailing tombstones leaves of the versions of one key, and the whole of what
-- is kept of a group.
use lsm_tree_key_value_stora.Prelude.{
  ℕ, ◌≤◌, ◌<◌, ◌≡◌, refl, ap, ◌∙◌, Bool, true, false, ◌&&◌, Option, none, some, List, [], ◌∷◌,
  length, inl, inr, ◌⊎◌, ◌==◌, Bool-cases, and_true, eq_of_==,
}
use lsm_tree_key_value_stora.Bytes.{Bytes}
use lsm_tree_key_value_stora.Record.{Record}
use lsm_tree_key_value_stora.Members.{◌∈◌, All-of, All-at}
use lsm_tree_key_value_stora.Compaction.{sort_desc, retain, peel, keep_group, is_tombstone}
use lsm_tree_key_value_stora.Compaction.Sort.{
  Falling, sort_desc_sound, sort_desc_complete, sort_desc-Falling,
}
use lsm_tree_key_value_stora.Compaction.Retain.{
  retain_sound, retain_complete, retain-Falling, retain-one_below,
}

pub peel_cases :
    (P : List Record → Type 0) (r : Record) (rs : List Record)
    → (length (peel rs) ≡ 0 → r.value ≡ none → P [])
    → P (r ∷ peel rs)
    → P (peel (r ∷ rs))
unfolding peel
peel_cases P r rs f g = elim (Bool-cases (length (peel rs) == 0 && is_tombstone r)) [
  | inl e ↦ rw e (
      f (eq_of_== (length (peel rs)) 0 (and_true _ _ e).0)
        (none_of r.value (and_true (length (peel rs) == 0) (is_tombstone r) e).1))
  | inr e ↦ rw e g
]
  where
    none_of : (o : Option Bytes) → (elim o [ none ↦ true | some v ↦ false ]) ≡ true → o ≡ none
    none_of none e = refl
    none_of (some v) e = cc

pub peel_sound : (rs : List Record) (x : Record) → x ∈ peel rs → x ∈ rs
unfolding peel
peel_sound [] x = λ k. k
peel_sound (r ∷ rs) x =
    peel_cases (λ l. x ∈ l → x ∈ (r ∷ rs)) r rs (λ _ _ k. absurd k)
      (elim [ inl e ↦ inl e | inr k ↦ inr (peel_sound rs x k) ])

peel-Falling : (rs : List Record) → Falling rs → Falling (peel rs)
unfolding peel
peel-Falling [] f = tt
peel-Falling (r ∷ rs) f =
    peel_cases Falling r rs (λ _ _. tt)
      (
        All-of (λ s. s.seq ≤ r.seq) (peel rs)
            (λ s k. All-at (λ u. u.seq ≤ r.seq) s rs f.0 (peel_sound rs s k)),
        peel-Falling rs f.1,
      )

-- A version that is peeled off is a tombstone, and nothing older than it stays.
abbrev pub Peeled : Record → List Record → Type 0
Peeled x left = (x.value ≡ none) × ((t : Record) → t ∈ left → x.seq ≤ t.seq)

peel_complete :
    (rs : List Record) (x : Record) → Falling rs → x ∈ rs → (x ∈ peel rs) ⊎ Peeled x (peel rs)
unfolding peel
peel_complete [] x f k = absurd k
peel_complete (r ∷ rs) x f (inl e) =
    peel_cases (λ l. (x ∈ l) ⊎ Peeled x l) r rs
      (λ _ v. inr (ap (λ y. y.value) e ∙ v, λ t k. absurd k)) (inl (inl e))
peel_complete (r ∷ rs) x f (inr k) =
    peel_cases (λ l. (x ∈ l) ⊎ Peeled x l) r rs
      (λ n _. elim (peel_complete rs x f.1 k) [
        | inl i ↦ absurd (nothing (peel rs) n i)
        | inr p ↦ inr (p.0, λ t i. absurd i)
      ])
      (elim (peel_complete rs x f.1 k) [
        | inl i ↦ inl (inr i)
        | inr p ↦ inr (
          p.0,
          λ t. elim [ inl e ↦ rw e (All-at (λ u. u.seq ≤ r.seq) x rs f.0 k) | inr i ↦ p.1 t i ],
        )
      ])
  where
    nothing : (l : List Record) → length l ≡ 0 → ¬ (x ∈ l)
    nothing [] e i = i
    nothing (y ∷ l) e i = cc

module _ (drop_tombstones : Bool) (min_snapshot_seq : ℕ) (group : List Record) where
  abbrev kept : List Record
  kept = retain min_snapshot_seq false (sort_desc group)

  abbrev pub left : List Record
  left = keep_group drop_tombstones min_snapshot_seq group

  kept-Falling : Falling kept
  kept-Falling = retain-Falling min_snapshot_seq false (sort_desc group) (sort_desc-Falling group)

  left_is_kept : (x : Record) → x ∈ left → x ∈ kept
  unfolding keep_group
  left_is_kept x = elim (Bool-cases drop_tombstones) [
    | inl e ↦ rw e (peel_sound kept x)
    | inr e ↦ rw e (λ k. k)
  ]

  pub keep_group_sound : (x : Record) → x ∈ left → x ∈ group
  keep_group_sound x k =
      sort_desc_sound group x
        (retain_sound min_snapshot_seq false (sort_desc group) x (left_is_kept x k))

  pub keep_group-Falling : Falling left
  unfolding keep_group
  keep_group-Falling = elim (Bool-cases drop_tombstones) [
    | inl e ↦ rw e (peel-Falling kept kept-Falling)
    | inr e ↦ rw e kept-Falling
  ]

  pub keep_group-one_below :
      (x y : Record)
      → x.seq < min_snapshot_seq
      → y.seq < min_snapshot_seq
      → x ∈ left
      → y ∈ left
      → x ≡ y
  keep_group-one_below x y lx ly kx ky =
      retain-one_below min_snapshot_seq (sort_desc group) x y lx ly (left_is_kept x kx)
        (left_is_kept y ky)

  left_or_Peeled : (x : Record) → x ∈ kept → (x ∈ left) ⊎ ((drop_tombstones ≡ true) × Peeled x left)
  unfolding keep_group
  left_or_Peeled x k = elim (Bool-cases drop_tombstones) [
    | inl e ↦
        rw e (elim (peel_complete kept x kept-Falling k) [ inl i ↦ inl i | inr p ↦ inr (refl, p) ])
    | inr e ↦ rw e (inl k)
  ]

  -- For each version below a bound above the horizon, one that is no older stays, or is a
  -- tombstone that was peeled off.
  pub keep_group_complete :
      (bound : ℕ) (x : Record)
      → min_snapshot_seq ≤ bound
      → x ∈ group
      → x.seq < bound
      → (s : Record) × (s ∈ group)
        × (x.seq ≤ s.seq)
        × (s.seq < bound)
        × ((s ∈ left) ⊎ ((drop_tombstones ≡ true) × Peeled s left))
  keep_group_complete bound x m k l =
      let (s, ks, a, b) =
        retain_complete min_snapshot_seq bound (sort_desc group) x m (sort_desc-Falling group)
          (sort_desc_complete group x k) l in
      (
        s,
        sort_desc_sound group s (retain_sound min_snapshot_seq false (sort_desc group) s ks),
        a,
        b,
        left_or_Peeled s ks,
      )

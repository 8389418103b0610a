-- ===== src/Compaction/Groups.antt =====
-- The groups of a stream whose keys ascend hold all versions of a key each.
use lsm_tree_key_value_stora.Prelude.{
  ℕ, zero, suc, ◌≤◌, ◌<◌, ◌≡◌, ap, sym, subst, ◌∙◌, Bool, true, none, List, [], ◌∷◌, ◌++◌, arith,
  length, inl, inr, ◌⊎◌,
}
use lsm_tree_key_value_stora.Order.{◌≺◌, lt_irrefl, bytes_ord}
use lsm_tree_key_value_stora.Record.{Record}
use lsm_tree_key_value_stora.Members.{◌∈◌, ∈-append_cases, ∈-append_left, ∈-append_right}
use lsm_tree_key_value_stora.Compaction.{same_key, keep_group, keep_groups}
use lsm_tree_key_value_stora.Compaction.Round.{Ascending}
use lsm_tree_key_value_stora.Compaction.Peel.{
  keep_group_sound, keep_group_complete, keep_group-one_below,
}
use lsm_tree_key_value_stora.Compaction.SameKey.{
  length-same_key, same_key-Ascending, same_key-beyond, same_key-key, same_key_complete,
  same_key_sound,
}

module _ (drop_tombstones : Bool) (min_snapshot_seq : ℕ) where
  abbrev pub output : ℕ → List Record → List Record
  output fuel stream = keep_groups drop_tombstones min_snapshot_seq fuel stream

  abbrev first_left : Record → List Record → List Record
  first_left r rs = keep_group drop_tombstones min_snapshot_seq (r ∷ (same_key r.key rs).0)

  pub in_group :
      (r : Record) (rs : List Record) (x : Record) → x ∈ (r ∷ (same_key r.key rs).0) → x.key ≡ r.key
  in_group r rs x (inl e) = ap (λ y. y.key) e
  in_group r rs x (inr k) = same_key-key r.key rs x k

  pub output_sound :
      (fuel : ℕ) (stream : List Record) (x : Record) → x ∈ output fuel stream → x ∈ stream
  unfolding keep_groups
  output_sound zero stream x k = absurd k
  output_sound (suc fuel) [] x k = absurd k
  output_sound (suc fuel) (r ∷ rs) x k =
      elim (∈-append_cases x (first_left r rs) (output fuel (same_key r.key rs).1) k) [
        | inl i ↦
            elim (keep_group_sound drop_tombstones min_snapshot_seq (r ∷ (same_key r.key rs).0) x
              i) [ inl e ↦ inl e | inr j ↦ inr (same_key_sound r.key rs x (inl j)) ]
        | inr i ↦
            inr (same_key_sound r.key rs x (inr (output_sound fuel (same_key r.key rs).1 x i)))
      ]

  -- What the output has for a version: one of the key that is no older and is below the bound, or
  -- a peeled tombstone.
  abbrev pub Served : ℕ → Record → List Record → List Record → Type 0
  Served bound x stream out =
      (s : Record) × (s ∈ stream)
      × (s.key ≡ x.key)
      × (x.seq ≤ s.seq)
      × (s.seq < bound)
      × ((s ∈ out)
          ⊎ ((drop_tombstones ≡ true)
              × (s.value ≡ none)
              × ((t : Record) → t ∈ out → t.key ≡ x.key → s.seq ≤ t.seq)))

  module _ (r : Record) (rs : List Record) (fuel : ℕ) (a : Ascending (r ∷ rs)) where
    abbrev group : List Record
    group = r ∷ (same_key r.key rs).0

    abbrev later_groups : List Record
    later_groups = (same_key r.key rs).1

    abbrev out : List Record
    out = first_left r rs ++ output fuel later_groups

    pub beyond : (x : Record) → x ∈ later_groups → r.key ≺ x.key
    beyond x k = same_key-beyond r.key rs x a.1 a.0 k

    group_sound : (x : Record) → x ∈ group → x ∈ (r ∷ rs)
    group_sound x (inl e) = inl e
    group_sound x (inr k) = inr (same_key_sound r.key rs x (inl k))

    -- The key of a later group is not that of the first one.
    pub apart : (x y : Record) → x ∈ group → y ∈ later_groups → ¬ (x.key ≡ y.key)
    apart x y k l e =
        lt_irrefl r.key (subst (λ z. r.key ≺ z) (sym e ∙ in_group r rs x k) (beyond y l))

    first-Served :
        (bound : ℕ) (x : Record)
        → min_snapshot_seq ≤ bound
        → x ∈ group
        → x.seq < bound
        → Served bound x (r ∷ rs) out
    first-Served bound x m k l =
        let (s, ks, le, lt, d) =
          keep_group_complete drop_tombstones min_snapshot_seq group bound x m k l in
        (
          s,
          group_sound s ks,
          in_group r rs s ks ∙ sym (in_group r rs x k),
          le,
          lt,
          elim d [
            | inl i ↦ inl (∈-append_left s (first_left r rs) (output fuel later_groups) i)
            | inr (dropped, (v, all)) ↦ inr (
              dropped,
              v,
              λ t kt e. elim (∈-append_cases t (first_left r rs) (output fuel later_groups) kt) [
                | inl i ↦ all t i
                | inr i ↦ absurd (apart x t k (output_sound fuel later_groups t i) (sym e))
              ],
            )
          ],
        )

    later-Served :
        (bound : ℕ) (x : Record)
        → x ∈ later_groups
        → Served bound x later_groups (output fuel later_groups)
        → Served bound x (r ∷ rs) out
    later-Served bound x k (s, ks, e, le, lt, d) = (
      s,
      inr (same_key_sound r.key rs s (inr ks)),
      e,
      le,
      lt,
      elim d [
        | inl i ↦ inl (∈-append_right s (first_left r rs) (output fuel later_groups) i)
        | inr (dropped, v, all) ↦ inr (
          dropped,
          v,
          λ t kt f. elim (∈-append_cases t (first_left r rs) (output fuel later_groups) kt) [
            | inl i ↦
                absurd (apart t x (keep_group_sound drop_tombstones min_snapshot_seq group t i) k f)
            | inr i ↦ all t i f
          ],
        )
      ],
    )

  pub output-Served :
      (fuel : ℕ) (stream : List Record) (bound : ℕ) (x : Record)
      → length stream ≤ fuel
      → Ascending stream
      → min_snapshot_seq ≤ bound
      → x ∈ stream
      → x.seq < bound
      → Served bound x stream (output fuel stream)
  unfolding keep_groups
  output-Served fuel [] bound x n a m k l = absurd k
  output-Served zero (r ∷ rs) bound x n a m k l = absurd (omega (arith, n))
  output-Served (suc fuel) (r ∷ rs) bound x n a m k l = elim where_it_is [
    | inl i ↦ first-Served r rs fuel a bound x m i l
    | inr i ↦ later-Served r rs fuel a bound x i (
        output-Served fuel (same_key r.key rs).1 bound x
          (let u = length-same_key r.key rs in omega (arith, n, u))
          (same_key-Ascending r.key rs a.1) m i l)
  ]
    where
      where_it_is : (x ∈ (r ∷ (same_key r.key rs).0)) ⊎ (x ∈ (same_key r.key rs).1)
      where_it_is = elim k [
        | inl e ↦ inl (inl e)
        | inr j ↦ elim (same_key_complete r.key rs x j) [ inl i ↦ inl (inr i) | inr i ↦ inr i ]
      ]

  pub output-one_below :
      (fuel : ℕ) (stream : List Record) (x y : Record)
      → Ascending stream
      → x.seq < min_snapshot_seq
      → y.seq < min_snapshot_seq
      → x.key ≡ y.key
      → x ∈ output fuel stream
      → y ∈ output fuel stream
      → x ≡ y
  unfolding keep_groups
  output-one_below zero stream x y a lx ly e kx ky = absurd kx
  output-one_below (suc fuel) [] x y a lx ly e kx ky = absurd kx
  output-one_below (suc fuel) (r ∷ rs) x y a lx ly e kx ky =
      let rest = (same_key r.key rs).1 in
      let group' : List Record = r ∷ (same_key r.key rs).0 in
      elim (∈-append_cases x (first_left r rs) (output fuel rest) kx) [
        | inl i ↦ elim (∈-append_cases y (first_left r rs) (output fuel rest) ky) [
          | inl j ↦ keep_group-one_below drop_tombstones min_snapshot_seq group' x y lx ly i j
          | inr j ↦ absurd (
              apart r rs fuel a x y (keep_group_sound drop_tombstones min_snapshot_seq group' x i)
                (output_sound fuel rest y j) e)
        ]
        | inr i ↦ elim (∈-append_cases y (first_left r rs) (output fuel rest) ky) [
          | inl j ↦ absurd (
              apart r rs fuel a y x (keep_group_sound drop_tombstones min_snapshot_seq group' y j)
                (output_sound fuel rest x i) (sym e))
          | inr j ↦ output-one_below fuel rest x y (same_key-Ascending r.key rs a.1) lx ly e i j
        ]
      ]

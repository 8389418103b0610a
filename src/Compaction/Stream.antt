-- ===== src/Compaction/Stream.antt =====
-- The merge gives each record of the inputs, with keys ascending.
use mathlib.Core.Option.{some-injective}
use lsm_tree_key_value_stora.Prelude.{
  ℕ, zero, suc, ◌+◌, ◌≤◌, ◌≡◌, refl, ap, sym, subst, ◌∙◌, some, List, [], ◌∷◌, arith, length,
  length-append, get_elem?, All, inl, inr,
}
use lsm_tree_key_value_stora.Order.{◌≼◌, ≼_trans, bytes_ord}
use lsm_tree_key_value_stora.Record.{Record}
use lsm_tree_key_value_stora.Members.{
  ◌∈◌, concat, ∈-concat, All-of, All-at, ∈-append_cases, ∈-append_left, ∈-append_right,
}
use lsm_tree_key_value_stora.Compaction.{MergeItem, pop_least, drain, first_items, merge}
use lsm_tree_key_value_stora.Compaction.Heap.{pop_least_sound, pop_least-least}
use lsm_tree_key_value_stora.Compaction.Round.{Ascending, Held, Covered, measure, drain-Round}

drain_sound :
    (fuel : ℕ) (heap : List MergeItem) (iters : List (List Record)) (x : Record)
    → x ∈ drain fuel heap iters
    → Held x heap iters
unfolding drain
drain_sound zero heap iters x k = absurd k
drain_sound (suc fuel) [] iters x k = absurd k
drain_sound (suc fuel) (m ∷ ms) iters x k =
    let (heap, after, round, e) = drain-Round m ms iters fuel in
    elim (subst (λ l. x ∈ l) e k) [
      | inl q ↦ inl ((pop_least m ms).0, pop_least_sound m ms (pop_least m ms).0 (inl refl), q)
      | inr i ↦ round.sound x (drain_sound fuel heap after x i)
    ]

-- Every record behind an empty heap is covered by none.
no_heap : (iters : List (List Record)) (x : Record) → Covered [] iters → ¬ (x ∈ concat iters)
no_heap iters x c k = let (j, it, h, q) = ∈-concat x iters k in ((c j it h).1 x q).1

drain_complete :
    (fuel : ℕ) (heap : List MergeItem) (iters : List (List Record)) (x : Record)
    → measure heap iters ≤ fuel
    → Covered heap iters
    → Held x heap iters
    → x ∈ drain fuel heap iters
unfolding drain
drain_complete fuel [] iters x l c (inl (m, k, e)) = absurd k
drain_complete fuel [] iters x l c (inr k) = absurd (no_heap iters x c k)
drain_complete zero (m ∷ ms) iters x l c h = absurd (omega (arith, l))
drain_complete (suc fuel) (m ∷ ms) iters x l c h =
    let (heap, after, round, e) = drain-Round m ms iters fuel in
    subst (λ l. x ∈ l) (sym e)
      (elim (round.complete x h) [
        | inl q ↦ inl q
        | inr r ↦
            inr (
              drain_complete fuel heap after x (omega (arith, round.smaller, l)) (round.covers c) r)
      ])

-- What is held has no key below that of the least item.
least_held :
    (m : MergeItem) (ms : List MergeItem) (iters : List (List Record)) (x : Record)
    → Covered (m ∷ ms) iters
    → Held x (m ∷ ms) iters
    → (pop_least m ms).0.item.key ≼ x.key
least_held m ms iters x c (inl (n, k, e)) = rw e (pop_least-least m ms n k)
least_held m ms iters x c (inr k) =
    let (j, it, h, q) = ∈-concat x iters k in
    let (n, kn, en, le) = (c j it h).1 x q in
    ≼_trans (pop_least m ms).0.item.key n.item.key x.key (pop_least-least m ms n kn) le

drain-Ascending :
    (fuel : ℕ) (heap : List MergeItem) (iters : List (List Record))
    → Covered heap iters
    → Ascending (drain fuel heap iters)
unfolding drain
drain-Ascending zero heap iters c = tt
drain-Ascending (suc fuel) [] iters c = tt
drain-Ascending (suc fuel) (m ∷ ms) iters c =
    let (heap, after, round, e) = drain-Round m ms iters fuel in
    subst Ascending (sym e) (
      All-of (λ s. (pop_least m ms).0.item.key ≼ s.key) (drain fuel heap after)
          (λ s k. least_held m ms iters s c (round.sound s (drain_sound fuel heap after s k))),
      drain-Ascending fuel heap after (round.covers c),
    )

-- The heap and the inputs after the first loop.
module _ (base : ℕ) (iters : List (List Record)) where
  abbrev heads : List MergeItem
  heads = (first_items base iters).0

  abbrev tails : List (List Record)
  tails = (first_items base iters).1

first_items_complete :
    (base : ℕ) (iters : List (List Record)) (x : Record)
    → x ∈ concat iters
    → Held x (heads base iters) (tails base iters)
unfolding first_items
first_items_complete base [] x k = absurd k
first_items_complete base ([] ∷ iters) x k = first_items_complete (suc base) iters x k
first_items_complete base ((r ∷ it) ∷ iters) x (inl e) =
    inl (record { item = r; input_idx = base }, inl refl, e)
first_items_complete base ((r ∷ it) ∷ iters) x (inr k) =
    elim (∈-append_cases x it (concat iters) k) [
      | inl i ↦ inr (∈-append_left x it (concat (tails (suc base) iters)) i)
      | inr i ↦ elim (first_items_complete (suc base) iters x i) [
        | inl (n, kn, e) ↦ inl (n, inr kn, e)
        | inr t ↦ inr (∈-append_right x it (concat (tails (suc base) iters)) t)
      ]
    ]

first_items_sound :
    (base : ℕ) (iters : List (List Record)) (x : Record)
    → Held x (heads base iters) (tails base iters)
    → x ∈ concat iters
unfolding first_items
first_items_sound base [] x (inl (n, k, e)) = k
first_items_sound base [] x (inr k) = k
first_items_sound base ([] ∷ iters) x h = first_items_sound (suc base) iters x h
first_items_sound base ((r ∷ it) ∷ iters) x (inl (n, inl q, e)) = inl (e ∙ ap (λ y. y.item) q)
first_items_sound base ((r ∷ it) ∷ iters) x (inl (n, inr k, e)) =
    inr (∈-append_right x it (concat iters) (first_items_sound (suc base) iters x (inl (n, k, e))))
first_items_sound base ((r ∷ it) ∷ iters) x (inr k) =
    elim (∈-append_cases x it (concat (tails (suc base) iters)) k) [
      | inl i ↦ inr (∈-append_left x it (concat iters) i)
      | inr i ↦
          inr (∈-append_right x it (concat iters) (first_items_sound (suc base) iters x (inr i)))
    ]

pub first_items-measure :
    (base : ℕ) (iters : List (List Record))
    → measure (heads base iters) (tails base iters) ≡ length (concat iters)
unfolding first_items
first_items-measure base [] = omega arith
first_items-measure base ([] ∷ iters) = first_items-measure (suc base) iters
first_items-measure base ((r ∷ it) ∷ iters) = omega (
  arith,
  first_items-measure (suc base) iters,
  length-append it (concat iters),
  length-append it (concat (tails (suc base) iters)),
)

first_items-covers :
    (base : ℕ) (iters : List (List Record)) (j : ℕ) (it : List Record)
    → All Ascending iters
    → get_elem? (tails base iters) j ≡ some it
    → Ascending it
      × ((r : Record)
          → r ∈ it
          → (m : MergeItem) × (m ∈ heads base iters)
            × (m.input_idx ≡ base + j)
            × (m.item.key ≼ r.key))
unfolding first_items
first_items-covers base [] j it a h = cc
first_items-covers base ([] ∷ iters) zero it a h =
    let e = some-injective [] it h in
    (subst Ascending e tt, λ r k. absurd (subst (λ l. r ∈ l) (sym e) k))
first_items-covers base ([] ∷ iters) (suc j) it a h =
    let ih = first_items-covers (suc base) iters j it a.1 h in
    (ih.0, λ r k. let (m, km, em, le) = ih.1 r k in (m, km, omega (arith, em), le))
first_items-covers base ((s ∷ is) ∷ iters) zero it a h =
    let e = some-injective is it h in
    (
      subst Ascending e a.0.1,
      λ r k. (
        record { item = s; input_idx = base },
        inl refl,
        omega arith,
        All-at (λ u. s.key ≼ u.key) r is a.0.0 (subst (λ l. r ∈ l) (sym e) k),
      ),
    )
first_items-covers base ((s ∷ is) ∷ iters) (suc j) it a h =
    let ih = first_items-covers (suc base) iters j it a.1 h in
    (ih.0, λ r k. let (m, km, em, le) = ih.1 r k in (m, inr km, omega (arith, em), le))

module _ (inputs : List (List Record)) (ascending : All Ascending inputs) where
  first-Covered : Covered (heads 0 inputs) (tails 0 inputs)
  first-Covered j it h =
      let c = first_items-covers 0 inputs j it ascending h in
      (c.0, λ r k. let (m, km, em, le) = c.1 r k in (m, km, omega (arith, em), le))

  -- No record is lost,
  pub merge_complete : (x : Record) → x ∈ concat inputs → x ∈ merge inputs
  unfolding merge
  merge_complete x k =
      drain_complete (length (concat inputs)) (heads 0 inputs) (tails 0 inputs) x
        (omega (arith, first_items-measure 0 inputs)) first-Covered
        (first_items_complete 0 inputs x k)

  -- none is made up,
  pub merge_sound : (x : Record) → x ∈ merge inputs → x ∈ concat inputs
  unfolding merge
  merge_sound x k =
      first_items_sound 0 inputs x
        (drain_sound (length (concat inputs)) (heads 0 inputs) (tails 0 inputs) x k)

  -- and the keys of the stream ascend.
  pub merge-Ascending : Ascending (merge inputs)
  unfolding merge
  merge-Ascending =
      drain-Ascending (length (concat inputs)) (heads 0 inputs) (tails 0 inputs) first-Covered

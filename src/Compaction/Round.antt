-- ===== src/Compaction/Round.antt =====
-- One round of the loop that drains the heap.
use mathlib.Core.Option.{some-injective}
use lsm_tree_key_value_stora.Prelude.{
  ℕ, suc, ◌+◌, ◌≡◌, refl, ap, sym, subst, ◌∙◌, true, false, none, some, List, [], ◌∷◌, arith,
  length, get_elem?, All, Bool-cases, Option-cases, inl, inr, ◌⊎◌, ◌==◌, eq_of_==, ==_refl,
}
use lsm_tree_key_value_stora.Order.{◌≼◌, bytes_ord}
use lsm_tree_key_value_stora.Record.{Record}
use lsm_tree_key_value_stora.Members.{◌∈◌, concat, ∈-concat, concat-∈, All-at}
use lsm_tree_key_value_stora.Compaction.{MergeItem, pop_least, next, drain}
use lsm_tree_key_value_stora.Compaction.Heap.{
  pop_least_sound, pop_least_complete, length-pop_least, Gives, next-Gives, next-none,
}

abbrev pub Ascending : List Record → Type 0
Ascending [] = Unit
Ascending (r ∷ rs) = All (λ s. r.key ≼ s.key) rs × Ascending rs

-- The records that are still to come.
abbrev pub Held : Record → List MergeItem → List (List Record) → Type 0
Held x heap iters = ((m : MergeItem) × (m ∈ heap) × (x ≡ m.item)) ⊎ (x ∈ concat iters)

-- Each record of an input stands behind an item of that input in the heap.
abbrev pub Covered : List MergeItem → List (List Record) → Type 0
Covered heap iters =
    (j : ℕ) (it : List Record)
    → get_elem? iters j ≡ some it
    → Ascending it
      × ((r : Record)
          → r ∈ it
          → (m : MergeItem) × (m ∈ heap) × (m.input_idx ≡ j) × (m.item.key ≼ r.key))

abbrev pub measure : List MergeItem → List (List Record) → ℕ
measure heap iters = length heap + length (concat iters)

module _ (m : MergeItem) (ms : List MergeItem) (iters : List (List Record)) where
  abbrev popped : MergeItem
  popped = (pop_least m ms).0

  abbrev others : List MergeItem
  others = (pop_least m ms).1

  -- What a round does to the heap and the inputs.
  pub record Round (heap : List MergeItem) (after : List (List Record)) : Type 0 where
    pub sound : (x : Record) → Held x heap after → Held x (m ∷ ms) iters
    pub complete : (x : Record) → Held x (m ∷ ms) iters → (x ≡ popped.item) ⊎ Held x heap after
    pub smaller : measure (m ∷ ms) iters ≡ suc (measure heap after)
    pub covers : Covered (m ∷ ms) iters → Covered heap after

  kept_item :
      (x : Record)
      → (n : MergeItem) × (n ∈ (m ∷ ms)) × (x ≡ n.item)
      → (x ≡ popped.item) ⊎ ((n : MergeItem) × (n ∈ others) × (x ≡ n.item))
  kept_item x (n, k, e) = elim (pop_least_complete m ms n k) [
    | inl q ↦ inl (e ∙ ap (λ y. y.item) q)
    | inr q ↦ inr (n, q, e)
  ]

  -- An item of another input stays in the heap.
  stays :
      (n : MergeItem) (j : ℕ)
      → n ∈ (m ∷ ms)
      → n.input_idx ≡ j
      → (j == popped.input_idx) ≡ false
      → n ∈ others
  stays n j k e f = elim (pop_least_complete m ms n k) [
    | inl q ↦ absurd (cc (==_refl j, ap (λ y. y.input_idx) q))
    | inr q ↦ q
  ]

  at_popped :
      (j : ℕ) (it : List Record)
      → (j == popped.input_idx) ≡ true
      → get_elem? iters j ≡ some it
      → get_elem? iters popped.input_idx ≡ some it
  at_popped j it t h = ap (get_elem? iters) (sym (eq_of_== j popped.input_idx t)) ∙ h

  emptied : next popped.input_idx iters ≡ none → Round others iters
  emptied e = record {
    sound =
        λ x. elim [ inl (n, k, q) ↦ inl (n, pop_least_sound m ms n (inr k), q) | inr k ↦ inr k ];
    complete = λ x. elim [
      | inl h ↦ elim (kept_item x h) [ inl q ↦ inl q | inr q ↦ inr (inl q) ]
      | inr k ↦ inr (inr k)
    ];
    smaller = omega (arith, length-pop_least m ms);
    covers = λ c j it h. (
      (c j it h).0,
      λ r k. elim (Bool-cases (j == popped.input_idx)) [
        | inl t ↦
            absurd
              (subst (λ l. r ∈ l) (next-none popped.input_idx iters it e (at_popped j it t h)) k)
        | inr f ↦ let (n, kn, en, le) = (c j it h).1 r k in (n, stays n j kn en f, en, le)
      ],
    );
  }

  module _ (r : Record) (after : List (List Record))
      (g : Gives popped.input_idx iters r after) where
    abbrev refill : List MergeItem
    refill = record { item = r; input_idx = popped.input_idx } ∷ others

    other : (j : ℕ) → (j == popped.input_idx) ≡ false → get_elem? after j ≡ get_elem? iters j
    other j f = g.others j (λ q. cc (==_refl j, ap (λ y. j == y) (sym q)))

    at_it :
        (j : ℕ) (it : List Record)
        → (j == popped.input_idx) ≡ true
        → get_elem? after j ≡ some it
        → it ≡ g.it
    at_it j it t h =
        some-injective it g.it
          (sym h ∙ ap (get_elem? after) (eq_of_== j popped.input_idx t) ∙ g.left)

    at_both :
        (j : ℕ) (it : List Record)
        → (j == popped.input_idx) ≡ true
        → get_elem? iters j ≡ some it
        → it ≡ r ∷ g.it
    at_both j it t h = some-injective it (r ∷ g.it) (sym (at_popped j it t h) ∙ g.here)

    was_there : (x : Record) → x ∈ concat after → x ∈ concat iters
    was_there x k =
        let (j, it, h, q) = ∈-concat x after k in
        elim (Bool-cases (j == popped.input_idx)) [
          | inl t ↦
              concat-∈ x iters popped.input_idx (r ∷ g.it) g.here
                (inr (subst (λ l. x ∈ l) (at_it j it t h) q))
          | inr f ↦ concat-∈ x iters j it (sym (other j f) ∙ h) q
        ]

    still-Held : (x : Record) → x ∈ concat iters → Held x refill after
    still-Held x k =
        let (j, it, h, q) = ∈-concat x iters k in
        elim (Bool-cases (j == popped.input_idx)) [
          | inl t ↦ elim (subst (λ l. x ∈ l) (at_both j it t h) q) [
            | inl e ↦ inl (record { item = r; input_idx = popped.input_idx }, inl refl, e)
            | inr i ↦ inr (concat-∈ x after popped.input_idx g.it g.left i)
          ]
          | inr f ↦ inr (concat-∈ x after j it (other j f ∙ h) q)
        ]

    refill-Covered : Covered (m ∷ ms) iters → Covered refill after
    refill-Covered c j it h = elim (Bool-cases (j == popped.input_idx)) [
      | inl t ↦
          let asc = (c popped.input_idx (r ∷ g.it) g.here).0 in
          subst
            (λ l.
              Ascending l
              × ((s : Record)
                  → s ∈ l
                  → (n : MergeItem) × (n ∈ refill) × (n.input_idx ≡ j) × (n.item.key ≼ s.key)))
            (sym (at_it j it t h))
            (
              asc.1,
              λ s k. (
                record { item = r; input_idx = popped.input_idx },
                inl refl,
                sym (eq_of_== j popped.input_idx t),
                All-at (λ u. r.key ≼ u.key) s g.it asc.0 k,
              ),
            )
      | inr f ↦
          let old = c j it (sym (other j f) ∙ h) in
          (old.0, λ s k. let (n, kn, en, le) = old.1 s k in (n, inr (stays n j kn en f), en, le))
    ]

    refilled : Round refill after
    refilled = record {
      sound = λ x. elim [
        | inl (n, inl q, e) ↦
            inr (concat-∈ x iters popped.input_idx (r ∷ g.it) g.here (inl (e ∙ ap (λ y. y.item) q)))
        | inl (n, inr k, e) ↦ inl (n, pop_least_sound m ms n (inr k), e)
        | inr k ↦ inr (was_there x k)
      ];
      complete = λ x. elim [
        | inl h ↦ elim (kept_item x h) [ inl q ↦ inl q | inr (n, k, e) ↦ inr (inl (n, inr k, e)) ]
        | inr k ↦ inr (still-Held x k)
      ];
      smaller = omega (arith, length-pop_least m ms, g.one_less);
      covers = refill-Covered;
    }

  -- The record that a round gives to the stream, and what it leaves.
  pub drain-Round :
      (fuel : ℕ)
      → (heap : List MergeItem) × (after : List (List Record)) × Round heap after
        × (drain (suc fuel) (m ∷ ms) iters ≡ popped.item ∷ drain fuel heap after)
  unfolding drain
  drain-Round fuel = elim (Option-cases (next popped.input_idx iters)) [
    | inl e ↦ (others, iters, emptied e, rw (e, drain))
    | inr ((r, after), e) ↦ (
      record { item = r; input_idx = popped.input_idx } ∷ others,
      after,
      refilled r after (next-Gives popped.input_idx iters r after e),
      rw (e, drain),
    )
  ]

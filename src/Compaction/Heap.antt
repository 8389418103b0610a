-- ===== src/Compaction/Heap.antt =====
-- The heap gives a least item and keeps the others; an input gives its records in order.
use lsm_tree_key_value_stora.Prelude.{
  ℕ, zero, suc, ◌≡◌, ◌≢◌, refl, ap, sym, ◌∙◌, true, false, Option, none, some, List, [], ◌∷◌, arith,
  length, length-append, get_elem?, Bool-cases, inl, inr,
}
use mathlib.Core.Option.{some-injective}
use lsm_tree_key_value_stora.Order.{
  ◌≼◌, ≼_refl, ≼_trans, ≼_of_≺, lt_of_key_lt, bytes_ord, pair_ord, nat_ord,
}
use lsm_tree_key_value_stora.Record.{Record}
use lsm_tree_key_value_stora.Members.{◌∈◌, concat}
use lsm_tree_key_value_stora.Compaction.{
  MergeItem, merge_key, merge_ord, pop_least, before, next, put_back,
}

-- How `pop_least` goes on, by which of the two items goes first.
pop_least_cases :
    (P : MergeItem × List MergeItem → Type 0) (m n : MergeItem) (ns : List MergeItem)
    → ((before n m ≡ true) → P ((pop_least n ns).0, m ∷ (pop_least n ns).1))
    → ((before n m ≡ false) → P ((pop_least m ns).0, n ∷ (pop_least m ns).1))
    → P (pop_least m (n ∷ ns))
unfolding pop_least
pop_least_cases P m n ns f g = elim (Bool-cases (before n m)) [
  | inl e ↦ rw e (f e)
  | inr e ↦ rw e (g e)
]

-- The items that `pop_least` gives are those of the heap.
pub pop_least_sound :
    (m : MergeItem) (ns : List MergeItem) (x : MergeItem)
    → x ∈ ((pop_least m ns).0 ∷ (pop_least m ns).1)
    → x ∈ (m ∷ ns)
unfolding pop_least
pop_least_sound m [] x = λ h. h
pop_least_sound m (n ∷ ns) x =
    pop_least_cases (λ q. x ∈ (q.0 ∷ q.1) → x ∈ (m ∷ (n ∷ ns))) m n ns
      (λ e. elim [
        | inl h ↦ inr (pop_least_sound n ns x (inl h))
        | inr (inl h) ↦ inl h
        | inr (inr h) ↦ inr (pop_least_sound n ns x (inr h))
      ])
      (λ e. elim [
        | inl h ↦ skip (pop_least_sound m ns x (inl h))
        | inr (inl h) ↦ inr (inl h)
        | inr (inr h) ↦ skip (pop_least_sound m ns x (inr h))
      ])
  where
    skip : x ∈ (m ∷ ns) → x ∈ (m ∷ (n ∷ ns))
    skip (inl h) = inl h
    skip (inr h) = inr (inr h)

pub pop_least_complete :
    (m : MergeItem) (ns : List MergeItem) (x : MergeItem)
    → x ∈ (m ∷ ns)
    → x ∈ ((pop_least m ns).0 ∷ (pop_least m ns).1)
unfolding pop_least
pop_least_complete m [] x h = h
pop_least_complete m (n ∷ ns) x h =
    pop_least_cases (λ q. x ∈ (q.0 ∷ q.1)) m n ns
      (λ e. elim h [
        | inl k ↦ inr (inl k)
        | inr k ↦ skip (pop_least n ns) m (pop_least_complete n ns x k)
      ])
      (λ e. elim h [
        | inl k ↦ skip (pop_least m ns) n (pop_least_complete m ns x (inl k))
        | inr (inl k) ↦ inr (inl k)
        | inr (inr k) ↦ skip (pop_least m ns) n (pop_least_complete m ns x (inr k))
      ])
  where
    skip :
        (q : MergeItem × List MergeItem) (y : MergeItem) → x ∈ (q.0 ∷ q.1) → x ∈ (q.0 ∷ (y ∷ q.1))
    skip q y (inl k) = inl k
    skip q y (inr k) = inr (inr k)

pub length-pop_least : (m : MergeItem) (ns : List MergeItem) → length (pop_least m ns).1 ≡ length ns
unfolding pop_least
length-pop_least m [] = refl
length-pop_least m (n ∷ ns) =
    pop_least_cases (λ q. length q.1 ≡ suc (length ns)) m n ns (λ e. ap suc (length-pop_least n ns))
      (λ e. ap suc (length-pop_least m ns))

-- No item of the heap stands before the one that `pop_least` gives.
least :
    (m : MergeItem) (ns : List MergeItem) (x : MergeItem)
    → x ∈ (m ∷ ns)
    → merge_key (pop_least m ns).0 ≼ merge_key x
unfolding pop_least
least m [] x (inl e) = rw e (≼_refl (merge_key m))
least m [] x (inr k) = absurd k
least m (n ∷ ns) x h =
    pop_least_cases (λ q. merge_key q.0 ≼ merge_key x) m n ns
      (λ e. elim h [
        | inl k ↦
            ≼_trans (merge_key (pop_least n ns).0) (merge_key n) (merge_key x)
              (least n ns n (inl refl))
              (rw k
                (≼_of_≺ (merge_key n) (merge_key m) (lt_of_key_lt (merge_key n) (merge_key m) e)))
        | inr k ↦ least n ns x k
      ])
      (λ e. elim h [
        | inl k ↦ least m ns x (inl k)
        | inr (inl k) ↦
            ≼_trans (merge_key (pop_least m ns).0) (merge_key m) (merge_key x)
              (least m ns m (inl refl)) (rw k e)
        | inr (inr k) ↦ least m ns x (inr k)
      ])

≼_of_first : (a b : List ℕ × ℕ) → a ≼ b → a.0 ≼ b.0
unfolding pair_ord
≼_of_first a b h = ground arith

pub pop_least-least :
    (m : MergeItem) (ns : List MergeItem) (x : MergeItem)
    → x ∈ (m ∷ ns)
    → (pop_least m ns).0.item.key ≼ x.item.key
pop_least-least m ns x h = ≼_of_first (merge_key (pop_least m ns).0) (merge_key x) (least m ns x h)

-- Input `idx` gives its first record, and the other inputs stay as they are.
pub record Gives (idx : ℕ) (iters : List (List Record)) (r : Record) (after : List (List Record))
    : Type 0 where
  pub it : List Record
  pub here : get_elem? iters idx ≡ some (r ∷ it)
  pub left : get_elem? after idx ≡ some it
  pub others : (j : ℕ) → j ≢ idx → get_elem? after j ≡ get_elem? iters j
  pub one_less : length (concat iters) ≡ suc (length (concat after))

put_back_cases :
    (it : List Record) (o : Option (Record × List (List Record))) (r : Record)
    (after : List (List Record))
    → put_back it o ≡ some (r, after)
    → (rest : List (List Record)) × (o ≡ some (r, rest)) × (after ≡ it ∷ rest)
put_back_cases it none r after e = cc
put_back_cases it (some (s, rest)) r after e =
    let q = some-injective (s, it ∷ rest) (r, after) e in
    (rest, ap (λ x. some (x, rest)) (ap (λ y. y.0) q), sym (ap (λ y. y.1) q))

pub next-Gives :
    (idx : ℕ) (iters : List (List Record)) (r : Record) (after : List (List Record))
    → next idx iters ≡ some (r, after)
    → Gives idx iters r after
unfolding next
next-Gives idx [] r after e = cc
next-Gives zero ([] ∷ iters) r after e = cc
next-Gives zero ((s ∷ it) ∷ iters) r after e =
    let q = some-injective (s, it ∷ iters) (r, after) e in
    let same : after ≡ it ∷ iters = sym (ap (λ y. y.1) q) in
    record {
      it = it;
      here = ap (λ x. some (x ∷ it)) (ap (λ y. y.0) q);
      left = ap (λ a. get_elem? a 0) same;
      others = elim [
        | zero ↦ λ n. absurd (n refl)
        | suc j ↦ λ n. ap (λ a. get_elem? a (suc j)) same
      ];
      one_less = rw same (omega (arith, length-append it (concat iters)));
    }
next-Gives (suc idx) (it ∷ iters) r after e =
    let (rest, found, same) = put_back_cases it (next idx iters) r after e in
    let g = next-Gives idx iters r rest found in
    record {
      it = g.it;
      here = g.here;
      left = ap (λ a. get_elem? a (suc idx)) same ∙ g.left;
      others = elim [
        | zero ↦ λ n. ap (λ a. get_elem? a 0) same
        | suc j ↦ λ n. ap (λ a. get_elem? a (suc j)) same ∙ g.others j (λ e. n (ap suc e))
      ];
      one_less = rw same (
          omega
            (arith, g.one_less, length-append it (concat iters), length-append it (concat rest)));
    }

-- An input that gives nothing is empty, or not there.
pub next-none :
    (idx : ℕ) (iters : List (List Record)) (it : List Record)
    → next idx iters ≡ none
    → get_elem? iters idx ≡ some it
    → it ≡ []
unfolding next
next-none idx [] it e h = cc
next-none zero ([] ∷ iters) it e h = sym (some-injective [] it h)
next-none zero ((s ∷ is) ∷ iters) it e h = cc
next-none (suc idx) (is ∷ iters) it e h = next-none idx iters it (nothing (next idx iters) e) h
  where
    nothing : (o : Option (Record × List (List Record))) → put_back is o ≡ none → o ≡ none
    nothing none e = refl
    nothing (some p) e = cc

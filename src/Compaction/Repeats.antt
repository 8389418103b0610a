-- ===== src/Compaction/Repeats.antt =====
-- Lists without repeated records; the merge of a compaction repeats none.
use lsm_tree_key_value_stora.Prelude.{
  ℕ, zero, suc, ◌≤◌, ◌≡◌, refl, ap, sym, subst, List, [], ◌∷◌, ◌++◌, arith, length, length-append,
  All, inl, inr, ◌⊎◌,
}
use lsm_tree_key_value_stora.Record.{Record}
use lsm_tree_key_value_stora.Members.{◌∈◌, concat, ∈-append_cases, ∈-append_left, ∈-append_right}
use lsm_tree_key_value_stora.Compaction.{MergeItem, drain, merge}
use lsm_tree_key_value_stora.Compaction.Round.{Ascending, measure, drain-Round}
use lsm_tree_key_value_stora.Compaction.Stream.{merge_complete, first_items-measure}

abbrev pub NoRepeats : List Record → Type 0
NoRepeats [] = Unit
NoRepeats (r ∷ rs) = ¬ (r ∈ rs) × NoRepeats rs

pub NoRepeats-append :
    (xs ys : List Record)
    → NoRepeats xs
    → NoRepeats ys
    → ((x : Record) → x ∈ xs → ¬ (x ∈ ys))
    → NoRepeats (xs ++ ys)
NoRepeats-append [] ys a b d = b
NoRepeats-append (x ∷ xs) ys a b d = (
  λ k. elim (∈-append_cases x xs ys k) [ inl i ↦ a.0 i | inr i ↦ d x (inl refl) i ],
  NoRepeats-append xs ys a.1 b (λ y k. d y (inr k)),
)

-- A member, with what stands before and behind it.
split_at :
    (x : Record) (ys : List Record)
    → x ∈ ys
    → (front back : List Record) × (ys ≡ front ++ (x ∷ back))
split_at x [] k = absurd k
split_at x (y ∷ ys) (inl e) = ([], ys, ap (λ z. z ∷ ys) (sym e))
split_at x (y ∷ ys) (inr k) =
    let (front, back, e) = split_at x ys k in (y ∷ front, back, ap (◌∷◌ y) e)

∈-without :
    (x y : Record) (front back : List Record)
    → y ∈ (front ++ (x ∷ back))
    → (y ≡ x) ⊎ (y ∈ (front ++ back))
∈-without x y front back k = elim (∈-append_cases y front (x ∷ back) k) [
  | inl i ↦ inr (∈-append_left y front back i)
  | inr (inl e) ↦ inl e
  | inr (inr i) ↦ inr (∈-append_right y front back i)
]

-- What is left of a list that has the records of `x ∷ xs` has those of `xs`.
rest_covered :
    (x : Record) (xs front back : List Record)
    → ¬ (x ∈ xs)
    → ((y : Record) → y ∈ (x ∷ xs) → y ∈ (front ++ (x ∷ back)))
    → (y : Record) → y ∈ xs
    → y ∈ (front ++ back)
rest_covered x xs front back n f y k = elim (∈-without x y front back (f y (inr k))) [
  | inl e ↦ absurd (n (subst (λ z. z ∈ xs) e k))
  | inr i ↦ i
]

length_without :
    (x : Record) (ys front back : List Record)
    → ys ≡ front ++ (x ∷ back)
    → length ys ≡ suc (length (front ++ back))
length_without x ys front back e =
    omega (arith, ap length e, length-append front (x ∷ back), length-append front back)

room_for :
    (xs ys : List Record) → NoRepeats xs → ((x : Record) → x ∈ xs → x ∈ ys) → length xs ≤ length ys
room_for [] ys n f = omega arith
room_for (x ∷ xs) ys n f =
    let (front, back, e) = split_at x ys (f x (inl refl)) in
    let c = rest_covered x xs front back n.0 (λ y k. subst (λ l. y ∈ l) e (f y k)) in
    let l = room_for xs (front ++ back) n.1 c in omega (arith, l, length_without x ys front back e)

put_between :
    (x : Record) (front back : List Record)
    → NoRepeats (front ++ back)
    → ¬ (x ∈ (front ++ back))
    → NoRepeats (front ++ (x ∷ back))
put_between x [] back n k = (k, n)
put_between x (y ∷ front) back n k = (
  λ i. elim (∈-without x y front back i) [ inl e ↦ k (inl (sym e)) | inr j ↦ n.0 j ],
  put_between x front back n.1 (λ i. k (inr i)),
)

-- A list that has every record of one without repeats, and is no longer, has no repeats.
pub covered-NoRepeats :
    (xs ys : List Record)
    → NoRepeats xs
    → ((x : Record) → x ∈ xs → x ∈ ys)
    → length ys ≤ length xs
    → NoRepeats ys
covered-NoRepeats [] [] n f l = tt
covered-NoRepeats [] (y ∷ ys) n f l = absurd (omega (arith, l))
covered-NoRepeats (x ∷ xs) ys n f l =
    let (front, back, e) = split_at x ys (f x (inl refl)) in
    let g : (y : Record) → y ∈ (x ∷ xs) → y ∈ (front ++ (x ∷ back)) =
      λ y k. subst (λ l. y ∈ l) e (f y k) in
    let c = rest_covered x xs front back n.0 g in
    let m = length_without x ys front back e in
    let once : ¬ (x ∈ (front ++ back)) = λ k.
      let r =
        room_for (x ∷ xs) (front ++ back) n
          (λ y. elim [ inl q ↦ subst (λ z. z ∈ (front ++ back)) (sym q) k | inr i ↦ c y i ]) in
      absurd (omega (arith, r, m, l)) in
    subst NoRepeats (sym e) (
      put_between x front back (covered-NoRepeats xs (front ++ back) n.1 c (omega (arith, m, l)))
        once)

length-drain :
    (fuel : ℕ) (heap : List MergeItem) (iters : List (List Record))
    → length (drain fuel heap iters) ≤ measure heap iters
unfolding drain
length-drain zero heap iters = omega arith
length-drain (suc fuel) [] iters = omega arith
length-drain (suc fuel) (m ∷ ms) iters =
    let (heap, after, round, e) = drain-Round m ms iters fuel in
    omega (arith, ap length e, length-drain fuel heap after, round.smaller)

-- The merge repeats nothing that the inputs do not repeat.
pub merge-NoRepeats :
    (inputs : List (List Record))
    → All Ascending inputs
    → NoRepeats (concat inputs)
    → NoRepeats (merge inputs)
merge-NoRepeats inputs a n =
    covered-NoRepeats (concat inputs) (merge inputs) n (merge_complete inputs a) (
      unfold merge in
      omega (arith, length-drain (length (concat inputs)) _ _, first_items-measure 0 inputs))

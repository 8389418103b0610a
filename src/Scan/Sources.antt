-- ===== src/Scan/Sources.antt =====
-- What a round takes from the sources, and what it leaves in them.
use mathlib.Core.Option.{some-injective}
use lsm_tree_key_value_stora.Prelude.{
  ℕ, zero, suc, ◌≤◌, ◌≡◌, refl, ap, ◌∙◌, some, List, [], ◌∷◌, map, arith, get_elem?, length,
  length-append, All, inl, inr, ◌⊎◌,
}
use lsm_tree_key_value_stora.Order.{◌≼◌, ≼_refl, bytes_ord, version_ord, pair_ord, rev_ord, nat_ord}
use lsm_tree_key_value_stora.Errors.{ok}
use lsm_tree_key_value_stora.Record.{Record}
use lsm_tree_key_value_stora.Members.{
  ◌∈◌, concat, All-at, ∈-append_cases, ∈-append_left, ∈-append_right,
}
use lsm_tree_key_value_stora.Visible.{version_key}
use lsm_tree_key_value_stora.Compaction.Sorted.{IsSorted}
use lsm_tree_key_value_stora.Scan.{peeking, advance, closed, change, head_of}
use lsm_tree_key_value_stora.Scan.Choose.{healthy, Front, Front-record}

-- Source `j` without its first record, and without any.
abbrev pub behind : ℕ → List (List Record) → List (List Record)
behind j [] = []
behind zero ([] ∷ its) = [] ∷ its
behind zero ((r ∷ it) ∷ its) = it ∷ its
behind (suc j) (it ∷ its) = it ∷ behind j its

abbrev pub emptied : ℕ → List (List Record) → List (List Record)
emptied j [] = []
emptied zero (it ∷ its) = [] ∷ its
emptied (suc j) (it ∷ its) = it ∷ emptied j its

pub change-advance :
    (j : ℕ) (its : List (List Record))
    → change j (λ p. (advance p).1) (healthy its) ≡ healthy (behind j its)
unfolding change advance peeking
change-advance j [] = refl
change-advance zero ([] ∷ its) = refl
change-advance zero ((r ∷ it) ∷ its) = refl
change-advance (suc j) (it ∷ its) = ap (λ x. peeking (map ok it) ∷ x) (change-advance j its)

pub change-closed :
    (j : ℕ) (its : List (List Record)) → change j closed (healthy its) ≡ healthy (emptied j its)
unfolding change peeking
change-closed j [] = refl
change-closed zero (it ∷ its) = refl
change-closed (suc j) (it ∷ its) = ap (λ x. peeking (map ok it) ∷ x) (change-closed j its)

pub Front-head :
    (j : ℕ) (its : List (List Record)) (r : Record)
    → Front its j r
    → head_of (get_elem? (healthy its) j) ≡ some (ok r)
unfolding peeking
Front-head j [] r f = cc f.1
Front-head zero (l ∷ its) r f = ap (λ x. (peeking (map ok x)).head) (some-injective l (r ∷ f.0) f.1)
Front-head (suc j) (it ∷ its) r f = Front-head j its r f

pub behind_part :
    (j : ℕ) (its : List (List Record)) (x : Record) → x ∈ concat (behind j its) → x ∈ concat its
behind_part j [] x k = k
behind_part zero ([] ∷ its) x k = k
behind_part zero ((r ∷ it) ∷ its) x k = inr k
behind_part (suc j) (it ∷ its) x k = elim (∈-append_cases x it (concat (behind j its)) k) [
  | inl i ↦ ∈-append_left x it (concat its) i
  | inr i ↦ ∈-append_right x it (concat its) (behind_part j its x i)
]

pub emptied_part :
    (j : ℕ) (its : List (List Record)) (x : Record) → x ∈ concat (emptied j its) → x ∈ concat its
emptied_part j [] x k = k
emptied_part zero (it ∷ its) x k = ∈-append_right x it (concat its) k
emptied_part (suc j) (it ∷ its) x k = elim (∈-append_cases x it (concat (emptied j its)) k) [
  | inl i ↦ ∈-append_left x it (concat its) i
  | inr i ↦ ∈-append_right x it (concat its) (emptied_part j its x i)
]

pub behind_rest :
    (j : ℕ) (its : List (List Record)) (r : Record)
    → Front its j r
    → (x : Record) → x ∈ concat its
    → (x ≡ r) ⊎ (x ∈ concat (behind j its))
behind_rest j [] r f x k = absurd k
behind_rest zero ([] ∷ its) r f x k = inr k
behind_rest zero ((s ∷ it) ∷ its) r f x (inl e) = inl (e ∙ Front-record s r it its f)
behind_rest zero ((s ∷ it) ∷ its) r f x (inr k) = inr k
behind_rest (suc j) (it ∷ its) r f x k = elim (∈-append_cases x it (concat its) k) [
  | inl i ↦ inr (∈-append_left x it (concat (behind j its)) i)
  | inr i ↦ elim (behind_rest j its r f x i) [
    | inl e ↦ inl e
    | inr m ↦ inr (∈-append_right x it (concat (behind j its)) m)
  ]
]

pub length-behind :
    (j : ℕ) (its : List (List Record)) (r : Record)
    → Front its j r
    → length (concat its) ≡ suc (length (concat (behind j its)))
length-behind j [] r f = cc f.1
length-behind zero ([] ∷ its) r f = cc (some-injective [] (r ∷ f.0) f.1)
length-behind zero ((s ∷ it) ∷ its) r f = refl
length-behind (suc j) (it ∷ its) r f = omega (
  arith,
  length-behind j its r f,
  length-append it (concat its),
  length-append it (concat (behind j its)),
)

pub length-emptied :
    (j : ℕ) (its : List (List Record)) → length (concat (emptied j its)) ≤ length (concat its)
length-emptied j [] = omega arith
length-emptied zero (it ∷ its) = omega (arith, length-append it (concat its))
length-emptied (suc j) (it ∷ its) =
    let l = length-emptied j its in
    omega (arith, l, length-append it (concat its), length-append it (concat (emptied j its)))

pub behind-IsSorted :
    (j : ℕ) (its : List (List Record)) → All IsSorted its → All IsSorted (behind j its)
behind-IsSorted j [] a = tt
behind-IsSorted zero ([] ∷ its) a = a
behind-IsSorted zero ((r ∷ it) ∷ its) a = (a.0.1, a.1)
behind-IsSorted (suc j) (it ∷ its) a = (a.0, behind-IsSorted j its a.1)

pub emptied-IsSorted :
    (j : ℕ) (its : List (List Record)) → All IsSorted its → All IsSorted (emptied j its)
emptied-IsSorted j [] a = tt
emptied-IsSorted zero (it ∷ its) a = (tt, a.1)
emptied-IsSorted (suc j) (it ∷ its) a = (a.0, emptied-IsSorted j its a.1)

-- A record stands at or behind the front of its source.
pub behind-Front :
    (its : List (List Record)) (x : Record)
    → All IsSorted its
    → x ∈ concat its
    → (k : ℕ) × (s : Record) × Front its k s × (version_key s ≼ version_key x)
behind-Front [] x a k = absurd k
behind-Front ([] ∷ its) x a k = let (n, s, f, l) = behind-Front its x a.1 k in (suc n, s, f, l)
behind-Front ((s ∷ it) ∷ its) x a (inl e) = (0, s, (it, refl), rw e (≼_refl (version_key s)))
behind-Front ((s ∷ it) ∷ its) x a (inr k) = elim (∈-append_cases x it (concat its) k) [
  | inl i ↦ (0, s, (it, refl), All-at (λ u. version_key s ≼ version_key u) x it a.0.0 i)
  | inr i ↦ let (n, t, f, l) = behind-Front its x a.1 i in (suc n, t, f, l)
]

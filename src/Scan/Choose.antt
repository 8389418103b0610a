-- ===== src/Scan/Choose.antt =====
-- The source that `next_source` finds holds the least record of all.
use lsm_tree_key_value_stora.Prelude.{
  ℕ, zero, suc, ◌+◌, ◌≡◌, refl, ap, subst, true, false, Option, none, some, List, [], ◌∷◌, map,
  arith, get_elem?, inl, inr, ◌⊎◌, Bool-cases,
}
use mathlib.Core.Option.{some-injective}
use mathlib.Core.List.{head-eq_of_cons-eq}
use lsm_tree_key_value_stora.Order.{
  ◌≼◌, ≼_refl, ≼_trans, bytes_ord, version_ord, pair_ord, rev_ord, nat_ord,
}
use lsm_tree_key_value_stora.Errors.{ok}
use lsm_tree_key_value_stora.Record.{Record}
use lsm_tree_key_value_stora.Visible.{version_key}
use lsm_tree_key_value_stora.Scan.{Peeking, peeking, better, next_source_from}

-- Sources that do not fail.
abbrev pub healthy : List (List Record) → List Peeking
healthy [] = []
healthy (it ∷ its) = peeking (map ok it) ∷ healthy its

better_≼ :
    (r : Record) (i : ℕ) (b : Record)
    → better r (some (i, b)) ≡ true
    → version_key r ≼ version_key b
unfolding better pair_ord rev_ord nat_ord
better_≼ r i b h = ground (arith, bytes_ord.cmp_swap r.key b.key)

not_better_≼ :
    (r : Record) (i : ℕ) (b : Record)
    → better r (some (i, b)) ≡ false
    → version_key b ≼ version_key r
unfolding better pair_ord rev_ord nat_ord
not_better_≼ r i b h = ground (arith, bytes_ord.cmp_swap r.key b.key)

-- The record at the front of source `j`.
abbrev pub Front : List (List Record) → ℕ → Record → Type 0
Front its j r = (it : List Record) × (get_elem? its j ≡ some (r ∷ it))

-- The answer from index `i` on, among the sources and the best one so far.
pub record Found (i : ℕ) (best : Option (ℕ × Record)) (its : List (List Record)) (j : ℕ)
    : Type 0 where
  pub r : Record
  pub place : (best ≡ some (j, r)) ⊎ ((k : ℕ) × (j ≡ i + k) × Front its k r)
  pub least : (k : ℕ) (s : Record) → Front its k s → version_key r ≼ version_key s
  pub least_best : (b : ℕ) (s : Record) → best ≡ some (b, s) → version_key r ≼ version_key s

abbrev Answer : ℕ → Option (ℕ × Record) → List (List Record) → Option ℕ → Type 0
Answer i best its none = (best ≡ none) × ((k : ℕ) (s : Record) → ¬ (Front its k s))
Answer i best its (some j) = Found i best its j

same_record :
    (i j : ℕ) (r s : Record) → ◌≡◌ {A = Option (ℕ × Record)} (some (i, r)) (some (j, s)) → r ≡ s
same_record i j r s e = ap (λ p. p.1) (some-injective (i, r) (j, s) e)

same_index :
    (i j : ℕ) (r s : Record) → ◌≡◌ {A = Option (ℕ × Record)} (some (i, r)) (some (j, s)) → i ≡ j
same_index i j r s e = ap (λ p. p.0) (some-injective (i, r) (j, s) e)

pub Front-record :
    (s t : Record) (it : List Record) (its : List (List Record))
    → Front ((s ∷ it) ∷ its) 0 t
    → s ≡ t
Front-record s t it its (rest, e) = head-eq_of_cons-eq (some-injective (s ∷ it) (t ∷ rest) e)

no_Front : (s : Record) (its : List (List Record)) → ¬ (Front ([] ∷ its) 0 s)
no_Front s its (rest, e) = cc (some-injective [] (s ∷ rest) e)

-- An empty source is passed over.
skip_empty :
    (i : ℕ) (best : Option (ℕ × Record)) (its : List (List Record)) (o : Option ℕ)
    → Answer (suc i) best its o
    → Answer i best ([] ∷ its) o
skip_empty i best its none a =
    (a.0, elim [ zero ↦ λ s f. no_Front s its f | suc k ↦ λ s f. a.1 k s f ])
skip_empty i best its (some j) a = record {
  r = a.r;
  place = elim a.place [ inl e ↦ inl e | inr (k, e, f) ↦ inr (suc k, omega (arith, e), f) ];
  least = elim [ zero ↦ λ s f. absurd (no_Front s its f) | suc k ↦ λ s f. a.least k s f ];
  least_best = a.least_best;
}

-- A source whose head is better takes the place of the best one so far.
take_better :
    (i : ℕ) (best : Option (ℕ × Record)) (s : Record) (it : List Record) (its : List (List Record))
    (o : Option ℕ)
    → better s best ≡ true
    → Answer (suc i) (some (i, s)) its o
    → Answer i best ((s ∷ it) ∷ its) o
take_better i best s it its none h a = absurd (cc a.0)
take_better i best s it its (some j) h a = record {
  r = a.r;
  place = elim a.place [
    | inl e ↦ inr (
      0,
      omega (arith, same_index i j s a.r e),
      (it, ap (λ x. some (x ∷ it)) (same_record i j s a.r e)),
    )
    | inr (k, e, f) ↦ inr (suc k, omega (arith, e), f)
  ];
  least = elim [
    | zero ↦ λ t f.
        subst (λ x. version_key a.r ≼ version_key x) (Front-record s t it its f)
          (a.least_best i s refl)
    | suc k ↦ λ t f. a.least k t f
  ];
  least_best = λ b t e.
      ≼_trans (version_key a.r) (version_key s) (version_key t) (a.least_best i s refl)
        (better_≼ s b t (subst (λ x. better s x ≡ true) e h));
}

-- And one whose head is not leaves it.
keep_best :
    (i : ℕ) (best : Option (ℕ × Record)) (s : Record) (it : List Record) (its : List (List Record))
    (o : Option ℕ)
    → better s best ≡ false
    → Answer (suc i) best its o
    → Answer i best ((s ∷ it) ∷ its) o
unfolding better
keep_best i none s it its o h a = cc
keep_best i (some (b, t)) s it its none h a = absurd (cc a.0)
keep_best i (some (b, t)) s it its (some j) h a = record {
  r = a.r;
  place = elim a.place [ inl e ↦ inl e | inr (k, e, f) ↦ inr (suc k, omega (arith, e), f) ];
  least = elim [
    | zero ↦ λ u f.
        subst (λ x. version_key a.r ≼ version_key x) (Front-record s u it its f)
          (≼_trans (version_key a.r) (version_key t) (version_key s) (a.least_best b t refl)
            (not_better_≼ s b t h))
    | suc k ↦ λ u f. a.least k u f
  ];
  least_best = a.least_best;
}

next_source_from-Answer :
    (i : ℕ) (best : Option (ℕ × Record)) (its : List (List Record))
    → Answer i best its (next_source_from i best (healthy its))
unfolding next_source_from peeking
next_source_from-Answer i none [] = (refl, λ k s f. cc f.1)
next_source_from-Answer i (some (j, r)) [] = record {
  r = r;
  place = inl refl;
  least = λ k s f. absurd (cc f.1);
  least_best = λ b s e.
      subst (λ x. version_key r ≼ version_key x) (same_record j b r s e) (≼_refl (version_key r));
}
next_source_from-Answer i best ([] ∷ its) =
    skip_empty i best its (next_source_from (suc i) best (healthy its))
      (next_source_from-Answer (suc i) best its)
next_source_from-Answer i best ((s ∷ it) ∷ its) = elim (Bool-cases (better s best)) [
  | inl h ↦
      rw h (take_better i best s it its _ h (next_source_from-Answer (suc i) (some (i, s)) its))
  | inr h ↦ rw h (keep_best i best s it its _ h (next_source_from-Answer (suc i) best its))
]

-- What `next_source` finds: nothing where all sources are at their end, and otherwise a source whose
-- first record is the least of all.
pub next_source-none :
    (its : List (List Record))
    → next_source_from 0 none (healthy its) ≡ none
    → (k : ℕ) (s : Record) → ¬ (Front its k s)
next_source-none its e = (subst (Answer 0 none its) e (next_source_from-Answer 0 none its)).1

pub next_source-some :
    (its : List (List Record)) (j : ℕ)
    → next_source_from 0 none (healthy its) ≡ some j
    → (r : Record) × Front its j r
      × ((k : ℕ) (s : Record) → Front its k s → version_key r ≼ version_key s)
next_source-some its j e =
    let a = subst (Answer 0 none its) e (next_source_from-Answer 0 none its) in
    (
      a.r,
      elim a.place [
        | inl q ↦ cc
        | inr (k, q, f) ↦ subst (λ x. Front its x a.r) (omega (arith, q)) f
      ],
      a.least,
    )

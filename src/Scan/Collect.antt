-- ===== src/Scan/Collect.antt =====
-- A scan gives the newest visible value of every key in its range, in the order of the keys.
use mathlib.Core.Option.{some-injective}
use lsm_tree_key_value_stora.Prelude.{
  ℕ, zero, suc, ◌≤◌, ◌≡◌, refl, ap, subst, ◌∙◌, true, false, Option, none, some, List, [], ◌∷◌, map,
  arith, length, leb, All, inl, inr, ◌↔◌, Bool-cases, Option-cases,
}
use lsm_tree_key_value_stora.Order.{◌≼◌, ≼_trans, bytes_ord, version_ord}
use lsm_tree_key_value_stora.Errors.{ok}
use lsm_tree_key_value_stora.Bytes.{Bytes}
use lsm_tree_key_value_stora.Record.{Record}
use lsm_tree_key_value_stora.Members.{◌∈◌, concat}
use lsm_tree_key_value_stora.Visible.{newest, value_of, sees, version_key}
use lsm_tree_key_value_stora.Visible.Members.{Unique}
use lsm_tree_key_value_stora.Compaction.Sorted.{IsSorted}
use lsm_tree_key_value_stora.Scan.{
  stop, again, emit, next_source_from, taken, turn, collect, past_end, is_done, emit_value,
}
use lsm_tree_key_value_stora.Scan.Choose.{healthy, Front, next_source-none, next_source-some}
use lsm_tree_key_value_stora.Scan.Sources.{
  behind, emptied, change-closed, behind_part, emptied_part, length-behind, length-emptied,
  behind-IsSorted, emptied-IsSorted, behind-Front,
}
use lsm_tree_key_value_stora.Scan.Live.{key_≼, unseen_done, unseen_above}
use lsm_tree_key_value_stora.Scan.Answers.{
  Rising, Scanned, state, collect-turn, stop_turn, take_turn, same_answers, closed_answers, without,
  buried, given, in_hand, nothing_left,
}
use lsm_tree_key_value_stora.Scan.{peeking, new}

module _ (bound : ℕ) (end : Option Bytes) where
  abbrev Below : Option Bytes → List (List Record) → Type 0
  Below last its = (d : Bytes) → last ≡ some d → (x : Record) → x ∈ concat its → d ≼ x.key

  -- What is known of the sources between two rounds.
  pub record Ready (its : List (List Record)) (last : Option Bytes) : Type 0 where
    pub sorted : All IsSorted its
    pub unique : Unique (concat its)
    pub below : Below last its

  smaller :
      (its after : List (List Record)) (last : Option Bytes)
      → Ready its last
      → All IsSorted after
      → ((x : Record) → x ∈ concat after → x ∈ concat its)
      → Ready after last
  smaller its after last ready sorted part = record {
    sorted = sorted;
    unique = λ x y i k. ready.unique x y (part x i) (part y k);
    below = λ d e x i. ready.below d e x (part x i);
  }

  abbrev Scans : ℕ → List (List Record) → Option Bytes → Type 0
  Scans fuel its last =
      (kvs : List (Bytes × Bytes)) × (collect fuel (state bound end its last) ≡ map ok kvs)
      × Scanned bound end its last kvs

  -- One round, from the scans that the rounds behind it make.
  module _ (fuel : ℕ)
      (rest : (its : List (List Record)) (last : Option Bytes)
        → length (concat its) ≤ fuel
        → Ready its last
        → Scans fuel its last)
      (its : List (List Record)) (last : Option Bytes) (ready : Ready its last) (j : ℕ) (r : Record)
      (f : Front its j r) (chosen : next_source_from 0 none (healthy its) ≡ some j)
      (least : (x : Record) → x ∈ concat its → version_key r ≼ version_key x)
      (small : length (concat (behind j its)) ≤ fuel) where
    abbrev after : List (List Record)
    after = behind j its

    after-Ready : Ready after last
    after-Ready =
        smaller its after last ready (behind-IsSorted j its ready.sorted) (behind_part j its)

    skipped :
        taken (some (ok r)) j (state bound end after last) ≡ (again, state bound end after last)
        → ((k : Bytes) → is_done last k ≡ false → sees k bound r ≡ false)
        → Scans (suc fuel) its last
    skipped e unseen =
        let (kvs, q, s) = rest after last small after-Ready in
        (
          kvs,
          collect-turn bound end fuel (state bound end its last) (state bound end after last) again
                (take_turn bound end its last j r chosen f ∙ e)
              ∙ q,
          same_answers bound end its after last kvs
              (λ k p d. without bound end its last j r f ready.unique least k (unseen k d)) s,
        )

    closing : past_end end r.key ≡ true → Scans (suc fuel) its last
    unfolding taken
    closing h =
        let l = length-emptied j after in
        let (kvs, q, s) = rest (emptied j after) last (omega (arith, l, small)) (
          smaller its (emptied j after) last ready
            (emptied-IsSorted j after (behind-IsSorted j its ready.sorted))
            (λ x i. behind_part j its x (emptied_part j after x i))) in
        (
          kvs,
          collect-turn bound end fuel (state bound end its last)
                (state bound end (emptied j after) last) again
                (take_turn bound end its last j r chosen f ∙ (rw (h, change-closed j after)))
              ∙ q,
          same_answers bound end its (emptied j after) last kvs
              (λ k p d. closed_answers bound end its last j r f ready.unique least h k p) s,
        )

    taking :
        past_end end r.key ≡ false
        → is_done last r.key ≡ false
        → leb bound r.seq ≡ false
        → Scans (suc fuel) its last
    unfolding taken
    taking inside fresh visible =
        let (kvs, q, s) = rest after (some r.key) small (record {
          sorted = after-Ready.sorted;
          unique = after-Ready.unique;
          below = λ d e x i.
              subst (λ z. z ≼ x.key) (some-injective r.key d e)
                (key_≼ r x (least x (behind_part j its x i)));
        }) in
        let below : (d : Bytes) → last ≡ some d → d ≼ r.key =
          λ d e. ready.below d e r (in_hand bound end its last j r f ready.unique least) in
        let step : turn (state bound end its last)
            ≡ (emit_value r.value r.key, state bound end after (some r.key)) =
          take_turn bound end its last j r chosen f ∙ (rw (inside, fresh, visible)) in
        elim (Option-cases r.value) [
          | inl n ↦ (
            kvs,
            collect-turn bound end fuel (state bound end its last)
                  (state bound end after (some r.key)) again
                  (step ∙ ap (λ o. (emit_value o r.key, state bound end after (some r.key))) n)
                ∙ q,
            buried bound end its last j r f ready.unique least visible inside fresh below kvs s n,
          )
          | inr (w, n) ↦ (
            (r.key, w) ∷ kvs,
            collect-turn bound end fuel (state bound end its last)
                  (state bound end after (some r.key)) (emit (ok (r.key, w)))
                  (step ∙ ap (λ o. (emit_value o r.key, state bound end after (some r.key))) n)
                ∙ ap (λ x. ok (r.key, w) ∷ x) q,
            given bound end its last j r f ready.unique least visible inside fresh below kvs s w n,
          )
        ]

    round : Scans (suc fuel) its last
    unfolding taken
    round = elim (Bool-cases (past_end end r.key)) [
      | inl h ↦ closing h
      | inr inside ↦ elim (Bool-cases (is_done last r.key)) [
        | inl d ↦ skipped (rw (inside, d)) (λ k n. unseen_done last k bound r d n)
        | inr fresh ↦ elim (Bool-cases (leb bound r.seq)) [
          | inl l ↦ skipped (rw (inside, fresh, l)) (λ k n. unseen_above k bound r l)
          | inr visible ↦ taking inside fresh visible
        ]
      ]
    ]

  collect-Scans :
      (fuel : ℕ) (its : List (List Record)) (last : Option Bytes)
      → length (concat its) ≤ fuel
      → Ready its last
      → Scans fuel its last
  unfolding collect
  collect-Scans zero its last l ready =
      ([], refl, nothing_left bound end its last (λ x k. empty (concat its) (omega (arith, l)) x k))
    where
      empty : (xs : List Record) → length xs ≡ 0 → (x : Record) → ¬ (x ∈ xs)
      empty [] e x k = k
      empty (y ∷ ys) e x k = cc
  collect-Scans (suc fuel) its last l ready =
      elim (Option-cases (next_source_from 0 none (healthy its))) [
        | inl e ↦ (
          [],
          collect-turn bound end fuel (state bound end its last) (state bound end its last) stop
              (stop_turn bound end its last e),
          nothing_left bound end its last (λ x k.
              let (n, s, f, le) = behind-Front its x ready.sorted k in
              next_source-none its e n s f),
        )
        | inr (j, e) ↦
            let (r, f, fronts) = next_source-some its j e in
            round fuel (collect-Scans fuel) its last ready j r f e
              (λ x k.
                let (n, s, g, le) = behind-Front its x ready.sorted k in
                ≼_trans (version_key r) (version_key s) (version_key x) (fronts n s g) le)
              (omega (arith, length-behind j its r f, l))
      ]

peeking-healthy : (its : List (List Record)) → map peeking (map (map ok) its) ≡ healthy its
peeking-healthy [] = refl
peeking-healthy (it ∷ its) = ap (λ x. peeking (map ok it) ∷ x) (peeking-healthy its)

-- A scan over sorted sources, of which no two hold different versions of a key with one sequence
-- number, gives keys in strictly ascending order, and gives a key with a value exactly where the
-- key is inside the range and that is the value of its newest version below the bound.
pub collect-newest :
    (its : List (List Record)) (bound : ℕ) (end : Option Bytes)
    → All IsSorted its
    → Unique (concat its)
    → (kvs : List (Bytes × Bytes)) × (collect
          (length (concat its))
          (new (map (map ok) its) bound end)
        ≡ map ok kvs)
      × Rising kvs
      × ((k v : Bytes)
          → ((k, v) ∈ kvs)
            ↔ ((past_end end k ≡ false) × (value_of (newest k bound (concat its)) ≡ some v)))
unfolding new
collect-newest its bound end sorted unique =
    let (kvs, e, s) =
      collect-Scans bound end (length (concat its)) its none (omega arith)
        (record { sorted = sorted; unique = unique; below = λ d q. cc }) in
    (
      kvs,
      ap
            (λ x.
              collect (length (concat its))
                (record { sources = x; seq_bound = bound; end = end; done = none }))
            (peeking-healthy its)
          ∙ e,
      s.rising,
      λ k v. (λ i. let (p, d, q) = s.sound k v i in (p, q), λ h. s.complete k v h.0 refl h.1),
    )

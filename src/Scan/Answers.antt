-- ===== src/Scan/Answers.antt =====
-- What a round does to the answers of a scan: the keys that are still to come and their values.
use mathlib.Core.Option.{some-injective}
use lsm_tree_key_value_stora.Prelude.{
  ℕ, suc, ◌≡◌, refl, ap, ap₂, sym, subst, ◌∙◌, true, false, Option, none, some, List, [], ◌∷◌, leb,
  All, inl, inr, Bool-cases,
}
use lsm_tree_key_value_stora.Order.{◌≼◌, ◌≺◌, key_eq_refl, eq_of_key_eq, bytes_ord, version_ord}
use lsm_tree_key_value_stora.Errors.{ok}
use lsm_tree_key_value_stora.Bytes.{Bytes}
use lsm_tree_key_value_stora.Record.{Record}
use lsm_tree_key_value_stora.Members.{◌∈◌, concat, All-of, concat-∈}
use lsm_tree_key_value_stora.Visible.{newest, value_of, sees, version_key}
use lsm_tree_key_value_stora.Visible.Laws.{key_of_seen}
use lsm_tree_key_value_stora.Visible.Members.{Unique, IsNewest, newest-IsNewest}
use lsm_tree_key_value_stora.Scan.{
  Merge, Turn, stop, next_source_from, taken, turn, collect, joined, past_end, is_done,
}
use lsm_tree_key_value_stora.Scan.Choose.{healthy, Front}
use lsm_tree_key_value_stora.Scan.Sources.{
  behind, emptied, change-advance, Front-head, behind_part, emptied_part, behind_rest,
}
use lsm_tree_key_value_stora.Scan.Live.{
  key_≼, past_end_up, newest-past_end, newest_without, unseen_done, newest_of_least, beyond,
  still_open,
}

-- Keys strictly ascend.
abbrev pub Rising : List (Bytes × Bytes) → Type 0
Rising [] = Unit
Rising (p ∷ ps) = All (λ q. p.0 ≺ q.0) ps × Rising ps

-- A value that is read is that of a record.
record_of :
    (key v : Bytes) (bound : ℕ) (rs : List Record)
    → value_of (newest key bound rs) ≡ some v
    → (x : Record) × (x ∈ rs) × (x.key ≡ key)
record_of key v bound rs e = from (newest key bound rs) (newest-IsNewest key bound rs) e
  where
    from :
        (o : Option Record)
        → IsNewest key bound rs o
        → value_of o ≡ some v
        → (x : Record) × (x ∈ rs) × (x.key ≡ key)
    from none a q = cc
    from (some r) a q = (r, a.0, key_of_seen key bound r a.1)

module _ (bound : ℕ) (end : Option Bytes) where
  abbrev pub state : List (List Record) → Option Bytes → Merge
  state its last = record { sources = healthy its; seq_bound = bound; end = end; done = last }

  -- What a scan of `its` gives for the keys behind `last`.
  pub record Scanned (its : List (List Record)) (last : Option Bytes) (kvs : List (Bytes × Bytes))
      : Type 0 where
    pub sound :
        (k v : Bytes)
        → (k, v) ∈ kvs
        → (past_end end k ≡ false)
          × (is_done last k ≡ false)
          × (value_of (newest k bound (concat its)) ≡ some v)
    pub complete :
        (k v : Bytes)
        → past_end end k ≡ false
        → is_done last k ≡ false
        → value_of (newest k bound (concat its)) ≡ some v
        → (k, v) ∈ kvs
    pub rising : Rising kvs

  pub nothing_left :
      (its : List (List Record)) (last : Option Bytes)
      → ((x : Record) → ¬ (x ∈ concat its))
      → Scanned its last []
  nothing_left its last none_left = record {
    sound = λ k v i. absurd i;
    complete =
        λ k v p d e. let (x, i, q) = record_of k v bound (concat its) e in absurd (none_left x i);
    rising = tt;
  }

  pub collect-turn :
      (fuel : ℕ) (m m' : Merge) (t : Turn)
      → turn m ≡ (t, m')
      → collect (suc fuel) m ≡ joined t (collect fuel m')
  unfolding collect
  collect-turn fuel m m' t e = ap (λ p. joined p.0 (collect fuel p.1)) e

  pub stop_turn :
      (its : List (List Record)) (last : Option Bytes)
      → next_source_from 0 none (healthy its) ≡ none
      → turn (state its last) ≡ (stop, state its last)
  unfolding turn
  stop_turn its last e = rw (e, turn)

  pub take_turn :
      (its : List (List Record)) (last : Option Bytes) (j : ℕ) (r : Record)
      → next_source_from 0 none (healthy its) ≡ some j
      → Front its j r
      → turn (state its last) ≡ taken (some (ok r)) j (state (behind j its) last)
  unfolding turn
  take_turn its last j r e f = rw (e, turn) (rw (Front-head j its r f, change-advance j its))

  -- A round that gives nothing, and leaves a scan with the same answers.
  pub same_answers :
      (its after : List (List Record)) (last : Option Bytes) (kvs : List (Bytes × Bytes))
      → ((k : Bytes)
          → past_end end k ≡ false
          → is_done last k ≡ false
          → newest k bound (concat after) ≡ newest k bound (concat its))
      → Scanned after last kvs
      → Scanned its last kvs
  same_answers its after last kvs same s = record {
    sound = λ k v i. let (p, d, e) = s.sound k v i in (p, d, ap value_of (sym (same k p d)) ∙ e);
    complete = λ k v p d e. s.complete k v p d (ap value_of (same k p d) ∙ e);
    rising = s.rising;
  }

  -- The record in hand: the least one of all that are left.
  module _ (its : List (List Record)) (last : Option Bytes) (j : ℕ) (r : Record) (f : Front its j r)
      (unique : Unique (concat its))
      (least : (x : Record) → x ∈ concat its → version_key r ≼ version_key x) where
    pub in_hand : r ∈ concat its
    in_hand = concat-∈ r its j (r ∷ f.0) f.1 (inl refl)

    pub without :
        (k : Bytes)
        → sees k bound r ≡ false
        → newest k bound (concat (behind j its)) ≡ newest k bound (concat its)
    without k h =
        newest_without k bound (concat its) (concat (behind j its)) r unique (behind_part j its)
          (behind_rest j its r f) h

    pub closed_answers :
        past_end end r.key ≡ true
        → (k : Bytes) → past_end end k ≡ false
        → newest k bound (concat (emptied j (behind j its))) ≡ newest k bound (concat its)
    closed_answers h k p =
        newest-past_end end bound k (concat (emptied j (behind j its))) p
          (λ x i. all_past x (behind_part j its x (emptied_part j (behind j its) x i)))
        ∙ sym (newest-past_end end bound k (concat its) p all_past)
      where
        all_past : (x : Record) → x ∈ concat its → past_end end x.key ≡ true
        all_past x i = past_end_up end r.key x.key h (key_≼ r x (least x i))

    module _ (visible : leb bound r.seq ≡ false) (inside : past_end end r.key ≡ false)
        (not_done : is_done last r.key ≡ false) (below : (d : Bytes) → last ≡ some d → d ≼ r.key)
        (kvs : List (Bytes × Bytes)) (s : Scanned (behind j its) (some r.key) kvs) where
      found : newest r.key bound (concat its) ≡ some r
      found = newest_of_least bound (concat its) r unique in_hand visible least

      other :
          (k : Bytes)
          → is_done (some r.key) k ≡ false
          → newest k bound (concat (behind j its)) ≡ newest k bound (concat its)
      other k n = without k (unseen_done (some r.key) k bound r (key_eq_refl r.key) n)

      key_behind :
          (k v : Bytes) → value_of (newest k bound (concat (behind j its))) ≡ some v → r.key ≼ k
      key_behind k v e =
          let (x, i, q) = record_of k v bound (concat (behind j its)) e in
          subst (λ z. r.key ≼ z) q (key_≼ r x (least x (behind_part j its x i)))

      later_sound :
          (k v : Bytes)
          → (k, v) ∈ kvs
          → (past_end end k ≡ false)
            × (is_done last k ≡ false)
            × (value_of (newest k bound (concat its)) ≡ some v)
      later_sound k v i =
          let (p, d, e) = s.sound k v i in
          (
            p,
            still_open last r.key k not_done below (key_behind k v e),
            ap value_of (sym (other k d)) ∙ e,
          )

      later_complete :
          (k v : Bytes)
          → past_end end k ≡ false
          → is_done (some r.key) k ≡ false
          → value_of (newest k bound (concat its)) ≡ some v
          → (k, v) ∈ kvs
      later_complete k v p n e = s.complete k v p n (ap value_of (other k n) ∙ e)

      value_here :
          (k v : Bytes)
          → is_done (some r.key) k ≡ true
          → value_of (newest k bound (concat its)) ≡ some v
          → r.value ≡ some v
      value_here k v t e =
          ap value_of
            (sym (subst (λ z. newest z bound (concat its) ≡ some r) (eq_of_key_eq r.key k t) found))
          ∙ e

      pub buried : r.value ≡ none → Scanned its last kvs
      buried n = record {
        sound = later_sound;
        complete = λ k v p d e. elim (Bool-cases (is_done (some r.key) k)) [
          | inl t ↦ absurd (cc (value_here k v t e, n))
          | inr q ↦ later_complete k v p q e
        ];
        rising = s.rising;
      }

      pub given : (w : Bytes) → r.value ≡ some w → Scanned its last ((r.key, w) ∷ kvs)
      given w n = record {
        sound = λ k v. elim [
          | inl e ↦
              let same_key : k ≡ r.key = ap (λ q. q.0) e in
              (
                ap (past_end end) same_key ∙ inside,
                ap (is_done last) same_key ∙ not_done,
                ap (λ z. value_of (newest z bound (concat its))) same_key
                    ∙ ap value_of found
                    ∙ n
                    ∙ ap some (sym (ap (λ q. q.1) e)),
              )
          | inr i ↦ later_sound k v i
        ];
        complete = λ k v p d e. elim (Bool-cases (is_done (some r.key) k)) [
          | inl t ↦ inl (
              ap₂ (λ x y. (x, y)) (sym (eq_of_key_eq r.key k t))
                (some-injective v w (sym (value_here k v t e) ∙ n)))
          | inr q ↦ inr (later_complete k v p q e)
        ];
        rising = (
          All-of (λ q. r.key ≺ q.0) kvs
              (λ q i.
                let (p, d, e) = s.sound q.0 q.1 i in beyond r.key q.0 (key_behind q.0 q.1 e) d),
          s.rising,
        );
      }

-- ===== src/Visible/Runs.antt =====
-- In a run the first version that a read sees is the newest one.
use lsm_tree_key_value_stora.Prelude.{
  ℕ, ◌≤◌, ◌<◌, ◌≡◌, true, false, none, some, List, [], ◌∷◌, arith, ltb, All, Bool-cases, inl, inr,
  ◌⊎◌, if◌then◌else◌,
}
use lsm_tree_key_value_stora.Order.{
  ◌≺◌, bytes_ord, nat_ord, rev_ord, pair_ord, version_ord, lt_asymm, lt_irrefl,
}
use lsm_tree_key_value_stora.Bytes.{Bytes}
use lsm_tree_key_value_stora.Record.{Record}
use lsm_tree_key_value_stora.Visible.{sees, newest, ◌⊲◌}
use lsm_tree_key_value_stora.Visible.Laws.{newest-none, newest-SeqAtMost, later_left, key_of_seen}

pub All-map {ℓ κ μ} :
    {A : Type ℓ} {P : A → Type κ} {Q : A → Type μ} (xs : List A)
    → ((x : A) → P x → Q x)
    → All P xs
    → All Q xs
All-map [] f a = tt
All-map (x ∷ xs) f a = (f x a.0, All-map xs f a.1)

pub All-zip {ℓ κ μ ν} :
    {A : Type ℓ} {P : A → Type κ} {Q : A → Type μ} {R : A → Type ν}
    → ((x : A) → P x → Q x → R x)
    → (xs : List A) → All P xs
    → All Q xs
    → All R xs
All-zip f [] a b = tt
All-zip f (x ∷ xs) a b = (f x a.0 b.0, All-zip f xs a.1 b.1)

-- What stands behind a version of `key` is an older version of it, or has a larger key.
pub ⊲_cases : (r s : Record) → r ⊲ s → (r.key ≺ s.key) ⊎ ((r.key ≡ s.key) × (s.seq < r.seq))
unfolding pair_ord rev_ord nat_ord
⊲_cases r s h = ground (arith, bytes_ord.eq_of_cmp r.key s.key)

pub not_seen_lt : (key : Bytes) (bound : ℕ) (r : Record) → key ≺ r.key → sees key bound r ≡ false
unfolding sees
not_seen_lt key bound r h = rw (lt_asymm key r.key h)

pub not_seen_gt : (key : Bytes) (bound : ℕ) (r : Record) → r.key ≺ key → sees key bound r ≡ false
unfolding sees
not_seen_gt key bound r h = rw h

pub not_seen_seq :
    (key : Bytes) (bound : ℕ) (r : Record) → ltb r.seq bound ≡ false → sees key bound r ≡ false
unfolding sees
not_seen_seq key bound r h = ground arith

pub seen :
    (key : Bytes) (bound : ℕ) (r : Record)
    → r.key ≡ key
    → ltb r.seq bound ≡ true
    → sees key bound r ≡ true
unfolding sees
seen key bound r e h = ground (arith, bytes_ord.cmp_refl key)

-- Everything behind a version with a larger key is out of sight.
pub newest_beyond :
    (key : Bytes) (bound : ℕ) (r : Record) (rs : List Record)
    → key ≺ r.key
    → All (λ s. r ⊲ s) rs
    → newest key bound (r ∷ rs) ≡ none
newest_beyond key bound r rs h a =
    newest-none key bound (r ∷ rs) (not_seen_lt key bound r h, All-map rs beyond a)
  where
    beyond : (s : Record) → r ⊲ s → sees key bound s ≡ false
    beyond s p = elim (⊲_cases r s p) [
      | inl q ↦ not_seen_lt key bound s (bytes_ord.lt_trans key r.key s.key h q)
      | inr (e, _) ↦ not_seen_lt key bound s (rw (← e) h)
    ]

-- A version that the read sees hides everything behind it.
pub newest_head :
    (key : Bytes) (bound : ℕ) (r : Record) (rs : List Record)
    → sees key bound r ≡ true
    → All (λ s. r ⊲ s) rs
    → newest key bound (r ∷ rs) ≡ some r
unfolding newest
newest_head key bound r rs h a =
    rw h (later_left r _ (newest-SeqAtMost key bound r.seq rs (All-map rs older a)))
  where
    older : (s : Record) → r ⊲ s → sees key bound s ≡ true → s.seq ≤ r.seq
    older s p q = elim (⊲_cases r s p) [
      | inl l ↦
          absurd (lt_irrefl key (rw (key_of_seen key bound r h, key_of_seen key bound s q) at l))
      | inr (_, l) ↦ omega arith
    ]

-- A version that the read does not see can be passed over.
pub newest_skip :
    (key : Bytes) (bound : ℕ) (r : Record) (rs : List Record)
    → sees key bound r ≡ false
    → newest key bound (r ∷ rs) ≡ newest key bound rs
unfolding newest
newest_skip key bound r rs h = rw h

-- At a version of `key` itself the bound decides.
pub newest_first :
    (key : Bytes) (bound : ℕ) (r : Record) (rs : List Record)
    → r.key ≡ key
    → All (λ s. r ⊲ s) rs
    → newest key bound (r ∷ rs) ≡ (if ltb r.seq bound then some r else newest key bound rs)
newest_first key bound r rs e a = elim (Bool-cases (ltb r.seq bound)) [
  | inl h ↦ rw h (newest_head key bound r rs (seen key bound r e h) a)
  | inr h ↦ rw h (newest_skip key bound r rs (not_seen_seq key bound r h))
]

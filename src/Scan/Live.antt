-- ===== src/Scan/Live.antt =====
-- The reads that the cases of a round rest on: what the record in hand, the least one left, is to a
-- key of the range.
use lsm_tree_key_value_stora.Prelude.{
  ℕ, ◌≤◌, ◌≡◌, ◌≢◌, refl, ap, sym, subst, true, false, Option, none, some, List, arith, leb, inl,
  inr, ◌⊎◌, Bool-cases,
}
use lsm_tree_key_value_stora.Order.{
  ◌≼◌, ◌≺◌, ≼_trans, ≼_cases, bytes_ord, version_ord, pair_ord, rev_ord, nat_ord, key_eq, key_lt,
  key_eq_refl, eq_of_key_eq,
}
use lsm_tree_key_value_stora.Bytes.{Bytes}
use lsm_tree_key_value_stora.Record.{Record}
use lsm_tree_key_value_stora.Members.{◌∈◌, All-of}
use lsm_tree_key_value_stora.Visible.{newest, sees, version_key}
use lsm_tree_key_value_stora.Visible.Laws.{newest-none, key_of_seen}
use lsm_tree_key_value_stora.Visible.Runs.{seen}
use lsm_tree_key_value_stora.Visible.Members.{
  Unique, newest-IsNewest, IsNewest-Unique, newest_of_part,
}
use lsm_tree_key_value_stora.Scan.{past_end, is_done}

pub key_≼ : (r s : Record) → version_key r ≼ version_key s → r.key ≼ s.key
unfolding pair_ord
key_≼ r s h = ground arith

seq_≤ : (r s : Record) → r.key ≡ s.key → version_key r ≼ version_key s → s.seq ≤ r.seq
unfolding pair_ord rev_ord nat_ord
seq_≤ r s e h = let h' = rw (e, bytes_ord.cmp_refl s.key) at h in ground arith

-- Keys past the end of the range stay past it.
pub past_end_up :
    (end : Option Bytes) (j k : Bytes) → past_end end j ≡ true → j ≼ k → past_end end k ≡ true
past_end_up none j k h l = h
past_end_up (some e) j k h l =
    let not_below : e ≼ j = elim (Bool-cases (key_lt j e)) [
      | inl t ↦ absurd (cc (rw t at h))
      | inr f ↦ f
    ] in
    rw (≼_trans e j k not_below l)

-- No read of a key inside the range sees a record past its end.
pub newest-past_end :
    (end : Option Bytes) (bound : ℕ) (key : Bytes) (rs : List Record)
    → past_end end key ≡ false
    → ((x : Record) → x ∈ rs → past_end end x.key ≡ true)
    → newest key bound rs ≡ none
newest-past_end end bound key rs inside past =
    newest-none key bound rs (All-of (λ r. sees key bound r ≡ false) rs unseen)
  where
    unseen : (x : Record) → x ∈ rs → sees key bound x ≡ false
    unseen x k = elim (Bool-cases (sees key bound x)) [
      | inl h ↦ absurd (cc (past x k, ap (past_end end) (key_of_seen key bound x h), inside))
      | inr h ↦ h
    ]

-- A record that the read does not see can be taken away.
pub newest_without :
    (key : Bytes) (bound : ℕ) (rs ss : List Record) (r : Record)
    → Unique rs
    → ((x : Record) → x ∈ ss → x ∈ rs)
    → ((x : Record) → x ∈ rs → (x ≡ r) ⊎ (x ∈ ss))
    → sees key bound r ≡ false
    → newest key bound ss ≡ newest key bound rs
newest_without key bound rs ss r u part rest unseen =
    newest_of_part key bound rs ss u part (λ x k h. elim (rest x k) [
      | inl e ↦ absurd (cc (ap (sees key bound) e, h, unseen))
      | inr i ↦ (x, i, h, x_≤ x)
    ])
  where
    x_≤ : (x : Record) → x.seq ≤ x.seq
    x_≤ x = omega arith

unseen_key : (key : Bytes) (bound : ℕ) (r : Record) → r.key ≢ key → sees key bound r ≡ false
unseen_key key bound r n = elim (Bool-cases (sees key bound r)) [
  | inl h ↦ absurd (n (key_of_seen key bound r h))
  | inr h ↦ h
]

-- The record in hand is of no use to a key that is not done where its key is done, or where it is
-- above the bound.
pub unseen_done :
    (last : Option Bytes) (key : Bytes) (bound : ℕ) (r : Record)
    → is_done last r.key ≡ true
    → is_done last key ≡ false
    → sees key bound r ≡ false
unseen_done last key bound r h n = unseen_key key bound r (λ e. cc (ap (is_done last) e, h, n))

pub unseen_above :
    (key : Bytes) (bound : ℕ) (r : Record) → leb bound r.seq ≡ true → sees key bound r ≡ false
unfolding sees
unseen_above key bound r h = ground arith

-- The least record below the bound is the newest one of its key.
pub newest_of_least :
    (bound : ℕ) (rs : List Record) (r : Record)
    → Unique rs
    → r ∈ rs
    → leb bound r.seq ≡ false
    → ((x : Record) → x ∈ rs → version_key r ≼ version_key x)
    → newest r.key bound rs ≡ some r
newest_of_least bound rs r u k l least =
    IsNewest-Unique r.key bound rs u (newest r.key bound rs) (some r)
      (newest-IsNewest r.key bound rs)
      (
        k,
        seen r.key bound r refl (ground arith),
        λ s i h. seq_≤ r s (sym (key_of_seen r.key bound s h)) (least s i),
      )

-- After a key, the keys that are left are larger unless they are that key.
pub beyond : (j k : Bytes) → j ≼ k → is_done (some j) k ≡ false → j ≺ k
beyond j k l n = elim (≼_cases j k l) [
  | inl h ↦ h
  | inr e ↦ absurd (cc (ap (key_eq j) e, key_eq_refl j, n))
]

-- A key behind the record in hand was not done before.
pub still_open :
    (last : Option Bytes) (j k : Bytes)
    → is_done last j ≡ false
    → ((d : Bytes) → last ≡ some d → d ≼ j)
    → j ≼ k
    → is_done last k ≡ false
still_open none j k n below l = refl
still_open (some d) j k n below l = elim (Bool-cases (key_eq d k)) [
  | inl t ↦
      let back : j ≼ d = subst (λ x. j ≼ x) (sym (eq_of_key_eq d k t)) l in
      absurd (elim (≼_cases d j (below d refl)) [
        | inl h ↦ cc (rw h at back)
        | inr e ↦ cc (ap (key_eq d) e, key_eq_refl d, n)
      ])
  | inr f ↦ f
]

-- ===== src/Visible/Laws.antt =====
-- `newest` finds the version that it promises, and does not depend on how versions are grouped.
use lsm_tree_key_value_stora.Prelude.{
  ℕ, ◌≤◌, ◌≡◌, ◌≢◌, refl, ap, ◌∙◌, sym, true, false, Option, none, some, List, [], ◌∷◌, ◌++◌, arith,
  ltb, All, Bool-cases, ap₂, ◌&&◌, and_true, inl, inr,
}
use lsm_tree_key_value_stora.Order.{unrev, rev, key_eq, bytes_ord, eq_of_key_eq}
use lsm_tree_key_value_stora.Bytes.{Bytes}
use lsm_tree_key_value_stora.Record.{Record}
use lsm_tree_key_value_stora.Visible.{sees, later, pick, newest, version_key}

pub later-none : (a : Option Record) → later a none ≡ a
later-none none = refl
later-none (some r) = refl

pub later_assoc : (a b c : Option Record) → later (later a b) c ≡ later a (later b c)
later_assoc none b c = refl
later_assoc (some r) none c = refl
later_assoc (some r) (some s) none = ground arith
later_assoc (some r) (some s) (some t) = ground arith

pub newest-append :
    (key : Bytes) (bound : ℕ) (xs ys : List Record)
    → newest key bound (xs ++ ys) ≡ later (newest key bound xs) (newest key bound ys)
unfolding newest
newest-append key bound [] ys = refl
newest-append key bound (x ∷ xs) ys =
    ap (later (pick key bound x)) (newest-append key bound xs ys)
    ∙ sym (later_assoc (pick key bound x) (newest key bound xs) (newest key bound ys))

-- Versions that the read does not see leave no trace.
pub newest-none :
    (key : Bytes) (bound : ℕ) (rs : List Record)
    → All (λ r. sees key bound r ≡ false) rs
    → newest key bound rs ≡ none
unfolding newest
newest-none key bound [] a = refl
newest-none key bound (r ∷ rs) a = rw (a.0, newest-none key bound rs a.1)

abbrev pub SeqAtMost : ℕ → Option Record → Type 0
SeqAtMost n none = Unit
SeqAtMost n (some r) = r.seq ≤ n

SeqAtMost-later :
    (n : ℕ) (a b : Option Record) → SeqAtMost n a → SeqAtMost n b → SeqAtMost n (later a b)
SeqAtMost-later n none b h k = k
SeqAtMost-later n (some r) none h k = h
SeqAtMost-later n (some r) (some s) h k = ground arith

pub newest-SeqAtMost :
    (key : Bytes) (bound n : ℕ) (rs : List Record)
    → All (λ r. sees key bound r ≡ true → r.seq ≤ n) rs
    → SeqAtMost n (newest key bound rs)
unfolding newest
newest-SeqAtMost key bound n [] a = tt
newest-SeqAtMost key bound n (r ∷ rs) a =
    SeqAtMost-later n (pick key bound r) _ head (newest-SeqAtMost key bound n rs a.1)
  where
    head : SeqAtMost n (pick key bound r)
    head = elim (Bool-cases (sees key bound r)) [ inl e ↦ rw e (a.0 e) | inr e ↦ rw e tt ]

pub later_left : (r : Record) (o : Option Record) → SeqAtMost r.seq o → later (some r) o ≡ some r
later_left r none h = refl
later_left r (some s) h = ground arith

later_comm : (r s : Record) → r.seq ≢ s.seq → later (some r) (some s) ≡ later (some s) (some r)
later_comm r s n = ground arith

-- Two versions with different sequence numbers can change places.
later_left_comm :
    (r s : Record) (c : Option Record)
    → r.seq ≢ s.seq
    → later (some r) (later (some s) c) ≡ later (some s) (later (some r) c)
later_left_comm r s c n =
    sym (later_assoc (some r) (some s) c)
    ∙ ap (λ o. later o c) (later_comm r s n)
    ∙ later_assoc (some s) (some r) c

-- Of two versions with one sequence number the first one counts.
later_tie :
    (r s : Record) (o : Option Record)
    → r.seq ≡ s.seq
    → later (some r) (later (some s) o) ≡ later (some r) o
later_tie r s o e =
    sym (later_assoc (some r) (some s) o)
    ∙ ap (λ p. later p o) (later_left r (some s) (omega arith))

pub key_of_seen : (key : Bytes) (bound : ℕ) (r : Record) → sees key bound r ≡ true → r.key ≡ key
unfolding sees
key_of_seen key bound r h = eq_of_key_eq r.key key (and_true _ _ h).0

module _ (key : Bytes) (bound : ℕ) (r w : Record) (o : Option Record) where
  -- A version that is written again replaces the old copy.
  pub later-pick_same :
      version_key r ≡ version_key w
      → later (pick key bound r) (later (pick key bound w) o) ≡ later (pick key bound r) o
  unfolding sees
  later-pick_same e = elim (Bool-cases (sees key bound r)) [
    | inl h ↦ rw (h, same_sees ∙ h) (later_tie r w o (ap (λ p. unrev p.1) e))
    | inr h ↦ rw (h, same_sees ∙ h)
  ]
    where
      same_sees : sees key bound w ≡ sees key bound r
      same_sees =
          ap₂ (λ k n. key_eq k key && ltb n bound) (ap (λ p. p.0) (sym e))
            (ap (λ p. unrev p.1) (sym e))

  -- Different versions can change places.
  pub later-pick_comm :
      ¬ (version_key r ≡ version_key w)
      → later (pick key bound r) (later (pick key bound w) o)
        ≡ later (pick key bound w) (later (pick key bound r) o)
  later-pick_comm n = elim (Bool-cases (sees key bound r)) [
    | inl h ↦ elim (Bool-cases (sees key bound w)) [
      | inl k ↦ rw (h, k) (later_left_comm r w o λ e. n (same h k e))
      | inr k ↦ rw (h, k)
    ]
    | inr h ↦ rw h
  ]
    where
      same :
          sees key bound r ≡ true
          → sees key bound w ≡ true
          → r.seq ≡ w.seq
          → version_key r ≡ version_key w
      same h k e =
          ap₂ (λ x y. (x, rev y)) (key_of_seen key bound r h ∙ sym (key_of_seen key bound w k)) e

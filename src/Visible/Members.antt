-- ===== src/Visible/Members.antt =====
-- The newest version by membership: it does not depend on the order of the versions.
use lsm_tree_key_value_stora.Prelude.{
  ℕ, ◌≤◌, ◌≡◌, refl, ap, sym, ◌∙◌, true, false, Option, none, some, List, [], ◌∷◌, arith, ltb,
  ltb→lt, Bool-cases, inl, inr,
}
use lsm_tree_key_value_stora.Bytes.{Bytes}
use lsm_tree_key_value_stora.Record.{Record}
use lsm_tree_key_value_stora.Visible.{sees, later, newest}
use lsm_tree_key_value_stora.Visible.Laws.{key_of_seen}
use lsm_tree_key_value_stora.Members.{◌∈◌}

-- No two different versions of a key have one sequence number.
abbrev pub Unique : List Record → Type 0
Unique rs = (r s : Record) → r ∈ rs → s ∈ rs → r.key ≡ s.key → r.seq ≡ s.seq → r ≡ s

module _ (key : Bytes) (bound : ℕ) where
  abbrev pub IsNewest : List Record → Option Record → Type 0
  IsNewest rs none = (s : Record) → s ∈ rs → sees key bound s ≡ false
  IsNewest rs (some r) =
      (r ∈ rs)
      × (sees key bound r ≡ true)
      × ((s : Record) → s ∈ rs → sees key bound s ≡ true → s.seq ≤ r.seq)

  IsNewest-head :
      (r : Record) (rs : List Record)
      → sees key bound r ≡ true
      → (o : Option Record) → IsNewest rs o
      → IsNewest (r ∷ rs) (later (some r) o)
  IsNewest-head r rs h none a = (
    inl refl,
    h,
    λ s. elim [ inl e ↦ λ _. rw e (omega arith) | inr k ↦ λ q. absurd (cc (a s k)) ],
  )
  IsNewest-head r rs h (some t) a = elim (Bool-cases (ltb r.seq t.seq)) [
    | inl l ↦ rw l (
      inr a.0,
      a.1,
      λ s. elim [ inl e ↦ λ _. rw e (omega (arith, ltb→lt _ _ l)) | inr k ↦ λ q. a.2 s k q ],
    )
    | inr l ↦ rw l (
      inl refl,
      h,
      λ s. elim [
        | inl e ↦ λ _. rw e (omega arith)
        | inr k ↦ λ q. let u = a.2 s k q in ground arith
      ],
    )
  ]

  IsNewest-tail :
      (r : Record) (rs : List Record)
      → sees key bound r ≡ false
      → (o : Option Record) → IsNewest rs o
      → IsNewest (r ∷ rs) o
  IsNewest-tail r rs h none a = λ s. elim [ inl e ↦ rw e h | inr k ↦ a s k ]
  IsNewest-tail r rs h (some t) a = (
    inr a.0,
    a.1,
    λ s. elim [ inl e ↦ λ q. absurd (cc (ap (sees key bound) e)) | inr k ↦ λ q. a.2 s k q ],
  )

  pub newest-IsNewest : (rs : List Record) → IsNewest rs (newest key bound rs)
  unfolding newest
  newest-IsNewest [] = λ s k. absurd k
  newest-IsNewest (r ∷ rs) = elim (Bool-cases (sees key bound r)) [
    | inl h ↦ rw h (IsNewest-head r rs h (newest key bound rs) (newest-IsNewest rs))
    | inr h ↦ rw h (IsNewest-tail r rs h (newest key bound rs) (newest-IsNewest rs))
  ]

  pub IsNewest-Unique :
      (rs : List Record) → Unique rs → (o p : Option Record) → IsNewest rs o → IsNewest rs p → o ≡ p
  IsNewest-Unique rs u none none a b = refl
  IsNewest-Unique rs u none (some r) a b = absurd (cc (a r b.0, b.1))
  IsNewest-Unique rs u (some r) none a b = absurd (cc (b r a.0, a.1))
  IsNewest-Unique rs u (some r) (some s) a b =
      let l = a.2 s b.0 b.1 in
      let m = b.2 r a.0 a.1 in
      ap some (
        u r s a.0 b.0 (key_of_seen key bound r a.1 ∙ sym (key_of_seen key bound s b.1))
          (omega arith))

  -- A part of the versions that holds, for each one that the read sees, one that it sees and that
  -- is no older, has the same newest version.
  pub newest_of_part :
      (rs ss : List Record)
      → Unique rs
      → ((s : Record) → s ∈ ss → s ∈ rs)
      → ((r : Record)
          → r ∈ rs
          → sees key bound r ≡ true
          → (s : Record) × (s ∈ ss) × (sees key bound s ≡ true) × (r.seq ≤ s.seq))
      → newest key bound ss ≡ newest key bound rs
  newest_of_part rs ss u part covers =
      IsNewest-Unique rs u _ _ (enough (newest key bound ss) (newest-IsNewest ss))
        (newest-IsNewest rs)
    where
      enough : (o : Option Record) → IsNewest ss o → IsNewest rs o
      enough none a = λ r k. elim (Bool-cases (sees key bound r)) [
        | inl h ↦ let c = covers r k h in absurd (cc (a c.0 c.1, c.2))
        | inr h ↦ h
      ]
      enough (some t) a = (
        part t a.0,
        a.1,
        λ r k h. let c = covers r k h in let m = a.2 c.0 c.1 c.2 in omega (arith, m, c.3),
      )

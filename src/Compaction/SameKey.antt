-- ===== src/Compaction/SameKey.antt =====
-- The records behind the first one of a group that have its key, and those behind the group.
use lsm_tree_key_value_stora.Prelude.{
  suc, ◌≤◌, ◌≡◌, ◌≢◌, ap, sym, ◌∙◌, List, [], ◌∷◌, arith, length, All, inl, inr, ◌⊎◌, Bool-cases,
}
use lsm_tree_key_value_stora.Order.{
  ◌≼◌, ◌≺◌, ≼_cases, ≺_≼_trans, key_eq, key_eq_refl, eq_of_key_eq, bytes_ord,
}
use lsm_tree_key_value_stora.Bytes.{Bytes}
use lsm_tree_key_value_stora.Record.{Record}
use lsm_tree_key_value_stora.Members.{◌∈◌, All-at}
use lsm_tree_key_value_stora.Compaction.{same_key}
use lsm_tree_key_value_stora.Compaction.Round.{Ascending}

module _ (key : Bytes) where
  pub same_key_cases :
      (P : List Record × List Record → Type 0) (r : Record) (rs : List Record)
      → (r.key ≡ key → P (r ∷ (same_key key rs).0, (same_key key rs).1))
      → (r.key ≢ key → P ([], r ∷ rs))
      → P (same_key key (r ∷ rs))
  unfolding same_key
  same_key_cases P r rs f g = elim (Bool-cases (key_eq r.key key)) [
    | inl e ↦ rw e (f (eq_of_key_eq r.key key e))
    | inr e ↦ rw e (g (λ q. absurd (cc (key_eq_refl key, ap (λ k. key_eq k key) q))))
  ]

  pub same_key-key : (rs : List Record) (x : Record) → x ∈ (same_key key rs).0 → x.key ≡ key
  unfolding same_key
  same_key-key [] x = λ k. absurd k
  same_key-key (r ∷ rs) x =
      same_key_cases (λ p. x ∈ p.0 → x.key ≡ key) r rs
        (λ e. elim [ inl q ↦ ap (λ y. y.key) q ∙ e | inr k ↦ same_key-key rs x k ])
        (λ _ k. absurd k)

  pub same_key_complete :
      (rs : List Record) (x : Record)
      → x ∈ rs
      → (x ∈ (same_key key rs).0) ⊎ (x ∈ (same_key key rs).1)
  unfolding same_key
  same_key_complete [] x k = absurd k
  same_key_complete (r ∷ rs) x k =
      same_key_cases (λ p. (x ∈ p.0) ⊎ (x ∈ p.1)) r rs
        (λ e. elim k [
          | inl q ↦ inl (inl q)
          | inr i ↦ elim (same_key_complete rs x i) [ inl j ↦ inl (inr j) | inr j ↦ inr j ]
        ])
        (λ _. inr k)

  pub same_key_sound :
      (rs : List Record) (x : Record)
      → (x ∈ (same_key key rs).0) ⊎ (x ∈ (same_key key rs).1)
      → x ∈ rs
  unfolding same_key
  same_key_sound [] x = elim [ inl k ↦ k | inr k ↦ k ]
  same_key_sound (r ∷ rs) x =
      same_key_cases (λ p. (x ∈ p.0) ⊎ (x ∈ p.1) → x ∈ (r ∷ rs)) r rs
        (λ e. elim [
          | inl (inl q) ↦ inl q
          | inl (inr k) ↦ inr (same_key_sound rs x (inl k))
          | inr k ↦ inr (same_key_sound rs x (inr k))
        ])
        (λ _. elim [ inl k ↦ absurd k | inr k ↦ k ])

  pub length-same_key : (rs : List Record) → length (same_key key rs).1 ≤ length rs
  unfolding same_key
  length-same_key [] = omega arith
  length-same_key (r ∷ rs) =
      same_key_cases (λ p. length p.1 ≤ suc (length rs)) r rs
        (λ _. let l = length-same_key rs in omega (arith, l)) (λ _. omega arith)

  pub same_key-Ascending : (rs : List Record) → Ascending rs → Ascending (same_key key rs).1
  unfolding same_key
  same_key-Ascending [] a = tt
  same_key-Ascending (r ∷ rs) a =
      same_key_cases (λ p. Ascending p.1) r rs (λ _. same_key-Ascending rs a.1) (λ _. a)

  -- Behind the group all keys are larger.
  pub same_key-beyond :
      (rs : List Record) (x : Record)
      → Ascending rs
      → All (λ s. key ≼ s.key) rs
      → x ∈ (same_key key rs).1
      → key ≺ x.key
  unfolding same_key
  same_key-beyond [] x a b = λ k. absurd k
  same_key-beyond (r ∷ rs) x a b =
      same_key_cases (λ p. x ∈ p.1 → key ≺ x.key) r rs (λ _. same_key-beyond rs x a.1 b.1)
        (λ n. elim [
          | inl e ↦ rw e (larger n)
          | inr k ↦ ≺_≼_trans key r.key x.key (larger n) (All-at (λ u. r.key ≼ u.key) x rs a.0 k)
        ])
    where
      larger : r.key ≢ key → key ≺ r.key
      larger n = elim (≼_cases key r.key b.0) [ inl l ↦ l | inr e ↦ absurd (n (sym e)) ]

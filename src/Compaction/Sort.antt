-- ===== src/Compaction/Sort.antt =====
-- The stable sort of a group by descending sequence number.
use lsm_tree_key_value_stora.Prelude.{
  ◌≤◌, ◌<◌, List, [], ◌∷◌, arith, All, inl, inr, ltb, Bool-cases, ltb→lt,
}
use lsm_tree_key_value_stora.Record.{Record}
use lsm_tree_key_value_stora.Members.{◌∈◌, All-of, All-at}
use lsm_tree_key_value_stora.Compaction.{insert_desc, sort_desc}

-- Sequence numbers descend.
abbrev pub Falling : List Record → Type 0
Falling [] = Unit
Falling (r ∷ rs) = All (λ s. s.seq ≤ r.seq) rs × Falling rs

pub insert_desc-cases :
    (P : List Record → Type 0) (r s : Record) (rs : List Record)
    → (r.seq < s.seq → P (s ∷ insert_desc r rs))
    → (s.seq ≤ r.seq → P (r ∷ (s ∷ rs)))
    → P (insert_desc r (s ∷ rs))
unfolding insert_desc
insert_desc-cases P r s rs f g = elim (Bool-cases (ltb r.seq s.seq)) [
  | inl e ↦ rw e (f (ltb→lt r.seq s.seq e))
  | inr e ↦ rw e (g (ground arith))
]

pub insert_desc_sound :
    (r : Record) (rs : List Record) (x : Record) → x ∈ insert_desc r rs → x ∈ (r ∷ rs)
unfolding insert_desc
insert_desc_sound r [] x = λ k. k
insert_desc_sound r (s ∷ rs) x =
    insert_desc-cases (λ l. x ∈ l → x ∈ (r ∷ (s ∷ rs))) r s rs
      (λ _. elim [
        | inl e ↦ inr (inl e)
        | inr k ↦ elim (insert_desc_sound r rs x k) [ inl e ↦ inl e | inr i ↦ inr (inr i) ]
      ])
      (λ _ k. k)

insert_desc_complete :
    (r : Record) (rs : List Record) (x : Record) → x ∈ (r ∷ rs) → x ∈ insert_desc r rs
unfolding insert_desc
insert_desc_complete r [] x k = k
insert_desc_complete r (s ∷ rs) x k =
    insert_desc-cases (λ l. x ∈ l) r s rs
      (λ _. elim k [
        | inl e ↦ inr (insert_desc_complete r rs x (inl e))
        | inr (inl e) ↦ inl e
        | inr (inr i) ↦ inr (insert_desc_complete r rs x (inr i))
      ])
      (λ _. k)

insert_desc-Falling : (r : Record) (rs : List Record) → Falling rs → Falling (insert_desc r rs)
unfolding insert_desc
insert_desc-Falling r [] f = (tt, tt)
insert_desc-Falling r (s ∷ rs) f =
    insert_desc-cases Falling r s rs
      (λ l. (
        All-of (λ t. t.seq ≤ s.seq) (insert_desc r rs)
            (λ t k. elim (insert_desc_sound r rs t k) [
              | inl e ↦ rw e (omega (arith, l))
              | inr i ↦ All-at (λ u. u.seq ≤ s.seq) t rs f.0 i
            ]),
        insert_desc-Falling r rs f.1,
      ))
      (λ l. (
        All-of (λ t. t.seq ≤ r.seq) (s ∷ rs)
            (λ t. elim [
              | inl e ↦ rw e l
              | inr i ↦ let u = All-at (λ u. u.seq ≤ s.seq) t rs f.0 i in omega (arith, u, l)
            ]),
        f,
      ))

pub sort_desc_sound : (rs : List Record) (x : Record) → x ∈ sort_desc rs → x ∈ rs
unfolding sort_desc
sort_desc_sound [] x k = k
sort_desc_sound (r ∷ rs) x k = elim (insert_desc_sound r (sort_desc rs) x k) [
  | inl e ↦ inl e
  | inr i ↦ inr (sort_desc_sound rs x i)
]

pub sort_desc_complete : (rs : List Record) (x : Record) → x ∈ rs → x ∈ sort_desc rs
unfolding sort_desc
sort_desc_complete [] x k = k
sort_desc_complete (r ∷ rs) x (inl e) = insert_desc_complete r (sort_desc rs) x (inl e)
sort_desc_complete (r ∷ rs) x (inr k) =
    insert_desc_complete r (sort_desc rs) x (inr (sort_desc_complete rs x k))

pub sort_desc-Falling : (rs : List Record) → Falling (sort_desc rs)
unfolding sort_desc
sort_desc-Falling [] = tt
sort_desc-Falling (r ∷ rs) = insert_desc-Falling r (sort_desc rs) (sort_desc-Falling rs)

-- ===== src/Compaction/Strict.antt =====
-- The output of a compaction is a run: no version of a key comes twice.
use lsm_tree_key_value_stora.Prelude.{
  ℕ, zero, suc, ◌≡◌, refl, ap, sym, subst, Bool, true, false, List, [], ◌∷◌, length, All, inl, inr,
  Bool-cases,
}
use lsm_tree_key_value_stora.Order.{
  ◌≼◌, ≼_cases, bytes_ord, version_ord, pair_ord, rev_ord, nat_ord,
}
use lsm_tree_key_value_stora.Record.{Record}
use lsm_tree_key_value_stora.Members.{◌∈◌, concat, All-of, All-at}
use lsm_tree_key_value_stora.Visible.{IsRun, version_key, ◌⊲◌}
use lsm_tree_key_value_stora.Visible.Members.{Unique}
use lsm_tree_key_value_stora.Compaction.{
  same_key, insert_desc, sort_desc, retain, peel, keep_group, keep_groups, compact, merge,
}
use lsm_tree_key_value_stora.Compaction.Round.{Ascending}
use lsm_tree_key_value_stora.Compaction.Stream.{merge-Ascending}
use lsm_tree_key_value_stora.Compaction.Sort.{insert_desc-cases, insert_desc_sound, sort_desc_sound}
use lsm_tree_key_value_stora.Compaction.Retain.{retain_cases, retain_sound}
use lsm_tree_key_value_stora.Compaction.Peel.{peel_cases, peel_sound, keep_group_sound}
use lsm_tree_key_value_stora.Compaction.SameKey.{same_key_cases, same_key_sound, same_key-Ascending}
use lsm_tree_key_value_stora.Compaction.Groups.{output, output_sound, apart}
use lsm_tree_key_value_stora.Compaction.Newest.{compact_sound}
use lsm_tree_key_value_stora.Compaction.Sorted.{IsSorted, compact-IsSorted}
use lsm_tree_key_value_stora.Compaction.Repeats.{NoRepeats, NoRepeats-append, merge-NoRepeats}

insert_desc-NoRepeats :
    (r : Record) (rs : List Record) → NoRepeats (r ∷ rs) → NoRepeats (insert_desc r rs)
insert_desc-NoRepeats r [] n = unfold insert_desc in n
insert_desc-NoRepeats r (s ∷ rs) n =
    insert_desc-cases NoRepeats r s rs
      (λ _. (
        λ k. elim (insert_desc_sound r rs s k) [ inl e ↦ n.0 (inl (sym e)) | inr i ↦ n.1.0 i ],
        insert_desc-NoRepeats r rs (λ k. n.0 (inr k), n.1.1),
      ))
      (λ _. n)

sort_desc-NoRepeats : (rs : List Record) → NoRepeats rs → NoRepeats (sort_desc rs)
unfolding sort_desc
sort_desc-NoRepeats [] n = tt
sort_desc-NoRepeats (r ∷ rs) n =
    insert_desc-NoRepeats r (sort_desc rs)
      (λ k. n.0 (sort_desc_sound rs r k), sort_desc-NoRepeats rs n.1)

retain-NoRepeats :
    (horizon : ℕ) (taken : Bool) (rs : List Record)
    → NoRepeats rs
    → NoRepeats (retain horizon taken rs)
unfolding retain
retain-NoRepeats horizon taken [] n = tt
retain-NoRepeats horizon taken (r ∷ rs) n =
    retain_cases horizon NoRepeats taken r rs
      (λ _. (λ k. n.0 (retain_sound horizon taken rs r k), retain-NoRepeats horizon taken rs n.1))
      (λ _ _. (λ k. n.0 (retain_sound horizon true rs r k), retain-NoRepeats horizon true rs n.1))
      (λ _ _. retain-NoRepeats horizon true rs n.1)

peel-NoRepeats : (rs : List Record) → NoRepeats rs → NoRepeats (peel rs)
unfolding peel
peel-NoRepeats [] n = tt
peel-NoRepeats (r ∷ rs) n =
    peel_cases NoRepeats r rs (λ _ _. tt) (λ k. n.0 (peel_sound rs r k), peel-NoRepeats rs n.1)

same_key-NoRepeats :
    (key : List ℕ) (rs : List Record)
    → NoRepeats rs
    → NoRepeats (same_key key rs).0 × NoRepeats (same_key key rs).1
unfolding same_key
same_key-NoRepeats key [] n = (tt, tt)
same_key-NoRepeats key (r ∷ rs) n =
    same_key_cases key (λ p. NoRepeats p.0 × NoRepeats p.1) r rs
      (λ _.
        let m = same_key-NoRepeats key rs n.1 in
        ((λ k. n.0 (same_key_sound key rs r (inl k)), m.0), m.1))
      (λ _. (tt, n))

module _ (drop_tombstones : Bool) (horizon : ℕ) where
  keep_group-NoRepeats :
      (group : List Record) → NoRepeats group → NoRepeats (keep_group drop_tombstones horizon group)
  unfolding keep_group
  keep_group-NoRepeats group n =
      let kept = retain-NoRepeats horizon false (sort_desc group) (sort_desc-NoRepeats group n) in
      elim (Bool-cases drop_tombstones) [
        | inl e ↦ rw e (peel-NoRepeats (retain horizon false (sort_desc group)) kept)
        | inr e ↦ rw e kept
      ]

  output-NoRepeats :
      (fuel : ℕ) (stream : List Record)
      → Ascending stream
      → NoRepeats stream
      → NoRepeats (output drop_tombstones horizon fuel stream)
  unfolding keep_groups
  output-NoRepeats zero stream a n = tt
  output-NoRepeats (suc fuel) [] a n = tt
  output-NoRepeats (suc fuel) (r ∷ rs) a n =
      let (m, l) = same_key-NoRepeats r.key rs n.1 in
      let first = r ∷ (same_key r.key rs).0 in
      let later = (same_key r.key rs).1 in
      NoRepeats-append (keep_group drop_tombstones horizon first)
        (output drop_tombstones horizon fuel later)
        (keep_group-NoRepeats first (λ k. n.0 (same_key_sound r.key rs r (inl k)), m))
        (output-NoRepeats fuel later (same_key-Ascending r.key rs a.1) l)
        (λ x k i.
          apart drop_tombstones horizon r rs fuel a x x
            (keep_group_sound drop_tombstones horizon first x k)
            (output_sound drop_tombstones horizon fuel later x i) refl)

-- A sorted list without repeats, where a version is known by its key and number, is a run.
sorted-IsRun : (rs : List Record) → IsSorted rs → NoRepeats rs → Unique rs → IsRun rs
sorted-IsRun [] s n u = tt
sorted-IsRun (r ∷ rs) s n u = (
  All-of (λ t. r ⊲ t) rs
      (λ t k.
        elim (≼_cases (version_key r) (version_key t)
          (All-at (λ t. version_key r ≼ version_key t) t rs s.0 k)) [
            | inl l ↦ l
            | inr e ↦
                let same : r ≡ t = u r t (inl refl) (inr k) (ap (λ v. v.0) e) (cc e) in
                absurd (n.0 (subst (λ z. z ∈ rs) (sym same) k))
          ]),
  sorted-IsRun rs s.1 n.1 (λ x y k l. u x y (inr k) (inr l)),
)

-- Where the inputs repeat nothing and ascend, and a key and a number name one version, the output is
-- a run.
pub compact-IsRun :
    (inputs : List (List Record)) (drop_tombstones : Bool) (horizon : ℕ)
    → All Ascending inputs
    → NoRepeats (concat inputs)
    → Unique (concat inputs)
    → IsRun (compact inputs drop_tombstones horizon)
compact-IsRun inputs drop_tombstones horizon a n u =
    let sound = compact_sound inputs a drop_tombstones horizon in
    sorted-IsRun (compact inputs drop_tombstones horizon)
      (compact-IsSorted inputs drop_tombstones horizon a)
      (unfold compact in
        output-NoRepeats drop_tombstones horizon (length (merge inputs)) (merge inputs)
          (merge-Ascending inputs a) (merge-NoRepeats inputs a n))
      (λ x y k l. u x y (sound x k) (sound y l))

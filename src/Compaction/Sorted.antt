-- ===== src/Compaction/Sorted.antt =====
-- The order of the output.
use lsm_tree_key_value_stora.Prelude.{
  ℕ, zero, suc, ◌≤◌, ◌≡◌, refl, sym, subst, ◌∙◌, Bool, List, [], ◌∷◌, ◌++◌, arith, length, All,
  All-append, inl, inr,
}
use lsm_tree_key_value_stora.Order.{
  ◌≼◌, ◌≺◌, bytes_ord, version_ord, pair_ord, rev_ord, nat_ord, lt_asymm,
}
use lsm_tree_key_value_stora.Record.{Record}
use lsm_tree_key_value_stora.Members.{◌∈◌, All-of, All-at}
use lsm_tree_key_value_stora.Visible.{version_key}
use lsm_tree_key_value_stora.Compaction.{compact, merge, keep_groups, keep_group, same_key}
use lsm_tree_key_value_stora.Compaction.Sort.{Falling}
use lsm_tree_key_value_stora.Compaction.Round.{Ascending}
use lsm_tree_key_value_stora.Compaction.Stream.{merge-Ascending}
use lsm_tree_key_value_stora.Compaction.Peel.{keep_group_sound, keep_group-Falling}
use lsm_tree_key_value_stora.Compaction.SameKey.{same_key-Ascending}
use lsm_tree_key_value_stora.Compaction.Groups.{output, output_sound, in_group, beyond}

-- Keys ascend, and the sequence numbers of a key descend.
abbrev pub IsSorted : List Record → Type 0
IsSorted [] = Unit
IsSorted (r ∷ rs) = All (λ s. version_key r ≼ version_key s) rs × IsSorted rs

version_≼_of_seq : (r s : Record) → r.key ≡ s.key → s.seq ≤ r.seq → version_key r ≼ version_key s
unfolding pair_ord rev_ord nat_ord
version_≼_of_seq r s e l = rw (e, bytes_ord.cmp_refl s.key) (ground arith)

version_≼_of_key : (r s : Record) → r.key ≺ s.key → version_key r ≼ version_key s
unfolding pair_ord
version_≼_of_key r s h = rw (lt_asymm r.key s.key h)

group-IsSorted :
    (key : List ℕ) (rs : List Record)
    → ((x : Record) → x ∈ rs → x.key ≡ key)
    → Falling rs
    → IsSorted rs
group-IsSorted key [] same f = tt
group-IsSorted key (r ∷ rs) same f = (
  All-of (λ s. version_key r ≼ version_key s) rs
      (λ s k.
        version_≼_of_seq r s (same r (inl refl) ∙ sym (same s (inr k)))
          (All-at (λ u. u.seq ≤ r.seq) s rs f.0 k)),
  group-IsSorted key rs (λ x k. same x (inr k)) f.1,
)

append-IsSorted :
    (xs ys : List Record)
    → IsSorted xs
    → IsSorted ys
    → ((x y : Record) → x ∈ xs → y ∈ ys → version_key x ≼ version_key y)
    → IsSorted (xs ++ ys)
append-IsSorted [] ys a b c = b
append-IsSorted (x ∷ xs) ys a b c = (
  All-append (λ s. version_key x ≼ version_key s) xs ys a.0
      (All-of (λ s. version_key x ≼ version_key s) ys (λ y k. c x y (inl refl) k)),
  append-IsSorted xs ys a.1 b (λ u y k. c u y (inr k)),
)

output-IsSorted :
    (drop_tombstones : Bool) (min_snapshot_seq fuel : ℕ) (stream : List Record)
    → Ascending stream
    → IsSorted (output drop_tombstones min_snapshot_seq fuel stream)
unfolding keep_groups
output-IsSorted drop_tombstones min_snapshot_seq zero stream a = tt
output-IsSorted drop_tombstones min_snapshot_seq (suc fuel) [] a = tt
output-IsSorted drop_tombstones min_snapshot_seq (suc fuel) (r ∷ rs) a =
    let group : List Record = r ∷ (same_key r.key rs).0 in
    let rest : List Record = (same_key r.key rs).1 in
    append-IsSorted (keep_group drop_tombstones min_snapshot_seq group)
      (output drop_tombstones min_snapshot_seq fuel rest)
      (group-IsSorted r.key (keep_group drop_tombstones min_snapshot_seq group) (λ x k. of_key x k)
        (keep_group-Falling drop_tombstones min_snapshot_seq group))
      (output-IsSorted drop_tombstones min_snapshot_seq fuel rest (same_key-Ascending r.key rs a.1))
      (λ x y k l. version_≼_of_key x y (
        subst (λ z. z ≺ y.key) (sym (of_key x k))
          (beyond drop_tombstones min_snapshot_seq r rs fuel a y
            (output_sound drop_tombstones min_snapshot_seq fuel rest y l))))
  where
    of_key :
        (x : Record)
        → x ∈ keep_group drop_tombstones min_snapshot_seq (r ∷ (same_key r.key rs).0)
        → x.key ≡ r.key
    of_key x k =
        in_group drop_tombstones min_snapshot_seq r rs x
          (keep_group_sound drop_tombstones min_snapshot_seq (r ∷ (same_key r.key rs).0) x k)

-- Where the keys of every input ascend, the output of a compaction is sorted by key, and by
-- descending sequence number within a key.
pub compact-IsSorted :
    (inputs : List (List Record)) (drop_tombstones : Bool) (min_snapshot_seq : ℕ)
    → All Ascending inputs
    → IsSorted (compact inputs drop_tombstones min_snapshot_seq)
unfolding compact
compact-IsSorted inputs drop_tombstones min_snapshot_seq a =
    output-IsSorted drop_tombstones min_snapshot_seq (length (merge inputs)) (merge inputs)
      (merge-Ascending inputs a)

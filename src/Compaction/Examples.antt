-- ===== src/Compaction/Examples.antt =====
-- A compaction of two tables, and the theorems on it.
use lsm_tree_key_value_stora.Prelude.{
  ℕ, ◌≡◌, refl, ap, sym, ◌∙◌, ◌==◌, if◌then◌else◌, true, false, none, some, List, [], ◌∷◌, arith,
  All, inl, inr,
}
use lsm_tree_key_value_stora.Order.{bytes_ord, list_ord, nat_ord, pair_ord, cmp_list}
use lsm_tree_key_value_stora.Prelude.{map, length, ◌≤◌}
use lsm_tree_key_value_stora.Errors.{ok}
use lsm_tree_key_value_stora.Bytes.{Bytes}
use lsm_tree_key_value_stora.Record.{Record}
use lsm_tree_key_value_stora.Members.{◌∈◌, concat}
use lsm_tree_key_value_stora.Visible.{newest, value_of}
use lsm_tree_key_value_stora.Visible.Members.{Unique}
use lsm_tree_key_value_stora.Compaction.{
  compact_tables, collect_all, compact, merge, first_items, drain, pop_least, next, keep_groups,
  same_key, keep_group, sort_desc, insert_desc, retain, peel,
}
use lsm_tree_key_value_stora.Compaction.Round.{Ascending}
use lsm_tree_key_value_stora.Compaction.Newest.{
  compact_tables-value, compact-newest, compact-value, compact-one_below,
}
use lsm_tree_key_value_stora.Compaction.Sorted.{IsSorted, compact-IsSorted}

-- The old table holds a version of each key, the new one deletes one and overwrites the other.
abbrev pub old_a : Record
old_a = record { key = 97 ∷ []; value = some (1 ∷ []); seq = 1 }

abbrev old_b : Record
old_b = record { key = 98 ∷ []; value = some (2 ∷ []); seq = 2 }

abbrev new_a : Record
new_a = record { key = 97 ∷ []; value = none; seq = 3 }

abbrev new_b : Record
new_b = record { key = 98 ∷ []; value = some (4 ∷ []); seq = 4 }

abbrev pub tables : List (List Record)
tables = (old_a ∷ (old_b ∷ [])) ∷ ((new_a ∷ (new_b ∷ [])) ∷ [])

tables-Ascending : All Ascending tables
unfolding cmp_list nat_ord list_ord
tables-Ascending = (((refl, tt), (tt, tt)), (((refl, tt), (tt, tt)), tt))

abbrev by_seq : ℕ → Record
by_seq n = if n == 1 then old_a else if n == 2 then old_b else if n == 3 then new_a else new_b

known_by_seq : (r : Record) → r ∈ concat tables → r ≡ by_seq r.seq
known_by_seq r = elim [
  | inl e ↦ e ∙ ap (λ x. by_seq x.seq) (sym e)
  | inr (inl e) ↦ e ∙ ap (λ x. by_seq x.seq) (sym e)
  | inr (inr (inl e)) ↦ e ∙ ap (λ x. by_seq x.seq) (sym e)
  | inr (inr (inr (inl e))) ↦ e ∙ ap (λ x. by_seq x.seq) (sym e)
  | inr (inr (inr (inr k))) ↦ absurd k
]

-- All sequence numbers differ.
pub tables-Unique : Unique (concat tables)
tables-Unique r s kr ks e q = known_by_seq r kr ∙ ap by_seq q ∙ sym (known_by_seq s ks)

-- The key that was deleted is gone, and the old version of the other one.
compacted : compact tables true 9 ≡ new_b ∷ []
unfolding compact merge first_items drain pop_least next keep_groups same_key keep_group sort_desc
    insert_desc retain peel cmp_list nat_ord list_ord pair_ord
compacted = refl

compact-newest_example :
    newest (97 ∷ []) 9 (compact tables false 9) ≡ newest (97 ∷ []) 9 (concat tables)
compact-newest_example =
    compact-newest tables tables-Ascending tables-Unique 9 (97 ∷ []) 9 (omega arith)

compact-value_example :
    value_of (newest (97 ∷ []) 9 (compact tables true 9))
    ≡ value_of (newest (97 ∷ []) 9 (concat tables))
compact-value_example =
    compact-value tables tables-Ascending tables-Unique 9 (97 ∷ []) 9 (omega arith) true

compact-IsSorted_example : IsSorted (compact tables true 3)
compact-IsSorted_example = compact-IsSorted tables true 3 tables-Ascending

new_b_kept : new_b ∈ compact tables true 9
unfolding compact merge first_items drain pop_least next keep_groups same_key keep_group sort_desc
    insert_desc retain peel cmp_list nat_ord list_ord pair_ord
new_b_kept = inl refl

compact-one_below_example : new_b ≡ new_b
compact-one_below_example =
    compact-one_below tables tables-Ascending true 9 new_b new_b (omega arith) (omega arith) refl
      new_b_kept new_b_kept

tables_compacted : compact_tables (map ok tables) true 9 (λ rs. ok (length rs)) ≡ ok 1
unfolding compact_tables collect_all compact merge first_items drain pop_least next keep_groups
    same_key keep_group sort_desc insert_desc retain peel cmp_list nat_ord list_ord pair_ord
tables_compacted = refl

compact_tables-value_example :
    (inputs : List (List Record)) × (out : List Record) × (map ok tables ≡ map ok inputs)
    × (ok (length out) ≡ ok 1)
    × (All Ascending inputs
        → Unique (concat inputs)
        → (key : Bytes) (bound : ℕ) → 9 ≤ bound
        → value_of (newest key bound out) ≡ value_of (newest key bound (concat inputs)))
compact_tables-value_example =
    compact_tables-value (map ok tables) true 9 (λ rs. ok (length rs)) 1 tables_compacted

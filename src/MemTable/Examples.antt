-- ===== src/MemTable/Examples.antt =====
-- A MemTable of two versions, and the theorems on it.
use lsm_tree_key_value_stora.Prelude.{◌≡◌, [], ◌∷◌, arith, ◌↔◌, some}
use lsm_tree_key_value_stora.Members.{◌∈◌}
use lsm_tree_key_value_stora.MemTable.Laws.Range.{FromStart, BeforeEnd, range_members}
use lsm_tree_key_value_stora.Order.{nat_ord, list_ord, pair_ord, rev_ord, bytes_ord}
use lsm_tree_key_value_stora.Record.Examples.{apple, grave}
use lsm_tree_key_value_stora.Visible.{newest, later, pick}
use lsm_tree_key_value_stora.MemTable.{
  MemTable, range, new, insert, get_at, iter, default_threshold,
}
use lsm_tree_key_value_stora.MemTable.Laws.{IsValid, new-IsValid, insert-IsValid}
use lsm_tree_key_value_stora.MemTable.Laws.Lookup.{get_at-eq-newest, get_at-insert}

abbrev one : MemTable
one = insert apple (new default_threshold)

one-IsValid : IsValid one
one-IsValid =
    insert-IsValid apple (new default_threshold) (omega arith) (new-IsValid default_threshold)

insert-IsValid_example : IsValid (insert grave one)
insert-IsValid_example = insert-IsValid grave one (omega arith) one-IsValid

get_at-eq-newest_example : get_at (97 ∷ []) 6 one ≡ newest (97 ∷ []) 6 (iter one)
get_at-eq-newest_example = get_at-eq-newest (97 ∷ []) 6 one one-IsValid

get_at-insert_example :
    get_at (98 ∷ []) 7 (insert grave one) ≡ later (pick (98 ∷ []) 7 grave) (get_at (98 ∷ []) 7 one)
get_at-insert_example = get_at-insert (98 ∷ []) 7 grave one (omega arith) one-IsValid

range_members_example :
    (apple ∈ range (some (97 ∷ [])) (some (98 ∷ [])) one)
    ↔ ((apple ∈ iter one) × FromStart (some (97 ∷ [])) apple × BeforeEnd (some (98 ∷ [])) apple)
range_members_example = range_members (some (97 ∷ [])) (some (98 ∷ [])) one apple one-IsValid

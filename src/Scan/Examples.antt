-- ===== src/Scan/Examples.antt =====
-- A scan over two tables with a deleted key, and one with a source that fails.
use lsm_tree_key_value_stora.Prelude.{
  ◌≡◌, refl, false, none, some, List, [], ◌∷◌, ◌++◌, map, length, All, ◌↔◌,
}
use lsm_tree_key_value_stora.Order.{
  bytes_ord, list_ord, nat_ord, rev_ord, pair_ord, version_ord, cmp_list,
}
use lsm_tree_key_value_stora.Errors.{ok, err, io, other_io}
use lsm_tree_key_value_stora.Bytes.{Bytes}
use lsm_tree_key_value_stora.Members.{◌∈◌, concat}
use lsm_tree_key_value_stora.Visible.{newest, value_of}
use lsm_tree_key_value_stora.Compaction.Examples.{tables, tables-Unique, old_a}
use lsm_tree_key_value_stora.Compaction.Sorted.{IsSorted}
use lsm_tree_key_value_stora.Scan.{
  Merge, emit, peeking, new, collect, turn, next, past_end, advance, change, next_source_from,
  taken, better,
}
use lsm_tree_key_value_stora.Scan.Choose.{healthy}
use lsm_tree_key_value_stora.Scan.Answers.{Rising}
use lsm_tree_key_value_stora.Scan.Collect.{collect-newest}
use lsm_tree_key_value_stora.Scan.Calls.{turn-err}

tables-IsSorted : All IsSorted tables
unfolding cmp_list nat_ord list_ord rev_ord pair_ord
tables-IsSorted = (((refl, tt), (tt, tt)), (((refl, tt), (tt, tt)), tt))

collect-newest_example :
    (kvs : List (Bytes × Bytes)) × (collect
        (length (concat tables))
        (new (map (map ok) tables) 9 (some (99 ∷ [])))
      ≡ map ok kvs)
    × Rising kvs
    × ((k v : Bytes)
        → ((k, v) ∈ kvs) ↔ (
            (past_end (some (99 ∷ [])) k ≡ false)
            × (value_of (newest k 9 (concat tables)) ≡ some v)))
collect-newest_example = collect-newest tables 9 (some (99 ∷ [])) tables-IsSorted tables-Unique

-- Only the newer key is left at the bound nine.
scanned : collect 4 (new (map (map ok) tables) 9 (some (99 ∷ []))) ≡ ok (98 ∷ [], 4 ∷ []) ∷ []
unfolding collect new peeking turn next_source_from better change advance taken cmp_list nat_ord
    list_ord
scanned = refl

abbrev first_call : Merge
first_call = (next 4 (new (map (map ok) tables) 9 none)).1

called : next 4 (new (map (map ok) tables) 9 none) ≡ (some (ok (98 ∷ [], 4 ∷ [])), first_call)
unfolding next new peeking turn next_source_from better change advance taken cmp_list nat_ord
    list_ord
called = refl

abbrev failing : Merge
failing = record {
  sources = healthy ((old_a ∷ []) ∷ []) ++ (peeking (err (io other_io) ∷ []) ∷ []);
  seq_bound = 9;
  end = none;
  done = none;
}

turn-err_example : (turn failing).0 ≡ emit (err (io other_io))
turn-err_example = turn-err failing ((old_a ∷ []) ∷ []) (io other_io) [] [] refl

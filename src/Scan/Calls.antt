-- ===== src/Scan/Calls.antt =====
-- src/scan.rs: a source that fails.
use lsm_tree_key_value_stora.Prelude.{
  ℕ, suc, ◌+◌, ◌≡◌, refl, ap, ◌∙◌, Option, none, some, List, [], ◌∷◌, ◌++◌, arith, get_elem?,
  length, if◌then◌else◌,
}
use lsm_tree_key_value_stora.Errors.{Error, err}
use lsm_tree_key_value_stora.Record.{Record}
use lsm_tree_key_value_stora.Scan.{
  Item, Peeking, peeking, Merge, emit, next_source_from, taken, turn, head_of, better,
}
use lsm_tree_key_value_stora.Scan.Choose.{healthy}

failed_index :
    (its : List (List Record)) (e : Error) (items : List Item) (ps : List Peeking) (i : ℕ)
    (best : Option (ℕ × Record))
    → next_source_from i best (healthy its ++ (peeking (err e ∷ items) ∷ ps))
      ≡ some (i + length its)
unfolding next_source_from peeking
failed_index [] e items ps i best = ap some (omega arith)
failed_index ([] ∷ its) e items ps i best =
    failed_index its e items ps (suc i) best ∙ ap some (omega arith)
failed_index ((r ∷ it) ∷ its) e items ps i best =
    failed_index its e items ps (suc i) (if better r best then some (i, r) else best)
    ∙ ap some (omega arith)

failed_head :
    (its : List (List Record)) (e : Error) (items : List Item) (ps : List Peeking)
    → head_of (get_elem? (healthy its ++ (peeking (err e ∷ items) ∷ ps)) (length its))
      ≡ some (err e)
unfolding peeking
failed_head [] e items ps = refl
failed_head (it ∷ its) e items ps = failed_head its e items ps

-- An error at the head of a source is the next answer, whatever smaller keys the other sources hold.
pub turn-err :
    (m : Merge) (its : List (List Record)) (e : Error) (items : List Item) (ps : List Peeking)
    → m.sources ≡ healthy its ++ (peeking (err e ∷ items) ∷ ps)
    → (turn m).0 ≡ emit (err e)
unfolding turn taken
turn-err m its e items ps q =
    let at : next_source_from 0 none m.sources ≡ some (length its) =
      ap (next_source_from 0 none) q ∙ failed_index its e items ps 0 none ∙ ap some (omega arith) in
    let head : head_of (get_elem? m.sources (length its)) ≡ some (err e) =
      ap (λ s. head_of (get_elem? s (length its))) q ∙ failed_head its e items ps in
    rw (at, turn) (rw (head, taken))

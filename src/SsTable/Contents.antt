-- ===== src/SsTable/Contents.antt =====
-- Reading a whole table, and walking it from a key.
use lsm_tree_key_value_stora.Prelude.{◌≡◌, refl, ap, sym, subst, List, [], ◌∷◌, ◌++◌, inl, inr}
use lsm_tree_key_value_stora.Order.{bytes_ord}
use lsm_tree_key_value_stora.Errors.{Result, ok, err}
use lsm_tree_key_value_stora.Record.{Record}
use lsm_tree_key_value_stora.Members.{◌∈◌}
use lsm_tree_key_value_stora.Bloom.{SeededHash}
use lsm_tree_key_value_stora.SsTable.{Lz4}
use lsm_tree_key_value_stora.SsTable.Reader.{
  SsTableReader, load_block, extended, prefixed, each_block, iter_all,
}
use lsm_tree_key_value_stora.SsTable.Blocks.{Part, entries, all_records}
use lsm_tree_key_value_stora.SsTable.Lookup.{IsTable, Answers, load_part}

module _ (z : Lz4) (h : SeededHash) (parts : List Part) where
  prefixed-Answers :
      (b rs : List Record) (a : Result (List Record) × SsTableReader)
      → Answers z h parts rs a
      → Answers z h parts (b ++ rs) (prefixed b a)
  prefixed-Answers b rs (err e, t) (x, w) = absurd (cc x)
  prefixed-Answers b rs (ok c, t) (x, w) = (ap (λ l. ok (b ++ l)) (cc x), w)

  extended-Answers :
      (b rs : List Record) (a : Result (List Record) × SsTableReader)
      (rest : SsTableReader → Result (List Record) × SsTableReader)
      → Answers z h parts b a
      → ((t : SsTableReader) → IsTable z h parts t → Answers z h parts rs (rest t))
      → Answers z h parts (b ++ rs) (extended a rest)
  extended-Answers b rs (err e, t) rest (x, w) k = absurd (cc x)
  extended-Answers b rs (ok c, t) rest (x, w) k =
      subst (λ d. Answers z h parts (d ++ rs) (prefixed c (rest t))) (cc x)
        (prefixed-Answers c rs (rest t) (k t w))

  each_block-Answers :
      (ps : List Part) (t : SsTableReader)
      → ((p : Part) → p ∈ ps → p ∈ parts)
      → IsTable z h parts t
      → Answers z h parts (all_records ps) (each_block z (entries ps) t)
  unfolding each_block
  each_block-Answers [] t f w = (refl, w)
  each_block-Answers (p ∷ ps) t f w =
      extended-Answers p.records (all_records ps)
        (load_block z p.entry.block_offset p.entry.comp_len t) (each_block z (entries ps))
        (load_part z h parts t p w (f p (inl refl)))
        (λ t' w'. each_block-Answers ps t' (λ q m. f q (inr m)) w')

  -- A whole read of a well-formed table gives its records, in the order of its blocks.
  pub iter_all-eq-records :
      (t : SsTableReader)
      → IsTable z h parts t
      → ((iter_all z t).0 ≡ ok (all_records parts)) × IsTable z h parts (iter_all z t).1
  unfolding iter_all
  iter_all-eq-records t w =
      subst (λ ix. Answers z h parts (all_records parts) (each_block z ix t)) (sym w.indexed)
        (each_block-Answers parts t (λ p m. m) w)

-- ===== src/SsTable/Stored.antt =====
-- What the parts of a written table promise of its file: each block reads back, the blocks stand
-- apart, and the integers of the index fit.
use lsm_tree_key_value_stora.Prelude.{
  ℕ, ◌+◌, ◌%◌, ◌^◌, ◌≤◌, ◌<◌, ◌≡◌, refl, ap, sym, ◌∙◌, subst, true, List, [], ◌∷◌, ◌++◌, arith,
  length, All, All-left, All-right, append_assoc, length-append, inl, inr,
}
use lsm_tree_key_value_stora.Errors.{ok}
use lsm_tree_key_value_stora.Bytes.{Bytes}
use lsm_tree_key_value_stora.Record.{Record, usize_mod}
use lsm_tree_key_value_stora.Record.RoundTrip.{Fits}
use lsm_tree_key_value_stora.Members.{◌∈◌, All-of}
use lsm_tree_key_value_stora.Visible.Runs.{All-map}
use lsm_tree_key_value_stora.Bloom
use lsm_tree_key_value_stora.Bloom.{SeededHash, BloomFilter}
use lsm_tree_key_value_stora.Bloom.Laws.{insert_all, contains-insert_all}
use lsm_tree_key_value_stora.Wal.Decode.{encodings}
use lsm_tree_key_value_stora.SsTable.{Lz4, IsLossless, Entry}
use lsm_tree_key_value_stora.SsTable.Reader.{ReadFile, read_block}
use lsm_tree_key_value_stora.SsTable.Blocks.{Part, entries, all_records, Ordered}
use lsm_tree_key_value_stora.SsTable.Lookup.{Agrees}
use lsm_tree_key_value_stora.SsTable.Cuts.{
  keys_of, blob, blobs, Laid, encodings-append, encodings_pos,
}
use lsm_tree_key_value_stora.SsTable.Reading.{Reads, read_part, EntryFits, decode_all-encodings}
use lsm_tree_key_value_stora.SsTable.Image.{index_bytes, length-index_bytes}

pub length-encodings_le : (rs : List Record) → length rs ≤ length (encodings rs)
length-encodings_le [] = unfold encodings in omega arith
length-encodings_le (r ∷ rs) = omega (
  arith,
  length-encodings_le rs,
  ap length (encodings-append (r ∷ []) rs),
  length-append (encodings (r ∷ [])) (encodings rs),
  encodings_pos r [],
)

pub length-entries_le : (es : List Entry) → length es ≤ length (index_bytes es)
length-entries_le [] = unfold index_bytes in omega arith
length-entries_le (e ∷ es) = omega (arith, length-entries_le es, length-index_bytes e es)

module _ (z : Lz4) where
  pub All-Laid_from :
      (o : ℕ) (ps : List Part) → Laid z o ps → All (λ p. o ≤ p.entry.block_offset) ps
  All-Laid_from o [] l = tt
  All-Laid_from o (p ∷ ps) l = (
    omega (arith, l.0),
    All-map ps (λ q k. omega arith) (All-Laid_from (o + length (blob z p)) ps l.2),
  )

  -- The integers of the index fit, where the blocks end below 2 ^ 64.
  pub entries-EntryFits :
      (o : ℕ) (ps : List Part)
      → Laid z o ps
      → Ordered ps
      → All Fits (all_records ps)
      → o + length (blobs z ps) < 2 ^ 64
      → All EntryFits (entries ps)
  entries-EntryFits o [] l d f h = tt
  entries-EntryFits o (p ∷ ps) l d f h =
      let n = length-append (blob z p) (blobs z ps) in
      let headed = d.1 in
      let mine = All-left _ p.records (all_records ps) f in
      let first : Fits headed.first = (subst (All Fits) headed.whole mine).0 in
      (
        record {
          key_fits = subst (λ k. length k < 2 ^ 32) headed.indexed first.key_fits;
          offset_fits = omega (arith, l.0);
          len_fits = omega (arith, l.1);
        },
        entries-EntryFits (o + length (blob z p)) ps l.2 d.3
            (All-right _ p.records (all_records ps) f) (omega (arith, n)),
      )

  module _ (lossless : IsLossless z) where
    -- No two blocks have one offset.
    pub Laid-apart :
        (o : ℕ) (ps : List Part)
        → Laid z o ps
        → All (λ p. Agrees ps p.entry.block_offset p.records) ps
    Laid-apart o [] l = tt
    Laid-apart o (p ∷ ps) l =
        let above : All (λ q. p.entry.block_offset < q.entry.block_offset) ps =
          All-map ps (λ q k. omega (arith, l.0, lossless.compress_pos (encodings p.records)))
            (All-Laid_from (o + length (blob z p)) ps l.2) in
        (
          (λ _. refl, All-map ps (λ q k e. absurd (omega (arith, e))) above),
          with_first ps (Laid-apart (o + length (blob z p)) ps l.2) above,
        )
      where
        with_first :
            (qs : List Part)
            → All (λ q. Agrees ps q.entry.block_offset q.records) qs
            → All (λ q. p.entry.block_offset < q.entry.block_offset) qs
            → All (λ q. Agrees (p ∷ ps) q.entry.block_offset q.records) qs
        with_first [] a b = tt
        with_first (q ∷ qs) a b =
            ((λ e. absurd (omega (arith, e, b.0)), a.0), with_first qs a.1 b.1)

    module _ (bytes : Bytes) (file : ReadFile) (reads : Reads bytes file)
        (small : length bytes < 2 ^ 32) where
      read_block-blob :
          (pre post : Bytes) (p : Part)
          → bytes ≡ pre ++ (blob z p ++ post)
          → p.entry.block_offset ≡ length pre
          → p.entry.comp_len ≡ length (blob z p) % 2 ^ 32
          → All Fits p.records
          → length (encodings p.records) < usize_mod
          → read_block z file p.entry.block_offset p.entry.comp_len ≡ ok p.records
      unfolding read_block
      read_block-blob pre post p e o n f raw =
          let l1 = length-append pre (blob z p ++ post) in
          let l2 = length-append (blob z p) post in
          let n' : p.entry.comp_len ≡ length (blob z p) = omega (arith, n, ap length e) in
          rw
            (
              read_part bytes pre (blob z p) post file p.entry.block_offset p.entry.comp_len reads
                  (omega arith) e o n',
              lossless.decompress-compress (encodings p.records),
            )
            (decode_all-encodings (length (encodings p.records)) [] p.records f
              (length-encodings_le p.records) raw)

      -- Every block reads back.
      pub Laid-stored :
          (pre post : Bytes) (ps : List Part)
          → bytes ≡ pre ++ (blobs z ps ++ post)
          → Laid z (length pre) ps
          → All Fits (all_records ps)
          → length (encodings (all_records ps)) < usize_mod
          → All (λ p. read_block z file p.entry.block_offset p.entry.comp_len ≡ ok p.records) ps
      Laid-stored pre post [] e l f raw = tt
      Laid-stored pre post (p ∷ ps) e l f raw =
          let a = ap length (encodings-append p.records (all_records ps)) in
          let b = length-append (encodings p.records) (encodings (all_records ps)) in
          (
            read_block-blob pre (blobs z ps ++ post) p
                (e ∙ ap (λ t. pre ++ t) (append_assoc (blob z p) (blobs z ps) post)) l.0 l.1
                (All-left _ p.records (all_records ps) f) (omega (arith, a, b)),
            Laid-stored (pre ++ blob z p) post ps (e ∙ simp append_assoc)
                (subst (λ o. Laid z o ps) (sym (length-append pre (blob z p))) l.2)
                (All-right _ p.records (all_records ps) f) (omega (arith, a, b)),
          )

-- The filter of the written keys lets each of them pass.
pub keys-filtered :
    (h : SeededHash) (bloom : BloomFilter) (records : List Record)
    → Bloom.Laws.IsValid bloom
    → All (λ r. Bloom.contains h r.key (insert_all h (keys_of records) bloom) ≡ true) records
keys-filtered h bloom records v =
    All-of _ records
      (λ r m. contains-insert_all h (keys_of records) bloom r.key v (key_in records r m))
  where
    key_in : (rs : List Record) (r : Record) → r ∈ rs → r.key ∈ keys_of rs
    key_in [] r m = absurd m
    key_in (x ∷ rs) r (inl e) = inl (ap (λ r. r.key) e)
    key_in (x ∷ rs) r (inr m) = inr (key_in rs r m)

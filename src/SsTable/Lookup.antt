-- ===== src/SsTable/Lookup.antt =====
-- Reads of a well-formed table through its cache: a block comes back as it was written, and a point
-- lookup answers the newest version that the read sees.
use lsm_tree_key_value_stora.Prelude.{
  ℕ, suc, ◌≡◌, refl, ap, sym, ◌∙◌, subst, true, false, ◌&&◌, not, Option, none, some, List, [], ◌∷◌,
  arith, length, ◌==◌, All, Bool-cases, eq-false_of_pos, Option-cases, inl, inr, if◌then◌else◌,
}
use lsm_tree_key_value_stora.Order.{bytes_ord, cmp_cases, gt_iff_lt}
use lsm_tree_key_value_stora.Errors.{Result, ok, err}
use lsm_tree_key_value_stora.Bytes.{Bytes}
use lsm_tree_key_value_stora.Record.{Record}
use lsm_tree_key_value_stora.Members.{◌∈◌, All-at, All-of}
use lsm_tree_key_value_stora.Visible.{sees, newest, IsRun}
use lsm_tree_key_value_stora.Visible.Laws.{newest-none, key_of_seen}
use lsm_tree_key_value_stora.Visible.Runs.{
  All-map, newest_beyond, newest_skip, newest_first, not_seen_gt,
}
use lsm_tree_key_value_stora.Bloom
use lsm_tree_key_value_stora.Bloom.{SeededHash}
use lsm_tree_key_value_stora.SsTable.{Lz4, Entry}
use lsm_tree_key_value_stora.SsTable.Cache
use lsm_tree_key_value_stora.SsTable.Cache.{BlockCache}
use lsm_tree_key_value_stora.SsTable.Cache.Laws.{put-IsValid, put-Coherent, Coherent}
use lsm_tree_key_value_stora.SsTable.Reader.{
  SsTableReader, read_block, load_block, binary_search, block_idx, scan_block, get_at, lookup_in,
  scanned, entry_at,
}
use lsm_tree_key_value_stora.SsTable.Blocks.{
  Part, entries, all_records, first_key, Ordered, landing, landing-All, binary_search-landing,
  newest-landing, newest_before, block_of_key,
}

-- The block that the file holds at an offset is the block of the table there.
abbrev pub Agrees : List Part → ℕ → List Record → Type 0
Agrees ps o b = All (λ p. p.entry.block_offset ≡ o → b ≡ p.records) ps

-- An open table that holds the blocks `parts`.
pub record IsTable (z : Lz4) (h : SeededHash) (parts : List Part) (t : SsTableReader) : Type 0 where
  pub indexed : t.index ≡ entries parts
  pub stored :
      All (λ p. read_block z t.file p.entry.block_offset p.entry.comp_len ≡ ok p.records) parts
  pub apart : All (λ p. Agrees parts p.entry.block_offset p.records) parts
  pub ordered : Ordered parts
  pub filtered : All (λ r. Bloom.contains h r.key t.bloom ≡ true) (all_records parts)
  pub coherent : Coherent (Agrees parts) t.cache
  pub cache_valid : Cache.Laws.IsValid t.cache

-- The first record for the key that is below the bound is the newest one.
pub scan_block-eq-newest :
    (key : Bytes) (bound : ℕ) (rs : List Record)
    → IsRun rs
    → scan_block key bound rs ≡ newest key bound rs
unfolding scan_block
scan_block-eq-newest key bound [] h = unfold newest in refl
scan_block-eq-newest key bound (r ∷ rs) h =
    let ih = scan_block-eq-newest key bound rs h.1 in
    elim (cmp_cases r.key key) [
      | inl l ↦ rw (l, scan_block, newest_skip key bound r rs (not_seen_gt key bound r l)) ih
      | inr (inl e) ↦
          rw (e, scan_block, newest_first key bound r rs (bytes_ord.eq_of_cmp r.key key e) h.0, ih)
      | inr (inr g) ↦ rw (g, scan_block, newest_beyond key bound r rs (gt_iff_lt r.key key g) h.0)
    ]

module _ (z : Lz4) (h : SeededHash) (parts : List Part) where
  cached-IsTable :
      (t : SsTableReader) (o : ℕ) (b : List Record)
      → IsTable z h parts t
      → Agrees parts o b
      → IsTable z h parts (record t { cache = Cache.put o b t.cache })
  cached-IsTable t o b w a = record {
    indexed = w.indexed;
    stored = w.stored;
    apart = w.apart;
    ordered = w.ordered;
    filtered = w.filtered;
    coherent = put-Coherent (Agrees parts) o b t.cache w.cache_valid a w.coherent;
    cache_valid = put-IsValid o b t.cache w.cache_valid;
  }

  -- An answer that is right, and a table that has changed in its cache only.
  abbrev pub Answers : {A : Type 0} → A → Result A × SsTableReader → Type 0
  Answers a (r, t) = (r ≡ ok a) × IsTable z h parts t

  pub load_part :
      (t : SsTableReader) (p : Part)
      → IsTable z h parts t
      → p ∈ parts
      → Answers p.records (load_block z p.entry.block_offset p.entry.comp_len t)
  unfolding load_block
  load_part t p w m = elim (Option-cases (Cache.get p.entry.block_offset t.cache)) [
    | inl e ↦
        rw (e, load_block, All-at _ p parts w.stored m)
          (refl, cached-IsTable t p.entry.block_offset p.records w (All-at _ p parts w.apart m))
    | inr (b, e) ↦
        rw (e, load_block)
          (ap ok (All-at _ p parts (w.coherent p.entry.block_offset b e) m refl), w)
  ]

  lookup_part :
      (key : Bytes) (bound : ℕ) (t : SsTableReader) (p : Part)
      → IsTable z h parts t
      → p ∈ parts
      → IsRun p.records
      → Answers (newest key bound p.records) (lookup_in z key bound (some p.entry) t)
  lookup_part key bound t p w m s =
      given (load_block z p.entry.block_offset p.entry.comp_len t) (load_part t p w m)
    where
      given :
          (a : Result (List Record) × SsTableReader)
          → Answers p.records a
          → Answers (newest key bound p.records) (scanned key bound a)
      given (ok b, t') (e, w') = (
        ap ok (ap (scan_block key bound) (cc e) ∙ scan_block-eq-newest key bound p.records s),
        w',
      )
      given (err c, t') (e, w') = absurd (cc e)

pub runs-Ordered : (ps : List Part) → Ordered ps → All (λ p. IsRun p.records) ps
runs-Ordered [] o = tt
runs-Ordered (p ∷ ps) o = (o.0, runs-Ordered ps o.3)

-- A key that the filter excludes has no version in the table.
excluded :
    (h : SeededHash) (t : SsTableReader) (key : Bytes) (bound : ℕ) (rs : List Record)
    → All (λ r. Bloom.contains h r.key t.bloom ≡ true) rs
    → Bloom.contains h key t.bloom ≡ false
    → newest key bound rs ≡ none
excluded h t key bound rs a n = newest-none key bound rs (All-map rs (λ r c. unseen r c) a)
  where
    unseen : (r : Record) → Bloom.contains h r.key t.bloom ≡ true → sees key bound r ≡ false
    unseen r c = elim (Bool-cases (sees key bound r)) [
      | inl s ↦
          let k = ap (λ k. Bloom.contains h k t.bloom) (key_of_seen key bound r s) in
          absurd (cc (c, k, n))
      | inr s ↦ s
    ]

module _ (z : Lz4) (h : SeededHash) (key : Bytes) (bound : ℕ) where
  -- `get_at` from the index on.
  abbrev looked_up : List Entry → SsTableReader → Result (Option Record) × SsTableReader
  looked_up index t =
      if length index == 0
      then (ok none, t)
      else if t.bloom_enabled && not (Bloom.contains h key t.bloom)
      then (ok none, t)
      else lookup_in z key bound (entry_at index (block_idx (binary_search key 0 index))) t

  module _ (p : Part) (ps : List Part) (t : SsTableReader) (w : IsTable z h (p ∷ ps) t) where
    abbrev Found : Result (Option Record) × SsTableReader → Type 0
    Found = Answers z h (p ∷ ps) (newest key bound (all_records (p ∷ ps)))

    Found-none : newest key bound (all_records (p ∷ ps)) ≡ none → Found (ok none, t)
    Found-none e = (ap ok (sym e), w)

    Found-part :
        (q : Part)
        → q ∈ (p ∷ ps)
        → newest key bound (all_records (p ∷ ps)) ≡ newest key bound q.records
        → Found (lookup_in z key bound (some q.entry) t)
    Found-part q m e =
        subst (λ o. Answers z h (p ∷ ps) o (lookup_in z key bound (some q.entry) t)) (sym e)
          (lookup_part z h (p ∷ ps) key bound t q w m
            (All-at _ q (p ∷ ps) (runs-Ordered (p ∷ ps) w.ordered) m))

    searched : Found (
        lookup_in z key bound
          (entry_at (entries (p ∷ ps)) (block_idx (binary_search key 0 (entries (p ∷ ps)))))
          t)
    unfolding binary_search
    searched = elim (cmp_cases (first_key p) key) [
      | inl l ↦
          let (j, a, b) = binary_search-landing key 0 p ps in
          let e : entry_at (entries (p ∷ ps)) (block_idx (binary_search key 1 (entries ps)))
              ≡ some (landing key p ps).entry =
            ap (entry_at (entries (p ∷ ps))) (a ∙ ap some (omega arith)) ∙ b in
          rw (l, binary_search, e)
            (Found-part (landing key p ps)
              (landing-All (λ q. q ∈ (p ∷ ps)) key p ps (All-of _ (p ∷ ps) (λ q m. m)))
              (newest-landing key bound p ps w.ordered))
      | inr (inl e) ↦
          rw (e, binary_search) (Found-part p (inl refl) (block_of_key key bound p ps w.ordered e))
      | inr (inr g) ↦ rw (g, binary_search) (Found-none (newest_before key bound p ps w.ordered g))
    ]

    looked_up_lem : Found (looked_up (entries (p ∷ ps)) t)
    looked_up_lem =
        rw (eq-false_of_pos (suc (length (entries ps))) (omega arith))
          (elim (Bool-cases (t.bloom_enabled && not (Bloom.contains h key t.bloom))) [
            | inl e ↦ rw e (
                Found-none
                  (excluded h t key bound (all_records (p ∷ ps)) w.filtered (ground (arith, e))))
            | inr e ↦ rw e searched
          ])

  -- A point lookup in a well-formed table succeeds and answers, of all records of the table, the
  -- newest version of the key below the bound, and none where there is none; whatever its cache
  -- holds. The table stays well-formed.
  pub get_at-newest :
      (parts : List Part) (t : SsTableReader)
      → IsTable z h parts t
      → ((get_at z h key bound t).0 ≡ ok (newest key bound (all_records parts)))
        × IsTable z h parts (get_at z h key bound t).1
  unfolding get_at
  get_at-newest parts t w =
      subst (λ ix. Answers z h parts (newest key bound (all_records parts)) (looked_up ix t))
        (sym w.indexed) (by_parts parts w)
    where
      by_parts :
          (parts : List Part)
          → IsTable z h parts t
          → Answers z h parts (newest key bound (all_records parts)) (looked_up (entries parts) t)
      by_parts [] w = (unfold newest in refl, w)
      by_parts (p ∷ ps) w = looked_up_lem p ps t w

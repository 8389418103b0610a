-- ===== src/SsTable/Bracket.antt =====
-- The block at which a walk enters the table: everything before it is below the start, and everything
-- behind it is not.
use lsm_tree_key_value_stora.Prelude.{
  ℕ, suc, ◌+◌, ◌≤◌, ◌≡◌, refl, ap, sym, ◌∙◌, subst, Option, none, some, List, [], ◌∷◌, ◌++◌, map,
  arith, length, drop, All, inl, inr, eq-false_of_pos, append_assoc, drop-length, zero-add,
}
use lsm_tree_key_value_stora.Order.{bytes_ord, ◌≺◌, ◌≼◌, cmp_cases, gt_iff_lt, ≼_of_≺, ≺_≼_trans}
use lsm_tree_key_value_stora.Errors.{ok}
use lsm_tree_key_value_stora.Bytes.{Bytes}
use lsm_tree_key_value_stora.Record.{Record}
use lsm_tree_key_value_stora.Members.{◌∈◌, ∈-append_right}
use lsm_tree_key_value_stora.Visible.Runs.{All-map}
use lsm_tree_key_value_stora.Bloom.{SeededHash}
use lsm_tree_key_value_stora.SsTable.{Lz4, Entry}
use lsm_tree_key_value_stora.SsTable.Reader.{
  SsTableReader, binary_search, bracket_of, block_bracketing,
}
use lsm_tree_key_value_stora.SsTable.Blocks.{
  Part, entries, all_records, first_key, Ordered, first_below, from-All, block_keys_below,
}
use lsm_tree_key_value_stora.SsTable.Lookup.{IsTable}
use lsm_tree_key_value_stora.SsTable.Walk.{TableScan, scan, collect, unwrap_or, first_block}
use lsm_tree_key_value_stora.SsTable.Walking.{kept_from, kept_from-none, rounds, between_lem}

pub kept_from-append :
    (start : Option Bytes) (xs ys : List Record)
    → kept_from start (xs ++ ys) ≡ kept_from start xs ++ kept_from start ys
kept_from-append start [] ys = refl
kept_from-append start (x ∷ xs) ys = ground (arith, kept_from-append start xs ys)

module _ (key : Bytes) where
  kept_below : (rs : List Record) → All (λ r. r.key ≺ key) rs → kept_from (some key) rs ≡ []
  kept_below [] a = refl
  kept_below (r ∷ rs) a = rw (a.0, kept_below rs a.1)

  kept_above : (rs : List Record) → All (λ r. key ≼ r.key) rs → kept_from (some key) rs ≡ rs
  kept_above [] a = refl
  kept_above (r ∷ rs) a = rw (a.0) (ap (◌∷◌ r) (kept_above rs a.1))

  kept_strictly : (rs : List Record) → All (λ r. key ≺ r.key) rs → kept_from (some key) rs ≡ rs
  kept_strictly rs a = kept_above rs (All-map rs (λ r l. ≼_of_≺ key r.key l) a)

  -- The blocks `parts`, cut where the search for the key lands.
  pub record Cut (parts : List Part) (n : ℕ) : Type 0 where
    pub before : List Part
    pub entered : Part
    pub after : List Part
    pub whole : parts ≡ before ++ (entered ∷ after)
    pub counted : n ≡ length before
    pub skipped : kept_from (some key) (all_records before) ≡ []
    pub all_kept : kept_from (some key) (all_records after) ≡ all_records after

  search-Cut :
      (i : ℕ) (p : Part) (ps : List Part)
      → Ordered (p ∷ ps)
      → (n : ℕ) × (bracket_of (binary_search key (suc i) (entries ps)) ≡ i + n) × Cut (p ∷ ps) n
  unfolding binary_search
  search-Cut i p [] o = (
    0,
    omega arith,
    record {
      before = [];
      entered = p;
      after = [];
      whole = refl;
      counted = refl;
      skipped = refl;
      all_kept = refl;
    },
  )
  search-Cut i p (q ∷ qs) o = elim (cmp_cases (first_key q) key) [
    | inl l ↦
        let (n, e, c) = search-Cut (suc i) q qs o.3 in
        rw (l, binary_search)
          (
            suc n,
            e ∙ omega arith,
            record {
              before = p ∷ c.before;
              entered = c.entered;
              after = c.after;
              whole = ap (◌∷◌ p) c.whole;
              counted = ap suc c.counted;
              skipped =
                  kept_from-append (some key) p.records (all_records c.before)
                  ∙ ap (λ rs. rs ++ kept_from (some key) (all_records c.before))
                      (kept_below p.records (block_keys_below key p q qs o (inl l)))
                  ∙ c.skipped;
              all_kept = c.all_kept;
            },
          )
    | inr (inl e) ↦
        rw (e, binary_search)
          (
            1,
            omega arith,
            record {
              before = p ∷ [];
              entered = q;
              after = qs;
              whole = refl;
              counted = refl;
              skipped =
                  kept_from-append (some key) p.records []
                  ∙ ap (λ rs. rs ++ [])
                      (kept_below p.records (block_keys_below key p q qs o (inr e)));
              all_kept = kept_strictly (all_records qs) (
                  subst (λ k. All (λ s. k ≺ s.key) (all_records qs))
                    (bytes_ord.eq_of_cmp (first_key q) key e) (first_below q qs o.3));
            },
          )
    | inr (inr g) ↦
        rw (g, binary_search)
          (
            0,
            omega arith,
            record {
              before = [];
              entered = p;
              after = q ∷ qs;
              whole = refl;
              counted = refl;
              skipped = refl;
              all_kept = kept_strictly (all_records (q ∷ qs)) (
                  All-map (all_records (q ∷ qs))
                    (λ s m. ≺_≼_trans key (first_key q) s.key (gt_iff_lt (first_key q) key g) m)
                    (from-All q qs o.3));
            },
          )
  ]

  whole-Cut : (p : Part) (ps : List Part) → All (λ s. key ≺ s.key) (all_records ps) → Cut (p ∷ ps) 0
  whole-Cut p ps a = record {
    before = [];
    entered = p;
    after = ps;
    whole = refl;
    counted = refl;
    skipped = refl;
    all_kept = kept_strictly (all_records ps) a;
  }

  bracket-Cut :
      (p : Part) (ps : List Part)
      → Ordered (p ∷ ps)
      → Cut (p ∷ ps) (bracket_of (binary_search key 0 (entries (p ∷ ps))))
  unfolding binary_search
  bracket-Cut p ps o = elim (cmp_cases (first_key p) key) [
    | inl l ↦
        let (n, e, c) = search-Cut 0 p ps o in
        rw (l, binary_search) (subst (Cut (p ∷ ps)) (sym (e ∙ zero-add n)) c)
    | inr (inl e) ↦
        rw (e, binary_search)
          (whole-Cut p ps (
            subst (λ k. All (λ s. k ≺ s.key) (all_records ps))
              (bytes_ord.eq_of_cmp (first_key p) key e) (first_below p ps o)))
    | inr (inr g) ↦
        rw (g, binary_search)
          (whole-Cut p ps (
            All-map (all_records ps)
              (λ s m. bytes_ord.lt_trans key (first_key p) s.key (gt_iff_lt (first_key p) key g) m)
              (first_below p ps o)))
  ]

entries-append : (xs ys : List Part) → entries (xs ++ ys) ≡ entries xs ++ entries ys
entries-append [] ys = refl
entries-append (x ∷ xs) ys = ap (◌∷◌ x.entry) (entries-append xs ys)

length-entries : (xs : List Part) → length (entries xs) ≡ length xs
length-entries [] = refl
length-entries (x ∷ xs) = ap suc (length-entries xs)

all_records-append : (xs ys : List Part) → all_records (xs ++ ys) ≡ all_records xs ++ all_records ys
all_records-append [] ys = refl
all_records-append (x ∷ xs) ys =
    ap (λ rs. x.records ++ rs) (all_records-append xs ys)
    ∙ sym (append_assoc x.records (all_records xs) (all_records ys))

rounds-append : (xs ys : List Part) → rounds ys ≤ rounds (xs ++ ys)
rounds-append [] ys = omega arith
rounds-append (x ∷ xs) ys = omega (arith, rounds-append xs ys)

module _ (z : Lz4) (h : SeededHash) (parts : List Part) (t : SsTableReader)
    (w : IsTable z h parts t) where
  from-Cut :
      (key : Bytes) (n fuel : ℕ)
      → Cut key parts n
      → rounds parts ≤ fuel
      → collect fuel z (record { reader = t; block = n; loaded = none; pos = 0; start = some key })
        ≡ map ok (kept_from (some key) (all_records parts))
  from-Cut key n fuel c f =
      between_lem z h parts (c.entered ∷ c.after)
        (λ p m. subst (λ ps. p ∈ ps) (sym c.whole) (∈-append_right p c.before _ m)) t n 0 fuel
        (some key) w at_cut enough
      ∙ ap (map ok) (sym same)
    where
      at_cut : drop n (entries parts) ≡ entries (c.entered ∷ c.after)
      at_cut =
          ap (drop n) (ap entries c.whole ∙ entries-append c.before (c.entered ∷ c.after))
          ∙ ap (λ k. drop k (entries c.before ++ entries (c.entered ∷ c.after)))
              (c.counted ∙ sym (length-entries c.before))
          ∙ drop-length (entries c.before) (entries (c.entered ∷ c.after))

      enough : rounds (c.entered ∷ c.after) ≤ fuel
      enough =
          let r = rounds-append c.before (c.entered ∷ c.after) in
          let e = ap rounds c.whole in omega (arith, r, e)

      same :
          kept_from (some key) (all_records parts)
          ≡ kept_from (some key) c.entered.records ++ all_records c.after
      same =
          ap (λ ps. kept_from (some key) (all_records ps)) c.whole
          ∙ ap (kept_from (some key)) (all_records-append c.before (c.entered ∷ c.after))
          ∙ kept_from-append (some key) (all_records c.before)
              (c.entered.records ++ all_records c.after)
          ∙ ap (λ rs. rs ++ kept_from (some key) (c.entered.records ++ all_records c.after))
              c.skipped
          ∙ kept_from-append (some key) c.entered.records (all_records c.after)
          ∙ ap (λ rs. kept_from (some key) c.entered.records ++ rs) c.all_kept

  -- The walk, from the block that `scan` chose for an index.
  abbrev walk_at : List Entry → Option Bytes → TableScan
  walk_at index start = record {
    reader = t;
    block = unwrap_or (first_block start index) (length index);
    loaded = none;
    pos = 0;
    start = start;
  }

module _ (z : Lz4) (h : SeededHash) (t : SsTableReader) where
  walk_at-kept :
      (parts : List Part) (start : Option Bytes) (fuel : ℕ)
      → (w : IsTable z h parts t) → rounds parts ≤ fuel
      → collect fuel z (walk_at z h parts t w (entries parts) start)
        ≡ map ok (kept_from start (all_records parts))
  unfolding block_bracketing
  walk_at-kept [] none fuel w f = between_lem z h [] [] (λ p m. m) t 0 0 fuel none w refl f
  walk_at-kept [] (some key) fuel w f =
      between_lem z h [] [] (λ p m. m) t 0 0 fuel (some key) w refl f
  walk_at-kept (p ∷ ps) none fuel w f =
      rw (eq-false_of_pos (suc (length (entries ps))) (omega arith)) (
        between_lem z h (p ∷ ps) (p ∷ ps) (λ p m. m) t 0 0 fuel none w refl f
        ∙ ap (λ rs. map ok (rs ++ all_records ps)) (kept_from-none p.records)
        ∙ ap (map ok) (sym (kept_from-none (all_records (p ∷ ps)))))
  walk_at-kept (p ∷ ps) (some key) fuel w f =
      rw (eq-false_of_pos (suc (length (entries ps))) (omega arith)) (
        from-Cut z h (p ∷ ps) t w key (bracket_of (binary_search key 0 (entries (p ∷ ps)))) fuel
          (bracket-Cut key p ps w.ordered) f)

  -- A walk over a well-formed table, given rounds enough for its records and blocks, yields exactly
  -- the records from the start key on, in the order of the table and without an error, whatever the
  -- cache holds; with no start key, all records.
  pub scan-kept :
      (parts : List Part) (start : Option Bytes) (fuel : ℕ)
      → IsTable z h parts t
      → rounds parts ≤ fuel
      → collect fuel z (scan start t) ≡ map ok (kept_from start (all_records parts))
  unfolding scan
  scan-kept parts start fuel w f =
      subst
        (λ ix.
          collect fuel z (walk_at z h parts t w ix start)
          ≡ map ok (kept_from start (all_records parts)))
        (sym w.indexed) (walk_at-kept parts start fuel w f)

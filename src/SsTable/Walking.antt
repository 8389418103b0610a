-- ===== src/SsTable/Walking.antt =====
-- A walk from a block on gives the records of that block that are not below the start, and all those
-- of the later blocks.
use lsm_tree_key_value_stora.Prelude.{
  ℕ, zero, suc, ◌+◌, ◌≤◌, ◌≡◌, refl, ap, sym, ◌∙◌, subst, Option, none, some, List, [], ◌∷◌, ◌++◌,
  map, arith, length, get_elem?, drop, inl, inr, Bool-cases, if◌then◌else◌,
}
use lsm_tree_key_value_stora.Order.{bytes_ord}
use lsm_tree_key_value_stora.Errors.{Result, ok, err}
use lsm_tree_key_value_stora.Bytes.{Bytes}
use lsm_tree_key_value_stora.Record.{Record}
use lsm_tree_key_value_stora.Members.{◌∈◌}
use lsm_tree_key_value_stora.Bloom.{SeededHash}
use lsm_tree_key_value_stora.SsTable.{Lz4}
use lsm_tree_key_value_stora.SsTable.Reader.{SsTableReader, load_block}
use lsm_tree_key_value_stora.SsTable.Blocks.{Part, entries, all_records}
use lsm_tree_key_value_stora.SsTable.Lookup.{IsTable, Answers, load_part}
use lsm_tree_key_value_stora.SsTable.Walk.{TableScan, is_below, received, round, joined, collect}

-- The records that a walk from `start` does not skip.
abbrev pub kept_from : Option Bytes → List Record → List Record
kept_from start [] = []
kept_from start (r ∷ rs) =
    let rest = kept_from start rs in if is_below start r then rest else r ∷ rest

pub kept_from-none : (rs : List Record) → kept_from none rs ≡ rs
kept_from-none [] = refl
kept_from-none (r ∷ rs) = ap (◌∷◌ r) (kept_from-none rs)

-- Rounds enough for the blocks that are left: one for each record, one for the end of each block, and
-- one for the end of the table.
abbrev pub rounds : List Part → ℕ
rounds [] = 1
rounds (p ∷ ps) = length p.records + 1 + rounds ps

module _ {A : Type 0} where
  pub drop_nil : (n : ℕ) (xs : List A) → drop n xs ≡ [] → get_elem? xs n ≡ none
  drop_nil zero [] h = refl
  drop_nil zero (x ∷ xs) h = absurd (cc h)
  drop_nil (suc n) [] h = refl
  drop_nil (suc n) (x ∷ xs) h = drop_nil n xs h

  pub drop_cons :
      (n : ℕ) (xs : List A) (y : A) (ys : List A)
      → drop n xs ≡ y ∷ ys
      → (get_elem? xs n ≡ some y) × (drop (n + 1) xs ≡ ys)
  drop_cons zero [] y ys h = absurd (cc h)
  drop_cons zero (x ∷ xs) y ys h = (cc, cc)
  drop_cons (suc n) [] y ys h = absurd (cc h)
  drop_cons (suc n) (x ∷ xs) y ys h =
      let e : suc n + 1 ≡ suc (n + 1) = omega arith in rw e (drop_cons n xs y ys h)

-- Between two blocks, and inside one.
abbrev pub between : SsTableReader → ℕ → ℕ → Option Bytes → TableScan
between t n i start = record { reader = t; block = n; loaded = none; pos = i; start = start }

abbrev inside : SsTableReader → ℕ → List Record → ℕ → Option Bytes → TableScan
inside t n block i start = record {
  reader = t;
  block = n;
  loaded = some block;
  pos = i;
  start = start;
}

module _ (z : Lz4) where
  -- The walk goes on behind block `n` with `rest`.
  abbrev Continues : SsTableReader → ℕ → ℕ → List Record → Type 0
  Continues t n enough rest =
      (fuel i : ℕ) → enough ≤ fuel → collect fuel z (between t n i none) ≡ map ok rest

  inside_lem :
      (t : SsTableReader) (n : ℕ) (block : List Record) (start : Option Bytes) (enough : ℕ)
      (rest : List Record)
      → Continues t (n + 1) enough rest
      → (cur : List Record) (i fuel : ℕ) → drop i block ≡ cur
      → length cur + 1 + enough ≤ fuel
      → collect fuel z (inside t n block i start) ≡ map ok (kept_from start cur ++ rest)
  unfolding collect round
  inside_lem t n block start enough rest k cur i zero d h = absurd (omega arith)
  inside_lem t n block start enough rest k [] i (suc fuel) d h =
      rw (drop_nil i block d) (k fuel i (omega arith))
  inside_lem t n block start enough rest k (r ∷ cur) i (suc fuel) d h =
      let (g, d') = drop_cons i block r cur d in
      let ih = inside_lem t n block start enough rest k cur (i + 1) fuel d' (omega arith) in
      rw g (elim (Bool-cases (is_below start r)) [
        | inl e ↦ rw e ih
        | inr e ↦ rw e (ap (◌∷◌ (ok r)) ih)
      ])

  module _ (h : SeededHash) (parts : List Part) where
    -- What a walk gives that enters the block `p` at `start`.
    abbrev from_block : Option Bytes → List Part → List Record
    from_block start [] = []
    from_block start (p ∷ ps) = kept_from start p.records ++ all_records ps

    from_block-none : (ps : List Part) → from_block none ps ≡ all_records ps
    from_block-none [] = refl
    from_block-none (p ∷ ps) = ap (λ rs. rs ++ all_records ps) (kept_from-none p.records)

    -- The walk between blocks, with `ps` to come.
    abbrev Walks : List Part → Type 0
    Walks ps =
        (t : SsTableReader) (n i fuel : ℕ) (start : Option Bytes)
        → IsTable z h parts t
        → drop n (entries parts) ≡ entries ps
        → rounds ps ≤ fuel
        → collect fuel z (between t n i start) ≡ map ok (from_block start ps)

    abbrev Later : ℕ → List Part → Type 0
    Later n ps =
        (t : SsTableReader) → IsTable z h parts t → Continues t (n + 1) (rounds ps) (all_records ps)

    -- A round that loads a block goes on inside it.
    loaded :
        (t : SsTableReader) (p : Part) (ps : List Part) (n i fuel : ℕ) (start : Option Bytes)
        → rounds (p ∷ ps) ≤ suc fuel
        → Later n ps
        → (a : Result (List Record) × SsTableReader) → Answers z h parts p.records a
        → joined
            (received a (between t n i start)).0
            (collect fuel z (received a (between t n i start)).1)
          ≡ map ok (kept_from start p.records ++ all_records ps)
    unfolding collect round
    loaded t p ps n i fuel start f k (err c, t') (x, w') = absurd (cc x)
    loaded t p ps n i fuel start f k (ok b, t') (x, w') =
        inside_lem t' n b start (rounds ps) (all_records ps) (k t' w') p.records 0 (suc fuel) (cc x)
          f

    pub between_lem : (ps : List Part) → ((p : Part) → p ∈ ps → p ∈ parts) → Walks ps
    unfolding collect round
    between_lem [] m t n i zero start w d f = absurd (omega arith)
    between_lem (p ∷ ps) m t n i zero start w d f = absurd (omega arith)
    between_lem [] m t n i (suc fuel) start w d f =
        let e : get_elem? t.index n ≡ none =
          subst (λ ix. get_elem? ix n ≡ none) (sym w.indexed) (drop_nil n (entries parts) d) in
        rw e
    between_lem (p ∷ ps) m t n i (suc fuel) start w d f =
        let (g, d') = drop_cons n (entries parts) p.entry (entries ps) d in
        let e : get_elem? t.index n ≡ some p.entry =
          subst (λ ix. get_elem? ix n ≡ some p.entry) (sym w.indexed) g in
        let later : Later n ps = λ t' w' fuel' i' f'.
          between_lem ps (λ q k. m q (inr k)) t' (n + 1) i' fuel' none w' d' f'
          ∙ ap (map ok) (from_block-none ps) in
        rw e (
          loaded t p ps n i fuel start f later
            (load_block z p.entry.block_offset p.entry.comp_len t)
            (load_part z h parts t p w (m p (inl refl))))

-- ===== src/SsTable/Blocks.antt =====
-- A table as its blocks: what the index and the file of a well-formed table hold, and the block that
-- the search of the index lands on.
use Prim.Native.Nat.Ordering.{lt, eq, gt}
use lsm_tree_key_value_stora.Prelude.{
  ℕ, suc, ◌+◌, ◌≡◌, refl, ap, sym, ◌∙◌, subst, none, some, List, [], ◌∷◌, ◌++◌, arith, get_elem?,
  All, All-append, inl, inr, ◌⊎◌, append-nil,
}
use lsm_tree_key_value_stora.Order.{
  ◌≺◌, ◌≼◌, bytes_ord, cmp_cases, gt_iff_lt, ≼_refl, ≼_of_≺, ≺_≼_trans,
}
use lsm_tree_key_value_stora.Bytes.{Bytes}
use lsm_tree_key_value_stora.Record.{Record}
use lsm_tree_key_value_stora.Visible.{later, newest, IsRun}
use lsm_tree_key_value_stora.Visible.Laws.{newest-append, newest-none, later-none}
use lsm_tree_key_value_stora.Visible.Runs.{All-map, not_seen_lt, not_seen_gt, ⊲_cases}
use lsm_tree_key_value_stora.SsTable.{Entry}
use lsm_tree_key_value_stora.SsTable.Reader.{binary_search, block_idx}

-- A block of a table: its element of the index, and its records.
pub record Part : Type 0 where
  pub entry : Entry
  pub records : List Record

abbrev pub entries : List Part → List Entry
entries [] = []
entries (p ∷ ps) = p.entry ∷ entries ps

abbrev pub all_records : List Part → List Record
all_records [] = []
all_records (p ∷ ps) = p.records ++ all_records ps

abbrev pub first_key : Part → Bytes
first_key p = p.entry.first_key

-- The block has a record, and the index its key.
pub record Headed (p : Part) : Type 0 where
  pub first : Record
  pub others : List Record
  pub whole : p.records ≡ first ∷ others
  pub indexed : first.key ≡ first_key p

-- Each block is a run, and every key of it is below the keys of the later blocks: the versions of
-- a key are not split.
abbrev pub Ordered : List Part → Type 0
Ordered [] = Unit
Ordered (p ∷ ps) =
    IsRun p.records
    × Headed p
    × All (λ r. All (λ s. r.key ≺ s.key) (all_records ps)) p.records
    × Ordered ps

pub run_from : (r : Record) (rs : List Record) → IsRun (r ∷ rs) → All (λ s. r.key ≼ s.key) (r ∷ rs)
run_from r rs h = (
  ≼_refl r.key,
  All-map rs
      (λ s k. elim (⊲_cases r s k) [
        | inl l ↦ ≼_of_≺ r.key s.key l
        | inr (e, _) ↦ subst (λ k. r.key ≼ k) e (≼_refl r.key)
      ])
      h.0,
)

part_from : (p : Part) → IsRun p.records → Headed p → All (λ s. first_key p ≼ s.key) p.records
part_from p h d =
    subst (λ rs. All (λ s. first_key p ≼ s.key) rs) (sym d.whole)
      (subst (λ k. All (λ s. k ≼ s.key) (d.first ∷ d.others)) d.indexed
        (run_from d.first d.others (subst IsRun d.whole h)))

module _ (p : Part) (ps : List Part) (o : Ordered (p ∷ ps)) where
  -- The first key of the block is below every key behind it.
  pub first_below : All (λ s. first_key p ≺ s.key) (all_records ps)
  first_below =
      let d = o.1 in
      let a = subst (λ rs. All (λ r. All (λ s. r.key ≺ s.key) (all_records ps)) rs) d.whole o.2 in
      subst (λ k. All (λ s. k ≺ s.key) (all_records ps)) d.indexed a.0

  pub from-All : All (λ s. first_key p ≼ s.key) (all_records (p ∷ ps))
  from-All =
      All-append _ p.records (all_records ps) (part_from p o.0 o.1)
        (All-map (all_records ps) (λ s k. ≼_of_≺ (first_key p) s.key k) first_below)

-- The block that the search lands on: the last one whose first key is not above the key.
unfoldable pub landing : Bytes → Part → List Part → Part
landing key p [] = p
landing key p (q ∷ qs) = elim (bytes_ord.cmp (first_key q) key) [
  | lt ↦ landing key q qs
  | eq ↦ q
  | gt ↦ p
]

pub landing-All {κ} :
    (P : Part → Type κ) (key : Bytes) (p : Part) (ps : List Part)
    → All P (p ∷ ps)
    → P (landing key p ps)
unfolding landing
landing-All P key p [] a = a.0
landing-All P key p (q ∷ qs) a = elim (cmp_cases (first_key q) key) [
  | inl l ↦ rw (l, landing) (landing-All P key q qs a.1)
  | inr (inl e) ↦ rw (e, landing) a.1.0
  | inr (inr g) ↦ rw (g, landing) a.0
]

-- The search of the index finds that block.
pub binary_search-landing :
    (key : Bytes) (i : ℕ) (p : Part) (ps : List Part)
    → (j : ℕ) × (block_idx (binary_search key (suc i) (entries ps)) ≡ some (i + j))
      × (get_elem? (entries (p ∷ ps)) j ≡ some (landing key p ps).entry)
unfolding binary_search landing
binary_search-landing key i p [] = (0, ap some (omega arith), refl)
binary_search-landing key i p (q ∷ qs) = elim (cmp_cases (first_key q) key) [
  | inl l ↦
      let (j, a, b) = binary_search-landing key (suc i) q qs in
      rw (l, landing, binary_search) (suc j, a ∙ ap some (omega arith), b)
  | inr (inl e) ↦ rw (e, landing, binary_search) (1, ap some (omega arith), refl)
  | inr (inr g) ↦ rw (g, landing, binary_search) (0, ap some (omega arith), refl)
]

-- A block is below the key where the next one starts at the key or below it.
pub block_keys_below :
    (key : Bytes) (p q : Part) (qs : List Part)
    → Ordered (p ∷ q ∷ qs)
    → (first_key q ≺ key) ⊎ (bytes_ord.cmp (first_key q) key ≡ eq)
    → All (λ s. s.key ≺ key) p.records
block_keys_below key p q qs o l = All-map p.records below o.2
  where
    reach :
        (r : Record)
        → r.key ≺ first_key q
        → (first_key q ≺ key) ⊎ (bytes_ord.cmp (first_key q) key ≡ eq)
        → r.key ≺ key
    reach r a (inl l) = bytes_ord.lt_trans r.key (first_key q) key a l
    reach r a (inr e) = subst (λ x. r.key ≺ x) (bytes_ord.eq_of_cmp (first_key q) key e) a

    below : (r : Record) → All (λ s. r.key ≺ s.key) (all_records (q ∷ qs)) → r.key ≺ key
    below r a =
        let d = o.3.1 in
        let b = subst (λ rs. All (λ s. r.key ≺ s.key) (rs ++ all_records qs)) d.whole a in
        reach r (subst (λ x. r.key ≺ x) d.indexed b.0) l

module _ (key : Bytes) (bound : ℕ) where
  unseen_above : (rs : List Record) → All (λ s. key ≺ s.key) rs → newest key bound rs ≡ none
  unseen_above rs a = newest-none key bound rs (All-map rs (λ s. not_seen_lt key bound s) a)

  unseen_below : (rs : List Record) → All (λ s. s.key ≺ key) rs → newest key bound rs ≡ none
  unseen_below rs a = newest-none key bound rs (All-map rs (λ s. not_seen_gt key bound s) a)

  unseen_from :
      (k : Bytes) (rs : List Record)
      → key ≺ k
      → All (λ s. k ≼ s.key) rs
      → newest key bound rs ≡ none
  unseen_from k rs l a = unseen_above rs (All-map rs (λ s m. ≺_≼_trans key k s.key l m) a)

  -- The rest of the table, where the key is that of the first record or above it.
  newest-front :
      (xs ys : List Record)
      → newest key bound ys ≡ none
      → newest key bound (xs ++ ys) ≡ newest key bound xs
  newest-front xs ys e =
      newest-append key bound xs ys ∙ ap (later (newest key bound xs)) e ∙ later-none _

  newest-back :
      (xs ys : List Record)
      → newest key bound xs ≡ none
      → newest key bound (xs ++ ys) ≡ newest key bound ys
  newest-back xs ys e = newest-append key bound xs ys ∙ ap (λ o. later o (newest key bound ys)) e

  block_below :
      (p q : Part) (qs : List Part)
      → Ordered (p ∷ q ∷ qs)
      → (first_key q ≺ key) ⊎ (bytes_ord.cmp (first_key q) key ≡ eq)
      → newest key bound p.records ≡ none
  block_below p q qs o l = unseen_below p.records (block_keys_below key p q qs o l)

  -- The first block whose first key is the key itself has all its versions.
  pub block_of_key :
      (p : Part) (ps : List Part)
      → Ordered (p ∷ ps)
      → bytes_ord.cmp (first_key p) key ≡ eq
      → newest key bound (all_records (p ∷ ps)) ≡ newest key bound p.records
  block_of_key p ps o e = newest-front p.records (all_records ps) (
      unseen_above (all_records ps) (
        subst (λ k. All (λ s. k ≺ s.key) (all_records ps)) (bytes_ord.eq_of_cmp (first_key p) key e)
          (first_below p ps o)))

  -- Of the whole table only that block matters to a read of the key.
  pub newest-landing :
      (p : Part) (ps : List Part)
      → Ordered (p ∷ ps)
      → newest key bound (all_records (p ∷ ps)) ≡ newest key bound (landing key p ps).records
  unfolding landing
  newest-landing p [] o = ap (newest key bound) (append-nil p.records)
  newest-landing p (q ∷ qs) o = elim (cmp_cases (first_key q) key) [
    | inl l ↦
        rw (l, landing)
          (newest-back p.records (all_records (q ∷ qs)) (block_below p q qs o (inl l))
            ∙ newest-landing q qs o.3)
    | inr (inl e) ↦
        rw (e, landing)
          (newest-back p.records (all_records (q ∷ qs)) (block_below p q qs o (inr e))
            ∙ block_of_key q qs o.3 e)
    | inr (inr g) ↦
        rw (g, landing)
          (newest-front p.records (all_records (q ∷ qs))
            (unseen_from (first_key q) _ (gt_iff_lt (first_key q) key g) (from-All q qs o.3)))
  ]

  -- A key below the first key of the table is not in it.
  pub newest_before :
      (p : Part) (ps : List Part)
      → Ordered (p ∷ ps)
      → bytes_ord.cmp (first_key p) key ≡ gt
      → newest key bound (all_records (p ∷ ps)) ≡ none
  newest_before p ps o g =
      unseen_from (first_key p) _ (gt_iff_lt (first_key p) key g) (from-All p ps o)

-- ===== src/Db/Compactions.antt =====
-- A compaction step keeps what every reader at or above the snapshot horizon reads.
use lsm_tree_key_value_stora.Prelude.{
  ℕ, ◌≤◌, ◌<◌, ◌≡◌, refl, ap, sym, ◌∙◌, subst, Bool, true, Option, none, some, List, [], ◌∷◌, ◌++◌,
  All, All-right, Bool-cases, inl, inr, eq_of_==,
}
use lsm_tree_key_value_stora.Errors.{ok}
use lsm_tree_key_value_stora.Bytes.{Bytes}
use lsm_tree_key_value_stora.Record.{Record}
use lsm_tree_key_value_stora.Members.{◌∈◌, concat}
use lsm_tree_key_value_stora.Visible.{newest, value_of, IsRun}
use lsm_tree_key_value_stora.Visible.Members.{Unique}
use lsm_tree_key_value_stora.Compaction.{compact, collect_all}
use lsm_tree_key_value_stora.Compaction.Round.{Ascending}
use lsm_tree_key_value_stora.Compaction.Newest.{compact_sound, compact-newest, compact-value}
use lsm_tree_key_value_stora.Compaction.Repeats.{NoRepeats}
use lsm_tree_key_value_stora.Compaction.Strict.{compact-IsRun}
use lsm_tree_key_value_stora.MemTable
use lsm_tree_key_value_stora.Files.{BufAppend}
use lsm_tree_key_value_stora.SsTable.Blocks.{Part, all_records, Ordered}
use lsm_tree_key_value_stora.SsTable.Contents.{iter_all-eq-records}
use lsm_tree_key_value_stora.Db.{Crates, SsTable, DbInner}
use lsm_tree_key_value_stora.Db.Compact.{read_run, same_first}
use lsm_tree_key_value_stora.Db.Contents.{
  Holds, in_tables, Layered, in_frozen, contents, IsValid, prefer,
}
use lsm_tree_key_value_stora.Db.Reads.{newest_in_layers}
use lsm_tree_key_value_stora.Db.Merged.{
  PartOf, append-PartOf, Before-part, All-part, merged-PartOf, merged-Layered, newest_before_merge,
  newest_after_merge, Ordered-IsRun, run-Ascending, layers-Unique, layers-NoRepeats, Layered-append,
}
use lsm_tree_key_value_stora.Db.Splice.{DistinctIds, Around}

pub Holds-split :
    (c : Crates) (xs ys : List SsTable) (pss : List (List Part))
    → Holds c (xs ++ ys) pss
    → (ps qs : List (List Part)) × (pss ≡ ps ++ qs) × Holds c xs ps × Holds c ys qs
Holds-split c [] ys pss h = ([], pss, refl, tt, h)
Holds-split c (x ∷ xs) ys [] h = absurd h
Holds-split c (x ∷ xs) ys (p ∷ pss) h =
    let (ps, qs, e, a, b) = Holds-split c xs ys pss h.1 in (p ∷ ps, qs, ap (◌∷◌ p) e, (h.0, a), b)

pub Holds-join :
    (c : Crates) (xs ys : List SsTable) (ps qs : List (List Part))
    → Holds c xs ps
    → Holds c ys qs
    → Holds c (xs ++ ys) (ps ++ qs)
Holds-join c [] ys [] qs a b = b
Holds-join c [] ys (p ∷ ps) qs a b = absurd a
Holds-join c (x ∷ xs) ys [] qs a b = absurd a
Holds-join c (x ∷ xs) ys (p ∷ ps) qs a b = (a.0, Holds-join c xs ys ps qs a.1 b)

-- The records of each table.
abbrev pub runs : List (List Part) → List (List Record)
runs [] = []
runs (ps ∷ pss) = all_records ps ∷ runs pss

concat-runs : (pss : List (List Part)) → concat (runs pss) ≡ in_tables pss
concat-runs [] = refl
concat-runs (ps ∷ pss) = ap (λ rs. all_records ps ++ rs) (concat-runs pss)

pub Holds-Ordered :
    (c : Crates) (ts : List SsTable) (pss : List (List Part)) → Holds c ts pss → All Ordered pss
Holds-Ordered c [] [] h = tt
Holds-Ordered c [] (ps ∷ pss) h = absurd h
Holds-Ordered c (t ∷ ts) [] h = absurd h
Holds-Ordered c (t ∷ ts) (ps ∷ pss) h = (h.0.ordered, Holds-Ordered c ts pss h.1)

runs-Ascending : (pss : List (List Part)) → All Ordered pss → All Ascending (runs pss)
runs-Ascending [] o = tt
runs-Ascending (ps ∷ pss) o =
    (run-Ascending (all_records ps) (Ordered-IsRun ps o.0), runs-Ascending pss o.1)

-- The whole reads of a compaction succeed.
pub collect_all-runs :
    (c : Crates) (ts : List SsTable) (pss : List (List Part))
    → Holds c ts pss
    → collect_all (read_run c ts) ≡ ok (runs pss)
unfolding collect_all
collect_all-runs c [] [] h = refl
collect_all-runs c [] (ps ∷ pss) h = absurd h
collect_all-runs c (t ∷ ts) [] h = absurd h
collect_all-runs c (t ∷ ts) (ps ∷ pss) h =
    rw ((iter_all-eq-records c.lz4 c.seeded ps t.reader h.0).0, collect_all-runs c ts pss h.1)

-- What a merge of neighbouring tables gives is a run.
pub merged-IsRun :
    (pre run post : List (List Part)) (drop_tombstones : Bool) (horizon : ℕ)
    → All Ordered run
    → Layered (pre ++ (run ++ post))
    → IsRun (compact (runs run) drop_tombstones horizon)
merged-IsRun pre run post drop_tombstones horizon ordered l =
    let l' = (Layered-append run post (Layered-append pre (run ++ post) l).1).0 in
    let e = sym (concat-runs run) in
    compact-IsRun (runs run) drop_tombstones horizon (runs-Ascending run ordered)
      (subst NoRepeats e (layers-NoRepeats run ordered l'))
      (subst Unique e (layers-Unique run ordered l'))

prefer-none : (o : Option Record) → prefer o none ≡ o
prefer-none none = refl
prefer-none (some r) = refl

-- The value read depends on the middle of the tables only through what is behind it.
value_under :
    (a f p m n q : Option Record)
    → value_of (prefer m q) ≡ value_of (prefer n q)
    → value_of (prefer a (prefer f (prefer (prefer p m) q)))
      ≡ value_of (prefer a (prefer f (prefer (prefer p n) q)))
value_under (some r) f p m n q e = refl
value_under none (some r) p m n q e = refl
value_under none none (some r) m n q e = refl
value_under none none none m n q e = e

-- Tombstones are dropped only where the run starts the live set.
pub dropped_first :
    (tables run : List SsTable) (s : Around tables run)
    → DistinctIds tables
    → same_first run tables ≡ true
    → s.pre ≡ []
dropped_first tables run s d h =
    oldest s.pre run s.post (subst DistinctIds s.whole d)
      (subst (λ ts. same_first run ts ≡ true) s.whole h)
  where
    oldest :
        (pre run post : List SsTable)
        → DistinctIds (pre ++ (run ++ post))
        → same_first run (pre ++ (run ++ post)) ≡ true
        → pre ≡ []
    oldest [] run post d h = refl
    oldest (t ∷ pre) [] post d h = absurd (cc h)
    oldest (t ∷ pre) (r ∷ run) post d h =
        absurd ((All-right _ pre (r ∷ (run ++ post)) d.0).0 (sym (eq_of_== r.id t.id h)))

module _ (pre run post : List (List Part)) (m : List Part) (drop_tombstones : Bool) (horizon : ℕ)
    (same : all_records m ≡ compact (runs run) drop_tombstones horizon)
    (bottom : drop_tombstones ≡ true → pre ≡ []) (ordered : All Ordered run)
    (l : Layered (pre ++ (run ++ post))) where
  ascending : All Ascending (runs run)
  ascending = runs-Ascending run ordered

  unique : Unique (concat (runs run))
  unique =
      subst Unique (sym (concat-runs run)) (
        layers-Unique run ordered
          (Layered-append run post (Layered-append pre (run ++ post) l).1).0)

  part : PartOf (all_records m) (in_tables run)
  part x k =
      subst (λ rs. x ∈ rs) (concat-runs run)
        (compact_sound (runs run) ascending drop_tombstones horizon x (subst (λ rs. x ∈ rs) same k))

  module _ (key : Bytes) (bound : ℕ) (h : horizon ≤ bound) where
    abbrev seen_in : List Record → Option Record
    seen_in rs = newest key bound rs

    merged_value :
        value_of (prefer (seen_in (all_records m)) (seen_in (in_tables pre)))
        ≡ value_of (prefer (seen_in (in_tables run)) (seen_in (in_tables pre)))
    merged_value = elim (Bool-cases drop_tombstones) [
      | inl e ↦
          let n : seen_in (in_tables pre) ≡ none =
            ap (λ ps. seen_in (in_tables ps)) (bottom e) ∙ unfold newest in refl in
          let v = compact-value (runs run) ascending unique horizon key bound h drop_tombstones in
          ap (λ o. value_of (prefer (seen_in (all_records m)) o)) n
          ∙ ap value_of (prefer-none (seen_in (all_records m)))
          ∙ ap (λ rs. value_of (seen_in rs)) same
          ∙ v
          ∙ ap (λ rs. value_of (seen_in rs)) (concat-runs run)
          ∙ ap value_of (sym (prefer-none (seen_in (in_tables run))))
          ∙ ap (λ o. value_of (prefer (seen_in (in_tables run)) o)) (sym n)
      | inr e ↦
          let n = compact-newest (runs run) ascending unique horizon key bound h in
          ap (λ o. value_of (prefer o (seen_in (in_tables pre))))
            (ap seen_in (same ∙ ap (λ d. compact (runs run) d horizon) e)
              ∙ n
              ∙ ap seen_in (concat-runs run))
    ]

  module _ (c : Crates) (db : DbInner) (v : IsValid c (pre ++ (run ++ post)) db) (b : BufAppend)
      (ts : List SsTable) (holds : Holds c ts (pre ++ (m ∷ post))) where
    abbrev pub compacted : DbInner
    compacted = record db { manifest = b; sstables = ts }

    fewer : PartOf (in_tables (pre ++ (m ∷ post))) (in_tables (pre ++ (run ++ post)))
    fewer = merged-PartOf pre run post m part

    fewer_old :
        PartOf
          (in_tables (pre ++ (m ∷ post)) ++ in_frozen db.frozen)
          (in_tables (pre ++ (run ++ post)) ++ in_frozen db.frozen)
    fewer_old = append-PartOf _ _ (in_frozen db.frozen) (in_frozen db.frozen) fewer (λ x k. k)

    pub compacted-IsValid : IsValid c (pre ++ (m ∷ post)) compacted
    compacted-IsValid = record {
      tables = holds;
      active_valid = v.active_valid;
      frozen_valid = v.frozen_valid;
      layered = merged-Layered pre run post m part l;
      frozen_after = Before-part _ _ (in_frozen db.frozen) fewer v.frozen_after;
      active_after = Before-part _ _ (MemTable.iter db.active) fewer_old v.active_after;
      seq_below =
          All-part (λ r. r.seq < db.next_seq) _ _
            (append-PartOf _ _ (in_frozen db.frozen ++ MemTable.iter db.active)
              (in_frozen db.frozen ++ MemTable.iter db.active) fewer (λ x k. k))
            v.seq_below;
      seq_fits = v.seq_fits;
    }

    pub compacted_value :
        (key : Bytes) (bound : ℕ)
        → horizon ≤ bound
        → value_of (newest key bound (contents (pre ++ (m ∷ post)) compacted))
          ≡ value_of (newest key bound (contents (pre ++ (run ++ post)) db))
    compacted_value key bound h =
        ap value_of (
          newest_in_layers c key bound (pre ++ (m ∷ post)) compacted compacted-IsValid
          ∙ ap layers (newest_after_merge pre run post m part l key bound))
        ∙ value_under (newest key bound (MemTable.iter db.active))
            (newest key bound (in_frozen db.frozen)) (newest key bound (in_tables post)) _ _
            (newest key bound (in_tables pre)) (merged_value key bound h)
        ∙ ap value_of (
            ap layers (sym (newest_before_merge pre run post m part l key bound))
            ∙ sym (newest_in_layers c key bound (pre ++ (run ++ post)) db v))
      where
        layers : Option Record → Option Record
        layers o =
            prefer (newest key bound (MemTable.iter db.active))
              (prefer (newest key bound (in_frozen db.frozen)) o)

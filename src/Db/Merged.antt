-- ===== src/Db/Merged.antt =====
-- The versions of the tables where a run of them is replaced by a table that has some of the run's
-- versions.
use lsm_tree_key_value_stora.Prelude.{
  ℕ, ◌<◌, ◌≡◌, refl, ap, sym, ◌∙◌, subst, subst₂, List, [], ◌∷◌, ◌++◌, arith, All, All-append,
  All-right, inl, inr,
}
use lsm_tree_key_value_stora.Order.{
  ◌≺◌, ◌≼◌, bytes_ord, version_ord, pair_ord, rev_ord, nat_ord, lt_irrefl, ≼_of_≺, ≼_refl,
}
use lsm_tree_key_value_stora.Bytes.{Bytes}
use lsm_tree_key_value_stora.Record.{Record}
use lsm_tree_key_value_stora.Members.{
  ◌∈◌, All-at, All-of, ∈-append_left, ∈-append_right, ∈-append_cases,
}
use lsm_tree_key_value_stora.Visible.{newest, IsRun, ◌⊲◌}
use lsm_tree_key_value_stora.Visible.Members.{Unique}
use lsm_tree_key_value_stora.Visible.Runs.{⊲_cases, All-map}
use lsm_tree_key_value_stora.Compaction.Round.{Ascending}
use lsm_tree_key_value_stora.Compaction.Repeats.{NoRepeats, NoRepeats-append}
use lsm_tree_key_value_stora.SsTable.Blocks.{Part, all_records, Ordered}
use lsm_tree_key_value_stora.Db.Contents.{in_tables, Before, Layered, prefer, newest-Before}
use lsm_tree_key_value_stora.Db.Flushes.{in_tables-append}

-- `Before` by members.
pub Before-at :
    (xs ys : List Record) (x y : Record) → Before xs ys → x ∈ xs → y ∈ ys → x.seq < y.seq
Before-at xs ys x y b k l = All-at _ y ys (All-at _ x xs b k) l

pub Before-of :
    (xs ys : List Record) → ((x y : Record) → x ∈ xs → y ∈ ys → x.seq < y.seq) → Before xs ys
Before-of xs ys f = All-of _ xs (λ x k. All-of _ ys (λ y l. f x y k l))

abbrev pub PartOf : List Record → List Record → Type 0
PartOf xs ys = (x : Record) → x ∈ xs → x ∈ ys

pub Before-part : (xs xs' ys : List Record) → PartOf xs' xs → Before xs ys → Before xs' ys
Before-part xs xs' ys p b = Before-of xs' ys (λ x y k l. Before-at xs ys x y b (p x k) l)

pub All-part {κ} :
    (P : Record → Type κ) (xs xs' : List Record) → PartOf xs' xs → All P xs → All P xs'
All-part P xs xs' p a = All-of P xs' (λ x k. All-at P x xs a (p x k))

pub append-PartOf :
    (xs xs' ys ys' : List Record) → PartOf xs' xs → PartOf ys' ys → PartOf (xs' ++ ys') (xs ++ ys)
append-PartOf xs xs' ys ys' p q x k = elim (∈-append_cases x xs' ys' k) [
  | inl l ↦ ∈-append_left x xs ys (p x l)
  | inr r ↦ ∈-append_right x xs ys (q x r)
]

pub Layered-append :
    (pss qss : List (List Part))
    → Layered (pss ++ qss)
    → Layered pss × Layered qss × Before (in_tables pss) (in_tables qss)
Layered-append [] qss l = (tt, l, tt)
Layered-append (ps ∷ pss) qss l =
    let (a, b, d) = Layered-append pss qss l.1 in
    let e = subst (Before (all_records ps)) (in_tables-append pss qss) l.0 in
    (
      (
        Before-of (all_records ps) (in_tables pss) (λ x y k m.
            Before-at (all_records ps) _ x y e k
              (∈-append_left y (in_tables pss) (in_tables qss) m)),
        a,
      ),
      b,
      All-append _ (all_records ps) (in_tables pss)
          (Before-of (all_records ps) (in_tables qss) (λ x y k m.
            Before-at (all_records ps) _ x y e k
              (∈-append_right y (in_tables pss) (in_tables qss) m)))
          d,
    )

pub append-Layered :
    (pss qss : List (List Part))
    → Layered pss
    → Layered qss
    → Before (in_tables pss) (in_tables qss)
    → Layered (pss ++ qss)
append-Layered [] qss a b d = b
append-Layered (ps ∷ pss) qss a b d = (
  subst (Before (all_records ps)) (sym (in_tables-append pss qss)) (
      Before-of (all_records ps) (in_tables pss ++ in_tables qss) (λ x y k m.
        elim (∈-append_cases y (in_tables pss) (in_tables qss) m) [
          | inl n ↦ Before-at (all_records ps) (in_tables pss) x y a.0 k n
          | inr n ↦
              Before-at (all_records ps ++ in_tables pss) (in_tables qss) x y d
                (∈-append_left x (all_records ps) (in_tables pss) k) n
        ])),
  append-Layered pss qss a.1 b (All-right _ (all_records ps) (in_tables pss) d),
)

module _ (pre run post : List (List Part)) (m : List Part)
    (part : PartOf (all_records m) (in_tables run)) where
  abbrev pub before : List (List Part)
  before = pre ++ (run ++ post)

  abbrev pub merged : List (List Part)
  merged = pre ++ (m ∷ post)

  in_before : in_tables before ≡ in_tables pre ++ (in_tables run ++ in_tables post)
  in_before =
      in_tables-append pre (run ++ post)
      ∙ ap (λ rs. in_tables pre ++ rs) (in_tables-append run post)

  in_merged : in_tables merged ≡ in_tables pre ++ (all_records m ++ in_tables post)
  in_merged = in_tables-append pre (m ∷ post)

  pub merged-PartOf : PartOf (in_tables merged) (in_tables before)
  merged-PartOf = subst₂ PartOf (sym in_merged) (sym in_before) (
      append-PartOf (in_tables pre) (in_tables pre) _ _ (λ x k. k)
        (append-PartOf (in_tables run) (all_records m) (in_tables post) (in_tables post) part
          (λ x k. k)))

  module _ (l : Layered before) where
    abbrev cut :
        Layered pre × Layered (run ++ post) × Before (in_tables pre) (in_tables (run ++ post))
    cut = Layered-append pre (run ++ post) l

    abbrev cut_again : Layered run × Layered post × Before (in_tables run) (in_tables post)
    cut_again = Layered-append run post cut.1

    merged_before_post : Before (all_records m) (in_tables post)
    merged_before_post =
        Before-part (in_tables run) (all_records m) (in_tables post) part cut_again.2

    pre_before : Before (in_tables pre) (in_tables run ++ in_tables post)
    pre_before = subst (Before (in_tables pre)) (in_tables-append run post) cut.2

    pre_before_merged : Before (in_tables pre) (all_records m ++ in_tables post)
    pre_before_merged = Before-of (in_tables pre) _ (λ x y k n.
        Before-at (in_tables pre) _ x y pre_before k (
          append-PartOf (in_tables run) (all_records m) (in_tables post) (in_tables post) part
            (λ x k. k) y n))

    pub merged-Layered : Layered merged
    merged-Layered =
        append-Layered pre (m ∷ post) cut.0 (merged_before_post, cut_again.1) pre_before_merged

    module _ (key : Bytes) (bound : ℕ) where
      pub newest_before_merge :
          newest key bound (in_tables before)
          ≡ prefer
              (prefer (newest key bound (in_tables post)) (newest key bound (in_tables run)))
              (newest key bound (in_tables pre))
      newest_before_merge =
          ap (newest key bound) in_before
          ∙ newest-Before key bound (in_tables pre) _ pre_before
          ∙ ap (λ o. prefer o (newest key bound (in_tables pre)))
              (newest-Before key bound (in_tables run) (in_tables post) cut_again.2)

      pub newest_after_merge :
          newest key bound (in_tables merged)
          ≡ prefer
              (prefer (newest key bound (in_tables post)) (newest key bound (all_records m)))
              (newest key bound (in_tables pre))
      newest_after_merge =
          ap (newest key bound) in_merged
          ∙ newest-Before key bound (in_tables pre) _ pre_before_merged
          ∙ ap (λ o. prefer o (newest key bound (in_tables pre)))
              (newest-Before key bound (all_records m) (in_tables post) merged_before_post)

-- Nothing behind a version in a run has its key and its sequence number.
behind : (x r : Record) → x ⊲ r → x.key ≡ r.key → ¬ (x.seq ≡ r.seq)
behind x r l e f = elim (⊲_cases x r l) [
  | inl k ↦ lt_irrefl r.key (subst (λ k. k ≺ r.key) e k)
  | inr (_, k) ↦ omega (arith, f)
]

run-Unique : (rs : List Record) → IsRun rs → Unique rs
run-Unique [] h r s k l e f = absurd k
run-Unique (x ∷ rs) h r s (inl p) (inl q) e f = p ∙ sym q
run-Unique (x ∷ rs) h r s (inl p) (inr l) e f =
    absurd
      (behind x s (All-at _ s rs h.0 l) (ap (λ t. t.key) (sym p) ∙ e) (ap (λ t. t.seq) (sym p) ∙ f))
run-Unique (x ∷ rs) h r s (inr k) (inl q) e f = absurd (
    behind x r (All-at _ r rs h.0 k) (ap (λ t. t.key) (sym q) ∙ sym e)
      (ap (λ t. t.seq) (sym q) ∙ sym f))
run-Unique (x ∷ rs) h r s (inr k) (inr l) e f = run-Unique rs h.1 r s k l e f

before_of_keys : (r s : Record) → r.key ≺ s.key → r ⊲ s
unfolding pair_ord rev_ord nat_ord
before_of_keys r s l = rw l

append-IsRun :
    (xs ys : List Record)
    → IsRun xs
    → IsRun ys
    → All (λ r. All (λ s. r.key ≺ s.key) ys) xs
    → IsRun (xs ++ ys)
append-IsRun [] ys h k a = k
append-IsRun (x ∷ xs) ys h k a = (
  All-append _ xs ys h.0 (All-map ys (λ s l. before_of_keys x s l) a.0),
  append-IsRun xs ys h.1 k a.1,
)

pub Ordered-IsRun : (ps : List Part) → Ordered ps → IsRun (all_records ps)
Ordered-IsRun [] o = tt
Ordered-IsRun (p ∷ ps) o = append-IsRun p.records (all_records ps) o.0 (Ordered-IsRun ps o.3) o.2

pub run-Ascending : (rs : List Record) → IsRun rs → Ascending rs
run-Ascending [] h = tt
run-Ascending (r ∷ rs) h = (
  All-map rs
      (λ s l. elim (⊲_cases r s l) [
        | inl k ↦ ≼_of_≺ r.key s.key k
        | inr (e, _) ↦ subst (λ k. r.key ≼ k) e (≼_refl r.key)
      ])
      h.0,
  run-Ascending rs h.1,
)

-- Layered tables hold no two versions of one key and one sequence number.
pub layers-Unique :
    (pss : List (List Part)) → All Ordered pss → Layered pss → Unique (in_tables pss)
layers-Unique [] o l r s k m e f = absurd k
layers-Unique (ps ∷ pss) o l r s k m e f =
    elim (∈-append_cases r (all_records ps) (in_tables pss) k) [
      | inl k ↦ elim (∈-append_cases s (all_records ps) (in_tables pss) m) [
        | inl m ↦ run-Unique (all_records ps) (Ordered-IsRun ps o.0) r s k m e f
        | inr m ↦
            let n = Before-at (all_records ps) (in_tables pss) r s l.0 k m in absurd (omega arith)
      ]
      | inr k ↦ elim (∈-append_cases s (all_records ps) (in_tables pss) m) [
        | inl m ↦
            let n = Before-at (all_records ps) (in_tables pss) s r l.0 m k in absurd (omega arith)
        | inr m ↦ layers-Unique pss o.1 l.1 r s k m e f
      ]
    ]

run-NoRepeats : (rs : List Record) → IsRun rs → NoRepeats rs
run-NoRepeats [] h = tt
run-NoRepeats (r ∷ rs) h = (λ k. behind r r (All-at _ r rs h.0 k) refl refl, run-NoRepeats rs h.1)

-- and no version twice.
pub layers-NoRepeats :
    (pss : List (List Part)) → All Ordered pss → Layered pss → NoRepeats (in_tables pss)
layers-NoRepeats [] o l = tt
layers-NoRepeats (ps ∷ pss) o l =
    NoRepeats-append (all_records ps) (in_tables pss)
      (run-NoRepeats (all_records ps) (Ordered-IsRun ps o.0)) (layers-NoRepeats pss o.1 l.1)
      (λ x k m.
        let n = Before-at (all_records ps) (in_tables pss) x x l.0 k m in absurd (omega arith))

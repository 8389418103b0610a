-- ===== src/Db/Splice.antt =====
-- The place of a run in the live set, and the live set with the run replaced.
use lsm_tree_key_value_stora.Prelude.{
  ℕ, ◌+◌, ◌-◌, ◌≤◌, ◌<◌, ◌≡◌, ◌≢◌, refl, ap, ap₂, sym, ◌∙◌, subst, some, List, [], ◌∷◌, ◌++◌, arith,
  length, take, drop, ◌==◌, All, All-append, All-left, All-right, Bool-cases, inl, inr, eq_of_==,
  ==_refl, append_assoc, length-append, length-take, length-drop, take-append-drop, take-length,
  drop-length,
}
use lsm_tree_key_value_stora.Errors.{Result, ok}
use lsm_tree_key_value_stora.Db.{SsTable, DbInner}
use lsm_tree_key_value_stora.Db.Compact.{range_of, last_of, position, spliced, splice_at, splice}

abbrev pub DistinctIds : List SsTable → Type 0
DistinctIds [] = Unit
DistinctIds (t ∷ ts) = All (λ u. t.id ≢ u.id) ts × DistinctIds ts

-- The live set around a run, whose last table is named.
pub record Around (tables run : List SsTable) : Type 0 where
  pub pre : List SsTable
  pub init : List SsTable
  pub last : SsTable
  pub post : List SsTable
  pub whole : tables ≡ pre ++ (run ++ post)
  pub ended : run ≡ init ++ (last ∷ [])

last_view :
    (t : SsTable) (ts : List SsTable)
    → (init : List SsTable) × (last : SsTable) × (t ∷ ts ≡ init ++ (last ∷ []))
last_view t [] = ([], t, refl)
last_view t (u ∷ ts) = let (init, last, e) = last_view u ts in (t ∷ init, last, ap (◌∷◌ t) e)

ended_view :
    (ts : List SsTable)
    → 0 < length ts
    → (init : List SsTable) × (last : SsTable) × (ts ≡ init ++ (last ∷ []))
ended_view [] h = absurd (omega arith)
ended_view (t ∷ ts) h = last_view t ts

pub range_of-Around :
    (a b : ℕ) (tables : List SsTable)
    → a < b
    → b ≤ length tables
    → Around tables (range_of (a, b) tables)
range_of-Around a b tables h k =
    let l = length-drop a tables in
    let m = length-take (b - a) (drop a tables) in
    let (init, last, e) = ended_view (range_of (a, b) tables) (omega (arith, l, m)) in
    record {
      pre = take a tables;
      init = init;
      last = last;
      post = drop (b - a) (drop a tables);
      whole =
          sym (take-append-drop a tables)
          ∙ ap (λ ts. take a tables ++ ts) (sym (take-append-drop (b - a) (drop a tables)));
      ended = e;
    }

pub last_of_ended :
    (init : List SsTable) (last : SsTable) → last_of (init ++ (last ∷ [])) ≡ some last
last_of_ended [] last = refl
last_of_ended (t ∷ []) last = refl
last_of_ended (t ∷ u ∷ init) last = last_of_ended (u ∷ init) last

position_lem :
    (front : List SsTable) (last : SsTable) (post : List SsTable)
    → All (λ u. u.id ≢ last.id) front
    → position last.id (front ++ (last ∷ post)) ≡ some (length front)
unfolding position
position_lem [] last post a = rw (==_refl last.id)
position_lem (t ∷ front) last post a = elim (Bool-cases (t.id == last.id)) [
  | inl e ↦ absurd (a.0 (eq_of_== t.id last.id e))
  | inr e ↦ rw (e, position_lem front last post a.1)
]

distinct_front :
    (front : List SsTable) (last : SsTable) (post : List SsTable)
    → DistinctIds (front ++ (last ∷ post))
    → All (λ u. u.id ≢ last.id) front
distinct_front [] last post d = tt
distinct_front (t ∷ front) last post d =
    ((All-right _ front (last ∷ post) d.0).0, distinct_front front last post d.1)

module _ (tables run : List SsTable) (s : Around tables run) (distinct : DistinctIds tables)
    (merged : SsTable) (same : merged.id ≡ s.last.id) where
  front : List SsTable
  front = s.pre ++ s.init

  at_last : tables ≡ front ++ (s.last ∷ s.post)
  unfolding front
  at_last =
      s.whole
      ∙ ap (λ r. s.pre ++ (r ++ s.post)) s.ended
      ∙ ap (λ r. s.pre ++ r) (append_assoc s.init (s.last ∷ []) s.post)
      ∙ sym (append_assoc s.pre s.init (s.last ∷ s.post))

  found : position merged.id tables ≡ some (length front)
  found =
      ap₂ position same at_last
      ∙ position_lem front s.last s.post
          (distinct_front front s.last s.post (subst DistinctIds at_last distinct))

  length-run : length run ≡ length s.init + 1
  length-run = ap length s.ended ∙ length-append s.init (s.last ∷ [])

  -- The splice puts the merged table in the place of the run.
  spliced_lem : spliced tables (length front) (length run) merged ≡ s.pre ++ (merged ∷ s.post)
  unfolding spliced front
  spliced_lem =
      let l = length-append s.pre s.init in
      let cut : length front + 1 - length run ≡ length s.pre = omega (arith, l, length-run) in
      ap₂ (λ xs ys. xs ++ (merged ∷ ys)) (ap₂ take cut s.whole ∙ take-length s.pre (run ++ s.post))
        (ap₂ drop (sym (length-append front (s.last ∷ [])))
            (at_last ∙ sym (append_assoc front (s.last ∷ []) s.post))
          ∙ drop-length (front ++ (s.last ∷ [])) s.post)

  pub splice_lem :
      (db : DbInner)
      → db.sstables ≡ tables
      → splice (length run) merged db ≡ (ok tt, record db { sstables = s.pre ++ (merged ∷ s.post) })
  unfolding splice
  splice_lem db e =
      ap (λ o. splice_at o (length run) merged db) (ap (position merged.id) e ∙ found)
      ∙ ap with_tables (ap (λ ts. spliced ts (length front) (length run) merged) e ∙ spliced_lem)
    where
      with_tables : List SsTable → Result (Unit {0}) × DbInner
      with_tables ts = (ok tt, record db { sstables = ts })

  pub spliced-DistinctIds : DistinctIds (s.pre ++ (merged ∷ s.post))
  spliced-DistinctIds = renamed s.pre s.last s.post (sym same) (
      without s.pre s.init (s.last ∷ s.post) (
        subst DistinctIds
          (s.whole
            ∙ ap (λ r. s.pre ++ (r ++ s.post)) s.ended
            ∙ ap (λ r. s.pre ++ r) (append_assoc s.init (s.last ∷ []) s.post))
          distinct))
    where
      without : (xs ys zs : List SsTable) → DistinctIds (xs ++ (ys ++ zs)) → DistinctIds (xs ++ zs)
      without [] [] zs d = d
      without [] (y ∷ ys) zs d = without [] ys zs d.1
      without (x ∷ xs) ys zs d = (
        All-append _ xs zs (All-left _ xs (ys ++ zs) d.0)
            (All-right _ ys zs (All-right _ xs (ys ++ zs) d.0)),
        without xs ys zs d.1,
      )

      renamed :
          (xs : List SsTable) (t : SsTable) (zs : List SsTable)
          → t.id ≡ merged.id
          → DistinctIds (xs ++ (t ∷ zs))
          → DistinctIds (xs ++ (merged ∷ zs))
      renamed [] t zs e d = (subst (λ i. All (λ u. i ≢ u.id) zs) e d.0, d.1)
      renamed (x ∷ xs) t zs e d =
          let r = All-right _ xs (t ∷ zs) d.0 in
          (
            All-append _ xs (merged ∷ zs) (All-left _ xs (t ∷ zs) d.0)
                (subst (λ i. x.id ≢ i) e r.0, r.1),
            renamed xs t zs e d.1,
          )

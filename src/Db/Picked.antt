-- ===== src/Db/Picked.antt =====
-- The run of tables that a compaction picks.
use lsm_tree_key_value_stora.Prelude.{
  ℕ, zero, suc, ◌+◌, ◌≤◌, ◌<◌, ◌≡◌, refl, ap, sym, ◌∙◌, none, some, List, [], ◌∷◌, ◌++◌, arith,
  length, take, drop, ltb, leb, ◌==◌, All, Bool-cases, inl, inr, eq_of_==, leb→le, append_assoc,
  length-append, take-append-drop,
}
use lsm_tree_key_value_stora.Errors.{Result, ok, err, >>=-eq_ok}
use lsm_tree_key_value_stora.Db.{SsTable}
use lsm_tree_key_value_stora.Db.Disk.{Disk}
use lsm_tree_key_value_stora.Db.Compact.{tiers_of, run_length, find_run, pick_compaction}

-- The positions `a` to `b`, counted from `i`, are a run of one tier, with at least `threshold` members
-- and at least one.
pub record IsRunAt (tiers : List ℕ) (threshold i a b : ℕ) : Type 0 where
  pub pre : List ℕ
  pub run : List ℕ
  pub post : List ℕ
  pub tier : ℕ
  pub whole : tiers ≡ pre ++ (run ++ post)
  pub starts : a ≡ i + length pre
  pub ends : b ≡ a + length run
  pub long_enough : threshold ≤ length run
  pub some_tables : 0 < length run
  pub one_tier : All (λ t. t ≡ tier) run

run_length_lem :
    (tier : ℕ) (tiers : List ℕ)
    → All (λ t. t ≡ tier) (take (run_length tier tiers) tiers)
      × (length (take (run_length tier tiers) tiers) ≡ run_length tier tiers)
unfolding run_length
run_length_lem tier [] = (tt, refl)
run_length_lem tier (t ∷ tiers) =
    let (a, b) = run_length_lem tier tiers in
    elim (Bool-cases (t == tier)) [
      | inl e ↦ rw e ((eq_of_== t tier e, a), ap suc b)
      | inr e ↦ rw e (tt, refl)
    ]

pub find_run-IsRunAt :
    (fuel threshold i : ℕ) (tiers : List ℕ) (a b : ℕ)
    → find_run fuel threshold i tiers ≡ some (a, b)
    → IsRunAt tiers threshold i a b
unfolding find_run
find_run-IsRunAt zero threshold i tiers a b h = absurd (cc h)
find_run-IsRunAt (suc fuel) threshold i [] a b h = absurd (cc h)
find_run-IsRunAt (suc fuel) threshold i (t ∷ tiers) a b h =
    let n = run_length t tiers in
    let (one, l) = run_length_lem t tiers in
    let w = sym (take-append-drop n tiers) in
    elim (Bool-cases (leb threshold (suc n))) [
      | inl e ↦
          let k : some (i, i + suc n) ≡ some (a, b) = rw e at h in
          let ea : i ≡ a = cc k in
          let eb : i + suc n ≡ b = cc k in
          record {
            pre = [];
            run = t ∷ take n tiers;
            post = drop n tiers;
            tier = t;
            whole = ap (◌∷◌ t) w;
            starts = omega (arith, ea);
            ends = omega (arith, ea, eb, l);
            long_enough = omega (arith, leb→le threshold (suc n) e, l);
            some_tables = omega arith;
            one_tier = (refl, one);
          }
      | inr e ↦
          let r = find_run-IsRunAt fuel threshold (i + suc n) (drop n tiers) a b (rw e at h) in
          record {
            pre = t ∷ (take n tiers ++ r.pre);
            run = r.run;
            post = r.post;
            tier = r.tier;
            whole = ap (◌∷◌ t) (
                w
                ∙ ap (λ rest. take n tiers ++ rest) r.whole
                ∙ sym (append_assoc (take n tiers) r.pre (r.run ++ r.post)));
            starts = omega (arith, r.starts, l, length-append (take n tiers) r.pre);
            ends = r.ends;
            long_enough = r.long_enough;
            some_tables = r.some_tables;
            one_tier = r.one_tier;
          }
    ]

length-tiers_of :
    (d : Disk) (ts : List SsTable) (tiers : List ℕ)
    → tiers_of d ts ≡ ok tiers
    → length tiers ≡ length ts
unfolding tiers_of
length-tiers_of d [] tiers h = let e : [] ≡ tiers = cc h in ap length (sym e)
length-tiers_of d (t ∷ ts) tiers h =
    let (len, _, h') = >>=-eq_ok (d.table_size t.id) _ h in
    let (rest, e, k) = >>=-eq_ok (tiers_of d ts) _ h' in
    let l : suc (length rest) ≡ length tiers = ap (λ r. length_of r) k in
    omega (arith, l, length-tiers_of d ts rest e)
  where
    length_of : Result (List ℕ) → ℕ
    length_of (ok l) = length l
    length_of (err x) = 0

-- A compaction is only ever of neighbouring tables whose sizes have one bit width, as many as the
-- threshold asks for or more, and of at least one.
pub pick_compaction-IsRunAt :
    (d : Disk) (tables : List SsTable) (threshold a b : ℕ)
    → pick_compaction d tables threshold ≡ ok (some (a, b))
    → (tiers : List ℕ) × (tiers_of d tables ≡ ok tiers)
      × (length tiers ≡ length tables)
      × IsRunAt tiers threshold 0 a b
unfolding pick_compaction
pick_compaction-IsRunAt d tables threshold a b h =
    elim (Bool-cases (ltb (length tables) threshold)) [
      | inl e ↦ let k : ok none ≡ ok (some (a, b)) = rw e at h in absurd (cc k)
      | inr e ↦
          let (tiers, t, k) = >>=-eq_ok (tiers_of d tables) _ (rw e at h) in
          let f : find_run (length tiers) threshold 0 tiers ≡ some (a, b) = cc k in
          (
            tiers,
            t,
            length-tiers_of d tables tiers t,
            find_run-IsRunAt (length tiers) threshold 0 tiers a b f,
          )
    ]

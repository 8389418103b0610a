-- ===== src/Db/Tiers.antt =====
-- src/db.rs, `pick_compaction`: the sizes of the tables that a compaction picks.
use native.Mathlib.Nat.{pow-suc}
use lsm_tree_key_value_stora.Prelude.{
  ℕ, zero, suc, ◌-◌, ◌*◌, ◌/◌, ◌^◌, ◌≤◌, ◌<◌, ◌≡◌, ap, sym, ◌∙◌, subst, some, List, [], ◌∷◌, ◌++◌,
  arith, length, take, drop, ◌==◌, All, Bool-cases, inl, inr, eq_of_==, length-append,
}
use lsm_tree_key_value_stora.Errors.{ok, >>=-eq_ok}
use lsm_tree_key_value_stora.Db.{SsTable}
use lsm_tree_key_value_stora.Db.Disk.{Disk}
use lsm_tree_key_value_stora.Db.Compact.{bit_width, tiers_of, range_of, pick_compaction}
use lsm_tree_key_value_stora.Db.Picked.{pick_compaction-IsRunAt}

-- The sizes of a tier: zero alone, one alone, two and three, four to seven, and so on.
abbrev pub InBand : ℕ → ℕ → Type 0
InBand zero size = size ≡ 0
InBand (suc w) size = (2 ^ w ≤ size) × (size < 2 ^ suc w)

halved : (w size : ℕ) → InBand w (size / 2) → 0 < size → InBand (suc w) size
halved zero size h pos = (omega (arith, h), omega (arith, h))
halved (suc w) size h pos =
    let e : 2 ^ suc w ≡ 2 * 2 ^ w = omega (arith, pow-suc 2 w) in
    let e' : 2 ^ suc (suc w) ≡ 2 * 2 ^ suc w = omega (arith, pow-suc 2 (suc w)) in
    (omega (arith, h.0, h.1, e, e'), omega (arith, h.0, h.1, e, e'))

pub bit_width-InBand : (fuel size : ℕ) → size < 2 ^ fuel → InBand (bit_width fuel size) size
unfolding bit_width
bit_width-InBand zero size h = omega (arith, h)
bit_width-InBand (suc fuel) size h = elim (Bool-cases (size == 0)) [
  | inl e ↦ rw e (eq_of_== size 0 e)
  | inr e ↦ rw e (
      halved (bit_width fuel (size / 2)) size
        (bit_width-InBand fuel (size / 2) (omega (arith, h, pow-suc 2 fuel))) (ground (arith, e)))
]

module _ (d : Disk) (sized : (id size : ℕ) → d.table_size id ≡ ok size → size < 2 ^ 64) where
  -- The file of the table has a size of this tier.
  abbrev pub HasTier : ℕ → SsTable → Type 0
  HasTier w t = (size : ℕ) × (d.table_size t.id ≡ ok size) × InBand w size

  abbrev Measured : List SsTable → List ℕ → Type 0
  Measured [] [] = Unit
  Measured [] (w ∷ ws) = ⊥
  Measured (t ∷ ts) [] = ⊥
  Measured (t ∷ ts) (w ∷ ws) = HasTier w t × Measured ts ws

  tiers_of-Measured :
      (ts : List SsTable) (tiers : List ℕ) → tiers_of d ts ≡ ok tiers → Measured ts tiers
  unfolding tiers_of
  tiers_of-Measured [] tiers h = let e : [] ≡ tiers = cc h in subst (Measured []) e tt
  tiers_of-Measured (t ∷ ts) tiers h =
      let (size, e, h') = >>=-eq_ok (d.table_size t.id) _ h in
      let (rest, q, k) = >>=-eq_ok (tiers_of d ts) _ h' in
      let same : bit_width 64 size ∷ rest ≡ tiers = cc k in
      subst (Measured (t ∷ ts)) same
        ((size, e, bit_width-InBand 64 size (sized t.id size e)), tiers_of-Measured ts rest q)

  Measured-drop :
      (ts : List SsTable) (ws rest : List ℕ)
      → Measured ts (ws ++ rest)
      → Measured (drop (length ws) ts) rest
  Measured-drop ts [] rest m = m
  Measured-drop [] (w ∷ ws) rest m = absurd m
  Measured-drop (t ∷ ts) (w ∷ ws) rest m = Measured-drop ts ws rest m.1

  Measured-take :
      (tier : ℕ) (ts : List SsTable) (run rest : List ℕ)
      → All (λ w. w ≡ tier) run
      → Measured ts (run ++ rest)
      → All (HasTier tier) (take (length run) ts)
  Measured-take tier ts [] rest a m = tt
  Measured-take tier [] (w ∷ run) rest a m = absurd m
  Measured-take tier (t ∷ ts) (w ∷ run) rest a m =
      (subst (λ x. HasTier x t) a.0 m.0, Measured-take tier ts run rest a.1 m.1)

  -- Where file sizes are below 2^64: what a compaction picks are neighbouring tables, as many as the
  -- threshold asks for or more, and one at least, and the sizes of all of their files are in one tier,
  -- where a tier other than that of size zero is the sizes from a power of two to below the next.
  pub pick_compaction-HasTier :
      (tables : List SsTable) (threshold a b : ℕ)
      → pick_compaction d tables threshold ≡ ok (some (a, b))
      → (a < b)
        × (b ≤ length tables)
        × (threshold ≤ b - a)
        × ((tier : ℕ) × All (HasTier tier) (range_of (a, b) tables))
  pick_compaction-HasTier tables threshold a b h =
      let (tiers, t, l, at) = pick_compaction-IsRunAt d tables threshold a b h in
      let l1 = ap length at.whole in
      let l2 = length-append at.pre (at.run ++ at.post) in
      let l3 = length-append at.run at.post in
      let from : a ≡ length at.pre = omega (arith, at.starts) in
      let many : b - a ≡ length at.run = omega (arith, at.ends) in
      let measured = tiers_of-Measured tables tiers t in
      let behind =
        Measured-drop tables at.pre (at.run ++ at.post)
          (subst (Measured tables) at.whole measured) in
      (
        omega (arith, at.ends, at.some_tables),
        omega (arith, at.ends, at.starts, l, l1, l2, l3),
        omega (arith, at.ends, at.long_enough),
        (
          at.tier,
          subst (All (HasTier at.tier))
              (sym (
                ap (λ n. take n (drop a tables)) many
                ∙ ap (λ n. take (length at.run) (drop n tables)) from))
              (Measured-take at.tier (drop (length at.pre) tables) at.run at.post at.one_tier
                behind),
        ),
      )

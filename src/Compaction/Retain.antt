-- ===== src/Compaction/Retain.antt =====
-- What the retention keeps of the versions of one key.
use lsm_tree_key_value_stora.Prelude.{
  ℕ, ◌≤◌, ◌<◌, ◌≡◌, refl, ap, sym, subst, ◌∙◌, Bool, true, false, ◌||◌, not, List, [], ◌∷◌, arith,
  All, inl, inr, ltb, leb, if◌then◌else◌, Bool-cases, leb→le, ltb→lt,
}
use lsm_tree_key_value_stora.Record.{Record}
use lsm_tree_key_value_stora.Members.{◌∈◌, All-of, All-at}
use lsm_tree_key_value_stora.Compaction.{retain}
use lsm_tree_key_value_stora.Compaction.Sort.{Falling}

module _ (min_snapshot_seq : ℕ) where
  pub retain_cases :
      (P : List Record → Type 0) (taken : Bool) (r : Record) (rs : List Record)
      → (min_snapshot_seq ≤ r.seq → P (r ∷ retain min_snapshot_seq taken rs))
      → (r.seq < min_snapshot_seq → taken ≡ false → P (r ∷ retain min_snapshot_seq true rs))
      → (r.seq < min_snapshot_seq → taken ≡ true → P (retain min_snapshot_seq true rs))
      → P (retain min_snapshot_seq taken (r ∷ rs))
  unfolding retain
  retain_cases P taken r rs f g h = elim (Bool-cases (leb min_snapshot_seq r.seq)) [
    | inl e ↦
        let e' : ltb r.seq min_snapshot_seq ≡ false = ground arith in
        rw (e, e')
          (subst (λ t. P (r ∷ retain min_snapshot_seq t rs)) (sym (or-false taken))
            (f (leb→le min_snapshot_seq r.seq e)))
    | inr e ↦
        let e' : ltb r.seq min_snapshot_seq ≡ true = ground arith in
        let l : r.seq < min_snapshot_seq = ltb→lt r.seq min_snapshot_seq e' in
        rw (e, e') (below taken (g l) (h l))
  ]
    where
      or-false : (t : Bool) → (t || false) ≡ t
      or-false true = refl
      or-false false = refl

      below :
          (t : Bool)
          → (t ≡ false → P (r ∷ retain min_snapshot_seq true rs))
          → (t ≡ true → P (retain min_snapshot_seq true rs))
          → P (
              if not t
              then r ∷ retain min_snapshot_seq (t || true) rs
              else retain min_snapshot_seq (t || true) rs)
      below true g' h' = h' refl
      below false g' h' = g' refl

  pub retain_sound :
      (taken : Bool) (rs : List Record) (x : Record) → x ∈ retain min_snapshot_seq taken rs → x ∈ rs
  unfolding retain
  retain_sound taken [] x = λ k. k
  retain_sound taken (r ∷ rs) x =
      retain_cases (λ l. x ∈ l → x ∈ (r ∷ rs)) taken r rs
        (λ _. elim [ inl e ↦ inl e | inr k ↦ inr (retain_sound taken rs x k) ])
        (λ _ _. elim [ inl e ↦ inl e | inr k ↦ inr (retain_sound true rs x k) ])
        (λ _ _ k. inr (retain_sound true rs x k))

  pub retain-Falling :
      (taken : Bool) (rs : List Record) → Falling rs → Falling (retain min_snapshot_seq taken rs)
  unfolding retain
  retain-Falling taken [] f = tt
  retain-Falling taken (r ∷ rs) f =
      retain_cases Falling taken r rs (λ _. (part taken, retain-Falling taken rs f.1))
        (λ _ _. (part true, retain-Falling true rs f.1)) (λ _ _. retain-Falling true rs f.1)
    where
      part : (t : Bool) → All (λ s. s.seq ≤ r.seq) (retain min_snapshot_seq t rs)
      part t =
          All-of (λ s. s.seq ≤ r.seq) (retain min_snapshot_seq t rs)
            (λ s k. All-at (λ u. u.seq ≤ r.seq) s rs f.0 (retain_sound t rs s k))

  -- Nothing at or above the horizon is dropped.
  retain-above :
      (taken : Bool) (rs : List Record) (x : Record)
      → x ∈ rs
      → min_snapshot_seq ≤ x.seq
      → x ∈ retain min_snapshot_seq taken rs
  unfolding retain
  retain-above taken [] x k l = k
  retain-above taken (r ∷ rs) x (inl e) l =
      retain_cases (λ l. x ∈ l) taken r rs (λ _. inl e) (λ _ _. inl e)
        (λ m _. absurd (omega (arith, l, m, ap (λ y. y.seq) e)))
  retain-above taken (r ∷ rs) x (inr k) l =
      retain_cases (λ l. x ∈ l) taken r rs (λ _. inr (retain-above taken rs x k l))
        (λ _ _. inr (retain-above true rs x k l)) (λ _ _. retain-above true rs x k l)

  -- For each version and each bound above the horizon and the version, a version that is no older
  -- and is below the bound is kept.
  pub retain_complete :
      (bound : ℕ) (rs : List Record) (x : Record)
      → min_snapshot_seq ≤ bound
      → Falling rs
      → x ∈ rs
      → x.seq < bound
      → (s : Record) × (s ∈ retain min_snapshot_seq false rs) × (x.seq ≤ s.seq) × (s.seq < bound)
  unfolding retain
  retain_complete bound [] x m f k l = absurd k
  retain_complete bound (r ∷ rs) x m f (inl e) l = (
    r,
    retain_cases (λ l. r ∈ l) false r rs (λ _. inl refl) (λ _ _. inl refl) (λ _ e. cc),
    rw e (omega arith),
    rw (← e) l,
  )
  retain_complete bound (r ∷ rs) x m f (inr k) l =
      retain_cases (λ l. (s : Record) × (s ∈ l) × (x.seq ≤ s.seq) × (s.seq < bound)) false r rs
        (λ _. let (s, ks, a, b) = retain_complete bound rs x m f.1 k l in (s, inr ks, a, b))
        (λ n _. (r, inl refl, All-at (λ u. u.seq ≤ r.seq) x rs f.0 k, omega (arith, n, m)))
        (λ _ e. cc)

  above_after_taken :
      (rs : List Record) (x : Record)
      → x ∈ retain min_snapshot_seq true rs
      → min_snapshot_seq ≤ x.seq
  unfolding retain
  above_after_taken [] x = λ k. absurd k
  above_after_taken (r ∷ rs) x =
      retain_cases (λ l. x ∈ l → min_snapshot_seq ≤ x.seq) true r rs
        (λ m. elim [ inl e ↦ rw e m | inr k ↦ above_after_taken rs x k ]) (λ _ e. cc)
        (λ _ _ k. above_after_taken rs x k)

  -- At most one version below the horizon is kept.
  pub retain-one_below :
      (rs : List Record) (x y : Record)
      → x.seq < min_snapshot_seq
      → y.seq < min_snapshot_seq
      → x ∈ retain min_snapshot_seq false rs
      → y ∈ retain min_snapshot_seq false rs
      → x ≡ y
  unfolding retain
  retain-one_below [] x y lx ly = λ k. absurd k
  retain-one_below (r ∷ rs) x y lx ly =
      retain_cases (λ l. x ∈ l → y ∈ l → x ≡ y) false r rs
        (λ m kx ky. retain-one_below rs x y lx ly (behind x lx m kx) (behind y ly m ky))
        (λ _ _ kx ky. only x lx kx ∙ sym (only y ly ky)) (λ _ e. cc)
    where
      behind :
          (z : Record)
          → z.seq < min_snapshot_seq
          → min_snapshot_seq ≤ r.seq
          → z ∈ (r ∷ retain min_snapshot_seq false rs)
          → z ∈ retain min_snapshot_seq false rs
      behind z lz m (inl e) = absurd (omega (arith, lz, m, ap (λ u. u.seq) e))
      behind z lz m (inr k) = k

      only :
          (z : Record)
          → z.seq < min_snapshot_seq
          → z ∈ (r ∷ retain min_snapshot_seq true rs)
          → z ≡ r
      only z lz (inl e) = e
      only z lz (inr k) = absurd (let u = above_after_taken rs z k in omega (arith, lz, u))

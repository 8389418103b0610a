-- ===== src/Members.antt =====
-- Membership in a list, for collections of records whose order does not matter.
use lsm_tree_key_value_stora.Prelude.{
  ℕ, zero, suc, get_elem?, Option, none, some, ◌≡◌, refl, sym, subst, List, [], ◌∷◌, ◌++◌, ◌⊎◌, inl,
  inr, All,
}

module _ {ℓ} {A : Type ℓ} where
  -- The lists of `xss`, joined.
  abbrev pub concat : List (List A) → List A
  concat [] = []
  concat (xs ∷ xss) = xs ++ concat xss

module _ {A : Type 0} where
  infix 50 ◌∈◌
  abbrev pub ◌∈◌ : A → List A → Type 0
  a ∈ [] = ⊥
  a ∈ (x ∷ xs) = (a ≡ x) ⊎ (a ∈ xs)

  pub ∈-append_left : (a : A) (xs ys : List A) → a ∈ xs → a ∈ (xs ++ ys)
  ∈-append_left a [] ys h = absurd h
  ∈-append_left a (x ∷ xs) ys (inl e) = inl e
  ∈-append_left a (x ∷ xs) ys (inr h) = inr (∈-append_left a xs ys h)

  pub ∈-append_right : (a : A) (xs ys : List A) → a ∈ ys → a ∈ (xs ++ ys)
  ∈-append_right a [] ys h = h
  ∈-append_right a (x ∷ xs) ys h = inr (∈-append_right a xs ys h)

  pub ∈-append_cases : (a : A) (xs ys : List A) → a ∈ (xs ++ ys) → (a ∈ xs) ⊎ (a ∈ ys)
  ∈-append_cases a [] ys h = inr h
  ∈-append_cases a (x ∷ xs) ys (inl e) = inl (inl e)
  ∈-append_cases a (x ∷ xs) ys (inr h) = elim (∈-append_cases a xs ys h) [
    | inl k ↦ inl (inr k)
    | inr k ↦ inr k
  ]

  pub All-at {κ} : (P : A → Type κ) (a : A) (xs : List A) → All P xs → a ∈ xs → P a
  All-at P a [] h k = absurd k
  All-at P a (x ∷ xs) h (inl e) = subst P (sym e) h.0
  All-at P a (x ∷ xs) h (inr k) = All-at P a xs h.1 k

  pub All-of {κ} : (P : A → Type κ) (xs : List A) → ((a : A) → a ∈ xs → P a) → All P xs
  All-of P [] f = tt
  All-of P (x ∷ xs) f = (f x (inl refl), All-of P xs λ a h. f a (inr h))

  -- A member of the joined lists is a member of one of them.
  pub ∈-concat :
      (a : A) (xss : List (List A))
      → a ∈ concat xss
      → (j : ℕ) × (xs : List A) × (get_elem? xss j ≡ some xs) × (a ∈ xs)
  ∈-concat a [] h = absurd h
  ∈-concat a (xs ∷ xss) h = elim (∈-append_cases a xs (concat xss) h) [
    | inl k ↦ (0, xs, refl, k)
    | inr k ↦ let c = ∈-concat a xss k in (suc c.0, c.1, c.2, c.3)
  ]

  pub concat-∈ :
      (a : A) (xss : List (List A)) (j : ℕ) (xs : List A)
      → get_elem? xss j ≡ some xs
      → a ∈ xs
      → a ∈ concat xss
  concat-∈ a [] j xs e h = cc
  concat-∈ a (ys ∷ xss) zero xs e h = ∈-append_left a ys (concat xss) (subst (λ o. In? o) (sym e) h)
    where
      In? : Option (List A) → Type 0
      In? none = ⊥
      In? (some zs) = a ∈ zs
  concat-∈ a (ys ∷ xss) (suc j) xs e h = ∈-append_right a ys (concat xss) (concat-∈ a xss j xs e h)

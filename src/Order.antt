-- ===== src/Order.antt =====
-- Total orders as instances (`std::cmp::Ord`): numbers, byte strings (`Vec<u8>`), `Reverse`, and
-- pairs, which compare the first part first.
use Prim.Native.Nat.{Ordering}
use Prim.Native.Nat.Ordering.{lt, eq, gt}
use lsm_tree_key_value_stora.Prelude.{
  ℕ, ◌≡◌, ◌≢◌, refl, Bool, true, false, List, [], ◌∷◌, arith, compare, ap, sym, ◌⊎◌,
}

abbrev pub then : Ordering → Ordering → Ordering
then eq o = o
then lt o = lt
then gt o = gt

abbrev pub reverse : Ordering → Ordering
reverse lt = gt
reverse eq = eq
reverse gt = lt

pub record IsTotal {ℓ} {K : Type ℓ} (cmp : K → K → Ordering) : Type ℓ where
  pub cmp_swap : (a b : K) → cmp b a ≡ reverse (cmp a b)
  pub lt_trans : (a b c : K) → cmp a b ≡ lt → cmp b c ≡ lt → cmp a c ≡ lt
  pub eq_of_cmp : (a b : K) → cmp a b ≡ eq → a ≡ b
  pub cmp_refl : (a : K) → cmp a a ≡ eq

pub record Ord {ℓ} (K : Type ℓ) : Type ℓ where
  pub cmp : K → K → Ordering
  pub total : IsTotal cmp
  pub open total use *

abbrev is_lt : Ordering → Bool
is_lt lt = true
is_lt eq = false
is_lt gt = false

abbrev is_eq : Ordering → Bool
is_eq lt = false
is_eq eq = true
is_eq gt = false

infix 50 ◌≺◌
abbrev pub ◌≺◌ {ℓ} : {K : Type ℓ} ⦃o : Ord K⦄ → K → K → Type 0
◌≺◌ ⦃o⦄ a b = o.cmp a b ≡ lt

-- `a < b` and `a == b` of an ordered type
abbrev pub key_lt {ℓ} : {K : Type ℓ} ⦃o : Ord K⦄ → K → K → Bool
key_lt ⦃o⦄ a b = is_lt (o.cmp a b)

abbrev pub key_eq {ℓ} : {K : Type ℓ} ⦃o : Ord K⦄ → K → K → Bool
key_eq ⦃o⦄ a b = is_eq (o.cmp a b)

pub compare-IsTotal : IsTotal compare
compare-IsTotal = ground arith

instance unfoldable pub nat_ord : Ord ℕ
nat_ord = record { cmp = compare; total = compare-IsTotal }

-- `Reverse<T>`
pub data Reverse {ℓ} (K : Type ℓ) : Type ℓ where
  rev : K → Reverse K

abbrev pub unrev {ℓ} : {K : Type ℓ} → Reverse K → K
unrev (rev a) = a

module _ {ℓ} {K : Type ℓ} ⦃o : Ord K⦄ where
  abbrev pub cmp_rev : Reverse K → Reverse K → Ordering
  cmp_rev (rev a) (rev b) = o.cmp b a

  pub rev-eq_of_cmp : (a b : Reverse K) → cmp_rev a b ≡ eq → a ≡ b
  rev-eq_of_cmp (rev a) (rev b) h = ap rev (sym (o.eq_of_cmp b a h))

  pub rev-cmp_refl : (a : Reverse K) → cmp_rev a a ≡ eq
  rev-cmp_refl (rev a) = o.cmp_refl a

  pub rev-cmp_swap : (a b : Reverse K) → cmp_rev b a ≡ reverse (cmp_rev a b)
  rev-cmp_swap (rev a) (rev b) = o.cmp_swap b a

  pub rev-lt_trans : (a b c : Reverse K) → cmp_rev a b ≡ lt → cmp_rev b c ≡ lt → cmp_rev a c ≡ lt
  rev-lt_trans (rev a) (rev b) (rev c) h k = o.lt_trans c b a k h

  instance unfoldable pub rev_ord : Ord (Reverse K)
  rev_ord = record {
    cmp = cmp_rev;
    total = record {
      cmp_refl = rev-cmp_refl;
      eq_of_cmp = rev-eq_of_cmp;
      cmp_swap = rev-cmp_swap;
      lt_trans = rev-lt_trans;
    };
  }

module _ {ℓ} {K : Type ℓ} ⦃o : Ord K⦄ where
  -- Lists compare element by element, and a proper prefix is smaller.
  unfoldable pub cmp_list : List K → List K → Ordering
  cmp_list [] [] = eq
  cmp_list [] (y ∷ ys) = lt
  cmp_list (x ∷ xs) [] = gt
  cmp_list (x ∷ xs) (y ∷ ys) = then (o.cmp x y) (cmp_list xs ys)

  pub list-cmp_refl : (a : List K) → cmp_list a a ≡ eq
  unfolding cmp_list
  list-cmp_refl [] = refl
  list-cmp_refl (x ∷ xs) = rw o.cmp_refl (list-cmp_refl xs)

  pub list-eq_of_cmp : (a b : List K) → cmp_list a b ≡ eq → a ≡ b
  unfolding cmp_list
  list-eq_of_cmp [] [] h = refl
  list-eq_of_cmp [] (y ∷ ys) h = cc
  list-eq_of_cmp (x ∷ xs) [] h = cc
  list-eq_of_cmp (x ∷ xs) (y ∷ ys) h = ground (arith, o.eq_of_cmp x y, list-eq_of_cmp xs ys)

  pub list-cmp_swap : (a b : List K) → cmp_list b a ≡ reverse (cmp_list a b)
  unfolding cmp_list
  list-cmp_swap [] [] = refl
  list-cmp_swap [] (y ∷ ys) = refl
  list-cmp_swap (x ∷ xs) [] = refl
  list-cmp_swap (x ∷ xs) (y ∷ ys) = ground (arith, o.cmp_swap x y, list-cmp_swap xs ys)

  pub list-lt_trans : (a b c : List K) → cmp_list a b ≡ lt → cmp_list b c ≡ lt → cmp_list a c ≡ lt
  unfolding cmp_list
  list-lt_trans [] [] c h k = k
  list-lt_trans [] (y ∷ ys) [] h k = cc
  list-lt_trans [] (y ∷ ys) (z ∷ zs) h k = refl
  list-lt_trans (x ∷ xs) [] c h k = cc
  list-lt_trans (x ∷ xs) (y ∷ ys) [] h k = cc
  list-lt_trans (x ∷ xs) (y ∷ ys) (z ∷ zs) h k =
      ground (arith, o.eq_of_cmp x y, o.eq_of_cmp y z, o.lt_trans x y z, list-lt_trans xs ys zs)

  instance unfoldable pub list_ord : Ord (List K)
  unfolding cmp_list
  list_ord = record {
    cmp = cmp_list;
    total = record {
      cmp_refl = list-cmp_refl;
      eq_of_cmp = list-eq_of_cmp;
      cmp_swap = list-cmp_swap;
      lt_trans = list-lt_trans;
    };
  }

module _ {ℓ κ} {A : Type ℓ} {B : Type κ} ⦃a : Ord A⦄ ⦃b : Ord B⦄ where
  abbrev pub cmp_pair : A × B → A × B → Ordering
  cmp_pair x y = then (a.cmp x.0 y.0) (b.cmp x.1 y.1)

  pub pair-IsTotal : IsTotal {K = A × B} cmp_pair
  pair-IsTotal = record {
    cmp_swap = λ x y. ground (arith, a.cmp_swap x.0 y.0, b.cmp_swap x.1 y.1);
    lt_trans = λ x y z. ground (
      arith,
      a.eq_of_cmp x.0 y.0,
      a.eq_of_cmp y.0 z.0,
      a.lt_trans x.0 y.0 z.0,
      b.lt_trans x.1 y.1 z.1,
    );
    eq_of_cmp = λ x y. ground (arith, a.eq_of_cmp x.0 y.0, b.eq_of_cmp x.1 y.1);
    cmp_refl = λ x. simp (a.cmp_refl, b.cmp_refl);
  }

  instance unfoldable pub pair_ord : Ord (A × B)
  pair_ord = record { cmp = cmp_pair; total = pair-IsTotal }

-- What the laws give in the forms that the proofs use.
module _ {ℓ} {K : Type ℓ} ⦃o : Ord K⦄ where
  pub lt_irrefl : (a : K) → ¬ (a ≺ a)
  lt_irrefl a h = cc (o.cmp_refl a)

  pub gt_irrefl : (a : K) → ¬ (o.cmp a a ≡ gt)
  gt_irrefl a h = cc (o.cmp_refl a)

  pub cmp_cases : (a b : K) → (o.cmp a b ≡ lt) ⊎ ((o.cmp a b ≡ eq) ⊎ (o.cmp a b ≡ gt))
  cmp_cases a b = ground arith

  pub gt_iff_lt : (a b : K) → o.cmp a b ≡ gt → b ≺ a
  gt_iff_lt a b h = rw (o.cmp_swap a b, h)

  pub cmp-eq_of_eq : (a b : K) → a ≡ b → o.cmp a b ≡ eq
  cmp-eq_of_eq a b e = rw e (o.cmp_refl b)

  pub lt_asymm : (a b : K) → a ≺ b → o.cmp b a ≡ gt
  lt_asymm a b h = rw (o.cmp_swap a b, h)

  pub lt_of_key_lt : (a b : K) → key_lt a b ≡ true → a ≺ b
  lt_of_key_lt a b h = ground arith

  pub key_eq_refl : (a : K) → key_eq a a ≡ true
  key_eq_refl a = rw o.cmp_refl

  pub eq_of_key_eq : (a b : K) → key_eq a b ≡ true → a ≡ b
  eq_of_key_eq a b h = ground (arith, o.eq_of_cmp a b)

  pub key_eq-false : (a b : K) → a ≢ b → key_eq a b ≡ false
  key_eq-false a b n = ground (arith, o.eq_of_cmp a b)

-- `a` is not above `b`.
infix 50 ◌≼◌
abbrev pub ◌≼◌ {ℓ} : {K : Type ℓ} ⦃o : Ord K⦄ → K → K → Type 0
a ≼ b = key_lt b a ≡ false

module _ {ℓ} {K : Type ℓ} ⦃o : Ord K⦄ where
  pub ≼_refl : (a : K) → a ≼ a
  ≼_refl a = rw o.cmp_refl

  pub ≼_of_≺ : (a b : K) → a ≺ b → a ≼ b
  ≼_of_≺ a b h = rw (lt_asymm a b h)

  pub ≼_trans : (a b c : K) → a ≼ b → b ≼ c → a ≼ c
  ≼_trans a b c h k =
      ground
        (arith, o.lt_trans c a b, o.cmp_swap a b, o.cmp_swap b c, o.eq_of_cmp a b, o.cmp_swap a c)

  pub ≺_≼_trans : (a b c : K) → a ≺ b → b ≼ c → a ≺ c
  ≺_≼_trans a b c h k = ground (arith, o.lt_trans a b c, o.cmp_swap b c, o.eq_of_cmp b c)

  pub ≼_total : (a b : K) → ¬ (a ≼ b) → b ≼ a
  ≼_total a b h = ground (arith, o.cmp_swap a b)

  pub ≼_cases : (a b : K) → a ≼ b → (a ≺ b) ⊎ (a ≡ b)
  ≼_cases a b h = ground (arith, o.cmp_swap a b, o.eq_of_cmp a b)

-- The order of `Vec<u8>`.
instance abbrev pub bytes_ord : Ord (List ℕ)
bytes_ord = list_ord

-- The order of `(Vec<u8>, Reverse<u64>)`.
abbrev pub VersionKey : Type 0
VersionKey = List ℕ × Reverse ℕ

instance abbrev pub version_ord : Ord VersionKey
version_ord = pair_ord

-- ===== src/SsTable/Cache/Laws.antt =====
-- The block cache never holds more than its capacity, throws the oldest block out, and answers what
-- was put in.
use lsm_tree_key_value_stora.Prelude.{
  ℕ, suc, ◌≤◌, ◌<◌, ◌≡◌, ◌≢◌, refl, ap, sym, ◌∙◌, subst, subst₂, Option, none, some, List, [], ◌∷◌,
  ◌++◌, arith, length, leb, ◌==◌, All, drop, Bool-cases, Option-cases, inl, inr, ◌⊎◌, eq_of_==,
  ==_refl, length-append, if◌then◌else◌,
}
use lsm_tree_key_value_stora.Record.{Record}
use lsm_tree_key_value_stora.SsTable.{block_cache_cap}
use lsm_tree_key_value_stora.SsTable.Cache
use lsm_tree_key_value_stora.SsTable.Cache.{BlockCache, find, remove, get, put}

abbrev pub offsets : List (ℕ × List Record) → List ℕ
offsets [] = []
offsets ((o, b) ∷ rest) = o ∷ offsets rest

abbrev pub Fresh : ℕ → List ℕ → Type 0
Fresh o os = All (λ p. p ≢ o) os

abbrev pub Distinct : List ℕ → Type 0
Distinct [] = Unit
Distinct (o ∷ os) = Fresh o os × Distinct os

-- The map and the queue hold the same offsets, each once, and no more than the capacity.
pub record IsValid (c : BlockCache) : Type 0 where
  pub queued : offsets c.map ≡ c.order
  pub distinct : Distinct c.order
  pub bounded : length c.order ≤ block_cache_cap

pub new-IsValid : IsValid Cache.new
new-IsValid = record { queued = refl; distinct = tt; bounded = omega arith }

offsets-append :
    (m : List (ℕ × List Record)) (o : ℕ) (b : List Record)
    → offsets (m ++ ((o, b) ∷ [])) ≡ offsets m ++ (o ∷ [])
offsets-append [] o b = refl
offsets-append ((p, c) ∷ m) o b = ap (◌∷◌ p) (offsets-append m o b)

Fresh-append : (o p : ℕ) (os : List ℕ) → Fresh o os → p ≢ o → Fresh o (os ++ (p ∷ []))
Fresh-append o p [] a n = (n, tt)
Fresh-append o p (q ∷ os) a n = (a.0, Fresh-append o p os a.1 n)

Distinct-append : (o : ℕ) (os : List ℕ) → Distinct os → Fresh o os → Distinct (os ++ (o ∷ []))
Distinct-append o [] d f = (tt, tt)
Distinct-append o (p ∷ os) d f =
    (Fresh-append p o os d.0 (λ e. f.0 (sym e)), Distinct-append o os d.1 f.1)

-- The offsets that an absent answer excludes.
find_absent : (o : ℕ) (m : List (ℕ × List Record)) → find o m ≡ none → Fresh o (offsets m)
unfolding find
find_absent o [] h = tt
find_absent o ((p, b) ∷ m) h = elim (Bool-cases (p == o)) [
  | inl e ↦ let k : some b ≡ none = rw e at h in absurd (cc k)
  | inr e ↦ (λ q. cc (rw q at e, ==_refl o), find_absent o m (rw e at h))
]

find-Fresh : (o : ℕ) (m : List (ℕ × List Record)) → Fresh o (offsets m) → find o m ≡ none
unfolding find
find-Fresh o [] f = refl
find-Fresh o ((p, b) ∷ m) f = elim (Bool-cases (p == o)) [
  | inl e ↦ absurd (f.0 (eq_of_== p o e))
  | inr e ↦ rw e (find-Fresh o m f.1)
]

remove-Fresh : (o : ℕ) (m : List (ℕ × List Record)) → Fresh o (offsets m) → remove o m ≡ m
unfolding remove
remove-Fresh o [] f = refl
remove-Fresh o ((p, b) ∷ m) f = elim (Bool-cases (p == o)) [
  | inl e ↦ absurd (f.0 (eq_of_== p o e))
  | inr e ↦ rw e (ap (◌∷◌ (p, b)) (remove-Fresh o m f.1))
]

remove_first :
    (o : ℕ) (b : List Record) (m : List (ℕ × List Record))
    → Fresh o (offsets m)
    → remove o ((o, b) ∷ m) ≡ m
unfolding remove
remove_first o b m f = rw (==_refl o) (remove-Fresh o m f)

find-append :
    (o : ℕ) (m : List (ℕ × List Record)) (b : List Record)
    → find o m ≡ none
    → find o (m ++ ((o, b) ∷ [])) ≡ some b
unfolding find
find-append o [] b h = rw (==_refl o)
find-append o ((p, c) ∷ m) b h = elim (Bool-cases (p == o)) [
  | inl e ↦ let k : some c ≡ none = rw e at h in absurd (cc k)
  | inr e ↦ rw e (find-append o m b (rw e at h))
]

-- The entries that stay when a new one comes: the oldest one goes where the cache is full.
abbrev pub kept_entries : List (ℕ × List Record) → List (ℕ × List Record)
kept_entries m = if leb block_cache_cap (length (offsets m)) then drop 1 m else m

abbrev of_entries : List (ℕ × List Record) → BlockCache
of_entries m = record { map = m; order = offsets m }

canonical : (c : BlockCache) → IsValid c → c ≡ of_entries c.map
canonical c v = ap (λ os. record { map = c.map; order = os }) (sym v.queued)

make_room_lem :
    (m : List (ℕ × List Record))
    → Distinct (offsets m)
    → Cache.make_room (of_entries m) ≡ of_entries (kept_entries m)
make_room_lem [] d = refl
make_room_lem ((o, b) ∷ m) d = elim (Bool-cases (leb block_cache_cap (suc (length (offsets m))))) [
  | inl e ↦ rw e (ap (λ n. record { map = n; order = offsets m }) (remove_first o b m d.0))
  | inr e ↦ rw e
]

put_absent :
    (o : ℕ) (b : List Record) (c : BlockCache)
    → IsValid c
    → find o c.map ≡ none
    → put o b c ≡ of_entries (kept_entries c.map ++ ((o, b) ∷ []))
unfolding put
put_absent o b c v h = rw h (
    ap (λ k. Cache.push o b (Cache.make_room k)) (canonical c v)
    ∙ ap (Cache.push o b) (make_room_lem c.map (subst Distinct (sym v.queued) v.distinct))
    ∙ ap (λ os. record { map = kept_entries c.map ++ ((o, b) ∷ []); order = os })
        (sym (offsets-append (kept_entries c.map) o b)))

put_present : (o : ℕ) (b x : List Record) (c : BlockCache) → find o c.map ≡ some x → put o b c ≡ c
unfolding put
put_present o b x c h = rw h

kept-Fresh :
    (o : ℕ) (m : List (ℕ × List Record)) → Fresh o (offsets m) → Fresh o (offsets (kept_entries m))
kept-Fresh o [] f = tt
kept-Fresh o ((p, b) ∷ m) f = elim (Bool-cases (leb block_cache_cap (suc (length (offsets m))))) [
  | inl e ↦ rw e f.1
  | inr e ↦ rw e f
]

kept-Distinct :
    (m : List (ℕ × List Record)) → Distinct (offsets m) → Distinct (offsets (kept_entries m))
kept-Distinct [] d = tt
kept-Distinct ((p, b) ∷ m) d = elim (Bool-cases (leb block_cache_cap (suc (length (offsets m))))) [
  | inl e ↦ rw e d.1
  | inr e ↦ rw e d
]

kept_room :
    (m : List (ℕ × List Record))
    → length (offsets m) ≤ block_cache_cap
    → length (offsets (kept_entries m)) < block_cache_cap
kept_room [] h = omega arith
kept_room ((p, b) ∷ m) h = elim (Bool-cases (leb block_cache_cap (suc (length (offsets m))))) [
  | inl e ↦ rw e (omega arith)
  | inr e ↦ rw e (ground arith)
]

entries-IsValid :
    (o : ℕ) (b : List Record) (m : List (ℕ × List Record))
    → Distinct (offsets m)
    → Fresh o (offsets m)
    → length (offsets m) < block_cache_cap
    → IsValid (of_entries (m ++ ((o, b) ∷ [])))
entries-IsValid o b m d f h = record {
  queued = refl;
  distinct = rw (offsets-append m o b) (Distinct-append o (offsets m) d f);
  bounded = rw (offsets-append m o b) (omega (arith, length-append (offsets m) (o ∷ [])));
}

-- A put keeps the map and the queue in step, within the capacity.
pub put-IsValid : (o : ℕ) (b : List Record) (c : BlockCache) → IsValid c → IsValid (put o b c)
put-IsValid o b c v = elim (Option-cases (find o c.map)) [
  | inl h ↦
      let d = subst Distinct (sym v.queued) v.distinct in
      let l : length (offsets c.map) ≤ block_cache_cap =
        subst (λ os. length os ≤ block_cache_cap) (sym v.queued) v.bounded in
      rw (put_absent o b c v h) (
        entries-IsValid o b (kept_entries c.map) (kept-Distinct c.map d)
          (kept-Fresh o c.map (find_absent o c.map h)) (kept_room c.map l))
  | inr (x, h) ↦ rw (put_present o b x c h) v
]

-- The block that a put leaves at its offset: the one that was there, or else the new one.
abbrev pub settled : Option (List Record) → List Record → List Record
settled none b = b
settled (some x) b = x

-- What was put in is answered; a block that is there already is not replaced.
pub get-put :
    (o : ℕ) (b : List Record) (c : BlockCache)
    → IsValid c
    → get o (put o b c) ≡ some (settled (get o c) b)
unfolding get
get-put o b c v = elim (Option-cases (find o c.map)) [
  | inl h ↦
      rw (h, put_absent o b c v h)
        (find-append o (kept_entries c.map) b
          (find-Fresh o _ (kept-Fresh o c.map (find_absent o c.map h))))
  | inr (x, h) ↦ rw (h, put_present o b x c h) h
]

-- What holds of every block in the cache.
abbrev pub Coherent : (ℕ → List Record → Type 0) → BlockCache → Type 0
Coherent P c = (o : ℕ) (b : List Record) → get o c ≡ some b → P o b

find_last :
    (o p : ℕ) (m : List (ℕ × List Record)) (b x : List Record)
    → find p (m ++ ((o, b) ∷ [])) ≡ some x
    → (find p m ≡ some x) ⊎ ((o ≡ p) × (b ≡ x))
unfolding find
find_last o p [] b x h = elim (Bool-cases (o == p)) [
  | inl e ↦ let k : some b ≡ some x = rw e at h in inr (eq_of_== o p e, cc k)
  | inr e ↦ let k : none ≡ some x = rw e at h in absurd (cc k)
]
find_last o p ((q, c) ∷ m) b x h = elim (Bool-cases (q == p)) [
  | inl e ↦ rw e (inl (rw e at h))
  | inr e ↦ rw e (find_last o p m b x (rw e at h))
]

find_tail :
    (q p : ℕ) (m : List (ℕ × List Record)) (c x : List Record)
    → Fresh q (offsets m)
    → find p m ≡ some x
    → find p ((q, c) ∷ m) ≡ some x
unfolding find
find_tail q p m c x f h = elim (Bool-cases (q == p)) [
  | inl e ↦
      let k = find-Fresh p m (subst (λ o. Fresh o (offsets m)) (eq_of_== q p e) f) in
      absurd (cc (h, k))
  | inr e ↦ rw e h
]

find_kept :
    (p : ℕ) (m : List (ℕ × List Record)) (x : List Record)
    → Distinct (offsets m)
    → find p (kept_entries m) ≡ some x
    → find p m ≡ some x
find_kept p [] x d h = h
find_kept p ((q, c) ∷ m) x d h =
    elim (Bool-cases (leb block_cache_cap (suc (length (offsets m))))) [
      | inl e ↦ find_tail q p m c x d.0 (rw e at h)
      | inr e ↦ rw e at h
    ]

pub put-Coherent :
    (P : ℕ → List Record → Type 0) (o : ℕ) (b : List Record) (c : BlockCache)
    → IsValid c
    → P o b
    → Coherent P c
    → Coherent P (put o b c)
unfolding get
put-Coherent P o b c v pb k p x h = elim (Option-cases (find o c.map)) [
  | inl a ↦
      let d = subst Distinct (sym v.queued) v.distinct in
      let h' : find p (kept_entries c.map ++ ((o, b) ∷ [])) ≡ some x =
        ap (λ t. find p t.map) (sym (put_absent o b c v a)) ∙ h in
      elim (find_last o p (kept_entries c.map) b x h') [
        | inl l ↦ k p x (find_kept p c.map x d l)
        | inr (eo, eb) ↦ subst₂ P eo eb pb
      ]
  | inr (y, a) ↦ k p x (ap (λ t. find p t.map) (sym (put_present o b y c a)) ∙ h)
]

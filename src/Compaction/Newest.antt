-- ===== src/Compaction/Newest.antt =====
-- Compaction keeps what every reader at or above the horizon sees.
use lsm_tree_key_value_stora.Prelude.{
  ℕ, ◌≤◌, ◌<◌, ◌≡◌, refl, ap, sym, subst, ◌∙◌, Bool, true, false, Option, none, some, List, arith,
  length, All, inl, inr, and_true, ltb→lt, lt→ltb,
}
use lsm_tree_key_value_stora.Errors.{Result, ok, err, ◌>>=◌}
use lsm_tree_key_value_stora.Prelude.{map, [], ◌∷◌}
use lsm_tree_key_value_stora.Bytes.{Bytes}
use lsm_tree_key_value_stora.Record.{Record}
use lsm_tree_key_value_stora.Members.{◌∈◌, concat}
use lsm_tree_key_value_stora.Visible.{newest, sees, value_of}
use lsm_tree_key_value_stora.Visible.Laws.{key_of_seen}
use lsm_tree_key_value_stora.Visible.Runs.{seen}
use lsm_tree_key_value_stora.Visible.Members.{
  Unique, IsNewest, newest-IsNewest, IsNewest-Unique, newest_of_part,
}
use lsm_tree_key_value_stora.Compaction.{compact, collect_all, compact_tables, merge}
use lsm_tree_key_value_stora.Compaction.Round.{Ascending}
use lsm_tree_key_value_stora.Compaction.Stream.{merge_sound, merge_complete, merge-Ascending}
use lsm_tree_key_value_stora.Compaction.Groups.{
  Served, output_sound, output-Served, output-one_below,
}

module _ (inputs : List (List Record)) (ascending : All Ascending inputs) where
  pub compact_sound :
      (drop_tombstones : Bool) (min_snapshot_seq : ℕ) (x : Record)
      → x ∈ compact inputs drop_tombstones min_snapshot_seq
      → x ∈ concat inputs
  unfolding compact
  compact_sound drop_tombstones min_snapshot_seq x k =
      merge_sound inputs ascending x
        (output_sound drop_tombstones min_snapshot_seq (length (merge inputs)) (merge inputs) x k)

  compact-Served :
      (drop_tombstones : Bool) (min_snapshot_seq bound : ℕ) (x : Record)
      → min_snapshot_seq ≤ bound
      → x ∈ concat inputs
      → x.seq < bound
      → Served drop_tombstones min_snapshot_seq bound x
          (merge inputs)
          (compact inputs drop_tombstones min_snapshot_seq)
  unfolding compact
  compact-Served drop_tombstones min_snapshot_seq bound x m k l =
      output-Served drop_tombstones min_snapshot_seq (length (merge inputs)) (merge inputs) bound x
        (omega arith) (merge-Ascending inputs ascending) m (merge_complete inputs ascending x k) l

  -- Where the keys of every input ascend, a compaction keeps at most one of the versions of a key
  -- below the horizon.
  pub compact-one_below :
      (drop_tombstones : Bool) (min_snapshot_seq : ℕ) (x y : Record)
      → x.seq < min_snapshot_seq
      → y.seq < min_snapshot_seq
      → x.key ≡ y.key
      → x ∈ compact inputs drop_tombstones min_snapshot_seq
      → y ∈ compact inputs drop_tombstones min_snapshot_seq
      → x ≡ y
  unfolding compact
  compact-one_below drop_tombstones min_snapshot_seq x y lx ly e kx ky =
      output-one_below drop_tombstones min_snapshot_seq (length (merge inputs)) (merge inputs) x y
        (merge-Ascending inputs ascending) lx ly e kx ky

  module _ (unique : Unique (concat inputs)) (min_snapshot_seq : ℕ) (key : Bytes) (bound : ℕ)
      (horizon : min_snapshot_seq ≤ bound) where
    bounded : (x : Record) → sees key bound x ≡ true → x.seq < bound
    unfolding sees
    bounded x h = ltb→lt x.seq bound (and_true _ _ h).1

    seen_too :
        (x s : Record)
        → sees key bound x ≡ true
        → s.key ≡ x.key
        → s.seq < bound
        → sees key bound s ≡ true
    seen_too x s h e l = seen key bound s (e ∙ key_of_seen key bound x h) (lt→ltb s.seq bound l)

    -- Where the keys of every input ascend and no two different versions of a key have one sequence
    -- number: a compaction that drops no tombstones keeps the newest version of every key, as every
    -- reader whose bound is not below the horizon sees it.
    pub compact-newest :
        newest key bound (compact inputs false min_snapshot_seq) ≡ newest key bound (concat inputs)
    compact-newest =
        newest_of_part key bound (concat inputs) (compact inputs false min_snapshot_seq) unique
          (compact_sound false min_snapshot_seq)
          (λ x k h.
            let (s, ks, e, le, lt, d) =
              compact-Served false min_snapshot_seq bound x horizon k (bounded x h) in
            elim d [ inl i ↦ (s, i, seen_too x s h e lt, le) | inr (f, v, all) ↦ cc ])

    module _ (drop_tombstones : Bool) where
      abbrev out : List Record
      out = compact inputs drop_tombstones min_snapshot_seq

      was_input : (x : Record) → x ∈ out → x ∈ concat inputs
      was_input = compact_sound drop_tombstones min_snapshot_seq

      kept_newest :
          (r : Record)
          → IsNewest key bound (concat inputs) (some r)
          → r ∈ out
          → newest key bound out ≡ some r
      kept_newest r b k =
          IsNewest-Unique key bound out (λ x y kx ky. unique x y (was_input x kx) (was_input y ky))
            (newest key bound out) (some r) (newest-IsNewest key bound out)
            (k, b.1, λ x kx. b.2 x (was_input x kx))

      -- Behind a tombstone that is gone nothing of the key is seen.
      peeled_newest :
          (r : Record)
          → IsNewest key bound (concat inputs) (some r)
          → r.value ≡ none
          → ((t : Record) → t ∈ out → t.key ≡ r.key → r.seq ≤ t.seq)
          → (o : Option Record) → IsNewest key bound out o
          → value_of o ≡ none
      peeled_newest r b v all none a = refl
      peeled_newest r b v all (some t) a =
          let e = key_of_seen key bound t a.1 ∙ sym (key_of_seen key bound r b.1) in
          let k = was_input t a.0 in
          let most = b.2 t k a.1 in
          let old = all t a.0 e in
          ap (λ y. y.value) (unique t r k b.0 e (omega (arith, most, old))) ∙ v

      same :
          (p : Option Record)
          → IsNewest key bound (concat inputs) p
          → value_of (newest key bound out) ≡ value_of p
      same none b = ap value_of (
          IsNewest-Unique key bound out (λ x y kx ky. unique x y (was_input x kx) (was_input y ky))
            (newest key bound out) none (newest-IsNewest key bound out)
            (λ x k. b x (was_input x k)))
      same (some r) b =
          let (s, ks, e, le, lt, d) =
            compact-Served drop_tombstones min_snapshot_seq bound r horizon b.0 (bounded r b.1) in
          let ks' = merge_sound inputs ascending s ks in
          let least = b.2 s ks' (seen_too r s b.1 e lt) in
          let q : s ≡ r = unique s r ks' b.0 e (omega (arith, least, le)) in
          elim d [
            | inl i ↦ ap value_of (kept_newest r b (subst (λ z. z ∈ out) q i))
            | inr (f, v, all) ↦
                let v' : r.value ≡ none = ap (λ y. y.value) (sym q) ∙ v in
                peeled_newest r b v' (λ t k h. let u = all t k h in omega (arith, u, le))
                  (newest key bound out) (newest-IsNewest key bound out)
                ∙ sym v'
          ]

      -- Where the keys of every input ascend and no two different versions of a key have one sequence
      -- number: whether tombstones are dropped or not, a reader whose bound is not below the horizon
      -- reads the same value from the output of a compaction as from its inputs.
      pub compact-value :
          value_of (newest key bound (compact inputs drop_tombstones min_snapshot_seq))
          ≡ value_of (newest key bound (concat inputs))
      compact-value =
          same (newest key bound (concat inputs)) (newest-IsNewest key bound (concat inputs))

-- All reads succeeded where what follows them did.
read_all :
    {B : Type 0} (reads : List (Result (List Record))) (next : List (List Record) → Result B)
    {b : B}
    → (collect_all reads >>= next) ≡ ok b
    → (inputs : List (List Record)) × (reads ≡ map ok inputs) × (next inputs ≡ ok b)
unfolding collect_all
read_all [] next {b} e = ([], refl, e)
read_all (err x ∷ reads) next {b} e = cc
read_all (ok it ∷ reads) next {b} e =
    let (its, q, e') = read_all reads (λ its. next (it ∷ its)) (assoc (collect_all reads) e) in
    (it ∷ its, ap (λ l. ok it ∷ l) q, e')
  where
    assoc :
        (m : Result (List (List Record)))
        → ((m >>= λ its. ok (it ∷ its)) >>= next) ≡ ok b
        → (m >>= λ its. next (it ∷ its)) ≡ ok b
    assoc (ok its) h = h
    assoc (err x) h = h

-- A compaction that succeeds wrote, with what every input answered, an output from which a reader
-- whose bound is not below the horizon reads the values of the inputs; where the keys of every input
-- ascend and no two different versions of a key have one sequence number.
pub compact_tables-value :
    (reads : List (Result (List Record))) (drop_tombstones : Bool) (min_snapshot_seq : ℕ)
    (write : List Record → Result ℕ) (n : ℕ)
    → compact_tables reads drop_tombstones min_snapshot_seq write ≡ ok n
    → (inputs : List (List Record)) × (out : List Record) × (reads ≡ map ok inputs)
      × (write out ≡ ok n)
      × (All Ascending inputs
          → Unique (concat inputs)
          → (key : Bytes) (bound : ℕ) → min_snapshot_seq ≤ bound
          → value_of (newest key bound out) ≡ value_of (newest key bound (concat inputs)))
unfolding compact_tables
compact_tables-value reads drop_tombstones min_snapshot_seq write n e =
    let (inputs, all, e') =
      read_all reads (λ inputs. write (compact inputs drop_tombstones min_snapshot_seq)) e in
    (
      inputs,
      compact inputs drop_tombstones min_snapshot_seq,
      all,
      e',
      λ a u key bound h. compact-value inputs a u min_snapshot_seq key bound h drop_tombstones,
    )

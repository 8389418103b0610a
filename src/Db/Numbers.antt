-- ===== src/Db/Numbers.antt =====
-- The MemTable behind a batch of records with ascending numbers.
use lsm_tree_key_value_stora.Prelude.{
  ℕ, ◌+◌, ◌^◌, ◌<◌, ◌≡◌, refl, ap, sym, ◌∙◌, subst, Option, none, some, List, [], ◌∷◌, arith,
  length, All, inl, inr, Bool-cases, le→ltb,
}
use lsm_tree_key_value_stora.Order.{VersionKey, version_ord, nat_ord}
use lsm_tree_key_value_stora.Bytes.{Bytes}
use lsm_tree_key_value_stora.Record.{Record, put, tombstone}
use lsm_tree_key_value_stora.Members.{All-at}
use lsm_tree_key_value_stora.Visible.{sees, newest, later, pick, version_key}
use lsm_tree_key_value_stora.Visible.Runs.{All-map}
use lsm_tree_key_value_stora.Visible.Members.{IsNewest, newest-IsNewest}
use lsm_tree_key_value_stora.SortedMap
use lsm_tree_key_value_stora.SortedMap.{Entries, values}
use lsm_tree_key_value_stora.MemTable
use lsm_tree_key_value_stora.MemTable.{MemTable, u64_max}
use lsm_tree_key_value_stora.MemTable.Laws
use lsm_tree_key_value_stora.MemTable.Laws.Lookup.{newest-insert}
use lsm_tree_key_value_stora.Db.{WriteBatch, record_of, insert_all, numbered, added}
use lsm_tree_key_value_stora.Db.Contents.{Before, prefer, newest-Before}

values-insert :
    (P : Record → Type 0) (k : VersionKey) (r : Record) (m : Entries VersionKey Record)
    → P r
    → All P (values m)
    → All P (values (SortedMap.insert k r m))
unfolding SortedMap.insert
values-insert P k r [] p a = (p, tt)
values-insert P k r (e ∷ m) p a = ground (arith, values-insert P k r m p a.1)

pub iter-insert :
    (P : Record → Type 0) (r : Record) (m : MemTable)
    → P r
    → All P (MemTable.iter m)
    → All P (MemTable.iter (MemTable.insert r m))
unfolding MemTable.iter MemTable.insert
iter-insert P r m p a = values-insert P (version_key r) r m.map p a

Before-insert :
    (xs : List Record) (r : Record) (m : MemTable)
    → All (λ x. x.seq < r.seq) xs
    → Before xs (MemTable.iter m)
    → Before xs (MemTable.iter (MemTable.insert r m))
Before-insert [] r m a b = tt
Before-insert (x ∷ xs) r m a b =
    (iter-insert (λ y. x.seq < y.seq) r m a.0 b.0, Before-insert xs r m a.1 b.1)

pub prefer_assoc : (a b o : Option Record) → prefer a (prefer b o) ≡ prefer (prefer a b) o
prefer_assoc none b o = refl
prefer_assoc (some r) b o = refl

-- The newest version of a list that the first one is older than.
pub newest-older :
    (key : Bytes) (bound : ℕ) (r : Record) (rs : List Record)
    → All (λ s. r.seq < s.seq) rs
    → newest key bound (r ∷ rs) ≡ prefer (newest key bound rs) (pick key bound r)
unfolding newest
newest-older key bound r rs a =
    newest-Before key bound (r ∷ []) rs (a, tt)
    ∙ ap (prefer (newest key bound rs)) (one (pick key bound r))
  where
    one : (o : Option Record) → later o none ≡ o
    one none = refl
    one (some r) = refl

-- An insert of a version that is younger than all others.
newest-younger :
    (key : Bytes) (bound : ℕ) (r : Record) (m : MemTable)
    → MemTable.Laws.IsValid m
    → All (λ s. s.seq < r.seq) (MemTable.iter m)
    → newest key bound (MemTable.iter (MemTable.insert r m))
      ≡ prefer (pick key bound r) (newest key bound (MemTable.iter m))
newest-younger key bound r m v a =
    newest-insert key bound r m v
    ∙ young (newest key bound (MemTable.iter m)) (newest-IsNewest key bound (MemTable.iter m))
  where
    young :
        (o : Option Record)
        → IsNewest key bound (MemTable.iter m) o
        → later (pick key bound r) o ≡ prefer (pick key bound r) o
    young none n = elim (Bool-cases (sees key bound r)) [ inl e ↦ rw e | inr e ↦ rw e ]
    young (some s) n = elim (Bool-cases (sees key bound r)) [
      | inl e ↦
          let l = All-at _ s (MemTable.iter m) a n.0 in rw (e, le→ltb r.seq s.seq (omega arith))
      | inr e ↦ rw e
    ]

pub record_of-seq :
    (key : Bytes) (value : Option Bytes) (seq : ℕ) → (record_of key value seq).seq ≡ seq
unfolding put tombstone
record_of-seq key none seq = refl
record_of-seq key (some v) seq = refl

pub added_lem : (x n : ℕ) → x + n < 2 ^ 64 → added x n ≡ x + n
added_lem x n h = omega arith

pub numbered-above :
    (n seq : ℕ) (ops : WriteBatch)
    → n < seq
    → seq + length ops < 2 ^ 64
    → All (λ r. n < r.seq) (numbered seq ops)
unfolding numbered
numbered-above n seq [] h k = tt
numbered-above n seq ((key, value) ∷ ops) h k =
    let e = added_lem seq 1 (omega arith) in
    (
      subst (λ s. n < s) (sym (record_of-seq key value seq)) h,
      subst (λ s. All (λ r. n < r.seq) (numbered s ops)) (sym e)
          (numbered-above n (seq + 1) ops (omega arith) (omega arith)),
    )

-- A MemTable behind the older versions `old`, with all sequence numbers below `seq`.
pub record Newer (old : List Record) (seq : ℕ) (m : MemTable) : Type 0 where
  pub valid : MemTable.Laws.IsValid m
  pub after : Before old (MemTable.iter m)
  pub below : All (λ r. r.seq < seq) (MemTable.iter m)
  pub old_below : All (λ r. r.seq < seq) old

insert-Newer :
    (old : List Record) (seq : ℕ) (m : MemTable) (r : Record)
    → r.seq ≡ seq
    → seq + 1 < 2 ^ 64
    → Newer old seq m
    → Newer old (seq + 1) (MemTable.insert r m)
insert-Newer old seq m r e h n = record {
  valid = MemTable.Laws.insert-IsValid r m (omega arith) n.valid;
  after = Before-insert old r m (All-map old (λ x l. omega arith) n.old_below) n.after;
  below =
      iter-insert (λ x. x.seq < seq + 1) r m (omega arith)
        (All-map (MemTable.iter m) (λ x l. omega arith) n.below);
  old_below = All-map old (λ x l. omega arith) n.old_below;
}

module _ (old : List Record) where
  pub insert_all-Newer :
      (ops : WriteBatch) (seq : ℕ) (m : MemTable)
      → seq + length ops < 2 ^ 64
      → Newer old seq m
      → Newer old (seq + length ops) (insert_all (numbered seq ops) m)
        × ((key : Bytes) (bound : ℕ)
            → newest key bound (MemTable.iter (insert_all (numbered seq ops) m))
              ≡ prefer (newest key bound (numbered seq ops)) (newest key bound (MemTable.iter m)))
  unfolding insert_all numbered
  insert_all-Newer [] seq m h n =
      (subst (λ k. Newer old k m) (omega arith) n, λ key bound. unfold newest in refl)
  insert_all-Newer ((k, value) ∷ ops) seq m h n =
      let r = record_of k value seq in
      let e = record_of-seq k value seq in
      let a = added_lem seq 1 (omega arith) in
      let (n', f) =
        insert_all-Newer ops (seq + 1) (MemTable.insert r m) (omega arith)
          (insert-Newer old seq m r e (omega arith) n) in
      rw a (
        subst (λ j. Newer old j (insert_all (numbered (seq + 1) ops) (MemTable.insert r m)))
            (omega arith) n',
        λ key bound.
            f key bound
            ∙ ap (prefer (newest key bound (numbered (seq + 1) ops))) (
                newest-younger key bound r m n.valid
                  (All-map (MemTable.iter m) (λ x l. omega (arith, e)) n.below))
            ∙ prefer_assoc _ (pick key bound r) (newest key bound (MemTable.iter m))
            ∙ ap (λ o. prefer o (newest key bound (MemTable.iter m)))
                (sym (
                  newest-older key bound r (numbered (seq + 1) ops)
                    (numbered-above r.seq (seq + 1) ops (omega (arith, e)) (omega arith)))),
      )

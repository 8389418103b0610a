-- ===== src/Db/Batches.antt =====
-- What a batch of writes means to a reader, said without the records that src/db.rs makes of it.
use lsm_tree_key_value_stora.Prelude.{
  ℕ, ◌+◌, ◌-◌, ◌^◌, ◌<◌, ◌≤◌, ◌≡◌, refl, ap, sym, ◌∙◌, Option, none, some, List, [], ◌∷◌, arith,
  length, take, inl, inr, Bool-cases, if◌then◌else◌, le→ltb, lt→ltb, ltb, ◌==◌, zero, suc,
}
use lsm_tree_key_value_stora.Order.{key_eq, bytes_ord}
use lsm_tree_key_value_stora.Bytes.{Bytes}
use lsm_tree_key_value_stora.Record.{Record, put, tombstone}
use lsm_tree_key_value_stora.Visible.{sees, newest, pick, value_of}
use lsm_tree_key_value_stora.Errors.{Error, Result, ok, err}
use lsm_tree_key_value_stora.MemTable
use lsm_tree_key_value_stora.Wal
use lsm_tree_key_value_stora.Wal.{Wal}
use lsm_tree_key_value_stora.SsTable.Blocks.{Part}
use lsm_tree_key_value_stora.Db.{
  Crates, DbInner, WriteBatch, record_of, numbered, insert_all, added, triggered, published, health,
  get_at, write_batch, write_batch_healthy,
}
use lsm_tree_key_value_stora.Db.Health.{healthy}
use lsm_tree_key_value_stora.Db.Contents.{prefer, contents, IsValid}
use lsm_tree_key_value_stora.Db.Reads.{get_at-contents}
use lsm_tree_key_value_stora.Db.Writes.{write_batch-newest}
use lsm_tree_key_value_stora.Db.Numbers.{
  prefer_assoc, record_of-seq, added_lem, numbered-above, newest-older,
}

-- The value of a key behind a list of writes, each of which sets a key to a value or deletes it: the
-- last write of the key decides, and without one the value before.
abbrev pub behind : Bytes → WriteBatch → Option Bytes → Option Bytes
behind key [] before = before
behind key (op ∷ ops) before = behind key ops (if key_eq op.0 key then op.1 else before)

module _ (key : Bytes) (bound : ℕ) where
  first_seen :
      (k : Bytes) (value : Option Bytes) (seq : ℕ) (o : Option Record)
      → seq < bound
      → value_of (prefer (pick key bound (record_of k value seq)) o)
        ≡ (if key_eq k key then value else value_of o)
  unfolding sees put tombstone
  first_seen k none seq o h = elim (Bool-cases (key_eq k key)) [
    | inl e ↦ rw (e, lt→ltb seq bound h) refl
    | inr e ↦ rw e refl
  ]
  first_seen k (some v) seq o h = elim (Bool-cases (key_eq k key)) [
    | inl e ↦ rw (e, lt→ltb seq bound h) refl
    | inr e ↦ rw e refl
  ]

  first_unseen :
      (k : Bytes) (value : Option Bytes) (seq : ℕ) (o : Option Record)
      → bound ≤ seq
      → prefer (pick key bound (record_of k value seq)) o ≡ o
  unfolding sees put tombstone
  first_unseen k none seq o h = elim (Bool-cases (key_eq k key)) [
    | inl e ↦ rw (e, le→ltb seq bound h) refl
    | inr e ↦ rw e refl
  ]
  first_unseen k (some v) seq o h = elim (Bool-cases (key_eq k key)) [
    | inl e ↦ rw (e, le→ltb seq bound h) refl
    | inr e ↦ rw e refl
  ]

  behind-nothing : (n : ℕ) (before : Option Bytes) → behind key (take n []) before ≡ before
  behind-nothing zero before = refl
  behind-nothing (suc n) before = refl

  -- Of the writes that are numbered from `seq` on, a reader sees those that its bound is above.
  pub numbered-behind :
      (ops : WriteBatch) (seq : ℕ) (o : Option Record)
      → seq + length ops < 2 ^ 64
      → value_of (prefer (newest key bound (numbered seq ops)) o)
        ≡ behind key (take (bound - seq) ops) (value_of o)
  unfolding numbered
  numbered-behind [] seq o h = unfold newest in sym (behind-nothing (bound - seq) (value_of o))
  numbered-behind ((k, value) ∷ ops) seq o h =
      let r = record_of k value seq in
      let e = record_of-seq k value seq in
      let split : value_of (prefer (newest key bound (numbered seq ((k, value) ∷ ops))) o)
          ≡ behind key (take (bound - (seq + 1)) ops) (value_of (prefer (pick key bound r) o)) =
        rw (added_lem seq 1 (omega arith)) (
          ap (λ x. value_of (prefer x o))
            (newest-older key bound r (numbered (seq + 1) ops)
              (numbered-above r.seq (seq + 1) ops (omega (arith, e)) (omega arith)))
          ∙ ap value_of
              (sym (prefer_assoc (newest key bound (numbered (seq + 1) ops)) (pick key bound r) o))
          ∙ numbered-behind ops (seq + 1) (prefer (pick key bound r) o) (omega arith)) in
      elim (Bool-cases (ltb seq bound)) [
        | inl q ↦
            let l : seq < bound = ground (arith, q) in
            let n : bound - seq ≡ suc (bound - (seq + 1)) = omega (arith, l) in
            split
            ∙ ap (behind key (take (bound - (seq + 1)) ops)) (first_seen k value seq o l)
            ∙ ap (λ m. behind key (take m ((k, value) ∷ ops)) (value_of o)) (sym n)
        | inr q ↦
            let l : bound ≤ seq = ground (arith, q) in
            let n : bound - seq ≡ 0 = omega (arith, l) in
            let m : bound - (seq + 1) ≡ 0 = omega (arith, l) in
            split
            ∙ ap (λ x. behind key (take x ops) (value_of (prefer (pick key bound r) o))) m
            ∙ ap value_of (first_unseen k value seq o l)
            ∙ ap (λ x. behind key (take x ((k, value) ∷ ops)) (value_of o)) (sym n)
      ]

triggered-failed : (db : DbInner) → (triggered db).failed ≡ db.failed
unfolding triggered
triggered-failed db = elim (Bool-cases (MemTable.is_full db.active)) [
  | inl e ↦ rw e refl
  | inr e ↦ rw e refl
]

published-failed :
    (rs : List Record) (q : Result (Unit {0}) × Wal) (db : DbInner)
    → (published rs q db).1.failed ≡ db.failed
published-failed rs (ok u, w) db =
    triggered-failed (record db { wal = w; active = insert_all rs db.active })
published-failed rs (err e, w) db = refl

-- No end of a batch is a failure that is kept.
pub write_batch-failed :
    (c : Crates) (ops : WriteBatch) (db : DbInner)
    → db.failed ≡ none
    → (write_batch c ops db).1.failed ≡ none
unfolding write_batch write_batch_healthy health
write_batch-failed c ops db f =
    ap (λ p. p.1.failed) (healthy (write_batch_healthy c ops) db f)
    ∙ (elim (Bool-cases (length ops == 0)) [
      | inl e ↦ rw e f
      | inr e ↦ rw e (
          published-failed (numbered db.next_seq ops)
            (Wal.append_batch c.hashes (numbered db.next_seq ops) db.wal)
            (record db { next_seq = added db.next_seq (length ops) })
          ∙ f)
    ])

-- A batch on a valid database that has not failed, with sequence numbers left. The database stays
-- valid and does not count as failed. Where the batch succeeds, a read of a key at a bound answers what
-- the last of the batch's writes of that key that the bound is above made of it, absent for a delete, and
-- without such a write the value before: the first write has the number that was next, and each other
-- the one behind. So a reader whose bound is not above the next number sees nothing of the batch. Where
-- the batch fails, each read answers as before.
pub write_batch-get_at :
    (c : Crates) (pss : List (List Part)) (ops : WriteBatch) (db : DbInner)
    → IsValid c pss db
    → db.failed ≡ none
    → db.next_seq + length ops < 2 ^ 64
    → IsValid c pss (write_batch c ops db).1
      × ((write_batch c ops db).1.failed ≡ none)
      × ((write_batch c ops db).0 ≡ ok tt
          → (key : Bytes) (bound : ℕ)
          → (get_at c key bound (write_batch c ops db).1).0
            ≡ ok (
                behind key
                  (take (bound - db.next_seq) ops)
                  (value_of (newest key bound (contents pss db)))))
      × ((e : Error)
          → (write_batch c ops db).0 ≡ err e
          → (key : Bytes) (bound : ℕ)
          → (get_at c key bound (write_batch c ops db).1).0 ≡ (get_at c key bound db).0)
write_batch-get_at c pss ops db v f room =
    let (v', _, _, sees, same) = write_batch-newest c pss ops db v f room in
    let f' = write_batch-failed c ops db f in
    (
      v',
      f',
      λ k key bound.
          (get_at-contents c key bound pss (write_batch c ops db).1 v' f').0
          ∙ ap (λ o. ok (value_of o)) (sees k key bound)
          ∙ ap ok
              (numbered-behind key bound ops db.next_seq (newest key bound (contents pss db)) room),
      λ e k key bound.
          (get_at-contents c key bound pss (write_batch c ops db).1 v' f').0
          ∙ ap (λ rs. ok (value_of (newest key bound rs))) (same e k)
          ∙ sym (get_at-contents c key bound pss db v f).0,
    )

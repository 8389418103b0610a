-- ===== src/Db/Writes.antt =====
-- What a write and a batch of writes change: a reader sees the new versions where its bound lets it, and
-- everything else as before; where the log refuses, nothing.
use lsm_tree_key_value_stora.Prelude.{
  ℕ, suc, ◌+◌, ◌^◌, ◌<◌, ◌≡◌, refl, ap, ap₂, sym, ◌∙◌, subst, Option, none, List, [], ◌∷◌, ◌++◌,
  arith, length, All, All-append, All-left, All-right, inl, inr, Bool-cases, append_assoc,
  eq-false_of_pos,
}
use lsm_tree_key_value_stora.Order.{version_ord, nat_ord}
use lsm_tree_key_value_stora.Errors.{Error, Result, ok, err}
use lsm_tree_key_value_stora.Bytes.{Bytes}
use lsm_tree_key_value_stora.Record.{Record}
use lsm_tree_key_value_stora.Visible.{newest}
use lsm_tree_key_value_stora.Visible.Runs.{All-map}
use lsm_tree_key_value_stora.MemTable
use lsm_tree_key_value_stora.MemTable.{MemTable, u64_max}
use lsm_tree_key_value_stora.Wal
use lsm_tree_key_value_stora.Wal.{Wal}
use lsm_tree_key_value_stora.SsTable.Blocks.{Part}
use lsm_tree_key_value_stora.Db.{
  Crates, WriteBatch, DbInner, triggered, insert_all, published, numbered, added, health, write,
  write_healthy, write_batch, write_batch_healthy,
}
use lsm_tree_key_value_stora.Db.Health.{healthy}
use lsm_tree_key_value_stora.Db.Contents.{in_tables, in_frozen, contents, IsValid, prefer}
use lsm_tree_key_value_stora.Db.Reads.{newest_in_layers}
use lsm_tree_key_value_stora.Db.Numbers.{prefer_assoc, added_lem, Newer, insert_all-Newer}

-- A single write is a batch of one.
pub write-write_batch :
    (c : Crates) (key : Bytes) (value : Option Bytes) (db : DbInner)
    → write c key value db ≡ write_batch c ((key, value) ∷ []) db
unfolding write write_batch write_healthy write_batch_healthy numbered Wal.append
write-write_batch c key value db = refl

module _ (c : Crates) (pss : List (List Part)) (ops : WriteBatch) (db : DbInner)
    (v : IsValid c pss db) (room : db.next_seq + length ops < 2 ^ 64) where
  abbrev records : List Record
  records = numbered db.next_seq ops

  abbrev logged : Result (Unit {0}) × Wal
  logged = Wal.append_batch c.hashes records db.wal

  abbrev old : List Record
  old = in_tables pss ++ in_frozen db.frozen

  regrouped : All (λ r. r.seq < db.next_seq) (old ++ MemTable.iter db.active)
  regrouped =
      subst (All (λ r. r.seq < db.next_seq))
        (sym (append_assoc (in_tables pss) (in_frozen db.frozen) (MemTable.iter db.active)))
        v.seq_below

  active-Newer : Newer old db.next_seq db.active
  active-Newer = record {
    valid = v.active_valid;
    after = v.active_after;
    below = All-right _ old (MemTable.iter db.active) regrouped;
    old_below = All-left _ old (MemTable.iter db.active) regrouped;
  }

  -- The state with a MemTable that is `Newer`.
  grown-IsValid :
      (w : Wal) (m : MemTable) (n signals : ℕ)
      → n < 2 ^ 64
      → Newer old n m
      → IsValid c pss (record db { next_seq = n; wal = w; active = m; flush_signals = signals })
  grown-IsValid w m n signals h k = record {
    tables = v.tables;
    active_valid = k.valid;
    frozen_valid = v.frozen_valid;
    layered = v.layered;
    frozen_after = v.frozen_after;
    active_after = k.after;
    seq_below =
        subst (All (λ r. r.seq < n))
          (append_assoc (in_tables pss) (in_frozen db.frozen) (MemTable.iter m))
          (All-append _ old (MemTable.iter m) k.old_below k.below);
    seq_fits = h;
  }

  -- What a reader sees after the batch.
  abbrev Sees : DbInner → Type 0
  Sees db' =
      (key : Bytes) (bound : ℕ)
      → newest key bound (contents pss db')
        ≡ prefer (newest key bound records) (newest key bound (contents pss db))

  abbrev Same : DbInner → Type 0
  Same db' = contents pss db' ≡ contents pss db

  abbrev Outcome : Result (Unit {0}) × Wal → Result (Unit {0}) × DbInner → Type 0
  Outcome q p =
      IsValid c pss p.1
      × (p.0 ≡ q.0)
      × (p.1.wal ≡ q.1)
      × (p.0 ≡ ok tt → Sees p.1)
      × ((e : Error) → p.0 ≡ err e → Same p.1)

  grown-Sees :
      (db' : DbInner)
      → IsValid c pss db'
      → db'.frozen ≡ db.frozen
      → db'.active ≡ insert_all records db.active
      → Sees db'
  grown-Sees db' v' f a key bound =
      newest_in_layers c key bound pss db' v'
      ∙ ap₂
          (λ m o.
            prefer (newest key bound (MemTable.iter m))
              (prefer (newest key bound (in_frozen o)) (newest key bound (in_tables pss))))
          a f
      ∙ ap (λ o. prefer o below)
          ((insert_all-Newer old ops db.next_seq db.active room active-Newer).1 key bound)
      ∙ sym (
          prefer_assoc (newest key bound records) (newest key bound (MemTable.iter db.active))
            below)
      ∙ ap (prefer (newest key bound records)) (sym (newest_in_layers c key bound pss db v))
    where
      below : Option Record
      below = prefer (newest key bound (in_frozen db.frozen)) (newest key bound (in_tables pss))

  triggered_cases :
      (P : DbInner → Type 0) (x : DbInner)
      → ((n : ℕ) → P (record x { flush_signals = n }))
      → P (triggered x)
  unfolding triggered
  triggered_cases P x k = elim (Bool-cases (MemTable.is_full x.active)) [
    | inl e ↦ rw e (k (x.flush_signals + 1))
    | inr e ↦ rw e (k x.flush_signals)
  ]

  published-Outcome :
      (q : Result (Unit {0}) × Wal)
      → Outcome q (published records q (record db { next_seq = added db.next_seq (length ops) }))
  published-Outcome (err e, w) = rw (added_lem db.next_seq (length ops) room) (
    grown-IsValid w db.active (db.next_seq + length ops) db.flush_signals room (record {
      valid = active-Newer.valid;
      after = active-Newer.after;
      below = All-map (MemTable.iter db.active) (λ r l. omega arith) active-Newer.below;
      old_below = All-map old (λ r l. omega arith) active-Newer.old_below;
    }),
    refl,
    refl,
    λ h. absurd (cc h),
    λ x h. refl,
  )
  published-Outcome (ok u, w) =
      triggered_cases (λ db'. Outcome (ok tt, w) (ok tt, db'))
        (record db {
          next_seq = added db.next_seq (length ops);
          wal = w;
          active = insert_all records db.active;
        })
        (λ n.
          let k = grown w n in (k, refl, refl, λ _. grown-Sees _ k refl refl, λ e h. absurd (cc h)))
    where
      grown :
          (w : Wal) (n : ℕ)
          → IsValid c pss (record db {
            next_seq = added db.next_seq (length ops);
            wal = w;
            active = insert_all records db.active;
            flush_signals = n;
          })
      grown w n =
          subst
            (λ s. IsValid c pss (record db {
              next_seq = s;
              wal = w;
              active = insert_all records db.active;
              flush_signals = n;
            }))
            (sym (added_lem db.next_seq (length ops) room))
            (grown-IsValid w (insert_all records db.active) (db.next_seq + length ops) n room
              (insert_all-Newer old ops db.next_seq db.active room active-Newer).0)

healthy-Outcome :
    (c : Crates) (pss : List (List Part)) (ops : WriteBatch) (db : DbInner) (v : IsValid c pss db)
    (room : db.next_seq + length ops < 2 ^ 64)
    → Outcome c pss ops db v room (logged c pss ops db v room) (write_batch_healthy c ops db)
unfolding write_batch_healthy
healthy-Outcome c pss [] db v room = (
  v,
  unfold Wal.append_batch numbered in refl,
  unfold Wal.append_batch numbered in refl,
  λ h key bound. unfold numbered newest in refl,
  λ e h. refl,
)
healthy-Outcome c pss (op ∷ ops) db v room =
    rw (eq-false_of_pos (suc (length ops)) (omega arith))
      (published-Outcome c pss (op ∷ ops) db v room (logged c pss (op ∷ ops) db v room))

-- A batch on a database that has not failed, with sequence numbers left, ends as its append to the log
-- ends and leaves the log as the append leaves it. The database stays valid. Where the append
-- succeeds, each read at any bound sees the newest version of its key in the batch that the bound
-- lets it see, and otherwise what it saw before; where it fails, the database holds what it held.
pub write_batch-newest :
    (c : Crates) (pss : List (List Part)) (ops : WriteBatch) (db : DbInner)
    → IsValid c pss db
    → db.failed ≡ none
    → db.next_seq + length ops < 2 ^ 64
    → IsValid c pss (write_batch c ops db).1
      × ((write_batch c ops db).0 ≡ (Wal.append_batch c.hashes (numbered db.next_seq ops) db.wal).0)
      × ((write_batch c ops db).1.wal
          ≡ (Wal.append_batch c.hashes (numbered db.next_seq ops) db.wal).1)
      × ((write_batch c ops db).0 ≡ ok tt
          → (key : Bytes) (bound : ℕ)
          → newest key bound (contents pss (write_batch c ops db).1)
            ≡ prefer
                (newest key bound (numbered db.next_seq ops))
                (newest key bound (contents pss db)))
      × ((e : Error)
          → (write_batch c ops db).0 ≡ err e
          → contents pss (write_batch c ops db).1 ≡ contents pss db)
unfolding write_batch health
write_batch-newest c pss ops db v f room =
    subst (Outcome c pss ops db v room (logged c pss ops db v room))
      (sym (healthy (write_batch_healthy c ops) db f)) (healthy-Outcome c pss ops db v room)

-- ===== src/Db/Reads.antt =====
-- A read answers the newest version below its bound, of all versions that the database holds.
use lsm_tree_key_value_stora.Prelude.{
  ℕ, ◌≡◌, refl, ap, sym, ◌∙◌, subst, Option, none, some, List, [], ◌∷◌, ◌++◌, append_assoc,
}
use lsm_tree_key_value_stora.Errors.{Result, ok, err}
use lsm_tree_key_value_stora.Bytes.{Bytes}
use lsm_tree_key_value_stora.Record.{Record}
use lsm_tree_key_value_stora.Visible.{newest, value_of}
use lsm_tree_key_value_stora.MemTable
use lsm_tree_key_value_stora.MemTable.{MemTable}
use lsm_tree_key_value_stora.MemTable.Laws.Lookup.{get_at-eq-newest}
use lsm_tree_key_value_stora.SsTable.Blocks.{Part, all_records}
use lsm_tree_key_value_stora.SsTable.Lookup.{IsTable, get_at-newest}
use lsm_tree_key_value_stora.SsTable.Reader
use lsm_tree_key_value_stora.SsTable.Reader.{SsTableReader}
use lsm_tree_key_value_stora.Db.{
  Crates, SsTable, DbInner, search_tables, or_older, get_frozen, get_healthy, get_at, health,
  from_tables, or_else, value_in,
}
use lsm_tree_key_value_stora.Db.Health.{healthy}
use lsm_tree_key_value_stora.Db.Contents.{
  Holds, in_tables, Before, Layered, in_frozen, FrozenIsValid, contents, IsValid, prefer,
  newest-Before,
}

module _ (c : Crates) (key : Bytes) (bound : ℕ) where
  -- The answer of the tables, and tables that differ in their caches only.
  abbrev Finds : List (List Part) → Result (Option Record) × List SsTable → Type 0
  Finds pss (r, ts) = (r ≡ ok (newest key bound (in_tables pss))) × Holds c ts pss

  or_older-Finds :
      (t : SsTable) (ps : List Part) (pss : List (List Part))
      (rest : Result (Option Record) × List SsTable)
      → IsTable c.lz4 c.seeded ps t.reader
      → Before (all_records ps) (in_tables pss)
      → Finds pss rest
      → Finds (ps ∷ pss) (or_older t (Reader.get_at c.lz4 c.seeded key bound) rest)
  or_older-Finds t ps pss (ok none, ts) w b (e, h) =
      let n : none ≡ newest key bound (in_tables pss) = cc e in
      let (r, w') = get_at-newest c.lz4 c.seeded key bound ps t.reader w in
      (
        r
            ∙ ap ok (
                ap (λ o. prefer o (newest key bound (all_records ps))) n
                ∙ sym (newest-Before key bound (all_records ps) (in_tables pss) b)),
        (w', h),
      )
  or_older-Finds t ps pss (ok (some r), ts) w b (e, h) =
      let n : some r ≡ newest key bound (in_tables pss) = cc e in
      (
        ap ok (
            ap (λ o. prefer o (newest key bound (all_records ps))) n
            ∙ sym (newest-Before key bound (all_records ps) (in_tables pss) b)),
        (w, h),
      )
  or_older-Finds t ps pss (err x, ts) w b (e, h) = absurd (cc e)

  search_tables-Finds :
      (ts : List SsTable) (pss : List (List Part))
      → Holds c ts pss
      → Layered pss
      → Finds pss (search_tables c key bound ts)
  unfolding search_tables
  search_tables-Finds [] [] h l = (unfold newest in refl, tt)
  search_tables-Finds [] (ps ∷ pss) h l = absurd h
  search_tables-Finds (t ∷ ts) [] h l = absurd h
  search_tables-Finds (t ∷ ts) (ps ∷ pss) h l =
      or_older-Finds t ps pss (search_tables c key bound ts) h.0 l.0
        (search_tables-Finds ts pss h.1 l.1)

  get_frozen-newest :
      (o : Option MemTable)
      → FrozenIsValid o
      → get_frozen key bound o ≡ newest key bound (in_frozen o)
  get_frozen-newest none v = unfold newest in refl
  get_frozen-newest (some m) v = get_at-eq-newest key bound m v

  module _ (pss : List (List Part)) where
    -- The newest version is that of the newest layer that has one.
    pub newest_in_layers :
        (db : DbInner)
        → IsValid c pss db
        → newest key bound (contents pss db)
          ≡ prefer
              (newest key bound (MemTable.iter db.active))
              (prefer (newest key bound (in_frozen db.frozen)) (newest key bound (in_tables pss)))
    newest_in_layers db v =
        ap (newest key bound)
          (sym (append_assoc (in_tables pss) (in_frozen db.frozen) (MemTable.iter db.active)))
        ∙ newest-Before key bound (in_tables pss ++ in_frozen db.frozen) (MemTable.iter db.active)
            v.active_after
        ∙ ap (prefer (newest key bound (MemTable.iter db.active)))
            (newest-Before key bound (in_tables pss) (in_frozen db.frozen) v.frozen_after)

    -- An answer, and a database that is as it was but for the caches.
    abbrev Reads : DbInner → Option Bytes → Result (Option Bytes) × DbInner → Type 0
    Reads db o (r, db') = (r ≡ ok o) × IsValid c pss db' × (contents pss db' ≡ contents pss db)

    through_tables :
        (db : DbInner) (p : Result (Option Record) × List SsTable)
        → IsValid c pss db
        → Finds pss p
        → Reads db (value_of (newest key bound (in_tables pss))) (from_tables p db)
    through_tables db (ok r, ts) v (e, h) =
        let n : r ≡ newest key bound (in_tables pss) = cc e in
        (
          ap ok (value_in-eq r ∙ ap value_of n),
          record {
            tables = h;
            active_valid = v.active_valid;
            frozen_valid = v.frozen_valid;
            layered = v.layered;
            frozen_after = v.frozen_after;
            active_after = v.active_after;
            seq_below = v.seq_below;
            seq_fits = v.seq_fits;
          },
          refl,
        )
      where
        value_in-eq : (r : Option Record) → value_in r ≡ value_of r
        value_in-eq none = refl
        value_in-eq (some r) = refl
    through_tables db (err x, ts) v (e, h) = absurd (cc e)

    or_else-Reads :
        (db : DbInner) (o p : Option Record) (next : DbInner → Result (Option Bytes) × DbInner)
        → IsValid c pss db
        → Reads db (value_of p) (next db)
        → Reads db (value_of (prefer o p)) (or_else o next db)
    or_else-Reads db none p next v k = k
    or_else-Reads db (some r) p next v k = (refl, v, refl)

    get_healthy-Reads :
        (db : DbInner)
        → IsValid c pss db
        → Reads db (value_of (newest key bound (contents pss db))) (get_healthy c key bound db)
    unfolding get_healthy
    get_healthy-Reads db v =
        rw (newest_in_layers db v, get_at-eq-newest key bound db.active v.active_valid)
          (or_else-Reads db (newest key bound (MemTable.iter db.active)) _ _ v (
            rw (get_frozen-newest db.frozen v.frozen_valid) (
              or_else-Reads db (newest key bound (in_frozen db.frozen)) _ _ v (
                through_tables db (search_tables c key bound db.sstables) v
                  (search_tables-Finds db.sstables pss v.tables v.layered)))))

    -- A read of a valid database that has not failed answers the value of the newest version below the
    -- bound among all that its MemTables and tables hold, absent for a tombstone or where there is
    -- none; it changes nothing that a read sees.
    pub get_at-contents :
        (db : DbInner)
        → IsValid c pss db
        → db.failed ≡ none
        → ((get_at c key bound db).0 ≡ ok (value_of (newest key bound (contents pss db))))
          × IsValid c pss (get_at c key bound db).1
          × (contents pss (get_at c key bound db).1 ≡ contents pss db)
    unfolding get_at health
    get_at-contents db v f =
        subst (Reads db (value_of (newest key bound (contents pss db))))
          (sym (healthy (get_healthy c key bound) db f)) (get_healthy-Reads db v)

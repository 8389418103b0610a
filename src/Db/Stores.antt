-- ===== src/Db/Stores.antt =====
-- A table that the database writes, renames and opens holds the records that it was given.
use lsm_tree_key_value_stora.Prelude.{
  ℕ, ◌<◌, ◌^◌, ◌≡◌, refl, sym, ◌∙◌, subst, Bool, List, [], length, All,
}
use lsm_tree_key_value_stora.Errors.{Result, ok, err, >>=-eq_ok}
use lsm_tree_key_value_stora.Bytes.{Bytes}
use lsm_tree_key_value_stora.Record.{Record, usize_mod}
use lsm_tree_key_value_stora.Record.RoundTrip.{Fits}
use lsm_tree_key_value_stora.Visible.{IsRun}
use lsm_tree_key_value_stora.Bloom
use lsm_tree_key_value_stora.Bloom.Laws.{Encodable}
use lsm_tree_key_value_stora.Files.{File}
use lsm_tree_key_value_stora.Wal.Decode.{encodings}
use lsm_tree_key_value_stora.SsTable.{IsLossless}
use lsm_tree_key_value_stora.SsTable.Writer
use lsm_tree_key_value_stora.SsTable.Reader.{ReadFile, SsTableReader, open_table}
use lsm_tree_key_value_stora.SsTable.Blocks.{Part, all_records}
use lsm_tree_key_value_stora.SsTable.Lookup.{IsTable}
use lsm_tree_key_value_stora.SsTable.Reading.{Reads}
use lsm_tree_key_value_stora.SsTable.RoundTrip.{open_table-write}
use lsm_tree_key_value_stora.Db.{Crates}
use lsm_tree_key_value_stora.Db.Disk.{Disk, store_table, sized_filter, written_bytes}

-- What is documented of the crates: lz4 gives back what it took, and the filters that the formulas
-- ask for have bits and probes, which fit their fields.
pub record IsSound (c : Crates) : Type 0 where
  pub lossless : IsLossless c.lz4
  pub sized : (n : ℕ) → Encodable (Bloom.new (c.sizing n).0 (c.sizing n).1)

-- What is documented of the file system: a file opened with `truncate` is empty, and one that is
-- opened again holds the bytes written to it.
pub record IsFaithful (d : Disk) : Type 0 where
  pub truncated : (f : File) → d.table_file ≡ ok f → f.contents ≡ []
  pub reopened : (bytes : Bytes) (file : ReadFile) → d.reopen bytes ≡ ok file → Reads bytes file

-- The table that is written of these records is smaller than 4 GiB: its blocks have four-byte lengths.
abbrev pub TableFits : Crates → Disk → List Record → Type 0
TableFits c d records =
    (f : File)
    → d.table_file ≡ ok f
    → length (Writer.write c.lz4 c.seeded (sized_filter c records) records f).1.contents < 2 ^ 32

-- The records can be written: they are a run, their integers fit their fields, and all of them fit in
-- memory.
pub record Storable (records : List Record) : Type 0 where
  pub run : IsRun records
  pub fits : All Fits records
  pub in_memory : length (encodings records) < usize_mod

-- The table holds these records.
pub record Stored (c : Crates) (records : List Record) (t : SsTableReader) : Type 0 where
  pub parts : List Part
  pub table : IsTable c.lz4 c.seeded parts t
  pub same : all_records parts ≡ records

written_cases :
    (p : Result ℕ × File) (bytes : Bytes)
    → written_bytes p ≡ ok bytes
    → (n : ℕ) × (p.0 ≡ ok n) × (p.1.contents ≡ bytes)
written_cases (ok n, f) bytes h = (n, refl, cc h)
written_cases (err e, f) bytes h = absurd (cc h)

pub store_table-Stored :
    (c : Crates) (d : Disk) (bloom_enabled : Bool) (records : List Record) (t : SsTableReader)
    → IsSound c
    → IsFaithful d
    → Storable records
    → TableFits c d records
    → store_table c d bloom_enabled records ≡ ok t
    → Stored c records t
unfolding store_table open_table
store_table-Stored c d bloom_enabled records t s f r small h =
    let filter = sized_filter c records in
    let (file, e1, h1) = >>=-eq_ok d.table_file _ h in
    let p = Writer.write c.lz4 c.seeded filter records file in
    let (bytes, e2, h2) = >>=-eq_ok (written_bytes p) _ h1 in
    let (u, e3, h3) = >>=-eq_ok d.renamed _ h2 in
    let (v, e4, h4) = >>=-eq_ok d.dir_synced _ h3 in
    let (n, ok_n, same_bytes) = written_cases p bytes e2 in
    let (opened, e5, h5) = >>=-eq_ok (d.reopen bytes) _ h4 in
    let reads = f.reopened bytes opened e5 in
    let (parts, t', e, table, whole, _) =
      open_table-write c.lz4 c.seeded filter records file n opened bloom_enabled s.lossless
        (s.sized (length records)) r.fits r.run r.in_memory (f.truncated file e1) ok_n
        (small file e1) (subst (λ b. Reads b opened) (sym same_bytes) reads) in
    let k : ok t' ≡ ok t = sym e ∙ h5 in
    let same_t : t' ≡ t = cc k in
    record {
      parts = parts;
      table = subst (IsTable c.lz4 c.seeded parts) same_t table;
      same = whole;
    }

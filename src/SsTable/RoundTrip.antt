-- ===== src/SsTable/RoundTrip.antt =====
-- Opening the file that a write left: the reader is a table of the records that were written.
use lsm_tree_key_value_stora.Prelude.{
  ℕ, ◌+◌, ◌-◌, ◌%◌, ◌^◌, ◌<◌, ◌≡◌, refl, ap, sym, ◌∙◌, subst, Bool, true, List, [], ◌++◌, arith,
  length, All, append_assoc, append-nil, length-append, le→ltb,
}
use lsm_tree_key_value_stora.Errors.{ok}
use lsm_tree_key_value_stora.Bytes.{Bytes}
use lsm_tree_key_value_stora.Record.{Record, usize_mod}
use lsm_tree_key_value_stora.Record.RoundTrip.{Fits, At-append}
use lsm_tree_key_value_stora.Visible.{IsRun}
use lsm_tree_key_value_stora.Bloom
use lsm_tree_key_value_stora.Bloom.{SeededHash, BloomFilter}
use lsm_tree_key_value_stora.Bloom.Laws.{
  insert_all, Encodable, insert_all-Encodable, decode-encode_filter,
}
use lsm_tree_key_value_stora.Files.{File}
use lsm_tree_key_value_stora.Wal.Decode.{encodings}
use lsm_tree_key_value_stora.SsTable.{Lz4, IsLossless, footer_len}
use lsm_tree_key_value_stora.SsTable.Cache
use lsm_tree_key_value_stora.SsTable.Cache.Laws.{Coherent, new-IsValid}
use lsm_tree_key_value_stora.SsTable.Reader.{
  Footer, ReadFile, SsTableReader, read_index, check_offsets, load_parts, open_table,
}
use lsm_tree_key_value_stora.SsTable.Writer
use lsm_tree_key_value_stora.SsTable.Blocks.{Part, entries, all_records}
use lsm_tree_key_value_stora.SsTable.Lookup.{Agrees, IsTable}
use lsm_tree_key_value_stora.SsTable.Cuts.{keys_of, blobs}
use lsm_tree_key_value_stora.SsTable.Image.{
  index_bytes, footer_bytes, footer_of, image, Written, write-Written,
}
use lsm_tree_key_value_stora.SsTable.Reading.{
  Reads, read_part, EntryFits, read_index-At, FooterFits, length-footer_bytes,
  parse_footer-footer_bytes,
}
use lsm_tree_key_value_stora.SsTable.Stored.{
  length-entries_le, length-encodings_le, entries-EntryFits, Laid-apart, Laid-stored, keys-filtered,
}

module _ (z : Lz4) (parts : List Part) (filter : BloomFilter) (count : ℕ) (bytes : Bytes)
    (same : bytes ≡ image z parts filter count) (small : length bytes < 2 ^ 32) where
  abbrev bs : Bytes
  bs = blobs z parts

  abbrev is : Bytes
  is = index_bytes (entries parts)

  abbrev es : Bytes
  es = Bloom.encode filter

  abbrev footer : Footer
  footer = footer_of z parts filter count

  sizes : length bytes ≡ length bs + length is + length es + footer_len
  sizes = omega (
    arith,
    ap length same,
    length-append bs (is ++ (es ++ footer_bytes footer)),
    length-append is (es ++ footer_bytes footer),
    length-append es (footer_bytes footer),
    length-footer_bytes footer,
  )

  few : length (entries parts) < 2 ^ 32
  few = omega (arith, sizes, length-entries_le (entries parts))

  footer-FooterFits : count < 2 ^ 64 → FooterFits footer
  footer-FooterFits h = record {
    index_offset_fits = omega (arith, sizes);
    index_entries_fit = omega arith;
    bloom_offset_fits = omega (arith, sizes);
    bloom_len_fits = omega (arith, sizes);
    record_count_fits = h;
  }

  abbrev loaded : ReadFile → Bool → SsTableReader
  loaded file bloom_enabled = record {
    file = file;
    index = entries parts;
    bloom = filter;
    bloom_enabled = bloom_enabled;
    record_count = count;
    cache = Cache.new;
  }

  module _ (file : ReadFile) (reads : Reads bytes file) (fits : All EntryFits (entries parts))
      (encodable : Encodable filter) where
    addressed : length bytes < usize_mod
    addressed = omega (arith, small)

    read_footer :
        file.read_exact_at (length bytes - footer_len) footer_len ≡ ok (footer_bytes footer)
    read_footer =
        read_part bytes (bs ++ (is ++ es)) (footer_bytes footer) [] file _ _ reads addressed
          (same ∙ simp (append_assoc, append-nil))
          (omega (arith, sizes, length-append bs (is ++ es), length-append is es))
          (sym (length-footer_bytes footer))

    read_is :
        file.read_exact_at footer.index_offset (footer.bloom_offset - footer.index_offset) ≡ ok is
    read_is =
        read_part bytes bs is (es ++ footer_bytes footer) file _ _ reads addressed same refl
          (omega arith)

    read_es : file.read_exact_at footer.bloom_offset footer.bloom_len ≡ ok es
    read_es =
        read_part bytes (bs ++ is) es (footer_bytes footer) file _ _ reads addressed
          (same ∙ simp append_assoc) (sym (length-append bs is)) refl

    index_read : read_index is 0 footer.index_entries ≡ ok (entries parts)
    index_read =
        let n : footer.index_entries ≡ length (entries parts) = omega (arith, few) in
        ap (read_index is 0) n
        ∙ read_index-At is 0 (entries parts) fits (At-append [] is (omega (arith, sizes)))

    offsets_checked : check_offsets (length bytes - footer_len) footer ≡ ok tt
    unfolding check_offsets
    offsets_checked =
        let first = le→ltb footer.bloom_offset footer.index_offset (omega arith) in
        let second =
          le→ltb (length bytes - footer_len) ((footer.bloom_offset + footer.bloom_len) % 2 ^ 64)
            (omega (arith, sizes)) in
        rw (first, second) refl

    -- What `open` makes of the image.
    open_table-image :
        (bloom_enabled : Bool)
        → count < 2 ^ 64
        → open_table (ok file) bloom_enabled ≡ ok (loaded file bloom_enabled)
    unfolding open_table load_parts
    open_table-image bloom_enabled h = rw (
      reads.size_known,
      le→ltb (length bytes) footer_len (omega (arith, sizes)),
      read_footer,
      parse_footer-footer_bytes footer (footer-FooterFits h),
      offsets_checked,
      read_is,
      index_read,
      read_es,
      decode-encode_filter filter encodable.valid encodable.k_fits encodable.bits_fit,
    )

new-Coherent : (P : ℕ → List Record → Type 0) → Coherent P Cache.new
unfolding Cache.get Cache.find
new-Coherent P o b h = absurd (cc h)

-- A successful write of a run of records to an empty file leaves, where it takes less than 4 GiB, a
-- file that opens as a table of these records, whatever else the file system does with it but let it
-- be read. Needed are a lossless compression, filter parameters and records whose integers fit their
-- fields, and records that fit in memory together.
pub open_table-write :
    (z : Lz4) (h : SeededHash) (bloom : BloomFilter) (records : List Record) (file : File) (n : ℕ)
    (opened : ReadFile) (bloom_enabled : Bool)
    → IsLossless z
    → Encodable bloom
    → All Fits records
    → IsRun records
    → length (encodings records) < usize_mod
    → file.contents ≡ []
    → (Writer.write z h bloom records file).0 ≡ ok n
    → length (Writer.write z h bloom records file).1.contents < 2 ^ 32
    → Reads (Writer.write z h bloom records file).1.contents opened
    → (parts : List Part) × (t : SsTableReader) × (open_table (ok opened) bloom_enabled ≡ ok t)
      × IsTable z h parts t
      × (all_records parts ≡ records)
      × (t.record_count ≡ length records)
open_table-write z h bloom records file n opened bloom_enabled lossless encodable fits run raw empty
      k small reads =
    let bytes = (Writer.write z h bloom records file).1.contents in
    let w : Written z h bloom records bytes = write-Written z h bloom records file n empty run k in
    let filter = insert_all h (keys_of records) bloom in
    let fits' = subst (All Fits) (sym w.whole) fits in
    let raw' = subst (λ rs. length (encodings rs) < usize_mod) (sym w.whole) raw in
    let size = sizes z w.parts filter (length records) bytes w.same small in
    let entries_fit =
      entries-EntryFits z 0 w.parts w.laid w.ordered fits' (omega (arith, size, small)) in
    (
      w.parts,
      loaded z w.parts filter (length records) bytes w.same small opened bloom_enabled,
      open_table-image z w.parts filter (length records) bytes w.same small opened reads entries_fit
          (insert_all-Encodable h (keys_of records) bloom encodable) bloom_enabled
          (omega (arith, raw, length-encodings_le records)),
      record {
        indexed = refl;
        stored =
            Laid-stored z lossless bytes opened reads small [] _ w.parts w.same w.laid fits' raw';
        apart = Laid-apart z lossless 0 w.parts w.laid;
        ordered = w.ordered;
        filtered =
            subst (All (λ r. Bloom.contains h r.key filter ≡ true)) (sym w.whole)
              (keys-filtered h bloom records encodable.valid);
        coherent = new-Coherent (Agrees w.parts);
        cache_valid = new-IsValid;
      },
      w.whole,
      refl,
    )

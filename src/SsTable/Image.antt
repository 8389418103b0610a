-- ===== src/SsTable/Image.antt =====
-- The bytes of the file that `SsTableWriter::write` leaves: the blocks, the index, the filter and the
-- footer.
use lsm_tree_key_value_stora.Prelude.{
  ℕ, ◌+◌, ◌%◌, ◌^◌, ◌≡◌, refl, ap, sym, ◌∙◌, List, [], ◌∷◌, ◌++◌, arith, length, append_assoc,
  append-nil, length-append,
}
use lsm_tree_key_value_stora.Errors.{Result, ok, err}
use lsm_tree_key_value_stora.Bytes.{Bytes, to_le, length-to_le}
use lsm_tree_key_value_stora.Record.{Record}
use lsm_tree_key_value_stora.Visible.{IsRun}
use lsm_tree_key_value_stora.Bloom
use lsm_tree_key_value_stora.Bloom.{SeededHash, BloomFilter}
use lsm_tree_key_value_stora.Bloom.Laws.{insert_all}
use lsm_tree_key_value_stora.Files
use lsm_tree_key_value_stora.Files.{Exec, ◌then_do◌, BufAppend, File}
use lsm_tree_key_value_stora.Files.Laws.{
  text, Clean, Wrote-text, write-Wrote, sync-Wrote, sync-Clean, then_do-eq_ok, then_do-Clean_last,
}
use lsm_tree_key_value_stora.SsTable.{Lz4, Entry, magic, format_version}
use lsm_tree_key_value_stora.SsTable.Reader.{Footer}
use lsm_tree_key_value_stora.SsTable.Writer
use lsm_tree_key_value_stora.SsTable.Writer.{
  Writer, answered, on_file, write_index, end_of_index, write_tail, tail_of, write_all, counted,
}
use lsm_tree_key_value_stora.SsTable.Blocks.{Part, entries, all_records, Ordered}
use lsm_tree_key_value_stora.SsTable.Filing.{to_end, to_end-Filed, empty-Holding, answered_lem}
use lsm_tree_key_value_stora.SsTable.Cuts.{keys_of, blobs, Laid}

unfoldable pub index_bytes : List Entry → Bytes
index_bytes [] = []
index_bytes (e ∷ es) =
    to_le 4 (length e.first_key % 2 ^ 32)
    ++ (e.first_key ++ (to_le 8 e.block_offset ++ (to_le 4 e.comp_len ++ index_bytes es)))

unfoldable pub footer_bytes : Footer → Bytes
footer_bytes f =
    to_le 8 f.index_offset
    ++ (to_le 4 f.index_entries
        ++ (to_le 8 f.bloom_offset
            ++ (to_le 8 f.bloom_len
                ++ (to_le 8 f.record_count ++ (to_le 4 format_version ++ magic)))))

abbrev pub footer_of : Lz4 → List Part → BloomFilter → ℕ → Footer
footer_of z parts filter count = record {
  index_offset = length (blobs z parts);
  index_entries = length (entries parts) % 2 ^ 32;
  bloom_offset = length (blobs z parts) + length (index_bytes (entries parts));
  bloom_len = length (Bloom.encode filter);
  record_count = count;
}

abbrev pub image : Lz4 → List Part → BloomFilter → ℕ → Bytes
image z parts filter count =
    blobs z parts
    ++ (index_bytes (entries parts)
        ++ (Bloom.encode filter ++ footer_bytes (footer_of z parts filter count)))

-- A success adds the bytes.
abbrev Adds : Exec BufAppend (Unit {0}) → Bytes → Type 0
Adds m bytes = (b : BufAppend) → (m b).0 ≡ ok tt → text (m b).1 ≡ text b ++ bytes

write-Adds : (bytes : Bytes) → Adds (Files.write bytes) bytes
write-Adds bytes b = Wrote-text b bytes (Files.write bytes b) (write-Wrote bytes b)

sync-Adds : Adds Files.sync []
sync-Adds b = Wrote-text b [] (Files.sync b) (sync-Wrote b)

then_do-Adds :
    (m n : Exec BufAppend (Unit {0})) (x y : Bytes)
    → Adds m x
    → Adds n y
    → Adds (m then_do n) (x ++ y)
then_do-Adds m n x y a c b h =
    let (k, e) = then_do-eq_ok m n b tt h in
    ap (λ p. text p.1) e
    ∙ c (m b).1 (sym (ap (λ p. p.0) e) ∙ h)
    ∙ ap (λ t. t ++ y) (a b k)
    ∙ append_assoc (text b) x y

write_index-Adds : (es : List Entry) → Adds (write_index es) (index_bytes es)
unfolding write_index index_bytes
write_index-Adds [] b h = sym (append-nil (text b))
write_index-Adds (e ∷ es) b h =
    let w1 = Files.write (to_le 4 (length e.first_key % 2 ^ 32)) in
    let w2 = Files.write e.first_key in
    let w3 = Files.write (to_le 8 e.block_offset) in
    let w4 = Files.write (to_le 4 e.comp_len) in
    let a2 = then_do-Adds w1 w2 _ _ (write-Adds _) (write-Adds _) in
    let a3 = then_do-Adds (w1 then_do w2) w3 _ _ a2 (write-Adds _) in
    let a4 = then_do-Adds (w1 then_do w2 then_do w3) w4 _ _ a3 (write-Adds _) in
    then_do-Adds (w1 then_do w2 then_do w3 then_do w4) (write_index es) _ _ a4 (write_index-Adds es)
      b h
    ∙ ap (λ t. text b ++ t) (simp append_assoc)

pub length-index_bytes :
    (e : Entry) (es : List Entry)
    → length (index_bytes (e ∷ es)) ≡ 16 + length e.first_key + length (index_bytes es)
unfolding index_bytes
length-index_bytes e es =
    let kl = to_le 4 (length e.first_key % 2 ^ 32) in
    let o = to_le 8 e.block_offset in
    let c = to_le 4 e.comp_len in
    omega (
      arith,
      length-append kl (e.first_key ++ (o ++ (c ++ index_bytes es))),
      length-append e.first_key (o ++ (c ++ index_bytes es)),
      length-append o (c ++ index_bytes es),
      length-append c (index_bytes es),
      length-to_le 4 (length e.first_key % 2 ^ 32),
      length-to_le 8 e.block_offset,
      length-to_le 4 e.comp_len,
    )

-- The offset that the writer computes is where the index ends.
end_of_index_lem : (o : ℕ) (es : List Entry) → end_of_index o es ≡ o + length (index_bytes es)
unfolding end_of_index
end_of_index_lem o [] = unfold index_bytes in omega arith
end_of_index_lem o (e ∷ es) =
    omega
      (arith, end_of_index_lem (o + (4 + length e.first_key + 8 + 4)) es, length-index_bytes e es)

module _ (io : ℕ) (index : List Entry) (filter : BloomFilter) (count : ℕ) where
  -- The footer that the tail writes.
  abbrev written_footer : Footer
  written_footer = record {
    index_offset = io;
    index_entries = length index % 2 ^ 32;
    bloom_offset = io + length (index_bytes index);
    bloom_len = length (Bloom.encode filter);
    record_count = count;
  }

  abbrev before_count : Exec BufAppend (Unit {0})
  before_count =
      write_index index
      then_do Files.write (Bloom.encode filter)
      then_do Files.write (to_le 8 io)
      then_do Files.write (to_le 4 (length index % 2 ^ 32))
      then_do Files.write (to_le 8 (end_of_index io index))
      then_do Files.write (to_le 8 (length (Bloom.encode filter)))

  abbrev before_sync : Exec BufAppend (Unit {0})
  before_sync =
      before_count
      then_do Files.write (to_le 8 count)
      then_do Files.write (to_le 4 format_version)
      then_do Files.write magic

  -- One more write at the end of a chain.
  more-Adds :
      (m : Exec BufAppend (Unit {0})) (x y : Bytes)
      → Adds m x
      → Adds (m then_do Files.write y) (x ++ y)
  more-Adds m x y a = then_do-Adds m (Files.write y) x y a (write-Adds y)

  tail-Adds :
      Adds
        (write_tail io index filter count)
        (index_bytes index ++ (Bloom.encode filter ++ footer_bytes written_footer))
  unfolding write_tail footer_bytes
  tail-Adds b h =
      let a1 = more-Adds (write_index index) _ (Bloom.encode filter) (write_index-Adds index) in
      let a2 = more-Adds _ _ (to_le 8 io) a1 in
      let a3 = more-Adds _ _ (to_le 4 (length index % 2 ^ 32)) a2 in
      let a4 = more-Adds _ _ (to_le 8 (end_of_index io index)) a3 in
      let a5 = more-Adds _ _ (to_le 8 (length (Bloom.encode filter))) a4 in
      let a6 = more-Adds before_count _ (to_le 8 count) a5 in
      let a7 = more-Adds _ _ (to_le 4 format_version) a6 in
      let a8 = more-Adds _ _ magic a7 in
      then_do-Adds before_sync Files.sync _ _ a8 sync-Adds b h
      ∙ ap (λ t. text b ++ t) (rw (end_of_index_lem io index) (simp (append_assoc, append-nil)))

  tail-Clean : (b : BufAppend) → Clean (write_tail io index filter count b)
  unfolding write_tail
  tail-Clean b = then_do-Clean_last before_sync Files.sync b sync-Clean

-- The file that a successful write leaves, as an image of parts.
pub record Written (z : Lz4) (h : SeededHash) (bloom : BloomFilter) (records : List Record)
    (bytes : Bytes) : Type 0 where
  pub parts : List Part
  pub whole : all_records parts ≡ records
  pub laid : Laid z 0 parts
  pub ordered : Ordered parts
  pub same : bytes ≡ image z parts (insert_all h (keys_of records) bloom) (length records)

module _ (z : Lz4) (h : SeededHash) (bloom : BloomFilter) (records : List Record)
    (file : File) where
  abbrev start : Writer
  start = Writer.new file bloom

  ended_with :
      (p : Result (Unit {0}) × Writer) (n : ℕ)
      → (counted (length records) p).0 ≡ ok n
      → (p.0 ≡ ok tt) × ((counted (length records) p).1 ≡ p.1.w.file)
  ended_with (ok u, s) n k = (refl, refl)
  ended_with (err e, s) n k = absurd (cc k)

  tail_text :
      (s : Writer)
      → (tail_of (length records) s).0 ≡ ok tt
      → (tail_of (length records) s).1.w.file.contents
        ≡ text s.w
          ++ (index_bytes s.index
              ++ (Bloom.encode s.bloom
                  ++ footer_bytes (written_footer s.offset s.index s.bloom (length records))))
  unfolding on_file
  tail_text s k =
      let m = write_tail s.offset s.index s.bloom (length records) in
      let a = answered_lem (m s.w) s in
      let k' : (m s.w).0 ≡ ok tt = sym (ap (λ p. p.0) a) ∙ k in
      ap (λ p. p.1.w.file.contents) a
      ∙ sym (append-nil (m s.w).1.file.contents)
      ∙ ap (λ t. (m s.w).1.file.contents ++ t)
          (sym (tail-Clean s.offset s.index s.bloom (length records) s.w k'))
      ∙ tail-Adds s.offset s.index s.bloom (length records) s.w k'

  pub write-Written :
      (n : ℕ)
      → file.contents ≡ []
      → IsRun records
      → (Writer.write z h bloom records file).0 ≡ ok n
      → Written z h bloom records (Writer.write z h bloom records file).1.contents
  unfolding Writer.write Writer.new Files.new Files.with_capacity write_all
  write-Written n empty run k =
      let tail : Exec Writer (Unit {0}) = tail_of (length records) in
      let (k0, e0) = ended_with (write_all z h records start) n k in
      let (k1, e1) = then_do-eq_ok (to_end z h records) tail start tt k0 in
      let s1 = (to_end z h records start).1 in
      let k2 : (tail s1).0 ≡ ok tt = sym (ap (λ p. p.0) e1) ∙ k0 in
      let f = to_end-Filed z h records [] start (empty-Holding z h start refl refl) run k1 in
      let ended : s1.offset ≡ length (blobs z f.parts) = omega (arith, f.ended) in
      let fresh : text start.w ≡ [] = append-nil file.contents ∙ empty in
      record {
        parts = f.parts;
        whole = f.whole;
        laid = f.laid;
        ordered = f.ordered;
        same =
            ap (λ g. g.contents) e0
            ∙ ap (λ p. p.1.w.file.contents) e1
            ∙ tail_text s1 k2
            ∙ rw (f.grown, ended, f.listed, f.filter, fresh) refl;
      }

-- ===== src/Wal/Append.antt =====
-- An append, whatever fails on the way, leaves a log that replays to the records before it, or to
-- those and the whole batch.
use lsm_tree_key_value_stora.Prelude.{
  ℕ, ◌%◌, ◌^◌, ◌≡◌, ap, sym, ◌∙◌, Bool, List, [], ◌∷◌, ◌++◌, length, append_assoc, append-nil,
}
use lsm_tree_key_value_stora.Errors.{ok}
use lsm_tree_key_value_stora.Bytes.{Bytes, to_le}
use lsm_tree_key_value_stora.Record.{Record}
use lsm_tree_key_value_stora.Header.{Hashes, Checksum, versioned, wal_checksum, hash}
use lsm_tree_key_value_stora.Frames.{frame}
use lsm_tree_key_value_stora.Files.{
  Exec, BufAppend, SyncMode, write, flush, sync_file_as, ◌then_do◌,
}
use lsm_tree_key_value_stora.Files.Laws.{
  Wrote, Clean, write-Wrote, flush-Wrote, flush-Clean, sync_file_as-Wrote, sync_file_as-Clean,
  then_do-Wrote, then_do-Clean, then_do-Clean_last,
}
use lsm_tree_key_value_stora.Wal.{Wal, append_payload, payload_of, is_counted}
use lsm_tree_key_value_stora.Wal.Replay.{frames_of, all_records, image}

-- The file holds whole frames, nothing waits in the buffer, and appends go on in the file's format.
pub record IsLog (h : Hashes) (v : ℕ) (bs : List (List Record)) (w : Wal) : Type 0 where
  pub stored : w.file.file.contents ≡ image h v bs
  pub drained : w.file.buf ≡ []
  pub same_checksum : w.checksum ≡ wal_checksum (versioned v)
  pub same_count : w.counted ≡ is_counted (versioned v)

module _ (h : Hashes) (c : Checksum) (mode : SyncMode) (payload : Bytes) (b : BufAppend) where
  abbrev crc_bytes : Bytes
  crc_bytes = to_le 4 (hash h c payload)

  abbrev len_bytes : Bytes
  len_bytes = to_le 4 (length payload % 2 ^ 32)

  abbrev two_writes : Exec BufAppend (Unit {0})
  two_writes = write crc_bytes then_do write len_bytes

  abbrev three_writes : Exec BufAppend (Unit {0})
  three_writes = two_writes then_do write payload

  abbrev to_file : Exec BufAppend (Unit {0})
  to_file = three_writes then_do flush

  append_payload-Wrote :
      Wrote b
        ((((crc_bytes ++ len_bytes) ++ payload) ++ []) ++ [])
        (append_payload h c mode payload b)
  unfolding append_payload
  append_payload-Wrote =
      let two =
        then_do-Wrote (write crc_bytes) (write len_bytes) b _ _ (write-Wrote crc_bytes b)
          (write-Wrote len_bytes) in
      let three = then_do-Wrote two_writes (write payload) b _ _ two (write-Wrote payload) in
      let four = then_do-Wrote three_writes flush b _ _ three flush-Wrote in
      then_do-Wrote to_file (sync_file_as mode) b _ _ four (sync_file_as-Wrote mode)

  append_payload-Clean : Clean (append_payload h c mode payload b)
  unfolding append_payload
  append_payload-Clean =
      then_do-Clean to_file (sync_file_as mode) b
        (then_do-Clean_last three_writes flush b flush-Clean) (sync_file_as-Clean mode)

  frame_bytes : (((crc_bytes ++ len_bytes) ++ payload) ++ []) ++ [] ≡ frame h c payload
  unfolding frame
  frame_bytes = simp (append_assoc, append-nil)

  -- The file has grown by a part of the frame, and by all of it where the append succeeds.
  pub append_payload_lem :
      b.buf ≡ []
      → (front back : Bytes) × ((append_payload h c mode payload b).1.file.contents
          ≡ b.file.contents ++ front)
        × (frame h c payload ≡ front ++ back)
        × ((append_payload h c mode payload b).0 ≡ ok tt
            → (back ≡ []) × ((append_payload h c mode payload b).1.buf ≡ []))
  append_payload_lem empty =
      let w = append_payload-Wrote in
      (
        w.front,
        w.back,
        w.grown,
        sym frame_bytes
            ∙ ap (λ x. x ++ ((((crc_bytes ++ len_bytes) ++ payload) ++ []) ++ [])) (sym empty)
            ∙ w.whole,
        λ e. (sym (w.kept e) ∙ append_payload-Clean e, append_payload-Clean e),
      )

frames_of-append :
    (h : Hashes) (c : Checksum) (counted : Bool) (bs : List (List Record)) (rs : List Record)
    → frames_of h c counted (bs ++ (rs ∷ []))
      ≡ frames_of h c counted bs ++ frame h c (payload_of counted rs)
unfolding frames_of
frames_of-append h c counted [] rs = append-nil _
frames_of-append h c counted (b ∷ bs) rs =
    ap (λ x. frame h c (payload_of counted b) ++ x) (frames_of-append h c counted bs rs)
    ∙ sym (append_assoc (frame h c (payload_of counted b)) (frames_of h c counted bs) _)

pub image-append :
    (h : Hashes) (v : ℕ) (bs : List (List Record)) (rs : List Record)
    → image h v (bs ++ (rs ∷ []))
      ≡ image h v bs
        ++ frame h (wal_checksum (versioned v)) (payload_of (is_counted (versioned v)) rs)
unfolding image
image-append h v bs rs = rw frames_of-append (simp append_assoc)

pub all_records-append :
    (bs : List (List Record)) (rs : List Record)
    → all_records (bs ++ (rs ∷ [])) ≡ all_records bs ++ rs
all_records-append [] rs = append-nil rs
all_records-append (b ∷ bs) rs =
    ap (λ x. b ++ x) (all_records-append bs rs) ∙ sym (append_assoc b (all_records bs) rs)

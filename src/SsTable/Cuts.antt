-- ===== src/SsTable/Cuts.antt =====
-- How blocks of whole runs stand in the file, and what the writer holds between them.
use lsm_tree_key_value_stora.Prelude.{
  ℕ, ◌+◌, ◌%◌, ◌^◌, ◌<◌, ◌≡◌, refl, ap, sym, ◌∙◌, subst, true, List, [], ◌∷◌, ◌++◌, map, arith,
  length, All, All-left, All-right, inl, inr, append_assoc, append-nil, length-append,
}
use lsm_tree_key_value_stora.Order.{◌≺◌, bytes_ord, key_eq_refl, ≺_≼_trans}
use lsm_tree_key_value_stora.Bytes.{Bytes}
use lsm_tree_key_value_stora.Record.{Record, encode, encoded_len}
use lsm_tree_key_value_stora.Record.RoundTrip.{length-encode}
use lsm_tree_key_value_stora.Visible.{IsRun}
use lsm_tree_key_value_stora.Visible.Runs.{All-map, ⊲_cases}
use lsm_tree_key_value_stora.Bloom.{SeededHash}
use lsm_tree_key_value_stora.Bloom.Laws.{insert_all}
use lsm_tree_key_value_stora.Files.Laws.{text}
use lsm_tree_key_value_stora.Wal.Decode.{encodings}
use lsm_tree_key_value_stora.SsTable.{Lz4}
use lsm_tree_key_value_stora.SsTable.Writer.{Writer, next_differs}
use lsm_tree_key_value_stora.SsTable.Blocks.{Part, entries, all_records, Ordered, run_from}

abbrev pub keys_of : List Record → List Bytes
keys_of = map (λ r. r.key)

-- The bytes of a block in the file.
abbrev pub blob : Lz4 → Part → Bytes
blob z p = z.compress (encodings p.records)

abbrev pub blobs : Lz4 → List Part → Bytes
blobs z [] = []
blobs z (p ∷ ps) = blob z p ++ blobs z ps

-- The index tells where each block is, from `offset` on.
abbrev pub Laid : Lz4 → ℕ → List Part → Type 0
Laid z offset [] = Unit
Laid z offset (p ∷ ps) =
    (p.entry.block_offset ≡ offset)
    × (p.entry.comp_len ≡ length (blob z p) % 2 ^ 32)
    × Laid z (offset + length (blob z p)) ps

pub IsRun-left : (xs ys : List Record) → IsRun (xs ++ ys) → IsRun xs
IsRun-left [] ys h = tt
IsRun-left (x ∷ xs) ys h = (All-left _ xs ys h.0, IsRun-left xs ys h.1)

-- Every key of the first list is below every key of the second.
abbrev pub Cut : List Record → List Record → Type 0
Cut xs ys = All (λ x. All (λ y. x.key ≺ y.key) ys) xs

next_differs-Cut :
    (r : Record) (rs : List Record)
    → IsRun (r ∷ rs)
    → next_differs r rs ≡ true
    → All (λ s. r.key ≺ s.key) rs
unfolding next_differs
next_differs-Cut r [] h d = tt
next_differs-Cut r (n ∷ rs) h d = elim (⊲_cases r n h.0.0) [
  | inl l ↦ All-map (n ∷ rs) (λ s k. ≺_≼_trans r.key n.key s.key l k) (run_from n rs h.1)
  | inr (e, _) ↦ absurd (cc (rw (e, key_eq_refl n.key) at d))
]

-- A run may be cut behind a record whose successor has another key.
pub run-Cut :
    (xs : List Record) (r : Record) (rs : List Record)
    → IsRun (xs ++ (r ∷ rs))
    → next_differs r rs ≡ true
    → Cut (xs ++ (r ∷ [])) rs
run-Cut [] r rs h d = (next_differs-Cut r rs h d, tt)
run-Cut (x ∷ xs) r rs h d =
    let rest = run-Cut xs r rs h.1 d in
    let behind : All (λ s. r.key ≺ s.key) rs = (All-right _ xs (r ∷ []) rest).0 in
    let first : All (λ s. x.key ≺ s.key) rs = elim (⊲_cases x r (All-right _ xs (r ∷ rs) h.0).0) [
      | inl l ↦ All-map rs (λ s k. bytes_ord.lt_trans x.key r.key s.key l k) behind
      | inr (e, _) ↦ subst (λ k. All (λ s. k ≺ s.key) rs) (sym e) behind
    ] in
    (first, rest)

-- The writer's block holds these records, and its first key is theirs.
abbrev pub head_key : List Record → Bytes
head_key [] = []
head_key (r ∷ rs) = r.key

pub record Holding (s : Writer) (pending : List Record) : Type 0 where
  pub raw : s.block ≡ encodings pending
  pub first : s.block_first_key ≡ head_key pending

-- Between `s` and `s'` the writer has put away the pending records and those that came.
pub record Filed (z : Lz4) (h : SeededHash) (s : Writer) (pending rs : List Record) (s' : Writer)
    : Type 0 where
  pub parts : List Part
  pub whole : all_records parts ≡ pending ++ rs
  pub laid : Laid z s.offset parts
  pub grown : text s'.w ≡ text s.w ++ blobs z parts
  pub ended : s'.offset ≡ s.offset + length (blobs z parts)
  pub listed : s'.index ≡ s.index ++ entries parts
  pub ordered : Ordered parts
  pub filter : s'.bloom ≡ insert_all h (keys_of rs) s.bloom

pub encodings_pos : (r : Record) (rs : List Record) → 0 < length (encodings (r ∷ rs))
unfolding encodings encoded_len
encodings_pos r rs = omega (arith, length-append (encode r) (encodings rs), length-encode r)

pub encodings_one : (r : Record) → encodings (r ∷ []) ≡ encode r
unfolding encodings
encodings_one r = append-nil (encode r)

pub encodings-append : (xs ys : List Record) → encodings (xs ++ ys) ≡ encodings xs ++ encodings ys
unfolding encodings
encodings-append [] ys = refl
encodings-append (x ∷ xs) ys =
    ap (λ t. encode x ++ t) (encodings-append xs ys)
    ∙ sym (append_assoc (encode x) (encodings xs) (encodings ys))

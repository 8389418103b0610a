-- ===== src/Manifest/Edits.antt =====
-- An edit survives its encoding, and a state its snapshot.
use lsm_tree_key_value_stora.Prelude.{
  ℕ, ◌^◌, ◌<◌, ◌≡◌, refl, ap, sym, subst, ◌∙◌, List, [], ◌∷◌, ◌++◌, arith, length, append-nil,
  append_assoc, All,
}
use lsm_tree_key_value_stora.Order.{◌≺◌, nat_ord, lt_asymm}
use lsm_tree_key_value_stora.SortedMap.{Entries, insert, IsSorted, Below}
use lsm_tree_key_value_stora.SortedMap.Laws.{insert-gt, insert-IsSorted, remove-IsSorted}
use lsm_tree_key_value_stora.Errors.{ok}
use lsm_tree_key_value_stora.Bytes.{to_le, from_le, slice, from_le-to_le, slice_part, length-to_le}
use lsm_tree_key_value_stora.Manifest.{
  VersionEdit, add_table, delete_table, set_next_seq, set_next_sst_id, tag_body, encode, decode,
  ManifestState, no_tables, apply, add_tables, snapshot_edits,
}

-- The body of an edit is a `u64`.
abbrev pub Fits : VersionEdit → Type 0
Fits e = (tag_body e).1 < 2 ^ 64

pub length-encode : (e : VersionEdit) → length (encode e) ≡ 9
unfolding encode
length-encode e = omega (arith, length-to_le 8 (tag_body e).1)

body_at : (tag n : ℕ) → n < 2 ^ 64 → from_le (slice (tag ∷ to_le 8 n) 1 9) ≡ n
body_at tag n f =
    let at : slice ((tag ∷ []) ++ (to_le 8 n ++ [])) 1 9 ≡ to_le 8 n =
      slice_part (tag ∷ []) (to_le 8 n) [] 1 9 refl (omega (arith, length-to_le 8 n)) in
    ap from_le (ap (λ x. slice (tag ∷ x) 1 9) (sym (append-nil (to_le 8 n))) ∙ at)
    ∙ from_le-to_le 8 n f

-- Decoding the encoding of an edit gives it back.
pub decode-encode_edit : (e : VersionEdit) → Fits e → decode (encode e) ≡ ok e
unfolding decode encode
decode-encode_edit (add_table n) f = rw (length-to_le 8 n, body_at 0 n f)
decode-encode_edit (delete_table n) f = rw (length-to_le 8 n, body_at 1 n f)
decode-encode_edit (set_next_seq n) f = rw (length-to_le 8 n, body_at 2 n f)
decode-encode_edit (set_next_sst_id n) f = rw (length-to_le 8 n, body_at 3 n f)

abbrev pub apply_all : List VersionEdit → ManifestState → ManifestState
apply_all [] s = s
apply_all (e ∷ es) s = apply_all es (apply e s)

insert_above :
    (k : ℕ) (m : Entries ℕ (Unit {0})) → All (λ e. e.0 ≺ k) m → insert k tt m ≡ m ++ ((k, tt) ∷ [])
unfolding insert
insert_above k [] b = refl
insert_above k (e ∷ m) b =
    insert-gt k tt e m (lt_asymm e.0 k b.0) ∙ ap (λ x. e ∷ x) (insert_above k m b.1)

All-below :
    (m n : Entries ℕ (Unit {0})) (k : ℕ) → IsSorted (m ++ ((k, tt) ∷ n)) → All (λ e. e.0 ≺ k) m
All-below [] n k s = tt
All-below (e ∷ m) n k s = (first m s.0, All-below m n k s.1)
  where
    first : (l : Entries ℕ (Unit {0})) → Below e.0 (l ++ ((k, tt) ∷ n)) → e.0 ≺ k
    first [] b = b.0
    first (x ∷ l) b = first l b.1

add_all :
    (m n : Entries ℕ (Unit {0})) (s : ManifestState)
    → s.live_tables ≡ m
    → IsSorted (m ++ n)
    → apply_all (add_tables n) s ≡ record s { live_tables = m ++ n }
unfolding apply
add_all m [] s e o = ap (λ l. record s { live_tables = l }) (e ∙ sym (append-nil m))
add_all m ((k, u) ∷ n) s e o =
    let live : insert k tt s.live_tables ≡ m ++ ((k, tt) ∷ []) =
      ap (insert k tt) e ∙ insert_above k m (All-below m n k o) in
    let q : (m ++ ((k, tt) ∷ [])) ++ n ≡ m ++ ((k, tt) ∷ n) = append_assoc m ((k, tt) ∷ []) n in
    add_all (m ++ ((k, tt) ∷ [])) n (record s { live_tables = insert k tt s.live_tables }) live
      (subst IsSorted (sym q) o)
    ∙ ap (λ l. record s { live_tables = l }) q

-- The edits of a snapshot, applied to the empty state, give the state back.
pub apply_all-snapshot_edits :
    (s : ManifestState) → IsSorted s.live_tables → apply_all (snapshot_edits s) no_tables ≡ s
unfolding snapshot_edits apply
apply_all-snapshot_edits s o = add_all [] s.live_tables _ refl o

-- The set of live tables stays sorted.
pub apply-IsSorted :
    (e : VersionEdit) (s : ManifestState)
    → IsSorted s.live_tables
    → IsSorted (apply e s).live_tables
unfolding apply
apply-IsSorted (add_table id) s o = insert-IsSorted id tt s.live_tables o
apply-IsSorted (delete_table id) s o = remove-IsSorted id s.live_tables o
apply-IsSorted (set_next_seq n) s o = o
apply-IsSorted (set_next_sst_id id) s o = o

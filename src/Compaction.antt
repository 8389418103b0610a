-- ===== src/Compaction.antt =====
-- src/compaction.rs: the merge of a run of tables into one. An input is the list of records that
-- `SsTableReader::iter_all` answers; the output is the list handed to `SsTableWriter::write`.
pub mod Heap
pub mod Round
pub mod Stream
pub mod Sort
pub mod Retain
pub mod Peel
pub mod SameKey
pub mod Groups
pub mod Newest
pub mod Sorted
pub mod Repeats
pub mod Strict
pub mod Examples
use Prim.Native.Nat.{Ordering}
use lsm_tree_key_value_stora.Prelude.{
  ℕ, zero, suc, Bool, true, false, ◌&&◌, ◌||◌, not, Option, none, some, List, [], ◌∷◌, ◌++◌, length,
  ltb, leb, ◌==◌, if◌then◌else◌, compare,
}
use lsm_tree_key_value_stora.Order.{Ord, key_eq, key_lt, bytes_ord, nat_ord, pair_ord}
use lsm_tree_key_value_stora.Errors.{Result, ok, ◌>>=◌}
use lsm_tree_key_value_stora.Bytes.{Bytes}
use lsm_tree_key_value_stora.Record.{Record}
use lsm_tree_key_value_stora.Members.{concat}

-- A record on its way through the merge, with the index of its input.
pub record MergeItem : Type 0 where
  pub item : Record
  pub input_idx : ℕ

-- `MergeItem::cmp`: keys ascend, then input indexes.
abbrev pub merge_key : MergeItem → List ℕ × ℕ
merge_key m = (m.item.key, m.input_idx)

instance abbrev pub merge_ord : Ord (List ℕ × ℕ)
merge_ord = pair_ord

abbrev before : MergeItem → MergeItem → Bool
before m n = key_lt (merge_key m) (merge_key n)

abbrev in_order : MergeItem → MergeItem → MergeItem × MergeItem
in_order m n = if before n m then (n, m) else (m, n)

-- `heap.pop()` of a heap of `Reverse` items: the least one, and the others.
unfoldable pub pop_least : MergeItem → List MergeItem → MergeItem × List MergeItem
pop_least m [] = (m, [])
pop_least m (n ∷ ns) = let p = in_order m n in let q = pop_least p.0 ns in (q.0, p.1 ∷ q.1)

abbrev put_back :
    List Record → Option (Record × List (List Record)) → Option (Record × List (List Record))
put_back it none = none
put_back it (some (r, iters)) = some (r, it ∷ iters)

-- `iters[idx].next()`
unfoldable pub next : ℕ → List (List Record) → Option (Record × List (List Record))
next idx [] = none
next zero ([] ∷ iters) = none
next zero ((r ∷ it) ∷ iters) = some (r, it ∷ iters)
next (suc idx) (it ∷ iters) = put_back it (next idx iters)

-- The first loop: the heap starts with the head of each input.
unfoldable pub first_items : ℕ → List (List Record) → List MergeItem × List (List Record)
first_items idx [] = ([], [])
first_items idx ([] ∷ iters) = let p = first_items (suc idx) iters in (p.0, [] ∷ p.1)
first_items idx ((r ∷ it) ∷ iters) =
    let p = first_items (suc idx) iters in (record { item = r; input_idx = idx } ∷ p.0, it ∷ p.1)

-- The `while let Some(..) = heap.pop()` loop. Each round gives one record to the stream, so a fuel of
-- the number of records is enough.
unfoldable pub drain : ℕ → List MergeItem → List (List Record) → List Record
drain zero heap iters = []
drain (suc fuel) [] iters = []
drain (suc fuel) (m ∷ ms) iters =
    let p = pop_least m ms in
    elim (next p.0.input_idx iters) [
      | none ↦ p.0.item ∷ drain fuel p.1 iters
      | some (r, iters') ↦
          p.0.item ∷ drain fuel (record { item = r; input_idx = p.0.input_idx } ∷ p.1) iters'
    ]

unfoldable pub merge : List (List Record) → List Record
merge inputs = let p = first_items 0 inputs in drain (length (concat inputs)) p.0 p.1

-- The `j` loop: the records behind the first one of a group that have its key, and the others.
unfoldable pub same_key : Bytes → List Record → List Record × List Record
same_key key [] = ([], [])
same_key key (r ∷ rs) =
    let p = same_key key rs in if key_eq r.key key then (r ∷ p.0, p.1) else ([], r ∷ rs)

-- `group.sort_by_key(|r| Reverse(r.seq))`, which is stable.
unfoldable pub insert_desc : Record → List Record → List Record
insert_desc r [] = r ∷ []
insert_desc r (s ∷ rs) =
    let rest = insert_desc r rs in if ltb r.seq s.seq then s ∷ rest else r ∷ (s ∷ rs)

unfoldable pub sort_desc : List Record → List Record
sort_desc [] = []
sort_desc (r ∷ rs) = insert_desc r (sort_desc rs)

-- The retention loop; `taken` is `newest_below_taken`, which is set at the first version below the
-- horizon.
unfoldable pub retain : ℕ → Bool → List Record → List Record
retain min_snapshot_seq taken [] = []
retain min_snapshot_seq taken (r ∷ rs) =
    let rest = retain min_snapshot_seq (taken || ltb r.seq min_snapshot_seq) rs in
    if leb min_snapshot_seq r.seq then r ∷ rest else if not taken then r ∷ rest else rest

abbrev is_tombstone : Record → Bool
is_tombstone r = elim r.value [ none ↦ true | some v ↦ false ]

-- `while kept.last().is_some_and(|r| r.value.is_none()) { kept.pop(); }`
unfoldable pub peel : List Record → List Record
peel [] = []
peel (r ∷ rs) = let rest = peel rs in if length rest == 0 && is_tombstone r then [] else r ∷ rest

unfoldable pub keep_group : Bool → ℕ → List Record → List Record
keep_group drop_tombstones min_snapshot_seq group =
    let kept = retain min_snapshot_seq false (sort_desc group) in
    if drop_tombstones then peel kept else kept

-- The loop over the groups. Each round takes one record or more, so the length of the stream is
-- enough fuel.
unfoldable pub keep_groups : Bool → ℕ → ℕ → List Record → List Record
keep_groups drop_tombstones min_snapshot_seq zero stream = []
keep_groups drop_tombstones min_snapshot_seq (suc fuel) [] = []
keep_groups drop_tombstones min_snapshot_seq (suc fuel) (r ∷ rs) =
    let p = same_key r.key rs in
    keep_group drop_tombstones min_snapshot_seq (r ∷ p.0)
    ++ keep_groups drop_tombstones min_snapshot_seq fuel p.1

unfoldable pub compact : List (List Record) → Bool → ℕ → List Record
compact inputs drop_tombstones min_snapshot_seq =
    let stream = merge inputs in keep_groups drop_tombstones min_snapshot_seq (length stream) stream

-- `inputs.iter().map(|r| r.iter_all()).collect::<Result<Vec<_>>>()`
unfoldable pub collect_all : List (Result (List Record)) → Result (List (List Record))
collect_all [] = ok []
collect_all (read ∷ reads) = read >>= λ it. collect_all reads >>= λ its. ok (it ∷ its)

-- The whole function: `reads` are the answers of `iter_all`, and `write` is `SsTableWriter::write` to
-- the output path, which answers the number of records.
unfoldable pub compact_tables :
    List (Result (List Record)) → Bool → ℕ → (List Record → Result ℕ) → Result ℕ
compact_tables reads drop_tombstones min_snapshot_seq write =
    collect_all reads >>= λ inputs. write (compact inputs drop_tombstones min_snapshot_seq)

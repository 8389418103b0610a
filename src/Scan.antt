-- ===== src/Scan.antt =====
-- src/scan.rs: the merge of a key range across sorted sources into the live values of its keys. A
-- source is the list of the items that its iterator gives.
pub mod Choose
pub mod Sources
pub mod Live
pub mod Answers
pub mod Collect
pub mod Calls
pub mod Examples
use Prim.Native.Nat.Ordering.{lt, eq, gt}
use lsm_tree_key_value_stora.Prelude.{
  ℕ, zero, suc, Bool, true, false, Option, none, some, List, [], ◌∷◌, map, get_elem?, ltb, leb,
  if◌then◌else◌,
}
use lsm_tree_key_value_stora.Order.{key_eq, key_lt, bytes_ord}
use lsm_tree_key_value_stora.Errors.{Error, Result, ok, err}
use lsm_tree_key_value_stora.Bytes.{Bytes}
use lsm_tree_key_value_stora.Record.{Record}

abbrev pub Item : Type 0
Item = Result Record

-- An iterator with one item held back.
pub record Peeking : Type 0 where
  pub iter : List Item
  pub head : Option Item

-- `Peeking::new`
unfoldable pub peeking : List Item → Peeking
peeking [] = record { iter = []; head = none }
peeking (x ∷ xs) = record { iter = xs; head = some x }

-- `Peeking::advance`: the head is the answer, and the iterator's next item takes its place.
unfoldable pub advance : Peeking → Option Item × Peeking
unfolding peeking
advance p = (p.head, peeking p.iter)

-- `head = None`, and the iterator is run to its end.
abbrev pub closed : Peeking → Peeking
closed p = record { iter = []; head = none }

pub record Merge : Type 0 where
  pub sources : List Peeking
  pub seq_bound : ℕ
  pub end : Option Bytes
  pub done : Option Bytes

unfoldable pub new : List (List Item) → ℕ → Option Bytes → Merge
new sources seq_bound end = record {
  sources = map peeking sources;
  seq_bound = seq_bound;
  end = end;
  done = none;
}

-- The smaller key goes first, and the larger sequence number of one key.
unfoldable pub better : Record → Option (ℕ × Record) → Bool
better head none = true
better head (some (b, current)) = elim (bytes_ord.cmp head.key current.key) [
  | lt ↦ true
  | gt ↦ false
  | eq ↦ ltb current.seq head.seq
]

abbrev index_of : Option (ℕ × Record) → Option ℕ
index_of none = none
index_of (some (i, r)) = some i

-- The loop of `next_source` from index `i` on; `best` comes with the record at its head.
unfoldable pub next_source_from : ℕ → Option (ℕ × Record) → List Peeking → Option ℕ
next_source_from i best [] = index_of best
next_source_from i best (p ∷ ps) = elim p.head [
  | none ↦ next_source_from (suc i) best ps
  | some (err e) ↦ some i
  | some (ok r) ↦ next_source_from (suc i) (if better r best then some (i, r) else best) ps
]

abbrev pub next_source : Merge → Option ℕ
next_source m = next_source_from 0 none m.sources

-- `self.sources[index]`, changed in place.
unfoldable pub change : ℕ → (Peeking → Peeking) → List Peeking → List Peeking
change i f [] = []
change zero f (p ∷ ps) = f p ∷ ps
change (suc i) f (p ∷ ps) = p ∷ change i f ps

-- How a round of the loop ends: `return None`, `return Some(..)`, or `continue`.
pub data Turn : Type 0 where
  stop again : Turn
  emit : Result (Bytes × Bytes) → Turn

abbrev pub past_end : Option Bytes → Bytes → Bool
past_end none key = false
past_end (some e) key = if key_lt key e then false else true

abbrev pub is_done : Option Bytes → Bytes → Bool
is_done none key = false
is_done (some d) key = key_eq d key

abbrev pub emit_value : Option Bytes → Bytes → Turn
emit_value (some v) key = emit (ok (key, v))
emit_value none key = again

-- The body of the loop behind `advance`.
unfoldable pub taken : Option Item → ℕ → Merge → Turn × Merge
taken none index m = (stop, m)
taken (some (err e)) index m = (emit (err e), m)
taken (some (ok r)) index m =
    if past_end m.end r.key
    then (again, record m { sources = change index closed m.sources })
    else if is_done m.done r.key
    then (again, m)
    else if leb m.seq_bound r.seq
    then (again, m)
    else (emit_value r.value r.key, record m { done = some r.key })

abbrev pub head_of : Option Peeking → Option Item
head_of none = none
head_of (some p) = p.head

unfoldable pub turn : Merge → Turn × Merge
unfolding advance
turn m = elim (next_source m) [
  | none ↦ (stop, m)
  | some i ↦
      taken (head_of (get_elem? m.sources i)) i
        (record m { sources = change i (λ p. (advance p).1) m.sources })
]

abbrev pub answer :
    Turn × Merge → Option (Result (Bytes × Bytes)) × Merge → Option (Result (Bytes × Bytes)) × Merge
answer (stop, m) later = (none, m)
answer (emit x, m) later = (some x, m)
answer (again, m) later = later

-- `Iterator::next`. Each round takes an item, so the number of items is enough fuel.
unfoldable pub next : ℕ → Merge → Option (Result (Bytes × Bytes)) × Merge
next zero m = (none, m)
next (suc fuel) m = let later = next fuel (turn m).1 in answer (turn m) later

abbrev pub joined : Turn → List (Result (Bytes × Bytes)) → List (Result (Bytes × Bytes))
joined stop rest = []
joined again rest = rest
joined (emit x) rest = x ∷ rest

-- What the calls of `next` give, to the end of the iterator.
unfoldable pub collect : ℕ → Merge → List (Result (Bytes × Bytes))
collect zero m = []
collect (suc fuel) m = let rest = collect fuel (turn m).1 in joined (turn m).0 rest

-- ===== src/SsTable/Walk.antt =====
-- src/sstable/mod.rs, `SsTableReader::scan` and `TableScan`: a lazy walk over a table from a key.
use lsm_tree_key_value_stora.Prelude.{
  ℕ, zero, suc, ◌+◌, Bool, false, Option, none, some, List, [], ◌∷◌, length, get_elem?, ◌==◌,
  if◌then◌else◌,
}
use lsm_tree_key_value_stora.Order.{key_lt, bytes_ord}
use lsm_tree_key_value_stora.Errors.{Result, ok, err}
use lsm_tree_key_value_stora.Bytes.{Bytes}
use lsm_tree_key_value_stora.Record.{Record}
use lsm_tree_key_value_stora.SsTable.{Lz4, Entry}
use lsm_tree_key_value_stora.SsTable.Reader.{SsTableReader, load_block, block_bracketing}

pub record TableScan : Type 0 where
  pub reader : SsTableReader
  pub block : ℕ
  pub loaded : Option (List Record)
  pub pos : ℕ
  pub start : Option Bytes

abbrev pub first_block : Option Bytes → List Entry → Option ℕ
first_block (some key) index = block_bracketing key index
first_block none index = if length index == 0 then none else some 0

abbrev pub unwrap_or : Option ℕ → ℕ → ℕ
unwrap_or none d = d
unwrap_or (some i) d = i

unfoldable pub scan : Option Bytes → SsTableReader → TableScan
scan start t = record {
  reader = t;
  block = unwrap_or (first_block start t.index) (length t.index);
  loaded = none;
  pos = 0;
  start = start;
}

-- How a round of the loop ends: `return None`, `return Some(..)`, or with another round.
pub data Round : Type 0 where
  stop again : Round
  emit : Result Record → Round

abbrev pub is_below : Option Bytes → Record → Bool
is_below none r = false
is_below (some k) r = key_lt r.key k

-- The second half of a round, with a block at hand.
abbrev pub read_record : Option Record → TableScan → Round × TableScan
read_record (some r) s =
    let s' = record s { pos = s.pos + 1 } in
    if is_below s.start r then (again, s') else (emit (ok r), s')
read_record none s = (again, record s { block = s.block + 1; loaded = none; start = none })

abbrev pub received : Result (List Record) × SsTableReader → TableScan → Round × TableScan
received (ok block, t) s =
    read_record (get_elem? block 0) (record s { reader = t; loaded = some block; pos = 0 })
received (err e, t) s = (emit (err e), record s { reader = t; block = length t.index })

abbrev pub load : Lz4 → Option Entry → TableScan → Round × TableScan
load z none s = (stop, s)
load z (some e) s = received (load_block z e.block_offset e.comp_len s.reader) s

-- The body of the loop.
unfoldable pub round : Lz4 → TableScan → Round × TableScan
round z s = elim s.loaded [
  | none ↦ load z (get_elem? s.reader.index s.block) s
  | some block ↦ read_record (get_elem? block s.pos) s
]

abbrev pub answer :
    Round × TableScan → Option (Result Record) × TableScan → Option (Result Record) × TableScan
answer (stop, s) later = (none, s)
answer (emit x, s) later = (some x, s)
answer (again, s) later = later

-- `Iterator::next`
unfoldable pub next : ℕ → Lz4 → TableScan → Option (Result Record) × TableScan
next zero z s = (none, s)
next (suc fuel) z s = let later = next fuel z (round z s).1 in answer (round z s) later

abbrev pub joined : Round → List (Result Record) → List (Result Record)
joined stop rest = []
joined again rest = rest
joined (emit x) rest = x ∷ rest

-- What the calls of `next` give, to the end of the iterator.
unfoldable pub collect : ℕ → Lz4 → TableScan → List (Result Record)
collect zero z s = []
collect (suc fuel) z s = let rest = collect fuel z (round z s).1 in joined (round z s).0 rest

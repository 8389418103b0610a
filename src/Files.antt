-- ===== src/Files.antt =====
-- src/fs.rs: the sync modes, an open file, and the append buffer in front of one. A file's
-- operations may fail; `fates` says how the coming ones end (an empty list: they all work). A
-- failed append may have written part of its bytes. Reads are answers that their callers are given.
pub mod Laws
use lsm_tree_key_value_stora.Prelude.{
  ℕ, ◌^◌, ◌*◌, Bool, true, false, List, [], ◌∷◌, ◌++◌, length, take, leb, ltb, ◌==◌, if◌then◌else◌,
  max,
}
use lsm_tree_key_value_stora.Errors.{Error, Result, ok, err, io, other_io}
use lsm_tree_key_value_stora.Bytes.{Bytes}

-- A method: the state comes back beside an error too.
abbrev pub Exec : Type 0 → Type 0 → Type 0
Exec S A = S → Result A × S

abbrev pub continue : {S A B : Type 0} → Result A → (A → Exec S B) → Exec S B
continue (ok a) f s = f a s
continue (err e) f s = (err e, s)

-- `let a = m?; f(a)`
infixl 5 ◌then_do◌
abbrev pub ◌then_do◌ : {S B : Type 0} → Exec S (Unit {0}) → Exec S B → Exec S B
◌then_do◌ m f s = continue (m s).0 (λ _. f) (m s).1

pub data SyncMode : Type 0 where
  durable barrier no_sync : SyncMode

unfoldable pub is_durable : SyncMode → Bool
is_durable durable = true
is_durable barrier = false
is_durable no_sync = false

-- How an operation on the file ends: `fails n` after `n` bytes.
pub data Fate : Type 0 where
  works : Fate
  fails : ℕ → Fate

-- `kept` is what a power loss leaves for certain: the contents at the last durable sync.
pub record File : Type 0 where
  pub contents : Bytes
  pub kept : Bytes
  pub fates : List Fate

abbrev pub fate : List Fate → Fate
fate [] = works
fate (x ∷ xs) = x

abbrev pub later_fates : List Fate → List Fate
later_fates [] = []
later_fates (x ∷ xs) = xs

abbrev io_error : Error
io_error = io other_io

abbrev ended_append : Fate → Bytes → Exec File (Unit {0})
ended_append works bytes f =
    (ok tt, record f { contents = f.contents ++ bytes; fates = later_fates f.fates })
ended_append (fails n) bytes f =
    (err io_error, record f { contents = f.contents ++ take n bytes; fates = later_fates f.fates })

-- `File::append`
unfoldable pub append : Bytes → Exec File (Unit {0})
append bytes f = ended_append (fate f.fates) bytes f

-- Only a durable sync may be relied on behind a power loss.
abbrev kept_under : SyncMode → File → Bytes
kept_under durable f = f.contents
kept_under barrier f = f.kept
kept_under no_sync f = f.kept

abbrev ended_sync : Fate → Bytes → Exec File (Unit {0})
ended_sync works kept f = (ok tt, record f { kept = kept; fates = later_fates f.fates })
ended_sync (fails n) kept f = (err io_error, record f { fates = later_fates f.fates })

-- `File::sync_as`: no call at all under `SyncMode::None`.
unfoldable pub sync_as : SyncMode → Exec File (Unit {0})
sync_as no_sync f = (ok tt, f)
sync_as barrier f = ended_sync (fate f.fates) (kept_under barrier f) f
sync_as durable f = ended_sync (fate f.fates) (kept_under durable f) f

pub record BufAppend : Type 0 where
  pub file : File
  pub buf : Bytes
  pub cap : ℕ
  pub write_failed : Bool

abbrev pub append_buffer_bytes : ℕ
append_buffer_bytes = 64 * 1024

unfoldable pub with_capacity : File → ℕ → BufAppend
with_capacity file cap = record { file = file; buf = []; cap = max cap 1; write_failed = false }

unfoldable pub new : File → BufAppend
unfolding with_capacity
new file = with_capacity file append_buffer_bytes

abbrev flushed : Result (Unit {0}) × File → Exec BufAppend (Unit {0})
flushed (ok u, f) b = (ok tt, record b { file = f; buf = [] })
flushed (err e, f) b = (err e, record b { file = f; write_failed = true })

unfoldable pub flush : Exec BufAppend (Unit {0})
unfolding append
flush b = if length b.buf == 0 then (ok tt, b) else flushed (append b.buf b.file) b

unfoldable pub write : Bytes → Exec BufAppend (Unit {0})
unfolding flush
write bytes b =
    let b' = record b { buf = b.buf ++ bytes } in
    if leb b'.cap (length b'.buf) then flush b' else (ok tt, b')

abbrev synced : Result (Unit {0}) × File → Exec BufAppend (Unit {0})
synced (ok u, f) b = (ok tt, record b { file = f })
synced (err e, f) b = (err e, record b { file = f; write_failed = true })

-- `self.file.sync()` is `sync_as(SyncMode::Durable)`.
unfoldable pub sync : Exec BufAppend (Unit {0})
unfolding flush sync_as
sync = flush then_do (λ b. synced (sync_as durable b.file) b)

abbrev passed_on : Result (Unit {0}) × File → Exec BufAppend (Unit {0})
passed_on (r, f) b = (r, record b { file = f })

-- `get_mut().sync_as(mode)`, which bypasses the buffer.
unfoldable pub sync_file_as : SyncMode → Exec BufAppend (Unit {0})
unfolding sync_as
sync_file_as mode b = passed_on (sync_as mode b.file) b

-- ===== src/Lib.antt =====
-- A log-structured merge tree key-value store: a write-ahead log in front of a MemTable, sorted
-- tables that a compaction merges, a bloom filter that spares reads of tables, and a manifest that
-- names the live tables.
--
-- The parts and their files. A write becomes a `Record` (src/record.rs: Record), which `Wal`
-- (src/wal.rs: Wal) appends to the log as a batch in one frame and the MemTable (src/memtable.rs:
-- MemTable) takes under the key (key, Reverse(seq)). Reads take the version with the largest
-- sequence number below a bound; Visible states that reading for any collection of versions, and
-- the theorems on the MemTable, the scan and the compaction refer to it. A scan (src/scan.rs: Scan)
-- merges sorted sources into the live values of a range. A compaction (src/compaction.rs:
-- Compaction) merges the sorted records of several tables and keeps what a reader at or above the
-- snapshot horizon can see. The manifest (src/manifest.rs: Manifest) is a second log, of edits to
-- the set of live tables and to the counters. Both logs have the header of src/header.rs (Header)
-- and frames with a length and a checksum (Frames); both are written through the append buffer of
-- src/fs.rs (Files). Errors is src/error.rs, and Bloom the filter of src/bloom.rs.
--
-- A table (src/sstable/mod.rs: SsTable) is written by SsTable/Writer and read by SsTable/Reader through
-- the block cache of SsTable/Cache; SsTable/Walk is the lazy walk that a scan takes. Blocks says what a
-- well-formed table holds, Lookup, Contents, Walking and Bracket are the theorems on its reads; Cuts,
-- Filing and Image are those on the file that a write leaves, Reading, Stored and RoundTrip those on
-- opening it. The
-- database (src/db.rs: Db) has its state, writes, reads, snapshots and health in Db, scans in Db/Scan,
-- the flush in Db/Flush, the compaction in Db/Compact, and the public operations and the worker loops of
-- src/compactor.rs in Db/Work. Contents says which versions a database holds; Reads, Batches,
-- FlushReads and Horizons are the theorems on its operations, over Writes, Flushes and Steps, and Picked,
-- Splice, Merged and Compactions the parts of the one on a compaction; Tiers is the one on the choice of
-- tables. Db/Open is the recovery at open, with the lock of src/fsutil.rs, Reclaim, Recovery and Durable
-- the theorems on it. Stores says what crates and file system promise, Latches what a failure
-- leaves, Shrinks that compaction ends.
--
-- Prelude, Bytes, Order, Members and SortedMap are shared: names and list lemmas, little-endian
-- integers, total orders as instances, membership, and `BTreeMap` as its entries in order.
--
-- How the code is rendered. Numbers are natural numbers; the casts to u32 are written as `% 2 ^ 32`,
-- and `checked_add` compares with 2 ^ 64. A method on a mutable object is a function from the state
-- to a result and the next state, which comes back beside an error too. A file has a list of
-- fates, which say how its coming operations end; a failed append may have written a part of
-- its bytes. It also has the bytes that its last durable sync kept, which is what a power loss
-- leaves for certain; a sync under another mode keeps nothing more. The two CRC functions are the
-- parameter `Hashes`, xxh3 is `SeededHash`, lz4 is `Lz4`. The answers of `open`, `read_all`, `size`
-- and `read_at` on a log are arguments, and so is the floating-point sizing of a filter. What the file system answers during a flush or a compaction is the
-- record `Disk`. An operation under a lock is one step, and a message to a worker is counted.
--
-- Fuel. The replay loops take the number of bytes plus one, since each round moves by a frame
-- header or more; the heap loop takes the number of records, and the loop over the groups the
-- length of the stream, since each round takes a record or more. The loops of the filter run on
-- their number of probes, and a scan on the number of records in its sources, since each round
-- takes one. A block is decoded on its number of bytes. A walk over a table takes a round for each
-- record, one for each block and one for the end. The loop over compaction steps takes its fuel and
-- gives no answer where that runs out.
--
-- Not modelled. A power loss that hits a table, the manifest or a directory entry: an opening is given
-- the tables and the manifest as they are found. The checkpoint, the interleaving of threads, the
-- directory operations of the manifest and of the file seam, the command line. The cache of a table that a scan or a compaction reads is
-- left as it was, since a cache changes no answer.
pub mod Prelude
pub mod Errors
pub mod Bytes
pub mod Record
pub mod Order
pub mod SortedMap
pub mod Visible
pub mod MemTable
pub mod Header
pub mod Frames
pub mod Files
pub mod Wal
pub mod Members
pub mod Compaction
pub mod Manifest
pub mod Bloom
pub mod Scan
pub mod SsTable
pub mod Db

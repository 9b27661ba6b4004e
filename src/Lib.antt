-- ===== src/Lib.antt =====
-- CloudPebble: a server of the Bigtable v2 data API (pkg/bigtable) on top of Pebble, an ordered
-- key-value store, whose batches pkg/walcloud writes to object storage as a write-ahead log.
--
-- Every cell of a table is one Pebble key: the escaped row key, the family, the qualifier and the
-- inverted timestamp (pkg/bigtable/encoding.go). The handlers turn mutations into batches of
-- operations on these keys (mutate.go, readmodifywrite.go), and scan key ranges, decode the keys and
-- filter the cells to answer reads (readrows.go, filter.go). The engine of a table
-- (pkg/engine/engine.go) hands a batch to the log manager (pkg/walcloud/manager.go), which writes it,
-- or the merged batches of a window, as one object to the object store, and applies it to Pebble.
-- Sync uploads a checkpoint of Pebble with a manifest and collects the log up to it; recover downloads
-- the checkpoint and replays the later log objects.
--
--   Base            numbers, byte strings and their order, big-endian numbers, int64 as bit patterns
--   Pebble          what the code uses of github.com/cockroachdb/pebble: a record of a database type,
--                   its operations and their laws, which every theorem on a handler takes as an
--                   argument; Pebble.Table fills it with a list of entries
--   Objstore        pkg/objstore/store.go: the interface of an object store with the laws of its
--                   comments; Objstore.Memory fills it, and Objstore.Gcs.Refines for the second of these
--   Objstore.Local, Objstore.Gcs   the backends of pkg/objstore/local and pkg/objstore/gcs, over interfaces
--                   of the file system and of the client library, which their modules Table fill
--   Objstore.Filepath         what the local store uses of path/filepath
--   Bigtable.Encoding         encoding.go: encodeRowPrefix, EncodeCellKey, the range bounds; Decoder has
--                             DecodeCellKey and CellDecoder; the other child modules are proofs
--   Bigtable.Mutate           mutate.go: applyMutationToBatch, MutateRow, MutateRows
--   Bigtable.CheckAndMutate   mutate.go: rowHasCells, CheckAndMutateRow
--   Bigtable.ReadRows         readrows.go: cellChunk, appendCellChunks, rowRangeToBounds; Scan has ReadRows
--   Bigtable.ReadModifyWrite  readmodifywrite.go: ReadModifyWriteRow, readCellValue
--   Bigtable.SampleKeys       samplekeys.go: SampleRowKeys
--   Bigtable.Server           server.go: the tables of a server with getEngine, Close and PingAndWarm
--   Bigtable.Session          session.go: handleSession, dispatchVRPC
--   Bigtable.Filter           filter.go: Message has the messages, Leaves and Evaluator the evaluators,
--                             Engine rowFilterEngine; Yield compares hasMatch with process
--   Wal.Batches, Wal.Paths    pkg/walcloud/manager.go: mergeBatchSegments, walPath, parseWALSeq
--   Wal.Merged                what a merged object holds, for a format of batches as a parameter
--   Wal.Objects               manager.go: listWALs, ReadRecord, GC, the first number of NewManager
--   Wal.Manager               manager.go: WriteRecord, Flush, flushPending, Close as steps of a system of
--                             a manager, its calls of Put on their way, their outcomes and the store
--   Engine                    pkg/engine/engine.go: the state and its paths, and Local, the interface of
--                             Pebble on disk, JSON and SHA-256, which Engine.Table fills
--   Engine.Namespaces         the paths of a namespace as path.Join makes them
--   Engine.Recovery           recover, replayWALs, replayLocalWALs
--   Engine.Writes             writeWALAndApply, applyThenWALAsync, Set, Delete, Get
--   Engine.Sync               Sync, Close
--   Engine.Open               Open, and the ticks of syncLoop and walReplayLoop; Run has their sequences
--   Tests                     the theorems at concrete inputs
--
-- An int64 is its bit pattern, a number below 2^64; sums and differences wrap. A Go map is a function
-- or an association list, an error is a value, and the variables of a handler are a record that each
-- step passes on. A time.Duration is an int64. The clock, the regular expressions, the random numbers,
-- the errors of the engine and of a stream are arguments. Two loops run on fuel: the cut of a value
-- into chunks, with the length of the value, which is enough since every chunk takes at least one
-- byte, and the count of decimal digits of a manifest version, with 18, which is enough for a number
-- below 2^63.
--
-- Not modelled: the metrics, the tests of the store contract, the commands, and the generated protocol
-- code, whose messages are data types, or types of an interface in Bigtable.Session. The manager is
-- modelled with its calls interleaved; a call of a handler or of the engine is one step, but for the
-- end of a write that waits for its window. In the engine a file of the local log can always be read.
-- A namespace is proper names between slashes: no part of it is empty, "." or "..". For such a namespace
-- the paths of the model and those of path.Join, which cleans its result, are compared in
-- Engine.Namespaces; the server does not check table names, and other namespaces are not modelled. The
-- names of files in a manifest are proper, too. Pebble's own log is off, as Open sets it: a flush brings
-- what is in memory into the tables, and a checkpoint has the tables only.
mod Base
pub mod Pebble
pub mod Objstore
pub mod Bigtable
pub mod Wal
pub mod Engine
mod Tests

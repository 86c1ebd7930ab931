-- ===== src/Lib.antt =====
-- kudu-rs, the Rust client of Apache Kudu: a model of its data structures and encodings.
--
-- The client keeps, for each connection (src/rpc/connection.rs), the RPCs that are still to be sent in
-- a `QueueMap` (src/queue_map.rs) by their call ids. A table's rows (src/row.rs) follow a schema
-- (src/schema.rs) and hold their set and null columns in a `BitSet` (src/bit_set.rs). The keys by
-- which rows are ordered and tablets are found are byte strings made by src/key.rs. A writer
-- (src/writer.rs) looks the tablet of each row up in the `MetaCache` (src/meta_cache.rs), buffers rows
-- by tablet, and flushes the buffers epoch by epoch, the epochs being keys of a `QueueMap`.
--
-- Which file models what (paths are from the root of the repository, less kudu-pb's generated code):
--   Base, Bytes      shared names, `usize` arithmetic, bit laws, src/error.rs, the order of byte slices
--   ByteOrder        the crate byteorder as an interface: what its documentation promises
--   QueueMap         src/queue_map.rs; View is its map from keys to elements, Slots, Insert, Remove,
--                    Pop, Entries (iterators) and Calls are proofs
--   BitSet           src/bit_set.rs
--   Key/Binary       `encode_binary` and `decode_binary` of src/key.rs
--   Key/Ints         the integer arms of `encode_column` and `decode_column` of src/key.rs
--   Key/Columns      `encode_column`, `decode_column` and the primary keys of src/key.rs; Steps, Typed,
--                    Cases, Keys, PrimaryKey, Order and Compare are proofs
--   Key/Increment    `increment_cell` and `is_cell_incremented` of src/key.rs; Cells and Ints are proofs
--   Key/Rows         `partial_cmp` of rows of src/row.rs; Times, Cells and Compare are proofs
--   Key/Partitions   partition keys of src/key.rs, and the partition schemas of src/partition.rs
--   Key/Hash         `murmur2_64` and `encode_hash_partition_key` of src/key.rs; Reference is the hash
--                    MurmurHash64A, Words and Total are proofs
--   Types            the enumerations of src/lib.rs and their generated counterparts
--   Schema           src/schema.rs; Layout, Names, Build and Pb are proofs on `Schema::new`,
--                    `column_index`, `SchemaBuilder::build` and the messages
--   Value            src/value.rs, a record for each implementation of the trait `Value`
--   Partition        src/partition.rs
--   Dns, Tablet      src/dns.rs and src/tablet.rs, with the identifiers of src/lib.rs
--   Backoff          src/backoff.rs; Bounds is proofs
--   Time             the times of src/util.rs; RoundTrip is proofs
--   MetaCache        src/meta_cache.rs; Locations is `extract` and what the master's response adds. Order,
--                    Lookup, Splice, Kept, Merged, Point, Chain, Contiguous, Tablets, Covered and
--                    Responses are proofs
--   Writer           src/writer.rs under the lock of a writer's state: Apply is `apply` and `flush`, Lookup
--                    `op_lookup_complete`, Batches `batch_complete`. Sent, Complete, Data and Faults are proofs
--   Row              `Row` of src/row.rs over the crate vec_map as an interface; Slices, Columns,
--                    Cells, Writes, After, SetGet and Nulls are proofs, Faults what it cannot do. Encoder is
--                    `OperationEncoder`; Encoded and EncodedLen are its proofs
--
-- State: a record or a list, passed and returned. A call that can panic or fail returns an `Outcome`.
-- Code of other crates is an interface, a record of functions and laws that a theorem takes as an
-- argument. A value of the trait `Value` is lawful if what it stores is read back from there.
-- Numbers are natural numbers; a byte is below 256, `usize` wraps at 2 ^ 64 (`add_usize`, `sub_usize`),
-- and a signed integer is its two's complement pattern. `VecDeque` and `Vec` are lists. The loop of
-- `decode_binary` has one unit of fuel more than there are bytes, of which a round takes two, and
-- `collect` one call more than there are slots, of which a call takes one; the
-- loop of `murmur2_64` has one unit more than there are bytes, of which a round takes eight; a binary
-- search has one unit more than there are entries, of which a round leaves fewer; the loop of
-- `batch_complete` has one unit more than there are slots, of which a round takes one.
--
-- The checks that `debug_assert!` makes are left out.
--
-- Not modelled: `is_cell_equal` and `is_row_incremented` of src/key.rs, the formatting of values,
-- the event channel and the batches of src/writer.rs, the other files of src, the texts of errors,
-- allocation, and everything that is I/O, threads or generated code.
pub mod Base
pub mod Bytes
pub mod ByteOrder
pub mod QueueMap
pub mod BitSet
pub mod Key
pub mod Time
pub mod Types
pub mod Schema
pub mod Value
pub mod Row
pub mod Partition
pub mod Dns
pub mod Tablet
pub mod Backoff
pub mod MetaCache
pub mod Writer

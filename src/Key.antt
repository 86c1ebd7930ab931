-- ===== src/Key.antt =====
-- src/key.rs: the encoding of keys.
pub mod Binary
pub mod Ints
pub mod Columns
pub mod Increment
pub mod Hash
pub mod Partitions
pub mod Rows
pub mod Runs

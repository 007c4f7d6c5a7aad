-- ===== src/Wal.antt =====
-- crates/exocortex-client/src/wal.rs: the local write-ahead log over sled. `Sled` is what the code
-- relies on of the sled crate, `Codec` the record framing, `Log` the operations that write and
-- `Reads` the queries; the other modules prove what they keep.
pub mod Rows
pub mod Sled
pub mod Entry
pub mod Codec
pub mod Log
pub mod Reads
pub mod Queries
pub mod Lsn
pub mod Budget
pub mod Encoding
pub mod Import
pub mod Idempotent
pub mod States
pub mod Store
mod Examples

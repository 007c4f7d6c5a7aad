-- ===== src/Storage.antt =====
-- What the storage crate does without a database.
pub mod ForkWindow
pub mod Discovery
pub mod Owned
pub mod Rows
pub mod InMemory
pub mod Board
pub mod Journal
pub mod Leases
pub mod Ingest
pub mod Store
mod Examples
pub mod Samples
mod StoreExamples
mod OnceExamples

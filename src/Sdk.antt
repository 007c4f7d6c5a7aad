-- ===== src/Sdk.antt =====
-- The batch splitting of crates/exocortex-adapter-sdk.
pub mod Rows
pub mod Split
mod Examples

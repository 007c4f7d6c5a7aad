-- ===== src/Wire.antt =====
-- What the wire crate decides without a network.
pub mod Corrections
pub mod Limits
mod Examples

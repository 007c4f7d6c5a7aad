-- ===== src/Dreams.antt =====
-- What the consolidation crate decides.
pub mod Trigger
pub mod Journal
pub mod Recovery
pub mod Cycle
mod Examples
mod CycleExamples

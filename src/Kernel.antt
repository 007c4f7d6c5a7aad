-- ===== src/Kernel.antt =====
-- crates/exocortex-kernel: visibilities, relationship kinds, packs, the effective ontology, drafts
-- and the write-path validator.
pub mod Visibility
pub mod Kinds
pub mod Pack
pub mod Draft
pub mod Error
pub mod Ontology
pub mod Compatibility
pub mod Validator
pub mod Relationship
mod Examples
mod CompatibilityExamples

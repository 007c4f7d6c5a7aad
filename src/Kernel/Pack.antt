-- ===== src/Kernel/Pack.antt =====
-- crates/exocortex-kernel/src/pack.rs: what a pack declares. Its verbs and guidance are read only
-- by the fingerprints, and are left out.
use exocortex.Common.{ℕ, String, Option, List}
use exocortex.Kernel.Kinds.{RelKindId, RelMeta}

pub record PackVersion : Type 0 where
  pub major : ℕ
  pub minor : ℕ
  pub patch : ℕ

-- `none` stands for "any type".
pub record TypeTriple : Type 0 where
  pub kind : RelKindId
  pub from_types : Option (List ℕ)
  pub to_types : Option (List ℕ)

pub record PackDef : Type 0 where
  pub name : String
  pub version : PackVersion
  pub kernel_min : PackVersion
  pub memory_type_names : List String
  pub entity_type_names : List String
  pub kinds : List RelMeta
  pub type_triples : List TypeTriple
  pub rule_ids : List String

-- ===== src/Kernel/Draft.antt =====
-- crates/exocortex-kernel/src/draft.rs, the memory context of memory.rs and the external key of
-- provenance.rs. A `serde_json::Value` stands as the text that its `to_string` gives; an `f32` as
-- its bit pattern; an id, a time and a hash as a number.
use exocortex.Common.{ℕ, String, Option, List}
use exocortex.Kernel.Visibility.{Visibility}
use exocortex.Kernel.Kinds.{RelKindId}

-- A 16-byte id.
abbrev pub MemoryId : Type 0
MemoryId = ℕ

pub record EdgeHint : Type 0 where
  pub kind : RelKindId
  pub to : MemoryId
  pub strength : Option ℕ
  pub confidence : Option ℕ

pub record ExternalKey : Type 0 where
  pub table_uuid : String
  pub logical_pk : List ℕ
  pub mapping_version : ℕ

pub record MemoryContext : Type 0 where
  pub timestamp : ℕ
  pub project_id : Option String
  pub project_path : Option String
  pub team_id : Option String
  pub tenant_id : Option String
  pub session_id : Option String
  pub user_id : Option String
  pub created_by : Option String
  pub files_involved : List String
  pub languages : List String
  pub frameworks : List String
  pub technologies : List String
  pub git_commit : Option String
  pub git_branch : Option String
  pub working_directory : Option String
  pub entities : List ℕ
  pub additional_metadata : String

pub record MemoryDraft : Type 0 where
  pub memory_type : ℕ
  pub title : String
  pub content : String
  pub summary : Option String
  pub visibility : Visibility
  pub context : MemoryContext
  pub edge_hints : List EdgeHint
  pub external_key : Option ExternalKey

-- ===== src/Kernel/Relationship.antt =====
-- crates/exocortex-kernel/src/relationship.rs, with `RelationshipId::derive` of ids.rs. The blake3
-- digest, cut to 16 bytes and read as a number, is a parameter. A provenance, a time and an `f32`
-- are only carried, and stand as numbers.
pub mod Inverse
use exocortex.Common.{
  ℕ, String, Bool, true, false, Option, none, some, ◌++◌, if◌then◌else◌, ◌==◌, ◌||◌, Bytes,
  be_bytes, le_bytes, as_bytes,
}
use exocortex.Kernel.Visibility.{Visibility}
use exocortex.Kernel.Kinds.{RelKindId, RelMeta}
use exocortex.Kernel.Draft.{MemoryId}
use exocortex.Kernel.Ontology.{Ontology, get}

abbrev pub RelationshipId : Type 0
RelationshipId = ℕ

pub record RelationshipProperties : Type 0 where
  pub strength : ℕ
  pub confidence : ℕ
  pub context : Option String
  pub evidence_count : ℕ
  pub success_rate : Option ℕ
  pub validation_count : ℕ
  pub counter_evidence_count : ℕ
  pub last_validated : ℕ

pub record Relationship : Type 0 where
  pub id : RelationshipId
  pub kind : RelKindId
  pub from : MemoryId
  pub to : MemoryId
  pub visibility : Visibility
  pub provenance : ℕ
  pub properties : RelationshipProperties
  pub description : Option String
  pub bidirectional : Bool
  pub valid_from : ℕ
  pub valid_until : Option ℕ
  pub recorded_at : ℕ
  pub invalidated_by : Option RelationshipId
  pub lsn : ℕ

-- `snapshot.unwrap_or("")`
unfoldable pub snapshot_bytes : Option String → Bytes
unfolding as_bytes
snapshot_bytes none = as_bytes ""
snapshot_bytes (some s) = as_bytes s

module _ (digest : Bytes → ℕ) where
  unfoldable pub derive : MemoryId → RelKindId → MemoryId → Option String → RelationshipId
  unfolding be_bytes le_bytes snapshot_bytes
  derive from kind to snapshot =
      digest (be_bytes 16 from ++ (le_bytes 4 kind ++ (be_bytes 16 to ++ snapshot_bytes snapshot)))

  inverse_of : Relationship → RelKindId → Relationship
  unfolding derive
  inverse_of rel inverse = record rel {
    id = derive rel.to inverse rel.from none;
    kind = inverse;
    from = rel.to;
    to = rel.from;
    bidirectional = false;
    invalidated_by = none;
  }

  -- The tests on the kind that the ontology has for the relationship.
  inverse_by : Relationship → RelMeta → Option RelKindId → Option Relationship
  unfolding inverse_of
  inverse_by rel meta none = none
  inverse_by rel meta (some inverse) =
      if inverse == rel.kind || meta.bidirectional then none else some (inverse_of rel inverse)

  unfoldable pub materialize_inverse : Ontology → Relationship → Option Relationship
  unfolding inverse_by get
  materialize_inverse ontology rel = elim (get rel.kind ontology.kinds_by_id) [
    | none ↦ none
    | some meta ↦ inverse_by rel meta meta.inverse
  ]

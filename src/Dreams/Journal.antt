-- ===== src/Dreams/Journal.antt =====
-- The journal that a consolidation cycle keeps of its own writes (crates/exocortex-dreams/src/lib.rs,
-- `CycleJournal`). The ontology of the development pack is a parameter.
use exocortex.Common.{
  ℕ, String, Bool, true, false, ◌&&◌, Option, none, some, List, [], ◌∷◌, if◌then◌else◌, ◌==◌, any,
  map, Bytes, nat_key, lookup, insert_sorted,
}
use exocortex.Kernel.Draft.{MemoryId}
use exocortex.Kernel.Ontology.{Ontology}
use exocortex.Kernel.Relationship.{Relationship, RelationshipId, materialize_inverse}
use exocortex.Storage.Rows.{Memory}
use exocortex.Storage.Owned.{LsnMap, extend_owned}
use exocortex.Storage.Board.{is_there}
use exocortex.Storage.Journal.{FencedRestore}
use exocortex.Storage.Store.{FencedBatchCommit}

pub record CycleJournal : Type 0 where
  pub cycle_id : String
  pub memories : List (MemoryId × Memory)
  pub relationships : List (RelationshipId × Relationship)
  pub created_memories : List (MemoryId × Memory)
  pub created_relationships : List (RelationshipId × Relationship)
  pub owned_memory_lsns : LsnMap
  pub owned_relationship_lsns : LsnMap

abbrev pub new_journal : String → CycleJournal
new_journal cycle_id = record {
  cycle_id = cycle_id;
  memories = [];
  relationships = [];
  created_memories = [];
  created_relationships = [];
  owned_memory_lsns = [];
  owned_relationship_lsns = [];
}

-- `entry(id).or_insert_with(..)`
abbrev pub or_insert {ℓ} : {V : Type ℓ} → ℕ → V → List (ℕ × V) → List (ℕ × V)
or_insert id v m = if is_there (lookup id m) then m else insert_sorted id v m

abbrev pub record_memory : CycleJournal → Memory → CycleJournal
record_memory j m =
    if is_there (lookup m.id j.created_memories)
    then j
    else record j { memories = or_insert m.id m j.memories }

abbrev pub record_relationship : CycleJournal → Relationship → CycleJournal
record_relationship j r =
    if is_there (lookup r.id j.created_relationships)
    then j
    else record j { relationships = or_insert r.id r j.relationships }

abbrev pub create_relationship : CycleJournal → Relationship → CycleJournal
create_relationship j r =
    if is_there (lookup r.id j.relationships)
    then j
    else record j { created_relationships = or_insert r.id r j.created_relationships }

abbrev pub create_memory : CycleJournal → Memory → CycleJournal
create_memory j m =
    if is_there (lookup m.id j.memories)
    then j
    else record j { created_memories = or_insert m.id m j.created_memories }

-- By the current row of the edge's id.
abbrev pub prepare_found : CycleJournal → Relationship → Option Relationship → CycleJournal
prepare_found j r none = create_relationship j r
prepare_found j r (some preimage) = record_relationship j preimage

abbrev pub prepare_relationship :
    CycleJournal → Relationship → List (RelationshipId × Relationship) → CycleJournal
prepare_relationship j r current = prepare_found j r (lookup r.id current)

-- The journal and the ids that were seen, after the companion of an edge.
abbrev pub prepare_inverse :
    CycleJournal × List RelationshipId
    → List (RelationshipId × Relationship)
    → Option Relationship
    → CycleJournal × List RelationshipId
prepare_inverse (j, seen) current none = (j, seen)
prepare_inverse (j, seen) current (some inverse) =
    if any (λ i. i == inverse.id) seen
    then (j, seen)
    else (prepare_relationship j inverse current, inverse.id ∷ seen)

unfoldable pub record_commit : CycleJournal → FencedBatchCommit → CycleJournal
record_commit j commit = record j {
  owned_memory_lsns = extend_owned j.owned_memory_lsns commit.memory_lsns;
  owned_relationship_lsns = extend_owned j.owned_relationship_lsns commit.relationship_lsns;
}

unfoldable pub restore : CycleJournal → FencedRestore
restore j = record {
  memories = map (λ (e : MemoryId × Memory). e.1) j.memories;
  relationships = map (λ (e : RelationshipId × Relationship). e.1) j.relationships;
  created_memories = map (λ (e : MemoryId × Memory). e.1) j.created_memories;
  created_relationships = map (λ (e : RelationshipId × Relationship). e.1) j.created_relationships;
  owned_memory_lsns = j.owned_memory_lsns;
  owned_relationship_lsns = j.owned_relationship_lsns;
}

abbrev pub has_none : LsnMap → Bool
has_none [] = true
has_none (e ∷ m) = false

abbrev pub is_empty : CycleJournal → Bool
is_empty j = has_none j.owned_memory_lsns && has_none j.owned_relationship_lsns

module _ (digest : Bytes → ℕ) (ontology : Ontology) where
  abbrev pub prepare_writes :
      CycleJournal × List RelationshipId
      → List Relationship
      → List (RelationshipId × Relationship)
      → CycleJournal × List RelationshipId
  prepare_writes (j, seen) [] current = (j, seen)
  prepare_writes (j, seen) (r ∷ rs) current =
      prepare_writes
        (prepare_inverse (prepare_relationship j r current, seen) current
          (materialize_inverse digest ontology r))
        rs current

  unfoldable pub prepare_relationship_writes :
      CycleJournal → List Relationship → List (RelationshipId × Relationship) → CycleJournal
  prepare_relationship_writes j writes current =
      (prepare_writes (j, map (λ (r : Relationship). r.id) writes) writes current).0

-- ===== src/Dreams/Cycle/Notes.antt =====
-- What a cycle's notes of rows leave alone in its journal (`CycleJournal` of lib.rs).
use exocortex.Common.{
  ℕ, ◌≡◌, refl, ◌∙◌, Bool-cases, inl, inr, Option, none, some, List, [], ◌∷◌, Bytes, any, nat_key,
  lookup, ◌==◌,
}
use exocortex.Kernel.Ontology.{Ontology}
use exocortex.Kernel.Relationship.{Relationship, RelationshipId, materialize_inverse}
use exocortex.Storage.Rows.{Memory, lease_key}
use exocortex.Storage.Board.{is_there}
use exocortex.Dreams.Journal.{
  CycleJournal, record_memory, record_relationship, create_memory, create_relationship,
  prepare_found, prepare_relationship, prepare_inverse, prepare_writes,
}

-- Notes of rows own no LSN.
abbrev pub SameOwned : CycleJournal → CycleJournal → Type 0
SameOwned j k =
    (k.owned_memory_lsns ≡ j.owned_memory_lsns)
    × (k.owned_relationship_lsns ≡ j.owned_relationship_lsns)

pub record_memory-same : (j : CycleJournal) (m : Memory) → SameOwned j (record_memory j m)
record_memory-same j m = elim (Bool-cases (is_there (lookup m.id j.created_memories))) [
  | inl there ↦ rw there (refl, refl)
  | inr new ↦ rw new (refl, refl)
]

pub create_memory-same : (j : CycleJournal) (m : Memory) → SameOwned j (create_memory j m)
create_memory-same j m = elim (Bool-cases (is_there (lookup m.id j.memories))) [
  | inl there ↦ rw there (refl, refl)
  | inr new ↦ rw new (refl, refl)
]

pub record_relationship-same :
    (j : CycleJournal) (r : Relationship) → SameOwned j (record_relationship j r)
record_relationship-same j r = elim (Bool-cases (is_there (lookup r.id j.created_relationships))) [
  | inl there ↦ rw there (refl, refl)
  | inr new ↦ rw new (refl, refl)
]

pub create_relationship-same :
    (j : CycleJournal) (r : Relationship) → SameOwned j (create_relationship j r)
create_relationship-same j r = elim (Bool-cases (is_there (lookup r.id j.relationships))) [
  | inl there ↦ rw there (refl, refl)
  | inr new ↦ rw new (refl, refl)
]

prepare_found-same :
    (j : CycleJournal) (r : Relationship) (o : Option Relationship)
    → SameOwned j (prepare_found j r o)
prepare_found-same j r none = create_relationship-same j r
prepare_found-same j r (some preimage) = record_relationship-same j preimage

prepare_inverse-same :
    (j : CycleJournal) (seen : List RelationshipId) (current : List (RelationshipId × Relationship))
    (o : Option Relationship)
    → SameOwned j (prepare_inverse (j, seen) current o).0
prepare_inverse-same j seen current none = (refl, refl)
prepare_inverse-same j seen current (some inverse) =
    elim (Bool-cases (any (λ i. i == inverse.id) seen)) [
      | inl known ↦ rw known (refl, refl)
      | inr new ↦ rw new (prepare_found-same j inverse (lookup inverse.id current))
    ]

SameOwned-trans : (i j k : CycleJournal) → SameOwned i j → SameOwned j k → SameOwned i k
SameOwned-trans i j k a b = (b.0 ∙ a.0, b.1 ∙ a.1)

module _ (digest : Bytes → ℕ) (ontology : Ontology) where
  pub prepare_writes-same :
      (j : CycleJournal) (seen : List RelationshipId) (rs : List Relationship)
      (current : List (RelationshipId × Relationship))
      → SameOwned j (prepare_writes digest ontology (j, seen) rs current).0
  prepare_writes-same j seen [] current = (refl, refl)
  prepare_writes-same j seen (r ∷ rs) current =
      let k = prepare_relationship j r current in
      let next = prepare_inverse (k, seen) current (materialize_inverse digest ontology r) in
      SameOwned-trans j k (prepare_writes digest ontology next rs current).0
        (prepare_found-same j r (lookup r.id current))
        (SameOwned-trans k next.0 (prepare_writes digest ontology next rs current).0
          (prepare_inverse-same k seen current (materialize_inverse digest ontology r))
          (prepare_writes-same next.0 next.1 rs current))

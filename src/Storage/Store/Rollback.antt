-- ===== src/Storage/Store/Rollback.antt =====
-- The rollback of a cycle's writes in crates/exocortex-storage/src/in_memory.rs.
pub mod Histories
pub mod Journaled
pub mod Undo
use exocortex.Common.{
  ℕ, ◌+◌, Bool, not, Option, none, some, List, [], ◌∷◌, ◌++◌, Result, ok, err, if◌then◌else◌, ◌==◌,
  filter, length, nat_key, HashKey, get_last?, lookup, insert, remove,
}
use exocortex.Kernel.Draft.{MemoryId}
use exocortex.Kernel.Relationship.{Relationship, RelationshipId}
use exocortex.Storage.Rows.{
  Memory, CommitRecord, Invalidation, memory_upserted, memory_deleted, relationship_upserted,
  relationship_deleted, StorageError,
}
use exocortex.Storage.Owned.{LsnMap, has_lsn}
use exocortex.Storage.Journal.{FencedRestore}
use exocortex.Storage.InMemory.{Graph, commit_record, publish}
use exocortex.Storage.Leases.{OwnerLease, check_lease_current}
use exocortex.Storage.Store.{Store, fenced}

-- The variables of `restore_fenced`: the clones of the maps, the LSN, the records and the events.
pub record Restored : Type 0 where
  pub next : ℕ
  pub memories : List (MemoryId × List Memory)
  pub rels : List (RelationshipId × List Relationship)
  pub records : List CommitRecord
  pub invalidations : List Invalidation

-- The closure `record`, and the event.
abbrev pub restored_event : ℕ → Restored → Invalidation → Restored
restored_event now s i = record s {
  next = s.next + 1;
  records = s.records ++ commit_record (s.next + 1) now ∷ [];
  invalidations = s.invalidations ++ i ∷ [];
}

-- `retain`
abbrev pub kept_memories : List ℕ → List Memory → List Memory
kept_memories owned versions = filter (λ (m : Memory). not (has_lsn m.lsn owned)) versions

abbrev pub kept_edges : List ℕ → List Relationship → List Relationship
kept_edges owned versions = filter (λ (r : Relationship). not (has_lsn r.lsn owned)) versions

abbrev pub restore_versions : ℕ → Restored → MemoryId → List Memory → Restored
restore_versions now s id [] = record (restored_event now s (memory_deleted id (s.next + 1))) {
  memories = remove id s.memories;
}
restore_versions now s id (m ∷ ms) =
    record (restored_event now s (memory_upserted id (s.next + 1))) {
      memories = insert id (m ∷ ms) s.memories;
    }

abbrev pub restore_memory_found : ℕ → Restored → MemoryId → List ℕ → Option (List Memory) → Restored
restore_memory_found now s id owned none = s
restore_memory_found now s id owned (some versions) =
    let kept = kept_memories owned versions in
    if length kept == length versions then s else restore_versions now s id kept

unfoldable pub restore_memories : ℕ → Restored → LsnMap → Restored
restore_memories now s [] = s
restore_memories now s ((id, owned) ∷ rest) =
    restore_memories now (restore_memory_found now s id owned (lookup id s.memories)) rest

-- The event has the ends and the kind of the last version that is kept.
abbrev pub restored_edge :
    ℕ → Restored → RelationshipId → List Relationship → Option Relationship → Restored
restored_edge now s id kept none =
    record (restored_event now s (relationship_deleted id (s.next + 1))) { rels = remove id s.rels }
restored_edge now s id kept (some r) =
    record (restored_event now s (relationship_upserted id r.from r.to r.kind (s.next + 1))) {
      rels = insert id kept s.rels;
    }

abbrev pub restore_edge_found :
    ℕ → Restored → RelationshipId → List ℕ → Option (List Relationship) → Restored
restore_edge_found now s id owned none = s
restore_edge_found now s id owned (some versions) =
    let kept = kept_edges owned versions in
    if length kept == length versions then s else restored_edge now s id kept (get_last? kept)

unfoldable pub restore_edges : ℕ → Restored → LsnMap → Restored
restore_edges now s [] = s
restore_edges now s ((id, owned) ∷ rest) =
    restore_edges now (restore_edge_found now s id owned (lookup id s.rels)) rest

unfoldable pub restored : ℕ → Graph → FencedRestore → Restored
restored now g r =
    restore_edges now
      (restore_memories now
        (record {
          next = g.lsn;
          memories = g.memories;
          rels = g.rels;
          records = [];
          invalidations = [];
        })
        r.owned_memory_lsns)
      r.owned_relationship_lsns

unfoldable pub restore_graph : ℕ → Graph → FencedRestore → Graph
restore_graph now g r =
    let s = restored now g r in
    publish (record g { lsn = s.next; memories = s.memories; rels = s.rels }) s.invalidations

unfoldable pub restore_fenced :
    Store → FencedRestore → OwnerLease → ℕ → Store × Result StorageError (List CommitRecord)
restore_fenced s r lease now =
    fenced s (check_lease_current s.lease_table lease now)
      (record s { graph = restore_graph now s.graph r }, ok (restored now s.graph r).records)

-- ===== src/Dreams/Cycle.antt =====
-- A consolidation cycle of crates/exocortex-dreams/src/lib.rs on the store in memory, as the writes of
-- its engine and what it notes of them, and the two ways back from it: the engine's own after an error,
-- and the next owner's after a crash.
pub mod Notes
pub mod Tracking
pub mod Undone
use exocortex.Common.{ℕ, ◌≡◌, String, List, Result, ok, Bytes}
use exocortex.Kernel.Ontology.{Ontology}
use exocortex.Kernel.Relationship.{Relationship, RelationshipId}
use exocortex.Storage.Rows.{Memory}
use exocortex.Storage.Leases.{OwnerLease}
use exocortex.Storage.Store.{Store, FencedBatchCommit}
use exocortex.Storage.Store.Settle.{upsert_batch_fenced_journaled}
use exocortex.Dreams.Journal.{
  CycleJournal, new_journal, record_memory, record_relationship, create_memory, create_relationship,
  prepare_relationship_writes, record_commit, restore,
}

-- The stores and the journals of a cycle that starts in `s`, with no other writer.
module _ (digest : Bytes → ℕ) (ontology : Ontology) (lease : OwnerLease) (cycle_id : String) where
  pub data Cycle (s : Store) : Store → CycleJournal → Type 0 where
    begun : Cycle s s (new_journal cycle_id)
    noted_memory :
        {t : Store} {j : CycleJournal} → Cycle s t j → (m : Memory) → Cycle s t (record_memory j m)
    noted_relationship :
        {t : Store} {j : CycleJournal}
        → Cycle s t j
        → (r : Relationship) → Cycle s t (record_relationship j r)
    created_memory :
        {t : Store} {j : CycleJournal} → Cycle s t j → (m : Memory) → Cycle s t (create_memory j m)
    created_relationship :
        {t : Store} {j : CycleJournal}
        → Cycle s t j
        → (r : Relationship) → Cycle s t (create_relationship j r)
    prepared :
        {t : Store} {j : CycleJournal}
        → Cycle s t j
        → (writes : List Relationship) (current : List (RelationshipId × Relationship))
        → Cycle s t (prepare_relationship_writes digest ontology j writes current)
    wrote :
        {t u : Store} {j : CycleJournal}
        → Cycle s t j
        → (ms : List Memory) (rs : List Relationship) (now : ℕ) (commit : FencedBatchCommit)
        → upsert_batch_fenced_journaled digest ontology t ms rs (restore j) cycle_id lease now
          ≡ (u, ok commit)
        → Cycle s u (record_commit j commit)

-- ===== src/Storage/Store/Steps.antt =====
-- What callers do with a store, in any order: a step is one call, with a clock that reads as it likes.
use exocortex.Common.{ℕ, String, List, Option, Result, Bytes}
use exocortex.Kernel.Draft.{MemoryId}
use exocortex.Kernel.Ontology.{Ontology}
use exocortex.Kernel.Relationship.{Relationship, RelationshipId}
use exocortex.Storage.Rows.{Memory, StorageError, IngestBatchKey, LeaseKey}
use exocortex.Storage.InMemory.{
  upsert_memory, upsert_batch, delete_memory, upsert_relationship, delete_relationship,
}
use exocortex.Storage.Leases.{OwnerLease, acquire_lease, renew_lease, release_lease}
use exocortex.Storage.Ingest.{
  PostIngestEffect, claim_ingest_effect, renew_ingest_effect_claim, acknowledge_ingest_effect,
  complete_ingest_effect_cleanup,
}
use exocortex.Storage.Discovery.{
  DiscoveryRecord, DiscoveryProposal, AuditEvent, DiscoveryAcceptance,
}
use exocortex.Storage.Board.{create_discovery_proposal}
use exocortex.Storage.Journal.{FencedRestore}
use exocortex.Storage.Store.Discoveries.{
  append_audit, upsert_batch_audited, delete_relationship_audited,
  promote_memory_visibility_audited, store_discovery, store_discovery_fenced, accept_discovery,
}
use exocortex.Storage.Store.Settle.{
  upsert_batch_fenced_journaled, complete_cycle_journal_fenced, settle_dreams_cycle_fenced,
}
use exocortex.Storage.Store.Rollback.{restore_fenced}
use exocortex.Storage.Store.{
  Store, commit_ingest_batch, upsert_batch_once, upsert_batch_fenced, delete_memory_fenced,
}

module _ (digest : Bytes → ℕ) (ontology : Ontology) (token_of : ℕ → String) (grace : ℕ) where
  pub data Step : Store → Store → Type 0 where
    put_memory :
        (s : Store) (m : Memory) (now : ℕ)
        → Step s (record s { graph = (upsert_memory s.graph m now).0 })
    put_batch :
        (s : Store) (ms : List Memory) (rs : List Relationship) (now : ℕ)
        → Step s (record s { graph = (upsert_batch digest ontology s.graph ms rs now).0 })
    drop_memory :
        (s : Store) (id : MemoryId) (now : ℕ)
        → Step s (record s { graph = (delete_memory s.graph id now).0 })
    put_edge :
        (s : Store) (r : Relationship) (now : ℕ)
        → Step s (record s { graph = (upsert_relationship digest ontology s.graph r now).0 })
    drop_edge :
        (s : Store) (id : RelationshipId) (now : ℕ)
        → Step s (record s { graph = (delete_relationship s.graph id now).0 })
    commit_batch :
        (s : Store) (key : IngestBatchKey) (ms : List Memory) (rs : List Relationship)
        (accepted : ℕ) (effect : Option PostIngestEffect) (now : ℕ)
        → Step s (commit_ingest_batch digest ontology s key ms rs accepted effect now).0
    import_once :
        (s : Store) (key : String) (ms : List Memory) (rs : List Relationship) (now : ℕ)
        → Step s (upsert_batch_once digest ontology s key ms rs now).0
    put_batch_fenced :
        (s : Store) (ms : List Memory) (rs : List Relationship) (lease : OwnerLease) (now : ℕ)
        → Step s (upsert_batch_fenced digest ontology s ms rs lease now).0
    drop_memory_fenced :
        (s : Store) (id : MemoryId) (lease : OwnerLease) (now : ℕ)
        → Step s (delete_memory_fenced s id lease now).0
    acquire :
        (s : Store) (key : LeaseKey) (ttl now : ℕ)
        → Step s
            (record s { lease_table = (acquire_lease token_of grace s.lease_table key ttl now).0 })
    renew :
        (s : Store) (lease : OwnerLease) (now : ℕ)
        → Step s (record s { lease_table = (renew_lease s.lease_table lease now).0 })
    release :
        (s : Store) (lease : OwnerLease)
        → Step s (record s { lease_table = release_lease s.lease_table lease })
    claim_effect :
        (s : Store) (token : String) (lease_ms now : ℕ)
        → Step s (record s { ingest = (claim_ingest_effect s.ingest token lease_ms now).0 })
    renew_claim :
        (s : Store) (id token : String) (lease_ms now : ℕ)
        → Step s
            (record s { ingest = (renew_ingest_effect_claim s.ingest id token lease_ms now).0 })
    acknowledge :
        (s : Store) (id token : String) (now : ℕ)
        → Step s (record s { ingest = (acknowledge_ingest_effect s.ingest id token now).0 })
    clean_up :
        (s : Store) (id : String)
        → Step s (record s { ingest = (complete_ingest_effect_cleanup s.ingest id).0 })
    audit : (s : Store) (a : AuditEvent) (now : ℕ) → Step s (append_audit s a now).0
    put_batch_audited :
        (s : Store) (ms : List Memory) (rs : List Relationship) (a : AuditEvent) (now : ℕ)
        → Step s (upsert_batch_audited digest ontology s ms rs a now).0
    drop_edge_audited :
        (s : Store) (id : RelationshipId) (a : AuditEvent) (now : ℕ)
        → Step s (delete_relationship_audited s id a now).0
    promote :
        (s : Store) (m : Memory) (a : AuditEvent) (now : ℕ)
        → Step s (promote_memory_visibility_audited s m a now).0
    propose :
        (s : Store) (p : DiscoveryProposal)
        → Step s (record s { board = (create_discovery_proposal s.board p).0 })
    discover : (s : Store) (d : DiscoveryRecord) → Step s (store_discovery s d).0
    discover_fenced :
        (s : Store) (d : DiscoveryRecord) (lease : OwnerLease) (now : ℕ)
        → Step s (store_discovery_fenced s d lease now).0
    accept_proposal :
        (s : Store) (a : DiscoveryAcceptance) (now : ℕ)
        → Step s (accept_discovery digest ontology s a now).0
    put_batch_journaled :
        (s : Store) (ms : List Memory) (rs : List Relationship) (prepared : FencedRestore)
        (cycle_id : String) (lease : OwnerLease) (now : ℕ)
        → Step s
            (upsert_batch_fenced_journaled digest ontology s ms rs prepared cycle_id lease now).0
    complete_cycle :
        (s : Store) (cycle_id : String) (lease : OwnerLease) (now : ℕ)
        → Step s (complete_cycle_journal_fenced s cycle_id lease now).0
    settle_cycle :
        (s : Store) (content_digest : List DiscoveryRecord → Result StorageError String)
        (cycle_id : String) (ds : List DiscoveryRecord) (lease : OwnerLease) (now : ℕ)
        → Step s (settle_dreams_cycle_fenced content_digest s cycle_id ds lease now).0

  -- A call is a step or a rollback, which alone takes rows away.
  pub data Call : Store → Store → Type 0 where
    step : {s t : Store} → Step s t → Call s t
    roll_back :
        (s : Store) (r : FencedRestore) (lease : OwnerLease) (now : ℕ)
        → Call s (restore_fenced s r lease now).0

-- The stores that calls of a kind lead to, in any order.
pub data Reach (R : Store → Store → Type 0) (s : Store) : Store → Type 0 where
  here : Reach R s s
  next : {t u : Store} → Reach R s t → R t u → Reach R s u

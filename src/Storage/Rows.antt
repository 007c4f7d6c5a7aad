-- ===== src/Storage/Rows.antt =====
-- The rows and the errors of crates/exocortex-storage/src/types.rs and trait_.rs, with the memory of
-- crates/exocortex-kernel/src/memory.rs. An embedding and a rights block are only carried, and stand
-- as bytes; a time stands as a number.
use exocortex.Common.{
  ℕ, String, Bool, true, false, ◌&&◌, ◌≡◌, ◌↔◌, Option, List, str_eq, eq_iff, arith, Bytes, HashKey,
}
use exocortex.Kernel.Visibility.{Visibility}
use exocortex.Kernel.Kinds.{RelKindId}
use exocortex.Kernel.Draft.{MemoryId, MemoryContext}
use exocortex.Kernel.Relationship.{RelationshipId}
use exocortex.Storage.Discovery.{DiscoveryRecord}

pub record Memory : Type 0 where
  pub id : MemoryId
  pub memory_type : ℕ
  pub title : String
  pub content : String
  pub summary : Option String
  pub tags : List String
  pub visibility : Visibility
  pub provenance : ℕ
  pub context : MemoryContext
  pub importance : ℕ
  pub confidence : ℕ
  pub effectiveness : Option ℕ
  pub usage_count : ℕ
  pub valid_from : ℕ
  pub valid_until : Option ℕ
  pub recorded_at : ℕ
  pub invalidated_by : Option MemoryId
  pub embedding : Option Bytes
  pub lsn : ℕ
  pub rights : Option Bytes

pub record CommitRecord : Type 0 where
  pub lsn : ℕ
  pub committed_at : ℕ
  pub node_id : Option ℕ
  pub edge_id : Option ℕ

-- The events that the store in memory sends.
pub data Invalidation : Type 0 where
  memory_upserted : MemoryId → ℕ → Invalidation
  memory_deleted : MemoryId → ℕ → Invalidation
  relationship_upserted : RelationshipId → MemoryId → MemoryId → RelKindId → ℕ → Invalidation
  relationship_deleted : RelationshipId → ℕ → Invalidation
  discovery_available : DiscoveryRecord → ℕ → Invalidation

pub data StorageError : Type 0 where
  backend : String → StorageError
  fenced_write_rejected : ℕ → StorageError
  proposal_not_found proposal_mismatch : StorageError

pub record IngestBatchKey : Type 0 where
  pub org_id : String
  pub producer_id : String
  pub batch_id : String

pub record SettledIngestBatch : Type 0 where
  pub accepted : ℕ
  pub rejected : ℕ
  pub assigned_lsn : ℕ

pub data IngestCommitOutcome : Type 0 where
  committed : List CommitRecord → SettledIngestBatch → IngestCommitOutcome
  duplicate : SettledIngestBatch → IngestCommitOutcome

abbrev pub same_batch : IngestBatchKey → IngestBatchKey → Bool
same_batch a b =
    str_eq a.org_id b.org_id && (str_eq a.producer_id b.producer_id && str_eq a.batch_id b.batch_id)

pub same_batch_iff : (a b : IngestBatchKey) → (same_batch a b ≡ true) ↔ (a ≡ b)
same_batch_iff a b = ground (
  arith,
  eq_iff a.org_id b.org_id,
  eq_iff a.producer_id b.producer_id,
  eq_iff a.batch_id b.batch_id,
)

instance abbrev pub batch_key : HashKey IngestBatchKey
batch_key = record { same = same_batch; same_iff = same_batch_iff }

pub data LeaseKey : Type 0 where
  dreams : String → String → LeaseKey
  backfill : String → LeaseKey
  cleanup : String → LeaseKey
  consolidation : String → String → LeaseKey

abbrev pub same_lease : LeaseKey → LeaseKey → Bool
same_lease (dreams o r) (dreams p s) = str_eq o p && str_eq r s
same_lease (backfill o) (backfill p) = str_eq o p
same_lease (cleanup o) (cleanup p) = str_eq o p
same_lease (consolidation o r) (consolidation p s) = str_eq o p && str_eq r s
same_lease _ _ = false

abbrev pub texts : LeaseKey → String × String
texts (dreams o r) = (o, r)
texts (backfill o) = (o, o)
texts (cleanup o) = (o, o)
texts (consolidation o r) = (o, r)

pub same_lease_iff : (a b : LeaseKey) → (same_lease a b ≡ true) ↔ (a ≡ b)
same_lease_iff a b = ground (arith, eq_iff (texts a).0 (texts b).0, eq_iff (texts a).1 (texts b).1)

instance abbrev pub lease_key : HashKey LeaseKey
lease_key = record { same = same_lease; same_iff = same_lease_iff }

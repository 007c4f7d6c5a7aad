-- ===== src/Storage/Store.antt =====
-- The whole store of crates/exocortex-storage/src/in_memory.rs: the graph, the lease table, the ingest
-- tables and the keys of the imports. An operation that holds the mutation gate, and the events that it
-- sends after it, are one step.
pub mod Discoveries
pub mod Settle
pub mod Rollback
pub mod Steps
pub mod Cases
pub mod Keeping
pub mod Growth
pub mod Epochs
pub mod Fencing
pub mod Effects
pub mod Settlement
pub mod Once
pub mod Ascending
use Prim.Native.String.{◌++◌ as str_append}
use exocortex.Common.{
  ℕ, String, Bool, true, false, not, ◌&&◌, Option, none, some, List, [], ◌∷◌, Result, ok, err,
  if◌then◌else◌, str_eq, any, Bytes, get_last?, ◌++◌, ◌==◌, HashKey, string_key, nat_key, lookup,
  insert, same_list,
}
use exocortex.Kernel.Draft.{MemoryId}
use exocortex.Kernel.Ontology.{Ontology}
use exocortex.Kernel.Relationship.{Relationship, RelationshipId}
use exocortex.Storage.Rows.{
  Memory, CommitRecord, Invalidation, memory_upserted, memory_deleted, relationship_upserted,
  relationship_deleted, discovery_available, StorageError, backend, IngestBatchKey, batch_key,
  SettledIngestBatch, IngestCommitOutcome, committed, duplicate,
}
use exocortex.Storage.InMemory.{Graph, publish, send, delete_memory_locked, upsert_batch_locked}
use exocortex.Storage.Owned.{LsnMap, own}
use exocortex.Storage.Board.{Board}
use exocortex.Storage.Journal.{Cycles}
use exocortex.Storage.Leases.{LeaseTable, OwnerLease, check_lease_current}
use exocortex.Storage.Ingest.{PostIngestEffect, InMemoryIngestEffect, IngestTable}

pub record Store : Type 0 where
  pub graph : Graph
  pub lease_table : LeaseTable
  pub ingest : IngestTable
  pub governed_imports : List String
  pub board : Board
  pub cycles : Cycles

abbrev pub same_effect : PostIngestEffect → PostIngestEffect → Bool
same_effect a b =
    str_eq a.effect_id b.effect_id
    && (same_list a.session_memory_ids b.session_memory_ids
        && same_list a.region_deltas b.region_deltas)

-- An effect of the same id with other content.
abbrev pub differs : PostIngestEffect → Option InMemoryIngestEffect → Bool
differs e none = false
differs e (some stored) = not (same_effect stored.effect e)

abbrev pub conflicts : IngestTable → Option PostIngestEffect → Bool
conflicts t none = false
conflicts t (some e) = differs e (lookup e.effect_id t.ingest_effects)

abbrev pub effect_conflict : Option PostIngestEffect → StorageError
effect_conflict none = backend ""
effect_conflict (some e) =
    backend (
      str_append "ingest effect " (str_append e.effect_id " already exists with different content"))

-- `records.last().map_or(0, |record| record.lsn)`
abbrev pub assigned : Option CommitRecord → ℕ
assigned none = 0
assigned (some r) = r.lsn

abbrev pub insert_effect : IngestTable → Option PostIngestEffect → IngestTable
insert_effect t none = t
insert_effect t (some e) = record t {
  ingest_effects =
      insert e.effect_id
        (record {
          effect = e;
          acknowledged = false;
          cleanup_complete = false;
          delivery_generation = none;
          retain_legacy_identity = false;
          claim = none;
        })
        t.ingest_effects;
}

-- The two tables after the batch is in the graph.
unfoldable pub settle_batch :
    Store → IngestBatchKey → SettledIngestBatch → Option PostIngestEffect → Store
settle_batch s key settled effect = record s {
  ingest =
      insert_effect
        (record s.ingest { settled_ingest = insert key settled s.ingest.settled_ingest }) effect;
}

abbrev pub commit_written :
    Store
    → IngestBatchKey
    → ℕ
    → Option PostIngestEffect
    → Graph × Result StorageError (List CommitRecord × List Invalidation)
    → Store × Result StorageError (IngestCommitOutcome × List Invalidation)
commit_written s key accepted effect (g, err e) = (record s { graph = g }, err e)
commit_written s key accepted effect (g, ok (records, invalidations)) =
    let settled : SettledIngestBatch = record {
      accepted = accepted;
      rejected = 0;
      assigned_lsn = assigned (get_last? records);
    } in
    (
      settle_batch (record s { graph = g }) key settled effect,
      ok (committed records settled, invalidations),
    )

abbrev pub commit_unless_settled :
    Store
    → Option SettledIngestBatch
    → Store × Result StorageError (IngestCommitOutcome × List Invalidation)
    → Store × Result StorageError (IngestCommitOutcome × List Invalidation)
commit_unless_settled s (some settled) fresh = (s, ok (duplicate settled, []))
commit_unless_settled s none fresh = fresh

abbrev pub publish_commit :
    Store × Result StorageError (IngestCommitOutcome × List Invalidation)
    → Store × Result StorageError IngestCommitOutcome
publish_commit (s, err e) = (s, err e)
publish_commit (s, ok (outcome, invalidations)) =
    (record s { graph = publish s.graph invalidations }, ok outcome)

abbrev pub import_written :
    Store
    → String
    → Graph × Result StorageError (List CommitRecord × List Invalidation)
    → Store × Result StorageError Bool
import_written s key (g, err e) = (record s { graph = g }, err e)
import_written s key (g, ok (records, invalidations)) = (
  record s { graph = publish g invalidations; governed_imports = key ∷ s.governed_imports },
  ok true,
)

-- What a fenced batch returns: the LSNs of each row that it wrote.
pub record FencedBatchCommit : Type 0 where
  pub records : List CommitRecord
  pub memory_lsns : LsnMap
  pub relationship_lsns : LsnMap

abbrev pub note_lsn : FencedBatchCommit → Invalidation → FencedBatchCommit
note_lsn c (memory_upserted id lsn) = record c { memory_lsns = own id (lsn ∷ []) c.memory_lsns }
note_lsn c (relationship_upserted id from to kind lsn) = record c {
  relationship_lsns = own id (lsn ∷ []) c.relationship_lsns;
}
note_lsn c (memory_deleted id lsn) = c
note_lsn c (relationship_deleted id lsn) = c
note_lsn c (discovery_available found lsn) = c

unfoldable pub note_lsns : FencedBatchCommit → List Invalidation → FencedBatchCommit
note_lsns c [] = c
note_lsns c (i ∷ is) = note_lsns (note_lsn c i) is

abbrev pub fenced_written :
    Store
    → Graph × Result StorageError (List CommitRecord × List Invalidation)
    → Store × Result StorageError FencedBatchCommit
fenced_written s (g, err e) = (record s { graph = g }, err e)
fenced_written s (g, ok (records, invalidations)) = (
  record s { graph = publish g invalidations },
  ok (
      note_lsns (record { records = records; memory_lsns = []; relationship_lsns = [] })
        invalidations),
)

-- What an operation does only with a current lease.
abbrev pub fenced :
    {A : Type 0}
    → Store
    → Result StorageError (Unit {0})
    → Store × Result StorageError A
    → Store × Result StorageError A
fenced s (err e) write = (s, err e)
fenced s (ok u) write = write

unfoldable pub delete_memory_fenced :
    Store → MemoryId → OwnerLease → ℕ → Store × Result StorageError CommitRecord
delete_memory_fenced s id lease now =
    let (g, rec) = delete_memory_locked s.graph id now in
    fenced s (check_lease_current s.lease_table lease now)
      (record s { graph = send g (memory_deleted id rec.lsn) }, ok rec)

module _ (digest : Bytes → ℕ) (ontology : Ontology) where
  unfoldable pub commit_ingest_locked :
      Store
      → IngestBatchKey
      → List Memory
      → List Relationship
      → ℕ
      → Option PostIngestEffect
      → ℕ
      → Store × Result StorageError (IngestCommitOutcome × List Invalidation)
  commit_ingest_locked s key ms rs accepted effect now =
      commit_unless_settled s (lookup key s.ingest.settled_ingest) (
        if conflicts s.ingest effect
        then (s, err (effect_conflict effect))
        else commit_written s key accepted effect
            (upsert_batch_locked digest ontology s.graph ms rs now))

  -- Without an effect `commit_ingest_batch`, with one `commit_ingest_batch_with_effect`.
  unfoldable pub commit_ingest_batch :
      Store
      → IngestBatchKey
      → List Memory
      → List Relationship
      → ℕ
      → Option PostIngestEffect
      → ℕ
      → Store × Result StorageError IngestCommitOutcome
  commit_ingest_batch s key ms rs accepted effect now =
      publish_commit (commit_ingest_locked s key ms rs accepted effect now)

  unfoldable pub upsert_batch_once :
      Store → String → List Memory → List Relationship → ℕ → Store × Result StorageError Bool
  upsert_batch_once s key ms rs now =
      if any (str_eq key) s.governed_imports
      then (s, ok false)
      else import_written s key (upsert_batch_locked digest ontology s.graph ms rs now)

  unfoldable pub upsert_batch_fenced :
      Store
      → List Memory
      → List Relationship
      → OwnerLease
      → ℕ
      → Store × Result StorageError FencedBatchCommit
  upsert_batch_fenced s ms rs lease now =
      fenced s (check_lease_current s.lease_table lease now)
        (fenced_written s (upsert_batch_locked digest ontology s.graph ms rs now))

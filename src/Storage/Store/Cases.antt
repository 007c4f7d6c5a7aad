-- ===== src/Storage/Store/Cases.antt =====
-- Where an operation of the whole store ends: a predicate on stores holds after it if it holds in each of
-- the stores that it can leave.
pub mod Audited
pub mod Cycles
use exocortex.Common.{
  ℕ, ◌≡◌, refl, Bool-cases, inl, inr, String, Option, none, some, List, ◌∷◌, Result, ok, err, Bytes,
  any, str_eq, lookup,
}
use exocortex.Kernel.Draft.{MemoryId}
use exocortex.Kernel.Ontology.{Ontology}
use exocortex.Kernel.Relationship.{Relationship}
use exocortex.Storage.Rows.{
  Memory, CommitRecord, Invalidation, StorageError, IngestBatchKey, batch_key, SettledIngestBatch,
  IngestCommitOutcome, memory_deleted,
}
use exocortex.Storage.InMemory.{Graph, upsert_batch_locked, publish, send, delete_memory_locked}
use exocortex.Storage.Leases.{OwnerLease, check_lease_current}
use exocortex.Storage.Ingest.{PostIngestEffect}
use exocortex.Storage.Store.{
  Store, conflicts, settle_batch, commit_written, commit_unless_settled, publish_commit,
  commit_ingest_locked, commit_ingest_batch, import_written, upsert_batch_once, fenced,
  fenced_written, upsert_batch_fenced, delete_memory_fenced,
}

module _ (P : Store → Type 0) where
  pub fenced_cases :
      {A : Type 0} (s : Store) (r : Result StorageError (Unit {0}))
      (w : Store × Result StorageError A)
      → P s
      → P w.0
      → P (fenced s r w).0
  fenced_cases s (ok u) w a b = b
  fenced_cases s (err e) w a b = a

  pub delete_memory_fenced_cases :
      (s : Store) (id : MemoryId) (lease : OwnerLease) (now : ℕ)
      → P s
      → (let dropped = delete_memory_locked s.graph id now in
          P (record s { graph = send dropped.0 (memory_deleted id dropped.1.lsn) }))
      → P (delete_memory_fenced s id lease now).0
  unfolding delete_memory_fenced
  delete_memory_fenced_cases s id lease now a b =
      fenced_cases s (check_lease_current s.lease_table lease now) _ a b

  fenced_written_cases :
      (s : Store) (g : Graph) (r : Result StorageError (List CommitRecord × List Invalidation))
      → P (record s { graph = g })
      → ((is : List Invalidation) → P (record s { graph = publish g is }))
      → P (fenced_written s (g, r)).0
  fenced_written_cases s g (err e) a b = a
  fenced_written_cases s g (ok (rs, is)) a b = b is

  import_written_cases :
      (s : Store) (key : String) (g : Graph)
      (r : Result StorageError (List CommitRecord × List Invalidation))
      → P (record s { graph = g })
      → ((is : List Invalidation)
          → P (record s { graph = publish g is; governed_imports = key ∷ s.governed_imports }))
      → P (import_written s key (g, r)).0
  import_written_cases s key g (err e) a b = a
  import_written_cases s key g (ok (rs, is)) a b = b is

module _ (digest : Bytes → ℕ) (ontology : Ontology) (P : Store → Type 0) (s : Store) where
  pub upsert_batch_fenced_cases :
      (ms : List Memory) (rs : List Relationship) (lease : OwnerLease) (now : ℕ)
      → P s
      → (let w = upsert_batch_locked digest ontology s.graph ms rs now in
          P (record s { graph = w.0 })
          × ((is : List Invalidation) → P (record s { graph = publish w.0 is })))
      → P (upsert_batch_fenced digest ontology s ms rs lease now).0
  unfolding upsert_batch_fenced
  upsert_batch_fenced_cases ms rs lease now a b =
      let w = upsert_batch_locked digest ontology s.graph ms rs now in
      fenced_cases P s (check_lease_current s.lease_table lease now) (fenced_written s w) a
        (fenced_written_cases P s w.0 w.1 b.0 b.1)

  pub upsert_batch_once_cases :
      (key : String) (ms : List Memory) (rs : List Relationship) (now : ℕ)
      → P s
      → (let w = upsert_batch_locked digest ontology s.graph ms rs now in
          P (record s { graph = w.0 })
          × ((is : List Invalidation)
              → P (record s {
                graph = publish w.0 is;
                governed_imports = key ∷ s.governed_imports;
              })))
      → P (upsert_batch_once digest ontology s key ms rs now).0
  unfolding upsert_batch_once
  upsert_batch_once_cases key ms rs now a b =
      let w = upsert_batch_locked digest ontology s.graph ms rs now in
      elim (Bool-cases (any (str_eq key) s.governed_imports)) [
        | inl old ↦ rw old a
        | inr new ↦ rw new (import_written_cases P s key w.0 w.1 b.0 b.1)
      ]

  publish_written_cases :
      (key : IngestBatchKey) (accepted : ℕ) (effect : Option PostIngestEffect) (g : Graph)
      (r : Result StorageError (List CommitRecord × List Invalidation))
      → P (record s { graph = g })
      → ((settled : SettledIngestBatch) (is : List Invalidation)
          → P (record (settle_batch s key settled effect) { graph = publish g is }))
      → P (publish_commit (commit_written s key accepted effect (g, r))).0
  unfolding settle_batch
  publish_written_cases key accepted effect g (err e) a b = a
  publish_written_cases key accepted effect g (ok (rs, is)) a b = b _ is

  publish_unless_settled_cases :
      (o : Option SettledIngestBatch)
      (w : Store × Result StorageError (IngestCommitOutcome × List Invalidation))
      → P s
      → (o ≡ none → P (publish_commit w).0)
      → P (publish_commit (commit_unless_settled s o w)).0
  unfolding publish
  publish_unless_settled_cases none w a b = b refl
  publish_unless_settled_cases (some x) w a b = a

  pub commit_ingest_batch_cases :
      (key : IngestBatchKey) (ms : List Memory) (rs : List Relationship) (accepted : ℕ)
      (effect : Option PostIngestEffect) (now : ℕ)
      → P s
      → (lookup key s.ingest.settled_ingest ≡ none
          → let w = upsert_batch_locked digest ontology s.graph ms rs now in
            P (record s { graph = w.0 })
            × ((settled : SettledIngestBatch) (is : List Invalidation)
                → P (record (settle_batch s key settled effect) { graph = publish w.0 is })))
      → P (commit_ingest_batch digest ontology s key ms rs accepted effect now).0
  unfolding commit_ingest_batch commit_ingest_locked
  commit_ingest_batch_cases key ms rs accepted effect now a b =
      let w = upsert_batch_locked digest ontology s.graph ms rs now in
      publish_unless_settled_cases (lookup key s.ingest.settled_ingest) _ a (λ fresh.
        elim (Bool-cases (conflicts s.ingest effect)) [
          | inl conflict ↦ rw conflict a
          | inr free ↦
              rw free (publish_written_cases key accepted effect w.0 w.1 (b fresh).0 (b fresh).1)
        ])

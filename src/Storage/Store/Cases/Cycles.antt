-- ===== src/Storage/Store/Cases/Cycles.antt =====
-- Where an operation on the owner cycles ends.
use exocortex.Common.{
  ℕ, ◌≡◌, refl, Bool-cases, inl, inr, String, Option, none, some, List, Result, ok, err, Bytes, any,
  str_eq, string_key, lookup, insert,
}
use exocortex.Kernel.Ontology.{Ontology}
use exocortex.Kernel.Relationship.{Relationship}
use exocortex.Storage.Rows.{Memory, CommitRecord, Invalidation, StorageError, lease_key}
use exocortex.Storage.Discovery.{DiscoveryRecord}
use exocortex.Storage.Journal.{FencedRestore, CycleJournalRecord, completed, cycle_key, is_foreign}
use exocortex.Storage.InMemory.{Graph, publish, upsert_batch_locked}
use exocortex.Storage.Leases.{OwnerLease, check_lease_current}
use exocortex.Storage.Store.{Store, FencedBatchCommit}
use exocortex.Storage.Store.Settle.{
  committed_lsns, record_journal, journal_written, complete_found, complete_cycle_journal_fenced,
  unsettleable, settle_cycle, settle_new, settle_unless, settle_digested,
  dreams_settlement_effect_digest, settle_dreams_cycle_fenced, upsert_batch_fenced_journaled,
}
use exocortex.Storage.Store.Cases.{fenced_cases}

module _ (P : Store → Type 0) (s : Store) where
  complete_found_cases :
      (cycle_id : String) (lease : OwnerLease) (o : Option CycleJournalRecord)
      → P s
      → ((j : CycleJournalRecord)
          → P (record s {
            cycles = record s.cycles {
              cycle_journals =
                  insert lease.key (record j { state = completed }) s.cycles.cycle_journals;
            };
          }))
      → P (complete_found s cycle_id lease o).0
  complete_found_cases cycle_id lease none a b = a
  complete_found_cases cycle_id lease (some j) a b =
      elim (Bool-cases (str_eq j.cycle_id cycle_id)) [
        | inl own ↦ rw own (b j)
        | inr other ↦ rw other a
      ]

  pub complete_cycle_journal_fenced_cases :
      (cycle_id : String) (lease : OwnerLease) (now : ℕ)
      → P s
      → ((j : CycleJournalRecord)
          → P (record s {
            cycles = record s.cycles {
              cycle_journals =
                  insert lease.key (record j { state = completed }) s.cycles.cycle_journals;
            };
          }))
      → P (complete_cycle_journal_fenced s cycle_id lease now).0
  unfolding complete_cycle_journal_fenced
  complete_cycle_journal_fenced_cases cycle_id lease now a b =
      fenced_cases P s (check_lease_current s.lease_table lease now) _ a
        (complete_found_cases cycle_id lease (lookup lease.key s.cycles.cycle_journals) a b)

  settle_new_cases :
      (cycle_id : String) (ds : List DiscoveryRecord) (lease : OwnerLease) (digest : String)
      → P s
      → P (settle_cycle s cycle_id ds lease digest)
      → P (settle_new s cycle_id ds lease digest).0
  settle_new_cases cycle_id ds lease digest a b =
      elim (Bool-cases (is_foreign cycle_id (lookup lease.key s.cycles.cycle_journals))) [
        | inl foreign ↦ rw foreign a
        | inr own ↦ rw own (elim (Bool-cases (any (unsettleable s) ds)) [
          | inl taken ↦ rw taken a
          | inr free ↦ rw free b
        ])
      ]

  settle_unless_cases :
      (cycle_id : String) (ds : List DiscoveryRecord) (lease : OwnerLease) (digest : String)
      (o : Option String)
      → P s
      → (o ≡ none → P (settle_cycle s cycle_id ds lease digest))
      → P (settle_unless s cycle_id ds lease digest o).0
  settle_unless_cases cycle_id ds lease digest none a b =
      settle_new_cases cycle_id ds lease digest a (b refl)
  settle_unless_cases cycle_id ds lease digest (some stored) a b = a

  settle_digested_cases :
      (cycle_id : String) (ds : List DiscoveryRecord) (lease : OwnerLease) (now : ℕ)
      (r : Result StorageError String)
      → P s
      → ((digest : String)
          → lookup (lease.key, cycle_id) s.cycles.succeeded_cycles ≡ none
          → P (settle_cycle s cycle_id ds lease digest))
      → P (settle_digested s cycle_id ds lease now r).0
  settle_digested_cases cycle_id ds lease now (err e) a b = a
  settle_digested_cases cycle_id ds lease now (ok digest) a b =
      fenced_cases P s (check_lease_current s.lease_table lease now) _ a (
        settle_unless_cases cycle_id ds lease digest
          (lookup (lease.key, cycle_id) s.cycles.succeeded_cycles) a (b digest))

  pub settle_dreams_cycle_fenced_cases :
      (content_digest : List DiscoveryRecord → Result StorageError String) (cycle_id : String)
      (ds : List DiscoveryRecord) (lease : OwnerLease) (now : ℕ)
      → P s
      → ((digest : String)
          → lookup (lease.key, cycle_id) s.cycles.succeeded_cycles ≡ none
          → P (settle_cycle s cycle_id ds lease digest))
      → P (settle_dreams_cycle_fenced content_digest s cycle_id ds lease now).0
  unfolding settle_dreams_cycle_fenced
  settle_dreams_cycle_fenced_cases content_digest cycle_id ds lease now a b =
      settle_digested_cases cycle_id ds lease now
        (dreams_settlement_effect_digest content_digest ds) a b

  journal_written_cases :
      (prepared : FencedRestore) (cycle_id : String) (lease : OwnerLease) (g : Graph)
      (r : Result StorageError (List CommitRecord × List Invalidation))
      → P (record s { graph = g })
      → ((is : List Invalidation) (commit : FencedBatchCommit)
          → P (record s {
            graph = publish g is;
            cycles = record_journal s prepared cycle_id lease commit;
          }))
      → P (journal_written s prepared cycle_id lease (g, r)).0
  journal_written_cases prepared cycle_id lease g (err e) a b = a
  journal_written_cases prepared cycle_id lease g (ok (records, is)) a b =
      b is (committed_lsns records is)

  pub upsert_batch_fenced_journaled_cases :
      (digest : Bytes → ℕ) (ontology : Ontology) (ms : List Memory) (rs : List Relationship)
      (prepared : FencedRestore) (cycle_id : String) (lease : OwnerLease) (now : ℕ)
      → P s
      → (let w = upsert_batch_locked digest ontology s.graph ms rs now in
          P (record s { graph = w.0 })
          × ((is : List Invalidation) (commit : FencedBatchCommit)
              → P (record s {
                graph = publish w.0 is;
                cycles = record_journal s prepared cycle_id lease commit;
              })))
      → P (upsert_batch_fenced_journaled digest ontology s ms rs prepared cycle_id lease now).0
  unfolding upsert_batch_fenced_journaled
  upsert_batch_fenced_journaled_cases digest ontology ms rs prepared cycle_id lease now a b =
      let w = upsert_batch_locked digest ontology s.graph ms rs now in
      fenced_cases P s (check_lease_current s.lease_table lease now) _ a
        (elim (Bool-cases (is_foreign cycle_id (lookup lease.key s.cycles.cycle_journals))) [
          | inl foreign ↦ rw foreign a
          | inr own ↦ rw own (journal_written_cases prepared cycle_id lease w.0 w.1 b.0 b.1)
        ])

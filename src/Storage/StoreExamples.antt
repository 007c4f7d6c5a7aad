-- ===== src/Storage/StoreExamples.antt =====
-- The theorems on the store in memory, on a store that is empty at the start.
use exocortex.Storage.Samples.{
  one_digest, tally, tally-distinct, no_kinds, note, blank, empty, lead, lease_at, held_first,
}
use exocortex.Common.{
  ◌+◌, ◌≡◌, ◌⊎◌, refl, none, List, [], ◌∷◌, Result, ok, err, from_be, length, map, lookup, insert,
  sort_by, insert_by, any,
}
use exocortex.Storage.Rows.{
  CommitRecord, Invalidation, StorageError, fenced_write_rejected, IngestBatchKey,
  SettledIngestBatch, committed, duplicate, cleanup,
}
use exocortex.Storage.InMemory.{
  Graph, commit_record, publish, upsert_memory, upsert_batch, stage_memory, stage_memories,
  stage_relationships, stage_batch, upsert_batch_locked,
}
use exocortex.Storage.InMemory.Lsns.{Consecutive, event_lsn, record_lsn, upsert_batch_locked-lsns}
use exocortex.Storage.InMemory.History.{Grows}
use exocortex.Storage.Leases.{acquire_lease}
use exocortex.Storage.Store.{
  Store, settle_batch, commit_ingest_locked, commit_ingest_batch, upsert_batch_fenced,
  delete_memory_fenced,
}
use exocortex.Storage.Journal.{no_restore}
use exocortex.Storage.Store.Discoveries.{store_discovery_fenced}
use exocortex.Storage.Store.Settle.{
  upsert_batch_fenced_journaled, complete_cycle_journal_fenced, cycle_succeeded_fenced,
  settle_dreams_cycle_fenced, dreams_settlement_effect_digest, repeats_id,
}
use exocortex.Storage.Store.Rollback.{restore_fenced}
use exocortex.Storage.Store.Steps.{put_memory, put_batch, step, here, next}
use exocortex.Storage.Store.Growth.{Reach-Grows}
use exocortex.Storage.Store.Fencing.{Reach-fenced}
use exocortex.Storage.Store.Settlement.{commit_ingest_batch-once}

abbrev written : Graph × Result StorageError (List CommitRecord × List Invalidation)
written = upsert_batch_locked from_be no_kinds blank (note 7 ∷ note 8 ∷ []) [] 50

upsert_batch_locked-lsns_example :
    ((e : StorageError) × (written.1 ≡ err e) × (written.0 ≡ blank))
    ⊎ ((records : List CommitRecord) × (events : List Invalidation) × (written.1
          ≡ ok (records, events))
        × Consecutive 0 records
        × (written.0.lsn ≡ 0 + length records)
        × (map event_lsn events ≡ map record_lsn records))
upsert_batch_locked-lsns_example =
    upsert_batch_locked-lsns from_be no_kinds blank written.0 (note 7 ∷ note 8 ∷ []) [] 50 written.1
      refl

abbrev one_note : Store
one_note = record empty { graph = (upsert_memory blank (note 7) 50).0 }

abbrev no_note : Store
no_note = record one_note {
  graph = (upsert_batch from_be no_kinds one_note.graph (note 7 ∷ []) [] 60).0;
}

Reach-Grows_example : Grows blank no_note.graph
Reach-Grows_example =
    Reach-Grows from_be no_kinds tally 10
      (next (next here (put_memory empty (note 7) 50)) (put_batch one_note (note 7 ∷ []) [] 60))

abbrev batch : IngestBatchKey
batch = record { org_id = "o"; producer_id = "p"; batch_id = "b" }

abbrev committed_once : Store
committed_once = (commit_ingest_batch from_be no_kinds empty batch (note 7 ∷ []) [] 1 none 50).0

abbrev later_store : Store
later_store = record committed_once { graph = (upsert_memory committed_once.graph (note 9) 55).0 }

abbrev settled_result : SettledIngestBatch
settled_result = record { accepted = 1; rejected = 0; assigned_lsn = 1 }

committed_note :
    commit_ingest_batch from_be no_kinds empty batch (note 7 ∷ []) [] 1 none 50
    ≡ (committed_once, ok (committed (commit_record 1 50 ∷ []) settled_result))
unfolding commit_ingest_batch commit_ingest_locked upsert_batch_locked stage_batch stage_memories
    stage_memory stage_relationships lookup any publish settle_batch
committed_note = refl

commit_ingest_batch-once_example :
    (commit_ingest_batch from_be no_kinds later_store batch (note 8 ∷ []) [] 4 none 60
      ≡ (later_store, ok (duplicate settled_result)))
    × (settled_result ≡ record { accepted = 1; rejected = 0; assigned_lsn = 1 })
commit_ingest_batch-once_example =
    commit_ingest_batch-once from_be no_kinds tally 10 empty committed_once later_store batch
      (note 7 ∷ []) [] 1 none 50 (commit_record 1 50 ∷ []) settled_result committed_note
      (next here (step (put_memory committed_once (note 9) 55))) (note 8 ∷ []) [] 4 none 60

abbrev held_second : Store
held_second = record held_first {
  lease_table = (acquire_lease tally 10 held_first.lease_table (cleanup "o") 5 200).0;
}

abbrev after_write : Store
after_write = record held_second { graph = (upsert_memory blank (note 7) 201).0 }

grant_first :
    acquire_lease tally 10 empty.lease_table (cleanup "o") 5 100
    ≡ (held_first.lease_table, ok (lease_at 1 100))
unfolding acquire_lease lookup
grant_first = refl

grant_second :
    acquire_lease tally 10 held_first.lease_table (cleanup "o") 5 200
    ≡ (held_second.lease_table, ok (lease_at 2 200))
unfolding acquire_lease lookup insert
grant_second = refl

Reach-fenced_example :
    (upsert_batch_fenced from_be no_kinds after_write (note 8 ∷ []) [] (lease_at 1 100) 202
      ≡ (after_write, err (fenced_write_rejected 1)))
    × (delete_memory_fenced after_write 7 (lease_at 1 100) 202
        ≡ (after_write, err (fenced_write_rejected 1)))
    × (upsert_batch_fenced_journaled from_be no_kinds after_write
          (note 8 ∷ [])
          []
          no_restore
          "c"
          (lease_at 1 100)
          202
        ≡ (after_write, err (fenced_write_rejected 1)))
    × (complete_cycle_journal_fenced after_write "c" (lease_at 1 100) 202
        ≡ (after_write, err (fenced_write_rejected 1)))
    × (restore_fenced after_write no_restore (lease_at 1 100) 202
        ≡ (after_write, err (fenced_write_rejected 1)))
    × (store_discovery_fenced after_write lead (lease_at 1 100) 202
        ≡ (after_write, err (fenced_write_rejected 1)))
    × (cycle_succeeded_fenced after_write "c" (lease_at 1 100) 202
        ≡ (after_write, err (fenced_write_rejected 1)))
    × (settle_dreams_cycle_fenced one_digest after_write "c" (lead ∷ []) (lease_at 1 100) 202
        ≡ (after_write, err (fenced_write_rejected 1)))
unfolding dreams_settlement_effect_digest sort_by insert_by repeats_id
Reach-fenced_example =
    Reach-fenced from_be no_kinds tally 10 tally-distinct empty held_first held_first held_second
      after_write (cleanup "o") (lease_at 1 100) (lease_at 2 200) (lease_at 1 100) 5 100 5 200
      grant_first here grant_second (next here (step (put_memory held_second (note 7) 201))) refl
      refl (note 8 ∷ []) [] 7 no_restore "c" lead one_digest (lead ∷ []) 202

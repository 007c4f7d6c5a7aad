-- ===== src/Dreams/CycleExamples.antt =====
-- The theorems on a consolidation cycle, on a cycle that writes a new version of a memory.
use exocortex.Common.{
  ℕ, ◌≡◌, refl, [], ◌∷◌, Result, ok, err, from_be, arith, nat_key, filter_whole, any, history,
  lookup, insert, insert_sorted,
}
use exocortex.Storage.Rows.{cleanup, lease_key}
use exocortex.Storage.Owned.{own, add_lsns, add_lsn}
use exocortex.Storage.InMemory.{
  commit_record, upsert_memory, stage_memory, stage_memories, stage_relationships, stage_batch,
  upsert_batch_locked,
}
use exocortex.Storage.InMemory.History.{IsAscending, IsAscending-Grows, upsert_memory-Grows}
use exocortex.Storage.Leases.{acquire_lease, check_lease_current}
use exocortex.Storage.Store.{Store, FencedBatchCommit, note_lsns}
use exocortex.Storage.Store.Settle.{upsert_batch_fenced_journaled}
use exocortex.Storage.Samples.{no_kinds, note, blank, lease_at, held_first}
use exocortex.Dreams.Journal.{CycleJournal, new_journal, record_memory, restore, record_commit}
use exocortex.Dreams.Recovery.{FinishError, recover_active_cycle, finish_cycle}
use exocortex.Dreams.Cycle.{Cycle, begun, noted_memory, wrote}
use exocortex.Dreams.Cycle.Tracking.{IsClean}
use exocortex.Dreams.Cycle.Undone.{Restored, recover_active_cycle-undoes, finish_cycle-undoes}

abbrev start : Store
start = record held_first { graph = (upsert_memory blank (note 7) 50).0 }

abbrev noted : CycleJournal
noted = record_memory (new_journal "c") (note 7)

abbrev rewritten : Store
rewritten =
    (upsert_batch_fenced_journaled from_be no_kinds start (note 7 ∷ []) [] (restore noted) "c"
      (lease_at 1 100) 102).0

abbrev commit : FencedBatchCommit
commit = record {
  records = commit_record 2 102 ∷ [];
  memory_lsns = (7, 2 ∷ []) ∷ [];
  relationship_lsns = [];
}

wrote_once :
    upsert_batch_fenced_journaled from_be no_kinds start
      (note 7 ∷ [])
      []
      (restore noted)
      "c"
      (lease_at 1 100)
      102
    ≡ (rewritten, ok commit)
unfolding upsert_batch_fenced_journaled upsert_batch_locked stage_batch stage_memories stage_memory
    stage_relationships check_lease_current acquire_lease lookup insert any note_lsns own add_lsns
    add_lsn insert_sorted upsert_memory
wrote_once = refl

ran : Cycle from_be no_kinds (lease_at 1 100) "c" start rewritten (record_commit noted commit)
ran = wrote (noted_memory begun (note 7)) (note 7 ∷ []) [] 102 commit wrote_once

start-IsAscending : IsAscending start.graph
unfolding history lookup
start-IsAscending =
    IsAscending-Grows blank start.graph (upsert_memory-Grows blank (note 7) 50)
      (record { memories = λ k. omega arith; rels = λ k. omega arith })

start-IsClean : IsClean (cleanup "o") start
unfolding lookup any acquire_lease
start-IsClean = record {
  memories = λ k. filter_whole _ (history k start.graph.memories) (λ m. refl);
  edges = λ k. filter_whole _ (history k start.graph.rels) (λ r. refl);
}

held_still : check_lease_current rewritten.lease_table (lease_at 1 100) 103 ≡ ok tt
unfolding upsert_batch_fenced_journaled upsert_batch_locked stage_batch stage_memories stage_memory
    stage_relationships check_lease_current acquire_lease lookup insert any upsert_memory
held_still = refl

held_later : check_lease_current rewritten.lease_table (lease_at 1 100) 104 ≡ ok tt
unfolding upsert_batch_fenced_journaled upsert_batch_locked stage_batch stage_memories stage_memory
    stage_relationships check_lease_current acquire_lease lookup insert any upsert_memory
held_later = refl

recover_active_cycle-undoes_example :
    (u : Store) × (recover_active_cycle rewritten (cleanup "o") (lease_at 1 100) 103 104
      ≡ (u, ok tt))
    × Restored start (cleanup "o") u
recover_active_cycle-undoes_example =
    recover_active_cycle-undoes from_be no_kinds (lease_at 1 100) (lease_at 1 100) "c" start
      rewritten (record_commit noted commit) 103 104 ran refl start-IsAscending start-IsClean
      held_still held_later

finish_cycle-undoes_example :
    ((k : ℕ)
      → let failed : Store × Result FinishError ℕ =
          finish_cycle rewritten (err "e") (record_commit noted commit) (lease_at 1 100) 103 104 in
        (history k failed.0.graph.memories ≡ history k start.graph.memories)
        × (history k failed.0.graph.rels ≡ history k start.graph.rels))
    × (finish_cycle {A = ℕ} rewritten (ok 5) (record_commit noted commit) (lease_at 1 100) 103 104
        ≡ (rewritten, ok 5))
finish_cycle-undoes_example =
    finish_cycle-undoes from_be no_kinds (lease_at 1 100) (lease_at 1 100) "c" start rewritten
      (record_commit noted commit) "e" 5 103 104 ran refl start-IsAscending start-IsClean held_still

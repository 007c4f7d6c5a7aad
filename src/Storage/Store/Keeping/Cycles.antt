-- ===== src/Storage/Store/Keeping/Cycles.antt =====
-- What the operations on owner cycles of in_memory.rs leave alone.
use exocortex.Common.{
  some-not_none, ℕ, ◌≡◌, refl, sym, ap, ◌∙◌, Bool-cases, inl, inr, String, none, List, [], ◌∷◌,
  Result, Bytes, string_key, lookup,
}
use exocortex.Kernel.Ontology.{Ontology}
use exocortex.Kernel.Relationship.{Relationship}
use exocortex.Storage.Rows.{Memory, StorageError, lease_key}
use exocortex.Storage.Discovery.{DiscoveryRecord}
use exocortex.Storage.Board.{is_there}
use exocortex.Storage.Journal.{FencedRestore, cycle_key}
use exocortex.Storage.Leases.{OwnerLease, check_lease_current}
use exocortex.Storage.Store.{Store}
use exocortex.Storage.Store.Discoveries.{announce}
use exocortex.Storage.Store.Settle.{
  announce_new, settle_cycle, complete_cycle_journal_fenced, settle_dreams_cycle_fenced,
  record_journal, upsert_batch_fenced_journaled,
}
use exocortex.Storage.Store.Rollback.{restore_fenced}
use exocortex.Storage.Store.Cases.{fenced_cases}
use exocortex.Storage.Store.Cases.Cycles.{
  complete_cycle_journal_fenced_cases, settle_dreams_cycle_fenced_cases,
  upsert_batch_fenced_journaled_cases,
}
use exocortex.Storage.Store.Keeping.{
  Keeps, Keeps-same, Keeps-refl, Keeps-trans, lookup-insert_other,
}
use exocortex.Storage.Store.Keeping.Discoveries.{announce-Keeps}

-- The loop of a settlement announces discoveries only.
announce_new-Keeps : (s : Store) (ds : List DiscoveryRecord) → Keeps s (announce_new s ds)
unfolding announce_new
announce_new-Keeps s [] = Keeps-refl s
announce_new-Keeps s (d ∷ ds) =
    elim (Bool-cases (is_there (lookup d.discovery_id s.board.discoveries))) [
      | inl known ↦ rw known (announce_new-Keeps s ds)
      | inr new ↦ rw new (
          Keeps-trans s (announce s d) (announce_new (announce s d) ds) (announce-Keeps s d)
            (announce_new-Keeps (announce s d) ds))
    ]

settle_cycle-Keeps :
    (s : Store) (cycle_id : String) (ds : List DiscoveryRecord) (lease : OwnerLease)
    (digest : String)
    → lookup (lease.key, cycle_id) s.cycles.succeeded_cycles ≡ none
    → Keeps s (settle_cycle s cycle_id ds lease digest)
unfolding settle_cycle
settle_cycle-Keeps s cycle_id ds lease digest free =
    let k = announce_new-Keeps s ds in
    record {
      lease_table = k.lease_table;
      ingest = k.ingest;
      remembers = record {
        consumed = k.remembers.consumed;
        succeeded = λ key d h.
            lookup-insert_other key (lease.key, cycle_id) d digest s.cycles.succeeded_cycles
              (λ e.
                some-not_none (sym h ∙ ap (λ i. lookup i s.cycles.succeeded_cycles) (sym e) ∙ free))
              h;
      };
    }

pub complete_cycle_journal_fenced-Keeps :
    (s : Store) (cycle_id : String) (lease : OwnerLease) (now : ℕ)
    → Keeps s (complete_cycle_journal_fenced s cycle_id lease now).0
complete_cycle_journal_fenced-Keeps s cycle_id lease now =
    complete_cycle_journal_fenced_cases (Keeps s) s cycle_id lease now (Keeps-refl s)
      (λ j. Keeps-same s _ refl refl refl refl)

pub settle_dreams_cycle_fenced-Keeps :
    (content_digest : List DiscoveryRecord → Result StorageError String) (s : Store)
    (cycle_id : String) (ds : List DiscoveryRecord) (lease : OwnerLease) (now : ℕ)
    → Keeps s (settle_dreams_cycle_fenced content_digest s cycle_id ds lease now).0
settle_dreams_cycle_fenced-Keeps content_digest s cycle_id ds lease now =
    settle_dreams_cycle_fenced_cases (Keeps s) s content_digest cycle_id ds lease now (Keeps-refl s)
      (settle_cycle-Keeps s cycle_id ds lease)

pub restore_fenced-Keeps :
    (s : Store) (r : FencedRestore) (lease : OwnerLease) (now : ℕ)
    → Keeps s (restore_fenced s r lease now).0
unfolding restore_fenced
restore_fenced-Keeps s r lease now =
    fenced_cases (Keeps s) s (check_lease_current s.lease_table lease now) _ (Keeps-refl s)
      (Keeps-same s _ refl refl refl refl)

module _ (digest : Bytes → ℕ) (ontology : Ontology) where
  pub upsert_batch_fenced_journaled-Keeps :
      (s : Store) (ms : List Memory) (rs : List Relationship) (prepared : FencedRestore)
      (cycle_id : String) (lease : OwnerLease) (now : ℕ)
      → Keeps s
          (upsert_batch_fenced_journaled digest ontology s ms rs prepared cycle_id lease now).0
  unfolding record_journal
  upsert_batch_fenced_journaled-Keeps s ms rs prepared cycle_id lease now =
      upsert_batch_fenced_journaled_cases (Keeps s) s digest ontology ms rs prepared cycle_id lease
        now (Keeps-refl s)
        (Keeps-same s _ refl refl refl refl, λ is commit. Keeps-same s _ refl refl refl refl)

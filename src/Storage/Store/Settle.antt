-- ===== src/Storage/Store/Settle.antt =====
-- The owner cycles of crates/exocortex-storage/src/in_memory.rs: the journal of a cycle's writes, its
-- settlement, and the rollback from the journal. The encoding of the discoveries that a cycle settles
-- and its digest, `serde_json` and exocortex-wire's `content_digest_hex`, are a parameter.
use Prim.Native.String.{◌++◌ as str_append, compare}
use Prim.Native.Nat.{Ordering}
use exocortex.Common.{
  ℕ, String, Bool, true, false, not, ◌||◌, Option, none, some, List, [], ◌∷◌, Result, ok, err,
  if◌then◌else◌, str_eq, any, sort_by, Bytes, string_key, nat_key, lookup, insert,
}
use exocortex.Kernel.Ontology.{Ontology}
use exocortex.Kernel.Relationship.{Relationship}
use exocortex.Storage.Rows.{
  Memory, CommitRecord, Invalidation, StorageError, backend, proposal_mismatch, LeaseKey, lease_key,
}
use exocortex.Storage.Discovery.{DiscoveryRecord, same_discovery}
use exocortex.Storage.Owned.{extend_owned}
use exocortex.Storage.Board.{is_there}
use exocortex.Storage.Journal.{
  FencedRestore, no_restore, merge, active, completed, CycleJournalRecord, cycle_key, Cycles,
  is_foreign,
}
use exocortex.Storage.InMemory.{Graph, publish, upsert_batch_locked}
use exocortex.Storage.Leases.{OwnerLease, check_lease_current}
use exocortex.Storage.Store.{Store, FencedBatchCommit, note_lsns, fenced}
use exocortex.Storage.Store.Discoveries.{announce}

-- `entry(key).or_insert_with(..)` and what is set after it.
abbrev pub restore_of : Option CycleJournalRecord → FencedRestore
restore_of none = no_restore
restore_of (some j) = j.restore

abbrev pub journal_restore : FencedRestore → FencedRestore → FencedBatchCommit → FencedRestore
journal_restore old prepared commit =
    let merged = merge old prepared in
    record merged {
      owned_memory_lsns = extend_owned merged.owned_memory_lsns commit.memory_lsns;
      owned_relationship_lsns =
          extend_owned merged.owned_relationship_lsns commit.relationship_lsns;
    }

unfoldable pub record_journal :
    Store → FencedRestore → String → OwnerLease → FencedBatchCommit → Cycles
record_journal s prepared cycle_id lease commit =
    let c = s.cycles in
    record c {
      cycle_journals =
          insert lease.key
            (record {
              cycle_id = cycle_id;
              journal_key = lease.key;
              lease_epoch = lease.epoch;
              restore =
                  journal_restore (restore_of (lookup lease.key c.cycle_journals)) prepared commit;
              state = active;
            })
            c.cycle_journals;
    }

abbrev pub committed_lsns : List CommitRecord → List Invalidation → FencedBatchCommit
committed_lsns records is =
    note_lsns (record { records = records; memory_lsns = []; relationship_lsns = [] }) is

abbrev pub journal_written :
    Store
    → FencedRestore
    → String
    → OwnerLease
    → Graph × Result StorageError (List CommitRecord × List Invalidation)
    → Store × Result StorageError FencedBatchCommit
journal_written s prepared cycle_id lease (g, err e) = (record s { graph = g }, err e)
journal_written s prepared cycle_id lease (g, ok (records, invalidations)) =
    let commit = committed_lsns records invalidations in
    (
      record s {
        graph = publish g invalidations;
        cycles = record_journal s prepared cycle_id lease commit;
      },
      ok commit,
    )

abbrev pub cycle_of : Option CycleJournalRecord → String
cycle_of none = ""
cycle_of (some j) = j.cycle_id

abbrev pub needs_recovery : Option CycleJournalRecord → String → StorageError
needs_recovery o cycle_id = backend (
    str_append "active cycle "
      (str_append (cycle_of o) (str_append " requires recovery before " cycle_id)))

-- A journal is completed under its own cycle's name.
abbrev pub complete_found :
    Store → String → OwnerLease → Option CycleJournalRecord → Store × Result StorageError (Unit {0})
complete_found s cycle_id lease none = (s, err (backend "cycle journal not found"))
complete_found s cycle_id lease (some j) =
    let done : CycleJournalRecord = record j { state = completed } in
    if str_eq j.cycle_id cycle_id
    then (
      record s {
        cycles = record s.cycles { cycle_journals = insert lease.key done s.cycles.cycle_journals };
      },
      ok tt,
    )
    else (s, err (backend "cycle journal identity mismatch"))

unfoldable pub complete_cycle_journal_fenced :
    Store → String → OwnerLease → ℕ → Store × Result StorageError (Unit {0})
complete_cycle_journal_fenced s cycle_id lease now =
    fenced s (check_lease_current s.lease_table lease now)
      (complete_found s cycle_id lease (lookup lease.key s.cycles.cycle_journals))

unfoldable pub cycle_succeeded : Store → LeaseKey → String → Bool
cycle_succeeded s key cycle_id = is_there (lookup (key, cycle_id) s.cycles.succeeded_cycles)

unfoldable pub cycle_succeeded_fenced :
    Store → String → OwnerLease → ℕ → Store × Result StorageError Bool
cycle_succeeded_fenced s cycle_id lease now =
    fenced s (check_lease_current s.lease_table lease now)
      (s, ok (cycle_succeeded s lease.key cycle_id))

-- `dreams_settlement_effect_digest`: the records in the order of their ids.
abbrev pub id_after : DiscoveryRecord → DiscoveryRecord → Bool
id_after a b = elim (compare a.discovery_id b.discovery_id) [ Ordering.gt ↦ true | _ ↦ false ]

unfoldable pub repeats_id : List DiscoveryRecord → Bool
repeats_id [] = false
repeats_id (a ∷ []) = false
repeats_id (a ∷ b ∷ ds) = str_eq a.discovery_id b.discovery_id || repeats_id (b ∷ ds)

-- What keeps a cycle from settling a discovery.
abbrev pub differs_from : DiscoveryRecord → Option DiscoveryRecord → Bool
differs_from d none = false
differs_from d (some stored) = not (same_discovery stored d)

abbrev pub unsettleable : Store → DiscoveryRecord → Bool
unsettleable s d =
    is_there (lookup d.discovery_id s.board.proposals)
    || differs_from d (lookup d.discovery_id s.board.discoveries)

-- The loop that announces what is new.
unfoldable pub announce_new : Store → List DiscoveryRecord → Store
announce_new s [] = s
announce_new s (d ∷ ds) =
    announce_new (if is_there (lookup d.discovery_id s.board.discoveries) then s else announce s d)
      ds

unfoldable pub settle_cycle : Store → String → List DiscoveryRecord → OwnerLease → String → Store
settle_cycle s cycle_id ds lease digest =
    let announced = announce_new s ds in
    record announced {
      cycles = record {
        cycle_journals =
            insert lease.key
              (record {
                cycle_id = cycle_id;
                journal_key = lease.key;
                lease_epoch = lease.epoch;
                restore = no_restore;
                state = completed;
              })
              s.cycles.cycle_journals;
        succeeded_cycles = insert (lease.key, cycle_id) digest s.cycles.succeeded_cycles;
      };
    }

abbrev pub settle_new :
    Store
    → String
    → List DiscoveryRecord
    → OwnerLease
    → String
    → Store × Result StorageError (Unit {0})
settle_new s cycle_id ds lease digest =
    if is_foreign cycle_id (lookup lease.key s.cycles.cycle_journals)
    then (s, err (backend "another active Dreams cycle requires recovery"))
    else if any (unsettleable s) ds
    then (s, err proposal_mismatch)
    else (settle_cycle s cycle_id ds lease digest, ok tt)

abbrev pub settle_unless :
    Store
    → String
    → List DiscoveryRecord
    → OwnerLease
    → String
    → Option String
    → Store × Result StorageError (Unit {0})
settle_unless s cycle_id ds lease digest none = settle_new s cycle_id ds lease digest
settle_unless s cycle_id ds lease digest (some stored) =
    (s, if str_eq stored digest then ok tt else err proposal_mismatch)

abbrev pub settle_digested :
    Store
    → String
    → List DiscoveryRecord
    → OwnerLease
    → ℕ
    → Result StorageError String
    → Store × Result StorageError (Unit {0})
settle_digested s cycle_id ds lease now (err e) = (s, err e)
settle_digested s cycle_id ds lease now (ok digest) =
    fenced s (check_lease_current s.lease_table lease now) (
      settle_unless s cycle_id ds lease digest
        (lookup (lease.key, cycle_id) s.cycles.succeeded_cycles))

module _ (content_digest : List DiscoveryRecord → Result StorageError String) where
  unfoldable pub dreams_settlement_effect_digest : List DiscoveryRecord → Result StorageError String
  dreams_settlement_effect_digest ds =
      let ordered = sort_by id_after ds in
      if repeats_id ordered then err proposal_mismatch else content_digest ordered

  unfoldable pub settle_dreams_cycle_fenced :
      Store
      → String
      → List DiscoveryRecord
      → OwnerLease
      → ℕ
      → Store × Result StorageError (Unit {0})
  settle_dreams_cycle_fenced s cycle_id ds lease now =
      settle_digested s cycle_id ds lease now (dreams_settlement_effect_digest ds)

module _ (digest : Bytes → ℕ) (ontology : Ontology) where
  unfoldable pub upsert_batch_fenced_journaled :
      Store
      → List Memory
      → List Relationship
      → FencedRestore
      → String
      → OwnerLease
      → ℕ
      → Store × Result StorageError FencedBatchCommit
  upsert_batch_fenced_journaled s ms rs prepared cycle_id lease now =
      let found = lookup lease.key s.cycles.cycle_journals in
      fenced s (check_lease_current s.lease_table lease now) (
        if is_foreign cycle_id found
        then (s, err (needs_recovery found cycle_id))
        else journal_written s prepared cycle_id lease
            (upsert_batch_locked digest ontology s.graph ms rs now))

-- ===== src/Storage/Store/Keeping.antt =====
-- What the operations on discoveries, audits and cycles of in_memory.rs leave alone.
pub mod Discoveries
pub mod Cycles
pub mod Reached
use exocortex.Common.{
  some-not_none, some_injective, ℕ, ◌+◌, ◌==◌, ◌≡◌, ◌≢◌, not, ◌||◌, refl, sym, ap, ◌∙◌, Bool-cases,
  Option-cases, inl, inr, String, Bool, true, false, Option, none, some, List, [], ◌∷◌, Result, ok,
  err, arith, Bytes, str_eq, eq_iff, any, HashKey, string_key, lookup, insert, lookup-insert_here,
  lookup-insert_there,
}
use exocortex.Kernel.Ontology.{Ontology}
use exocortex.Kernel.Relationship.{Relationship, RelationshipId}
use exocortex.Storage.Rows.{Memory, StorageError, lease_key}
use exocortex.Storage.Discovery.{
  DiscoveryRecord, DiscoveryProposal, DiscoveryAcceptance, AuditEvent, same_region, same_proposal,
}
use exocortex.Storage.Board.{
  StoredProposal, Board, is_there, create_discovery_proposal, propose_stored, propose_found,
  out_of_scope,
}
use exocortex.Storage.Journal.{FencedRestore, CycleKey, cycle_key, same_cycle, same_cycle_iff}
use exocortex.Storage.Leases.{OwnerLease, check_lease_current}
use exocortex.Storage.Store.{Store, settle_batch}
use exocortex.Storage.Store.Discoveries.{
  append_audit, delete_relationship_audited, promote_memory_visibility_audited, announce,
  store_discovery, store_discovery_fenced, upsert_batch_audited, accept, accept_discovery,
}
use exocortex.Storage.Store.Settle.{
  announce_new, settle_cycle, complete_cycle_journal_fenced, settle_dreams_cycle_fenced,
  record_journal, upsert_batch_fenced_journaled,
}
use exocortex.Storage.Store.Rollback.{restore_fenced}
use exocortex.Storage.Store.Cases.{fenced_cases}
use exocortex.Storage.Store.Cases.Audited.{
  delete_relationship_audited_cases, promote_memory_visibility_audited_cases, store_discovery_cases,
  store_discovery_fenced_cases, upsert_batch_audited_cases, accept_discovery_cases,
}
use exocortex.Storage.Store.Cases.Cycles.{
  complete_cycle_journal_fenced_cases, settle_dreams_cycle_fenced_cases,
  upsert_batch_fenced_journaled_cases,
}

abbrev pub IsConsumed : String → DiscoveryProposal → Store → Type 0
IsConsumed id p s = lookup id s.board.proposals ≡ some (record { proposal = p; consumed = true })

abbrev pub IsSucceeded : CycleKey → String → Store → Type 0
IsSucceeded key digest s = lookup key s.cycles.succeeded_cycles ≡ some digest

-- A proposal that was accepted and a cycle that was settled stay so.
pub record Remembers (s t : Store) : Type 0 where
  pub consumed : (id : String) (p : DiscoveryProposal) → IsConsumed id p s → IsConsumed id p t
  pub succeeded :
      (key : CycleKey) (digest : String) → IsSucceeded key digest s → IsSucceeded key digest t

pub record Keeps (s t : Store) : Type 0 where
  pub lease_table : t.lease_table ≡ s.lease_table
  pub ingest : t.ingest ≡ s.ingest
  pub remembers : Remembers s t

pub Remembers-same :
    (s t : Store)
    → t.board.proposals ≡ s.board.proposals
    → t.cycles.succeeded_cycles ≡ s.cycles.succeeded_cycles
    → Remembers s t
Remembers-same s t p c = record {
  consumed = λ id q h. ap (lookup id) p ∙ h;
  succeeded = λ key d h. ap (lookup key) c ∙ h;
}

pub Keeps-same :
    (s t : Store)
    → t.lease_table ≡ s.lease_table
    → t.ingest ≡ s.ingest
    → t.board.proposals ≡ s.board.proposals
    → t.cycles.succeeded_cycles ≡ s.cycles.succeeded_cycles
    → Keeps s t
Keeps-same s t l i p c = record { lease_table = l; ingest = i; remembers = Remembers-same s t p c }

pub Keeps-refl : (s : Store) → Keeps s s
Keeps-refl s = Keeps-same s s refl refl refl refl

pub Keeps-trans : (s t u : Store) → Keeps s t → Keeps t u → Keeps s u
Keeps-trans s t u a b = record {
  lease_table = b.lease_table ∙ a.lease_table;
  ingest = b.ingest ∙ a.ingest;
  remembers = record {
    consumed = λ id p h. b.remembers.consumed id p (a.remembers.consumed id p h);
    succeeded = λ key d h. b.remembers.succeeded key d (a.remembers.succeeded key d h);
  };
}

-- Another key's entry is written.
pub lookup-insert_other {ℓ κ} :
    {K : Type ℓ} {V : Type κ}
    → ⦃key : HashKey K⦄ → (j k : K) (v w : V) (m : List (K × V)) → (k ≢ j)
    → lookup j m ≡ some v
    → lookup j (insert k w m) ≡ some v
lookup-insert_other ⦃key⦄ j k v w m other h = elim (Bool-cases (key.same k j)) [
  | inl same ↦ absurd (other ((key.same_iff k j).0 same))
  | inr differs ↦ lookup-insert_there j k w m differs ∙ h
]

-- ===== src/Storage/Store/Keeping/Discoveries.antt =====
-- What the audited writes and the operations on discoveries of in_memory.rs leave alone.
use exocortex.Common.{
  some-not_none, some_injective, ℕ, ◌==◌, ◌≡◌, not, ◌||◌, refl, sym, ap, ◌∙◌, Bool-cases, inl, inr,
  true, false, Option, none, some, List, Bytes, string_key, lookup,
}
use exocortex.Kernel.Ontology.{Ontology}
use exocortex.Kernel.Relationship.{Relationship, RelationshipId}
use exocortex.Storage.Rows.{Memory, lease_key}
use exocortex.Storage.Discovery.{
  DiscoveryRecord, DiscoveryProposal, DiscoveryAcceptance, AuditEvent, same_region, same_proposal,
}
use exocortex.Storage.Board.{
  StoredProposal, create_discovery_proposal, propose_stored, propose_found, out_of_scope,
}
use exocortex.Storage.Journal.{cycle_key}
use exocortex.Storage.Leases.{OwnerLease}
use exocortex.Storage.Store.{Store}
use exocortex.Storage.Store.Discoveries.{
  append_audit, delete_relationship_audited, promote_memory_visibility_audited, announce,
  store_discovery, store_discovery_fenced, upsert_batch_audited, accept, accept_discovery,
}
use exocortex.Storage.Store.Cases.Audited.{
  delete_relationship_audited_cases, promote_memory_visibility_audited_cases, store_discovery_cases,
  store_discovery_fenced_cases, upsert_batch_audited_cases, accept_discovery_cases,
}
use exocortex.Storage.Store.Keeping.{
  Remembers, Remembers-same, Keeps, Keeps-same, Keeps-refl, lookup-insert_other,
}

pub append_audit-Keeps :
    (s : Store) (audit : AuditEvent) (now : ℕ) → Keeps s (append_audit s audit now).0
unfolding append_audit
append_audit-Keeps s audit now = Keeps-same s _ refl refl refl refl

pub delete_relationship_audited-Keeps :
    (s : Store) (id : RelationshipId) (audit : AuditEvent) (now : ℕ)
    → Keeps s (delete_relationship_audited s id audit now).0
delete_relationship_audited-Keeps s id audit now =
    delete_relationship_audited_cases (Keeps s) s id audit now
      (Keeps-same s _ refl refl refl refl, λ last. Keeps-same s _ refl refl refl refl)

pub promote_memory_visibility_audited-Keeps :
    (s : Store) (m : Memory) (audit : AuditEvent) (now : ℕ)
    → Keeps s (promote_memory_visibility_audited s m audit now).0
promote_memory_visibility_audited-Keeps s m audit now =
    promote_memory_visibility_audited_cases (Keeps s) s m audit now (Keeps-refl s)
      (Keeps-same s _ refl refl refl refl)

pub announce-Keeps : (s : Store) (d : DiscoveryRecord) → Keeps s (announce s d)
announce-Keeps s d = Keeps-same s (announce s d) refl refl refl refl

pub store_discovery-Keeps : (s : Store) (d : DiscoveryRecord) → Keeps s (store_discovery s d).0
store_discovery-Keeps s d = store_discovery_cases (Keeps s) s d (Keeps-refl s) (announce-Keeps s d)

pub store_discovery_fenced-Keeps :
    (s : Store) (d : DiscoveryRecord) (lease : OwnerLease) (now : ℕ)
    → Keeps s (store_discovery_fenced s d lease now).0
store_discovery_fenced-Keeps s d lease now =
    store_discovery_fenced_cases (Keeps s) s d lease now (Keeps-refl s) (announce-Keeps s d)

-- Only an id without a proposal is proposed.
propose_found-Remembers :
    (s : Store) (q : DiscoveryProposal) (o : Option DiscoveryRecord)
    → lookup q.discovery_id s.board.proposals ≡ none
    → Remembers s (record s { board = (propose_found s.board q o).0 })
propose_found-Remembers s q none free = Remembers-same s _ refl refl
propose_found-Remembers s q (some found) free =
    elim (Bool-cases (
      not (same_region found.region q.region)
      || (not (found.from == q.from) || not (found.to == q.to)))) [
        | inl wrong ↦ rw wrong (Remembers-same s _ refl refl)
        | inr right ↦ rw right (record {
          consumed = λ id p h.
              lookup-insert_other id q.discovery_id _ _ s.board.proposals
                (λ e. some-not_none (sym h ∙ ap (λ i. lookup i s.board.proposals) (sym e) ∙ free))
                h;
          succeeded = λ key d h. h;
        })
      ]

propose_stored-Remembers :
    (s : Store) (q : DiscoveryProposal) (o : Option StoredProposal)
    → lookup q.discovery_id s.board.proposals ≡ o
    → Remembers s (record s { board = (propose_stored s.board q o).0 })
propose_stored-Remembers s q none e =
    propose_found-Remembers s q (lookup q.discovery_id s.board.discoveries) e
propose_stored-Remembers s q (some stored) e = elim (Bool-cases (same_proposal stored.proposal q)) [
  | inl same ↦ rw same (Remembers-same s _ refl refl)
  | inr other ↦ rw other (Remembers-same s _ refl refl)
]

pub create_discovery_proposal-Keeps :
    (s : Store) (q : DiscoveryProposal)
    → Keeps s (record s { board = (create_discovery_proposal s.board q).0 })
unfolding create_discovery_proposal
create_discovery_proposal-Keeps s q = record {
  lease_table = refl;
  ingest = refl;
  remembers = elim (Bool-cases (out_of_scope q)) [
    | inl out ↦ rw out (Remembers-same s _ refl refl)
    | inr in_scope ↦
        rw in_scope (propose_stored-Remembers s q (lookup q.discovery_id s.board.proposals) refl)
  ];
}

true-not_false : ¬ (true ≡ false)
true-not_false h = cc

module _ (digest : Bytes → ℕ) (ontology : Ontology) where
  pub upsert_batch_audited-Keeps :
      (s : Store) (ms : List Memory) (rs : List Relationship) (audit : AuditEvent) (now : ℕ)
      → Keeps s (upsert_batch_audited digest ontology s ms rs audit now).0
  upsert_batch_audited-Keeps s ms rs audit now =
      upsert_batch_audited_cases digest ontology (Keeps s) s ms rs audit now
        (Keeps-same s _ refl refl refl refl, λ is lsn. Keeps-same s _ refl refl refl refl)

  accept-Keeps :
      (s : Store) (a : DiscoveryAcceptance) (stored : StoredProposal)
      → lookup a.discovery_id s.board.proposals ≡ some stored
      → stored.consumed ≡ false
      → Keeps s (accept digest ontology s a stored)
  unfolding accept
  accept-Keeps s a stored found free = record {
    lease_table = refl;
    ingest = refl;
    remembers = record {
      consumed = λ id p h.
          lookup-insert_other id a.discovery_id _ _ s.board.proposals
            (λ e. true-not_false (
              ap (λ (row : StoredProposal). row.consumed)
                (some_injective (sym h ∙ ap (λ i. lookup i s.board.proposals) (sym e) ∙ found))
              ∙ free))
            h;
      succeeded = λ key d h. h;
    };
  }

  pub accept_discovery-Keeps :
      (s : Store) (a : DiscoveryAcceptance) (now : ℕ)
      → Keeps s (accept_discovery digest ontology s a now).0
  accept_discovery-Keeps s a now =
      accept_discovery_cases digest ontology (Keeps s) s a now (Keeps-refl s) (accept-Keeps s a)

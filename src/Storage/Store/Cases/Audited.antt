-- ===== src/Storage/Store/Cases/Audited.antt =====
-- Where an audited write or an operation on discoveries ends.
use exocortex.Common.{
  ℕ, ◌+◌, ◌≡◌, refl, false, Bool-cases, inl, inr, Option, none, some, List, Result, ok, err, Bytes,
  ltb, string_key, nat_key, lookup, push, get_last?,
}
use exocortex.Kernel.Ontology.{Ontology}
use exocortex.Kernel.Visibility.{discriminant}
use exocortex.Kernel.Relationship.{Relationship, RelationshipId}
use exocortex.Storage.Rows.{
  Memory, CommitRecord, Invalidation, memory_upserted, relationship_deleted, StorageError,
}
use exocortex.Storage.Discovery.{DiscoveryRecord, DiscoveryAcceptance, AuditEvent}
use exocortex.Storage.Board.{StoredProposal, is_there}
use exocortex.Storage.InMemory.{
  Graph, send, publish, last_version, last_edge, is_open, close_edge, upsert_batch_locked,
}
use exocortex.Storage.Leases.{OwnerLease, check_lease_current}
use exocortex.Storage.Store.{Store, assigned}
use exocortex.Storage.Store.Discoveries.{
  push_audit, close_audited, delete_relationship_audited, promote_found,
  promote_memory_visibility_audited, announce, announce_unless, store_discovery,
  store_discovery_fenced, deviates, upsert_audited, upsert_batch_audited, accept, accept_found,
  accept_discovery,
}
use exocortex.Storage.Store.Cases.{fenced_cases}

module _ (P : Store → Type 0) (s : Store) where
  close_audited_cases :
      (id : RelationshipId) (audit : AuditEvent) (now : ℕ) (o : Option Relationship)
      → P s
      → ((last : Relationship)
          → P (record s {
            graph =
                send
                  (record s.graph { rels = push id (close_edge last s.graph.lsn now) s.graph.rels })
                  (relationship_deleted id s.graph.lsn);
            board = push_audit s.board audit s.graph.lsn;
          }))
      → P (close_audited s id audit now o).0
  close_audited_cases id audit now none a b = a
  close_audited_cases id audit now (some last) a b = elim (Bool-cases (is_open last.valid_until)) [
    | inl current ↦ rw current (b last)
    | inr closed ↦ rw closed a
  ]

  promote_found_cases :
      (m : Memory) (audit : AuditEvent) (now : ℕ) (o : Option Memory)
      → P s
      → (let lsn = s.graph.lsn + 1 in
          P (record s {
            graph =
                send
                  (record s.graph {
                    lsn = lsn;
                    memories = push m.id (record m { lsn = lsn }) s.graph.memories;
                  })
                  (memory_upserted m.id lsn);
            board = push_audit s.board audit lsn;
          }))
      → P (promote_found s m audit now o).0
  promote_found_cases m audit now none a b = a
  promote_found_cases m audit now (some current) a b =
      elim (Bool-cases (ltb (discriminant m.visibility) (discriminant current.visibility))) [
        | inl narrows ↦ rw narrows a
        | inr widens ↦ rw widens b
      ]

  pub promote_memory_visibility_audited_cases :
      (m : Memory) (audit : AuditEvent) (now : ℕ)
      → P s
      → (let lsn = s.graph.lsn + 1 in
          P (record s {
            graph =
                send
                  (record s.graph {
                    lsn = lsn;
                    memories = push m.id (record m { lsn = lsn }) s.graph.memories;
                  })
                  (memory_upserted m.id lsn);
            board = push_audit s.board audit lsn;
          }))
      → P (promote_memory_visibility_audited s m audit now).0
  unfolding promote_memory_visibility_audited
  promote_memory_visibility_audited_cases m audit now a b =
      promote_found_cases m audit now (last_version (lookup m.id s.graph.memories)) a b

  announce_unless_cases :
      (d : DiscoveryRecord) (o : Option DiscoveryRecord)
      → P s
      → P (announce s d)
      → P (announce_unless s d o).0
  announce_unless_cases d none a b = b
  announce_unless_cases d (some stored) a b = a

  pub store_discovery_cases :
      (d : DiscoveryRecord) → P s → P (announce s d) → P (store_discovery s d).0
  unfolding store_discovery
  store_discovery_cases d a b =
      elim (Bool-cases (is_there (lookup d.discovery_id s.board.proposals))) [
        | inl proposed ↦ rw proposed a
        | inr new ↦ rw new (announce_unless_cases d (lookup d.discovery_id s.board.discoveries) a b)
      ]

  pub store_discovery_fenced_cases :
      (d : DiscoveryRecord) (lease : OwnerLease) (now : ℕ)
      → P s
      → P (announce s d)
      → P (store_discovery_fenced s d lease now).0
  unfolding store_discovery_fenced
  store_discovery_fenced_cases d lease now a b =
      fenced_cases P s (check_lease_current s.lease_table lease now) (store_discovery s d) a
        (store_discovery_cases d a b)

  upsert_audited_cases :
      (audit : AuditEvent) (g : Graph)
      (r : Result StorageError (List CommitRecord × List Invalidation))
      → P (record s { graph = g })
      → ((is : List Invalidation) (lsn : ℕ)
          → P (record s { graph = publish g is; board = push_audit s.board audit lsn }))
      → P (upsert_audited s audit (g, r)).0
  upsert_audited_cases audit g (err e) a b = a
  upsert_audited_cases audit g (ok (records, is)) a b = b is (assigned (get_last? records))

pub delete_relationship_audited_cases :
    (P : Store → Type 0) (s : Store) (id : RelationshipId) (audit : AuditEvent) (now : ℕ)
    → (let drawn : Store = record s { graph = record s.graph { lsn = s.graph.lsn + 1 } } in
        P drawn
        × ((last : Relationship)
            → P (record drawn {
              graph =
                  send
                    (record drawn.graph {
                      rels = push id (close_edge last drawn.graph.lsn now) s.graph.rels;
                    })
                    (relationship_deleted id drawn.graph.lsn);
              board = push_audit s.board audit drawn.graph.lsn;
            })))
    → P (delete_relationship_audited s id audit now).0
unfolding delete_relationship_audited
delete_relationship_audited_cases P s id audit now a =
    close_audited_cases P (record s { graph = record s.graph { lsn = s.graph.lsn + 1 } }) id audit
      now (last_edge (lookup id s.graph.rels)) a.0 a.1

module _ (digest : Bytes → ℕ) (ontology : Ontology) (P : Store → Type 0) (s : Store) where
  pub upsert_batch_audited_cases :
      (ms : List Memory) (rs : List Relationship) (audit : AuditEvent) (now : ℕ)
      → (let w = upsert_batch_locked digest ontology s.graph ms rs now in
          P (record s { graph = w.0 })
          × ((is : List Invalidation) (lsn : ℕ)
              → P (record s { graph = publish w.0 is; board = push_audit s.board audit lsn })))
      → P (upsert_batch_audited digest ontology s ms rs audit now).0
  unfolding upsert_batch_audited
  upsert_batch_audited_cases ms rs audit now a =
      let w = upsert_batch_locked digest ontology s.graph ms rs now in
      upsert_audited_cases P s audit w.0 w.1 a.0 a.1

  accept_found_cases :
      (a : DiscoveryAcceptance) (now : ℕ) (o : Option StoredProposal)
      → P s
      → ((stored : StoredProposal)
          → o ≡ some stored
          → stored.consumed ≡ false
          → P (accept digest ontology s a stored))
      → P (accept_found digest ontology s a now o).0
  unfolding accept
  accept_found_cases a now none x y = x
  accept_found_cases a now (some stored) x y = elim (Bool-cases stored.consumed) [
    | inl consumed ↦ rw consumed x
    | inr open_proposal ↦ rw open_proposal (elim (Bool-cases (deviates stored.proposal a)) [
      | inl wrong ↦ rw wrong x
      | inr right ↦ rw right (y stored refl open_proposal)
    ])
  ]

  pub accept_discovery_cases :
      (a : DiscoveryAcceptance) (now : ℕ)
      → P s
      → ((stored : StoredProposal)
          → lookup a.discovery_id s.board.proposals ≡ some stored
          → stored.consumed ≡ false
          → P (accept digest ontology s a stored))
      → P (accept_discovery digest ontology s a now).0
  unfolding accept_discovery
  accept_discovery_cases a now x y =
      accept_found_cases a now (lookup a.discovery_id s.board.proposals) x y

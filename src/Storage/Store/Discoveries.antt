-- ===== src/Storage/Store/Discoveries.antt =====
-- The audited writes and the discoveries of crates/exocortex-storage/src/in_memory.rs. The errors'
-- texts stand without the ids that they print, and the faults that its tests inject are left out.
use exocortex.Common.{
  ℕ, ◌+◌, Bool, true, not, ◌||◌, Option, none, some, List, [], ◌∷◌, ◌++◌, Result, ok, err,
  if◌then◌else◌, ltb, ◌==◌, str_eq, Bytes, string_key, nat_key, get_last?, lookup, insert, push,
}
use exocortex.Kernel.Ontology.{Ontology}
use exocortex.Kernel.Visibility.{discriminant}
use exocortex.Kernel.Relationship.{Relationship, RelationshipId, materialize_inverse}
use exocortex.Storage.Rows.{
  Memory, CommitRecord, Invalidation, memory_upserted, relationship_upserted, relationship_deleted,
  discovery_available, StorageError, backend, proposal_not_found, proposal_mismatch,
}
use exocortex.Storage.Discovery.{
  DiscoveryRecord, DiscoveryProposal, AuditEvent, DiscoveryAcceptance, same_region, same_scope,
  same_visibility, same_discovery,
}
use exocortex.Storage.Board.{StoredProposal, Board, is_there}
use exocortex.Storage.InMemory.{
  Graph, commit_record, send, publish, last_version, last_edge, is_open, close_edge,
  upsert_batch_locked,
}
use exocortex.Storage.Leases.{OwnerLease, check_lease_current}
use exocortex.Storage.Store.{Store, assigned, fenced}

abbrev pub push_audit : Board → AuditEvent → ℕ → Board
push_audit b audit lsn = record b { audits = b.audits ++ record { audit = audit; lsn = lsn } ∷ [] }

unfoldable pub append_audit : Store → AuditEvent → ℕ → Store × Result StorageError CommitRecord
append_audit s audit now =
    let lsn = s.graph.lsn + 1 in
    (
      record s { graph = record s.graph { lsn = lsn }; board = push_audit s.board audit lsn },
      ok (commit_record lsn now),
    )

abbrev pub already_closed : StorageError
already_closed = backend "delete_relationship_audited: not found or already closed"

abbrev pub close_audited :
    Store
    → RelationshipId
    → AuditEvent
    → ℕ
    → Option Relationship
    → Store × Result StorageError CommitRecord
close_audited s id audit now none = (s, err already_closed)
close_audited s id audit now (some last) =
    let g = s.graph in
    let closed : Graph = record g { rels = push id (close_edge last g.lsn now) g.rels } in
    if is_open last.valid_until
    then (
      record s {
        graph = send closed (relationship_deleted id g.lsn);
        board = push_audit s.board audit g.lsn;
      },
      ok (commit_record g.lsn now),
    )
    else (s, err already_closed)

-- The LSN is drawn before the row is looked for.
unfoldable pub delete_relationship_audited :
    Store → RelationshipId → AuditEvent → ℕ → Store × Result StorageError CommitRecord
delete_relationship_audited s id audit now =
    close_audited (record s { graph = record s.graph { lsn = s.graph.lsn + 1 } }) id audit now
      (last_edge (lookup id s.graph.rels))

abbrev pub promote_found :
    Store → Memory → AuditEvent → ℕ → Option Memory → Store × Result StorageError CommitRecord
promote_found s m audit now none = (s, err (backend "promotion target disappeared"))
promote_found s m audit now (some current) =
    let g = s.graph in
    let lsn = g.lsn + 1 in
    let promoted : Graph = record g {
      lsn = lsn;
      memories = push m.id (record m { lsn = lsn }) g.memories;
    } in
    if ltb (discriminant m.visibility) (discriminant current.visibility)
    then (s, err (backend "promotion would narrow current visibility"))
    else (
      record s {
        graph = send promoted (memory_upserted m.id lsn);
        board = push_audit s.board audit lsn;
      },
      ok (commit_record lsn now),
    )

unfoldable pub promote_memory_visibility_audited :
    Store → Memory → AuditEvent → ℕ → Store × Result StorageError CommitRecord
promote_memory_visibility_audited s m audit now =
    promote_found s m audit now (last_version (lookup m.id s.graph.memories))

-- A discovery that is new.
abbrev pub announce : Store → DiscoveryRecord → Store
announce s d =
    let lsn = s.graph.lsn + 1 in
    record s {
      graph = send (record s.graph { lsn = lsn }) (discovery_available d lsn);
      board = record s.board { discoveries = insert d.discovery_id d s.board.discoveries };
    }

abbrev pub announce_unless :
    Store → DiscoveryRecord → Option DiscoveryRecord → Store × Result StorageError (Unit {0})
announce_unless s d none = (announce s d, ok tt)
announce_unless s d (some stored) =
    (s, if same_discovery stored d then ok tt else err proposal_mismatch)

unfoldable pub store_discovery : Store → DiscoveryRecord → Store × Result StorageError (Unit {0})
store_discovery s d =
    if is_there (lookup d.discovery_id s.board.proposals)
    then (s, err proposal_mismatch)
    else announce_unless s d (lookup d.discovery_id s.board.discoveries)

unfoldable pub store_discovery_fenced :
    Store → DiscoveryRecord → OwnerLease → ℕ → Store × Result StorageError (Unit {0})
store_discovery_fenced s d lease now =
    fenced s (check_lease_current s.lease_table lease now) (store_discovery s d)

-- What an acceptance may not change of its proposal.
abbrev pub deviates : DiscoveryProposal → DiscoveryAcceptance → Bool
deviates p a =
    let r = a.relationship in
    not (same_region p.region a.region)
    || (not (same_scope p.caller_scope a.caller_scope)
        || (not (p.from == r.from)
            || (not (p.to == r.to)
                || (not (p.kind == r.kind)
                    || (not (same_visibility p.proposed_visibility r.visibility)
                        || (not (str_eq p.region.org a.audit.org_id)
                            || (not (str_eq p.caller_scope.user_id a.audit.actor)
                                || ltb (discriminant a.caller_scope.max_visibility)
                                    (discriminant r.visibility))))))))

-- The staged rows and events of an acceptance.
abbrev pub accept_edge : Graph × List Invalidation → Relationship → Graph × List Invalidation
accept_edge (g, events) r =
    let lsn = g.lsn + 1 in
    (
      record g { lsn = lsn; rels = push r.id (record r { lsn = lsn }) g.rels },
      events ++ relationship_upserted r.id r.from r.to r.kind lsn ∷ [],
    )

abbrev pub accept_companion :
    Graph × List Invalidation → Option Relationship → Graph × List Invalidation
accept_companion staged none = staged
accept_companion staged (some inverse) = accept_edge staged inverse

abbrev pub upsert_audited :
    Store
    → AuditEvent
    → Graph × Result StorageError (List CommitRecord × List Invalidation)
    → Store × Result StorageError (List CommitRecord)
upsert_audited s audit (g, err e) = (record s { graph = g }, err e)
upsert_audited s audit (g, ok (records, invalidations)) = (
  record s {
    graph = publish g invalidations;
    board = push_audit s.board audit (assigned (get_last? records));
  },
  ok records,
)

module _ (digest : Bytes → ℕ) (ontology : Ontology) where
  unfoldable pub upsert_batch_audited :
      Store
      → List Memory
      → List Relationship
      → AuditEvent
      → ℕ
      → Store × Result StorageError (List CommitRecord)
  upsert_batch_audited s ms rs audit now =
      upsert_audited s audit (upsert_batch_locked digest ontology s.graph ms rs now)

  unfoldable pub accept : Store → DiscoveryAcceptance → StoredProposal → Store
  accept s a stored =
      let r = a.relationship in
      let (g, events) =
        accept_companion (accept_edge (s.graph, []) r) (materialize_inverse digest ontology r) in
      record s {
        graph = publish g events;
        board = record (push_audit s.board a.audit (s.graph.lsn + 1)) {
          proposals = insert a.discovery_id (record stored { consumed = true }) s.board.proposals;
        };
      }

  abbrev pub accept_found :
      Store
      → DiscoveryAcceptance
      → ℕ
      → Option StoredProposal
      → Store × Result StorageError CommitRecord
  accept_found s a now none = (s, err proposal_not_found)
  accept_found s a now (some stored) =
      if stored.consumed
      then (s, err proposal_not_found)
      else if deviates stored.proposal a
      then (s, err proposal_mismatch)
      else (accept s a stored, ok (commit_record (s.graph.lsn + 1) now))

  unfoldable pub accept_discovery :
      Store → DiscoveryAcceptance → ℕ → Store × Result StorageError CommitRecord
  accept_discovery s a now = accept_found s a now (lookup a.discovery_id s.board.proposals)

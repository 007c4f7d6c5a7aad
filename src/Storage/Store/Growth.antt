-- ===== src/Storage/Store/Growth.antt =====
-- The graph of in_memory.rs under every operation of the store.
use exocortex.Common.{
  ℕ, ◌+◌, Bool-cases, inl, inr, String, Option, none, some, List, [], ◌∷◌, Bytes, arith, string_key,
  lookup,
}
use exocortex.Kernel.Ontology.{Ontology}
use exocortex.Kernel.Relationship.{Relationship, materialize_inverse}
use exocortex.Storage.Discovery.{DiscoveryRecord, DiscoveryAcceptance}
use exocortex.Storage.Board.{StoredProposal, is_there}
use exocortex.Storage.Rows.{Memory, Invalidation, batch_key, memory_deleted}
use exocortex.Storage.InMemory.{
  Graph, upsert_batch_locked, publish, delete_memory_locked, close_edge,
}
use exocortex.Storage.InMemory.History.{
  Extends-refl, push-Extends, draw-Grows, Grows, Grows-refl, Grows-trans, publish-Grows, send-Grows,
  upsert_memory-Grows, delete_memory_locked-Grows, delete_memory-Grows, delete_relationship-Grows,
}
use exocortex.Storage.InMemory.Batches.{
  upsert_batch_locked-Grows, upsert_batch-Grows, upsert_relationship-Grows,
}
use exocortex.Storage.Store.{Store}
use exocortex.Storage.Store.Cases.{
  upsert_batch_fenced_cases, upsert_batch_once_cases, commit_ingest_batch_cases,
  delete_memory_fenced_cases,
}
use exocortex.Storage.Store.Steps.{
  Step, put_memory, put_batch, drop_memory, put_edge, drop_edge, commit_batch, import_once,
  put_batch_fenced, drop_memory_fenced, acquire, renew, release, claim_effect, renew_claim,
  acknowledge, clean_up, audit, put_batch_audited, drop_edge_audited, promote, propose, discover,
  discover_fenced, accept_proposal, put_batch_journaled, complete_cycle, settle_cycle, Reach, here,
  next,
}
use exocortex.Storage.Store.Discoveries.{
  append_audit, announce, accept_edge, accept_companion, accept,
}
use exocortex.Storage.Store.Settle.{announce_new, settle_cycle as settle_cycle_locked}
use exocortex.Storage.Store.Cases.Audited.{
  delete_relationship_audited_cases, promote_memory_visibility_audited_cases, store_discovery_cases,
  store_discovery_fenced_cases, upsert_batch_audited_cases, accept_discovery_cases,
}
use exocortex.Storage.Store.Cases.Cycles.{
  complete_cycle_journal_fenced_cases, settle_dreams_cycle_fenced_cases,
  upsert_batch_fenced_journaled_cases,
}

announce-Grows : (s : Store) (d : DiscoveryRecord) → Grows s.graph (announce s d).graph
announce-Grows s d = record {
  memories = Extends-refl s.graph.memories (omega arith);
  rels = Extends-refl s.graph.rels (omega arith);
  lsn = omega arith;
}

announce_new-Grows :
    (s : Store) (ds : List DiscoveryRecord) → Grows s.graph (announce_new s ds).graph
unfolding announce_new
announce_new-Grows s [] = Grows-refl s.graph
announce_new-Grows s (d ∷ ds) =
    elim (Bool-cases (is_there (lookup d.discovery_id s.board.discoveries))) [
      | inl known ↦ rw (known, announce_new) (announce_new-Grows s ds)
      | inr new ↦
          rw (new, announce_new)
            (Grows-trans s.graph (announce s d).graph (announce_new (announce s d) ds).graph
              (announce-Grows s d) (announce_new-Grows (announce s d) ds))
    ]

module _ (digest : Bytes → ℕ) (ontology : Ontology) where
  batch-Grows :
      (g : Graph) (ms : List Memory) (rs : List Relationship) (now : ℕ) (is : List Invalidation)
      → Grows g (publish (upsert_batch_locked digest ontology g ms rs now).0 is)
  batch-Grows g ms rs now is =
      let h = (upsert_batch_locked digest ontology g ms rs now).0 in
      Grows-trans g h (publish h is) (upsert_batch_locked-Grows digest ontology g ms rs now)
        (publish-Grows h is)

  -- An acceptance writes an edge and its companion.
  accept_edge-Grows :
      (g : Graph) (events : List Invalidation) (r : Relationship)
      → Grows g (accept_edge (g, events) r).0
  accept_edge-Grows g events r = record {
    memories = Extends-refl g.memories (omega arith);
    rels = push-Extends r.id (record r { lsn = g.lsn + 1 }) g.rels (omega arith) (omega arith);
    lsn = omega arith;
  }

  accept_companion-Grows :
      (g : Graph) (events : List Invalidation) (o : Option Relationship)
      → Grows g (accept_companion (g, events) o).0
  accept_companion-Grows g events none = Grows-refl g
  accept_companion-Grows g events (some inverse) = accept_edge-Grows g events inverse

  accept-Grows :
      (s : Store) (a : DiscoveryAcceptance) (stored : StoredProposal)
      → Grows s.graph (accept digest ontology s a stored).graph
  unfolding accept
  accept-Grows s a stored =
      let r = a.relationship in
      let one = accept_edge (s.graph, []) r in
      let both = accept_companion one (materialize_inverse digest ontology r) in
      Grows-trans s.graph both.0 (publish both.0 both.1)
        (Grows-trans s.graph one.0 both.0 (accept_edge-Grows s.graph [] r)
          (accept_companion-Grows one.0 one.1 (materialize_inverse digest ontology r)))
        (publish-Grows both.0 both.1)

  module _ (token_of : ℕ → String) (grace : ℕ) where
    pub Step-Grows : {s t : Store} → Step digest ontology token_of grace s t → Grows s.graph t.graph
    Step-Grows (put_memory s m now) = upsert_memory-Grows s.graph m now
    Step-Grows (put_batch s ms rs now) = upsert_batch-Grows digest ontology s.graph ms rs now
    Step-Grows (drop_memory s id now) = delete_memory-Grows s.graph id now
    Step-Grows (put_edge s r now) = upsert_relationship-Grows digest ontology s.graph r now
    Step-Grows (drop_edge s id now) = delete_relationship-Grows s.graph id now
    Step-Grows (commit_batch s key ms rs accepted effect now) =
        commit_ingest_batch_cases digest ontology (λ u. Grows s.graph u.graph) s key ms rs accepted
          effect now (Grows-refl s.graph)
          (λ fresh. (
            upsert_batch_locked-Grows digest ontology s.graph ms rs now,
            λ settled. batch-Grows s.graph ms rs now,
          ))
    Step-Grows (import_once s key ms rs now) =
        upsert_batch_once_cases digest ontology (λ u. Grows s.graph u.graph) s key ms rs now
          (Grows-refl s.graph)
          (
            upsert_batch_locked-Grows digest ontology s.graph ms rs now,
            batch-Grows s.graph ms rs now,
          )
    Step-Grows (put_batch_fenced s ms rs lease now) =
        upsert_batch_fenced_cases digest ontology (λ u. Grows s.graph u.graph) s ms rs lease now
          (Grows-refl s.graph)
          (
            upsert_batch_locked-Grows digest ontology s.graph ms rs now,
            batch-Grows s.graph ms rs now,
          )
    Step-Grows (drop_memory_fenced s id lease now) =
        let dropped = delete_memory_locked s.graph id now in
        delete_memory_fenced_cases (λ u. Grows s.graph u.graph) s id lease now (Grows-refl s.graph)
          (Grows-trans s.graph dropped.0 _ (delete_memory_locked-Grows s.graph id now)
            (send-Grows dropped.0 (memory_deleted id dropped.1.lsn)))
    Step-Grows (acquire s key ttl now) = Grows-refl s.graph
    Step-Grows (renew s lease now) = Grows-refl s.graph
    Step-Grows (release s lease) = Grows-refl s.graph
    Step-Grows (claim_effect s token ms now) = Grows-refl s.graph
    Step-Grows (renew_claim s id token ms now) = Grows-refl s.graph
    Step-Grows (acknowledge s id token now) = Grows-refl s.graph
    Step-Grows (clean_up s id) = Grows-refl s.graph
    Step-Grows (audit s a now) = unfold append_audit in draw-Grows s.graph
    Step-Grows (put_batch_audited s ms rs a now) =
        upsert_batch_audited_cases digest ontology (λ u. Grows s.graph u.graph) s ms rs a now
          (
            upsert_batch_locked-Grows digest ontology s.graph ms rs now,
            λ is lsn. batch-Grows s.graph ms rs now is,
          )
    Step-Grows (drop_edge_audited s id a now) =
        delete_relationship_audited_cases (λ u. Grows s.graph u.graph) s id a now
          (
            draw-Grows s.graph,
            λ last. record {
              memories = Extends-refl s.graph.memories (omega arith);
              rels =
                  push-Extends id (close_edge last (s.graph.lsn + 1) now) s.graph.rels (omega arith)
                    (omega arith);
              lsn = omega arith;
            },
          )
    Step-Grows (promote s m a now) =
        promote_memory_visibility_audited_cases (λ u. Grows s.graph u.graph) s m a now
          (Grows-refl s.graph)
          (record {
            memories =
                push-Extends m.id (record m { lsn = s.graph.lsn + 1 }) s.graph.memories
                  (omega arith) (omega arith);
            rels = Extends-refl s.graph.rels (omega arith);
            lsn = omega arith;
          })
    Step-Grows (propose s p) = Grows-refl s.graph
    Step-Grows (discover s d) =
        store_discovery_cases (λ u. Grows s.graph u.graph) s d (Grows-refl s.graph)
          (announce-Grows s d)
    Step-Grows (discover_fenced s d lease now) =
        store_discovery_fenced_cases (λ u. Grows s.graph u.graph) s d lease now (Grows-refl s.graph)
          (announce-Grows s d)
    Step-Grows (accept_proposal s a now) =
        accept_discovery_cases digest ontology (λ u. Grows s.graph u.graph) s a now
          (Grows-refl s.graph) (λ stored found free. accept-Grows s a stored)
    Step-Grows (put_batch_journaled s ms rs prepared cycle_id lease now) =
        upsert_batch_fenced_journaled_cases (λ u. Grows s.graph u.graph) s digest ontology ms rs
          prepared cycle_id lease now (Grows-refl s.graph)
          (
            upsert_batch_locked-Grows digest ontology s.graph ms rs now,
            λ is commit. batch-Grows s.graph ms rs now is,
          )
    Step-Grows (complete_cycle s cycle_id lease now) =
        complete_cycle_journal_fenced_cases (λ u. Grows s.graph u.graph) s cycle_id lease now
          (Grows-refl s.graph) (λ j. Grows-refl s.graph)
    Step-Grows (settle_cycle s content_digest cycle_id ds lease now) =
        settle_dreams_cycle_fenced_cases (λ u. Grows s.graph u.graph) s content_digest cycle_id ds
          lease now (Grows-refl s.graph)
          (λ effect free. unfold settle_cycle_locked in announce_new-Grows s ds)

    -- Whatever is called on a store in memory, in whatever order, but a rollback, no row is lost or
    -- rewritten: every history of a memory or an edge is the beginning of its later history, the LSNs of
    -- the rows that follow ascend from above the LSN that the store had to at most the one that it has,
    -- and the store's LSN never falls.
    pub Reach-Grows :
        {s t : Store} → Reach (Step digest ontology token_of grace) s t → Grows s.graph t.graph
    Reach-Grows {s} here = Grows-refl s.graph
    Reach-Grows {s} {t} (next {t = u} r st) =
        Grows-trans s.graph u.graph t.graph (Reach-Grows r) (Step-Grows st)

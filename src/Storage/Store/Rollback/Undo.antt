-- ===== src/Storage/Store/Rollback/Undo.antt =====
-- What a rollback after a journaled batch of in_memory.rs takes away: the rows of the batch.
use exocortex.Common.{
  ℕ, ◌<◌, ◌≤◌, ◌≡◌, refl, ap, ◌∙◌, Bool-cases, inl, inr, String, Bool, true, not, ◌||◌, List, [],
  ◌∷◌, ◌++◌, any, arith, ==_iff, nat_key, All, filter, history,
}
use exocortex.Kernel.Relationship.{Relationship}
use exocortex.Storage.Rows.{
  Memory, Invalidation, memory_upserted, memory_deleted, relationship_upserted,
  relationship_deleted, discovery_available,
}
use exocortex.Storage.Owned.{LsnMap, owns}
use exocortex.Storage.Journal.{FencedRestore}
use exocortex.Storage.InMemory.History.{Ascends, Ascends-le, memory_lsn, edge_lsn, IsAscending}
use exocortex.Storage.InMemory.Lsns.{event_lsn}
use exocortex.Storage.InMemory.Written.{wrote_memory, wrote_edge, noted_memories, noted_edges}
use exocortex.Storage.Leases.{OwnerLease}
use exocortex.Storage.Store.{Store, FencedBatchCommit}
use exocortex.Storage.Store.Rollback.Journaled.{Journaled}

Ascends-All :
    {V : Type 0} (lsn_of : V → ℕ) (lo hi : ℕ) (vs : List V)
    → Ascends lsn_of lo hi vs
    → All (λ v. lsn_of v ≤ hi) vs
Ascends-All lsn_of lo hi [] h = tt
Ascends-All lsn_of lo hi (v ∷ vs) h =
    (Ascends-le lsn_of (lsn_of v) hi vs h.1, Ascends-All lsn_of (lsn_of v) hi vs h.1)

wrote_memory-lsn : (k l : ℕ) (i : Invalidation) → wrote_memory k l i ≡ true → event_lsn i ≡ l
wrote_memory-lsn k l (memory_upserted id lsn) h = ground (arith, h, ==_iff lsn l)
wrote_memory-lsn k l (memory_deleted id lsn) h = cc
wrote_memory-lsn k l (relationship_upserted id from to kind lsn) h = cc
wrote_memory-lsn k l (relationship_deleted id lsn) h = cc
wrote_memory-lsn k l (discovery_available found lsn) h = cc

wrote_edge-lsn : (k l : ℕ) (i : Invalidation) → wrote_edge k l i ≡ true → event_lsn i ≡ l
wrote_edge-lsn k l (memory_upserted id lsn) h = cc
wrote_edge-lsn k l (memory_deleted id lsn) h = cc
wrote_edge-lsn k l (relationship_upserted id from to kind lsn) h = ground (arith, h, ==_iff lsn l)
wrote_edge-lsn k l (relationship_deleted id lsn) h = cc
wrote_edge-lsn k l (discovery_available found lsn) h = cc

-- An LSN that an event has is as fresh as the events are.
any-fresh :
    (p : Invalidation → Bool) (base l : ℕ) (events : List Invalidation)
    → ((i : Invalidation) → p i ≡ true → event_lsn i ≡ l)
    → All (λ i. base < event_lsn i) events
    → any p events ≡ true
    → base < l
unfolding any
any-fresh p base l [] named fresh h = cc
any-fresh p base l (i ∷ is) named fresh h = elim (Bool-cases (p i)) [
  | inl here ↦ omega (arith, fresh.0, named i here)
  | inr there ↦ any-fresh p base l is named fresh.1 (ground (arith, h, there))
]

-- A filter of a history and of the rows after it, which it takes away.
module _ {V : Type 0} (lsn_of : V → ℕ) (base : ℕ) (owned also both : ℕ → Bool)
    (joined : (l : ℕ) → both l ≡ (owned l || also l))
    (fresh : (l : ℕ) → also l ≡ true → base < l) where
  filter-also :
      (new : List V)
      → All (λ v. also (lsn_of v) ≡ true) new
      → filter (λ v. not (both (lsn_of v))) new ≡ []
  unfolding filter
  filter-also [] h = refl
  filter-also (v ∷ vs) h = ground (arith, h.0, joined (lsn_of v), filter-also vs h.1)

  filter-both :
      (old new : List V)
      → All (λ v. lsn_of v ≤ base) old
      → All (λ v. also (lsn_of v) ≡ true) new
      → filter (λ v. not (both (lsn_of v))) (old ++ new) ≡ filter (λ v. not (owned (lsn_of v))) old
  unfolding filter
  filter-both [] new a b = filter-also new b
  filter-both (v ∷ vs) new a b =
      ground (arith, a.0, joined (lsn_of v), fresh (lsn_of v), filter-both vs new a.1 b)

module _ (s t : Store) (prepared : FencedRestore) (cycle_id : String) (lease : OwnerLease)
    (commit : FencedBatchCommit) (ascending : IsAscending s.graph)
    (j : Journaled s prepared cycle_id lease commit t) (m n : LsnMap) where
  -- With the batch's LSNs as with no batch.
  pub Journaled-memories :
      ((k l : ℕ) → owns n k l ≡ (owns m k l || owns commit.memory_lsns k l))
      → (k : ℕ)
      → filter (λ (v : Memory). not (owns n k v.lsn)) (history k t.graph.memories)
        ≡ filter (λ (v : Memory). not (owns m k v.lsn)) (history k s.graph.memories)
  Journaled-memories joined k =
      let (new, e, noted) = j.written.memory_rows k in
      ap (filter (λ (v : Memory). not (owns n k v.lsn))) e
      ∙ filter-both memory_lsn s.graph.lsn (owns m k) (noted_memories j.events k) (owns n k)
          (λ l. joined k l ∙ ap (λ b. owns m k l || b) (j.memories k l))
          (λ l.
            any-fresh (wrote_memory k l) s.graph.lsn l j.events (wrote_memory-lsn k l)
              j.written.fresh)
          (history k s.graph.memories) new
          (Ascends-All memory_lsn 0 s.graph.lsn (history k s.graph.memories) (ascending.memories k))
          noted

  pub Journaled-edges :
      ((k l : ℕ) → owns n k l ≡ (owns m k l || owns commit.relationship_lsns k l))
      → (k : ℕ)
      → filter (λ (v : Relationship). not (owns n k v.lsn)) (history k t.graph.rels)
        ≡ filter (λ (v : Relationship). not (owns m k v.lsn)) (history k s.graph.rels)
  Journaled-edges joined k =
      let (new, e, noted) = j.written.edge_rows k in
      ap (filter (λ (v : Relationship). not (owns n k v.lsn))) e
      ∙ filter-both edge_lsn s.graph.lsn (owns m k) (noted_edges j.events k) (owns n k)
          (λ l. joined k l ∙ ap (λ b. owns m k l || b) (j.edges k l))
          (λ l.
            any-fresh (wrote_edge k l) s.graph.lsn l j.events (wrote_edge-lsn k l) j.written.fresh)
          (history k s.graph.rels) new
          (Ascends-All edge_lsn 0 s.graph.lsn (history k s.graph.rels) (ascending.rels k)) noted

-- ===== src/Storage/Store/Ascending.antt =====
-- The LSNs along the histories of in_memory.rs, rollbacks among the calls.
use exocortex.Common.{
  ℕ, ◌≤◌, sym, subst, Bool-cases, inl, inr, String, Bool, Option, none, some, List, [], ◌∷◌, Bytes,
  ◌==◌, length, filter, arith, nat_key, lookup, history, get_last?,
}
use exocortex.Kernel.Ontology.{Ontology}
use exocortex.Kernel.Relationship.{Relationship}
use exocortex.Storage.Rows.{Memory}
use exocortex.Storage.Owned.{LsnMap}
use exocortex.Storage.Journal.{FencedRestore}
use exocortex.Storage.InMemory.{Graph}
use exocortex.Storage.InMemory.History.{
  Ascends, Ascends-from, memory_lsn, edge_lsn, publish-Grows, IsAscending, IsAscending-Grows,
}
use exocortex.Storage.Leases.{check_lease_current}
use exocortex.Storage.Store.{Store}
use exocortex.Storage.Store.Rollback.{
  Restored, kept_memories, kept_edges, restore_versions, restore_memory_found, restore_memories,
  restored_edge, restore_edge_found, restore_edges, restored, restore_graph, restore_fenced,
}
use exocortex.Storage.Store.Rollback.Histories.{restore_graph-histories}
use exocortex.Storage.Store.Cases.{fenced_cases}
use exocortex.Storage.Store.Steps.{Call, step, roll_back, Reach, here, next}
use exocortex.Storage.Store.Growth.{Step-Grows}

module _ {V : Type 0} (lsn_of : V → ℕ) (p : V → Bool) where
  Ascends-filter :
      (lo hi : ℕ) (vs : List V) → Ascends lsn_of lo hi vs → Ascends lsn_of lo hi (filter p vs)
  unfolding filter
  Ascends-filter lo hi [] h = h
  Ascends-filter lo hi (v ∷ vs) h =
      let rest = Ascends-filter (lsn_of v) hi vs h.1 in
      elim (Bool-cases (p v)) [
        | inl keep ↦ rw keep (h.0, rest)
        | inr drop ↦
            rw drop (Ascends-from lsn_of lo (lsn_of v) hi (filter p vs) (omega (arith, h.0)) rest)
      ]

Ascends-to :
    {V : Type 0} (lsn_of : V → ℕ) (lo hi top : ℕ) (vs : List V)
    → hi ≤ top
    → Ascends lsn_of lo hi vs
    → Ascends lsn_of lo top vs
Ascends-to lsn_of lo hi top [] le h = omega (arith, le, h)
Ascends-to lsn_of lo hi top (v ∷ vs) le h = (h.0, Ascends-to lsn_of (lsn_of v) hi top vs le h.1)

-- A rollback draws LSNs too.
restore_versions-next :
    (now : ℕ) (s : Restored) (id : ℕ) (vs : List Memory)
    → s.next ≤ (restore_versions now s id vs).next
restore_versions-next now s id [] = omega arith
restore_versions-next now s id (m ∷ ms) = omega arith

restore_memory_found-next :
    (now : ℕ) (s : Restored) (id : ℕ) (lsns : List ℕ) (o : Option (List Memory))
    → s.next ≤ (restore_memory_found now s id lsns o).next
restore_memory_found-next now s id lsns none = omega arith
restore_memory_found-next now s id lsns (some vs) =
    elim (Bool-cases (length (kept_memories lsns vs) == length vs)) [
      | inl same ↦ rw same (omega arith)
      | inr fewer ↦ rw fewer (restore_versions-next now s id (kept_memories lsns vs))
    ]

restore_memories-next :
    (now : ℕ) (s : Restored) (owned : LsnMap) → s.next ≤ (restore_memories now s owned).next
unfolding restore_memories
restore_memories-next now s [] = omega arith
restore_memories-next now s ((id, lsns) ∷ rest) =
    let found = restore_memory_found now s id lsns (lookup id s.memories) in
    omega (
      arith,
      restore_memory_found-next now s id lsns (lookup id s.memories),
      restore_memories-next now found rest,
    )

restored_edge-next :
    (now : ℕ) (s : Restored) (id : ℕ) (vs : List Relationship) (o : Option Relationship)
    → s.next ≤ (restored_edge now s id vs o).next
restored_edge-next now s id vs none = omega arith
restored_edge-next now s id vs (some r) = omega arith

restore_edge_found-next :
    (now : ℕ) (s : Restored) (id : ℕ) (lsns : List ℕ) (o : Option (List Relationship))
    → s.next ≤ (restore_edge_found now s id lsns o).next
restore_edge_found-next now s id lsns none = omega arith
restore_edge_found-next now s id lsns (some vs) =
    let kept = kept_edges lsns vs in
    elim (Bool-cases (length kept == length vs)) [
      | inl same ↦ rw same (omega arith)
      | inr fewer ↦ rw fewer (restored_edge-next now s id kept (get_last? kept))
    ]

restore_edges-next :
    (now : ℕ) (s : Restored) (owned : LsnMap) → s.next ≤ (restore_edges now s owned).next
unfolding restore_edges
restore_edges-next now s [] = omega arith
restore_edges-next now s ((id, lsns) ∷ rest) =
    let found = restore_edge_found now s id lsns (lookup id s.rels) in
    omega (
      arith,
      restore_edge_found-next now s id lsns (lookup id s.rels),
      restore_edges-next now found rest,
    )

restore_graph-lsn : (now : ℕ) (g : Graph) (r : FencedRestore) → g.lsn ≤ (restore_graph now g r).lsn
unfolding restore_graph restored
restore_graph-lsn now g r =
    let start : Restored = record {
      next = g.lsn;
      memories = g.memories;
      rels = g.rels;
      records = [];
      invalidations = [];
    } in
    let mid = restore_memories now start r.owned_memory_lsns in
    let final = restore_edges now mid r.owned_relationship_lsns in
    omega (
      arith,
      restore_memories-next now start r.owned_memory_lsns,
      restore_edges-next now mid r.owned_relationship_lsns,
      (publish-Grows (record g { lsn = final.next; memories = final.memories; rels = final.rels })
          final.invalidations).lsn,
    )

restore_graph-IsAscending :
    (now : ℕ) (g : Graph) (r : FencedRestore) → IsAscending g → IsAscending (restore_graph now g r)
restore_graph-IsAscending now g r a =
    let h = restore_graph now g r in
    let up = restore_graph-lsn now g r in
    record {
      memories = λ k.
          subst (Ascends memory_lsn 0 h.lsn) (sym (restore_graph-histories now g r k).0) (
            Ascends-to memory_lsn 0 g.lsn h.lsn _ up
              (Ascends-filter memory_lsn _ 0 g.lsn (history k g.memories) (a.memories k)));
      rels = λ k. subst (Ascends edge_lsn 0 h.lsn) (sym (restore_graph-histories now g r k).1) (
          Ascends-to edge_lsn 0 g.lsn h.lsn _ up
            (Ascends-filter edge_lsn _ 0 g.lsn (history k g.rels) (a.rels k)));
    }

module _ (digest : Bytes → ℕ) (ontology : Ontology) (token_of : ℕ → String) (grace : ℕ) where
  Call-IsAscending :
      {s t : Store}
      → Call digest ontology token_of grace s t
      → IsAscending s.graph
      → IsAscending t.graph
  unfolding restore_fenced
  Call-IsAscending {s} {t} (step st) a =
      IsAscending-Grows s.graph t.graph (Step-Grows digest ontology token_of grace st) a
  Call-IsAscending (roll_back s r lease now) a =
      fenced_cases (λ u. IsAscending u.graph) s (check_lease_current s.lease_table lease now) _ a
        (restore_graph-IsAscending now s.graph r a)

  -- Whatever is called on a store in memory, in whatever order, rollbacks among the calls: where the LSNs
  -- along each history of a memory or an edge ascend from above 0 to at most the store's LSN, as they do in an
  -- empty store, they do so ever after.
  pub Reach-IsAscending :
      {s t : Store}
      → Reach (Call digest ontology token_of grace) s t
      → IsAscending s.graph
      → IsAscending t.graph
  Reach-IsAscending here a = a
  Reach-IsAscending (next r c) a = Call-IsAscending c (Reach-IsAscending r a)

-- ===== src/Storage/Store/Rollback/Histories.antt =====
-- The histories that `restore_fenced` of in_memory.rs leaves.
use exocortex.Common.{
  ℕ, ◌≡◌, refl, sym, ap, ◌∙◌, Bool-cases, inl, inr, Bool, not, ◌&&◌, Option, none, some, List, [],
  ◌∷◌, if◌then◌else◌, ◌==◌, ==_iff, any, arith, filter, filter-filter, filter_same, filter_cong,
  filter_whole, length, nat_key, lookup, insert, remove, history, lookup-insert, lookup-remove,
  get_last?,
}
use exocortex.Kernel.Relationship.{Relationship}
use exocortex.Storage.Rows.{Memory}
use exocortex.Storage.Owned.{LsnMap, has_lsn, owns}
use exocortex.Storage.Journal.{FencedRestore}
use exocortex.Storage.InMemory.{Graph}
use exocortex.Storage.InMemory.History.{publish-rows}
use exocortex.Storage.Store.Rollback.{
  Restored, kept_memories, kept_edges, restore_versions, restore_memory_found, restore_memories,
  restored_edge, restore_edge_found, restore_edges, restored, restore_graph,
}

-- What a restore leaves of a memory's and of an edge's history.
abbrev pub disowned : LsnMap → ℕ → List Memory → List Memory
disowned owned id versions = filter (λ (m : Memory). not (owns owned id m.lsn)) versions

abbrev pub disowned_edges : LsnMap → ℕ → List Relationship → List Relationship
disowned_edges owned id versions = filter (λ (r : Relationship). not (owns owned id r.lsn)) versions

-- One key of a map is given the rest of its history.
history-insert :
    {V : Type 0} (j k : ℕ) (vs : List V) (m : List (ℕ × List V))
    → history j (insert k vs m) ≡ (if k == j then vs else history j m)
unfolding history
history-insert j k vs m = ground (arith, lookup-insert j k vs m)

history-remove :
    {V : Type 0} (j k : ℕ) (m : List (ℕ × List V))
    → history j (remove k m) ≡ (if k == j then [] else history j m)
unfolding history
history-remove j k m = ground (arith, lookup-remove j k m)

restore_versions-history :
    (now : ℕ) (s : Restored) (k id : ℕ) (vs : List Memory)
    → history k (restore_versions now s id vs).memories
      ≡ (if id == k then vs else history k s.memories)
restore_versions-history now s k id [] = history-remove k id s.memories
restore_versions-history now s k id (m ∷ ms) = history-insert k id (m ∷ ms) s.memories

last_none : {V : Type 0} (vs : List V) → get_last? vs ≡ none → vs ≡ []
last_none [] h = refl
last_none (v ∷ []) h = cc
last_none (v ∷ w ∷ ws) h = ground (arith, last_none (w ∷ ws) h)

restored_edge-history :
    (now : ℕ) (s : Restored) (k id : ℕ) (vs : List Relationship) (o : Option Relationship)
    → get_last? vs ≡ o
    → history k (restored_edge now s id vs o).rels ≡ (if id == k then vs else history k s.rels)
restored_edge-history now s k id vs none e = rw (last_none vs e) (history-remove k id s.rels)
restored_edge-history now s k id vs (some r) e = history-insert k id vs s.rels

restore_memory_found-history :
    (now : ℕ) (s : Restored) (k id : ℕ) (owned : List ℕ) (o : Option (List Memory))
    → lookup id s.memories ≡ o
    → history k (restore_memory_found now s id owned o).memories
      ≡ (if id == k then kept_memories owned (history k s.memories) else history k s.memories)
unfolding history filter
restore_memory_found-history now s k id owned none e = ground (arith, e, ==_iff id k)
restore_memory_found-history now s k id owned (some vs) e =
    let kept = kept_memories owned vs in
    elim (Bool-cases (length kept == length vs)) [
      | inl same ↦ rw same (
          ground (
            arith,
            e,
            ==_iff id k,
            ==_iff (length kept) (length vs),
            same,
            filter_same (λ (m : Memory). not (has_lsn m.lsn owned)) vs,
          ))
      | inr fewer ↦
          rw fewer (restore_versions-history now s k id kept ∙ ground (arith, e, ==_iff id k))
    ]

restore_edge_found-history :
    (now : ℕ) (s : Restored) (k id : ℕ) (owned : List ℕ) (o : Option (List Relationship))
    → lookup id s.rels ≡ o
    → history k (restore_edge_found now s id owned o).rels
      ≡ (if id == k then kept_edges owned (history k s.rels) else history k s.rels)
unfolding history filter
restore_edge_found-history now s k id owned none e = ground (arith, e, ==_iff id k)
restore_edge_found-history now s k id owned (some vs) e =
    let kept = kept_edges owned vs in
    elim (Bool-cases (length kept == length vs)) [
      | inl same ↦ rw same (
          ground (
            arith,
            e,
            ==_iff id k,
            ==_iff (length kept) (length vs),
            same,
            filter_same (λ (r : Relationship). not (has_lsn r.lsn owned)) vs,
          ))
      | inr fewer ↦ rw fewer (
          restored_edge-history now s k id kept (get_last? kept) refl
          ∙ ground (arith, e, ==_iff id k))
    ]

-- An entry's filter before the filter of the entries after it.
module _ {V : Type 0} (lsn_of : V → ℕ) (k id : ℕ) (owned : List ℕ) (rest : LsnMap) where
  filter-entry :
      (vs : List V)
      → filter
          (λ v. not (owns rest k (lsn_of v)))
          (if id == k then filter (λ v. not (has_lsn (lsn_of v) owned)) vs else vs)
        ≡ filter (λ v. not (owns ((id, owned) ∷ rest) k (lsn_of v))) vs
  unfolding any
  filter-entry vs =
      let p : V → Bool = λ v. not (owns rest k (lsn_of v)) in
      let q : V → Bool = λ v. not (has_lsn (lsn_of v) owned) in
      let both : V → Bool = λ v. not (owns ((id, owned) ∷ rest) k (lsn_of v)) in
      elim (Bool-cases (id == k)) [
        | inl same ↦
            ap (filter p) (ground (arith, same))
            ∙ filter-filter p q vs
            ∙ filter_cong (λ v. q v && p v) both vs (λ v. ground (arith, same))
        | inr other ↦
            ap (filter p) (ground (arith, other))
            ∙ filter_cong p both vs (λ v. ground (arith, other))
      ]

restore_memories-history :
    (now : ℕ) (s : Restored) (owned : LsnMap) (k : ℕ)
    → history k (restore_memories now s owned).memories ≡ disowned owned k (history k s.memories)
unfolding restore_memories any
restore_memories-history now s [] k = sym (filter_whole _ (history k s.memories) (λ m. refl))
restore_memories-history now s ((id, lsns) ∷ rest) k =
    let found = restore_memory_found now s id lsns (lookup id s.memories) in
    restore_memories-history now found rest k
    ∙ ap (disowned rest k)
        (restore_memory_found-history now s k id lsns (lookup id s.memories) refl)
    ∙ filter-entry (λ (m : Memory). m.lsn) k id lsns rest (history k s.memories)

restore_edges-history :
    (now : ℕ) (s : Restored) (owned : LsnMap) (k : ℕ)
    → history k (restore_edges now s owned).rels ≡ disowned_edges owned k (history k s.rels)
unfolding restore_edges any
restore_edges-history now s [] k = sym (filter_whole _ (history k s.rels) (λ r. refl))
restore_edges-history now s ((id, lsns) ∷ rest) k =
    let found = restore_edge_found now s id lsns (lookup id s.rels) in
    restore_edges-history now found rest k
    ∙ ap (disowned_edges rest k)
        (restore_edge_found-history now s k id lsns (lookup id s.rels) refl)
    ∙ filter-entry (λ (r : Relationship). r.lsn) k id lsns rest (history k s.rels)

-- A loop leaves the other map alone.
restore_versions-rels :
    (now : ℕ) (s : Restored) (id : ℕ) (vs : List Memory)
    → (restore_versions now s id vs).rels ≡ s.rels
restore_versions-rels now s id [] = refl
restore_versions-rels now s id (m ∷ ms) = refl

restore_memory_found-rels :
    (now : ℕ) (s : Restored) (id : ℕ) (lsns : List ℕ) (o : Option (List Memory))
    → (restore_memory_found now s id lsns o).rels ≡ s.rels
restore_memory_found-rels now s id lsns none = refl
restore_memory_found-rels now s id lsns (some vs) =
    elim (Bool-cases (length (kept_memories lsns vs) == length vs)) [
      | inl same ↦ rw same refl
      | inr fewer ↦ rw fewer (restore_versions-rels now s id (kept_memories lsns vs))
    ]

restore_memories-rels :
    (now : ℕ) (s : Restored) (owned : LsnMap) → (restore_memories now s owned).rels ≡ s.rels
unfolding restore_memories
restore_memories-rels now s [] = refl
restore_memories-rels now s ((id, lsns) ∷ rest) =
    restore_memories-rels now (restore_memory_found now s id lsns (lookup id s.memories)) rest
    ∙ restore_memory_found-rels now s id lsns (lookup id s.memories)

restored_edge-memories :
    (now : ℕ) (s : Restored) (id : ℕ) (vs : List Relationship) (o : Option Relationship)
    → (restored_edge now s id vs o).memories ≡ s.memories
restored_edge-memories now s id vs none = refl
restored_edge-memories now s id vs (some r) = refl

restore_edge_found-memories :
    (now : ℕ) (s : Restored) (id : ℕ) (lsns : List ℕ) (o : Option (List Relationship))
    → (restore_edge_found now s id lsns o).memories ≡ s.memories
restore_edge_found-memories now s id lsns none = refl
restore_edge_found-memories now s id lsns (some vs) =
    let kept = kept_edges lsns vs in
    elim (Bool-cases (length kept == length vs)) [
      | inl same ↦ rw same refl
      | inr fewer ↦ rw fewer (restored_edge-memories now s id kept (get_last? kept))
    ]

restore_edges-memories :
    (now : ℕ) (s : Restored) (owned : LsnMap) → (restore_edges now s owned).memories ≡ s.memories
unfolding restore_edges
restore_edges-memories now s [] = refl
restore_edges-memories now s ((id, lsns) ∷ rest) =
    restore_edges-memories now (restore_edge_found now s id lsns (lookup id s.rels)) rest
    ∙ restore_edge_found-memories now s id lsns (lookup id s.rels)

-- A rollback takes from the history of each memory and of each edge the versions whose LSNs the journal
-- owns at its id, keeps the others in their order, and changes no other history.
pub restore_graph-histories :
    (now : ℕ) (g : Graph) (r : FencedRestore) (k : ℕ)
    → (history k (restore_graph now g r).memories
        ≡ filter (λ (m : Memory). not (owns r.owned_memory_lsns k m.lsn)) (history k g.memories))
      × (history k (restore_graph now g r).rels
          ≡ filter
              (λ (e : Relationship). not (owns r.owned_relationship_lsns k e.lsn))
              (history k g.rels))
unfolding restore_graph restored
restore_graph-histories now g r k =
    let start : Restored = record {
      next = g.lsn;
      memories = g.memories;
      rels = g.rels;
      records = [];
      invalidations = [];
    } in
    let mid = restore_memories now start r.owned_memory_lsns in
    let final = restore_edges now mid r.owned_relationship_lsns in
    let rows =
      publish-rows (record g { lsn = final.next; memories = final.memories; rels = final.rels })
        final.invalidations in
    (
      ap (history k) (rows.0 ∙ restore_edges-memories now mid r.owned_relationship_lsns)
          ∙ restore_memories-history now start r.owned_memory_lsns k,
      ap (history k) rows.1
          ∙ restore_edges-history now mid r.owned_relationship_lsns k
          ∙ ap (λ m. disowned_edges r.owned_relationship_lsns k (history k m))
              (restore_memories-rels now start r.owned_memory_lsns),
    )

-- ===== src/Dreams/Cycle/Tracking.antt =====
-- What a cycle keeps: its writes can be taken back from its own journal and from the stored one.
use exocortex.Common.{
  some-not_none, ℕ, ◌≡◌, refl, sym, ap, ◌∙◌, String, Bool, true, not, ◌||◌, none, some, Bytes, any,
  arith, nat_key, filter, filter_cong, filter_whole, history, map,
}
use exocortex.Kernel.Ontology.{Ontology}
use exocortex.Kernel.Relationship.{Relationship}
use exocortex.Storage.Rows.{Memory, LeaseKey, lease_key}
use exocortex.Storage.Owned.{LsnMap, owns, extend_owned, owns-extend_owned}
use exocortex.Storage.Journal.{
  FencedRestore, CycleJournalRecord, active, merge, if_active, get_active_cycle_journal,
}
use exocortex.Storage.InMemory.History.{IsAscending, IsAscending-Grows}
use exocortex.Storage.Leases.{OwnerLease}
use exocortex.Storage.Store.{Store, FencedBatchCommit}
use exocortex.Storage.Store.Settle.{restore_of}
use exocortex.Storage.Store.Rollback.Journaled.{
  restore_at, Journaled, upsert_batch_fenced_journaled-Journaled,
}
use exocortex.Storage.Store.Rollback.Undo.{Journaled-memories, Journaled-edges}
use exocortex.Dreams.Journal.{
  CycleJournal, new_journal, record_memory, record_relationship, create_memory, create_relationship,
  prepare_relationship_writes, record_commit, restore,
}
use exocortex.Dreams.Cycle.{
  Cycle, begun, noted_memory, noted_relationship, created_memory, created_relationship, prepared,
  wrote,
}
use exocortex.Dreams.Cycle.Notes.{
  SameOwned, record_memory-same, create_memory-same, record_relationship-same,
  create_relationship-same, prepare_writes-same,
}

-- What is left of the histories of `t` without the LSNs of a restore are the histories of `s`.
pub record Undoes (s t : Store) (memory_lsns relationship_lsns : LsnMap) : Type 0 where
  pub memories :
      (k : ℕ)
      → filter (λ (m : Memory). not (owns memory_lsns k m.lsn)) (history k t.graph.memories)
        ≡ history k s.graph.memories
  pub edges :
      (k : ℕ)
      → filter (λ (r : Relationship). not (owns relationship_lsns k r.lsn)) (history k t.graph.rels)
        ≡ history k s.graph.rels

-- The stored journal of the lease's key names no row of the store.
abbrev pub IsClean : LeaseKey → Store → Type 0
IsClean key s =
    Undoes s s (restore_at s key).owned_memory_lsns (restore_at s key).owned_relationship_lsns

pub record Tracks (s : Store) (key : LeaseKey) (t : Store) (j : CycleJournal) : Type 0 where
  pub ascending : IsAscending t.graph
  pub stored :
      Undoes s t (restore_at t key).owned_memory_lsns (restore_at t key).owned_relationship_lsns
  pub noted : Undoes s t j.owned_memory_lsns j.owned_relationship_lsns
  pub memories_included :
      (k l : ℕ)
      → owns j.owned_memory_lsns k l ≡ true
      → owns (restore_at t key).owned_memory_lsns k l ≡ true
  pub edges_included :
      (k l : ℕ)
      → owns j.owned_relationship_lsns k l ≡ true
      → owns (restore_at t key).owned_relationship_lsns k l ≡ true
  pub idle : get_active_cycle_journal t.cycles key ≡ none → t ≡ s

Tracks-same :
    (s t : Store) (key : LeaseKey) (j k : CycleJournal)
    → SameOwned j k
    → Tracks s key t j
    → Tracks s key t k
Tracks-same s t key j k same h = record {
  ascending = h.ascending;
  stored = h.stored;
  noted = subst2 same.0 same.1 h.noted;
  memories_included = λ i l e. h.memories_included i l (ap (λ m. owns m i l) (sym same.0) ∙ e);
  edges_included = λ i l e. h.edges_included i l (ap (λ m. owns m i l) (sym same.1) ∙ e);
  idle = h.idle;
}
  where
    subst2 : {m n p q : LsnMap} → n ≡ m → q ≡ p → Undoes s t m p → Undoes s t n q
    subst2 {m} {n} {p} {q} a b u = record {
      memories = λ i.
          ap (λ x. filter (λ (v : Memory). not (owns x i v.lsn)) (history i t.graph.memories)) a
          ∙ u.memories i;
      edges = λ i.
          ap (λ x. filter (λ (v : Relationship). not (owns x i v.lsn)) (history i t.graph.rels)) b
          ∙ u.edges i;
    }

Tracks-begun :
    (s : Store) (key : LeaseKey) (cycle_id : String)
    → IsAscending s.graph
    → IsClean key s
    → Tracks s key s (new_journal cycle_id)
unfolding any
Tracks-begun s key cycle_id ascending clean = record {
  ascending = ascending;
  stored = clean;
  noted = record {
    memories = λ k. filter_whole _ (history k s.graph.memories) (λ m. refl);
    edges = λ k. filter_whole _ (history k s.graph.rels) (λ r. refl);
  };
  memories_included = λ k l h. cc;
  edges_included = λ k l h. cc;
  idle = λ h. refl;
}

included_or : (a b : Bool) → (b ≡ true → a ≡ true) → not (a || b) ≡ not a
included_or a b h = ground (arith, h)

active_journal : (j : CycleJournalRecord) → j.state ≡ active → if_active (some j) ≡ some j
active_journal j e = rw e refl

Tracks-wrote :
    (s t u : Store) (lease : OwnerLease) (cycle_id : String) (j : CycleJournal)
    (commit : FencedBatchCommit)
    → Journaled t (restore j) cycle_id lease commit u
    → Tracks s lease.key t j
    → Tracks s lease.key u (record_commit j commit)
unfolding merge restore record_commit get_active_cycle_journal
Tracks-wrote s t u lease cycle_id j commit w h =
    let old = restore_at t lease.key in
    let e = ap restore_of w.found ∙ w.restore in
    let ms = extend_owned old.owned_memory_lsns j.owned_memory_lsns in
    let rs = extend_owned old.owned_relationship_lsns j.owned_relationship_lsns in
    record {
      ascending = IsAscending-Grows t.graph u.graph w.grows h.ascending;
      stored = record {
        memories = λ k.
            ap
              (λ (r : FencedRestore).
                filter (λ (m : Memory). not (owns r.owned_memory_lsns k m.lsn))
                  (history k u.graph.memories))
              e
            ∙ Journaled-memories t u (restore j) cycle_id lease commit h.ascending w ms
                (extend_owned ms commit.memory_lsns)
                (λ i l. owns-extend_owned i l ms commit.memory_lsns) k
            ∙ filter_cong _ _ (history k t.graph.memories) (λ m.
              ap not (owns-extend_owned k m.lsn old.owned_memory_lsns j.owned_memory_lsns)
              ∙ included_or _ _ (h.memories_included k m.lsn))
            ∙ h.stored.memories k;
        edges = λ k.
            ap
              (λ (r : FencedRestore).
                filter (λ (m : Relationship). not (owns r.owned_relationship_lsns k m.lsn))
                  (history k u.graph.rels))
              e
            ∙ Journaled-edges t u (restore j) cycle_id lease commit h.ascending w rs
                (extend_owned rs commit.relationship_lsns)
                (λ i l. owns-extend_owned i l rs commit.relationship_lsns) k
            ∙ filter_cong _ _ (history k t.graph.rels) (λ m.
              ap not
                (owns-extend_owned k m.lsn old.owned_relationship_lsns j.owned_relationship_lsns)
              ∙ included_or _ _ (h.edges_included k m.lsn))
            ∙ h.stored.edges k;
      };
      noted = record {
        memories = λ k.
            Journaled-memories t u (restore j) cycle_id lease commit h.ascending w
              j.owned_memory_lsns (extend_owned j.owned_memory_lsns commit.memory_lsns)
              (λ i l. owns-extend_owned i l j.owned_memory_lsns commit.memory_lsns) k
            ∙ h.noted.memories k;
        edges = λ k.
            Journaled-edges t u (restore j) cycle_id lease commit h.ascending w
              j.owned_relationship_lsns
              (extend_owned j.owned_relationship_lsns commit.relationship_lsns)
              (λ i l. owns-extend_owned i l j.owned_relationship_lsns commit.relationship_lsns) k
            ∙ h.noted.edges k;
      };
      memories_included = λ k l own.
          ap (λ (r : FencedRestore). owns r.owned_memory_lsns k l) e
          ∙ ground (
            arith,
            own,
            owns-extend_owned k l ms commit.memory_lsns,
            owns-extend_owned k l old.owned_memory_lsns j.owned_memory_lsns,
            owns-extend_owned k l j.owned_memory_lsns commit.memory_lsns,
          );
      edges_included = λ k l own.
          ap (λ (r : FencedRestore). owns r.owned_relationship_lsns k l) e
          ∙ ground (
            arith,
            own,
            owns-extend_owned k l rs commit.relationship_lsns,
            owns-extend_owned k l old.owned_relationship_lsns j.owned_relationship_lsns,
            owns-extend_owned k l j.owned_relationship_lsns commit.relationship_lsns,
          );
      idle = λ none_active. absurd (
          some-not_none
            (sym (ap if_active w.found ∙ active_journal w.journal w.is_open) ∙ none_active));
    }

module _ (digest : Bytes → ℕ) (ontology : Ontology) where
  -- A cycle's writes can be taken back, wherever it is.
  pub Cycle-Tracks :
      (lease : OwnerLease) (cycle_id : String) {s t : Store} {j : CycleJournal}
      → Cycle digest ontology lease cycle_id s t j
      → IsAscending s.graph
      → IsClean lease.key s
      → Tracks s lease.key t j
  unfolding prepare_relationship_writes
  Cycle-Tracks lease cycle_id {s} begun a b = Tracks-begun s lease.key cycle_id a b
  Cycle-Tracks lease cycle_id {s} {t} (noted_memory {j = j} c m) a b =
      Tracks-same s t lease.key j (record_memory j m) (record_memory-same j m)
        (Cycle-Tracks lease cycle_id c a b)
  Cycle-Tracks lease cycle_id {s} {t} (noted_relationship {j = j} c r) a b =
      Tracks-same s t lease.key j (record_relationship j r) (record_relationship-same j r)
        (Cycle-Tracks lease cycle_id c a b)
  Cycle-Tracks lease cycle_id {s} {t} (created_memory {j = j} c m) a b =
      Tracks-same s t lease.key j (create_memory j m) (create_memory-same j m)
        (Cycle-Tracks lease cycle_id c a b)
  Cycle-Tracks lease cycle_id {s} {t} (created_relationship {j = j} c r) a b =
      Tracks-same s t lease.key j (create_relationship j r) (create_relationship-same j r)
        (Cycle-Tracks lease cycle_id c a b)
  Cycle-Tracks lease cycle_id {s} {t} (prepared {j = j} c writes current) a b =
      Tracks-same s t lease.key j (prepare_relationship_writes digest ontology j writes current)
        (prepare_writes-same digest ontology j (map (λ (r : Relationship). r.id) writes) writes
          current)
        (Cycle-Tracks lease cycle_id c a b)
  Cycle-Tracks lease cycle_id {s} (wrote {t = t} {u = u} {j = j} c ms rs now commit e) a b =
      Tracks-wrote s t u lease cycle_id j commit
        (upsert_batch_fenced_journaled-Journaled digest ontology t u ms rs (restore j) cycle_id
          lease now commit e)
        (Cycle-Tracks lease cycle_id c a b)

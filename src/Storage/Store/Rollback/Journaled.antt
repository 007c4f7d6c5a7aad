-- ===== src/Storage/Store/Rollback/Journaled.antt =====
-- What a journaled batch of in_memory.rs leaves to roll back.
use exocortex.Common.{
  err-not_ok, ok_injective, ℕ, ◌≡◌, refl, sym, ap, ap₂, ◌∙◌, subst, Bool-cases, inl, inr, String,
  ◌||◌, some, List, [], ◌∷◌, Result, ok, err, if-eq_of_false, if-eq_of_true, any, arith, Bytes,
  nat_key, lookup, lookup-insert_here,
}
use exocortex.Kernel.Ontology.{Ontology}
use exocortex.Kernel.Relationship.{Relationship}
use exocortex.Storage.Rows.{
  Memory, CommitRecord, Invalidation, memory_upserted, memory_deleted, relationship_upserted,
  relationship_deleted, discovery_available, StorageError, LeaseKey, lease_key, same_lease_iff,
}
use exocortex.Storage.Owned.{owns, owns-own}
use exocortex.Storage.Journal.{FencedRestore, CycleJournalRecord, active, is_foreign}
use exocortex.Storage.InMemory.{Graph, publish, upsert_batch_locked}
use exocortex.Storage.InMemory.History.{Grows, Grows-trans, publish-Grows, publish-rows}
use exocortex.Storage.InMemory.Batches.{upsert_batch_locked-Grows}
use exocortex.Storage.InMemory.Written.{
  wrote_memory, wrote_edge, noted_memories, noted_edges, Appends, Written,
  upsert_batch_locked-Written,
}
use exocortex.Storage.InMemory.History.{memory_lsn, edge_lsn}
use exocortex.Storage.Leases.{OwnerLease, check_lease_current}
use exocortex.Storage.Store.{Store, FencedBatchCommit, note_lsn, note_lsns, fenced}
use exocortex.Storage.Store.Settle.{
  restore_of, journal_restore, record_journal, committed_lsns, journal_written,
  upsert_batch_fenced_journaled,
}

-- The LSNs of a commit are those of its events.
note_lsn-memories :
    (c : FencedBatchCommit) (i : Invalidation) (k l : ℕ)
    → owns (note_lsn c i).memory_lsns k l ≡ (owns c.memory_lsns k l || wrote_memory k l i)
unfolding any
note_lsn-memories c (memory_upserted id lsn) k l =
    owns-own k l id (lsn ∷ []) c.memory_lsns ∙ ground arith
note_lsn-memories c (memory_deleted id lsn) k l = ground arith
note_lsn-memories c (relationship_upserted id from to kind lsn) k l = ground arith
note_lsn-memories c (relationship_deleted id lsn) k l = ground arith
note_lsn-memories c (discovery_available found lsn) k l = ground arith

note_lsn-edges :
    (c : FencedBatchCommit) (i : Invalidation) (k l : ℕ)
    → owns (note_lsn c i).relationship_lsns k l ≡ (owns c.relationship_lsns k l || wrote_edge k l i)
unfolding any
note_lsn-edges c (memory_upserted id lsn) k l = ground arith
note_lsn-edges c (memory_deleted id lsn) k l = ground arith
note_lsn-edges c (relationship_upserted id from to kind lsn) k l =
    owns-own k l id (lsn ∷ []) c.relationship_lsns ∙ ground arith
note_lsn-edges c (relationship_deleted id lsn) k l = ground arith
note_lsn-edges c (discovery_available found lsn) k l = ground arith

note_lsns-memories :
    (c : FencedBatchCommit) (is : List Invalidation) (k l : ℕ)
    → owns (note_lsns c is).memory_lsns k l ≡ (owns c.memory_lsns k l || noted_memories is k l)
unfolding note_lsns any
note_lsns-memories c [] k l = ground arith
note_lsns-memories c (i ∷ is) k l =
    ground (arith, note_lsns-memories (note_lsn c i) is k l, note_lsn-memories c i k l)

note_lsns-edges :
    (c : FencedBatchCommit) (is : List Invalidation) (k l : ℕ)
    → owns (note_lsns c is).relationship_lsns k l
      ≡ (owns c.relationship_lsns k l || noted_edges is k l)
unfolding note_lsns any
note_lsns-edges c [] k l = ground arith
note_lsns-edges c (i ∷ is) k l =
    ground (arith, note_lsns-edges (note_lsn c i) is k l, note_lsn-edges c i k l)

-- The restore that the key's journal has.
abbrev pub restore_at : Store → LeaseKey → FencedRestore
restore_at s key = restore_of (lookup key s.cycles.cycle_journals)

pub record Journaled (s : Store) (prepared : FencedRestore) (cycle_id : String) (lease : OwnerLease)
    (commit : FencedBatchCommit) (t : Store) : Type 0 where
  pub grows : Grows s.graph t.graph
  pub events : List Invalidation
  pub written : Written s.graph t.graph.lsn t.graph.memories t.graph.rels events
  pub memories : (k l : ℕ) → owns commit.memory_lsns k l ≡ noted_memories events k l
  pub edges : (k l : ℕ) → owns commit.relationship_lsns k l ≡ noted_edges events k l
  pub journal : CycleJournalRecord
  pub found : lookup lease.key t.cycles.cycle_journals ≡ some journal
  pub is_open : journal.state ≡ active
  pub restore : journal.restore ≡ journal_restore (restore_at s lease.key) prepared commit

publish-Written :
    (g h : Graph) (is events : List Invalidation)
    → Written g h.lsn h.memories h.rels events
    → Written g (publish h is).lsn (publish h is).memories (publish h is).rels events
publish-Written g h is events w =
    let rows = publish-rows h is in
    record {
      next_lsn = omega (arith, w.next_lsn, (publish-Grows h is).lsn);
      memory_rows =
          subst (Appends memory_lsn (noted_memories events) g.memories) (sym rows.0) w.memory_rows;
      edge_rows = subst (Appends edge_lsn (noted_edges events) g.rels) (sym rows.1) w.edge_rows;
      fresh = w.fresh;
    }

pub fenced-ok :
    {A : Type 0} (s t : Store) (r : Result StorageError (Unit {0}))
    (w : Store × Result StorageError A) (a : A)
    → fenced s r w ≡ (t, ok a)
    → w ≡ (t, ok a)
fenced-ok s t (ok u) w a h = h
fenced-ok s t (err e) w a h = absurd (err-not_ok (ap (λ x. x.1) h))

module _ (digest : Bytes → ℕ) (ontology : Ontology) where
  journal_written-Journaled :
      (s t : Store) (ms : List Memory) (rs : List Relationship) (now : ℕ) (prepared : FencedRestore)
      (cycle_id : String) (lease : OwnerLease) (g : Graph)
      (r : Result StorageError (List CommitRecord × List Invalidation)) (commit : FencedBatchCommit)
      → upsert_batch_locked digest ontology s.graph ms rs now ≡ (g, r)
      → journal_written s prepared cycle_id lease (g, r) ≡ (t, ok commit)
      → Journaled s prepared cycle_id lease commit t
  unfolding record_journal any
  journal_written-Journaled s t ms rs now prepared cycle_id lease g (err e) commit w h =
      absurd (err-not_ok (ap (λ x. x.1) h))
  journal_written-Journaled s t ms rs now prepared cycle_id lease g (ok (records, is)) commit w h =
      let done = committed_lsns records is in
      let start : FencedBatchCommit = record {
        records = records;
        memory_lsns = [];
        relationship_lsns = [];
      } in
      let stored : Store = record s {
        graph = publish g is;
        cycles = record_journal s prepared cycle_id lease done;
      } in
      let journaled : Journaled s prepared cycle_id lease done stored = record {
        grows =
            Grows-trans s.graph g (publish g is)
              (subst (λ x. Grows s.graph x) (ap (λ x. x.0) w)
                (upsert_batch_locked-Grows digest ontology s.graph ms rs now))
              (publish-Grows g is);
        events = is;
        written =
            publish-Written s.graph g is is
              (upsert_batch_locked-Written digest ontology s.graph g ms rs now records is w);
        memories = note_lsns-memories start is;
        edges = note_lsns-edges start is;
        journal = record {
          cycle_id = cycle_id;
          journal_key = lease.key;
          lease_epoch = lease.epoch;
          restore = journal_restore (restore_at s lease.key) prepared done;
          state = active;
        };
        found =
            lookup-insert_here lease.key lease.key _ s.cycles.cycle_journals
              ((same_lease_iff lease.key lease.key).1 refl);
        is_open = refl;
        restore = refl;
      } in
      subst (λ (p : FencedBatchCommit × Store). Journaled s prepared cycle_id lease p.0 p.1)
        (ap₂ (λ (c : FencedBatchCommit) (u : Store). (c, u)) (ok_injective (ap (λ x. x.1) h))
          (ap (λ x. x.0) h))
        journaled

  pub upsert_batch_fenced_journaled-Journaled :
      (s t : Store) (ms : List Memory) (rs : List Relationship) (prepared : FencedRestore)
      (cycle_id : String) (lease : OwnerLease) (now : ℕ) (commit : FencedBatchCommit)
      → upsert_batch_fenced_journaled digest ontology s ms rs prepared cycle_id lease now
        ≡ (t, ok commit)
      → Journaled s prepared cycle_id lease commit t
  unfolding upsert_batch_fenced_journaled
  upsert_batch_fenced_journaled-Journaled s t ms rs prepared cycle_id lease now commit h =
      let current = fenced-ok s t (check_lease_current s.lease_table lease now) _ commit h in
      elim (Bool-cases (is_foreign cycle_id (lookup lease.key s.cycles.cycle_journals))) [
        | inl foreign ↦ absurd (err-not_ok (ap (λ x. x.1) (if-eq_of_true _ _ _ foreign current)))
        | inr own ↦
            let w = upsert_batch_locked digest ontology s.graph ms rs now in
            journal_written-Journaled s t ms rs now prepared cycle_id lease w.0 w.1 commit refl
              (if-eq_of_false _ _ _ own current)
      ]

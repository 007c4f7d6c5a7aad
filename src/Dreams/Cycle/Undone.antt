-- ===== src/Dreams/Cycle/Undone.antt =====
-- A consolidation cycle that did not end well is undone.
use exocortex.Common.{
  some-not_none, ℕ, ◌≡◌, refl, sym, ap, ◌∙◌, subst, Bool-cases, Option-cases, inl, inr, String,
  Bool, true, not, Option, none, some, List, [], ◌∷◌, Result, ok, err, Bytes, any, arith, nat_key,
  eq_iff, lookup, insert, lookup-insert_here, filter, filter-filter, filter_cong, filter_whole,
  history,
}
use exocortex.Kernel.Ontology.{Ontology}
use exocortex.Kernel.Relationship.{Relationship}
use exocortex.Storage.Rows.{Memory, StorageError, LeaseKey, lease_key, same_lease_iff}
use exocortex.Storage.Owned.{LsnMap, owns}
use exocortex.Storage.Journal.{
  FencedRestore, CycleJournalRecord, completed, is_active, if_active, get_active_cycle_journal,
}
use exocortex.Storage.InMemory.{Graph}
use exocortex.Storage.Store.Cases.Cycles.{complete_cycle_journal_fenced_cases}
use exocortex.Storage.InMemory.History.{IsAscending}
use exocortex.Storage.Leases.{OwnerLease, check_lease_current}
use exocortex.Storage.Store.{Store}
use exocortex.Storage.Store.Settle.{restore_of, complete_cycle_journal_fenced}
use exocortex.Storage.Store.Rollback.{restore_graph, restored, restore_fenced}
use exocortex.Storage.Store.Rollback.Histories.{restore_graph-histories}
use exocortex.Dreams.Journal.{CycleJournal, restore, is_empty, has_none}
use exocortex.Dreams.Recovery.{
  recover_active_cycle, CycleError, FinishError, finish_completed, finish_cycle,
}
use exocortex.Dreams.Cycle.{Cycle}
use exocortex.Dreams.Cycle.Tracking.{Undoes, IsClean, Tracks, Cycle-Tracks}

-- The histories of `s` and no unfinished cycle, in a store from which another cycle can be undone.
pub record Restored (s : Store) (key : LeaseKey) (u : Store) : Type 0 where
  pub memories : (k : ℕ) → history k u.graph.memories ≡ history k s.graph.memories
  pub edges : (k : ℕ) → history k u.graph.rels ≡ history k s.graph.rels
  pub idle : get_active_cycle_journal u.cycles key ≡ none
  pub clean : IsClean key u

filter-twice {ℓ} : {A : Type ℓ} (p : A → Bool) (xs : List A) → filter p (filter p xs) ≡ filter p xs
filter-twice p xs = filter-filter p p xs ∙ filter_cong _ p xs (λ x. ground arith)

-- The store after a rollback by `r` and the completion of the journal `done`.
abbrev pub rolled_back : Store → LeaseKey → ℕ → FencedRestore → CycleJournalRecord → Store
rolled_back t key now r journal = record t {
  graph = restore_graph now t.graph r;
  cycles = record t.cycles {
    cycle_journals = insert key (record journal { state = completed }) t.cycles.cycle_journals;
  };
}

complete_rolled_back :
    (t : Store) (owner : OwnerLease) (now later : ℕ) (r : FencedRestore)
    (journal : CycleJournalRecord)
    → lookup owner.key t.cycles.cycle_journals ≡ some journal
    → check_lease_current t.lease_table owner now ≡ ok tt
    → check_lease_current t.lease_table owner later ≡ ok tt
    → (restore_fenced t r owner now
        ≡ (record t { graph = restore_graph now t.graph r }, ok (restored now t.graph r).records))
      × (complete_cycle_journal_fenced
            (record t { graph = restore_graph now t.graph r })
            journal.cycle_id
            owner
            later
          ≡ (rolled_back t owner.key now r journal, ok tt))
unfolding restore_fenced complete_cycle_journal_fenced
complete_rolled_back t owner now later r journal found first second = (
  rw first refl,
  rw (second, found) (rw ((eq_iff journal.cycle_id journal.cycle_id).1 refl) refl),
)

rolled_back-Restored :
    (s t : Store) (key : LeaseKey) (now : ℕ) (journal : CycleJournalRecord)
    → Undoes s t journal.restore.owned_memory_lsns journal.restore.owned_relationship_lsns
    → Restored s key (rolled_back t key now journal.restore journal)
unfolding get_active_cycle_journal
rolled_back-Restored s t key now journal h =
    let r = journal.restore in
    let done : CycleJournalRecord = record journal { state = completed } in
    let stored =
      lookup-insert_here key key done t.cycles.cycle_journals ((same_lease_iff key key).1 refl) in
    let rows = restore_graph-histories now t.graph r in
    record {
      memories = λ k. (rows k).0 ∙ h.memories k;
      edges = λ k. (rows k).1 ∙ h.edges k;
      idle = ap if_active stored;
      clean = record {
        memories = λ k.
            let p : FencedRestore → Memory → Bool = λ x m. not (owns x.owned_memory_lsns k m.lsn) in
            let new = history k (restore_graph now t.graph r).memories in
            ap (λ o. filter (p (restore_of o)) new) stored
            ∙ ap (filter (p r)) (rows k).0
            ∙ filter-twice (p r) (history k t.graph.memories)
            ∙ sym (rows k).0;
        edges = λ k.
            let p : FencedRestore → Relationship → Bool =
              λ x m. not (owns x.owned_relationship_lsns k m.lsn) in
            let new = history k (restore_graph now t.graph r).rels in
            ap (λ o. filter (p (restore_of o)) new) stored
            ∙ ap (filter (p r)) (rows k).1
            ∙ filter-twice (p r) (history k t.graph.rels)
            ∙ sym (rows k).1;
      };
    }

if_active-some :
    (o : Option CycleJournalRecord) (j : CycleJournalRecord) → if_active o ≡ some j → o ≡ some j
if_active-some none j h = absurd (some-not_none (sym h))
if_active-some (some i) j h = elim (Bool-cases (is_active i.state)) [
  | inl live ↦ ground (arith, live, h)
  | inr done ↦ absurd (some-not_none (sym h ∙ ground (arith, done)))
]

finish_completed-store :
    (error : CycleError) (s : Store) (r : Result StorageError (Unit {0}))
    → (finish_completed error (s, r)).0 ≡ s
finish_completed-store error s (ok u) = refl
finish_completed-store error s (err e) = refl

filter-owned_none :
    {V : Type 0} (m : LsnMap) (k : ℕ) (lsn_of : V → ℕ) (vs : List V)
    → has_none m ≡ true
    → filter (λ v. not (owns m k (lsn_of v))) vs ≡ vs
unfolding any
filter-owned_none [] k lsn_of vs h = filter_whole _ vs (λ v. refl)
filter-owned_none (e ∷ m) k lsn_of vs h = cc

module _ (digest : Bytes → ℕ) (ontology : Ontology) (lease owner : OwnerLease) (cycle_id : String)
    (s t : Store) (j : CycleJournal) where
  -- The owner's key is the lease's.
  Cycle-Tracks_owner :
      Cycle digest ontology lease cycle_id s t j
      → owner.key ≡ lease.key
      → IsAscending s.graph
      → IsClean owner.key s
      → Tracks s owner.key t j
  Cycle-Tracks_owner run same ascending clean =
      subst (λ k. Tracks s k t j) (sym same)
        (Cycle-Tracks digest ontology lease cycle_id run ascending
          (subst (λ k. IsClean k s) same clean))

  -- A crash of a consolidation is undone. Let a cycle start in a store whose histories ascend and whose
  -- journal of the lease's key names no row, and write what it likes with no other writer. Whatever
  -- store the crash leaves, a holder of a lease of that key that is current recovers it: the recovery
  -- succeeds, every history of a memory and of an edge is the one before the cycle, no unfinished
  -- cycle is left, and the journal again names no row.
  pub recover_active_cycle-undoes :
      (now later : ℕ)
      → Cycle digest ontology lease cycle_id s t j
      → owner.key ≡ lease.key
      → IsAscending s.graph
      → IsClean owner.key s
      → check_lease_current t.lease_table owner now ≡ ok tt
      → check_lease_current t.lease_table owner later ≡ ok tt
      → (u : Store) × (recover_active_cycle t owner.key owner now later ≡ (u, ok tt))
        × Restored s owner.key u
  unfolding recover_active_cycle
  recover_active_cycle-undoes now later run same ascending clean first second =
      let tracks = Cycle-Tracks_owner run same ascending clean in
      elim (Option-cases (get_active_cycle_journal t.cycles owner.key)) [
        | inl idle ↦ (
          t,
          rw idle refl,
          subst (Restored s owner.key) (sym (tracks.idle idle)) (record {
            memories = λ k. refl;
            edges = λ k. refl;
            idle =
                ap (λ (x : Store). get_active_cycle_journal x.cycles owner.key)
                  (sym (tracks.idle idle))
                ∙ idle;
            clean = clean;
          }),
        )
        | inr (journal, live) ↦
            let found =
              if_active-some (lookup owner.key t.cycles.cycle_journals) journal
                (unfold get_active_cycle_journal in live) in
            let steps =
              complete_rolled_back t owner now later journal.restore journal found first second in
            (
              rolled_back t owner.key now journal.restore journal,
              rw live (rw (steps.0) (rw (steps.1) refl)),
              rolled_back-Restored s t owner.key now journal (
                  subst
                    (λ (r : FencedRestore).
                      Undoes s t r.owned_memory_lsns r.owned_relationship_lsns)
                    (ap restore_of found) tracks.stored),
            )
      ]

  completed_or_not :
      (u : Store) (error : CycleError) (later : ℕ)
      → (finish_completed error (complete_cycle_journal_fenced u j.cycle_id owner later)).0.graph
        ≡ u.graph
  completed_or_not u error later =
      let w = complete_cycle_journal_fenced u j.cycle_id owner later in
      ap (λ (x : Store). x.graph) (finish_completed-store error w.0 w.1)
      ∙ complete_cycle_journal_fenced_cases (λ x. x.graph ≡ u.graph) u j.cycle_id owner later refl
          (λ i. refl)

  -- A consolidation that fails is undone by its own engine. Let a cycle start in a store whose histories
  -- ascend and whose journal of the lease's key names no row, and write what it likes with no other
  -- writer. If it then ends with an error, under a lease of that key that is current, every history of
  -- a memory and of an edge is the one before the cycle, whether the journal can be completed or not.
  -- A cycle that ends well is left as it is.
  pub finish_cycle-undoes :
      {A : Type 0} (error : CycleError) (result : A) (now later : ℕ)
      → Cycle digest ontology lease cycle_id s t j
      → owner.key ≡ lease.key
      → IsAscending s.graph
      → IsClean owner.key s
      → check_lease_current t.lease_table owner now ≡ ok tt
      → ((k : ℕ)
          → let failed : Store × Result FinishError A =
              finish_cycle t (err error) j owner now later in
            (history k failed.0.graph.memories ≡ history k s.graph.memories)
            × (history k failed.0.graph.rels ≡ history k s.graph.rels))
        × (finish_cycle t (ok result) j owner now later ≡ (t, ok result))
  unfolding finish_cycle restore_fenced restore
  finish_cycle-undoes {A} error result now later run same ascending clean current =
      let tracks = Cycle-Tracks_owner run same ascending clean in
      (
        elim (Bool-cases (is_empty j)) [
          | inl empty ↦ λ k. rw empty (
            sym (
                  filter-owned_none j.owned_memory_lsns k (λ (m : Memory). m.lsn)
                    (history k t.graph.memories) (ground (arith, empty)))
                ∙ tracks.noted.memories k,
            sym (
                  filter-owned_none j.owned_relationship_lsns k (λ (r : Relationship). r.lsn)
                    (history k t.graph.rels) (ground (arith, empty)))
                ∙ tracks.noted.edges k,
          )
          | inr some_rows ↦ λ k.
              rw (some_rows, current)
                (let u : Store = record t { graph = restore_graph now t.graph (restore j) } in
                  let rows = restore_graph-histories now t.graph (restore j) k in
                  (
                    ap (λ (g : Graph). history k g.memories) (completed_or_not u error later)
                        ∙ rows.0
                        ∙ tracks.noted.memories k,
                    ap (λ (g : Graph). history k g.rels) (completed_or_not u error later)
                        ∙ rows.1
                        ∙ tracks.noted.edges k,
                  ))
        ],
        refl,
      )

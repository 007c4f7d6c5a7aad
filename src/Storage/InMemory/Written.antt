-- ===== src/Storage/InMemory/Written.antt =====
-- The rows that a batch of in_memory.rs writes, and the events that name them.
use mathlib.Core.List.{append_assoc, append-nil}
use exocortex.Common.{
  err-not_ok, ok_injective, ℕ, ◌+◌, ◌<◌, ◌≤◌, ◌≡◌, refl, sym, ap, ap₂, subst, ◌∙◌, Bool-cases, inl,
  inr, Bool, true, false, ◌&&◌, Option, none, some, List, [], ◌∷◌, ◌++◌, ok, if-eq_of_false,
  if-eq_of_true, any, arith, Bytes, ◌==◌, ==_iff, nat_key, All, All-append, All-mono, push, history,
  history-push,
}
use exocortex.Kernel.Ontology.{Ontology}
use exocortex.Kernel.Relationship.{Relationship, materialize_inverse}
use exocortex.Storage.Rows.{
  Memory, CommitRecord, Invalidation, memory_upserted, memory_deleted, relationship_upserted,
  relationship_deleted, discovery_available,
}
use exocortex.Storage.InMemory.{
  Graph, Staged, stage_memory, stage_edge, stage_inverse, stage_memories, stage_relationship,
  stage_relationships, stage_batch, upsert_batch_locked, endpoint_missing,
}
use exocortex.Storage.InMemory.History.{memory_lsn, edge_lsn}
use exocortex.Storage.InMemory.Lsns.{event_lsn}

-- The event says that the row with the LSN was written at the id.
abbrev pub wrote_memory : ℕ → ℕ → Invalidation → Bool
wrote_memory k l (memory_upserted id lsn) = id == k && lsn == l
wrote_memory k l (memory_deleted id lsn) = false
wrote_memory k l (relationship_upserted id from to kind lsn) = false
wrote_memory k l (relationship_deleted id lsn) = false
wrote_memory k l (discovery_available found lsn) = false

abbrev pub wrote_edge : ℕ → ℕ → Invalidation → Bool
wrote_edge k l (memory_upserted id lsn) = false
wrote_edge k l (memory_deleted id lsn) = false
wrote_edge k l (relationship_upserted id from to kind lsn) = id == k && lsn == l
wrote_edge k l (relationship_deleted id lsn) = false
wrote_edge k l (discovery_available found lsn) = false

-- Every history of `m` is one of `old` and rows that are noted.
abbrev pub Appends {ℓ} :
    {V : Type ℓ} → (V → ℕ) → (ℕ → ℕ → Bool) → List (ℕ × List V) → List (ℕ × List V) → Type ℓ
Appends {V} lsn_of noted old m =
    (k : ℕ)
    → (new : List V) × (history k m ≡ history k old ++ new)
      × All (λ v. noted k (lsn_of v) ≡ true) new

module _ {ℓ} {V : Type ℓ} (lsn_of : V → ℕ) (noted also : ℕ → ℕ → Bool)
    (more : (k l : ℕ) → noted k l ≡ true → also k l ≡ true) where
  Appends-mono :
      (old m : List (ℕ × List V)) → Appends lsn_of noted old m → Appends lsn_of also old m
  Appends-mono old m h k =
      let (new, e, all) = h k in
      (
        new,
        e,
        All-mono (λ v. noted k (lsn_of v) ≡ true) (λ v. also k (lsn_of v) ≡ true) new
            (λ v. more k (lsn_of v)) all,
      )

  Appends-push :
      (old m : List (ℕ × List V)) (id : ℕ) (v : V)
      → also id (lsn_of v) ≡ true
      → Appends lsn_of noted old m
      → Appends lsn_of also old (push id v m)
  Appends-push old m id v one h k =
      let (new, e, all) = Appends-mono old m h k in
      elim (Bool-cases (id == k)) [
        | inl here ↦
            let same : id ≡ k = (==_iff id k).0 here in
            (
              new ++ v ∷ [],
              history-push k id v m
                  ∙ rw here (ap (λ i. history i m ++ v ∷ []) same ∙ ap (λ vs. vs ++ v ∷ []) e)
                  ∙ append_assoc (history k old) new (v ∷ []),
              All-append (λ w. also k (lsn_of w) ≡ true) new (v ∷ []) all
                  (ap (λ i. also i (lsn_of v)) (sym same) ∙ one, tt),
            )
        | inr other ↦ (new, history-push k id v m ∙ rw other e, all)
      ]

snoc-before :
    (p : Invalidation → Bool) (is : List Invalidation) (i : Invalidation)
    → any p is ≡ true
    → any p (is ++ i ∷ []) ≡ true
unfolding any
snoc-before p [] i h = cc
snoc-before p (j ∷ is) i h = ground (arith, h, snoc-before p is i)

snoc-last :
    (p : Invalidation → Bool) (is : List Invalidation) (i : Invalidation)
    → p i ≡ true
    → any p (is ++ i ∷ []) ≡ true
unfolding any
snoc-last p [] i h = ground (arith, h)
snoc-last p (j ∷ is) i h = ground (arith, snoc-last p is i h)

abbrev pub noted_memories : List Invalidation → ℕ → ℕ → Bool
noted_memories events k l = any (wrote_memory k l) events

abbrev pub noted_edges : List Invalidation → ℕ → ℕ → Bool
noted_edges events k l = any (wrote_edge k l) events

-- What staging keeps: each row that it adds has an event, and each event an LSN above the graph's.
pub record Written (g : Graph) (next : ℕ) (memories : List (ℕ × List Memory))
    (rels : List (ℕ × List Relationship)) (events : List Invalidation) : Type 0 where
  pub next_lsn : g.lsn ≤ next
  pub memory_rows : Appends memory_lsn (noted_memories events) g.memories memories
  pub edge_rows : Appends edge_lsn (noted_edges events) g.rels rels
  pub fresh : All (λ i. g.lsn < event_lsn i) events

abbrev IsWritten : Graph → Staged → Type 0
IsWritten g s = Written g s.next s.memories s.rels s.invalidations

itself : (k l : ℕ) → (k == k && l == l) ≡ true
itself k l = ground (arith, (==_iff k k).1 refl, (==_iff l l).1 refl)

stage_memory-IsWritten :
    (g : Graph) (now : ℕ) (s : Staged) (m : Memory)
    → IsWritten g s
    → IsWritten g (stage_memory now s m)
unfolding stage_memory
stage_memory-IsWritten g now s m h =
    let is = s.invalidations in
    let i : Invalidation = memory_upserted m.id (s.next + 1) in
    record {
      next_lsn = omega (arith, h.next_lsn);
      memory_rows =
          Appends-push memory_lsn (noted_memories is) (noted_memories (is ++ i ∷ []))
            (λ k l. snoc-before (wrote_memory k l) is i) g.memories s.memories m.id
            (record m { lsn = s.next + 1 })
            (snoc-last (wrote_memory m.id (s.next + 1)) is i (itself m.id (s.next + 1)))
            h.memory_rows;
      edge_rows =
          Appends-mono edge_lsn (noted_edges is) (noted_edges (is ++ i ∷ []))
            (λ k l. snoc-before (wrote_edge k l) is i) g.rels s.rels h.edge_rows;
      fresh =
          All-append (λ i. g.lsn < event_lsn i) is (i ∷ []) h.fresh (omega (arith, h.next_lsn), tt);
    }

stage_edge-IsWritten :
    (g : Graph) (now : ℕ) (s : Staged) (r : Relationship)
    → IsWritten g s
    → IsWritten g (stage_edge now s r)
unfolding stage_edge
stage_edge-IsWritten g now s r h =
    let is = s.invalidations in
    let i : Invalidation = relationship_upserted r.id r.from r.to r.kind (s.next + 1) in
    record {
      next_lsn = omega (arith, h.next_lsn);
      memory_rows =
          Appends-mono memory_lsn (noted_memories is) (noted_memories (is ++ i ∷ []))
            (λ k l. snoc-before (wrote_memory k l) is i) g.memories s.memories h.memory_rows;
      edge_rows =
          Appends-push edge_lsn (noted_edges is) (noted_edges (is ++ i ∷ []))
            (λ k l. snoc-before (wrote_edge k l) is i) g.rels s.rels r.id
            (record r { lsn = s.next + 1 })
            (snoc-last (wrote_edge r.id (s.next + 1)) is i (itself r.id (s.next + 1))) h.edge_rows;
      fresh =
          All-append (λ i. g.lsn < event_lsn i) is (i ∷ []) h.fresh (omega (arith, h.next_lsn), tt);
    }

stage_inverse-IsWritten :
    (g : Graph) (now : ℕ) (s : Staged) (o : Option Relationship)
    → IsWritten g s
    → IsWritten g (stage_inverse now s o)
unfolding stage_inverse
stage_inverse-IsWritten g now s none h = h
stage_inverse-IsWritten g now s (some inv) h =
    elim (Bool-cases (any (λ i. i == inv.id) s.seen_relationships)) [
      | inl seen ↦ rw seen h
      | inr new ↦ rw new (
          stage_edge-IsWritten g now
            (record s { seen_relationships = inv.id ∷ s.seen_relationships }) inv
            (record {
              next_lsn = h.next_lsn;
              memory_rows = h.memory_rows;
              edge_rows = h.edge_rows;
              fresh = h.fresh;
            }))
    ]

stage_memories-IsWritten :
    (g : Graph) (now : ℕ) (s : Staged) (ms : List Memory)
    → IsWritten g s
    → IsWritten g (stage_memories now s ms)
unfolding stage_memories
stage_memories-IsWritten g now s [] h = h
stage_memories-IsWritten g now s (m ∷ ms) h =
    stage_memories-IsWritten g now (stage_memory now s m) ms (stage_memory-IsWritten g now s m h)

module _ (digest : Bytes → ℕ) (ontology : Ontology) where
  stage_relationships-IsWritten :
      (g : Graph) (now : ℕ) (s : Staged) (rs : List Relationship)
      → IsWritten g s
      → IsWritten g (stage_relationships digest ontology now s rs)
  unfolding stage_relationships stage_relationship
  stage_relationships-IsWritten g now s [] h = h
  stage_relationships-IsWritten g now s (r ∷ rs) h =
      let inv = materialize_inverse digest ontology (record r { lsn = s.next + 1 }) in
      stage_relationships-IsWritten g now (stage_inverse now (stage_edge now s r) inv) rs
        (stage_inverse-IsWritten g now (stage_edge now s r) inv (stage_edge-IsWritten g now s r h))

  stage_batch-IsWritten :
      (g : Graph) (ms : List Memory) (rs : List Relationship) (now : ℕ)
      → IsWritten g (stage_batch digest ontology g ms rs now)
  unfolding stage_batch
  stage_batch-IsWritten g ms rs now = stage_relationships-IsWritten g now _ rs (
      stage_memories-IsWritten g now _ ms (record {
        next_lsn = omega arith;
        memory_rows = λ k. ([], sym (append-nil (history k g.memories)), tt);
        edge_rows = λ k. ([], sym (append-nil (history k g.rels)), tt);
        fresh = tt;
      }))

  -- What a batch that commits writes: rows that its events name, with LSNs that the graph did not have.
  pub upsert_batch_locked-Written :
      (g h : Graph) (ms : List Memory) (rs : List Relationship) (now : ℕ)
      (records : List CommitRecord) (events : List Invalidation)
      → upsert_batch_locked digest ontology g ms rs now ≡ (h, ok (records, events))
      → Written g h.lsn h.memories h.rels events
  unfolding upsert_batch_locked
  upsert_batch_locked-Written g h ms rs now records events e =
      elim (Bool-cases (any (endpoint_missing g.memories ms) rs)) [
        | inl missing ↦ absurd (err-not_ok (ap (λ p. p.1) (if-eq_of_true _ _ _ missing e)))
        | inr found ↦
            let e' = if-eq_of_false _ _ _ found e in
            let named = ok_injective (ap (λ p. p.1) e') in
            subst (λ (p : Graph × List Invalidation). Written g p.0.lsn p.0.memories p.0.rels p.1)
              (ap₂ (λ (a : Graph) (b : List Invalidation). (a, b)) (ap (λ p. p.0) e')
                (ap (λ p. p.1) named))
              (stage_batch-IsWritten g ms rs now)
      ]

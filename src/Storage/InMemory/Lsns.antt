-- ===== src/Storage/InMemory/Lsns.antt =====
-- The LSNs that a batch of in_memory.rs draws.
use exocortex.Common.{
  ℕ, ◌+◌, ◌≡◌, ◌⊎◌, refl, sym, ap, ap₂, ◌∙◌, Bool-cases, inl, inr, Option, none, some, List, [],
  ◌∷◌, ◌++◌, Result, ok, err, if-eq_of_false, if-eq_of_true, any, arith, Bytes, length,
  length-append, map, ◌==◌,
}
use mathlib.Core.List.{map-append}
use exocortex.Kernel.Ontology.{Ontology}
use exocortex.Kernel.Relationship.{Relationship, materialize_inverse}
use exocortex.Storage.Rows.{
  Memory, CommitRecord, Invalidation, memory_upserted, memory_deleted, relationship_upserted,
  relationship_deleted, discovery_available, StorageError,
}
use exocortex.Storage.InMemory.{
  Graph, commit_record, Staged, stage_memory, stage_edge, stage_inverse, stage_memories,
  stage_relationship, stage_relationships, stage_batch, upsert_batch_locked, endpoint_missing,
}

-- `n` is the LSN before the first of the records, and each record has the one after.
abbrev pub Consecutive : ℕ → List CommitRecord → Type 0
Consecutive n [] = Unit
Consecutive n (r ∷ rs) = (r.lsn ≡ n + 1) × Consecutive (n + 1) rs

abbrev pub event_lsn : Invalidation → ℕ
event_lsn (memory_upserted id lsn) = lsn
event_lsn (memory_deleted id lsn) = lsn
event_lsn (relationship_upserted id from to kind lsn) = lsn
event_lsn (relationship_deleted id lsn) = lsn
event_lsn (discovery_available found lsn) = lsn

abbrev pub record_lsn : CommitRecord → ℕ
record_lsn r = r.lsn

Consecutive-snoc :
    (n last : ℕ) (rs : List CommitRecord) (r : CommitRecord)
    → Consecutive n rs
    → n + length rs ≡ last
    → r.lsn ≡ last + 1
    → Consecutive n (rs ++ r ∷ [])
Consecutive-snoc n last [] r h e l = (omega (arith, e, l), tt)
Consecutive-snoc n last (x ∷ rs) r h e l =
    (h.0, Consecutive-snoc (n + 1) last rs r h.1 (omega (arith, e)) l)

-- What the staging keeps: the records are numbered from `base` on, and the events like the records.
record Numbered (base : ℕ) (s : Staged) : Type 0 where
  records : Consecutive base s.records
  next : base + length s.records ≡ s.next
  events : map event_lsn s.invalidations ≡ map record_lsn s.records

-- One more record and its event.
Numbered-add :
    (base now : ℕ) (s t : Staged) (i : Invalidation)
    → Numbered base s
    → t.next ≡ s.next + 1
    → t.records ≡ s.records ++ commit_record (s.next + 1) now ∷ []
    → t.invalidations ≡ s.invalidations ++ i ∷ []
    → event_lsn i ≡ s.next + 1
    → Numbered base t
Numbered-add base now s t i h next records events lsn = record {
  records = rw records (
      Consecutive-snoc base s.next s.records (commit_record (s.next + 1) now) h.records h.next
        refl);
  next = omega (
    arith,
    h.next,
    next,
    ap (λ (l : List CommitRecord). length l) records,
    length-append s.records (commit_record (s.next + 1) now ∷ []),
  );
  events =
      ap (map event_lsn) events
      ∙ map-append event_lsn s.invalidations (i ∷ [])
      ∙ ap₂ (λ xs (n : ℕ). xs ++ n ∷ []) h.events lsn
      ∙ sym (map-append record_lsn s.records (commit_record (s.next + 1) now ∷ []))
      ∙ ap (map record_lsn) (sym records);
}

stage_memory-Numbered :
    (base now : ℕ) (s : Staged) (m : Memory)
    → Numbered base s
    → Numbered base (stage_memory now s m)
stage_memory-Numbered base now s m h =
    Numbered-add base now s (stage_memory now s m) (memory_upserted m.id (s.next + 1)) h
      (unfold stage_memory in refl) (unfold stage_memory in refl) (unfold stage_memory in refl) refl

stage_edge-Numbered :
    (base now : ℕ) (s : Staged) (r : Relationship)
    → Numbered base s
    → Numbered base (stage_edge now s r)
stage_edge-Numbered base now s r h =
    Numbered-add base now s (stage_edge now s r)
      (relationship_upserted r.id r.from r.to r.kind (s.next + 1)) h (unfold stage_edge in refl)
      (unfold stage_edge in refl) (unfold stage_edge in refl) refl

stage_inverse-Numbered :
    (base now : ℕ) (s : Staged) (o : Option Relationship)
    → Numbered base s
    → Numbered base (stage_inverse now s o)
unfolding stage_inverse
stage_inverse-Numbered base now s none h = h
stage_inverse-Numbered base now s (some inv) h =
    elim (Bool-cases (any (λ i. i == inv.id) s.seen_relationships)) [
      | inl seen ↦ rw seen h
      | inr new ↦ rw new (
          stage_edge-Numbered base now
            (record s { seen_relationships = inv.id ∷ s.seen_relationships }) inv
            (record { records = h.records; next = h.next; events = h.events }))
    ]

stage_memories-Numbered :
    (base now : ℕ) (s : Staged) (ms : List Memory)
    → Numbered base s
    → Numbered base (stage_memories now s ms)
unfolding stage_memories
stage_memories-Numbered base now s [] h = h
stage_memories-Numbered base now s (m ∷ ms) h =
    stage_memories-Numbered base now (stage_memory now s m) ms
      (stage_memory-Numbered base now s m h)

module _ (digest : Bytes → ℕ) (ontology : Ontology) where
  stage_relationships-Numbered :
      (base now : ℕ) (s : Staged) (rs : List Relationship)
      → Numbered base s
      → Numbered base (stage_relationships digest ontology now s rs)
  unfolding stage_relationships stage_relationship
  stage_relationships-Numbered base now s [] h = h
  stage_relationships-Numbered base now s (r ∷ rs) h =
      let inv = materialize_inverse digest ontology (record r { lsn = s.next + 1 }) in
      stage_relationships-Numbered base now (stage_inverse now (stage_edge now s r) inv) rs (
        stage_inverse-Numbered base now (stage_edge now s r) inv
          (stage_edge-Numbered base now s r h))

  stage_batch-Numbered :
      (g : Graph) (ms : List Memory) (rs : List Relationship) (now : ℕ)
      → Numbered g.lsn (stage_batch digest ontology g ms rs now)
  unfolding stage_batch
  stage_batch-Numbered g ms rs now = stage_relationships-Numbered g.lsn now _ rs (
      stage_memories-Numbered g.lsn now _ ms
        (record { records = tt; next = omega arith; events = refl }))

  -- A batch that commits draws consecutive LSNs from the one after the graph's, one for each record;
  -- the last is the graph's new LSN, and the events carry the LSNs of the records, in their order. A
  -- batch that fails leaves the graph as it was.
  pub upsert_batch_locked-lsns :
      (g h : Graph) (ms : List Memory) (rs : List Relationship) (now : ℕ)
      (r : Result StorageError (List CommitRecord × List Invalidation))
      → upsert_batch_locked digest ontology g ms rs now ≡ (h, r)
      → ((e : StorageError) × (r ≡ err e) × (h ≡ g))
        ⊎ ((records : List CommitRecord) × (events : List Invalidation) × (r ≡ ok (records, events))
            × Consecutive g.lsn records
            × (h.lsn ≡ g.lsn + length records)
            × (map event_lsn events ≡ map record_lsn records))
  unfolding upsert_batch_locked
  upsert_batch_locked-lsns g h ms rs now r e =
      let staged = stage_batch digest ontology g ms rs now in
      let n = stage_batch-Numbered g ms rs now in
      elim (Bool-cases (any (endpoint_missing g.memories ms) rs)) [
        | inl missing ↦
            let e' = if-eq_of_true _ _ _ missing e in
            inl (_, ap (λ p. p.1) (sym e'), ap (λ p. p.0) (sym e'))
        | inr found ↦
            let e' = if-eq_of_false _ _ _ found e in
            inr (
              staged.records,
              staged.invalidations,
              ap (λ p. p.1) (sym e'),
              n.records,
              ap (λ p. p.0.lsn) (sym e') ∙ sym n.next,
              n.events,
            )
      ]

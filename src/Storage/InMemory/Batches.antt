-- ===== src/Storage/InMemory/Batches.antt =====
-- The batches of the store in memory only ever add to its histories.
use exocortex.Common.{
  ℕ, ◌+◌, ◌≤◌, Bool-cases, inl, inr, Option, none, some, List, [], ◌∷◌, Result, ok, err, ◌==◌, any,
  arith, Bytes, map, nat_key, lookup,
}
use exocortex.Kernel.Ontology.{Ontology}
use exocortex.Kernel.Relationship.{Relationship, materialize_inverse}
use exocortex.Storage.Rows.{Memory, CommitRecord, Invalidation, StorageError}
use exocortex.Storage.InMemory.{
  Graph, publish, upsert_relationship_row_locked, last_edge, Staged, stage_memory, stage_edge,
  stage_inverse, stage_memories, stage_relationship, stage_relationships, stage_batch,
  upsert_batch_locked, upsert_batch, publish_batch, write_companion, upsert_relationship,
  endpoint_missing, is_current,
}
use exocortex.Storage.InMemory.History.{
  memory_lsn, edge_lsn, Extends, Extends-refl, Extends-trans, push-Extends, Grows, Grows-refl,
  Grows-trans, publish-Grows, row-Grows,
}

-- What staging keeps of the variables that stage a batch.
pub record Stages (s t : Staged) : Type 0 where
  pub memories : Extends memory_lsn s.next t.next s.memories t.memories
  pub rels : Extends edge_lsn s.next t.next s.rels t.rels
  pub next : s.next ≤ t.next

Stages-refl : (s : Staged) → Stages s s
Stages-refl s = record {
  memories = Extends-refl s.memories (omega arith);
  rels = Extends-refl s.rels (omega arith);
  next = omega arith;
}

Stages-trans : (s t u : Staged) → Stages s t → Stages t u → Stages s u
Stages-trans s t u a b = record {
  memories = Extends-trans s.memories t.memories u.memories a.memories b.memories;
  rels = Extends-trans s.rels t.rels u.rels a.rels b.rels;
  next = omega (arith, a.next, b.next);
}

stage_memory-Stages : (now : ℕ) (s : Staged) (m : Memory) → Stages s (stage_memory now s m)
unfolding stage_memory
stage_memory-Stages now s m = record {
  memories =
      push-Extends m.id (record m { lsn = s.next + 1 }) s.memories (omega arith) (omega arith);
  rels = Extends-refl s.rels (omega arith);
  next = omega arith;
}

stage_edge-Stages : (now : ℕ) (s : Staged) (r : Relationship) → Stages s (stage_edge now s r)
unfolding stage_edge
stage_edge-Stages now s r = record {
  memories = Extends-refl s.memories (omega arith);
  rels = push-Extends r.id (record r { lsn = s.next + 1 }) s.rels (omega arith) (omega arith);
  next = omega arith;
}

stage_inverse-Stages :
    (now : ℕ) (s : Staged) (o : Option Relationship) → Stages s (stage_inverse now s o)
unfolding stage_inverse
stage_inverse-Stages now s none = Stages-refl s
stage_inverse-Stages now s (some inv) =
    elim (Bool-cases (any (λ i. i == inv.id) s.seen_relationships)) [
      | inl seen ↦ rw seen (Stages-refl s)
      | inr new ↦ rw new (
          let t : Staged = record s { seen_relationships = inv.id ∷ s.seen_relationships } in
          let a : Stages t (stage_edge now t inv) = stage_edge-Stages now t inv in
          record { memories = a.memories; rels = a.rels; next = a.next })
    ]

stage_memories-Stages :
    (now : ℕ) (s : Staged) (ms : List Memory) → Stages s (stage_memories now s ms)
unfolding stage_memories
stage_memories-Stages now s [] = Stages-refl s
stage_memories-Stages now s (m ∷ ms) =
    Stages-trans s (stage_memory now s m) (stage_memories now (stage_memory now s m) ms)
      (stage_memory-Stages now s m) (stage_memories-Stages now (stage_memory now s m) ms)

module _ (digest : Bytes → ℕ) (ontology : Ontology) where
  stage_relationships-Stages :
      (now : ℕ) (s : Staged) (rs : List Relationship)
      → Stages s (stage_relationships digest ontology now s rs)
  unfolding stage_relationships stage_relationship
  stage_relationships-Stages now s [] = Stages-refl s
  stage_relationships-Stages now s (r ∷ rs) =
      let t = stage_edge now s r in
      let inv = materialize_inverse digest ontology (record r { lsn = s.next + 1 }) in
      let u = stage_inverse now t inv in
      Stages-trans s u (stage_relationships digest ontology now u rs)
        (Stages-trans s t u (stage_edge-Stages now s r) (stage_inverse-Stages now t inv))
        (stage_relationships-Stages now u rs)

  pub upsert_batch_locked-Grows :
      (g : Graph) (ms : List Memory) (rs : List Relationship) (now : ℕ)
      → Grows g (upsert_batch_locked digest ontology g ms rs now).0
  unfolding upsert_batch_locked stage_batch
  upsert_batch_locked-Grows g ms rs now =
      elim (Bool-cases (any (endpoint_missing g.memories ms) rs)) [
        | inl missing ↦ rw missing (Grows-refl g)
        | inr found ↦ rw found (
            let start : Staged = record {
              next = g.lsn;
              memories = g.memories;
              rels = g.rels;
              records = [];
              invalidations = [];
              seen_relationships = map (λ (r : Relationship). r.id) rs;
            } in
            let t = stage_memories now start ms in
            let a : Stages start (stage_relationships digest ontology now t rs) =
              Stages-trans start t (stage_relationships digest ontology now t rs)
                (stage_memories-Stages now start ms) (stage_relationships-Stages now t rs) in
            record { memories = a.memories; rels = a.rels; lsn = a.next })
      ]

  pub publish_batch-Grows :
      (f g : Graph) (r : Result StorageError (List CommitRecord × List Invalidation))
      → Grows f g
      → Grows f (publish_batch digest ontology (g, r)).0
  publish_batch-Grows f g (ok (records, is)) a =
      Grows-trans f g (publish g is) a (publish-Grows g is)
  publish_batch-Grows f g (err e) a = a

  pub upsert_batch-Grows :
      (g : Graph) (ms : List Memory) (rs : List Relationship) (now : ℕ)
      → Grows g (upsert_batch digest ontology g ms rs now).0
  unfolding upsert_batch
  upsert_batch-Grows g ms rs now =
      let written = upsert_batch_locked digest ontology g ms rs now in
      publish_batch-Grows g written.0 written.1 (upsert_batch_locked-Grows g ms rs now)

  write_companion-Grows :
      (g : Graph) (now : ℕ) (o : Option Relationship)
      → Grows g (write_companion digest ontology g now o)
  write_companion-Grows g now none = Grows-refl g
  write_companion-Grows g now (some inv) =
      elim (Bool-cases (is_current (last_edge (lookup inv.id g.rels)))) [
        | inl current ↦ rw current (Grows-refl g)
        | inr stale ↦ rw stale (row-Grows g inv now)
      ]

  pub upsert_relationship-Grows :
      (g : Graph) (r : Relationship) (now : ℕ)
      → Grows g (upsert_relationship digest ontology g r now).0
  unfolding upsert_relationship
  upsert_relationship-Grows g r now =
      let row = (upsert_relationship_row_locked g r now).0 in
      Grows-trans g row
        (write_companion digest ontology row now (materialize_inverse digest ontology r))
        (row-Grows g r now) (write_companion-Grows row now (materialize_inverse digest ontology r))

-- ===== src/Kernel/Relationship/Inverse.antt =====
-- The materialised inverse of relationship.rs, taken twice.
use exocortex.Common.{ℕ, ◌≡◌, ◌≢◌, refl, false, none, some, Bytes, arith}
use exocortex.Kernel.Kinds.{RelMeta}
use exocortex.Kernel.Ontology.{Ontology, get}
use exocortex.Kernel.Relationship.{Relationship, derive, inverse_of, materialize_inverse}

-- An inverse edge swaps the endpoints, keeps visibility, provenance and validity, is never of the
-- edge's own kind and is stored as a directed edge.
pub materialize_inverse_lem :
    (digest : Bytes → ℕ) (o : Ontology) (r s : Relationship)
    → materialize_inverse digest o r ≡ some s
    → (s.from ≡ r.to)
      × (s.to ≡ r.from)
      × (s.kind ≢ r.kind)
      × (s.visibility ≡ r.visibility)
      × (s.provenance ≡ r.provenance)
      × (s.valid_until ≡ r.valid_until)
      × (s.bidirectional ≡ false)
      × (s.id ≡ derive digest r.to s.kind r.from none)
unfolding materialize_inverse
materialize_inverse_lem digest o r s h = ground arith

-- Where two different kinds of the ontology are each other's inverse and neither is bidirectional, the
-- inverse of an edge of one kind exists: a directed edge of the other kind with the endpoints
-- swapped, the id derived from them, and the visibility, provenance, lsn and end of validity of the
-- first. Its inverse exists too, with the endpoints and the kind of the first edge, and the id that is
-- derived from those.
pub materialize_inverse-twice :
    (digest : Bytes → ℕ) (o : Ontology) (r : Relationship) (k j : RelMeta)
    → get r.kind o.kinds_by_id ≡ some k
    → k.inverse ≡ some j.id
    → k.bidirectional ≡ false
    → j.id ≢ r.kind
    → get j.id o.kinds_by_id ≡ some j
    → j.inverse ≡ some r.kind
    → j.bidirectional ≡ false
    → (s t : Relationship) × (materialize_inverse digest o r ≡ some s)
      × (s.from ≡ r.to)
      × (s.to ≡ r.from)
      × (s.kind ≡ j.id)
      × (s.id ≡ derive digest r.to j.id r.from none)
      × (s.bidirectional ≡ false)
      × (s.visibility ≡ r.visibility)
      × (s.provenance ≡ r.provenance)
      × (s.lsn ≡ r.lsn)
      × (s.valid_until ≡ r.valid_until)
      × (materialize_inverse digest o s ≡ some t)
      × (t.kind ≡ r.kind)
      × (t.from ≡ r.from)
      × (t.to ≡ r.to)
      × (t.id ≡ derive digest r.from r.kind r.to none)
unfolding materialize_inverse
materialize_inverse-twice digest o r k j at_k ik bk ne at_j ij bj =
    let s : Relationship = inverse_of digest r j.id in
    (
      s,
      inverse_of digest s r.kind,
      ground arith,
      refl,
      refl,
      refl,
      refl,
      refl,
      refl,
      refl,
      refl,
      refl,
      ground arith,
      refl,
      refl,
      refl,
      refl,
    )

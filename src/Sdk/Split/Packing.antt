-- ===== src/Sdk/Split/Packing.antt =====
-- The packing of split.rs: what a batch may hold.
use exocortex.Common.{
  ℕ, ◌+◌, ◌≤◌, ◌≡◌, refl, ap, subst, ◌∙◌, Bool-cases, inl, inr, String, true, List, [], ◌∷◌, Result,
  ok, err, every, ltb, arith, All, All-append, length, length-append, >>=-eq-ok, length-sort_by,
  if-eq_of_true, if-eq_of_false, ltb_false→le,
}
use exocortex.Wire.Limits.{max_memories_per_batch, max_edges_per_batch}
use exocortex.Sdk.Rows.{SdkError, DraftMemory, RelationshipDraft, IngestBatch, BatchUnit}
use exocortex.Sdk.Split.{
  Component, Components, Packer, all_memories, all_relationships, is_empty, flush, component_bytes,
  check_component, overflows, push_component, make_room, pack, key_after, edge_after,
}
use exocortex.Sdk.Split.Entries.{AllRows}
use exocortex.Sdk.Split.Cohesion.{is_closed, IsClosed}
use exocortex.Sdk.Split.Closed.{
  is_closed-append, is_closed-sort_by, all_memories-snoc, all_relationships-snoc,
}

-- The counts that the server accepts, with every edge beside both its drafts.
abbrev pub IsAdmissible : IngestBatch → Type 0
IsAdmissible b =
    (length b.memories ≤ max_memories_per_batch)
    × (length b.relationships ≤ max_edges_per_batch)
    × (is_closed b.memories b.relationships ≡ true)

-- What the packing loop keeps.
pub record Packed (s : Packer) : Type 0 where
  pub out : All IsAdmissible s.out
  pub closed : is_closed (all_memories s.pending) (all_relationships s.pending) ≡ true
  pub memories : length (all_memories s.pending) ≡ s.pending_memories
  pub edges : length (all_relationships s.pending) ≡ s.pending_edges
  pub few_memories : s.pending_memories ≤ max_memories_per_batch
  pub few_edges : s.pending_edges ≤ max_edges_per_batch

not_ok : {e : SdkError} → ¬ Path (Result SdkError (Unit {0})) (err e) (ok tt)
not_ok h = cc

ok_packer : {s t : Packer} → Path (Result SdkError Packer) (ok s) (ok t) → s ≡ t
ok_packer h = cc

pub is_empty-eq : (cs : List Component) → is_empty cs ≡ true → cs ≡ []
is_empty-eq [] h = refl
is_empty-eq (c ∷ cs) h = cc

module _ (canonical_checksum : IngestBatch → String) (encoded_len : IngestBatch → ℕ)
    (print : ℕ → String) where
  flush-out :
      (producer_id : String) (u : BatchUnit) (s : Packer)
      → Packed s
      → All IsAdmissible (flush canonical_checksum encoded_len print producer_id u s).out
  unfolding flush
  flush-out producer_id u s h = elim (Bool-cases (is_empty s.pending)) [
    | inl nothing ↦ rw nothing h.out
    | inr some_rows ↦ rw some_rows (
        All-append IsAdmissible s.out _ h.out (
          (
            omega (
              arith,
              h.memories,
              h.few_memories,
              length-sort_by key_after (all_memories s.pending),
            ),
            omega (
              arith,
              h.edges,
              h.few_edges,
              length-sort_by edge_after (all_relationships s.pending),
            ),
            is_closed-sort_by (all_memories s.pending) (all_relationships s.pending) h.closed,
          ),
          tt,
        ))
  ]

  -- What the flush writes back, when there is something to flush.
  pub flush-pending :
      (producer_id : String) (u : BatchUnit) (s : Packer)
      → (flush canonical_checksum encoded_len print producer_id u s).pending ≡ []
  unfolding flush
  flush-pending producer_id u s = elim (Bool-cases (is_empty s.pending)) [
    | inl nothing ↦ rw nothing (is_empty-eq s.pending nothing)
    | inr some_rows ↦ rw some_rows refl
  ]

  push_component-Packed :
      (s : Packer) (c : Component) (bytes : ℕ)
      → Packed s
      → IsClosed c
      → s.pending_memories + length c.memories ≤ max_memories_per_batch
      → s.pending_edges + length c.relationships ≤ max_edges_per_batch
      → Packed (push_component canonical_checksum encoded_len print s c bytes)
  push_component-Packed s c bytes h closed room_m room_e = record {
    out = h.out;
    closed = rw (all_memories-snoc s.pending c) (
        rw (all_relationships-snoc s.pending c) (
          is_closed-append (all_memories s.pending) c.memories (all_relationships s.pending)
            c.relationships h.closed closed));
    memories =
        ap (λ (l : List DraftMemory). length l) (all_memories-snoc s.pending c)
        ∙ length-append (all_memories s.pending) c.memories
        ∙ ap (λ n. n + length c.memories) h.memories;
    edges =
        ap (λ (l : List RelationshipDraft). length l) (all_relationships-snoc s.pending c)
        ∙ length-append (all_relationships s.pending) c.relationships
        ∙ ap (λ n. n + length c.relationships) h.edges;
    few_memories = room_m;
    few_edges = room_e;
  }

  check_component-small :
      (max_batch_bytes : ℕ) (s : Packer) (c : Component) (bytes : ℕ)
      → check_component canonical_checksum encoded_len print max_batch_bytes s c bytes ≡ ok tt
      → (length c.memories ≤ max_memories_per_batch)
        × (length c.relationships ≤ max_edges_per_batch)
  unfolding check_component
  check_component-small max_batch_bytes s c bytes h =
      elim (Bool-cases (ltb max_memories_per_batch (length c.memories))) [
        | inl many ↦ absurd (not_ok (if-eq_of_true _ _ _ many h))
        | inr few ↦ elim (Bool-cases (ltb max_edges_per_batch (length c.relationships))) [
          | inl many ↦ absurd (not_ok (if-eq_of_true _ _ _ many (if-eq_of_false _ _ _ few h)))
          | inr few_edges ↦ (
            ltb_false→le max_memories_per_batch (length c.memories) few,
            ltb_false→le max_edges_per_batch (length c.relationships) few_edges,
          )
        ]
      ]

  make_room-Packed :
      (producer_id : String) (u : BatchUnit) (max_batch_bytes : ℕ) (s : Packer) (c : Component)
      (bytes : ℕ)
      → Packed s
      → length c.memories ≤ max_memories_per_batch
      → length c.relationships ≤ max_edges_per_batch
      → let t =
          make_room canonical_checksum encoded_len print producer_id u max_batch_bytes s c bytes in
        Packed t
        × (t.pending_memories + length c.memories ≤ max_memories_per_batch)
        × (t.pending_edges + length c.relationships ≤ max_edges_per_batch)
  unfolding all_memories all_relationships every
  make_room-Packed producer_id u max_batch_bytes s c bytes h small_m small_e =
      elim (Bool-cases (overflows canonical_checksum encoded_len print max_batch_bytes s c bytes)) [
        | inr fits ↦ rw fits (h, ground (arith, fits), ground (arith, fits))
        | inl over ↦ elim (Bool-cases (is_empty s.pending)) [
          | inl nothing ↦
              let e = is_empty-eq s.pending nothing in
              rw (over, nothing)
                (
                  h,
                  omega (arith, small_m, h.memories, ap (λ x. length (all_memories x)) e),
                  omega (arith, small_e, h.edges, ap (λ x. length (all_relationships x)) e),
                )
          | inr some_rows ↦
              let e = flush-pending producer_id u s in
              rw (over, some_rows)
                (
                  record {
                    out = flush-out producer_id u s h;
                    closed = rw e refl;
                    memories = rw e refl;
                    edges = rw e refl;
                    few_memories = omega arith;
                    few_edges = omega arith;
                  },
                  omega (arith, small_m),
                  omega (arith, small_e),
                )
        ]
      ]

  pub pack-IsAdmissible :
      (producer_id : String) (u : BatchUnit) (max_batch_bytes : ℕ) (s t : Packer) (m : Components)
      → Packed s
      → AllRows IsClosed m
      → pack canonical_checksum encoded_len print producer_id u max_batch_bytes s m ≡ ok t
      → All IsAdmissible t.out
  unfolding pack
  pack-IsAdmissible producer_id u max_batch_bytes s t [] h closed e =
      subst (λ (x : Packer). All IsAdmissible x.out) (ok_packer e) (flush-out producer_id u s h)
  pack-IsAdmissible producer_id u max_batch_bytes s t ((root, c) ∷ m) h (c_closed, closed) e =
      let bytes = component_bytes canonical_checksum encoded_len print producer_id u c s.index in
      let (value, fine, rest) =
        >>=-eq-ok (check_component canonical_checksum encoded_len print max_batch_bytes s c bytes) _
          e in
      let (small_m, small_e) = check_component-small max_batch_bytes s c bytes fine in
      let roomy =
        make_room canonical_checksum encoded_len print producer_id u max_batch_bytes s c bytes in
      let (packed, room_m, room_e) =
        make_room-Packed producer_id u max_batch_bytes s c bytes h small_m small_e in
      pack-IsAdmissible producer_id u max_batch_bytes
        (push_component canonical_checksum encoded_len print roomy c bytes) t m
        (push_component-Packed roomy c bytes packed c_closed room_m room_e) closed rest

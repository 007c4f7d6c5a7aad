-- ===== src/Sdk/Split/Lossless.antt =====
-- The batches of split.rs have the rows of the unit.
use exocortex.Common.{
  ℕ, ◌+◌, ◌≡◌, refl, sym, ap, ◌∙◌, Bool-cases, inl, inr, String, Bool, not, ◌&&◌, List, [], ◌∷◌,
  ◌++◌, Result, ok, err, arith, length, >>=-eq-ok, if-eq_of_false, if-eq_of_true, ltb, count,
  count-append, count-sort_by,
}
use exocortex.Sdk.Rows.{
  SdkError, DraftMemory, RelationshipDraft, IngestBatch, BatchUnit, validate_unit,
}
use exocortex.Sdk.Split.{
  Component, Components, Packer, all_memories, all_relationships, is_empty, key_after, edge_after,
  flush, component_bytes, check_component, make_room, push_component, overflows, pack, sign_all,
  split_unit, gather,
}
use exocortex.Sdk.Split.Closed.{all_memories-snoc, all_relationships-snoc}
use exocortex.Sdk.Split.Packing.{flush-pending, is_empty-eq}
use exocortex.Sdk.Split.Conserved.{
  same_ok, weight, batches_weight, components_weight, gather-weight,
}

stopped :
    {e : SdkError} {bs : List IngestBatch}
    → ¬ Path (Result SdkError (List IngestBatch)) (err e) (ok bs)
stopped h = cc

module _ (p : DraftMemory → Bool) (q : RelationshipDraft → Bool) where
  batches_weight-snoc :
      (bs : List IngestBatch) (b : IngestBatch)
      → batches_weight p q (bs ++ b ∷ [])
        ≡ batches_weight p q bs + weight p q b.memories b.relationships
  unfolding batches_weight
  batches_weight-snoc [] b = omega arith
  batches_weight-snoc (c ∷ bs) b = omega (arith, batches_weight-snoc bs b)

  -- What is out and what waits.
  abbrev packer_weight : Packer → ℕ
  packer_weight s =
      batches_weight p q s.out + weight p q (all_memories s.pending) (all_relationships s.pending)

  module _ (canonical_checksum : IngestBatch → String) (encoded_len : IngestBatch → ℕ)
      (print : ℕ → String) where
    flush-weight :
        (producer_id : String) (u : BatchUnit) (s : Packer)
        → batches_weight p q (flush canonical_checksum encoded_len print producer_id u s).out
          ≡ packer_weight s
    unfolding flush all_memories all_relationships count
    flush-weight producer_id u s = elim (Bool-cases (is_empty s.pending)) [
      | inl nothing ↦ rw nothing (
          omega (
            arith,
            ap (λ cs. weight p q (all_memories cs) (all_relationships cs))
                (is_empty-eq s.pending nothing),
          ))
      | inr some_rows ↦ rw some_rows (
          batches_weight-snoc s.out _
          ∙ omega (
            arith,
            count-sort_by key_after p (all_memories s.pending),
            count-sort_by edge_after q (all_relationships s.pending),
          ))
    ]

    make_room-weight :
        (producer_id : String) (u : BatchUnit) (max_batch_bytes : ℕ) (s : Packer) (c : Component)
        (bytes : ℕ)
        → packer_weight
            (make_room canonical_checksum encoded_len print producer_id u max_batch_bytes s c bytes)
          ≡ packer_weight s
    unfolding all_memories all_relationships count
    make_room-weight producer_id u max_batch_bytes s c bytes =
        elim (Bool-cases (
          overflows canonical_checksum encoded_len print max_batch_bytes s c bytes
          && not (is_empty s.pending))) [
            | inr stay ↦ rw stay refl
            | inl flushed ↦ rw flushed (
                omega (
                  arith,
                  flush-weight producer_id u s,
                  ap (λ cs. weight p q (all_memories cs) (all_relationships cs))
                      (flush-pending canonical_checksum encoded_len print producer_id u s),
                ))
          ]

    push_component-weight :
        (s : Packer) (c : Component) (bytes : ℕ)
        → packer_weight (push_component canonical_checksum encoded_len print s c bytes)
          ≡ packer_weight s + weight p q c.memories c.relationships
    push_component-weight s c bytes = omega (
      arith,
      ap (count p) (all_memories-snoc s.pending c),
      ap (count q) (all_relationships-snoc s.pending c),
      count-append p (all_memories s.pending) c.memories,
      count-append q (all_relationships s.pending) c.relationships,
    )

    pack-weight :
        (producer_id : String) (u : BatchUnit) (max_batch_bytes : ℕ) (m : Components) (s t : Packer)
        → pack canonical_checksum encoded_len print producer_id u max_batch_bytes s m ≡ ok t
        → batches_weight p q t.out ≡ packer_weight s + components_weight p q m
    unfolding pack components_weight
    pack-weight producer_id u max_batch_bytes [] s t h = omega (
      arith,
      ap (λ (x : Packer). batches_weight p q x.out) (same_ok h),
      flush-weight producer_id u s,
    )
    pack-weight producer_id u max_batch_bytes ((root, c) ∷ m) s t h =
        let bytes = component_bytes canonical_checksum encoded_len print producer_id u c s.index in
        let roomy =
          make_room canonical_checksum encoded_len print producer_id u max_batch_bytes s c bytes in
        let (value, fine, rest) =
          >>=-eq-ok (check_component canonical_checksum encoded_len print max_batch_bytes s c bytes)
            _ h in
        pack-weight producer_id u max_batch_bytes m
          (push_component canonical_checksum encoded_len print roomy c bytes) t rest
        ∙ omega (
          arith,
          push_component-weight roomy c bytes,
          make_room-weight producer_id u max_batch_bytes s c bytes,
        )

    sign_all-weight :
        (max_batch_bytes : ℕ) (bs batches : List IngestBatch)
        → sign_all canonical_checksum encoded_len print max_batch_bytes bs ≡ ok batches
        → batches_weight p q batches ≡ batches_weight p q bs
    unfolding sign_all batches_weight
    sign_all-weight max_batch_bytes [] batches h = ap (batches_weight p q) (sym (same_ok h))
    sign_all-weight max_batch_bytes (b ∷ bs) batches h =
        elim (Bool-cases
          (ltb max_batch_bytes (encoded_len (record b { checksum = canonical_checksum b })))) [
            | inl large ↦ absurd (stopped (if-eq_of_true _ _ _ large h))
            | inr small ↦
                let (out, rest, all) =
                  >>=-eq-ok (sign_all canonical_checksum encoded_len print max_batch_bytes bs) _
                    (if-eq_of_false _ _ _ small h) in
                ap (batches_weight p q) (sym (same_ok all))
                ∙ ap (λ n. weight p q b.memories b.relationships + n)
                    (sign_all-weight max_batch_bytes bs out rest)
          ]

    -- The batches of a unit have its rows, each as often as the unit has it: for any test of drafts and any
    -- test of edges, as many rows pass in all batches together as in the unit.
    pub split_unit-weight :
        (producer_id : String) (u : BatchUnit) (max_batch_bytes : ℕ) (batches : List IngestBatch)
        → split_unit canonical_checksum encoded_len print producer_id u max_batch_bytes ≡ ok batches
        → batches_weight p q batches ≡ weight p q u.memories u.relationships
    unfolding split_unit all_memories all_relationships count batches_weight
    split_unit-weight producer_id u max_batch_bytes batches h =
        let (value, good, rest) = >>=-eq-ok (validate_unit u) _ h in
        let (m, gathered, packing) = >>=-eq-ok (gather (length u.relationships + 1) u) _ rest in
        let (t, packed, signed) =
          >>=-eq-ok (pack canonical_checksum encoded_len print producer_id u max_batch_bytes _ m) _
            packing in
        sign_all-weight max_batch_bytes t.out batches signed
        ∙ pack-weight producer_id u max_batch_bytes m _ t packed
        ∙ omega (arith, gather-weight p q (length u.relationships + 1) u m gathered)

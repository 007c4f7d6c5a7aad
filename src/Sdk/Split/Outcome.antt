-- ===== src/Sdk/Split/Outcome.antt =====
-- How split.rs ends, and what it emits.
use exocortex.Common.{
  ℕ, ◌≤◌, ◌≡◌, ◌⊎◌, refl, sym, ap, subst, ◌∙◌, Bool-cases, inl, inr, String, Bool, true, false, not,
  ◌&&◌, ◌||◌, List, [], ◌∷◌, Result, ok, err, Result-cases, if◌then◌else◌, ◌==◌, ltb, arith, All,
  length, ◌>>=◌, >>=-eq-ok, if-eq_of_true, if-eq_of_false, ltb_false→le, map, every,
}
use exocortex.Wire.Limits.{max_memories_per_batch, max_edges_per_batch}
use exocortex.Sdk.Rows.{
  SdkError, unsplittable, invalid_unit, Detail, duplicate_keys, dangling, lacks_external_key,
  DraftMemory, RelationshipDraft, IngestBatch, BatchUnit, validate_unit, check_endpoints,
  check_external_keys, is_none, key_set, duplicates, contains_text,
}
use exocortex.Sdk.Split.{
  Component, Components, Packer, component_bytes, check_component, make_room, push_component, pack,
  sign_all, split_unit, sorted_keys, is_empty, all_memories, all_relationships,
}
use exocortex.Sdk.Split.Gather.{validate_unit-Ends, gather-IsClosed}
use exocortex.Sdk.Split.Packing.{IsAdmissible, pack-IsAdmissible}

abbrev IsInvalid : SdkError → Type 0
IsInvalid e = (d : Detail) × (e ≡ invalid_unit d)

abbrev IsUnsplittable : SdkError → Type 0
IsUnsplittable e = (keys : List String) × (bound : String) × (e ≡ unsplittable keys bound)

same_error : {A : Type 0} {d e : SdkError} → Path (Result SdkError A) (err d) (err e) → d ≡ e
same_error h = cc

not_err : {A : Type 0} {a : A} {e : SdkError} → ¬ Path (Result SdkError A) (ok a) (err e)
not_err h = cc

same_ok : {A : Type 0} {a b : A} → Path (Result SdkError A) (ok a) (ok b) → a ≡ b
same_ok h = cc

check_endpoints-IsInvalid :
    (keys : List String) (rs : List RelationshipDraft) (e : SdkError)
    → check_endpoints keys rs ≡ err e
    → IsInvalid e
unfolding check_endpoints
check_endpoints-IsInvalid keys [] e h = absurd (not_err h)
check_endpoints-IsInvalid keys (r ∷ rs) e h =
    elim (Bool-cases
      (not (contains_text r.from_draft_key keys) || not (contains_text r.to_draft_key keys))) [
        | inl bad ↦
            (dangling r.from_draft_key r.to_draft_key, sym (same_error (if-eq_of_true _ _ _ bad h)))
        | inr good ↦ check_endpoints-IsInvalid keys rs e (if-eq_of_false _ _ _ good h)
      ]

check_external_keys-IsInvalid :
    (ms : List DraftMemory) (e : SdkError) → check_external_keys ms ≡ err e → IsInvalid e
unfolding check_external_keys
check_external_keys-IsInvalid [] e h = absurd (not_err h)
check_external_keys-IsInvalid (m ∷ ms) e h = elim (Bool-cases (is_none m.external_key)) [
  | inl bad ↦ (lacks_external_key m.draft_key, sym (same_error (if-eq_of_true _ _ _ bad h)))
  | inr good ↦ check_external_keys-IsInvalid ms e (if-eq_of_false _ _ _ good h)
]

-- A chain fails where its first part or its rest fails.
bind_cases :
    {A B : Type 0} (r : Result SdkError A) (next : A → Result SdkError B) (e : SdkError)
    → (r >>= next) ≡ err e
    → (r ≡ err e) ⊎ ((a : A) × (r ≡ ok a) × (next a ≡ err e))
bind_cases (err d) next e h = inl (ap err (same_error h))
bind_cases (ok a) next e h = inr (a, refl, h)

validate_unit-IsInvalid : (u : BatchUnit) (e : SdkError) → validate_unit u ≡ err e → IsInvalid e
unfolding validate_unit
validate_unit-IsInvalid u e h =
    elim (Bool-cases (not (length (key_set u.memories) == length u.memories))) [
      | inl twice ↦ (
        duplicate_keys (duplicates [] u.memories),
        sym (same_error (if-eq_of_true _ _ _ twice h)),
      )
      | inr once ↦
          elim (bind_cases (check_endpoints (key_set u.memories) u.relationships) _ e
            (if-eq_of_false _ _ _ once h)) [
              | inl stop ↦ check_endpoints-IsInvalid (key_set u.memories) u.relationships e stop
              | inr (value, fine, rest) ↦ elim (Bool-cases (is_none u.snapshot)) [
                | inl none_here ↦ absurd (not_err (if-eq_of_true _ _ _ none_here rest))
                | inr here ↦
                    check_external_keys-IsInvalid u.memories e (if-eq_of_false _ _ _ here rest)
              ]
            ]
    ]

-- A guard that ends in such an error, before a rest that does.
guard_IsUnsplittable :
    (b : Bool) (keys : List String) (bound : String) (rest : Result SdkError (Unit {0}))
    (e : SdkError)
    → (rest ≡ err e → IsUnsplittable e)
    → (if b then err (unsplittable keys bound) else rest) ≡ err e
    → IsUnsplittable e
guard_IsUnsplittable true keys bound rest e f h = (keys, bound, sym (same_error h))
guard_IsUnsplittable false keys bound rest e f h = f h

module _ (canonical_checksum : IngestBatch → String) (encoded_len : IngestBatch → ℕ)
    (print : ℕ → String) where
  check_component-IsUnsplittable :
      (max_batch_bytes : ℕ) (s : Packer) (c : Component) (bytes : ℕ) (e : SdkError)
      → check_component canonical_checksum encoded_len print max_batch_bytes s c bytes ≡ err e
      → IsUnsplittable e
  unfolding check_component
  check_component-IsUnsplittable max_batch_bytes s c bytes e h =
      guard_IsUnsplittable (ltb max_memories_per_batch (length c.memories)) (sorted_keys c.memories)
        "max_memories_per_batch" _ e
        (guard_IsUnsplittable (ltb max_edges_per_batch (length c.relationships))
          (sorted_keys c.memories) "max_edges_per_batch" _ e
          (λ rest. elim (Bool-cases (ltb max_batch_bytes bytes)) [
            | inr small ↦ absurd (not_err (if-eq_of_false _ _ _ small rest))
            | inl large ↦
                guard_IsUnsplittable
                  ((length c.memories == 1)
                    && (is_empty c.relationships && (is_empty s.pending && is_empty s.out)))
                  (map (λ (m : DraftMemory). m.draft_key) c.memories) "max_batch_bytes" _ e
                  (guard_IsUnsplittable (not (is_empty c.relationships)) (sorted_keys c.memories)
                    "max_batch_bytes" _ e
                    (λ last. (
                      map (λ (m : DraftMemory). m.draft_key) c.memories,
                      "max_batch_bytes",
                      sym (same_error last),
                    )))
                  (if-eq_of_true _ _ _ large rest)
          ]))
        h

  pack-IsUnsplittable :
      (producer_id : String) (u : BatchUnit) (max_batch_bytes : ℕ) (s : Packer) (m : Components)
      (e : SdkError)
      → pack canonical_checksum encoded_len print producer_id u max_batch_bytes s m ≡ err e
      → IsUnsplittable e
  unfolding pack
  pack-IsUnsplittable producer_id u max_batch_bytes s [] e h = absurd (not_err h)
  pack-IsUnsplittable producer_id u max_batch_bytes s ((root, c) ∷ m) e h =
      let bytes = component_bytes canonical_checksum encoded_len print producer_id u c s.index in
      elim (bind_cases
        (check_component canonical_checksum encoded_len print max_batch_bytes s c bytes) _ e h) [
          | inl stop ↦ check_component-IsUnsplittable max_batch_bytes s c bytes e stop
          | inr (value, fine, rest) ↦
              pack-IsUnsplittable producer_id u max_batch_bytes
                (push_component canonical_checksum encoded_len print
                  (make_room canonical_checksum encoded_len print producer_id u max_batch_bytes s c
                    bytes)
                  c bytes)
                m e rest
        ]

  sign_all-IsUnsplittable :
      (max_batch_bytes : ℕ) (bs : List IngestBatch) (e : SdkError)
      → sign_all canonical_checksum encoded_len print max_batch_bytes bs ≡ err e
      → IsUnsplittable e
  unfolding sign_all
  sign_all-IsUnsplittable max_batch_bytes [] e h = absurd (not_err h)
  sign_all-IsUnsplittable max_batch_bytes (b ∷ bs) e h =
      elim (Bool-cases
        (ltb max_batch_bytes (encoded_len (record b { checksum = canonical_checksum b })))) [
          | inl large ↦ (
            sorted_keys b.memories,
            "max_batch_bytes",
            sym (same_error (if-eq_of_true _ _ _ large h)),
          )
          | inr small ↦
              elim (bind_cases (sign_all canonical_checksum encoded_len print max_batch_bytes bs) _
                e (if-eq_of_false _ _ _ small h)) [
                  | inl stop ↦ sign_all-IsUnsplittable max_batch_bytes bs e stop
                  | inr (out, fine, rest) ↦ absurd (not_err rest)
                ]
        ]

  -- Splitting a unit always ends: in the error of `validate_unit`, in a component or a batch that cannot be
  -- split, or in batches. No index of a map panics, and the fuel of `find`, one more than the number of
  -- edges, never runs out.
  pub split_unit-ends :
      (producer_id : String) (u : BatchUnit) (max_batch_bytes : ℕ)
      → let outcome =
          split_unit canonical_checksum encoded_len print producer_id u max_batch_bytes in
        ((d : Detail) × (validate_unit u ≡ err (invalid_unit d)) × (outcome ≡ err (invalid_unit d)))
        ⊎ ((validate_unit u ≡ ok tt)
            × (((keys : List String) × (bound : String) × (outcome ≡ err (unsplittable keys bound)))
                ⊎ ((batches : List IngestBatch) × (outcome ≡ ok batches))))
  unfolding split_unit
  split_unit-ends producer_id u max_batch_bytes = elim (Result-cases (validate_unit u)) [
    | inr (e, bad) ↦
        let (d, is_d) = validate_unit-IsInvalid u e bad in
        inl (d, bad ∙ ap err is_d, rw bad (ap err is_d))
    | inl (value, good) ↦
        let (m, gathered, closed) = gather-IsClosed u (validate_unit-Ends u good) in
        let start : Packer = record {
          out = [];
          pending = [];
          pending_bytes = 0;
          pending_memories = 0;
          pending_edges = 0;
          index = 0;
        } in
        inr (
          good,
          elim (Result-cases
              (pack canonical_checksum encoded_len print producer_id u max_batch_bytes start m)) [
                | inr (e, stop) ↦
                    let (keys, bound, is_e) =
                      pack-IsUnsplittable producer_id u max_batch_bytes start m e stop in
                    inl (keys, bound, rw good (rw gathered (rw stop (ap err is_e))))
                | inl (t, packed) ↦
                    elim (Result-cases
                      (sign_all canonical_checksum encoded_len print max_batch_bytes t.out)) [
                        | inr (e, stop) ↦
                            let (keys, bound, is_e) =
                              sign_all-IsUnsplittable max_batch_bytes t.out e stop in
                            inl (
                              keys,
                              bound,
                              rw good (rw gathered (rw packed (rw stop (ap err is_e)))),
                            )
                        | inl (batches, signed) ↦
                            inr (batches, rw good (rw gathered (rw packed signed)))
                      ]
              ],
        )
  ]

  sign_all-fits :
      (max_batch_bytes : ℕ) (bs batches : List IngestBatch)
      → All IsAdmissible bs
      → sign_all canonical_checksum encoded_len print max_batch_bytes bs ≡ ok batches
      → All (λ (b : IngestBatch). IsAdmissible b × (encoded_len b ≤ max_batch_bytes)) batches
  unfolding sign_all
  sign_all-fits max_batch_bytes [] batches a h =
      subst (All (λ (b : IngestBatch). IsAdmissible b × (encoded_len b ≤ max_batch_bytes)))
        (same_ok h) tt
  sign_all-fits max_batch_bytes (b ∷ bs) batches (one, a) h =
      let signed : IngestBatch = record b { checksum = canonical_checksum b } in
      elim (Bool-cases (ltb max_batch_bytes (encoded_len signed))) [
        | inl large ↦ absurd (not_err (sym (if-eq_of_true _ _ _ large h)))
        | inr small ↦
            let (out, rest, all) =
              >>=-eq-ok (sign_all canonical_checksum encoded_len print max_batch_bytes bs) _
                (if-eq_of_false _ _ _ small h) in
            subst (All (λ (x : IngestBatch). IsAdmissible x × (encoded_len x ≤ max_batch_bytes)))
              (same_ok all)
              (
                ((one, ltb_false→le max_batch_bytes (encoded_len signed) small)),
                sign_all-fits max_batch_bytes bs out a rest,
              )
      ]

  -- Every batch that leaves the splitting is one that the server can take: at most 256 memories, at most 64
  -- edges, both drafts of each edge in the same batch, and no more encoded bytes than the budget.
  pub split_unit-IsAdmissible :
      (producer_id : String) (u : BatchUnit) (max_batch_bytes : ℕ) (batches : List IngestBatch)
      → split_unit canonical_checksum encoded_len print producer_id u max_batch_bytes ≡ ok batches
      → All (λ (b : IngestBatch). IsAdmissible b × (encoded_len b ≤ max_batch_bytes)) batches
  unfolding split_unit every all_memories all_relationships
  split_unit-IsAdmissible producer_id u max_batch_bytes batches h =
      let (value, good, rest) = >>=-eq-ok (validate_unit u) _ h in
      let (m, gathered, closed) = gather-IsClosed u (validate_unit-Ends u good) in
      let (t, packed, signed) = >>=-eq-ok _ _ (rw gathered at rest) in
      sign_all-fits max_batch_bytes t.out batches
        (pack-IsAdmissible canonical_checksum encoded_len print producer_id u max_batch_bytes _ t m
          (record {
            out = tt;
            closed = refl;
            memories = refl;
            edges = refl;
            few_memories = omega arith;
            few_edges = omega arith;
          })
          closed packed)
        signed

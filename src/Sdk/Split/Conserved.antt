-- ===== src/Sdk/Split/Conserved.antt =====
-- No row is lost or doubled by split.rs. Rows are counted by any two tests, of drafts and of edges.
use exocortex.Common.{
  ℕ, ◌+◌, ◌≡◌, refl, sym, ap, ◌∙◌, Bool-cases, Option-cases, inl, inr, String, Bool, some, List, [],
  ◌∷◌, Result, ok, str_eq, eq_iff, arith, string_key, lookup, >>=-eq-ok, count, count-append,
}
use Prim.Native.String.{compare}
use exocortex.Sdk.Rows.{SdkError, DraftMemory, RelationshipDraft, IngestBatch, BatchUnit}
use exocortex.Sdk.Split.{
  Parents, Component, Components, no_component, insert_component, modify_component, component_entry,
  add_memory, add_relationship, gather_memories, gather_relationships, gather, initial_parents,
  weld_all, find, is_gt,
}

pub same_ok : {A : Type 0} {a b : A} → Path (Result SdkError A) (ok a) (ok b) → a ≡ b
same_ok h = cc

module _ (p : DraftMemory → Bool) (q : RelationshipDraft → Bool) where
  abbrev pub weight : List DraftMemory → List RelationshipDraft → ℕ
  weight ms rs = count p ms + count q rs

  unfoldable pub batches_weight : List IngestBatch → ℕ
  batches_weight [] = 0
  batches_weight (b ∷ bs) = weight b.memories b.relationships + batches_weight bs

  unfoldable pub components_weight : Components → ℕ
  components_weight [] = 0
  components_weight (e ∷ m) = weight e.1.memories e.1.relationships + components_weight m

  components_weight-insert_component :
      (k : String) (m : Components)
      → components_weight (insert_component k no_component m) ≡ components_weight m
  unfolding components_weight insert_component count
  components_weight-insert_component k [] = refl
  components_weight-insert_component k ((j, d) ∷ m) = elim (Bool-cases (is_gt (compare k j))) [
    | inl gt ↦
        rw gt
          (ap (λ n. weight d.memories d.relationships + n) (components_weight-insert_component k m))
    | inr le ↦ rw le (omega arith)
  ]

  lookup-insert_component_found :
      (k : String) (m : Components)
      → (c : Component) × (lookup k (insert_component k no_component m) ≡ some c)
  unfolding lookup insert_component
  lookup-insert_component_found k [] = (no_component, rw ((eq_iff k k).1 refl) refl)
  lookup-insert_component_found k ((j, d) ∷ m) = elim (Bool-cases (is_gt (compare k j))) [
    | inr le ↦ rw le (no_component, rw ((eq_iff k k).1 refl) refl)
    | inl gt ↦ elim (Bool-cases (str_eq j k)) [
      | inl same ↦ rw (gt, same) (d, refl)
      | inr other ↦ rw (gt, other) (lookup-insert_component_found k m)
    ]
  ]

  -- A change that adds the same weight to whatever it changes.
  abbrev AddsWeight : (Component → Component) → ℕ → Type 0
  AddsWeight f n =
      (c : Component)
      → weight (f c).memories (f c).relationships ≡ weight c.memories c.relationships + n

  module _ (f : Component → Component) (n : ℕ) (adds : AddsWeight f n) where
    components_weight-modify_component :
        (k : String) (m : Components) (c : Component)
        → lookup k m ≡ some c
        → components_weight (modify_component k f m) ≡ components_weight m + n
    unfolding components_weight modify_component lookup
    components_weight-modify_component k [] c h = cc
    components_weight-modify_component k ((j, d) ∷ m) c h = elim (Bool-cases (str_eq j k)) [
      | inl same ↦ rw same (omega (arith, adds d))
      | inr other ↦
          rw other (omega (arith, components_weight-modify_component k m c (rw other at h)))
    ]

    components_weight-component_entry :
        (k : String) (m : Components)
        → components_weight (component_entry k f m) ≡ components_weight m + n
    components_weight-component_entry k m = elim (Option-cases (lookup k m)) [
      | inl absent ↦
          let (c, found) = lookup-insert_component_found k m in
          rw absent (
            components_weight-modify_component k (insert_component k no_component m) c found
            ∙ ap (λ w. w + n) (components_weight-insert_component k m))
      | inr (c, found) ↦ rw found (components_weight-modify_component k m c found)
    ]

  add_memory-AddsWeight : (m : DraftMemory) → AddsWeight (add_memory m) (count p (m ∷ []))
  add_memory-AddsWeight m c = omega (arith, count-append p c.memories (m ∷ []))

  add_relationship-AddsWeight :
      (r : RelationshipDraft) → AddsWeight (add_relationship r) (count q (r ∷ []))
  add_relationship-AddsWeight r c = omega (arith, count-append q c.relationships (r ∷ []))

  gather_memories-weight :
      (fuel : ℕ) (ms : List DraftMemory) (s t : Parents × Components)
      → gather_memories fuel ms s ≡ ok t
      → components_weight t.1 ≡ components_weight s.1 + count p ms
  unfolding gather_memories count
  gather_memories-weight fuel [] s t h =
      omega (arith, ap (λ (x : Parents × Components). components_weight x.1) (same_ok h))
  gather_memories-weight fuel (m ∷ ms) s t h =
      let (found, run, rest) = >>=-eq-ok (find fuel m.draft_key s.0) _ h in
      gather_memories-weight fuel ms (found.1, component_entry found.0 (add_memory m) s.1) t rest
      ∙ omega (
        arith,
        components_weight-component_entry (add_memory m) (count p (m ∷ []))
            (add_memory-AddsWeight m) found.0 s.1,
        count-append p (m ∷ []) ms,
      )

  gather_relationships-weight :
      (fuel : ℕ) (rs : List RelationshipDraft) (s t : Parents × Components)
      → gather_relationships fuel rs s ≡ ok t
      → components_weight t.1 ≡ components_weight s.1 + count q rs
  unfolding gather_relationships count
  gather_relationships-weight fuel [] s t h =
      omega (arith, ap (λ (x : Parents × Components). components_weight x.1) (same_ok h))
  gather_relationships-weight fuel (r ∷ rs) s t h =
      let (found, run, rest) = >>=-eq-ok (find fuel r.from_draft_key s.0) _ h in
      gather_relationships-weight fuel rs
        (found.1, component_entry found.0 (add_relationship r) s.1) t rest
      ∙ omega (
        arith,
        components_weight-component_entry (add_relationship r) (count q (r ∷ []))
            (add_relationship-AddsWeight r) found.0 s.1,
        count-append q (r ∷ []) rs,
      )

  pub gather-weight :
      (fuel : ℕ) (u : BatchUnit) (m : Components)
      → gather fuel u ≡ ok m
      → components_weight m ≡ weight u.memories u.relationships
  unfolding gather components_weight
  gather-weight fuel u m h =
      let (parents, run1, rest1) =
        >>=-eq-ok (weld_all fuel u.relationships (initial_parents u.memories [])) _ h in
      let (s, run2, rest2) = >>=-eq-ok (gather_memories fuel u.memories (parents, [])) _ rest1 in
      let (t, run3, rest3) = >>=-eq-ok (gather_relationships fuel u.relationships s) _ rest2 in
      ap components_weight (sym (same_ok rest3))
      ∙ omega (
        arith,
        gather_memories-weight fuel u.memories (parents, []) s run2,
        gather_relationships-weight fuel u.relationships s t run3,
      )

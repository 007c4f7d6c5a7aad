-- ===== src/Kernel/Compatibility/Upgrades.antt =====
-- The subset relation of compatibility.rs is transitive on whole summaries.
use exocortex.Common.{
  ℕ, ◌≡◌, sym, ap, ◌∙◌, Bool-cases, Option-cases, inl, inr, String, Bool, true, ◌||◌, Option, none,
  some, List, [], ◌∷◌, ◌==◌, any, every, str_eq, eq_iff, arith, nat_key, lookup, insert,
  lookup-insert_here, lookup-insert_there,
}
use exocortex.Kernel.Compatibility.{
  KindSummary, TripleSummary, ActionVerbSummary, FunctionVerbSummary, OntologySummary, same_id,
  same_kind, same_triple, same_action, same_function, triple_covered, row_covers, merged, is_row,
  is_subset_of,
}
use exocortex.Kernel.Compatibility.Subset.{
  any-every, any_mono, every_mono, is_subset_trans, is_prefix_trans, row_covers_trans,
  triple_covered-eq,
}

same_id-eq : (a b : Option ℕ) → same_id a b ≡ true → a ≡ b
same_id-eq a b h = ground (arith, h)

same_kind-eq : (a b : KindSummary) → same_kind a b ≡ true → a ≡ b
same_kind-eq a b h = ground (arith, h, eq_iff a.name b.name, same_id-eq a.inverse b.inverse)

same_action-eq : (a b : ActionVerbSummary) → same_action a b ≡ true → a ≡ b
same_action-eq a b h = ground (
  arith,
  h,
  eq_iff a.pack b.pack,
  eq_iff a.name b.name,
  eq_iff a.input_type b.input_type,
  eq_iff a.output_type b.output_type,
)

same_function-eq : (a b : FunctionVerbSummary) → same_function a b ≡ true → a ≡ b
same_function-eq a b h = ground (
  arith,
  h,
  eq_iff a.pack b.pack,
  eq_iff a.name b.name,
  eq_iff a.engine b.engine,
  eq_iff a.input_type b.input_type,
  eq_iff a.output_type b.output_type,
)

some_row : {a b : KindSummary} → Path (Option KindSummary) (some a) (some b) → a ≡ b
some_row h = cc

-- What every row passes, a row of the map passes.
merged-every :
    (p : KindSummary → Bool) (ks : List KindSummary) (m : List (ℕ × KindSummary))
    → every p ks ≡ true
    → ((id : ℕ) (row : KindSummary) → lookup id m ≡ some row → p row ≡ true)
    → (id : ℕ) (row : KindSummary) → lookup id (merged ks m) ≡ some row
    → p row ≡ true
unfolding merged every
merged-every p [] m all old id row h = old id row h
merged-every p (k ∷ ks) m all old id row h =
    merged-every p ks (insert k.id k m) (ground (arith, all))
      (λ j x found. elim (Bool-cases (k.id == j)) [
        | inl same ↦
            let k_x : k ≡ x = some_row (sym (lookup-insert_here j k.id k m same) ∙ found) in
            ap p (sym k_x) ∙ ground (arith, all)
        | inr other ↦ old j x (sym (lookup-insert_there j k.id k m other) ∙ found)
      ])
      id row h

not_row : (row : KindSummary) → ¬ (is_row none row ≡ true)
not_row row h = cc

kinds_trans :
    (as' bs cs : List KindSummary)
    → every (λ (row : KindSummary). is_row (lookup row.id (merged bs [])) row) as' ≡ true
    → every (λ (row : KindSummary). is_row (lookup row.id (merged cs [])) row) bs ≡ true
    → every (λ (row : KindSummary). is_row (lookup row.id (merged cs [])) row) as' ≡ true
unfolding lookup
kinds_trans as' bs cs f g =
    every_mono (λ (row : KindSummary). is_row (lookup row.id (merged bs [])) row)
      (λ (row : KindSummary). is_row (lookup row.id (merged cs [])) row) as'
      (λ row h. elim (Option-cases (lookup row.id (merged bs []))) [
        | inl absent ↦ absurd (not_row row (rw absent at h))
        | inr (other, found) ↦
            let same : other ≡ row = same_kind-eq other row (rw found at h) in
            merged-every (λ (r : KindSummary). is_row (lookup r.id (merged cs [])) r) bs [] g
              (λ id r none_here. cc) row.id row (found ∙ ap some same)
      ])
      f

str_eq_trans : (a b c : String) → str_eq a b ≡ true → str_eq b c ≡ true → str_eq a c ≡ true
str_eq_trans a b c h g = ground (arith, h, g, eq_iff a b, eq_iff b c, eq_iff a c)

-- The test of `is_subset_of` on a triple.
abbrev has_triple : OntologySummary → TripleSummary → Bool
has_triple s t = any (same_triple t) s.type_triples || triple_covered t s

triples_trans :
    (a b c : OntologySummary)
    → every (has_triple b) a.type_triples ≡ true
    → every (has_triple c) b.type_triples ≡ true
    → every (has_triple c) a.type_triples ≡ true
unfolding triple_covered
triples_trans a b c f g =
    every_mono (has_triple b) (has_triple c) a.type_triples
      (λ t h.
        let (row, t_row, covered) =
          any-every (row_covers t) (has_triple c) b.type_triples (sym (triple_covered-eq t b) ∙ h)
            g in
        triple_covered-eq t c
        ∙ any_mono (row_covers row) (row_covers t) c.type_triples
            (λ z. row_covers_trans t row z t_row) (sym (triple_covered-eq row c) ∙ covered))
      f

-- Subsets compose: a runtime that extends what extends a pinned ontology extends the pinned ontology, so
-- upgrades can be made one after another.
pub is_subset_of_trans :
    (a b c : OntologySummary)
    → is_subset_of a b ≡ true
    → is_subset_of b c ≡ true
    → is_subset_of a c ≡ true
unfolding triple_covered
is_subset_of_trans a b c f g = ground (
  arith,
  f,
  g,
  is_prefix_trans a.memory_types b.memory_types c.memory_types,
  is_prefix_trans a.entity_types b.entity_types c.entity_types,
  kinds_trans a.kinds b.kinds c.kinds,
  triples_trans a b c,
  is_subset_trans str_eq a.rule_ids b.rule_ids c.rule_ids str_eq_trans,
  is_subset_trans same_action a.actions b.actions c.actions
      (λ x y z s t. rw (same_action-eq x y s) t),
  is_subset_trans same_function a.functions b.functions c.functions
      (λ x y z s t. rw (same_function-eq x y s) t),
)

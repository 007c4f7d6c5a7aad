-- ===== src/Sdk/Examples.antt =====
-- The splitting of a unit of three drafts and an edge, with a checksum that is constant and a length that
-- counts rows.
use exocortex.Common.{
  ℕ, ◌+◌, ◌*◌, ◌≤◌, ◌≡◌, ◌⊎◌, refl, String, true, none, some, List, [], ◌∷◌, Result, ok, err, All,
  length, sort_by, insert_by, lookup, insert, any, every,
}
use exocortex.Sdk.Rows.{
  SdkError, unsplittable, invalid_unit, Detail, DraftMemory, RelationshipDraft, IngestBatch,
  BatchUnit, validate_unit, key_set, check_endpoints, check_external_keys,
}
use exocortex.Sdk.Split.{
  split_unit, gather, weld_all, weld, find, climb, compress, initial_parents, gather_memories,
  gather_relationships, insert_component, modify_component, all_memories, all_relationships, flush,
  component_bytes, check_component, pack, sign_all, zeros, repeat_zero,
}
use exocortex.Sdk.Split.Packing.{IsAdmissible}
use exocortex.Sdk.Split.Outcome.{split_unit-ends, split_unit-IsAdmissible}
use exocortex.Sdk.Split.Conserved.{weight, batches_weight}
use exocortex.Sdk.Split.Lossless.{split_unit-weight}

abbrev checksum_of : IngestBatch → String
checksum_of b = "c"

abbrev len_of : IngestBatch → ℕ
len_of b = 10 + 100 * length b.memories + 20 * length b.relationships

abbrev print_of : ℕ → String
print_of n = "i"

abbrev draft : String → DraftMemory
draft k = record {
  draft_key = k;
  id = "";
  memory_type = "General";
  title = "t";
  content = "c";
  tags = [];
  visibility = 3;
  valid_from = none;
  valid_until = none;
  external_key = none;
  rights = none;
}

abbrev edge : String → String → RelationshipDraft
edge a b = record {
  from_draft_key = a;
  to_draft_key = b;
  kind = "Solves";
  strength = 5;
  confidence = 5;
  context = "";
  visibility = 3;
  to_memory_id = "";
}

abbrev three : BatchUnit
three = record {
  batch_id_seed = "s";
  memories = draft "a" ∷ draft "b" ∷ draft "c" ∷ [];
  relationships = edge "a" "c" ∷ [];
  snapshot = none;
  observed_at = some 5;
}

abbrev or_none : Result SdkError (List IngestBatch) → List IngestBatch
or_none (ok bs) = bs
or_none (err e) = []

abbrev two_batches : List IngestBatch
two_batches = or_none (split_unit checksum_of len_of print_of "p" three 300)

split_three : split_unit checksum_of len_of print_of "p" three 300 ≡ ok two_batches
unfolding split_unit validate_unit key_set check_endpoints check_external_keys gather weld_all weld
    find climb compress initial_parents gather_memories gather_relationships insert_component
    modify_component all_memories all_relationships flush component_bytes check_component pack
    sign_all zeros repeat_zero sort_by insert_by lookup insert any every
split_three = refl

split_count : length two_batches ≡ 2
unfolding split_unit validate_unit key_set check_endpoints check_external_keys gather weld_all weld
    find climb compress initial_parents gather_memories gather_relationships insert_component
    modify_component all_memories all_relationships flush component_bytes check_component pack
    sign_all zeros repeat_zero sort_by insert_by lookup insert any every
split_count = refl

split_unit-ends_example :
    let outcome = split_unit checksum_of len_of print_of "p" three 300 in
    ((d : Detail) × (validate_unit three ≡ err (invalid_unit d)) × (outcome ≡ err (invalid_unit d)))
    ⊎ ((validate_unit three ≡ ok tt)
        × (((keys : List String) × (bound : String) × (outcome ≡ err (unsplittable keys bound)))
            ⊎ ((batches : List IngestBatch) × (outcome ≡ ok batches))))
split_unit-ends_example = split_unit-ends checksum_of len_of print_of "p" three 300

split_unit-IsAdmissible_example :
    All (λ (b : IngestBatch). IsAdmissible b × (len_of b ≤ 300)) two_batches
split_unit-IsAdmissible_example =
    split_unit-IsAdmissible checksum_of len_of print_of "p" three 300 two_batches split_three

split_unit-weight_example :
    batches_weight (λ m. true) (λ r. true) two_batches
    ≡ weight (λ m. true) (λ r. true) three.memories three.relationships
split_unit-weight_example =
    split_unit-weight (λ m. true) (λ r. true) checksum_of len_of print_of "p" three 300 two_batches
      split_three

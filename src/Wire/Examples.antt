-- ===== src/Wire/Examples.antt =====
-- The ceilings at a small batch.
use exocortex.Common.{ℕ, ◌≤◌, ◌≡◌, ◌↔◌, List, [], ◌∷◌, ok, length, All}
use exocortex.Wire.Limits.{
  MemoryFields, WithinLimits, validate_batch_resources, validate_batch_resources_iff,
}

abbrev batch : List MemoryFields
batch = record { content = "use a lock"; tags = "rust" ∷ [] } ∷ []

abbrev edges : List ℕ
edges = 1 ∷ []

validate_batch_resources_iff_example :
    (validate_batch_resources batch edges ≡ ok tt)
    ↔ ((length batch ≤ 256) × (length edges ≤ 64) × All WithinLimits batch)
validate_batch_resources_iff_example = validate_batch_resources_iff batch edges

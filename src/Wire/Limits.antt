-- ===== src/Wire/Limits.antt =====
-- crates/exocortex-wire/src/limits.rs: the fixed ceilings of a request and of a batch. A batch's drafts
-- stand by the fields that the ceilings read, its relationships by their number.
use Prim.Native.String.{len}
use exocortex.Common.{
  ℕ, ◌+◌, ◌*◌, ◌≤◌, ◌≡◌, ◌↔◌, refl, String, false, List, [], ◌∷◌, Result, ok, err, ◌>>◌, >>=-eq-ok,
  if◌then◌else◌, ltb, any, length, All, arith,
}

abbrev pub max_memory_content_bytes : ℕ
max_memory_content_bytes = 64 * 1024

abbrev pub max_tags_per_memory : ℕ
max_tags_per_memory = 32

abbrev pub max_tag_bytes : ℕ
max_tag_bytes = 128

abbrev pub max_tag_bytes_per_memory : ℕ
max_tag_bytes_per_memory = 2048

abbrev pub max_memories_per_batch : ℕ
max_memories_per_batch = 256

abbrev pub max_edges_per_batch : ℕ
max_edges_per_batch = 64

-- The sum of the lengths; a sum of at most 32 lengths that are at most 128 cannot overflow.
abbrev pub sum_len : List String → ℕ
sum_len [] = 0
sum_len (t ∷ ts) = len t + sum_len ts

unfoldable pub validate_memory_fields : String → List String → Result String (Unit {0})
unfolding any
validate_memory_fields content tags =
    if ltb max_memory_content_bytes (len content)
    then err "memory content exceeds 65536 UTF-8 bytes"
    else if ltb max_tags_per_memory (length tags)
    then err "memory has more than 32 tags"
    else if any (λ tag. ltb max_tag_bytes (len tag)) tags
    then err "tag exceeds 128 UTF-8 bytes"
    else if ltb max_tag_bytes_per_memory (sum_len tags)
    then err "aggregate tag bytes exceed 2048"
    else ok tt

pub record MemoryFields : Type 0 where
  pub content : String
  pub tags : List String

unfoldable pub validate_each : List MemoryFields → Result String (Unit {0})
validate_each [] = ok tt
validate_each (m ∷ ms) =
    let rest = validate_each ms in do validate_memory_fields m.content m.tags; rest

unfoldable pub validate_batch_resources {ℓ} :
    {E : Type ℓ} → List MemoryFields → List E → Result String (Unit {0})
validate_batch_resources memories edges =
    if ltb max_memories_per_batch (length memories)
    then err "batch has more than 256 memories"
    else if ltb max_edges_per_batch (length edges)
    then err "batch has more than 64 relationships"
    else validate_each memories

-- The ceilings as a reader states them.
pub record WithinLimits (m : MemoryFields) : Type 0 where
  pub content_small : len m.content ≤ 65536
  pub few_tags : length m.tags ≤ 32
  pub short_tags : All (λ (t : String). len t ≤ 128) m.tags
  pub tags_small : sum_len m.tags ≤ 2048

any-long :
    (ts : List String)
    → (any (λ t. ltb 128 (len t)) ts ≡ false) ↔ All (λ (t : String). len t ≤ 128) ts
unfolding any
any-long [] = (λ h. tt, λ h. refl)
any-long (t ∷ ts) =
    (λ h. ground (arith, (any-long ts).0), λ h. ground (arith, (any-long ts).1 h.1, h.0))

fields_iff : (m : MemoryFields) → (validate_memory_fields m.content m.tags ≡ ok tt) ↔ WithinLimits m
unfolding validate_memory_fields
fields_iff m = (
  λ h. record {
    content_small = ground arith;
    few_tags = ground arith;
    short_tags = (any-long m.tags).0 (ground arith);
    tags_small = ground arith;
  },
  λ w. ground (arith, (any-long m.tags).1 w.short_tags, w.content_small, w.few_tags, w.tags_small),
)

each_iff : (ms : List MemoryFields) → (validate_each ms ≡ ok tt) ↔ All WithinLimits ms
unfolding validate_each
each_iff [] = (λ h. tt, λ h. refl)
each_iff (m ∷ ms) = (
  λ h.
      let (u, first, rest) =
        >>=-eq-ok (validate_memory_fields m.content m.tags) (λ _. validate_each ms) h in
      ((fields_iff m).0 first, (each_iff ms).0 rest),
  λ h. ground (arith, (fields_iff m).1 h.0, (each_iff ms).1 h.1),
)

-- `validate_batch_resources` accepts a batch exactly when it has at most 256 memories and 64
-- relationships and every memory has at most 65536 bytes of content and 32 tags, of at most 128
-- bytes each and 2048 together.
pub validate_batch_resources_iff :
    {E : Type 0} (ms : List MemoryFields) (edges : List E)
    → (validate_batch_resources ms edges ≡ ok tt)
      ↔ ((length ms ≤ 256) × (length edges ≤ 64) × All WithinLimits ms)
unfolding validate_batch_resources
validate_batch_resources_iff ms edges = (
  λ h. (ground arith, ground arith, (each_iff ms).0 (ground arith)),
  λ (few, narrow, all). ground (arith, few, narrow, (each_iff ms).1 all),
)

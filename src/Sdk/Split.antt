-- ===== src/Sdk/Split.antt =====
-- `split_unit` of crates/exocortex-adapter-sdk/src/split.rs. The checksum and the encoded length of a
-- batch and the printing of an index are parameters. `find` runs on fuel, one more than there are edges.
mod Union
pub mod Forest
pub mod Weld
pub mod Entries
pub mod Cohesion
pub mod Gather
pub mod Closed
pub mod Packing
pub mod Conserved
pub mod Outcome
pub mod Lossless
unfoldable pub use Union.*
use Prim.Native.Nat.{Ordering}
use Prim.Native.String.{compare, then as then_with, ◌++◌ as str_append}
use exocortex.Common.{
  ℕ, zero, suc, ◌+◌, ◌/◌, ◌%◌, String, Bool, true, false, not, ◌&&◌, ◌||◌, Option, none, some, List,
  [], ◌∷◌, ◌++◌, map, Result, ok, err, if◌then◌else◌, ◌==◌, any, every, length, ltb, str_eq, Bytes,
  ◌>>=◌, ◌>>◌, HashKey, string_key, lookup, insert, sort_by,
}
use exocortex.Wire.Limits.{max_memories_per_batch, max_edges_per_batch}
use exocortex.Sdk.Rows.{
  DraftMemory, RelationshipDraft, Timestamp, ProducerIdentity, IngestBatch, BatchUnit, SdkError,
  unsplittable, halted, validate_unit,
}

-- `system_ts`
abbrev pub system_ts : Option ℕ → Timestamp
system_ts none = record { seconds = 0; nanos = 0 }
system_ts (some t) = record { seconds = t / 1000000000; nanos = t % 1000000000 }

abbrev pub key_after : DraftMemory → DraftMemory → Bool
key_after a b = is_gt (compare a.draft_key b.draft_key)

abbrev pub edge_after : RelationshipDraft → RelationshipDraft → Bool
edge_after a b = is_gt (
    then_with (compare a.from_draft_key b.from_draft_key)
      (then_with (compare a.to_draft_key b.to_draft_key) (compare a.kind b.kind)))

abbrev pub sorted_keys : List DraftMemory → List String
sorted_keys ms = sort_by (λ a b. is_gt (compare a b)) (map (λ (m : DraftMemory). m.draft_key) ms)

-- The variables of the packing loop.
pub record Packer : Type 0 where
  pub out : List IngestBatch
  pub pending : List Component
  pub pending_bytes : ℕ
  pub pending_memories : ℕ
  pub pending_edges : ℕ
  pub index : ℕ

unfoldable pub all_memories : List Component → List DraftMemory
all_memories [] = []
all_memories (c ∷ cs) = c.memories ++ all_memories cs

unfoldable pub all_relationships : List Component → List RelationshipDraft
all_relationships [] = []
all_relationships (c ∷ cs) = c.relationships ++ all_relationships cs

abbrev pub is_empty {ℓ} : {A : Type ℓ} → List A → Bool
is_empty [] = true
is_empty (x ∷ xs) = false

-- `"0".repeat(n)`
unfoldable pub zeros : ℕ → String
zeros zero = ""
zeros (suc n) = str_append "0" (zeros n)

module _ (canonical_checksum : IngestBatch → String) (encoded_len : IngestBatch → ℕ)
    (print : ℕ → String) where
  -- The rows that the checksum of the batch id covers.
  abbrev pub content_rows :
      String → BatchUnit → List DraftMemory → List RelationshipDraft → IngestBatch
  content_rows producer_id u ms rs = record {
    org_id = "";
    source_uri = "";
    producer_id = producer_id;
    batch_id = "";
    mapping_version = "";
    ontology_fingerprint = [];
    ceiling = 0;
    checksum = "";
    observed_at = none;
    recorded_at = none;
    snapshot = u.snapshot;
    memories = ms;
    relationships = rs;
    producer = none;
  }

  abbrev pub id_prefix : String → BatchUnit → ℕ → String
  id_prefix producer_id u index =
      str_append producer_id
        (str_append ":" (str_append u.batch_id_seed (str_append ":" (print index))))

  abbrev pub batch_of :
      String → BatchUnit → ℕ → List DraftMemory → List RelationshipDraft → IngestBatch
  batch_of producer_id u index ms rs = record (content_rows producer_id u ms rs) {
    batch_id =
        str_append (id_prefix producer_id u index)
          (str_append ":" (canonical_checksum (content_rows producer_id u ms rs)));
    observed_at = some (system_ts u.observed_at);
    producer = some (record {
      node_id = "";
      agent_id = "";
      adapter_id = "";
      hmac_signature = [];
      client_metadata = none;
    });
  }

  unfoldable pub flush : String → BatchUnit → Packer → Packer
  flush producer_id u s =
      let batch =
        batch_of producer_id u s.index (sort_by key_after (all_memories s.pending))
          (sort_by edge_after (all_relationships s.pending)) in
      if is_empty s.pending
      then s
      else record s { out = s.out ++ batch ∷ []; pending = []; index = (s.index + 1) % 4294967296 }

  unfoldable pub repeat_zero : ℕ → Bytes
  repeat_zero zero = []
  repeat_zero (suc n) = 0 ∷ repeat_zero n

  unfoldable pub component_bytes : String → BatchUnit → Component → ℕ → ℕ
  component_bytes producer_id u c index =
      encoded_len
        (record (content_rows producer_id u (sort_by key_after c.memories) c.relationships) {
          batch_id = id_prefix producer_id u index;
          ontology_fingerprint = repeat_zero 32;
          ceiling = 3;
          checksum = zeros 64;
          observed_at = some (system_ts u.observed_at);
          producer = some (record {
            node_id = "n";
            agent_id = "";
            adapter_id = "";
            hmac_signature = repeat_zero 32;
            client_metadata = none;
          });
        })

  -- The guards of the loop, first to last. The three on bytes end in the same error but for the order
  -- of the keys.
  unfoldable pub check_component : ℕ → Packer → Component → ℕ → Result SdkError (Unit {0})
  check_component max_batch_bytes s c bytes =
      let own = map (λ (m : DraftMemory). m.draft_key) c.memories in
      if ltb max_memories_per_batch (length c.memories)
      then err (unsplittable (sorted_keys c.memories) "max_memories_per_batch")
      else if ltb max_edges_per_batch (length c.relationships)
      then err (unsplittable (sorted_keys c.memories) "max_edges_per_batch")
      else if ltb max_batch_bytes bytes
      then if (length c.memories == 1)
          && (is_empty c.relationships && (is_empty s.pending && is_empty s.out))
        then err (unsplittable own "max_batch_bytes")
        else if not (is_empty c.relationships)
        then err (unsplittable (sorted_keys c.memories) "max_batch_bytes")
        else err (unsplittable own "max_batch_bytes")
      else ok tt

  abbrev pub overflows : ℕ → Packer → Component → ℕ → Bool
  overflows max_batch_bytes s c bytes =
      ltb max_batch_bytes (s.pending_bytes + bytes)
      || (ltb max_memories_per_batch (s.pending_memories + length c.memories)
          || ltb max_edges_per_batch (s.pending_edges + length c.relationships))

  abbrev pub push_component : Packer → Component → ℕ → Packer
  push_component s c bytes = record s {
    pending = s.pending ++ c ∷ [];
    pending_bytes = s.pending_bytes + bytes;
    pending_memories = s.pending_memories + length c.memories;
    pending_edges = s.pending_edges + length c.relationships;
  }

  abbrev pub make_room : String → BatchUnit → ℕ → Packer → Component → ℕ → Packer
  make_room producer_id u max_batch_bytes s c bytes =
      if overflows max_batch_bytes s c bytes && not (is_empty s.pending)
      then record (flush producer_id u s) {
        pending_bytes = 0;
        pending_memories = 0;
        pending_edges = 0;
      }
      else s

  unfoldable pub pack : String → BatchUnit → ℕ → Packer → Components → Result SdkError Packer
  pack producer_id u max_batch_bytes s [] = ok (flush producer_id u s)
  pack producer_id u max_batch_bytes s ((root, c) ∷ cs) =
      let bytes = component_bytes producer_id u c s.index in
      let rest =
        pack producer_id u max_batch_bytes
          (push_component (make_room producer_id u max_batch_bytes s c bytes) c bytes) cs in
      check_component max_batch_bytes s c bytes >> rest

  -- The last loop: the checksums, and the budget by the emitted length.
  unfoldable pub sign_all : ℕ → List IngestBatch → Result SdkError (List IngestBatch)
  sign_all max_batch_bytes [] = ok []
  sign_all max_batch_bytes (b ∷ bs) =
      let signed = record b { checksum = canonical_checksum b } in
      let rest = sign_all max_batch_bytes bs in
      if ltb max_batch_bytes (encoded_len signed)
      then err (unsplittable (sorted_keys b.memories) "max_batch_bytes")
      else (rest >>= λ out. ok (signed ∷ out))

  unfoldable pub split_unit : String → BatchUnit → ℕ → Result SdkError (List IngestBatch)
  split_unit producer_id u max_batch_bytes =
      validate_unit u
      >> (gather (length u.relationships + 1) u >>= λ components.
          pack producer_id u max_batch_bytes
            (record {
              out = [];
              pending = [];
              pending_bytes = 0;
              pending_memories = 0;
              pending_edges = 0;
              index = 0;
            })
            components
          >>= λ s. sign_all max_batch_bytes s.out)

-- ===== src/Sdk/Rows.antt =====
-- The drafts of proto/ingest.proto, with the unit, the errors and `validate_unit` of
-- crates/exocortex-adapter-sdk/src. What is only carried stands as bytes or numbers, and an error has
-- data in place of its text.
use exocortex.Common.{
  ℕ, String, Bool, true, false, not, ◌||◌, Option, none, some, List, [], ◌∷◌, Result, ok, err,
  if◌then◌else◌, ◌==◌, any, length, str_eq, Bytes, ◌>>◌,
}

pub record DraftMemory : Type 0 where
  pub draft_key : String
  pub id : String
  pub memory_type : String
  pub title : String
  pub content : String
  pub tags : List String
  pub visibility : ℕ
  pub valid_from : Option ℕ
  pub valid_until : Option ℕ
  pub external_key : Option Bytes
  pub rights : Option Bytes

pub record RelationshipDraft : Type 0 where
  pub from_draft_key : String
  pub to_draft_key : String
  pub kind : String
  pub strength : ℕ
  pub confidence : ℕ
  pub context : String
  pub visibility : ℕ
  pub to_memory_id : String

pub record Timestamp : Type 0 where
  pub seconds : ℕ
  pub nanos : ℕ

pub record ProducerIdentity : Type 0 where
  pub node_id : String
  pub agent_id : String
  pub adapter_id : String
  pub hmac_signature : Bytes
  pub client_metadata : Option Bytes

pub record IngestBatch : Type 0 where
  pub org_id : String
  pub source_uri : String
  pub producer_id : String
  pub batch_id : String
  pub mapping_version : String
  pub ontology_fingerprint : Bytes
  pub ceiling : ℕ
  pub checksum : String
  pub observed_at : Option Timestamp
  pub recorded_at : Option Timestamp
  pub snapshot : Option Bytes
  pub memories : List DraftMemory
  pub relationships : List RelationshipDraft
  pub producer : Option ProducerIdentity

-- A time after the epoch is its nanoseconds; one before the epoch is `none`.
pub record BatchUnit : Type 0 where
  pub batch_id_seed : String
  pub memories : List DraftMemory
  pub relationships : List RelationshipDraft
  pub snapshot : Option Bytes
  pub observed_at : Option ℕ

-- The details of `InvalidUnit`.
pub data Detail : Type 0 where
  duplicate_keys : List String → Detail
  dangling : String → String → Detail
  lacks_external_key : String → Detail

-- `halted` is an index of a map that panics, or fuel that runs out.
pub data SdkError : Type 0 where
  unsplittable : List String → String → SdkError
  invalid_unit : Detail → SdkError
  halted : SdkError

-- A set of texts: `contains_text` and `insert`.
abbrev pub contains_text : String → List String → Bool
contains_text k ks = any (str_eq k) ks

unfoldable pub key_set : List DraftMemory → List String
key_set [] = []
key_set (m ∷ ms) =
    let rest = key_set ms in if contains_text m.draft_key rest then rest else m.draft_key ∷ rest

unfoldable pub duplicates : List String → List DraftMemory → List String
duplicates seen [] = []
duplicates seen (m ∷ ms) =
    let rest = duplicates (m.draft_key ∷ seen) ms in
    if contains_text m.draft_key seen then m.draft_key ∷ rest else rest

unfoldable pub check_endpoints : List String → List RelationshipDraft → Result SdkError (Unit {0})
check_endpoints keys [] = ok tt
check_endpoints keys (r ∷ rs) =
    let rest = check_endpoints keys rs in
    if not (contains_text r.from_draft_key keys) || not (contains_text r.to_draft_key keys)
    then err (invalid_unit (dangling r.from_draft_key r.to_draft_key))
    else rest

abbrev pub is_none {ℓ} : {A : Type ℓ} → Option A → Bool
is_none none = true
is_none (some a) = false

unfoldable pub check_external_keys : List DraftMemory → Result SdkError (Unit {0})
check_external_keys [] = ok tt
check_external_keys (m ∷ ms) =
    let rest = check_external_keys ms in
    if is_none m.external_key then err (invalid_unit (lacks_external_key m.draft_key)) else rest

unfoldable pub validate_unit : BatchUnit → Result SdkError (Unit {0})
validate_unit u =
    let keys = key_set u.memories in
    if not (length keys == length u.memories)
    then err (invalid_unit (duplicate_keys (duplicates [] u.memories)))
    else (check_endpoints keys u.relationships
        >> (if is_none u.snapshot then ok tt else check_external_keys u.memories))

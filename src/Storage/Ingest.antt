-- ===== src/Storage/Ingest.antt =====
-- The ingest tables of crates/exocortex-storage/src/in_memory.rs: the settled batches, and the effects
-- that a worker claims, renews and acknowledges. A time is a number of milliseconds.
use Prim.Native.String.{compare}
use text.Mathlib.Text.{is_lt}
use exocortex.Common.{
  ℕ, ◌+◌, String, Bool, true, false, not, ◌&&◌, ◌||◌, Option, none, some, List, [], ◌∷◌,
  if◌then◌else◌, ltb, str_eq, any, Bytes, saturating_add, string_key, lookup, insert,
}
use exocortex.Storage.Rows.{IngestBatchKey, SettledIngestBatch}

-- The delta of a region is only carried, and stands as bytes.
pub record PostIngestEffect : Type 0 where
  pub effect_id : String
  pub session_memory_ids : List ℕ
  pub region_deltas : Bytes

pub record InMemoryIngestEffect : Type 0 where
  pub effect : PostIngestEffect
  pub acknowledged : Bool
  pub cleanup_complete : Bool
  pub delivery_generation : Option ℕ
  pub retain_legacy_identity : Bool
  pub claim : Option (String × ℕ)

pub record ClaimedPostIngestEffect : Type 0 where
  pub effect : PostIngestEffect
  pub delivery_generation : ℕ
  pub retain_legacy_identity : Bool

pub record IngestTable : Type 0 where
  pub settled_ingest : List (IngestBatchKey × SettledIngestBatch)
  pub ingest_effects : List (String × InMemoryIngestEffect)
  pub ingest_effect_generation : ℕ

-- `is_some_and(|(_, until)| *until > now)`
abbrev pub is_claimed : ℕ → Option (String × ℕ) → Bool
is_claimed now none = false
is_claimed now (some (token, until)) = ltb now until

abbrev pub is_live : ℕ → InMemoryIngestEffect → Bool
is_live now row = not row.acknowledged && is_claimed now row.claim

abbrev pub is_eligible : ℕ → InMemoryIngestEffect → Bool
is_eligible now row = not row.acknowledged && not (is_claimed now row.claim)

abbrev pub lesser : String → Option String → String
lesser a none = a
lesser a (some b) = if is_lt (compare b a) then b else a

-- The first of the sorted ids of the eligible rows.
unfoldable pub first_eligible : ℕ → List (String × InMemoryIngestEffect) → Option String
first_eligible now [] = none
first_eligible now ((id, row) ∷ m) =
    let rest = first_eligible now m in if is_eligible now row then some (lesser id rest) else rest

abbrev pub is_some {ℓ} : {A : Type ℓ} → Option A → Bool
is_some none = false
is_some (some a) = true

-- The claimed row: a row with an earlier claim but no generation is a legacy delivery.
unfoldable pub claimed_row : InMemoryIngestEffect → String → ℕ → ℕ → InMemoryIngestEffect
claimed_row row token until generation = record row {
  claim = some (token, until);
  delivery_generation = some generation;
  retain_legacy_identity =
      row.retain_legacy_identity || (not (is_some row.delivery_generation) && is_some row.claim);
}

unfoldable pub claim_selected :
    IngestTable
    → String
    → InMemoryIngestEffect
    → String
    → ℕ
    → IngestTable × Option ClaimedPostIngestEffect
claim_selected t id row token until =
    let generation = saturating_add t.ingest_effect_generation 1 in
    let claimed = claimed_row row token until generation in
    (
      record t {
        ingest_effects = insert id claimed t.ingest_effects;
        ingest_effect_generation = t.ingest_effect_generation + 1;
      },
      some (record {
        effect = row.effect;
        delivery_generation = generation;
        retain_legacy_identity = claimed.retain_legacy_identity;
      }),
    )

-- The row of the selected id, which is there.
abbrev pub claim_found :
    IngestTable
    → String
    → Option InMemoryIngestEffect
    → String
    → ℕ
    → IngestTable × Option ClaimedPostIngestEffect
claim_found t id none token until = (t, none)
claim_found t id (some row) token until = claim_selected t id row token until

abbrev pub claim_first :
    IngestTable → Option String → String → ℕ → IngestTable × Option ClaimedPostIngestEffect
claim_first t none token until = (t, none)
claim_first t (some id) token until = claim_found t id (lookup id t.ingest_effects) token until

unfoldable pub claim_ingest_effect :
    IngestTable → String → ℕ → ℕ → IngestTable × Option ClaimedPostIngestEffect
claim_ingest_effect t token lease_ms now =
    if any (λ (e : String × InMemoryIngestEffect). is_live now e.1) t.ingest_effects
    then (t, none)
    else claim_first t (first_eligible now t.ingest_effects) token (now + lease_ms)

-- The claim is this token's, and it has not expired.
abbrev pub claims : String → ℕ → Option (String × ℕ) → Bool
claims token now none = false
claims token now (some (held, until)) = str_eq held token && ltb now until

-- Writes a row if there is one and it passes a test.
abbrev pub update_if :
    IngestTable
    → String
    → Option InMemoryIngestEffect
    → (InMemoryIngestEffect → Bool)
    → (InMemoryIngestEffect → InMemoryIngestEffect)
    → IngestTable × Bool
update_if t id none test f = (t, false)
update_if t id (some row) test f =
    if test row
    then (record t { ingest_effects = insert id (f row) t.ingest_effects }, true)
    else (t, false)

unfoldable pub renew_ingest_effect_claim :
    IngestTable → String → String → ℕ → ℕ → IngestTable × Bool
renew_ingest_effect_claim t id token lease_ms now =
    update_if t id (lookup id t.ingest_effects) (λ row. claims token now row.claim)
      (λ row. record row { claim = some (token, now + lease_ms) })

unfoldable pub acknowledge_ingest_effect : IngestTable → String → String → ℕ → IngestTable × Bool
acknowledge_ingest_effect t id token now =
    update_if t id (lookup id t.ingest_effects)
      (λ row. not row.acknowledged && claims token now row.claim)
      (λ row. record row { acknowledged = true; claim = none })

unfoldable pub complete_ingest_effect_cleanup : IngestTable → String → IngestTable × Bool
complete_ingest_effect_cleanup t id =
    update_if t id (lookup id t.ingest_effects) (λ row. row.acknowledged)
      (λ row. record row { cleanup_complete = true })

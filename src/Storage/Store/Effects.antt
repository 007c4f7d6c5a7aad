-- ===== src/Storage/Store/Effects.antt =====
-- The ingest effects of in_memory.rs and the settled batches.
use exocortex.Common.{
  ℕ, ◌+◌, ◌≡◌, refl, Bool-cases, inl, inr, string_key, String, Bool, Option, none, some, any,
  lookup,
}
use exocortex.Storage.Rows.{batch_key}
use exocortex.Storage.Ingest.{
  PostIngestEffect, InMemoryIngestEffect, IngestTable, is_live, first_eligible, claim_selected,
  claim_found, claim_first, claim_ingest_effect, update_if,
}
use exocortex.Storage.Store.{insert_effect}

-- The operations on effects leave the settled batches alone.
claim_found-settled :
    (t : IngestTable) (id : String) (o : Option InMemoryIngestEffect) (token : String) (until : ℕ)
    → (claim_found t id o token until).0.settled_ingest ≡ t.settled_ingest
unfolding claim_selected
claim_found-settled t id none token until = refl
claim_found-settled t id (some row) token until = refl

claim_first-settled :
    (t : IngestTable) (o : Option String) (token : String) (until : ℕ)
    → (claim_first t o token until).0.settled_ingest ≡ t.settled_ingest
claim_first-settled t none token until = refl
claim_first-settled t (some id) token until =
    claim_found-settled t id (lookup id t.ingest_effects) token until

pub claim_ingest_effect-settled :
    (t : IngestTable) (token : String) (lease_ms now : ℕ)
    → (claim_ingest_effect t token lease_ms now).0.settled_ingest ≡ t.settled_ingest
unfolding claim_ingest_effect
claim_ingest_effect-settled t token lease_ms now =
    elim (Bool-cases
      (any (λ (e : String × InMemoryIngestEffect). is_live now e.1) t.ingest_effects)) [
        | inl busy ↦ rw busy refl
        | inr free ↦
            rw free
              (claim_first-settled t (first_eligible now t.ingest_effects) token (now + lease_ms))
      ]

pub update_if-settled :
    (t : IngestTable) (id : String) (o : Option InMemoryIngestEffect)
    (test : InMemoryIngestEffect → Bool) (f : InMemoryIngestEffect → InMemoryIngestEffect)
    → (update_if t id o test f).0.settled_ingest ≡ t.settled_ingest
update_if-settled t id none test f = refl
update_if-settled t id (some row) test f = elim (Bool-cases (test row)) [
  | inl pass ↦ rw pass refl
  | inr fail ↦ rw fail refl
]

pub insert_effect-settled :
    (t : IngestTable) (o : Option PostIngestEffect)
    → (insert_effect t o).settled_ingest ≡ t.settled_ingest
insert_effect-settled t none = refl
insert_effect-settled t (some e) = refl

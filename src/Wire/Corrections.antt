-- ===== src/Wire/Corrections.antt =====
-- crates/exocortex-wire/src/corrections.rs, with the codes of proto/ingest.proto: what a producer does
-- with a rejection.
use exocortex.Common.{ℕ, String, Option, List, [], ◌∷◌, get_elem?}

pub data RejectCode : Type 0 where
  unknown : RejectCode
  incompatible_ontology : RejectCode
  unknown_source : RejectCode
  unknown_memory_type : RejectCode
  unknown_kind : RejectCode
  invalid_type_triple : RejectCode
  visibility_widening : RejectCode
  missing_external_key : RejectCode
  duplicate_batch : RejectCode
  bad_checksum : RejectCode
  unauthorized : RejectCode
  rate_limited : RejectCode
  computed_kind_rejected : RejectCode
  invalid_external_key : RejectCode
  resource_limit_exceeded : RejectCode
  source_rewound : RejectCode
  schema_drift : RejectCode
  projection_bound_exceeded : RejectCode

pub data Disposition : Type 0 where
  success retry permanent fatal : Disposition

pub record RejectGuidance : Type 0 where
  pub disposition : Disposition
  pub correction : String

unfoldable pub guidance : RejectCode → RejectGuidance
guidance duplicate_batch = record {
  disposition = success;
  correction = "Transport replayed the same batch id. Harmless — do NOT resubmit.";
}
guidance rate_limited = record {
  disposition = retry;
  correction = "Backend is shedding load. Transient; the client retries. Do not resubmit by hand.";
}
guidance unknown = record {
  disposition = permanent;
  correction =
      "Generic validation failure (often title empty/>200 chars or empty content). Read `detail`; usually trim the title.";
}
guidance unknown_memory_type = record {
  disposition = permanent;
  correction =
      "Memory type not in this pack. Fix the type name; use only the types the playbook lists.";
}
guidance unknown_kind = record {
  disposition = permanent;
  correction =
      "Kind name typo or not in this pack. Fix the spelling; use only the assertable kinds the playbook lists.";
}
guidance invalid_type_triple = record {
  disposition = permanent;
  correction =
      "Kind does not fit the (from, to) memory types. Check the kind catalogue; `RelatedTo` is the always-valid fallback.";
}
guidance visibility_widening = record {
  disposition = permanent;
  correction =
      "Visibility above the source ceiling. Drop to a lower label (`project` is the default).";
}
guidance missing_external_key = record {
  disposition = permanent;
  correction =
      "External-snapshot batch without ExternalKey coordinates. Cannot occur for session wrapups; if seen, report it as a bug.";
}
guidance invalid_external_key = record {
  disposition = permanent;
  correction =
      "Malformed external coordinates (table_uuid must be 16 bytes, schema_hash 32). Cannot occur for session wrapups; report it as a bug.";
}
guidance resource_limit_exceeded = record {
  disposition = permanent;
  correction = "Reduce request bytes, content, tags, or edges to the advertised fixed limits.";
}
guidance bad_checksum = record {
  disposition = permanent;
  correction =
      "Batch checksum mismatch. The batch was mutated after signing; rebuild it from the drafts.";
}
guidance computed_kind_rejected = record {
  disposition = permanent;
  correction =
      "You asserted a computed-only kind (e.g. `SimilarTo`); only the consolidation cycle may. Use `RelatedTo` or `AnalogousTo`.";
}
guidance unauthorized = record {
  disposition = fatal;
  correction =
      "Credentials rejected (HMAC missing/invalid). Surface to the user; not fixable by you.";
}
guidance unknown_source = record {
  disposition = fatal;
  correction =
      "Producer not registered, ceiling mismatch, or wrong org. Surface to the user; not fixable by you.";
}
guidance incompatible_ontology = record {
  disposition = fatal;
  correction =
      "Ontology fingerprint mismatch — client and backend run different packs. Surface to the user; not fixable by you.";
}
guidance source_rewound = record {
  disposition = fatal;
  correction =
      "The source was rewound (snapshot rollback / slot reset) behind data already ingested. This needs an operator to reconcile the cursor — never retry.";
}
guidance schema_drift = record {
  disposition = fatal;
  correction =
      "Source schema no longer matches the registered mapping (column removed, retyped, or renamed). Re-register the projection deliberately with a bumped mapping_version.";
}
guidance projection_bound_exceeded = record {
  disposition = fatal;
  correction =
      "Submission exceeds a declared projection bound. Narrow the selector or raise the bound via a mapping_version bump — never truncate silently.";
}

-- The codes by their numbers.
abbrev pub reject_codes : List RejectCode
reject_codes =
    unknown ∷ incompatible_ontology ∷ unknown_source ∷ unknown_memory_type ∷ unknown_kind
    ∷ invalid_type_triple ∷ visibility_widening ∷ missing_external_key ∷ duplicate_batch
    ∷ bad_checksum ∷ unauthorized ∷ rate_limited ∷ computed_kind_rejected ∷ invalid_external_key
    ∷ resource_limit_exceeded ∷ source_rewound ∷ schema_drift ∷ projection_bound_exceeded ∷ []

-- `RejectCode::try_from`
abbrev pub reject_code : ℕ → Option RejectCode
reject_code n = get_elem? reject_codes n

-- `classify` of crates/exocortex-adapter-sdk/src/classify.rs
unfoldable pub classify : RejectCode → Disposition
unfolding guidance
classify code = (guidance code).disposition

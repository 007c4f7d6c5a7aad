-- ===== src/Storage/Store/Keeping/Reached.antt =====
-- What was accepted or settled in in_memory.rs, after any calls.
use exocortex.Common.{ℕ, refl, String, Bytes, string_key}
use exocortex.Kernel.Ontology.{Ontology}
use exocortex.Storage.Rows.{lease_key}
use exocortex.Storage.Journal.{cycle_key}
use exocortex.Storage.Store.{Store, settle_batch}
use exocortex.Storage.Store.Cases.{
  upsert_batch_fenced_cases, upsert_batch_once_cases, commit_ingest_batch_cases,
  delete_memory_fenced_cases,
}
use exocortex.Storage.Store.Steps.{
  Step, put_memory, put_batch, drop_memory, put_edge, drop_edge, commit_batch, import_once,
  put_batch_fenced, drop_memory_fenced, acquire, renew, release, claim_effect, renew_claim,
  acknowledge, clean_up, audit, put_batch_audited, drop_edge_audited, promote, propose, discover,
  discover_fenced, accept_proposal, put_batch_journaled, complete_cycle, settle_cycle, Call, step,
  roll_back, Reach, here, next,
}
use exocortex.Storage.Store.Keeping.{Remembers, Remembers-same}
use exocortex.Storage.Store.Keeping.Discoveries.{
  append_audit-Keeps, delete_relationship_audited-Keeps, promote_memory_visibility_audited-Keeps,
  store_discovery-Keeps, store_discovery_fenced-Keeps, create_discovery_proposal-Keeps,
  upsert_batch_audited-Keeps, accept_discovery-Keeps,
}
use exocortex.Storage.Store.Keeping.Cycles.{
  complete_cycle_journal_fenced-Keeps, settle_dreams_cycle_fenced-Keeps, restore_fenced-Keeps,
  upsert_batch_fenced_journaled-Keeps,
}

module _ (digest : Bytes → ℕ) (ontology : Ontology) (token_of : ℕ → String) (grace : ℕ) where
  Step-Remembers : {s t : Store} → Step digest ontology token_of grace s t → Remembers s t
  Step-Remembers (put_memory s m now) = Remembers-same s _ refl refl
  Step-Remembers (put_batch s ms rs now) = Remembers-same s _ refl refl
  Step-Remembers (drop_memory s id now) = Remembers-same s _ refl refl
  Step-Remembers (put_edge s r now) = Remembers-same s _ refl refl
  Step-Remembers (drop_edge s id now) = Remembers-same s _ refl refl
  Step-Remembers (commit_batch s key ms rs accepted effect now) =
      let same = Remembers-same s s refl refl in
      commit_ingest_batch_cases digest ontology (Remembers s) s key ms rs accepted effect now same
        (λ fresh. (
          Remembers-same s _ refl refl,
          λ settled is. unfold settle_batch in Remembers-same s _ refl refl,
        ))
  Step-Remembers (import_once s key ms rs now) =
      upsert_batch_once_cases digest ontology (Remembers s) s key ms rs now
        (Remembers-same s s refl refl)
        (Remembers-same s _ refl refl, λ is. Remembers-same s _ refl refl)
  Step-Remembers (put_batch_fenced s ms rs lease now) =
      upsert_batch_fenced_cases digest ontology (Remembers s) s ms rs lease now
        (Remembers-same s s refl refl)
        (Remembers-same s _ refl refl, λ is. Remembers-same s _ refl refl)
  Step-Remembers (drop_memory_fenced s id lease now) =
      delete_memory_fenced_cases (Remembers s) s id lease now (Remembers-same s s refl refl)
        (Remembers-same s _ refl refl)
  Step-Remembers (acquire s key ttl now) = Remembers-same s _ refl refl
  Step-Remembers (renew s lease now) = Remembers-same s _ refl refl
  Step-Remembers (release s lease) = Remembers-same s _ refl refl
  Step-Remembers (claim_effect s token ms now) = Remembers-same s _ refl refl
  Step-Remembers (renew_claim s id token ms now) = Remembers-same s _ refl refl
  Step-Remembers (acknowledge s id token now) = Remembers-same s _ refl refl
  Step-Remembers (clean_up s id) = Remembers-same s _ refl refl
  Step-Remembers (audit s a now) = (append_audit-Keeps s a now).remembers
  Step-Remembers (put_batch_audited s ms rs a now) =
      (upsert_batch_audited-Keeps digest ontology s ms rs a now).remembers
  Step-Remembers (drop_edge_audited s id a now) =
      (delete_relationship_audited-Keeps s id a now).remembers
  Step-Remembers (promote s m a now) = (promote_memory_visibility_audited-Keeps s m a now).remembers
  Step-Remembers (propose s p) = (create_discovery_proposal-Keeps s p).remembers
  Step-Remembers (discover s d) = (store_discovery-Keeps s d).remembers
  Step-Remembers (discover_fenced s d lease now) =
      (store_discovery_fenced-Keeps s d lease now).remembers
  Step-Remembers (accept_proposal s a now) =
      (accept_discovery-Keeps digest ontology s a now).remembers
  Step-Remembers (put_batch_journaled s ms rs prepared cycle_id lease now) =
      (upsert_batch_fenced_journaled-Keeps digest ontology s ms rs prepared cycle_id lease
        now).remembers
  Step-Remembers (complete_cycle s cycle_id lease now) =
      (complete_cycle_journal_fenced-Keeps s cycle_id lease now).remembers
  Step-Remembers (settle_cycle s content_digest cycle_id ds lease now) =
      (settle_dreams_cycle_fenced-Keeps content_digest s cycle_id ds lease now).remembers

  Call-Remembers : {s t : Store} → Call digest ontology token_of grace s t → Remembers s t
  Call-Remembers (step st) = Step-Remembers st
  Call-Remembers (roll_back s r lease now) = (restore_fenced-Keeps s r lease now).remembers

  -- What was accepted and what was settled stays so, whatever is called.
  pub Reach-Remembers :
      {s t : Store} → Reach (Call digest ontology token_of grace) s t → Remembers s t
  Reach-Remembers {s} here = Remembers-same s s refl refl
  Reach-Remembers (next r c) =
      let before = Reach-Remembers r in
      let after = Call-Remembers c in
      record {
        consumed = λ id p h. after.consumed id p (before.consumed id p h);
        succeeded = λ key d h. after.succeeded key d (before.succeeded key d h);
      }

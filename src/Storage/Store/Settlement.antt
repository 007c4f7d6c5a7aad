-- ===== src/Storage/Store/Settlement.antt =====
-- The settlement of ingest batches in in_memory.rs: a batch key is committed once.
use exocortex.Common.{
  some-not_none, ℕ, ◌≡◌, refl, sym, ap, ◌∙◌, Bool-cases, Option-cases, inl, inr, string_key, String,
  Option, none, some, List, Result, ok, err, Bytes, lookup, insert, lookup-insert_here,
  lookup-insert_there, get_last?,
}
use exocortex.Kernel.Ontology.{Ontology}
use exocortex.Kernel.Relationship.{Relationship}
use exocortex.Storage.Rows.{
  Memory, CommitRecord, Invalidation, StorageError, IngestBatchKey, batch_key, same_batch,
  same_batch_iff, SettledIngestBatch, IngestCommitOutcome, committed, duplicate,
}
use exocortex.Storage.InMemory.{Graph, upsert_batch_locked, publish}
use exocortex.Storage.Ingest.{
  PostIngestEffect, IngestTable, renew_ingest_effect_claim, acknowledge_ingest_effect,
  complete_ingest_effect_cleanup,
}
use exocortex.Storage.Store.{
  Store, conflicts, settle_batch, assigned, commit_written, publish_commit, commit_ingest_locked,
  commit_ingest_batch,
}
use exocortex.Storage.Store.Cases.{
  upsert_batch_fenced_cases, upsert_batch_once_cases, commit_ingest_batch_cases,
  delete_memory_fenced_cases,
}
use exocortex.Storage.Store.Steps.{
  Step, put_memory, put_batch, drop_memory, put_edge, drop_edge, commit_batch, import_once,
  put_batch_fenced, drop_memory_fenced, acquire, renew, release, claim_effect, renew_claim,
  acknowledge, clean_up, audit, put_batch_audited, drop_edge_audited, promote, propose, discover,
  discover_fenced, accept_proposal, put_batch_journaled, complete_cycle, settle_cycle, Call, step,
  roll_back, Reach, here, next,
}
use exocortex.Storage.Store.Keeping.{Keeps}
use exocortex.Storage.Store.Keeping.Discoveries.{
  append_audit-Keeps, delete_relationship_audited-Keeps, promote_memory_visibility_audited-Keeps,
  store_discovery-Keeps, store_discovery_fenced-Keeps, create_discovery_proposal-Keeps,
  upsert_batch_audited-Keeps, accept_discovery-Keeps,
}
use exocortex.Storage.Store.Keeping.Cycles.{
  complete_cycle_journal_fenced-Keeps, settle_dreams_cycle_fenced-Keeps, restore_fenced-Keeps,
  upsert_batch_fenced_journaled-Keeps,
}
use exocortex.Storage.Store.Effects.{
  claim_ingest_effect-settled, update_if-settled, insert_effect-settled,
}

err-not_committed :
    {e : StorageError} {o : IngestCommitOutcome}
    → ¬ Path (Result StorageError IngestCommitOutcome) (err e) (ok o)
err-not_committed h = cc

duplicate-not_committed :
    {x y : SettledIngestBatch} {records : List CommitRecord}
    → ¬ Path (Result StorageError IngestCommitOutcome) (ok (duplicate x)) (ok (committed records y))
duplicate-not_committed h = cc

committed_injective :
    {ks ls : List CommitRecord} {x y : SettledIngestBatch}
    → Path (Result StorageError IngestCommitOutcome) (ok (committed ks x)) (ok (committed ls y))
    → (ks ≡ ls) × (x ≡ y)
committed_injective h = (cc, cc)

-- The result that a batch key is settled with.
abbrev pub IsSettled : IngestBatchKey → SettledIngestBatch → Store → Type 0
IsSettled key x s = lookup key s.ingest.settled_ingest ≡ some x

-- A commit of another key.
settle_batch-IsSettled :
    (s : Store) (k key : IngestBatchKey) (x y : SettledIngestBatch)
    (effect : Option PostIngestEffect)
    → lookup key s.ingest.settled_ingest ≡ none
    → IsSettled k x s
    → IsSettled k x (settle_batch s key y effect)
unfolding settle_batch
settle_batch-IsSettled s k key x y effect free h =
    ap (lookup k) (
      insert_effect-settled
        (record s.ingest { settled_ingest = insert key y s.ingest.settled_ingest }) effect)
    ∙ elim (Bool-cases (same_batch key k)) [
      | inl same ↦ absurd (
          some-not_none (
            sym h
            ∙ ap (λ b. lookup b s.ingest.settled_ingest) (sym ((same_batch_iff key k).0 same))
            ∙ free))
      | inr other ↦ lookup-insert_there k key y s.ingest.settled_ingest other ∙ h
    ]

Keeps-IsSettled :
    (k : IngestBatchKey) (x : SettledIngestBatch) {s t : Store}
    → Keeps s t
    → IsSettled k x s
    → IsSettled k x t
Keeps-IsSettled k x kept h = ap (λ (t : IngestTable). lookup k t.settled_ingest) kept.ingest ∙ h

module _ (digest : Bytes → ℕ) (ontology : Ontology) (token_of : ℕ → String) (grace : ℕ) where
  Step-IsSettled :
      (k : IngestBatchKey) (x : SettledIngestBatch) {s t : Store}
      → Step digest ontology token_of grace s t
      → IsSettled k x s
      → IsSettled k x t
  unfolding renew_ingest_effect_claim acknowledge_ingest_effect complete_ingest_effect_cleanup
  Step-IsSettled k x (put_memory s m now) h = h
  Step-IsSettled k x (put_batch s ms rs now) h = h
  Step-IsSettled k x (drop_memory s id now) h = h
  Step-IsSettled k x (put_edge s r now) h = h
  Step-IsSettled k x (drop_edge s id now) h = h
  Step-IsSettled k x (commit_batch s key ms rs accepted effect now) h =
      commit_ingest_batch_cases digest ontology (IsSettled k x) s key ms rs accepted effect now h
        (λ free. (h, λ settled is. settle_batch-IsSettled s k key x settled effect free h))
  Step-IsSettled k x (import_once s key ms rs now) h =
      upsert_batch_once_cases digest ontology (IsSettled k x) s key ms rs now h (h, λ is. h)
  Step-IsSettled k x (put_batch_fenced s ms rs lease now) h =
      upsert_batch_fenced_cases digest ontology (IsSettled k x) s ms rs lease now h (h, λ is. h)
  Step-IsSettled k x (drop_memory_fenced s id lease now) h =
      delete_memory_fenced_cases (IsSettled k x) s id lease now h h
  Step-IsSettled k x (acquire s key ttl now) h = h
  Step-IsSettled k x (renew s lease now) h = h
  Step-IsSettled k x (release s lease) h = h
  Step-IsSettled k x (claim_effect s token ms now) h =
      ap (lookup k) (claim_ingest_effect-settled s.ingest token ms now) ∙ h
  Step-IsSettled k x (renew_claim s id token ms now) h =
      ap (lookup k) (update_if-settled s.ingest id (lookup id s.ingest.ingest_effects) _ _) ∙ h
  Step-IsSettled k x (acknowledge s id token now) h =
      ap (lookup k) (update_if-settled s.ingest id (lookup id s.ingest.ingest_effects) _ _) ∙ h
  Step-IsSettled k x (clean_up s id) h =
      ap (lookup k) (update_if-settled s.ingest id (lookup id s.ingest.ingest_effects) _ _) ∙ h
  Step-IsSettled k x (audit s a now) h = Keeps-IsSettled k x (append_audit-Keeps s a now) h
  Step-IsSettled k x (put_batch_audited s ms rs a now) h =
      Keeps-IsSettled k x (upsert_batch_audited-Keeps digest ontology s ms rs a now) h
  Step-IsSettled k x (drop_edge_audited s id a now) h =
      Keeps-IsSettled k x (delete_relationship_audited-Keeps s id a now) h
  Step-IsSettled k x (promote s m a now) h =
      Keeps-IsSettled k x (promote_memory_visibility_audited-Keeps s m a now) h
  Step-IsSettled k x (propose s p) h = Keeps-IsSettled k x (create_discovery_proposal-Keeps s p) h
  Step-IsSettled k x (discover s d) h = Keeps-IsSettled k x (store_discovery-Keeps s d) h
  Step-IsSettled k x (discover_fenced s d lease now) h =
      Keeps-IsSettled k x (store_discovery_fenced-Keeps s d lease now) h
  Step-IsSettled k x (accept_proposal s a now) h =
      Keeps-IsSettled k x (accept_discovery-Keeps digest ontology s a now) h
  Step-IsSettled k x (put_batch_journaled s ms rs prepared cycle_id lease now) h =
      Keeps-IsSettled k x
        (upsert_batch_fenced_journaled-Keeps digest ontology s ms rs prepared cycle_id lease now) h
  Step-IsSettled k x (complete_cycle s cycle_id lease now) h =
      Keeps-IsSettled k x (complete_cycle_journal_fenced-Keeps s cycle_id lease now) h
  Step-IsSettled k x (settle_cycle s content_digest cycle_id ds lease now) h =
      Keeps-IsSettled k x (settle_dreams_cycle_fenced-Keeps content_digest s cycle_id ds lease now)
        h

  Call-IsSettled :
      (k : IngestBatchKey) (x : SettledIngestBatch) {s t : Store}
      → Call digest ontology token_of grace s t
      → IsSettled k x s
      → IsSettled k x t
  Call-IsSettled k x (step st) h = Step-IsSettled k x st h
  Call-IsSettled k x (roll_back s r lease now) h =
      Keeps-IsSettled k x (restore_fenced-Keeps s r lease now) h

  Reach-IsSettled :
      (k : IngestBatchKey) (x : SettledIngestBatch) {s t : Store}
      → Reach (Call digest ontology token_of grace) s t
      → IsSettled k x s
      → IsSettled k x t
  Reach-IsSettled k x here h = h
  Reach-IsSettled k x (next r st) h = Call-IsSettled k x st (Reach-IsSettled k x r h)

  -- A commit of a key that is settled changes nothing and answers the settled result.
  commit_ingest_batch-duplicate :
      (u : Store) (key : IngestBatchKey) (x : SettledIngestBatch) (ms : List Memory)
      (rs : List Relationship) (accepted : ℕ) (effect : Option PostIngestEffect) (now : ℕ)
      → IsSettled key x u
      → commit_ingest_batch digest ontology u key ms rs accepted effect now ≡ (u, ok (duplicate x))
  unfolding commit_ingest_batch commit_ingest_locked publish
  commit_ingest_batch-duplicate u key x ms rs accepted effect now h = rw h refl

  -- What a commit that goes through settles.
  commit_written-IsSettled :
      (s t : Store) (key : IngestBatchKey) (accepted : ℕ) (effect : Option PostIngestEffect)
      (g : Graph) (r : Result StorageError (List CommitRecord × List Invalidation))
      (records : List CommitRecord) (x : SettledIngestBatch)
      → publish_commit (commit_written s key accepted effect (g, r)) ≡ (t, ok (committed records x))
      → IsSettled key x t
        × (x ≡ record {
          accepted = accepted;
          rejected = 0;
          assigned_lsn = assigned (get_last? records);
        })
  unfolding settle_batch
  commit_written-IsSettled s t key accepted effect g (err e) records x h =
      absurd (err-not_committed (ap (λ p. p.1) h))
  commit_written-IsSettled s t key accepted effect g (ok (rs, is)) records x h =
      let y : SettledIngestBatch = record {
        accepted = accepted;
        rejected = 0;
        assigned_lsn = assigned (get_last? rs);
      } in
      let (same_records, same_result) = committed_injective (ap (λ p. p.1) h) in
      (
        ap (λ (u : Store). lookup key u.ingest.settled_ingest) (sym (ap (λ p. p.0) h))
            ∙ ap (lookup key) (
                insert_effect-settled
                  (record s.ingest { settled_ingest = insert key y s.ingest.settled_ingest })
                  effect)
            ∙ lookup-insert_here key key y s.ingest.settled_ingest ((same_batch_iff key key).1 refl)
            ∙ ap some same_result,
        sym same_result
            ∙ ap
                (λ l. record {
                  accepted = accepted;
                  rejected = 0;
                  assigned_lsn = assigned (get_last? l);
                })
                same_records,
      )

  commit_ingest_batch-IsSettled :
      (s t : Store) (key : IngestBatchKey) (ms : List Memory) (rs : List Relationship)
      (accepted : ℕ) (effect : Option PostIngestEffect) (now : ℕ) (records : List CommitRecord)
      (x : SettledIngestBatch)
      → commit_ingest_batch digest ontology s key ms rs accepted effect now
        ≡ (t, ok (committed records x))
      → IsSettled key x t
        × (x ≡ record {
          accepted = accepted;
          rejected = 0;
          assigned_lsn = assigned (get_last? records);
        })
  unfolding commit_ingest_batch commit_ingest_locked publish
  commit_ingest_batch-IsSettled s t key ms rs accepted effect now records x h =
      let w = upsert_batch_locked digest ontology s.graph ms rs now in
      elim (Option-cases (lookup key s.ingest.settled_ingest)) [
        | inr (y, old) ↦ absurd (duplicate-not_committed (ap (λ p. p.1) (rw old at h)))
        | inl free ↦ elim (Bool-cases (conflicts s.ingest effect)) [
          | inl conflict ↦ absurd (err-not_committed (ap (λ p. p.1) (rw (free, conflict) at h)))
          | inr fine ↦
              commit_written-IsSettled s t key accepted effect w.0 w.1 records x
                (rw (free, fine) at h)
        ]
      ]

  -- A batch key is committed once: after a commit that answers a result, in every store that can be
  -- reached, a commit of the key with whatever rows and effect answers the same result as a duplicate and
  -- changes nothing. The result has the accepted count and the last LSN of the first commit's records.
  pub commit_ingest_batch-once :
      (s t u : Store) (key : IngestBatchKey) (ms : List Memory) (rs : List Relationship)
      (accepted : ℕ) (effect : Option PostIngestEffect) (now : ℕ) (records : List CommitRecord)
      (x : SettledIngestBatch)
      → commit_ingest_batch digest ontology s key ms rs accepted effect now
        ≡ (t, ok (committed records x))
      → Reach (Call digest ontology token_of grace) t u
      → (ms' : List Memory) (rs' : List Relationship) (accepted' : ℕ)
        (effect' : Option PostIngestEffect) (later : ℕ)
      → (commit_ingest_batch digest ontology u key ms' rs' accepted' effect' later
          ≡ (u, ok (duplicate x)))
        × (x ≡ record {
          accepted = accepted;
          rejected = 0;
          assigned_lsn = assigned (get_last? records);
        })
  commit_ingest_batch-once s t u key ms rs accepted effect now records x h run ms' rs' accepted'
        effect' later =
      let (here_x, result) =
        commit_ingest_batch-IsSettled s t key ms rs accepted effect now records x h in
      (
        commit_ingest_batch-duplicate u key x ms' rs' accepted' effect' later
            (Reach-IsSettled key x run here_x),
        result,
      )

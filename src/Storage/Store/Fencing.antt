-- ===== src/Storage/Store/Fencing.antt =====
-- The fencing of writes by leases in in_memory.rs. The printing of epochs is assumed injective.
use exocortex.Common.{
  ℕ, ◌+◌, ◌≡◌, refl, sym, subst, ◌∙◌, Bool-cases, inl, inr, String, List, Result, ok, err, Bytes,
  arith, lookup,
}
use exocortex.Kernel.Draft.{MemoryId}
use exocortex.Kernel.Ontology.{Ontology}
use exocortex.Kernel.Relationship.{Relationship}
use exocortex.Storage.Rows.{Memory, StorageError, fenced_write_rejected, LeaseKey, lease_key}
use exocortex.Storage.Discovery.{DiscoveryRecord}
use exocortex.Storage.Journal.{FencedRestore}
use exocortex.Storage.Store.Discoveries.{store_discovery_fenced}
use exocortex.Storage.Store.Settle.{
  upsert_batch_fenced_journaled, complete_cycle_journal_fenced, cycle_succeeded_fenced,
  settle_digested, settle_dreams_cycle_fenced, dreams_settlement_effect_digest,
}
use exocortex.Storage.Store.Rollback.{restore_fenced}
use exocortex.Storage.Leases.{OwnerLease, LeaseTable, holds, check_lease_current, acquire_lease}
use exocortex.Storage.Store.{Store, settle_batch, upsert_batch_fenced, delete_memory_fenced}
use exocortex.Storage.Store.Cases.{
  upsert_batch_fenced_cases, upsert_batch_once_cases, commit_ingest_batch_cases,
  delete_memory_fenced_cases,
}
use exocortex.Storage.Store.Steps.{
  Step, put_memory, put_batch, drop_memory, put_edge, drop_edge, commit_batch, import_once,
  put_batch_fenced, drop_memory_fenced, acquire, renew, release, claim_effect, renew_claim,
  acknowledge, clean_up, audit, put_batch_audited, drop_edge_audited, promote, propose, discover,
  discover_fenced, accept_proposal, put_batch_journaled, complete_cycle, settle_cycle, Call, step,
  roll_back, Reach, here, next,
}
use exocortex.Storage.Store.Keeping.{Keeps}
use exocortex.Storage.Store.Keeping.Discoveries.{
  append_audit-Keeps, delete_relationship_audited-Keeps, promote_memory_visibility_audited-Keeps,
  store_discovery-Keeps, store_discovery_fenced-Keeps, create_discovery_proposal-Keeps,
  upsert_batch_audited-Keeps, accept_discovery-Keeps,
}
use exocortex.Storage.Store.Keeping.Cycles.{
  complete_cycle_journal_fenced-Keeps, settle_dreams_cycle_fenced-Keeps, restore_fenced-Keeps,
  upsert_batch_fenced_journaled-Keeps,
}
use exocortex.Storage.Store.Epochs.{
  Minted, Minted-below, holds_row, acquire_lease-Minted, renew_lease-Minted, release_lease-Minted,
  acquire_lease-IsGranted,
}

-- The error of a settlement: that of its digest, if it has none.
abbrev pub digest_or : StorageError → Result StorageError String → StorageError
digest_or e (ok effect) = e
digest_or e (err x) = x

settle_digested-stale :
    (s : Store) (cycle_id : String) (ds : List DiscoveryRecord) (lease : OwnerLease) (now : ℕ)
    (e : StorageError)
    → check_lease_current s.lease_table lease now ≡ err e
    → (r : Result StorageError String)
    → settle_digested s cycle_id ds lease now r ≡ (s, err (digest_or e r))
settle_digested-stale s cycle_id ds lease now e bad (ok effect) = rw bad refl
settle_digested-stale s cycle_id ds lease now e bad (err x) = refl

module _ (digest : Bytes → ℕ) (ontology : Ontology) (token_of : ℕ → String) (grace : ℕ) where
  Keeps-Minted :
      (k : LeaseKey) (e : ℕ) {s t : Store}
      → Keeps s t
      → Minted token_of k e s.lease_table
      → Minted token_of k e t.lease_table
  Keeps-Minted k e kept h = subst (Minted token_of k e) (sym kept.lease_table) h

  -- Only the operations on leases write the lease table.
  Step-Minted :
      (k : LeaseKey) (e : ℕ) {s t : Store}
      → Step digest ontology token_of grace s t
      → Minted token_of k e s.lease_table
      → Minted token_of k e t.lease_table
  Step-Minted k e (put_memory s m now) h = h
  Step-Minted k e (put_batch s ms rs now) h = h
  Step-Minted k e (drop_memory s id now) h = h
  Step-Minted k e (put_edge s r now) h = h
  Step-Minted k e (drop_edge s id now) h = h
  Step-Minted k e (commit_batch s key ms rs accepted effect now) h =
      commit_ingest_batch_cases digest ontology (λ u. Minted token_of k e u.lease_table) s key ms rs
        accepted effect now h (λ fresh. (h, λ settled is. unfold settle_batch in h))
  Step-Minted k e (import_once s key ms rs now) h =
      upsert_batch_once_cases digest ontology (λ u. Minted token_of k e u.lease_table) s key ms rs
        now h (h, λ is. h)
  Step-Minted k e (put_batch_fenced s ms rs lease now) h =
      upsert_batch_fenced_cases digest ontology (λ u. Minted token_of k e u.lease_table) s ms rs
        lease now h (h, λ is. h)
  Step-Minted k e (drop_memory_fenced s id lease now) h =
      delete_memory_fenced_cases (λ u. Minted token_of k e u.lease_table) s id lease now h h
  Step-Minted k e (acquire s key ttl now) h =
      acquire_lease-Minted token_of grace k e s.lease_table key ttl now h
  Step-Minted k e (renew s lease now) h =
      renew_lease-Minted token_of grace k e s.lease_table lease now h
  Step-Minted k e (release s lease) h =
      release_lease-Minted token_of grace k e s.lease_table lease h
  Step-Minted k e (claim_effect s token ms now) h = h
  Step-Minted k e (renew_claim s id token ms now) h = h
  Step-Minted k e (acknowledge s id token now) h = h
  Step-Minted k e (clean_up s id) h = h
  Step-Minted k e (audit s a now) h = Keeps-Minted k e (append_audit-Keeps s a now) h
  Step-Minted k e (put_batch_audited s ms rs a now) h =
      Keeps-Minted k e (upsert_batch_audited-Keeps digest ontology s ms rs a now) h
  Step-Minted k e (drop_edge_audited s id a now) h =
      Keeps-Minted k e (delete_relationship_audited-Keeps s id a now) h
  Step-Minted k e (promote s m a now) h =
      Keeps-Minted k e (promote_memory_visibility_audited-Keeps s m a now) h
  Step-Minted k e (propose s p) h = Keeps-Minted k e (create_discovery_proposal-Keeps s p) h
  Step-Minted k e (discover s d) h = Keeps-Minted k e (store_discovery-Keeps s d) h
  Step-Minted k e (discover_fenced s d lease now) h =
      Keeps-Minted k e (store_discovery_fenced-Keeps s d lease now) h
  Step-Minted k e (accept_proposal s a now) h =
      Keeps-Minted k e (accept_discovery-Keeps digest ontology s a now) h
  Step-Minted k e (put_batch_journaled s ms rs prepared cycle_id lease now) h =
      Keeps-Minted k e
        (upsert_batch_fenced_journaled-Keeps digest ontology s ms rs prepared cycle_id lease now) h
  Step-Minted k e (complete_cycle s cycle_id lease now) h =
      Keeps-Minted k e (complete_cycle_journal_fenced-Keeps s cycle_id lease now) h
  Step-Minted k e (settle_cycle s content_digest cycle_id ds lease now) h =
      Keeps-Minted k e (settle_dreams_cycle_fenced-Keeps content_digest s cycle_id ds lease now) h

  Call-Minted :
      (k : LeaseKey) (e : ℕ) {s t : Store}
      → Call digest ontology token_of grace s t
      → Minted token_of k e s.lease_table
      → Minted token_of k e t.lease_table
  Call-Minted k e (step st) h = Step-Minted k e st h
  Call-Minted k e (roll_back s r lease now) h =
      Keeps-Minted k e (restore_fenced-Keeps s r lease now) h

  Reach-Minted :
      (k : LeaseKey) (e : ℕ) {s t : Store}
      → Reach (Call digest ontology token_of grace) s t
      → Minted token_of k e s.lease_table
      → Minted token_of k e t.lease_table
  Reach-Minted k e here h = h
  Reach-Minted k e (next r st) h = Call-Minted k e st (Reach-Minted k e r h)

  module _ (distinct : (m n : ℕ) → token_of m ≡ token_of n → m ≡ n) where
    -- A token of an epoch below what the key has reached is refused.
    check_lease_current-stale :
        (t : LeaseTable) (lease : OwnerLease) (e now : ℕ)
        → lease.fencing_token ≡ token_of e
        → Minted token_of lease.key (e + 1) t
        → check_lease_current t lease now ≡ err (fenced_write_rejected lease.epoch)
    unfolding check_lease_current
    check_lease_current-stale t lease e now stale h =
        elim (Bool-cases (holds lease now (lookup lease.key t.leases))) [
          | inr lost ↦ rw lost refl
          | inl held ↦
              let (row, f, token_eq) = holds_row lease now (lookup lease.key t.leases) held in
              let (n, le, minted) = h.tokens row f in
              absurd (omega (arith, le, distinct n e (sym minted ∙ token_eq ∙ stale)))
        ]

    -- Between two grants of one key, however the callers interleave, the first is dead: after the second
    -- grant, in every store that can be reached, rollbacks among the calls, every fenced call is rejected
    -- and changes nothing where the lease has the key and the token of the first (renewed or not, expired
    -- or not): a batch, a deletion, a journaled batch, a completion, a rollback, a discovery, the question
    -- whether a cycle succeeded, and a settlement, which answers the error of its digest where the digest
    -- of its discoveries fails. The hypothesis is that distinct epochs print as distinct tokens.
    pub Reach-fenced :
        (s t u v w : Store) (key : LeaseKey) (first second lease : OwnerLease)
        (ttl now ttl' now' : ℕ)
        → acquire_lease token_of grace s.lease_table key ttl now ≡ (t.lease_table, ok first)
        → Reach (Call digest ontology token_of grace) t u
        → acquire_lease token_of grace u.lease_table key ttl' now' ≡ (v.lease_table, ok second)
        → Reach (Call digest ontology token_of grace) v w
        → lease.key ≡ key
        → lease.fencing_token ≡ first.fencing_token
        → (ms : List Memory) (rs : List Relationship) (id : MemoryId) (restore : FencedRestore)
          (cycle_id : String) (d : DiscoveryRecord)
          (content_digest : List DiscoveryRecord → Result StorageError String)
          (ds : List DiscoveryRecord) (later : ℕ)
        → (upsert_batch_fenced digest ontology w ms rs lease later
            ≡ (w, err (fenced_write_rejected lease.epoch)))
          × (delete_memory_fenced w id lease later ≡ (w, err (fenced_write_rejected lease.epoch)))
          × (upsert_batch_fenced_journaled digest ontology w ms rs restore cycle_id lease later
              ≡ (w, err (fenced_write_rejected lease.epoch)))
          × (complete_cycle_journal_fenced w cycle_id lease later
              ≡ (w, err (fenced_write_rejected lease.epoch)))
          × (restore_fenced w restore lease later ≡ (w, err (fenced_write_rejected lease.epoch)))
          × (store_discovery_fenced w d lease later ≡ (w, err (fenced_write_rejected lease.epoch)))
          × (cycle_succeeded_fenced w cycle_id lease later
              ≡ (w, err (fenced_write_rejected lease.epoch)))
          × (settle_dreams_cycle_fenced content_digest w cycle_id ds lease later ≡ (
            w,
            err (
                digest_or
                  (fenced_write_rejected lease.epoch)
                  (dreams_settlement_effect_digest content_digest ds)),
          ))
    unfolding upsert_batch_fenced delete_memory_fenced upsert_batch_fenced_journaled
        complete_cycle_journal_fenced restore_fenced store_discovery_fenced cycle_succeeded_fenced
        settle_dreams_cycle_fenced
    Reach-fenced s t u v w key first second lease ttl now ttl' now' grant1 run1 grant2 run2 same
          token ms rs id restore cycle_id d content_digest ds later =
        let a =
          acquire_lease-IsGranted token_of grace s.lease_table t.lease_table key ttl now first
            grant1 in
        let b =
          acquire_lease-IsGranted token_of grace u.lease_table v.lease_table key ttl' now' second
            grant2 in
        let above = b.2 first.epoch (Reach-Minted key first.epoch run1 a.0) in
        let m =
          Minted-below token_of key (first.epoch + 1) second.epoch w.lease_table
            (omega (arith, above)) (Reach-Minted key second.epoch run2 b.0) in
        let bad =
          check_lease_current-stale w.lease_table lease first.epoch later (token ∙ a.1)
            (subst (λ k. Minted token_of k (first.epoch + 1) w.lease_table) (sym same) m) in
        (
          rw bad refl,
          rw bad refl,
          rw bad refl,
          rw bad refl,
          rw bad refl,
          rw bad refl,
          rw bad refl,
          settle_digested-stale w cycle_id ds lease later (fenced_write_rejected lease.epoch) bad
              (dreams_settlement_effect_digest content_digest ds),
        )

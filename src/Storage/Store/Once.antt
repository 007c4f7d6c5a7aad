-- ===== src/Storage/Store/Once.antt =====
-- What happens once in in_memory.rs: the acceptance of a proposal and the settlement of a cycle.
use exocortex.Common.{
  err-not_ok, ℕ, ◌≡◌, refl, sym, ap, ◌∙◌, Bool-cases, inl, inr, String, true, Option, none, some,
  List, Result, ok, err, if◌then◌else◌, Bytes, str_eq, eq_iff, any, string_key, lookup,
  lookup-insert_here, if-eq_of_true, if-eq_of_false,
}
use exocortex.Kernel.Ontology.{Ontology}
use exocortex.Storage.Rows.{
  StorageError, CommitRecord, proposal_not_found, proposal_mismatch, lease_key,
}
use exocortex.Storage.Discovery.{
  DiscoveryRecord, DiscoveryProposal, DiscoveryAcceptance, same_proposal,
}
use exocortex.Storage.Board.{
  StoredProposal, create_discovery_proposal, out_of_scope, get_discovery_proposal,
}
use exocortex.Storage.Journal.{CycleKey, cycle_key, same_cycle_iff, is_foreign}
use exocortex.Storage.Leases.{OwnerLease, check_lease_current}
use exocortex.Storage.Store.{Store}
use exocortex.Storage.Store.Discoveries.{
  deviates, accept, accept_found, accept_discovery, store_discovery,
}
use exocortex.Storage.Store.Settle.{
  settle_cycle as settle_cycle_locked, settle_new, settle_unless, settle_digested, unsettleable,
  cycle_succeeded, dreams_settlement_effect_digest, settle_dreams_cycle_fenced,
}
use exocortex.Storage.Store.Rollback.Journaled.{fenced-ok}
use exocortex.Storage.Store.Steps.{Call, Reach}
use exocortex.Storage.Store.Keeping.{IsConsumed, IsSucceeded}
use exocortex.Storage.Store.Keeping.Reached.{Reach-Remembers}

module _ (digest : Bytes → ℕ) (ontology : Ontology) (token_of : ℕ → String) (grace : ℕ) where
  -- An acceptance that goes through marks its proposal.
  accept_found-IsConsumed :
      (s t : Store) (a : DiscoveryAcceptance) (now : ℕ) (o : Option StoredProposal)
      (c : CommitRecord)
      → accept_found digest ontology s a now o ≡ (t, ok c)
      → (p : DiscoveryProposal) × IsConsumed a.discovery_id p t
  unfolding accept
  accept_found-IsConsumed s t a now none c h = absurd (err-not_ok (ap (λ x. x.1) h))
  accept_found-IsConsumed s t a now (some stored) c h = elim (Bool-cases stored.consumed) [
    | inl consumed ↦ absurd (err-not_ok (ap (λ x. x.1) (if-eq_of_true _ _ _ consumed h)))
    | inr free ↦
        let h1 = if-eq_of_false _ _ _ free h in
        elim (Bool-cases (deviates stored.proposal a)) [
          | inl wrong ↦ absurd (err-not_ok (ap (λ x. x.1) (if-eq_of_true _ _ _ wrong h1)))
          | inr right ↦
              let h2 = if-eq_of_false _ _ _ right h1 in
              (
                stored.proposal,
                ap (λ x. lookup a.discovery_id x.0.board.proposals) (sym h2)
                    ∙ lookup-insert_here a.discovery_id a.discovery_id _ s.board.proposals
                        ((eq_iff a.discovery_id a.discovery_id).1 refl),
              )
        ]
  ]

  -- What is refused of a consumed proposal.
  accept_discovery-consumed :
      (s : Store) (p : DiscoveryProposal) (b : DiscoveryAcceptance) (now : ℕ)
      → IsConsumed b.discovery_id p s
      → accept_discovery digest ontology s b now ≡ (s, err proposal_not_found)
  unfolding accept_discovery accept
  accept_discovery-consumed s p b now h = rw h refl

  create_discovery_proposal-consumed :
      (s : Store) (p q : DiscoveryProposal)
      → IsConsumed q.discovery_id p s
      → create_discovery_proposal s.board q ≡ (
        s.board,
        err (
            if out_of_scope q
            then proposal_mismatch
            else if same_proposal p q
            then proposal_not_found
            else proposal_mismatch),
      )
  unfolding create_discovery_proposal
  create_discovery_proposal-consumed s p q h = elim (Bool-cases (out_of_scope q)) [
    | inl out ↦ rw out refl
    | inr in_scope ↦
        rw (in_scope, h)
          (elim (Bool-cases (same_proposal p q)) [
            | inl same ↦ rw same refl
            | inr other ↦ rw other refl
          ])
  ]

  store_discovery-consumed :
      (s : Store) (p : DiscoveryProposal) (d : DiscoveryRecord)
      → IsConsumed d.discovery_id p s
      → store_discovery s d ≡ (s, err proposal_mismatch)
  unfolding store_discovery
  store_discovery-consumed s p d h = rw h refl

  -- A proposal is accepted once: after an acceptance that went through, in every store that calls lead
  -- to, whatever they are, each acceptance of its id is answered that there is no such proposal, the id
  -- has no proposal to read, it can neither be proposed nor discovered again, and none of these attempts
  -- changes the store.
  pub accept_discovery-once :
      (s t u : Store) (a b : DiscoveryAcceptance) (now later : ℕ) (c : CommitRecord)
      (q : DiscoveryProposal) (d : DiscoveryRecord)
      → accept_discovery digest ontology s a now ≡ (t, ok c)
      → Reach (Call digest ontology token_of grace) t u
      → b.discovery_id ≡ a.discovery_id
      → q.discovery_id ≡ a.discovery_id
      → d.discovery_id ≡ a.discovery_id
      → (accept_discovery digest ontology u b later ≡ (u, err proposal_not_found))
        × (get_discovery_proposal u.board a.discovery_id ≡ none)
        × ((create_discovery_proposal u.board q).0 ≡ u.board)
        × ((e : StorageError) × ((create_discovery_proposal u.board q).1 ≡ err e))
        × (store_discovery u d ≡ (u, err proposal_mismatch))
  unfolding accept_discovery get_discovery_proposal
  accept_discovery-once s t u a b now later c q d h run eb eq ed =
      let (p, done) =
        accept_found-IsConsumed s t a now (lookup a.discovery_id s.board.proposals) c h in
      let kept : IsConsumed a.discovery_id p u =
        (Reach-Remembers digest ontology token_of grace run).consumed a.discovery_id p done in
      let proposed =
        create_discovery_proposal-consumed u p q (ap (λ i. lookup i u.board.proposals) eq ∙ kept) in
      (
        accept_discovery-consumed u p b later (ap (λ i. lookup i u.board.proposals) eb ∙ kept),
        rw kept refl,
        ap (λ x. x.0) proposed,
        (_, ap (λ x. x.1) proposed),
        store_discovery-consumed u p d (ap (λ i. lookup i u.board.proposals) ed ∙ kept),
      )

  -- A settlement that goes through records its digest.
  settle_new-IsSucceeded :
      (s t : Store) (cycle_id : String) (ds : List DiscoveryRecord) (lease : OwnerLease)
      (effect : String)
      → settle_new s cycle_id ds lease effect ≡ (t, ok tt)
      → IsSucceeded (lease.key, cycle_id) effect t
  unfolding settle_cycle_locked
  settle_new-IsSucceeded s t cycle_id ds lease effect h =
      elim (Bool-cases (is_foreign cycle_id (lookup lease.key s.cycles.cycle_journals))) [
        | inl foreign ↦ absurd (err-not_ok (ap (λ x. x.1) (if-eq_of_true _ _ _ foreign h)))
        | inr own ↦
            let h1 = if-eq_of_false _ _ _ own h in
            elim (Bool-cases (any (unsettleable s) ds)) [
              | inl taken ↦ absurd (err-not_ok (ap (λ x. x.1) (if-eq_of_true _ _ _ taken h1)))
              | inr free ↦
                  let key : CycleKey = (lease.key, cycle_id) in
                  ap (λ x. lookup key x.0.cycles.succeeded_cycles)
                    (sym (if-eq_of_false _ _ _ free h1))
                  ∙ lookup-insert_here key key effect s.cycles.succeeded_cycles
                      ((same_cycle_iff key key).1 refl)
            ]
      ]

  settle_unless-IsSucceeded :
      (s t : Store) (cycle_id : String) (ds : List DiscoveryRecord) (lease : OwnerLease)
      (effect : String) (o : Option String)
      → lookup (lease.key, cycle_id) s.cycles.succeeded_cycles ≡ o
      → settle_unless s cycle_id ds lease effect o ≡ (t, ok tt)
      → IsSucceeded (lease.key, cycle_id) effect t
  settle_unless-IsSucceeded s t cycle_id ds lease effect none e h =
      settle_new-IsSucceeded s t cycle_id ds lease effect h
  settle_unless-IsSucceeded s t cycle_id ds lease effect (some stored) e h =
      elim (Bool-cases (str_eq stored effect)) [
        | inl same ↦
            ap (λ (x : Store). lookup (lease.key, cycle_id) x.cycles.succeeded_cycles)
              (sym (ap (λ x. x.0) h))
            ∙ e
            ∙ ap some ((eq_iff stored effect).0 same)
        | inr other ↦ absurd (err-not_ok (if-eq_of_false _ _ _ other (ap (λ x. x.1) h)))
      ]

  -- A cycle is settled once: after a settlement that went through, in every store that calls lead to,
  -- whatever they are, the cycle counts as succeeded for its key, and settling it again under a current
  -- lease of that key changes nothing. The answer is success where the discoveries have the digest of
  -- the first settlement, and a mismatch where they have another.
  pub settle_dreams_cycle_fenced-once :
      (content_digest : List DiscoveryRecord → Result StorageError String) (s t u : Store)
      (cycle_id : String) (ds es : List DiscoveryRecord) (lease other : OwnerLease) (now later : ℕ)
      (effect again : String)
      → dreams_settlement_effect_digest content_digest ds ≡ ok effect
      → settle_dreams_cycle_fenced content_digest s cycle_id ds lease now ≡ (t, ok tt)
      → Reach (Call digest ontology token_of grace) t u
      → other.key ≡ lease.key
      → dreams_settlement_effect_digest content_digest es ≡ ok again
      → check_lease_current u.lease_table other later ≡ ok tt
      → (cycle_succeeded u lease.key cycle_id ≡ true)
        × (settle_dreams_cycle_fenced content_digest u cycle_id es other later
            ≡ (u, if str_eq effect again then ok tt else err proposal_mismatch))
  unfolding settle_dreams_cycle_fenced cycle_succeeded
  settle_dreams_cycle_fenced-once content_digest s t u cycle_id ds es lease other now later effect
        again digest_ds h run same digest_es current =
      let settled : settle_digested s cycle_id ds lease now (ok effect) ≡ (t, ok tt) =
        ap (settle_digested s cycle_id ds lease now) (sym digest_ds) ∙ h in
      let done =
        settle_unless-IsSucceeded s t cycle_id ds lease effect
          (lookup (lease.key, cycle_id) s.cycles.succeeded_cycles) refl
          (fenced-ok s t (check_lease_current s.lease_table lease now) _ tt settled) in
      let kept : IsSucceeded (lease.key, cycle_id) effect u =
        (Reach-Remembers digest ontology token_of grace run).succeeded (lease.key, cycle_id) effect
          done in
      let there : IsSucceeded (other.key, cycle_id) effect u =
        ap (λ k. lookup (k, cycle_id) u.cycles.succeeded_cycles) same ∙ kept in
      (rw kept refl, rw (digest_es, current, there) refl)

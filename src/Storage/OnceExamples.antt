-- ===== src/Storage/OnceExamples.antt =====
-- The theorems on what happens once in a store in memory, on a discovery that is proposed and accepted
-- and on a cycle that is settled.
use exocortex.Common.{
  ◌≡◌, refl, true, false, none, [], ◌∷◌, ok, err, from_be, arith, nat_key, if◌then◌else◌, str_eq,
  filter, any, not, history, lookup, insert, remove, same_list, sort_by, insert_by,
}
use exocortex.Kernel.Visibility.{team, discriminant}
use exocortex.Kernel.Relationship.{Relationship}
use exocortex.Storage.Rows.{Memory, StorageError, proposal_not_found, proposal_mismatch, cleanup}
use exocortex.Storage.Discovery.{DiscoveryProposal, DiscoveryAcceptance, VisibilityContext}
use exocortex.Storage.Owned.{owns}
use exocortex.Storage.Board.{create_discovery_proposal, get_discovery_proposal}
use exocortex.Storage.Journal.{FencedRestore, no_restore}
use exocortex.Storage.InMemory.{commit_record, upsert_memory}
use exocortex.Storage.InMemory.History.{IsAscending}
use exocortex.Storage.Leases.{acquire_lease, check_lease_current}
use exocortex.Storage.Store.{Store}
use exocortex.Storage.Store.Discoveries.{accept_discovery, store_discovery}
use exocortex.Storage.Store.Settle.{
  announce_new, settle_cycle, cycle_succeeded, repeats_id, dreams_settlement_effect_digest,
  settle_dreams_cycle_fenced,
}
use exocortex.Storage.Store.Rollback.{restore_graph, restore_fenced}
use exocortex.Storage.Store.Rollback.Histories.{restore_graph-histories}
use exocortex.Storage.Store.Steps.{put_memory, step, roll_back, here, next}
use exocortex.Storage.Store.Once.{accept_discovery-once, settle_dreams_cycle_fenced-once}
use exocortex.Storage.Store.Ascending.{Reach-IsAscending}
use exocortex.Storage.Samples.{
  one_digest, tally, no_kinds, note, blank, empty, lead, lease_at, held_first,
}

abbrev scope : VisibilityContext
scope = record {
  user_id = "u";
  org_id = "o";
  project_ids = "p" ∷ [];
  team_ids = [];
  max_visibility = team;
}

abbrev offer : DiscoveryProposal
offer = record {
  discovery_id = "d";
  region = lead.region;
  from = 7;
  to = 8;
  kind = 3;
  proposed_visibility = team;
  caller_scope = scope;
  issued_at = 95;
}

abbrev link : Relationship
link = record {
  id = 70;
  kind = 3;
  from = 7;
  to = 8;
  visibility = team;
  provenance = 0;
  properties = record {
    strength = 0;
    confidence = 0;
    context = none;
    evidence_count = 0;
    success_rate = none;
    validation_count = 0;
    counter_evidence_count = 0;
    last_validated = 0;
  };
  description = none;
  bidirectional = false;
  valid_from = 0;
  valid_until = none;
  recorded_at = 0;
  invalidated_by = none;
  lsn = 0;
}

abbrev acceptance : DiscoveryAcceptance
acceptance = record {
  discovery_id = "d";
  region = lead.region;
  caller_scope = scope;
  relationship = link;
  audit = record {
    action = "accept";
    actor = "u";
    org_id = "o";
    input_digest = [];
    output_ids = [];
    fingerprint = [];
    lease_epoch = none;
    recorded_at = 99;
  };
}

abbrev offered : Store
offered =
    let found = (store_discovery empty lead).0 in
    record found { board = (create_discovery_proposal found.board offer).0 }

abbrev accepted : Store
accepted = (accept_discovery from_be no_kinds offered acceptance 100).0

accepted_once :
    accept_discovery from_be no_kinds offered acceptance 100 ≡ (accepted, ok (commit_record 2 100))
unfolding accept_discovery create_discovery_proposal store_discovery lookup insert remove any
    same_list discriminant
accepted_once = refl

abbrev after_accept : Store
after_accept = record accepted { graph = (upsert_memory accepted.graph (note 9) 101).0 }

accept_discovery-once_example :
    (accept_discovery from_be no_kinds after_accept acceptance 102
      ≡ (after_accept, err proposal_not_found))
    × (get_discovery_proposal after_accept.board "d" ≡ none)
    × ((create_discovery_proposal after_accept.board offer).0 ≡ after_accept.board)
    × ((e : StorageError) × ((create_discovery_proposal after_accept.board offer).1 ≡ err e))
    × (store_discovery after_accept lead ≡ (after_accept, err proposal_mismatch))
accept_discovery-once_example =
    accept_discovery-once from_be no_kinds tally 10 offered accepted after_accept acceptance
      acceptance 100 102 (commit_record 2 100) offer lead accepted_once
      (next here (step (put_memory accepted (note 9) 101))) refl refl refl

abbrev settled : Store
settled = (settle_dreams_cycle_fenced one_digest held_first "c" (lead ∷ []) (lease_at 1 100) 101).0

settled_once :
    settle_dreams_cycle_fenced one_digest held_first "c" (lead ∷ []) (lease_at 1 100) 101
    ≡ (settled, ok tt)
unfolding settle_dreams_cycle_fenced dreams_settlement_effect_digest sort_by insert_by repeats_id
    check_lease_current acquire_lease lookup insert any
settled_once = refl

digest_of_one : dreams_settlement_effect_digest one_digest (lead ∷ []) ≡ ok "x"
unfolding dreams_settlement_effect_digest sort_by insert_by repeats_id
digest_of_one = refl

abbrev after_settle : Store
after_settle = record settled { graph = (upsert_memory settled.graph (note 9) 102).0 }

still_held : check_lease_current after_settle.lease_table (lease_at 1 100) 103 ≡ ok tt
unfolding settle_dreams_cycle_fenced dreams_settlement_effect_digest sort_by insert_by repeats_id
    check_lease_current acquire_lease lookup insert any settle_cycle announce_new
still_held = refl

settle_dreams_cycle_fenced-once_example :
    (cycle_succeeded after_settle (cleanup "o") "c" ≡ true)
    × (settle_dreams_cycle_fenced one_digest after_settle "c" (lead ∷ []) (lease_at 1 100) 103
        ≡ (after_settle, if str_eq "x" "x" then ok tt else err proposal_mismatch))
settle_dreams_cycle_fenced-once_example =
    settle_dreams_cycle_fenced-once from_be no_kinds tally 10 one_digest held_first settled
      after_settle "c" (lead ∷ []) (lead ∷ []) (lease_at 1 100) (lease_at 1 100) 101 103 "x" "x"
      digest_of_one settled_once (next here (step (put_memory settled (note 9) 102))) refl
      digest_of_one still_held

ascends_empty : IsAscending empty.graph
unfolding history lookup
ascends_empty = record { memories = λ k. omega arith; rels = λ k. omega arith }

abbrev one_note : Store
one_note = record empty { graph = (upsert_memory blank (note 7) 50).0 }

abbrev taken_back : FencedRestore
taken_back = record no_restore { owned_memory_lsns = (7, 1 ∷ []) ∷ [] }

Reach-IsAscending_example :
    IsAscending (restore_fenced one_note taken_back (lease_at 1 100) 101).0.graph
Reach-IsAscending_example =
    Reach-IsAscending from_be no_kinds tally 10
      (next (next here (step (put_memory empty (note 7) 50)))
        (roll_back one_note taken_back (lease_at 1 100) 101))
      ascends_empty

restore_graph-histories_example :
    (history 7 (restore_graph 101 one_note.graph taken_back).memories
      ≡ filter
          (λ (m : Memory). not (owns taken_back.owned_memory_lsns 7 m.lsn))
          (history 7 one_note.graph.memories))
    × (history 7 (restore_graph 101 one_note.graph taken_back).rels
        ≡ filter
            (λ (e : Relationship). not (owns taken_back.owned_relationship_lsns 7 e.lsn))
            (history 7 one_note.graph.rels))
restore_graph-histories_example = restore_graph-histories 101 one_note.graph taken_back 7

-- ===== src/Cluster/Examples.antt =====
-- The theorems on the change feed at a ring of two that has evicted.
use exocortex.Common.{
  ℕ, ◌≤◌, max, ◌≡◌, refl, some, List, [], ◌∷◌, ◌++◌, arith, length, filter, ltb, saturating_add,
}
use exocortex.Cluster.ChangeLog.{
  InvalidationEnvelope, fresh, envelope_lsn, with_capacity, append, replay_since, replay_from,
}
use exocortex.Cluster.ChangeLog.Window.{append_all, append_all-window}
use exocortex.Cluster.ChangeLog.Replays.{replay_since-fresh, replay_since-current}

abbrev envelope : ℕ → InvalidationEnvelope
envelope lsn = record {
  wire_version = 1;
  ontology_fingerprint = [];
  emitter_node_id = "n";
  inv = some (record { kind = []; backend_lsn = lsn });
  hmac = [];
}

abbrev history : List InvalidationEnvelope
history = envelope 3 ∷ envelope 5 ∷ envelope 6 ∷ []

replayed : replay_since (append_all (with_capacity 2) history) 5 ≡ fresh (envelope 6 ∷ [])
unfolding replay_since append_all append with_capacity replay_from saturating_add envelope_lsn
    filter
replayed = refl

replay_since-fresh_example : envelope 6 ∷ [] ≡ filter (λ e. ltb 5 (envelope_lsn e)) history
unfolding envelope_lsn
replay_since-fresh_example =
    replay_since-fresh 2 5 history (envelope 6 ∷ []) (ground arith) replayed

replay_since-current_example :
    replay_since (append_all (with_capacity 2) history) 18446744073709551615 ≡ fresh []
unfolding envelope_lsn
replay_since-current_example =
    replay_since-current 2 18446744073709551615 history (omega arith) (ground arith)

append_all-window_example :
    (evicted : List InvalidationEnvelope) × (history
      ≡ evicted ++ (append_all (with_capacity 2) history).ring)
    × (length (append_all (with_capacity 2) history).ring ≤ max 2 1)
append_all-window_example = append_all-window 2 history

-- ===== src/Cluster/ChangeLog.antt =====
-- crates/exocortex-cluster/src/change_log.rs: the bounded ring of invalidation envelopes that a
-- reconnecting subscriber replays. The atomics and the mutex are fields of one record, so an
-- operation is one step. The payload of an invalidation is only carried, and stands as its bytes.
pub mod Window
pub mod Replays
pub mod Frontier
use exocortex.Common.{
  ℕ, ◌+◌, ◌<◌, max, String, Bool, true, false, Option, none, some, List, [], ◌∷◌, ◌++◌,
  if◌then◌else◌, ◌==◌, ltb, ◌&&◌, length, filter, Bytes, saturating_add,
}

-- proto/sse.proto and proto/cluster.proto
pub record Invalidation : Type 0 where
  pub kind : Bytes
  pub backend_lsn : ℕ

pub record InvalidationEnvelope : Type 0 where
  pub wire_version : ℕ
  pub ontology_fingerprint : Bytes
  pub emitter_node_id : String
  pub inv : Option Invalidation
  pub hmac : Bytes

pub data Replay : Type 0 where
  fresh : List InvalidationEnvelope → Replay
  too_old : Replay

abbrev pub replay_capacity_default : ℕ
replay_capacity_default = 4096

abbrev pub lsn_or_zero : Option Invalidation → ℕ
lsn_or_zero none = 0
lsn_or_zero (some i) = i.backend_lsn

unfoldable pub envelope_lsn : InvalidationEnvelope → ℕ
envelope_lsn e = lsn_or_zero e.inv

pub record RingChangeLog : Type 0 where
  pub ring : List InvalidationEnvelope
  pub cap : ℕ
  pub observed_anything : Bool
  pub max_observed_lsn : ℕ

unfoldable pub with_capacity : ℕ → RingChangeLog
with_capacity cap = record {
  ring = [];
  cap = max cap 1;
  observed_anything = false;
  max_observed_lsn = 0;
}

unfoldable pub new : RingChangeLog
unfolding with_capacity
new = with_capacity replay_capacity_default

-- `pop_front`
abbrev pub pop_front : List InvalidationEnvelope → List InvalidationEnvelope
pop_front [] = []
pop_front (e ∷ es) = es

unfoldable pub append : RingChangeLog → InvalidationEnvelope → RingChangeLog
append log envelope = record log {
  ring = (if length log.ring == log.cap then pop_front log.ring else log.ring) ++ envelope ∷ [];
  observed_anything = true;
  max_observed_lsn = max log.max_observed_lsn (envelope_lsn envelope);
}

-- The answer for a ring, by its front.
unfoldable pub replay_from : RingChangeLog → ℕ → List InvalidationEnvelope → Replay
replay_from log since_lsn [] =
    if log.observed_anything && ltb since_lsn log.max_observed_lsn then too_old else fresh []
replay_from log since_lsn (oldest ∷ ring) =
    if ltb (saturating_add since_lsn 1) (envelope_lsn oldest)
    then too_old
    else fresh (filter (λ e. ltb since_lsn (envelope_lsn e)) (oldest ∷ ring))

unfoldable pub replay_since : RingChangeLog → ℕ → Replay
replay_since log since_lsn = replay_from log since_lsn log.ring

abbrev pub front_lsn : List InvalidationEnvelope → ℕ
front_lsn [] = 1
front_lsn (e ∷ es) = envelope_lsn e

unfoldable pub replay_floor : RingChangeLog → ℕ
replay_floor log = front_lsn log.ring

unfoldable pub frontier : RingChangeLog → Option ℕ
frontier log = if log.observed_anything then some log.max_observed_lsn else none

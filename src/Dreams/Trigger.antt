-- ===== src/Dreams/Trigger.antt =====
-- crates/exocortex-dreams/src/trigger.rs. The fields of the thresholds are u32, so that their products
-- fit the u64 in which they are taken.
use exocortex.Common.{
  ℕ, ◌*◌, ◌≤◌, ◌≡◌, ◌↔◌, ◌⊎◌, Bool, true, false, ◌||◌, if◌then◌else◌, ltb, leb, arith,
}

pub record RegionWriteCounters : Type 0 where
  pub memories_since_last_cycle : ℕ
  pub edges_since_last_cycle : ℕ
  pub seconds_since_last_cycle : ℕ

pub record DreamsTrigger : Type 0 where
  pub memory_threshold : ℕ
  pub edge_threshold : ℕ
  pub age_floor_days : ℕ
  pub min_interval_hours : ℕ

abbrev pub default_trigger : DreamsTrigger
default_trigger = record {
  memory_threshold = 1000;
  edge_threshold = 5000;
  age_floor_days = 30;
  min_interval_hours = 6;
}

unfoldable pub should_fire : DreamsTrigger → RegionWriteCounters → Bool
should_fire t c =
    if ltb c.seconds_since_last_cycle (t.min_interval_hours * 3600)
    then false
    else leb t.memory_threshold c.memories_since_last_cycle
      || (leb t.edge_threshold c.edges_since_last_cycle
          || leb (t.age_floor_days * 86400) c.seconds_since_last_cycle)

-- A trigger fires exactly when its minimal interval has passed since the last cycle and either the
-- memories or the edges since then have reached their threshold or the age floor has passed. With
-- the default thresholds it never fires in the first 6 hours, and from 30 days on it fires with no write.
pub should_fire_iff :
    (t : DreamsTrigger) (c : RegionWriteCounters)
    → ((should_fire t c ≡ true) ↔ (
        (t.min_interval_hours * 3600 ≤ c.seconds_since_last_cycle)
        × ((t.memory_threshold ≤ c.memories_since_last_cycle)
            ⊎ ((t.edge_threshold ≤ c.edges_since_last_cycle)
                ⊎ (t.age_floor_days * 86400 ≤ c.seconds_since_last_cycle)))))
      × ((should_fire default_trigger c ≡ true) ↔ (
          (21600 ≤ c.seconds_since_last_cycle)
          × ((1000 ≤ c.memories_since_last_cycle)
              ⊎ ((5000 ≤ c.edges_since_last_cycle) ⊎ (2592000 ≤ c.seconds_since_last_cycle)))))
unfolding should_fire
should_fire_iff t c =
    ((λ h. ground arith, λ h. ground arith), (λ h. ground arith, λ h. ground arith))

-- ===== src/Dreams/Examples.antt =====
-- The trigger with its default thresholds.
use exocortex.Common.{◌*◌, ◌≤◌, ◌≡◌, ◌↔◌, ◌⊎◌, true}
use exocortex.Dreams.Trigger.{RegionWriteCounters, default_trigger, should_fire, should_fire_iff}

abbrev busy : RegionWriteCounters
busy = record {
  memories_since_last_cycle = 1000;
  edges_since_last_cycle = 0;
  seconds_since_last_cycle = 25200;
}

should_fire_iff_example :
    ((should_fire default_trigger busy ≡ true)
      ↔ ((6 * 3600 ≤ 25200) × ((1000 ≤ 1000) ⊎ ((5000 ≤ 0) ⊎ (30 * 86400 ≤ 25200)))))
    × ((should_fire default_trigger busy ≡ true)
        ↔ ((21600 ≤ 25200) × ((1000 ≤ 1000) ⊎ ((5000 ≤ 0) ⊎ (2592000 ≤ 25200)))))
should_fire_iff_example = should_fire_iff default_trigger busy

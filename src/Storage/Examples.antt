-- ===== src/Storage/Examples.antt =====
-- The quiesce window at a store that was armed one second after the clock's start.
use exocortex.Common.{◌+◌, ◌≤◌, ◌<◌, ◌≡◌, ◌↔◌, none, some, arith}
use exocortex.Storage.ForkWindow.{arm, hold_remaining, hold_remaining-arm}

hold_remaining-arm_example :
    (((hold_remaining (arm 1000) (1000 + 30000) 31001).1 ≡ some 45000)
      ↔ ((25000 ≤ 30000) × (0 < 45000) × (30000 + 45000 ≡ 75000)))
    × ((hold_remaining (arm 1000) (1000 + 30000) 31001).1 ≡ some 45000
        ↔ (hold_remaining (arm 1000) (1000 + 30000) 31001 ≡ (1000, some 45000)))
    × (hold_remaining (arm 1000) (1000 + 75000 + 7) (1000 + 75000 + 7 + 1) ≡ (0, none))
    × (hold_remaining 0 90000 90001 ≡ (0, none))
hold_remaining-arm_example = hold_remaining-arm 1000 30000 31001 7 1 45000 90000 90001 (omega arith)

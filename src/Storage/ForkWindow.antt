-- ===== src/Storage/ForkWindow.antt =====
-- crates/exocortex-storage/src/fork_window.rs: the window after the boot of a store in which commands
-- wait. The atomic mark is the state, 0 for disarmed; the clock's milliseconds are an argument.
use exocortex.Common.{
  ℕ, ◌+◌, ◌-◌, ◌≤◌, ◌<◌, ◌≡◌, ◌≢◌, ◌↔◌, Bool, true, false, not, ◌&&◌, Option, none, some,
  if◌then◌else◌, ◌==◌, ltb, leb, arith,
}

abbrev pub hold_from_ms : ℕ
hold_from_ms = 25000

abbrev pub hold_until_ms : ℕ
hold_until_ms = 75000

-- `arm` stores the clock.
unfoldable pub arm : ℕ → ℕ
arm now_ms = now_ms

-- The subtraction stops at 0, as `saturating_sub` does.
unfoldable pub hold_for : Option ℕ → ℕ → Option ℕ
hold_for none now_ms = none
hold_for (some armed) now_ms =
    if ltb (now_ms - armed) hold_from_ms
    then none
    else if leb hold_until_ms (now_ms - armed)
    then none
    else some (hold_until_ms - (now_ms - armed))

abbrev pub is_none : Option ℕ → Bool
is_none none = true
is_none (some d) = false

-- The mark after the call, and how long to hold. The clock is read twice; `now_ms` is the first
-- reading and `later_ms` the second.
unfoldable pub hold_remaining : ℕ → ℕ → ℕ → ℕ × Option ℕ
unfolding hold_for
hold_remaining armed now_ms later_ms =
    let hold = hold_for (if armed == 0 then none else some armed) now_ms in
    (
      if is_none hold && (not (armed == 0) && leb hold_until_ms (later_ms - armed))
          then 0
          else armed,
      hold,
    )

-- Where the window was armed when the clock did not read 0: a command that asks is told to wait for `d`
-- exactly when it asks from 25 seconds after the arming on and `d` is the time that is left until 75
-- seconds after it, and it leaves the window armed. A command that asks from 75 seconds on, as one that
-- has waited does, is not held and disarms the window, and while it is disarmed no command is held.
pub hold_remaining-arm :
    (boot passed later after tick d now now' : ℕ)
    → boot ≢ 0
    → (((hold_remaining (arm boot) (boot + passed) later).1 ≡ some d)
        ↔ ((25000 ≤ passed) × (0 < d) × (passed + d ≡ 75000)))
      × ((hold_remaining (arm boot) (boot + passed) later).1 ≡ some d
          ↔ (hold_remaining (arm boot) (boot + passed) later ≡ (boot, some d)))
      × (hold_remaining (arm boot) (boot + 75000 + after) (boot + 75000 + after + tick) ≡ (0, none))
      × (hold_remaining 0 now now' ≡ (0, none))
unfolding hold_remaining arm
hold_remaining-arm boot passed later after tick d now now' armed = (
  (λ h. ground arith, λ h. ground arith),
  (λ h. ground arith, λ h. ground arith),
  ground arith,
  ground arith,
)

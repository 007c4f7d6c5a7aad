-- ===== src/Kernel/Visibility.antt =====
-- crates/exocortex-kernel/src/visibility.rs
pub mod Laws
use exocortex.Common.{ℕ, Bool, Option, none, some, List, [], ◌∷◌, ltb, leb, if◌then◌else◌}

pub data Visibility : Type 0 where
  private project team org public : Visibility

-- `self as u8`
unfoldable pub discriminant : Visibility → ℕ
discriminant private = 0
discriminant project = 1
discriminant team = 2
discriminant org = 3
discriminant public = 4

unfoldable pub within : Visibility → Visibility → Bool
unfolding discriminant
within v ceiling = leb (discriminant v) (discriminant ceiling)

-- `Ord::min`: the second argument only if it is strictly smaller.
unfoldable pub relationship_visibility : Visibility → Visibility → Visibility
unfolding discriminant
relationship_visibility from to = if ltb (discriminant to) (discriminant from) then to else from

-- The fold under `Iterator::min`.
unfoldable pub narrowest_from : Visibility → List Visibility → Visibility
unfolding relationship_visibility
narrowest_from v [] = v
narrowest_from v (w ∷ ws) = narrowest_from (relationship_visibility v w) ws

unfoldable pub narrowest_visibility : List Visibility → Option Visibility
unfolding narrowest_from
narrowest_visibility [] = none
narrowest_visibility (v ∷ vs) = some (narrowest_from v vs)

-- ===== src/Wal/Idempotent.antt =====
-- Appending a batch twice to the log of wal.rs.
use exocortex.Common.{◌≡◌, List, map, ok}
use exocortex.Wal.Sled.{Sled}
use exocortex.Wal.Log.{Wal}

-- Every row of the tree is read without an io error.
abbrev pub Reads : (sled : Sled) → Wal sled → Type 0
Reads sled w = sled.iter w.tree ≡ map (λ r. ok r) (sled.rows w.tree)

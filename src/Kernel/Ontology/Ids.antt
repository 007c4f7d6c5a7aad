-- ===== src/Kernel/Ontology/Ids.antt =====
-- Kind ids after `canonicalized`: the packs' slots do not overlap, and kernel ids are kept.
use exocortex.Common.{ℕ, ◌^◌, ◌<◌, ◌≡◌, false, arith}
use exocortex.Kernel.Kinds.{RelKindId, is_kernel, local_part}
use exocortex.Kernel.Ontology.{canonical_id}

-- A canonical id determines the pack and the local part of the pack-space id that it was made
-- from, whatever the packs, while there are fewer than 2 ^ 15 of them.
pub canonical_id-injective :
    (i j : ℕ) (a b : RelKindId)
    → i < 2 ^ 15
    → j < 2 ^ 15
    → is_kernel a ≡ false
    → is_kernel b ≡ false
    → canonical_id i a ≡ canonical_id j b
    → (i ≡ j) × (local_part a ≡ local_part b)
unfolding canonical_id
canonical_id-injective i j a b hi hj ka kb e = ground arith

-- Whatever the pack, canonicalizing an id keeps it in the kernel's space or out of it, and doing it
-- twice is doing it once.
canonical_id-twice :
    (i : ℕ) (k : RelKindId)
    → (is_kernel (canonical_id i k) ≡ is_kernel k)
      × (canonical_id i (canonical_id i k) ≡ canonical_id i k)
unfolding canonical_id
canonical_id-twice i k = ground arith

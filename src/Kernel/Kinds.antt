-- ===== src/Kernel/Kinds.antt =====
-- crates/exocortex-kernel/src/kinds.rs. An `f32` is only carried, and stands as its bit pattern.
use exocortex.Common.{ℕ, ◌+◌, ◌*◌, ◌%◌, ◌^◌, String, Bool, Option, ltb}

-- `RelKindId`, a u32. The high bit tells the ids of packs from those of the kernel.
abbrev pub RelKindId : Type 0
RelKindId = ℕ

unfoldable pub from_kernel : ℕ → RelKindId
from_kernel local = local

-- `0x8000_0000 | (pack << 16) | local`: the shift drops what passes 32 bits, the or sets bit 31,
-- and the u16 `local` fills the low bits, which the shift leaves free.
unfoldable pub from_pack : ℕ → ℕ → RelKindId
from_pack pack local = 2 ^ 31 + (pack * 2 ^ 16) % 2 ^ 31 + local

unfoldable pub is_kernel : RelKindId → Bool
is_kernel k = ltb k (2 ^ 31)

unfoldable pub local_part : RelKindId → ℕ
local_part k = k % 2 ^ 16

abbrev pub solves : RelKindId
solves = 0

abbrev pub fixes : RelKindId
fixes = 1

abbrev pub causes : RelKindId
causes = 2

abbrev pub in_session : RelKindId
in_session = 3

pub data RelBucket : Type 0 where
  causal solution context learning similarity workflow quality integration : RelBucket
  extension : ℕ → RelBucket

pub record RelMeta : Type 0 where
  pub id : RelKindId
  pub display_name : String
  pub bucket : RelBucket
  pub inverse : Option RelKindId
  pub bidirectional : Bool
  pub default_strength : ℕ
  pub computed_only : Bool

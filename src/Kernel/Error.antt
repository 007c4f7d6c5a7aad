-- ===== src/Kernel/Error.antt =====
-- crates/exocortex-kernel/src/error.rs
use exocortex.Common.{ℕ, String}
use exocortex.Kernel.Visibility.{Visibility}
use exocortex.Kernel.Kinds.{RelKindId}

pub data KernelError : Type 0 where
  duplicate_pack : String → KernelError
  duplicate_kind : RelKindId → KernelError
  duplicate_kind_name : String → KernelError
  unbound_kernel_constant : RelKindId → KernelError
  unknown_kind : RelKindId → KernelError
  invalid_type_triple : RelKindId → ℕ → KernelError
  title_bounds : KernelError
  empty_content : KernelError
  visibility_widening : String → Visibility → Visibility → KernelError
  summary_bounds : KernelError
  metadata_too_large : KernelError
  score_out_of_range : ℕ → KernelError
  duplicate_type_name : String → KernelError
  invalid_action_input : String → KernelError

-- ===== src/Wal/Entry.antt =====
-- The records of wal.rs. Numbers and ids that an error message prints are left out of its text.
use exocortex.Common.{ℕ, ◌*◌, String, Bool, List}
use exocortex.Kernel.Draft.{MemoryDraft, MemoryId}

pub data WalState : Type 0 where
  pending : WalState
  synced : ℕ → WalState
  failed : WalState

pub record WalEntry : Type 0 where
  pub local_lsn : ℕ
  pub session_id : String
  pub memories : List MemoryDraft
  pub memory_ids : List MemoryId
  pub state : WalState
  pub batch_id : String
  pub draft_keys : List String
  pub org : String
  pub user : String
  pub tags : List (List String)

pub data WalError : Type 0 where
  io : String → WalError
  corrupt : ℕ → String → WalError
  full : ℕ → ℕ → WalError

abbrev pub wal_max_bytes : ℕ
wal_max_bytes = 100 * 1024 * 1024

pub record TailRow : Type 0 where
  pub local_lsn : ℕ
  pub recorded_at : String
  pub pending : Bool
  pub batch_id : String
  pub memory_count : ℕ
  pub draft_keys : List String

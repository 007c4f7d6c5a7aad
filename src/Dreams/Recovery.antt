-- ===== src/Dreams/Recovery.antt =====
-- crates/exocortex-dreams/src/lib.rs: how the owner of a region's lease recovers a cycle that was left
-- unfinished, on the store in memory. A call that fails is told by the step that it is in.
use exocortex.Common.{ℕ, String, Option, none, some, List, Result, ok, err, if◌then◌else◌}
use exocortex.Dreams.Journal.{CycleJournal, restore, is_empty}
use exocortex.Storage.Rows.{CommitRecord, StorageError, LeaseKey}
use exocortex.Storage.Journal.{CycleJournalRecord, get_active_cycle_journal}
use exocortex.Storage.Leases.{OwnerLease}
use exocortex.Storage.Store.{Store}
use exocortex.Storage.Store.Settle.{complete_cycle_journal_fenced}
use exocortex.Storage.Store.Rollback.{restore_fenced}

-- The error of a cycle, as its text.
abbrev pub CycleError : Type 0
CycleError = String

pub data RecoveryError : Type 0 where
  recover complete : StorageError → RecoveryError

abbrev pub completed_or_err :
    Store × Result StorageError (Unit {0}) → Store × Result RecoveryError (Unit {0})
completed_or_err (s, ok u) = (s, ok u)
completed_or_err (s, err e) = (s, err (complete e))

abbrev pub complete_restored :
    CycleJournalRecord
    → OwnerLease
    → ℕ
    → Store × Result StorageError (List CommitRecord)
    → Store × Result RecoveryError (Unit {0})
complete_restored journal lease later (s, err e) = (s, err (recover e))
complete_restored journal lease later (s, ok records) =
    completed_or_err (complete_cycle_journal_fenced s journal.cycle_id lease later)

abbrev pub recover_journal :
    Store → OwnerLease → ℕ → ℕ → Option CycleJournalRecord → Store × Result RecoveryError (Unit {0})
recover_journal s lease now later none = (s, ok tt)
recover_journal s lease now later (some journal) =
    complete_restored journal lease later (restore_fenced s journal.restore lease now)

-- The clock reads `now` in the rollback and `later` in the completion.
unfoldable pub recover_active_cycle :
    Store → LeaseKey → OwnerLease → ℕ → ℕ → Store × Result RecoveryError (Unit {0})
recover_active_cycle s key lease now later =
    recover_journal s lease now later (get_active_cycle_journal s.cycles key)

-- Why a cycle failed, and what else failed on the way out.
pub data FinishError : Type 0 where
  cycle_failed : CycleError → FinishError
  restore_failed completion_failed : CycleError → StorageError → FinishError

abbrev pub finish_completed :
    CycleError → Store × Result StorageError (Unit {0}) → Store × FinishError
finish_completed error (s, ok u) = (s, cycle_failed error)
finish_completed error (s, err e) = (s, completion_failed error e)

abbrev pub finish_restored :
    CycleError
    → CycleJournal
    → OwnerLease
    → ℕ
    → Store × Result StorageError (List CommitRecord)
    → Store × FinishError
finish_restored error journal lease later (s, err e) = (s, restore_failed error e)
finish_restored error journal lease later (s, ok records) =
    finish_completed error (complete_cycle_journal_fenced s journal.cycle_id lease later)

abbrev pub fail_cycle : Store → CycleError → CycleJournal → OwnerLease → ℕ → ℕ → Store × FinishError
fail_cycle s error journal lease now later =
    if is_empty journal
    then (s, cycle_failed error)
    else finish_restored error journal lease later (restore_fenced s (restore journal) lease now)

-- `rollback` is the call of `restore_fenced`.
unfoldable pub finish_cycle :
    {A : Type 0}
    → Store
    → Result CycleError A
    → CycleJournal
    → OwnerLease
    → ℕ
    → ℕ
    → Store × Result FinishError A
finish_cycle s (ok result) journal lease now later = (s, ok result)
finish_cycle s (err error) journal lease now later =
    let (t, failure) = fail_cycle s error journal lease now later in (t, err failure)

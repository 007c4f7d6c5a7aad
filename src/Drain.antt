-- ===== src/Drain.antt =====
-- crates/exocortex-client/src/drain.rs: one pass over the pending entries of the log. The backend, the
-- shaping of a batch and its signing are parameters; counters of the metrics are left out.
pub mod Outcome
pub mod Counts
mod Examples
use exocortex.Common.{
  ℕ, ◌+◌, String, Bool, Option, none, some, List, [], ◌∷◌, Result, ok, err, ◌>>=◌, if◌then◌else◌,
  ltb,
}
use exocortex.Wal.Sled.{Sled}
use exocortex.Wal.Entry.{WalEntry, WalError}
use exocortex.Wal.Codec.{Json}
use exocortex.Wal.Log.{Wal, mark_synced, mark_failed}
use exocortex.Wal.Reads.{pending_entries}
use exocortex.Wire.Corrections.{
  RejectCode, unknown, Disposition, success, retry, permanent, fatal, reject_code, classify,
}

-- proto/ingest.proto; the advisory `similar_to` is not read here.
pub record RejectRow : Type 0 where
  pub draft_key : String
  pub code : ℕ
  pub detail : String

pub record IngestAck : Type 0 where
  pub batch_id : String
  pub accepted : ℕ
  pub rejected : ℕ
  pub rejections : List RejectRow
  pub assigned_lsn : ℕ

pub record DrainReport : Type 0 where
  pub attempted : ℕ
  pub synced : ℕ
  pub failed : ℕ
  pub still_pending : ℕ

abbrev pub no_report : DrainReport
no_report = record { attempted = 0; synced = 0; failed = 0; still_pending = 0 }

-- The increments of the report's fields.
abbrev pub add_attempted : DrainReport → DrainReport
add_attempted r = record r { attempted = r.attempted + 1 }

abbrev pub add_synced : DrainReport → DrainReport
add_synced r = record r { synced = r.synced + 1 }

abbrev pub add_failed : DrainReport → DrainReport
add_failed r = record r { failed = r.failed + 1 }

abbrev pub add_pending : DrainReport → DrainReport
add_pending r = record r { still_pending = r.still_pending + 1 }

unfoldable pub rank : Disposition → ℕ
rank success = 0
rank retry = 1
rank permanent = 2
rank fatal = 3

-- `try_from(row.code).unwrap_or(Unknown)`, classified.
abbrev pub code_or_unknown : Option RejectCode → RejectCode
code_or_unknown none = unknown
code_or_unknown (some c) = c

unfoldable pub disposition_of : RejectRow → Disposition
disposition_of row = classify (code_or_unknown (reject_code row.code))

-- The loop that keeps the worst disposition.
unfoldable pub worst_of : Disposition → List RejectRow → Disposition
unfolding rank
worst_of worst [] = worst
worst_of worst (row ∷ rows) =
    worst_of (if ltb (rank worst) (rank (disposition_of row)) then disposition_of row else worst)
      rows

-- The backend's replies, which may change its state.
pub record Backend : Type 1 where
  pub State : Type 0
  pub Batch : Type 0
  pub register_source : State → Batch → State × Result String (Unit {0})
  pub submit : State → Batch → State × Result String IngestAck
  pub rebuild_batch : WalEntry → Result String Batch
  pub prepare_batch : Batch → Batch

module _ (sled : Sled) (json : Json) where
  unfoldable pub settle_as :
      Wal sled → WalEntry → IngestAck → DrainReport → Disposition → Wal sled × DrainReport
  settle_as w entry ack r success =
      ((mark_synced sled json w entry.local_lsn ack.assigned_lsn).0, add_synced r)
  settle_as w entry ack r retry = (w, add_pending r)
  settle_as w entry ack r permanent = ((mark_failed sled json w entry.local_lsn).0, add_failed r)
  settle_as w entry ack r fatal = ((mark_failed sled json w entry.local_lsn).0, add_failed r)

  unfoldable pub settle : Wal sled → WalEntry → IngestAck → DrainReport → Wal sled × DrainReport
  settle w entry ack r =
      if ltb 0 ack.accepted
      then (
        (mark_synced sled json w entry.local_lsn
            (if ltb 0 ack.assigned_lsn then ack.assigned_lsn else 0)).0,
        add_synced r,
      )
      else settle_as w entry ack r (worst_of success ack.rejections)

  module _ (backend : Backend) where
    -- The loop over the pending entries.
    unfoldable pub drain_from :
        Wal sled
        → backend.State
        → DrainReport
        → List WalEntry
        → Wal sled × backend.State × DrainReport
    drain_from w s r [] = (w, s, r)
    drain_from w s r (e ∷ es) = elim (backend.rebuild_batch e) [
      | err x ↦
          drain_from (mark_failed sled json w e.local_lsn).0 s (add_failed (add_attempted r)) es
      | ok batch ↦
          let registered = backend.register_source s batch in
          elim registered.1 [
            | err x ↦ drain_from w registered.0 (add_pending (add_attempted r)) es
            | ok u ↦
                let submitted = backend.submit registered.0 (backend.prepare_batch batch) in
                elim submitted.1 [
                  | err x ↦ (w, submitted.0, add_pending (add_attempted r))
                  | ok ack ↦
                      let settled = settle w e ack (add_attempted r) in
                      drain_from settled.0 submitted.0 settled.1 es
                ]
          ]
    ]

    unfoldable pub drain_once :
        Wal sled → backend.State → Result WalError (Wal sled × backend.State × DrainReport)
    unfolding drain_from
    drain_once w s = do entries ← pending_entries sled json w; ok (drain_from w s no_report entries)

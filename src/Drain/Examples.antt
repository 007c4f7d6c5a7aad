-- ===== src/Drain/Examples.antt =====
-- A pass over two pending entries: a backend that accepts the first and sheds load at the second.
use exocortex.Common.{
  ℕ, zero, suc, ◌≤◌, ◌≡◌, refl, String, false, ◌||◌, List, [], ◌∷◌, Result, ok, err, Bytes, length,
  any, every, if◌then◌else◌, ltb, dec_lt,
}
use exocortex.Wal.Entry.{WalEntry, WalError, pending}
use exocortex.Wal.Codec.{Json, encode_entry, decode_entry}
use exocortex.Wal.Rows.{put_row, get_row}
use exocortex.Wal.Log.{
  Wal, insert_entry_locked, prepare, next_lsn, used_bytes, write_row, mark_synced, mark_failed,
  update_state, updated, present, replace_row,
}
use exocortex.Wal.Reads.{pending_entries, decoded_entries}
use exocortex.Wal.Store.{map_sled, no_rows, put, put_with, bytes_proof}
use exocortex.Wire.Corrections.{classify}
use exocortex.Drain.{
  IngestAck, DrainReport, no_report, add_synced, add_failed, add_pending, settle, settle_as,
  worst_of, disposition_of, rank, Backend, drain_once,
}
use exocortex.Drain.Outcome.{is_success, is_terminal, settle-eq}
use exocortex.Drain.Counts.{Balanced, drain_once-Balanced}

abbrev entry_at : ℕ → WalEntry
entry_at lsn = record {
  local_lsn = lsn;
  session_id = "s";
  memories = [];
  memory_ids = [];
  state = pending;
  batch_id = "b";
  draft_keys = [];
  org = "acme";
  user = "ann";
  tags = [];
}

abbrev from_slice : Bytes → Result String WalEntry
from_slice (lsn ∷ []) = ok (entry_at lsn)
from_slice _ = err "bad json"

abbrev json : Json
json = record { to_vec = λ e. ok (e.local_lsn ∷ []); from_slice = from_slice }

abbrev empty_log : Wal map_sled
empty_log = record { tree = no_rows; max_bytes = 100; poisoned = false }

abbrev log : Wal map_sled
log =
    (insert_entry_locked map_sled json (insert_entry_locked map_sled json empty_log (entry_at 0)).0
      (entry_at 0)).0

abbrev entry : WalEntry
entry = entry_at 1

abbrev shed : IngestAck
shed = record {
  batch_id = "b";
  accepted = 0;
  rejected = 2;
  rejections =
      record { draft_key = "a"; code = 8; detail = "" }
      ∷ record { draft_key = "b"; code = 11; detail = "" }
      ∷ [];
  assigned_lsn = 0;
}

settle-eq_example : settle map_sled json log entry shed no_report ≡ (
    if ltb 0 shed.accepted || every is_success shed.rejections
    then ((mark_synced map_sled json log 1 0).0, add_synced no_report)
    else if any is_terminal shed.rejections
    then ((mark_failed map_sled json log 1).0, add_failed no_report)
    else (log, add_pending no_report))
settle-eq_example = settle-eq map_sled json log entry shed no_report

abbrev accept : IngestAck
accept = record { batch_id = "b"; accepted = 1; rejected = 0; rejections = []; assigned_lsn = 40 }

abbrev answer : ℕ → String → ℕ × Result String IngestAck
answer zero batch = (1, ok accept)
answer (suc n) batch = (suc n, ok shed)

abbrev backend : Backend
backend = record {
  State = ℕ;
  Batch = String;
  register_source = λ s b. (s, ok tt);
  submit = answer;
  rebuild_batch = λ e. ok e.batch_id;
  prepare_batch = λ b. b;
}

abbrev passed : Result WalError (Wal map_sled × ℕ × DrainReport)
passed = drain_once map_sled json backend log 0

abbrev drained : Wal map_sled
drained = elim passed [ ok p ↦ p.0 | err x ↦ empty_log ]

abbrev report : DrainReport
report = record { attempted = 2; synced = 1; failed = 0; still_pending = 1 }

drains : drain_once map_sled json backend log 0 ≡ ok (drained, 1, report)
unfolding drain_once settle settle_as worst_of disposition_of classify rank insert_entry_locked
    prepare next_lsn encode_entry used_bytes write_row put put_with bytes_proof dec_lt put_row
    pending_entries decoded_entries mark_synced update_state updated present replace_row get_row
    decode_entry
drains = refl

drain_once-Balanced_example :
    (es : List WalEntry) × (pending_entries map_sled json log ≡ ok es)
    × Balanced report
    × (report.attempted ≤ length es)
drain_once-Balanced_example =
    drain_once-Balanced map_sled json backend log drained 0 1 report drains

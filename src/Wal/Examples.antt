-- ===== src/Wal/Examples.antt =====
-- The theorems on the log at concrete records, with a map in memory for sled and a small codec for
-- serde_json.
use exocortex.Common.{
  ℕ, zero, suc, ◌≡◌, refl, String, some, List, [], ◌∷◌, Result, ok, err, Bytes, arith, false,
  dec_lt, u64_max, length, ◌++◌, ◌+◌, ◌≤◌, ◌^◌, ◌<◌, any, ◌>>=◌,
}
use exocortex.Wal.Entry.{WalState, pending, synced, failed, WalEntry, full}
use exocortex.Wal.Codec.{
  Json, frame, unframe, encode_entry, decode_entry, decode_entry-encode_entry, unframe-exact,
}
use exocortex.Wal.Log.{
  Wal, insert_entry_locked, prepare, prepare_import, encode_rows, write_batch, next_lsn, used_bytes,
  write_row, append_unless, append_idempotent, append_imported_batch_with, mark_synced, mark_failed,
  update_state, updated, present, replace_row, key_of, find_batch, scan_batch,
}
use exocortex.Wal.Store.{map_sled, no_rows, put, put_with, bytes_proof, apply_each}
use exocortex.Wal.Idempotent.{Reads}
use exocortex.Wal.Rows.{Row, put_row, Above, get_row}
use exocortex.Wal.Lsn.{insert_entry_locked-appends}
use exocortex.Wal.Budget.{insert_entry_locked-size, size}
use exocortex.Wal.Encoding.{Encoded}
use exocortex.Wal.Import.{append_imported_batch-appends, append_imported_batch-full}
use exocortex.Wal.States.{mark_synced-entry}
use exocortex.Wal.Reads.{
  pending_count, partitions, pending_and_partitions, decoded_entries, contains_pair, entry,
}
use exocortex.Wal.Queries.{pending_and_partitions-eq, partitions-stamped, stamped}

abbrev to_vec : WalEntry → Result String Bytes
to_vec e = elim e.state [
  | pending ↦ ok (e.local_lsn ∷ 0 ∷ [])
  | synced n ↦ ok (e.local_lsn ∷ n ∷ 1 ∷ [])
  | failed ↦ ok (e.local_lsn ∷ 2 ∷ [])
]

abbrev entry_at : ℕ → WalState → WalEntry
entry_at lsn state = record {
  local_lsn = lsn;
  session_id = "s";
  memories = [];
  memory_ids = [];
  state = state;
  batch_id = "b";
  draft_keys = [];
  org = "acme";
  user = "ann";
  tags = [];
}

abbrev from_slice : Bytes → Result String WalEntry
from_slice (lsn ∷ zero ∷ []) = ok (entry_at lsn pending)
from_slice (lsn ∷ suc zero ∷ []) = err "bad json"
from_slice (lsn ∷ suc (suc n) ∷ []) = ok (entry_at lsn failed)
from_slice (lsn ∷ n ∷ m ∷ []) = ok (entry_at lsn (synced n))
from_slice _ = err "bad json"

abbrev json : Json
json = record { to_vec = to_vec; from_slice = from_slice }

abbrev empty_log : Wal map_sled
empty_log = record { tree = no_rows; max_bytes = 100; poisoned = false }

abbrev batch : WalEntry
batch = entry_at 0 pending

abbrev once : Wal map_sled
once = (append_idempotent map_sled json empty_log batch).0

abbrev two : Wal map_sled
two = (insert_entry_locked map_sled json once batch).0

second_append : insert_entry_locked map_sled json once batch ≡ (two, ok 2)
unfolding append_idempotent insert_entry_locked prepare find_batch scan_batch append_unless next_lsn
    encode_entry used_bytes write_row put put_with bytes_proof dec_lt put_row
second_append = refl

roomy : once.max_bytes < u64_max
unfolding append_idempotent insert_entry_locked prepare find_batch scan_batch append_unless next_lsn
    encode_entry used_bytes write_row put put_with bytes_proof dec_lt put_row
roomy = omega arith

decode_entry-encode_entry_example :
    decode_entry json (1 ∷ 0 ∷ 0 ∷ 0 ∷ 2 ∷ 5 ∷ 0 ∷ []) ≡ ok (entry_at 5 pending)
unfolding encode_entry
decode_entry-encode_entry_example =
    decode_entry-encode_entry json (entry_at 5 pending) (5 ∷ 0 ∷ [])
      (1 ∷ 0 ∷ 0 ∷ 0 ∷ 2 ∷ 5 ∷ 0 ∷ []) refl refl (omega arith) refl

unframe-exact_example : 1 ∷ 0 ∷ 0 ∷ 0 ∷ 1 ∷ 9 ∷ [] ≡ frame (9 ∷ [])
unfolding unframe
unframe-exact_example = unframe-exact (1 ∷ 0 ∷ 0 ∷ 0 ∷ 1 ∷ 9 ∷ []) (9 ∷ []) (ground arith) refl

-- The same batch id with another session and another id.
abbrev retried : WalEntry
retried = record batch { session_id = "t"; memory_ids = 99 ∷ [] }

insert_entry_locked-appends_example :
    (bytes : Bytes) × (encode_entry json (record batch { local_lsn = 2 }) ≡ ok bytes)
    × (map_sled.rows two.tree ≡ map_sled.rows once.tree ++ (key_of 2, bytes) ∷ [])
    × Above (key_of 2) (map_sled.rows once.tree)
    × (2 < 2 ^ 64)
insert_entry_locked-appends_example =
    insert_entry_locked-appends map_sled json once two batch 2 second_append

insert_entry_locked-size_example :
    (bytes : Bytes) × (encode_entry json (record batch { local_lsn = 2 }) ≡ ok bytes)
    × (size (map_sled.rows once.tree) + length bytes ≤ once.max_bytes)
    × (size (map_sled.rows two.tree) ≡ size (map_sled.rows once.tree) + length bytes + 16)
insert_entry_locked-size_example =
    insert_entry_locked-size map_sled json once two batch 2 roomy second_append

abbrev imported : Wal map_sled
imported = (append_imported_batch_with map_sled json once (batch ∷ batch ∷ []) (ok tt)).0

two_imported :
    append_imported_batch_with map_sled json once (batch ∷ batch ∷ []) (ok tt) ≡ (imported, ok 2)
unfolding append_imported_batch_with prepare_import encode_rows write_batch append_idempotent
    insert_entry_locked prepare find_batch scan_batch append_unless next_lsn encode_entry used_bytes
    write_row put put_with bytes_proof dec_lt put_row apply_each
two_imported = refl

append_imported_batch-appends_example :
    (rows : List Row) × Encoded json 2 (batch ∷ batch ∷ []) rows
    × (map_sled.rows imported.tree ≡ map_sled.rows once.tree ++ rows)
    × (size (map_sled.rows imported.tree) ≤ once.max_bytes)
append_imported_batch-appends_example =
    append_imported_batch-appends map_sled json once imported batch (batch ∷ []) (ok tt) 2 roomy
      two_imported

abbrev small_log : Wal map_sled
small_log = record { tree = no_rows; max_bytes = 40; poisoned = false }

too_large : append_imported_batch_with map_sled json small_log (batch ∷ batch ∷ []) (ok tt) ≡ (
  (append_imported_batch_with map_sled json small_log (batch ∷ batch ∷ []) (ok tt)).0,
  err (full 0 40),
)
unfolding append_imported_batch_with prepare_import encode_rows write_batch append_idempotent
    insert_entry_locked prepare find_batch scan_batch append_unless next_lsn encode_entry used_bytes
    write_row put put_with bytes_proof dec_lt put_row
too_large = refl

append_imported_batch-full_example :
    (append_imported_batch_with map_sled json small_log (batch ∷ batch ∷ []) (ok tt)).0 ≡ small_log
append_imported_batch-full_example =
    append_imported_batch-full map_sled json small_log
      (append_imported_batch_with map_sled json small_log (batch ∷ batch ∷ []) (ok tt)).0 batch
      (batch ∷ []) (ok tt) 0 40 too_large

abbrev marked : Wal map_sled
marked = (mark_synced map_sled json two 2 9).0

marks : mark_synced map_sled json two 2 9 ≡ (marked, ok tt)
unfolding mark_synced update_state updated present replace_row get_row append_idempotent
    insert_entry_locked prepare find_batch scan_batch append_unless next_lsn encode_entry used_bytes
    write_row put put_with bytes_proof dec_lt put_row decode_entry
marks = refl

abbrev raw_two : Bytes
raw_two = 1 ∷ 0 ∷ 0 ∷ 0 ∷ 2 ∷ 2 ∷ 0 ∷ []

row_two : get_row (key_of 2) (map_sled.rows two.tree) ≡ some raw_two
unfolding get_row append_idempotent insert_entry_locked prepare find_batch scan_batch append_unless
    next_lsn encode_entry used_bytes write_row put put_with bytes_proof dec_lt put_row
row_two = refl

raw_two_decoded : decode_entry json raw_two ≡ ok (entry_at 2 pending)
unfolding decode_entry
raw_two_decoded = refl

mark_synced-entry_example : entry map_sled json marked 2 ≡ ok (some (entry_at 2 (synced 9)))
mark_synced-entry_example =
    mark_synced-entry map_sled json two marked 2 9 raw_two (entry_at 2 pending)
      (get_row (key_of 2) (map_sled.rows marked.tree)) (omega arith) row_two raw_two_decoded
      (λ bytes.
        decode_entry-encode_entry json (entry_at 2 (synced 9)) (2 ∷ 9 ∷ 1 ∷ []) bytes refl refl
          (omega arith))
      marks refl

abbrev given_up : Wal map_sled
given_up = (mark_failed map_sled json two 2).0

gives_up : mark_failed map_sled json two 2 ≡ (given_up, ok tt)
unfolding mark_failed update_state updated present replace_row get_row append_idempotent
    insert_entry_locked prepare find_batch scan_batch append_unless next_lsn encode_entry used_bytes
    write_row put put_with bytes_proof dec_lt put_row decode_entry
gives_up = refl

abbrev entries : List WalEntry
entries = entry_at 1 pending ∷ entry_at 2 (synced 9) ∷ []

marked-entries : decoded_entries map_sled json marked ≡ ok entries
unfolding decoded_entries mark_synced update_state updated present replace_row get_row
    append_idempotent insert_entry_locked prepare find_batch scan_batch append_unless next_lsn
    encode_entry used_bytes write_row put put_with bytes_proof dec_lt put_row decode_entry
marked-entries = refl

pending_and_partitions-eq_example : pending_and_partitions map_sled json marked ≡ (
    pending_count map_sled json marked >>= λ n.
    partitions map_sled json marked >>= λ ps. ok (n, ps))
pending_and_partitions-eq_example = pending_and_partitions-eq map_sled json marked

partitions-stamped_example :
    (ps : List (String × String)) × (partitions map_sled json marked ≡ ok ps)
    × (contains_pair ps ("acme", "ann") ≡ any (stamped ("acme", "ann")) entries)
partitions-stamped_example =
    partitions-stamped map_sled json marked entries ("acme", "ann") marked-entries

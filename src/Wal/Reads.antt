-- ===== src/Wal/Reads.antt =====
-- The queries of wal.rs. The writing of a time as text is a parameter.
use mathlib.Core.List.{reverse}
use exocortex.Common.{
  ℕ, zero, suc, ◌+◌, String, Bool, true, false, Option, none, some, List, [], ◌∷◌, ◌++◌, map,
  Result, ok, err, ◌>>=◌, map_err, collect, if◌then◌else◌, str_eq, ◌&&◌, leb, length, filter, Bytes,
  saturating_mul, any,
}
use exocortex.Kernel.Draft.{MemoryDraft}
use exocortex.Wal.Rows.{Row}
use exocortex.Wal.Sled.{Sled}
use exocortex.Wal.Entry.{WalState, pending, synced, failed, WalEntry, WalError, TailRow, io}
use exocortex.Wal.Codec.{Json, decode_entry, decode_at}
use exocortex.Wal.Log.{Wal, key_of, key_to_lsn, used_bytes}

unfoldable pub is_pending : WalState → Bool
is_pending pending = true
is_pending (synced n) = false
is_pending failed = false

-- `seen.contains(&pair)`
unfoldable pub contains_pair : List (String × String) → String × String → Bool
unfolding any
contains_pair seen (org, user) = any (λ p. str_eq p.0 org && str_eq p.1 user) seen

-- The part of the loops that both queries share: `seen.push(pair)` for a new stamp.
unfoldable pub add_partition : List (String × String) → WalEntry → List (String × String)
unfolding contains_pair
add_partition seen e =
    if str_eq e.org ""
    then seen
    else if contains_pair seen (e.org, e.user)
    then seen
    else seen ++ (e.org, e.user) ∷ []

-- The loops of `partitions` and `pending_and_partitions`.
unfoldable pub partitions_from : List (String × String) → List WalEntry → List (String × String)
unfolding add_partition
partitions_from seen [] = seen
partitions_from seen (e ∷ es) = partitions_from (add_partition seen e) es

unfoldable pub pending_and_partitions_from :
    ℕ → List (String × String) → List WalEntry → ℕ × List (String × String)
unfolding is_pending add_partition
pending_and_partitions_from count seen [] = (count, seen)
pending_and_partitions_from count seen (e ∷ es) =
    pending_and_partitions_from (if is_pending e.state then count + 1 else count)
      (add_partition seen e) es

module _ (sled : Sled) (json : Json) where
  unfoldable pub decode_item : Result String Row → Result WalError WalEntry
  unfolding key_to_lsn decode_at
  decode_item (err e) = err (io e)
  decode_item (ok (key, value)) = do lsn ← key_to_lsn key; decode_at json lsn value

  unfoldable pub decoded_entries : Wal sled → Result WalError (List WalEntry)
  unfolding decode_item collect
  decoded_entries w = collect (map decode_item (sled.iter w.tree))

  unfoldable pub pending_entries : Wal sled → Result WalError (List WalEntry)
  unfolding is_pending filter
  pending_entries w = do es ← decoded_entries w; ok (filter (λ e. is_pending e.state) es)

  unfoldable pub pending_count : Wal sled → Result WalError ℕ
  unfolding is_pending filter
  pending_count w = do es ← decoded_entries w; ok (length (filter (λ e. is_pending e.state) es))

  unfoldable pub partitions : Wal sled → Result WalError (List (String × String))
  unfolding partitions_from
  partitions w = do es ← decoded_entries w; ok (partitions_from [] es)

  unfoldable pub pending_and_partitions : Wal sled → Result WalError (ℕ × List (String × String))
  unfolding pending_and_partitions_from
  pending_and_partitions w = do es ← decoded_entries w; ok (pending_and_partitions_from 0 [] es)

  unfoldable pub entry : Wal sled → ℕ → Result WalError (Option WalEntry)
  unfolding decode_at
  entry w lsn = do
    found ← map_err io (sled.get w.tree (key_of lsn))
    elim found [ none ↦ ok none | some raw ↦ decode_at json lsn raw >>= λ e. ok (some e) ]

  unfoldable pub near_full : Wal sled → Result WalError Bool
  unfolding saturating_mul
  near_full w = do
    used ← used_bytes sled w
    ok (leb (saturating_mul w.max_bytes 9) (saturating_mul used 10))

  module _ (to_rfc3339 : ℕ → String) where
    abbrev written_at : List MemoryDraft → String
    written_at [] = "unknown"
    written_at (m ∷ ms) = to_rfc3339 m.context.timestamp

    unfoldable pub tail_row : ℕ → Result String WalEntry → TailRow
    unfolding is_pending
    tail_row lsn (ok e) = record {
      local_lsn = lsn;
      recorded_at = written_at e.memories;
      pending = is_pending e.state;
      batch_id = e.batch_id;
      memory_count = length e.memories;
      draft_keys = e.draft_keys;
    }
    tail_row lsn (err x) = record {
      local_lsn = lsn;
      recorded_at = "undecodable";
      pending = true;
      batch_id = "decode error";
      memory_count = 0;
      draft_keys = [];
    }

    -- `try_into().unwrap_or([0u8; 8])`
    unfoldable pub lsn_or_zero : Bytes → ℕ
    unfolding key_to_lsn
    lsn_or_zero key = elim (key_to_lsn key) [ ok n ↦ n | err e ↦ 0 ]

    -- The loop: `room` is how many rows may still be pushed.
    unfoldable pub tail_from : ℕ → List (Result String Row) → List TailRow
    unfolding tail_row lsn_or_zero decode_entry
    tail_from zero items = []
    tail_from (suc room) [] = []
    tail_from (suc room) (err e ∷ items) = tail_from (suc room) items
    tail_from (suc room) (ok (key, value) ∷ items) =
        tail_row (lsn_or_zero key) (decode_entry json value) ∷ tail_from room items

    unfoldable pub tail : Wal sled → ℕ → List TailRow
    unfolding tail_from
    tail w n = tail_from n (reverse (sled.iter w.tree))

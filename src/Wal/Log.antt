-- ===== src/Wal/Log.antt =====
-- The operations of wal.rs that write. An operation returns the log after it and its result. The
-- append gate is a mutex: the operations run one after the other, and a lock that a panic
-- poisoned fails.
use exocortex.Common.{
  ℕ, ◌+◌, String, Bool, Option, none, some, List, [], ◌∷◌, Result, ok, err, ◌>>=◌, ◌>>◌, map_err,
  if◌then◌else◌, str_eq, ◌==◌, ltb, length, Bytes, be_bytes, from_be, saturating_add, checked_add,
}
use exocortex.Kernel.Draft.{MemoryDraft, MemoryId}
use exocortex.Wal.Rows.{Row}
use exocortex.Wal.Sled.{Sled}
use exocortex.Wal.Entry.{pending, synced, failed, WalEntry, WalError, io, corrupt, full}
use exocortex.Wal.Codec.{Json, encode_entry, decode_entry, decode_at}

pub record Wal (sled : Sled) : Type 0 where
  pub tree : sled.Tree
  pub max_bytes : ℕ
  pub poisoned : Bool

-- The key of a local LSN, `to_be_bytes`.
abbrev pub key_of : ℕ → Bytes
key_of lsn = be_bytes 8 lsn

unfoldable pub key_to_lsn : Bytes → Result WalError ℕ
unfolding from_be
key_to_lsn key = if length key == 8 then ok (from_be key) else err (corrupt 0 "invalid sled key")

abbrev pub poison : WalError
poison = io "WAL append serialization mutex is poisoned"

-- The `let Some(raw) = … else`.
unfoldable pub present : Option Bytes → Result WalError Bytes
present none = err (io "no wal entry")
present (some raw) = ok raw

module _ (sled : Sled) where
  -- `used_bytes`: 16 bytes are charged for each key.
  unfoldable pub used_from : ℕ → List (Result String Row) → Result WalError ℕ
  unfolding saturating_add
  used_from used [] = ok used
  used_from used (err e ∷ items) = err (io e)
  used_from used (ok (k, v) ∷ items) = used_from (saturating_add used (length v + 16)) items

  unfoldable pub used_bytes : Wal sled → Result WalError ℕ
  unfolding used_from
  used_bytes w = used_from 0 (sled.iter w.tree)

  unfoldable pub lsn_after : Option Row → Result WalError ℕ
  unfolding key_to_lsn checked_add
  lsn_after none = ok 1
  lsn_after (some (key, v)) = do
    last ← key_to_lsn key
    elim (checked_add last 1) [
      | none ↦ err (io "WAL local LSN space is exhausted")
      | some next ↦ ok next
    ]

  unfoldable pub next_lsn : Wal sled → Result WalError ℕ
  unfolding lsn_after
  next_lsn w = do row ← map_err io (sled.last w.tree); lsn_after row

  -- `tree.flush()`, then the answer.
  unfoldable pub flush_with : Wal sled → ℕ → Wal sled × Result WalError ℕ
  flush_with w answer =
      let (t, r) = sled.flush w.tree in (record w { tree = t }, map_err io (r >> ok answer))

  unfoldable pub flushed : Wal sled → Result String (Unit {0}) → ℕ → Wal sled × Result WalError ℕ
  unfolding flush_with
  flushed w (ok u) answer = flush_with w answer
  flushed w (err e) answer = (w, err (io e))

  unfoldable pub write_row : Wal sled → ℕ × Bytes → Wal sled × Result WalError ℕ
  unfolding flushed
  write_row w (lsn, bytes) =
      let (t, r) = sled.insert w.tree (key_of lsn) bytes in flushed (record w { tree = t }) r lsn

  -- Goes on with the value of a check, or stops with its error and the log as it was.
  abbrev pub after :
      {A B : Type 0}
      → Wal sled
      → Result WalError A
      → (A → Wal sled × Result WalError B)
      → Wal sled × Result WalError B
  after w (ok a) f = f a
  after w (err e) f = (w, err e)

  module _ (json : Json) where
    -- The checks of `insert_entry_locked`, up to the write.
    unfoldable pub prepare : Wal sled → WalEntry → Result WalError (ℕ × Bytes)
    unfolding saturating_add
    prepare w entry = do
      lsn ← next_lsn w
      bytes ← map_err io (encode_entry json (record entry { local_lsn = lsn }))
      used ← used_bytes w
      if ltb w.max_bytes (saturating_add used (length bytes))
          then err (full used w.max_bytes)
          else ok (lsn, bytes)

    unfoldable pub insert_entry_locked : Wal sled → WalEntry → Wal sled × Result WalError ℕ
    insert_entry_locked w entry = after w (prepare w entry) (write_row w)

    unfoldable pub insert_entry : Wal sled → WalEntry → Wal sled × Result WalError ℕ
    insert_entry w entry = if w.poisoned then (w, err poison) else insert_entry_locked w entry

    abbrev pub new_entry :
        String
        → List MemoryDraft
        → List MemoryId
        → String
        → List String
        → List (List String)
        → String
        → String
        → WalEntry
    new_entry session_id memories memory_ids batch_id draft_keys tags org user = record {
      local_lsn = 0;
      session_id = session_id;
      memories = memories;
      memory_ids = memory_ids;
      state = pending;
      batch_id = batch_id;
      draft_keys = draft_keys;
      org = org;
      user = user;
      tags = tags;
    }

    unfoldable pub append_batch_full :
        Wal sled
        → String
        → List MemoryDraft
        → List MemoryId
        → String
        → List String
        → List (List String)
        → String
        → String
        → Wal sled × Result WalError ℕ
    append_batch_full w session_id memories memory_ids batch_id draft_keys tags org user =
        insert_entry w (new_entry session_id memories memory_ids batch_id draft_keys tags org user)

    unfoldable pub append_batch :
        Wal sled → String → List MemoryDraft → List MemoryId → Wal sled × Result WalError ℕ
    append_batch w session_id memories memory_ids =
        append_batch_full w session_id memories memory_ids "" [] [] "" ""

    -- The loop that looks for the batch id.
    unfoldable pub scan_batch : String → List (Result String Row) → Result WalError (Option ℕ)
    scan_batch id [] = ok none
    scan_batch id (err e ∷ items) = err (io e)
    scan_batch id (ok (key, raw) ∷ items) =
        let rest = scan_batch id items in
        do
          lsn ← key_to_lsn key
          e ← decode_at json lsn raw
          if str_eq e.batch_id id then ok (some lsn) else rest

    unfoldable pub find_batch : Wal sled → String → Result WalError (Option ℕ)
    find_batch w id = if str_eq id "" then ok none else scan_batch id (sled.iter w.tree)

    unfoldable pub append_unless : Wal sled → WalEntry → Option ℕ → Wal sled × Result WalError ℕ
    append_unless w entry none = insert_entry_locked w entry
    append_unless w entry (some lsn) = (w, ok lsn)

    unfoldable pub append_idempotent : Wal sled → WalEntry → Wal sled × Result WalError ℕ
    append_idempotent w entry =
        if w.poisoned
        then (w, err poison)
        else after w (find_batch w entry.batch_id) (append_unless w entry)

    unfoldable pub append_batch_full_idempotent :
        Wal sled
        → String
        → List MemoryDraft
        → List MemoryId
        → String
        → List String
        → List (List String)
        → String
        → String
        → Wal sled × Result WalError ℕ
    append_batch_full_idempotent w session_id memories memory_ids batch_id draft_keys tags org
          user =
        append_idempotent w
          (new_entry session_id memories memory_ids batch_id draft_keys tags org user)

    unfoldable pub append_imported : Wal sled → WalEntry → Wal sled × Result WalError ℕ
    append_imported w entry = insert_entry w (record entry { local_lsn = 0 })

    -- The loop that encodes the entries at consecutive LSNs and adds up their charge.
    unfoldable pub encode_rows : ℕ → ℕ → ℕ → List WalEntry → Result WalError (List Row × ℕ)
    unfolding checked_add saturating_add
    encode_rows first offset charge [] = ok ([], charge)
    encode_rows first offset charge (e ∷ es) = elim (checked_add first offset) [
      | none ↦ err (io "WAL local LSN overflow during import")
      | some lsn ↦ elim (encode_entry json (record e { local_lsn = lsn })) [
        | err x ↦ err (io x)
        | ok bytes ↦
            encode_rows first (offset + 1) (saturating_add charge (length bytes + 16)) es
            >>= λ (rows, total). ok ((key_of lsn, bytes) ∷ rows, total)
      ]
    ]

    unfoldable pub prepare_import :
        Wal sled → List WalEntry → Result WalError (Unit {0}) → Result WalError (ℕ × List Row)
    unfolding saturating_add
    prepare_import w entries before_commit = do
      first ← next_lsn w
      (batch, charge) ← encode_rows first 0 0 entries
      used ← used_bytes w
      if ltb w.max_bytes (saturating_add used charge) then err (full used w.max_bytes) else ok tt
      before_commit
      ok (first, batch)

    unfoldable pub write_batch : Wal sled → ℕ × List Row → Wal sled × Result WalError ℕ
    unfolding flushed
    write_batch w (first, batch) =
        let (t, r) = sled.apply_batch w.tree batch in flushed (record w { tree = t }) r first

    -- `before_commit` is the closure's answer.
    unfoldable pub append_imported_batch_with :
        Wal sled → List WalEntry → Result WalError (Unit {0}) → Wal sled × Result WalError ℕ
    append_imported_batch_with w [] before_commit = (w, ok 0)
    append_imported_batch_with w (e ∷ es) before_commit =
        if w.poisoned
        then (w, err poison)
        else after w (prepare_import w (e ∷ es) before_commit) (write_batch w)

    unfoldable pub append_imported_batch : Wal sled → List WalEntry → Wal sled × Result WalError ℕ
    append_imported_batch w entries = append_imported_batch_with w entries (ok tt)

    unfoldable pub updated : Wal sled → ℕ → (WalEntry → WalEntry) → Result WalError Bytes
    updated w lsn f = do
      found ← map_err io (sled.get w.tree (key_of lsn))
      raw ← present found
      e ← map_err io (decode_entry json raw)
      map_err io (encode_entry json (f e))

    unfoldable pub replace_row : Wal sled → ℕ → Bytes → Wal sled × Result WalError (Unit {0})
    replace_row w lsn bytes =
        let (t, r) = sled.insert w.tree (key_of lsn) bytes in (record w { tree = t }, map_err io r)

    unfoldable pub update_state :
        Wal sled → ℕ → (WalEntry → WalEntry) → Wal sled × Result WalError (Unit {0})
    update_state w lsn f = after w (updated w lsn f) (replace_row w lsn)

    unfoldable pub mark_synced : Wal sled → ℕ → ℕ → Wal sled × Result WalError (Unit {0})
    mark_synced w lsn backend_lsn =
        update_state w lsn (λ e. record e { state = synced backend_lsn })

    unfoldable pub mark_failed : Wal sled → ℕ → Wal sled × Result WalError (Unit {0})
    mark_failed w lsn = update_state w lsn (λ e. record e { state = failed })

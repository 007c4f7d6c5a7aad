-- ===== src/Wal/States.antt =====
-- The state transitions of wal.rs: one record is rewritten and the others stay.
use exocortex.Common.{
  ℕ, ◌^◌, ◌<◌, ◌≡◌, ◌≢◌, sym, ap, subst, ◌∙◌, Option, none, some, List, ok, Bytes, arith, from_be,
  from_be-be_bytes, >>=-eq-ok, map_err,
}
use exocortex.Wal.Rows.{
  Row, compare_bytes-eq, compare_bytes_refl, get_row, get_row-put_row, put_row,
}
use exocortex.Wal.Sled.{Sled}
use exocortex.Wal.Entry.{synced, failed, WalEntry, io}
use exocortex.Wal.Codec.{Json, encode_entry, decode_entry}
use exocortex.Wal.Log.{
  Wal, key_of, present, updated, replace_row, update_state, mark_synced, mark_failed,
}
use exocortex.Wal.Reads.{entry}
use exocortex.Wal.Lsn.{after-eq-ok, map_err-eq-ok}

pub key_of-injective : (m n : ℕ) → m < 2 ^ 64 → n < 2 ^ 64 → key_of m ≡ key_of n → m ≡ n
key_of-injective m n hm hn e =
    omega (arith, from_be-be_bytes 8 m hm, from_be-be_bytes 8 n hn, ap from_be e)

present-eq-ok : (o : Option Bytes) (raw : Bytes) → present o ≡ ok raw → o ≡ some raw
unfolding present
present-eq-ok none raw h = absurd (ground arith)
present-eq-ok (some r) raw h = ground arith

module _ (sled : Sled) (json : Json) where
  -- What a rewrite has read, and what it leaves.
  pub record Rewritten (w v : Wal sled) (lsn : ℕ) (f : WalEntry → WalEntry) : Type 0 where
    pub raw : Bytes
    pub old : WalEntry
    pub bytes : Bytes
    pub found : get_row (key_of lsn) (sled.rows w.tree) ≡ some raw
    pub decoded : decode_entry json raw ≡ ok old
    pub encoded : encode_entry json (f old) ≡ ok bytes
    pub rewrote : get_row (key_of lsn) (sled.rows v.tree) ≡ some bytes
    pub kept :
        (m : ℕ)
        → m < 2 ^ 64
        → m ≢ lsn
        → get_row (key_of m) (sled.rows v.tree) ≡ get_row (key_of m) (sled.rows w.tree)

  updated-eq-ok :
      (w : Wal sled) (lsn : ℕ) (f : WalEntry → WalEntry) (bytes : Bytes)
      → updated sled json w lsn f ≡ ok bytes
      → (raw : Bytes) × (old : WalEntry) × (sled.get w.tree (key_of lsn) ≡ ok (some raw))
        × (decode_entry json raw ≡ ok old)
        × (encode_entry json (f old) ≡ ok bytes)
  unfolding updated
  updated-eq-ok w lsn f bytes h =
      let (o, got, h₁) = >>=-eq-ok (map_err io (sled.get w.tree (key_of lsn))) _ h in
      let (raw, some_raw, h₂) = >>=-eq-ok (present o) _ h₁ in
      let (old, decoded, h₃) = >>=-eq-ok (map_err io (decode_entry json raw)) _ h₂ in
      (
        raw,
        old,
        map_err-eq-ok io (sled.get w.tree (key_of lsn)) o got
            ∙ ap ok (present-eq-ok o raw some_raw),
        map_err-eq-ok io (decode_entry json raw) old decoded,
        map_err-eq-ok io (encode_entry json (f old)) bytes h₃,
      )

  replace_row-ok :
      (w v : Wal sled) (lsn : ℕ) (bytes : Bytes)
      → replace_row sled json w lsn bytes ≡ (v, ok tt)
      → sled.rows v.tree ≡ put_row (key_of lsn) bytes (sled.rows w.tree)
  unfolding replace_row
  replace_row-ok w v lsn bytes h = ground (arith, sled.insert_ok w.tree (key_of lsn) bytes)

  get_row-put_row_self : (k v : Bytes) (m : List Row) → get_row k (put_row k v m) ≡ some v
  get_row-put_row_self k v m = ground (arith, get_row-put_row k k v m, compare_bytes_refl k)

  get_row-put_row_ne :
      (k j v : Bytes) (m : List Row) → j ≢ k → get_row j (put_row k v m) ≡ get_row j m
  get_row-put_row_ne k j v m ne = ground (arith, get_row-put_row k j v m, compare_bytes-eq j k)

  update_state-Rewritten :
      (w v : Wal sled) (lsn : ℕ) (f : WalEntry → WalEntry)
      → lsn < 2 ^ 64
      → update_state sled json w lsn f ≡ (v, ok tt)
      → Rewritten w v lsn f
  unfolding update_state
  update_state-Rewritten w v lsn f fits h =
      let (bytes, prepared, wrote) =
        after-eq-ok w (updated sled json w lsn f) (replace_row sled json w lsn) v tt h in
      let (raw, old, got, decoded, encoded) = updated-eq-ok w lsn f bytes prepared in
      let rows : sled.rows v.tree ≡ put_row (key_of lsn) bytes (sled.rows w.tree) =
        replace_row-ok w v lsn bytes wrote in
      record {
        raw = raw;
        old = old;
        bytes = bytes;
        found = sym (sled.get_ok w.tree (key_of lsn) (some raw) got);
        decoded = decoded;
        encoded = encoded;
        rewrote =
            ap (get_row (key_of lsn)) rows
            ∙ get_row-put_row_self (key_of lsn) bytes (sled.rows w.tree);
        kept = λ m small ne.
            ap (get_row (key_of m)) rows
            ∙ get_row-put_row_ne (key_of lsn) (key_of m) bytes (sled.rows w.tree)
                (λ e. ne (key_of-injective m lsn small fits e));
      }

  entry-of_row :
      (w : Wal sled) (lsn : ℕ) (o : Option Bytes) (bytes : Bytes) (e : WalEntry)
      → sled.get w.tree (key_of lsn) ≡ ok o
      → get_row (key_of lsn) (sled.rows w.tree) ≡ some bytes
      → decode_entry json bytes ≡ ok e
      → entry sled json w lsn ≡ ok (some e)
  unfolding entry
  entry-of_row w lsn o bytes e got row decoded =
      let here : sled.get w.tree (key_of lsn) ≡ ok (some bytes) =
        got ∙ ap ok (sled.get_ok w.tree (key_of lsn) o got ∙ row) in
      ground (arith, here, decoded)

  -- Where the log held an entry at this LSN, where its encoding as synced is read back and where
  -- the read of the log succeeds, `entry` answers after a successful `mark_synced` that entry with its
  -- state set to synced at the backend's LSN, and nothing else of it changed.
  pub mark_synced-entry :
      (w v : Wal sled) (lsn backend_lsn : ℕ) (raw : Bytes) (old : WalEntry) (o : Option Bytes)
      → lsn < 2 ^ 64
      → get_row (key_of lsn) (sled.rows w.tree) ≡ some raw
      → decode_entry json raw ≡ ok old
      → ((b : Bytes)
          → encode_entry json (record old { state = synced backend_lsn }) ≡ ok b
          → decode_entry json b ≡ ok (record old { state = synced backend_lsn }))
      → mark_synced sled json w lsn backend_lsn ≡ (v, ok tt)
      → sled.get v.tree (key_of lsn) ≡ ok o
      → entry sled json v lsn ≡ ok (some (record old { state = synced backend_lsn }))
  unfolding mark_synced
  mark_synced-entry w v lsn backend_lsn raw old o fits here decoded again h got =
      let r =
        update_state-Rewritten w v lsn (λ e. record e { state = synced backend_lsn }) fits h in
      let same_raw : r.raw ≡ raw = cc (r.found, here) in
      let same : r.old ≡ old = cc (ap (decode_entry json) same_raw, r.decoded, decoded) in
      let encoded : encode_entry json (record old { state = synced backend_lsn }) ≡ ok r.bytes =
        subst
          (λ (e : WalEntry).
            encode_entry json (record e { state = synced backend_lsn }) ≡ ok r.bytes)
          same r.encoded in
      entry-of_row v lsn o r.bytes (record old { state = synced backend_lsn }) got r.rewrote
        (again r.bytes encoded)

  -- A successful `mark_failed` leaves the record of every other LSN as it was.
  pub mark_failed-others :
      (w v : Wal sled) (lsn m : ℕ)
      → lsn < 2 ^ 64
      → m < 2 ^ 64
      → m ≢ lsn
      → mark_failed sled json w lsn ≡ (v, ok tt)
      → get_row (key_of m) (sled.rows v.tree) ≡ get_row (key_of m) (sled.rows w.tree)
  unfolding mark_failed
  mark_failed-others w v lsn m fits small ne h =
      (update_state-Rewritten w v lsn (λ e. record e { state = failed }) fits h).kept m small ne

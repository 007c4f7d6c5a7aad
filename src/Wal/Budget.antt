-- ===== src/Wal/Budget.antt =====
-- The byte budget of wal.rs.
use exocortex.Common.{
  ℕ, ◌+◌, ◌≤◌, ◌<◌, min, ◌≡◌, refl, sym, ap, ◌∙◌, subst, String, List, [], ◌∷◌, ◌++◌, Result, ok,
  err, Bytes, length, arith, saturating_add, saturating_add_lem, u64_max, collect,
}
use exocortex.Wal.Rows.{Row, put_row-append}
use exocortex.Wal.Sled.{Sled}
use exocortex.Wal.Entry.{WalEntry}
use exocortex.Wal.Codec.{Json, encode_entry}
use exocortex.Wal.Log.{Wal, key_of, used_from, used_bytes, prepare, insert_entry_locked, write_row}
use exocortex.Wal.Lsn.{after-eq-ok, prepare-eq-ok, write_row-ok, next_lsn-Above}

-- The charge of the rows: the records' bytes, and 16 for each key.
abbrev pub size : List Row → ℕ
size [] = 0
size ((k, v) ∷ m) = length v + 16 + size m

pub size-append : (m n : List Row) → size (m ++ n) ≡ size m + size n
size-append [] n = omega arith
size-append ((k, v) ∷ m) n = omega (arith, size-append m n)

pub saturating_add-step :
    (acc c s x : ℕ) → x ≡ min (saturating_add acc c + s) u64_max → x ≡ min (acc + (c + s)) u64_max
saturating_add-step acc c s x h = omega (arith, h, saturating_add_lem acc c)

pub saturating_add-le : (a b : ℕ) → saturating_add a b ≤ u64_max
saturating_add-le a b = omega (arith, saturating_add_lem a b)

pub room_left :
    (s b used budget : ℕ)
    → used ≡ min s u64_max
    → saturating_add used b ≤ budget
    → budget < u64_max
    → s + b ≤ budget
room_left s b used budget e room small = omega (arith, saturating_add_lem used b)

module _ (sled : Sled) where
  used_from-collect :
      (acc x : ℕ) (items : List (Result String Row))
      → acc ≤ u64_max
      → used_from sled acc items ≡ ok x
      → (l : List Row) × (collect items ≡ ok l) × (x ≡ min (acc + size l) u64_max)
  unfolding used_from collect
  used_from-collect acc x [] small h = ([], refl, ground arith)
  used_from-collect acc x (err e ∷ items) small h = absurd (ground arith)
  used_from-collect acc x (ok (k, v) ∷ items) small h =
      let (l, collected, e) =
        used_from-collect (saturating_add acc (length v + 16)) x items
          (saturating_add-le acc (length v + 16)) h in
      ((k, v) ∷ l, ground (arith, collected), saturating_add-step acc (length v + 16) (size l) x e)

  -- `used_bytes` is the charge of the rows, up to 2 ^ 64 - 1.
  pub used_bytes-size :
      (w : Wal sled) (x : ℕ) → used_bytes sled w ≡ ok x → x ≡ min (size (sled.rows w.tree)) u64_max
  unfolding used_bytes
  used_bytes-size w x h =
      let (l, collected, e) = used_from-collect 0 x (sled.iter w.tree) (omega arith) h in
      omega (arith, e, ap size (sled.iter_ok w.tree l collected))

  module _ (json : Json) where
    -- With a budget below 2 ^ 64 - 1, a successful append has found room for the record's bytes
    -- in the budget, and leaves a charge that is larger by those bytes and by the 16 of the new
    -- key, which the test against the budget does not count.
    pub insert_entry_locked-size :
        (w v : Wal sled) (e : WalEntry) (n : ℕ)
        → w.max_bytes < u64_max
        → insert_entry_locked sled json w e ≡ (v, ok n)
        → (bytes : Bytes) × (encode_entry json (record e { local_lsn = n }) ≡ ok bytes)
          × (size (sled.rows w.tree) + length bytes ≤ w.max_bytes)
          × (size (sled.rows v.tree) ≡ size (sled.rows w.tree) + length bytes + 16)
    unfolding insert_entry_locked
    insert_entry_locked-size w v e n small h =
        let ((lsn, bytes), prepared, wrote) =
          after-eq-ok w (prepare sled json w e) (write_row sled w) v n h in
        let (next, encoded, (used, counted, room)) =
          prepare-eq-ok sled json w e lsn bytes prepared in
        let (same, rows, budget, gate) = write_row-ok sled w v lsn n bytes wrote in
        let (above, fits) = next_lsn-Above sled w lsn next in
        let appended : sled.rows v.tree ≡ sled.rows w.tree ++ (key_of lsn, bytes) ∷ [] =
          rows ∙ put_row-append (key_of lsn) bytes (sled.rows w.tree) above in
        (
          bytes,
          subst (λ (k : ℕ). encode_entry json (record e { local_lsn = k }) ≡ ok bytes) (sym same)
              encoded,
          room_left (size (sled.rows w.tree)) (length bytes) used w.max_bytes
              (used_bytes-size w used counted) room small,
          ap size appended
              ∙ size-append (sled.rows w.tree) ((key_of lsn, bytes) ∷ [])
              ∙ omega arith,
        )

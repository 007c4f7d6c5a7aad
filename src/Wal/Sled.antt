-- ===== src/Wal/Sled.antt =====
-- What wal.rs uses of a `sled::Tree`: an ordered map of byte strings whose calls may fail with an
-- io error. `rows` is what the tree holds, in key order. An iterator yields rows or errors.
use exocortex.Common.{
  ◌≡◌, Option, List, [], ◌∷◌, Result, ok, collect, All, AreBytes, Bytes, String, get_last?,
}
use exocortex.Wal.Rows.{Row, Ascending, put_row, get_row}

abbrev pub put_all : List Row → List Row → List Row
put_all [] m = m
put_all ((k, v) ∷ b) m = put_all b (put_row k v m)

pub record Sled : Type 1 where
  pub Tree : Type 0
  pub rows : Tree → List Row
  pub iter : Tree → List (Result String Row)
  pub get : Tree → Bytes → Result String (Option Bytes)
  pub last : Tree → Result String (Option Row)
  pub insert : Tree → Bytes → Bytes → Tree × Result String (Unit {0})
  pub apply_batch : Tree → List Row → Tree × Result String (Unit {0})
  pub flush : Tree → Tree × Result String (Unit {0})
  -- A sled tree is sorted by its keys, which are bytes.
  pub rows_sorted : (t : Tree) → Ascending (rows t)
  pub rows_bytes : (t : Tree) → All (λ (r : Row). AreBytes r.0) (rows t)
  -- Reads that succeed show the rows.
  pub iter_ok : (t : Tree) (l : List Row) → collect (iter t) ≡ ok l → l ≡ rows t
  pub get_ok : (t : Tree) (k : Bytes) (o : Option Bytes) → get t k ≡ ok o → o ≡ get_row k (rows t)
  pub last_ok : (t : Tree) (o : Option Row) → last t ≡ ok o → o ≡ get_last? (rows t)
  -- Writes that succeed have written; a batch is applied whole.
  pub insert_ok :
      (t : Tree) (k v : Bytes)
      → (insert t k v).1 ≡ ok tt
      → rows (insert t k v).0 ≡ put_row k v (rows t)
  pub apply_batch_ok :
      (t : Tree) (b : List Row)
      → (apply_batch t b).1 ≡ ok tt
      → rows (apply_batch t b).0 ≡ put_all b (rows t)
  pub flush_rows : (t : Tree) → rows (flush t).0 ≡ rows t

-- ===== src/Wal/Lsn.antt =====
-- Appends to the log of wal.rs: the new record stands after all the others, at a fresh LSN.
use Prim.Native.Nat.{Ordering}
use exocortex.Common.{
  ℕ, ◌+◌, ◌^◌, ◌≤◌, ◌<◌, ◌≡◌, refl, sym, ap, subst, ◌∙◌, Option, none, some, List, [], ◌∷◌, ◌++◌,
  Result, ok, err, Bytes, from_be, arith, All, AreBytes, get_last?, length, length-be_bytes,
  be_bytes-AreBytes, from_be-be_bytes, checked_add, >>=-eq-ok, map_err, saturating_add,
}
use exocortex.Wal.Rows.{
  Row, compare_bytes, compare_bytes-from_be, put_row, put_row-append, Ascending, Above,
  get_last?-Above,
}
use exocortex.Wal.Sled.{Sled}
use exocortex.Wal.Entry.{WalEntry, WalError, io}
use exocortex.Wal.Codec.{Json, encode_entry}
use exocortex.Wal.Log.{
  Wal, key_of, key_to_lsn, lsn_after, next_lsn, write_row, after, prepare, insert_entry_locked,
  used_bytes,
}

pub after-eq-ok :
    {sled : Sled} {A B : Type 0} (w : Wal sled) (r : Result WalError A)
    (f : A → Wal sled × Result WalError B) (v : Wal sled) (b : B)
    → after sled w r f ≡ (v, ok b)
    → (a : A) × (r ≡ ok a) × (f a ≡ (v, ok b))
after-eq-ok w (ok a) f v b h = (a, refl, h)
after-eq-ok w (err e) f v b h = absurd (ground arith)

pub map_err-eq-ok :
    {E F A : Type 0} (f : E → F) (r : Result E A) (a : A) → map_err f r ≡ ok a → r ≡ ok a
map_err-eq-ok f (ok b) a h = ground arith
map_err-eq-ok f (err e) a h = absurd (ground arith)

last-AreBytes :
    (m : List Row) (r : Row)
    → All (λ (s : Row). AreBytes s.0) m
    → some r ≡ get_last? m
    → AreBytes r.0
last-AreBytes [] r h l = absurd (ground arith)
last-AreBytes (s ∷ []) r h l = let e : s ≡ r = cc l in subst (λ (t : Row). AreBytes t.0) e h.0
last-AreBytes (s ∷ t ∷ m) r h l = last-AreBytes (t ∷ m) r h.1 l

get_last?-cons : (s : Row) (m : List Row) → ¬ (none ≡ get_last? (s ∷ m))
get_last?-cons s [] l = cc
get_last?-cons s (t ∷ m) l = get_last?-cons t m l

Above-none : (k : Bytes) (m : List Row) → none ≡ get_last? m → Above k m
Above-none k [] l = tt
Above-none k (s ∷ []) l = absurd (ground arith)
Above-none k (s ∷ t ∷ m) l = absurd (get_last?-cons t m l)

lsn_after-some :
    (sled : Sled) (key v : Bytes) (n : ℕ)
    → lsn_after sled (some (key, v)) ≡ ok n
    → (length key ≡ 8) × (n ≡ from_be key + 1) × (n < 2 ^ 64)
unfolding lsn_after key_to_lsn checked_add
lsn_after-some sled key v n h = ground arith

lsn_after-Above :
    (sled : Sled) (o : Option Row) (n : ℕ) (m : List Row)
    → Ascending m
    → All (λ (s : Row). AreBytes s.0) m
    → o ≡ get_last? m
    → lsn_after sled o ≡ ok n
    → Above (key_of n) m × (n < 2 ^ 64)
lsn_after-Above sled none n m asc bs l h =
    (Above-none (key_of n) m l, unfold lsn_after in ground arith)
lsn_after-Above sled (some (key, v)) n m asc bs l h =
    let (eight, next, fits) = lsn_after-some sled key v n h in
    let below : compare_bytes key (key_of n) ≡ Ordering.lt =
      compare_bytes-from_be key (key_of n) (omega (arith, eight, length-be_bytes 8 n))
        (last-AreBytes m (key, v) bs l) (be_bytes-AreBytes 8 n)
        (omega (arith, next, from_be-be_bytes 8 n fits)) in
    (get_last?-Above (key_of n) m (key, v) asc (sym l) below, fits)

module _ (sled : Sled) where
  -- What a successful write of one row leaves.
  pub write_row-ok :
      (w v : Wal sled) (lsn n : ℕ) (bytes : Bytes)
      → write_row sled w (lsn, bytes) ≡ (v, ok n)
      → (n ≡ lsn)
        × (sled.rows v.tree ≡ put_row (key_of lsn) bytes (sled.rows w.tree))
        × (v.max_bytes ≡ w.max_bytes)
        × (v.poisoned ≡ w.poisoned)
  unfolding write_row
  write_row-ok w v lsn n bytes h = ground (
    arith,
    sled.insert_ok w.tree (key_of lsn) bytes,
    sled.flush_rows (sled.insert w.tree (key_of lsn) bytes).0,
  )

  -- The next LSN is above every key.
  pub next_lsn-Above :
      (w : Wal sled) (n : ℕ)
      → next_lsn sled w ≡ ok n
      → Above (key_of n) (sled.rows w.tree) × (n < 2 ^ 64)
  unfolding next_lsn
  next_lsn-Above w n h =
      let (o, last, next) = >>=-eq-ok (map_err io (sled.last w.tree)) (lsn_after sled) h in
      lsn_after-Above sled o n (sled.rows w.tree) (sled.rows_sorted w.tree) (sled.rows_bytes w.tree)
        (sled.last_ok w.tree o (map_err-eq-ok io (sled.last w.tree) o last)) next

  module _ (json : Json) where
    -- What the checks of an append have found.
    pub prepare-eq-ok :
        (w : Wal sled) (e : WalEntry) (lsn : ℕ) (bytes : Bytes)
        → prepare sled json w e ≡ ok (lsn, bytes)
        → (next_lsn sled w ≡ ok lsn)
          × (encode_entry json (record e { local_lsn = lsn }) ≡ ok bytes)
          × ((used : ℕ) × (used_bytes sled w ≡ ok used)
              × (saturating_add used (length bytes) ≤ w.max_bytes))
    unfolding prepare
    prepare-eq-ok w e lsn bytes h =
        let (l, next, h₁) = >>=-eq-ok (next_lsn sled w) _ h in
        let (b, encoded, h₂) =
          >>=-eq-ok (map_err io (encode_entry json (record e { local_lsn = l }))) _ h₁ in
        let (u, used, h₃) = >>=-eq-ok (used_bytes sled w) _ h₂ in
        let same : (l ≡ lsn) × (b ≡ bytes) × (saturating_add u (length b) ≤ w.max_bytes) =
          ground arith in
        (
          next ∙ ap ok same.0,
          subst (λ (k : ℕ). encode_entry json (record e { local_lsn = k }) ≡ ok bytes) same.0
              (map_err-eq-ok io (encode_entry json (record e { local_lsn = l })) b encoded
                ∙ ap ok same.1),
          (u, used, subst (λ (c : Bytes). saturating_add u (length c) ≤ w.max_bytes) same.1 same.2),
        )

    -- A successful append encodes the entry at the LSN that it returns, puts the record behind all
    -- others and changes nothing else; the LSN fits 64 bits, and every older key is smaller.
    pub insert_entry_locked-appends :
        (w v : Wal sled) (e : WalEntry) (n : ℕ)
        → insert_entry_locked sled json w e ≡ (v, ok n)
        → (bytes : Bytes) × (encode_entry json (record e { local_lsn = n }) ≡ ok bytes)
          × (sled.rows v.tree ≡ sled.rows w.tree ++ (key_of n, bytes) ∷ [])
          × Above (key_of n) (sled.rows w.tree)
          × (n < 2 ^ 64)
    unfolding insert_entry_locked
    insert_entry_locked-appends w v e n h =
        let ((lsn, bytes), prepared, wrote) =
          after-eq-ok w (prepare sled json w e) (write_row sled w) v n h in
        let (next, encoded, room) = prepare-eq-ok w e lsn bytes prepared in
        let (same, rows, budget, gate) = write_row-ok w v lsn n bytes wrote in
        let (above, fits) = next_lsn-Above w lsn next in
        subst
          (λ (k : ℕ).
            (c : Bytes) × (encode_entry json (record e { local_lsn = k }) ≡ ok c)
            × (sled.rows v.tree ≡ sled.rows w.tree ++ (key_of k, c) ∷ [])
            × Above (key_of k) (sled.rows w.tree)
            × (k < 2 ^ 64))
          (sym same)
          (
            bytes,
            encoded,
            rows ∙ put_row-append (key_of lsn) bytes (sled.rows w.tree) above,
            above,
            fits,
          )

    -- An append keeps the budget and the state of the gate.
    pub insert_entry_locked-gate :
        (w v : Wal sled) (e : WalEntry) (n : ℕ)
        → insert_entry_locked sled json w e ≡ (v, ok n)
        → (v.max_bytes ≡ w.max_bytes) × (v.poisoned ≡ w.poisoned)
    unfolding insert_entry_locked
    insert_entry_locked-gate w v e n h =
        let ((lsn, bytes), prepared, wrote) =
          after-eq-ok w (prepare sled json w e) (write_row sled w) v n h in
        let (same, rows, budget, gate) = write_row-ok w v lsn n bytes wrote in (budget, gate)

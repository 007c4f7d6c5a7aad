-- ===== src/Wal/Encoding.antt =====
-- The rows that an import of wal.rs writes: the entries encoded at consecutive LSNs.
use Prim.Native.Nat.{Ordering}
use exocortex.Common.{
  ℕ, ◌+◌, ◌^◌, ◌≤◌, ◌<◌, ◌≡◌, refl, sym, ap, subst, ◌∙◌, inl, inr, List, [], ◌∷◌, ◌++◌, ok, Bytes,
  arith, All-append, length, length-be_bytes, be_bytes-AreBytes, from_be-be_bytes, saturating_add,
  u64_max, min, dec_lt, leb, leb→le, Result-cases, Bool-cases,
}
use mathlib.Core.List.{append_assoc, append-nil}
use exocortex.Wal.Rows.{
  Row, compare_bytes, compare_bytes-from_be, compare_bytes_trans, compare_bytes-swap,
  compare_bytes-swap_gt, put_row, put_row-append, Above,
}
use exocortex.Wal.Sled.{Sled, put_all}
use exocortex.Wal.Entry.{WalEntry}
use exocortex.Wal.Codec.{Json, encode_entry}
use exocortex.Wal.Log.{key_of, encode_rows}
use exocortex.Wal.Budget.{size, saturating_add-step, saturating_add-le}

-- The rows hold the entries' encodings at the LSNs from `n` on.
abbrev pub Encoded : Json → ℕ → List WalEntry → List Row → Type 0
Encoded json n [] [] = Unit
Encoded json n [] (r ∷ m) = ⊥
Encoded json n (e ∷ es) [] = ⊥
Encoded json n (e ∷ es) (r ∷ m) =
    (r.0 ≡ key_of n)
    × (encode_entry json (record e { local_lsn = n }) ≡ ok r.1)
    × (n < 2 ^ 64)
    × Encoded json (n + 1) es m

key_of-lt : (n j : ℕ) → n < j → j < 2 ^ 64 → compare_bytes (key_of n) (key_of j) ≡ Ordering.lt
key_of-lt n j l fits =
    compare_bytes-from_be (key_of n) (key_of j)
      (omega (arith, length-be_bytes 8 n, length-be_bytes 8 j)) (be_bytes-AreBytes 8 n)
      (be_bytes-AreBytes 8 j)
      (omega (arith, from_be-be_bytes 8 n (omega arith), from_be-be_bytes 8 j fits))

-- Keys that are above the rows from some LSN on.
abbrev pub AboveFrom : ℕ → List Row → Type 0
AboveFrom n m = (j : ℕ) → n ≤ j → j < 2 ^ 64 → Above (key_of j) m

key_of_mono :
    (n j : ℕ) (k : Bytes)
    → n ≤ j
    → j < 2 ^ 64
    → compare_bytes (key_of n) k ≡ Ordering.gt
    → compare_bytes (key_of j) k ≡ Ordering.gt
key_of_mono n j k l fits h = elim (dec_lt n j) [
  | yes below ↦ compare_bytes-swap k (key_of j) (
      compare_bytes_trans k (key_of n) (key_of j) (compare_bytes-swap_gt (key_of n) k h)
        (key_of-lt n j below fits))
  | no over ↦
      let same : n ≡ j = omega arith in
      subst (λ (i : ℕ). compare_bytes (key_of i) k ≡ Ordering.gt) same h
]

pub Above-AboveFrom : (n : ℕ) (m : List Row) → Above (key_of n) m → AboveFrom n m
Above-AboveFrom n [] h j l fits = tt
Above-AboveFrom n (r ∷ m) h j l fits =
    (key_of_mono n j r.0 l fits h.0, Above-AboveFrom n m h.1 j l fits)

AboveFrom-append :
    (n : ℕ) (m : List Row) (b : Bytes) → AboveFrom n m → AboveFrom (n + 1) (m ++ (key_of n, b) ∷ [])
AboveFrom-append n m b h j l fits =
    All-append (λ (r : Row). compare_bytes (key_of j) r.0 ≡ Ordering.gt) m ((key_of n, b) ∷ [])
      (h j (omega arith) fits)
      (compare_bytes-swap (key_of n) (key_of j) (key_of-lt n j (omega arith) fits), tt)

pub put_all-append :
    (json : Json) (n : ℕ) (es : List WalEntry) (batch m : List Row)
    → Encoded json n es batch
    → AboveFrom n m
    → put_all batch m ≡ m ++ batch
put_all-append json n [] [] m enc h = sym (append-nil m)
put_all-append json n [] (r ∷ batch) m enc h = absurd enc
put_all-append json n (e ∷ es) [] m enc h = absurd enc
put_all-append json n (e ∷ es) ((k, v) ∷ batch) m enc h =
    let first : put_row k v m ≡ m ++ (key_of n, v) ∷ [] =
      ap (λ (i : Bytes). put_row i v m) enc.0
      ∙ put_row-append (key_of n) v m (h n (omega arith) enc.2) in
    ap (put_all batch) first
    ∙ put_all-append json (n + 1) es batch (m ++ (key_of n, v) ∷ []) enc.3
        (AboveFrom-append n m v h)
    ∙ append_assoc m ((key_of n, v) ∷ []) batch
    ∙ ap (λ (i : Bytes). m ++ (i, v) ∷ batch) (sym enc.0)

encode_rows-cons :
    (sled : Sled) (json : Json) (first offset charge : ℕ) (e : WalEntry) (es : List WalEntry)
    (batch : List Row) (total : ℕ)
    → encode_rows sled json first offset charge (e ∷ es) ≡ ok (batch, total)
    → (bytes : Bytes) × (rest : List Row) × (first + offset ≤ u64_max)
      × (encode_entry json (record e { local_lsn = first + offset }) ≡ ok bytes)
      × (encode_rows sled json first (offset + 1) (saturating_add charge (length bytes + 16)) es
          ≡ ok (rest, total))
      × (batch ≡ (key_of (first + offset), bytes) ∷ rest)
unfolding encode_rows
encode_rows-cons sled json first offset charge e es batch total h =
    elim (Bool-cases (leb (first + offset) u64_max)) [
      | inr over ↦ absurd (ground (arith, over))
      | inl fits ↦
          elim (Result-cases (encode_entry json (record e { local_lsn = first + offset }))) [
            | inr (x, bad) ↦ absurd (ground (arith, fits, bad))
            | inl (bytes, good) ↦
                elim (Result-cases (
                  encode_rows sled json first (offset + 1)
                    (saturating_add charge (length bytes + 16)) es)) [
                      | inr (x, bad) ↦ absurd (ground (arith, fits, good, bad))
                      | inl ((rest, sum), more) ↦ (
                        bytes,
                        rest,
                        leb→le (first + offset) u64_max fits,
                        good,
                        ground (arith, fits, good, more),
                        ground (arith, fits, good, more),
                      )
                    ]
          ]
    ]

encode_rows-nil :
    (sled : Sled) (json : Json) (first offset charge : ℕ) (batch : List Row) (total : ℕ)
    → charge ≤ u64_max
    → encode_rows sled json first offset charge [] ≡ ok (batch, total)
    → Encoded json (first + offset) [] batch × (total ≡ min (charge + size batch) u64_max)
unfolding encode_rows
encode_rows-nil sled json first offset charge [] total small h = (tt, ground arith)
encode_rows-nil sled json first offset charge (r ∷ batch) total small h = absurd (ground arith)

pub encode_rows-Encoded :
    (sled : Sled) (json : Json) (first offset charge : ℕ) (es : List WalEntry) (batch : List Row)
    (total : ℕ)
    → charge ≤ u64_max
    → encode_rows sled json first offset charge es ≡ ok (batch, total)
    → Encoded json (first + offset) es batch × (total ≡ min (charge + size batch) u64_max)
encode_rows-Encoded sled json first offset charge [] batch total small h =
    encode_rows-nil sled json first offset charge batch total small h
encode_rows-Encoded sled json first offset charge (e ∷ es) batch total small h =
    let (bytes, rest, fits, good, more, split) =
      encode_rows-cons sled json first offset charge e es batch total h in
    let (enc, sum) =
      encode_rows-Encoded sled json first (offset + 1) (saturating_add charge (length bytes + 16))
        es rest total (saturating_add-le charge (length bytes + 16)) more in
    let next : first + (offset + 1) ≡ first + offset + 1 = omega arith in
    (
      subst (λ (m : List Row). Encoded json (first + offset) (e ∷ es) m) (sym split)
          (refl, good, omega (arith, fits), subst (λ (i : ℕ). Encoded json i es rest) next enc),
      saturating_add-step charge (length bytes + 16) (size rest) total sum
          ∙ ap (λ (m : List Row). min (charge + size m) u64_max) (sym split),
    )

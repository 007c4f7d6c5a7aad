-- ===== src/Wal/Import.antt =====
-- The import of a backup into the log of wal.rs: all of it at consecutive LSNs, or nothing.
use exocortex.Common.{
  ℕ, ◌+◌, ◌≤◌, ◌<◌, ◌≡◌, ◌≢◌, sym, ap, subst, ◌∙◌, ◌⊎◌, inl, inr, List, ◌∷◌, ◌++◌, Result, ok, err,
  arith, >>=-eq-ok, saturating_add, saturating_add_lem, u64_max, min, Result-cases, Bool-cases,
  if-eq_of_false, if-eq_of_true,
}
use exocortex.Wal.Rows.{Row}
use exocortex.Wal.Sled.{Sled, put_all}
use exocortex.Wal.Entry.{WalEntry, WalError, full}
use exocortex.Wal.Codec.{Json}
use exocortex.Wal.Log.{
  Wal, poison, after, used_bytes, next_lsn, encode_rows, prepare_import, write_batch,
  append_imported_batch_with,
}
use exocortex.Wal.Lsn.{after-eq-ok, next_lsn-Above}
use exocortex.Wal.Budget.{size, size-append, used_bytes-size}
use exocortex.Wal.Encoding.{
  Encoded, AboveFrom, Above-AboveFrom, put_all-append, encode_rows-Encoded,
}

import_fits :
    (after_size s b used charge budget : ℕ)
    → after_size ≡ s + b
    → used ≡ min s u64_max
    → charge ≡ min (0 + b) u64_max
    → saturating_add used charge ≤ budget
    → budget < u64_max
    → after_size ≤ budget
import_fits after_size s b used charge budget e u c room small =
    omega (arith, saturating_add_lem used charge)

err-ne-ok : (x : WalError) → err x ≢ ok tt
err-ne-ok x h = cc

import-after :
    (sled : Sled) (json : Json) (w v : Wal sled) (e : WalEntry) (es : List WalEntry)
    (before : Result WalError (Unit {0})) (n : ℕ)
    → append_imported_batch_with sled json w (e ∷ es) before ≡ (v, ok n)
    → after sled w (prepare_import sled json w (e ∷ es) before) (write_batch sled json w)
      ≡ (v, ok n)
unfolding append_imported_batch_with
import-after sled json w v e es before n h = elim (Bool-cases w.poisoned) [
  | inl poisoned ↦ absurd (ground (arith, poisoned))
  | inr healthy ↦ if-eq_of_false w.poisoned _ _ healthy h
]

module _ (sled : Sled) (json : Json) where
  write_batch-ok :
      (w v : Wal sled) (first n : ℕ) (batch : List Row)
      → write_batch sled json w (first, batch) ≡ (v, ok n)
      → (n ≡ first) × (sled.rows v.tree ≡ put_all batch (sled.rows w.tree))
  unfolding write_batch
  write_batch-ok w v first n batch h =
      ground
        (arith, sled.apply_batch_ok w.tree batch, sled.flush_rows (sled.apply_batch w.tree batch).0)

  write_batch-ne-full :
      (w v : Wal sled) (first : ℕ) (batch : List Row) (used budget : ℕ)
      → write_batch sled json w (first, batch) ≢ (v, err (full used budget))
  unfolding write_batch
  write_batch-ne-full w v first batch used budget h = ground arith

  prepare_import-ok :
      (w : Wal sled) (es : List WalEntry) (before : Result WalError (Unit {0})) (first : ℕ)
      (batch : List Row)
      → prepare_import sled json w es before ≡ ok (first, batch)
      → (next_lsn sled w ≡ ok first)
        × ((used : ℕ) × (charge : ℕ) × (encode_rows sled json first 0 0 es ≡ ok (batch, charge))
            × (used_bytes sled w ≡ ok used)
            × (saturating_add used charge ≤ w.max_bytes))
        × (before ≡ ok tt)
  unfolding prepare_import
  prepare_import-ok w es before first batch h =
      let (f, next, h₁) = >>=-eq-ok (next_lsn sled w) _ h in
      let ((rows, charge), encoded, h₂) = >>=-eq-ok (encode_rows sled json f 0 0 es) _ h₁ in
      let (u, used, h₃) = >>=-eq-ok (used_bytes sled w) _ h₂ in
      let facts : (f ≡ first)
          × (rows ≡ batch)
          × (saturating_add u charge ≤ w.max_bytes)
          × (before ≡ ok tt) =
        ground arith in
      (
        next ∙ ap ok facts.0,
        (
          u,
          charge,
          subst (λ (i : ℕ). encode_rows sled json i 0 0 es ≡ ok (batch, charge)) facts.0
              (encoded ∙ ap (λ (m : List Row). ok (m, charge)) facts.1),
          used,
          facts.2,
        ),
        facts.3,
      )

  -- With a budget below 2 ^ 64 - 1, a successful import of some entries puts the encodings of all
  -- of them, at consecutive LSNs from the one that it returns, behind the rows that were there, and
  -- the charge of the log stays within the budget.
  pub append_imported_batch-appends :
      (w v : Wal sled) (e : WalEntry) (es : List WalEntry) (before : Result WalError (Unit {0}))
      (n : ℕ)
      → w.max_bytes < u64_max
      → append_imported_batch_with sled json w (e ∷ es) before ≡ (v, ok n)
      → (batch : List Row) × Encoded json n (e ∷ es) batch
        × (sled.rows v.tree ≡ sled.rows w.tree ++ batch)
        × (size (sled.rows v.tree) ≤ w.max_bytes)
  append_imported_batch-appends w v e es before n small h =
      let h₁ = import-after sled json w v e es before n h in
      let ((first, batch), prepared, wrote) =
        after-eq-ok w (prepare_import sled json w (e ∷ es) before) (write_batch sled json w) v n
          h₁ in
      let (next, (used, charge, encoded, counted, room), called) =
        prepare_import-ok w (e ∷ es) before first batch prepared in
      let (same, rows) = write_batch-ok w v first n batch wrote in
      let (above, fits) = next_lsn-Above sled w first next in
      let (enc, sum) =
        encode_rows-Encoded sled json first 0 0 (e ∷ es) batch charge (omega arith) encoded in
      let at_n : first + 0 ≡ n = omega (arith, same) in
      let enc' : Encoded json n (e ∷ es) batch =
        subst (λ (i : ℕ). Encoded json i (e ∷ es) batch) at_n enc in
      let appended : sled.rows v.tree ≡ sled.rows w.tree ++ batch =
        rows
        ∙ put_all-append json n (e ∷ es) batch (sled.rows w.tree) enc' (
            subst (λ (i : ℕ). AboveFrom i (sled.rows w.tree)) (sym same)
              (Above-AboveFrom first (sled.rows w.tree) above)) in
      (
        batch,
        enc',
        appended,
        import_fits (size (sled.rows v.tree)) (size (sled.rows w.tree)) (size batch) used charge
            w.max_bytes (ap size appended ∙ size-append (sled.rows w.tree) batch)
            (used_bytes-size sled w used counted) sum room small,
      )

  import-cases :
      (w v : Wal sled) (e : WalEntry) (es : List WalEntry) (before : Result WalError (Unit {0}))
      (r : Result WalError ℕ)
      → append_imported_batch_with sled json w (e ∷ es) before ≡ (v, r)
      → ((x : WalError) × (r ≡ err x) × (v ≡ w))
        ⊎ ((p : ℕ × List Row) × (prepare_import sled json w (e ∷ es) before ≡ ok p)
            × (write_batch sled json w p ≡ (v, r)))
  unfolding append_imported_batch_with
  import-cases w v e es before r h = elim (Bool-cases w.poisoned) [
    | inl locked ↦
        let stopped : ◌≡◌ {A = Wal sled × Result WalError ℕ} (w, err poison) (v, r) =
          if-eq_of_true w.poisoned _ _ locked h in
        inl (poison, ap (λ p. p.1) (sym stopped), ap (λ p. p.0) (sym stopped))
    | inr free ↦
        let h₁ = if-eq_of_false w.poisoned _ _ free h in
        elim (Result-cases (prepare_import sled json w (e ∷ es) before)) [
          | inr (y, bad) ↦
              let stopped : ◌≡◌ {A = Wal sled × Result WalError ℕ} (w, err y) (v, r) =
                ap (λ a. after sled w a (write_batch sled json w)) (sym bad) ∙ h₁ in
              inl (y, ap (λ p. p.1) (sym stopped), ap (λ p. p.0) (sym stopped))
          | inl (p, good) ↦
              inr (p, good, ap (λ a. after sled w a (write_batch sled json w)) (sym good) ∙ h₁)
        ]
  ]

  -- An import that the byte budget stops leaves the log as it was.
  pub append_imported_batch-full :
      (w v : Wal sled) (e : WalEntry) (es : List WalEntry) (before : Result WalError (Unit {0}))
      (used budget : ℕ)
      → append_imported_batch_with sled json w (e ∷ es) before ≡ (v, err (full used budget))
      → v ≡ w
  append_imported_batch-full w v e es before used budget h =
      elim (import-cases w v e es before (err (full used budget)) h) [
        | inl (x, q, same) ↦ same
        | inr ((first, batch), good, wrote) ↦
            absurd (write_batch-ne-full w v first batch used budget wrote)
      ]

  -- An import whose closure fails is an error, and leaves the log as it was.
  append_imported_batch-closure :
      (w v : Wal sled) (e : WalEntry) (es : List WalEntry) (x : WalError) (r : Result WalError ℕ)
      → append_imported_batch_with sled json w (e ∷ es) (err x) ≡ (v, r)
      → (v ≡ w) × ((y : WalError) × (r ≡ err y))
  append_imported_batch-closure w v e es x r h = elim (import-cases w v e es (err x) r h) [
    | inl (y, q, same) ↦ (same, (y, q))
    | inr ((first, batch), good, wrote) ↦
        absurd (err-ne-ok x (prepare_import-ok w (e ∷ es) (err x) first batch good).2)
  ]

-- ===== src/Drain/Outcome.antt =====
-- What drain.rs does with an acknowledgement, by a reading that does not rank the rows.
use exocortex.Common.{
  ℕ, ◌≡◌, refl, ap, ◌∙◌, Bool, Bool-cases, true, false, inl, inr, ◌||◌, not, List, [], ◌∷◌,
  if◌then◌else◌, ltb, any, every, arith,
}
use exocortex.Wal.Sled.{Sled}
use exocortex.Wal.Entry.{WalEntry}
use exocortex.Wal.Codec.{Json}
use exocortex.Wal.Log.{Wal, mark_synced, mark_failed}
use exocortex.Wire.Corrections.{Disposition, success, retry, permanent, fatal}
use exocortex.Drain.{
  RejectRow, IngestAck, DrainReport, add_synced, add_failed, add_pending, rank, disposition_of,
  worst_of, settle_as, settle,
}

abbrev pub is_terminal : RejectRow → Bool
is_terminal row = elim (disposition_of row) [ permanent ↦ true | fatal ↦ true | _ ↦ false ]

abbrev pub is_success : RejectRow → Bool
is_success row = elim (disposition_of row) [ success ↦ true | _ ↦ false ]

-- The worst disposition is as bad as `bound` exactly when the first one or some row is.
worst_of-any :
    (bound : ℕ) (d : Disposition) (rows : List RejectRow)
    → ltb bound (rank (worst_of d rows))
      ≡ (ltb bound (rank d) || any (λ r. ltb bound (rank (disposition_of r))) rows)
unfolding worst_of any
worst_of-any bound d [] = ground arith
worst_of-any bound d (row ∷ rows) = ground (
  arith,
  worst_of-any bound (if ltb (rank d) (rank (disposition_of row)) then disposition_of row else d)
      rows,
)

any-terminal :
    (rows : List RejectRow) → any (λ r. ltb 1 (rank (disposition_of r))) rows ≡ any is_terminal rows
unfolding any rank
any-terminal [] = refl
any-terminal (row ∷ rows) = ground (arith, any-terminal rows)

any-failure :
    (rows : List RejectRow)
    → any (λ r. ltb 0 (rank (disposition_of r))) rows ≡ not (every is_success rows)
unfolding any every rank
any-failure [] = refl
any-failure (row ∷ rows) = ground (arith, any-failure rows)

worst-terminal :
    (rows : List RejectRow) → ltb 1 (rank (worst_of success rows)) ≡ any is_terminal rows
worst-terminal rows = worst_of-any 1 success rows ∙ unfold rank in any-terminal rows

worst-failure :
    (rows : List RejectRow) → ltb 0 (rank (worst_of success rows)) ≡ not (every is_success rows)
worst-failure rows = worst_of-any 0 success rows ∙ unfold rank in any-failure rows

success-terminal :
    (rows : List RejectRow) → every is_success rows ≡ true → any is_terminal rows ≡ false
unfolding every any
success-terminal [] h = refl
success-terminal (row ∷ rows) h = ground (arith, success-terminal rows)

lsn_same : (n : ℕ) → (if ltb 0 n then n else 0) ≡ n
lsn_same n = ground arith

-- The order of two tests that exclude each other does not matter.
if-swap :
    {A : Type 0} (t s : Bool) (f p y : A)
    → (s ≡ true → t ≡ false)
    → (if t then f else if not s then p else y) ≡ (if s then y else if t then f else p)
if-swap true true f p y h = absurd (ground (arith, h refl))
if-swap true false f p y h = refl
if-swap false true f p y h = refl
if-swap false false f p y h = refl

module _ (sled : Sled) (json : Json) where
  settle_as-eq :
      (w : Wal sled) (e : WalEntry) (ack : IngestAck) (r : DrainReport) (d : Disposition)
      → settle_as sled json w e ack r d ≡ (
          if ltb 1 (rank d)
          then ((mark_failed sled json w e.local_lsn).0, add_failed r)
          else if ltb 0 (rank d)
          then (w, add_pending r)
          else ((mark_synced sled json w e.local_lsn ack.assigned_lsn).0, add_synced r))
  unfolding settle_as rank
  settle_as-eq w e ack r success = refl
  settle_as-eq w e ack r retry = refl
  settle_as-eq w e ack r permanent = refl
  settle_as-eq w e ack r fatal = refl

  -- `settle` calls `mark_synced` with the acknowledged LSN when some row was accepted or every
  -- rejection counts as success, calls `mark_failed` when none was accepted and some rejection is
  -- permanent or fatal, and otherwise leaves the log alone; the report counts the entry in the
  -- matching field, whatever the call answers.
  pub settle-eq :
      (w : Wal sled) (e : WalEntry) (ack : IngestAck) (r : DrainReport)
      → settle sled json w e ack r ≡ (
          if ltb 0 ack.accepted || every is_success ack.rejections
          then ((mark_synced sled json w e.local_lsn ack.assigned_lsn).0, add_synced r)
          else if any is_terminal ack.rejections
          then ((mark_failed sled json w e.local_lsn).0, add_failed r)
          else (w, add_pending r))
  unfolding settle
  settle-eq w e ack r = elim (Bool-cases (ltb 0 ack.accepted)) [
    | inl some_row ↦ rw some_row (
        ap (λ (n : ℕ). ((mark_synced sled json w e.local_lsn n).0, add_synced r))
          (lsn_same ack.assigned_lsn))
    | inr no_row ↦ rw no_row (
        settle_as-eq w e ack r (worst_of success ack.rejections)
        ∙ rw (worst-terminal ack.rejections, worst-failure ack.rejections)
            (if-swap (any is_terminal ack.rejections) (every is_success ack.rejections) _ _ _
              (success-terminal ack.rejections)))
  ]

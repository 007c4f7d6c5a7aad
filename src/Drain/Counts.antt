-- ===== src/Drain/Counts.antt =====
-- The report of a pass of drain.rs accounts for every entry that it examined.
use exocortex.Common.{
  ℕ, suc, ◌+◌, ◌≤◌, ◌≡◌, refl, sym, subst, String, Bool-cases, inl, inr, List, [], ◌∷◌, ok, err,
  >>=-eq-ok, Result-cases, length, arith, ltb,
}
use exocortex.Wal.Sled.{Sled}
use exocortex.Wal.Entry.{WalEntry}
use exocortex.Wal.Codec.{Json}
use exocortex.Wal.Log.{Wal, mark_failed}
use exocortex.Wal.Reads.{pending_entries}
use exocortex.Wire.Corrections.{Disposition, success, retry, permanent, fatal}
use exocortex.Drain.{
  IngestAck, DrainReport, no_report, add_attempted, add_pending, add_failed, worst_of, settle_as,
  settle, Backend, drain_from, drain_once,
}

-- Each examined entry is counted in exactly one other field.
abbrev pub Balanced : DrainReport → Type 0
Balanced r = r.attempted ≡ r.synced + r.failed + r.still_pending

-- One more was counted than examined.
abbrev Settled : DrainReport → DrainReport → Type 0
Settled r t =
    (t.attempted ≡ r.attempted)
    × (t.synced + t.failed + t.still_pending ≡ r.synced + r.failed + r.still_pending + 1)

one_more :
    (t : DrainReport) (before now n : ℕ)
    → now ≡ before + 1
    → Balanced t × (t.attempted ≤ now + n)
    → Balanced t × (t.attempted ≤ before + suc n)
one_more t before now n e (b, l) = (b, omega (arith, e, l))

module _ (sled : Sled) (json : Json) where
  settle_as-Settled :
      (w : Wal sled) (e : WalEntry) (ack : IngestAck) (r : DrainReport) (d : Disposition)
      → Settled r (settle_as sled json w e ack r d).1
  unfolding settle_as
  settle_as-Settled w e ack r success = (refl, omega arith)
  settle_as-Settled w e ack r retry = (refl, omega arith)
  settle_as-Settled w e ack r permanent = (refl, omega arith)
  settle_as-Settled w e ack r fatal = (refl, omega arith)

  settle-Settled :
      (w : Wal sled) (e : WalEntry) (ack : IngestAck) (r : DrainReport)
      → Settled r (settle sled json w e ack r).1
  unfolding settle
  settle-Settled w e ack r = elim (Bool-cases (ltb 0 ack.accepted)) [
    | inl some_row ↦ rw some_row (refl, omega arith)
    | inr no_row ↦ rw no_row (settle_as-Settled w e ack r (worst_of success ack.rejections))
  ]

  module _ (backend : Backend) where
    -- One turn of the loop, by the replies of the backend.
    turn-unshapable :
        (w : Wal sled) (s : backend.State) (r : DrainReport) (e : WalEntry) (es : List WalEntry)
        (x : String)
        → backend.rebuild_batch e ≡ err x
        → drain_from sled json backend w s r (e ∷ es)
          ≡ drain_from sled json backend
              (mark_failed sled json w e.local_lsn).0
              s
              (add_failed (add_attempted r))
              es
    unfolding drain_from
    turn-unshapable w s r e es x bad = rw (bad, drain_from) refl

    turn-unregistered :
        (w : Wal sled) (s : backend.State) (r : DrainReport) (e : WalEntry) (es : List WalEntry)
        (x : String) (batch : backend.Batch)
        → backend.rebuild_batch e ≡ ok batch
        → (backend.register_source s batch).1 ≡ err x
        → drain_from sled json backend w s r (e ∷ es)
          ≡ drain_from sled json backend w
              (backend.register_source s batch).0
              (add_pending (add_attempted r))
              es
    unfolding drain_from
    turn-unregistered w s r e es x batch good bad = rw (good, bad, drain_from) refl

    turn-stopped :
        (w : Wal sled) (s : backend.State) (r : DrainReport) (e : WalEntry) (es : List WalEntry)
        (x : String) (batch : backend.Batch) (u : Unit {0})
        → backend.rebuild_batch e ≡ ok batch
        → (backend.register_source s batch).1 ≡ ok u
        → (backend.submit (backend.register_source s batch).0 (backend.prepare_batch batch)).1
          ≡ err x
        → drain_from sled json backend w s r (e ∷ es) ≡ (
          w,
          (backend.submit (backend.register_source s batch).0 (backend.prepare_batch batch)).0,
          add_pending (add_attempted r),
        )
    unfolding drain_from
    turn-stopped w s r e es x batch u good ready bad = rw (good, ready, bad, drain_from) refl

    turn-settled :
        (w : Wal sled) (s : backend.State) (r : DrainReport) (e : WalEntry) (es : List WalEntry)
        (batch : backend.Batch) (u : Unit {0}) (ack : IngestAck)
        → backend.rebuild_batch e ≡ ok batch
        → (backend.register_source s batch).1 ≡ ok u
        → (backend.submit (backend.register_source s batch).0 (backend.prepare_batch batch)).1
          ≡ ok ack
        → drain_from sled json backend w s r (e ∷ es)
          ≡ drain_from sled json backend
              (settle sled json w e ack (add_attempted r)).0
              (backend.submit (backend.register_source s batch).0 (backend.prepare_batch batch)).0
              (settle sled json w e ack (add_attempted r)).1
              es
    unfolding drain_from
    turn-settled w s r e es batch u ack good ready answered =
        rw (good, ready, answered, drain_from) refl

    abbrev Counted : ℕ → Wal sled × backend.State × DrainReport → Type 0
    Counted n p = Balanced p.2 × (p.2.attempted ≤ n)

    drain_from-Counted :
        (w : Wal sled) (s : backend.State) (r : DrainReport) (es : List WalEntry)
        → Balanced r
        → Counted (r.attempted + length es) (drain_from sled json backend w s r es)
    drain_from-Counted w s r [] h = unfold drain_from in (h, omega arith)
    drain_from-Counted w s r (e ∷ es) h =
        let before = r.attempted in
        elim (Result-cases (backend.rebuild_batch e)) [
          | inr (x, bad) ↦
              subst (Counted (r.attempted + suc (length es)))
                (sym (turn-unshapable w s r e es x bad))
                (one_more _ before (before + 1) (length es) refl (
                  drain_from-Counted (mark_failed sled json w e.local_lsn).0 s
                    (add_failed (add_attempted r)) es (omega (arith, h))))
          | inl (batch, good) ↦
              let registered = backend.register_source s batch in
              elim (Result-cases registered.1) [
                | inr (x, bad) ↦
                    subst (Counted (r.attempted + suc (length es)))
                      (sym (turn-unregistered w s r e es x batch good bad))
                      (one_more _ before (before + 1) (length es) refl (
                        drain_from-Counted w registered.0 (add_pending (add_attempted r)) es
                          (omega (arith, h))))
                | inl (u, ready) ↦
                    let submitted = backend.submit registered.0 (backend.prepare_batch batch) in
                    elim (Result-cases submitted.1) [
                      | inr (x, bad) ↦
                          subst (Counted (r.attempted + suc (length es)))
                            (sym (turn-stopped w s r e es x batch u good ready bad))
                            (omega (arith, h), omega arith)
                      | inl (ack, answered) ↦
                          let settled = settle sled json w e ack (add_attempted r) in
                          let (same, sum) = settle-Settled w e ack (add_attempted r) in
                          subst (Counted (r.attempted + suc (length es)))
                            (sym (turn-settled w s r e es batch u ack good ready answered))
                            (one_more _ before settled.1.attempted (length es) same (
                              drain_from-Counted settled.0 submitted.0 settled.1 es
                                (omega (arith, h, same, sum))))
                    ]
              ]
        ]

    -- A pass accounts for every entry that it examines exactly once, as synced, failed or still
    -- pending, and examines no more entries than were pending.
    pub drain_once-Balanced :
        (w v : Wal sled) (s t : backend.State) (report : DrainReport)
        → drain_once sled json backend w s ≡ ok (v, t, report)
        → (es : List WalEntry) × (pending_entries sled json w ≡ ok es)
          × Balanced report
          × (report.attempted ≤ length es)
    unfolding drain_once
    drain_once-Balanced w v s t report h =
        let (es, pending, done) = >>=-eq-ok (pending_entries sled json w) _ h in
        let counts = drain_from-Counted w s no_report es refl in
        let same : (drain_from sled json backend w s no_report es).2 ≡ report =
          ground (arith, done) in
        (
          es,
          pending,
          subst Balanced same counts.0,
          subst (λ (r : DrainReport). r.attempted ≤ length es) same (omega (arith, counts.1)),
        )

-- ===== src/Cluster/ChangeLog/Frontier.antt =====
-- The high-water mark of change_log.rs.
use exocortex.Common.{
  ℕ, ◌≤◌, ◌<◌, max, ◌≡◌, refl, ap, ◌∙◌, true, none, some, List, [], ◌∷◌, All, All-mono, arith,
}
use exocortex.Cluster.ChangeLog.{
  InvalidationEnvelope, envelope_lsn, RingChangeLog, with_capacity, append, frontier,
}
use exocortex.Cluster.ChangeLog.Window.{append_all, Rising}

-- The LSN of the last envelope, or the one before.
abbrev last_lsn : ℕ → List InvalidationEnvelope → ℕ
last_lsn n [] = n
last_lsn n (e ∷ es) = last_lsn (envelope_lsn e) es

append_all-Marked :
    (es : List InvalidationEnvelope) (log : RingChangeLog)
    → log.observed_anything ≡ true
    → All (λ e. log.max_observed_lsn ≤ envelope_lsn e) es
    → Rising es
    → frontier (append_all log es) ≡ some (last_lsn log.max_observed_lsn es)
unfolding append_all append frontier
append_all-Marked [] log seen above rising = ground (arith, seen)
append_all-Marked (e ∷ es) log seen above rising =
    let top : max log.max_observed_lsn (envelope_lsn e) ≡ envelope_lsn e = omega (arith, above.0) in
    append_all-Marked es (append log e) refl
      (All-mono (λ f. envelope_lsn e < envelope_lsn f)
        (λ f. max log.max_observed_lsn (envelope_lsn e) ≤ envelope_lsn f) es
        (λ f l. omega (arith, top, l)) rising.0)
      rising.1
    ∙ ap (λ (n : ℕ). some (last_lsn n es)) top

zero_max : (n : ℕ) → max 0 n ≡ n
zero_max n = omega arith

-- `frontier` shows nothing before the first append, and after appends in strictly ascending order
-- the LSN of the last of them, evicted or not.
frontier-last :
    (depth : ℕ) (e : InvalidationEnvelope) (es : List InvalidationEnvelope)
    → Rising (e ∷ es)
    → (frontier (with_capacity depth) ≡ none)
      × (frontier (append_all (with_capacity depth) (e ∷ es)) ≡ some (last_lsn (envelope_lsn e) es))
unfolding append_all append with_capacity frontier
frontier-last depth e es rising = (
  refl,
  append_all-Marked es (append (with_capacity depth) e) refl
        (All-mono (λ f. envelope_lsn e < envelope_lsn f)
          (λ f. max 0 (envelope_lsn e) ≤ envelope_lsn f) es (λ f l. omega (arith, l)) rising.0)
        rising.1
      ∙ ap (λ (n : ℕ). some (last_lsn n es)) (zero_max (envelope_lsn e)),
)

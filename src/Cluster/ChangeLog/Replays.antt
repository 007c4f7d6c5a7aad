-- ===== src/Cluster/ChangeLog/Replays.antt =====
-- What a replay of change_log.rs tells a subscriber, against everything that was ever appended.
use exocortex.Common.{
  ℕ, ◌+◌, ◌≤◌, ◌<◌, ◌≡◌, refl, sym, ap, subst, ◌∙◌, List, [], ◌∷◌, ◌++◌, ltb, filter, All, All-mono,
  arith, saturating_add_lem, u64_max,
}
use exocortex.Cluster.ChangeLog.{
  InvalidationEnvelope, fresh, envelope_lsn, RingChangeLog, with_capacity, append, replay_from,
  replay_since,
}
use exocortex.Cluster.ChangeLog.Window.{append_all, Rising, with_capacity-Holds}

All-head :
    (xs ys : List InvalidationEnvelope) (x y : InvalidationEnvelope)
    → All (λ f. envelope_lsn x < envelope_lsn f) (xs ++ y ∷ ys)
    → envelope_lsn x < envelope_lsn y
All-head [] ys x y h = h.0
All-head (z ∷ xs) ys x y h = All-head xs ys x y h.1

Rising-before :
    (xs ys : List InvalidationEnvelope) (y : InvalidationEnvelope)
    → Rising (xs ++ y ∷ ys)
    → All (λ x. envelope_lsn x < envelope_lsn y) xs
Rising-before [] ys y h = tt
Rising-before (x ∷ xs) ys y h = (All-head xs ys x y h.0, Rising-before xs ys y h.1)

filter-old :
    (since : ℕ) (xs ys : List InvalidationEnvelope)
    → All (λ x. envelope_lsn x ≤ since) xs
    → filter (λ e. ltb since (envelope_lsn e)) (xs ++ ys)
      ≡ filter (λ e. ltb since (envelope_lsn e)) ys
unfolding filter
filter-old since [] ys h = refl
filter-old since (x ∷ xs) ys h = ground (arith, filter-old since xs ys h.1, h.0)

fresh-injective : (a b : List InvalidationEnvelope) → fresh a ≡ fresh b → a ≡ b
fresh-injective a b h = cc

fresh_empty :
    (log : RingChangeLog) (since : ℕ) (es : List InvalidationEnvelope)
    → replay_from log since [] ≡ fresh es
    → es ≡ []
unfolding replay_from
fresh_empty log since es h = ground arith

fresh_some :
    (log : RingChangeLog) (since : ℕ) (y : InvalidationEnvelope)
    (ring es : List InvalidationEnvelope)
    → replay_from log since (y ∷ ring) ≡ fresh es
    → (envelope_lsn y ≤ since + 1) × (es ≡ filter (λ e. ltb since (envelope_lsn e)) (y ∷ ring))
unfolding replay_from
fresh_some log since y ring es h = ground (arith, saturating_add_lem since 1)

replay_from-fresh :
    (log : RingChangeLog) (since : ℕ) (evicted ring es : List InvalidationEnvelope)
    → Rising (evicted ++ ring)
    → ((ring ≡ []) → (evicted ≡ []))
    → replay_from log since ring ≡ fresh es
    → es ≡ filter (λ e. ltb since (envelope_lsn e)) (evicted ++ ring)
unfolding replay_from
replay_from-fresh log since evicted [] es rising live h =
    let none_gone = live refl in
    fresh_empty log since es h ∙ sym (rw none_gone (unfold filter in refl))
replay_from-fresh log since evicted (y ∷ ring) es rising live h =
    let (near, answer) = fresh_some log since y ring es h in
    let old : All (λ x. envelope_lsn x ≤ since) evicted =
      All-mono (λ x. envelope_lsn x < envelope_lsn y) (λ x. envelope_lsn x ≤ since) evicted
        (λ x l. omega (arith, near, l)) (Rising-before evicted ring y rising) in
    answer ∙ sym (filter-old since evicted (y ∷ ring) old)

-- A replay that answers at all is complete: where the LSNs were appended in strictly ascending
-- order, it lists exactly the envelopes above `since_lsn` of everything that was ever appended, in
-- that order, however many of them the ring has evicted.
pub replay_since-fresh :
    (depth since : ℕ) (history es : List InvalidationEnvelope)
    → Rising history
    → replay_since (append_all (with_capacity depth) history) since ≡ fresh es
    → es ≡ filter (λ e. ltb since (envelope_lsn e)) history
unfolding replay_since
replay_since-fresh depth since history es rising h =
    let (evicted, split, live, small, fits) = with_capacity-Holds depth history in
    let log = append_all (with_capacity depth) history in
    replay_from-fresh log since evicted log.ring es (subst Rising split rising) live h
    ∙ ap (filter (λ e. ltb since (envelope_lsn e))) (sym split)

filter-none :
    (since : ℕ) (xs : List InvalidationEnvelope)
    → All (λ x. envelope_lsn x ≤ since) xs
    → filter (λ e. ltb since (envelope_lsn e)) xs ≡ []
unfolding filter
filter-none since [] h = refl
filter-none since (x ∷ xs) h = ground (arith, filter-none since xs h.1, h.0)

All-after :
    (P : InvalidationEnvelope → Type 0) (xs ys : List InvalidationEnvelope)
    → All P (xs ++ ys)
    → All P ys
All-after P [] ys h = h
All-after P (x ∷ xs) ys h = All-after P xs ys h.1

-- The high-water mark is within a bound that all LSNs are within.
append_all-max :
    (bound : ℕ) (es : List InvalidationEnvelope) (log : RingChangeLog)
    → log.max_observed_lsn ≤ bound
    → All (λ e. envelope_lsn e ≤ bound) es
    → (append_all log es).max_observed_lsn ≤ bound
unfolding append_all append
append_all-max bound [] log h a = h
append_all-max bound (e ∷ es) log h a =
    append_all-max bound es (append log e) (omega (arith, h, a.0)) a.1

replay_from-current :
    (log : RingChangeLog) (since : ℕ) (ring : List InvalidationEnvelope)
    → since ≤ u64_max
    → log.max_observed_lsn ≤ since
    → All (λ e. envelope_lsn e ≤ since) ring
    → replay_from log since ring ≡ fresh []
unfolding replay_from
replay_from-current log since [] fits seen h = ground arith
replay_from-current log since (e ∷ ring) fits seen h =
    ground (arith, saturating_add_lem since 1, filter-none since (e ∷ ring) h, h.0)

-- A subscriber that has seen every LSN is told that nothing is new, never that it is too old, even
-- at the greatest 64-bit LSN.
pub replay_since-current :
    (depth since : ℕ) (history : List InvalidationEnvelope)
    → since ≤ u64_max
    → All (λ e. envelope_lsn e ≤ since) history
    → replay_since (append_all (with_capacity depth) history) since ≡ fresh []
unfolding replay_since
replay_since-current depth since history fits seen =
    let (evicted, split, live, small, room) = with_capacity-Holds depth history in
    let log = append_all (with_capacity depth) history in
    replay_from-current log since log.ring fits
      (append_all-max since history (with_capacity depth) (unfold with_capacity in omega arith)
        seen)
      (All-after (λ e. envelope_lsn e ≤ since) evicted log.ring
        (subst (λ (l : List InvalidationEnvelope). All (λ e. envelope_lsn e ≤ since) l) split seen))

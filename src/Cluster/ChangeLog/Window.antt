-- ===== src/Cluster/ChangeLog/Window.antt =====
-- The ring of change_log.rs is the end of what was ever appended.
use exocortex.Common.{
  ℕ, ◌+◌, ◌≤◌, ◌<◌, max, ◌≡◌, refl, sym, ap, subst, ◌∙◌, inl, inr, Bool-cases, List, [], ◌∷◌, ◌++◌,
  if◌then◌else◌, ◌==◌, length, length-append, All, arith,
}
use mathlib.Core.List.{append_assoc, append-nil}
use exocortex.Cluster.ChangeLog.{
  InvalidationEnvelope, envelope_lsn, RingChangeLog, with_capacity, pop_front, append,
}

-- The log after a list of appends.
unfoldable pub append_all : RingChangeLog → List InvalidationEnvelope → RingChangeLog
append_all log [] = log
append_all log (e ∷ es) = append_all (append log e) es

-- The LSNs strictly ascend, which the log demands of its caller.
abbrev pub Rising : List InvalidationEnvelope → Type 0
Rising [] = Unit
Rising (e ∷ es) = All (λ f. envelope_lsn e < envelope_lsn f) es × Rising es

-- The ring is the end of the history, and is empty only if the history is.
abbrev pub Holds : List InvalidationEnvelope → RingChangeLog → Type 0
Holds history log =
    (evicted : List InvalidationEnvelope) × (history ≡ evicted ++ log.ring)
    × ((log.ring ≡ []) → (evicted ≡ []))
    × (1 ≤ log.cap)
    × (length log.ring ≤ log.cap)

snoc-ne : (es : List InvalidationEnvelope) (e : InvalidationEnvelope) → ¬ (es ++ e ∷ [] ≡ [])
snoc-ne [] e h = cc
snoc-ne (f ∷ es) e h = cc

pop_front-split :
    (evicted ring : List InvalidationEnvelope)
    → 1 ≤ length ring
    → (gone : List InvalidationEnvelope) × (evicted ++ ring ≡ gone ++ pop_front ring)
      × (length (pop_front ring) + 1 ≡ length ring)
pop_front-split evicted [] l = absurd (omega arith)
pop_front-split evicted (e ∷ ring) l =
    (evicted ++ e ∷ [], sym (append_assoc evicted (e ∷ []) ring), omega arith)

-- The ring that an append keeps.
abbrev kept : ℕ → List InvalidationEnvelope → List InvalidationEnvelope
kept depth ring = if length ring == depth then pop_front ring else ring

kept-split :
    (depth : ℕ) (evicted ring : List InvalidationEnvelope)
    → 1 ≤ depth
    → length ring ≤ depth
    → (gone : List InvalidationEnvelope) × (evicted ++ ring ≡ gone ++ kept depth ring)
      × (length (kept depth ring) + 1 ≤ depth)
kept-split depth evicted ring small fits = elim (Bool-cases (length ring == depth)) [
  | inl full ↦
      let (gone, split, less) = pop_front-split evicted ring (ground (arith, full)) in
      (gone, rw full split, ground (arith, full, less))
  | inr room ↦ (evicted, rw room refl, ground (arith, room))
]

append-Holds :
    (history : List InvalidationEnvelope) (log : RingChangeLog) (e : InvalidationEnvelope)
    → Holds history log
    → Holds (history ++ e ∷ []) (append log e)
unfolding append
append-Holds history log e (evicted, split, live, small, fits) =
    let (gone, keeps, room) = kept-split log.cap evicted log.ring small fits in
    (
      gone,
      ap (λ (h : List InvalidationEnvelope). h ++ e ∷ []) (split ∙ keeps)
          ∙ append_assoc gone (kept log.cap log.ring) (e ∷ []),
      λ empty. absurd (snoc-ne (kept log.cap log.ring) e empty),
      small,
      omega (arith, room, length-append (kept log.cap log.ring) (e ∷ [])),
    )

append_all-Holds :
    (history es : List InvalidationEnvelope) (log : RingChangeLog)
    → Holds history log
    → Holds (history ++ es) (append_all log es)
unfolding append_all
append_all-Holds history [] log h =
    subst (λ (l : List InvalidationEnvelope). Holds l log) (sym (append-nil history)) h
append_all-Holds history (e ∷ es) log h =
    subst (λ (l : List InvalidationEnvelope). Holds l (append_all (append log e) es))
      (append_assoc history (e ∷ []) es)
      (append_all-Holds (history ++ e ∷ []) es (append log e) (append-Holds history log e h))

pub with_capacity-Holds :
    (depth : ℕ) (es : List InvalidationEnvelope) → Holds es (append_all (with_capacity depth) es)
unfolding with_capacity
with_capacity-Holds depth es =
    append_all-Holds [] es (with_capacity depth) ([], refl, λ empty. refl, omega arith, omega arith)

append_all-depth :
    (es : List InvalidationEnvelope) (log : RingChangeLog) → (append_all log es).cap ≡ log.cap
unfolding append_all append
append_all-depth [] log = refl
append_all-depth (e ∷ es) log = append_all-depth es (append log e)

cap_of : (depth : ℕ) → (with_capacity depth).cap ≡ max depth 1
unfolding with_capacity
cap_of depth = refl

-- Whatever was appended, the ring is the end of it, at most `cap` envelopes long (one, where `cap`
-- is 0).
pub append_all-window :
    (depth : ℕ) (history : List InvalidationEnvelope)
    → (evicted : List InvalidationEnvelope) × (history
        ≡ evicted ++ (append_all (with_capacity depth) history).ring)
      × (length (append_all (with_capacity depth) history).ring ≤ max depth 1)
append_all-window depth history =
    let (evicted, split, live, small, room) = with_capacity-Holds depth history in
    (
      evicted,
      split,
      omega (arith, room, append_all-depth history (with_capacity depth), cap_of depth),
    )

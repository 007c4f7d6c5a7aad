-- ===== src/Kernel/Visibility/Laws.antt =====
-- What crates/exocortex-kernel/src/visibility.rs promises of derived visibilities.
use exocortex.Common.{◌≡◌, refl, ◌∙◌, ◌⊎◌, inl, inr, ◌&&◌, some, List, [], ◌∷◌, arith, every}
use exocortex.Kernel.Visibility.{
  Visibility, within, relationship_visibility, narrowest_from, narrowest_visibility,
}
use mathlib.Core.List.Memᴰ as MemD
use mathlib.Core.List.{Memᴰ}

-- A ceiling fits the visibility of a relationship exactly when it fits both endpoints: the
-- relationship has the greatest visibility that is within both.
pub within-relationship_visibility :
    (c from to : Visibility)
    → within c (relationship_visibility from to) ≡ (within c from && within c to)
unfolding within relationship_visibility
within-relationship_visibility c from to = ground arith

within-narrowest_from :
    (c v : Visibility) (vs : List Visibility)
    → within c (narrowest_from v vs) ≡ every (within c) (v ∷ vs)
unfolding narrowest_from every
within-narrowest_from c v [] = ground arith
within-narrowest_from c v (w ∷ ws) = ground (
  arith,
  within-narrowest_from c (relationship_visibility v w) ws,
  within-relationship_visibility c v w,
)

relationship_visibility-eq :
    (v w : Visibility) → (relationship_visibility v w ≡ v) ⊎ (relationship_visibility v w ≡ w)
unfolding relationship_visibility
relationship_visibility-eq v w = ground arith

narrowest_from-mem : (v : Visibility) (vs : List Visibility) → Memᴰ (narrowest_from v vs) (v ∷ vs)
unfolding narrowest_from
narrowest_from-mem v [] = Memᴰ.head refl
narrowest_from-mem v (w ∷ ws) =
    elim (MemD.cases_cons (narrowest_from-mem (relationship_visibility v w) ws)) [
      | inl e ↦ elim (relationship_visibility-eq v w) [
        | inl l ↦ Memᴰ.head (e ∙ l)
        | inr r ↦ Memᴰ.tail (Memᴰ.head (e ∙ r))
      ]
      | inr m ↦ Memᴰ.tail (Memᴰ.tail m)
    ]

-- Of a list with a first element, `narrowest_visibility` returns a visibility of the list, and a
-- visibility is within the result exactly when it is within every one of the list.
pub narrowest_visibility-min :
    (v : Visibility) (vs : List Visibility)
    → (m : Visibility) × (narrowest_visibility (v ∷ vs) ≡ some m)
      × Memᴰ m (v ∷ vs)
      × ((c : Visibility) → within c m ≡ every (within c) (v ∷ vs))
unfolding narrowest_visibility
narrowest_visibility-min v vs =
    (narrowest_from v vs, refl, narrowest_from-mem v vs, λ c. within-narrowest_from c v vs)

-- ===== src/Sdk/Split/Closed.antt =====
-- Closed rows stay closed when split.rs joins and sorts them.
use exocortex.Common.{
  ◌≡◌, refl, sym, ap, ap₂, ◌∙◌, String, Bool, true, ◌&&◌, ◌||◌, List, [], ◌∷◌, ◌++◌, every, str_eq,
  arith, sort_by, any-sort_by, every-sort_by,
}
use mathlib.Core.List.{append_assoc, append-nil}
use exocortex.Sdk.Rows.{DraftMemory, RelationshipDraft}
use exocortex.Sdk.Split.{Component, all_memories, all_relationships, key_after, edge_after}
use exocortex.Sdk.Split.Cohesion.{has_key, is_closed, any-append}

every-append {ℓ} :
    {A : Type ℓ} (p : A → Bool) (xs ys : List A) → every p (xs ++ ys) ≡ (every p xs && every p ys)
unfolding every
every-append p [] ys = refl
every-append p (x ∷ xs) ys = ground (arith, every-append p xs ys)

every_mono {ℓ} :
    {A : Type ℓ} (p q : A → Bool) (xs : List A)
    → ((x : A) → p x ≡ true → q x ≡ true)
    → every p xs ≡ true
    → every q xs ≡ true
unfolding every
every_mono p q [] f h = refl
every_mono p q (x ∷ xs) f h = ground (arith, f x, h, every_mono p q xs f)

-- More drafts close no less.
is_closed_mono :
    (ms ns : List DraftMemory) (rs : List RelationshipDraft)
    → ((k : String) → has_key k ms ≡ true → has_key k ns ≡ true)
    → is_closed ms rs ≡ true
    → is_closed ns rs ≡ true
is_closed_mono ms ns rs f h =
    every_mono (λ (r : RelationshipDraft). has_key r.from_draft_key ms && has_key r.to_draft_key ms)
      (λ (r : RelationshipDraft). has_key r.from_draft_key ns && has_key r.to_draft_key ns) rs
      (λ r e. ground (arith, e, f r.from_draft_key, f r.to_draft_key)) h

pub is_closed-append :
    (ms ns : List DraftMemory) (rs ss : List RelationshipDraft)
    → is_closed ms rs ≡ true
    → is_closed ns ss ≡ true
    → is_closed (ms ++ ns) (rs ++ ss) ≡ true
is_closed-append ms ns rs ss a b =
    every-append
      (λ (r : RelationshipDraft).
        has_key r.from_draft_key (ms ++ ns) && has_key r.to_draft_key (ms ++ ns))
      rs ss
    ∙ ap₂ ◌&&◌
        (is_closed_mono ms (ms ++ ns) rs
          (λ k h. any-append (λ (m : DraftMemory). str_eq m.draft_key k) ms ns ∙ ap₂ ◌||◌ h refl) a)
        (is_closed_mono ns (ms ++ ns) ss
          (λ k h. any-append (λ (m : DraftMemory). str_eq m.draft_key k) ms ns ∙ ground (arith, h))
          b)

pub is_closed-sort_by :
    (ms : List DraftMemory) (rs : List RelationshipDraft)
    → is_closed ms rs ≡ true
    → is_closed (sort_by key_after ms) (sort_by edge_after rs) ≡ true
is_closed-sort_by ms rs h =
    every-sort_by edge_after
      (λ (r : RelationshipDraft).
        has_key r.from_draft_key (sort_by key_after ms)
        && has_key r.to_draft_key (sort_by key_after ms))
      rs
    ∙ is_closed_mono ms (sort_by key_after ms) rs
        (λ k e. any-sort_by key_after (λ (m : DraftMemory). str_eq m.draft_key k) ms ∙ e) h

pub all_memories-snoc :
    (cs : List Component) (c : Component)
    → all_memories (cs ++ c ∷ []) ≡ all_memories cs ++ c.memories
unfolding all_memories
all_memories-snoc [] c = append-nil c.memories
all_memories-snoc (d ∷ cs) c =
    ap (λ xs. d.memories ++ xs) (all_memories-snoc cs c)
    ∙ sym (append_assoc d.memories (all_memories cs) c.memories)

pub all_relationships-snoc :
    (cs : List Component) (c : Component)
    → all_relationships (cs ++ c ∷ []) ≡ all_relationships cs ++ c.relationships
unfolding all_relationships
all_relationships-snoc [] c = append-nil c.relationships
all_relationships-snoc (d ∷ cs) c =
    ap (λ xs. d.relationships ++ xs) (all_relationships-snoc cs c)
    ∙ sym (append_assoc d.relationships (all_relationships cs) c.relationships)

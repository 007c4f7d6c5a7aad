-- ===== src/Sdk/Split/Cohesion.antt =====
-- The components of split.rs: each edge lies in the component of both its drafts.
use exocortex.Common.{
  ℕ, ◌<◌, ◌≡◌, refl, sym, ap, ap₂, subst, ◌∙◌, Bool-cases, inl, inr, String, Bool, true, ◌&&◌, ◌||◌,
  Option, some, List, [], ◌∷◌, ◌++◌, ok, any, every, str_eq, eq_iff, arith, All, All-mono,
  string_key, lookup,
}
use exocortex.Sdk.Rows.{DraftMemory, RelationshipDraft}
use exocortex.Sdk.Split.{
  Parents, Component, Components, component_entry, add_memory, add_relationship, gather_memories,
  gather_relationships,
}
use exocortex.Sdk.Split.Forest.{IsPresent, Forest, find-Forest}
use exocortex.Sdk.Split.Weld.{IsTogether}
use exocortex.Sdk.Split.Entries.{
  or_no_rows, lookup-component_entry, AllRows, AllRows-component_entry, AllRows-modify_component,
}

-- A draft with the key is among the rows.
abbrev pub has_key : String → List DraftMemory → Bool
has_key k ms = any (λ (m : DraftMemory). str_eq m.draft_key k) ms

-- Every edge has both its drafts among the rows.
abbrev pub is_closed : List DraftMemory → List RelationshipDraft → Bool
is_closed ms rs =
    every (λ (r : RelationshipDraft). has_key r.from_draft_key ms && has_key r.to_draft_key ms) rs

pub any-append {ℓ} :
    {A : Type ℓ} (p : A → Bool) (xs ys : List A) → any p (xs ++ ys) ≡ (any p xs || any p ys)
unfolding any
any-append p [] ys = refl
any-append p (x ∷ xs) ys = ground (arith, any-append p xs ys)

every-snoc {ℓ} :
    {A : Type ℓ} (p : A → Bool) (xs : List A) (x : A) → every p (xs ++ x ∷ []) ≡ (every p xs && p x)
unfolding every
every-snoc p [] x = ground arith
every-snoc p (y ∷ xs) x = ground (arith, every-snoc p xs x)

-- The component of a key's root has a draft with the key.
abbrev pub Holds : (String → String) → Components → String → Type 0
Holds root m k = (c : Component) × (lookup (root k) m ≡ some c) × (has_key k c.memories ≡ true)

some_component : {a b : Component} → Path (Option Component) (some a) (some b) → a ≡ b
some_component h = cc

-- What adding a row keeps.
Holds-component_entry :
    (root : String → String) (j k : String) (f : Component → Component) (m : Components)
    → ((c : Component) → has_key k c.memories ≡ true → has_key k (f c).memories ≡ true)
    → Holds root m k
    → Holds root (component_entry j f m) k
Holds-component_entry root j k f m grows (c, found, has) = elim (Bool-cases (str_eq j (root k))) [
  | inl same ↦
      let j_k : j ≡ root k = (eq_iff j (root k)).0 same in
      let f_c : or_no_rows (lookup j m) ≡ c =
        ap (λ x. or_no_rows (lookup x m)) j_k ∙ ap or_no_rows found in
      (f c, lookup-component_entry (root k) j f m ∙ rw same (ap (λ x. some (f x)) f_c), grows c has)
  | inr other ↦ (c, lookup-component_entry (root k) j f m ∙ rw other found, has)
]

Holds-new :
    (root : String → String) (x : DraftMemory) (m : Components)
    → Holds root (component_entry (root x.draft_key) (add_memory x) m) x.draft_key
unfolding any
Holds-new root x m =
    let k = x.draft_key in
    let old = or_no_rows (lookup (root k) m) in
    (
      add_memory x old,
      lookup-component_entry (root k) (root k) (add_memory x) m
          ∙ rw ((eq_iff (root k) (root k)).1 refl) refl,
      ground (
        arith,
        any-append (λ (y : DraftMemory). str_eq y.draft_key k) old.memories (x ∷ []),
        eq_iff k k,
      ),
    )

has_key-add :
    (k : String) (x : DraftMemory) (c : Component)
    → has_key k c.memories ≡ true
    → has_key k (add_memory x c).memories ≡ true
has_key-add k x c h =
    any-append (λ (m : DraftMemory). str_eq m.draft_key k) c.memories (x ∷ []) ∙ rw h refl

-- No edge is there yet.
abbrev pub NoEdges : Component → Type 0
NoEdges c = c.relationships ≡ []

abbrev pub IsClosed : Component → Type 0
IsClosed c = is_closed c.memories c.relationships ≡ true

-- An edge is added to the component that holds both its drafts.
IsClosed-add :
    (root : String → String) (r : RelationshipDraft) (m : Components)
    → IsTogether root r
    → Holds root m r.from_draft_key
    → Holds root m r.to_draft_key
    → AllRows IsClosed m
    → AllRows IsClosed (component_entry (root r.from_draft_key) (add_relationship r) m)
IsClosed-add root r m one (c, found, from) (d, found', to) closed =
    let same : c ≡ d = some_component (sym found ∙ ap (λ x. lookup x m) one ∙ found') in
    rw found (
      AllRows-modify_component IsClosed (root r.from_draft_key) (add_relationship r) m
        (λ e at_root e_closed.
          let e_c : e ≡ c = some_component (sym at_root ∙ found) in
          every-snoc
            (λ (s : RelationshipDraft).
              has_key s.from_draft_key e.memories && has_key s.to_draft_key e.memories)
            e.relationships r
          ∙ rw e_closed (
              ap₂ ◌&&◌ (ap (λ (x : Component). has_key r.from_draft_key x.memories) e_c ∙ from)
                (ap (λ (x : Component). has_key r.to_draft_key x.memories) (e_c ∙ same) ∙ to)))
        closed)

module _ (n fuel : ℕ) (root : String → String) (depth : String → ℕ) (enough : n < fuel) where
  pub gather_memories-Holds :
      (ms : List DraftMemory) (p : Parents) (m : Components)
      → Forest n root depth p
      → All (λ (x : DraftMemory). IsPresent p x.draft_key) ms
      → AllRows NoEdges m
      → (q : Parents) × (out : Components) × (gather_memories fuel ms (p, m) ≡ ok (q, out))
        × Forest n root depth q
        × ((j : String) → IsPresent p j → IsPresent q j)
        × AllRows NoEdges out
        × ((k : String) → Holds root m k → Holds root out k)
        × ((k : String) → has_key k ms ≡ true → Holds root out k)
  unfolding gather_memories any
  gather_memories-Holds [] p m f here none_yet =
      (p, m, refl, f, λ j is. is, none_yet, λ k h. h, λ k h. cc)
  gather_memories-Holds (x ∷ ms) p m f (is, here) none_yet =
      let (p1, run1, f1, keep1) = find-Forest n fuel root depth p x.draft_key f is enough in
      let m1 = component_entry (root x.draft_key) (add_memory x) m in
      let (q, out, run, f2, keep2, no_edges, old, new) =
        gather_memories-Holds ms p1 m1 f1
          (All-mono (λ (y : DraftMemory). IsPresent p y.draft_key)
            (λ (y : DraftMemory). IsPresent p1 y.draft_key) ms (λ y e. keep1 y.draft_key e) here)
          (AllRows-component_entry NoEdges (root x.draft_key) (add_memory x) m refl (λ c h. h)
            none_yet) in
      (
        q,
        out,
        rw run1 run,
        f2,
        λ j e. keep2 j (keep1 j e),
        no_edges,
        λ k h. old k (
            Holds-component_entry root (root x.draft_key) k (add_memory x) m
              (λ c has. has_key-add k x c has) h),
        λ k h. elim (Bool-cases (str_eq x.draft_key k)) [
          | inl same ↦
              old k (subst (Holds root m1) ((eq_iff x.draft_key k).0 same) (Holds-new root x m))
          | inr other ↦ new k (rw other at h)
        ],
      )

  pub gather_relationships-IsClosed :
      (rs : List RelationshipDraft) (p : Parents) (m : Components)
      → Forest n root depth p
      → All (λ (r : RelationshipDraft). IsPresent p r.from_draft_key) rs
      → All (IsTogether root) rs
      → All
          (λ (r : RelationshipDraft). Holds root m r.from_draft_key × Holds root m r.to_draft_key)
          rs
      → AllRows IsClosed m
      → (q : Parents) × (out : Components) × (gather_relationships fuel rs (p, m) ≡ ok (q, out))
        × AllRows IsClosed out
  unfolding gather_relationships
  gather_relationships-IsClosed [] p m f here together held closed = (p, m, refl, closed)
  gather_relationships-IsClosed (r ∷ rs) p m f (is, here) (one, together) ((from, to), held)
        closed =
      let (p1, run1, f1, keep1) = find-Forest n fuel root depth p r.from_draft_key f is enough in
      let m1 = component_entry (root r.from_draft_key) (add_relationship r) m in
      let (q, out, run, all_closed) =
        gather_relationships-IsClosed rs p1 m1 f1
          (All-mono (λ (y : RelationshipDraft). IsPresent p y.from_draft_key)
            (λ (y : RelationshipDraft). IsPresent p1 y.from_draft_key) rs
            (λ y e. keep1 y.from_draft_key e) here)
          together
          (All-mono _
            (λ (y : RelationshipDraft).
              Holds root m1 y.from_draft_key × Holds root m1 y.to_draft_key)
            rs
            (λ y h. (
              Holds-component_entry root (root r.from_draft_key) y.from_draft_key
                  (add_relationship r) m (λ c has. has) h.0,
              Holds-component_entry root (root r.from_draft_key) y.to_draft_key (add_relationship r)
                  m (λ c has. has) h.1,
            ))
            held)
          (IsClosed-add root r m one from to closed) in
      (q, out, rw run1 run, all_closed)

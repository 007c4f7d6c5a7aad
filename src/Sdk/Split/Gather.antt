-- ===== src/Sdk/Split/Gather.antt =====
-- What `validate_unit` establishes in split.rs is what the union-find and the gathering need.
use exocortex.Common.{
  ◌+◌, ◌≡◌, refl, sym, ◌∙◌, Bool-cases, inl, inr, String, true, not, ◌||◌, some, List, [], ◌∷◌,
  Result, ok, err, ◌==◌, any, every, str_eq, eq_iff, arith, All, All-mono, length, string_key,
  lookup, insert, lookup-insert_here, lookup-insert_there, >>=-eq-ok, if-eq_of_true, if-eq_of_false,
}
use exocortex.Sdk.Rows.{
  SdkError, DraftMemory, RelationshipDraft, BatchUnit, contains_text, key_set, check_endpoints,
  validate_unit,
}
use exocortex.Sdk.Split.{Parents, Component, Components, initial_parents, gather}
use exocortex.Sdk.Split.Forest.{IsPresent, Forest, some_text, IsPresent-insert}
use exocortex.Sdk.Split.Weld.{HasEnds, weld_all-Forest}
use exocortex.Sdk.Split.Entries.{AllRows}
use exocortex.Sdk.Split.Cohesion.{
  has_key, IsClosed, NoEdges, Holds, gather_memories-Holds, gather_relationships-IsClosed,
}

-- Every draft is its own root.
abbrev OwnRoots : Parents → Type 0
OwnRoots p = (k q : String) → lookup k p ≡ some q → q ≡ k

OwnRoots-insert : (p : Parents) (j : String) → OwnRoots p → OwnRoots (insert j j p)
OwnRoots-insert p j own k q found = elim (Bool-cases (str_eq j k)) [
  | inl same ↦ sym (some_text (sym (lookup-insert_here k j j p same) ∙ found)) ∙ (eq_iff j k).0 same
  | inr other ↦ own k q (sym (lookup-insert_there k j j p other) ∙ found)
]

initial_parents-OwnRoots :
    (ms : List DraftMemory) (p : Parents) → OwnRoots p → OwnRoots (initial_parents ms p)
unfolding initial_parents
initial_parents-OwnRoots [] p own = own
initial_parents-OwnRoots (m ∷ ms) p own =
    initial_parents-OwnRoots ms (insert m.draft_key m.draft_key p)
      (OwnRoots-insert p m.draft_key own)

initial_parents-keeps :
    (k : String) (ms : List DraftMemory) (p : Parents)
    → IsPresent p k
    → IsPresent (initial_parents ms p) k
unfolding initial_parents
initial_parents-keeps k [] p is = is
initial_parents-keeps k (m ∷ ms) p is =
    initial_parents-keeps k ms (insert m.draft_key m.draft_key p)
      (IsPresent-insert p k m.draft_key m.draft_key is)

initial_parents-IsPresent :
    (k : String) (ms : List DraftMemory) (p : Parents)
    → has_key k ms ≡ true
    → IsPresent (initial_parents ms p) k
unfolding initial_parents any
initial_parents-IsPresent k [] p h = cc
initial_parents-IsPresent k (m ∷ ms) p h =
    let q = insert m.draft_key m.draft_key p in
    elim (Bool-cases (str_eq m.draft_key k)) [
      | inl same ↦
          initial_parents-keeps k ms q
            (m.draft_key, lookup-insert_here k m.draft_key m.draft_key p same)
      | inr other ↦ initial_parents-IsPresent k ms q (rw other at h)
    ]

initial_parents-Forest :
    (ms : List DraftMemory) → Forest 0 (λ k. k) (λ k. 0) (initial_parents ms [])
unfolding lookup
initial_parents-Forest ms = record {
  up = λ k q found. inl (initial_parents-OwnRoots ms [] (λ j x h. cc) k q found, refl, refl);
  bound = λ k. omega arith;
}

own_keys : (ms : List DraftMemory) → All (λ (x : DraftMemory). has_key x.draft_key ms ≡ true) ms
unfolding any
own_keys [] = tt
own_keys (m ∷ ms) = (
  ground (arith, eq_iff m.draft_key m.draft_key),
  All-mono (λ (x : DraftMemory). has_key x.draft_key ms ≡ true)
      (λ (x : DraftMemory). has_key x.draft_key (m ∷ ms) ≡ true) ms (λ x h. ground (arith, h))
      (own_keys ms),
)

has_key-key_set :
    (k : String) (ms : List DraftMemory) → contains_text k (key_set ms) ≡ true → has_key k ms ≡ true
unfolding any key_set
has_key-key_set k [] h = cc
has_key-key_set k (m ∷ ms) h =
    ground (arith, h, has_key-key_set k ms, eq_iff m.draft_key k, eq_iff k m.draft_key)

stopped : {e : SdkError} → ¬ Path (Result SdkError (Unit {0})) (err e) (ok tt)
stopped h = cc

no_edge-IsClosed : (c : Component) → NoEdges c → IsClosed c
unfolding every
no_edge-IsClosed c h = rw h refl

-- Both ends of an edge are keys of drafts.
abbrev pub Ends : List DraftMemory → RelationshipDraft → Type 0
Ends ms r = (has_key r.from_draft_key ms ≡ true) × (has_key r.to_draft_key ms ≡ true)

check_endpoints-Ends :
    (ms : List DraftMemory) (rs : List RelationshipDraft)
    → check_endpoints (key_set ms) rs ≡ ok tt
    → All (Ends ms) rs
unfolding check_endpoints
check_endpoints-Ends ms [] h = tt
check_endpoints-Ends ms (r ∷ rs) h =
    let from = contains_text r.from_draft_key (key_set ms) in
    let to = contains_text r.to_draft_key (key_set ms) in
    elim (Bool-cases (not from || not to)) [
      | inl bad ↦ absurd (stopped (if-eq_of_true _ _ _ bad h))
      | inr good ↦ (
        (
          has_key-key_set r.from_draft_key ms (ground (arith, good)),
          has_key-key_set r.to_draft_key ms (ground (arith, good)),
        ),
        check_endpoints-Ends ms rs (if-eq_of_false _ _ _ good h),
      )
    ]

pub validate_unit-Ends :
    (u : BatchUnit) → validate_unit u ≡ ok tt → All (Ends u.memories) u.relationships
unfolding validate_unit
validate_unit-Ends u h =
    elim (Bool-cases (not (length (key_set u.memories) == length u.memories))) [
      | inl twice ↦ absurd (stopped (if-eq_of_true _ _ _ twice h))
      | inr once ↦
          let (value, fine, rest) =
            >>=-eq-ok (check_endpoints (key_set u.memories) u.relationships) _
              (if-eq_of_false _ _ _ once h) in
          check_endpoints-Ends u.memories u.relationships fine
    ]

-- The gathering ends, with every edge in the component of both its drafts.
pub gather-IsClosed :
    (u : BatchUnit)
    → All (Ends u.memories) u.relationships
    → (m : Components) × (gather (length u.relationships + 1) u ≡ ok m) × AllRows IsClosed m
unfolding gather
gather-IsClosed u ends =
    let n = length u.relationships in
    let fuel = n + 1 in
    let p = initial_parents u.memories [] in
    let present : (k : String) → has_key k u.memories ≡ true → IsPresent p k =
      λ k h. initial_parents-IsPresent k u.memories [] h in
    let (root, depth, p1, run1, f1, keep1, together, coarse) =
      weld_all-Forest 0 fuel (λ k. k) (λ k. 0) p u.relationships (initial_parents-Forest u.memories)
        (All-mono (Ends u.memories) (HasEnds p) u.relationships
          (λ r h. (present r.from_draft_key h.0, present r.to_draft_key h.1)) ends)
        (omega arith) in
    let (p2, m, run2, f2, keep2, no_edges, old, new) =
      gather_memories-Holds (0 + n) fuel root depth (omega arith) u.memories p1 [] f1
        (All-mono (λ (x : DraftMemory). has_key x.draft_key u.memories ≡ true)
          (λ (x : DraftMemory). IsPresent p1 x.draft_key) u.memories
          (λ x h. keep1 x.draft_key (present x.draft_key h)) (own_keys u.memories))
        tt in
    let (p3, out, run3, closed) =
      gather_relationships-IsClosed (0 + n) fuel root depth (omega arith) u.relationships p2 m f2
        (All-mono (Ends u.memories) (λ (r : RelationshipDraft). IsPresent p2 r.from_draft_key)
          u.relationships
          (λ r h. keep2 r.from_draft_key (keep1 r.from_draft_key (present r.from_draft_key h.0)))
          ends)
        together
        (All-mono (Ends u.memories)
          (λ (r : RelationshipDraft). Holds root m r.from_draft_key × Holds root m r.to_draft_key)
          u.relationships (λ r h. (new r.from_draft_key h.0, new r.to_draft_key h.1)) ends)
        (All-mono (λ (e : String × Component). NoEdges e.1)
          (λ (e : String × Component). IsClosed e.1) m (λ e h. no_edge-IsClosed e.1 h) no_edges) in
    (out, rw run1 (rw run2 (rw run3 refl)), closed)

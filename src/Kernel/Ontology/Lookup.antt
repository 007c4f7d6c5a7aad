-- ===== src/Kernel/Ontology/Lookup.antt =====
-- Kind names and pack-local type ids resolve to what the packs declare.
use mathlib.Core.List.{Memᴰ}
use exocortex.Common.{
  ℕ, ◌+◌, ◌≤◌, String, ◌≡◌, ◌↔◌, refl, ap, subst, ◌∙◌, inl, inr, true, false, Option, some, List,
  [], ◌∷◌, ok, arith, Bool-cases, str_eq, eq_iff, length, get_elem?, any,
}
use exocortex.Kernel.Kinds.{RelKindId, RelMeta}
use exocortex.Kernel.Pack.{PackDef, TypeTriple}
use exocortex.Kernel.Ontology.{
  NameIndex, contains, index_kinds, all_kinds, find_kind, kind_id, canonicalized, Ontology,
  from_packs, all_names, canonical_from, canonical_pack, canonical_triple, canonical_id, remap,
  sort_by_name, no_names,
}
use exocortex.Kernel.Ontology.Offsets.{
  all_names-canonical_from, canonical_from-resolves, named, IsOwn, named-remap,
  canonical_pack-triple,
}
use exocortex.Kernel.Ontology.Names.{from_packs-Built, index_names-names}

-- The names that were seen are at least those of the indexed kinds.
abbrev Tracks : List String → List (ℕ × RelMeta) → Type 0
Tracks names by_id =
    (n : String) (id : RelKindId) → find_kind n by_id ≡ some id → contains names n ≡ true

index_kinds-cons :
    (by_id : List (ℕ × RelMeta)) (names : List String) (k : RelMeta) (ks : List RelMeta)
    {m : List (ℕ × RelMeta)}
    → index_kinds by_id names (k ∷ ks) ≡ ok m
    → (contains names k.display_name ≡ false)
      × (index_kinds ((k.id, k) ∷ by_id) (k.display_name ∷ names) ks ≡ ok m)
unfolding index_kinds
index_kinds-cons by_id names k ks h = ground arith

Tracks-cons :
    (names : List String) (by_id : List (ℕ × RelMeta)) (k : RelMeta)
    → Tracks names by_id
    → Tracks (k.display_name ∷ names) ((k.id, k) ∷ by_id)
unfolding find_kind contains any
Tracks-cons names by_id k t n id h = ground (arith, t n id)

index_kinds-keeps :
    (by_id : List (ℕ × RelMeta)) (names : List String) (ks : List RelMeta) (m : List (ℕ × RelMeta))
    (n : String) (id : RelKindId)
    → index_kinds by_id names ks ≡ ok m
    → Tracks names by_id
    → find_kind n by_id ≡ some id
    → find_kind n m ≡ some id
unfolding find_kind
index_kinds-keeps by_id names [] m n id h t f = unfold index_kinds in ground arith
index_kinds-keeps by_id names (k ∷ ks) m n id h t f =
    let (fresh, rest) = index_kinds-cons by_id names k ks h in
    index_kinds-keeps ((k.id, k) ∷ by_id) (k.display_name ∷ names) ks m n id rest
      (Tracks-cons names by_id k t) (ground (arith, t n id f, eq_iff k.display_name n))

index_kinds-mem :
    (by_id : List (ℕ × RelMeta)) (names : List String) (ks : List RelMeta) (m : List (ℕ × RelMeta))
    (k : RelMeta)
    → index_kinds by_id names ks ≡ ok m
    → Tracks names by_id
    → Memᴰ k ks
    → find_kind k.display_name m ≡ some k.id
index_kinds-mem by_id names [] m k h t i = elim i [ ]
index_kinds-mem by_id names (j ∷ ks) m k h t (Memᴰ.head e) =
    let (fresh, rest) = index_kinds-cons by_id names j ks h in
    index_kinds-keeps ((j.id, j) ∷ by_id) (j.display_name ∷ names) ks m k.display_name k.id rest
      (Tracks-cons names by_id j t)
      (unfold find_kind in ground (arith, e, eq_iff j.display_name k.display_name))
index_kinds-mem by_id names (j ∷ ks) m k h t (Memᴰ.tail r) =
    let (fresh, rest) = index_kinds-cons by_id names j ks h in
    index_kinds-mem ((j.id, j) ∷ by_id) (j.display_name ∷ names) ks m k rest
      (Tracks-cons names by_id j t) r

-- A kind with this name and this id is declared.
abbrev pub Declared : List RelMeta → String → RelKindId → Type 0
Declared ks n id = (k : RelMeta) × Memᴰ k ks × (k.display_name ≡ n) × (k.id ≡ id)

Declared-cons :
    (by_id : List (ℕ × RelMeta)) (all : List RelMeta) (k : RelMeta)
    → Memᴰ k all
    → ((n : String) (id : RelKindId) → find_kind n by_id ≡ some id → Declared all n id)
    → (n : String) (id : RelKindId) → find_kind n ((k.id, k) ∷ by_id) ≡ some id
    → Declared all n id
unfolding find_kind
Declared-cons by_id all k here inv n id f = elim (Bool-cases (str_eq k.display_name n)) [
  | inl same ↦ (k, here, (eq_iff k.display_name n).0 same, ground (arith, same))
  | inr other ↦ inv n id (ground (arith, other))
]

index_kinds_sound :
    (by_id : List (ℕ × RelMeta)) (names : List String) (ks all : List RelMeta)
    (m : List (ℕ × RelMeta))
    → index_kinds by_id names ks ≡ ok m
    → ((k : RelMeta) → Memᴰ k ks → Memᴰ k all)
    → ((n : String) (id : RelKindId) → find_kind n by_id ≡ some id → Declared all n id)
    → (n : String) (id : RelKindId) → find_kind n m ≡ some id
    → Declared all n id
index_kinds_sound by_id names [] all m h sub inv n id f =
    inv n id (unfold index_kinds in ground (arith, h, f))
index_kinds_sound by_id names (k ∷ ks) all m h sub inv n id f =
    index_kinds_sound ((k.id, k) ∷ by_id) (k.display_name ∷ names) ks all m
      (index_kinds-cons by_id names k ks h).1 (λ j i. sub j (Memᴰ.tail i))
      (Declared-cons by_id all k (sub k (Memᴰ.head refl)) inv) n id f

no_kinds-Tracks : Tracks [] []
unfolding find_kind
no_kinds-Tracks n id f = cc

no_kinds-Declared :
    (all : List RelMeta) (n : String) (id : RelKindId)
    → find_kind n [] ≡ some id
    → Declared all n id
unfolding find_kind
no_kinds-Declared all n id f = absurd (ground arith)

-- In an ontology that `from_packs` built, `kind_id` returns an id for a name exactly when some
-- kind of the packs has that display name and that id.
pub kind_id_iff :
    (registered : List PackDef) (o : Ontology) (name : String) (id : RelKindId)
    → from_packs registered ≡ ok o
    → (kind_id o name ≡ some id) ↔ Declared (all_kinds o.packs) name id
unfolding kind_id
kind_id_iff registered o name id h =
    let b = from_packs-Built registered o h in
    let kinds : index_kinds [] [] (all_kinds o.packs) ≡ ok o.kinds_by_id =
      ap (λ (ps : List PackDef). index_kinds [] [] (all_kinds ps)) b.packs ∙ b.kinds in
    (
      index_kinds_sound [] [] (all_kinds o.packs) (all_kinds o.packs) o.kinds_by_id kinds (λ k i. i)
          (no_kinds-Declared (all_kinds o.packs)) name id,
      λ (k, i, named, same).
          subst (λ (n : String). find_kind n o.kinds_by_id ≡ some id) named
            (index_kinds-mem [] [] (all_kinds o.packs) o.kinds_by_id k kinds no_kinds-Tracks i
              ∙ ap some same),
    )

-- Where the packs have at most 255 memory types together, the triples of a pack keep their meaning
-- when `canonicalized` moves their type ids: for the pack at position `n` of the sorted packs and a
-- triple of it that is about the pack's own types, the pack at position `n` of the ontology has at the
-- same position a triple of the moved kind, each side of which names, in the ontology's list of memory
-- types, the types that the side named in the pack's list, in their order.
pub canonicalized-resolves :
    (registered : List PackDef) (o : Ontology) (n b : ℕ) (p : PackDef) (t : TypeTriple)
    → from_packs registered ≡ ok o
    → length o.memory_types.names ≤ 255
    → get_elem? (sort_by_name registered) n ≡ some p
    → get_elem? p.type_triples b ≡ some t
    → IsOwn p.memory_type_names t.from_types
    → IsOwn p.memory_type_names t.to_types
    → (q : PackDef) × (u : TypeTriple) × (get_elem? o.packs n ≡ some q)
      × (get_elem? q.type_triples b ≡ some u)
      × (u.kind ≡ canonical_id n t.kind)
      × (named o.memory_types.names u.from_types ≡ named p.memory_type_names t.from_types)
      × (named o.memory_types.names u.to_types ≡ named p.memory_type_names t.to_types)
unfolding canonical_triple
canonicalized-resolves registered o n b p t h small at_n at_b own_from own_to =
    let built = from_packs-Built registered o h in
    let names : List String = all_names (λ q. q.memory_type_names) (sort_by_name registered) in
    let packs : o.packs ≡ canonical_from 0 0 (sort_by_name registered) =
      built.packs ∙ unfold canonicalized in refl in
    let listed : o.memory_types.names ≡ names =
      ap (λ (ix : NameIndex). ix.names) built.memory
      ∙ index_names-names no_names (all_names (λ q. q.memory_type_names) (canonicalized registered))
      ∙ unfold canonicalized in all_names-canonical_from 0 0 (sort_by_name registered) in
    let (offset, at_pack, at_names) =
      canonical_from-resolves 0 [] (sort_by_name registered) n p
        (omega (arith, small, ap (λ (ns : List String). length ns) listed)) at_n in
    let z : 0 + n ≡ n = omega arith in
    let same : (side : Option (List ℕ))
        → IsOwn p.memory_type_names side
        → named o.memory_types.names (remap offset side) ≡ named p.memory_type_names side =
      λ side own.
        ap (λ (ns : List String). named ns (remap offset side)) listed
        ∙ named-remap p.memory_type_names names offset at_names side own in
    (
      canonical_pack n offset p,
      canonical_triple n offset t,
      ap (λ (ps : List PackDef). get_elem? ps n) packs
          ∙ at_pack
          ∙ ap (λ (k : ℕ). some (canonical_pack k offset p)) z,
      canonical_pack-triple n offset b p at_b,
      refl,
      same t.from_types own_from,
      same t.to_types own_to,
    )

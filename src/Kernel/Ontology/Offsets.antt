-- ===== src/Kernel/Ontology/Offsets.antt =====
-- The offsets by which `canonicalized` of compatibility.rs moves the type ids of a pack.
use mathlib.Core.List.{append_assoc}
use mathlib.Core.Option
use exocortex.Common.{
  ℕ, zero, suc, ◌+◌, ◌%◌, ◌≤◌, ◌<◌, String, ◌≡◌, refl, sym, ap, ap₂, ◌∙◌, Option, none, some, List,
  [], ◌∷◌, ◌++◌, arith, length, get_elem?, length-append, map, All,
}
use exocortex.Kernel.Pack.{PackDef, TypeTriple}
use exocortex.Kernel.Ontology.{
  all_names, canonical_from, canonical_pack, canonical_triple, remap, saturating_add_u8,
}

pub all_names-canonical_from :
    (i offset : ℕ) (ps : List PackDef)
    → all_names (λ p. p.memory_type_names) (canonical_from i offset ps)
      ≡ all_names (λ p. p.memory_type_names) ps
unfolding all_names canonical_from
all_names-canonical_from i offset [] = refl
all_names-canonical_from i offset (p ∷ ps) =
    ap (λ (ns : List String). p.memory_type_names ++ ns)
      (all_names-canonical_from (i + 1)
        (saturating_add_u8 offset (length p.memory_type_names % 256)) ps)

get_elem?-append_right :
    (xs ys : List String) (i : ℕ) → get_elem? (xs ++ ys) (length xs + i) ≡ get_elem? ys i
get_elem?-append_right [] ys i = ap (get_elem? ys) (omega arith)
get_elem?-append_right (y ∷ xs) ys i =
    let e : length (y ∷ xs) + i ≡ suc (length xs + i) = omega arith in
    rw e (get_elem?-append_right xs ys i)

get_elem?-append_lt :
    (xs ys : List String) (i : ℕ) → i < length xs → get_elem? (xs ++ ys) i ≡ get_elem? xs i
get_elem?-append_lt [] ys i h = absurd (omega (arith, h))
get_elem?-append_lt (y ∷ xs) ys zero h = refl
get_elem?-append_lt (y ∷ xs) ys (suc i) h = get_elem?-append_lt xs ys i (omega (arith, h))

saturating_add_u8_lem : (a b : ℕ) → a + b ≤ 255 → saturating_add_u8 a b ≡ a + b
unfolding saturating_add_u8
saturating_add_u8_lem a b h = ground arith

-- The names that stand before the packs `ps` are `pre`. One offset serves all ids of a pack.
pub canonical_from-resolves :
    (i : ℕ) (pre : List String) (ps : List PackDef) (n : ℕ) (p : PackDef)
    → length pre + length (all_names (λ q. q.memory_type_names) ps) ≤ 255
    → get_elem? ps n ≡ some p
    → (offset : ℕ) × (get_elem? (canonical_from i (length pre) ps) n
        ≡ some (canonical_pack (i + n) offset p))
      × ((x : ℕ)
          → x < length p.memory_type_names
          → get_elem? (pre ++ all_names (λ q. q.memory_type_names) ps) (saturating_add_u8 offset x)
            ≡ get_elem? p.memory_type_names x)
unfolding canonical_from all_names
canonical_from-resolves i pre [] n p small at_n = absurd (ground arith)
canonical_from-resolves i pre (q ∷ ps) zero p small at_n =
    let e : q ≡ p = cc at_n in
    let names : List String = all_names (λ r. r.memory_type_names) ps in
    let z : i + 0 ≡ i = omega arith in
    (
      length pre,
      rw z (ap (λ (r : PackDef). some (canonical_pack i (length pre) r)) e),
      rw (sym e) (λ x fits.
          let sum : saturating_add_u8 (length pre) x ≡ length pre + x =
            saturating_add_u8_lem (length pre) x
              (omega (arith, small, fits, length-append q.memory_type_names names)) in
          rw sum (
            get_elem?-append_right pre (q.memory_type_names ++ names) x
            ∙ get_elem?-append_lt q.memory_type_names names x fits)),
    )
canonical_from-resolves i pre (q ∷ ps) (suc n) p small at_n =
    let names : List String = all_names (λ r. r.memory_type_names) ps in
    let total : length (pre ++ q.memory_type_names) ≡ length pre + length q.memory_type_names =
      length-append pre q.memory_type_names in
    let small' : length pre + (length q.memory_type_names + length names) ≤ 255 =
      omega (arith, small, length-append q.memory_type_names names) in
    let next : saturating_add_u8 (length pre) (length q.memory_type_names % 256)
        ≡ length (pre ++ q.memory_type_names) =
      saturating_add_u8_lem (length pre) (length q.memory_type_names % 256) (omega (arith, small'))
      ∙ omega (arith, total, small') in
    let (offset, at_pack, at_names) =
      canonical_from-resolves (i + 1) (pre ++ q.memory_type_names) ps n p
        (omega (arith, total, small')) at_n in
    let z : i + suc n ≡ i + 1 + n = omega arith in
    (
      offset,
      ap (λ (o : ℕ). get_elem? (canonical_from (i + 1) o ps) n) next
          ∙ at_pack
          ∙ ap (λ (k : ℕ). some (canonical_pack k offset p)) (sym z),
      λ x fits. rw (← append_assoc pre q.memory_type_names names) (at_names x fits),
    )

get_elem?-map :
    {A B : Type 0} (f : A → B) (xs : List A) (i : ℕ) {x : A}
    → get_elem? xs i ≡ some x
    → get_elem? (map f xs) i ≡ some (f x)
get_elem?-map f [] i h = cc
get_elem?-map f (y ∷ ys) zero h = ap (Option.map f) h
get_elem?-map f (y ∷ ys) (suc i) h = get_elem?-map f ys i h

-- The names of the types on one side of a triple, where `none` stands for any type.
abbrev pub named : List String → Option (List ℕ) → Option (List (Option String))
named names none = none
named names (some xs) = some (map (get_elem? names) xs)

-- The types on one side of a triple are among the names.
abbrev pub IsOwn : List String → Option (List ℕ) → Type 0
IsOwn names none = Unit
IsOwn names (some xs) = All (λ x. x < length names) xs

module _ (own all : List String) (offset : ℕ)
    (moved : (x : ℕ)
      → x < length own
      → get_elem? all (saturating_add_u8 offset x) ≡ get_elem? own x) where
  map-moved :
      (xs : List ℕ)
      → All (λ x. x < length own) xs
      → map (get_elem? all) (map (saturating_add_u8 offset) xs) ≡ map (get_elem? own) xs
  map-moved [] h = refl
  map-moved (x ∷ xs) h =
      ap₂ (λ (y : Option String) (ys : List (Option String)). y ∷ ys) (moved x h.0)
        (map-moved xs h.1)

  -- A side that is moved names what it named.
  pub named-remap :
      (side : Option (List ℕ)) → IsOwn own side → named all (remap offset side) ≡ named own side
  unfolding remap
  named-remap none h = refl
  named-remap (some xs) h = ap some (map-moved xs h)

pub canonical_pack-triple :
    (i offset b : ℕ) (p : PackDef) {t : TypeTriple}
    → get_elem? p.type_triples b ≡ some t
    → get_elem? (canonical_pack i offset p).type_triples b ≡ some (canonical_triple i offset t)
unfolding canonical_pack
canonical_pack-triple i offset b p h = get_elem?-map (canonical_triple i offset) p.type_triples b h

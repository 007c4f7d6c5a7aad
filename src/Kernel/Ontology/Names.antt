-- ===== src/Kernel/Ontology/Names.antt =====
-- The name indices of ontology.rs: names and type ids determine each other.
use exocortex.Common.{
  ℕ, zero, suc, ◌+◌, ◌%◌, ◌≤◌, ◌<◌, String, ◌≡◌, ◌↔◌, refl, sym, ap, subst, ◌∙◌, true, false, some,
  List, [], ◌∷◌, ◌++◌, map, ok, arith, eq_iff, ◌==◌, if◌then◌else◌, length, get_elem?,
  length-append, any,
}
use mathlib.Core.List.{append-nil, append_assoc}
use exocortex.Kernel.Pack.{PackDef}
use exocortex.Kernel.Error.{KernelError, duplicate_pack, duplicate_type_name}
use exocortex.Kernel.Ontology.{
  contains, check_unique, NameIndex, index_names, no_names, get_by_name, Ontology, from_packs,
  memory_type_id, all_names, canonicalized, index_kinds, all_kinds, check_constants,
  required_constants,
}

pub get_elem?-snoc :
    (xs : List String) (x : String) (i : ℕ)
    → get_elem? (xs ++ x ∷ []) i ≡ (if i == length xs then some x else get_elem? xs i)
get_elem?-snoc [] x zero = refl
get_elem?-snoc [] x (suc i) = ground arith
get_elem?-snoc (y ∷ ys) x zero = ground arith
get_elem?-snoc (y ∷ ys) x (suc i) = ground (arith, get_elem?-snoc ys x i)

get_elem?-lt : (xs : List String) (i : ℕ) {x : String} → get_elem? xs i ≡ some x → i < length xs
get_elem?-lt [] i h = cc
get_elem?-lt (y ∷ ys) zero h = omega arith
get_elem?-lt (y ∷ ys) (suc i) h = omega (arith, get_elem?-lt ys i h)

contains-get_elem? :
    (xs : List String) (n : String) (i : ℕ) → get_elem? xs i ≡ some n → contains xs n ≡ true
unfolding contains any
contains-get_elem? [] n i h = cc
contains-get_elem? (y ∷ ys) n zero h = ground (arith, eq_iff y n)
contains-get_elem? (y ∷ ys) n (suc i) h = ground (arith, contains-get_elem? ys n i h)

contains-snoc : (xs : List String) (x n : String) → contains (xs ++ x ∷ []) n ≡ contains (x ∷ xs) n
unfolding contains any
contains-snoc [] x n = refl
contains-snoc (y ∷ ys) x n = ground (arith, contains-snoc ys x n)

-- Names and their positions determine each other.
abbrev pub Agrees : NameIndex → Type 0
Agrees ix =
    (name : String) (i : ℕ)
    → (get_by_name name ix.by_name ≡ some i) ↔ (get_elem? ix.names i ≡ some name)

Agrees-insert :
    (ix : NameIndex) (n : String)
    → length ix.names < 256
    → contains ix.names n ≡ false
    → Agrees ix
    → Agrees
        (record { by_name = (n, length ix.names % 256) ∷ ix.by_name; names = ix.names ++ n ∷ [] })
unfolding get_by_name
Agrees-insert ix n small fresh h name i = (
  λ e. ground (
    arith,
    eq_iff n name,
    get_elem?-snoc ix.names n i,
    h name i,
    get_elem?-lt ix.names i {x = name},
  ),
  λ e. ground (
    arith,
    eq_iff n name,
    get_elem?-snoc ix.names n i,
    h name i,
    contains-get_elem? ix.names n i,
  ),
)

-- Two lists of seen names hold the same names.
abbrev SameNames : List String → List String → Type 0
SameNames xs ys = (n : String) → contains xs n ≡ contains ys n

SameNames-insert :
    (xs ys : List String) (x : String) → SameNames xs ys → SameNames (x ∷ xs) (ys ++ x ∷ [])
unfolding contains any
SameNames-insert xs ys x h n = ground (arith, h n, contains-snoc ys x n)

check_unique-cons :
    (mk : String → KernelError) (seen : List String) (n : String) (ns : List String)
    → check_unique mk seen (n ∷ ns) ≡ ok tt
    → (contains seen n ≡ false) × (check_unique mk (n ∷ seen) ns ≡ ok tt)
unfolding check_unique
check_unique-cons mk seen n ns h = ground arith

index_names-Agrees :
    (mk : String → KernelError) (seen todo : List String) (ix : NameIndex)
    → check_unique mk seen todo ≡ ok tt
    → SameNames seen ix.names
    → length ix.names + length todo ≤ 256
    → Agrees ix
    → Agrees (index_names ix todo)
unfolding index_names
index_names-Agrees mk seen [] ix u same small h = h
index_names-Agrees mk seen (n ∷ ns) ix u same small h =
    let (fresh, rest) = check_unique-cons mk seen n ns u in
    index_names-Agrees mk (n ∷ seen) ns
      (record { by_name = (n, length ix.names % 256) ∷ ix.by_name; names = ix.names ++ n ∷ [] })
      rest (SameNames-insert seen ix.names n same) (omega (arith, length-append ix.names (n ∷ [])))
      (Agrees-insert ix n (omega arith) (sym (same n) ∙ fresh) h)

no_names-Agrees : Agrees no_names
unfolding get_by_name
no_names-Agrees name i = (λ e. cc, λ e. cc)

pub index_names-names :
    (ix : NameIndex) (todo : List String) → (index_names ix todo).names ≡ ix.names ++ todo
unfolding index_names
index_names-names ix [] = rw append-nil
index_names-names ix (n ∷ ns) =
    index_names-names
      (record { by_name = (n, length ix.names % 256) ∷ ix.by_name; names = ix.names ++ n ∷ [] }) ns
    ∙ append_assoc ix.names (n ∷ []) ns

-- What a successful `from_packs` has checked and built.
pub record Built (registered : List PackDef) (o : Ontology) : Type 0 where
  pub packs : o.packs ≡ canonicalized registered
  pub unique_packs : check_unique duplicate_pack [] (map (λ p. p.name) registered) ≡ ok tt
  pub unique_memory :
      check_unique duplicate_type_name []
        (all_names (λ p. p.memory_type_names) (canonicalized registered))
      ≡ ok tt
  pub kinds : index_kinds [] [] (all_kinds (canonicalized registered)) ≡ ok o.kinds_by_id
  pub constants : check_constants o.kinds_by_id required_constants ≡ ok tt
  pub memory :
      o.memory_types
      ≡ index_names no_names (all_names (λ p. p.memory_type_names) (canonicalized registered))

pub from_packs-Built :
    (registered : List PackDef) (o : Ontology) → from_packs registered ≡ ok o → Built registered o
unfolding from_packs
from_packs-Built registered o h = ground arith

-- With at most 256 memory types, `memory_type_id` returns an id for a name exactly when the name
-- stands at that position of `memory_type_names`: the two indices invert each other.
pub memory_type_id_iff :
    (registered : List PackDef) (o : Ontology) (name : String) (i : ℕ)
    → from_packs registered ≡ ok o
    → length o.memory_types.names ≤ 256
    → (memory_type_id o name ≡ some i) ↔ (get_elem? o.memory_types.names i ≡ some name)
unfolding memory_type_id
memory_type_id_iff registered o name i h small =
    let b = from_packs-Built registered o h in
    let names : List String = all_names (λ p. p.memory_type_names) (canonicalized registered) in
    let listed : o.memory_types.names ≡ names =
      ap (λ (ix : NameIndex). ix.names) b.memory ∙ index_names-names no_names names in
    subst Agrees (sym b.memory)
      (index_names-Agrees duplicate_type_name [] names no_names b.unique_memory (λ n. refl)
        (omega (arith, small, ap (λ (ns : List String). length ns) listed)) no_names-Agrees)
      name i

-- ===== src/Kernel/Ontology.antt =====
-- crates/exocortex-kernel/src/ontology.rs, with `canonicalized` of compatibility.rs: the effective
-- ontology of the registered packs. A hash map is an association list, a hash set a list. The
-- fingerprints and the summary, which sha2 digests, are left out.
pub mod Names
pub mod Ids
pub mod Offsets
pub mod Lookup
use Prim.Native.String.{compare}
use text.Mathlib.Text.{is_lt}
use exocortex.Common.{
  ℕ, suc, ◌+◌, ◌%◌, String, Bool, true, false, Option, none, some, List, [], ◌∷◌, ◌++◌, map, Result,
  ok, err, ◌>>=◌, ◌>>◌, if◌then◌else◌, str_eq, ◌==◌, leb, length, any,
}
use mathlib.Core.Option
use exocortex.Kernel.Kinds.{
  RelKindId, RelMeta, from_pack, is_kernel, local_part, solves, fixes, causes, in_session,
}
use exocortex.Kernel.Pack.{PackDef, TypeTriple}
use exocortex.Kernel.Error.{
  KernelError, duplicate_pack, duplicate_kind, duplicate_kind_name, unbound_kernel_constant,
  duplicate_type_name,
}

-- `HashSet::contains`
unfoldable pub contains : List String → String → Bool
unfolding any
contains seen n = any (λ s. str_eq s n) seen

-- The loops that fail on the first name that was seen before.
unfoldable pub check_unique :
    (String → KernelError) → List String → List String → Result KernelError (Unit {0})
unfolding contains
check_unique mk seen [] = ok tt
check_unique mk seen (n ∷ ns) =
    let rest = check_unique mk (n ∷ seen) ns in if contains seen n then err (mk n) else rest

-- `packs.sort_by(|a, b| a.name.cmp(&b.name))`, which is stable.
unfoldable pub insert_by_name : PackDef → List PackDef → List PackDef
insert_by_name p [] = p ∷ []
insert_by_name p (q ∷ qs) =
    let rest = insert_by_name p qs in if is_lt (compare q.name p.name) then q ∷ rest else p ∷ q ∷ qs

unfoldable pub sort_by_name : List PackDef → List PackDef
unfolding insert_by_name
sort_by_name [] = []
sort_by_name (p ∷ ps) = insert_by_name p (sort_by_name ps)

-- `u8::saturating_add`
unfoldable pub saturating_add_u8 : ℕ → ℕ → ℕ
saturating_add_u8 a b = if leb (a + b) 255 then a + b else 255

-- A pack's provisional kind id becomes one of the pack's own slot.
unfoldable pub canonical_id : ℕ → RelKindId → RelKindId
unfolding is_kernel from_pack local_part
canonical_id i k = if is_kernel k then k else from_pack i (local_part k)

unfoldable pub canonical_kind : ℕ → RelMeta → RelMeta
unfolding canonical_id
canonical_kind i k = record k {
  id = canonical_id i k.id;
  inverse = Option.map (canonical_id i) k.inverse;
}

-- `remap` of one side of a triple.
unfoldable pub remap : ℕ → Option (List ℕ) → Option (List ℕ)
unfolding saturating_add_u8
remap offset side = Option.map (map (saturating_add_u8 offset)) side

unfoldable pub canonical_triple : ℕ → ℕ → TypeTriple → TypeTriple
unfolding canonical_id remap
canonical_triple i offset t = record {
  kind = canonical_id i t.kind;
  from_types = remap offset t.from_types;
  to_types = remap offset t.to_types;
}

unfoldable pub canonical_pack : ℕ → ℕ → PackDef → PackDef
unfolding canonical_kind canonical_triple
canonical_pack i offset p = record p {
  kinds = map (canonical_kind i) p.kinds;
  type_triples = map (canonical_triple i offset) p.type_triples;
}

-- Pack `i` has the memory types from `offset` on; `len as u8` wraps.
unfoldable pub canonical_from : ℕ → ℕ → List PackDef → List PackDef
unfolding canonical_pack saturating_add_u8
canonical_from i offset [] = []
canonical_from i offset (p ∷ ps) =
    canonical_pack i offset p
    ∷ canonical_from (i + 1) (saturating_add_u8 offset (length p.memory_type_names % 256)) ps

unfoldable pub canonicalized : List PackDef → List PackDef
unfolding canonical_from sort_by_name
canonicalized packs = canonical_from 0 0 (sort_by_name packs)

unfoldable pub all_names : (PackDef → List String) → List PackDef → List String
all_names names [] = []
all_names names (p ∷ ps) = names p ++ all_names names ps

unfoldable pub all_kinds : List PackDef → List RelMeta
all_kinds [] = []
all_kinds (p ∷ ps) = p.kinds ++ all_kinds ps

unfoldable pub all_triples : List PackDef → List TypeTriple
all_triples [] = []
all_triples (p ∷ ps) = p.type_triples ++ all_triples ps

-- `HashMap::get` with a u32 key.
unfoldable pub get {ℓ} : {V : Type ℓ} → ℕ → List (ℕ × V) → Option V
get k [] = none
get k ((j, v) ∷ m) = if j == k then some v else get k m

unfoldable pub contains_key {ℓ} : {V : Type ℓ} → ℕ → List (ℕ × V) → Bool
contains_key k [] = false
contains_key k ((j, v) ∷ m) = if j == k then true else contains_key k m

-- The loop over the kinds. The map is only extended at keys that it lacks.
unfoldable pub index_kinds :
    List (ℕ × RelMeta) → List String → List RelMeta → Result KernelError (List (ℕ × RelMeta))
unfolding contains contains_key
index_kinds by_id names [] = ok by_id
index_kinds by_id names (k ∷ ks) =
    let rest = index_kinds ((k.id, k) ∷ by_id) (k.display_name ∷ names) ks in
    if contains_key k.id by_id
    then err (duplicate_kind k.id)
    else if contains names k.display_name
    then err (duplicate_kind_name k.display_name)
    else rest

unfoldable pub check_constants : List (ℕ × RelMeta) → List RelKindId → Result KernelError (Unit {0})
unfolding contains_key
check_constants by_id [] = ok tt
check_constants by_id (k ∷ ks) =
    let rest = check_constants by_id ks in
    if contains_key k by_id then rest else err (unbound_kernel_constant k)

-- `entry(t.kind).or_default().push(t)`
unfoldable pub push_triple : TypeTriple → List (ℕ × List TypeTriple) → List (ℕ × List TypeTriple)
push_triple t [] = (t.kind, t ∷ []) ∷ []
push_triple t ((k, ts) ∷ m) =
    let rest = push_triple t m in if k == t.kind then (k, ts ++ t ∷ []) ∷ m else (k, ts) ∷ rest

unfoldable pub index_triples :
    List (ℕ × List TypeTriple) → List TypeTriple → List (ℕ × List TypeTriple)
unfolding push_triple
index_triples m [] = m
index_triples m (t ∷ ts) = index_triples (push_triple t m) ts

pub record NameIndex : Type 0 where
  pub by_name : List (String × ℕ)
  pub names : List String

-- `insert(name, names.len() as u8); names.push(name)`; the cast wraps.
unfoldable pub index_names : NameIndex → List String → NameIndex
index_names ix [] = ix
index_names ix (n ∷ ns) =
    index_names
      (record { by_name = (n, length ix.names % 256) ∷ ix.by_name; names = ix.names ++ n ∷ [] }) ns

pub record Ontology : Type 0 where
  pub packs : List PackDef
  pub kinds_by_id : List (ℕ × RelMeta)
  pub triples_by_kind : List (ℕ × List TypeTriple)
  pub memory_types : NameIndex
  pub entity_types : NameIndex

abbrev pub no_names : NameIndex
no_names = record { by_name = []; names = [] }

abbrev pub required_constants : List RelKindId
required_constants = solves ∷ fixes ∷ causes ∷ in_session ∷ []

-- `Ontology::from_packs`
unfoldable pub from_packs : List PackDef → Result KernelError Ontology
from_packs registered = do
  check_unique duplicate_pack [] (map (λ p. p.name) registered)
  let packs = canonicalized registered
  let memory_names = all_names (λ p. p.memory_type_names) packs
  let entity_names = all_names (λ p. p.entity_type_names) packs
  check_unique duplicate_type_name [] memory_names
  check_unique duplicate_type_name [] entity_names
  kinds_by_id ← index_kinds [] [] (all_kinds packs)
  check_constants kinds_by_id required_constants
  ok (record {
    packs = packs;
    kinds_by_id = kinds_by_id;
    triples_by_kind = index_triples [] (all_triples packs);
    memory_types = index_names no_names memory_names;
    entity_types = index_names no_names entity_names;
  })

unfoldable pub find_kind : String → List (ℕ × RelMeta) → Option RelKindId
find_kind name [] = none
find_kind name ((j, k) ∷ m) = if str_eq k.display_name name then some k.id else find_kind name m

-- `kinds_by_id.values().find(..)`
unfoldable pub kind_id : Ontology → String → Option RelKindId
unfolding find_kind
kind_id o name = find_kind name o.kinds_by_id

unfoldable pub get_by_name : String → List (String × ℕ) → Option ℕ
get_by_name name [] = none
get_by_name name ((j, v) ∷ m) = if str_eq j name then some v else get_by_name name m

unfoldable pub memory_type_id : Ontology → String → Option ℕ
unfolding get_by_name
memory_type_id o name = get_by_name name o.memory_types.by_name

-- ===== src/Kernel/Examples.antt =====
-- The theorems on the kernel at concrete packs, drafts and relationships.
use exocortex.Common.{
  ℕ, ◌≤◌, ◌≡◌, ◌↔◌, refl, String, false, Option, none, some, [], ◌∷◌, Result, ok, err, arith, every,
  length, get_elem?, Bytes, from_be,
}
use mathlib.Core.List.{Memᴰ}
use exocortex.Kernel.Visibility.{Visibility, project, team, within, narrowest_visibility}
use exocortex.Kernel.Visibility.Laws.{narrowest_visibility-min}
use exocortex.Kernel.Kinds.{RelKindId, RelMeta, causal, is_kernel, local_part}
use exocortex.Kernel.Pack.{PackDef, PackVersion, TypeTriple}
use exocortex.Kernel.Draft.{EdgeHint, MemoryContext, MemoryDraft}
use exocortex.Kernel.Error.{KernelError}
use exocortex.Kernel.Ontology.{
  Ontology, from_packs, canonicalized, check_unique, index_kinds, check_constants, index_triples,
  index_names, all_kinds, all_triples, all_names, canonical_id, sort_by_name, memory_type_id,
  kind_id, get, no_names,
}
use exocortex.Kernel.Ontology.Offsets.{named}
use exocortex.Kernel.Ontology.Names.{memory_type_id_iff}
use exocortex.Kernel.Ontology.Ids.{canonical_id-injective}
use exocortex.Kernel.Ontology.Lookup.{kind_id_iff, canonicalized-resolves, Declared}
use exocortex.Kernel.Validator.{SourceCeiling, validate_draft}
use exocortex.Kernel.Validator.Laws.{validate_draft_iff, Admissible}
use exocortex.Kernel.Relationship.{Relationship, derive, materialize_inverse}
use exocortex.Kernel.Relationship.Inverse.{materialize_inverse-twice}

narrowest_visibility-min_example :
    (m : Visibility) × (narrowest_visibility (team ∷ project ∷ []) ≡ some m)
    × Memᴰ m (team ∷ project ∷ [])
    × ((c : Visibility) → within c m ≡ every (within c) (team ∷ project ∷ []))
narrowest_visibility-min_example = narrowest_visibility-min team (project ∷ [])

canonical_id-injective_example : (◌≡◌ {A = ℕ} 3 3) × (local_part 2147483653 ≡ local_part 2147614725)
unfolding canonical_id is_kernel
canonical_id-injective_example =
    canonical_id-injective 3 3 2147483653 2147614725 (omega arith) (omega arith) refl refl refl

abbrev kind : ℕ → String → Option RelKindId → RelMeta
kind id name inverse = record {
  id = id;
  display_name = name;
  bucket = causal;
  inverse = inverse;
  bidirectional = false;
  default_strength = 0;
  computed_only = false;
}

abbrev v1 : PackVersion
v1 = record { major = 1; minor = 0; patch = 0 }

abbrev dev : PackDef
dev = record {
  name = "dev";
  version = v1;
  kernel_min = v1;
  memory_type_names = "problem" ∷ "solution" ∷ [];
  entity_type_names = "file" ∷ [];
  kinds =
      kind 0 "SOLVES" (some 1)
      ∷ kind 1 "FIXES" (some 0)
      ∷ kind 2 "CAUSES" none
      ∷ kind 3 "IN_SESSION" none
      ∷ [];
  type_triples = record { kind = 0; from_types = some (1 ∷ []); to_types = some (0 ∷ []) } ∷ [];
  rule_ids = [];
}

abbrev base : PackDef
base = record {
  name = "base";
  version = v1;
  kernel_min = v1;
  memory_type_names = "note" ∷ [];
  entity_type_names = [];
  kinds = kind 2147483653 "CITES" none ∷ [];
  type_triples = [];
  rule_ids = [];
}

abbrev empty_ontology : Ontology
empty_ontology = record {
  packs = [];
  kinds_by_id = [];
  triples_by_kind = [];
  memory_types = no_names;
  entity_types = no_names;
}

abbrev or_empty : Result KernelError Ontology → Ontology
or_empty (ok o) = o
or_empty (err e) = empty_ontology

abbrev onto : Ontology
onto = or_empty (from_packs (dev ∷ base ∷ []))

built : from_packs (dev ∷ base ∷ []) ≡ ok onto
unfolding from_packs canonicalized check_unique index_kinds check_constants index_triples
    index_names all_kinds all_triples all_names
built = refl

few_names : length onto.memory_types.names ≤ 255
unfolding from_packs canonicalized check_unique index_kinds check_constants index_triples
    index_names all_kinds all_triples all_names
few_names = omega arith

memory_type_id_iff_example :
    (memory_type_id onto "problem" ≡ some 1)
    ↔ (get_elem? onto.memory_types.names 1 ≡ some "problem")
memory_type_id_iff_example =
    memory_type_id_iff (dev ∷ base ∷ []) onto "problem" 1 built (omega (arith, few_names))

kind_id_iff_example : (kind_id onto "FIXES" ≡ some 1) ↔ Declared (all_kinds onto.packs) "FIXES" 1
kind_id_iff_example = kind_id_iff (dev ∷ base ∷ []) onto "FIXES" 1 built

second_pack : get_elem? (sort_by_name (dev ∷ base ∷ [])) 1 ≡ some dev
unfolding sort_by_name
second_pack = refl

abbrev solves_types : TypeTriple
solves_types = record { kind = 0; from_types = some (1 ∷ []); to_types = some (0 ∷ []) }

canonicalized-resolves_example :
    (q : PackDef) × (u : TypeTriple) × (get_elem? onto.packs 1 ≡ some q)
    × (get_elem? q.type_triples 0 ≡ some u)
    × (u.kind ≡ canonical_id 1 0)
    × (named onto.memory_types.names u.from_types ≡ some (some "solution" ∷ []))
    × (named onto.memory_types.names u.to_types ≡ some (some "problem" ∷ []))
canonicalized-resolves_example =
    canonicalized-resolves (dev ∷ base ∷ []) onto 1 0 dev solves_types built few_names second_pack
      refl (omega arith, tt) (omega arith, tt)

abbrev no_context : MemoryContext
no_context = record {
  timestamp = 0;
  project_id = none;
  project_path = none;
  team_id = none;
  tenant_id = none;
  session_id = none;
  user_id = none;
  created_by = none;
  files_involved = [];
  languages = [];
  frameworks = [];
  technologies = [];
  git_commit = none;
  git_branch = none;
  working_directory = none;
  entities = [];
  additional_metadata = "{}";
}

abbrev hint : EdgeHint
hint = record { kind = 0; to = 7; strength = none; confidence = none }

abbrev draft : MemoryDraft
draft = record {
  memory_type = 2;
  title = "a fix";
  content = "use a lock";
  summary = none;
  visibility = project;
  context = no_context;
  edge_hints = hint ∷ [];
  external_key = none;
}

abbrev ceiling : SourceCeiling
ceiling = record { source = "cli"; ceiling = team }

validate_draft_iff_example :
    (validate_draft onto draft ceiling ≡ ok tt) ↔ Admissible onto draft ceiling
validate_draft_iff_example = validate_draft_iff onto draft ceiling

abbrev digest : Bytes → ℕ
digest = from_be

abbrev edge : Relationship
edge = record {
  id = 1;
  kind = 0;
  from = 10;
  to = 20;
  visibility = team;
  provenance = 5;
  properties = record {
    strength = 0;
    confidence = 0;
    context = none;
    evidence_count = 1;
    success_rate = none;
    validation_count = 0;
    counter_evidence_count = 0;
    last_validated = 0;
  };
  description = none;
  bidirectional = false;
  valid_from = 0;
  valid_until = none;
  recorded_at = 0;
  invalidated_by = none;
  lsn = 3;
}

solves_known : get 0 onto.kinds_by_id ≡ some (kind 0 "SOLVES" (some 1))
unfolding from_packs canonicalized check_unique index_kinds check_constants index_triples
    index_names all_kinds all_triples all_names get
solves_known = refl

fixes_known : get 1 onto.kinds_by_id ≡ some (kind 1 "FIXES" (some 0))
unfolding from_packs canonicalized check_unique index_kinds check_constants index_triples
    index_names all_kinds all_triples all_names get
fixes_known = refl

materialize_inverse-twice_example :
    (s t : Relationship) × (materialize_inverse digest onto edge ≡ some s)
    × (s.from ≡ 20)
    × (s.to ≡ 10)
    × (s.kind ≡ 1)
    × (s.id ≡ derive digest 20 1 10 none)
    × (s.bidirectional ≡ false)
    × (s.visibility ≡ team)
    × (s.provenance ≡ 5)
    × (s.lsn ≡ edge.lsn)
    × (s.valid_until ≡ edge.valid_until)
    × (materialize_inverse digest onto s ≡ some t)
    × (t.kind ≡ 0)
    × (t.from ≡ 10)
    × (t.to ≡ 20)
    × (t.id ≡ derive digest 10 0 20 none)
materialize_inverse-twice_example =
    materialize_inverse-twice digest onto edge (kind 0 "SOLVES" (some 1)) (kind 1 "FIXES" (some 0))
      solves_known refl refl (omega arith) fixes_known refl refl

-- ===== src/Kernel/Validator.antt =====
-- crates/exocortex-kernel/src/validator.rs: the write-path checks of a draft.
pub mod Laws
use Prim.Native.String.{len, count}
use exocortex.Common.{
  ℕ, ◌*◌, String, Bool, true, false, Option, none, some, List, [], ◌∷◌, Result, ok, err, ◌>>=◌,
  ◌>>◌, if◌then◌else◌, str_eq, ◌==◌, ltb, ◌&&◌, ◌||◌, not, any,
}
use exocortex.Kernel.Visibility.{Visibility, within}
use exocortex.Kernel.Kinds.{RelKindId}
use exocortex.Kernel.Pack.{TypeTriple}
use exocortex.Kernel.Draft.{EdgeHint, MemoryDraft}
use exocortex.Kernel.Error.{
  KernelError, unknown_kind, invalid_type_triple, title_bounds, empty_content, visibility_widening,
  summary_bounds, metadata_too_large,
}
use exocortex.Kernel.Ontology.{Ontology, get}

pub record SourceCeiling : Type 0 where
  pub source : String
  pub ceiling : Visibility

-- `xs.contains(&x)` on type ids, and `is_none_or` of it.
unfoldable pub contains_type : List ℕ → ℕ → Bool
unfolding any
contains_type xs x = any (λ y. y == x) xs

unfoldable pub side_allows : Option (List ℕ) → ℕ → Bool
unfolding contains_type
side_allows none x = true
side_allows (some xs) x = contains_type xs x

-- The match on `(t.to_types, to)`.
unfoldable pub to_allows : Option (List ℕ) → Option ℕ → Bool
unfolding contains_type
to_allows none to = true
to_allows (some xs) none = true
to_allows (some xs) (some v) = contains_type xs v

unfoldable pub matches_triple : TypeTriple → ℕ → Option ℕ → Bool
unfolding side_allows to_allows
matches_triple t from to = side_allows t.from_types from && to_allows t.to_types to

unfoldable pub triples_of : Ontology → RelKindId → Result KernelError (List TypeTriple)
unfolding get
triples_of onto kind = elim (get kind onto.triples_by_kind) [
  | none ↦ err (unknown_kind kind)
  | some ts ↦ ok ts
]

unfoldable pub check_hint : Ontology → ℕ → EdgeHint → Result KernelError (Unit {0})
unfolding triples_of matches_triple any
check_hint onto memory_type hint = do
  triples ← triples_of onto hint.kind
  if any (λ t. matches_triple t memory_type none) triples
      then ok tt
      else err (invalid_type_triple hint.kind memory_type)

unfoldable pub check_hints : Ontology → ℕ → List EdgeHint → Result KernelError (Unit {0})
unfolding check_hint
check_hints onto memory_type [] = ok tt
check_hints onto memory_type (h ∷ hs) =
    let rest = check_hints onto memory_type hs in do check_hint onto memory_type h; rest

abbrev pub require : Bool → KernelError → Result KernelError (Unit {0})
require true e = ok tt
require false e = err e

unfoldable pub title_in_bounds : String → Bool
title_in_bounds title = not (str_eq title "" || ltb 200 (count title))

unfoldable pub summary_in_bounds : Option String → Bool
summary_in_bounds none = true
summary_in_bounds (some s) = not (ltb 500 (count s))

unfoldable pub validate_draft :
    Ontology → MemoryDraft → SourceCeiling → Result KernelError (Unit {0})
unfolding title_in_bounds summary_in_bounds check_hints within
validate_draft onto draft ceiling = do
  require (title_in_bounds draft.title) title_bounds
  require (not (str_eq draft.content "")) empty_content
  require (summary_in_bounds draft.summary) summary_bounds
  require (not (ltb (8 * 1024) (len draft.context.additional_metadata))) metadata_too_large
  require (within draft.visibility ceiling.ceiling)
      (visibility_widening ceiling.source ceiling.ceiling draft.visibility)
  check_hints onto draft.memory_type draft.edge_hints

unfoldable pub validate_triple : Ontology → ℕ → RelKindId → ℕ → Result KernelError (Unit {0})
unfolding triples_of side_allows any
validate_triple onto from_type kind to_type = do
  triples ← triples_of onto kind
  if any (λ t. side_allows t.from_types from_type && side_allows t.to_types to_type) triples
      then ok tt
      else err (invalid_type_triple kind from_type)

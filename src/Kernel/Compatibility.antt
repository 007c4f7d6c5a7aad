-- ===== src/Kernel/Compatibility.antt =====
-- The admission policies of crates/exocortex-kernel/src/compatibility.rs: which pinned ontology, producer
-- and peer a runtime accepts. The fingerprint of a summary is a parameter; an `f32` stands as a number.
-- In place of the text of a divergence stand the two summaries that it is computed from.
pub mod Subset
pub mod Upgrades
pub mod Pins
use Prim.Native.String.{◌++◌ as str_append}
use exocortex.Common.{
  ℕ, zero, suc, ◌+◌, ◌/◌, ◌%◌, ◌≡◌, ◌↔◌, String, Bool, true, false, not, ◌&&◌, ◌||◌, Option, none,
  some, List, [], ◌∷◌, ◌++◌, Result, ok, err, if◌then◌else◌, ◌==◌, ==_iff, any, every, length, ltb,
  leb, str_eq, eq_iff, arith, Bytes, HashKey, nat_key, string_key, lookup, insert, same_list,
  get_elem?,
}

pub record KindSummary : Type 0 where
  pub id : ℕ
  pub name : String
  pub bucket : ℕ
  pub bucket_extension : ℕ
  pub inverse : Option ℕ
  pub bidirectional : Bool
  pub default_strength : ℕ
  pub computed_only : Bool

pub record TripleSummary : Type 0 where
  pub kind : ℕ
  pub from_types : Option (List ℕ)
  pub to_types : Option (List ℕ)

pub record ActionVerbSummary : Type 0 where
  pub pack : String
  pub name : String
  pub ceiling : ℕ
  pub input_type : String
  pub output_type : String

pub record FunctionVerbSummary : Type 0 where
  pub pack : String
  pub name : String
  pub engine : String
  pub input_type : String
  pub output_type : String

pub record OntologySummary : Type 0 where
  pub memory_types : List String
  pub entity_types : List String
  pub kinds : List KindSummary
  pub type_triples : List TripleSummary
  pub rule_ids : List String
  pub actions : List ActionVerbSummary
  pub functions : List FunctionVerbSummary

-- The derived equalities.
abbrev pub same_id : Option ℕ → Option ℕ → Bool
same_id none none = true
same_id (some a) (some b) = a == b
same_id _ _ = false

abbrev pub same_flag : Bool → Bool → Bool
same_flag true b = b
same_flag false b = not b

abbrev pub same_kind : KindSummary → KindSummary → Bool
same_kind a b =
    a.id == b.id
    && (str_eq a.name b.name
        && (a.bucket == b.bucket
            && (a.bucket_extension == b.bucket_extension
                && (same_id a.inverse b.inverse
                    && (same_flag a.bidirectional b.bidirectional
                        && (a.default_strength == b.default_strength
                            && same_flag a.computed_only b.computed_only))))))

abbrev pub same_types : Option (List ℕ) → Option (List ℕ) → Bool
same_types none none = true
same_types (some a) (some b) = same_list a b
same_types _ _ = false

abbrev pub same_triple : TripleSummary → TripleSummary → Bool
same_triple a b =
    a.kind == b.kind && (same_types a.from_types b.from_types && same_types a.to_types b.to_types)

abbrev pub same_action : ActionVerbSummary → ActionVerbSummary → Bool
same_action a b =
    str_eq a.pack b.pack
    && (str_eq a.name b.name
        && (a.ceiling == b.ceiling
            && (str_eq a.input_type b.input_type && str_eq a.output_type b.output_type)))

abbrev pub same_function : FunctionVerbSummary → FunctionVerbSummary → Bool
same_function a b =
    str_eq a.pack b.pack
    && (str_eq a.name b.name
        && (str_eq a.engine b.engine
            && (str_eq a.input_type b.input_type && str_eq a.output_type b.output_type)))

-- The equality of vectors under a test.
unfoldable pub same_rows {ℓ} : {A : Type ℓ} → (A → A → Bool) → List A → List A → Bool
same_rows same [] [] = true
same_rows same [] (y ∷ ys) = false
same_rows same (x ∷ xs) [] = false
same_rows same (x ∷ xs) (y ∷ ys) = same x y && same_rows same xs ys

abbrev pub same_summary : OntologySummary → OntologySummary → Bool
same_summary a b =
    same_rows str_eq a.memory_types b.memory_types
    && (same_rows str_eq a.entity_types b.entity_types
        && (same_rows same_kind a.kinds b.kinds
            && (same_rows same_triple a.type_triples b.type_triples
                && (same_rows str_eq a.rule_ids b.rule_ids
                    && (same_rows same_action a.actions b.actions
                        && same_rows same_function a.functions b.functions)))))

-- `covers` of `triple_covered`
abbrev pub covers : Option (List ℕ) → Option (List ℕ) → Bool
covers sub none = true
covers none (some b) = false
covers (some a) (some b) = every (λ t. any (λ s. s == t) b) a

abbrev pub row_covers : TripleSummary → TripleSummary → Bool
row_covers pinned row =
    row.kind == pinned.kind
    && (covers pinned.from_types row.from_types && covers pinned.to_types row.to_types)

unfoldable pub triple_covered : TripleSummary → OntologySummary → Bool
triple_covered pinned superset = any (row_covers pinned) superset.type_triples

-- `xs.len() <= ys.len()` and `xs == ys[..xs.len()]`
unfoldable pub is_prefix : List String → List String → Bool
is_prefix [] ys = true
is_prefix (x ∷ xs) [] = false
is_prefix (x ∷ xs) (y ∷ ys) = str_eq x y && is_prefix xs ys

-- `collect` into a map by id, where a later row replaces an earlier one.
unfoldable pub merged : List KindSummary → List (ℕ × KindSummary) → List (ℕ × KindSummary)
merged [] m = m
merged (k ∷ ks) m = merged ks (insert k.id k m)

abbrev pub is_row : Option KindSummary → KindSummary → Bool
is_row none row = false
is_row (some other) row = same_kind other row

-- `BTreeSet::is_subset`
unfoldable pub is_subset {ℓ} : {A : Type ℓ} → (A → A → Bool) → List A → List A → Bool
is_subset same ours theirs = every (λ x. any (same x) theirs) ours

abbrev pub is_subset_of : OntologySummary → OntologySummary → Bool
is_subset_of a superset =
    is_prefix a.memory_types superset.memory_types
    && (is_prefix a.entity_types superset.entity_types
        && (every (λ (row : KindSummary). is_row (lookup row.id (merged superset.kinds [])) row)
              a.kinds
            && (every (λ t. any (same_triple t) superset.type_triples || triple_covered t superset)
                  a.type_triples
                && (is_subset str_eq a.rule_ids superset.rule_ids
                    && (is_subset same_action a.actions superset.actions
                        && is_subset same_function a.functions superset.functions)))))

-- The fields of `Ontology` that admission reads.
pub record Runtime : Type 0 where
  pub fingerprint : Bytes
  pub build_fingerprint : Bytes
  pub summary : OntologySummary

pub record PinnedOntology : Type 0 where
  pub scheme : ℕ
  pub compatibility : String
  pub build : String
  pub summary : OntologySummary
  pub accepted : List String

pub data PersistedPin : Type 0 where
  absent_pin : PersistedPin
  legacy_v1 : Bytes → PersistedPin
  v2 : PinnedOntology → PersistedPin

pub data CompatibilityError : Type 0 where
  legacy_pin_mismatch : Bytes → Bytes → CompatibilityError
  not_a_superset : OntologySummary → OntologySummary → CompatibilityError
  corrupt_record : String → CompatibilityError
  producer_not_admitted : Bytes → Bytes → CompatibilityError
  peer_mismatch : Bytes → Bytes → CompatibilityError

pub data NodeGraphDecision : Type 0 where
  satisfied : NodeGraphDecision
  advance : PinnedOntology → NodeGraphDecision
  migrate : PinnedOntology → NodeGraphDecision

abbrev pub or_blank : Option String → String
or_blank none = ""
or_blank (some s) = s

abbrev pub hex_digit : ℕ → String
hex_digit n = or_blank (
    get_elem?
      ("0" ∷ "1" ∷ "2" ∷ "3" ∷ "4" ∷ "5" ∷ "6" ∷ "7" ∷ "8" ∷ "9" ∷ "a" ∷ "b" ∷ "c" ∷ "d" ∷ "e" ∷ "f"
        ∷ [])
      n)

unfoldable pub hex : Bytes → String
hex [] = ""
hex (b ∷ bs) = str_append (hex_digit (b / 16)) (str_append (hex_digit (b % 16)) (hex bs))

abbrev pub max_accepted_fingerprints : ℕ
max_accepted_fingerprints = 8

abbrev pub describing : Runtime → PinnedOntology
describing ours = record {
  scheme = 2;
  compatibility = hex ours.fingerprint;
  build = hex ours.build_fingerprint;
  summary = ours.summary;
  accepted = [];
}

-- The loop of `bounded_accepted`, up to its break.
unfoldable pub push_accepted : List String → List String → List String
push_accepted [] out = out
push_accepted (fp ∷ prior) out =
    if leb max_accepted_fingerprints (length out)
    then out
    else push_accepted prior (if any (str_eq fp) out then out else out ++ fp ∷ [])

unfoldable pub bounded_accepted : List String → String → List String
bounded_accepted prior newest = push_accepted prior (newest ∷ [])

-- `[0; n]`
unfoldable pub zero_bytes : ℕ → Bytes
zero_bytes zero = []
zero_bytes (suc n) = 0 ∷ zero_bytes n

-- A slice of 32 bytes.
abbrev pub is_fingerprint : Bytes → Bool
is_fingerprint offered = length offered == 32

unfoldable pub admit_producer_batch :
    Bytes → Runtime → List Bytes → Result CompatibilityError (Unit {0})
admit_producer_batch offered ours recognized =
    if not (is_fingerprint offered)
    then err (producer_not_admitted (zero_bytes 32) ours.fingerprint)
    else if same_list offered ours.fingerprint || any (same_list offered) recognized
    then ok tt
    else err (producer_not_admitted offered ours.fingerprint)

unfoldable pub admit_peer : Bytes → Bytes → Result CompatibilityError (Unit {0})
admit_peer offered ours =
    if not (is_fingerprint offered)
    then err (peer_mismatch (zero_bytes 32) ours)
    else if same_list offered ours
    then ok tt
    else err (peer_mismatch offered ours)

pub data BackupOntology : Type 0 where
  summarized : OntologySummary → BackupOntology
  legacy : String → BackupOntology

unfoldable pub admit_backup : BackupOntology → Runtime → Result CompatibilityError (Unit {0})
admit_backup (summarized summary) ours =
    if is_subset_of summary ours.summary then ok tt else err (not_a_superset summary ours.summary)
admit_backup (legacy fingerprint_hex) ours =
    if str_eq fingerprint_hex (hex ours.build_fingerprint)
    then ok tt
    else err (legacy_pin_mismatch (zero_bytes 32) ours.build_fingerprint)

module _ (compatibility_fingerprint : OntologySummary → Bytes) where
  unfoldable pub admit_record :
      PinnedOntology → Runtime → Result CompatibilityError NodeGraphDecision
  admit_record pin ours =
      let stated = hex (compatibility_fingerprint pin.summary) in
      if not (str_eq stated pin.compatibility)
      then err (
          corrupt_record (
            str_append "summary hashes to "
              (str_append stated (str_append " but the record claims " pin.compatibility))))
      else if same_summary pin.summary ours.summary
      then if str_eq pin.build (hex ours.build_fingerprint)
        then ok satisfied
        else ok (advance (record (describing ours) { accepted = pin.accepted }))
      else if is_subset_of pin.summary ours.summary
      then ok (
          advance (record (describing ours) {
            accepted = bounded_accepted pin.accepted pin.compatibility;
          }))
      else err (not_a_superset pin.summary ours.summary)

  unfoldable pub admit_node_graph :
      PersistedPin → Runtime → Result CompatibilityError NodeGraphDecision
  admit_node_graph absent_pin ours = ok satisfied
  admit_node_graph (legacy_v1 pinned) ours =
      if same_list pinned ours.build_fingerprint
      then ok (migrate (record (describing ours) { accepted = hex pinned ∷ [] }))
      else err (legacy_pin_mismatch pinned ours.build_fingerprint)
  admit_node_graph (v2 pin) ours = admit_record pin ours

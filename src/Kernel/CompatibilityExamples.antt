-- ===== src/Kernel/CompatibilityExamples.antt =====
-- The admission of a runtime with one kind by the pin of a smaller ontology.
use exocortex.Common.{
  ◌≤◌, ◌≡◌, ◌⊎◌, refl, String, true, false, none, some, List, [], ◌∷◌, ok, length, any, every, take,
  arith, Bytes, str_eq, lookup, insert, same_list,
}
use exocortex.Kernel.Compatibility.{
  KindSummary, OntologySummary, Runtime, PinnedOntology, same_summary, is_subset_of, is_prefix,
  is_subset, merged, triple_covered, same_rows, hex, max_accepted_fingerprints, satisfied, advance,
  describing, admit_record, bounded_accepted, push_accepted,
}
use exocortex.Kernel.Compatibility.Upgrades.{is_subset_of_trans}
use exocortex.Kernel.Compatibility.Pins.{distinct_after, admit_record-advances}

abbrev solves_row : KindSummary
solves_row = record {
  id = 0;
  name = "SOLVES";
  bucket = 0;
  bucket_extension = 0;
  inverse = none;
  bidirectional = false;
  default_strength = 5;
  computed_only = false;
}

abbrev summary_of : List String → List KindSummary → OntologySummary
summary_of types kinds = record {
  memory_types = types;
  entity_types = [];
  kinds = kinds;
  type_triples = record { kind = 0; from_types = some (0 ∷ []); to_types = none } ∷ [];
  rule_ids = [];
  actions = [];
  functions = [];
}

abbrev small : OntologySummary
small = summary_of ("note" ∷ []) []

abbrev larger : OntologySummary
larger = summary_of ("note" ∷ "problem" ∷ []) (solves_row ∷ [])

abbrev largest : OntologySummary
largest = summary_of ("note" ∷ "problem" ∷ "solution" ∷ []) (solves_row ∷ [])

small-larger : is_subset_of small larger ≡ true
unfolding is_prefix every any merged is_subset triple_covered lookup insert same_list
small-larger = refl

larger-largest : is_subset_of larger largest ≡ true
unfolding is_prefix every any merged is_subset triple_covered lookup insert same_list
larger-largest = refl

is_subset_of_trans_example : is_subset_of small largest ≡ true
is_subset_of_trans_example = is_subset_of_trans small larger largest small-larger larger-largest

abbrev fingerprint_of : OntologySummary → Bytes
fingerprint_of s = length s.memory_types ∷ []

abbrev ours : Runtime
ours = record { fingerprint = 2 ∷ []; build_fingerprint = 9 ∷ []; summary = larger }

abbrev pin : PinnedOntology
pin = record {
  scheme = 2;
  compatibility = "01";
  build = "08";
  summary = small;
  accepted = "aa" ∷ [];
}

abbrev advanced : PinnedOntology
advanced = record (describing ours) { accepted = "01" ∷ "aa" ∷ [] }

pin_advances : admit_record fingerprint_of pin ours ≡ ok (advance advanced)
unfolding admit_record hex same_rows is_prefix every any merged is_subset triple_covered lookup
    insert same_list bounded_accepted push_accepted
pin_advances = refl

admit_record-advances_example :
    (admit_record fingerprint_of advanced ours ≡ ok satisfied)
    × (length advanced.accepted ≤ max_accepted_fingerprints)
    × (((same_summary small larger ≡ true) × (advanced.accepted ≡ pin.accepted))
        ⊎ ((is_subset_of small larger ≡ true)
            × (any (str_eq "01") advanced.accepted ≡ true)
            × (advanced.accepted
                ≡ take max_accepted_fingerprints (distinct_after [] ("01" ∷ "aa" ∷ [])))))
admit_record-advances_example =
    admit_record-advances fingerprint_of pin advanced ours refl (omega arith) pin_advances

-- ===== src/Storage/Samples.antt =====
-- What the examples on the store in memory share: a store that is empty at the start, a memory, a lease,
-- a discovery.
use Prim.Native.String.{◌++◌ as str_append, count}
use text.Mathlib.TextLemmas.{length-append as count-append}
use exocortex.Common.{
  ℕ, zero, suc, ◌+◌, ◌≡◌, refl, sym, ap, ◌∙◌, String, none, List, Result, ok, [], arith,
}
use exocortex.Kernel.Visibility.{team}
use exocortex.Kernel.Ontology.{Ontology, no_names}
use exocortex.Storage.Rows.{Memory, StorageError, cleanup}
use exocortex.Storage.Discovery.{DiscoveryRecord}
use exocortex.Storage.InMemory.{Graph}
use exocortex.Storage.Leases.{OwnerLease, acquire_lease}
use exocortex.Storage.Store.{Store}

abbrev pub tally : ℕ → String
tally zero = ""
tally (suc n) = str_append "|" (tally n)

count-tally : (n : ℕ) → count (tally n) ≡ n
count-tally zero = refl
count-tally (suc n) = count-append "|" (tally n) ∙ ap (λ m. 1 + m) (count-tally n) ∙ omega arith

pub tally-distinct : (m n : ℕ) → tally m ≡ tally n → m ≡ n
tally-distinct m n e = sym (count-tally m) ∙ ap count e ∙ count-tally n

abbrev pub no_kinds : Ontology
no_kinds = record {
  packs = [];
  kinds_by_id = [];
  triples_by_kind = [];
  memory_types = no_names;
  entity_types = no_names;
}

abbrev pub note : ℕ → Memory
note id = record {
  id = id;
  memory_type = 0;
  title = "a";
  content = "b";
  summary = none;
  tags = [];
  visibility = team;
  provenance = 0;
  context = record {
    timestamp = 0;
    project_id = none;
    project_path = none;
    team_id = none;
    tenant_id = none;
    session_id = none;
    user_id = none;
    created_by = none;
    files_involved = [];
    languages = [];
    frameworks = [];
    technologies = [];
    git_commit = none;
    git_branch = none;
    working_directory = none;
    entities = [];
    additional_metadata = "{}";
  };
  importance = 0;
  confidence = 0;
  effectiveness = none;
  usage_count = 0;
  valid_from = 0;
  valid_until = none;
  recorded_at = 0;
  invalidated_by = none;
  embedding = none;
  lsn = 0;
  rights = none;
}

abbrev pub blank : Graph
blank = record { lsn = 0; memories = []; rels = []; rels_by_node = []; feed = [] }

abbrev pub empty : Store
empty = record {
  graph = blank;
  lease_table = record { leases = []; lease_epochs = [] };
  ingest = record { settled_ingest = []; ingest_effects = []; ingest_effect_generation = 0 };
  governed_imports = [];
  board = record { proposals = []; discoveries = []; audits = [] };
  cycles = record { cycle_journals = []; succeeded_cycles = [] };
}

abbrev pub lead : DiscoveryRecord
lead = record {
  discovery_id = "d";
  region = record { org = "o"; project = "p"; memory_type = 0 };
  from = 7;
  to = 8;
  discovery_type = "link";
  quality = 0;
  via_types = [];
  discovery_cycle_id = "c";
  discovered_at = 90;
}

abbrev pub lease_at : ℕ → ℕ → OwnerLease
lease_at epoch now = record {
  key = cleanup "o";
  owner_node_id = "in-memory";
  epoch = epoch;
  acquired_at = now;
  expires_at = now + 5;
  grace_period = 10;
  fencing_token = tally epoch;
}

abbrev pub held_first : Store
held_first = record empty {
  lease_table = (acquire_lease tally 10 empty.lease_table (cleanup "o") 5 100).0;
}

-- A digest of every settlement.
abbrev pub one_digest : List DiscoveryRecord → Result StorageError String
one_digest ds = ok "x"

-- ===== src/Storage/InMemory.antt =====
-- crates/exocortex-storage/src/in_memory.rs: the graph that the store in memory holds, and the
-- operations that write it. The mutation gate makes an operation one step from a graph to a graph and
-- a result; an event is sent in the step of its operation. The clock's reading is an argument.
pub mod History
pub mod Batches
pub mod Lsns
pub mod Written
use exocortex.Common.{
  ℕ, ◌+◌, Bool, true, false, not, ◌&&◌, ◌||◌, Option, none, some, List, [], ◌∷◌, ◌++◌, Result, ok,
  err, if◌then◌else◌, ◌==◌, any, map, Bytes, get_last?, lookup, insert, push, nat_key, HashKey,
}
use exocortex.Kernel.Draft.{MemoryId}
use exocortex.Kernel.Ontology.{Ontology}
use exocortex.Kernel.Relationship.{Relationship, RelationshipId, materialize_inverse}
use exocortex.Storage.Rows.{
  Memory, CommitRecord, Invalidation, memory_upserted, memory_deleted, relationship_upserted,
  relationship_deleted, discovery_available, StorageError, backend,
}

pub record Graph : Type 0 where
  pub lsn : ℕ
  pub memories : List (MemoryId × List Memory)
  pub rels : List (RelationshipId × List Relationship)
  pub rels_by_node : List (MemoryId × List RelationshipId)
  pub feed : List Invalidation

abbrev pub commit_record : ℕ → ℕ → CommitRecord
commit_record lsn now = record { lsn = lsn; committed_at = now; node_id = none; edge_id = none }

-- `HashSet::insert`
abbrev pub add_id : RelationshipId → List RelationshipId → List RelationshipId
add_id id ids = if any (λ i. i == id) ids then ids else ids ++ id ∷ []

abbrev pub ids_of : Option (List RelationshipId) → List RelationshipId
ids_of none = []
ids_of (some ids) = ids

unfoldable pub add_edge :
    RelationshipId
    → MemoryId
    → List (MemoryId × List RelationshipId)
    → List (MemoryId × List RelationshipId)
add_edge id node index = insert node (add_id id (ids_of (lookup node index))) index

unfoldable pub index_relationship : Graph → RelationshipId → MemoryId → MemoryId → Graph
index_relationship g id from to = record g {
  rels_by_node = add_edge id to (add_edge id from g.rels_by_node);
}

unfoldable pub index_invalidation : Graph → Invalidation → Graph
index_invalidation g (memory_upserted id lsn) = g
index_invalidation g (memory_deleted id lsn) = g
index_invalidation g (relationship_upserted id from to kind lsn) = index_relationship g id from to
index_invalidation g (relationship_deleted id lsn) = g
index_invalidation g (discovery_available found lsn) = g

-- `feed.send`
abbrev pub send : Graph → Invalidation → Graph
send g i = record g { feed = g.feed ++ i ∷ [] }

-- The loops that index and send the events of a batch.
unfoldable pub publish : Graph → List Invalidation → Graph
publish g [] = g
publish g (i ∷ is) = publish (send (index_invalidation g i) i) is

unfoldable pub upsert_memory : Graph → Memory → ℕ → Graph × Result StorageError CommitRecord
upsert_memory g m now =
    let lsn = g.lsn + 1 in
    let stored = record g { lsn = lsn; memories = push m.id (record m { lsn = lsn }) g.memories } in
    (send stored (memory_upserted m.id lsn), ok (commit_record lsn now))

-- The closed row that a deletion pushes, if there is a row.
abbrev pub close_memory :
    Option Memory → ℕ → ℕ → List (MemoryId × List Memory) → MemoryId → List (MemoryId × List Memory)
close_memory none lsn now memories id = memories
close_memory (some last) lsn now memories id =
    push id (record last { valid_until = some now; recorded_at = now; lsn = lsn }) memories

abbrev pub last_version : Option (List Memory) → Option Memory
last_version none = none
last_version (some versions) = get_last? versions

unfoldable pub delete_memory_locked : Graph → MemoryId → ℕ → Graph × CommitRecord
delete_memory_locked g id now =
    let lsn = g.lsn + 1 in
    (
      record g {
        lsn = lsn;
        memories = close_memory (last_version (lookup id g.memories)) lsn now g.memories id;
      },
      commit_record lsn now,
    )

unfoldable pub delete_memory : Graph → MemoryId → ℕ → Graph × Result StorageError CommitRecord
delete_memory g id now =
    let (h, rec) = delete_memory_locked g id now in (send h (memory_deleted id rec.lsn), ok rec)

unfoldable pub upsert_relationship_row_locked : Graph → Relationship → ℕ → Graph × CommitRecord
upsert_relationship_row_locked g r now =
    let lsn = g.lsn + 1 in
    let stored = record g { lsn = lsn; rels = push r.id (record r { lsn = lsn }) g.rels } in
    (
      send (index_relationship stored r.id r.from r.to)
          (relationship_upserted r.id r.from r.to r.kind lsn),
      commit_record lsn now,
    )

abbrev pub last_edge : Option (List Relationship) → Option Relationship
last_edge none = none
last_edge (some versions) = get_last? versions

abbrev pub is_open : Option ℕ → Bool
is_open none = true
is_open (some t) = false

-- `is_some_and(|cur| cur.valid_until.is_none())`
abbrev pub is_current : Option Relationship → Bool
is_current none = false
is_current (some r) = is_open r.valid_until

abbrev pub close_edge : Relationship → ℕ → ℕ → Relationship
close_edge last lsn now = record last { valid_until = some now; recorded_at = now; lsn = lsn }

abbrev pub delete_found :
    Graph → RelationshipId → ℕ → ℕ → Option Relationship → Graph × Result StorageError CommitRecord
delete_found g id lsn now none =
    (g, err (backend "delete_relationship: not found or already closed"))
delete_found g id lsn now (some last) =
    if is_open last.valid_until
    then (
      send (record g { rels = push id (close_edge last lsn now) g.rels })
          (relationship_deleted id lsn),
      ok (commit_record lsn now),
    )
    else (g, err (backend "delete_relationship: not found or already closed"))

-- The LSN is drawn before the row is looked for.
unfoldable pub delete_relationship :
    Graph → RelationshipId → ℕ → Graph × Result StorageError CommitRecord
delete_relationship g id now =
    delete_found (record g { lsn = g.lsn + 1 }) id (g.lsn + 1) now (last_edge (lookup id g.rels))

-- The variables of `upsert_batch_locked` while it stages a batch.
pub record Staged : Type 0 where
  pub next : ℕ
  pub memories : List (MemoryId × List Memory)
  pub rels : List (RelationshipId × List Relationship)
  pub records : List CommitRecord
  pub invalidations : List Invalidation
  pub seen_relationships : List RelationshipId

abbrev pub contains_node : MemoryId → List (MemoryId × List Memory) → Bool
contains_node id m = elim (lookup id m) [ none ↦ false | some v ↦ true ]

abbrev pub endpoint_missing : List (MemoryId × List Memory) → List Memory → Relationship → Bool
endpoint_missing staged ms r =
    (not (contains_node r.from staged) && not (any (λ (m : Memory). m.id == r.from) ms))
    || (not (contains_node r.to staged) && not (any (λ (m : Memory). m.id == r.to) ms))

unfoldable pub stage_memory : ℕ → Staged → Memory → Staged
stage_memory now s m =
    let next = s.next + 1 in
    record s {
      next = next;
      memories = push m.id (record m { lsn = next }) s.memories;
      records = s.records ++ commit_record next now ∷ [];
      invalidations = s.invalidations ++ memory_upserted m.id next ∷ [];
    }

unfoldable pub stage_edge : ℕ → Staged → Relationship → Staged
stage_edge now s r =
    let next = s.next + 1 in
    record s {
      next = next;
      rels = push r.id (record r { lsn = next }) s.rels;
      records = s.records ++ commit_record next now ∷ [];
      invalidations = s.invalidations ++ relationship_upserted r.id r.from r.to r.kind next ∷ [];
    }

-- The companion of an edge, unless its id was seen.
unfoldable pub stage_inverse : ℕ → Staged → Option Relationship → Staged
stage_inverse now s none = s
stage_inverse now s (some inv) =
    if any (λ i. i == inv.id) s.seen_relationships
    then s
    else stage_edge now (record s { seen_relationships = inv.id ∷ s.seen_relationships }) inv

unfoldable pub stage_memories : ℕ → Staged → List Memory → Staged
stage_memories now s [] = s
stage_memories now s (m ∷ ms) = stage_memories now (stage_memory now s m) ms

module _ (digest : Bytes → ℕ) (ontology : Ontology) where
  unfoldable pub stage_relationship : ℕ → Staged → Relationship → Staged
  stage_relationship now s r =
      stage_inverse now (stage_edge now s r)
        (materialize_inverse digest ontology (record r { lsn = s.next + 1 }))

  unfoldable pub stage_relationships : ℕ → Staged → List Relationship → Staged
  stage_relationships now s [] = s
  stage_relationships now s (r ∷ rs) = stage_relationships now (stage_relationship now s r) rs

  unfoldable pub stage_batch : Graph → List Memory → List Relationship → ℕ → Staged
  stage_batch g ms rs now =
      stage_relationships now
        (stage_memories now
          (record {
            next = g.lsn;
            memories = g.memories;
            rels = g.rels;
            records = [];
            invalidations = [];
            seen_relationships = map (λ (r : Relationship). r.id) rs;
          })
          ms)
        rs

  unfoldable pub upsert_batch_locked :
      Graph
      → List Memory
      → List Relationship
      → ℕ
      → Graph × Result StorageError (List CommitRecord × List Invalidation)
  upsert_batch_locked g ms rs now =
      let staged = stage_batch g ms rs now in
      if any (endpoint_missing g.memories ms) rs
      then (g, err (backend "relationship endpoint missing"))
      else (
        record g { lsn = staged.next; memories = staged.memories; rels = staged.rels },
        ok (staged.records, staged.invalidations),
      )

  abbrev pub publish_batch :
      Graph × Result StorageError (List CommitRecord × List Invalidation)
      → Graph × Result StorageError (List CommitRecord)
  publish_batch (g, ok (records, invalidations)) = (publish g invalidations, ok records)
  publish_batch (g, err e) = (g, err e)

  unfoldable pub upsert_batch :
      Graph → List Memory → List Relationship → ℕ → Graph × Result StorageError (List CommitRecord)
  upsert_batch g ms rs now = publish_batch (upsert_batch_locked g ms rs now)

  abbrev pub write_companion : Graph → ℕ → Option Relationship → Graph
  write_companion g now none = g
  write_companion g now (some inv) =
      if is_current (last_edge (lookup inv.id g.rels))
      then g
      else (upsert_relationship_row_locked g inv now).0

  unfoldable pub upsert_relationship :
      Graph → Relationship → ℕ → Graph × Result StorageError CommitRecord
  upsert_relationship g r now =
      let (h, rec) = upsert_relationship_row_locked g r now in
      (write_companion h now (materialize_inverse digest ontology r), ok rec)

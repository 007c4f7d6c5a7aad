-- ===== src/Storage/Journal.antt =====
-- The journals of owner cycles: `FencedRestore` and `CycleJournalRecord` of
-- crates/exocortex-storage/src/types.rs, and the tables of in_memory.rs. The field `journal_key` is the
-- `lease_key` of the source.
use exocortex.Common.{
  ℕ, String, Bool, true, false, not, ◌&&◌, ◌≡◌, ◌↔◌, Option, none, some, List, [], ◌∷◌, ◌++◌,
  if◌then◌else◌, ◌==◌, any, arith, str_eq, eq_iff, HashKey, lookup,
}
use exocortex.Kernel.Relationship.{Relationship}
use exocortex.Storage.Rows.{Memory, LeaseKey, lease_key, same_lease, same_lease_iff}
use exocortex.Storage.Owned.{LsnMap, extend_owned}

pub record FencedRestore : Type 0 where
  pub memories : List Memory
  pub relationships : List Relationship
  pub created_memories : List Memory
  pub created_relationships : List Relationship
  pub owned_memory_lsns : LsnMap
  pub owned_relationship_lsns : LsnMap

abbrev pub no_restore : FencedRestore
no_restore = record {
  memories = [];
  relationships = [];
  created_memories = [];
  created_relationships = [];
  owned_memory_lsns = [];
  owned_relationship_lsns = [];
}

-- The loops of `merge` on rows: a row is added unless its id is there.
unfoldable pub merge_memories : List Memory → List Memory → List Memory
merge_memories ms [] = ms
merge_memories ms (n ∷ ns) =
    merge_memories (if any (λ (m : Memory). m.id == n.id) ms then ms else ms ++ n ∷ []) ns

unfoldable pub merge_relationships : List Relationship → List Relationship → List Relationship
merge_relationships rs [] = rs
merge_relationships rs (n ∷ ns) =
    merge_relationships (if any (λ (r : Relationship). r.id == n.id) rs then rs else rs ++ n ∷ [])
      ns

unfoldable pub merge : FencedRestore → FencedRestore → FencedRestore
merge r other = record {
  memories = merge_memories r.memories other.memories;
  relationships = merge_relationships r.relationships other.relationships;
  created_memories = merge_memories r.created_memories other.created_memories;
  created_relationships = merge_relationships r.created_relationships other.created_relationships;
  owned_memory_lsns = extend_owned r.owned_memory_lsns other.owned_memory_lsns;
  owned_relationship_lsns = extend_owned r.owned_relationship_lsns other.owned_relationship_lsns;
}

pub data CycleJournalState : Type 0 where
  active completed : CycleJournalState

abbrev pub is_active : CycleJournalState → Bool
is_active active = true
is_active completed = false

pub record CycleJournalRecord : Type 0 where
  pub cycle_id : String
  pub journal_key : LeaseKey
  pub lease_epoch : ℕ
  pub restore : FencedRestore
  pub state : CycleJournalState

abbrev pub CycleKey : Type 0
CycleKey = LeaseKey × String

abbrev pub same_cycle : CycleKey → CycleKey → Bool
same_cycle a b = same_lease a.0 b.0 && str_eq a.1 b.1

pub same_cycle_iff : (a b : CycleKey) → (same_cycle a b ≡ true) ↔ (a ≡ b)
same_cycle_iff a b = ground (arith, same_lease_iff a.0 b.0, eq_iff a.1 b.1)

instance abbrev pub cycle_key : HashKey CycleKey
cycle_key = record { same = same_cycle; same_iff = same_cycle_iff }

pub record Cycles : Type 0 where
  pub cycle_journals : List (LeaseKey × CycleJournalRecord)
  pub succeeded_cycles : List (CycleKey × String)

-- An active journal of another cycle.
abbrev pub is_foreign : String → Option CycleJournalRecord → Bool
is_foreign cycle_id none = false
is_foreign cycle_id (some j) = is_active j.state && not (str_eq j.cycle_id cycle_id)

abbrev pub if_active : Option CycleJournalRecord → Option CycleJournalRecord
if_active none = none
if_active (some j) = if is_active j.state then some j else none

unfoldable pub get_active_cycle_journal : Cycles → LeaseKey → Option CycleJournalRecord
get_active_cycle_journal c key = if_active (lookup key c.cycle_journals)

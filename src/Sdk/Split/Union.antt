-- ===== src/Sdk/Split/Union.antt =====
-- The union-find of split.rs, and the components that it gathers.
use Prim.Native.Nat.{Ordering}
use Prim.Native.String.{compare}
use exocortex.Common.{
  ℕ, zero, suc, String, Bool, true, false, Option, none, some, List, [], ◌∷◌, ◌++◌, Result, ok, err,
  if◌then◌else◌, str_eq, ◌>>=◌, string_key, lookup, insert,
}
use exocortex.Sdk.Rows.{DraftMemory, RelationshipDraft, BatchUnit, SdkError, halted}

abbrev pub is_gt : Ordering → Bool
is_gt Ordering.gt = true
is_gt o = false

abbrev pub Parents : Type 0
Parents = List (String × String)

-- `parent[k]`
abbrev pub index_parent : Option String → Result SdkError String
index_parent none = err halted
index_parent (some p) = ok p

-- The first loop of `find`: up to the root.
unfoldable pub climb : ℕ → String → Parents → Result SdkError String
climb zero cur parent = err halted
climb (suc fuel) cur parent = index_parent (lookup cur parent) >>= λ next.
    if str_eq next cur then ok cur else climb fuel next parent

-- Its second loop, the path compression.
unfoldable pub compress : ℕ → String → String → Parents → Result SdkError Parents
compress zero walk root parent = err halted
compress (suc fuel) walk root parent =
    if str_eq walk root
    then ok parent
    else (index_parent (lookup walk parent) >>= λ next.
        compress fuel next root (insert walk root parent))

unfoldable pub find : ℕ → String → Parents → Result SdkError (String × Parents)
find fuel k parent = do
  root ← climb fuel k parent
  compressed ← compress fuel k root parent
  ok (root, compressed)

unfoldable pub initial_parents : List DraftMemory → Parents → Parents
initial_parents [] parent = parent
initial_parents (m ∷ ms) parent = initial_parents ms (insert m.draft_key m.draft_key parent)

-- One pass of the loop over the edges.
unfoldable pub weld : ℕ → RelationshipDraft → Parents → Result SdkError Parents
weld fuel r parent = do
  (a, p) ← find fuel r.from_draft_key parent
  (b, q) ← find fuel r.to_draft_key p
  ok (if str_eq a b then q else insert a b q)

unfoldable pub weld_all : ℕ → List RelationshipDraft → Parents → Result SdkError Parents
weld_all fuel [] parent = ok parent
weld_all fuel (r ∷ rs) parent = weld fuel r parent >>= λ p. weld_all fuel rs p

pub record Component : Type 0 where
  pub memories : List DraftMemory
  pub relationships : List RelationshipDraft

abbrev pub Components : Type 0
Components = List (String × Component)

abbrev pub no_component : Component
no_component = record { memories = []; relationships = [] }

abbrev pub is_absent : Option Component → Bool
is_absent none = true
is_absent (some c) = false

-- A new component_entry of the `BTreeMap`, in the order of its keys.
unfoldable pub insert_component : String → Component → Components → Components
insert_component k c [] = (k, c) ∷ []
insert_component k c ((j, d) ∷ m) =
    let rest = insert_component k c m in
    if is_gt (compare k j) then (j, d) ∷ rest else (k, c) ∷ (j, d) ∷ m

unfoldable pub modify_component : String → (Component → Component) → Components → Components
modify_component k f [] = []
modify_component k f ((j, d) ∷ m) =
    let rest = modify_component k f m in if str_eq j k then (j, f d) ∷ m else (j, d) ∷ rest

-- `entry(root).or_default()`, and a change of what it gives.
abbrev pub component_entry : String → (Component → Component) → Components → Components
component_entry k f m =
    modify_component k f (if is_absent (lookup k m) then insert_component k no_component m else m)

abbrev pub add_memory : DraftMemory → Component → Component
add_memory m c = record c { memories = c.memories ++ m ∷ [] }

abbrev pub add_relationship : RelationshipDraft → Component → Component
add_relationship r c = record c { relationships = c.relationships ++ r ∷ [] }

unfoldable pub gather_memories :
    ℕ → List DraftMemory → Parents × Components → Result SdkError (Parents × Components)
gather_memories fuel [] s = ok s
gather_memories fuel (m ∷ ms) s = do
  (root, p) ← find fuel m.draft_key s.0
  gather_memories fuel ms (p, component_entry root (add_memory m) s.1)

unfoldable pub gather_relationships :
    ℕ → List RelationshipDraft → Parents × Components → Result SdkError (Parents × Components)
gather_relationships fuel [] s = ok s
gather_relationships fuel (r ∷ rs) s = do
  (root, p) ← find fuel r.from_draft_key s.0
  gather_relationships fuel rs (p, component_entry root (add_relationship r) s.1)

unfoldable pub gather : ℕ → BatchUnit → Result SdkError Components
gather fuel u = do
  p ← weld_all fuel u.relationships (initial_parents u.memories [])
  s ← gather_memories fuel u.memories (p, [])
  t ← gather_relationships fuel u.relationships s
  ok t.1

-- ===== src/Storage/InMemory/History.antt =====
-- The store in memory only ever adds to its histories.
use mathlib.Core.List.{append_assoc, append-nil}
use exocortex.Common.{
  ℕ, ◌+◌, ◌≤◌, ◌<◌, ◌≡◌, refl, sym, ap, subst, ◌∙◌, Bool-cases, inl, inr, Option, none, some, List,
  [], ◌∷◌, ◌++◌, ◌==◌, arith, nat_key, lookup, push, history, history-push, ==_iff,
}
use exocortex.Kernel.Draft.{MemoryId}
use exocortex.Kernel.Relationship.{Relationship, RelationshipId}
use exocortex.Storage.Rows.{
  Memory, Invalidation, memory_upserted, memory_deleted, relationship_upserted,
  relationship_deleted, discovery_available,
}
use exocortex.Storage.InMemory.{
  Graph, index_relationship, index_invalidation, send, is_open, publish, upsert_memory,
  close_memory, last_version, delete_memory_locked, delete_memory, upsert_relationship_row_locked,
  last_edge, delete_found, delete_relationship, close_edge,
}

-- The LSNs of the rows ascend, from above `lo` to at most `hi`.
abbrev pub Ascends {ℓ} : {V : Type ℓ} → (V → ℕ) → ℕ → ℕ → List V → Type 0
Ascends lsn_of lo hi [] = lo ≤ hi
Ascends lsn_of lo hi (v ∷ vs) = (lo < lsn_of v) × Ascends lsn_of (lsn_of v) hi vs

-- Every history of `m` is the beginning of the one in `n`, and the LSNs of what follows ascend.
abbrev pub Extends {ℓ} :
    {V : Type ℓ} → (V → ℕ) → ℕ → ℕ → List (ℕ × List V) → List (ℕ × List V) → Type ℓ
Extends {V} lsn_of lo hi m n =
    (k : ℕ) → (new : List V) × (history k n ≡ history k m ++ new) × Ascends lsn_of lo hi new

module _ {ℓ} {V : Type ℓ} (lsn_of : V → ℕ) where
  pub Ascends-le : (lo hi : ℕ) (vs : List V) → Ascends lsn_of lo hi vs → lo ≤ hi
  Ascends-le lo hi [] h = h
  Ascends-le lo hi (v ∷ vs) h = omega (arith, h.0, Ascends-le (lsn_of v) hi vs h.1)

  pub Ascends-from :
      (lo mid hi : ℕ) (vs : List V) → lo ≤ mid → Ascends lsn_of mid hi vs → Ascends lsn_of lo hi vs
  Ascends-from lo mid hi [] le h = omega (arith, le, h)
  Ascends-from lo mid hi (v ∷ vs) le h = (omega (arith, le, h.0), h.1)

  pub Ascends-append :
      (lo mid hi : ℕ) (us vs : List V)
      → Ascends lsn_of lo mid us
      → Ascends lsn_of mid hi vs
      → Ascends lsn_of lo hi (us ++ vs)
  Ascends-append lo mid hi [] vs a b = Ascends-from lo mid hi vs a b
  Ascends-append lo mid hi (u ∷ us) vs a b = (a.0, Ascends-append (lsn_of u) mid hi us vs a.1 b)

module _ {ℓ} {V : Type ℓ} {lsn_of : V → ℕ} where
  pub Extends-refl : {lo hi : ℕ} (m : List (ℕ × List V)) → lo ≤ hi → Extends lsn_of lo hi m m
  Extends-refl m le k = ([], sym (append-nil (history k m)), le)

  pub Extends-trans :
      {lo mid hi : ℕ} (l m n : List (ℕ × List V))
      → Extends lsn_of lo mid l m
      → Extends lsn_of mid hi m n
      → Extends lsn_of lo hi l n
  Extends-trans {lo = lo} {mid = mid} {hi = hi} l m n f g k =
      let (a, e, x) = f k in
      let (b, h, y) = g k in
      (
        a ++ b,
        h ∙ ap (λ xs. xs ++ b) e ∙ append_assoc (history k l) a b,
        Ascends-append lsn_of lo mid hi a b x y,
      )

  pub push-Extends :
      {lo hi : ℕ} (k : ℕ) (v : V) (m : List (ℕ × List V))
      → lo < lsn_of v
      → lsn_of v ≤ hi
      → Extends lsn_of lo hi m (push k v m)
  push-Extends k v m above below j = elim (Bool-cases (k == j)) [
    | inl here ↦
        let e : k ≡ j = (==_iff k j).0 here in
        (v ∷ [], history-push j k v m ∙ rw here (ap (λ i. history i m ++ v ∷ []) e), (above, below))
    | inr other ↦ (
      [],
      history-push j k v m ∙ rw other (sym (append-nil (history j m))),
      omega (arith, above, below),
    )
  ]

abbrev pub memory_lsn : Memory → ℕ
memory_lsn m = m.lsn

abbrev pub edge_lsn : Relationship → ℕ
edge_lsn r = r.lsn

-- What a write keeps: histories only grow, and so does the LSN.
pub record Grows (g h : Graph) : Type 0 where
  pub memories : Extends memory_lsn g.lsn h.lsn g.memories h.memories
  pub rels : Extends edge_lsn g.lsn h.lsn g.rels h.rels
  pub lsn : g.lsn ≤ h.lsn

pub Grows-refl : (g : Graph) → Grows g g
Grows-refl g = record {
  memories = Extends-refl g.memories (omega arith);
  rels = Extends-refl g.rels (omega arith);
  lsn = omega arith;
}

pub Grows-trans : (f g h : Graph) → Grows f g → Grows g h → Grows f h
Grows-trans f g h a b = record {
  memories = Extends-trans f.memories g.memories h.memories a.memories b.memories;
  rels = Extends-trans f.rels g.rels h.rels a.rels b.rels;
  lsn = omega (arith, a.lsn, b.lsn);
}

index_invalidation-Grows : (g : Graph) (i : Invalidation) → Grows g (index_invalidation g i)
unfolding index_invalidation index_relationship
index_invalidation-Grows g (memory_upserted id lsn) = Grows-refl g
index_invalidation-Grows g (memory_deleted id lsn) = Grows-refl g
index_invalidation-Grows g (relationship_upserted id from to kind lsn) = record {
  memories = Extends-refl g.memories (omega arith);
  rels = Extends-refl g.rels (omega arith);
  lsn = omega arith;
}
index_invalidation-Grows g (relationship_deleted id lsn) = Grows-refl g
index_invalidation-Grows g (discovery_available found lsn) = Grows-refl g

pub send-Grows : (g : Graph) (i : Invalidation) → Grows g (send g i)
send-Grows g i = record {
  memories = Extends-refl g.memories (omega arith);
  rels = Extends-refl g.rels (omega arith);
  lsn = omega arith;
}

pub publish-Grows : (g : Graph) (is : List Invalidation) → Grows g (publish g is)
unfolding publish
publish-Grows g [] = Grows-refl g
publish-Grows g (i ∷ is) =
    let indexed = index_invalidation g i in
    Grows-trans g (send indexed i) (publish (send indexed i) is)
      (Grows-trans g indexed (send indexed i) (index_invalidation-Grows g i) (send-Grows indexed i))
      (publish-Grows (send indexed i) is)

-- Publishing changes no row.
index_invalidation-rows :
    (g : Graph) (i : Invalidation)
    → ((index_invalidation g i).memories ≡ g.memories) × ((index_invalidation g i).rels ≡ g.rels)
unfolding index_invalidation index_relationship
index_invalidation-rows g (memory_upserted id lsn) = (refl, refl)
index_invalidation-rows g (memory_deleted id lsn) = (refl, refl)
index_invalidation-rows g (relationship_upserted id from to kind lsn) = (refl, refl)
index_invalidation-rows g (relationship_deleted id lsn) = (refl, refl)
index_invalidation-rows g (discovery_available found lsn) = (refl, refl)

pub publish-rows :
    (g : Graph) (is : List Invalidation)
    → ((publish g is).memories ≡ g.memories) × ((publish g is).rels ≡ g.rels)
unfolding publish
publish-rows g [] = (refl, refl)
publish-rows g (i ∷ is) =
    let rest = publish-rows (send (index_invalidation g i) i) is in
    let one = index_invalidation-rows g i in (rest.0 ∙ one.0, rest.1 ∙ one.1)

pub upsert_memory-Grows : (g : Graph) (m : Memory) (now : ℕ) → Grows g (upsert_memory g m now).0
unfolding upsert_memory
upsert_memory-Grows g m now = record {
  memories =
      push-Extends m.id (record m { lsn = g.lsn + 1 }) g.memories (omega arith) (omega arith);
  rels = Extends-refl g.rels (omega arith);
  lsn = omega arith;
}

close_memory-Extends :
    (o : Option Memory) (lsn now : ℕ) (m : List (MemoryId × List Memory)) (id : MemoryId)
    → Extends memory_lsn lsn (lsn + 1) m (close_memory o (lsn + 1) now m id)
close_memory-Extends none lsn now m id = Extends-refl m (omega arith)
close_memory-Extends (some last) lsn now m id =
    push-Extends id (record last { valid_until = some now; recorded_at = now; lsn = lsn + 1 }) m
      (omega arith) (omega arith)

pub delete_memory_locked-Grows :
    (g : Graph) (id : MemoryId) (now : ℕ) → Grows g (delete_memory_locked g id now).0
unfolding delete_memory_locked
delete_memory_locked-Grows g id now = record {
  memories = close_memory-Extends (last_version (lookup id g.memories)) g.lsn now g.memories id;
  rels = Extends-refl g.rels (omega arith);
  lsn = omega arith;
}

pub delete_memory-Grows : (g : Graph) (id : MemoryId) (now : ℕ) → Grows g (delete_memory g id now).0
unfolding delete_memory
delete_memory-Grows g id now =
    let (h, rec) = delete_memory_locked g id now in
    Grows-trans g (delete_memory_locked g id now).0 _ (delete_memory_locked-Grows g id now) (
      send-Grows (delete_memory_locked g id now).0
        (memory_deleted id (delete_memory_locked g id now).1.lsn))

pub row-Grows :
    (g : Graph) (r : Relationship) (now : ℕ) → Grows g (upsert_relationship_row_locked g r now).0
unfolding upsert_relationship_row_locked index_relationship
row-Grows g r now = record {
  memories = Extends-refl g.memories (omega arith);
  rels = push-Extends r.id (record r { lsn = g.lsn + 1 }) g.rels (omega arith) (omega arith);
  lsn = omega arith;
}

-- An LSN that is drawn and not used.
pub draw-Grows : (g : Graph) → Grows g (record g { lsn = g.lsn + 1 })
draw-Grows g = record {
  memories = Extends-refl g.memories (omega arith);
  rels = Extends-refl g.rels (omega arith);
  lsn = omega arith;
}

delete_found-Grows :
    (g : Graph) (id : RelationshipId) (now : ℕ) (o : Option Relationship)
    → Grows g (delete_found (record g { lsn = g.lsn + 1 }) id (g.lsn + 1) now o).0
delete_found-Grows g id now none = draw-Grows g
delete_found-Grows g id now (some last) = elim (Bool-cases (is_open last.valid_until)) [
  | inl open_row ↦ rw open_row (record {
    memories = Extends-refl g.memories (omega arith);
    rels = push-Extends id (close_edge last (g.lsn + 1) now) g.rels (omega arith) (omega arith);
    lsn = omega arith;
  })
  | inr closed ↦ rw closed (draw-Grows g)
]

pub delete_relationship-Grows :
    (g : Graph) (id : RelationshipId) (now : ℕ) → Grows g (delete_relationship g id now).0
unfolding delete_relationship
delete_relationship-Grows g id now = delete_found-Grows g id now (last_edge (lookup id g.rels))

-- The LSNs along each history ascend, and the graph's LSN has reached them.
pub record IsAscending (g : Graph) : Type 0 where
  pub memories : (k : ℕ) → Ascends memory_lsn 0 g.lsn (history k g.memories)
  pub rels : (k : ℕ) → Ascends edge_lsn 0 g.lsn (history k g.rels)

pub IsAscending-Grows : (g h : Graph) → Grows g h → IsAscending g → IsAscending h
IsAscending-Grows g h grown a = record {
  memories = λ k.
      let (new, e, x) = grown.memories k in
      subst (Ascends memory_lsn 0 h.lsn) (sym e)
        (Ascends-append memory_lsn 0 g.lsn h.lsn (history k g.memories) new (a.memories k) x);
  rels = λ k.
      let (new, e, x) = grown.rels k in
      subst (Ascends edge_lsn 0 h.lsn) (sym e)
        (Ascends-append edge_lsn 0 g.lsn h.lsn (history k g.rels) new (a.rels k) x);
}

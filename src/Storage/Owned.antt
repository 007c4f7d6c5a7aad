-- ===== src/Storage/Owned.antt =====
-- The maps from ids to sets of LSNs in crates/exocortex-storage/src/types.rs (`FencedBatchCommit`,
-- `FencedRestore`): B-trees of B-tree sets.
use exocortex.Common.{
  ℕ, ◌≡◌, refl, ◌∙◌, Bool-cases, inl, inr, Bool, true, ◌&&◌, ◌||◌, List, [], ◌∷◌, if◌then◌else◌,
  ltb, ◌==◌, any, arith, nat_key, lookup, or_nil, insert_sorted,
}

abbrev pub LsnMap : Type 0
LsnMap = List (ℕ × List ℕ)

-- `BTreeSet::insert`
unfoldable pub add_lsn : ℕ → List ℕ → List ℕ
add_lsn lsn [] = lsn ∷ []
add_lsn lsn (n ∷ ns) =
    let rest = add_lsn lsn ns in
    if ltb lsn n then lsn ∷ n ∷ ns else if lsn == n then n ∷ ns else n ∷ rest

unfoldable pub add_lsns : List ℕ → List ℕ → List ℕ
add_lsns [] ns = ns
add_lsns (l ∷ ls) ns = add_lsns ls (add_lsn l ns)

-- `entry(id).or_default().extend(lsns)`
unfoldable pub own : ℕ → List ℕ → LsnMap → LsnMap
own id lsns m = insert_sorted id (add_lsns lsns (or_nil (lookup id m))) m

unfoldable pub extend_owned : LsnMap → LsnMap → LsnMap
extend_owned m [] = m
extend_owned m ((id, lsns) ∷ rest) = extend_owned (own id lsns m) rest

abbrev pub has_lsn : ℕ → List ℕ → Bool
has_lsn lsn lsns = any (λ n. n == lsn) lsns

-- The LSN stands at the id.
abbrev pub owns : LsnMap → ℕ → ℕ → Bool
owns m id lsn = any (λ (e : ℕ × List ℕ). e.0 == id && has_lsn lsn e.1) m

has_lsn-add_lsn : (l n : ℕ) (ns : List ℕ) → has_lsn l (add_lsn n ns) ≡ (n == l || has_lsn l ns)
unfolding any add_lsn
has_lsn-add_lsn l n [] = refl
has_lsn-add_lsn l n (m ∷ ns) = ground (arith, has_lsn-add_lsn l n ns)

has_lsn-add_lsns :
    (l : ℕ) (ms ns : List ℕ) → has_lsn l (add_lsns ms ns) ≡ (has_lsn l ms || has_lsn l ns)
unfolding any add_lsns
has_lsn-add_lsns l [] ns = refl
has_lsn-add_lsns l (m ∷ ms) ns =
    ground (arith, has_lsn-add_lsns l ms (add_lsn m ns), has_lsn-add_lsn l m ns)

owns-lookup : (k l : ℕ) (m : LsnMap) → has_lsn l (or_nil (lookup k m)) ≡ true → owns m k l ≡ true
unfolding lookup any
owns-lookup k l [] h = cc
owns-lookup k l ((j, w) ∷ m) h = elim (Bool-cases (j == k)) [
  | inl same ↦ ground (arith, rw same at h, same)
  | inr other ↦ ground (arith, owns-lookup k l m (rw other at h))
]

owns-insert_sorted :
    (i l k : ℕ) (v : List ℕ) (m : LsnMap)
    → (has_lsn l (or_nil (lookup k m)) ≡ true → has_lsn l v ≡ true)
    → owns (insert_sorted k v m) i l ≡ (owns m i l || (k == i && has_lsn l v))
unfolding lookup any insert_sorted
owns-insert_sorted i l k v [] f = ground arith
owns-insert_sorted i l k v ((j, w) ∷ m) f = elim (Bool-cases (j == k)) [
  | inl same ↦ ground (arith, same, rw same at f)
  | inr other ↦ ground (arith, other, owns-insert_sorted i l k v m (rw other at f))
]

pub owns-own :
    (i l k : ℕ) (ns : List ℕ) (m : LsnMap)
    → owns (own k ns m) i l ≡ (owns m i l || (k == i && has_lsn l ns))
unfolding own
owns-own i l k ns m =
    let old = or_nil (lookup k m) in
    let joined = has_lsn-add_lsns l ns old in
    ground (
      arith,
      owns-insert_sorted i l k (add_lsns ns old) m (λ h. joined ∙ ground (arith, h)),
      joined,
      owns-lookup k l m,
    )

pub owns-extend_owned :
    (i l : ℕ) (m n : LsnMap) → owns (extend_owned m n) i l ≡ (owns m i l || owns n i l)
unfolding extend_owned any
owns-extend_owned i l m [] = ground arith
owns-extend_owned i l m ((id, lsns) ∷ rest) =
    ground (arith, owns-extend_owned i l (own id lsns m) rest, owns-own i l id lsns m)

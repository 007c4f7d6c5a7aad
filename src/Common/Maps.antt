-- ===== src/Common/Maps.antt =====
-- A hash map as an association list over a type with a Boolean equality.
use mathlib.Core.Path.{◌≡◌, refl}
use mathlib.Core.Logic.{◌↔◌}
use mathlib.Core.Bool.{Bool, true, false, ◌&&◌}
use mathlib.Core.List.{List, [], ◌∷◌, ◌++◌}
use mathlib.Core.Option.{Option, none, some}
use native.Mathlib.Omega.{arith}
use Prim.Native.Nat.{ℕ}
use Prim.Native.String.{String}
use text.Mathlib.Text.{◌==◌ as str_eq}
use text.Mathlib.TextEquality.{eq_iff}
use exocortex.Common.Tests.{if◌then◌else◌, ◌==◌, ==_iff, ltb}

pub record HashKey {ℓ} (K : Type ℓ) : Type ℓ where
  pub same : K → K → Bool
  pub same_iff : (j k : K) → (same j k ≡ true) ↔ (j ≡ k)

instance abbrev pub nat_key : HashKey ℕ
nat_key = record { same = ◌==◌; same_iff = ==_iff }

instance abbrev pub string_key : HashKey String
string_key = record { same = str_eq; same_iff = eq_iff }

module _ {ℓ κ} {K : Type ℓ} {V : Type κ} ⦃key : HashKey K⦄ where
  unfoldable pub lookup : K → List (K × V) → Option V
  lookup k [] = none
  lookup k ((j, v) ∷ m) = if key.same j k then some v else lookup k m

  unfoldable pub insert : K → V → List (K × V) → List (K × V)
  insert k v [] = (k, v) ∷ []
  insert k v ((j, w) ∷ m) =
      let rest = insert k v m in if key.same j k then (j, v) ∷ m else (j, w) ∷ rest

  -- Every entry of the key goes, where a map has at most one.
  unfoldable pub remove : K → List (K × V) → List (K × V)
  remove k [] = []
  remove k ((j, w) ∷ m) = let rest = remove k m in if key.same j k then rest else (j, w) ∷ rest

  pub lookup-insert :
      (j k : K) (v : V) (m : List (K × V))
      → lookup j (insert k v m) ≡ (if key.same k j then some v else lookup j m)
  unfolding lookup insert
  lookup-insert j k v [] = refl
  lookup-insert j k v ((i, w) ∷ m) =
      ground (arith, lookup-insert j k v m, key.same_iff i k, key.same_iff k j, key.same_iff i j)

  pub lookup-insert_here :
      (j k : K) (v : V) (m : List (K × V)) → key.same k j ≡ true → lookup j (insert k v m) ≡ some v
  lookup-insert_here j k v m h = ground (arith, h, lookup-insert j k v m)

  pub lookup-insert_there :
      (j k : K) (v : V) (m : List (K × V))
      → key.same k j ≡ false
      → lookup j (insert k v m) ≡ lookup j m
  lookup-insert_there j k v m h = ground (arith, h, lookup-insert j k v m)

  pub lookup-remove :
      (j k : K) (m : List (K × V))
      → lookup j (remove k m) ≡ (if key.same k j then none else lookup j m)
  unfolding lookup remove
  lookup-remove j k [] = ground arith
  lookup-remove j k ((i, w) ∷ m) =
      ground (arith, lookup-remove j k m, key.same_iff i k, key.same_iff k j, key.same_iff i j)

-- An entry of a map that keeps its numbers in order.
unfoldable pub insert_sorted {ℓ} : {V : Type ℓ} → ℕ → V → List (ℕ × V) → List (ℕ × V)
insert_sorted k v [] = (k, v) ∷ []
insert_sorted k v ((j, w) ∷ m) =
    let rest = insert_sorted k v m in
    if ltb k j then (k, v) ∷ (j, w) ∷ m else if k == j then (k, v) ∷ m else (j, w) ∷ rest

-- A map of lists, to which only its end is added.
abbrev pub or_nil {ℓ} : {V : Type ℓ} → Option (List V) → List V
or_nil none = []
or_nil (some vs) = vs

module _ {ℓ κ} {K : Type ℓ} {V : Type κ} ⦃key : HashKey K⦄ where
  -- The list at a key, empty where there is none.
  unfoldable pub history : K → List (K × List V) → List V
  history k m = or_nil (lookup k m)

  -- `entry(k).or_default().push(v)`
  unfoldable pub push : K → V → List (K × List V) → List (K × List V)
  push k v m = insert k (history k m ++ v ∷ []) m

  pub history-push :
      (j k : K) (v : V) (m : List (K × List V))
      → history j (push k v m) ≡ (if key.same k j then history k m ++ v ∷ [] else history j m)
  unfolding history push
  history-push j k v m = ground (arith, lookup-insert j k (or_nil (lookup k m) ++ v ∷ []) m)

-- The equality of vectors.
unfoldable pub same_list {ℓ} : {K : Type ℓ} → ⦃key : HashKey K⦄ → List K → List K → Bool
same_list [] [] = true
same_list [] (k ∷ ks) = false
same_list (j ∷ js) [] = false
same_list ⦃key⦄ (j ∷ js) (k ∷ ks) = key.same j k && same_list js ks

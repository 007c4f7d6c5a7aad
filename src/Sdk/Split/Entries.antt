-- ===== src/Sdk/Split/Entries.antt =====
-- The entries of the map of components in split.rs.
use exocortex.Common.{
  ◌≡◌, refl, ◌∙◌, Bool-cases, Option-cases, inl, inr, String, Option, none, some, [], ◌∷◌,
  if◌then◌else◌, str_eq, eq_iff, arith, All, string_key, lookup,
}
use Prim.Native.String.{compare}
use exocortex.Sdk.Split.{
  Component, Components, no_component, insert_component, modify_component, component_entry, is_gt,
}

abbrev pub or_no_rows : Option Component → Component
or_no_rows none = no_component
or_no_rows (some c) = c

abbrev change : (Component → Component) → Option Component → Option Component
change f none = none
change f (some c) = some (f c)

lookup-insert_component :
    (j k : String) (c : Component) (m : Components)
    → lookup k m ≡ none
    → lookup j (insert_component k c m) ≡ (if str_eq k j then some c else lookup j m)
unfolding lookup insert_component
lookup-insert_component j k c [] h = refl
lookup-insert_component j k c ((i, d) ∷ m) h =
    let rest : lookup k m ≡ none = ground (arith, h) in
    ground (arith, h, lookup-insert_component j k c m rest, eq_iff i k, eq_iff k j, eq_iff i j)

lookup-modify_component :
    (j k : String) (f : Component → Component) (m : Components)
    → lookup j (modify_component k f m) ≡ (if str_eq k j then change f (lookup k m) else lookup j m)
unfolding lookup modify_component
lookup-modify_component j k f [] = ground arith
lookup-modify_component j k f ((i, d) ∷ m) =
    ground (arith, lookup-modify_component j k f m, eq_iff i k, eq_iff k j, eq_iff i j)

pub lookup-component_entry :
    (j k : String) (f : Component → Component) (m : Components)
    → lookup j (component_entry k f m)
      ≡ (if str_eq k j then some (f (or_no_rows (lookup k m))) else lookup j m)
lookup-component_entry j k f m = elim (Option-cases (lookup k m)) [
  | inl absent ↦
      let new = insert_component k no_component m in
      let found : lookup k new ≡ some no_component =
        lookup-insert_component k k no_component m absent ∙ rw ((eq_iff k k).1 refl) refl in
      rw absent (
        lookup-modify_component j k f new
        ∙ rw found (ground (arith, lookup-insert_component j k no_component m absent)))
  | inr (c, found) ↦ rw found (lookup-modify_component j k f m ∙ rw found refl)
]

-- A property of every component.
abbrev pub AllRows : (Component → Type 0) → Components → Type 0
AllRows P m = All (λ (e : String × Component). P e.1) m

AllRows-insert_component :
    (P : Component → Type 0) (k : String) (c : Component) (m : Components)
    → P c
    → AllRows P m
    → AllRows P (insert_component k c m)
unfolding insert_component
AllRows-insert_component P k c [] h a = (h, tt)
AllRows-insert_component P k c ((j, d) ∷ m) h a = elim (Bool-cases (is_gt (compare k j))) [
  | inl gt ↦ rw gt (a.0, AllRows-insert_component P k c m h a.1)
  | inr le ↦ rw le (h, a)
]

pub AllRows-modify_component :
    (P : Component → Type 0) (k : String) (f : Component → Component) (m : Components)
    → ((c : Component) → lookup k m ≡ some c → P c → P (f c))
    → AllRows P m
    → AllRows P (modify_component k f m)
unfolding modify_component lookup
AllRows-modify_component P k f [] step a = tt
AllRows-modify_component P k f ((j, d) ∷ m) step a = elim (Bool-cases (str_eq j k)) [
  | inl same ↦ rw same (step d (rw same refl) a.0, a.1)
  | inr other ↦ rw other (a.0, AllRows-modify_component P k f m (λ c h. step c (rw other h)) a.1)
]

pub AllRows-component_entry :
    (P : Component → Type 0) (k : String) (f : Component → Component) (m : Components)
    → P no_component
    → ((c : Component) → P c → P (f c))
    → AllRows P m
    → AllRows P (component_entry k f m)
AllRows-component_entry P k f m none_yet step a = elim (Option-cases (lookup k m)) [
  | inl absent ↦ rw absent (
      AllRows-modify_component P k f (insert_component k no_component m) (λ c found. step c)
        (AllRows-insert_component P k no_component m none_yet a))
  | inr (c, found) ↦ rw found (AllRows-modify_component P k f m (λ c found. step c) a)
]

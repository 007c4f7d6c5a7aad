-- ===== src/Sdk/Split/Forest.antt =====
-- The parents of split.rs are a forest: `find` ends at the root, whatever it compresses on the way.
use exocortex.Common.{
  ℕ, zero, suc, ◌≤◌, ◌<◌, ◌≡◌, ◌⊎◌, inl, inr, refl, sym, ap, ◌∙◌, subst, Bool-cases, String, false,
  Option, some, ok, str_eq, eq_iff, arith, string_key, lookup, insert, lookup-insert_here,
  lookup-insert_there,
}
use exocortex.Sdk.Split.{Parents, climb, compress, find}

abbrev pub IsPresent : Parents → String → Type 0
IsPresent p k = (q : String) × (lookup k p ≡ some q)

-- A root is its own parent.
abbrev pub IsRoot : (String → String) → (String → ℕ) → Parents → String → Type 0
IsRoot root depth p r = (lookup r p ≡ some r) × (depth r ≡ 0) × (root r ≡ r)

-- A parent is nearer to the same root.
abbrev pub IsAbove : (String → String) → (String → ℕ) → Parents → String → String → Type 0
IsAbove root depth p k q =
    (str_eq q k ≡ false) × (depth q < depth k) × (root q ≡ root k) × IsPresent p q

-- Every key has a root, at most `n` steps away.
pub record Forest (n : ℕ) (root : String → String) (depth : String → ℕ) (p : Parents) : Type 0 where
  pub up :
      (k q : String)
      → lookup k p ≡ some q
      → ((q ≡ k) × (depth k ≡ 0) × (root k ≡ k)) ⊎ IsAbove root depth p k q
  pub bound : (k : String) → depth k ≤ n

pub IsPresent-insert : (p : Parents) (j k v : String) → IsPresent p j → IsPresent (insert k v p) j
IsPresent-insert p j k v (q, h) = elim (Bool-cases (str_eq k j)) [
  | inl same ↦ (v, lookup-insert_here j k v p same)
  | inr other ↦ (q, lookup-insert_there j k v p other ∙ h)
]

pub some_text : {a b : String} → Path (Option String) (some a) (some b) → a ≡ b
some_text h = cc

pub climb-Forest :
    (n fuel : ℕ) (root : String → String) (depth : String → ℕ) (p : Parents) (k : String)
    → Forest n root depth p
    → IsPresent p k
    → depth k < fuel
    → (climb fuel k p ≡ ok (root k)) × IsRoot root depth p (root k)
unfolding climb
climb-Forest n zero root depth p k f (q, h) lt = absurd (omega (arith, lt))
climb-Forest n (suc fuel) root depth p k f (q, h) lt = elim (f.up k q h) [
  | inl (same, top, own) ↦ (
    rw h (rw ((eq_iff q k).1 same) (ap ok (sym own))),
    subst (IsRoot root depth p) (sym own) (h ∙ ap some same, top, own),
  )
  | inr (other, lower, shared, above) ↦
      let (up, is_root) = climb-Forest n fuel root depth p q f above (omega (arith, lower, lt)) in
      (rw h (rw other (up ∙ ap ok shared)), subst (IsRoot root depth p) shared is_root)
]

-- What the path compression writes.
Forest-insert :
    (n : ℕ) (root : String → String) (depth : String → ℕ) (p : Parents) (k r : String)
    → Forest n root depth p
    → 0 < depth k
    → root k ≡ r
    → str_eq k r ≡ false
    → IsRoot root depth p r
    → Forest n root depth (insert k r p)
Forest-insert n root depth p k r f deep to_r other (h, top, own) = record {
  up = λ j x found. elim (Bool-cases (str_eq k j)) [
    | inl same ↦
        let k_j : k ≡ j = (eq_iff k j).0 same in
        let r_x : r ≡ x = some_text (sym (lookup-insert_here j k r p same) ∙ found) in
        inr (
          ground (arith, other, k_j, r_x, eq_iff x j, eq_iff k r),
          omega (arith, ap depth (sym r_x), top, deep, ap depth k_j),
          ap root (sym r_x) ∙ own ∙ sym to_r ∙ ap root k_j,
          subst (IsPresent (insert k r p)) r_x (IsPresent-insert p r k r (r, h)),
        )
    | inr apart ↦ elim (f.up j x (sym (lookup-insert_there j k r p apart) ∙ found)) [
      | inl at_root ↦ inl at_root
      | inr (differs, lower, shared, above) ↦
          inr (differs, lower, shared, IsPresent-insert p x k r above)
    ]
  ];
  bound = f.bound;
}

pub compress-Forest :
    (n fuel : ℕ) (root : String → String) (depth : String → ℕ) (p : Parents) (k r : String)
    → Forest n root depth p
    → IsPresent p k
    → depth k < fuel
    → root k ≡ r
    → IsRoot root depth p r
    → (q : Parents) × (compress fuel k r p ≡ ok q)
      × Forest n root depth q
      × ((j : String) → IsPresent p j → IsPresent q j)
unfolding compress
compress-Forest n zero root depth p k r f here lt to_r top = absurd (omega (arith, lt))
compress-Forest n (suc fuel) root depth p k r f (q, h) lt to_r top =
    elim (Bool-cases (str_eq k r)) [
      | inl same ↦ (p, rw same refl, f, λ j is. is)
      | inr other ↦ elim (f.up k q h) [
        | inl (own, low, itself) ↦ absurd (ground (arith, other, itself, to_r, eq_iff k r))
        | inr (differs, lower, shared, above) ↦
            let g = Forest-insert n root depth p k r f (omega (arith, lower)) to_r other top in
            let r_top : IsRoot root depth (insert k r p) r =
              (lookup-insert_there r k r p other ∙ top.0, top.1, top.2) in
            let (s, run, forest, keeps) =
              compress-Forest n fuel root depth (insert k r p) q r g
                (IsPresent-insert p q k r above) (omega (arith, lower, lt)) (shared ∙ to_r) r_top in
            (s, rw (other, h) run, forest, λ j is. keeps j (IsPresent-insert p j k r is))
      ]
    ]

-- `find` gives the root, and the map that it leaves has the same roots.
pub find-Forest :
    (n fuel : ℕ) (root : String → String) (depth : String → ℕ) (p : Parents) (k : String)
    → Forest n root depth p
    → IsPresent p k
    → n < fuel
    → (q : Parents) × (find fuel k p ≡ ok (root k, q))
      × Forest n root depth q
      × ((j : String) → IsPresent p j → IsPresent q j)
unfolding find
find-Forest n fuel root depth p k f here lt =
    let below : depth k < fuel = omega (arith, lt, f.bound k) in
    let (up, top) = climb-Forest n fuel root depth p k f here below in
    let (q, run, forest, keeps) =
      compress-Forest n fuel root depth p k (root k) f here below refl top in
    (q, rw up (rw run refl), forest, keeps)

-- ===== src/Sdk/Split/Weld.antt =====
-- The loop of split.rs over the edges: each edge brings its ends under one root.
use exocortex.Common.{
  ℕ, suc, ◌+◌, ◌<◌, ◌≡◌, inl, inr, refl, sym, ap, ◌∙◌, subst, Bool-cases, String, false, List, [],
  ◌∷◌, ok, if◌then◌else◌, str_eq, eq_iff, arith, All, All-mono, length, string_key, insert,
  lookup-insert_here, lookup-insert_there,
}
use exocortex.Sdk.Rows.{RelationshipDraft}
use exocortex.Sdk.Split.{Parents, weld, weld_all}
use exocortex.Sdk.Split.Forest.{
  IsPresent, IsRoot, Forest, some_text, IsPresent-insert, climb-Forest, find-Forest,
}

-- The roots and the depths after the root `a` is put under the root `b`.
abbrev root_under : (String → String) → String → String → String → String
root_under root a b x = if str_eq (root x) a then b else root x

abbrev depth_under : (String → String) → (String → ℕ) → String → String → ℕ
depth_under root depth a x = if str_eq (root x) a then depth x + 1 else depth x

Forest-under :
    (n : ℕ) (root : String → String) (depth : String → ℕ) (p : Parents) (a b : String)
    → Forest n root depth p
    → IsRoot root depth p a
    → IsRoot root depth p b
    → str_eq a b ≡ false
    → Forest (n + 1) (root_under root a b) (depth_under root depth a) (insert a b p)
Forest-under n root depth p a b f top_a top_b apart = record {
  up = λ j x found. elim (Bool-cases (str_eq a j)) [
    | inl same ↦
        let a_j : a ≡ j = (eq_iff a j).0 same in
        let b_x : b ≡ x = some_text (sym (lookup-insert_here j a b p same) ∙ found) in
        let root_x : root x ≡ b = ap root (sym b_x) ∙ top_b.2 in
        let root_j : root j ≡ a = ap root (sym a_j) ∙ top_a.2 in
        inr (
          ground (arith, apart, a_j, b_x, eq_iff x j, eq_iff a b),
          ground (
            arith,
            root_x,
            root_j,
            apart,
            eq_iff (root x) a,
            eq_iff (root j) a,
            eq_iff a b,
            top_b.1,
            ap depth b_x,
          ),
          ground (arith, root_x, root_j, apart, eq_iff (root x) a, eq_iff (root j) a, eq_iff a b),
          subst (IsPresent (insert a b p)) b_x (IsPresent-insert p b a b (b, top_b.0)),
        )
    | inr other ↦ elim (f.up j x (sym (lookup-insert_there j a b p other) ∙ found)) [
      | inl (own, low, itself) ↦ inl (
        own,
        ground (arith, low, itself, other, eq_iff (root j) a, eq_iff a j),
        ground (arith, itself, other, eq_iff (root j) a, eq_iff a j),
      )
      | inr (differs, lower, shared, above) ↦ inr (
        differs,
        ground (arith, lower, shared, ap (λ r. str_eq r a) shared),
        ground (arith, shared, ap (λ r. str_eq r a) shared),
        IsPresent-insert p x a b above,
      )
    ]
  ];
  bound = λ k. ground (arith, f.bound k);
}

-- A forest whose roots are the same for what was together before.
abbrev pub Coarser : (String → String) → (String → String) → Type 0
Coarser root root' = (j k : String) → root j ≡ root k → root' j ≡ root' k

Forest-mono :
    (n : ℕ) (root : String → String) (depth : String → ℕ) (p : Parents)
    → Forest n root depth p
    → Forest (n + 1) root depth p
Forest-mono n root depth p f = record { up = f.up; bound = λ k. omega (arith, f.bound k) }

weld-Forest :
    (n fuel : ℕ) (root : String → String) (depth : String → ℕ) (p : Parents) (r : RelationshipDraft)
    → Forest n root depth p
    → IsPresent p r.from_draft_key
    → IsPresent p r.to_draft_key
    → n < fuel
    → (root' : String → String) × (depth' : String → ℕ) × (q : Parents) × (weld fuel r p ≡ ok q)
      × Forest (n + 1) root' depth' q
      × ((j : String) → IsPresent p j → IsPresent q j)
      × (root' r.from_draft_key ≡ root' r.to_draft_key)
      × Coarser root root'
unfolding weld
weld-Forest n fuel root depth p r f from to lt =
    let a = root r.from_draft_key in
    let b = root r.to_draft_key in
    let (p1, run1, f1, keep1) = find-Forest n fuel root depth p r.from_draft_key f from lt in
    let (p2, run2, f2, keep2) =
      find-Forest n fuel root depth p1 r.to_draft_key f1 (keep1 r.to_draft_key to) lt in
    let kept : (j : String) → IsPresent p j → IsPresent p2 j = λ j is. keep2 j (keep1 j is) in
    elim (Bool-cases (str_eq a b)) [
      | inl same ↦ (
        root,
        depth,
        p2,
        rw run1 (rw run2 (rw same refl)),
        Forest-mono n root depth p2 f2,
        kept,
        (eq_iff a b).0 same,
        λ j k e. e,
      )
      | inr apart ↦
          let top_a =
            (climb-Forest n fuel root depth p2 r.from_draft_key f2 (kept r.from_draft_key from)
              (omega (arith, lt, f2.bound r.from_draft_key))).1 in
          let top_b =
            (climb-Forest n fuel root depth p2 r.to_draft_key f2 (kept r.to_draft_key to)
              (omega (arith, lt, f2.bound r.to_draft_key))).1 in
          (
            root_under root a b,
            depth_under root depth a,
            insert a b p2,
            rw run1 (rw run2 (rw apart refl)),
            Forest-under n root depth p2 a b f2 top_a top_b apart,
            λ j is. IsPresent-insert p2 j a b (kept j is),
            ground (arith, apart, eq_iff a a, eq_iff b a, eq_iff a b),
            λ j k e. ap (λ x. if str_eq x a then b else x) e,
          )
    ]

zero_end : (n : ℕ) → n + 0 ≡ n
zero_end n = omega arith

next_end : (n m : ℕ) → n + 1 + m ≡ n + suc m
next_end n m = omega arith

-- The edges whose ends have a key.
abbrev pub HasEnds : Parents → RelationshipDraft → Type 0
HasEnds p r = IsPresent p r.from_draft_key × IsPresent p r.to_draft_key

abbrev pub IsTogether : (String → String) → RelationshipDraft → Type 0
IsTogether root r = root r.from_draft_key ≡ root r.to_draft_key

pub weld_all-Forest :
    (n fuel : ℕ) (root : String → String) (depth : String → ℕ) (p : Parents)
    (rs : List RelationshipDraft)
    → Forest n root depth p
    → All (HasEnds p) rs
    → n + length rs < fuel
    → (root' : String → String) × (depth' : String → ℕ) × (q : Parents) × (weld_all fuel rs p
        ≡ ok q)
      × Forest (n + length rs) root' depth' q
      × ((j : String) → IsPresent p j → IsPresent q j)
      × All (IsTogether root') rs
      × Coarser root root'
unfolding weld_all
weld_all-Forest n fuel root depth p [] f ends lt =
    (root, depth, p, refl, rw (zero_end n) f, λ j is. is, tt, λ j k e. e)
weld_all-Forest n fuel root depth p (r ∷ rs) f ((from, to), ends) lt =
    let (root1, depth1, p1, run1, f1, keep1, together1, coarse1) =
      weld-Forest n fuel root depth p r f from to (omega (arith, lt)) in
    let (root2, depth2, p2, run2, f2, keep2, together2, coarse2) =
      weld_all-Forest (n + 1) fuel root1 depth1 p1 rs f1
        (All-mono (HasEnds p) (HasEnds p1) rs
          (λ s e. (keep1 s.from_draft_key e.0, keep1 s.to_draft_key e.1)) ends)
        (omega (arith, lt)) in
    (
      root2,
      depth2,
      p2,
      rw run1 run2,
      subst (λ m. Forest m root2 depth2 p2) (next_end n (length rs)) f2,
      λ j is. keep2 j (keep1 j is),
      (coarse2 r.from_draft_key r.to_draft_key together1, together2),
      λ j k e. coarse2 j k (coarse1 j k e),
    )

-- ===== src/Kernel/Compatibility/Subset.antt =====
-- The subset test of compatibility.rs composes.
use exocortex.Common.{
  ℕ, ◌≡◌, refl, sym, ap₂, Bool-cases, inl, inr, String, Bool, true, ◌||◌, Option, none, some, List,
  [], ◌∷◌, ◌==◌, any, every, eq_iff, arith, nat_key, same_list,
}
use exocortex.Kernel.Compatibility.{
  TripleSummary, OntologySummary, same_types, same_triple, covers, row_covers, triple_covered,
  is_prefix, is_subset,
}

module _ {ℓ} {A : Type ℓ} where
  -- An element that passes a test, with what every element passes.
  pub any-every :
      (p q : A → Bool) (xs : List A)
      → any p xs ≡ true
      → every q xs ≡ true
      → (x : A) × (p x ≡ true) × (q x ≡ true)
  unfolding any every
  any-every p q [] h all = cc
  any-every p q (x ∷ xs) h all = elim (Bool-cases (p x)) [
    | inl here ↦ (x, here, ground (arith, all))
    | inr not_here ↦ any-every p q xs (rw not_here at h) (ground (arith, all))
  ]

  pub any_mono :
      (p q : A → Bool) (xs : List A)
      → ((x : A) → p x ≡ true → q x ≡ true)
      → any p xs ≡ true
      → any q xs ≡ true
  unfolding any
  any_mono p q [] f h = cc
  any_mono p q (x ∷ xs) f h = ground (arith, h, f x, any_mono p q xs f)

  pub every_mono :
      (p q : A → Bool) (xs : List A)
      → ((x : A) → p x ≡ true → q x ≡ true)
      → every p xs ≡ true
      → every q xs ≡ true
  unfolding every
  every_mono p q [] f h = refl
  every_mono p q (x ∷ xs) f h = ground (arith, h, f x, every_mono p q xs f)

  pub is_subset_trans :
      (same : A → A → Bool) (xs ys zs : List A)
      → ((x y z : A) → same x y ≡ true → same y z ≡ true → same x z ≡ true)
      → is_subset same xs ys ≡ true
      → is_subset same ys zs ≡ true
      → is_subset same xs zs ≡ true
  unfolding is_subset
  is_subset_trans same xs ys zs trans a b =
      every_mono (λ x. any (same x) ys) (λ x. any (same x) zs) xs
        (λ x h.
          let (y, x_y, in_z) = any-every (same x) (λ y. any (same y) zs) ys h b in
          any_mono (same y) (same x) zs (λ z y_z. trans x y z x_y y_z) in_z)
        a

pub is_prefix_trans :
    (xs ys zs : List String)
    → is_prefix xs ys ≡ true
    → is_prefix ys zs ≡ true
    → is_prefix xs zs ≡ true
unfolding is_prefix
is_prefix_trans [] ys zs a b = refl
is_prefix_trans (x ∷ xs) [] zs a b = cc
is_prefix_trans (x ∷ xs) (y ∷ ys) [] a b = cc
is_prefix_trans (x ∷ xs) (y ∷ ys) (z ∷ zs) a b =
    ground (arith, a, b, is_prefix_trans xs ys zs, eq_iff x y, eq_iff y z, eq_iff x z)

covers_trans : (a b c : Option (List ℕ)) → covers a b ≡ true → covers b c ≡ true → covers a c ≡ true
covers_trans a b none f g = refl
covers_trans none (some b) (some c) f g = cc
covers_trans none none (some c) f g = cc
covers_trans (some a) none (some c) f g = cc
covers_trans (some a) (some b) (some c) f g =
    every_mono (λ t. any (λ s. s == t) b) (λ t. any (λ s. s == t) c) a
      (λ t h.
        let (s, s_t, in_c) = any-every (λ s. s == t) (λ s. any (λ r. r == s) c) b h g in
        any_mono (λ r. r == s) (λ r. r == t) c (λ r r_s. ground (arith, s_t, r_s)) in_c)
      f

pub row_covers_trans :
    (a b c : TripleSummary) → row_covers a b ≡ true → row_covers b c ≡ true → row_covers a c ≡ true
row_covers_trans a b c f g = ground (
  arith,
  f,
  g,
  covers_trans a.from_types b.from_types c.from_types,
  covers_trans a.to_types b.to_types c.to_types,
)

any_same : (t : ℕ) (xs : List ℕ) → any (λ s. s == t) (t ∷ xs) ≡ true
unfolding any
any_same t xs = ground arith

every_own : (xs : List ℕ) → every (λ t. any (λ s. s == t) xs) xs ≡ true
unfolding every any
every_own [] = refl
every_own (x ∷ xs) =
    let rest =
      every_mono (λ t. any (λ s. s == t) xs) (λ t. any (λ s. s == t) (x ∷ xs)) xs
        (λ t h. ground (arith, h)) (every_own xs) in
    ground (arith, rest)

same_list-eq : (a b : List ℕ) → same_list a b ≡ true → a ≡ b
unfolding same_list
same_list-eq [] [] h = refl
same_list-eq [] (y ∷ ys) h = cc
same_list-eq (x ∷ xs) [] h = cc
same_list-eq (x ∷ xs) (y ∷ ys) h =
    ap₂ (λ z zs. z ∷ zs) (ground (arith, h)) (same_list-eq xs ys (ground (arith, h)))

covers-same_types : (a b : Option (List ℕ)) → same_types a b ≡ true → covers a b ≡ true
covers-same_types a none h = refl
covers-same_types none (some b) h = cc
covers-same_types (some a) (some b) h = rw (sym (same_list-eq a b h)) (every_own a)

row_covers-same_triple : (a b : TripleSummary) → same_triple a b ≡ true → row_covers a b ≡ true
row_covers-same_triple a b h =
    ground (
      arith,
      h,
      covers-same_types a.from_types b.from_types,
      covers-same_types a.to_types b.to_types,
    )

-- Exact membership adds nothing to being covered.
pub triple_covered-eq :
    (t : TripleSummary) (s : OntologySummary)
    → (any (same_triple t) s.type_triples || triple_covered t s) ≡ triple_covered t s
unfolding triple_covered
triple_covered-eq t s = ground (
  arith,
  any_mono (same_triple t) (row_covers t) s.type_triples (λ r. row_covers-same_triple t r),
)

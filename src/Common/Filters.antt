-- ===== src/Common/Filters.antt =====
-- What a filter of a list keeps.
use mathlib.Core.Path.{◌≡◌, refl}
use mathlib.Core.Bool.{Bool, true, ◌&&◌}
use mathlib.Core.List.{List, [], ◌∷◌}
use native.Mathlib.Omega.{arith}
use exocortex.Common.Lists.{length, filter, length-filter}

module _ {ℓ} {A : Type ℓ} where
  pub filter-filter :
      (p q : A → Bool) (xs : List A) → filter p (filter q xs) ≡ filter (λ x. q x && p x) xs
  unfolding filter
  filter-filter p q [] = refl
  filter-filter p q (x ∷ xs) = ground (arith, filter-filter p q xs)

  -- A filter that keeps the length keeps the list.
  pub filter_same :
      (p : A → Bool) (xs : List A) → length (filter p xs) ≡ length xs → filter p xs ≡ xs
  unfolding filter
  filter_same p [] h = refl
  filter_same p (x ∷ xs) h = ground (arith, h, length-filter p xs, filter_same p xs)

  pub filter_cong :
      (p q : A → Bool) (xs : List A) → ((x : A) → p x ≡ q x) → filter p xs ≡ filter q xs
  unfolding filter
  filter_cong p q [] h = refl
  filter_cong p q (x ∷ xs) h = ground (arith, h x, filter_cong p q xs h)

  pub filter_whole : (p : A → Bool) (xs : List A) → ((x : A) → p x ≡ true) → filter p xs ≡ xs
  unfolding filter
  filter_whole p [] h = refl
  filter_whole p (x ∷ xs) h = ground (arith, h x, filter_whole p xs h)

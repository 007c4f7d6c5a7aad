-- ===== src/Common/Errors.antt =====
-- Rust's `Result`, the error type first, with its `?` as bind.
use mathlib.Core.Path.{◌≡◌, refl}
use mathlib.Core.Logic.{◌⊎◌, inl, inr}
use mathlib.Core.Option.{Option, none, some}
use mathlib.Core.List.{List, [], ◌∷◌}

pub data Result (E A : Type 0) : Type 0 where
  ok : A → Result E A
  err : E → Result E A

infixl 5 ◌>>=◌ ◌>>◌
abbrev pub ◌>>=◌ : {E A B : Type 0} → Result E A → (A → Result E B) → Result E B
err x >>= next = err x
ok a >>= next = next a

-- `map_err`
abbrev pub map_err : {E F A : Type 0} → (E → F) → Result E A → Result F A
map_err f (ok a) = ok a
map_err f (err e) = err (f e)

abbrev pub ◌>>◌ : {E B : Type 0} → Result E (Unit {0}) → Result E B → Result E B
check >> next = check >>= λ u. next

-- `collect::<Result<Vec<_>, _>>()`: the values, or the first error.
unfoldable pub collect : {E A : Type 0} → List (Result E A) → Result E (List A)
collect [] = ok []
collect (r ∷ rs) = let rest = collect rs in r >>= λ a. rest >>= λ as'. ok (a ∷ as')

pub >>=-eq-ok :
    {E A B : Type 0} (r : Result E A) (next : A → Result E B) {b : B}
    → (r >>= next) ≡ ok b
    → (value : A) × (r ≡ ok value) × (next value ≡ ok b)
>>=-eq-ok (err x) next stopped = cc
>>=-eq-ok (ok value) next went = (value, refl, went)

pub Result-cases :
    {E A : Type 0} (r : Result E A) → ((a : A) × (r ≡ ok a)) ⊎ ((e : E) × (r ≡ err e))
Result-cases (ok a) = inl (a, refl)
Result-cases (err e) = inr (e, refl)

-- What a constructor says.
pub ok_injective : {E A : Type 0} {a b : A} → Path (Result E A) (ok a) (ok b) → a ≡ b
ok_injective h = cc

pub err-not_ok : {E A : Type 0} {e : E} {a : A} → ¬ Path (Result E A) (err e) (ok a)
err-not_ok h = cc

pub some_injective {ℓ} : {A : Type ℓ} {a b : A} → some a ≡ some b → a ≡ b
some_injective h = cc

pub some-not_none {ℓ} : {A : Type ℓ} {a : A} → ¬ Path (Option A) (some a) none
some-not_none h = cc

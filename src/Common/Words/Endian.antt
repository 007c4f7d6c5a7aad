-- ===== src/Common/Words/Endian.antt =====
-- `to_be_bytes`, `from_be_bytes` and `to_le_bytes`, and the order of byte strings.
use Prim.Native.Nat.{ℕ, zero, suc, ◌+◌, ◌*◌, ◌/◌, ◌%◌, ◌^◌, ◌<◌}
use mathlib.Core.Path.{◌≡◌, refl, ◌∙◌}
use mathlib.Core.List.{List, [], ◌∷◌, ◌++◌}
use native.Mathlib.Omega.{arith}
use native.Mathlib.Nat.{pow-suc, pow-zero}
use exocortex.Common.Lists.{length, length-append, All, All-append}

-- A byte string.
abbrev pub Bytes : Type 0
Bytes = List ℕ

unfoldable pub be_bytes : ℕ → ℕ → Bytes
be_bytes zero n = []
be_bytes (suc w) n = be_bytes w (n / 256) ++ n % 256 ∷ []

unfoldable pub le_bytes : ℕ → ℕ → Bytes
le_bytes zero n = []
le_bytes (suc w) n = n % 256 ∷ le_bytes w (n / 256)

unfoldable pub from_be_from : ℕ → Bytes → ℕ
from_be_from acc [] = acc
from_be_from acc (b ∷ bs) = from_be_from (acc * 256 + b) bs

unfoldable pub from_be : Bytes → ℕ
unfolding from_be_from
from_be bs = from_be_from 0 bs

abbrev pub AreBytes : Bytes → Type 0
AreBytes = All (λ b. b < 256)

from_be_from-snoc :
    (acc : ℕ) (bs : Bytes) (b : ℕ) → from_be_from acc (bs ++ b ∷ []) ≡ from_be_from acc bs * 256 + b
unfolding from_be_from
from_be_from-snoc acc [] b = refl
from_be_from-snoc acc (c ∷ bs) b = from_be_from-snoc (acc * 256 + c) bs b

pub length-be_bytes : (w n : ℕ) → length (be_bytes w n) ≡ w
unfolding be_bytes
length-be_bytes zero n = refl
length-be_bytes (suc w) n =
    omega (arith, length-append (be_bytes w (n / 256)) (n % 256 ∷ []), length-be_bytes w (n / 256))

pub be_bytes-AreBytes : (w n : ℕ) → AreBytes (be_bytes w n)
unfolding be_bytes
be_bytes-AreBytes zero n = tt
be_bytes-AreBytes (suc w) n =
    All-append (λ b. b < 256) (be_bytes w (n / 256)) (n % 256 ∷ []) (be_bytes-AreBytes w (n / 256))
      (omega arith, tt)

-- A word that fits is read back.
pub from_be-be_bytes : (w n : ℕ) → n < 256 ^ w → from_be (be_bytes w n) ≡ n
unfolding from_be be_bytes
from_be-be_bytes zero n h = omega (arith, pow-zero 256)
from_be-be_bytes (suc w) n h =
    from_be_from-snoc 0 (be_bytes w (n / 256)) (n % 256)
    ∙ omega (arith, from_be-be_bytes w (n / 256) (omega (arith, pow-suc 256 w)))

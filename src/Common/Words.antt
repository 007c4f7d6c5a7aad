-- ===== src/Common/Words.antt =====
-- Rust's `u64`: bounds, saturating and checked arithmetic, and the bytes of a word.
mod Endian
unfoldable pub use Endian.*
use Prim.Native.Nat.{ℕ, ◌+◌, ◌-◌, ◌*◌, ◌/◌, ◌%◌, ◌^◌, min}
use Prim.Native.Char.{code}
use Prim.Native.String.{String}
use mathlib.Core.Path.{◌≡◌}
use native.Mathlib.Omega.{arith}
use mathlib.Core.List.{[], ◌∷◌, ◌++◌}
use mathlib.Core.Option.{Option, none, some}
use exocortex.Common.Tests.{ltb, leb, if◌then◌else◌}

abbrev pub u64_max : ℕ
u64_max = 2 ^ 64 - 1

unfoldable pub saturating_add : ℕ → ℕ → ℕ
saturating_add a b = if leb (a + b) u64_max then a + b else u64_max

-- The sum, or the greatest word where it does not fit.
pub saturating_add_lem : (a b : ℕ) → saturating_add a b ≡ min (a + b) u64_max
unfolding saturating_add
saturating_add_lem a b = ground arith

unfoldable pub saturating_mul : ℕ → ℕ → ℕ
saturating_mul a b = if leb (a * b) u64_max then a * b else u64_max

unfoldable pub checked_add : ℕ → ℕ → Option ℕ
checked_add a b = if leb (a + b) u64_max then some (a + b) else none

-- The UTF-8 bytes of a code point.
unfoldable pub encode_utf8 : ℕ → Bytes
encode_utf8 c =
    if ltb c 0x80
    then c ∷ []
    else if ltb c 0x800
    then (192 + c / 64) ∷ (128 + c % 64) ∷ []
    else if ltb c 0x10000
    then (224 + c / 4096) ∷ (128 + c / 64 % 64) ∷ (128 + c % 64) ∷ []
    else (240 + c / 262144) ∷ (128 + c / 4096 % 64) ∷ (128 + c / 64 % 64) ∷ (128 + c % 64) ∷ []

-- `str::as_bytes`
unfoldable pub as_bytes : String → Bytes
unfolding encode_utf8
as_bytes String.[] = []
as_bytes (String.◌∷◌ c s) = encode_utf8 (code c) ++ as_bytes s

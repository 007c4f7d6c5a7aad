-- ===== src/Wal/Rows.antt =====
-- Rows of a sled tree: byte-string keys in lexicographic order, and the order of equally long keys
-- as numbers.
use Prim.Native.Nat.{compare, Ordering}
use exocortex.Common.{
  ℕ, ◌+◌, ◌*◌, ◌<◌, ◌≡◌, refl, ap, ◌∙◌, Option, none, some, List, [], ◌∷◌, ◌++◌, arith, length,
  get_last?, All, Bytes, AreBytes, from_be, from_be_from,
}

abbrev pub Row : Type 0
Row = Bytes × Bytes

abbrev pub then_compare : Ordering → Ordering → Ordering
then_compare Ordering.lt o = Ordering.lt
then_compare Ordering.eq o = o
then_compare Ordering.gt o = Ordering.gt

unfoldable pub compare_bytes : Bytes → Bytes → Ordering
compare_bytes [] [] = Ordering.eq
compare_bytes [] (b ∷ bs) = Ordering.lt
compare_bytes (a ∷ as') [] = Ordering.gt
compare_bytes (a ∷ as') (b ∷ bs) =
    let rest = compare_bytes as' bs in then_compare (compare a b) rest

-- The rows after a write of one key.
unfoldable pub put_row : Bytes → Bytes → List Row → List Row
unfolding compare_bytes
put_row k v [] = (k, v) ∷ []
put_row k v ((j, w) ∷ m) =
    let rest = put_row k v m in
    elim (compare_bytes k j) [
      | Ordering.lt ↦ (k, v) ∷ (j, w) ∷ m
      | Ordering.eq ↦ (k, v) ∷ m
      | Ordering.gt ↦ (j, w) ∷ rest
    ]

unfoldable pub get_row : Bytes → List Row → Option Bytes
unfolding compare_bytes
get_row k [] = none
get_row k ((j, w) ∷ m) =
    let rest = get_row k m in elim (compare_bytes k j) [ Ordering.eq ↦ some w | _ ↦ rest ]

abbrev pub Below : Bytes → List Row → Type 0
Below k = All (λ r. compare_bytes k r.0 ≡ Ordering.lt)

abbrev pub Above : Bytes → List Row → Type 0
Above k = All (λ r. compare_bytes k r.0 ≡ Ordering.gt)

abbrev pub Ascending : List Row → Type 0
Ascending [] = Unit
Ascending (r ∷ m) = Below r.0 m × Ascending m

pub compare_bytes_refl : (a : Bytes) → compare_bytes a a ≡ Ordering.eq
unfolding compare_bytes
compare_bytes_refl [] = refl
compare_bytes_refl (x ∷ a) = ground (arith, compare_bytes_refl a)

pub compare_bytes-eq : (a b : Bytes) → compare_bytes a b ≡ Ordering.eq → a ≡ b
unfolding compare_bytes
compare_bytes-eq [] [] h = refl
compare_bytes-eq [] (y ∷ b) h = cc
compare_bytes-eq (x ∷ a) [] h = cc
compare_bytes-eq (x ∷ a) (y ∷ b) h = ground (arith, compare_bytes-eq a b)

pub compare_bytes-swap :
    (a b : Bytes) → compare_bytes a b ≡ Ordering.lt → compare_bytes b a ≡ Ordering.gt
unfolding compare_bytes
compare_bytes-swap [] [] h = cc
compare_bytes-swap [] (y ∷ b) h = refl
compare_bytes-swap (x ∷ a) [] h = cc
compare_bytes-swap (x ∷ a) (y ∷ b) h = ground (arith, compare_bytes-swap a b)

pub compare_bytes-swap_gt :
    (a b : Bytes) → compare_bytes a b ≡ Ordering.gt → compare_bytes b a ≡ Ordering.lt
unfolding compare_bytes
compare_bytes-swap_gt [] [] h = cc
compare_bytes-swap_gt [] (y ∷ b) h = cc
compare_bytes-swap_gt (x ∷ a) [] h = refl
compare_bytes-swap_gt (x ∷ a) (y ∷ b) h = ground (arith, compare_bytes-swap_gt a b)

pub compare_bytes_trans :
    (a b c : Bytes)
    → compare_bytes a b ≡ Ordering.lt
    → compare_bytes b c ≡ Ordering.lt
    → compare_bytes a c ≡ Ordering.lt
unfolding compare_bytes
compare_bytes_trans [] [] c h k = cc
compare_bytes_trans [] (y ∷ b) [] h k = cc
compare_bytes_trans [] (y ∷ b) (z ∷ c) h k = refl
compare_bytes_trans (x ∷ a) [] c h k = cc
compare_bytes_trans (x ∷ a) (y ∷ b) [] h k = cc
compare_bytes_trans (x ∷ a) (y ∷ b) (z ∷ c) h k = ground (arith, compare_bytes_trans a b c)

-- Equally long byte strings are ordered as the big-endian numbers that they spell.
from_be_from-grow :
    (p q : ℕ) (a b : Bytes)
    → length a ≡ length b
    → AreBytes a
    → p < q
    → from_be_from p a < from_be_from q b
unfolding from_be_from
from_be_from-grow p q [] [] e h l = l
from_be_from-grow p q [] (y ∷ b) e h l = absurd (omega arith)
from_be_from-grow p q (x ∷ a) [] e h l = absurd (omega arith)
from_be_from-grow p q (x ∷ a) (y ∷ b) e h l =
    from_be_from-grow (p * 256 + x) (q * 256 + y) a b (omega arith) h.1 (omega (arith, h.0))

compare_bytes-from_be_from :
    (p : ℕ) (a b : Bytes)
    → length a ≡ length b
    → AreBytes a
    → AreBytes b
    → from_be_from p a < from_be_from p b
    → compare_bytes a b ≡ Ordering.lt
unfolding from_be_from compare_bytes
compare_bytes-from_be_from p [] [] e ha hb l = absurd (omega arith)
compare_bytes-from_be_from p [] (y ∷ b) e ha hb l = absurd (omega arith)
compare_bytes-from_be_from p (x ∷ a) [] e ha hb l = absurd (omega arith)
compare_bytes-from_be_from p (x ∷ a) (y ∷ b) e ha hb l = ground (
  arith,
  compare_bytes-from_be_from (p * 256 + x) a b (omega arith) ha.1 hb.1,
  from_be_from-grow (p * 256 + y) (p * 256 + x) b a (omega arith) hb.1,
)

pub compare_bytes-from_be :
    (a b : Bytes)
    → length a ≡ length b
    → AreBytes a
    → AreBytes b
    → from_be a < from_be b
    → compare_bytes a b ≡ Ordering.lt
unfolding from_be
compare_bytes-from_be = compare_bytes-from_be_from 0

-- A key above every row is appended.
pub put_row-append : (k v : Bytes) (m : List Row) → Above k m → put_row k v m ≡ m ++ (k, v) ∷ []
unfolding put_row
put_row-append k v [] h = refl
put_row-append k v ((j, w) ∷ m) h = ground (arith, put_row-append k v m h.1)

pub get_row-put_row :
    (k j v : Bytes) (m : List Row)
    → get_row j (put_row k v m)
      ≡ elim (compare_bytes j k) [ Ordering.eq ↦ some v | _ ↦ get_row j m ]
unfolding put_row get_row
get_row-put_row k j v [] = refl
get_row-put_row k j v ((i, w) ∷ m) = ground (
  arith,
  get_row-put_row k j v m,
  compare_bytes-eq j k,
  compare_bytes-eq k i,
  compare_bytes-eq j i,
  compare_bytes_refl i,
)

abbrev first_compare : Bytes → Option Row → Ordering
first_compare k none = Ordering.lt
first_compare k (some r) = compare_bytes r.0 k

last_above :
    (k : Bytes) (s r : Row)
    → get_last? (s ∷ []) ≡ some r
    → compare_bytes r.0 k ≡ Ordering.lt
    → compare_bytes k s.0 ≡ Ordering.gt
last_above k s r l c = compare_bytes-swap s.0 k (ap (λ (o : Option Row). first_compare k o) l ∙ c)

-- The last row has the greatest key.
pub get_last?-Above :
    (k : Bytes) (m : List Row) (r : Row)
    → Ascending m
    → get_last? m ≡ some r
    → compare_bytes r.0 k ≡ Ordering.lt
    → Above k m
get_last?-Above k [] r h l c = tt
get_last?-Above k (s ∷ []) r h l c = (last_above k s r l c, tt)
get_last?-Above k (s ∷ t ∷ m) r h l c =
    let above : Above k (t ∷ m) = get_last?-Above k (t ∷ m) r h.1 l c in
    let s_k : compare_bytes s.0 k ≡ Ordering.lt =
      compare_bytes_trans s.0 t.0 k h.0.0 (compare_bytes-swap_gt k t.0 above.0) in
    (compare_bytes-swap s.0 k s_k, above)

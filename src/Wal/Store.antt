-- ===== src/Wal/Store.antt =====
-- An ordered map in memory that never fails an io call: the assumptions on sled can be met.
use Prim.Native.Nat.{Ordering}
use exocortex.Common.{
  ◌≡◌, refl, String, Option, none, some, List, [], ◌∷◌, Result, ok, err, collect, Bytes, AreBytes,
  All, All-mono, arith, get_last?, dec_lt,
}
use exocortex.Wal.Rows.{
  Row, compare_bytes, compare_bytes-eq, compare_bytes-swap_gt, compare_bytes_trans, put_row,
  get_row, Below, Ascending,
}
use exocortex.Wal.Sled.{Sled, put_all}

pub record Map : Type 0 where
  pub content : List Row
  pub sorted : Ascending content
  pub bytes : All (λ (r : Row). AreBytes r.0) content

unfoldable pub bytes_proof : (k : Bytes) → Option (AreBytes k)
bytes_proof [] = some tt
bytes_proof (b ∷ k) = elim (dec_lt b 256) [
  | no over ↦ none
  | yes small ↦ elim (bytes_proof k) [ none ↦ none | some p ↦ some (small, p) ]
]

Below-put_row :
    (j k v : Bytes) (m : List Row)
    → compare_bytes j k ≡ Ordering.lt
    → Below j m
    → Below j (put_row k v m)
unfolding put_row
Below-put_row j k v [] l h = (l, tt)
Below-put_row j k v ((i, w) ∷ m) l h = ground (arith, Below-put_row j k v m l h.1)

Below-trans : (k j : Bytes) (m : List Row) → compare_bytes k j ≡ Ordering.lt → Below j m → Below k m
Below-trans k j m l h =
    All-mono (λ (r : Row). compare_bytes j r.0 ≡ Ordering.lt)
      (λ r. compare_bytes k r.0 ≡ Ordering.lt) m (λ r b. compare_bytes_trans k j r.0 l b) h

pub Ascending-put_row : (k v : Bytes) (m : List Row) → Ascending m → Ascending (put_row k v m)
unfolding put_row
Ascending-put_row k v [] h = (tt, tt)
Ascending-put_row k v ((j, w) ∷ m) h = ground (
  arith,
  Ascending-put_row k v m h.1,
  Below-trans k j m,
  Below-put_row j k v m,
  compare_bytes-swap_gt k j,
  compare_bytes-eq k j,
)

pub AreBytes-put_row :
    (k v : Bytes) (m : List Row)
    → AreBytes k
    → All (λ (r : Row). AreBytes r.0) m
    → All (λ (r : Row). AreBytes r.0) (put_row k v m)
unfolding put_row
AreBytes-put_row k v [] b h = (b, tt)
AreBytes-put_row k v ((j, w) ∷ m) b h = ground (arith, AreBytes-put_row k v m b h.1)

unfoldable pub put_with :
    (t : Map) (k v : Bytes) → Option (AreBytes k) → Map × Result String (Unit {0})
put_with t k v none = (t, err "key of no bytes")
put_with t k v (some b) = (
  record {
    content = put_row k v t.content;
    sorted = Ascending-put_row k v t.content t.sorted;
    bytes = AreBytes-put_row k v t.content b t.bytes;
  },
  ok tt,
)

unfoldable pub put : Map → Bytes → Bytes → Map × Result String (Unit {0})
unfolding put_with bytes_proof
put t k v = put_with t k v (bytes_proof k)

put_with-content :
    (t : Map) (k v : Bytes) (o : Option (AreBytes k))
    → (put_with t k v o).1 ≡ ok tt
    → (put_with t k v o).0.content ≡ put_row k v t.content
unfolding put_with
put_with-content t k v none h = absurd (ground arith)
put_with-content t k v (some b) h = refl

pub put-content :
    (t : Map) (k v : Bytes) → (put t k v).1 ≡ ok tt → (put t k v).0.content ≡ put_row k v t.content
put-content t k v h = unfold put in put_with-content t k v (bytes_proof k) (unfold put in h)

unfoldable pub put_each : Map → List Row → Map × Result String (Unit {0})
put_each t [] = (t, ok tt)
put_each t ((k, v) ∷ b) =
    let next = put_each (put t k v).0 b in elim (put t k v).1 [ ok u ↦ next | err e ↦ (t, err e) ]

put_each-content :
    (t : Map) (b : List Row)
    → (put_each t b).1 ≡ ok tt
    → (put_each t b).0.content ≡ put_all b t.content
unfolding put_each
put_each-content t [] h = refl
put_each-content t ((k, v) ∷ b) h =
    ground (arith, put-content t k v, put_each-content (put t k v).0 b)

abbrev pub oks : List Row → List (Result String Row)
oks [] = []
oks (r ∷ m) = ok r ∷ oks m

collect-oks : (m : List Row) → collect (oks m) ≡ ok m
unfolding collect
collect-oks [] = refl
collect-oks (r ∷ m) = rw (collect-oks m)

pub collect-oks-eq : (m l : List Row) → collect (oks m) ≡ ok l → l ≡ m
collect-oks-eq m l h = cc (collect-oks m)

unfoldable pub apply_each : Map → List Row → Map × Result String (Unit {0})
unfolding put_each put
apply_each t b = put_each t b

pub apply_each-content :
    (t : Map) (b : List Row)
    → (apply_each t b).1 ≡ ok tt
    → (apply_each t b).0.content ≡ put_all b t.content
apply_each-content t b h = unfold apply_each in put_each-content t b (unfold apply_each in h)

pub ok-injective : {A : Type 0} {a b : A} → ◌≡◌ {A = Result String A} (ok a) (ok b) → b ≡ a
ok-injective h = cc

-- The assumptions on sled hold of it.
abbrev pub map_sled : Sled
map_sled = record {
  Tree = Map;
  rows = λ t. t.content;
  iter = λ t. oks t.content;
  get = λ t k. ok (get_row k t.content);
  last = λ t. ok (get_last? t.content);
  insert = put;
  apply_batch = apply_each;
  flush = λ t. (t, ok tt);
  rows_sorted = λ t. t.sorted;
  rows_bytes = λ t. t.bytes;
  iter_ok = λ t l h. collect-oks-eq t.content l h;
  get_ok = λ t k o h. ok-injective h;
  last_ok = λ t o h. ok-injective h;
  insert_ok = put-content;
  apply_batch_ok = apply_each-content;
  flush_rows = λ t. refl;
}

abbrev pub no_rows : Map
no_rows = record { content = []; sorted = tt; bytes = tt }

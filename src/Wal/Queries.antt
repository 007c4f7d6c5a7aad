-- ===== src/Wal/Queries.antt =====
-- How the queries of wal.rs agree with one another and with the rows.
use Prim.Native.Nat.{◌*◌}
use exocortex.Common.{
  ℕ, ◌+◌, ◌≤◌, ◌≡◌, ◌↔◌, ap, ◌∙◌, String, Bool, true, not, ◌&&◌, ◌||◌, List, [], ◌∷◌, ◌++◌, ok,
  ◌>>=◌, if◌then◌else◌, str_eq, eq_iff, length, filter, any, arith, u64_max, saturating_mul,
  Result-cases, inl, inr,
}
use exocortex.Wal.Sled.{Sled}
use exocortex.Wal.Entry.{WalEntry}
use exocortex.Wal.Codec.{Json}
use exocortex.Wal.Log.{Wal, used_bytes}
use exocortex.Wal.Reads.{
  is_pending, contains_pair, add_partition, partitions_from, pending_and_partitions_from,
  decoded_entries, pending_entries, pending_count, partitions, pending_and_partitions, near_full,
}

pending_and_partitions_from-eq :
    (count : ℕ) (seen : List (String × String)) (es : List WalEntry)
    → pending_and_partitions_from count seen es
      ≡ (count + length (filter (λ e. is_pending e.state) es), partitions_from seen es)
unfolding pending_and_partitions_from partitions_from filter
pending_and_partitions_from-eq count seen [] = ground arith
pending_and_partitions_from-eq count seen (e ∷ es) = ground (
  arith,
  pending_and_partitions_from-eq (if is_pending e.state then count + 1 else count)
      (add_partition seen e) es,
)

-- The single pass of `pending_and_partitions` answers what `pending_count` and `partitions` answer
-- one after the other, errors included.
pub pending_and_partitions-eq :
    (sled : Sled) (json : Json) (w : Wal sled)
    → pending_and_partitions sled json w
      ≡ (pending_count sled json w >>= λ n. partitions sled json w >>= λ ps. ok (n, ps))
unfolding pending_and_partitions pending_count partitions
pending_and_partitions-eq sled json w = elim (Result-cases (decoded_entries sled json w)) [
  | inr (x, bad) ↦ rw bad
  | inl (es, good) ↦ rw good (ap ok (pending_and_partitions_from-eq 0 [] es ∙ ground arith))
]

-- `pending_count` is the number of entries that `pending_entries` returns, errors included.
pub pending_count-eq :
    (sled : Sled) (json : Json) (w : Wal sled)
    → pending_count sled json w ≡ (pending_entries sled json w >>= λ es. ok (length es))
unfolding pending_count pending_entries
pending_count-eq sled json w = elim (Result-cases (decoded_entries sled json w)) [
  | inr (x, bad) ↦ rw bad
  | inl (es, good) ↦ rw good
]

-- The entry is stamped with this org and user.
unfoldable pub stamped : String × String → WalEntry → Bool
stamped (org, user) e = not (str_eq e.org "") && (str_eq e.org org && str_eq e.user user)

contains_pair-snoc :
    (seen : List (String × String)) (p q : String × String)
    → contains_pair (seen ++ q ∷ []) p
      ≡ (contains_pair seen p || (str_eq q.0 p.0 && str_eq q.1 p.1))
unfolding contains_pair any
contains_pair-snoc [] p q = ground arith
contains_pair-snoc (r ∷ seen) p q = ground (arith, contains_pair-snoc seen p q)

contains_pair-add_partition :
    (seen : List (String × String)) (p : String × String) (e : WalEntry)
    → contains_pair (add_partition seen e) p ≡ (contains_pair seen p || stamped p e)
unfolding add_partition stamped
contains_pair-add_partition seen (org, user) e = ground (
  arith,
  contains_pair-snoc seen (org, user) (e.org, e.user),
  eq_iff e.org org,
  eq_iff e.user user,
)

partitions_from-stamped :
    (seen : List (String × String)) (es : List WalEntry) (p : String × String)
    → contains_pair (partitions_from seen es) p ≡ (contains_pair seen p || any (stamped p) es)
unfolding partitions_from any
partitions_from-stamped seen [] p = ground arith
partitions_from-stamped seen (e ∷ es) p = ground (
  arith,
  partitions_from-stamped (add_partition seen e) es p,
  contains_pair-add_partition seen p e,
)

-- `partitions` lists a pair of org and user exactly when some entry of the log is stamped with it;
-- entries with an empty org count as not stamped.
pub partitions-stamped :
    (sled : Sled) (json : Json) (w : Wal sled) (es : List WalEntry) (p : String × String)
    → decoded_entries sled json w ≡ ok es
    → (ps : List (String × String)) × (partitions sled json w ≡ ok ps)
      × (contains_pair ps p ≡ any (stamped p) es)
unfolding partitions
partitions-stamped sled json w es p h =
    (partitions_from [] es, rw h, partitions_from-stamped [] es p ∙ ground arith)

-- With budgets for which the products fit 64 bits, the near-full warning is on exactly when nine
-- tenths of the budget are used.
near_full_iff :
    (sled : Sled) (json : Json) (w : Wal sled) (used : ℕ)
    → used_bytes sled w ≡ ok used
    → w.max_bytes * 9 ≤ u64_max
    → used * 10 ≤ u64_max
    → (near_full sled json w ≡ ok true) ↔ (w.max_bytes * 9 ≤ used * 10)
unfolding near_full saturating_mul
near_full_iff sled json w used h small fits = (λ e. ground (arith, h), λ l. ground (arith, h))

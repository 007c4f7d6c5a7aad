-- ===== src/Storage/Leases.antt =====
-- The lease table of crates/exocortex-storage/src/in_memory.rs. A time is a number; the printing of an
-- epoch into a token is a parameter. `expires_at - acquired_at` is the lease's time to live.
use exocortex.Common.{
  ℕ, ◌+◌, ◌-◌, String, Bool, false, ◌&&◌, Option, none, some, List, Result, ok, err, if◌then◌else◌,
  ltb, str_eq, lookup, insert, remove,
}
use exocortex.Storage.Rows.{LeaseKey, lease_key, StorageError, backend, fenced_write_rejected}

pub record InMemoryLease : Type 0 where
  pub token : String
  pub expires_at : ℕ

pub record OwnerLease : Type 0 where
  pub key : LeaseKey
  pub owner_node_id : String
  pub epoch : ℕ
  pub acquired_at : ℕ
  pub expires_at : ℕ
  pub grace_period : ℕ
  pub fencing_token : String

pub record LeaseTable : Type 0 where
  pub leases : List (LeaseKey × InMemoryLease)
  pub lease_epochs : List (LeaseKey × ℕ)

-- `held.expires_at > now`
abbrev pub is_held : ℕ → Option InMemoryLease → Bool
is_held now none = false
is_held now (some held) = ltb now held.expires_at

-- The guard of the matches: the token is the lease's, and it has not expired.
abbrev pub holds : OwnerLease → ℕ → Option InMemoryLease → Bool
holds lease now none = false
holds lease now (some held) = str_eq held.token lease.fencing_token && ltb now held.expires_at

unfoldable pub check_lease_current : LeaseTable → OwnerLease → ℕ → Result StorageError (Unit {0})
check_lease_current t lease now =
    if holds lease now (lookup lease.key t.leases)
    then ok tt
    else err (fenced_write_rejected lease.epoch)

-- `and_modify(|e| *e += 1).or_insert(1)`
abbrev pub next_epoch : Option ℕ → ℕ
next_epoch none = 1
next_epoch (some e) = e + 1

abbrev pub same_token : OwnerLease → Option InMemoryLease → Bool
same_token lease none = false
same_token lease (some held) = str_eq held.token lease.fencing_token

unfoldable pub renew_lease :
    LeaseTable → OwnerLease → ℕ → LeaseTable × Result StorageError OwnerLease
renew_lease t l now =
    let until = now + (l.expires_at - l.acquired_at) in
    if holds l now (lookup l.key t.leases)
    then (
      record t {
        leases = insert l.key (record { token = l.fencing_token; expires_at = until }) t.leases;
      },
      ok (record l { acquired_at = now; expires_at = until }),
    )
    else (t, err (backend "lease lost (token mismatch)"))

unfoldable pub release_lease : LeaseTable → OwnerLease → LeaseTable
release_lease t l =
    if same_token l (lookup l.key t.leases) then record t { leases = remove l.key t.leases } else t

module _ (token_of : ℕ → String) (grace_duration : ℕ) where
  unfoldable pub acquire_lease :
      LeaseTable → LeaseKey → ℕ → ℕ → LeaseTable × Result StorageError OwnerLease
  acquire_lease t key ttl now =
      let epoch = next_epoch (lookup key t.lease_epochs) in
      if is_held now (lookup key t.leases)
      then (t, err (backend "lease held by another node"))
      else (
        record {
          leases = insert key (record { token = token_of epoch; expires_at = now + ttl }) t.leases;
          lease_epochs = insert key epoch t.lease_epochs;
        },
        ok (record {
          key = key;
          owner_node_id = "in-memory";
          epoch = epoch;
          acquired_at = now;
          expires_at = now + ttl;
          grace_period = grace_duration;
          fencing_token = token_of epoch;
        }),
      )

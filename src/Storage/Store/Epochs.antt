-- ===== src/Storage/Store/Epochs.antt =====
-- The epochs of in_memory.rs: what the operations on leases keep of them.
use exocortex.Common.{
  some_injective, ok_injective, ℕ, ◌+◌, ◌-◌, ◌≤◌, ◌<◌, ◌≡◌, refl, sym, ap, ap₂, subst, ◌∙◌,
  Bool-cases, inl, inr, String, true, Option, none, some, Result, ok, err, if-eq_of_false,
  if-eq_of_true, arith, eq_iff, lookup, lookup-insert_here, lookup-insert_there, lookup-remove,
}
use exocortex.Storage.Rows.{StorageError, LeaseKey, lease_key, same_lease, same_lease_iff}
use exocortex.Storage.Leases.{
  InMemoryLease, OwnerLease, LeaseTable, is_held, holds, next_epoch, same_token, acquire_lease,
  renew_lease, release_lease,
}

-- The epoch of a key has reached `e`, and what is held has the token of an epoch from `e` on.
pub record Minted (token_of : ℕ → String) (key : LeaseKey) (e : ℕ) (t : LeaseTable) : Type 0 where
  pub epoch : ℕ
  pub found : lookup key t.lease_epochs ≡ some epoch
  pub reached : e ≤ epoch
  pub tokens :
      (held : InMemoryLease)
      → lookup key t.leases ≡ some held
      → (n : ℕ) × (e ≤ n) × (held.token ≡ token_of n)

-- A lease that holds is a row with its token.
pub holds_row :
    (l : OwnerLease) (now : ℕ) (o : Option InMemoryLease)
    → holds l now o ≡ true
    → (row : InMemoryLease) × (o ≡ some row) × (row.token ≡ l.fencing_token)
holds_row l now none h = cc
holds_row l now (some row) h = (row, refl, ground (arith, h, eq_iff row.token l.fencing_token))

pub Minted-below :
    (token_of : ℕ → String) (key : LeaseKey) (d e : ℕ) (t : LeaseTable)
    → d ≤ e
    → Minted token_of key e t
    → Minted token_of key d t
Minted-below token_of key d e t le h = record {
  epoch = h.epoch;
  found = h.found;
  reached = omega (arith, le, h.reached);
  tokens = λ held f. let (n, a, minted) = h.tokens held f in (n, omega (arith, a, le), minted);
}

-- What a grant says: its token is its epoch's, which is above any epoch reached before.
abbrev pub IsGranted : (ℕ → String) → LeaseKey → LeaseTable → OwnerLease × LeaseTable → Type 0
IsGranted token_of key t (granted, u) =
    Minted token_of key granted.epoch u
    × (granted.fencing_token ≡ token_of granted.epoch)
    × ((e : ℕ) → Minted token_of key e t → e < granted.epoch)

ok-not_err :
    {a : OwnerLease} {e : StorageError} → ¬ Path (Result StorageError OwnerLease) (err e) (ok a)
ok-not_err h = cc

module _ (token_of : ℕ → String) (grace : ℕ) where
  pub acquire_lease-Minted :
      (k : LeaseKey) (e : ℕ) (t : LeaseTable) (key : LeaseKey) (ttl now : ℕ)
      → Minted token_of k e t
      → Minted token_of k e (acquire_lease token_of grace t key ttl now).0
  unfolding acquire_lease
  acquire_lease-Minted k e t key ttl now h =
      let n = next_epoch (lookup key t.lease_epochs) in
      let minted : InMemoryLease = record { token = token_of n; expires_at = now + ttl } in
      elim (Bool-cases (is_held now (lookup key t.leases))) [
        | inl held ↦ rw held h
        | inr free ↦ rw free (elim (Bool-cases (same_lease key k)) [
          | inl same ↦
              let q : key ≡ k = (same_lease_iff key k).0 same in
              let n_eq : n ≡ h.epoch + 1 =
                ap (λ x. next_epoch (lookup x t.lease_epochs)) q ∙ ap next_epoch h.found in
              record {
                epoch = n;
                found = lookup-insert_here k key n t.lease_epochs same;
                reached = omega (arith, h.reached, n_eq);
                tokens = λ held f. (
                  n,
                  omega (arith, h.reached, n_eq),
                  ap (λ (l : InMemoryLease). l.token)
                      (some_injective (sym f ∙ lookup-insert_here k key minted t.leases same)),
                );
              }
          | inr other ↦ record {
            epoch = h.epoch;
            found = lookup-insert_there k key n t.lease_epochs other ∙ h.found;
            reached = h.reached;
            tokens =
                λ held f. h.tokens held (sym (lookup-insert_there k key minted t.leases other) ∙ f);
          }
        ])
      ]

  -- A lease keeps its token when it is renewed.
  pub renew_lease-Minted :
      (k : LeaseKey) (e : ℕ) (t : LeaseTable) (l : OwnerLease) (now : ℕ)
      → Minted token_of k e t
      → Minted token_of k e (renew_lease t l now).0
  unfolding renew_lease
  renew_lease-Minted k e t l now h =
      let until = now + (l.expires_at - l.acquired_at) in
      let renewed : InMemoryLease = record { token = l.fencing_token; expires_at = until } in
      elim (Bool-cases (holds l now (lookup l.key t.leases))) [
        | inr lost ↦ rw lost h
        | inl held ↦ rw held (elim (Bool-cases (same_lease l.key k)) [
          | inr other ↦ record {
            epoch = h.epoch;
            found = h.found;
            reached = h.reached;
            tokens = λ row f.
                h.tokens row (sym (lookup-insert_there k l.key renewed t.leases other) ∙ f);
          }
          | inl same ↦
              let (row, f, token_eq) = holds_row l now (lookup l.key t.leases) held in
              let q : l.key ≡ k = (same_lease_iff l.key k).0 same in
              let (n, le, minted) = h.tokens row (ap (λ x. lookup x t.leases) (sym q) ∙ f) in
              record {
                epoch = h.epoch;
                found = h.found;
                reached = h.reached;
                tokens = λ new g. (
                  n,
                  le,
                  ap (λ (x : InMemoryLease). x.token)
                        (some_injective (sym g ∙ lookup-insert_here k l.key renewed t.leases same))
                      ∙ sym token_eq
                      ∙ minted,
                );
              }
        ])
      ]

  pub release_lease-Minted :
      (k : LeaseKey) (e : ℕ) (t : LeaseTable) (l : OwnerLease)
      → Minted token_of k e t
      → Minted token_of k e (release_lease t l)
  unfolding release_lease
  release_lease-Minted k e t l h = elim (Bool-cases (same_token l (lookup l.key t.leases))) [
    | inr other ↦ rw other h
    | inl own ↦ rw own (record {
      epoch = h.epoch;
      found = h.found;
      reached = h.reached;
      tokens = λ held f. h.tokens held (ground (arith, lookup-remove k l.key t.leases, f));
    })
  ]

  pub acquire_lease-IsGranted :
      (t u : LeaseTable) (key : LeaseKey) (ttl now : ℕ) (granted : OwnerLease)
      → acquire_lease token_of grace t key ttl now ≡ (u, ok granted)
      → IsGranted token_of key t (granted, u)
  unfolding acquire_lease
  acquire_lease-IsGranted t u key ttl now granted h =
      let n = next_epoch (lookup key t.lease_epochs) in
      let minted : InMemoryLease = record { token = token_of n; expires_at = now + ttl } in
      let same : same_lease key key ≡ true = (same_lease_iff key key).1 refl in
      elim (Bool-cases (is_held now (lookup key t.leases))) [
        | inl held ↦ absurd (ok-not_err (ap (λ p. p.1) (if-eq_of_true _ _ _ held h)))
        | inr free ↦
            let e = if-eq_of_false _ _ _ free h in
            subst (IsGranted token_of key t)
              (ap₂ (λ (g : OwnerLease) (v : LeaseTable). (g, v)) (ok_injective (ap (λ p. p.1) e))
                (ap (λ p. p.0) e))
              (
                record {
                  epoch = n;
                  found = lookup-insert_here key key n t.lease_epochs same;
                  reached = omega arith;
                  tokens = λ held f. (
                    n,
                    omega arith,
                    ap (λ (l : InMemoryLease). l.token)
                        (some_injective (sym f ∙ lookup-insert_here key key minted t.leases same)),
                  );
                },
                refl,
                λ e m. omega (arith, m.reached, ap next_epoch m.found),
              )
      ]

-- ===== src/Quota/GrantLifecycle/Laws.antt =====
-- Who may use a grant, when an activation succeeds, and what repeated calls are answered.
use octg.Common.{
  ℕ, ◌<◌, ◌≡◌, ◌⊎◌, refl, String, true, false, Option, none, some, arith, lookup,
  lookup-insert_self, same_sound, inl, inr, Option-cases, Bool-cases, leb,
}
use octg.Shared.Types.{RequestEntry, InFlightLease, PoolName, standard, mini}
use octg.Shared.Types
use octg.Relay.Errors.{
  RelayGrantState, authorized, attempted, uncertain, grant_replayed, grant_expired,
}
use octg.Relay.Messages.{RelayEnvironment, preview, production}
use octg.Quota.Store.{
  Storage, Clock, QuotaEnv, QuotaIdentity, RelayGrant, ok, Result-cases, get_entry, put_relay_grant,
  load_in_flight,
}
use octg.Quota.Leases.{Normalized, normalize_in_flight_state, without_expired_leases}
use octg.Quota.Grant.{
  RelayGrantBinding, grant_binding_mismatch, grant_binding_agrees, pool_eq, environment_eq,
  option_eq,
}
use octg.Quota.GrantLifecycle.{
  ActivateResult, activated, bound_grant, activate_leased, activate_authorized, activate_by_state,
  activate_relay_in_transaction, with_state, entry_is_reserved, holds_lease,
}

pool_eq_sound : (a b : PoolName) → pool_eq a b ≡ true → a ≡ b
pool_eq_sound standard standard h = refl
pool_eq_sound mini mini h = refl
pool_eq_sound standard mini h = absurd (ground arith)
pool_eq_sound mini standard h = absurd (ground arith)

environment_eq_sound : (a b : RelayEnvironment) → environment_eq a b ≡ true → a ≡ b
environment_eq_sound preview preview h = refl
environment_eq_sound production production h = refl
environment_eq_sound preview production h = absurd (ground arith)
environment_eq_sound production preview h = absurd (ground arith)

option_eq_sound : (a b : Option String) → option_eq a b ≡ true → a ≡ b
option_eq_sound none none h = refl
option_eq_sound (some a) (some b) h = ground (arith, same_sound a b)
option_eq_sound none (some b) h = absurd (ground arith)
option_eq_sound (some a) none h = absurd (ground arith)

-- The credential names the grant, field for field, and the grant is of this day and this pool.
pub record IsBound (identity : QuotaIdentity) (b : RelayGrantBinding) (g : RelayGrant)
    : Type 0 where
  pub same_request : b.request_id ≡ g.request_id
  pub same_grant : b.grant_id ≡ g.grant_id
  pub same_generation : b.lease_generation ≡ g.lease_generation
  pub claimed_request : b.claims.request_id ≡ g.request_id
  pub claimed_grant : b.claims.grant_id ≡ g.grant_id
  pub claimed_generation : b.claims.lease_generation ≡ g.lease_generation
  pub claimed_environment : b.claims.environment ≡ g.environment
  pub claimed_client : b.claims.client_id ≡ g.client_id
  pub claimed_hash : b.claims.idempotency_key_hash ≡ g.idempotency_key_hash
  pub claimed_nonce : b.claims.nonce ≡ g.nonce
  pub claimed_model : b.claims.model ≡ g.model
  pub claimed_pool : b.claims.pool ≡ g.pool
  pub claimed_day : b.claims.admission_utc_day ≡ g.admission_utc_day
  pub claimed_issue : b.claims.issued_at_ms ≡ g.issued_at_ms
  pub claimed_expiry : b.claims.expires_at_ms ≡ g.credential_expires_at_ms
  pub own_pool : g.pool ≡ identity.pool
  pub own_day : g.admission_utc_day ≡ identity.utc_day

agrees-IsBound :
    (identity : QuotaIdentity) (b : RelayGrantBinding) (g : RelayGrant)
    → grant_binding_agrees g b identity ≡ true
    → IsBound identity b g
unfolding grant_binding_agrees
agrees-IsBound identity b g h = record {
  same_request = ground (arith, same_sound b.request_id g.request_id);
  same_grant = ground (arith, same_sound b.grant_id g.grant_id);
  same_generation = ground (arith, same_sound b.lease_generation g.lease_generation);
  claimed_request = ground (arith, same_sound b.claims.request_id g.request_id);
  claimed_grant = ground (arith, same_sound b.claims.grant_id g.grant_id);
  claimed_generation = ground (arith, same_sound b.claims.lease_generation g.lease_generation);
  claimed_environment = ground (arith, environment_eq_sound b.claims.environment g.environment);
  claimed_client = ground (arith, same_sound b.claims.client_id g.client_id);
  claimed_hash =
      ground (arith, option_eq_sound b.claims.idempotency_key_hash g.idempotency_key_hash);
  claimed_nonce = ground (arith, same_sound b.claims.nonce g.nonce);
  claimed_model = ground (arith, same_sound b.claims.model g.model);
  claimed_pool = ground (arith, pool_eq_sound b.claims.pool g.pool);
  claimed_day = ground (arith, same_sound b.claims.admission_utc_day g.admission_utc_day);
  claimed_issue = ground arith;
  claimed_expiry = ground arith;
  own_pool = ground (arith, pool_eq_sound g.pool identity.pool);
  own_day = ground (arith, same_sound g.admission_utc_day identity.utc_day);
}

module _ (clock : Clock) (env : QuotaEnv) (identity : QuotaIdentity) where
  pub bound_grant-IsBound :
      (now : ℕ) (b : RelayGrantBinding) (s : Storage) (g : RelayGrant)
      → bound_grant clock env identity now b s ≡ some g
      → (lookup b.request_id s.grants ≡ some g) × IsBound identity b g
  unfolding bound_grant grant_binding_mismatch
  bound_grant-IsBound now b s g h = elim (Option-cases (lookup b.request_id s.grants)) [
    | inl absent ↦ absurd (ground arith)
    | inr (x, found) ↦ (ground arith, agrees-IsBound identity b g (ground arith))
  ]

  -- The conditions of an activation, and what it writes.
  pub record Activation (now : ℕ) (b : RelayGrantBinding) (s : Storage) (g' : RelayGrant)
      (t : Storage) : Type 0 where
    pub grant : RelayGrant
    pub found : lookup b.request_id s.grants ≡ some grant
    pub bound : IsBound identity b grant
    pub was_authorized : grant.state ≡ authorized
    pub in_time : now < grant.authorization_expires_at_ms
    pub credential_in_time : now < grant.credential_expires_at_ms
    pub request_reserved :
        (e : RequestEntry) × (lookup grant.request_id s.entries ≡ some e)
        × (e.state ≡ Types.reserved)
    pub lease_held :
        (n : Normalized) × (normalize_in_flight_state (load_in_flight s) now ≡ ok n)
        × (holds_lease grant (without_expired_leases now n.leases) ≡ true)
    pub now_attempted : g' ≡ with_state grant attempted
    pub written : t ≡ put_relay_grant g' s

  entry_is_reserved_sound :
      (o : Option RequestEntry)
      → entry_is_reserved o ≡ true
      → (e : RequestEntry) × (o ≡ some e) × (e.state ≡ Types.reserved)
  entry_is_reserved_sound none h = absurd (ground arith)
  entry_is_reserved_sound (some e) h = (e, refl, ground arith)

  activate_by_state-authorized :
      (now : ℕ) (st : RelayGrantState) (g g' : RelayGrant) (s t : Storage)
      → activate_by_state clock env identity now st g s ≡ ok (activated g', t)
      → (st ≡ authorized) × (activate_authorized clock env identity now g s ≡ ok (activated g', t))
  unfolding activate_by_state
  activate_by_state-authorized now authorized g g' s t h = (refl, h)
  activate_by_state-authorized now _ g g' s t h = absurd (ground arith)

  activate_authorized-Activation :
      (now : ℕ) (b : RelayGrantBinding) (g g' : RelayGrant) (s t : Storage)
      → lookup b.request_id s.grants ≡ some g
      → IsBound identity b g
      → leb g.credential_expires_at_ms now ≡ false
      → g.state ≡ authorized
      → activate_authorized clock env identity now g s ≡ ok (activated g', t)
      → Activation now b s g' t
  unfolding activate_authorized activate_leased
  activate_authorized-Activation now b g g' s t found bound early st h =
      elim (Bool-cases (leb g.authorization_expires_at_ms now)) [
        | inl late ↦ absurd (ground arith)
        | inr soon ↦ elim (Bool-cases (entry_is_reserved (get_entry g.request_id s))) [
          | inr closed ↦ absurd (ground arith)
          | inl waiting ↦ elim (Result-cases (normalize_in_flight_state (load_in_flight s) now)) [
            | inr (x, eq) ↦ absurd (ground arith)
            | inl (n, eq) ↦ record {
              grant = g;
              found = found;
              bound = bound;
              was_authorized = st;
              in_time = ground arith;
              credential_in_time = ground arith;
              request_reserved = entry_is_reserved_sound (get_entry g.request_id s) waiting;
              lease_held = (n, eq, ground arith);
              now_attempted = ground arith;
              written = ground arith;
            }
          ]
        ]
      ]

  -- An activation that succeeds used a credential that names the grant field for field, before both
  -- expiries, on an authorized grant whose request is reserved and whose lease is held, and all that
  -- it writes is that the grant is attempted.
  pub activate-Activation :
      (now : ℕ) (b : RelayGrantBinding) (g' : RelayGrant) (s t : Storage)
      → activate_relay_in_transaction clock env identity now b s ≡ ok (activated g', t)
      → Activation now b s g' t
  unfolding activate_relay_in_transaction
  activate-Activation now b g' s t h =
      elim (Option-cases (bound_grant clock env identity now b s)) [
        | inl absent ↦ absurd (ground arith)
        | inr (g, eq) ↦ elim (Bool-cases (leb g.credential_expires_at_ms now)) [
          | inl late ↦ absurd (ground arith)
          | inr early ↦
              let (found, bound) = bound_grant-IsBound now b s g eq in
              let (st, rest) = activate_by_state-authorized now g.state g g' s t (ground arith) in
              activate_authorized-Activation now b g g' s t found bound early st rest
        ]
      ]

  -- A grant that is attempted or uncertain activates for nobody.
  activate_by_state-replayed :
      (now : ℕ) (st : RelayGrantState) (g : RelayGrant) (s : Storage)
      → (st ≡ attempted) ⊎ (st ≡ uncertain)
      → activate_by_state clock env identity now st g s
        ≡ ok (ActivateResult.denied grant_replayed, s)
  unfolding activate_by_state
  activate_by_state-replayed now st g s (inl e) = ground arith
  activate_by_state-replayed now st g s (inr e) = ground arith

  bound_grant-put :
      (now now' : ℕ) (b : RelayGrantBinding) (g : RelayGrant) (s : Storage)
      → bound_grant clock env identity now b s ≡ some g
      → bound_grant clock env identity now' b (put_relay_grant (with_state g attempted) s)
        ≡ some (with_state g attempted)
  unfolding bound_grant grant_binding_mismatch grant_binding_agrees
  bound_grant-put now now' b g s h =
      let (found, bound) = bound_grant-IsBound now b s g h in
      ground (
        arith,
        found,
        bound.same_request,
        lookup-insert_self g.request_id (with_state g attempted) s.grants,
      )

  -- A grant is activated at most once: after a success, the same credential is refused at any later
  -- time and nothing is written.
  pub activate_once :
      (now now' : ℕ) (b : RelayGrantBinding) (g' : RelayGrant) (s t : Storage)
      → activate_relay_in_transaction clock env identity now b s ≡ ok (activated g', t)
      → (activate_relay_in_transaction clock env identity now' b t
          ≡ ok (ActivateResult.denied grant_replayed, t))
        ⊎ (activate_relay_in_transaction clock env identity now' b t
            ≡ ok (ActivateResult.denied grant_expired, t))
  unfolding activate_relay_in_transaction
  activate_once now now' b g' s t h = elim (Option-cases (bound_grant clock env identity now b s)) [
    | inl absent ↦ absurd (ground arith)
    | inr (g, eq) ↦
        let a = activate-Activation now b g' s t h in
        let e : t ≡ put_relay_grant (with_state g attempted) s =
          ground
            (arith, a.written, a.now_attempted, a.found, (bound_grant-IsBound now b s g eq).0) in
        let again : bound_grant clock env identity now' b t ≡ some (with_state g attempted) =
          rw e (bound_grant-put now now' b g s eq) in
        let refused =
          activate_by_state-replayed now' attempted (with_state g attempted) t (inl refl) in
        elim (Bool-cases (leb g.credential_expires_at_ms now')) [
          | inl late ↦ inr (ground (arith, again))
          | inr early ↦ inl (ground (arith, again, refused))
        ]
  ]

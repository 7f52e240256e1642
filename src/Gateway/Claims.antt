-- ===== src/Gateway/Claims.antt =====
-- apps/gateway-worker/src/relay-grant-claims.ts: the claims that are signed for a grant.
use octg.Common.{◌≡◌, refl, true, Option, none, some, same_refl, String, arith}
use octg.Shared.Types.{PoolName, standard, mini}
use octg.Relay.Messages.{RelayEnvironment, preview, production, RelayGrantCredential}
use octg.Quota.Store.{RelayGrant, QuotaIdentity}
use octg.Quota.Grant.{RelayGrantBinding, grant_binding_agrees, environment_eq, pool_eq, option_eq}

unfoldable pub relay_grant_claims_of : RelayGrant → RelayGrantCredential
relay_grant_claims_of g = record {
  environment = g.environment;
  request_id = g.request_id;
  grant_id = g.grant_id;
  nonce = g.nonce;
  client_id = g.client_id;
  idempotency_key_hash = g.idempotency_key_hash;
  model = g.model;
  pool = g.pool;
  admission_utc_day = g.admission_utc_day;
  lease_generation = g.lease_generation;
  issued_at_ms = g.issued_at_ms;
  expires_at_ms = g.credential_expires_at_ms;
}

-- The binding that a callback builds from verified claims.
unfoldable pub binding_of : RelayGrantCredential → RelayGrantBinding
binding_of c = record {
  request_id = c.request_id;
  grant_id = c.grant_id;
  lease_generation = c.lease_generation;
  claims = c;
}

environment_eq_refl : (e : RelayEnvironment) → environment_eq e e ≡ true
environment_eq_refl preview = refl
environment_eq_refl production = refl

pool_eq_refl : (p : PoolName) → pool_eq p p ≡ true
pool_eq_refl standard = refl
pool_eq_refl mini = refl

option_eq_refl : (o : Option String) → option_eq o o ≡ true
option_eq_refl none = refl
option_eq_refl (some s) = same_refl s

-- The claims signed for a grant agree with it field for field, at the controller of its own day.
pub claims-agree :
    (g : RelayGrant) (identity : QuotaIdentity)
    → identity.pool ≡ g.pool
    → identity.utc_day ≡ g.admission_utc_day
    → grant_binding_agrees g (binding_of (relay_grant_claims_of g)) identity ≡ true
unfolding grant_binding_agrees binding_of relay_grant_claims_of
claims-agree g identity p d =
    rw (p, d)
      (ground (
        arith,
        same_refl g.request_id,
        same_refl g.grant_id,
        same_refl g.lease_generation,
        environment_eq_refl g.environment,
        same_refl g.client_id,
        option_eq_refl g.idempotency_key_hash,
        same_refl g.nonce,
        same_refl g.model,
        pool_eq_refl g.pool,
        same_refl g.admission_utc_day,
      ))

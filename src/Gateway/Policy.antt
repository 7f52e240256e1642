-- ===== src/Gateway/Policy.antt =====
-- apps/gateway-worker/src/policy.ts: the registry and the client policies, read from the database
-- and kept for a minute. The state is the two caches of the module.
pub mod Fresh
mod Tests
use octg.Common.{
  ℕ, ◌+◌, String, Bool, false, Option, none, some, List, [], ◌∷◌, Dict, lookup, insert, ltb, ◌==◌,
  if◌then◌else◌, same,
}
use octg.Shared.Number.{Number, nat}
use octg.Shared.Classify.{RegistryEntry}
use octg.Shared.Budget.{OutputLimitMode, refuse, clamp}

pub data OverflowMode : Type 0 where
  reject_overflow paid_shared : OverflowMode

pub data ToolsMode : Type 0 where
  reject_tools allow_tools : ToolsMode

pub record ClientPolicy : Type 0 where
  pub overflow_mode : OverflowMode
  pub output_limit_mode : OutputLimitMode
  pub max_paid_usd_day : Number
  pub cache_enabled : Bool
  pub tools_mode : ToolsMode

abbrev pub default_client_policy : ClientPolicy
default_client_policy = record {
  overflow_mode = reject_overflow;
  output_limit_mode = refuse;
  max_paid_usd_day = nat 0;
  cache_enabled = false;
  tools_mode = reject_tools;
}

abbrev pub ttl_ms : ℕ
ttl_ms = 60000

-- A value and the time at which it expires.
pub record Cached {ℓ} (A : Type ℓ) : Type ℓ where
  pub value : A
  pub expires_at : ℕ

abbrev pub kept {ℓ} : {A : Type ℓ} → ℕ → A → Cached A
kept now a = record { value = a; expires_at = now + ttl_ms }

pub record Caches : Type 0 where
  pub registry : Option (Cached (Dict RegistryEntry))
  pub policies : Dict (Cached ClientPolicy)

unfoldable pub invalidate_config_caches : Caches → Caches
invalidate_config_caches c = record { registry = none; policies = [] }

-- `new Map(rows.map((row) => [row.model, row]))`: of two rows with one model the later one stays.
unfoldable pub registry_of : Dict RegistryEntry → List RegistryEntry → Dict RegistryEntry
registry_of m [] = m
registry_of m (row ∷ rows) = registry_of (insert row.model row m) rows

abbrev pub loaded_registry : ℕ → List RegistryEntry → Caches → Dict RegistryEntry × Caches
loaded_registry now rows c =
    (registry_of [] rows, record c { registry = some (kept now (registry_of [] rows)) })

unfoldable pub load_registry : ℕ → List RegistryEntry → Caches → Dict RegistryEntry × Caches
load_registry now rows c = elim c.registry [
  | none ↦ loaded_registry now rows c
  | some cached ↦
      if ltb now cached.expires_at then (cached.value, c) else loaded_registry now rows c
]

pub record PolicyRow : Type 0 where
  pub overflow_mode : String
  pub output_limit_mode : String
  pub max_paid_usd_day : Number
  pub cache_enabled : ℕ
  pub tools_mode : String

-- A text that is none of the known ones is the strict mode.
unfoldable pub policy_of : Option PolicyRow → ClientPolicy
policy_of none = default_client_policy
policy_of (some row) = record {
  overflow_mode = if same row.overflow_mode "PAID_SHARED" then paid_shared else reject_overflow;
  output_limit_mode = if same row.output_limit_mode "CLAMP" then clamp else refuse;
  max_paid_usd_day = row.max_paid_usd_day;
  cache_enabled = row.cache_enabled == 1;
  tools_mode = if same row.tools_mode "ALLOW" then allow_tools else reject_tools;
}

abbrev pub loaded_policy : ℕ → Option PolicyRow → String → Caches → ClientPolicy × Caches
loaded_policy now row client_id c =
    (policy_of row, record c { policies = insert client_id (kept now (policy_of row)) c.policies })

unfoldable pub load_policy : ℕ → Option PolicyRow → String → Caches → ClientPolicy × Caches
load_policy now row client_id c = elim (lookup client_id c.policies) [
  | none ↦ loaded_policy now row client_id c
  | some cached ↦
      if ltb now cached.expires_at then (cached.value, c) else loaded_policy now row client_id c
]

-- ===== src/Shared/Classify.antt =====
-- packages/shared/src/classify.ts: the pool of a model, and whether a request uses tools.
use octg.Common.{
  String, Bool, false, ◌||◌, Option, none, some, List, [], ◌∷◌, Dict, lookup, if◌then◌else◌,
}
use octg.Shared.Types.{PoolName}
use octg.Relay.Value.{Value, Values, nil, cons, Properties, array, object, get, has_own}

-- A pool, or none for the text `NONE`.
pub record RegistryEntry : Type 0 where
  pub model : String
  pub complimentary_pool : Option PoolName
  pub enabled : Bool

unfoldable pub classify_model : String → Dict RegistryEntry → Option PoolName
classify_model model registry = elim (lookup model registry) [
  | none ↦ none
  | some entry ↦ if entry.enabled then entry.complimentary_pool else none
]

-- `KEYS.some((key) => key in value)`, on a parsed object.
has_any : List String → Properties → Bool
has_any [] ps = false
has_any (k ∷ ks) ps = has_own k ps || has_any ks ps

abbrev tool_keys : List String
tool_keys = "tools" ∷ "tool_choice" ∷ "functions" ∷ "function_call" ∷ []

abbrev message_tool_keys : List String
message_tool_keys = "tool_calls" ∷ "tool_call_id" ∷ "function_call" ∷ []

is_tool_message : Value → Bool
is_tool_message (object ps) = has_any message_tool_keys ps
is_tool_message _ = false

any_tool_message : Values → Bool
unfolding is_tool_message
any_tool_message nil = false
any_tool_message (cons v vs) = is_tool_message v || any_tool_message vs

tool_messages : Value → Bool
tool_messages (array vs) = any_tool_message vs
tool_messages _ = false

unfoldable pub has_tool_use : Properties → Bool
unfolding has_any any_tool_message tool_messages
has_tool_use body = has_any tool_keys body || tool_messages (get "messages" body)

-- ===== src/Relay/Claims/Sound.antt =====
-- What the claim validators guarantee.
use octg.Common.{Pattern, String, ◌+◌, ◌≤◌, ◌<◌, ◌≡◌, true, some, arith, matches}
use octg.Shared.Number.{max_safe_integer}
use octg.Relay.Value.{Value, string, undefined}
use octg.Relay.Messages.{RelayContext, relay_max_context_lifetime_ms, relay_request_id_pattern}
use octg.Relay.Claims.{parse_relay_context, as_matching}

-- The facts that the code after the parser relies on.
pub record IsWellFormed (c : RelayContext) : Type 0 where
  pub id_form : matches relay_request_id_pattern c.request_id ≡ true
  pub alive : c.issued_at_ms < c.expires_at_ms
  pub short : c.expires_at_ms ≤ c.issued_at_ms + relay_max_context_lifetime_ms
  pub safe : c.expires_at_ms ≤ max_safe_integer

as_matching-matches :
    (p : Pattern) (v : Value) (s : String) → as_matching p v ≡ some s → matches p s ≡ true
unfolding as_matching
as_matching-matches p (string t) s h = ground arith
as_matching-matches p undefined s h = ground arith
as_matching-matches p _ s h = ground arith

-- A context that the parser lets through has a request id of the pattern, and expires after it was
-- issued, within the maximal lifetime and at a safe integer.
pub parse_relay_context-IsWellFormed :
    (v : Value) (c : RelayContext) → parse_relay_context v ≡ some c → IsWellFormed c
unfolding parse_relay_context
parse_relay_context-IsWellFormed v c h = grind (arith, as_matching-matches)

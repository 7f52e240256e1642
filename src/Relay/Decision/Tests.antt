-- ===== src/Relay/Decision/Tests.antt =====
-- A decision that allows a request, sent and parsed.
use octg.Common.{◌≡◌, refl, String, true, some, matches}
use octg.Shared.Types.{mini}
use octg.Relay.Messages.{relay_uuid_pattern}
use octg.Relay.Decision.{RelayDecision, allow, is_reset_at, parse_relay_decision}
use octg.Relay.Decision.RoundTrip.{decision_value, parse_relay_decision-decision_value}

abbrev uuid : String
uuid = "0f8fad5b-d9cb-469f-a165-70867728950e"

abbrev decision : RelayDecision
decision = allow uuid uuid 900 true (record {
  pool = mini;
  limit = 2500000;
  used = 1200;
  remaining = 2498800;
  reset_at = "2026-11-27T00:00:00Z";
})

uuid_form : matches relay_uuid_pattern uuid ≡ true
unfolding matches relay_uuid_pattern
uuid_form = refl

reset_form : is_reset_at "2026-11-27T00:00:00Z" ≡ true
unfolding is_reset_at
reset_form = refl

fraction_form : is_reset_at "2026-11-27T00:00:00.25Z" ≡ true
unfolding is_reset_at
fraction_form = refl

parse_relay_decision-decision_value_example :
    parse_relay_decision (decision_value decision) ≡ some decision
parse_relay_decision-decision_value_example = parse_relay_decision-decision_value decision (
  uuid_form,
  uuid_form,
  refl,
  record { limit_safe = refl; used_safe = refl; remaining_safe = refl; reset_form = reset_form },
)

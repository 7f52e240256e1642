-- ===== src/Relay/Routing/Tests.antt =====
-- The shard and the day of one request id.
use octg.Common.{ℕ, ◌≡◌, ◌↔◌, refl, String, some}
use octg.Shared.Calendar.{Day, print_day}
use octg.Relay.Messages.{preview}
use octg.Relay.Routing.{relay_decision_shard_name, relay_request_utc_day_of, timestamp_of}
use octg.Relay.Routing.Laws.{CarriesDay, relay_request_utc_day_of_iff}

abbrev request_id : String
request_id = "req_00007Q69W8TSV4RRFFQ69G5FAV"

shard_test : relay_decision_shard_name preview request_id ≡ "relay-decision:v1:preview:38"
unfolding relay_decision_shard_name
shard_test = refl

day_test : relay_request_utc_day_of request_id ≡ some "1970-01-04"
unfolding relay_request_utc_day_of timestamp_of octg.Relay.Routing.utc_day_of print_day
    octg.Shared.Calendar.next_day octg.Shared.Calendar.is_leap octg.Shared.Calendar.days_in_month
    octg.Common.matches octg.Relay.Messages.relay_request_id_pattern
    octg.Relay.Routing.encoded_timestamp octg.Relay.Routing.crockford_index
day_test = refl

relay_request_utc_day_of_iff_example :
    (relay_request_utc_day_of request_id ≡ some "1970-01-04") ↔ CarriesDay request_id "1970-01-04"
relay_request_utc_day_of_iff_example = relay_request_utc_day_of_iff request_id "1970-01-04"

carries_test : CarriesDay request_id "1970-01-04"
carries_test = (relay_request_utc_day_of_iff request_id "1970-01-04").0 day_test

-- ===== src/Gateway/Auth/Samples.antt =====
-- A configuration for runs.
use octg.Common.{[]}
use octg.Relay.Messages.{preview}
use octg.Relay.Credential.Samples.{toy_key}
use octg.Gateway.Auth.{EnabledRelayConfig}

abbrev pub config : EnabledRelayConfig
config = record {
  environment = preview;
  ingress_endpoint = [];
  ingress_auth_token = [];
  service_auth_token = [];
  context_hmac_key = toy_key;
}

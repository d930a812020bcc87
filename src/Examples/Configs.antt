-- ===== src/Examples/Configs.antt =====
-- A configuration from an environment in which one variable is set, and one with endpoints.
use adserver.Types.Policy.{is_valid_policy}
use adserver.Dynamic.Settings.{validate_engine, valid_bidder_id, are_id_bytes}
use adserver.Common.Int.{pos}
use adserver.Config.Engine.{DistinctIds}
use adserver.Common.Text.{str_eq, bytes, is_empty}
use adserver.Config.{
  config_from_env, Config, Texts, engine_from_env, DspBidderEndpoint, number_var, number_or,
  text_or, validate_config, bad_endpoint_in, engine_error,
}
use adserver.Common.{refl, true, some, none, [], ◌∷◌, ◌≡◌, if◌then◌else◌, List}

-- An environment whose database is 7 and in which no duration parses.
abbrev pub texts : Texts
texts = record {
  getenv = λ name. if str_eq name (bytes "REDIS_DB") then bytes "7" else [];
  atoi = λ s. if str_eq s (bytes "7") then some (pos 7) else none;
  parse_duration = λ s. none;
  split_trimmed = λ s. [];
  split_pair = λ s. none;
}

config_from_env-redis_db : (config_from_env texts).redis_db ≡ pos 7
unfolding config_from_env number_var number_or str_eq is_empty
config_from_env-redis_db = refl

abbrev pub endpoints : List DspBidderEndpoint
endpoints =
    record { id = bytes "x"; url = bytes "https://x.example" }
    ∷ record { id = bytes "y"; url = bytes "https://y.example" }
    ∷ []

abbrev pub configured : Config
configured = record (config_from_env texts) {
  redis_db = pos 0;
  admin_token = bytes "secret";
  decision_logging = true;
  dsp_bidder_endpoints = endpoints;
}

pub configured-valid : validate_config configured ≡ none
unfolding config_from_env engine_from_env number_var number_or text_or str_eq is_empty
    validate_config bad_endpoint_in engine_error validate_engine valid_bidder_id are_id_bytes
    is_valid_policy
configured-valid = refl

pub endpoints-DistinctIds : DistinctIds endpoints
unfolding str_eq
endpoints-DistinctIds = ((refl, tt), (tt, tt))

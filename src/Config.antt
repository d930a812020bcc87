-- ===== src/Config.antt =====
-- internal/ads/types.go: the server's configuration, as it is read from the environment and validated.
-- What the standard library makes of texts is the record `Texts`: `getenv` is the trimmed value of a
-- variable, `atoi` is also `ParseInt` of base 10 and 64 bits, which an int has.
pub mod Bounds
pub mod Engine
use adserver.Cache.{serve_stale, no_bid_on_stale}
use adserver.Types.Policy.{AuctionPolicy, is_valid_policy, first_price}
use adserver.Dynamic.Settings.{
  BidderEngineConfig, EngineError, default_bidder_engine_config, valid_bidder_id, validate_engine,
}
use adserver.Common.Int.{ℤ, pos, ltb_ℤ, leb_ℤ, eqb_ℤ}
use adserver.Common.Text.{Str, bytes, is_empty, str_eq}
use adserver.Common.{
  true, false, some, none, [], ◌∷◌, ◌&&◌, ◌||◌, if◌then◌else◌, Option, List, Bool, ltb, not, length,
  map,
}

pub record DspBidderEndpoint : Type 0 where
  pub id : Str
  pub url : Str

pub record Config : Type 0 where
  pub http_addr : Str
  pub debug_addr : Str
  pub redis_addr : Str
  pub redis_password : Str
  pub redis_db : ℤ
  pub redis_mode : Str
  pub redis_addrs : List Str
  pub redis_prefix : Str
  pub admin_token : Str
  pub cache_refresh : ℤ
  pub auction_policy : AuctionPolicy
  pub decision_logging : Bool
  pub decision_log_buffer : ℤ
  pub max_snapshot_age : ℤ
  pub stale_snapshot_action : Str
  pub dsp_bidder_endpoints : List DspBidderEndpoint
  pub dsp_authorization : Str
  pub bidder_engine_config : BidderEngineConfig
  pub dsp_timeout : ℤ
  pub dsp_max_concurrent : ℤ
  pub dsp_failure_threshold : ℤ
  pub dsp_circuit_open_for : ℤ

-- The errors of `Validate`, one for each message of its own.
pub data ConfigError : Type 0 where
  bad_policy bad_mode bad_database bad_age bad_action many_endpoints bad_endpoint : ConfigError
  bad_dsp_limits : ConfigError
  bad_engine : EngineError → ConfigError

unfoldable pub bad_endpoint_in : List DspBidderEndpoint → Bool
bad_endpoint_in [] = false
bad_endpoint_in (e ∷ es) =
    not (valid_bidder_id e.id) || is_empty e.url || ltb 4096 (length e.url) || bad_endpoint_in es

abbrev pub has_bad_dsp_limits : Config → Bool
has_bad_dsp_limits c =
    ltb 8192 (length c.dsp_authorization)
    || leb_ℤ c.dsp_timeout (pos 0)
    || ltb_ℤ (pos 10000000000) c.dsp_timeout
    || ltb_ℤ c.dsp_max_concurrent (pos 1)
    || ltb_ℤ (pos 1024) c.dsp_max_concurrent
    || ltb_ℤ c.dsp_failure_threshold (pos 1)
    || ltb_ℤ (pos 100) c.dsp_failure_threshold
    || leb_ℤ c.dsp_circuit_open_for (pos 0)
    || ltb_ℤ (pos 3600000000000) c.dsp_circuit_open_for

unfoldable pub engine_error : Option EngineError → Option ConfigError
engine_error none = none
engine_error (some e) = some (bad_engine e)

unfoldable pub validate_config : Config → Option ConfigError
unfolding engine_error
validate_config c =
    if not (is_valid_policy c.auction_policy)
    then some bad_policy
    else if not (str_eq c.redis_mode (bytes "single"))
        && not (str_eq c.redis_mode (bytes "cluster"))
    then some bad_mode
    else if str_eq c.redis_mode (bytes "cluster") && not (eqb_ℤ c.redis_db (pos 0))
    then some bad_database
    else if leb_ℤ c.max_snapshot_age (pos 0)
    then some bad_age
    else if not (str_eq c.stale_snapshot_action serve_stale)
        && not (str_eq c.stale_snapshot_action no_bid_on_stale)
    then some bad_action
    else if ltb 64 (length c.dsp_bidder_endpoints)
    then some many_endpoints
    else if bad_endpoint_in c.dsp_bidder_endpoints
    then some bad_endpoint
    else if has_bad_dsp_limits c
    then some bad_dsp_limits
    else engine_error (validate_engine c.bidder_engine_config)

-- `strconv`, `strings` and `time`: `split_trimmed` are the parts of a text between commas, trimmed, and
-- `split_pair` what stands before and behind the first `=`.
pub record Texts : Type 0 where
  pub getenv : Str → Str
  pub atoi : Str → Option ℤ
  pub parse_duration : Str → Option ℤ
  pub split_trimmed : Str → List Str
  pub split_pair : Str → Option (Str × Str)

-- The value of a variable that is set.
unfoldable pub text_or : Str → Str → Str
text_or value default = if is_empty value then default else value

-- A number that parses and meets a test.
unfoldable pub number_or : (ℤ → Bool) → Option ℤ → ℤ → ℤ
number_or test none default = default
number_or test (some n) default = if test n then n else default

abbrev pub positive : ℤ → Bool
positive n = ltb_ℤ (pos 0) n

abbrev pub not_negative : ℤ → Bool
not_negative n = leb_ℤ (pos 0) n

abbrev non_empty : List Str → List Str
non_empty [] = []
non_empty (x ∷ xs) = if is_empty x then non_empty xs else x ∷ non_empty xs

unfoldable pub endpoint_of : Option (Str × Str) → DspBidderEndpoint
endpoint_of none = record { id = []; url = [] }
endpoint_of (some (id, url)) =
    if is_empty id || is_empty url
    then record { id = []; url = [] }
    else record { id = id; url = url }

module _ (t : Texts) where
  -- A variable that is not set, does not parse or does not meet the test leaves the default.
  unfoldable pub number_var : (Str → Option ℤ) → (ℤ → Bool) → Str → ℤ → ℤ
  unfolding number_or
  number_var parse test name default =
      if is_empty (t.getenv name) then default else number_or test (parse (t.getenv name)) default

  unfoldable pub engine_from_env : BidderEngineConfig
  unfolding number_var
  engine_from_env = record {
    max_fanout =
        number_var t.atoi positive (bytes "DSP_MAX_FANOUT") default_bidder_engine_config.max_fanout;
    max_concurrent_refreshes =
        number_var t.atoi positive (bytes "DSP_MAX_REFRESHES")
          default_bidder_engine_config.max_concurrent_refreshes;
    cache_ttl =
        number_var t.parse_duration positive (bytes "DSP_CACHE_TTL")
          default_bidder_engine_config.cache_ttl;
    failure_ttl =
        number_var t.parse_duration positive (bytes "DSP_FAILURE_TTL")
          default_bidder_engine_config.failure_ttl;
    max_keys =
        number_var t.atoi positive (bytes "DSP_MAX_KEYS") default_bidder_engine_config.max_keys;
  }

  unfoldable pub config_from_env : Config
  unfolding engine_from_env text_or endpoint_of
  config_from_env = record {
    http_addr = text_or (t.getenv (bytes "HTTP_ADDR")) (bytes ":8080");
    debug_addr = t.getenv (bytes "DEBUG_ADDR");
    redis_addr = text_or (t.getenv (bytes "REDIS_ADDR")) (bytes "127.0.0.1:6379");
    redis_password = t.getenv (bytes "REDIS_PASSWORD");
    redis_db = number_var t.atoi not_negative (bytes "REDIS_DB") (pos 0);
    redis_mode = text_or (t.getenv (bytes "REDIS_MODE")) (bytes "single");
    redis_addrs =
        if is_empty (t.getenv (bytes "REDIS_ADDRS"))
        then []
        else non_empty (t.split_trimmed (t.getenv (bytes "REDIS_ADDRS")));
    redis_prefix = text_or (t.getenv (bytes "REDIS_PREFIX")) (bytes "adserver");
    admin_token = t.getenv (bytes "AD_ADMIN_TOKEN");
    cache_refresh =
        number_var t.parse_duration positive (bytes "CACHE_REFRESH_INTERVAL") (pos 30000000000);
    auction_policy = record {
      pricing_model = text_or (t.getenv (bytes "AUCTION_PRICING_MODEL")) first_price;
      second_price_increment_micros =
          number_var t.atoi not_negative (bytes "SECOND_PRICE_INCREMENT_MICROS") (pos 1);
    };
    decision_logging = str_eq (t.getenv (bytes "DECISION_LOGGING")) (bytes "true");
    decision_log_buffer = number_var t.atoi positive (bytes "DECISION_LOG_BUFFER") (pos 4096);
    max_snapshot_age =
        number_var t.parse_duration positive (bytes "MAX_SNAPSHOT_AGE") (pos 60000000000);
    stale_snapshot_action = text_or (t.getenv (bytes "STALE_SNAPSHOT_ACTION")) serve_stale;
    dsp_bidder_endpoints =
        if is_empty (t.getenv (bytes "DSP_ENDPOINTS"))
        then []
        else map (λ s. endpoint_of (t.split_pair s))
            (t.split_trimmed (t.getenv (bytes "DSP_ENDPOINTS")));
    dsp_authorization = t.getenv (bytes "DSP_AUTHORIZATION");
    bidder_engine_config = engine_from_env;
    dsp_timeout = number_var t.parse_duration positive (bytes "DSP_TIMEOUT") (pos 60000000);
    dsp_max_concurrent = number_var t.atoi positive (bytes "DSP_MAX_CONCURRENT") (pos 32);
    dsp_failure_threshold = number_var t.atoi positive (bytes "DSP_FAILURE_THRESHOLD") (pos 3);
    dsp_circuit_open_for =
        number_var t.parse_duration positive (bytes "DSP_CIRCUIT_OPEN") (pos 5000000000);
  }

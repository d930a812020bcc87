-- ===== src/Process.antt =====
-- cmd/adserver/main.go: how the process starts, and how it stops. Whether Redis answers the `Ping`, what
-- the reconciliation of `Warm` meets and what net/url makes of an endpoint are arguments.
pub mod Bidders
pub mod Running
pub mod Shutdown
pub mod Starts
use adserver.Common.Int.{ℤ}
use adserver.Types.Bid.{Bid}
use adserver.Config.Engine.{bidder_config_of}
use adserver.Store.Client.{Registry}
use adserver.Dynamic.Engine.{BidderEngine, new_bidder_engine}
use adserver.Dynamic.Settings.{EngineError, BidderConfig}
use adserver.Cache.{CachePolicy, BidCache, new_bid_cache, reconcile}
use adserver.Cache.Loops.{start, LoopState}
use adserver.Server.{Server}
use adserver.Dynamic.HttpBidder.{new_http_bidder_adapter, Uri}
use adserver.Common.Sorting.{SliceSort}
use adserver.Server.Setup.{set_bidder_engine, new_server}
use adserver.Common.Text.{Str, str_eq, is_empty, bytes}
use adserver.Store.Connect.{new_redis_store_with_options, RedisStore, RedisStoreOptions}
use adserver.Config.{ConfigError, Config, DspBidderEndpoint, validate_config}
use adserver.Common.{
  true, false, inl, inr, some, none, [], ◌∷◌, ◌⊎◌, if◌then◌else◌, ℕ, Option, List, Bool,
}

-- The errors that end the process before it serves.
pub data StartError : Type 0 where
  invalid_configuration : ConfigError → StartError
  redis_unavailable warm_failed invalid_adapter : StartError
  invalid_engine : EngineError → StartError

-- The status of `os.Exit`.
unfoldable pub exit_status : StartError → ℕ
exit_status (invalid_configuration e) = 2
exit_status redis_unavailable = 1
exit_status warm_failed = 1
exit_status invalid_adapter = 2
exit_status (invalid_engine e) = 2

unfoldable pub redis_addrs_of : Config → List Str → List Str
redis_addrs_of c [] = c.redis_addr ∷ []
redis_addrs_of c (a ∷ rest) = a ∷ rest

unfoldable pub store_options_of : Config → RedisStoreOptions
unfolding redis_addrs_of
store_options_of c = record {
  addrs = redis_addrs_of c c.redis_addrs;
  password = c.redis_password;
  db = c.redis_db;
  prefix = c.redis_prefix;
  cluster = str_eq c.redis_mode (bytes "cluster");
}

abbrev pub cache_policy_of : Config → CachePolicy
cache_policy_of c = record {
  refresh_every = c.cache_refresh;
  max_snapshot_age = c.max_snapshot_age;
  stale_action = c.stale_snapshot_action;
}

-- The limits of the HTTP server, in nanoseconds and bytes.
pub record HttpSettings : Type 0 where
  pub addr : Str
  pub read_header_timeout : ℕ
  pub read_timeout : ℕ
  pub write_timeout : ℕ
  pub idle_timeout : ℕ
  pub max_header_bytes : ℕ

abbrev pub http_settings_of : Config → HttpSettings
http_settings_of c = record {
  addr = c.http_addr;
  read_header_timeout = 2000000000;
  read_timeout = 3000000000;
  write_timeout = 3000000000;
  idle_timeout = 60000000000;
  max_header_bytes = 16384;
}

-- The process once it listens: the server and the loops share the cache, which starts in both alike, and
-- the profiler's server listens only where it has an address.
pub record Process : Type 0 where
  pub redis : RedisStore
  pub server : Server
  pub loops : LoopState
  pub http : HttpSettings
  pub debug_addr : Option Str

-- The settings of the bidders, one for each endpoint; `none` is the error of an adapter.
unfoldable pub bidder_configs_of :
    (Str → Option Uri) → Config → List DspBidderEndpoint → Option (List BidderConfig)
unfolding new_http_bidder_adapter
bidder_configs_of parse_request_uri c [] = some []
bidder_configs_of parse_request_uri c (e ∷ es) =
    elim (new_http_bidder_adapter parse_request_uri e.id e.url c.dsp_authorization) [
      | none ↦ none
      | some adapter ↦ elim (bidder_configs_of parse_request_uri c es) [
        | none ↦ none
        | some rest ↦ some (bidder_config_of c e ∷ rest)
      ]
    ]

unfoldable pub engine_server : Server → BidderEngine ⊎ EngineError → Server ⊎ StartError
unfolding set_bidder_engine
engine_server s (inl e) = inl (set_bidder_engine s e)
engine_server s (inr e) = inr (invalid_engine e)

unfoldable pub with_engine : Config → Server → Option (List BidderConfig) → Server ⊎ StartError
unfolding engine_server
with_engine c s none = inr invalid_adapter
with_engine c s (some configs) =
    engine_server s (new_bidder_engine true c.bidder_engine_config configs)

-- The block of the bidder engine, which a configuration without endpoints skips.
unfoldable pub with_bidders :
    (Str → Option Uri) → Config → Server → List DspBidderEndpoint → Server ⊎ StartError
unfolding with_engine bidder_configs_of
with_bidders parse_request_uri c s [] = inl s
with_bidders parse_request_uri c s (e ∷ es) =
    with_engine c s (bidder_configs_of parse_request_uri c (e ∷ es))

unfoldable pub listening : Config → BidCache → Server ⊎ StartError → Process ⊎ StartError
unfolding new_redis_store_with_options store_options_of start
listening c cache (inr e) = inr e
listening c cache (inl s) = inl (record {
  redis = new_redis_store_with_options (store_options_of c);
  server = s;
  loops = start cache;
  http = http_settings_of c;
  debug_addr = if is_empty c.debug_addr then none else some c.debug_addr;
})

module _ (sorting : SliceSort Bid) (parse_request_uri : Str → Option Uri)
    (registry : Registry) where
  -- Behind the warm-up, with whether it succeeded.
  unfoldable pub start_warm : Config → BidCache × Bool → Process ⊎ StartError
  unfolding listening with_bidders new_server
  start_warm c (cache, false) = inr warm_failed
  start_warm c (cache, true) =
      listening c cache
        (with_bidders parse_request_uri c (new_server c registry cache) c.dsp_bidder_endpoints)

  unfoldable pub start_valid :
      Config → Bool → Option (List (Str × Option (List Bid) × ℤ)) → Process ⊎ StartError
  unfolding start_warm new_bid_cache reconcile
  start_valid c false answers = inr redis_unavailable
  start_valid c true answers =
      start_warm c (reconcile sorting (new_bid_cache (cache_policy_of c)) answers)

  -- `main` up to its `ListenAndServe`.
  unfoldable pub start_process :
      Config → Bool → Option (List (Str × Option (List Bid) × ℤ)) → Process ⊎ StartError
  unfolding start_valid validate_config
  start_process c pinged answers = elim (validate_config c) [
    | some e ↦ inr (invalid_configuration e)
    | none ↦ start_valid c pinged answers
  ]

-- ===== src/Examples/Processes.antt =====
-- Processes that start with one endpoint and with two, and the end of a server.
use adserver.Examples.Records.{entry}
use adserver.DecisionLog.{DecisionLogger}
use adserver.Server.{Server}
use adserver.Cache.Loops.{start}
use adserver.Common.Int.{ℤ, pos}
use adserver.Server.Setup.{set_bidder_engine, new_server, close}
use adserver.Config.Engine.{bidder_config_of}
use adserver.Types.Bid.{Bid}
use adserver.Dynamic.HttpBidder.{Uri, is_http_uri}
use adserver.Store.Connect.{new_redis_store_with_options}
use adserver.Cache.{BidCache, reconcile, new_bid_cache}
use adserver.Common.Text.{str_eq, Str, bytes}
use adserver.Dynamic.Engine.{BidderEngine, engine_of, new_runtime}
use adserver.Process.{Process, start_process, store_options_of, cache_policy_of, http_settings_of}
use adserver.Common.{refl, true, inl, some, none, [], ◌∷◌, ◌≡◌, if◌then◌else◌, List, Option, false}
use adserver.Config.{
  Texts, Config, config_from_env, validate_config, bad_endpoint_in, validate_config,
}
use adserver.Process.Running.{start_process-IsRunning, IsRunning}
use adserver.Process.Starts.{start_process-Listens, Listens, AreHttp}
use adserver.Process.Shutdown.{drain-close, drain}
use adserver.Examples.Configs.{
  texts, endpoints, configured, configured-valid, endpoints-DistinctIds,
}
use adserver.Examples.Clients.{no_registry}
use adserver.Examples.Sorting.{insertion_sort}
use adserver.Types.Policy.{is_valid_policy}
use adserver.Common.Text.{is_empty, str_eq}
use adserver.Dynamic.Settings.{valid_bidder_id, validate_engine, is_over_limit}
use adserver.Cache.{refresh}
use adserver.Dynamic.Engine.{new_bidder_engine}
use adserver.Common.Assoc.{has_key, store}
use adserver.Examples.Servers.{server}
use adserver.Examples.{cheap, dear}

-- The environment of one endpoint.
abbrev one_endpoint : Texts
one_endpoint = record texts {
  getenv =
      λ name. if str_eq name (bytes "DSP_ENDPOINTS") then bytes "x=http://x.example/bid" else [];
  split_trimmed = λ s. s ∷ [];
  split_pair = λ s.
      if str_eq s (bytes "x=http://x.example/bid")
      then some (bytes "x", bytes "http://x.example/bid")
      else none;
}

abbrev parse_request_uri : Str → Option Uri
parse_request_uri url =
    if str_eq url (bytes "http://x.example/bid")
    then some (record { scheme = bytes "http"; host = bytes "x.example" })
    else if str_eq url (bytes "https://x.example")
    then some (record { scheme = bytes "https"; host = bytes "x.example" })
    else if str_eq url (bytes "https://y.example")
    then some (record { scheme = bytes "https"; host = bytes "y.example" })
    else none

abbrev answers : List (Str × Option (List Bid) × ℤ)
answers = (bytes "top", some (cheap ∷ dear ∷ []), pos 40) ∷ (bytes "side", some [], pos 41) ∷ []

abbrev config : Config
config = config_from_env one_endpoint

abbrev warm : BidCache
warm = (reconcile insertion_sort (new_bid_cache (cache_policy_of config)) (some answers)).0

abbrev engine : BidderEngine
engine = engine_of config.bidder_engine_config (
    (
      bytes "x",
      new_runtime
          (bidder_config_of config (record { id = bytes "x"; url = bytes "http://x.example/bid" })),
    )
    ∷ [])

abbrev process : Process
process = record {
  redis = new_redis_store_with_options (store_options_of config);
  server = set_bidder_engine (new_server config no_registry warm) engine;
  loops = start warm;
  http = http_settings_of config;
  debug_addr = none;
}

start_process-process :
    start_process insertion_sort parse_request_uri no_registry config true (some answers)
    ≡ inl process
unfolding start_process is_valid_policy str_eq config_from_env is_empty bad_endpoint_in
    valid_bidder_id validate_engine refresh new_bidder_engine has_key is_over_limit store
start_process-process = refl

start_process-IsRunning_example :
    (validate_config config ≡ none) × (true ≡ true) × IsRunning config (some answers) process
start_process-IsRunning_example =
    start_process-IsRunning insertion_sort parse_request_uri no_registry one_endpoint true
      (some answers) process start_process-process

endpoints-AreHttp : AreHttp parse_request_uri endpoints
unfolding is_http_uri str_eq is_empty
endpoints-AreHttp = (refl, (refl, tt))

start_process-Listens_example :
    Listens
      (start_process insertion_sort parse_request_uri no_registry configured true (some answers))
start_process-Listens_example =
    start_process-Listens parse_request_uri configured insertion_sort no_registry answers
      configured-valid endpoints-DistinctIds endpoints-AreHttp (refl, (refl, tt))

-- A server with two entries that are not written yet.
abbrev queue : DecisionLogger
queue = record {
  capacity = 4;
  entries = entry (pos 2) ∷ entry (pos 3) ∷ [];
  written = entry (pos 1) ∷ [];
  dropped = 0;
  is_closed = false;
  is_done = false;
}

abbrev logging : Server
logging = record server { decision_logger = some queue }

drain-close_example :
    (c : DecisionLogger) × ((close logging).decision_logger ≡ some c)
    × (drain 3 c ≡ record queue {
      entries = [];
      written = entry (pos 1) ∷ entry (pos 2) ∷ entry (pos 3) ∷ [];
      is_closed = true;
      is_done = true;
    })
drain-close_example = drain-close logging queue refl

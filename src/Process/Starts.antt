-- ===== src/Process/Starts.antt =====
-- cmd/adserver/main.go: when the process comes to listen.
use adserver.Store.Client.{Registry}
use adserver.Dynamic.Engine.{BidderEngine, new_bidder_engine}
use adserver.Server.{Server}
use adserver.Common.Sorting.{SliceSort}
use adserver.Config.{Config, DspBidderEndpoint, validate_config}
use adserver.Dynamic.HttpBidder.{new_http_bidder_adapter, Uri, is_http_uri}
use adserver.Process.{
  bidder_configs_of, Process, engine_server, listening, StartError, start_process, with_bidders,
  start_warm, with_engine, start_valid,
}
use adserver.Common.Text.{Str}
use adserver.Cache.{refresh_all, refresh, BidCache, reconcile}
use adserver.Common.{
  refl, true, false, inl, inr, some, none, [], ◌∷◌, ◌≡◌, ◌⊎◌, List, Option, All, is_some, arith,
  map, Bool,
}
use adserver.Common.Int.{ℤ}
use adserver.Types.Bid.{Bid}
use adserver.Dynamic.Settings.{EngineError}
use adserver.Config.Engine.{Serves, new_bidder_engine-Serves, DistinctIds, bidder_config_of}

-- The process listens.
abbrev pub Listens : Process ⊎ StartError → Type 0
Listens (inl p) = Unit
Listens (inr e) = ⊥

-- The adapters of the endpoints have no error.
abbrev pub AreHttp : (Str → Option Uri) → List DspBidderEndpoint → Type 0
AreHttp parse_request_uri es = All (λ e. is_http_uri (parse_request_uri e.url) ≡ true) es

-- Every fetch is answered.
abbrev pub AreAnswered : List (Str × Option (List Bid) × ℤ) → Type 0
AreAnswered answers = All (λ a. is_some a.1 ≡ true) answers

bidder_configs_of_lem :
    (parse_request_uri : Str → Option Uri) (c : Config) (es : List DspBidderEndpoint)
    → AreHttp parse_request_uri es
    → bidder_configs_of parse_request_uri c es ≡ some (map (bidder_config_of c) es)
unfolding bidder_configs_of new_http_bidder_adapter
bidder_configs_of_lem parse_request_uri c [] h = refl
bidder_configs_of_lem parse_request_uri c (e ∷ es) (h, hs) =
    rw
      (
        bidder_configs_of,
        new_http_bidder_adapter,
        h,
        bidder_configs_of_lem parse_request_uri c es hs,
      )
      refl

refresh_all_answered :
    (s : SliceSort Bid) (c : BidCache) (answers : List (Str × Option (List Bid) × ℤ))
    → AreAnswered answers
    → (refresh_all s c answers).1 ≡ true
unfolding refresh_all refresh
refresh_all_answered s c [] h = refl
refresh_all_answered s c ((p, none, now) ∷ rest) h = absurd (ground arith)
refresh_all_answered s c ((p, some fetched, now) ∷ rest) (h, hs) =
    refresh_all_answered s (refresh s c p (some fetched) now).0 rest hs

engine_server-Listens :
    (c : Config) (s : Server) (cache : BidCache) (x : BidderEngine ⊎ EngineError)
    → Serves c x
    → Listens (listening c cache (engine_server s x))
unfolding engine_server listening
engine_server-Listens c s cache (inl e) h = tt
engine_server-Listens c s cache (inr e) h = h

module _ (parse_request_uri : Str → Option Uri) (c : Config) where
  with_bidders-Listens :
      (s : Server) (cache : BidCache) (es : List DspBidderEndpoint)
      → AreHttp parse_request_uri es
      → Serves c (new_bidder_engine true c.bidder_engine_config (map (bidder_config_of c) es))
      → Listens (listening c cache (with_bidders parse_request_uri c s es))
  unfolding with_bidders with_engine listening
  with_bidders-Listens s cache [] h k = tt
  with_bidders-Listens s cache (e ∷ es) h k =
      rw (bidder_configs_of_lem parse_request_uri c (e ∷ es) h)
        (engine_server-Listens c s cache _ k)

  start_warm-Listens :
      (sorting : SliceSort Bid) (registry : Registry) (cache : BidCache) (ok : Bool)
      → ok ≡ true
      → AreHttp parse_request_uri c.dsp_bidder_endpoints
      → Serves c (
          new_bidder_engine true c.bidder_engine_config
            (map (bidder_config_of c) c.dsp_bidder_endpoints))
      → Listens (start_warm sorting parse_request_uri registry c (cache, ok))
  unfolding start_warm
  start_warm-Listens sorting registry cache false q h k = absurd (ground arith)
  start_warm-Listens sorting registry cache true q h k = with_bidders-Listens _ cache _ h k

  -- The process comes to listen when its configuration passes the validation, the ids of its endpoints
  -- differ and their URLs are absolute ones of HTTP, Redis answers the `Ping` and the list of the
  -- placements, and every fetch of the warm-up is answered.
  pub start_process-Listens :
      (sorting : SliceSort Bid) (registry : Registry) (answers : List (Str × Option (List Bid) × ℤ))
      → validate_config c ≡ none
      → DistinctIds c.dsp_bidder_endpoints
      → AreHttp parse_request_uri c.dsp_bidder_endpoints
      → AreAnswered answers
      → Listens (start_process sorting parse_request_uri registry c true (some answers))
  unfolding start_process start_valid reconcile
  start_process-Listens sorting registry answers v d h a =
      rw (start_process, v)
        (start_warm-Listens sorting registry _ _ (refresh_all_answered sorting _ answers a) h
          (new_bidder_engine-Serves c v d))

-- ===== src/Process/Running.antt =====
-- cmd/adserver/main.go: what holds of a process that listens.
use adserver.Config.Engine.{fill_engine-valid, engine_error-none}
use adserver.Config.Bounds.{config_from_env-positive}
use adserver.Types.Policy.{is_valid_policy}
use adserver.Store.Client.{Registry}
use adserver.Auction.{new_auctioneer}
use adserver.Cache.Loops.{start}
use adserver.Server.Setup.{new_server}
use adserver.Dynamic.HttpBidder.{Uri}
use adserver.Server.{Server}
use adserver.Process.{
  listening, Process, StartError, cache_policy_of, start_process, start_warm, start_valid,
  invalid_configuration,
}
use mathlib.Core.Path.{subst}
use adserver.Dynamic.Settings.{fill_engine}
use adserver.Config.{Config, validate_config, positive, Texts, config_from_env}
use adserver.Common.Int.{ℤ}
use adserver.Types.Bid.{Bid}
use adserver.Common.Text.{Str}
use adserver.Cache.{BidCache, reconcile, new_bid_cache, is_valid_cache_policy}
use adserver.Common.Sorting.{SliceSort}
use adserver.Common.{
  refl, true, inl, inr, some, none, [], ◌≡◌, ◌∙◌, List, Option, ◌⊎◌, Option-cases, ap, sym, false,
  Bool, arith,
}
use adserver.Cache.Warm.{Warm, SameTasks, reconcile-Warm}
use adserver.Process.Bidders.{HasEngine, Bidding, with_bidders-Bidding}

-- A process that serves what the configuration says, over a cache that is warm.
pub record IsRunning (c : Config) (answers : Option (List (Str × Option (List Bid) × ℤ)))
    (p : Process) : Type 0 where
  pub keeps_policy : p.server.policy ≡ c.auction_policy
  pub keeps_cache_policy : p.server.cache.policy ≡ cache_policy_of c
  pub is_warm : Warm p.server.cache answers
  pub nothing_runs : (p.server.cache.inflight ≡ []) × (p.server.cache.running ≡ [])
  pub has_engine : HasEngine c c.dsp_bidder_endpoints p.server.bidder_engine
  pub loops_start : p.loops ≡ start p.server.cache

abbrev Runs : Config → Option (List (Str × Option (List Bid) × ℤ)) → Process ⊎ StartError → Type 0
Runs c answers (inl p) = IsRunning c answers p
Runs c answers (inr e) = Unit

listening-Runs :
    (c : Config) (registry : Registry) (cache : BidCache)
    → (answers : Option (List (Str × Option (List Bid) × ℤ))) → (x : Server ⊎ StartError)
    → is_valid_policy c.auction_policy ≡ true
    → SameTasks (new_bid_cache (cache_policy_of c)) cache
    → is_valid_cache_policy (cache_policy_of c) ≡ true
    → Warm cache answers
    → Bidding c (new_server c registry cache) c.dsp_bidder_endpoints x
    → Runs c answers (listening c cache x)
unfolding listening new_bid_cache new_server new_auctioneer start
listening-Runs c registry cache answers (inr e) v k w warm b = tt
listening-Runs c registry cache answers (inl s) v k w warm b = record {
  keeps_policy = ap (λ x. x.policy) (sym b.0) ∙ rw v refl;
  keeps_cache_policy = ap (λ x. x.cache.policy) (sym b.0) ∙ k.0 ∙ rw w refl;
  is_warm = subst (λ x. Warm x answers) (ap (λ x. x.cache) b.0) warm;
  nothing_runs =
      (ap (λ x. x.cache.inflight) (sym b.0) ∙ k.1, ap (λ x. x.cache.running) (sym b.0) ∙ k.2);
  has_engine = b.1;
  loops_start = ap (λ x. start x.cache) b.0;
}

module _ (sorting : SliceSort Bid) (parse_request_uri : Str → Option Uri) (registry : Registry)
    (c : Config) where
  start_warm-Runs :
      (cache : BidCache) (ok : Bool) (answers : Option (List (Str × Option (List Bid) × ℤ)))
      → is_valid_policy c.auction_policy ≡ true
      → is_valid_cache_policy (cache_policy_of c) ≡ true
      → fill_engine c.bidder_engine_config ≡ c.bidder_engine_config
      → (ok ≡ true → Warm cache answers × SameTasks (new_bid_cache (cache_policy_of c)) cache)
      → Runs c answers (start_warm sorting parse_request_uri registry c (cache, ok))
  unfolding start_warm new_server
  start_warm-Runs cache false answers v w f h = tt
  start_warm-Runs cache true answers v w f h =
      let k = h refl in
      listening-Runs c registry cache answers _ v k.1 w k.0 (
        with_bidders-Bidding parse_request_uri c (new_server c registry cache)
          c.dsp_bidder_endpoints refl f)

  start_valid-Runs :
      (pinged : Bool) (answers : Option (List (Str × Option (List Bid) × ℤ)))
      → is_valid_policy c.auction_policy ≡ true
      → is_valid_cache_policy (cache_policy_of c) ≡ true
      → fill_engine c.bidder_engine_config ≡ c.bidder_engine_config
      → Runs c answers (start_valid sorting parse_request_uri registry c pinged answers)
  unfolding start_valid
  start_valid-Runs false answers v w f = tt
  start_valid-Runs true answers v w f =
      let r = reconcile sorting (new_bid_cache (cache_policy_of c)) answers in
      start_warm-Runs r.0 r.1 answers v w f (reconcile-Warm sorting _ answers)

-- A validated configuration whose refresh interval is positive has the settings of a server.
validate_config-settings :
    (c : Config)
    → positive c.cache_refresh ≡ true
    → validate_config c ≡ none
    → (is_valid_policy c.auction_policy ≡ true)
      × (is_valid_cache_policy (cache_policy_of c) ≡ true)
      × (fill_engine c.bidder_engine_config ≡ c.bidder_engine_config)
unfolding validate_config is_valid_cache_policy
validate_config-settings c r h = (
  ground arith,
  ground arith,
  fill_engine-valid c.bidder_engine_config (engine_error-none _ (ground arith)),
)

-- A process that comes to listen with a configuration of the environment has validated it, was answered by
-- Redis and has warmed its cache: the server runs auctions by the configured policy and its cache ages
-- snapshots by the configured one, of which no default replaces either; every placement of the warm-up has
-- a snapshot; no refresh is in flight, and the loops start over that cache; and the engine of the bidders
-- is there exactly where there are endpoints, valid and with its configured settings.
pub start_process-IsRunning :
    (sorting : SliceSort Bid) (parse_request_uri : Str → Option Uri) (registry : Registry)
    (t : Texts)
    → (pinged : Bool) (answers : Option (List (Str × Option (List Bid) × ℤ))) (p : Process)
    → start_process sorting parse_request_uri registry (config_from_env t) pinged answers ≡ inl p
    → (validate_config (config_from_env t) ≡ none)
      × (pinged ≡ true)
      × IsRunning (config_from_env t) answers p
unfolding start_process start_valid
start_process-IsRunning sorting parse_request_uri registry t pinged answers p h =
    elim (Option-cases (validate_config (config_from_env t))) [
      | inr (e, q) ↦ absurd (ground arith)
      | inl q ↦
          let k = validate_config-settings (config_from_env t) (config_from_env-positive t).0 q in
          let started =
            sym (
              ap
                (λ o. elim o [
                  | some e ↦ inr (invalid_configuration e)
                  | none ↦
                      start_valid sorting parse_request_uri registry (config_from_env t) pinged
                        answers
                ])
                q)
            ∙ h in
          (
            q,
            ground arith,
            subst (Runs (config_from_env t) answers) started (
                start_valid-Runs sorting parse_request_uri registry (config_from_env t) pinged
                  answers k.0 k.1 k.2),
          )
    ]

-- ===== src/Dynamic/Engine.antt =====
-- internal/ads/dynamic_bidding.go, `BidderEngine`: DSP bids are fetched behind the auctions, by one
-- goroutine for each refresh and one for each call of a bidder. A goroutine is a value that says where
-- it stands, and `advance` is its next step. A semaphore is the number of its tokens that are taken.
pub mod Steps
pub mod Tokens
pub mod Keeps
pub mod Fit
pub mod Runs
pub mod Invariant
pub mod Start
pub mod Weight
pub mod Progress
pub mod Bids
pub mod Open
pub mod Lookups
use adserver.Common.Assoc.{has_key, store}
use adserver.Common.Word.{inc64}
use adserver.Dynamic.Key.{dynamic_cache_key}
use adserver.Auction.{DynamicBid}
use adserver.Dynamic.Sanitize.{DspRequest}
use adserver.Dynamic.Breaker.{new_circuit_breaker, CircuitBreaker}
use adserver.Common.Int.{ℤ, pos_part}
use adserver.Types.Bid.{AuctionRequest, Bid}
use adserver.Dynamic.BidCache.{DynamicBidCache, new_dynamic_bid_cache, get}
use adserver.Common.Text.{Str}
use adserver.Dynamic.Settings.{
  BidderConfig, BidderEngineConfig, fill_bidder, fill_engine, EngineError, validate_engine,
  bad_adapter, no_context, valid_bidder_id, duplicate_bidder, is_over_limit, bad_bidder,
}
use adserver.Common.{
  true, false, inl, inr, some, none, suc, [], ◌∷◌, ◌==◌, ◌||◌, ◌⊎◌, if◌then◌else◌, List, Option, ℕ,
  Bool, not, length, ltb,
}

pub data Outcome : Type 0 where
  deadline_exceeded failed : Outcome
  fetched : List Bid → Outcome

-- A bidder under its id, which no other bidder of the engine has.
pub record BidderRuntime : Type 0 where
  pub config : BidderConfig
  pub sem : ℕ
  pub breaker : CircuitBreaker

pub record BidderEngineStats : Type 0 where
  pub cache_hits : ℕ
  pub cache_full : ℕ
  pub refreshes : ℕ
  pub refresh_skipped : ℕ
  pub fanout_skipped : ℕ
  pub circuit_open : ℕ
  pub timeouts : ℕ
  pub failures : ℕ

-- Where the goroutine of a refresh stands: before the loop, before a bidder and those behind it, with
-- that bidder's token, behind the loop, behind the `Put`, and behind the `Delete`.
pub data Stage : Type 0 where
  spawned waiting stored forgotten : Stage
  visiting : List Str → Stage
  holding : Str → List Str → Stage

-- A refresh: `workers` are the bidders whose calls run, `leaving` those whose results are sent and whose
-- tokens are not yet back, `results` the channel, oldest first, with `none` for a failure.
pub record Refresh : Type 0 where
  pub key : Str
  pub request : DspRequest
  pub stage : Stage
  pub started : ℕ
  pub workers : List Str
  pub leaving : List Str
  pub results : List (Option (List DynamicBid))

pub record BidderEngine : Type 0 where
  pub cache : DynamicBidCache
  pub bidders : List (Str × BidderRuntime)
  pub config : BidderEngineConfig
  pub is_done : Bool
  pub refresh_slots : ℕ
  pub inflight : List (Str × Unit {0})
  pub stats : BidderEngineStats
  pub running : List Refresh

abbrev pub no_stats : BidderEngineStats
no_stats = record {
  cache_hits = 0;
  cache_full = 0;
  refreshes = 0;
  refresh_skipped = 0;
  fanout_skipped = 0;
  circuit_open = 0;
  timeouts = 0;
  failures = 0;
}

abbrev pub new_runtime : BidderConfig → BidderRuntime
new_runtime c = record {
  config = c;
  sem = 0;
  breaker = new_circuit_breaker c.failure_threshold c.circuit_open_for;
}

-- One round of the constructor's loop behind the test for a nil adapter; the ids seen are the keys.
unfoldable pub add_bidder :
    List (Str × BidderRuntime) → BidderConfig → Str → List (Str × BidderRuntime) ⊎ EngineError
unfolding fill_bidder new_circuit_breaker
add_bidder bidders c id =
    if not (valid_bidder_id id)
    then inr bad_adapter
    else if has_key id bidders
    then inr duplicate_bidder
    else if is_over_limit (fill_bidder c)
    then inr bad_bidder
    else inl (store id (new_runtime (fill_bidder c)) bidders)

unfoldable pub add_adapter :
    List (Str × BidderRuntime)
    → BidderConfig
    → Option Str
    → List (Str × BidderRuntime) ⊎ EngineError
unfolding add_bidder
add_adapter bidders c none = inr bad_adapter
add_adapter bidders c (some id) = add_bidder bidders c id

unfoldable pub add_bidders :
    List (Str × BidderRuntime) → List BidderConfig → List (Str × BidderRuntime) ⊎ EngineError
unfolding add_adapter
add_bidders bidders [] = inl bidders
add_bidders bidders (c ∷ cs) = elim (add_adapter bidders c c.adapter) [
  | inl bidders' ↦ add_bidders bidders' cs
  | inr e ↦ inr e
]

abbrev pub engine_of : BidderEngineConfig → List (Str × BidderRuntime) → BidderEngine
engine_of config bidders = record {
  cache = new_dynamic_bid_cache config.max_keys;
  bidders = bidders;
  config = config;
  is_done = false;
  refresh_slots = 0;
  inflight = [];
  stats = no_stats;
  running = [];
}

-- `NewBidderEngine`, with whether a context is given.
unfoldable pub new_bidder_engine :
    Bool → BidderEngineConfig → List BidderConfig → BidderEngine ⊎ EngineError
unfolding fill_engine validate_engine add_bidders new_dynamic_bid_cache
new_bidder_engine has_context config bidder_configs =
    let c = fill_engine config in
    if not has_context then inr no_context else elim (validate_engine c) [
      | some e ↦ inr e
      | none ↦ elim (add_bidders [] bidder_configs) [
        | inr e ↦ inr e
        | inl bidders ↦ inl (engine_of c bidders)
      ]
    ]

unfoldable pub lookup : BidderEngine → ℤ → AuctionRequest → BidderEngine × Option (List DynamicBid)
lookup e now request = elim (get e.cache now (dynamic_cache_key request)) [
  | none ↦ (e, none)
  | some bids ↦
      (record e { stats = record e.stats { cache_hits = inc64 e.stats.cache_hits } }, some bids)
]

-- How many refreshes may run: the capacity of the channel of slots.
abbrev pub slot_count : BidderEngine → ℕ
slot_count e = pos_part e.config.max_concurrent_refreshes

abbrev pub as_dsp_request : AuctionRequest → DspRequest
as_dsp_request r = record {
  placement_id = r.placement_id;
  country = r.country;
  device = r.device;
  floor_micros = r.floor_micros;
}

abbrev spawn : Str → AuctionRequest → Refresh
spawn key r = record {
  key = key;
  request = as_dsp_request r;
  stage = spawned;
  started = 0;
  workers = [];
  leaving = [];
  results = [];
}

unfoldable pub is_fresh : Option (List DynamicBid) → Bool
is_fresh none = false
is_fresh (some bids) = true

-- `Trigger`; the entry in flight of a trigger that finds no slot is gone when it returns.
unfoldable pub trigger : BidderEngine → ℤ → AuctionRequest → BidderEngine
unfolding is_fresh
trigger e now request =
    let key = dynamic_cache_key request in
    if length e.bidders == 0 || e.is_done
    then e
    else if is_fresh (get e.cache now key)
    then e
    else if has_key key e.inflight
    then e
    else if ltb e.refresh_slots (slot_count e)
    then record e {
      inflight = store key tt e.inflight;
      refresh_slots = suc e.refresh_slots;
      running = spawn key request ∷ e.running;
    }
    else record e { stats = record e.stats { refresh_skipped = inc64 e.stats.refresh_skipped } }

-- ===== src/Examples/Engines.antt =====
-- A bidder engine with two bidders, and runs of one refresh.
use adserver.Cache.{remove_one}
use adserver.Dynamic.Engine.Lookups.{lookup-IsOpenFor}
use adserver.Dynamic.Sanitize.{sanitize_dynamic_bids}
use adserver.Dynamic.Engine.Bids.{IsOpenFor}
use adserver.Auction.{DynamicBid}
use adserver.Dynamic.Engine.{fetched, failed, lookup}
use adserver.Dynamic.Engine.Steps.{
  answered, leaves, Moved, Action, admit, answer, leave, store_results, collect, result_ttl,
  has_success, result_of, breaker_after, count_outcome,
}
use adserver.Dynamic.Breaker.{new_circuit_breaker, success, failure, allow}
use adserver.Common.Word.{inc64}
use adserver.Dynamic.Key.{dynamic_cache_key}
use adserver.Examples.{asked, dear}
use adserver.Dynamic.Engine.Invariant.{Reach-IsValid}
use mathlib.Core.Path.{subst}
use adserver.Common.Text.{Str, bytes, str_eq, is_empty, contains}
use adserver.Common.Int.{pos}
use adserver.Dynamic.Engine.Start.{Started, new_bidder_engine-IsValid}
use adserver.Common.{refl, true, inl, some, [], ◌∷◌, ◌≡◌, ◌+◌, ◌≤◌, List, ℕ, none, All, Option}
use adserver.Dynamic.Settings.{
  BidderConfig, fill_engine, default_bidder_engine_config, validate_engine, fill_bidder,
  is_over_limit, valid_bidder_id, are_id_bytes,
}
use adserver.Dynamic.Engine.Progress.{
  Moves, none_made, more, total_weight, total_weight-Moves, IsDrained, IsValid-drains,
}
use adserver.Dynamic.Engine.Runs.{IsValid, Reach, here, next, Move, move, triggers, moves, resume}
use adserver.Dynamic.Engine.{
  spawned, visiting, holding, trigger, no_stats, add_bidder, is_fresh, BidderEngine,
  new_bidder_engine, Stage, BidderRuntime, engine_of, Refresh, new_runtime, add_bidders,
  as_dsp_request, add_adapter,
}
use adserver.Dynamic.Engine.Steps.{goes, keys, advance, go_on, visit, acquire}
use adserver.Dynamic.BidCache.{get, fresh_bids, new_dynamic_bid_cache, put, put_entry}
use adserver.Common.Assoc.{store, load, has_key}

abbrev bidder : Str → BidderConfig
bidder id = record {
  adapter = some id;
  timeout = pos 60000000;
  max_concurrent = pos 1;
  failure_threshold = pos 3;
  circuit_open_for = pos 5000000000;
}

abbrev two_bidders : List BidderConfig
two_bidders = bidder (bytes "x") ∷ bidder (bytes "y") ∷ []

abbrev runtimes : List (Str × BidderRuntime)
runtimes =
    (bytes "x", new_runtime (bidder (bytes "x")))
    ∷ (bytes "y", new_runtime (bidder (bytes "y")))
    ∷ []

abbrev pub idle_engine : BidderEngine
idle_engine = engine_of default_bidder_engine_config runtimes

idle_engine-started :
    new_bidder_engine true default_bidder_engine_config two_bidders ≡ inl idle_engine
unfolding new_bidder_engine fill_engine validate_engine add_bidders add_adapter add_bidder
    fill_bidder is_over_limit valid_bidder_id are_id_bytes has_key store str_eq
    new_dynamic_bid_cache new_circuit_breaker is_empty
idle_engine-started = refl

idle_engine-IsValid : IsValid idle_engine
idle_engine-IsValid =
    subst Started idle_engine-started
      (new_bidder_engine-IsValid true default_bidder_engine_config two_bidders)

abbrev triggered : BidderEngine
triggered = trigger idle_engine (pos 1000) asked

abbrev refresh_of : Stage → ℕ → List Str → Refresh
refresh_of s n ws = record {
  key = dynamic_cache_key asked;
  request = as_dsp_request asked;
  stage = s;
  started = n;
  workers = ws;
  leaving = [];
  results = [];
}

triggered-running : triggered.running ≡ refresh_of spawned 0 [] ∷ []
unfolding trigger is_fresh get fresh_bids new_dynamic_bid_cache load has_key
triggered-running = refl

triggered-reached : Reach idle_engine triggered
triggered-reached = next here (triggers (pos 1000) asked)

-- The refresh has started, and then has the first bidder's token.
abbrev begun : BidderEngine
begun = record triggered { stats = record no_stats { refreshes = 1 } }

abbrev visits : BidderEngine
visits = resume begun [] (some (refresh_of (visiting (bytes "x" ∷ bytes "y" ∷ [])) 0 [])) []

abbrev token_taken : BidderEngine
token_taken = record visits {
  bidders = store (bytes "x") (record (new_runtime (bidder (bytes "x"))) { sem = 1 }) runtimes;
}

abbrev holds : BidderEngine
holds = resume token_taken [] (some (refresh_of (holding (bytes "x") (bytes "y" ∷ [])) 0 [])) []

begins : Move triggered visits
unfolding advance go_on keys trigger inc64 is_fresh get fresh_bids new_dynamic_bid_cache load
    has_key
begins =
    move [] [] (refresh_of spawned 0 []) (goes (pos 1000) (pos 1000) []) begun _ triggered-running
      refl

takes : Move visits holds
unfolding advance go_on visit acquire trigger is_fresh get fresh_bids new_dynamic_bid_cache load
    has_key resume str_eq store
takes =
    move [] [] (refresh_of (visiting (bytes "x" ∷ bytes "y" ∷ [])) 0 [])
      (goes (pos 1000) (pos 1000) []) token_taken _ refl refl

holds-reached : Reach idle_engine holds
holds-reached = next (next triggered-reached (moves begins)) (moves takes)

Reach-IsValid_example : IsValid holds
Reach-IsValid_example = Reach-IsValid idle_engine holds idle_engine-IsValid holds-reached

IsValid-drains_example : (n : ℕ) × (e : BidderEngine) × Moves holds n e × IsDrained e
IsValid-drains_example = IsValid-drains holds Reach-IsValid_example

total_weight-Moves_example : 2 + total_weight holds ≤ total_weight triggered
total_weight-Moves_example =
    total_weight-Moves triggered 2 holds (more (more none_made begins) takes)

-- The first refresh of an engine takes the steps for these actions, one after another.
abbrev made : BidderEngine → List Refresh → Moved → BidderEngine
made e after none = e
made e after (some (e', o)) = resume e' [] o after

abbrev step_of : BidderEngine → Action → List Refresh → BidderEngine
step_of e a [] = e
step_of e a (g ∷ after) = made e after (advance e g a)

abbrev drive : BidderEngine → List Action → BidderEngine
drive e [] = e
drive e (a ∷ rest) = drive (step_of e a e.running) rest

made-Reach :
    {s e : BidderEngine} (g : Refresh) (after : List Refresh) (a : Action) (m : Moved)
    → e.running ≡ g ∷ after
    → advance e g a ≡ m
    → Reach s e
    → Reach s (made e after m)
made-Reach g after a none q h r = r
made-Reach g after a (some (e', o)) q h r = next r (moves (move [] after g a e' o q h))

step_of-Reach :
    {s e : BidderEngine} (a : Action) (gs : List Refresh)
    → e.running ≡ gs
    → Reach s e
    → Reach s (step_of e a gs)
step_of-Reach a [] q r = r
step_of-Reach {e = e} a (g ∷ after) q r = made-Reach g after a (advance e g a) q refl r

drive-Reach :
    (s : BidderEngine) (actions : List Action) (e : BidderEngine)
    → Reach s e
    → Reach s (drive e actions)
drive-Reach s [] e r = r
drive-Reach s (a ∷ rest) e r =
    drive-Reach s rest (step_of e a e.running) (step_of-Reach a e.running refl r)

-- One bidder is asked and answers, and the refresh stores what it sent.
abbrev on : Action
on = goes (pos 1000) (pos 1000) []

abbrev actions : List Action
actions =
    on
    ∷ on
    ∷ on
    ∷ answered (bytes "x") (fetched (dear ∷ [])) (pos 1000)
    ∷ leaves (bytes "x")
    ∷ on
    ∷ on
    ∷ on
    ∷ answered (bytes "y") failed (pos 1000)
    ∷ leaves (bytes "y")
    ∷ on
    ∷ on
    ∷ []

abbrev refreshed : BidderEngine
refreshed = drive triggered actions

abbrev offered : List DynamicBid
offered = sanitize_dynamic_bids (bytes "x") (as_dsp_request asked) (dear ∷ [])

refreshed-offered : (lookup refreshed (pos 2000) asked).1 ≡ some offered
unfolding advance go_on visit acquire admit answer leave trigger lookup is_fresh get fresh_bids
    new_dynamic_bid_cache load has_key resume str_eq store keys inc64 store_results collect
    result_ttl has_success put put_entry result_of breaker_after count_outcome success failure allow
    new_circuit_breaker contains remove_one dynamic_cache_key adserver.Common.Decimal.format_int
    adserver.Common.Word.to_int64 adserver.Common.Int.◌+ℤ◌ adserver.Types.Bid.validate_dynamic
    adserver.Types.Bid.validate_with is_empty adserver.Types.Bid.normalize
    adserver.Common.Text.has_byte
refreshed-offered = refl

lookup-IsOpenFor_example : All (IsOpenFor (dynamic_cache_key asked)) offered
lookup-IsOpenFor_example =
    lookup-IsOpenFor true default_bidder_engine_config two_bidders idle_engine refreshed (pos 2000)
      asked offered idle_engine-started
      (drive-Reach idle_engine actions triggered triggered-reached) refreshed-offered

-- ===== src/Examples/Servers.antt =====
-- A server with a warm cache and its requests.
use adserver.Server.Balance.{IsBalanced, calm-IsBalanced}
use adserver.Auction.Offers.{offers}
use adserver.Server.Answers.{FairAnswer, auction-FairAnswer, dsp_bids}
use adserver.Server.Access.{authorized_iff}
use adserver.Server.Updates.{IsUpdated, upsert_bid-IsUpdated}
use adserver.Server.Accounts.{
  auctions, upserts, logs, deletes, checks, ServerEvent, serve_all, serve_all-IsBalanced,
  serve_all-IsBalanced,
}
use adserver.Store.{same_payload, tonumber, upsert_at, upsert_script}
use adserver.Dynamic.BidCache.{new_dynamic_bid_cache}
use adserver.Config.{config_from_env, number_var, number_or, text_or}
use adserver.Dynamic.Engine.{trigger, lookup, is_fresh, BidderEngine}
use adserver.Server.{
  request_id, response_of, count_decision, log_of, recorded, record_decision, ask_engine,
  auction_valid,
}
use adserver.DecisionLog.{new_decision_logger, record_entry}
use adserver.Dynamic.Key.{dynamic_cache_key}
use adserver.Types.Policy.{is_valid_policy}
use adserver.Common.Word.{to_int64, add64, mul64, quot64, rem64, inc64}
use adserver.Common.Decimal.{digits, format_int}
use adserver.Common.Assoc.{load, store, has_key}
use adserver.SortBids.{bid_less, sort_bids}
use adserver.Auctioneer.{filled, conclude, decide, run}
use adserver.Auction.{
  effective_price, matches, eligible, ranks_ahead, compete, consider, consider_bids,
  consider_dynamic, clearing_price, new_auctioneer, DynamicBid,
}
use adserver.Examples.Engines.{idle_engine}
use adserver.Examples.Configs.{configured}
use adserver.Examples.{dear, asked, cheap, plain}
use adserver.Common.Text.{bytes, str_eq, str_lt, is_empty, has_byte, contains}
use adserver.Server.Setup.{new_server, set_bidder_engine, new_server-IsBalanced}
use adserver.Common.Int.{pos, ◌+ℤ◌, ◌-ℤ◌, ◌*ℤ◌, quot_ℤ, rem_ℤ}
use adserver.Types.Bid.{Bid, AuctionRequest, validate_with, normalize, is_valid_request, validate}
use adserver.Examples.Sorting.{insertion_sort}
use adserver.Common.{true, false, some, [], ◌∷◌, ◌≡◌, refl, none, ◌⊎◌, ◌++◌, ◌↔◌, List}
use adserver.Cache.{
  BidCache, new_bid_cache, default_cache_policy, refresh, is_valid_cache_policy, sub_time,
  snapshot_of, refresh_async, BidList,
}
use adserver.Dynamic.BidCache.{get, fresh_bids}
use adserver.Store.Client.{
  answers, upsert, upsert_checked, upsert_payload, write, after_sadd, after_script, announced,
  retry_topology, or_again, attempt, sadd, publish, eval_script, hashes_of, hashes_at,
}
use adserver.Server.{
  answers, Server, Body, AuctionResponse, Readings, AuctionReply, auction, decode_json, digits36,
  request_id,
}
use adserver.Examples.Clients.{no_registry, steady, lossy, encode}
use adserver.Server.Bids.{
  updated, Links, upsert_bid, authorized, MutationReply, trim_prefix, drop_prefix, upsert_decoded,
  mutated, upsert_reply, is_stale, count_mutation,
}

abbrev server_cache : BidCache
server_cache =
    (refresh insertion_sort (new_bid_cache (default_cache_policy (pos 1000))) (bytes "top")
      (some (cheap ∷ dear ∷ [])) (pos 40)).0

abbrev pub server : Server
server = new_server configured no_registry server_cache

abbrev pub with_engine : Server
with_engine = set_bidder_engine server idle_engine

with_engine-IsBalanced : IsBalanced with_engine
unfolding set_bidder_engine
with_engine-IsBalanced =
    calm-IsBalanced server with_engine refl refl refl refl refl
      (new_server-IsBalanced configured no_registry server_cache refl)

abbrev pub readings : Readings
readings = record {
  looked_up = pos 50;
  triggered = pos 51;
  cache_now = pos 52;
  unix_now = pos 60;
  selection_us = pos 4;
  handler_us = pos 9;
}

abbrev pub asks : Body AuctionRequest
asks = record { decoded = some asked; at_end = true }

abbrev pub sends : Body Bid
sends = record { decoded = some dear; at_end = true }

abbrev pub links : Links
links = record { sadd_link = steady; eval_link = lossy; publish_link = steady }

-- A bid of a DSP, which the engine of a server holds.
abbrev offer : DynamicBid
offer = record { bid = plain (bytes "dsp:c") (pos 8000000) (pos 0); bidder_id = bytes "dsp" }

abbrev offering_engine : BidderEngine
offering_engine = record idle_engine {
  cache = record (idle_engine.cache) {
    entries = (dynamic_cache_key asked, record { bids = offer ∷ []; expires_ns = pos 1000 }) ∷ [];
    count = pos 1;
  };
}

abbrev offering : Server
offering = set_bidder_engine server offering_engine

-- The reply to the auction.
abbrev reply : AuctionReply
reply = (auction offering readings [] asks).1

abbrev response : AuctionResponse
response = record {
  request_id = bytes "a-1";
  status = bytes "filled";
  pricing_model = bytes "first_price";
  bid = some offer.bid;
  effective_price_micros = pos 4000000;
  clearing_price_micros = pos 4000000;
  no_bid_reason = [];
  served_stale = false;
  snapshot_age_ms = pos 0;
  dynamic_bidder_id = bytes "dsp";
  selection_latency_us = pos 4;
}

reply-response : reply ≡ answers response
unfolding effective_price matches eligible ranks_ahead compete consider consider_bids
    consider_dynamic clearing_price new_auctioneer filled conclude decide run default_cache_policy
    is_valid_cache_policy new_bid_cache sub_time snapshot_of refresh_async refresh bid_less
    sort_bids load store has_key digits format_int ◌+ℤ◌ ◌-ℤ◌ ◌*ℤ◌ quot_ℤ rem_ℤ str_eq str_lt
    is_empty has_byte contains to_int64 add64 mul64 quot64 rem64 inc64 validate_with normalize
    is_valid_request is_valid_policy dynamic_cache_key new_decision_logger record_entry decode_json
    digits36 request_id response_of count_decision log_of recorded record_decision ask_engine
    auction_valid auction trigger lookup fresh_bids is_fresh new_server set_bidder_engine
    config_from_env number_var number_or text_or get adserver.Cache.get new_dynamic_bid_cache
reply-response = refl

auction-FairAnswer_example :
    (request : AuctionRequest) × (l : BidList) × (o : DynamicBid) × (decode_json asks
      ≡ some request)
    × (is_valid_request request ≡ true)
    × (load request.placement_id offering.cache.entries ≡ some (some l))
    × FairAnswer request readings.unix_now
        (offers l.bids (dsp_bids offering.bidder_engine readings.looked_up request))
        response
        offer.bid
        o
auction-FairAnswer_example =
    auction-FairAnswer offering readings [] asks response offer.bid reply-response refl

abbrev events : List ServerEvent
events =
    auctions readings (bytes "id") asks
    ∷ upserts links (bytes "Bearer secret") (bytes "b") sends
    ∷ logs
    ∷ auctions readings [] asks
    ∷ deletes links (bytes "secret") (bytes "b") (bytes "top") (bytes "2")
    ∷ checks false
    ∷ []

serve_all-IsBalanced_example : IsBalanced (serve_all encode with_engine events)
serve_all-IsBalanced_example = serve_all-IsBalanced encode with_engine events with_engine-IsBalanced

authorized_iff_example : (authorized server (bytes "Bearer secret") ≡ true) ↔ (
    (server.admin_token ≡ [])
    ⊎ (bytes "Bearer secret" ≡ bytes "Bearer " ++ server.admin_token)
    ⊎ ((drop_prefix (bytes "Bearer ") (bytes "Bearer secret") ≡ none)
        × (bytes "Bearer secret" ≡ server.admin_token)))
authorized_iff_example = authorized_iff server (bytes "Bearer secret")

-- The first answer of the script is lost, and the second says that the bid is already there.
abbrev upserted : Server × MutationReply
upserted = upsert_bid encode server links (bytes "Bearer secret") (bytes "b") sends

upserted-reply : upserted.1 ≡ updated dear
unfolding upsert_bid authorized trim_prefix drop_prefix upsert_decoded mutated upsert_reply is_stale
    count_mutation decode_json upsert upsert_checked upsert_payload write after_sadd after_script
    announced retry_topology or_again attempt sadd publish eval_script hashes_of hashes_at
    upsert_script upsert_at same_payload tonumber load store contains str_eq normalize validate
    validate_with is_empty has_byte new_server config_from_env number_var number_or text_or
upserted-reply = refl

upsert_bid-IsUpdated_example :
    (authorized server (bytes "Bearer secret") ≡ true)
    × ((bid : Bid) × (decode_json sends ≡ some bid) × (dear ≡ normalize bid))
    × IsUpdated encode server upserted.0 (bytes "b") dear
upsert_bid-IsUpdated_example =
    upsert_bid-IsUpdated encode server links (bytes "Bearer secret") (bytes "b") sends dear
      upserted-reply

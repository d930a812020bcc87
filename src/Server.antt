-- ===== src/Server.antt =====
-- internal/ads/server.go: the handlers of the HTTP server. What net/http and encoding/json make of a
-- request is an argument: its header fields, path and query values, and its decoded body. A reply is the
-- status and the value that are written; the clock's readings are arguments.
pub mod Bids
pub mod Access
pub mod Updates
pub mod Answers
pub mod Balance
pub mod Accounts
pub mod Setup
pub mod Page
pub mod Handler
use adserver.DecisionLog.{panics, returns}
use adserver.Cache.{BidCache}
use adserver.Auction.{DynamicBid}
use adserver.Store.Client.{Registry}
use adserver.Types.Bid.{AuctionRequest, Bid, is_valid_request}
use adserver.Dynamic.Engine.{BidderEngine, lookup, trigger}
use adserver.Types.Policy.{AuctionPolicy}
use adserver.Auctioneer.{AuctionDecision, run, filled}
use adserver.Metrics.{Metrics, record_auction}
use adserver.DecisionLog.{Recorded, DecisionLog, returns, record_entry, DecisionLogger}
use adserver.Common.Text.{Str, is_empty, bytes, str_eq}
use adserver.Common.Word.{inc64, quot64}
use adserver.Common.Int.{ℤ, pos}
use adserver.Common.{
  true, false, some, none, zero, suc, [], ◌∷◌, ◌+◌, ◌++◌, if◌then◌else◌, Option, ℕ, Bool, ltb, ◌/◌,
  ◌%◌, List, not,
}

pub record Server : Type 0 where
  pub admin_token : Str
  pub policy : AuctionPolicy
  pub registry : Registry
  pub cache : BidCache
  pub metrics : Metrics
  pub decision_logger : Option DecisionLogger
  pub bidder_engine : Option BidderEngine
  pub request_number : ℕ

-- What a decoder that disallows unknown fields, behind a reader of at most 64 KiB, makes of a body: the
-- value of the first `Decode`, and whether the second one is at the end.
pub record Body (A : Type 0) : Type 0 where
  pub decoded : Option A
  pub at_end : Bool

unfoldable pub decode_json : {A : Type 0} → Body A → Option A
decode_json body = if body.at_end then body.decoded else none

pub record AuctionResponse : Type 0 where
  pub request_id : Str
  pub status : Str
  pub pricing_model : Str
  pub bid : Option Bid
  pub effective_price_micros : ℤ
  pub clearing_price_micros : ℤ
  pub no_bid_reason : Str
  pub served_stale : Bool
  pub snapshot_age_ms : ℤ
  pub dynamic_bidder_id : Str
  pub selection_latency_us : ℤ

-- A panic in a handler ends its request.
pub data AuctionReply : Type 0 where
  bad_request panicked : AuctionReply
  answers : AuctionResponse → AuctionReply

-- `strconv.FormatUint(n, 36)` of a number of at most `fuel` digits; thirteen hold 64 bits.
abbrev digit36 : ℕ → ℕ
digit36 d = if ltb d 10 then 48 + d else 87 + d

unfoldable pub digits36 : ℕ → ℕ → Str
digits36 zero n = []
digits36 (suc fuel) n =
    let rest = digits36 fuel (n / 36) in
    if ltb n 36 then digit36 n ∷ [] else rest ++ digit36 (n % 36) ∷ []

-- `requestID`: the header's, or the next number's.
unfoldable pub request_id : ℕ → Str → ℕ × Str
unfolding digits36
request_id number header =
    if is_empty header
    then (inc64 number, bytes "a-" ++ digits36 13 (inc64 number))
    else (number, header)

-- `Duration.Milliseconds`.
abbrev pub milliseconds : ℤ → ℤ
milliseconds d = quot64 d (pos 1000000)

unfoldable pub response_of :
    Str → AuctionPolicy → ℤ → AuctionDecision → Option Bid → AuctionResponse
response_of id policy selection_us d none = record {
  request_id = id;
  status = bytes "no_bid";
  pricing_model = policy.pricing_model;
  bid = none;
  effective_price_micros = pos 0;
  clearing_price_micros = pos 0;
  no_bid_reason = d.no_bid_reason;
  served_stale = d.served_stale;
  snapshot_age_ms = milliseconds d.snapshot_age;
  dynamic_bidder_id = [];
  selection_latency_us = selection_us;
}
response_of id policy selection_us d (some b) = record {
  request_id = id;
  status = bytes "filled";
  pricing_model = policy.pricing_model;
  bid = some b;
  effective_price_micros = d.effective_price_micros;
  clearing_price_micros = d.clearing_price_micros;
  no_bid_reason = d.no_bid_reason;
  served_stale = d.served_stale;
  snapshot_age_ms = milliseconds d.snapshot_age;
  dynamic_bidder_id = d.dynamic_bidder_id;
  selection_latency_us = selection_us;
}

-- The counters behind a decision.
unfoldable pub count_decision : Metrics → AuctionDecision → Metrics
count_decision m d = record m {
  served_stale = if d.served_stale then inc64 m.served_stale else m.served_stale;
  stale_no_bid =
      if str_eq d.no_bid_reason (bytes "stale_snapshot")
      then inc64 m.stale_no_bid
      else m.stale_no_bid;
  dynamic_wins = if is_empty d.dynamic_bidder_id then m.dynamic_wins else inc64 m.dynamic_wins;
}

unfoldable pub log_of : Str → Str → AuctionPolicy → AuctionDecision → Option Bid → DecisionLog
log_of id placement policy d bid = record {
  request_id = id;
  placement_id = placement;
  pricing_model = policy.pricing_model;
  eligible_candidates = d.eligible_candidates;
  winner_bid_id = elim bid [ none ↦ [] | some b ↦ b.id ];
  winner_deal_id = elim bid [ none ↦ [] | some b ↦ b.deal_id ];
  winner_priority = elim bid [ none ↦ pos 0 | some b ↦ b.priority ];
  effective_price_micros = d.effective_price_micros;
  clearing_price_micros = d.clearing_price_micros;
  no_bid_reason = d.no_bid_reason;
  served_stale = d.served_stale;
  snapshot_age_ms = milliseconds d.snapshot_age;
  dynamic_bidder_id = d.dynamic_bidder_id;
}

-- The end of `recordDecision`; whether the handler goes on.
unfoldable pub recorded : Server → Recorded → Server × Bool
recorded s panics = (s, false)
recorded s (returns logger true) = (record s { decision_logger = logger }, true)
recorded s (returns logger false) = (
  record s {
    decision_logger = logger;
    metrics = record s.metrics { decision_log_dropped = inc64 s.metrics.decision_log_dropped };
  },
  true,
)

unfoldable pub record_decision : Server → Str → Str → AuctionDecision → Server × Bool
unfolding log_of recorded
record_decision s id placement d =
    recorded s (record_entry s.decision_logger (log_of id placement s.policy d d.bid))

-- The clock's readings in a request, and the two latencies that it measures.
pub record Readings : Type 0 where
  pub looked_up : ℤ
  pub triggered : ℤ
  pub cache_now : ℤ
  pub unix_now : ℤ
  pub selection_us : ℤ
  pub handler_us : ℤ

-- The DSP bids of a request, and the refresh that it may trigger.
unfoldable pub ask_engine :
    Option BidderEngine → Readings → AuctionRequest → Option BidderEngine × List DynamicBid
ask_engine none t request = (none, [])
ask_engine (some e) t request =
    let (e', bids) = lookup e t.looked_up request in
    (some (trigger e' t.triggered request), elim bids [ none ↦ [] | some bs ↦ bs ])

-- The handler behind its validation.
unfoldable pub auction_valid : Server → Readings → Str → AuctionRequest → Server × AuctionReply
unfolding ask_engine request_id count_decision record_decision response_of
auction_valid s t header request =
    let (engine, dynamic) = ask_engine s.bidder_engine t request in
    let (cache, d) = run s.policy s.cache t.cache_now t.unix_now request dynamic in
    let (number, id) = request_id s.request_number header in
    let s1 : Server = record s {
      bidder_engine = engine;
      cache = cache;
      request_number = number;
      metrics = count_decision s.metrics d;
    } in
    let (s2, on) = record_decision s1 id request.placement_id d in
    (
      record s2 { metrics = record_auction s2.metrics (filled d) t.selection_us t.handler_us },
      if on then answers (response_of id s.policy t.selection_us d d.bid) else panicked,
    )

unfoldable pub refuse : Server → Server
refuse s = record s { metrics = record s.metrics { bad_requests = inc64 s.metrics.bad_requests } }

unfoldable pub auction : Server → Readings → Str → Body AuctionRequest → Server × AuctionReply
unfolding refuse auction_valid decode_json
auction s t header body = elim (decode_json body) [
  | none ↦ (refuse s, bad_request)
  | some request ↦
      if not (is_valid_request request)
      then (refuse s, bad_request)
      else auction_valid s t header request
]

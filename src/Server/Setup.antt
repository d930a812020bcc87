-- ===== src/Server/Setup.antt =====
-- internal/ads/server.go: how a server starts and ends.
use adserver.Common.Int.{ltb_ℤ, pos, pos_part}
use adserver.Metrics.{new_metrics}
use adserver.Cache.{BidCache}
use adserver.Store.Client.{Registry}
use adserver.Dynamic.Engine.{BidderEngine}
use adserver.Config.{Config}
use adserver.Server.{Server}
use adserver.DecisionLog.{new_decision_logger, close_entries}
use adserver.Auction.{new_auctioneer}
use adserver.Common.{refl, true, false, some, none, [], ◌≡◌, if◌then◌else◌}
use adserver.Server.Balance.{IsBalanced}

unfoldable pub new_server : Config → Registry → BidCache → Server
unfolding new_auctioneer new_decision_logger
new_server c registry cache = record {
  admin_token = c.admin_token;
  policy = new_auctioneer c.auction_policy;
  registry = registry;
  cache = cache;
  metrics = new_metrics;
  decision_logger = new_decision_logger c.decision_logging c.decision_log_buffer;
  bidder_engine = none;
  request_number = 0;
}

unfoldable pub set_bidder_engine : Server → BidderEngine → Server
set_bidder_engine s e = record s { bidder_engine = some e }

unfoldable pub close : Server → Server
unfolding close_entries
close s = record s {
  decision_logger = elim s.decision_logger [ none ↦ none | some d ↦ some (close_entries d) ];
}

-- A new server with decision logging has balanced accounts.
pub new_server-IsBalanced :
    (c : Config) (registry : Registry) (cache : BidCache)
    → c.decision_logging ≡ true
    → IsBalanced (new_server c registry cache)
unfolding new_server new_decision_logger
new_server-IsBalanced c registry cache h = record {
  filled_or_not = refl;
  logger = record {
    capacity = if ltb_ℤ c.decision_log_buffer (pos 1) then 4096 else pos_part c.decision_log_buffer;
    entries = [];
    written = [];
    dropped = 0;
    is_closed = false;
    is_done = false;
  };
  logs_to = rw h refl;
  is_open = refl;
  dropped_alike = refl;
  logged = refl;
}

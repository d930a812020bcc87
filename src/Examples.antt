-- ===== src/Examples.antt =====
-- Bids, requests and caches to run the definitions on. The modules below hold tests and each
-- theorem at a concrete input.
pub mod Auctions
pub mod Sorting
pub mod Clients
pub mod Snapshots
pub mod Stores
pub mod Dsps
pub mod Circuits
pub mod Records
pub mod Engines
pub mod Servers
pub mod Configs
pub mod Processes
pub mod Requests
pub mod Messages
pub mod Loads
pub mod Lifecycles
use adserver.Common.Int.{ℤ, pos}
use adserver.Common.Text.{Str, bytes}
use adserver.Types.Bid.{Bid, AuctionRequest}
use adserver.Auction.{DynamicBid}
use adserver.Types.Policy.{AuctionPolicy, second_price}
use adserver.Common.{[]}

abbrev pub plain : Str → ℤ → ℤ → Bid
plain id price priority = record {
  id = id;
  revision = 1;
  placement_id = bytes "top";
  campaign_id = bytes "campaign";
  creative_id = bytes "creative";
  markup = [];
  click_url = [];
  price_micros = price;
  floor_micros = pos 500000;
  deal_id = bytes "deal";
  priority = priority;
  pacing_bps = pos 5000;
  countries = [];
  devices = [];
  active_from_unix = pos 0;
  active_to_unix = pos 0;
}

abbrev pub cheap : Bid
cheap = plain (bytes "a") (pos 2000000) (pos 0)

abbrev pub dear : Bid
dear = plain (bytes "b") (pos 4000000) (pos 0)

abbrev pub from_dsp : DynamicBid
from_dsp = record { bid = plain (bytes "c") (pos 3000000) (pos 0); bidder_id = bytes "dsp" }

abbrev pub asked : AuctionRequest
asked = record {
  placement_id = bytes "top";
  user_id = [];
  country = bytes "DE";
  device = bytes "mobile";
  floor_micros = pos 100000;
}

abbrev pub second : AuctionPolicy
second = record { pricing_model = second_price; second_price_increment_micros = pos 1 }

-- ===== src/Auctioneer.antt =====
-- internal/ads/auction.go, `run`: an auction over the cached snapshot. The two clock readings of a
-- run are arguments; the refresh that it starts is a change of the cache.
pub mod Decisions
pub mod Published
pub mod Runs
pub mod Answered
pub mod Withdrawn
use adserver.Common.Text.{Str, bytes}
use adserver.Auction.{
  Accumulator, DynamicBid, consider_dynamic, clearing_price, consider_bids, new_accumulator,
}
use adserver.Common.Int.{pos, ℤ}
use adserver.Cache.{BidCache, SnapshotState, get, refresh_async}
use adserver.Types.Bid.{Bid, AuctionRequest}
use adserver.Types.Policy.{AuctionPolicy}
use adserver.Common.{ℕ, Option, none, Bool, false, [], some, true, List, if◌then◌else◌, not, ◌&&◌}

pub record AuctionDecision : Type 0 where
  pub bid : Option Bid
  pub effective_price_micros : ℤ
  pub clearing_price_micros : ℤ
  pub eligible_candidates : ℕ
  pub no_bid_reason : Str
  pub served_stale : Bool
  pub snapshot_age : ℤ
  pub dynamic_bidder_id : Str

abbrev pub no_decision : AuctionDecision
no_decision = record {
  bid = none;
  effective_price_micros = pos 0;
  clearing_price_micros = pos 0;
  eligible_candidates = 0;
  no_bid_reason = [];
  served_stale = false;
  snapshot_age = pos 0;
  dynamic_bidder_id = [];
}

unfoldable pub filled : AuctionDecision → Bool
filled d = elim d.bid [ none ↦ false | some b ↦ true ]

-- The end of `run`, from the accumulator after both loops.
unfoldable pub conclude :
    AuctionPolicy → AuctionRequest → SnapshotState → Accumulator → Option Bid → AuctionDecision
conclude policy request snapshot a none = record no_decision {
  eligible_candidates = a.candidates;
  no_bid_reason = bytes "no_eligible_bid";
  served_stale = snapshot.stale;
  snapshot_age = snapshot.age;
}
conclude policy request snapshot a (some w) = record {
  bid = some w;
  effective_price_micros = a.winner_price;
  clearing_price_micros =
      clearing_price policy w a.winner_price a.runner_up_price request.floor_micros;
  eligible_candidates = a.candidates;
  no_bid_reason = [];
  served_stale = snapshot.stale;
  snapshot_age = snapshot.age;
  dynamic_bidder_id = a.winner_bidder_id;
}

-- The auction over a snapshot that is served.
unfoldable pub decide :
    AuctionPolicy
    → AuctionRequest
    → SnapshotState
    → ℤ
    → List Bid
    → List DynamicBid
    → AuctionDecision
unfolding conclude
decide policy request snapshot now_unix bids dynamic =
    let a = consider_dynamic (consider_bids (new_accumulator request now_unix) bids) dynamic in
    conclude policy request snapshot a a.winner

unfoldable pub run :
    AuctionPolicy → BidCache → ℤ → ℤ → AuctionRequest → List DynamicBid → BidCache × AuctionDecision
run policy cache now_ns now_unix request dynamic =
    let (bids, snapshot) = get cache now_ns request.placement_id in
    if not snapshot.found
    then (
      refresh_async cache request.placement_id,
      record no_decision { no_bid_reason = bytes "cold_cache" },
    )
    else let after = if snapshot.stale then refresh_async cache request.placement_id else cache in
      if snapshot.stale && snapshot.reject_stale
      then (
        after,
        record no_decision { no_bid_reason = bytes "stale_snapshot"; snapshot_age = snapshot.age },
      )
      else (after, decide policy request snapshot now_unix bids dynamic)

-- `Select`.
unfoldable pub select :
    AuctionPolicy → BidCache → ℤ → ℤ → AuctionRequest → BidCache × Option Bid × Bool
select policy cache now_ns now_unix request =
    let (after, d) = run policy cache now_ns now_unix request [] in (after, d.bid, filled d)

-- ===== src/Dynamic/Sanitize.antt =====
-- internal/ads/dynamic_bidding.go, `sanitizeDynamicBids`: what becomes of the bids that a DSP returns.
pub mod Laws
use adserver.Auction.{DynamicBid}
use adserver.Types.Bid.{Bid, normalize, validate_dynamic}
use adserver.Common.Int.{ℤ, pos}
use adserver.Common.Text.{Str, str_eq}
use adserver.Common.{ℕ, some, none, [], ◌∷◌, ◌++◌, if◌then◌else◌, List, not}

pub record DspRequest : Type 0 where
  pub placement_id : Str
  pub country : Str
  pub device : Str
  pub floor_micros : ℤ

-- The bid as the loop leaves it before it validates it.
unfoldable pub as_open_bid : Str → Bid → Bid
as_open_bid bidder_id b = record (normalize b) {
  revision = 0;
  priority = pos 0;
  deal_id = [];
  id = bidder_id ++ (b':' ∷ b.id);
}

unfoldable pub sanitize_dynamic_bids : Str → DspRequest → List Bid → List DynamicBid
unfolding as_open_bid
sanitize_dynamic_bids bidder_id request [] = []
sanitize_dynamic_bids bidder_id request (b ∷ bs) =
    let rest = sanitize_dynamic_bids bidder_id request bs in
    let open_bid = as_open_bid bidder_id b in
    if not (str_eq b.placement_id request.placement_id)
    then rest
    else elim (validate_dynamic open_bid) [
      | some e ↦ rest
      | none ↦ record { bid = open_bid; bidder_id = bidder_id } ∷ rest
    ]

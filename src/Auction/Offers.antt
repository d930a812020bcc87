-- ===== src/Auction/Offers.antt =====
-- The offers of an auction as one list: the snapshot's bids with no bidder, then the DSP bids. The
-- two loops of `run` are one pass over it.
use adserver.Common.{◌≡◌, refl, List, [], ◌∷◌, ◌++◌, map}
use adserver.Common.Int.{ℤ}
use adserver.Types.Bid.{Bid, AuctionRequest}
use adserver.Auction.{
  DynamicBid, Accumulator, consider, consider_bids, consider_dynamic, new_accumulator,
}

abbrev pub static_offer : Bid → DynamicBid
static_offer b = record { bid = b; bidder_id = [] }

abbrev pub offers : List Bid → List DynamicBid → List DynamicBid
offers bids dynamic = map static_offer bids ++ dynamic

pub consider_dynamic-append :
    (a : Accumulator) (bids : List Bid) (dynamic : List DynamicBid)
    → consider_dynamic a (offers bids dynamic) ≡ consider_dynamic (consider_bids a bids) dynamic
unfolding consider_dynamic consider_bids
consider_dynamic-append a [] dynamic = refl
consider_dynamic-append a (b ∷ bids) dynamic =
    consider_dynamic-append (consider a b []) bids dynamic

-- The accumulator at the end of both loops.
abbrev pub outcome : AuctionRequest → ℤ → List Bid → List DynamicBid → Accumulator
outcome request now bids dynamic =
    consider_dynamic (consider_bids (new_accumulator request now) bids) dynamic

-- ===== src/Types.antt =====
-- internal/ads/types.go and the records of internal/ads/auction.go that carry a bid: bids and
-- their validation, auction requests, the auction policy.
pub mod Bid
pub mod Policy

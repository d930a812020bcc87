-- ===== src/Dynamic.antt =====
-- internal/ads/dynamic_bidding.go: the DSP bids. The parts are modules of their own: the local cache of
-- DSP results, the circuit breaker of a bidder, the cache key, and the cleaning of a DSP's answer.
pub mod BidCache
pub mod Engine
pub mod HttpBidder
pub mod Settings
pub mod Breaker
pub mod Key
pub mod Sanitize

-- ===== src/Dynamic/Engine/Lookups.antt =====
-- internal/ads/dynamic_bidding.go, `BidderEngine`: what the engine hands to the auctions.
use adserver.Dynamic.Engine.Bids.{IsOpenFor, load-IsOpenFor}
use adserver.Dynamic.Settings.{
  BidderEngineConfig, EngineError, BidderConfig, fill_engine, validate_engine,
}
use adserver.Common.Word.{to_int64}
use mathlib.Core.Path.{subst}
use adserver.Common.Int.{ℤ, leb_ℤ}
use adserver.Dynamic.Key.{dynamic_cache_key}
use adserver.Auction.{DynamicBid}
use adserver.Types.Bid.{AuctionRequest}
use adserver.Common.Text.{Str}
use adserver.Common.{
  inl, inr, some, none, [], ◌≡◌, All, List, Option, Bool-cases, refl, true, false, ◌∙◌, ap, Bool,
  Option-cases, ◌⊎◌,
}
use adserver.Dynamic.Engine.Runs.{Reach}
use adserver.Dynamic.Engine.{
  BidderEngine, BidderRuntime, lookup, new_bidder_engine, engine_of, add_bidders,
}
use adserver.Dynamic.BidCache.{get, DynamicBidList, fresh_bids, new_dynamic_bid_cache}
use adserver.Common.Assoc.{load}
use adserver.Dynamic.Engine.Open.{HoldsOpen, Reach-HoldsOpen}

abbrev StartsOpen : BidderEngine ⊎ EngineError → Type 0
StartsOpen (inl e) = HoldsOpen e
StartsOpen (inr x) = Unit

new_bidder_engine-StartsOpen :
    (has_context : Bool) (c : BidderEngineConfig) (cs : List BidderConfig)
    → StartsOpen (new_bidder_engine has_context c cs)
unfolding new_bidder_engine new_dynamic_bid_cache
new_bidder_engine-StartsOpen false c cs = tt
new_bidder_engine-StartsOpen true c cs = elim (Option-cases (validate_engine (fill_engine c))) [
  | inr (x, h) ↦ rw h tt
  | inl h ↦ rw h (opened (add_bidders [] cs))
]
  where
    opened :
        (x : List (Str × BidderRuntime) ⊎ EngineError)
        → StartsOpen
            (elim x [ inr e ↦ inr e | inl bidders ↦ inl (engine_of (fill_engine c) bidders) ])
    opened (inl m) = record { entries = tt; sourced = tt }
    opened (inr e) = tt

get-IsOpenFor :
    (o : Option DynamicBidList) (now : ℤ) (k : Str) (bids : List DynamicBid)
    → ((l : DynamicBidList) → o ≡ some l → All (IsOpenFor k) l.bids)
    → fresh_bids o now ≡ some bids
    → All (IsOpenFor k) bids
unfolding fresh_bids
get-IsOpenFor none now k bids f h = absurd (cc)
get-IsOpenFor (some l) now k bids f h = elim (Bool-cases (leb_ℤ l.expires_ns (to_int64 now))) [
  | inl t ↦ let r = rw t at h in absurd (cc)
  | inr t ↦
      let r = rw t at h in
      subst (All (IsOpenFor k)) (ap (λ o. elim o [ none ↦ l.bids | some x ↦ x ]) r) (f l refl)
]

lookup-get :
    (e : BidderEngine) (now : ℤ) (request : AuctionRequest) (bids : List DynamicBid)
    → (lookup e now request).1 ≡ some bids
    → get e.cache now (dynamic_cache_key request) ≡ some bids
unfolding lookup
lookup-get e now request bids h =
    elim (Option-cases (get e.cache now (dynamic_cache_key request))) [
      | inl t ↦ let r = rw (lookup, t) at h in absurd (cc)
      | inr (found, t) ↦ let r = rw (lookup, t) at h in t ∙ r
    ]

-- Whatever the requests were and however the goroutines interleave from the constructor on: every bid
-- that a lookup finds was sanitised for a request with the same cache key. It is for that request's
-- placement, has priority 0, no deal and no revision, and passes the validation of DSP bids.
pub lookup-IsOpenFor :
    (has_context : Bool) (c : BidderEngineConfig) (cs : List BidderConfig) (s e : BidderEngine)
    → (now : ℤ) (request : AuctionRequest) (bids : List DynamicBid)
    → new_bidder_engine has_context c cs ≡ inl s
    → Reach s e
    → (lookup e now request).1 ≡ some bids
    → All (IsOpenFor (dynamic_cache_key request)) bids
unfolding get
lookup-IsOpenFor has_context c cs s e now request bids made r h =
    let v : HoldsOpen s = subst StartsOpen made (new_bidder_engine-StartsOpen has_context c cs) in
    let w = Reach-HoldsOpen r v in
    let k = dynamic_cache_key request in
    get-IsOpenFor (load k e.cache.entries) now k bids
      (λ l q. load-IsOpenFor k e.cache.entries l w.entries q) (lookup-get e now request bids h)

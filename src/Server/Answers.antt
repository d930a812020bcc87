-- ===== src/Server/Answers.antt =====
-- internal/ads/server.go, `auction`: what an answer to an auction says.
use adserver.Common.Word.{to_int64}
use adserver.Dynamic.Key.{dynamic_cache_key}
use adserver.Dynamic.BidCache.{DynamicBidList, fresh_bids}
use adserver.Dynamic.Engine.{BidderEngine, lookup}
use mathlib.Core.Path.{subst}
use adserver.Auctioneer.Decisions.{Fair, decide-Fair}
use adserver.Types.Policy.{AuctionPolicy}
use adserver.Auctioneer.Runs.{run_cases, served, decline}
use adserver.Dynamic.BidCache.{get, fresh_bids}
use adserver.Auctioneer.{AuctionDecision, run}
use adserver.Auction.Offers.{offers}
use adserver.Common.Assoc.{load}
use adserver.Cache.{BidList}
use adserver.Auction.Winner.{is_candidate}
use mathlib.Core.List.{Mem}
use adserver.Common.Text.{Str, bytes}
use adserver.Auction.{DynamicBid, ranks_ahead, effective_price}
use adserver.Common.Int.{ℤ, max_ℤ, ◌≤ℤ◌, ltb_ℤ, leb_ℤ}
use adserver.Types.Bid.{AuctionRequest, Bid, is_valid_request}
use adserver.Server.{
  auction, Server, Readings, AuctionResponse, Body, answers, decode_json, ask_engine, auction_valid,
  response_of, panicked, request_id,
}
use adserver.Common.{
  true, false, some, ◌≡◌, List, All, refl, inl, inr, none, ◌∙◌, if◌then◌else◌, Bool, Option-cases,
  Option, Bool-cases, sym, ap, [], arith,
}

-- The eligible offer `o` with the bid `b` is the best of the offers, and the response reports it.
abbrev pub FairAnswer :
    AuctionRequest → ℤ → List DynamicBid → AuctionResponse → Bid → DynamicBid → Type 0
FairAnswer request now all r b o =
    Mem o all
    × (o.bid ≡ b)
    × (is_candidate request now o ≡ true)
    × All
        (λ x.
          is_candidate request now x ≡ true
          → ranks_ahead x.bid (effective_price x.bid) b (effective_price b) ≡ false)
        all
    × (r.dynamic_bidder_id ≡ o.bidder_id)
    × (r.effective_price_micros ≡ effective_price b)
    × (max_ℤ request.floor_micros b.floor_micros ≤ℤ r.clearing_price_micros)
    × (r.clearing_price_micros ≤ℤ r.effective_price_micros)
    × (r.status ≡ bytes "filled")

-- The bids of an entry that has not expired.
abbrev pub unexpired : Option DynamicBidList → ℤ → List DynamicBid
unexpired none now = []
unexpired (some l) now = if ltb_ℤ (to_int64 now) l.expires_ns then l.bids else []

-- The DSP bids that an engine holds for a request: those under its key, until they expire.
abbrev pub dsp_bids : Option BidderEngine → ℤ → AuctionRequest → List DynamicBid
dsp_bids none now request = []
dsp_bids (some e) now request = unexpired (load (dynamic_cache_key request) e.cache.entries) now

abbrev bids_or_none : Option (List DynamicBid) → List DynamicBid
bids_or_none none = []
bids_or_none (some bs) = bs

fresh_bids-unexpired :
    (o : Option DynamicBidList) (now : ℤ) → bids_or_none (fresh_bids o now) ≡ unexpired o now
unfolding fresh_bids
fresh_bids-unexpired none now = refl
fresh_bids-unexpired (some l) now = elim (Bool-cases (leb_ℤ l.expires_ns (to_int64 now))) [
  | inl x ↦ let y : ltb_ℤ (to_int64 now) l.expires_ns ≡ false = ground arith in rw (x, y) refl
  | inr x ↦ let y : ltb_ℤ (to_int64 now) l.expires_ns ≡ true = ground arith in rw (x, y) refl
]

lookup-get :
    (e : BidderEngine) (now : ℤ) (request : AuctionRequest)
    → (lookup e now request).1 ≡ get e.cache now (dynamic_cache_key request)
unfolding lookup
lookup-get e now request = elim (Option-cases (get e.cache now (dynamic_cache_key request))) [
  | inl m ↦ rw (lookup, m) refl
  | inr (bs, m) ↦ rw (lookup, m) refl
]

ask_engine-some :
    (e : BidderEngine) (t : Readings) (request : AuctionRequest)
    → (ask_engine (some e) t request).1 ≡ bids_or_none (lookup e t.looked_up request).1
unfolding ask_engine
ask_engine-some e t request = refl

ask_engine-dsp_bids :
    (o : Option BidderEngine) (t : Readings) (request : AuctionRequest)
    → (ask_engine o t request).1 ≡ dsp_bids o t.looked_up request
unfolding ask_engine get
ask_engine-dsp_bids none t request = refl
ask_engine-dsp_bids (some e) t request =
    ask_engine-some e t request
    ∙ ap bids_or_none (lookup-get e t.looked_up request)
    ∙ fresh_bids-unexpired (load (dynamic_cache_key request) e.cache.entries) t.looked_up

-- The decision behind an answer.
abbrev pub decision_of : Server → Readings → AuctionRequest → AuctionDecision
decision_of s t request =
    (run s.policy s.cache t.cache_now t.unix_now request (ask_engine s.bidder_engine t request).1).1

if_answers :
    (on : Bool) (x r : AuctionResponse) → (if on then answers x else panicked) ≡ answers r → x ≡ r
if_answers true x r h = cc
if_answers false x r h = cc

auction_valid-eq-answers :
    (s : Server) (t : Readings) (header : Str) (request : AuctionRequest) (r : AuctionResponse)
    → (auction_valid s t header request).1 ≡ answers r
    → let d = decision_of s t request in
      response_of (request_id s.request_number header).1 s.policy t.selection_us d d.bid ≡ r
unfolding auction_valid
auction_valid-eq-answers s t header request r h = if_answers _ _ r h

response_of-bid :
    (id : Str) (p : AuctionPolicy) (us : ℤ) (d : AuctionDecision) (o : Option Bid)
    → (response_of id p us d o).bid ≡ o
unfolding response_of
response_of-bid id p us d none = refl
response_of-bid id p us d (some b) = refl

abbrev DecidedFairly : Server → Readings → AuctionRequest → AuctionDecision → Bid → Type 0
DecidedFairly s t request d b =
    (l : BidList) × (o : DynamicBid) × (load request.placement_id s.cache.entries ≡ some (some l))
    × Fair request t.unix_now (offers l.bids (ask_engine s.bidder_engine t request).1) d b o

decline-no_bid :
    (reason : Str) (age : ℤ) (d : AuctionDecision) (b : Bid)
    → d ≡ decline reason age
    → d.bid ≡ some b
    → ⊥
decline-no_bid reason age d b e h = let k = ap (λ x. x.bid) e in cc

decision_of-DecidedFairly :
    (s : Server) (t : Readings) (request : AuctionRequest) (b : Bid)
    → (decision_of s t request).bid ≡ some b
    → DecidedFairly s t request (decision_of s t request) b
decision_of-DecidedFairly s t request b h =
    let dynamic = (ask_engine s.bidder_engine t request).1 in
    elim (run_cases s.policy s.cache t.cache_now t.unix_now request dynamic) [
      | inl (_, c) ↦ absurd (decline-no_bid _ _ _ b c.1 h)
      | inr (l, e, inl c) ↦ absurd (decline-no_bid _ _ _ b c.3 h)
      | inr (l, e, inr c) ↦
          let q = c.2 in
          let f =
            decide-Fair s.policy request (served s.cache t.cache_now l) t.unix_now l.bids dynamic b
              (sym (ap (λ x. x.bid) q) ∙ h) in
          (
            l,
            f.0,
            e,
            subst (λ x. Fair request t.unix_now (offers l.bids dynamic) x b f.0) (sym q) f.1,
          )
    ]

response_of-FairAnswer :
    (request : AuctionRequest) (now : ℤ) (all : List DynamicBid) (id : Str) (p : AuctionPolicy)
    → (us : ℤ) (d : AuctionDecision) (b : Bid) (o : DynamicBid) (r : AuctionResponse)
    → Fair request now all d b o
    → response_of id p us d (some b) ≡ r
    → FairAnswer request now all r b o
unfolding response_of
response_of-FairAnswer request now all id p us d b o r f e =
    subst (λ x. FairAnswer request now all x b o) e (f.0, f.1, f.2, f.3, f.4, f.5, f.6, f.7, refl)

-- An answer with a bid is given to a valid request only, from a snapshot that the cache holds for its
-- placement, and reports the best eligible offer of that snapshot and of the DSP bids that the engine, if
-- there is one, holds under the request's key and that have not expired at the lookup, with its own
-- effective price and bidder, at a price between the floor and that price.
pub auction-FairAnswer :
    (s : Server) (t : Readings) (header : Str) (body : Body AuctionRequest) (r : AuctionResponse)
    → (b : Bid) → (auction s t header body).1 ≡ answers r
    → r.bid ≡ some b
    → (request : AuctionRequest) × (l : BidList) × (o : DynamicBid) × (decode_json body
        ≡ some request)
      × (is_valid_request request ≡ true)
      × (load request.placement_id s.cache.entries ≡ some (some l))
      × FairAnswer request t.unix_now
          (offers l.bids (dsp_bids s.bidder_engine t.looked_up request))
          r
          b
          o
unfolding auction
auction-FairAnswer s t header body r b h k = elim (Option-cases (decode_json body)) [
  | inl e ↦ let q = rw (e, auction) at h in absurd (cc)
  | inr (request, e) ↦ elim (Bool-cases (is_valid_request request)) [
    | inr n ↦ let q = rw (e, n, auction) at h in absurd (cc)
    | inl y ↦
        let q = rw (e, y, auction) at h in
        let a = auction_valid-eq-answers s t header request r q in
        let d = decision_of s t request in
        let id = (request_id s.request_number header).1 in
        let won =
          sym (response_of-bid id s.policy t.selection_us d d.bid) ∙ ap (λ x. x.bid) a ∙ k in
        let (l, o, found, f) = decision_of-DecidedFairly s t request b won in
        let reported = ap (response_of id s.policy t.selection_us d) (sym won) ∙ a in
        (
          request,
          l,
          o,
          e,
          y,
          found,
          subst (λ xs. FairAnswer request t.unix_now (offers l.bids xs) r b o)
              (ask_engine-dsp_bids s.bidder_engine t request)
              (response_of-FairAnswer request t.unix_now _ id s.policy _ d b o r f reported),
        )
  ]
]

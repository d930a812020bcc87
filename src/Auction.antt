-- ===== src/Auction.antt =====
-- internal/ads/auction.go: eligibility, ranking, the accumulator of an auction, clearing prices and
-- the auction itself over a cached snapshot. The clocks of the auctioneer and of the cache are
-- arguments. The last two operations read the bid cache of `Cache`.
pub mod Price
pub mod Rank
pub mod Offers
pub mod Winner
pub mod RunnerUp
pub mod Standing
pub mod Clearing
pub mod Agreement
pub mod Snapshot
use adserver.Common.{
  ℕ, suc, ◌≡◌, Bool, true, false, not, ◌&&◌, ◌||◌, List, [], ◌∷◌, Option, none, some, if◌then◌else◌,
  Option-cases,
}
use adserver.Common.Int.{ℤ, pos, ltb_ℤ, leb_ℤ, eqb_ℤ, max_ℤ}
use adserver.Common.Word.{add64, mul64, quot64, rem64}
use adserver.Common.Text.{Str, bytes, str_eq, str_lt, contains}
use adserver.Types.Bid.{Bid, AuctionRequest}
use adserver.Types.Policy.{AuctionPolicy, first_price, default_auction_policy, is_valid_policy}

unfoldable pub effective_price : Bid → ℤ
effective_price b =
    add64 (mul64 (quot64 b.price_micros (pos 10000)) b.pacing_bps)
      (quot64 (mul64 (rem64 b.price_micros (pos 10000)) b.pacing_bps) (pos 10000))

-- No restriction allows every value.
unfoldable pub matches : List Str → Str → Bool
matches [] value = true
matches (x ∷ xs) value = contains (x ∷ xs) value

unfoldable pub eligible : Bid → AuctionRequest → ℤ → ℤ → Bool
eligible b request now_unix price =
    if ltb_ℤ price (max_ℤ request.floor_micros b.floor_micros)
    then false
    else if not (eqb_ℤ b.active_from_unix (pos 0)) && ltb_ℤ now_unix b.active_from_unix
    then false
    else if not (eqb_ℤ b.active_to_unix (pos 0)) && leb_ℤ b.active_to_unix now_unix
    then false
    else matches b.countries request.country && matches b.devices request.device

unfoldable pub ranks_ahead : Bid → ℤ → Bid → ℤ → Bool
ranks_ahead candidate candidate_price winner winner_price =
    if not (eqb_ℤ candidate.priority winner.priority)
    then ltb_ℤ winner.priority candidate.priority
    else if not (eqb_ℤ candidate_price winner_price)
    then ltb_ℤ winner_price candidate_price
    else str_lt candidate.id winner.id

pub record DynamicBid : Type 0 where
  pub bid : Bid
  pub bidder_id : Str

-- `auctionAccumulator`: the winner is a pointer, which `none` models when it is nil.
pub record Accumulator : Type 0 where
  pub request : AuctionRequest
  pub now_unix : ℤ
  pub winner : Option Bid
  pub winner_price : ℤ
  pub runner_up_price : ℤ
  pub candidates : ℕ
  pub winner_bidder_id : Str

-- The part of `consider` behind the eligibility test, with the winner so far taken apart.
unfoldable pub compete : Accumulator → Option Bid → Bid → Str → ℤ → Accumulator
compete a none bid bidder_id price = record a {
  winner = some bid;
  winner_price = price;
  runner_up_price = pos 0;
  winner_bidder_id = bidder_id;
}
compete a (some w) bid bidder_id price =
    if ranks_ahead bid price w a.winner_price
    then record a {
      winner = some bid;
      winner_price = price;
      runner_up_price = if eqb_ℤ bid.priority w.priority then a.winner_price else pos 0;
      winner_bidder_id = bidder_id;
    }
    else if eqb_ℤ bid.priority w.priority && ltb_ℤ a.runner_up_price price
    then record a { runner_up_price = price }
    else a

-- `a.candidates++`.
abbrev pub counted : Accumulator → Accumulator
counted a = record a { candidates = suc a.candidates }

unfoldable pub consider : Accumulator → Bid → Str → Accumulator
unfolding compete
consider a bid bidder_id =
    if not (eligible bid a.request a.now_unix (effective_price bid))
    then a
    else compete (counted a) a.winner bid bidder_id (effective_price bid)

abbrev pub new_accumulator : AuctionRequest → ℤ → Accumulator
new_accumulator request now_unix = record {
  request = request;
  now_unix = now_unix;
  winner = none;
  winner_price = pos 0;
  runner_up_price = pos 0;
  candidates = 0;
  winner_bidder_id = [];
}

-- The two loops of `run`.
unfoldable pub consider_bids : Accumulator → List Bid → Accumulator
consider_bids a [] = a
consider_bids a (b ∷ bs) = consider_bids (consider a b []) bs

unfoldable pub consider_dynamic : Accumulator → List DynamicBid → Accumulator
consider_dynamic a [] = a
consider_dynamic a (d ∷ ds) = consider_dynamic (consider a d.bid d.bidder_id) ds

unfoldable pub clearing_price : AuctionPolicy → Bid → ℤ → ℤ → ℤ → ℤ
clearing_price policy winner winner_price runner_up_price request_floor =
    let floor = max_ℤ request_floor winner.floor_micros in
    let second_price = add64 runner_up_price policy.second_price_increment_micros in
    if str_eq policy.pricing_model first_price
    then winner_price
    else if eqb_ℤ runner_up_price (pos 0)
    then floor
    else max_ℤ floor (
        if ltb_ℤ second_price runner_up_price || ltb_ℤ winner_price second_price
        then winner_price
        else second_price)

unfoldable pub new_auctioneer : AuctionPolicy → AuctionPolicy
new_auctioneer policy = if not (is_valid_policy policy) then default_auction_policy else policy

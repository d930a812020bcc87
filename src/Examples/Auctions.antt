-- ===== src/Examples/Auctions.antt =====
-- Auctions over two bids of the snapshot and one of a DSP.
use adserver.Auctioneer.Answered.{Answered, run-Answered}
use mathlib.Core.List.Perm
use adserver.Auction.Standing.{outcome-runner_up}
use adserver.Auction.RunnerUp.{IsRunnerUp}
use mathlib.Core.List.{Perm, Mem}
use adserver.Auction.Winner.{is_candidate, Dominated, WonBy, count_candidates, outcome-best}
use adserver.Auction.Price.{effective_price-of_valid}
use adserver.Auction.Clearing.{clearing_price-second}
use adserver.Auction.Agreement.{SameRank, outcome-SameRank}
use adserver.Types.Policy.{first_price}
use adserver.Common.Text.{contains, str_lt, str_eq, is_empty, has_byte, bytes}
use adserver.Common.Word.{add64, mul64, quot64, rem64, to_int64}
use adserver.Types.Bid.{Bid, validate_with}
use adserver.Examples.{dear, from_dsp, cheap, asked, second}
use adserver.Common.Int.{pos, ◌+ℤ◌, ◌-ℤ◌, ◌*ℤ◌, quot_ℤ, rem_ℤ, ◌≤ℤ◌}
use adserver.Auction.Offers.{outcome, offers, static_offer}
use adserver.Auctioneer.Decisions.{Fair, decide-Fair}
use adserver.Auctioneer.{decide, AuctionDecision, conclude, run}
use adserver.Auction.{
  DynamicBid, consider_dynamic, consider_bids, consider, compete, eligible, effective_price,
  matches, ranks_ahead, clearing_price, Accumulator,
}
use adserver.Cache.{SnapshotState, BidList, BidCache, new_bid_cache, default_cache_policy}
use adserver.Common.{refl, true, false, some, [], ◌∷◌, ◌≡◌, List, none, ◌⊎◌, All, arith}

abbrev snapshot : SnapshotState
snapshot = record { found = true; stale = false; reject_stale = false; age = pos 7 }

abbrev bids : List Bid
bids = cheap ∷ dear ∷ []

abbrev dynamic : List DynamicBid
dynamic = from_dsp ∷ []

abbrev decided : AuctionDecision
decided = decide second asked snapshot (pos 50) bids dynamic

decided-clears : decided.clearing_price_micros ≡ pos 1500001
unfolding decide conclude consider_dynamic consider_bids consider compete eligible effective_price
    add64 mul64 quot64 rem64 to_int64 ◌+ℤ◌ ◌-ℤ◌ ◌*ℤ◌ quot_ℤ rem_ℤ matches contains ranks_ahead
    str_lt str_eq clearing_price
decided-clears = refl

decided-bid : decided.bid ≡ some dear
unfolding decide conclude consider_dynamic consider_bids consider compete eligible effective_price
    add64 mul64 quot64 rem64 to_int64 ◌+ℤ◌ ◌-ℤ◌ ◌*ℤ◌ quot_ℤ rem_ℤ matches contains ranks_ahead
    str_lt str_eq clearing_price
decided-bid = refl

decide-Fair_example : (o : DynamicBid) × Fair asked (pos 50) (offers bids dynamic) decided dear o
decide-Fair_example = decide-Fair second asked snapshot (pos 50) bids dynamic dear decided-bid

abbrev reached : Accumulator
reached = outcome asked (pos 50) bids dynamic

outcome-best_example :
    All (λ o. is_candidate asked (pos 50) o ≡ true → Dominated reached o) (offers bids dynamic)
    × ((reached.winner ≡ none)
        ⊎ ((o : DynamicBid) × Mem o (offers bids dynamic) × WonBy asked (pos 50) reached o))
    × (reached.candidates ≡ count_candidates asked (pos 50) (offers bids dynamic))
outcome-best_example = outcome-best asked (pos 50) bids dynamic

outcome-runner_up_example :
    ((reached.winner ≡ none)
      × All (λ o. is_candidate asked (pos 50) o ≡ false) (offers bids dynamic))
    ⊎ ((o : DynamicBid) × (others : List DynamicBid) × Perm (offers bids dynamic) (o ∷ others)
        × WonBy asked (pos 50) reached o
        × IsRunnerUp asked (pos 50) o.bid.priority reached.runner_up_price others)
outcome-runner_up_example = outcome-runner_up asked (pos 50) bids dynamic

outcome-SameRank_example :
    SameRank
      (outcome asked (pos 50) (cheap ∷ dear ∷ []) dynamic)
      (outcome asked (pos 50) (dear ∷ cheap ∷ []) dynamic)
outcome-SameRank_example =
    outcome-SameRank asked (pos 50) (cheap ∷ dear ∷ []) (dear ∷ cheap ∷ []) dynamic dynamic
      (Perm.swap (static_offer dear) (static_offer cheap) dynamic)

dear-valid : validate_with dear true ≡ none
unfolding validate_with is_empty has_byte
dear-valid = refl

effective_price-of_valid_example :
    (effective_price dear ≡ pos 2000000)
    × (pos 0 ≤ℤ effective_price dear)
    × (effective_price dear ≤ℤ pos 4000000)
effective_price-of_valid_example =
    effective_price-of_valid dear true (omega arith, omega arith) dear-valid

second-pricing : str_eq second.pricing_model first_price ≡ false
unfolding str_eq
second-pricing = refl

clearing_price-second_example :
    clearing_price second dear (pos 2000000) (pos 1500000) (pos 100000) ≡ pos 1500001
clearing_price-second_example =
    clearing_price-second second dear 2000000 1500000 1 500000 second-pricing refl (omega arith)
      (omega arith) (omega arith) (omega arith) (pos 100000) refl

abbrev aged : BidList
aged = record { bids = bids; refreshed_at_ns = pos 0 }

abbrev warm : BidCache
warm = record (new_bid_cache (default_cache_policy (pos 1000))) {
  entries = (bytes "top", some aged) ∷ [];
}

abbrev served_run : BidCache × AuctionDecision
served_run = run second warm (pos 5000000000) (pos 5) asked dynamic

run-Answered_example : Answered second warm (pos 5000000000) (pos 5) asked dynamic served_run
run-Answered_example = run-Answered second warm (pos 5000000000) (pos 5) asked dynamic

-- ===== src/Auctioneer/Decisions.antt =====
-- What `run` answers on each of its branches.
use mathlib.Core.Path.{subst}
use adserver.Auction.RunnerUp.{Dominated-iff}
use adserver.Auction.Clearing.{clearing_price_bounds}
use adserver.Auction.Winner.{is_candidate, WonBy, Dominated, count_candidates, outcome-best}
use adserver.Auction.Offers.{offers, outcome}
use mathlib.Core.List.{Mem}
use adserver.Auction.{
  DynamicBid, effective_price, eligible, Accumulator, ranks_ahead, clearing_price,
}
use adserver.Common.Int.{ℤ, max_ℤ, ◌≤ℤ◌}
use adserver.Cache.{SnapshotState}
use adserver.Types.Bid.{AuctionRequest, Bid}
use adserver.Types.Policy.{AuctionPolicy}
use adserver.Auctioneer.{decide, conclude, AuctionDecision}
use adserver.Common.{
  refl, List, ◌≡◌, some, true, All, false, arith, none, ◌⊎◌, All-mono, inl, inr, Option, sym,
}

-- The eligible offer `o` with the bid `b` is the best, and the decision reports and prices it.
abbrev pub Fair : AuctionRequest → ℤ → List DynamicBid → AuctionDecision → Bid → DynamicBid → Type 0
Fair request now all d b o =
    Mem o all
    × (o.bid ≡ b)
    × (is_candidate request now o ≡ true)
    × All
        (λ x.
          is_candidate request now x ≡ true
          → ranks_ahead x.bid (effective_price x.bid) b (effective_price b) ≡ false)
        all
    × (d.dynamic_bidder_id ≡ o.bidder_id)
    × (d.effective_price_micros ≡ effective_price b)
    × (max_ℤ request.floor_micros b.floor_micros ≤ℤ d.clearing_price_micros)
    × (d.clearing_price_micros ≤ℤ d.effective_price_micros)

-- An eligible bid meets both floors.
eligible-floor :
    (b : Bid) (request : AuctionRequest) (now price : ℤ)
    → eligible b request now price ≡ true
    → max_ℤ request.floor_micros b.floor_micros ≤ℤ price
unfolding eligible
eligible-floor b request now price h = ground arith

conclude-Fair :
    (policy : AuctionPolicy) (request : AuctionRequest) (snapshot : SnapshotState) (now : ℤ)
    → (a : Accumulator) (all : List DynamicBid) (o : DynamicBid) → Mem o all
    → WonBy request now a o
    → All (λ x. is_candidate request now x ≡ true → Dominated a x) all
    → Fair request now all (conclude policy request snapshot a (some o.bid)) o.bid o
unfolding conclude
conclude-Fair policy request snapshot now a all o m won best = (
  m,
  refl,
  won.3,
  All-mono _ _ (λ x h c. rw won.1 at ((Dominated-iff request now a x o.bid won.0).0 (h c))) all
      best,
  won.2,
  won.1,
  bounds.0,
  bounds.1,
)
  where
    bounds :
        (max_ℤ request.floor_micros o.bid.floor_micros
          ≤ℤ clearing_price policy o.bid a.winner_price a.runner_up_price request.floor_micros)
        × (clearing_price policy o.bid a.winner_price a.runner_up_price request.floor_micros
            ≤ℤ a.winner_price)
    bounds =
        clearing_price_bounds policy o.bid a.winner_price a.runner_up_price request.floor_micros
          (rw won.1 (eligible-floor o.bid request now (effective_price o.bid) won.3))

none-ne-some : (b : Bid) → ◌≡◌ {A = Option Bid} none (some b) → ⊥
none-ne-some b e = cc

conclude-none :
    (policy : AuctionPolicy) (request : AuctionRequest) (snapshot : SnapshotState)
    → (a : Accumulator) (b : Bid) → (conclude policy request snapshot a none).bid ≡ some b
    → ◌≡◌ {A = Option Bid} none (some b)
unfolding conclude
conclude-none policy request snapshot a b e = e

conclude-some :
    (policy : AuctionPolicy) (request : AuctionRequest) (snapshot : SnapshotState)
    → (a : Accumulator) (w b : Bid) → (conclude policy request snapshot a (some w)).bid ≡ some b
    → w ≡ b
unfolding conclude
conclude-some policy request snapshot a w b e = cc

-- When a decision is filled, its bid is an eligible offer of the snapshot or of a DSP that no eligible
-- offer outranks, with its own effective price and bidder id, and the clearing price lies between
-- the floor and that price, under either pricing model.
pub decide-Fair :
    (policy : AuctionPolicy) (request : AuctionRequest) (snapshot : SnapshotState) (now : ℤ)
    → (bids : List Bid) (dynamic : List DynamicBid) (b : Bid)
    → (decide policy request snapshot now bids dynamic).bid ≡ some b
    → (o : DynamicBid) × Fair request now
        (offers bids dynamic)
        (decide policy request snapshot now bids dynamic)
        b
        o
unfolding decide
decide-Fair policy request snapshot now bids dynamic b e =
    finish best.1 (outcome-best request now bids dynamic).0
  where
    a : Accumulator
    a = outcome request now bids dynamic

    best :
        All (λ o. is_candidate request now o ≡ true → Dominated a o) (offers bids dynamic)
        × ((a.winner ≡ none)
            ⊎ ((o : DynamicBid) × Mem o (offers bids dynamic) × WonBy request now a o))
        × (a.candidates ≡ count_candidates request now (offers bids dynamic))
    best = outcome-best request now bids dynamic

    finish :
        (a.winner ≡ none) ⊎ ((o : DynamicBid) × Mem o (offers bids dynamic) × WonBy request now a o)
        → All (λ o. is_candidate request now o ≡ true → Dominated a o) (offers bids dynamic)
        → (o : DynamicBid) × Fair request now
            (offers bids dynamic)
            (conclude policy request snapshot a a.winner)
            b
            o
    finish (inl absent) all = absurd (
        none-ne-some b (
          conclude-none policy request snapshot a b
            (subst (λ w. (conclude policy request snapshot a w).bid ≡ some b) absent e)))
    finish (inr (o, m, won)) all = (
      o,
      subst
          (λ v.
            Fair request now (offers bids dynamic) (conclude policy request snapshot a a.winner) v
              o)
          (conclude-some policy request snapshot a o.bid b
            (subst (λ w. (conclude policy request snapshot a w).bid ≡ some b) won.0 e))
          (subst
            (λ w.
              Fair request now (offers bids dynamic) (conclude policy request snapshot a w) o.bid o)
            (sym won.0)
            (conclude-Fair policy request snapshot now a (offers bids dynamic) o m won all)),
    )

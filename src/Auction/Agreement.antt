-- ===== src/Auction/Agreement.antt =====
-- The order of the offers does not matter for the rank of the winner.
use adserver.Auction.RunnerUp.{Dominated-iff}
use adserver.Auction.Rank.{ranks_ahead_connex}
use adserver.Auction.Offers.{offers, outcome}
use adserver.Auction.Winner.{
  Dominated, WonBy, is_candidate, NotAheadOf, count_candidates, outcome-best,
}
use adserver.Common.Int.{ℤ}
use adserver.Auction.{Accumulator, DynamicBid, effective_price}
use adserver.Types.Bid.{AuctionRequest, Bid}
use mathlib.Core.HLevel.{⊥_prop, Π_prop}
use mathlib.Core.List.Perm
use mathlib.Core.Path.{subst}
use mathlib.Core.List.{Perm, Mem}
use adserver.Common.{◌≡◌, none, List, ◌⊎◌, All, Option, some, true, All-mem, inr, ◌∙◌, sym, inl}

pub Dominated-prop : (a : Accumulator) (o : DynamicBid) → IsProp (Dominated a o)
Dominated-prop a o = of_winner a.winner
  where
    of_winner : (w : Option Bid) → IsProp (NotAheadOf o w a.winner_price)
    of_winner none = ⊥_prop
    of_winner (some w) = hlevel

-- Two winners are of one rank: both are absent, or priority, price and id agree.
abbrev pub SameRank : Accumulator → Accumulator → Type 0
SameRank a b =
    ((a.winner ≡ none) × (b.winner ≡ none))
    ⊎ ((v : Bid) × (w : Bid) × (a.winner ≡ some v)
        × (b.winner ≡ some w)
        × (v.priority ≡ w.priority)
        × (a.winner_price ≡ b.winner_price)
        × (v.id ≡ w.id))

module _ (request : AuctionRequest) (now : ℤ) where
  covers :
      (a : Accumulator) (xs ys : List DynamicBid) (o : DynamicBid)
      → All (λ x. is_candidate request now x ≡ true → Dominated a x) xs
      → Perm xs ys
      → Mem o ys
      → is_candidate request now o ≡ true
      → Dominated a o
  covers a xs ys o h p m =
      All-mem (λ x. is_candidate request now x ≡ true → Dominated a x)
        (λ x. Π_prop (λ _. Dominated-prop a x)) xs h ((Perm.mem_iff p).1 m)

  compare_winners :
      (a b : Accumulator) (x y : DynamicBid)
      → WonBy request now a x
      → WonBy request now b y
      → Dominated b x
      → Dominated a y
      → SameRank a b
  compare_winners a b x y u v h k =
      let same =
        ranks_ahead_connex x.bid y.bid (effective_price x.bid) (effective_price y.bid)
          (rw v.1 at ((Dominated-iff request now b x y.bid v.0).0 h))
          (rw u.1 at ((Dominated-iff request now a y x.bid u.0).0 k)) in
      inr (x.bid, y.bid, u.0, v.0, same.0, u.1 ∙ same.1 ∙ sym v.1, same.2)

  no_winner :
      (a b : Accumulator) (y : DynamicBid)
      → a.winner ≡ none
      → WonBy request now b y
      → Dominated a y
      → ⊥
  no_winner a b y e v d = subst (λ w. NotAheadOf y w a.winner_price) e d

  -- Two auctions over the same offers, whichever order they come in and whichever of them are the
  -- snapshot's, have no winner, or winners of equal priority, effective price and id.
  pub outcome-SameRank :
      (bids bids' : List Bid) (dynamic dynamic' : List DynamicBid)
      → Perm (offers bids dynamic) (offers bids' dynamic')
      → SameRank (outcome request now bids dynamic) (outcome request now bids' dynamic')
  outcome-SameRank bids bids' dynamic dynamic' p = decide left.1 right.1
    where
      a : Accumulator
      a = outcome request now bids dynamic

      b : Accumulator
      b = outcome request now bids' dynamic'

      left :
          All (λ o. is_candidate request now o ≡ true → Dominated a o) (offers bids dynamic)
          × ((a.winner ≡ none)
              ⊎ ((o : DynamicBid) × Mem o (offers bids dynamic) × WonBy request now a o))
          × (a.candidates ≡ count_candidates request now (offers bids dynamic))
      left = outcome-best request now bids dynamic

      right :
          All (λ o. is_candidate request now o ≡ true → Dominated b o) (offers bids' dynamic')
          × ((b.winner ≡ none)
              ⊎ ((o : DynamicBid) × Mem o (offers bids' dynamic') × WonBy request now b o))
          × (b.candidates ≡ count_candidates request now (offers bids' dynamic'))
      right = outcome-best request now bids' dynamic'

      in_a :
          (o : DynamicBid)
          → Mem o (offers bids' dynamic')
          → is_candidate request now o ≡ true
          → Dominated a o
      in_a o m = covers a _ _ o left.0 p m

      in_b :
          (o : DynamicBid)
          → Mem o (offers bids dynamic)
          → is_candidate request now o ≡ true
          → Dominated b o
      in_b o m = covers b _ _ o right.0 (Perm.symm p) m

      decide :
          (a.winner ≡ none)
            ⊎ ((o : DynamicBid) × Mem o (offers bids dynamic) × WonBy request now a o)
          → (b.winner ≡ none)
            ⊎ ((o : DynamicBid) × Mem o (offers bids' dynamic') × WonBy request now b o)
          → SameRank a b
      decide (inl e) (inl f) = inl (e, f)
      decide (inl e) (inr (y, m, v)) = absurd (no_winner a b y e v (in_a y m v.3))
      decide (inr (x, m, u)) (inl f) = absurd (no_winner b a x f u (in_b x m u.3))
      decide (inr (x, m, u)) (inr (y, n, v)) =
          compare_winners a b x y u v (in_b x m u.3) (in_a y n v.3)

-- ===== src/Auction/Snapshot.antt =====
-- Without DSP bids the winner is the first eligible bid of a sorted snapshot.
use adserver.Auction.Winner.{IsFor}
use adserver.Auction.Offers.{outcome}
use adserver.SortBids.{sort_bids, IsRanked, sort_bids-IsRanked}
use adserver.Common.Sorting.{SliceSort}
use adserver.Common.Int.{ℤ}
use adserver.Types.Bid.{AuctionRequest, Bid}
use adserver.Auction.{
  consider, consider_bids, consider_dynamic, Accumulator, effective_price, ranks_ahead,
  new_accumulator, eligible,
}
use mathlib.Core.List.{Pairwise, Mem, mem-cons_self, mem-cons_of_mem}
use adserver.Common.{
  refl, ◌≡◌, List, All, ◌∷◌, some, Option, none, if◌then◌else◌, [], inl, false, true, arith, inr,
  ◌⊎◌, ap, ◌∙◌,
}

unfoldable pub first_eligible : AuctionRequest → ℤ → List Bid → Option Bid
first_eligible request now [] = none
first_eligible request now (b ∷ bs) =
    if eligible b request now (effective_price b) then some b else first_eligible request now bs

-- A bid that is not eligible, or does not outrank the winner, leaves the winner.
keep_winner :
    (a : Accumulator) (w b : Bid)
    → a.winner ≡ some w
    → a.winner_price ≡ effective_price w
    → ranks_ahead b (effective_price b) w (effective_price w) ≡ false
    → ((consider a b []).winner ≡ some w) × ((consider a b []).winner_price ≡ effective_price w)
unfolding consider
keep_winner a w b e p h = ground arith

keep-All :
    (a : Accumulator) (w : Bid) (bs : List Bid)
    → a.winner ≡ some w
    → a.winner_price ≡ effective_price w
    → All (λ b. ranks_ahead b (effective_price b) w (effective_price w) ≡ false) bs
    → (consider_bids a bs).winner ≡ some w
unfolding consider_bids
keep-All a w [] e p h = e
keep-All a w (b ∷ bs) e p h =
    let next = keep_winner a w b e p h.0 in keep-All (consider a b []) w bs next.0 next.1 h.1

All-of_mem {ℓ κ} :
    {A : Type ℓ} (P : A → Type κ) (xs : List A) → ((x : A) → Mem x xs → P x) → All P xs
All-of_mem P [] h = tt
All-of_mem P (x ∷ xs) h = (h x mem-cons_self, All-of_mem P xs (λ y m. h y (mem-cons_of_mem x m)))

first_step :
    (request : AuctionRequest) (now : ℤ) (a : Accumulator) (b : Bid)
    → IsFor request now a
    → a.winner ≡ none
    → let a' = consider a b [] in
      ((eligible b request now (effective_price b) ≡ true)
        × (a'.winner ≡ some b)
        × (a'.winner_price ≡ effective_price b))
      ⊎ ((eligible b request now (effective_price b) ≡ false) × (a' ≡ a))
unfolding consider
first_step request now a b f e = ground arith

loop_first :
    (request : AuctionRequest) (now : ℤ) (a : Accumulator) (bs : List Bid)
    → IsFor request now a
    → a.winner ≡ none
    → IsRanked bs
    → (consider_bids a bs).winner ≡ first_eligible request now bs
unfolding consider_bids first_eligible
loop_first request now a [] f e r = e
loop_first request now a (b ∷ bs) f e (Pairwise.cons after r) =
    elim (first_step request now a b f e) [
      | inl (c, w, p) ↦ rw c (keep-All (consider a b []) b bs w p (All-of_mem _ bs after))
      | inr (c, same) ↦
          rw c (ap (λ t. (consider_bids t bs).winner) same ∙ loop_first request now a bs f e r)
    ]

-- On a sorted snapshot and without DSP bids the winner is the first eligible bid.
pub outcome-first_eligible :
    (request : AuctionRequest) (now : ℤ) (s : SliceSort Bid) (bids : List Bid)
    → (outcome request now (sort_bids s bids) []).winner
      ≡ first_eligible request now (sort_bids s bids)
unfolding consider_dynamic
outcome-first_eligible request now s bids =
    loop_first request now (new_accumulator request now) (sort_bids s bids) (refl, refl) refl
      (sort_bids-IsRanked s bids)

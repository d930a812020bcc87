-- ===== src/SortBids.antt =====
-- internal/ads/store.go, `sortBids`: the comparison of the snapshots' sort, and the order of a snapshot.
use adserver.Common.Sorting.{SliceSort, IsStrictWeak}
use adserver.Common.Text.{str_lt}
use adserver.Common.Int.{eqb_ℤ, ltb_ℤ}
use adserver.Types.Bid.{Bid}
use adserver.Auction.{ranks_ahead, effective_price}
use adserver.Auction.Rank.{ranks_ahead_irrefl, ranks_ahead_trans, not_ahead_chain}
use mathlib.Core.List.Pairwise
use adserver.Common.{refl}
use mathlib.Core.List.{Perm, Pairwise}
use adserver.Common.{◌≡◌, List, Bool, if◌then◌else◌, false, not}

unfoldable pub bid_less : Bid → Bid → Bool
bid_less a b =
    let left = effective_price a in
    let right = effective_price b in
    if not (eqb_ℤ a.priority b.priority)
    then ltb_ℤ b.priority a.priority
    else if not (eqb_ℤ left right)
    then ltb_ℤ right left
    else str_lt a.id b.id

unfoldable pub sort_bids : SliceSort Bid → List Bid → List Bid
sort_bids s bids = s.sort bid_less bids

-- The sort and the auction order bids alike.
pub bid_less-eq-ranks_ahead :
    (a b : Bid) → bid_less a b ≡ ranks_ahead a (effective_price a) b (effective_price b)
unfolding bid_less ranks_ahead
bid_less-eq-ranks_ahead a b = refl

-- The comparison of the snapshots' sort is irreflexive and transitive, and so is its complement
-- transitive: it meets the contract of `sort.Slice`.
pub bid_less-IsStrictWeak : IsStrictWeak bid_less
bid_less-IsStrictWeak = record {
  irrefl = λ a. rw (bid_less-eq-ranks_ahead a a) (ranks_ahead_irrefl a (effective_price a));
  trans = λ a b c h k. rw (bid_less-eq-ranks_ahead a c) (
      ranks_ahead_trans a b c (effective_price a) (effective_price b) (effective_price c)
        (rw (bid_less-eq-ranks_ahead a b) at h) (rw (bid_less-eq-ranks_ahead b c) at k));
  not_trans = λ a b c h k. rw (bid_less-eq-ranks_ahead a c) (
      not_ahead_chain a b c (effective_price a) (effective_price b) (effective_price c)
        (rw (bid_less-eq-ranks_ahead a b) at h) (rw (bid_less-eq-ranks_ahead b c) at k));
}

-- The order of a sorted snapshot: nothing outranks what stands before it.
abbrev pub IsRanked : List Bid → Type 0
IsRanked = Pairwise (λ a b. ranks_ahead b (effective_price b) a (effective_price a) ≡ false)

pub sort_bids-IsRanked : (s : SliceSort Bid) (bids : List Bid) → IsRanked (sort_bids s bids)
unfolding sort_bids
sort_bids-IsRanked s bids =
    Pairwise.imp (λ a b h. rw (bid_less-eq-ranks_ahead b a) at h)
      (s.sort-Pairwise bid_less bid_less-IsStrictWeak bids)

pub sort_bids-perm : (s : SliceSort Bid) (bids : List Bid) → Perm (sort_bids s bids) bids
unfolding sort_bids
sort_bids-perm s bids = s.sort-perm bid_less bids

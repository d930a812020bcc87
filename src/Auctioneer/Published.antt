-- ===== src/Auctioneer/Published.antt =====
-- internal/ads/store.go, cache.go and auction.go together: from the upsert of a bid to the auction.
use adserver.Cache.Snapshots.{fresh}
use adserver.SortBids.{sort_bids-perm}
use adserver.Store.Client.Reads.{fetch}
use adserver.Store.Client.{Link, Registry, upsert}
use adserver.Common.Text.{Str, str_eq_refl}
use adserver.Common.Assoc.{load, load-store}
use adserver.Auction.Agreement.{Dominated-prop}
use adserver.Common.Sorting.{SliceSort}
use adserver.Auction.RunnerUp.{Dominated-iff}
use adserver.Auction.Winner.{
  is_candidate, Dominated, WonBy, count_candidates, outcome-best, NotAheadOf,
}
use adserver.Common.Int.{ℤ, ◌<ℤ◌}
use adserver.Auction.Offers.{static_offer, offers, outcome}
use adserver.Auction.{ranks_ahead, effective_price, DynamicBid, eligible, Accumulator}
use adserver.Types.Bid.{Bid, AuctionRequest, normalize, normalize_twice}
use adserver.Types.Policy.{AuctionPolicy}
use adserver.Common.{
  true, false, inl, inr, some, none, ◌≡◌, ◌⊎◌, List, All, All-mem, refl, ◌∙◌, ap, Option, sym, map,
}
use mathlib.Core.HLevel.{Π_prop}
use mathlib.Core.List.{Perm, Mem, mem-append_left, mem-map_of_mem}
use mathlib.Core.List.Perm
use mathlib.Core.Path.{subst}
use adserver.Auctioneer.{decide, conclude, run, AuctionDecision}
use adserver.Auctioneer.Runs.{run-found}
use adserver.Cache.{refresh, no_bid_on_stale, SnapshotState, BidCache, BidList, sub_time}
use adserver.Store.Client.Reads.Found.{fetch-upsert}

-- The decision is filled, and the bid does not outrank its winner.
abbrev pub Yields : AuctionDecision → Bid → Type 0
Yields d b =
    (w : Bid) × (d.bid ≡ some w) × (ranks_ahead b (effective_price b) w (effective_price w) ≡ false)

static_offer-Mem :
    (b : Bid) (bids : List Bid) (dynamic : List DynamicBid)
    → Mem b bids
    → Mem (static_offer b) (offers bids dynamic)
static_offer-Mem b bids dynamic m = mem-append_left dynamic (mem-map_of_mem static_offer m)

-- An eligible bid of the snapshot competes.
decide-Yields :
    (policy : AuctionPolicy) (request : AuctionRequest) (snapshot : SnapshotState) (now : ℤ)
    → (bids : List Bid) (dynamic : List DynamicBid) (b : Bid) → Mem b bids
    → eligible b request now (effective_price b) ≡ true
    → Yields (decide policy request snapshot now bids dynamic) b
unfolding decide conclude
decide-Yields policy request snapshot now bids dynamic b m h = yields best.1 (
    All-mem (λ o. is_candidate request now o ≡ true → Dominated a o)
      (λ o. Π_prop (λ _. Dominated-prop a o)) (offers bids dynamic) best.0
      (static_offer-Mem b bids dynamic m) h)
  where
    a : Accumulator
    a = outcome request now bids dynamic

    best :
        All (λ o. is_candidate request now o ≡ true → Dominated a o) (offers bids dynamic)
        × ((a.winner ≡ none)
            ⊎ ((o : DynamicBid) × Mem o (offers bids dynamic) × WonBy request now a o))
        × (a.candidates ≡ count_candidates request now (offers bids dynamic))
    best = outcome-best request now bids dynamic

    yields :
        (a.winner ≡ none) ⊎ ((o : DynamicBid) × Mem o (offers bids dynamic) × WonBy request now a o)
        → Dominated a (static_offer b)
        → Yields (conclude policy request snapshot a a.winner) b
    yields (inl absent) d =
        absurd (subst (λ w. NotAheadOf (static_offer b) w a.winner_price) absent d)
    yields (inr (o, _, won)) d = (
      o.bid,
      ap (λ w. (conclude policy request snapshot a w).bid) won.0,
      rw won.1 at ((Dominated-iff request now a (static_offer b) o.bid won.0).0 d),
    )

-- The snapshot is too old for the policy, which does not serve it then.
abbrev pub IsTooOld : BidCache → ℤ → BidList → Type 0
IsTooOld c t l =
    (c.policy.max_snapshot_age <ℤ sub_time t l.refreshed_at_ns)
    × (c.policy.stale_action ≡ no_bid_on_stale)

-- An auction over a snapshot with an eligible bid.
run-Yields :
    (policy : AuctionPolicy) (c : BidCache) (t now : ℤ) (request : AuctionRequest)
    → (dynamic : List DynamicBid) (l : BidList) (b : Bid)
    → load request.placement_id c.entries ≡ some (some l)
    → Mem b l.bids
    → eligible b request now (effective_price b) ≡ true
    → IsTooOld c t l ⊎ Yields (run policy c t now request dynamic).1 b
run-Yields policy c t now request dynamic l b e m h =
    elim (run-found policy c t now request dynamic l e) [
      | inl old ↦ inl (old.0, old.1)
      | inr served ↦ inr (
          subst (λ d. Yields d b) (sym served.2)
            (decide-Yields policy request _ now l.bids dynamic b m h))
    ]

-- Where the decoder reads back what the encoder wrote of a bid: once an upsert of it ends with no error, a
-- fetch of its placement behind that ends with none, and a refresh has put what it fetched into the cache,
-- every auction for the placement for which the bid, with its pacing default filled in, is eligible is
-- filled, whatever the DSPs offer, and the bid does not outrank the winner; unless the snapshot has become
-- too old for the policy, which then does not serve it.
pub upsert-Yields :
    (sorting : SliceSort Bid) (marshal : Bid → Option Str) (unmarshal : Str → Option Bid)
    → (order : List Str → List Str) (sadd_link eval_link publish_link link : Link) (bid : Bid)
      (r : Registry)
    → (bids : List Bid) (c : BidCache) (policy : AuctionPolicy) (fetched_at t now : ℤ)
      (request : AuctionRequest) (dynamic : List DynamicBid)
    → ((xs : List Str) → Perm (order xs) xs)
    → ((p : Str) → marshal (normalize bid) ≡ some p → unmarshal p ≡ some (normalize bid))
    → (upsert marshal sadd_link eval_link publish_link bid r).1 ≡ none
    → fetch sorting unmarshal order link bid.placement_id
        (upsert marshal sadd_link eval_link publish_link bid r).0
      ≡ some bids
    → request.placement_id ≡ bid.placement_id
    → eligible (normalize bid) request now (effective_price (normalize bid)) ≡ true
    → let c' = (refresh sorting c bid.placement_id (some bids) fetched_at).0 in
      IsTooOld c' t (fresh sorting bids fetched_at)
      ⊎ Yields (run policy c' t now request dynamic).1 (normalize bid)
unfolding refresh
upsert-Yields sorting marshal unmarshal order sadd_link eval_link publish_link link bid r bids c
      policy fetched_at t now request dynamic shuffled back done fetched same h =
    let l = fresh sorting bids fetched_at in
    let m =
      fetch-upsert sorting marshal unmarshal order sadd_link eval_link publish_link link bid r bids
        shuffled back done fetched in
    let n =
      subst (λ b. Mem b (map normalize bids)) (normalize_twice bid) (mem-map_of_mem normalize m) in
    run-Yields policy (refresh sorting c bid.placement_id (some bids) fetched_at).0 t now request
      dynamic l (normalize bid)
      (load-store bid.placement_id request.placement_id (some l) c.entries
        ∙ rw (same, str_eq_refl bid.placement_id) refl)
      ((Perm.mem_iff (sort_bids-perm sorting (map normalize bids))).1 n) h

-- ===== src/Auctioneer/Withdrawn.antt =====
-- internal/ads/store.go, cache.go and auction.go together: from the delete of a bid to the auction.
use adserver.SortBids.{sort_bids-perm}
use adserver.Store.Client.Reads.{fetch}
use adserver.Common.Assoc.{load, load-store}
use adserver.Store.Client.{Link, Registry, delete_bid}
use adserver.Auction.Offers.{offers}
use adserver.Auction.{DynamicBid}
use adserver.Common.Int.{ℤ}
use adserver.Types.Bid.{AuctionRequest, Bid, normalize, normalize-id}
use adserver.Common.Text.{Str, str_eq, str_eq_refl}
use adserver.Common.Sorting.{SliceSort}
use adserver.Types.Policy.{AuctionPolicy}
use adserver.Common.{
  refl, false, inl, inr, some, none, [], ◌∷◌, ◌≡◌, ◌∙◌, List, All, Option, map, All-mem, ℕ, ap, sym,
  All-perm,
}
use mathlib.Core.Path.{subst}
use mathlib.Core.Bool.{Bool-set}
use mathlib.Core.List.{Perm}
use adserver.Cache.{refresh, BidCache, SnapshotState, BidList}
use adserver.Cache.Snapshots.{fresh}
use adserver.Auctioneer.{decide, run}
use adserver.Store.Client.Reads.History.{History, ReadsIds, History-IsTidy}
use adserver.Auctioneer.Runs.{run-found}
use adserver.Auctioneer.Decisions.{decide-Fair}
use adserver.Store.Client.Reads.Gone.{fetch-delete_bid}

-- The bid has another id.
abbrev pub IsOther : Str → Bid → Type 0
IsOther id b = str_eq b.id id ≡ false

map-normalize-IsOther :
    (id : Str) (bids : List Bid) → All (IsOther id) bids → All (IsOther id) (map normalize bids)
map-normalize-IsOther id [] h = tt
map-normalize-IsOther id (b ∷ bids) (h, hs) =
    (rw (normalize-id b) h, map-normalize-IsOther id bids hs)

offers-IsOther :
    (id : Str) (bids : List Bid) (dynamic : List DynamicBid)
    → All (IsOther id) bids
    → All (λ o. IsOther id o.bid) dynamic
    → All (λ o. IsOther id o.bid) (offers bids dynamic)
offers-IsOther id [] dynamic h k = k
offers-IsOther id (b ∷ bids) dynamic (h, hs) k = (h, offers-IsOther id bids dynamic hs k)

-- A decision over offers with other ids.
decide-IsOther :
    (policy : AuctionPolicy) (request : AuctionRequest) (snapshot : SnapshotState) (now : ℤ)
    → (bids : List Bid) (dynamic : List DynamicBid) (id : Str) (w : Bid) → All (IsOther id) bids
    → All (λ o. IsOther id o.bid) dynamic
    → (decide policy request snapshot now bids dynamic).bid ≡ some w
    → IsOther id w
decide-IsOther policy request snapshot now bids dynamic id w h k e =
    let fair = decide-Fair policy request snapshot now bids dynamic w e in
    subst (IsOther id) fair.1.1 (
      All-mem (λ o. IsOther id o.bid) (λ o. Bool-set _ _) (offers bids dynamic)
        (offers-IsOther id bids dynamic h k) fair.1.0)

-- An auction over a snapshot with other ids.
run-IsOther :
    (policy : AuctionPolicy) (c : BidCache) (t now : ℤ) (request : AuctionRequest)
    → (dynamic : List DynamicBid) (l : BidList) (id : Str) (w : Bid)
    → load request.placement_id c.entries ≡ some (some l)
    → All (IsOther id) l.bids
    → All (λ o. IsOther id o.bid) dynamic
    → (run policy c t now request dynamic).1.bid ≡ some w
    → IsOther id w
run-IsOther policy c t now request dynamic l id w e h k done =
    elim (run-found policy c t now request dynamic l e) [
      | inl old ↦ let q = ap (λ d. d.bid) old.3 in absurd (cc)
      | inr served ↦
          decide-IsOther policy request _ now l.bids dynamic id w h k
            (sym (ap (λ d. d.bid) served.2) ∙ done)
    ]

-- Where the decoder reads back the ids that the encoder wrote, and the registry has had only upserts and
-- deletes since it was empty, with whatever failures and lost answers: once a delete of a bid ends with no
-- error, a fetch of the placement behind that ends with none, and a refresh has put what it fetched into
-- the cache, no auction for the placement is won by a bid with the deleted id, unless a DSP offers one.
pub delete_bid-IsOther :
    (sorting : SliceSort Bid) (marshal : Bid → Option Str) (unmarshal : Str → Option Bid)
    (order : List Str → List Str)
    → (sadd_link eval_link publish_link link : Link) (placement id : Str) (revision : ℕ)
      (r : Registry)
    → (bids : List Bid) (c : BidCache) (policy : AuctionPolicy) (fetched_at t now : ℤ)
      (request : AuctionRequest) (dynamic : List DynamicBid) (w : Bid)
    → ((xs : List Str) → Perm (order xs) xs)
    → ReadsIds marshal unmarshal
    → History marshal r
    → (delete_bid sadd_link eval_link publish_link placement id revision r).1 ≡ none
    → fetch sorting unmarshal order link placement
        (delete_bid sadd_link eval_link publish_link placement id revision r).0
      ≡ some bids
    → request.placement_id ≡ placement
    → All (λ o. IsOther id o.bid) dynamic
    → (run policy
        (refresh sorting c placement (some bids) fetched_at).0
        t
        now
        request
        dynamic).1.bid
      ≡ some w
    → IsOther id w
unfolding refresh
delete_bid-IsOther sorting marshal unmarshal order sadd_link eval_link publish_link link placement
      id revision r bids c policy fetched_at t now request dynamic w shuffled reads past done
      fetched same k won =
    let tidy = History-IsTidy marshal unmarshal reads r past placement in
    let others =
      fetch-delete_bid sorting unmarshal order sadd_link eval_link publish_link link placement id
        revision r bids shuffled tidy.0 tidy.1 done fetched in
    let l = fresh sorting bids fetched_at in
    run-IsOther policy (refresh sorting c placement (some bids) fetched_at).0 t now request dynamic
      l id w
      (load-store placement request.placement_id (some l) c.entries
        ∙ rw (same, str_eq_refl placement) refl)
      (All-perm (IsOther id) (λ b. Bool-set _ _) (sort_bids-perm sorting (map normalize bids))
        (map-normalize-IsOther id bids others))
      k won

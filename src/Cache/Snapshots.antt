-- ===== src/Cache/Snapshots.antt =====
-- What `get` returns after a refresh.
use adserver.Common.Assoc.{load-store, load}
use mathlib.Core.List.{Perm}
use adserver.Common.Word.{to_int64}
use adserver.Auctioneer.Runs.{served}
use adserver.Types.Bid.{Bid, normalize}
use adserver.Common.Int.{ℤ}
use adserver.Common.Text.{Str, str_eq}
use adserver.Cache.{BidCache, refresh, get, CachePolicy, BidList, snapshot_of}
use adserver.SortBids.{sort_bids, IsRanked, sort_bids-IsRanked, sort_bids-perm}
use adserver.Common.Sorting.{SliceSort}
use adserver.Common.{
  refl, some, none, ◌≡◌, if◌then◌else◌, List, map, true, false, ◌∙◌, Bool, Option, ap,
}

-- The snapshot of a refresh that succeeds.
abbrev pub fresh : SliceSort Bid → List Bid → ℤ → BidList
fresh s fetched now = record {
  bids = sort_bids s (map normalize fetched);
  refreshed_at_ns = to_int64 now;
}

snapshot_if :
    (p : CachePolicy) (t : ℤ) (q : Bool) (x y : Option (Option BidList))
    → snapshot_of p t (if q then x else y) ≡ (if q then snapshot_of p t x else snapshot_of p t y)
snapshot_if p t true x y = refl
snapshot_if p t false x y = refl

module _ (s : SliceSort Bid) (c : BidCache) (placement : Str) (now : ℤ) where
  -- A refresh that succeeds installs the fetched bids for its placement, with the pacing default filled
  -- in and in auction order, as found and of the age since the refresh; the snapshots of all other
  -- placements stay. One that fails leaves every snapshot.
  pub refresh-get :
      (fetched : List Bid) (t : ℤ) (other : Str)
      → (get (refresh s c placement (some fetched) now).0 t other ≡ (
          if str_eq placement other
          then (
            sort_bids s (map normalize fetched),
            served c t (record {
              bids = sort_bids s (map normalize fetched);
              refreshed_at_ns = to_int64 now;
            }),
          )
          else get c t other))
        × IsRanked (sort_bids s (map normalize fetched))
        × Perm (sort_bids s (map normalize fetched)) (map normalize fetched)
        × (get (refresh s c placement none now).0 t other ≡ get c t other)
  unfolding refresh get snapshot_of
  refresh-get fetched t other =
      let bids = sort_bids s (map normalize fetched) in
      let l : BidList = record { bids = bids; refreshed_at_ns = to_int64 now } in
      (
        ap (snapshot_of c.policy t) (load-store placement other (some l) c.entries)
            ∙ snapshot_if c.policy t (str_eq placement other) (some (some l))
                (load other c.entries),
        sort_bids-IsRanked s (map normalize fetched),
        sort_bids-perm s (map normalize fetched),
        refl,
      )

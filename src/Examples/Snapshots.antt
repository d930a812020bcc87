-- ===== src/Examples/Snapshots.antt =====
-- A refresh of a snapshot, and the events of a cache.
use adserver.Cache.Flights.{IsValid, asks, ends, happen_all, CacheEvent, runs, happen}
use adserver.Common.Assoc.{store, delete, has_key}
use adserver.Cache.Snapshots.{refresh-get}
use mathlib.Core.List.{Perm}
use adserver.Auctioneer.Runs.{served}
use adserver.Examples.Sorting.{insertion_sort}
use adserver.Common.Int.{pos}
use adserver.SortBids.{sort_bids, IsRanked}
use adserver.Examples.{cheap, dear}
use adserver.Common.Word.{to_int64}
use adserver.Types.Bid.{Bid, normalize}
use adserver.Cache.{
  BidCache, new_bid_cache, default_cache_policy, get, refresh, refresh_async, run_refresh,
  remove_one,
}
use adserver.Common.Text.{str_eq, bytes, is_empty, contains}
use adserver.Common.{some, none, [], ◌∷◌, ◌≡◌, List, map, refl}

abbrev pub before_refresh : BidCache
before_refresh = new_bid_cache (default_cache_policy (pos 1000))

abbrev pub fetched : List Bid
fetched = cheap ∷ dear ∷ []

abbrev ranked : List Bid
ranked = sort_bids insertion_sort (map normalize fetched)

refresh-get_example :
    (get
        (refresh insertion_sort before_refresh (bytes "top") (some fetched) (pos 40)).0
        (pos 70)
        (bytes "top")
      ≡ (
        ranked,
        served before_refresh (pos 70) (record { bids = ranked; refreshed_at_ns = pos 40 }),
      ))
    × IsRanked ranked
    × Perm ranked (map normalize fetched)
    × (get
          (refresh insertion_sort before_refresh (bytes "top") none (pos 40)).0
          (pos 70)
          (bytes "top")
        ≡ get before_refresh (pos 70) (bytes "top"))
unfolding str_eq to_int64
refresh-get_example =
    refresh-get insertion_sort before_refresh (bytes "top") (pos 40) fetched (pos 70) (bytes "top")

-- Two requests for one placement, one for another, and the end of the first refresh.
abbrev cache_events : List CacheEvent
cache_events =
    asks (bytes "top")
    ∷ asks (bytes "top")
    ∷ asks (bytes "side")
    ∷ ends (bytes "top") (some fetched) (pos 40)
    ∷ asks (bytes "top")
    ∷ []

pub before_refresh-IsValid : IsValid before_refresh
unfolding new_bid_cache runs has_key
before_refresh-IsValid = record { single = λ k. refl; distinct = tt }

happen_all-running :
    (happen_all insertion_sort before_refresh cache_events).running
    ≡ bytes "top" ∷ bytes "side" ∷ []
unfolding happen_all happen refresh_async run_refresh new_bid_cache refresh is_empty has_key str_eq
    store delete remove_one contains
happen_all-running = refl

-- ===== src/Cache/Missed.antt =====
-- internal/ads/cache.go, `RefreshAsync`: a message that comes while a refresh of its placement runs.
use adserver.Common.Word.{to_int64}
use adserver.Common.Assoc.{has_key, load, has_key-delete, load-store}
use adserver.Common.Int.{ℤ}
use adserver.Types.Bid.{Bid, normalize}
use adserver.Common.Text.{Str, contains, str_eq_refl}
use adserver.Cache.{BidCache, refresh_async, run_refresh, refresh}
use adserver.SortBids.{sort_bids}
use adserver.Common.Sorting.{SliceSort}
use adserver.Common.{true, false, some, [], ◌∷◌, ◌≡◌, List, map, refl, ◌∙◌, ◌<◌, arith}
use adserver.Cache.Flights.{asks, ends, IsValid, happen_all, happen, runs, run_refresh-IsValid}

runs-contains : (k : Str) (xs : List Str) → 0 < runs k xs → contains xs k ≡ true
unfolding runs contains
runs-contains k [] h = absurd (omega arith)
runs-contains k (x ∷ xs) h = ground (arith, runs-contains k xs)

refresh_async-running :
    (c : BidCache) (placement : Str)
    → has_key placement c.inflight ≡ true
    → refresh_async c placement ≡ c
unfolding refresh_async
refresh_async-running c placement h = rw h (ground arith)

module _ (s : SliceSort Bid) where
  run_refresh-gone :
      (c : BidCache) (placement : Str) (fetched : List Bid) (now : ℤ)
      → IsValid c
      → has_key placement (run_refresh s c placement (some fetched) now).inflight ≡ false
  unfolding run_refresh refresh
  run_refresh-gone c placement fetched now v =
      has_key-delete placement placement c.inflight v.distinct ∙ rw (str_eq_refl placement) refl

  run_refresh-load :
      (c : BidCache) (placement : Str) (fetched : List Bid) (now : ℤ)
      → load placement (run_refresh s c placement (some fetched) now).entries
        ≡ some (
            some (record {
              bids = sort_bids s (map normalize fetched);
              refreshed_at_ns = to_int64 now;
            }))
  unfolding run_refresh refresh
  run_refresh-load c placement fetched now =
      load-store placement placement _ c.entries ∙ rw (str_eq_refl placement) refl

  -- A request for a refresh of a placement, as a message makes one, leaves no trace while the goroutine of
  -- an earlier request for it runs: when that ends, the cache is as without the request, what it had read
  -- is the snapshot, however old, the placement is not in flight, and no such goroutine of it runs.
  pub refresh_async_missed :
      (c : BidCache) (placement : Str) (fetched : List Bid) (now : ℤ)
      → IsValid c
      → has_key placement c.inflight ≡ true
      → let d = happen_all s c (asks placement ∷ ends placement (some fetched) now ∷ []) in
        (d ≡ happen_all s c (ends placement (some fetched) now ∷ []))
        × (load placement d.entries
            ≡ some (
                some (record {
                  bids = sort_bids s (map normalize fetched);
                  refreshed_at_ns = to_int64 now;
                })))
        × (has_key placement d.inflight ≡ false)
        × (runs placement d.running ≡ 0)
  unfolding happen_all happen
  refresh_async_missed c placement fetched now v h =
      let one : runs placement c.running ≡ 1 = v.single placement ∙ rw h refl in
      let t : contains c.running placement ≡ true =
        runs-contains placement c.running (omega arith) in
      let w : IsValid (run_refresh s c placement (some fetched) now) =
        run_refresh-IsValid s c placement (some fetched) now t v in
      let gone : has_key placement (run_refresh s c placement (some fetched) now).inflight ≡ false =
        run_refresh-gone c placement fetched now v in
      rw (refresh_async-running c placement h, t)
        (refl, run_refresh-load c placement fetched now, gone, w.single placement ∙ rw gone refl)

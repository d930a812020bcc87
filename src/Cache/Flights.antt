-- ===== src/Cache/Flights.antt =====
-- internal/ads/cache.go, `RefreshAsync`: the refreshes of the snapshots that run at once.
use adserver.Common.Assoc.{delete, delete-DistinctKeys, has_key-delete}
use adserver.Common.Int.{ℤ}
use adserver.Types.Bid.{Bid}
use adserver.Common.Sorting.{SliceSort}
use adserver.Common.Text.{contains, Str, str_eq, is_empty, str_eq→eq, str_eq_refl}
use adserver.Common.{
  true, inl, inr, some, none, suc, [], ◌∷◌, ◌≡◌, if◌then◌else◌, Bool-cases, Option, List, ℕ, arith,
}
use adserver.Cache.{BidCache, refresh_async, remove_one, run_refresh, refresh}
use adserver.Common.Assoc.{has_key, DistinctKeys, has_key-store, store-DistinctKeys}

-- How many refreshes of a placement run.
unfoldable pub runs : Str → List Str → ℕ
runs k [] = 0
runs k (x ∷ xs) = if str_eq x k then suc (runs k xs) else runs k xs

-- A placement is in flight exactly while the goroutine of a `RefreshAsync` of it runs, and then no other
-- such goroutine does.
pub record IsValid (c : BidCache) : Type 0 where
  pub single : (k : Str) → runs k c.running ≡ (if has_key k c.inflight then 1 else 0)
  pub distinct : DistinctKeys c.inflight

-- What auctions and handlers do to a cache, and its goroutines: a request for a refresh, and the end of the
-- goroutine of a placement, if one runs.
pub data CacheEvent : Type 0 where
  asks : Str → CacheEvent
  ends : Str → Option (List Bid) → ℤ → CacheEvent

runs-remove_one :
    (k x : Str) (xs : List Str)
    → contains xs x ≡ true
    → runs k xs ≡ (if str_eq x k then suc (runs k (remove_one x xs)) else runs k (remove_one x xs))
unfolding runs contains remove_one
runs-remove_one k x [] h = cc
runs-remove_one k x (y ∷ ys) h =
    ground
      (arith, runs-remove_one k x ys, str_eq→eq y x, str_eq→eq x k, str_eq→eq y k, str_eq_refl k)

pub refresh_async-IsValid : (c : BidCache) (p : Str) → IsValid c → IsValid (refresh_async c p)
unfolding refresh_async runs
refresh_async-IsValid c p v = elim (Bool-cases (is_empty p)) [
  | inl t ↦ rw t v
  | inr t ↦ elim (Bool-cases (has_key p c.inflight)) [
    | inl k ↦ rw (t, k) v
    | inr k ↦
        rw (t, k)
          (record {
            single = λ j.
                rw (has_key-store p j tt c.inflight) (ground (arith, v.single j, str_eq→eq p j));
            distinct = store-DistinctKeys p tt c.inflight v.distinct;
          })
  ]
]

landed :
    (c : BidCache) (p : Str)
    → contains c.running p ≡ true
    → IsValid c
    → (k : Str)
    → runs k (remove_one p c.running) ≡ (if has_key k (delete p c.inflight) then 1 else 0)
landed c p h v k =
    rw (has_key-delete p k c.inflight v.distinct)
      (ground (arith, runs-remove_one k p c.running h, v.single k))

module _ (s : SliceSort Bid) where
  unfoldable pub happen : BidCache → CacheEvent → BidCache
  unfolding refresh_async run_refresh
  happen c (asks p) = refresh_async c p
  happen c (ends p fetched now) = if contains c.running p then run_refresh s c p fetched now else c

  unfoldable pub happen_all : BidCache → List CacheEvent → BidCache
  unfolding happen
  happen_all c [] = c
  happen_all c (e ∷ es) = happen_all (happen c e) es

  pub run_refresh-IsValid :
      (c : BidCache) (p : Str) (fetched : Option (List Bid)) (now : ℤ)
      → contains c.running p ≡ true
      → IsValid c
      → IsValid (run_refresh s c p fetched now)
  unfolding run_refresh refresh
  run_refresh-IsValid c p none now h v = record {
    single = landed c p h v;
    distinct = delete-DistinctKeys p c.inflight v.distinct;
  }
  run_refresh-IsValid c p (some bids) now h v = record {
    single = landed c p h v;
    distinct = delete-DistinctKeys p c.inflight v.distinct;
  }

  pub refresh-IsValid :
      (c : BidCache) (p : Str) (fetched : Option (List Bid)) (now : ℤ)
      → IsValid c
      → IsValid (refresh s c p fetched now).0
  unfolding refresh
  refresh-IsValid c p none now v = record { single = v.single; distinct = v.distinct }
  refresh-IsValid c p (some bids) now v = record { single = v.single; distinct = v.distinct }

  pub happen-IsValid : (c : BidCache) (e : CacheEvent) → IsValid c → IsValid (happen c e)
  unfolding happen
  happen-IsValid c (asks p) v = refresh_async-IsValid c p v
  happen-IsValid c (ends p fetched now) v = elim (Bool-cases (contains c.running p)) [
    | inl t ↦ rw t (run_refresh-IsValid c p fetched now t v)
    | inr t ↦ rw t v
  ]

  -- After any sequence of requests for refreshes and ends of refreshes: a placement is in flight exactly
  -- while the goroutine of a refresh of it runs, and no second one does.
  pub happen_all-IsValid :
      (c : BidCache) (es : List CacheEvent) → IsValid c → IsValid (happen_all c es)
  unfolding happen_all
  happen_all-IsValid c [] v = v
  happen_all-IsValid c (e ∷ es) v = happen_all-IsValid (happen c e) es (happen-IsValid c e v)

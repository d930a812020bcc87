-- ===== src/Cache.antt =====
-- internal/ads/cache.go: the local snapshots of the bids. A `sync.Map` is an association list or a
-- list of keys; the pointer in a `placementSnapshot` is an `Option`. What the Redis store answers and
-- what the clock reads are arguments; a goroutine that `refresh_async` starts is a task in `running`
-- until it ends; times are nanoseconds since the Unix epoch.
pub mod Snapshots
pub mod Warm
pub mod Flights
pub mod Loops
pub mod Missed
use adserver.SortBids.{sort_bids}
use adserver.Common.Sorting.{SliceSort}
use adserver.Common.Assoc.{load, has_key, store, delete}
use adserver.Common.Word.{max_int64, mul64, min_int64, inc64, to_int64}
use adserver.Types.Bid.{Bid, normalize}
use adserver.Common.Int.{ℤ, ◌-ℤ◌, ltb_ℤ, pos, leb_ℤ}
use adserver.Common.Text.{Str, bytes, is_empty, str_eq}
use adserver.Common.{
  ℕ, List, [], false, Bool, Option, if◌then◌else◌, not, some, ◌&&◌, true, none, ◌||◌, ◌∷◌, length,
  map,
}

abbrev pub serve_stale : Str
serve_stale = bytes "serve_stale"

abbrev pub no_bid_on_stale : Str
no_bid_on_stale = bytes "no_bid"

pub record CachePolicy : Type 0 where
  pub refresh_every : ℤ
  pub max_snapshot_age : ℤ
  pub stale_action : Str

-- Thirty seconds.
abbrev pub default_refresh : ℤ
default_refresh = pos 30000000000

unfoldable pub default_cache_policy : ℤ → CachePolicy
default_cache_policy refresh_every =
    let every = if leb_ℤ refresh_every (pos 0) then default_refresh else refresh_every in
    record {
      refresh_every = every;
      max_snapshot_age = mul64 (pos 2) every;
      stale_action = serve_stale;
    }

unfoldable pub is_valid_cache_policy : CachePolicy → Bool
is_valid_cache_policy p =
    ltb_ℤ (pos 0) p.refresh_every
    && ltb_ℤ (pos 0) p.max_snapshot_age
    && (str_eq p.stale_action serve_stale || str_eq p.stale_action no_bid_on_stale)

pub record BidList : Type 0 where
  pub bids : List Bid
  pub refreshed_at_ns : ℤ

pub record SnapshotState : Type 0 where
  pub found : Bool
  pub stale : Bool
  pub reject_stale : Bool
  pub age : ℤ

pub record CacheCounters : Type 0 where
  pub refreshes : ℕ
  pub refresh_failures : ℕ
  pub reconciliations : ℕ
  pub reconcile_failures : ℕ
  pub subscription_failures : ℕ

pub record BidCache : Type 0 where
  pub entries : List (Str × Option BidList)
  pub policy : CachePolicy
  pub inflight : List (Str × Unit {0})
  pub stats : CacheCounters
  pub running : List Str

abbrev pub no_counts : CacheCounters
no_counts = record {
  refreshes = 0;
  refresh_failures = 0;
  reconciliations = 0;
  reconcile_failures = 0;
  subscription_failures = 0;
}

unfoldable pub new_bid_cache : CachePolicy → BidCache
new_bid_cache policy = record {
  entries = [];
  policy =
      if not (is_valid_cache_policy policy) then default_cache_policy default_refresh else policy;
  inflight = [];
  stats = no_counts;
  running = [];
}

-- `SnapshotState{}`.
abbrev pub cold : SnapshotState
cold = record { found = false; stale = false; reject_stale = false; age = pos 0 }

-- `Time.Sub`: the difference, saturated to the range of a Duration.
unfoldable pub sub_time : ℤ → ℤ → ℤ
sub_time a b =
    let d = a -ℤ b in
    if ltb_ℤ max_int64 d then max_int64 else if ltb_ℤ d min_int64 then min_int64 else d

unfoldable pub snapshot_of : CachePolicy → ℤ → Option (Option BidList) → List Bid × SnapshotState
unfolding sub_time
snapshot_of policy now none = ([], cold)
snapshot_of policy now (some none) = ([], cold)
snapshot_of policy now (some (some l)) =
    let age = sub_time now l.refreshed_at_ns in
    let stale = ltb_ℤ policy.max_snapshot_age age in
    (
      l.bids,
      record {
        found = true;
        stale = stale;
        reject_stale = stale && str_eq policy.stale_action no_bid_on_stale;
        age = age;
      },
    )

unfoldable pub get : BidCache → ℤ → Str → List Bid × SnapshotState
unfolding snapshot_of
get c now placement = snapshot_of c.policy now (load placement c.entries)

-- Takes one occurrence off a list of tasks.
unfoldable pub remove_one : Str → List Str → List Str
remove_one k [] = []
remove_one k (x ∷ xs) = if str_eq x k then xs else x ∷ remove_one k xs

unfoldable pub refresh_async : BidCache → Str → BidCache
refresh_async c placement =
    if is_empty placement
    then c
    else if has_key placement c.inflight
    then c
    else record c { inflight = store placement tt c.inflight; running = placement ∷ c.running }

module _ (s : SliceSort Bid) where
  -- `refresh` with what `Fetch` returns, `none` for its error, and the clock's reading at the store;
  -- the result says whether it succeeded.
  unfoldable pub refresh : BidCache → Str → Option (List Bid) → ℤ → BidCache × Bool
  refresh c placement none now = (
    record c {
      stats = record c.stats {
        refreshes = inc64 c.stats.refreshes;
        refresh_failures = inc64 c.stats.refresh_failures;
      };
    },
    false,
  )
  refresh c placement (some fetched) now = (
    record c {
      stats = record c.stats { refreshes = inc64 c.stats.refreshes };
      entries =
          store placement
            (some (record {
              bids = sort_bids s (map normalize fetched);
              refreshed_at_ns = to_int64 now;
            }))
            c.entries;
    },
    true,
  )

  -- The loop of `Reconcile`, each placement with the answer to its fetch.
  unfoldable pub refresh_all : BidCache → List (Str × Option (List Bid) × ℤ) → BidCache × Bool
  refresh_all c [] = (c, true)
  refresh_all c ((placement, fetched, now) ∷ rest) =
      let done = refresh c placement fetched now in
      let others = refresh_all done.0 rest in
      if done.1 then others else (
        record done.0 {
          stats = record done.0.stats {
            reconcile_failures = inc64 done.0.stats.reconcile_failures;
          };
        },
        false,
      )

  abbrev pub count_reconciliation : BidCache → BidCache
  count_reconciliation c = record c {
    stats = record c.stats { reconciliations = inc64 c.stats.reconciliations };
  }

  -- `Reconcile`, and `Warm`: `none` is an error of `Placements`.
  unfoldable pub reconcile :
      BidCache → Option (List (Str × Option (List Bid) × ℤ)) → BidCache × Bool
  unfolding refresh_all
  reconcile c none =
      let d = count_reconciliation c in
      (
        record d {
          stats = record d.stats { reconcile_failures = inc64 d.stats.reconcile_failures };
        },
        false,
      )
  reconcile c (some answers) = refresh_all (count_reconciliation c) answers

  -- The body of the goroutine that `refresh_async` starts, with its deferred delete.
  unfoldable pub run_refresh : BidCache → Str → Option (List Bid) → ℤ → BidCache
  run_refresh c placement fetched now =
      let d = (refresh c placement fetched now).0 in
      record d { inflight = delete placement d.inflight; running = remove_one placement d.running }

-- `Stats`.
pub record CacheStats : Type 0 where
  pub counters : CacheCounters
  pub placements : ℕ
  pub inflight_refreshes : ℕ

unfoldable pub stats_of : BidCache → CacheStats
stats_of c = record {
  counters = c.stats;
  placements = length c.entries;
  inflight_refreshes = length c.inflight;
}

-- A failure to subscribe is counted.
abbrev pub count_subscription_failure : BidCache → BidCache
count_subscription_failure c = record c {
  stats = record c.stats { subscription_failures = inc64 c.stats.subscription_failures };
}

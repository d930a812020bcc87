-- ===== src/Cache/Loops/Runs.antt =====
-- internal/ads/cache.go, `Start`: how many refreshes run, in every run of the loops.
use adserver.Types.Bid.{Bid}
use mathlib.Core.Path.{subst}
use adserver.Cache.{BidCache}
use adserver.Common.Sorting.{SliceSort}
use adserver.Common.{
  some, none, ◌≡◌, Option, inl, inr, List, Bool-cases, refl, true, ◌≤◌, arith, ap, false, ◌+◌, ◌⊎◌,
  if◌then◌else◌, ℕ, Bool,
}
use adserver.Common.Assoc.{has_key, DistinctKeys}
use adserver.Common.Text.{Str, str_eq, str_eq→eq}
use adserver.Cache.Loops.{
  testing, subscribing, pausing, following, ended, ticking, listing, refreshing, stopped, tests,
  refused, subscribed, messages_end, second_over, subscriber_sees_done, ticker_sees_done, cancels,
  message, ticks, lists, answers_fetch, subscribe_step, LoopState, SubscribeStage, start, LoopEvent,
  loop_step, tick_step, TickStage, after_refresh,
}
use adserver.Cache.Flights.{
  IsValid, CacheEvent, happen, happen-IsValid, refresh_async-IsValid, refresh-IsValid, runs,
}

-- How many refreshes of a placement the goroutine of the ticker runs.
abbrev ticker_runs : Str → TickStage → ℕ
ticker_runs k ticking = 0
ticker_runs k listing = 0
ticker_runs k stopped = 0
ticker_runs k (refreshing p ps) = if str_eq p k then 1 else 0

-- How many refreshes of a placement run, those of `RefreshAsync` and that of a reconciliation.
unfoldable pub all_runs : Str → LoopState → ℕ
unfolding runs
all_runs k l = runs k l.cache.running + ticker_runs k l.ticker

-- A placement is in flight exactly while the goroutine of one `RefreshAsync` of it runs. No more than two
-- refreshes of it run, and when two do, it is in flight, and the reconciliation of the ticker is at it.
pub record IsTended (l : LoopState) : Type 0 where
  pub distinct : DistinctKeys l.cache.inflight
  pub single : (k : Str) → runs k l.cache.running ≡ (if has_key k l.cache.inflight then 1 else 0)
  pub doubled :
      (k : Str)
      → (all_runs k l ≤ 1)
        ⊎ ((all_runs k l ≡ 2)
            × (has_key k l.cache.inflight ≡ true)
            × (ps : List Str) × (l.ticker ≡ refreshing k ps))

ticker_runs-cases :
    (k : Str) (t : TickStage)
    → (ticker_runs k t ≡ 0) ⊎ ((ticker_runs k t ≡ 1) × (ps : List Str) × (t ≡ refreshing k ps))
ticker_runs-cases k ticking = inl refl
ticker_runs-cases k listing = inl refl
ticker_runs-cases k stopped = inl refl
ticker_runs-cases k (refreshing p ps) = elim (Bool-cases (str_eq p k)) [
  | inl t ↦ inr (rw t refl, ps, ap (λ x. refreshing x ps) (str_eq→eq p k t))
  | inr t ↦ inl (rw t refl)
]

one_or_two :
    (k : Str) (l : LoopState)
    → runs k l.cache.running ≡ (if has_key k l.cache.inflight then 1 else 0)
    → (all_runs k l ≤ 1)
      ⊎ ((all_runs k l ≡ 2)
          × (has_key k l.cache.inflight ≡ true)
          × (ps : List Str) × (l.ticker ≡ refreshing k ps))
unfolding all_runs
one_or_two k l h = elim (ticker_runs-cases k l.ticker) [
  | inl z ↦ inl (ground arith)
  | inr (z, ps, w) ↦ elim (Bool-cases (has_key k l.cache.inflight)) [
    | inl t ↦ inr (ground arith, t, ps, w)
    | inr t ↦ inl (ground arith)
  ]
]

IsValid-IsTended : (l : LoopState) → IsValid l.cache → IsTended l
IsValid-IsTended l v = record {
  distinct = v.distinct;
  single = v.single;
  doubled = λ k. one_or_two k l (v.single k);
}

module _ (s : SliceSort Bid) where
  -- Every run of the loops: their steps in any order, and between them requests for refreshes by the
  -- auctions and the handlers, and the ends of refreshes.
  pub data LoopRun (c : BidCache) : LoopState → Type 0 where
    begins : LoopRun c (start c)
    steps :
        {l l' : LoopState} (e : LoopEvent) → LoopRun c l → loop_step s l e ≡ some l' → LoopRun c l'
    happens :
        {l : LoopState} (e : CacheEvent)
        → LoopRun c l
        → LoopRun c (record l { cache = happen s l.cache e })

  abbrev StaysValid : Option LoopState → Type 0
  StaysValid none = Unit
  StaysValid (some l) = IsValid l.cache

  subscribe_step-IsValid :
      (l : LoopState) (g : SubscribeStage) (e : LoopEvent)
      → IsValid l.cache
      → StaysValid (subscribe_step l g e)
  unfolding subscribe_step
  subscribe_step-IsValid l testing tests v = v
  subscribe_step-IsValid l testing e v = tt
  subscribe_step-IsValid l subscribing refused v = record {
    single = v.single;
    distinct = v.distinct;
  }
  subscribe_step-IsValid l subscribing subscribed v = v
  subscribe_step-IsValid l subscribing e v = tt
  subscribe_step-IsValid l pausing second_over v = v
  subscribe_step-IsValid l pausing subscriber_sees_done v = elim (Bool-cases l.is_done) [
    | inl t ↦ rw t v
    | inr t ↦ rw t tt
  ]
  subscribe_step-IsValid l pausing e v = tt
  subscribe_step-IsValid l following (message p) v = refresh_async-IsValid l.cache p v
  subscribe_step-IsValid l following messages_end v = v
  subscribe_step-IsValid l following e v = tt
  subscribe_step-IsValid l ended tests v = tt
  subscribe_step-IsValid l ended e v = tt

  after_refresh-IsValid :
      (l : LoopState) (ps : List Str) (d : BidCache × Bool)
      → IsValid d.0
      → IsValid (after_refresh l ps d).cache
  unfolding after_refresh
  after_refresh-IsValid l ps (c, true) v = v
  after_refresh-IsValid l ps (c, false) v = record { single = v.single; distinct = v.distinct }

  tick_step-IsValid :
      (l : LoopState) (g : TickStage) (e : LoopEvent)
      → IsValid l.cache
      → StaysValid (tick_step s l g e)
  unfolding tick_step
  tick_step-IsValid l ticking ticks v = record { single = v.single; distinct = v.distinct }
  tick_step-IsValid l ticking ticker_sees_done v = elim (Bool-cases l.is_done) [
    | inl t ↦ rw t v
    | inr t ↦ rw t tt
  ]
  tick_step-IsValid l ticking e v = tt
  tick_step-IsValid l listing (lists none) v = record { single = v.single; distinct = v.distinct }
  tick_step-IsValid l listing (lists (some placements)) v = v
  tick_step-IsValid l listing e v = tt
  tick_step-IsValid l (refreshing p ps) (answers_fetch fetched now) v =
      after_refresh-IsValid l ps _ (refresh-IsValid s l.cache p fetched now v)
  tick_step-IsValid l (refreshing p ps) e v = tt
  tick_step-IsValid l stopped tests v = tt
  tick_step-IsValid l stopped e v = tt

  loop_step-IsValid :
      (l : LoopState) (e : LoopEvent) → IsValid l.cache → StaysValid (loop_step s l e)
  unfolding loop_step
  loop_step-IsValid l cancels v = v
  loop_step-IsValid l ticks v = tick_step-IsValid l l.ticker ticks v
  loop_step-IsValid l (lists placements) v = tick_step-IsValid l l.ticker (lists placements) v
  loop_step-IsValid l (answers_fetch fetched now) v =
      tick_step-IsValid l l.ticker (answers_fetch fetched now) v
  loop_step-IsValid l ticker_sees_done v = tick_step-IsValid l l.ticker ticker_sees_done v
  loop_step-IsValid l tests v = subscribe_step-IsValid l l.subscriber tests v
  loop_step-IsValid l refused v = subscribe_step-IsValid l l.subscriber refused v
  loop_step-IsValid l subscribed v = subscribe_step-IsValid l l.subscriber subscribed v
  loop_step-IsValid l messages_end v = subscribe_step-IsValid l l.subscriber messages_end v
  loop_step-IsValid l second_over v = subscribe_step-IsValid l l.subscriber second_over v
  loop_step-IsValid l subscriber_sees_done v =
      subscribe_step-IsValid l l.subscriber subscriber_sees_done v
  loop_step-IsValid l (message p) v = subscribe_step-IsValid l l.subscriber (message p) v

  LoopRun-IsValid : (c : BidCache) (l : LoopState) → IsValid c → LoopRun c l → IsValid l.cache
  unfolding start
  LoopRun-IsValid c l v begins = v
  LoopRun-IsValid c l v (steps {l = k} e r h) =
      subst StaysValid h (loop_step-IsValid k e (LoopRun-IsValid c k v r))
  LoopRun-IsValid c l v (happens {l = k} e r) = happen-IsValid s k.cache e (LoopRun-IsValid c k v r)

  -- In every run of the loops, from a cache in which a placement is in flight exactly while one goroutine
  -- of a `RefreshAsync` of it runs, with requests for refreshes and ends of refreshes between the steps,
  -- those of a reconciliation included: this stays so for every placement. A reconciliation does not mind
  -- what is in flight: so two refreshes of a placement may run, and then one is that of the reconciliation
  -- of the ticker, which is at this placement, and the placement is in flight; more than two never run.
  pub LoopRun-IsTended : (c : BidCache) (l : LoopState) → IsValid c → LoopRun c l → IsTended l
  LoopRun-IsTended c l v r = IsValid-IsTended l (LoopRun-IsValid c l v r)

-- ===== src/Cache/Loops/Reconciles.antt =====
-- internal/ads/cache.go, `Reconcile`: a reconciliation of the ticker between whose answers nothing happens.
use adserver.Cache.Loops.Ends.{loop_steps}
use adserver.Cache.{BidCache, reconcile, count_reconciliation, refresh, refresh_all}
use adserver.Common.Int.{ℤ}
use adserver.Types.Bid.{Bid}
use adserver.Common.Text.{Str}
use adserver.Common.Sorting.{SliceSort}
use adserver.Cache.Loops.{
  ticks, lists, answers_fetch, ticking, SubscribeStage, LoopEvent, loop_step, TickStage, LoopState,
  tick_step, after_refresh, next_stage,
}
use adserver.Common.{some, none, [], ◌∷◌, ◌≡◌, refl, Option, List, Bool}

-- The answers that a reconciliation gets, up to the first error.
abbrev fetch_events : List (Str × Option (List Bid) × ℤ) → List LoopEvent
fetch_events [] = []
fetch_events ((p, none, now) ∷ rest) = answers_fetch none now ∷ []
fetch_events ((p, some bids, now) ∷ rest) = answers_fetch (some bids) now ∷ fetch_events rest

abbrev names : List (Str × Option (List Bid) × ℤ) → List Str
names [] = []
names (a ∷ rest) = a.0 ∷ names rest

-- The events of a reconciliation.
abbrev tick_events : Option (List (Str × Option (List Bid) × ℤ)) → List LoopEvent
tick_events none = ticks ∷ lists none ∷ []
tick_events (some answers) = ticks ∷ lists (some (names answers)) ∷ fetch_events answers

module _ (s : SliceSort Bid) (g : SubscribeStage) (is_done : Bool) where
  abbrev at_ticker : BidCache → TickStage → LoopState
  at_ticker c t = record { cache = c; subscriber = g; ticker = t; is_done = is_done }

  fetch_events-refresh_all :
      (c : BidCache) (answers : List (Str × Option (List Bid) × ℤ))
      → loop_steps s (at_ticker c (next_stage (names answers))) (fetch_events answers)
        ≡ some (at_ticker (refresh_all s c answers).0 ticking)
  unfolding loop_steps loop_step tick_step after_refresh refresh refresh_all
  fetch_events-refresh_all c [] = refl
  fetch_events-refresh_all c ((p, none, now) ∷ rest) = refl
  fetch_events-refresh_all c ((p, some bids, now) ∷ rest) =
      fetch_events-refresh_all (refresh s c p (some bids) now).0 rest

  -- The steps of the ticker's loop, with nothing between them, are a call of `Reconcile`.
  tick_events-reconcile :
      (c : BidCache) (answers : Option (List (Str × Option (List Bid) × ℤ)))
      → loop_steps s (at_ticker c ticking) (tick_events answers)
        ≡ some (at_ticker (reconcile s c answers).0 ticking)
  unfolding loop_steps loop_step tick_step reconcile
  tick_events-reconcile c none = refl
  tick_events-reconcile c (some answers) =
      fetch_events-refresh_all (count_reconciliation s c) answers

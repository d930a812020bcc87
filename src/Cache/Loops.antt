-- ===== src/Cache/Loops.antt =====
-- internal/ads/cache.go, `Start`: the loop that follows the registry's messages and the loop of the ticker.
-- An attempt to subscribe, a message, a timer and the cancellation are events. So is each answer that a
-- reconciliation of the ticker gets from the registry: others happen before the next one.
pub mod Ends
pub mod Reconciles
pub mod Runs
use adserver.Common.Word.{inc64}
use adserver.Common.Int.{ℤ}
use adserver.Types.Bid.{Bid}
use adserver.Cache.{
  count_subscription_failure, BidCache, refresh_async, refresh, count_reconciliation,
}
use adserver.Common.Text.{Str}
use adserver.Common.Sorting.{SliceSort}
use adserver.Common.{true, false, some, none, if◌then◌else◌, Option, Bool, List, [], ◌∷◌}

-- Where the loop of the subscriptions stands: at its test of the context, at its attempt to subscribe, in
-- the pause behind a failed one, in the range over the messages, and behind its end.
pub data SubscribeStage : Type 0 where
  testing subscribing pausing following ended : SubscribeStage

-- Where the loop of the ticker stands: at its select, at the `Placements` of a reconciliation, at the
-- refresh of one placement, with those that follow it, and behind its end.
pub data TickStage : Type 0 where
  ticking listing stopped : TickStage
  refreshing : Str → List Str → TickStage

pub record LoopState : Type 0 where
  pub cache : BidCache
  pub subscriber : SubscribeStage
  pub ticker : TickStage
  pub is_done : Bool

-- `Start`, over the cache as it is.
unfoldable pub start : BidCache → LoopState
start c = record { cache = c; subscriber = testing; ticker = ticking; is_done = false }

-- The context is tested; an attempt to subscribe fails or not; a message comes; the messages end; the pause
-- of a second is over; the ticker ticks; `Placements` is answered, `none` for its error; the fetch of the
-- placement that is refreshed is answered, at a time; either loop sees the context done; the context is
-- cancelled.
pub data LoopEvent : Type 0 where
  tests refused subscribed messages_end second_over subscriber_sees_done ticker_sees_done cancels
        ticks :
      LoopEvent
  message : Str → LoopEvent
  lists : Option (List Str) → LoopEvent
  answers_fetch : Option (List Bid) → ℤ → LoopEvent

abbrev goes_to : LoopState → SubscribeStage → LoopState
goes_to l stage = record l { subscriber = stage }

-- `none` is an event for which the loop does not wait there.
unfoldable pub subscribe_step : LoopState → SubscribeStage → LoopEvent → Option LoopState
unfolding refresh_async
subscribe_step l testing tests = some (goes_to l (if l.is_done then ended else subscribing))
subscribe_step l testing e = none
subscribe_step l subscribing refused =
    some (record l { cache = count_subscription_failure l.cache; subscriber = pausing })
subscribe_step l subscribing subscribed = some (goes_to l following)
subscribe_step l subscribing e = none
subscribe_step l pausing second_over = some (goes_to l testing)
subscribe_step l pausing subscriber_sees_done = if l.is_done then some (goes_to l ended) else none
subscribe_step l pausing e = none
subscribe_step l following (message placement) =
    some (record l { cache = refresh_async l.cache placement })
subscribe_step l following messages_end = some (goes_to l testing)
subscribe_step l following e = none
subscribe_step l ended e = none

-- The loop of `Reconcile` at its next placement.
abbrev pub next_stage : List Str → TickStage
next_stage [] = ticking
next_stage (p ∷ ps) = refreshing p ps

abbrev pub count_failure : BidCache → BidCache
count_failure c = record c {
  stats = record c.stats { reconcile_failures = inc64 c.stats.reconcile_failures };
}

-- Behind the refresh of a placement: an error ends the reconciliation.
unfoldable pub after_refresh : LoopState → List Str → BidCache × Bool → LoopState
after_refresh l ps (c, true) = record l { cache = c; ticker = next_stage ps }
after_refresh l ps (c, false) = record l { cache = count_failure c; ticker = ticking }

module _ (s : SliceSort Bid) where
  -- `refreshLoop` and the `Reconcile` that it calls.
  unfoldable pub tick_step : LoopState → TickStage → LoopEvent → Option LoopState
  unfolding refresh after_refresh
  tick_step l ticking ticks =
      some (record l { cache = count_reconciliation s l.cache; ticker = listing })
  tick_step l ticking ticker_sees_done =
      if l.is_done then some (record l { ticker = stopped }) else none
  tick_step l ticking e = none
  tick_step l listing (lists none) =
      some (record l { cache = count_failure l.cache; ticker = ticking })
  tick_step l listing (lists (some placements)) = some (record l { ticker = next_stage placements })
  tick_step l listing e = none
  tick_step l (refreshing p ps) (answers_fetch fetched now) =
      some (after_refresh l ps (refresh s l.cache p fetched now))
  tick_step l (refreshing p ps) e = none
  tick_step l stopped e = none

  unfoldable pub loop_step : LoopState → LoopEvent → Option LoopState
  unfolding subscribe_step tick_step
  loop_step l cancels = some (record l { is_done = true })
  loop_step l ticks = tick_step l l.ticker ticks
  loop_step l (lists placements) = tick_step l l.ticker (lists placements)
  loop_step l (answers_fetch fetched now) = tick_step l l.ticker (answers_fetch fetched now)
  loop_step l ticker_sees_done = tick_step l l.ticker ticker_sees_done
  loop_step l tests = subscribe_step l l.subscriber tests
  loop_step l refused = subscribe_step l l.subscriber refused
  loop_step l subscribed = subscribe_step l l.subscriber subscribed
  loop_step l messages_end = subscribe_step l l.subscriber messages_end
  loop_step l second_over = subscribe_step l l.subscriber second_over
  loop_step l subscriber_sees_done = subscribe_step l l.subscriber subscriber_sees_done
  loop_step l (message placement) = subscribe_step l l.subscriber (message placement)

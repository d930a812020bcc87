-- ===== src/Cache/Loops/Ends.antt =====
-- internal/ads/cache.go, `Start`: the steps of the loops, and how they end.
use adserver.Common.Int.{pos}
use adserver.Cache.{refresh, BidCache}
use mathlib.Core.Path.{subst}
use adserver.Types.Bid.{Bid}
use adserver.Common.Sorting.{SliceSort}
use adserver.Common.{
  refl, true, some, none, [], ◌∷◌, ◌≡◌, ◌≤◌, List, length, ap, Option, sym, arith,
}
use adserver.Cache.Loops.{
  testing, subscribing, pausing, following, ended, ticking, listing, refreshing, stopped, tests,
  refused, messages_end, subscriber_sees_done, ticker_sees_done, lists, answers_fetch,
  SubscribeStage, loop_step, subscribe_step, TickStage, LoopState, tick_step, after_refresh,
  LoopEvent,
}

module _ (s : SliceSort Bid) where
  abbrev ticker_last : TickStage → List LoopEvent
  ticker_last ticking = ticker_sees_done ∷ []
  ticker_last stopped = []
  ticker_last listing = lists none ∷ ticker_sees_done ∷ []
  ticker_last (refreshing p ps) = answers_fetch none (pos 0) ∷ ticker_sees_done ∷ []

  -- The steps of the loops, one after another.
  unfoldable pub loop_steps : LoopState → List LoopEvent → Option LoopState
  unfolding loop_step
  loop_steps l [] = some l
  loop_steps l (e ∷ es) = elim (loop_step s l e) [ none ↦ none | some l' ↦ loop_steps l' es ]

  -- The steps that end the loops once the context is done.
  abbrev pub last_steps : SubscribeStage → TickStage → List LoopEvent
  last_steps testing t = tests ∷ ticker_last t
  last_steps subscribing t = refused ∷ subscriber_sees_done ∷ ticker_last t
  last_steps pausing t = subscriber_sees_done ∷ ticker_last t
  last_steps following t = messages_end ∷ tests ∷ ticker_last t
  last_steps ended t = ticker_last t

  abbrev Ends : LoopState → Type 0
  Ends l =
      (l' : LoopState) × (loop_steps l (last_steps l.subscriber l.ticker) ≡ some l')
      × (l'.subscriber ≡ ended)
      × (l'.ticker ≡ stopped)
      × (length (last_steps l.subscriber l.ticker) ≤ 4)

  loops_end_at :
      (c : BidCache) (g : SubscribeStage) (t : TickStage)
      → Ends (record { cache = c; subscriber = g; ticker = t; is_done = true })
  unfolding loop_steps subscribe_step tick_step after_refresh refresh
  loops_end_at c testing ticking = (_, refl, refl, refl, omega arith)
  loops_end_at c testing listing = (_, refl, refl, refl, omega arith)
  loops_end_at c testing stopped = (_, refl, refl, refl, omega arith)
  loops_end_at c testing (refreshing p ps) = (_, refl, refl, refl, omega arith)
  loops_end_at c subscribing ticking = (_, refl, refl, refl, omega arith)
  loops_end_at c subscribing listing = (_, refl, refl, refl, omega arith)
  loops_end_at c subscribing stopped = (_, refl, refl, refl, omega arith)
  loops_end_at c subscribing (refreshing p ps) = (_, refl, refl, refl, omega arith)
  loops_end_at c pausing ticking = (_, refl, refl, refl, omega arith)
  loops_end_at c pausing listing = (_, refl, refl, refl, omega arith)
  loops_end_at c pausing stopped = (_, refl, refl, refl, omega arith)
  loops_end_at c pausing (refreshing p ps) = (_, refl, refl, refl, omega arith)
  loops_end_at c following ticking = (_, refl, refl, refl, omega arith)
  loops_end_at c following listing = (_, refl, refl, refl, omega arith)
  loops_end_at c following stopped = (_, refl, refl, refl, omega arith)
  loops_end_at c following (refreshing p ps) = (_, refl, refl, refl, omega arith)
  loops_end_at c ended ticking = (_, refl, refl, refl, omega arith)
  loops_end_at c ended listing = (_, refl, refl, refl, omega arith)
  loops_end_at c ended stopped = (_, refl, refl, refl, omega arith)
  loops_end_at c ended (refreshing p ps) = (_, refl, refl, refl, omega arith)

  -- Once the context is done, wherever the loops stand, at most four more steps, of those that they then
  -- wait for, end both.
  pub loops_end :
      (l : LoopState)
      → l.is_done ≡ true
      → (l' : LoopState) × (loop_steps l (last_steps l.subscriber l.ticker) ≡ some l')
        × (l'.subscriber ≡ ended)
        × (l'.ticker ≡ stopped)
        × (length (last_steps l.subscriber l.ticker) ≤ 4)
  loops_end l h =
      subst Ends (ap (λ d. record l { is_done = d }) (sym h))
        (loops_end_at l.cache l.subscriber l.ticker)

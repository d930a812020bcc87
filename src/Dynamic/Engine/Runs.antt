-- ===== src/Dynamic/Engine/Runs.antt =====
-- internal/ads/dynamic_bidding.go, `BidderEngine`:
-- every run of the engine: requests, cancellation and the steps of the goroutines in any order.
use adserver.Dynamic.Engine.Fit.{Fits}
use adserver.Common.Assoc.{load, DistinctKeys}
use adserver.Dynamic.Engine.Keeps.{HasRoom, in_flight, live}
use adserver.Dynamic.Engine.Tokens.{taken, held}
use adserver.Common.Text.{Str}
use adserver.Dynamic.Engine.Steps.{Action, advance}
use adserver.Types.Bid.{AuctionRequest}
use adserver.Common.Int.{ℤ, pos}
use adserver.Common.{
  true, some, none, suc, [], ◌∷◌, ◌≡◌, ◌+◌, ◌++◌, ◌≤◌, ℕ, List, Option, arith, length, All,
}
use adserver.Dynamic.Engine.{Refresh, BidderEngine, lookup, slot_count, trigger}

-- The engine after a step of the goroutine between these.
unfoldable pub resume : BidderEngine → List Refresh → Option Refresh → List Refresh → BidderEngine
resume e before none after = record e { running = before ++ after }
resume e before (some g) after = record e { running = before ++ g ∷ after }

-- A step of one of the goroutines.
pub data Move (e : BidderEngine) : BidderEngine → Type 0 where
  move :
      (before after : List Refresh) (g : Refresh) (a : Action) (e' : BidderEngine)
      → (o : Option Refresh) → e.running ≡ before ++ g ∷ after
      → advance e g a ≡ some (e', o)
      → Move e (resume e' before o after)

pub data Step (e : BidderEngine) : BidderEngine → Type 0 where
  looks : (now : ℤ) (request : AuctionRequest) → Step e (lookup e now request).0
  triggers : (now : ℤ) (request : AuctionRequest) → Step e (trigger e now request)
  stops : Step e (record e { is_done = true })
  moves : {e' : BidderEngine} → Move e e' → Step e e'

pub data Reach (s : BidderEngine) : BidderEngine → Type 0 where
  here : Reach s s
  next : {e e' : BidderEngine} → Reach s e → Step e e' → Reach s e'

-- Sums over the refreshes that run.
unfoldable pub sum_of : (Refresh → ℕ) → List Refresh → ℕ
sum_of f [] = 0
sum_of f (g ∷ gs) = f g + sum_of f gs

pub sum_of-append :
    (f : Refresh → ℕ) (xs ys : List Refresh) → sum_of f (xs ++ ys) ≡ sum_of f xs + sum_of f ys
unfolding sum_of
sum_of-append f [] ys = omega arith
sum_of-append f (x ∷ xs) ys = omega (arith, sum_of-append f xs ys)

-- The invariant. Every token and slot that is taken is held by a goroutine that runs, and within its
-- limit; a key is in flight exactly if one refresh of it runs and has not forgotten it, and then no other
-- does; every refresh keeps within the fan-out.
pub record IsValid (e : BidderEngine) : Type 0 where
  pub fanout : ℕ
  pub fanout_is : e.config.max_fanout ≡ pos (suc fanout)
  pub slots : e.refresh_slots ≡ length e.running
  pub slot_limit : e.refresh_slots ≤ slot_count e
  pub tokens : (id : Str) → taken id e.bidders ≡ sum_of (held id) e.running
  pub token_limit : (id : Str) → HasRoom (load id e.bidders)
  pub single : (key : Str) → in_flight key e.inflight ≡ sum_of (live key) e.running
  pub distinct : DistinctKeys e.inflight
  pub fits : All (Fits (suc fanout) e.bidders) e.running

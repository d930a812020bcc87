-- ===== src/Dynamic/Engine/Steps.antt =====
-- internal/ads/dynamic_bidding.go, `refresh`: the steps of the goroutines of the bidder engine, each up
-- to its next action on what they share. `none` is a goroutine that has to wait.
use adserver.Dynamic.BidCache.{put}
use adserver.Dynamic.Engine.{
  spawned, waiting, stored, forgotten, visiting, holding, deadline_exceeded, failed, fetched,
}
use adserver.Cache.{remove_one}
use adserver.Common.Word.{inc64}
use adserver.Common.Assoc.{load, store, delete}
use adserver.Common.Text.{Str, contains}
use adserver.Auction.{DynamicBid}
use adserver.Common.Int.{ℤ, eqb_ℤ, pos, pos_part}
use adserver.Dynamic.Engine.{
  BidderEngine, BidderEngineStats, Refresh, Outcome, Stage, BidderRuntime, waiting, fetched,
  visiting, holding, stored, forgotten,
}
use adserver.Dynamic.Breaker.{success, allow, failure, CircuitBreaker}
use adserver.Dynamic.Sanitize.{sanitize_dynamic_bids, DspRequest}
use adserver.Common.{
  true, false, some, none, suc, [], ◌∷◌, ◌-◌, ◌==◌, ◌&&◌, ◌++◌, if◌then◌else◌, Option, List, Bool,
  ltb, not, length,
}

-- What a goroutine meets: it goes on, with two readings of the clock and the order of a `Range`; the call
-- of a bidder ends at an instant; that call's goroutine gives its token back.
pub data Action : Type 0 where
  goes : ℤ → ℤ → List Str → Action
  answered : Str → Outcome → ℤ → Action
  leaves : Str → Action

abbrev pub Moved : Type 0
Moved = Option (BidderEngine × Option Refresh)

abbrev pub at_stage : Refresh → Stage → Refresh
at_stage g s = record g { stage = s }

unfoldable pub keys {ℓ} : {V : Type ℓ} → List (Str × V) → List Str
keys [] = []
keys ((k, v) ∷ m) = k ∷ keys m

-- The `select` on a bidder's semaphore.
unfoldable pub acquire : BidderEngine → Refresh → Str → List Str → Option BidderRuntime → Moved
acquire e g id rest none = none
acquire e g id rest (some b) =
    if ltb b.sem (pos_part b.config.max_concurrent)
    then some (
      record e { bidders = store id (record b { sem = suc b.sem }) e.bidders },
      some (at_stage g (holding id rest)),
    )
    else some (
      record e { stats = record e.stats { fanout_skipped = inc64 e.stats.fanout_skipped } },
      some (at_stage g (visiting rest)),
    )

-- The circuit's answer, behind which the call starts or the token goes back.
unfoldable pub admit : BidderEngine → Refresh → Str → List Str → ℤ → Option BidderRuntime → Moved
unfolding allow
admit e g id rest now none = none
admit e g id rest now (some b) =
    if (allow b.breaker now).1
    then some (
      record e { bidders = store id (record b { breaker = (allow b.breaker now).0 }) e.bidders },
      some (record g { stage = visiting rest; started = suc g.started; workers = id ∷ g.workers }),
    )
    else if b.sem == 0
    then none
    else some (
      record e {
        bidders =
            store id (record b { breaker = (allow b.breaker now).0; sem = b.sem - 1 }) e.bidders;
        stats = record e.stats { circuit_open = inc64 e.stats.circuit_open };
      },
      some (at_stage g (visiting rest)),
    )

-- The loop over the results, once their channel is closed.
unfoldable pub collect : List (Option (List DynamicBid)) → List DynamicBid
collect [] = []
collect (none ∷ rs) = collect rs
collect (some bids ∷ rs) = bids ++ collect rs

unfoldable pub has_success : List (Option (List DynamicBid)) → Bool
has_success [] = false
has_success (none ∷ rs) = has_success rs
has_success (some bids ∷ rs) = true

unfoldable pub result_ttl : BidderEngine → Refresh → ℤ
unfolding has_success
result_ttl e g = if has_success g.results then e.config.cache_ttl else e.config.failure_ttl

unfoldable pub store_results : BidderEngine → Refresh → ℤ → ℤ → List Str → BidderEngine
unfolding collect result_ttl
store_results e g made_at now order =
    let (c, kept) = put e.cache made_at now order g.key (collect g.results) (result_ttl e g) in
    record e {
      cache = c;
      stats = if kept then e.stats else record e.stats { cache_full = inc64 e.stats.cache_full };
    }

unfoldable pub visit : BidderEngine → Refresh → List Str → Moved
unfolding acquire
visit e g [] = some (e, some (at_stage g waiting))
visit e g (id ∷ rest) =
    if eqb_ℤ (pos g.started) e.config.max_fanout
    then some (e, some (at_stage g waiting))
    else acquire e g id rest (load id e.bidders)

-- The next step of the goroutine of a refresh.
unfoldable pub go_on : BidderEngine → Refresh → Stage → ℤ → ℤ → List Str → Moved
unfolding visit admit store_results keys
go_on e g spawned made_at now order = some (
  record e { stats = record e.stats { refreshes = inc64 e.stats.refreshes } },
  some (at_stage g (visiting (keys e.bidders))),
)
go_on e g (visiting ids) made_at now order = visit e g ids
go_on e g (holding id rest) made_at now order = admit e g id rest now (load id e.bidders)
go_on e g waiting made_at now order =
    if length g.workers == 0 && length g.leaving == 0
    then some (store_results e g made_at now order, some (at_stage g stored))
    else none
go_on e g stored made_at now order =
    some (record e { inflight = delete g.key e.inflight }, some (at_stage g forgotten))
go_on e g forgotten made_at now order =
    if e.refresh_slots == 0
    then none
    else some (record e { refresh_slots = e.refresh_slots - 1 }, none)

-- What a call sends to the channel, and how it leaves the bidder's circuit and the counters.
unfoldable pub result_of : Str → DspRequest → Outcome → Option (List DynamicBid)
unfolding sanitize_dynamic_bids
result_of id request (fetched bids) = some (sanitize_dynamic_bids id request bids)
result_of id request deadline_exceeded = none
result_of id request failed = none

unfoldable pub breaker_after : CircuitBreaker → Outcome → ℤ → CircuitBreaker
unfolding success failure
breaker_after b (fetched bids) now = success b
breaker_after b deadline_exceeded now = failure b now
breaker_after b failed now = failure b now

unfoldable pub count_outcome : BidderEngineStats → Outcome → BidderEngineStats
count_outcome s (fetched bids) = s
count_outcome s deadline_exceeded = record s { timeouts = inc64 s.timeouts }
count_outcome s failed = record s { failures = inc64 s.failures }

-- The refresh with a call's result sent, and with its token back.
abbrev pub sent : Refresh → Str → Option (List DynamicBid) → Refresh
sent g id result = record g {
  workers = remove_one id g.workers;
  leaving = id ∷ g.leaving;
  results = g.results ++ result ∷ [];
}

abbrev pub left : Refresh → Str → Refresh
left g id = record g { leaving = remove_one id g.leaving }

-- A send on a full channel waits.
unfoldable pub answer : BidderEngine → Refresh → Str → Outcome → ℤ → Option BidderRuntime → Moved
unfolding result_of breaker_after count_outcome
answer e g id outcome now none = none
answer e g id outcome now (some b) =
    if contains g.workers id && ltb (length g.results) (pos_part e.config.max_fanout)
    then some (
      record e {
        bidders = store id (record b { breaker = breaker_after b.breaker outcome now }) e.bidders;
        stats = count_outcome e.stats outcome;
      },
      some (sent g id (result_of id g.request outcome)),
    )
    else none

unfoldable pub leave : BidderEngine → Refresh → Str → Option BidderRuntime → Moved
leave e g id none = none
leave e g id (some b) =
    if contains g.leaving id && not (b.sem == 0)
    then some
        (record e { bidders = store id (record b { sem = b.sem - 1 }) e.bidders }, some (left g id))
    else none

unfoldable pub advance : BidderEngine → Refresh → Action → Moved
unfolding go_on answer leave
advance e g (goes made_at now order) = go_on e g g.stage made_at now order
advance e g (answered id outcome now) = answer e g id outcome now (load id e.bidders)
advance e g (leaves id) = leave e g id (load id e.bidders)

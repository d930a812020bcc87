-- ===== src/Examples/Messages.antt =====
-- The slots of a cluster, a subscription, and the loops of a cache.
use adserver.SortBids.{sort_bids}
use adserver.Common.Int.{pos}
use adserver.Store.Keys.Slots.{IsTagged, version_key-slot}
use adserver.Store.Keys.{active_key, version_key}
use adserver.Examples.{dear}
use adserver.Store.Client.Subscribe
use adserver.Store.Client.Subscribe.{Subscription, subscribe, forward}
use adserver.Store.Client.Subscribe.Order.{
  Delivery, opens, gets, passes, stops, InOrder, Delivery-InOrder,
}
use adserver.Cache.Loops.{
  LoopState, start, loop_step, following, cancels, message, subscribed, tests, ticks, lists,
  TickStage,
}
use adserver.Cache.Loops.Runs.{LoopRun, LoopRun-IsTended, IsTended, all_runs}
use adserver.Cache.Flights.{CacheEvent, asks, runs, happen_all, refresh_async-IsValid}
use adserver.Cache.Missed.{refresh_async_missed}
use adserver.Examples.Snapshots.{before_refresh, before_refresh-IsValid, fetched}
use adserver.Examples.Sorting.{insertion_sort}
use adserver.Common.Assoc.{has_key, store, load}
use adserver.Common.Word.{to_int64}
use adserver.Cache.{count_reconciliation, new_bid_cache, refresh_async, BidCache}
use adserver.Common.Text.{Str, bytes, has_byte, is_empty, str_eq}
use adserver.Types.Bid.{validate, validate_with, normalize}
use adserver.Common.{
  refl, true, false, some, none, [], ◌∷◌, ◌≡◌, ◌∙◌, ◌++◌, ◌==◌, ◌+◌, ◌*◌, ◌%◌, arith, ap,
  if◌then◌else◌, Option, ℕ, inl, inr, Bool-cases, sym, map,
}

-- What stands behind the first opening brace.
abbrev behind_open : Str → Option Str
behind_open [] = none
behind_open (c ∷ s) = if c == b'{' then some s else behind_open s

-- What stands before the first closing brace.
abbrev before_close : Str → Option Str
before_close [] = none
before_close (c ∷ s) =
    if c == b'}' then some [] else elim (before_close s) [ none ↦ none | some t ↦ some (c ∷ t) ]

abbrev tag_or : Str → Option Str → Str
tag_or k none = k
tag_or k (some tag) = if is_empty tag then k else tag

abbrev tag_behind : Str → Option Str → Str
tag_behind k none = k
tag_behind k (some s) = tag_or k (before_close s)

-- The part of a key that is hashed.
abbrev hashed : Str → Str
hashed k = tag_behind k (behind_open k)

abbrev checksum : Str → ℕ
checksum [] = 0
checksum (c ∷ s) = (c + 31 * checksum s) % 16384

abbrev slot : Str → ℕ
slot k = checksum (hashed k)

behind_open-append :
    (before s : Str) → has_byte b'{' before ≡ false → behind_open (before ++ (b'{' ∷ s)) ≡ some s
unfolding has_byte
behind_open-append [] s h = refl
behind_open-append (c ∷ before) s h = ground (arith, behind_open-append before s)

before_close-append :
    (tag after : Str) → has_byte b'}' tag ≡ false → before_close (tag ++ (b'}' ∷ after)) ≡ some tag
unfolding has_byte
before_close-append [] after h = refl
before_close-append (c ∷ tag) after h = ground (arith, before_close-append tag after)

before_close-none : (s : Str) → has_byte b'}' s ≡ false → before_close s ≡ none
unfolding has_byte
before_close-none [] h = refl
before_close-none (c ∷ s) h = ground (arith, before_close-none s)

-- A text without a closing brace is hashed whole.
hashed-whole : (k s : Str) → has_byte b'}' s ≡ false → tag_behind k (behind_open s) ≡ k
unfolding has_byte
hashed-whole k [] h = refl
hashed-whole k (c ∷ s) h = elim (Bool-cases (c == b'{')) [
  | inl t ↦ rw t (rw (before_close-none s (ground arith)) refl)
  | inr t ↦ rw t (hashed-whole k s (ground arith))
]

slot-IsTagged : IsTagged slot
slot-IsTagged before tag after h k e =
    ap checksum (
      ap (tag_behind _) (behind_open-append before (tag ++ (b'}' ∷ after)) h)
      ∙ ap (tag_or _) (before_close-append tag after k)
      ∙ ground arith)
    ∙ ap checksum (sym (hashed-whole tag tag k))

dear-valid : validate dear ≡ none
unfolding validate validate_with is_empty has_byte
dear-valid = refl

version_key-slot_example :
    (slot (active_key (bytes "adserver") (bytes "top")) ≡ slot (bytes "top"))
    × (slot (version_key (bytes "adserver") (bytes "top")) ≡ slot (bytes "top"))
unfolding has_byte
version_key-slot_example =
    version_key-slot slot slot-IsTagged (bytes "adserver") refl dear dear-valid

-- Two messages come, one is passed on, and the context is done while the other is held.
abbrev stopped_early : Subscription
stopped_early = record { stage = Subscribe.ended; out = bytes "top" ∷ []; is_done = true }

stopped_early-Delivery : Delivery (bytes "top" ∷ bytes "side" ∷ []) [] stopped_early
unfolding subscribe forward
stopped_early-Delivery =
    stops
      (stops (gets (bytes "side") (passes (gets (bytes "top") (opens refl) refl) refl) refl)
        (inr (inr refl)))
      (inl refl)

Delivery-InOrder_example : InOrder (bytes "top" ∷ bytes "side" ∷ []) [] stopped_early
Delivery-InOrder_example = Delivery-InOrder stopped_early-Delivery

-- A message starts a refresh of a placement that a reconciliation is at, and the context is cancelled.
abbrev following_loops : LoopState
following_loops = record {
  cache = refresh_async (count_reconciliation insertion_sort before_refresh) (bytes "top");
  subscriber = following;
  ticker = TickStage.refreshing (bytes "top") (bytes "side" ∷ []);
  is_done = true;
}

following_loops-LoopRun : LoopRun insertion_sort before_refresh following_loops
unfolding loop_step start
following_loops-LoopRun =
    LoopRun.steps cancels
      (LoopRun.steps (message (bytes "top"))
        (LoopRun.steps (lists (some (bytes "top" ∷ bytes "side" ∷ [])))
          (LoopRun.steps ticks
            (LoopRun.steps subscribed (LoopRun.steps tests LoopRun.begins refl) refl) refl)
          refl)
        refl)
      refl

LoopRun-IsTended_example : IsTended following_loops
LoopRun-IsTended_example =
    LoopRun-IsTended insertion_sort before_refresh following_loops before_refresh-IsValid
      following_loops-LoopRun

-- Two refreshes of the placement run.
following_loops-all_runs : all_runs (bytes "top") following_loops ≡ 2
unfolding all_runs runs refresh_async is_empty has_key str_eq new_bid_cache
following_loops-all_runs = refl

-- A message for a placement whose refresh runs.
abbrev refreshing : BidCache
refreshing = refresh_async before_refresh (bytes "top")

refreshing-has_key : has_key (bytes "top") refreshing.inflight ≡ true
unfolding refresh_async is_empty has_key store str_eq new_bid_cache
refreshing-has_key = refl

refresh_async_missed_example :
    let d =
      happen_all insertion_sort refreshing
        (asks (bytes "top") ∷ CacheEvent.ends (bytes "top") (some fetched) (pos 40) ∷ []) in
    (d
      ≡ happen_all insertion_sort refreshing
          (CacheEvent.ends (bytes "top") (some fetched) (pos 40) ∷ []))
    × (load (bytes "top") d.entries
        ≡ some (
            some (record {
              bids = sort_bids insertion_sort (map normalize fetched);
              refreshed_at_ns = to_int64 (pos 40);
            })))
    × (has_key (bytes "top") d.inflight ≡ false)
    × (runs (bytes "top") d.running ≡ 0)
refresh_async_missed_example =
    refresh_async_missed insertion_sort refreshing (bytes "top") fetched (pos 40)
      (refresh_async-IsValid before_refresh (bytes "top") before_refresh-IsValid) refreshing-has_key

-- ===== src/Dynamic/Engine/Open.antt =====
-- internal/ads/dynamic_bidding.go, `BidderEngine`: what its cache and its refreshes hold, step by step.
use adserver.Dynamic.Engine.Bids.{IsOpenFor, EntryIsOpen, put-EntryIsOpen}
use adserver.Dynamic.Breaker.{allow}
use adserver.Dynamic.Engine.Invariant.{All-split}
use adserver.Dynamic.Sanitize.{sanitize_dynamic_bids}
use adserver.Dynamic.Engine.Tokens.{After}
use mathlib.Core.Path.{subst}
use adserver.Dynamic.Sanitize.Laws.{IsOpen, sanitize_dynamic_bids-IsOpen}
use adserver.Common.Int.{ℤ, pos, pos_part, eqb_ℤ}
use adserver.Dynamic.Key.{dynamic_cache_key}
use adserver.Auction.{DynamicBid}
use adserver.Types.Bid.{AuctionRequest}
use adserver.Common.Text.{Str, contains}
use adserver.Common.{
  inl, inr, some, none, [], ◌∷◌, ◌≡◌, All, List, Option, Bool-cases, sym, refl, ◌∙◌, All-append,
  All-mono, ap, ltb, ◌==◌, ◌&&◌, ◌||◌, length, Option-cases, not,
}
use adserver.Dynamic.Engine.Runs.{
  move, looks, triggers, stops, moves, here, next, Reach, Move, resume,
}
use adserver.Dynamic.Engine.Steps.{
  goes, answered, leaves, collect, visit, result_of, acquire, leave, answer, go_on, store_results,
  advance, admit, Action, result_ttl,
}
use adserver.Dynamic.Engine.{
  spawned, visiting, holding, waiting, stored, forgotten, fetched, deadline_exceeded, failed,
  Refresh, BidderEngine, as_dsp_request, Outcome, BidderRuntime, lookup, trigger, Stage, is_fresh,
  slot_count,
}
use adserver.Dynamic.BidCache.{get}
use adserver.Common.Assoc.{load, has_key}

abbrev ResultIsOpen : Str → Option (List DynamicBid) → Type 0
ResultIsOpen key none = Unit
ResultIsOpen key (some bids) = All (IsOpenFor key) bids

-- The key and the request of a refresh belong together, and its results are for them.
abbrev IsSourced : Refresh → Type 0
IsSourced g =
    ((request : AuctionRequest) × (dynamic_cache_key request ≡ g.key)
      × (as_dsp_request request ≡ g.request))
    × All (ResultIsOpen g.key) g.results

-- Every bid in the cache and in the refreshes is one that was sanitised for a request with its key.
pub record HoldsOpen (e : BidderEngine) : Type 0 where
  pub entries : All EntryIsOpen e.cache.entries
  pub sourced : All IsSourced e.running

collect-IsOpenFor :
    (k : Str) (rs : List (Option (List DynamicBid)))
    → All (ResultIsOpen k) rs
    → All (IsOpenFor k) (collect rs)
unfolding collect
collect-IsOpenFor k [] h = tt
collect-IsOpenFor k (none ∷ rs) h = collect-IsOpenFor k rs h.1
collect-IsOpenFor k (some bids ∷ rs) h =
    All-append (IsOpenFor k) bids (collect rs) h.0 (collect-IsOpenFor k rs h.1)

result_of-ResultIsOpen :
    (id : Str) (g : Refresh) (outcome : Outcome)
    → IsSourced g
    → ResultIsOpen g.key (result_of id g.request outcome)
unfolding result_of
result_of-ResultIsOpen id g (fetched bids) ((request, k, q), h) =
    All-mono (IsOpen id g.request) (IsOpenFor g.key)
      (λ d o. (request, k, (refl, o.1 ∙ ap (λ r. r.placement_id) (sym q), o.2, o.3, o.4, o.5)))
      (sanitize_dynamic_bids id g.request bids) (sanitize_dynamic_bids-IsOpen id g.request bids)
result_of-ResultIsOpen id g deadline_exceeded h = tt
result_of-ResultIsOpen id g failed h = tt

-- A step keeps the cache and the refresh open.
abbrev GoesOpen : Option Refresh → Type 0
GoesOpen none = Unit
GoesOpen (some g) = IsSourced g

abbrev StaysOpen : BidderEngine → Option Refresh → Type 0
StaysOpen e o = All EntryIsOpen e.cache.entries × GoesOpen o

module _ (e : BidderEngine) (g : Refresh) (h : All EntryIsOpen e.cache.entries)
    (s : IsSourced g) where
  visit-StaysOpen : (ids : List Str) → After StaysOpen (visit e g ids)
  unfolding visit acquire
  visit-StaysOpen [] = (h, s)
  visit-StaysOpen (id ∷ rest) = elim (Bool-cases (eqb_ℤ (pos g.started) e.config.max_fanout)) [
    | inl t ↦ rw t (h, s)
    | inr t ↦ rw t (acquired (load id e.bidders))
  ]
    where
      acquired : (o : Option BidderRuntime) → After StaysOpen (acquire e g id rest o)
      acquired none = tt
      acquired (some b) = elim (Bool-cases (ltb b.sem (pos_part b.config.max_concurrent))) [
        | inl t ↦ rw t (h, s)
        | inr t ↦ rw t (h, s)
      ]

  admit-StaysOpen :
      (id : Str) (rest : List Str) (now : ℤ) (o : Option BidderRuntime)
      → After StaysOpen (admit e g id rest now o)
  unfolding admit
  admit-StaysOpen id rest now none = tt
  admit-StaysOpen id rest now (some b) = elim (Bool-cases (allow b.breaker now).1) [
    | inl t ↦ rw t (h, s)
    | inr t ↦ elim (Bool-cases (b.sem == 0)) [ inl z ↦ rw (t, z) tt | inr z ↦ rw (t, z) (h, s) ]
  ]

  store_results-open :
      (made_at now : ℤ) (order : List Str)
      → All EntryIsOpen (store_results e g made_at now order).cache.entries
  unfolding store_results
  store_results-open made_at now order =
      put-EntryIsOpen e.cache made_at now order g.key (collect g.results) (result_ttl e g)
        (collect-IsOpenFor g.key g.results s.1) h

  go_on-StaysOpen :
      (t : Stage) (made_at now : ℤ) (order : List Str)
      → After StaysOpen (go_on e g t made_at now order)
  unfolding go_on
  go_on-StaysOpen spawned made_at now order = (h, s)
  go_on-StaysOpen (visiting ids) made_at now order = visit-StaysOpen ids
  go_on-StaysOpen (holding id rest) made_at now order =
      admit-StaysOpen id rest now (load id e.bidders)
  go_on-StaysOpen waiting made_at now order =
      elim (Bool-cases (length g.workers == 0 && length g.leaving == 0)) [
        | inl t ↦ rw t (store_results-open made_at now order, s)
        | inr t ↦ rw t tt
      ]
  go_on-StaysOpen stored made_at now order = (h, s)
  go_on-StaysOpen forgotten made_at now order = elim (Bool-cases (e.refresh_slots == 0)) [
    | inl t ↦ rw t tt
    | inr t ↦ rw t (h, tt)
  ]

  answer-StaysOpen :
      (id : Str) (outcome : Outcome) (now : ℤ) (o : Option BidderRuntime)
      → After StaysOpen (answer e g id outcome now o)
  unfolding answer
  answer-StaysOpen id outcome now none = tt
  answer-StaysOpen id outcome now (some b) =
      elim (Bool-cases
        (contains g.workers id && ltb (length g.results) (pos_part e.config.max_fanout))) [
          | inl t ↦ rw t (
            h,
            (
              s.0,
              All-append (ResultIsOpen g.key) g.results _ s.1
                  (result_of-ResultIsOpen id g outcome s, tt),
            ),
          )
          | inr t ↦ rw t tt
        ]

  leave-StaysOpen : (id : Str) (o : Option BidderRuntime) → After StaysOpen (leave e g id o)
  unfolding leave
  leave-StaysOpen id none = tt
  leave-StaysOpen id (some b) = elim (Bool-cases (contains g.leaving id && not (b.sem == 0))) [
    | inl t ↦ rw t (h, s)
    | inr t ↦ rw t tt
  ]

  advance-StaysOpen : (a : Action) → After StaysOpen (advance e g a)
  unfolding advance
  advance-StaysOpen (goes made_at now order) = go_on-StaysOpen g.stage made_at now order
  advance-StaysOpen (answered id outcome now) = answer-StaysOpen id outcome now (load id e.bidders)
  advance-StaysOpen (leaves id) = leave-StaysOpen id (load id e.bidders)

resume-HoldsOpen :
    (e : BidderEngine) (before after : List Refresh) (o : Option Refresh)
    → StaysOpen e o
    → All IsSourced before
    → All IsSourced after
    → HoldsOpen (resume e before o after)
unfolding resume
resume-HoldsOpen e before after none (h, s) b c = record {
  entries = h;
  sourced = All-append IsSourced before after b c;
}
resume-HoldsOpen e before after (some g) (h, s) b c = record {
  entries = h;
  sourced = All-append IsSourced before (g ∷ after) b (s, c);
}

Move-HoldsOpen : {e e' : BidderEngine} → Move e e' → HoldsOpen e → HoldsOpen e'
Move-HoldsOpen {e} (move before after g a e' o r made) v =
    let parts = All-split IsSourced before g after (subst (All IsSourced) r v.sourced) in
    resume-HoldsOpen e' before after o
      (subst (After StaysOpen) made (advance-StaysOpen e g v.entries parts.1 a)) parts.0 parts.2

trigger-HoldsOpen :
    (e : BidderEngine) (now : ℤ) (request : AuctionRequest)
    → HoldsOpen e
    → HoldsOpen (trigger e now request)
unfolding trigger
trigger-HoldsOpen e now request v = elim (Bool-cases (length e.bidders == 0 || e.is_done)) [
  | inl t ↦ rw t v
  | inr t ↦ elim (Bool-cases (is_fresh (get e.cache now (dynamic_cache_key request)))) [
    | inl f ↦ rw (t, f) v
    | inr f ↦ elim (Bool-cases (has_key (dynamic_cache_key request) e.inflight)) [
      | inl k ↦ rw (t, f, k) v
      | inr k ↦ elim (Bool-cases (ltb e.refresh_slots (slot_count e))) [
        | inl l ↦
            rw (t, f, k, l)
              (record { entries = v.entries; sourced = (((request, refl, refl), tt), v.sourced) })
        | inr l ↦ rw (t, f, k, l) (record { entries = v.entries; sourced = v.sourced })
      ]
    ]
  ]
]

lookup-HoldsOpen :
    (e : BidderEngine) (now : ℤ) (request : AuctionRequest)
    → HoldsOpen e
    → HoldsOpen (lookup e now request).0
unfolding lookup
lookup-HoldsOpen e now request v =
    elim (Option-cases (get e.cache now (dynamic_cache_key request))) [
      | inl t ↦ rw (lookup, t) v
      | inr (bids, t) ↦ rw (lookup, t) (record { entries = v.entries; sourced = v.sourced })
    ]

pub Reach-HoldsOpen : {s e : BidderEngine} → Reach s e → HoldsOpen s → HoldsOpen e
Reach-HoldsOpen here v = v
Reach-HoldsOpen (next r (looks now request)) v =
    lookup-HoldsOpen _ now request (Reach-HoldsOpen r v)
Reach-HoldsOpen (next r (triggers now request)) v =
    trigger-HoldsOpen _ now request (Reach-HoldsOpen r v)
Reach-HoldsOpen (next r stops) v =
    let w = Reach-HoldsOpen r v in record { entries = w.entries; sourced = w.sourced }
Reach-HoldsOpen (next r (moves m)) v = Move-HoldsOpen m (Reach-HoldsOpen r v)

-- ===== src/Dynamic/Engine/Invariant.antt =====
-- internal/ads/dynamic_bidding.go, `BidderEngine`:
-- the invariant holds in every state that the engine reaches.
use adserver.Dynamic.Engine.Runs.{Move, move, looks, triggers, stops, moves, here, next}
use adserver.Dynamic.Key.{dynamic_cache_key}
use adserver.Types.Bid.{AuctionRequest}
use adserver.Common.Int.{ℤ}
use mathlib.Core.Path.{subst}
use adserver.Common.Assoc.{has_key, store, has_key-store, store-DistinctKeys}
use adserver.Dynamic.Engine.Fit.{Fits, FitsStill, FitsAt, Fits-mono, advance-Fits}
use adserver.Dynamic.Engine.Steps.{Action, advance}
use adserver.Dynamic.Engine.Keeps.{live, Keeps, advance-Keeps}
use adserver.Common.Text.{Str, str_eq_refl, str_eq→eq}
use adserver.Common.{
  refl, true, some, suc, [], ◌∷◌, ◌≡◌, ◌∙◌, ◌+◌, ◌++◌, ◌≤◌, List, All, ℕ, length, arith, Option,
  All-mono, none, ap, length-append, All-append, false, inl, inr, ◌==◌, ◌||◌, ◌<◌, Option-cases,
  Bool, Bool-cases, ltb, ltb→lt,
}
use adserver.Dynamic.Engine.{
  stored, forgotten, BidderEngine, Refresh, BidderRuntime, Stage, trigger, lookup, slot_count,
  BidderEngineStats, get, spawn, is_fresh,
}
use adserver.Dynamic.Engine.Tokens.{held, count, After, advance-Balances, Balances}
use adserver.Dynamic.Engine.Runs.{
  IsValid, sum_of, sum_of-append, Step, resume, looks, triggers, moves, Reach, next,
}

pub All-split {ℓ κ} :
    {A : Type ℓ} (P : A → Type κ) (xs : List A) (y : A) (ys : List A)
    → All P (xs ++ y ∷ ys)
    → All P xs × P y × All P ys
All-split P [] y ys h = (tt, h.0, h.1)
All-split P (x ∷ xs) y ys h = let k = All-split P xs y ys h.1 in ((h.0, k.0), k.1, k.2)

count-le-length : (k : Str) (xs : List Str) → count k xs ≤ length xs
unfolding count
count-le-length k [] = omega arith
count-le-length k (x ∷ xs) = ground (arith, count-le-length k xs)

-- A refresh that has stored its results holds no token.
held_stored :
    (k : Str) (n : ℕ) (m : List (Str × BidderRuntime)) (g : Refresh)
    → (s : Stage) → g.stage ≡ s
    → Fits n m g
    → s ≡ forgotten
    → held k g ≡ 0
held_stored k n m g s e v h =
    let f : FitsAt n m g forgotten = subst (FitsAt n m g) (e ∙ h) v.staged in
    let w = count-le-length k g.workers in
    let l = count-le-length k g.leaving in rw (e, h) (omega arith)

live_stored : (g : Refresh) → g.stage ≡ stored → live g.key g ≡ 1
live_stored g e = rw (e, str_eq_refl g.key) refl

module _ (e : BidderEngine) (v : IsValid e) (before after : List Refresh) (g : Refresh) (a : Action)
    (e' : BidderEngine) (r : e.running ≡ before ++ g ∷ after) where
  parts :
      All (Fits (suc v.fanout) e.bidders) before
      × Fits (suc v.fanout) e.bidders g
      × All (Fits (suc v.fanout) e.bidders) after
  parts = All-split _ before g after (subst (All (Fits (suc v.fanout) e.bidders)) r v.fits)

  sum_around : (f : Refresh → ℕ) → sum_of f e.running ≡ sum_of f before + (f g + sum_of f after)
  unfolding sum_of
  sum_around f = rw r (sum_of-append f before (g ∷ after))

  flies : g.stage ≡ stored → has_key g.key e.inflight ≡ true
  flies h =
      let k = sum_around (live g.key) in let one = live_stored g h in ground (arith, v.single g.key)

  module _ (o : Option Refresh) (made : advance e g a ≡ some (e', o)) where
    balance : (k : Str) → Balances k e g e' o
    balance k =
        subst (After (Balances k e g)) made
          (advance-Balances k e g a (held_stored k (suc v.fanout) e.bidders g g.stage refl parts.1))

    keeps : (k : Str) → Keeps k e g e' o
    keeps k = subst (After (Keeps k e g)) made (advance-Keeps k e g v.distinct a flies)

    fit : FitsStill (suc v.fanout) e' o
    fit =
        subst (After (FitsStill (suc v.fanout))) made
          (advance-Fits e g v.fanout v.fanout_is parts.1 a)

    around_fit :
        (gs : List Refresh)
        → All (Fits (suc v.fanout) e.bidders) gs
        → All (Fits (suc v.fanout) e'.bidders) gs
    around_fit gs h =
        All-mono _ _ (λ x y. Fits-mono (suc v.fanout) e.bidders e'.bidders x (λ j. (keeps j).2) y)
          gs h

  resume-IsValid :
      (o : Option Refresh) → advance e g a ≡ some (e', o) → IsValid (resume e' before o after)
  unfolding resume sum_of
  resume-IsValid none made =
      let k0 = keeps none made g.key in
      record {
        fanout = v.fanout;
        fanout_is = rw k0.0 v.fanout_is;
        slots = omega (
          arith,
          v.slots,
          k0.4,
          ap length r,
          length-append before (g ∷ after),
          length-append before after,
        );
        slot_limit = rw k0.0 (omega (arith, v.slot_limit, k0.4));
        tokens = λ id. omega (
          arith,
          v.tokens id,
          balance none made id,
          sum_around (held id),
          sum_of-append (held id) before after,
        );
        token_limit = λ id. (keeps none made id).3 (v.token_limit id);
        single = λ key. omega (
          arith,
          v.single key,
          (keeps none made key).5,
          sum_around (live key),
          sum_of-append (live key) before after,
        );
        distinct = k0.6;
        fits =
            All-append _ before after (around_fit none made before parts.0)
              (around_fit none made after parts.2);
      }
  resume-IsValid (some g') made =
      let k0 = keeps (some g') made g.key in
      record {
        fanout = v.fanout;
        fanout_is = rw k0.0 v.fanout_is;
        slots = omega (
          arith,
          v.slots,
          k0.4,
          ap length r,
          length-append before (g ∷ after),
          length-append before (g' ∷ after),
        );
        slot_limit = rw k0.0 (omega (arith, v.slot_limit, k0.4));
        tokens = λ id. omega (
          arith,
          v.tokens id,
          balance (some g') made id,
          sum_around (held id),
          sum_of-append (held id) before (g' ∷ after),
        );
        token_limit = λ id. (keeps (some g') made id).3 (v.token_limit id);
        single = λ key. omega (
          arith,
          v.single key,
          (keeps (some g') made key).5,
          sum_around (live key),
          sum_of-append (live key) before (g' ∷ after),
        );
        distinct = k0.6;
        fits =
            All-append _ before (g' ∷ after) (around_fit (some g') made before parts.0)
              (fit (some g') made, around_fit (some g') made after parts.2);
      }

-- The counters and the end of the context do not enter the invariant.
apart-IsValid :
    (e : BidderEngine) (done : Bool) (stats : BidderEngineStats)
    → IsValid e
    → IsValid (record e { is_done = done; stats = stats })
apart-IsValid e done stats v = record {
  fanout = v.fanout;
  fanout_is = v.fanout_is;
  slots = v.slots;
  slot_limit = v.slot_limit;
  tokens = v.tokens;
  token_limit = v.token_limit;
  single = v.single;
  distinct = v.distinct;
  fits = v.fits;
}

spawn-IsValid :
    (e : BidderEngine) (key : Str) (request : AuctionRequest)
    → has_key key e.inflight ≡ false
    → e.refresh_slots < slot_count e
    → IsValid e
    → IsValid (record e {
      inflight = store key tt e.inflight;
      refresh_slots = suc e.refresh_slots;
      running = spawn key request ∷ e.running;
    })
unfolding sum_of count
spawn-IsValid e key request new room v = record {
  fanout = v.fanout;
  fanout_is = v.fanout_is;
  slots = omega (arith, v.slots);
  slot_limit = room;
  tokens = λ id. omega (arith, v.tokens id);
  token_limit = v.token_limit;
  single = λ k. ground (arith, v.single k, has_key-store key k tt e.inflight, str_eq→eq key k);
  distinct = store-DistinctKeys key tt e.inflight v.distinct;
  fits = (record { counted = refl; within = omega arith; staged = tt }, v.fits);
}

-- A trigger changes nothing, counts a refresh that it skips, or starts the only refresh of its key.
trigger-IsValid :
    (e : BidderEngine) (now : ℤ) (request : AuctionRequest)
    → IsValid e
    → IsValid (trigger e now request)
unfolding trigger
trigger-IsValid e now request v =
    let key = dynamic_cache_key request in
    elim (Bool-cases (length e.bidders == 0 || e.is_done)) [
      | inl h ↦ rw h v
      | inr h ↦ elim (Bool-cases (is_fresh (get e.cache now key))) [
        | inl f ↦ rw (h, f) v
        | inr f ↦ elim (Bool-cases (has_key key e.inflight)) [
          | inl t ↦ rw (h, f, t) v
          | inr t ↦ elim (Bool-cases (ltb e.refresh_slots (slot_count e))) [
            | inl r ↦ rw (h, f, t, r) (spawn-IsValid e key request t (ltb→lt _ _ r) v)
            | inr r ↦ rw (h, f, t, r) (apart-IsValid e e.is_done _ v)
          ]
        ]
      ]
    ]

lookup-IsValid :
    (e : BidderEngine) (now : ℤ) (request : AuctionRequest)
    → IsValid e
    → IsValid (lookup e now request).0
unfolding lookup
lookup-IsValid e now request v = elim (Option-cases (get e.cache now (dynamic_cache_key request))) [
  | inl h ↦ rw (h, lookup) v
  | inr (bids, h) ↦ rw (h, lookup) (apart-IsValid e e.is_done _ v)
]

pub Move-IsValid : {e e' : BidderEngine} → Move e e' → IsValid e → IsValid e'
Move-IsValid {e} (move before after g a e' o r made) v =
    resume-IsValid e v before after g a e' r o made

Step-IsValid : {e e' : BidderEngine} → Step e e' → IsValid e → IsValid e'
Step-IsValid {e} (looks now request) v = lookup-IsValid e now request v
Step-IsValid {e} (triggers now request) v = trigger-IsValid e now request v
Step-IsValid {e} stops v = apart-IsValid e true e.stats v
Step-IsValid (moves m) v = Move-IsValid m v

-- In every state that is reached from a valid one by requests, cancellation and the goroutines' steps,
-- in any order: every slot and every token that is taken is held by a refresh that runs, within the
-- limits; a key is in flight exactly while one refresh of it runs, and no second one does; every
-- refresh makes at most `max_fanout` calls.
pub Reach-IsValid : (s e : BidderEngine) → IsValid s → Reach s e → IsValid e
Reach-IsValid s e v here = v
Reach-IsValid s e v (next {e = d} r st) = Step-IsValid st (Reach-IsValid s d v r)

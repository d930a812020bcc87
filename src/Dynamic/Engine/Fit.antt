-- ===== src/Dynamic/Engine/Fit.antt =====
-- internal/ads/dynamic_bidding.go, `BidderEngine`:
-- the bounds of one refresh: its calls and results stay within the fan-out.
use adserver.Dynamic.Breaker.{allow}
use adserver.Dynamic.Engine.Tokens.{After, length-remove_one}
use adserver.Common.Int.{pos, ℤ, eqb_ℤ, pos_part}
use adserver.Common.Assoc.{has_key, store, has_key-store, load}
use adserver.Common.Text.{Str, str_eq_refl, contains}
use adserver.Dynamic.Engine.Steps.{
  keys, visit, acquire, admit, go_on, leave, answer, advance, Action, store_results, goes, answered,
  breaker_after, leaves, result_of, left, sent,
}
use adserver.Common.{
  true, inl, inr, some, none, suc, [], ◌∷◌, ◌≡◌, ◌+◌, ◌-◌, ◌≤◌, ◌<◌, ℕ, List, Option, length, All,
  arith, All-mono, Bool-cases, refl, ◌==◌, ◌&&◌, ltb, not, length-append,
}
use adserver.Dynamic.Engine.{
  spawned, waiting, stored, forgotten, visiting, holding, BidderEngine, BidderRuntime, Refresh,
  Stage, Outcome,
}

-- All the ids have a bidder.
abbrev pub AreKnown : List (Str × BidderRuntime) → List Str → Type 0
AreKnown bidders ids = All (λ id. has_key id bidders ≡ true) ids

-- What a goroutine has at its stage.
abbrev pub FitsAt : ℕ → List (Str × BidderRuntime) → Refresh → Stage → Type 0
FitsAt limit bidders g spawned = Unit
FitsAt limit bidders g (visiting ids) = AreKnown bidders ids
FitsAt limit bidders g (holding id rest) = (suc g.started ≤ limit) × AreKnown bidders rest
FitsAt limit bidders g waiting = Unit
FitsAt limit bidders g stored = (length g.workers ≡ 0) × (length g.leaving ≡ 0)
FitsAt limit bidders g forgotten = (length g.workers ≡ 0) × (length g.leaving ≡ 0)

pub record Fits (limit : ℕ) (bidders : List (Str × BidderRuntime)) (g : Refresh) : Type 0 where
  pub counted : length g.workers + length g.results ≡ g.started
  pub within : g.started ≤ limit
  pub staged : FitsAt limit bidders g g.stage

abbrev pub FitsStill : ℕ → BidderEngine → Option Refresh → Type 0
FitsStill limit e none = Unit
FitsStill limit e (some g) = Fits limit e.bidders g

AreKnown-store :
    (id : Str) (b : BidderRuntime) (m : List (Str × BidderRuntime)) (ids : List Str)
    → AreKnown m ids
    → AreKnown (store id b m) ids
AreKnown-store id b m ids h =
    All-mono (λ j. has_key j m ≡ true) (λ j. has_key j (store id b m) ≡ true)
      (λ j k. rw (has_key-store id j b m) (ground arith)) ids h

-- The keys of the bidders are known.
keys-AreKnown_of :
    (m rest : List (Str × BidderRuntime))
    → ((j : Str) → has_key j rest ≡ true → has_key j m ≡ true)
    → AreKnown m (keys rest)
unfolding keys has_key
keys-AreKnown_of m [] f = tt
keys-AreKnown_of m ((j, b) ∷ rest) f =
    (f j (ground (arith, str_eq_refl j)), keys-AreKnown_of m rest (λ i h. f i (ground arith)))

-- Bidders that come to the engine's do not disturb a refresh.
pub Fits-mono :
    (limit : ℕ) (m m' : List (Str × BidderRuntime)) (g : Refresh)
    → ((j : Str) → has_key j m ≡ true → has_key j m' ≡ true)
    → Fits limit m g
    → Fits limit m' g
Fits-mono limit m m' g f v = record {
  counted = v.counted;
  within = v.within;
  staged = go g.stage v.staged;
}
  where
    go : (s : Stage) → FitsAt limit m g s → FitsAt limit m' g s
    go spawned h = tt
    go waiting h = tt
    go stored h = h
    go forgotten h = h
    go (visiting ids) h = All-mono _ _ f ids h
    go (holding id rest) h = (h.0, All-mono _ _ f rest h.1)

module _ (e : BidderEngine) (g : Refresh) (n : ℕ) (fanout : e.config.max_fanout ≡ pos (suc n))
    (v : Fits (suc n) e.bidders g) where
  acquire-Fits :
      (id : Str) (rest : List Str) (o : Option BidderRuntime)
      → g.started < suc n
      → AreKnown e.bidders rest
      → After (FitsStill (suc n)) (acquire e g id rest o)
  unfolding acquire
  acquire-Fits id rest none lt k = tt
  acquire-Fits id rest (some b) lt k =
      ground (arith, AreKnown-store id (record b { sem = suc b.sem }) e.bidders rest k)

  visit-Fits : (ids : List Str) → AreKnown e.bidders ids → After (FitsStill (suc n)) (visit e g ids)
  unfolding visit
  visit-Fits [] k = ground arith
  visit-Fits (id ∷ rest) k = elim (Bool-cases (eqb_ℤ (pos g.started) e.config.max_fanout)) [
    | inl t ↦ rw t (ground arith)
    | inr t ↦ rw t (acquire-Fits id rest (load id e.bidders) (ground arith) k.1)
  ]

  admit-Fits :
      (id : Str) (rest : List Str) (now : ℤ) (o : Option BidderRuntime)
      → suc g.started ≤ suc n
      → AreKnown e.bidders rest
      → After (FitsStill (suc n)) (admit e g id rest now o)
  unfolding admit
  admit-Fits id rest now none lt k = tt
  admit-Fits id rest now (some b) lt k =
      let b1 : BidderRuntime = record b { breaker = (allow b.breaker now).0 } in
      let b2 : BidderRuntime = record b { breaker = (allow b.breaker now).0; sem = b.sem - 1 } in
      ground (arith, AreKnown-store id b1 e.bidders rest k, AreKnown-store id b2 e.bidders rest k)

  -- What a refresh has at its stage while one of its calls runs or leaves.
  busy-FitsAt :
      (m : List (Str × BidderRuntime)) (g' : Refresh)
      → ((j : Str) → has_key j e.bidders ≡ true → has_key j m ≡ true)
      → g'.started ≡ g.started
      → 0 < length g.workers + length g.leaving
      → (s : Stage) → FitsAt (suc n) e.bidders g s
      → FitsAt (suc n) m g' s
  busy-FitsAt m g' f q busy spawned h = tt
  busy-FitsAt m g' f q busy waiting h = tt
  busy-FitsAt m g' f q busy stored h = absurd (omega arith)
  busy-FitsAt m g' f q busy forgotten h = absurd (omega arith)
  busy-FitsAt m g' f q busy (visiting ids) h = All-mono _ _ f ids h
  busy-FitsAt m g' f q busy (holding id rest) h = (rw q h.0, All-mono _ _ f rest h.1)

  still_known :
      (id : Str) (b : BidderRuntime) (j : Str)
      → has_key j e.bidders ≡ true
      → has_key j (store id b e.bidders) ≡ true
  still_known id b j h = rw (has_key-store id j b e.bidders) (ground arith)

  answer-Fits :
      (id : Str) (outcome : Outcome) (now : ℤ) (o : Option BidderRuntime)
      → After (FitsStill (suc n)) (answer e g id outcome now o)
  unfolding answer
  answer-Fits id outcome now none = tt
  answer-Fits id outcome now (some b) =
      elim (Bool-cases
        (contains g.workers id && ltb (length g.results) (pos_part e.config.max_fanout))) [
          | inl t ↦
              let c : contains g.workers id ≡ true = ground arith in
              let b' : BidderRuntime = record b { breaker = breaker_after b.breaker outcome now } in
              let r = result_of id g.request outcome in
              let l = length-remove_one id g.workers c in
              rw t (record {
                counted = omega (arith, length-append g.results (r ∷ []), l, v.counted);
                within = v.within;
                staged =
                    busy-FitsAt (store id b' e.bidders) (sent g id r) (still_known id b') refl
                      (omega (arith, l)) g.stage v.staged;
              })
          | inr t ↦ rw t tt
        ]

  leave-Fits : (id : Str) (o : Option BidderRuntime) → After (FitsStill (suc n)) (leave e g id o)
  unfolding leave
  leave-Fits id none = tt
  leave-Fits id (some b) = elim (Bool-cases (contains g.leaving id && not (b.sem == 0))) [
    | inl t ↦
        let c : contains g.leaving id ≡ true = ground arith in
        let b' : BidderRuntime = record b { sem = b.sem - 1 } in
        let l = length-remove_one id g.leaving c in
        rw t (record {
          counted = v.counted;
          within = v.within;
          staged =
              busy-FitsAt (store id b' e.bidders) (left g id) (still_known id b') refl
                (omega (arith, l)) g.stage v.staged;
        })
    | inr t ↦ rw t tt
  ]

  go_on-Fits :
      (s : Stage) (made_at now : ℤ) (order : List Str)
      → FitsAt (suc n) e.bidders g s
      → After (FitsStill (suc n)) (go_on e g s made_at now order)
  unfolding go_on store_results
  go_on-Fits spawned made_at now order h = record {
    counted = v.counted;
    within = v.within;
    staged = keys-AreKnown_of e.bidders e.bidders (λ j k. k);
  }
  go_on-Fits (visiting ids) made_at now order h = visit-Fits ids h
  go_on-Fits (holding id rest) made_at now order h =
      admit-Fits id rest now (load id e.bidders) h.0 h.1
  go_on-Fits waiting made_at now order h = ground arith
  go_on-Fits stored made_at now order h = ground arith
  go_on-Fits forgotten made_at now order h = ground arith

  pub advance-Fits : (a : Action) → After (FitsStill (suc n)) (advance e g a)
  unfolding advance
  advance-Fits (goes made_at now order) = go_on-Fits g.stage made_at now order v.staged
  advance-Fits (answered id outcome now) = answer-Fits id outcome now (load id e.bidders)
  advance-Fits (leaves id) = leave-Fits id (load id e.bidders)

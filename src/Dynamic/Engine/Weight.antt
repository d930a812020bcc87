-- ===== src/Dynamic/Engine/Weight.antt =====
-- internal/ads/dynamic_bidding.go, `BidderEngine`: how many steps the goroutines have left at most.
use adserver.Dynamic.Breaker.{allow}
use adserver.Common.Int.{ℤ, eqb_ℤ, pos}
use adserver.Common.Text.{Str}
use adserver.Dynamic.Engine.Steps.{
  keys, acquire, advance, visit, admit, go_on, answer, leave, store_results, Action, goes,
  breaker_after, answered, leaves,
}
use adserver.Common.Assoc.{load, store}
use adserver.Common.{
  refl, inl, inr, some, none, suc, [], ◌∷◌, ◌≡◌, ◌+◌, ◌-◌, ◌<◌, ℕ, Option, List, ◌*◌, length, arith,
  ap, Bool-cases,
}
use adserver.Dynamic.Engine.{
  spawned, waiting, stored, forgotten, visiting, holding, BidderEngine, Refresh, Stage, Outcome,
  BidderRuntime,
}
use adserver.Dynamic.Engine.Tokens.{After, length-remove_one}

-- The steps of the loop and of what follows it, where `n` is the number of bidders.
abbrev pub stage_weight : ℕ → Stage → ℕ
stage_weight n spawned = 4 * n + 5
stage_weight n (visiting ids) = 4 * length ids + 4
stage_weight n (holding id rest) = 4 * length rest + 7
stage_weight n waiting = 3
stage_weight n stored = 2
stage_weight n forgotten = 1

abbrev pub weight : ℕ → Refresh → ℕ
weight n g = stage_weight n g.stage + 2 * length g.workers + length g.leaving

abbrev pub weight_by : ℕ → Option Refresh → ℕ
weight_by n none = 0
weight_by n (some g) = weight n g

-- A step leaves less to do, and the number of bidders.
abbrev pub Lightens : BidderEngine → Refresh → BidderEngine → Option Refresh → Type 0
Lightens e g e' o =
    (length e'.bidders ≡ length e.bidders)
    × (weight_by (length e.bidders) o < weight (length e.bidders) g)
    × (e'.running ≡ e.running)

length-keys : (m : List (Str × BidderRuntime)) → length (keys m) ≡ length m
unfolding keys
length-keys [] = refl
length-keys ((k, b) ∷ m) = ap suc (length-keys m)

length-store_known :
    (id : Str) (b b' : BidderRuntime) (m : List (Str × BidderRuntime))
    → load id m ≡ some b
    → length (store id b' m) ≡ length m
unfolding load store
length-store_known id b b' [] h = cc
length-store_known id b b' ((j, w) ∷ m) h = ground (arith, length-store_known id b b' m)

module _ (e : BidderEngine) (g : Refresh) where
  acquire-Lightens :
      (id : Str) (rest : List Str) (o : Option BidderRuntime)
      → load id e.bidders ≡ o
      → g.stage ≡ visiting (id ∷ rest)
      → After (Lightens e g) (acquire e g id rest o)
  unfolding acquire
  acquire-Lightens id rest none h s = tt
  acquire-Lightens id rest (some b) h s =
      ground (arith, length-store_known id b (record b { sem = suc b.sem }) e.bidders h)

  admit-Lightens :
      (id : Str) (rest : List Str) (now : ℤ) (o : Option BidderRuntime)
      → load id e.bidders ≡ o
      → g.stage ≡ holding id rest
      → After (Lightens e g) (admit e g id rest now o)
  unfolding admit
  admit-Lightens id rest now none h s = tt
  admit-Lightens id rest now (some b) h s =
      let b1 : BidderRuntime = record b { breaker = (allow b.breaker now).0 } in
      let b2 : BidderRuntime = record b { breaker = (allow b.breaker now).0; sem = b.sem - 1 } in
      ground (arith, length-store_known id b b1 e.bidders h, length-store_known id b b2 e.bidders h)

  answer-Lightens :
      (id : Str) (outcome : Outcome) (now : ℤ) (o : Option BidderRuntime)
      → load id e.bidders ≡ o
      → After (Lightens e g) (answer e g id outcome now o)
  unfolding answer
  answer-Lightens id outcome now none h = tt
  answer-Lightens id outcome now (some b) h =
      let b' : BidderRuntime = record b { breaker = breaker_after b.breaker outcome now } in
      ground (arith, length-store_known id b b' e.bidders h, length-remove_one id g.workers)

  leave-Lightens :
      (id : Str) (o : Option BidderRuntime)
      → load id e.bidders ≡ o
      → After (Lightens e g) (leave e g id o)
  unfolding leave
  leave-Lightens id none h = tt
  leave-Lightens id (some b) h =
      let b' : BidderRuntime = record b { sem = b.sem - 1 } in
      ground (arith, length-store_known id b b' e.bidders h, length-remove_one id g.leaving)

  visit-Lightens : (ids : List Str) → g.stage ≡ visiting ids → After (Lightens e g) (visit e g ids)
  unfolding visit
  visit-Lightens [] s = ground arith
  visit-Lightens (id ∷ rest) s = elim (Bool-cases (eqb_ℤ (pos g.started) e.config.max_fanout)) [
    | inl t ↦ rw t (ground arith)
    | inr t ↦ rw t (acquire-Lightens id rest (load id e.bidders) refl s)
  ]

  go_on-Lightens :
      (s : Stage) (made_at now : ℤ) (order : List Str)
      → g.stage ≡ s
      → After (Lightens e g) (go_on e g s made_at now order)
  unfolding go_on store_results
  go_on-Lightens spawned made_at now order s = ground (arith, length-keys e.bidders)
  go_on-Lightens (visiting ids) made_at now order s = visit-Lightens ids s
  go_on-Lightens (holding id rest) made_at now order s =
      admit-Lightens id rest now (load id e.bidders) refl s
  go_on-Lightens waiting made_at now order s = ground arith
  go_on-Lightens stored made_at now order s = ground arith
  go_on-Lightens forgotten made_at now order s = ground arith

  pub advance-Lightens : (a : Action) → After (Lightens e g) (advance e g a)
  unfolding advance
  advance-Lightens (goes made_at now order) = go_on-Lightens g.stage made_at now order refl
  advance-Lightens (answered id outcome now) =
      answer-Lightens id outcome now (load id e.bidders) refl
  advance-Lightens (leaves id) = leave-Lightens id (load id e.bidders) refl

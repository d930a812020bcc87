-- ===== src/Dynamic/Engine/Keeps.antt =====
-- internal/ads/dynamic_bidding.go, `BidderEngine`:
-- what a step leaves as it is: the settings, the goroutines beside it, the bidders and the limits of
-- their semaphores; and how it moves the slots and the keys in flight.
use adserver.Dynamic.Breaker.{allow}
use adserver.Dynamic.Engine.Tokens.{After}
use adserver.Dynamic.Engine.Steps.{
  acquire, visit, advance, answer, go_on, admit, leave, store_results, Action, breaker_after, goes,
  answered, leaves,
}
use adserver.Common.Int.{pos_part, eqb_ℤ, ℤ, pos}
use adserver.Common.Assoc.{
  has_key, load, DistinctKeys, store, has_key-store, load-store, delete-DistinctKeys,
  has_key-delete,
}
use adserver.Common.Text.{Str, str_eq, str_eq→eq}
use adserver.Common.{
  true, false, inl, inr, some, none, [], ◌∷◌, ◌≡◌, ◌+◌, ◌&&◌, ◌≤◌, if◌then◌else◌, suc, Option, Bool,
  List, ℕ, arith, Bool-cases, refl, ◌-◌,
}
use adserver.Dynamic.Engine.{
  spawned, waiting, stored, forgotten, visiting, holding, Stage, Refresh, BidderRuntime,
  BidderEngine, Outcome,
}

abbrev pub HasRoom : Option BidderRuntime → Type 0
HasRoom none = Unit
HasRoom (some b) = b.sem ≤ pos_part b.config.max_concurrent

-- A slot is given back at the end of the goroutine and at no other step.
abbrev pub ended : Option Refresh → ℕ
ended none = 1
ended (some g) = 0

abbrev pub is_live : Stage → Bool
is_live forgotten = false
is_live spawned = true
is_live waiting = true
is_live stored = true
is_live (visiting ids) = true
is_live (holding id rest) = true

-- Is the refresh one of the key, before it is forgotten?
abbrev pub live : Str → Refresh → ℕ
live k g = if is_live g.stage && str_eq g.key k then 1 else 0

abbrev pub live_by : Str → Option Refresh → ℕ
live_by k none = 0
live_by k (some g) = live k g

abbrev pub in_flight : Str → List (Str × Unit {0}) → ℕ
in_flight k m = if has_key k m then 1 else 0

abbrev pub Keeps : Str → BidderEngine → Refresh → BidderEngine → Option Refresh → Type 0
Keeps k e g e' o =
    (e'.config ≡ e.config)
    × (e'.running ≡ e.running)
    × (has_key k e.bidders ≡ true → has_key k e'.bidders ≡ true)
    × (HasRoom (load k e.bidders) → HasRoom (load k e'.bidders))
    × (e'.refresh_slots + ended o ≡ e.refresh_slots)
    × (in_flight k e'.inflight + live k g ≡ in_flight k e.inflight + live_by k o)
    × DistinctKeys e'.inflight

room_of :
    (k id : Str) (b : BidderRuntime) (m : List (Str × BidderRuntime))
    → load id m ≡ some b
    → str_eq id k ≡ true
    → HasRoom (load k m)
    → b.sem ≤ pos_part b.config.max_concurrent
room_of k id b m h t r = ground (arith, str_eq→eq id k)

module _ (k : Str) (e : BidderEngine) (g : Refresh) (distinct : DistinctKeys e.inflight) where
  -- The parts of a store of a bidder.
  known :
      (id : Str) (b : BidderRuntime)
      → has_key k e.bidders ≡ true
      → has_key k (store id b e.bidders) ≡ true
  known id b h = rw (has_key-store id k b e.bidders) (ground arith)

  roomy :
      (id : Str) (b b' : BidderRuntime)
      → load id e.bidders ≡ some b
      → (b.sem ≤ pos_part b.config.max_concurrent → b'.sem ≤ pos_part b'.config.max_concurrent)
      → HasRoom (load k e.bidders)
      → HasRoom (load k (store id b' e.bidders))
  roomy id b b' h f r = elim (Bool-cases (str_eq id k)) [
    | inl t ↦ rw (load-store id k b' e.bidders, t) (f (room_of k id b e.bidders h t r))
    | inr t ↦ rw (load-store id k b' e.bidders, t) r
  ]

  acquire-Keeps :
      (id : Str) (rest : List Str) (o : Option BidderRuntime)
      → load id e.bidders ≡ o
      → g.stage ≡ visiting (id ∷ rest)
      → After (Keeps k e g) (acquire e g id rest o)
  unfolding acquire
  acquire-Keeps id rest none h s = tt
  acquire-Keeps id rest (some b) h s =
      let b' : BidderRuntime = record b { sem = suc b.sem } in
      ground (arith, known id b', roomy id b b' h)

  admit-Keeps :
      (id : Str) (rest : List Str) (now : ℤ) (o : Option BidderRuntime)
      → load id e.bidders ≡ o
      → g.stage ≡ holding id rest
      → After (Keeps k e g) (admit e g id rest now o)
  unfolding admit
  admit-Keeps id rest now none h s = tt
  admit-Keeps id rest now (some b) h s =
      let b1 : BidderRuntime = record b { breaker = (allow b.breaker now).0 } in
      let b2 : BidderRuntime = record b { breaker = (allow b.breaker now).0; sem = b.sem - 1 } in
      ground (arith, known id b1, roomy id b b1 h, known id b2, roomy id b b2 h)

  answer-Keeps :
      (id : Str) (outcome : Outcome) (now : ℤ) (o : Option BidderRuntime)
      → load id e.bidders ≡ o
      → After (Keeps k e g) (answer e g id outcome now o)
  unfolding answer
  answer-Keeps id outcome now none h = tt
  answer-Keeps id outcome now (some b) h =
      let b' : BidderRuntime = record b { breaker = breaker_after b.breaker outcome now } in
      ground (arith, known id b', roomy id b b' h)

  leave-Keeps :
      (id : Str) (o : Option BidderRuntime)
      → load id e.bidders ≡ o
      → After (Keeps k e g) (leave e g id o)
  unfolding leave
  leave-Keeps id none h = tt
  leave-Keeps id (some b) h =
      let b' : BidderRuntime = record b { sem = b.sem - 1 } in
      ground (arith, known id b', roomy id b b' h)

  visit-Keeps : (ids : List Str) → g.stage ≡ visiting ids → After (Keeps k e g) (visit e g ids)
  unfolding visit
  visit-Keeps [] s = ground arith
  visit-Keeps (id ∷ rest) s = elim (Bool-cases (eqb_ℤ (pos g.started) e.config.max_fanout)) [
    | inl t ↦ rw t (ground arith)
    | inr t ↦ rw t (acquire-Keeps id rest (load id e.bidders) refl s)
  ]

  go_on-Keeps :
      (s : Stage) (made_at now : ℤ) (order : List Str)
      → g.stage ≡ s
      → (s ≡ stored → has_key g.key e.inflight ≡ true)
      → After (Keeps k e g) (go_on e g s made_at now order)
  unfolding go_on store_results
  go_on-Keeps spawned made_at now order s flies = ground arith
  go_on-Keeps (visiting ids) made_at now order s flies = visit-Keeps ids s
  go_on-Keeps (holding id rest) made_at now order s flies =
      admit-Keeps id rest now (load id e.bidders) refl s
  go_on-Keeps waiting made_at now order s flies = ground arith
  go_on-Keeps stored made_at now order s flies = ground (
    arith,
    flies refl,
    delete-DistinctKeys g.key e.inflight distinct,
    has_key-delete g.key k e.inflight distinct,
    str_eq→eq g.key k,
  )
  go_on-Keeps forgotten made_at now order s flies = ground arith

  pub advance-Keeps :
      (a : Action)
      → (g.stage ≡ stored → has_key g.key e.inflight ≡ true)
      → After (Keeps k e g) (advance e g a)
  unfolding advance
  advance-Keeps (goes made_at now order) flies = go_on-Keeps g.stage made_at now order refl flies
  advance-Keeps (answered id outcome now) flies =
      answer-Keeps id outcome now (load id e.bidders) refl
  advance-Keeps (leaves id) flies = leave-Keeps id (load id e.bidders) refl

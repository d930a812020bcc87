-- ===== src/Dynamic/Engine/Tokens.antt =====
-- internal/ads/dynamic_bidding.go, `BidderEngine`:
-- the tokens of the bidders' semaphores, and who holds them.
use adserver.Dynamic.Breaker.{allow}
use adserver.Common.Int.{ℤ, eqb_ℤ, pos}
use adserver.Common.Assoc.{store, load, load-store}
use adserver.Dynamic.Engine.Steps.{
  Moved, acquire, advance, go_on, visit, answer, admit, leave, store_results, Action, goes,
  breaker_after, answered, leaves,
}
use adserver.Cache.{remove_one}
use adserver.Common.Text.{Str, contains, str_eq, str_eq→eq, str_eq_refl}
use adserver.Common.{
  true, some, none, suc, [], ◌∷◌, ◌≡◌, ◌+◌, if◌then◌else◌, Option, List, length, ℕ, arith, refl,
  inl, inr, ◌-◌, Bool-cases,
}
use adserver.Dynamic.Engine.{
  spawned, waiting, stored, forgotten, visiting, holding, BidderEngine, Stage, BidderRuntime,
  Refresh, Outcome,
}

unfoldable pub count : Str → List Str → ℕ
count k [] = 0
count k (x ∷ xs) = if str_eq x k then suc (count k xs) else count k xs

pub count-remove_one :
    (k x : Str) (xs : List Str)
    → contains xs x ≡ true
    → count k xs
      ≡ (if str_eq x k then suc (count k (remove_one x xs)) else count k (remove_one x xs))
unfolding count contains remove_one
count-remove_one k x [] h = cc
count-remove_one k x (y ∷ ys) h =
    ground
      (arith, count-remove_one k x ys, str_eq→eq y x, str_eq→eq x k, str_eq→eq y k, str_eq_refl k)

pub length-remove_one :
    (x : Str) (xs : List Str) → contains xs x ≡ true → length xs ≡ suc (length (remove_one x xs))
unfolding contains remove_one
length-remove_one x [] h = cc
length-remove_one x (y ∷ ys) h = ground (arith, length-remove_one x ys)

-- The tokens that the goroutines of a refresh hold of one bidder.
abbrev pub held_at : Str → Stage → ℕ
held_at k (holding id rest) = count k (id ∷ [])
held_at k (visiting ids) = 0
held_at k spawned = 0
held_at k waiting = 0
held_at k stored = 0
held_at k forgotten = 0

abbrev pub held : Str → Refresh → ℕ
held k g = held_at k g.stage + count k g.workers + count k g.leaving

abbrev pub held_by : Str → Option Refresh → ℕ
held_by k none = 0
held_by k (some g) = held k g

abbrev pub sem_of : Option BidderRuntime → ℕ
sem_of none = 0
sem_of (some b) = b.sem

-- The tokens of a bidder that are taken.
abbrev pub taken : Str → List (Str × BidderRuntime) → ℕ
taken k bidders = sem_of (load k bidders)

-- What holds of a step if it is made.
abbrev pub After {κ} : (BidderEngine → Option Refresh → Type κ) → Moved → Type κ
After P none = Unit
After P (some (e, o)) = P e o

taken-store :
    (k id : Str) (b : BidderRuntime) (m : List (Str × BidderRuntime))
    → taken k (store id b m) ≡ (if str_eq id k then b.sem else taken k m)
taken-store k id b m = rw (load-store id k b m) (ground arith)

-- A step moves tokens: what it takes from or gives to a semaphore is what its goroutines hold more or
-- less of.
abbrev pub Balances : Str → BidderEngine → Refresh → BidderEngine → Option Refresh → Type 0
Balances k e g e' o = taken k e'.bidders + held k g ≡ taken k e.bidders + held_by k o

module _ (k : Str) (e : BidderEngine) (g : Refresh) where
  acquire-Balances :
      (id : Str) (rest : List Str) (o : Option BidderRuntime)
      → load id e.bidders ≡ o
      → g.stage ≡ visiting (id ∷ rest)
      → After (Balances k e g) (acquire e g id rest o)
  unfolding acquire count
  acquire-Balances id rest none h s = tt
  acquire-Balances id rest (some b) h s =
      ground (arith, taken-store k id (record b { sem = suc b.sem }) e.bidders, str_eq→eq id k)

  admit-Balances :
      (id : Str) (rest : List Str) (now : ℤ) (o : Option BidderRuntime)
      → load id e.bidders ≡ o
      → g.stage ≡ holding id rest
      → After (Balances k e g) (admit e g id rest now o)
  unfolding admit count
  admit-Balances id rest now none h s = tt
  admit-Balances id rest now (some b) h s =
      let allowed = taken-store k id (record b { breaker = (allow b.breaker now).0 }) e.bidders in
      let refused =
        taken-store k id (record b { breaker = (allow b.breaker now).0; sem = b.sem - 1 })
          e.bidders in
      ground (arith, allowed, refused, str_eq→eq id k)

  answer-Balances :
      (id : Str) (outcome : Outcome) (now : ℤ) (o : Option BidderRuntime)
      → load id e.bidders ≡ o
      → After (Balances k e g) (answer e g id outcome now o)
  unfolding answer count
  answer-Balances id outcome now none h = tt
  answer-Balances id outcome now (some b) h = ground (
    arith,
    taken-store k id (record b { breaker = breaker_after b.breaker outcome now }) e.bidders,
    count-remove_one k id g.workers,
    str_eq→eq id k,
  )

  leave-Balances :
      (id : Str) (o : Option BidderRuntime)
      → load id e.bidders ≡ o
      → After (Balances k e g) (leave e g id o)
  unfolding leave count
  leave-Balances id none h = tt
  leave-Balances id (some b) h = ground (
    arith,
    taken-store k id (record b { sem = b.sem - 1 }) e.bidders,
    count-remove_one k id g.leaving,
    str_eq→eq id k,
  )

  visit-Balances :
      (ids : List Str) → g.stage ≡ visiting ids → After (Balances k e g) (visit e g ids)
  unfolding visit
  visit-Balances [] s = ground arith
  visit-Balances (id ∷ rest) s = elim (Bool-cases (eqb_ℤ (pos g.started) e.config.max_fanout)) [
    | inl t ↦ rw t (ground arith)
    | inr t ↦ rw t (acquire-Balances id rest (load id e.bidders) refl s)
  ]

  go_on-Balances :
      (s : Stage) (made_at now : ℤ) (order : List Str)
      → g.stage ≡ s
      → (s ≡ forgotten → held k g ≡ 0)
      → After (Balances k e g) (go_on e g s made_at now order)
  unfolding go_on store_results
  go_on-Balances spawned made_at now order s idle = ground arith
  go_on-Balances (visiting ids) made_at now order s idle = visit-Balances ids s
  go_on-Balances (holding id rest) made_at now order s idle =
      admit-Balances id rest now (load id e.bidders) refl s
  go_on-Balances waiting made_at now order s idle = ground arith
  go_on-Balances stored made_at now order s idle = ground arith
  go_on-Balances forgotten made_at now order s idle = ground (arith, idle refl)

  pub advance-Balances :
      (a : Action) → (g.stage ≡ forgotten → held k g ≡ 0) → After (Balances k e g) (advance e g a)
  unfolding advance
  advance-Balances (goes made_at now order) idle =
      go_on-Balances g.stage made_at now order refl idle
  advance-Balances (answered id outcome now) idle =
      answer-Balances id outcome now (load id e.bidders) refl
  advance-Balances (leaves id) idle = leave-Balances id (load id e.bidders) refl

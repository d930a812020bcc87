-- ===== src/Dynamic/Engine/Progress.antt =====
-- internal/ads/dynamic_bidding.go, `BidderEngine`:
-- refreshes end: each step leaves less to do, and a goroutine that runs always finds a step.
use adserver.Dynamic.Engine.Keeps.{live}
use adserver.Dynamic.Engine.Invariant.{Move-IsValid}
use adserver.Common.Assoc.{load, has_key-load-none, has_key}
use adserver.Common.Int.{ℤ, pos}
use mathlib.Core.Path.{subst}
use adserver.Dynamic.Engine.Fit.{Fits, FitsAt, AreKnown}
use adserver.Dynamic.Engine.Weight.{weight, Lightens, advance-Lightens}
use adserver.Common.Text.{contains, Str, str_eq_refl}
use adserver.Dynamic.Engine.Steps.{
  Moved, visit, leave, go_on, answer, admit, acquire, advance, Action, answered, leaves, goes,
}
use adserver.Common.{
  refl, true, false, inl, inr, some, none, suc, [], ◌∷◌, ◌≡◌, ◌+◌, ◌≤◌, ◌<◌, List, Bool, ℕ, arith,
  ap, length, All, Option, Option-cases, ◌⊎◌, zero,
}
use adserver.Dynamic.Engine.{
  spawned, waiting, stored, forgotten, visiting, holding, deadline_exceeded, BidderEngine, Refresh,
  Stage, BidderRuntime,
}
use adserver.Dynamic.Engine.Tokens.{After, taken, held, count, sem_of}
use adserver.Dynamic.Engine.Runs.{IsValid, Move, move, resume, sum_of, sum_of-append}

-- The steps that the goroutines have left at most, all together.
abbrev pub total_weight : BidderEngine → ℕ
total_weight e = sum_of (weight (length e.bidders)) e.running

-- A number of steps of the goroutines, one after another.
pub data Moves (s : BidderEngine) : ℕ → BidderEngine → Type 0 where
  none_made : Moves s 0 s
  more : {n : ℕ} {e e' : BidderEngine} → Moves s n e → Move e e' → Moves s (suc n) e'

Move-weight : {e e' : BidderEngine} → Move e e' → total_weight e' < total_weight e
unfolding resume sum_of
Move-weight {e} (move before after g a e' none r made) =
    let k = subst (After (Lightens e g)) made (advance-Lightens e g a) in
    rw (k.0, r)
      (omega (
        arith,
        k.1,
        sum_of-append (weight (length e.bidders)) before after,
        sum_of-append (weight (length e.bidders)) before (g ∷ after),
      ))
Move-weight {e} (move before after g a e' (some g') r made) =
    let k = subst (After (Lightens e g)) made (advance-Lightens e g a) in
    rw (k.0, r)
      (omega (
        arith,
        k.1,
        sum_of-append (weight (length e.bidders)) before (g' ∷ after),
        sum_of-append (weight (length e.bidders)) before (g ∷ after),
      ))

-- However they interleave, the goroutines make at most so many steps as the weight of those that run:
-- without new triggers, every run of them ends.
pub total_weight-Moves :
    (s : BidderEngine) (n : ℕ) (e : BidderEngine)
    → Moves s n e
    → n + total_weight e ≤ total_weight s
total_weight-Moves s n e none_made = omega arith
total_weight-Moves s n e (more {n = k} {e = d} m x) =
    omega (arith, total_weight-Moves s k d m, Move-weight x)

abbrev is_made : Moved → Bool
is_made none = false
is_made (some p) = true

contains_head : (x : Str) (xs : List Str) → contains (x ∷ xs) x ≡ true
unfolding contains
contains_head x xs = rw (str_eq_refl x) refl

count_head : (x : Str) (xs : List Str) → count x (x ∷ xs) ≡ suc (count x xs)
unfolding count
count_head x xs = rw (str_eq_refl x) refl

list_cases {ℓ} : {A : Type ℓ} (xs : List A) → (xs ≡ []) ⊎ ((x : A) × (ys : List A) × (xs ≡ x ∷ ys))
list_cases [] = inl refl
list_cases (x ∷ xs) = inr (x, xs, refl)

-- The first of a list counts.
count_first : (x : Str) (xs ys : List Str) → xs ≡ x ∷ ys → 0 < count x xs
count_first x xs ys q = rw (q, count_head x ys) (omega arith)

module _ (e : BidderEngine) (v : IsValid e) (g : Refresh) (gs : List Refresh)
    (r : e.running ≡ g ∷ gs) where
  head-Fits : Fits (suc v.fanout) e.bidders g
  head-Fits = (subst (All (Fits (suc v.fanout) e.bidders)) r v.fits).0

  -- A token that the goroutine holds is taken.
  taken_here : (id : Str) → held id g ≤ taken id e.bidders
  unfolding sum_of
  taken_here id = omega (arith, v.tokens id, ap (sum_of (held id)) r)

  answer-is_made :
      (w : Str) (ws : List Str) (o : Option BidderRuntime)
      → g.workers ≡ w ∷ ws
      → 0 < sem_of o
      → is_made (answer e g w deadline_exceeded (pos 0) o) ≡ true
  unfolding answer
  answer-is_made w ws none q t = absurd (omega arith)
  answer-is_made w ws (some b) q t =
      let l = ap length q in
      let c : contains g.workers w ≡ true = rw q (contains_head w ws) in
      let f = head-Fits in ground (arith, v.fanout_is, f.counted, f.within)

  leave-is_made :
      (w : Str) (ws : List Str) (o : Option BidderRuntime)
      → g.leaving ≡ w ∷ ws
      → 0 < sem_of o
      → is_made (leave e g w o) ≡ true
  unfolding leave
  leave-is_made w ws none q t = absurd (omega arith)
  leave-is_made w ws (some b) q t =
      let c : contains g.leaving w ≡ true = rw q (contains_head w ws) in ground arith

  visit-is_made : (ids : List Str) → AreKnown e.bidders ids → is_made (visit e g ids) ≡ true
  unfolding visit acquire
  visit-is_made [] k = refl
  visit-is_made (id ∷ rest) k = elim (Option-cases (load id e.bidders)) [
    | inl h ↦ absurd (ground (arith, has_key-load-none id e.bidders h))
    | inr (b, h) ↦ ground arith
  ]

  admit-is_made :
      (id : Str) (rest : List Str) (now : ℤ) (o : Option BidderRuntime)
      → 0 < sem_of o
      → is_made (admit e g id rest now o) ≡ true
  unfolding admit
  admit-is_made id rest now none t = absurd (omega arith)
  admit-is_made id rest now (some b) t = ground arith

  go_on-is_made :
      (s : Stage)
      → g.stage ≡ s
      → g.workers ≡ []
      → g.leaving ≡ []
      → FitsAt (suc v.fanout) e.bidders g s
      → is_made (go_on e g s (pos 0) (pos 0) []) ≡ true
  unfolding go_on
  go_on-is_made spawned q w l f = refl
  go_on-is_made (visiting ids) q w l f = visit-is_made ids f
  go_on-is_made (holding id rest) q w l f =
      admit-is_made id rest (pos 0) (load id e.bidders)
        (let t = taken_here id in let c = count_head id [] in ground arith)
  go_on-is_made waiting q w l f = rw (w, l) refl
  go_on-is_made stored q w l f = refl
  go_on-is_made forgotten q w l f = let n = ap length r in ground (arith, v.slots)

  -- A goroutine that runs has a step that it can make.
  can_move : (a : Action) × (is_made (advance e g a) ≡ true)
  unfolding advance count
  can_move = elim (list_cases g.workers) [
    | inr (w, ws, q) ↦ (
      answered w deadline_exceeded (pos 0),
      answer-is_made w ws (load w e.bidders) q
          (omega (arith, taken_here w, count_first w g.workers ws q)),
    )
    | inl q ↦ elim (list_cases g.leaving) [
      | inr (w, ws, l) ↦ (
        leaves w,
        leave-is_made w ws (load w e.bidders) l
            (omega (arith, taken_here w, count_first w g.leaving ws l)),
      )
      | inl l ↦ (goes (pos 0) (pos 0) [], go_on-is_made g.stage refl q l head-Fits.staged)
    ]
  ]

made_cases :
    (m : Moved) → is_made m ≡ true → (e : BidderEngine) × (o : Option Refresh) × (m ≡ some (e, o))
made_cases none h = cc
made_cases (some (e, o)) h = (e, o, refl)

before-Moves :
    {e e' : BidderEngine} (n : ℕ) (d : BidderEngine) → Move e e' → Moves e' n d → Moves e (suc n) d
before-Moves n d m none_made = more none_made m
before-Moves n d m (more {n = k} {e = c} ms x) = more (before-Moves k c m ms) x

-- Nothing is left of the refreshes: no goroutine, slot, key in flight or token.
pub record IsDrained (e : BidderEngine) : Type 0 where
  pub nothing_runs : e.running ≡ []
  pub no_slot : e.refresh_slots ≡ 0
  pub no_key : (key : Str) → has_key key e.inflight ≡ false
  pub no_token : (id : Str) → taken id e.bidders ≡ 0

idle-IsDrained : (e : BidderEngine) → IsValid e → e.running ≡ [] → IsDrained e
unfolding sum_of
idle-IsDrained e v r = record {
  nothing_runs = r;
  no_slot = omega (arith, v.slots, ap length r);
  no_key = λ key. let s = v.single key in let k = ap (sum_of (live key)) r in ground arith;
  no_token = λ id. omega (arith, v.tokens id, ap (sum_of (held id)) r);
}

abbrev Drains : BidderEngine → Type 0
Drains s = (n : ℕ) × (e : BidderEngine) × Moves s n e × IsDrained e

total_weight-Drains : (fuel : ℕ) (s : BidderEngine) → IsValid s → total_weight s < fuel → Drains s
total_weight-Drains zero s v h = absurd (omega arith)
total_weight-Drains (suc fuel) s v h = elim (list_cases s.running) [
  | inl r ↦ (0, s, none_made, idle-IsDrained s v r)
  | inr (g, gs, r) ↦
      let (a, k) = can_move s v g gs r in
      let (e', o, q) = made_cases (advance s g a) k in
      let m : Move s (resume e' [] o gs) = move [] gs g a e' o r q in
      let (n, d, ms, z) =
        total_weight-Drains fuel (resume e' [] o gs) (Move-IsValid m v)
          (omega (arith, Move-weight m)) in
      (suc n, d, before-Moves n d m ms, z)
]

-- In every valid state the goroutines can run to an end, whatever the circuits and the caches hold:
-- no send, token or slot waits for ever, and at that end no refresh runs, no slot or token is taken and
-- no key is in flight.
pub IsValid-drains :
    (s : BidderEngine) → IsValid s → (n : ℕ) × (e : BidderEngine) × Moves s n e × IsDrained e
IsValid-drains s v = total_weight-Drains (suc (total_weight s)) s v (omega arith)

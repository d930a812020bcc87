-- ===== src/Dynamic/Breaker/Circuit.antt =====
-- The circuit: consecutive failures open it, an open one refuses calls, and after its time one probe
-- goes through.
use adserver.Common.{lt→ltb, Bool-cases, ap}
use adserver.Common.Word.{add64-pos}
use adserver.Common.Int.{ℤ, ◌+ℤ◌, pos, ltb_ℤ, leb_ℤ, negsuc}
use adserver.Dynamic.Breaker.{CircuitBreaker, failure, new_circuit_breaker, allow, success}
use adserver.Common.{
  ℕ, false, suc, [], ◌∷◌, ◌≡◌, ◌+◌, ◌^◌, ◌<◌, if◌then◌else◌, List, length, leb, refl, true, zero,
  ◌∙◌, ◌⊎◌, ◌≤◌, arith, inl, inr, Bool,
}

-- A breaker as its constructor leaves it: a positive threshold and open time, and a count of failures.
pub record IsValid (c : CircuitBreaker) : Type 0 where
  pub limit : ℕ
  pub duration : ℕ
  pub failed : ℕ
  pub threshold_limit : c.threshold ≡ pos (suc limit)
  pub open_duration : c.open_for ≡ pos (suc duration)
  pub failure_count : c.failures ≡ pos failed

-- What replaces a number below 1 by a positive one is positive.
positive : (z : ℤ) (d : ℕ) → (n : ℕ) × ((if ltb_ℤ z (pos 1) then pos (suc d) else z) ≡ pos (suc n))
positive (pos zero) d = (d, ground arith)
positive (pos (suc n)) d = (n, ground arith)
positive (negsuc n) d = (d, ground arith)

positive_leb :
    (z : ℤ) (d : ℕ) → (n : ℕ) × ((if leb_ℤ z (pos 0) then pos (suc d) else z) ≡ pos (suc n))
positive_leb (pos zero) d = (d, ground arith)
positive_leb (pos (suc n)) d = (n, ground arith)
positive_leb (negsuc n) d = (d, ground arith)

pub new_circuit_breaker-IsValid :
    (threshold open_for : ℤ) → IsValid (new_circuit_breaker threshold open_for)
unfolding new_circuit_breaker
new_circuit_breaker-IsValid threshold open_for = record {
  limit = (positive threshold 2).0;
  duration = (positive_leb open_for 4999999999).0;
  failed = 0;
  threshold_limit = (positive threshold 2).1;
  open_duration = (positive_leb open_for 4999999999).1;
  failure_count = refl;
}

failure_lem :
    (c : CircuitBreaker) (limit duration failed t : ℕ)
    → c.threshold ≡ pos (suc limit)
    → c.open_for ≡ pos (suc duration)
    → c.failures ≡ pos failed
    → failed + 1 < 2 ^ 63
    → let d = failure c (pos t) in
      (d.threshold ≡ c.threshold)
      × (d.open_for ≡ c.open_for)
      × (d.failures ≡ pos (failed + 1))
      × (d.probe_in_flight ≡ false)
      × (d.open_until
          ≡ (if leb (suc limit) (failed + 1) then pos (t + suc duration) else c.open_until))
unfolding failure ◌+ℤ◌
failure_lem c limit duration failed t a b e h =
    rw (a, b, e, add64-pos failed 1 h) (refl, refl, refl, refl, ground arith)

-- Failures at these instants, one after another.
unfoldable pub fail_all : CircuitBreaker → List ℕ → CircuitBreaker
fail_all c [] = c
fail_all c (t ∷ ts) = fail_all (failure c (pos t)) ts

-- The last of some instants.
unfoldable pub last_of : ℕ → List ℕ → ℕ
last_of t [] = t
last_of t (u ∷ us) = last_of u us

-- Each failure counts, and from the threshold on each one opens the circuit anew.
fail_all-state :
    (c : CircuitBreaker) (limit duration failed t : ℕ) (ts : List ℕ)
    → c.threshold ≡ pos (suc limit)
    → c.open_for ≡ pos (suc duration)
    → c.failures ≡ pos failed
    → failed + suc (length ts) < 2 ^ 63
    → let d = fail_all c (t ∷ ts) in
      (d.failures ≡ pos (failed + suc (length ts)))
      × (d.probe_in_flight ≡ false)
      × (d.open_until ≡ (
          if leb (suc limit) (failed + suc (length ts))
          then pos (last_of t ts + suc duration)
          else c.open_until))
unfolding fail_all last_of
fail_all-state c limit duration failed t [] a b e h =
    ground (arith, failure_lem c limit duration failed t a b e (omega arith))
fail_all-state c limit duration failed t (u ∷ us) a b e h =
    let first = failure_lem c limit duration failed t a b e (omega arith) in
    ground (
      arith,
      first,
      fail_all-state (failure c (pos t)) limit duration (failed + 1) u us (first.0 ∙ a)
          (first.1 ∙ b) first.2 (omega arith),
    )

allow-closed : (d : CircuitBreaker) (at : ℤ) → d.open_until ≡ pos 0 → allow d at ≡ (d, true)
unfolding allow
allow-closed d at e = rw e refl

module _ (d : CircuitBreaker) (k : ℕ) (e : d.open_until ≡ pos (suc k))
    (idle : d.probe_in_flight ≡ false) where
  allow-early : (at : ℕ) → at < suc k → allow d (pos at) ≡ (d, false)
  unfolding allow
  allow-early at h = rw (e, lt→ltb (at + 0) (suc k + 0) (omega arith)) (ground arith)

  allow-late : (at : ℕ) → suc k ≤ at → (allow d (pos at)).1 ≡ true
  unfolding allow
  allow-late at h = ground arith

  allow-probing : (at later : ℕ) → suc k ≤ at → (allow (allow d (pos at)).0 (pos later)).1 ≡ false
  unfolding allow
  allow-probing at later h = ground arith

-- From a valid breaker after a success, after fewer than 2^63 consecutive failures with the last at
-- `now`: below the threshold every call is allowed; from the threshold on every call is refused
-- until the open time after `now` has passed, the first call after it is allowed, and while that
-- probe runs no other is.
pub allow-fail_all :
    (c : CircuitBreaker) (v : IsValid c) (t : ℕ) (ts : List ℕ)
    → suc (length ts) < 2 ^ 63
    → let d = fail_all (success c) (t ∷ ts) in
      let reopens = last_of t ts + suc v.duration in
      ((suc (length ts) < suc v.limit) × ((at : ℕ) → allow d (pos at) ≡ (d, true)))
      ⊎ ((suc v.limit ≤ suc (length ts))
          × ((at : ℕ) → at < reopens → allow d (pos at) ≡ (d, false))
          × ((at : ℕ) → reopens ≤ at → (allow d (pos at)).1 ≡ true)
          × ((at later : ℕ) → reopens ≤ at → (allow (allow d (pos at)).0 (pos later)).1 ≡ false))
unfolding success
allow-fail_all c v t ts h = elim (Bool-cases (leb (suc v.limit) (suc (length ts)))) [
  | inr below ↦ inl (
    ground arith,
    λ at.
        allow-closed d (pos at)
          (state.2 ∙ ap opened (ap (leb (suc v.limit)) (omega arith) ∙ below)),
  )
  | inl reached ↦
      let until : d.open_until ≡ pos (suc (last_of t ts + v.duration)) =
        state.2
        ∙ ap opened (ap (leb (suc v.limit)) (omega arith) ∙ reached)
        ∙ ap pos (omega arith) in
      inr (
        ground arith,
        λ at early. allow-early d (last_of t ts + v.duration) until state.1 at (omega arith),
        λ at late. allow-late d (last_of t ts + v.duration) until state.1 at (omega arith),
        λ at later late.
            allow-probing d (last_of t ts + v.duration) until state.1 at later (omega arith),
      )
]
  where
    d : CircuitBreaker
    d = fail_all (success c) (t ∷ ts)

    opened : Bool → ℤ
    opened b = if b then pos (last_of t ts + suc v.duration) else pos 0

    state :
        (d.failures ≡ pos (0 + suc (length ts)))
        × (d.probe_in_flight ≡ false)
        × (d.open_until ≡ opened (leb (suc v.limit) (0 + suc (length ts))))
    state =
        fail_all-state (success c) v.limit v.duration 0 t ts v.threshold_limit v.open_duration refl
          (omega arith)

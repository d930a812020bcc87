-- ===== src/Examples/Circuits.antt =====
-- A circuit that two failures open.
use adserver.Dynamic.Breaker.Circuit.{fail_all, IsValid, allow-fail_all, last_of}
use adserver.Common.Int.{pos}
use adserver.Dynamic.Breaker.{CircuitBreaker, new_circuit_breaker, allow, success}
use adserver.Common.{refl, true, false, [], ◌∷◌, ◌≡◌, ◌⊎◌, ◌≤◌, ◌<◌, ℕ, arith}

abbrev circuit : CircuitBreaker
circuit = new_circuit_breaker (pos 2) (pos 5000)

circuit-IsValid : IsValid circuit
unfolding new_circuit_breaker
circuit-IsValid = record {
  limit = 1;
  duration = 4999;
  failed = 0;
  threshold_limit = refl;
  open_duration = refl;
  failure_count = refl;
}

abbrev opened : CircuitBreaker
opened = fail_all (success circuit) (100 ∷ 250 ∷ [])

allow-fail_all_example :
    ((2 < 2) × ((at : ℕ) → allow opened (pos at) ≡ (opened, true)))
    ⊎ ((2 ≤ 2)
        × ((at : ℕ) → at < 5250 → allow opened (pos at) ≡ (opened, false))
        × ((at : ℕ) → 5250 ≤ at → (allow opened (pos at)).1 ≡ true)
        × ((at later : ℕ) → 5250 ≤ at → (allow (allow opened (pos at)).0 (pos later)).1 ≡ false))
unfolding last_of circuit-IsValid
allow-fail_all_example = allow-fail_all circuit circuit-IsValid 100 (250 ∷ []) (omega arith)

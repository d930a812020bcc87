-- ===== src/Dynamic/Breaker.antt =====
-- internal/ads/dynamic_bidding.go, `circuitBreaker`. An instant is its distance in nanoseconds from the
-- zero time, which `IsZero` tests for.
pub mod Circuit
use adserver.Common.Word.{add64}
use adserver.Common.Int.{ℤ, pos, ltb_ℤ, leb_ℤ, eqb_ℤ, ◌+ℤ◌}
use adserver.Common.{ℕ, true, false, if◌then◌else◌, Bool}

pub record CircuitBreaker : Type 0 where
  pub failures : ℤ
  pub open_until : ℤ
  pub probe_in_flight : Bool
  pub threshold : ℤ
  pub open_for : ℤ

unfoldable pub new_circuit_breaker : ℤ → ℤ → CircuitBreaker
new_circuit_breaker threshold open_for = record {
  failures = pos 0;
  open_until = pos 0;
  probe_in_flight = false;
  threshold = if ltb_ℤ threshold (pos 1) then pos 3 else threshold;
  open_for = if leb_ℤ open_for (pos 0) then pos 5000000000 else open_for;
}

unfoldable pub allow : CircuitBreaker → ℤ → CircuitBreaker × Bool
allow c now =
    if eqb_ℤ c.open_until (pos 0)
    then (c, true)
    else if ltb_ℤ now c.open_until
    then (c, false)
    else if c.probe_in_flight
    then (c, false)
    else (record c { probe_in_flight = true }, true)

unfoldable pub success : CircuitBreaker → CircuitBreaker
success c = record c { failures = pos 0; open_until = pos 0; probe_in_flight = false }

unfoldable pub failure : CircuitBreaker → ℤ → CircuitBreaker
failure c now =
    let failures = add64 c.failures (pos 1) in
    record c {
      probe_in_flight = false;
      failures = failures;
      open_until = if leb_ℤ c.threshold failures then now +ℤ c.open_for else c.open_until;
    }

-- ===== src/ModelControl/Breaker/Invariant.antt =====
-- What holds of a breaker between two calls.
use jacu_harness.Base.{◌≤◌, ◌<◌, ◌≡◌, ◌≢◌, Bool, true, false, List, [], ◌∷◌, arith}
use jacu_harness.Base.Int.{ℤ}
use jacu_harness.ModelControl.Breaker.{
  CircuitBreaker, closed, new_circuit_breaker, allow, record_outcome, BreakerCall, asks, records,
  step, run,
}

pub record IsValid (b : CircuitBreaker) : Type 0 where
  pub threshold_pos : 1 ≤ b.failure_threshold
  pub closed_below : b.state ≡ closed → b.failures < b.failure_threshold
  pub tripped_full : b.state ≢ closed → b.failures ≡ b.failure_threshold

pub new_circuit_breaker-IsValid : (t c : ℤ) → IsValid (new_circuit_breaker t c)
unfolding new_circuit_breaker
new_circuit_breaker-IsValid t c = ground arith

pub allow-IsValid : (b : CircuitBreaker) (now : ℤ) → IsValid b → IsValid (allow b now).0
unfolding allow
allow-IsValid b now v = ground arith

pub record_outcome-IsValid :
    (b : CircuitBreaker) (now : ℤ) (success : Bool)
    → IsValid b
    → IsValid (record_outcome b now success)
unfolding record_outcome
record_outcome-IsValid b now true v = ground arith
record_outcome-IsValid b now false v = ground arith

step-IsValid : (b : CircuitBreaker) (c : BreakerCall) → IsValid b → IsValid (step b c)
unfolding step
step-IsValid b (asks now) v = allow-IsValid b now v
step-IsValid b (records now success) v = record_outcome-IsValid b now success v

run-IsValid : (b : CircuitBreaker) (cs : List BreakerCall) → IsValid b → IsValid (run b cs)
unfolding run
run-IsValid b [] v = v
run-IsValid b (c ∷ cs) v = run-IsValid (step b c) cs (step-IsValid b c v)

-- Whatever threshold and cooldown a breaker was made with and whatever calls it took: its threshold
-- is positive, a closed breaker has counted fewer failures than the threshold, and an open or
-- half-open one exactly as many.
pub breaker_run-IsValid :
    (threshold cooldown : ℤ) (cs : List BreakerCall)
    → IsValid (run (new_circuit_breaker threshold cooldown) cs)
breaker_run-IsValid threshold cooldown cs =
    run-IsValid (new_circuit_breaker threshold cooldown) cs
      (new_circuit_breaker-IsValid threshold cooldown)

-- ===== src/ModelControl/Breaker.antt =====
-- internal/modelcontrol/resilience.go: the circuit breaker. Times are nanoseconds on one axis;
-- `failures` never passes a threshold that is an `int`, so it is a number that does not wrap. The
-- mutex makes each method one step.
pub mod Invariant
pub mod Trips
use jacu_harness.Base.{ℕ, ◌+◌, ◌-◌, ◌^◌, Bool, true, false, leb, ltb, if◌then◌else◌, List, [], ◌∷◌}
use jacu_harness.Base.Int.{ℤ, pos, negsuc, pos_part, ltb_ℤ, ◌-ℤ◌}

pub data BreakerState : Type 0 where
  closed open_ half_open : BreakerState

pub record CircuitBreaker : Type 0 where
  pub failure_threshold : ℕ
  pub cooldown : ℕ
  pub failures : ℕ
  pub state : BreakerState
  pub opened_at : ℤ

unfoldable pub new_circuit_breaker : ℤ → ℤ → CircuitBreaker
new_circuit_breaker failure_threshold cooldown = record {
  failure_threshold = if ltb_ℤ failure_threshold (pos 1) then 1 else pos_part failure_threshold;
  cooldown = if ltb_ℤ cooldown (pos 0) then 0 else pos_part cooldown;
  failures = 0;
  state = closed;
  opened_at = pos 0;
}

abbrev pub max_duration : ℤ
max_duration = pos (2 ^ 63 - 1)

abbrev pub min_duration : ℤ
min_duration = negsuc (2 ^ 63 - 1)

-- `Time.Sub` stops at the ends of `Duration`.
unfoldable pub time_sub : ℤ → ℤ → ℤ
time_sub now earlier =
    let d = now -ℤ earlier in
    if ltb_ℤ max_duration d then max_duration else if ltb_ℤ d min_duration then min_duration else d

-- the `switch` of `Allow`
allow_in : BreakerState → CircuitBreaker → ℤ → CircuitBreaker × Bool
allow_in open_ b now =
    if ltb_ℤ (time_sub now b.opened_at) (pos b.cooldown)
    then (b, false)
    else (record b { state = half_open }, true)
allow_in half_open b now = (b, false)
allow_in closed b now = (b, true)

unfoldable pub allow : CircuitBreaker → ℤ → CircuitBreaker × Bool
unfolding allow_in
allow b now = allow_in b.state b now

abbrev is_half_open : BreakerState → Bool
is_half_open half_open = true
is_half_open _ = false

-- `Record`
unfoldable pub record_outcome : CircuitBreaker → ℤ → Bool → CircuitBreaker
record_outcome b now true = record b { failures = 0; state = closed }
record_outcome b now false =
    if (if is_half_open b.state then true else leb b.failure_threshold (b.failures + 1))
    then record b { state = open_; opened_at = now; failures = b.failure_threshold }
    else record b { failures = b.failures + 1 }

-- The calls that a breaker takes, and a run of them.
pub data BreakerCall : Type 0 where
  asks : ℤ → BreakerCall
  records : ℤ → Bool → BreakerCall

unfoldable pub step : CircuitBreaker → BreakerCall → CircuitBreaker
step b (asks now) = (allow b now).0
step b (records now success) = record_outcome b now success

unfoldable pub run : CircuitBreaker → List BreakerCall → CircuitBreaker
run b [] = b
run b (c ∷ cs) = run (step b c) cs

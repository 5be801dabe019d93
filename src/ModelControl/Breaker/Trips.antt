-- ===== src/ModelControl/Breaker/Trips.antt =====
-- When a breaker opens, and what it lets through once it has.
use jacu_harness.Base.{
  ℕ, suc, ◌+◌, ◌≤◌, ◌<◌, ◌≡◌, refl, Bool, true, false, List, [], ◌∷◌, arith, ltb, ltb→lt,
  ltb-false→le, ap, if◌then◌else◌, ◌∙◌, sym, Bool-cases, inl, inr, leb, leb→le,
}
use jacu_harness.Base.Int.{ℤ, pos, ltb_ℤ}
use jacu_harness.ModelControl.Breaker.{
  CircuitBreaker, closed, open_, half_open, new_circuit_breaker, allow, time_sub, record_outcome,
  BreakerCall, asks, records, step, run,
}

abbrev pub failures_at : List ℤ → List BreakerCall
failures_at [] = []
failures_at (t ∷ ts) = records t false ∷ failures_at ts

abbrev pub count_of : List ℤ → ℕ
count_of [] = 0
count_of (t ∷ ts) = suc (count_of ts)

pub record_failure_below :
    (b : CircuitBreaker) (now : ℤ)
    → b.state ≡ closed
    → b.failures + 1 < b.failure_threshold
    → record_outcome b now false ≡ record b { failures = b.failures + 1 }
unfolding record_outcome
record_failure_below b now c h = ground arith

pub record_failure_opens :
    (b : CircuitBreaker) (now : ℤ)
    → b.state ≡ closed
    → b.failure_threshold ≤ b.failures + 1
    → record_outcome b now false
      ≡ record b { state = open_; opened_at = now; failures = b.failure_threshold }
unfolding record_outcome
record_failure_opens b now c h = ground arith

record_failure_trips :
    (b : CircuitBreaker) (now : ℤ)
    → b.failure_threshold ≤ b.failures + 1
    → ((record_outcome b now false).state ≡ open_)
      × ((record_outcome b now false).failures ≡ b.failure_threshold)
      × ((record_outcome b now false).failure_threshold ≡ b.failure_threshold)
unfolding record_outcome
record_failure_trips b now h = ground arith

run_tripped :
    (b : CircuitBreaker) (ts : List ℤ)
    → b.state ≡ open_
    → b.failures ≡ b.failure_threshold
    → (run b (failures_at ts)).state ≡ open_
unfolding run step
run_tripped b [] s f = s
run_tripped b (t ∷ ts) s f =
    let (o, g, k) = record_failure_trips b t (omega arith) in
    run_tripped (record_outcome b t false) ts o (g ∙ sym k)

run_failures :
    (b : CircuitBreaker) (ts : List ℤ)
    → b.state ≡ closed
    → b.failures < b.failure_threshold
    → (b.failures + count_of ts < b.failure_threshold → (run b (failures_at ts)).state ≡ closed)
      × (b.failure_threshold ≤ b.failures + count_of ts → (run b (failures_at ts)).state ≡ open_)
unfolding run step
run_failures b [] s h = (λ _. s, λ k. absurd (omega arith))
run_failures b (t ∷ ts) s h = elim (Bool-cases (leb b.failure_threshold (b.failures + 1))) [
  | inl e ↦
      let (o, f, k) = record_failure_trips b t (leb→le b.failure_threshold (b.failures + 1) e) in
      (
        λ m. absurd (omega (arith, leb→le b.failure_threshold (b.failures + 1) e)),
        λ _. run_tripped (record_outcome b t false) ts o (f ∙ sym k),
      )
  | inr e ↦
      let below : b.failures + 1 < b.failure_threshold = ground arith in
      let (early, late) = run_failures (record b { failures = b.failures + 1 }) ts s below in
      let next =
        ap (λ (r : CircuitBreaker). (run r (failures_at ts)).state)
          (record_failure_below b t s below) in
      (λ m. next ∙ early (omega arith), λ m. next ∙ late (omega arith))
]

-- A new breaker with a threshold of at least one is closed after fewer failures in a row than the
-- threshold, and open after that many or more, whatever the times.
pub opens_at_threshold :
    (n : ℕ) (cooldown : ℤ) (ts : List ℤ)
    → 1 ≤ n
    → (run (new_circuit_breaker (pos n) cooldown) (failures_at ts)).state
      ≡ (if ltb (count_of ts) n then closed else open_)
unfolding new_circuit_breaker
opens_at_threshold n cooldown ts h =
    let b = new_circuit_breaker (pos n) cooldown in
    let e : b.failure_threshold ≡ n = ground arith in
    let (early, late) = run_failures b ts refl (rw e h) in
    elim (Bool-cases (ltb (count_of ts) n)) [
      | inl t ↦ rw t (early (omega (arith, ltb→lt (count_of ts) n t)))
      | inr t ↦ rw t (late (omega (arith, ltb-false→le (count_of ts) n t)))
    ]

abbrev pub asks_at : List ℤ → List BreakerCall
asks_at [] = []
asks_at (t ∷ ts) = asks t ∷ asks_at ts

allow_half_open : (b : CircuitBreaker) (now : ℤ) → b.state ≡ half_open → allow b now ≡ (b, false)
unfolding allow
allow_half_open b now s = ground arith

half_open_stays : (b : CircuitBreaker) (ts : List ℤ) → b.state ≡ half_open → run b (asks_at ts) ≡ b
unfolding run step
half_open_stays b [] s = refl
half_open_stays b (t ∷ ts) s =
    ap (λ (r : CircuitBreaker × Bool). run r.0 (asks_at ts)) (allow_half_open b t s)
    ∙ half_open_stays b ts s

-- An open breaker refuses, unchanged, until its cooldown has passed. Then it lets one call through
-- and no other, however often it is asked, until an outcome is recorded: a success closes it with no
-- failures counted, and a failure opens it anew from that time.
pub one_probe :
    (b : CircuitBreaker) (now later : ℤ) (ts : List ℤ)
    → b.state ≡ open_
    → let probing = record b { state = half_open } in
      (allow b now ≡ (
        if ltb_ℤ (time_sub now b.opened_at) (pos b.cooldown) then (b, false) else (probing, true)))
      × (allow (run probing (asks_at ts)) later ≡ (probing, false))
      × (record_outcome (run probing (asks_at ts)) later true
          ≡ record b { failures = 0; state = closed })
      × (record_outcome (run probing (asks_at ts)) later false
          ≡ record b { failures = b.failure_threshold; state = open_; opened_at = later })
one_probe b now later ts s =
    let probing = record b { state = half_open } in
    let e = half_open_stays probing ts refl in
    (
      unfold allow in ground arith,
      rw e (allow_half_open probing later refl),
      rw e (unfold record_outcome in refl),
      rw e (unfold record_outcome in refl),
    )

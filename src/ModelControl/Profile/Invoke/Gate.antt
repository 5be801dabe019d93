-- ===== src/ModelControl/Profile/Invoke/Gate.antt =====
-- The gates before a call, and what a call leaves in the breaker.
use jacu_harness.Base.{
  ℕ, ◌+◌, ◌<◌, Result, List, [], ◌∷◌, ◌≢◌, refl, ap, ◌∙◌, Bool, ok, ◌≡◌, inl, inr, String, true,
  false, Option, none, some, err, arith, eq_iff, ◌==◌, String-comparable, Bool-cases, Option-cases,
}
use jacu_harness.Base.Int.{ℤ, pos, ltb_ℤ}
use jacu_harness.ModelControl.Breaker.{
  CircuitBreaker, closed, open_, new_circuit_breaker, time_sub, allow, record_outcome,
}
use jacu_harness.ModelControl.Breaker.Trips.{count_of, record_failure_below, record_failure_opens}
use jacu_harness.ModelControl.Profile.{HostProfile, SignatureVerifier}
use jacu_harness.ModelControl.Profile.Attestation.{validate_signed_cli}
use jacu_harness.ModelControl.Profile.Invoke.{
  Invoked, Invoker, InvokeError, cli, digest_mismatch, breaker_open, guarded_invoke, succeeded,
  wrap,
}

-- The verifier accepts the binary, its digest is the attested one, and the breaker lets the call
-- through.
pub record IsAdmitted (profile : HostProfile) (digest : String)
    (verifier : Option SignatureVerifier) (b : CircuitBreaker) (now : ℤ) : Type 0 where
  pub attested : validate_signed_cli profile.cli verifier ≡ none
  pub same_digest : digest ≡ profile.cli.sha256
  pub allowed : (allow b now).1 ≡ true

allow_closed : (b : CircuitBreaker) (now : ℤ) → b.state ≡ closed → allow b now ≡ (b, true)
unfolding allow
allow_closed b now h = ground arith

allow_open :
    (b : CircuitBreaker) (now : ℤ)
    → b.state ≡ open_
    → ltb_ℤ (time_sub now b.opened_at) (pos b.cooldown) ≡ true
    → (allow b now).1 ≡ false
unfolding allow
allow_open b now s h = ground arith

allow_refused : (b : CircuitBreaker) (now : ℤ) → (allow b now).1 ≡ false → allow b now ≡ (b, false)
unfolding allow
allow_refused b now h = ground arith

module _ {E W : Type 0} (profile : HostProfile) (digest : String)
    (verifier : Option SignatureVerifier) (b : CircuitBreaker) (now : ℤ) (invoke : Invoker E W)
    (w : W) where
  admitted_runs :
      IsAdmitted profile digest verifier b now
      → guarded_invoke profile digest verifier (some b) now (some invoke) w ≡ record {
        result = wrap (invoke profile w).0;
        breaker = some (record_outcome (allow b now).0 now (succeeded (invoke profile w).0));
        world = (invoke profile w).1;
      }
  unfolding guarded_invoke
  admitted_runs a = ground (arith, eq_iff digest profile.cli.sha256)

  -- If the signature, the digest or the breaker refuses, there is an error, the invoker has not been
  -- called, and the breaker is as it was.
  pub refused_untouched :
      ¬ IsAdmitted profile digest verifier b now
      → (e : InvokeError E) × (guarded_invoke profile digest verifier (some b) now (some invoke) w
          ≡ record { result = err e; breaker = some b; world = w })
  unfolding guarded_invoke
  refused_untouched r = elim (Option-cases (validate_signed_cli profile.cli verifier)) [
    | inr (e, unattested) ↦ (cli e, ground arith)
    | inl attested ↦ elim (Bool-cases (digest == profile.cli.sha256)) [
      | inr other ↦ (digest_mismatch, ground arith)
      | inl same ↦ elim (Bool-cases (allow b now).1) [
        | inl lets ↦ absurd (
            r (record {
              attested = attested;
              same_digest = (eq_iff digest profile.cli.sha256).0 same;
              allowed = lets;
            }))
        | inr denies ↦ (
          breaker_open,
          ground (arith, allow_refused b now denies, eq_iff digest profile.cli.sha256),
        )
      ]
    ]
  ]

  no_success : (r : Result E Bool) → r ≢ ok true → succeeded r ≡ false
  no_success (ok true) n = absurd (n refl)
  no_success (ok false) n = refl
  no_success (err e) n = refl

  -- A closed breaker lets a call through; one that brings no success counts as a failure.
  closed_fails :
      validate_signed_cli profile.cli verifier ≡ none
      → digest ≡ profile.cli.sha256
      → b.state ≡ closed
      → (invoke profile w).0 ≢ ok true
      → guarded_invoke profile digest verifier (some b) now (some invoke) w ≡ record {
        result = wrap (invoke profile w).0;
        breaker = some (record_outcome b now false);
        world = (invoke profile w).1;
      }
  closed_fails v d c n =
      let lets = allow_closed b now c in
      admitted_runs (record { attested = v; same_digest = d; allowed = ap (λ r. r.1) lets })
      ∙ rw (lets, no_success (invoke profile w).0 n) refl

  -- A call that answers a result was admitted.
  pub invoked-IsAdmitted :
      (success : Bool)
      → (guarded_invoke profile digest verifier (some b) now (some invoke) w).result ≡ ok success
      → IsAdmitted profile digest verifier b now
  unfolding guarded_invoke
  invoked-IsAdmitted success h = elim (Option-cases (validate_signed_cli profile.cli verifier)) [
    | inr (e, unattested) ↦ absurd (ground arith)
    | inl attested ↦ elim (Bool-cases (digest == profile.cli.sha256)) [
      | inr other ↦ absurd (ground arith)
      | inl same ↦ elim (Bool-cases (allow b now).1) [
        | inr denies ↦ absurd (ground (arith, allow_refused b now denies))
        | inl lets ↦ record {
          attested = attested;
          same_digest = (eq_iff digest profile.cli.sha256).0 same;
          allowed = lets;
        }
      ]
    ]
  ]

module _ {E W : Type 0} (profile : HostProfile) (digest : String)
    (verifier : Option SignatureVerifier) (invoke : Invoker E W) where
  -- Calls at these times, one after the other, with one breaker.
  pub call_each : List ℤ → Option CircuitBreaker → W → Option CircuitBreaker × W
  call_each [] b w = (b, w)
  call_each (t ∷ ts) b w =
      let r = guarded_invoke profile digest verifier b t (some invoke) w in
      call_each ts r.breaker r.world

  -- The world after the invoker alone was called as often.
  pub invoke_each : List ℤ → W → W
  invoke_each [] w = w
  invoke_each (t ∷ ts) w = invoke_each ts (invoke profile w).1

  then_refused :
      (before : Option CircuitBreaker × W) (counted opened : CircuitBreaker) (v u : W)
      (answer : Result (InvokeError E) Bool) (last now : ℤ)
      → before ≡ (some counted, v)
      → guarded_invoke profile digest verifier (some counted) last (some invoke) v
        ≡ record { result = answer; breaker = some opened; world = u }
      → guarded_invoke profile digest verifier (some opened) now (some invoke) u
        ≡ record { result = err breaker_open; breaker = some opened; world = u }
      → let trip = guarded_invoke profile digest verifier before.0 last (some invoke) before.1 in
        (trip.breaker ≡ some opened)
        × (trip.world ≡ u)
        × (guarded_invoke profile digest verifier trip.breaker now (some invoke) trip.world
            ≡ record { result = err breaker_open; breaker = trip.breaker; world = trip.world })
  then_refused before counted opened v u answer last now p q r = rw (p, q) (refl, refl, r)

  module _ (attested : validate_signed_cli profile.cli verifier ≡ none)
      (same_digest : digest ≡ profile.cli.sha256)
      (no_success_here : (w : W) → (invoke profile w).0 ≢ ok true) where
    calls_below :
        (b : CircuitBreaker) (ts : List ℤ) (w : W)
        → b.state ≡ closed
        → b.failures + count_of ts < b.failure_threshold
        → call_each ts (some b) w
          ≡ (some (record b { failures = b.failures + count_of ts }), invoke_each ts w)
    unfolding call_each invoke_each
    calls_below b [] w c h = ground arith
    calls_below b (t ∷ ts) w c h =
        let below : b.failures + 1 < b.failure_threshold = omega arith in
        let first =
          closed_fails profile digest verifier b t invoke w attested same_digest c
            (no_success_here w) in
        let counted = record_failure_below b t c below in
        rw (first, counted)
          (calls_below (record b { failures = b.failures + 1 }) ts (invoke profile w).1 c
              (omega arith)
            ∙ ground arith)

    refuses_open :
        (b : CircuitBreaker) (now : ℤ) (w : W)
        → b.state ≡ open_
        → ltb_ℤ (time_sub now b.opened_at) (pos b.cooldown) ≡ true
        → guarded_invoke profile digest verifier (some b) now (some invoke) w
          ≡ record { result = err breaker_open; breaker = some b; world = w }
    unfolding guarded_invoke
    refuses_open b now w s h =
        ground (arith, allow_refused b now (allow_open b now s h), eq_iff digest profile.cli.sha256)

    last_failure :
        (b : CircuitBreaker) (t : ℤ) (w : W)
        → b.state ≡ closed
        → b.failures + 1 ≡ b.failure_threshold
        → guarded_invoke profile digest verifier (some b) t (some invoke) w ≡ record {
          result = wrap (invoke profile w).0;
          breaker =
              some (record b { state = open_; opened_at = t; failures = b.failure_threshold });
          world = (invoke profile w).1;
        }
    last_failure b t w c h =
        closed_fails profile digest verifier b t invoke w attested same_digest c (no_success_here w)
        ∙ rw (record_failure_opens b t c (omega arith)) refl

    -- Of an attested profile whose digest is the attested one, and an invoker that never brings a
    -- success: with a new breaker, fewer calls than its threshold are all made, one after the other,
    -- and leave it closed with as many failures counted. The call that makes the number full is made
    -- too, and it opens the breaker at its time. The next call, until the
    -- cooldown has passed, is refused: the invoker is not called and the breaker is as it was. A
    -- result without an error that does not report success counts as a failure.
    pub failing_calls_trip :
        (n cooldown : ℕ) (ts : List ℤ) (last now : ℤ) (w : W)
        → count_of ts + 1 ≡ n
        → ltb_ℤ (time_sub now last) (pos cooldown) ≡ true
        → let b = new_circuit_breaker (pos n) (pos cooldown) in
          let before = call_each ts (some b) w in
          let trip = guarded_invoke profile digest verifier before.0 last (some invoke) before.1 in
          let opened = record b { failures = n; state = open_; opened_at = last } in
          (before ≡ (some (record b { failures = count_of ts }), invoke_each ts w))
          × (trip.breaker ≡ some opened)
          × (trip.world ≡ (invoke profile (invoke_each ts w)).1)
          × (guarded_invoke profile digest verifier trip.breaker now (some invoke) trip.world
              ≡ record { result = err breaker_open; breaker = trip.breaker; world = trip.world })
    unfolding new_circuit_breaker
    failing_calls_trip n cooldown ts last now w h k =
        let b = new_circuit_breaker (pos n) (pos cooldown) in
        let threshold : b.failure_threshold ≡ n = ground arith in
        let cooling : b.cooldown ≡ cooldown = ground arith in
        let counted = record b { failures = count_of ts } in
        let opened = record b { failures = n; state = open_; opened_at = last } in
        let first : call_each ts (some b) w ≡ (some counted, invoke_each ts w) =
          calls_below b ts w refl (omega (arith, threshold)) ∙ ground arith in
        let trip = last_failure counted last (invoke_each ts w) refl (omega (arith, threshold)) in
        let call : ℕ → Invoked E W = λ f. record {
          result = wrap (invoke profile (invoke_each ts w)).0;
          breaker = some (record b { failures = f; state = open_; opened_at = last });
          world = (invoke profile (invoke_each ts w)).1;
        } in
        let refused =
          refuses_open opened now (invoke profile (invoke_each ts w)).1 refl (rw cooling k) in
        let (broken, moved, stopped) =
          then_refused (call_each ts (some b) w) counted opened (invoke_each ts w)
            (invoke profile (invoke_each ts w)).1 (wrap (invoke profile (invoke_each ts w)).0) last
            now first (trip ∙ ap call threshold) refused in
        (first, broken, moved, stopped)

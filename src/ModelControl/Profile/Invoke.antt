-- ===== src/ModelControl/Profile/Invoke.antt =====
-- `GuardedInvoke` of resilience.go. The invoker is what the caller supplies: it may change a world
-- of any type `W`, so that a call that was not made shows as an unchanged world.
pub mod Gate
use jacu_harness.Base.{
  ℕ, String, Bool, true, false, not, ◌&&◌, Option, none, some, Result, ok, err, if◌then◌else◌, ◌==◌,
  String-comparable,
}
use jacu_harness.Base.Int.{ℤ}
use jacu_harness.ModelControl.Breaker.{CircuitBreaker, allow, record_outcome}
use jacu_harness.ModelControl.Profile.{HostProfile, SignatureVerifier}
use jacu_harness.ModelControl.Profile.Attestation.{CliError, validate_signed_cli}

pub data InvokeError (E : Type 0) : Type 0 where
  cli : CliError → InvokeError E
  digest_mismatch breaker_open nil_invoker : InvokeError E
  invoker : E → InvokeError E

-- `invoke(ctx, profile)`: the flag is `InvocationResult.Success`.
abbrev pub Invoker : Type 0 → Type 0 → Type 0
Invoker E W = HostProfile → W → Result E Bool × W

pub record Invoked (E W : Type 0) : Type 0 where
  pub result : Result (InvokeError E) Bool
  pub breaker : Option CircuitBreaker
  pub world : W

unfoldable pub ask_breaker : Option CircuitBreaker → ℤ → Option CircuitBreaker × Bool
ask_breaker none now = (none, false)
ask_breaker (some b) now = let (b', allowed) = allow b now in (some b', allowed)

-- `err == nil && result.Success`
abbrev pub succeeded : {E : Type 0} → Result E Bool → Bool
succeeded (ok success) = success
succeeded (err e) = false

abbrev pub wrap : {E : Type 0} → Result E Bool → Result (InvokeError E) Bool
wrap (ok success) = ok success
wrap (err e) = err (invoker e)

module _ {E W : Type 0} where
  -- behind the gates, with the breaker as `Allow` left it
  invoke_allowed : HostProfile → CircuitBreaker → ℤ → Option (Invoker E W) → W → Invoked E W
  invoke_allowed profile b now none w = record {
    result = err nil_invoker;
    breaker = some (record_outcome b now false);
    world = w;
  }
  invoke_allowed profile b now (some invoke) w =
      let (r, w') = invoke profile w in
      record { result = wrap r; breaker = some (record_outcome b now (succeeded r)); world = w' }

  invoke_asked :
      HostProfile → Option CircuitBreaker × Bool → ℤ → Option (Invoker E W) → W → Invoked E W
  unfolding invoke_allowed
  invoke_asked profile (some b, true) now invoke w = invoke_allowed profile b now invoke w
  invoke_asked profile (b, allowed) now invoke w = record {
    result = err breaker_open;
    breaker = b;
    world = w;
  }

  unfoldable pub guarded_invoke :
      HostProfile
      → String
      → Option SignatureVerifier
      → Option CircuitBreaker
      → ℤ
      → Option (Invoker E W)
      → W
      → Invoked E W
  unfolding invoke_asked ask_breaker
  guarded_invoke profile actual_digest verifier breaker now invoke w =
      elim (validate_signed_cli profile.cli verifier) [
        | some e ↦ record { result = err (cli e); breaker = breaker; world = w }
        | none ↦
            if not (actual_digest == profile.cli.sha256)
            then record { result = err digest_mismatch; breaker = breaker; world = w }
            else invoke_asked profile (ask_breaker breaker now) now invoke w
      ]

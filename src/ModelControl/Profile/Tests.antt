-- ===== src/ModelControl/Profile/Tests.antt =====
-- Routing, demotion and guarded calls at concrete inputs, and their theorems applied there.
use jacu_harness.Base.{
  ℕ, ◌+◌, ◌≡◌, ◌≢◌, ◌↔◌, inl, inr, refl, String, true, false, List, [], ◌∷◌, none, some, ok, err,
  arith, eq_iff, In,
}
use jacu_harness.Base.Int.{pos, negsuc, ltb_ℤ, ◌-ℤ◌}
use jacu_harness.Base.Sort.{sort}
use jacu_harness.Base.Strings.{trim_space, has_prefix, trim_prefix, str_lt}
use jacu_harness.ModelControl.Breaker.{CircuitBreaker, closed, open_, new_circuit_breaker, time_sub}
use jacu_harness.ModelControl.Profile.{SignedCli, HostProfile, RouteRequest, SignatureVerifier}
use jacu_harness.ModelControl.Profile.Attestation.{
  validate_signed_cli, valid_sha256, validate_signed_cli-IsAttested,
}
use jacu_harness.ModelControl.Profile.Routing.{route, screen, ranks_before, is_unsuited, overflows}
use jacu_harness.ModelControl.Profile.Routing.Best.{
  IsPreferred, IsEligible, route_picks_best, route_sound,
}
use jacu_harness.ModelControl.Profile.Demotion.{ModelMetric, apply_demotion_bias, sanitize}
use jacu_harness.ModelControl.Profile.Demotion.Bias.{IsSound, bias_keeps_IsSound}
use jacu_harness.ModelControl.Profile.Invoke.{Invoker, InvokeError, breaker_open, guarded_invoke}
use jacu_harness.ModelControl.Profile.Invoke.Gate.{
  IsAdmitted, refused_untouched, call_each, invoke_each, failing_calls_trip,
}

abbrev digest : String
digest = "sha256:0123456789abcdef0123456789abcdef0123456789abcdef0123456789abcdef"

abbrev tool : SignedCli
tool = record { path = "/usr/bin/tool"; sha256 = digest; signer = "ops"; signature = "c2ln" }

abbrev trusting : SignatureVerifier
trusting cli = true

abbrev first_profile : HostProfile
first_profile = record {
  id = "b";
  lane = "cheap";
  rank = pos 1;
  capability = pos 3;
  contracts = "code.patch.v1" ∷ [];
  max_context_tokens = 1000;
  available = true;
  cli = tool;
}

abbrev second_profile : HostProfile
second_profile = record first_profile { id = "a"; rank = pos 1 }

abbrev catalogue : List HostProfile
catalogue = first_profile ∷ second_profile ∷ []

abbrev request : RouteRequest
request = record {
  lane = "cheap";
  contract = "code.patch.v1";
  input_tokens = 600;
  output_tokens = 400;
  required_capability = negsuc 0;
}

routes_by_id : (route catalogue request (some trusting)).0 ≡ ok second_profile
unfolding route screen ranks_before sort validate_signed_cli valid_sha256 has_prefix trim_prefix
    trim_space str_lt is_unsuited overflows
routes_by_id = refl

tool_attested : validate_signed_cli tool (some trusting) ≡ none
unfolding validate_signed_cli valid_sha256 has_prefix trim_prefix trim_space
tool_attested = refl

first-IsEligible : IsEligible request trusting first_profile
first-IsEligible = record {
  available = refl;
  same_lane = refl;
  capable = omega arith;
  serves = inl refl;
  fits = omega arith;
  attested = validate_signed_cli-IsAttested tool trusting tool_attested;
}

route_picks_best_example :
    (p : HostProfile) × ((route catalogue request (some trusting)).0 ≡ ok p)
    × In p catalogue
    × IsEligible request trusting p
    × IsPreferred p first_profile
route_picks_best_example =
    route_picks_best catalogue request trusting first_profile (inl refl) first-IsEligible

route_sound_example :
    (verify : SignatureVerifier) × (some trusting ≡ some verify)
    × In second_profile catalogue
    × IsEligible request verify second_profile
route_sound_example = route_sound catalogue request (some trusting) second_profile routes_by_id

abbrev failing : ModelMetric
failing = record { profile_id = "a"; task_kind = "code"; total_runs = 10; accepted_runs = 5 }

first-IsSound : IsSound (failing ∷ []) "code" first_profile
first-IsSound m (inl e) d = ground (arith, eq_iff "a" "b")
first-IsSound m (inr i) d = elim i [ ]

bias_keeps_IsSound_example :
    In second_profile (apply_demotion_bias catalogue (failing ∷ []) "code").0
    ↔ (In second_profile catalogue × IsSound (failing ∷ []) "code" second_profile)
bias_keeps_IsSound_example =
    bias_keeps_IsSound catalogue (failing ∷ []) "code" first_profile second_profile (inl refl)
      first-IsSound

sanitize_test : sanitize "  a\tb|c " ≡ "abc"
unfolding sanitize trim_space
sanitize_test = refl

abbrev calm : CircuitBreaker
calm = record {
  failure_threshold = 2;
  cooldown = 100;
  failures = 1;
  state = closed;
  opened_at = pos 0;
}

-- It counts its calls in the world, and reports no success.
abbrev counter : Invoker String ℕ
counter profile n = (ok false, n + 1)

counter_fails : (n : ℕ) → (counter first_profile n).0 ≢ ok true
counter_fails n e = cc

within_cooldown : ltb_ℤ (time_sub (pos 50) (pos 9)) (pos 100) ≡ true
unfolding time_sub ◌-ℤ◌
within_cooldown = refl

-- Three calls on a threshold of two: the first two are made, and the third is refused.
failing_calls_trip_example :
    let b = new_circuit_breaker (pos 2) (pos 100) in
    let before = call_each first_profile digest (some trusting) counter (pos 5 ∷ []) (some b) 41 in
    let trip =
      guarded_invoke first_profile digest
        (some trusting)
        before.0
        (pos 9)
        (some counter)
        before.1 in
    let opened = record b { failures = 2; state = open_; opened_at = pos 9 } in
    (before ≡ (
      some (record b { failures = 1 }),
      invoke_each first_profile digest (some trusting) counter (pos 5 ∷ []) 41,
    ))
    × (trip.breaker ≡ some opened)
    × (trip.world
        ≡ (counter first_profile
            (invoke_each first_profile digest (some trusting) counter (pos 5 ∷ []) 41)).1)
    × (guarded_invoke first_profile digest
          (some trusting)
          trip.breaker
          (pos 50)
          (some counter)
          trip.world
        ≡ record { result = err breaker_open; breaker = trip.breaker; world = trip.world })
failing_calls_trip_example =
    failing_calls_trip first_profile digest (some trusting) counter tool_attested refl counter_fails
      2 100 (pos 5 ∷ []) (pos 9) (pos 50) 41 (omega arith) within_cooldown

other_digest : ¬ IsAdmitted first_profile "sha256:0" (some trusting) calm (pos 5)
other_digest a = ground (arith, a.same_digest, eq_iff "sha256:0" digest)

refused_untouched_example :
    (e : InvokeError String) × (guarded_invoke first_profile "sha256:0"
        (some trusting)
        (some calm)
        (pos 5)
        (some counter)
        41
      ≡ record { result = err e; breaker = some calm; world = 41 })
refused_untouched_example =
    refused_untouched first_profile "sha256:0" (some trusting) calm (pos 5) counter 41 other_digest

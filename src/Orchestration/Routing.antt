-- ===== src/Orchestration/Routing.antt =====
-- route.go: `RouteNode`, the gate that a node with a lane passes before it runs. Reading a binary and
-- hashing it, and the clock, are the host's; `emitCost`, an event record, is left out.
pub mod Sound
use jacu_harness.Base.{
  ◌≡◌, refl, ap, ◌⊎◌, inl, inr, String, Bool, true, false, not, List, [], ◌∷◌, Option, none, some,
  Result, ok, err, if◌then◌else◌, ◌==◌, String-comparable, In, select, select-In, arith,
  Result-cases, Bool-cases,
}
use jacu_harness.Base.Int.{ℤ, pos}
use jacu_harness.Base.Strings.{is_empty}
use jacu_harness.ModelControl.Complexity.{classify}
use jacu_harness.ModelControl.Breaker.{CircuitBreaker, closed}
use jacu_harness.ModelControl.Profile.{HostProfile, RouteRequest, SignatureVerifier}
use jacu_harness.ModelControl.Profile.Attestation.{validate_signed_cli}
use jacu_harness.ModelControl.Profile.Routing.{RouteError, route}
use jacu_harness.ModelControl.Profile.Routing.Best.{IsEligible, route_sound}
use jacu_harness.ModelControl.Profile.Demotion.{ModelMetric, apply_demotion_bias}
use jacu_harness.ModelControl.Profile.Demotion.Bias.{bias-In}
use jacu_harness.ModelControl.Profile.Invoke.{InvokeError, Invoker, guarded_invoke}
use jacu_harness.ModelControl.Profile.Invoke.Gate.{invoked-IsAdmitted}
use jacu_harness.Orchestration.Flow.{Node}
use jacu_harness.Orchestration.Validation.{named_cli}

-- `now` is none where the panel has the zero time.
pub record Panel : Type 0 where
  pub profiles : List HostProfile
  pub verifier : Option SignatureVerifier
  pub breaker : Option CircuitBreaker
  pub metrics : List ModelMetric
  pub now : Option ℤ

pub data RoutingError : Type 0 where
  names_cli : RoutingError
  not_routed : RouteError → RoutingError
  unreadable : RoutingError
  not_invoked : InvokeError ⊥ → RoutingError

-- A breaker made in place: threshold 0, closed.
abbrev pub zero_breaker : CircuitBreaker
zero_breaker = record {
  failure_threshold = 0;
  cooldown = 0;
  failures = 0;
  state = closed;
  opened_at = pos 0;
}

unfoldable pub request_of : Node → RouteRequest
request_of node = record {
  lane =
      if is_empty node.lane
      then (classify (record { risk = "low"; input_tokens = 0; criteria = 0; kind = "code" })).lane
      else node.lane;
  contract = "code.patch.v1";
  input_tokens = 0;
  output_tokens = 0;
  required_capability = pos 0;
}

-- `candidates`: the routed profile, then every other one of the panel
unfoldable pub candidates_of : List HostProfile → HostProfile → List HostProfile
candidates_of profiles routed = routed ∷ select (λ p. not (p.id == routed.id)) profiles

first_of : HostProfile → List HostProfile → HostProfile
first_of routed [] = routed
first_of routed (p ∷ ps) = p

unfoldable pub chosen_profile : Panel → HostProfile → HostProfile
unfolding first_of candidates_of
chosen_profile panel routed =
    first_of routed
      (apply_demotion_bias (candidates_of panel.profiles routed) panel.metrics "code").0

-- The call that is guarded does nothing and succeeds.
abbrev pub succeeds : Invoker ⊥ (Unit {0})
succeeds profile w = (ok true, w)

abbrev pub or_else {ℓ} : {A : Type ℓ} → A → Option A → A
or_else a none = a
or_else a (some b) = b

-- The panel's breaker is shared: it is what the call left. Without one, a new breaker is made and lost.
abbrev pub kept_breaker : Option CircuitBreaker → Option CircuitBreaker → Option CircuitBreaker
kept_breaker none left = none
kept_breaker (some b) left = left

abbrev pub profile_of : HostProfile → Result (InvokeError ⊥) Bool → Result RoutingError HostProfile
profile_of chosen (ok success) = ok chosen
profile_of chosen (err e) = err (not_invoked e)

-- behind the digest of the chosen binary
unfoldable pub route_chosen :
    ℤ → Panel → HostProfile → Option String → Result RoutingError HostProfile × Panel
route_chosen clock panel chosen none = (err unreadable, panel)
route_chosen clock panel chosen (some actual) =
    let i =
      guarded_invoke chosen actual panel.verifier (some (or_else zero_breaker panel.breaker))
        (or_else clock panel.now) (some succeeds) tt in
    (profile_of chosen i.result, record panel { breaker = kept_breaker panel.breaker i.breaker })

unfoldable pub route_found :
    ℤ
    → (String → Option String)
    → Panel
    → Result RouteError HostProfile
    → Result RoutingError HostProfile × Panel
unfolding route_chosen
route_found clock digest panel (err e) = (err (not_routed e), panel)
route_found clock digest panel (ok routed) =
    let chosen = chosen_profile panel routed in
    route_chosen clock panel chosen (digest chosen.cli.path)

unfoldable pub route_node :
    ℤ → (String → Option String) → Panel → Node → Result RoutingError HostProfile × Panel
unfolding route_found
route_node clock digest panel node =
    if named_cli node
    then (err names_cli, panel)
    else route_found clock digest panel (route panel.profiles (request_of node) panel.verifier).0

-- ===== src/Orchestration/Routing/Sound.antt =====
-- What `RouteNode` lets through.
use jacu_harness.Base.{
  ◌≡◌, refl, ap, ◌⊎◌, inl, inr, String, false, not, List, [], ◌∷◌, Option, none, some, Result, ok,
  err, ◌==◌, String-comparable, In, select-In, arith, Result-cases, Bool-cases,
}
use jacu_harness.Base.Int.{ℤ}
use jacu_harness.ModelControl.Profile.{HostProfile, SignatureVerifier}
use jacu_harness.ModelControl.Profile.Attestation.{validate_signed_cli}
use jacu_harness.ModelControl.Profile.Routing.{RouteError, route}
use jacu_harness.ModelControl.Profile.Routing.Best.{IsEligible, route_sound}
use jacu_harness.ModelControl.Profile.Demotion.{apply_demotion_bias}
use jacu_harness.ModelControl.Profile.Demotion.Bias.{bias-In}
use jacu_harness.ModelControl.Profile.Invoke.{guarded_invoke}
use jacu_harness.ModelControl.Profile.Invoke.Gate.{invoked-IsAdmitted}
use jacu_harness.Orchestration.Flow.{Node}
use jacu_harness.Orchestration.Validation.{named_cli}
use jacu_harness.Orchestration.Routing.{
  Panel, zero_breaker, request_of, candidates_of, first_of, chosen_profile, succeeds, or_else,
  route_chosen, route_found, route_node,
}

first_of-In :
    (routed : HostProfile) (l : List HostProfile) (p : HostProfile)
    → p ≡ first_of routed l
    → (p ≡ routed) ⊎ In p l
unfolding first_of
first_of-In routed [] p q = inl q
first_of-In routed (x ∷ l) p q = inr (inl q)

chosen-In :
    (panel : Panel) (routed : HostProfile) (p : HostProfile)
    → In routed panel.profiles
    → p ≡ chosen_profile panel routed
    → In p panel.profiles
unfolding chosen_profile candidates_of
chosen-In panel routed p i e =
    elim (first_of-In routed
      (apply_demotion_bias (candidates_of panel.profiles routed) panel.metrics "code").0 p e) [
        | inl q ↦ rw q i
        | inr j ↦ elim (bias-In (candidates_of panel.profiles routed) panel.metrics "code" p j) [
          | inl q ↦ rw q i
          | inr k ↦ (select-In (λ p. not (p.id == routed.id)) p panel.profiles k).0
        ]
      ]

-- The node names no program, and the profile is one of the panel whose binary is attested and has the
-- attested digest; some profile of the panel is eligible for the node's lane.
pub record IsRouted (digest : String → Option String) (profiles : List HostProfile)
    (verifier : Option SignatureVerifier) (node : Node) (p : HostProfile) : Type 0 where
  pub no_program : named_cli node ≡ false
  pub listed : In p profiles
  pub attested : validate_signed_cli p.cli verifier ≡ none
  pub same_digest : digest p.cli.path ≡ some p.cli.sha256
  pub verify : SignatureVerifier
  pub given : verifier ≡ some verify
  pub eligible : HostProfile
  pub eligible_listed : In eligible profiles
  pub fits : IsEligible (request_of node) verify eligible

module _ (clock : ℤ) (digest : String → Option String) (panel : Panel) where
  route_chosen-ok :
      (chosen p : HostProfile) (d : Option String)
      → (route_chosen clock panel chosen d).0 ≡ ok p
      → (p ≡ chosen)
        × (d ≡ some chosen.cli.sha256)
        × (validate_signed_cli chosen.cli panel.verifier ≡ none)
  unfolding route_chosen
  route_chosen-ok chosen p none h = absurd (ground arith)
  route_chosen-ok chosen p (some actual) h =
      let b = or_else zero_breaker panel.breaker in
      let now = or_else clock panel.now in
      elim (Result-cases
        (guarded_invoke chosen actual panel.verifier (some b) now (some succeeds) tt).result) [
          | inr (e, q) ↦ absurd (ground arith)
          | inl (success, q) ↦
              let a = invoked-IsAdmitted chosen actual panel.verifier b now succeeds tt success q in
              (ground arith, ap some a.same_digest, a.attested)
        ]

  route_chosen_keeps :
      (chosen : HostProfile) (d : Option String)
      → ((route_chosen clock panel chosen d).1.profiles ≡ panel.profiles)
        × ((route_chosen clock panel chosen d).1.verifier ≡ panel.verifier)
  unfolding route_chosen
  route_chosen_keeps chosen none = (refl, refl)
  route_chosen_keeps chosen (some actual) = (refl, refl)

  route_found_keeps :
      (r : Result RouteError HostProfile)
      → ((route_found clock digest panel r).1.profiles ≡ panel.profiles)
        × ((route_found clock digest panel r).1.verifier ≡ panel.verifier)
  unfolding route_found
  route_found_keeps (err e) = (refl, refl)
  route_found_keeps (ok routed) =
      let chosen = chosen_profile panel routed in route_chosen_keeps chosen (digest chosen.cli.path)

  -- A node that `RouteNode` lets through names no program; the profile it answers is one of the panel,
  -- with an attested binary whose digest is the attested one; and some profile of the panel, under the
  -- panel's verifier, is eligible for the node's lane.
  pub route_node-IsRouted :
      (node : Node) (p : HostProfile)
      → (route_node clock digest panel node).0 ≡ ok p
      → IsRouted digest panel.profiles panel.verifier node p
  unfolding route_node route_found
  route_node-IsRouted node p h = elim (Bool-cases (named_cli node)) [
    | inl t ↦ absurd (ground arith)
    | inr t ↦ elim (Result-cases (route panel.profiles (request_of node) panel.verifier).0) [
      | inr (e, q) ↦ absurd (ground arith)
      | inl (routed, q) ↦
          let (verify, given, i, fit) =
            route_sound panel.profiles (request_of node) panel.verifier routed q in
          let chosen = chosen_profile panel routed in
          let (same, d, a) = route_chosen-ok chosen p (digest chosen.cli.path) (ground arith) in
          record {
            no_program = t;
            listed = chosen-In panel routed p i same;
            attested = rw same a;
            same_digest = rw same d;
            verify = verify;
            given = given;
            eligible = routed;
            eligible_listed = i;
            fits = fit;
          }
    ]
  ]

  -- Only the breaker of the panel changes.
  pub route_node_keeps :
      (node : Node)
      → ((route_node clock digest panel node).1.profiles ≡ panel.profiles)
        × ((route_node clock digest panel node).1.verifier ≡ panel.verifier)
  unfolding route_node
  route_node_keeps node = elim (Bool-cases (named_cli node)) [
    | inl t ↦ rw t (refl, refl)
    | inr t ↦ rw t (route_found_keeps (route panel.profiles (request_of node) panel.verifier).0)
  ]

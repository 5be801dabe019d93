-- ===== src/Orchestration/Engine/Tests.antt =====
-- Flows that are run with an executor that writes down the nodes it is called with, and the theorems
-- about the engine applied there.
use jacu_harness.Base.{
  arith, ◌≤◌, ◌≡◌, ◌≢◌, refl, sym, ap, ◌∙◌, subst, inl, inr, String, true, false, List, [], ◌∷◌,
  ◌++◌, append-In, if◌then◌else◌, none, some, Option, ok, In, length,
}
use jacu_harness.Base.Int.{pos, pos_part, ltb_ℤ}
use jacu_harness.Base.Assoc.{find, put}
use jacu_harness.Base.Sort.{sort, insert}
use jacu_harness.Base.Strings.{trim_space, str_lt, has_prefix, trim_prefix}
use jacu_harness.ModelControl.Complexity.{classify}
use jacu_harness.ModelControl.Breaker.{allow, record_outcome}
use jacu_harness.ModelControl.Profile.{HostProfile, SignatureVerifier}
use jacu_harness.ModelControl.Profile.Attestation.{validate_signed_cli, valid_sha256}
use jacu_harness.ModelControl.Profile.Routing.{route, screen, ranks_before, is_unsuited, overflows}
use jacu_harness.ModelControl.Profile.Demotion.{
  ModelMetric, apply_demotion_bias, demotions, evaluate_demotion,
}
use jacu_harness.ModelControl.Profile.Invoke.{guarded_invoke}
use jacu_harness.Orchestration.Flow.{Node, Flow, Fields, no_fields, field, text}
use jacu_harness.Orchestration.Condition.{fields, parse_condition}
use jacu_harness.Orchestration.Schedule.{
  has_link, link_edge, rounds, take_ready, release, successors_of, first_ids, schedule_waves,
  schedule_linked, link_edges, cycle_of,
}
use jacu_harness.Orchestration.Schedule.Outcome.{node_ids}
use jacu_harness.Orchestration.Validation.{
  blocked, only_if, valid_lane, named_cli, has_key, node_findings, check_node, check_nodes,
  condition_findings, read_condition, join_ends, check_ends, check_edges, conditions_of, uncovered,
  verdict_findings, coverage_findings, check_coverage, residual_cycle_nodes, cycle_findings,
  gathered, validate, keys_of,
}
use jacu_harness.Orchestration.Edges.{edge_decision, decide_edges, condition_holds, policy_stops}
use jacu_harness.Orchestration.Resolve.{
  Results, resolve_node, resolve_value, resolve_text, from_context, field_of, split_dot, with_value,
  resolve_node-IsFilled,
}
use jacu_harness.Orchestration.Routing.{
  Panel, route_node, request_of, candidates_of, chosen_profile, route_chosen, route_found,
}
use jacu_harness.Orchestration.Routing.Sound.{IsRouted, route_node-IsRouted}
use jacu_harness.Orchestration.Engine.{Host, Executor, node_at, edges_to}
use jacu_harness.Orchestration.Engine.Cleared.{node_at-In}
use jacu_harness.Orchestration.Engine.Walk.{
  execute_bounded_cycle, walk, visit_node, visit_resolved, after_visit, visited, selected_node,
  seeded, select_node, may_visit, max_visits, exhausted,
}
use jacu_harness.Orchestration.Engine.Walk.Visits.{visits_in, execute_bounded_cycle-Within}
use jacu_harness.Orchestration.Engine.Walk.Ends.{total, visit_allowance, execute_bounded_cycle-Ends}
use jacu_harness.Orchestration.Engine.Execute.{execute, execute_with, execute_scheduled}
use jacu_harness.Orchestration.Engine.Execute.Calls.{
  IsAllowed, IsCall, wave_call, walk_call, execute-Holds,
}

abbrev digest : String
digest = "sha256:0123456789abcdef0123456789abcdef0123456789abcdef0123456789abcdef"

abbrev profile : HostProfile
profile = record {
  id = "a";
  lane = "cheap";
  rank = pos 1;
  capability = pos 3;
  contracts = "code.patch.v1" ∷ [];
  max_context_tokens = 1000;
  available = true;
  cli = record { path = "/usr/bin/tool"; sha256 = digest; signer = "ops"; signature = "c2ln" };
}

-- Of another lane, and not available.
abbrev absent_profile : HostProfile
absent_profile = record profile { id = "z"; lane = "premium"; available = false }

abbrev trusting : SignatureVerifier
trusting cli = true

abbrev panel : Panel
panel = record {
  profiles = absent_profile ∷ profile ∷ [];
  verifier = some trusting;
  breaker = none;
  metrics = [];
  now = some (pos 7);
}

abbrev node_of : String → String → String → Node
node_of id uses lane = record {
  id = id;
  uses = uses;
  lane = lane;
  with_fields = field "input" (text "$context.goal") no_fields;
  allowed_paths = [];
  max_visits = pos 2;
}

abbrev digest_of : String → Option String
digest_of path = some digest

routed_cheap : (route_node (pos 0) digest_of panel (node_of "n" "mission" "cheap")).0 ≡ ok profile
unfolding route_node route_found route_chosen chosen_profile candidates_of request_of named_cli
    has_key route screen ranks_before is_unsuited overflows sort validate_signed_cli valid_sha256
    has_prefix trim_prefix trim_space apply_demotion_bias guarded_invoke allow record_outcome
    classify demotions evaluate_demotion
routed_cheap = refl

route_node-IsRouted_example :
    IsRouted digest_of
      (absent_profile ∷ profile ∷ [])
      (some trusting)
      (node_of "n" "mission" "cheap")
      profile
route_node-IsRouted_example =
    route_node-IsRouted (pos 0) digest_of panel (node_of "n" "mission" "cheap") profile routed_cheap

abbrev failing : ModelMetric
failing = record { profile_id = "a"; task_kind = "code"; total_runs = 10; accepted_runs = 5 }

-- Where metrics demote the routed profile, the node goes to one that is not available.
demoted_to_absent :
    (route_node
      (pos 0)
      digest_of
      (record panel { metrics = failing ∷ [] })
      (node_of "n" "mission" "cheap")).0
    ≡ ok absent_profile
unfolding route_node route_found route_chosen chosen_profile candidates_of request_of named_cli
    has_key route screen ranks_before is_unsuited overflows sort validate_signed_cli valid_sha256
    has_prefix trim_prefix trim_space apply_demotion_bias guarded_invoke allow record_outcome
    classify demotions evaluate_demotion
demoted_to_absent = refl

abbrev context : Fields
context = field "goal" (text "ship it") no_fields

filled_node :
    resolve_node [] context (node_of "n" "mission" "")
    ≡ ok (record (node_of "n" "mission" "") {
      with_fields = field "input" (text "ship it") no_fields;
    })
unfolding resolve_node resolve_value resolve_text from_context field_of split_dot with_value
    has_prefix trim_prefix
filled_node = refl

abbrev host : Host String (List String)
host = record {
  clock = λ w. pos 0;
  digest = λ w. digest_of;
  cancelled = λ w. false;
  arrange = λ w ns. ns;
  quote = λ s. s;
  decimal = λ n. "";
}

-- A verify node fails; the world is the list of ids that were called.
abbrev writes : Executor String (List String)
writes node results log = (
  ok (record { status = "ok"; verdict = "fail"; policy = ""; output = none }),
  log ++ node.id ∷ [],
)

-- `apply` stands in front of its check in a closed cycle.
abbrev cycle_flow : Flow
cycle_flow = record {
  nodes =
      node_of "apply" "apply" "" ∷ node_of "check" "verify" "" ∷ node_of "look" "review" "" ∷ [];
  edges =
      record { from = "apply"; to = "check"; condition = "default" }
      ∷ record { from = "check"; to = "apply"; condition = "verdict == pass" }
      ∷ record { from = "check"; to = "look"; condition = "default" }
      ∷ record { from = "look"; to = "apply"; condition = "default" }
      ∷ [];
}

execute_bounded_cycle-Within_example :
    visits_in "check" (execute_bounded_cycle host writes cycle_flow context []).0.result.trace ≤ (
      let bound = (node_at cycle_flow.nodes "check").max_visits in
      if ltb_ℤ (pos 0) bound then pos_part bound else 1)
execute_bounded_cycle-Within_example =
    execute_bounded_cycle-Within host writes cycle_flow context [] "check"

cycle_allowance : visit_allowance cycle_flow ≡ 6
unfolding total max_visits node_at sort insert str_lt first_ids
cycle_allowance = refl

cycle_size : length (first_ids [] cycle_flow.nodes) ≡ 3
unfolding first_ids
cycle_size = refl

execute_bounded_cycle-Ends_example :
    (execute_bounded_cycle host writes cycle_flow context []).0.result.status ≢ "failed"
execute_bounded_cycle-Ends_example =
    execute_bounded_cycle-Ends host writes cycle_flow context []
      (omega (arith, cycle_allowance, cycle_size))

abbrev Known : List String → Type 0
Known log = (id : String) → In id log → In id (node_ids cycle_flow)

allowed-Known :
    (node : Node) (results : Results)
    → IsAllowed cycle_flow context node results
    → In node.id (node_ids cycle_flow)
allowed-Known node results a =
    let (listed, same) = node_at-In cycle_flow.nodes a.id a.known in
    let filled =
      resolve_node-IsFilled results context (node_at cycle_flow.nodes a.id) node a.resolved in
    let own : node.id ≡ a.id = ap (λ (n : Node). n.id) filled.same_else ∙ same in
    subst (λ id. In id (node_ids cycle_flow)) (sym own) a.known

written-Known :
    (node : Node) (results : Results) (log : List String)
    → IsCall cycle_flow context digest_of panel.profiles panel.verifier node results
    → Known log
    → Known (writes node results log).1
written-Known node results log c k id i = elim (append-In id log (node.id ∷ []) i) [
  | inl j ↦ k id j
  | inr (inl e) ↦ rw e (allowed-Known node results (allowed c))
  | inr (inr z) ↦ absurd z
]
  where
    allowed :
        IsCall cycle_flow context digest_of panel.profiles panel.verifier node results
        → IsAllowed cycle_flow context node results
    allowed (wave_call ws e n a w) = a
    allowed (walk_call x e a) = a

execute-Holds_example :
    Known
      (execute host cycle_flow context (some writes) (record { panel = panel; world = [] })).1.world
execute-Holds_example =
    execute-Holds host writes cycle_flow context (record { panel = panel; world = [] }) Known
      (λ w ns n i. i) written-Known (λ id i. elim i [ ])

-- The walk starts with the apply node, in front of any check.
applies_first :
    (execute host cycle_flow context (some writes) (record { panel = panel; world = [] })).1.world
    ≡ "apply" ∷ "check" ∷ "check" ∷ "look" ∷ "apply" ∷ "look" ∷ []
unfolding execute execute_with execute_scheduled execute_bounded_cycle walk visit_node
    visit_resolved after_visit visited selected_node seeded select_node may_visit max_visits node_at
    edges_to edge_decision decide_edges condition_holds policy_stops resolve_node resolve_value
    resolve_text from_context field_of split_dot with_value has_prefix trim_prefix put
    schedule_waves schedule_linked link_edges cycle_of first_ids blocked validate gathered keys_of
    check_nodes check_node node_findings only_if named_cli has_key valid_lane check_edges check_ends
    join_ends has_link link_edge read_condition parse_condition fields condition_findings
    check_coverage coverage_findings verdict_findings uncovered conditions_of cycle_findings
    residual_cycle_nodes rounds take_ready release successors_of sort insert str_lt find trim_space
applies_first = refl

-- One node that leads to itself, with more visits than the walk has steps.
abbrev self_flow : Flow
self_flow = record {
  nodes = record (node_of "n" "mission" "") { max_visits = pos 20 } ∷ [];
  edges = record { from = "n"; to = "n"; condition = "default" } ∷ [];
}

stops_early :
    ((execute_bounded_cycle host writes self_flow context []).0.result.status ≡ "failed")
    × (length (execute_bounded_cycle host writes self_flow context []).1 ≡ 8)
unfolding execute_bounded_cycle exhausted walk visit_node visit_resolved after_visit visited
    selected_node seeded select_node may_visit max_visits node_at edges_to edge_decision
    decide_edges condition_holds policy_stops resolve_node resolve_value resolve_text from_context
    field_of split_dot with_value has_prefix trim_prefix put first_ids parse_condition fields sort
    insert str_lt find trim_space
stops_early = (refl, refl)

-- ===== src/Orchestration/Validation/Tests.antt =====
-- A flow that passes validation, the theorems about such flows there, and flows that do not pass.
use jacu_harness.Base.{◌≡◌, refl, inl, inr, String, false, [], ◌∷◌, map}
use jacu_harness.Base.Int.{pos}
use jacu_harness.Base.Assoc.{find}
use jacu_harness.Base.Sort.{sort, insert}
use jacu_harness.Base.Strings.{trim_space, str_lt}
use jacu_harness.Orchestration.Flow.{Edge, Node, Flow, no_fields}
use jacu_harness.Orchestration.Condition.{ParsedCondition, fields, parse_condition}
use jacu_harness.Orchestration.Schedule.{
  has_link, link_edge, rounds, take_ready, release, successors_of,
}
use jacu_harness.Orchestration.Validation.{
  Finding, blocked, only_if, valid_lane, named_cli, has_key, node_findings, check_node, check_nodes,
  condition_findings, read_condition, join_ends, check_ends, check_edges, conditions_of, uncovered,
  verdict_findings, coverage_findings, check_coverage, residual_cycle_nodes, cycle_findings,
  finding_before, gathered, validate, keys_of,
}
use jacu_harness.Orchestration.Validation.Nodes.{IsEntered}
use jacu_harness.Orchestration.Validation.Edging.{IsSafeEdge, Leaves}
use jacu_harness.Orchestration.Validation.Admitted.{
  node_map, Takes, validate-IsEntered, validate-IsSafeEdge, validate_covers,
}

abbrev node_of : String → String → Node
node_of id uses = record {
  id = id;
  uses = uses;
  lane = "";
  with_fields = no_fields;
  allowed_paths = [];
  max_visits = pos 0;
}

abbrev check_step : Node
check_step = node_of "check" "verify"

abbrev on_pass : Edge
on_pass = record { from = "check"; to = "ship"; condition = "verdict == pass" }

-- The review takes every verdict but `pass`.
abbrev checked_flow : Flow
checked_flow = record {
  nodes = check_step ∷ node_of " ship" "apply" ∷ node_of "look" "review" ∷ [];
  edges = on_pass ∷ record { from = "check"; to = "look"; condition = "default" } ∷ [];
}

checked_passes : blocked (validate checked_flow) ≡ false
unfolding blocked validate gathered keys_of check_nodes check_node node_findings only_if named_cli
    has_key valid_lane check_edges check_ends join_ends has_link link_edge read_condition
    parse_condition fields condition_findings check_coverage coverage_findings verdict_findings
    uncovered conditions_of cycle_findings residual_cycle_nodes rounds take_ready release
    successors_of sort insert str_lt find trim_space
checked_passes = refl

validate-IsEntered_example : IsEntered (node_map checked_flow) check_step
validate-IsEntered_example = validate-IsEntered checked_flow checked_passes check_step (inl refl)

validate-IsSafeEdge_example : IsSafeEdge (node_map checked_flow) on_pass
validate-IsSafeEdge_example = validate-IsSafeEdge checked_flow checked_passes on_pass (inl refl)

validate_covers_example :
    (c : ParsedCondition) × Leaves checked_flow.edges (trim_space check_step.id) c
    × Takes c "timeout"
validate_covers_example =
    validate_covers checked_flow check_step on_pass "timeout" checked_passes (inl refl) refl
      (inl refl) refl (inr (inr (inl refl)))

-- The rules that a flow breaks when its check leads to an apply node by default and its edges close
-- a cycle.
broken_rules :
    map
      (λ (f : Finding). f.rule)
      (validate (record checked_flow {
        edges =
            record { from = "check"; to = "ship"; condition = "default" }
            ∷ record { from = "ship"; to = "check"; condition = "default" }
            ∷ record { from = "ship"; to = "nowhere"; condition = "default" }
            ∷ [];
      }))
    ≡ "dangling_edge" ∷ "default_apply" ∷ "orphan_node" ∷ "unbounded_cycle" ∷ []
unfolding blocked validate gathered keys_of check_nodes check_node node_findings only_if named_cli
    has_key valid_lane check_edges check_ends join_ends has_link link_edge read_condition
    parse_condition fields condition_findings check_coverage coverage_findings verdict_findings
    uncovered conditions_of cycle_findings residual_cycle_nodes rounds take_ready release
    successors_of sort insert str_lt find trim_space finding_before
broken_rules = refl

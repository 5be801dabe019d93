-- ===== src/Orchestration/Tests.antt =====
-- Two edges into a node, and the theorems applied there.
use jacu_harness.Base.{◌≡◌, ◌⊎◌, ◌↔◌, refl, inl, inr, String, true, false, List, [], ◌∷◌, ok, err}
use jacu_harness.Base.Int.{pos}
use jacu_harness.Base.Sort.{sort, insert}
use jacu_harness.Base.Assoc.{find}
use jacu_harness.Base.Strings.{trim_space, trim_suffix, after_prefix, str_lt}
use jacu_harness.Scope.{lists_conflict, pair_conflicts, normalize_scope, dir_prefix}
use jacu_harness.Orchestration.Flow.{Edge, Node, Flow, no_fields}
use jacu_harness.Orchestration.Schedule.{
  schedule_waves, schedule_linked, link_edges, link_edge, first_ids, has_link, rounds, take_ready,
  release, successors_of, predecessors_of, place_all, put_in_wave, min_wave, paths_of, cycle,
  cycle_of,
}
use jacu_harness.Orchestration.Schedule.Outcome.{Outcome, schedule_waves-Outcome}
use jacu_harness.Orchestration.Condition.{ParsedCondition, fields, parse_condition}
use jacu_harness.Orchestration.Condition.Closed.{
  IsCondition, on_verdict, spelled, parse_condition-IsCondition, parse_condition-spelled,
}
use jacu_harness.Orchestration.Edges.{NodeResult, decide_edges, edge_decision, condition_holds}
use jacu_harness.Orchestration.Edges.Taken.{FirstMet, edge_decision_iff}

abbrev on_fail : ParsedCondition
on_fail = record { field = "verdict"; value = "fail"; is_default = false }

fail_parsed : parse_condition " verdict  == fail\t" ≡ ok on_fail
unfolding parse_condition fields trim_space
fail_parsed = refl

parse_condition-IsCondition_example :
    IsCondition on_fail
    × (fields (trim_space " verdict  == fail\t") ≡ "verdict" ∷ "==" ∷ "fail" ∷ [])
parse_condition-IsCondition_example =
    parse_condition-IsCondition " verdict  == fail\t" on_fail fail_parsed

parse_condition-spelled_example : parse_condition (spelled on_fail) ≡ ok on_fail
parse_condition-spelled_example =
    parse_condition-spelled on_fail (on_verdict "fail" (inr (inl refl)))

abbrev incoming : List Edge
incoming =
    record { from = "review"; to = "apply"; condition = "default" }
    ∷ record { from = "check"; to = "apply"; condition = "verdict == pass" }
    ∷ []

abbrev results : List (String × NodeResult (Unit {0}))
results = ("check", record { status = "ok"; verdict = "pass"; policy = ""; output = tt }) ∷ []

edge_decision_iff_example :
    ((edge_decision results incoming).1 ≡ true) ↔ ((incoming ≡ []) ⊎ FirstMet results incoming)
edge_decision_iff_example = edge_decision_iff results incoming

apply_runs : (edge_decision results incoming).1 ≡ true
unfolding edge_decision decide_edges condition_holds parse_condition fields trim_space find
apply_runs = refl

abbrev node_of : String → List String → Node
node_of id paths = record {
  id = id;
  uses = "workspace";
  lane = "";
  with_fields = no_fields;
  allowed_paths = paths;
  max_visits = pos 0;
}

abbrev edge_of : String → String → Edge
edge_of from to = record { from = from; to = to; condition = "default" }

-- `a` and `c` write to one tree; `b` waits for `a`.
abbrev three_nodes : Flow
three_nodes = record {
  nodes = node_of "b" ("docs" ∷ []) ∷ node_of "c" ("src" ∷ []) ∷ node_of "a" ("src/x" ∷ []) ∷ [];
  edges = edge_of "a" "b" ∷ [];
}

schedule_waves-Outcome_example : Outcome three_nodes (schedule_waves three_nodes)
schedule_waves-Outcome_example = schedule_waves-Outcome three_nodes

two_waves : schedule_waves three_nodes ≡ ok (("a" ∷ []) ∷ ("b" ∷ "c" ∷ []) ∷ [])
unfolding schedule_waves schedule_linked link_edges link_edge first_ids has_link rounds take_ready
    release sort insert str_lt successors_of predecessors_of place_all put_in_wave min_wave paths_of
    lists_conflict pair_conflicts normalize_scope dir_prefix trim_space trim_suffix after_prefix
two_waves = refl

closed_cycle :
    schedule_waves (record three_nodes { edges = edge_of "c" "b" ∷ edge_of "b" "c" ∷ [] })
    ≡ err (cycle "b")
unfolding schedule_waves schedule_linked link_edges link_edge first_ids has_link rounds take_ready
    release sort insert str_lt successors_of cycle_of
closed_cycle = refl

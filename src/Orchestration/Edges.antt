-- ===== src/Orchestration/Edges.antt =====
-- engine.go: which edge lets a node run, and which result stops a flow.
pub mod Taken
use jacu_harness.Base.{
  ℕ, String, Bool, true, false, not, ◌&&◌, ◌||◌, List, [], ◌∷◌, Option, none, some, Result, ok, err,
  if◌then◌else◌, ◌==◌, String-comparable, ltb, length,
}
use jacu_harness.Base.Assoc.{find}
use jacu_harness.Orchestration.Flow.{Edge}
use jacu_harness.Orchestration.Condition.{ParsedCondition, ConditionError, parse_condition}

-- `output` holds the node's data and opinions, which no edge reads.
pub record NodeResult (D : Type 0) : Type 0 where
  pub status : String
  pub verdict : String
  pub policy : String
  pub output : D

pub data Decision : Type 0 where
  root : Decision
  takes : String → Decision
  invalid : ConditionError → Decision
  no_match : Decision

module _ {D : Type 0} where
  unfoldable pub condition_holds : ParsedCondition → NodeResult D → Bool
  condition_holds c r =
      c.is_default
      || ((c.field == "verdict" && r.verdict == c.value)
          || (c.field == "policy" && r.policy == c.value))

  -- one edge whose source has a result, in front of the decision on the edges behind it
  pub decide_edge :
      Edge
      → Result ConditionError ParsedCondition
      → NodeResult D
      → Decision × Bool
      → Decision × Bool
  unfolding condition_holds
  decide_edge e (err x) r rest = (invalid x, false)
  decide_edge e (ok c) r rest = if condition_holds c r then (takes e.condition, true) else rest

  -- the loop of `edgeDecision`
  unfoldable pub decide_edges : List (String × NodeResult D) → List Edge → Decision × Bool
  unfolding decide_edge
  decide_edges results [] = (no_match, false)
  decide_edges results (e ∷ es) =
      let rest = decide_edges results es in
      elim (find results e.from) [
        | none ↦ rest
        | some r ↦ decide_edge e (parse_condition e.condition) r rest
      ]

  unfoldable pub edge_decision : List (String × NodeResult D) → List Edge → Decision × Bool
  unfolding decide_edges
  edge_decision results [] = (root, true)
  edge_decision results (e ∷ es) = decide_edges results (e ∷ es)

  unfoldable pub policy_stops : NodeResult D → Bool
  policy_stops r =
      r.policy == "blocked" || (r.policy == "escalate" || r.policy == "require_approval")

-- `MaxWaveWidth`
abbrev pub max_wave_width : ℕ
max_wave_width = 4

-- `fanOutFinding`: the width of the first wave that is too wide.
unfoldable pub fan_out_finding : List (List String) → Option ℕ
fan_out_finding [] = none
fan_out_finding (w ∷ ws) =
    let rest = fan_out_finding ws in if ltb max_wave_width (length w) then some (length w) else rest

-- ===== src/Orchestration/Engine/Walk.antt =====
-- engine.go: `executeBoundedCycle`, the walk of a flow whose edges close a cycle.
pub mod Visits
pub mod Calls
pub mod Ends
use jacu_harness.Base.{
  ℕ, zero, suc, ◌+◌, ◌*◌, String, Bool, true, false, not, ◌&&◌, ◌||◌, List, [], ◌∷◌, ◌++◌, some,
  none, Result, ok, err, if◌then◌else◌, ◌==◌, ℕ-comparable, String-comparable, ltb, length,
}
use jacu_harness.Base.Assoc.{put}
use jacu_harness.Base.Int.{pos, pos_part, ltb_ℤ}
use jacu_harness.Base.Sort.{sort}
use jacu_harness.Base.Strings.{is_empty, str_lt}
use jacu_harness.Orchestration.Flow.{Node, Flow, Fields}
use jacu_harness.Orchestration.Schedule.{first_ids, raised}
use jacu_harness.Orchestration.Validation.{blocks, is_nil}
use jacu_harness.Orchestration.Edges.{NodeResult, edge_decision, policy_stops}
use jacu_harness.Orchestration.Resolve.{Output, Results, ResolveError, resolve_node}
use jacu_harness.Orchestration.Engine.{
  Host, Executor, TraceEvent, FlowError, unresolved, executor_failed, Reply, replied, node_at,
  edges_to, executed,
}

-- `maxVisits`
unfoldable pub max_visits : Node → ℕ
max_visits node = if ltb_ℤ (pos 0) node.max_visits then pos_part node.max_visits else 1

pub record WalkState (W : Type 0) : Type 0 where
  pub results : Results
  pub visits : String → ℕ
  pub trace : List TraceEvent
  pub world : W

-- may the node be visited now
unfoldable pub may_visit : Flow → Results → (String → ℕ) → String → Bool
may_visit flow results visits id =
    (is_nil (edges_to flow.edges id) || (edge_decision results (edges_to flow.edges id)).1)
    && (visits id == 0 || ltb (visits id) (max_visits (node_at flow.nodes id)))

-- the loop over the ids; the empty text is no node
unfoldable pub select_node : Flow → Results → (String → ℕ) → List String → String
unfolding may_visit
select_node flow results visits [] = ""
select_node flow results visits (id ∷ ids) =
    let rest = select_node flow results visits ids in
    if may_visit flow results visits id then id else rest

-- A closed cycle starts at the first of its nodes.
unfoldable pub seeded : Flow → Results → String → List String → String
seeded flow results selected [] = selected
seeded flow results selected (id ∷ ids) =
    if is_empty selected && (is_nil results && ltb 0 (max_visits (node_at flow.nodes id)))
    then id
    else selected

-- an error in the middle of the walk, with the zero result
abbrev pub aborted : {E : Type 0} → FlowError E → Reply E
aborted {E} e = record (replied {E = E} "" "" [] []) { error = some e }

-- the reply of a walk that has used up its steps
unfoldable pub exhausted : {E : Type 0} → List TraceEvent → Reply E
exhausted trace = record {
  result = record {
    status = "failed";
    summary = "Flow exceeded bounded visits.";
    waves = [];
    trace = trace;
    findings = blocks "max_visits" "flow exceeded max_visits" "" "" ∷ [];
  };
  error = none;
}

module _ {E W : Type 0} (host : Host E W) (executor : Executor E W) (flow : Flow)
    (initial : Fields) where
  -- `ids`
  abbrev pub walk_ids : List String
  walk_ids = sort str_lt (first_ids [] flow.nodes)

  -- the state after a visit that answered `r`
  unfoldable pub visited : WalkState W → String → Node → NodeResult Output → W → WalkState W
  visited s selected resolved r w =
      let visits = raised s.visits selected in
      record {
        results = put s.results selected r;
        visits = visits;
        trace =
            s.trace ++ record (executed resolved 0 (visits selected) r) { node_id = selected } ∷ [];
        world = w;
      }

  -- what follows the executor's answer; `next` is the rest of the loop
  unfoldable pub after_visit :
      WalkState W
      → String
      → Node
      → Result E (NodeResult Output) × W
      → (WalkState W → Reply E × W)
      → Reply E × W
  unfolding visited
  after_visit s selected resolved (err e, w) next = (aborted (executor_failed e), w)
  after_visit s selected resolved (ok r, w) next =
      let s' = visited s selected resolved r w in
      if policy_stops r
      then (replied "escalated" "Flow escalated by capability policy." [] s'.trace, w)
      else next s'

  unfoldable pub visit_resolved :
      WalkState W → String → Result ResolveError Node → (WalkState W → Reply E × W) → Reply E × W
  unfolding after_visit
  visit_resolved s selected (err e) next = (aborted (unresolved e), s.world)
  visit_resolved s selected (ok resolved) next =
      after_visit s selected resolved (executor resolved s.results s.world) next

  -- the body of the loop, for the node that is selected
  unfoldable pub visit_node : WalkState W → String → (WalkState W → Reply E × W) → Reply E × W
  unfolding visit_resolved
  visit_node s selected next =
      if host.cancelled s.world
      then (replied "cancelled" "Flow cancelled." [] s.trace, s.world)
      else if is_empty selected
      then (replied "ok" "Flow completed." [] s.trace, s.world)
      else visit_resolved s selected (resolve_node s.results initial (node_at flow.nodes selected))
          next

  unfoldable pub selected_node : WalkState W → String
  unfolding select_node seeded
  selected_node s = seeded flow s.results (select_node flow s.results s.visits walk_ids) walk_ids

  -- so many steps of the loop
  unfoldable pub walk : ℕ → WalkState W → Reply E × W
  unfolding visit_node selected_node exhausted
  walk zero s = (exhausted s.trace, s.world)
  walk (suc steps) s = visit_node s (selected_node s) (walk steps)

  unfoldable pub execute_bounded_cycle : W → Reply E × W
  unfolding walk
  execute_bounded_cycle w =
      walk (length (first_ids [] flow.nodes) * 4 + 4)
        (record { results = []; visits = λ x. 0; trace = []; world = w })

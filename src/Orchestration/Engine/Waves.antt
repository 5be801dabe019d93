-- ===== src/Orchestration/Engine/Waves.antt =====
-- engine.go: the loop of `Execute` over the waves. The nodes of a wave run one after the other in the
-- order that the host gives; each reads the results of the earlier waves only, and what they answer is
-- sorted by their ids before it is taken over.
use jacu_harness.Base.{
  ℕ, suc, String, Bool, not, ◌&&◌, List, [], ◌∷◌, ◌++◌, none, some, Result, ok, err, if◌then◌else◌,
}
use jacu_harness.Base.Assoc.{put}
use jacu_harness.Base.Sort.{sort}
use jacu_harness.Base.Strings.{is_empty, str_lt}
use jacu_harness.ModelControl.Profile.{HostProfile}
use jacu_harness.Orchestration.Flow.{Node, Flow, Fields}
use jacu_harness.Orchestration.Validation.{is_nil}
use jacu_harness.Orchestration.Edges.{NodeResult, Decision, edge_decision, policy_stops}
use jacu_harness.Orchestration.Resolve.{Output, Results, ResolveError, resolve_node}
use jacu_harness.Orchestration.Routing.{Panel, RoutingError, route_node}
use jacu_harness.Orchestration.Engine.{
  Host, Executor, TraceEvent, unmatched, FlowError, unresolved, executor_failed, Reply, replied,
  node_at, edges_to, executed, event_before,
}

-- The panel is a variable of the package: a routing may change its breaker.
pub record Site (W : Type 0) : Type 0 where
  pub panel : Panel
  pub world : W

pub record NodeOutcome (E : Type 0) : Type 0 where
  pub node : Node
  pub value : Result (FlowError E) (NodeResult Output)

abbrev pub blocked_result : NodeResult Output
blocked_result = record { status = "blocked"; verdict = ""; policy = ""; output = none }

-- the node and its answer in the site that the executor leaves
abbrev pub answered :
    {E W : Type 0} → Node → Panel → Result E (NodeResult Output) × W → NodeOutcome E × Site W
answered node panel (ok r, w) =
    (record { node = node; value = ok r }, record { panel = panel; world = w })
answered node panel (err e, w) =
    (record { node = node; value = err (executor_failed e) }, record { panel = panel; world = w })

pub record Split : Type 0 where
  pub active : List Node
  pub skipped : List TraceEvent

abbrev skips : Node → String → ℕ → Decision → TraceEvent
skips node id wave decision = record {
  node_id = id;
  uses = node.uses;
  wave = wave;
  visit = 0;
  status = "";
  verdict = "";
  policy = "";
  decision = "skipped";
  reason = some (unmatched decision);
}

-- the loop that finds the active nodes of a wave
unfoldable pub split_wave : Flow → Results → ℕ → List String → Split
split_wave flow results wave [] = record { active = []; skipped = [] }
split_wave flow results wave (id ∷ ids) =
    let rest = split_wave flow results wave ids in
    let (decision, matched) = edge_decision results (edges_to flow.edges id) in
    if not (is_nil (edges_to flow.edges id)) && not matched
    then record rest { skipped = skips (node_at flow.nodes id) id wave decision ∷ rest.skipped }
    else record rest { active = node_at flow.nodes id ∷ rest.active }

pub data Recorded (E : Type 0) : Type 0 where
  failed_node : FlowError E → Recorded E
  stopped : List TraceEvent → Recorded E
  recorded : Results → List TraceEvent → Recorded E

-- the loop over the collected outcomes
unfoldable pub record_outcomes :
    {E : Type 0} → ℕ → List (NodeOutcome E) → Results → List TraceEvent → Recorded E
record_outcomes wave [] results events = recorded results events
record_outcomes wave (o ∷ os) results events = elim o.value [
  | err e ↦ failed_node e
  | ok r ↦
      let events' = events ++ executed o.node wave 1 r ∷ [] in
      if policy_stops r
      then stopped events'
      else record_outcomes wave os (put results o.node.id r) events'
]

unfoldable pub outcome_before : {E : Type 0} → NodeOutcome E → NodeOutcome E → Bool
outcome_before a b = str_lt a.node.id b.node.id

module _ {E W : Type 0} (host : Host E W) (executor : Executor E W) (flow : Flow)
    (initial : Fields) where
  -- behind the gate of a node with a lane
  unfoldable pub run_routed :
      Results → Node → W → Result RoutingError HostProfile × Panel → NodeOutcome E × Site W
  run_routed results node w (ok p, panel) = answered node panel (executor node results w)
  run_routed results node w (err e, panel) =
      (record { node = node; value = ok blocked_result }, record { panel = panel; world = w })

  unfoldable pub run_resolved :
      Results → Site W → Node → Result ResolveError Node → NodeOutcome E × Site W
  unfolding run_routed
  run_resolved results s node (err e) = (record { node = node; value = err (unresolved e) }, s)
  run_resolved results s node (ok resolved) =
      if not (is_empty resolved.lane)
      then run_routed results resolved s.world
          (route_node (host.clock s.world) (host.digest s.world) s.panel resolved)
      else answered resolved s.panel (executor resolved results s.world)

  -- the body of the goroutine
  unfoldable pub run_node : Results → Site W → Node → NodeOutcome E × Site W
  unfolding run_resolved
  run_node results s node = run_resolved results s node (resolve_node results initial node)

  unfoldable pub run_all : Results → Site W → List Node → List (NodeOutcome E) × Site W
  unfolding run_node
  run_all results s [] = ([], s)
  run_all results s (n ∷ ns) =
      let (o, s') = run_node results s n in let (os, s'') = run_all results s' ns in (o ∷ os, s'')

  pub record Loop : Type 0 where
    pub results : Results
    pub trace : List TraceEvent
    pub site : Site W

  -- the end of the body, where the loop goes on as `next` says
  unfoldable pub finish_wave :
      List (List String) → Loop → Recorded E → (Loop → Reply E × Site W) → Reply E × Site W
  finish_wave all_waves l (failed_node e) next = (
    record (replied {E = E} "failed" "Flow node failed." all_waves l.trace) { error = some e },
    l.site,
  )
  finish_wave all_waves l (stopped events) next = (
    replied "escalated" "Flow escalated by capability policy." all_waves
        (l.trace ++ sort event_before events),
    l.site,
  )
  finish_wave all_waves l (recorded results events) next =
      next (record l { results = results; trace = l.trace ++ sort event_before events })

  unfoldable pub run_waves : List (List String) → ℕ → List (List String) → Loop → Reply E × Site W
  unfolding run_all split_wave finish_wave
  run_waves all_waves index [] l = (replied "ok" "Flow completed." all_waves l.trace, l.site)
  run_waves all_waves index (wave ∷ waves) l =
      let split = split_wave flow l.results index wave in
      let (outcomes, site) = run_all l.results l.site (host.arrange l.site.world split.active) in
      if host.cancelled l.site.world
      then (replied "cancelled" "Flow cancelled." all_waves l.trace, l.site)
      else finish_wave all_waves (record l { site = site })
          (record_outcomes index (sort outcome_before outcomes) l.results split.skipped)
          (run_waves all_waves (suc index) waves)

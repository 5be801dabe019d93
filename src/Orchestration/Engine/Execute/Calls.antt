-- ===== src/Orchestration/Engine/Execute/Calls.antt =====
-- Every call of the executor that `Execute` makes is one that the flow allows.
use jacu_harness.Base.{
  ◌≤◌, length, ℕ, ◌≡◌, ◌≢◌, refl, sym, ap, ◌∙◌, subst, String, true, false, List, [], ◌∷◌, Option,
  none, some, Result, ok, err, arith, Bool-cases, inl, inr, ◌⊎◌, In, contains, contains-In,
  In-contains, String-comparable,
}
use jacu_harness.ModelControl.Profile.{HostProfile, SignatureVerifier}
use jacu_harness.Orchestration.Flow.{Node, Flow, Fields}
use jacu_harness.Orchestration.Schedule.{ScheduleError, dangling, cycle, broken, schedule_waves}
use jacu_harness.Orchestration.Schedule.Waves.{in_waves}
use jacu_harness.Orchestration.Schedule.Outcome.{
  node_ids, Outcome, scheduled, dangles, cyclic, IsSchedule, schedule_waves-Outcome,
}
use jacu_harness.Orchestration.Validation.{is_nil, blocked, validate, named_cli}
use jacu_harness.Orchestration.Validation.Admitted.{validate-IsEntered}
use jacu_harness.Orchestration.Edges.{edge_decision, fan_out_finding, max_wave_width}
use jacu_harness.Orchestration.Resolve.{
  Results, resolve_node, resolve_node-IsFilled, IsFilled-named_cli,
}
use jacu_harness.Orchestration.Engine.{Host, Executor, node_at, edges_to}
use jacu_harness.Orchestration.Engine.Cleared.{IsCleared, node_at-In, decision-IsCleared}
use jacu_harness.Orchestration.Engine.Calls.{IsWaveCall, run_waves-IsGood}
use jacu_harness.Orchestration.Engine.Walk.Calls.{IsWalkCall, execute_bounded_cycle-Holds}
use jacu_harness.Orchestration.Engine.Waves.{Site}
use jacu_harness.Orchestration.Engine.Execute.{
  execute_waves, execute_scheduled, execute_with, execute,
}

-- A call that a flow allows: the flow passed validation; the node is one of its nodes with its values
-- resolved, and names no program; the decision on its edges lets it run, or it is the first node of a walk; and an apply node
-- that edges lead to is cleared by one of them.
pub record IsAllowed (flow : Flow) (initial : Fields) (node : Node) (results : Results)
    : Type 0 where
  pub passed : blocked (validate flow) ≡ false
  pub id : String
  pub known : In id (node_ids flow)
  pub resolved : resolve_node results initial (node_at flow.nodes id) ≡ ok node
  pub no_program : named_cli node ≡ false
  pub starts : ((edge_decision results (edges_to flow.edges id)).1 ≡ true) ⊎ (is_nil results ≡ true)
  pub cleared :
      node.uses ≡ "apply"
      → edges_to flow.edges id ≢ []
      → is_nil results ≡ false
      → IsCleared flow results id

-- Where the waves of the flow are known, none of them is too wide, and the call is one of a wave: a
-- node with a lane is routed.
pub data IsCall (flow : Flow) (initial : Fields) (digest : String → Option String)
    (profiles : List HostProfile) (verifier : Option SignatureVerifier) (node : Node)
    (results : Results) : Type 0 where
  wave_call :
      (waves : List (List String))
      → schedule_waves flow ≡ ok waves
      → ((wave : List String) → In wave waves → length wave ≤ max_wave_width)
      → IsAllowed flow initial node results
      → IsWaveCall flow initial digest profiles verifier node results
      → IsCall flow initial digest profiles verifier node results
  walk_call :
      (id : String)
      → schedule_waves flow ≡ err (cycle id)
      → IsAllowed flow initial node results
      → IsCall flow initial digest profiles verifier node results

fan_out_none :
    (waves : List (List String)) (wave : List String)
    → fan_out_finding waves ≡ none
    → In wave waves
    → length wave ≤ max_wave_width
unfolding fan_out_finding
fan_out_none [] wave h i = elim i [ ]
fan_out_none (w ∷ ws) wave h (inl e) = rw e (ground arith)
fan_out_none (w ∷ ws) wave h (inr i) =
    let rest : fan_out_finding ws ≡ none = ground arith in fan_out_none ws wave rest i

Outcome-IsSchedule :
    (flow : Flow) (waves : List (List String)) (r : Result ScheduleError (List (List String)))
    → Outcome flow r
    → r ≡ ok waves
    → IsSchedule flow waves
Outcome-IsSchedule flow waves r (scheduled ws s) e = subst (IsSchedule flow) (ground arith) s
Outcome-IsSchedule flow waves r (dangles d i m) e = absurd (ground arith)
Outcome-IsSchedule flow waves r (cyclic x i w) e = absurd (ground arith)

In-in_waves :
    (waves : List (List String)) (wave : List String) (x : String)
    → In wave waves
    → In x wave
    → in_waves waves x ≡ true
In-in_waves [] wave x i j = elim i [ ]
In-in_waves (w ∷ ws) wave x (inl e) j =
    let here : contains w x ≡ true = In-contains w x (subst (In x) e j) in ground arith
In-in_waves (w ∷ ws) wave x (inr i) j = let rest = In-in_waves ws wave x i j in ground arith

known_in_waves :
    (flow : Flow) (waves : List (List String))
    → schedule_waves flow ≡ ok waves
    → (wave : List String) → In wave waves
    → (x : String) → In x wave
    → In x (node_ids flow)
known_in_waves flow waves e wave i x j = contains-In (node_ids flow) x (
    sym (
      (Outcome-IsSchedule flow waves (schedule_waves flow) (schedule_waves-Outcome flow)
          e).all_nodes
        x)
    ∙ In-in_waves waves wave x i j)

module _ (flow : Flow) (initial : Fields) (passed : blocked (validate flow) ≡ false) where
  IsCleared-apply :
      (node : Node) (results : Results) (id : String)
      → In id (node_ids flow)
      → resolve_node results initial (node_at flow.nodes id) ≡ ok node
      → (edge_decision results (edges_to flow.edges id)).1 ≡ true
      → node.uses ≡ "apply"
      → edges_to flow.edges id ≢ []
      → IsCleared flow results id
  IsCleared-apply node results id known q d a some_edge =
      let n = node_at flow.nodes id in
      let (listed, same) = node_at-In flow.nodes id known in
      let filled = resolve_node-IsFilled results initial n node q in
      let applies : n.uses ≡ "apply" = sym (ap (λ (m : Node). m.uses) filled.same_else) ∙ a in
      subst (IsCleared flow results) same (
        decision-IsCleared flow results n passed listed applies
          (subst (λ i. edges_to flow.edges i ≢ []) (sym same) some_edge)
          (subst (λ i. (edge_decision results (edges_to flow.edges i)).1 ≡ true) (sym same) d))

  names_no_program :
      (node : Node) (results : Results) (id : String)
      → In id (node_ids flow)
      → resolve_node results initial (node_at flow.nodes id) ≡ ok node
      → named_cli node ≡ false
  names_no_program node results id known q =
      let n = node_at flow.nodes id in
      let (listed, same) = node_at-In flow.nodes id known in
      IsFilled-named_cli n node (resolve_node-IsFilled results initial n node q)
      ∙ (validate-IsEntered flow passed n listed).known.no_cli

  wave_call-IsAllowed :
      (digest : String → Option String) (profiles : List HostProfile)
      (verifier : Option SignatureVerifier) (node : Node) (results : Results)
      → IsWaveCall flow initial digest profiles verifier node results
      → IsAllowed flow initial node results
  wave_call-IsAllowed digest profiles verifier node results c =
      let q = ap (resolve_node results initial) (sym c.active.same) ∙ c.resolved in
      record {
        passed = passed;
        id = c.active.id;
        known = c.active.known;
        resolved = q;
        no_program = names_no_program node results c.active.id c.active.known q;
        starts = inl c.active.decided;
        cleared =
            λ a e f. IsCleared-apply node results c.active.id c.active.known q c.active.decided a e;
      }

  walk_call-IsAllowed :
      (node : Node) (results : Results)
      → IsWalkCall flow initial node results
      → IsAllowed flow initial node results
  walk_call-IsAllowed node results c = record {
    passed = passed;
    id = c.id;
    known = c.known;
    resolved = c.resolved;
    no_program = names_no_program node results c.id c.known c.resolved;
    starts = c.starts;
    cleared = λ a e f. elim c.starts [
      | inl d ↦ IsCleared-apply node results c.id c.known c.resolved d a e
      | inr n ↦ absurd (ground arith)
    ];
  }

module _ {E W : Type 0} (host : Host E W) (executor : Executor E W) (flow : Flow) (initial : Fields)
    (s : Site W) (Holds : W → Type 0)
    (arranges : (w : W) (ns : List Node) (n : Node) → In n (host.arrange w ns) → In n ns)
    (keeps : (node : Node) (results : Results) (w : W)
      → IsCall flow initial (host.digest w) s.panel.profiles s.panel.verifier node results
      → Holds w
      → Holds (executor node results w).1)
    (holds : Holds s.world) where
  execute_waves-Holds :
      (waves : List (List String)) (width : Option ℕ)
      → blocked (validate flow) ≡ false
      → schedule_waves flow ≡ ok waves
      → fan_out_finding waves ≡ width
      → Holds (execute_waves host flow initial executor waves width s).1.world
  unfolding execute_waves
  execute_waves-Holds waves (some width) p e f = holds
  execute_waves-Holds waves none p e f =
      (run_waves-IsGood host executor flow initial s.panel.profiles s.panel.verifier Holds
        (λ node results w c. keeps node results w (
          wave_call waves e (λ wave i. fan_out_none waves wave f i)
            (wave_call-IsAllowed flow initial p _ _ _ node results c) c))
        arranges waves 0 waves (record { results = []; trace = []; site = s })
        (known_in_waves flow waves e)
        (record { holds = holds; same_profiles = refl; same_verifier = refl })).holds

  execute_scheduled-Holds :
      (r : Result ScheduleError (List (List String)))
      → blocked (validate flow) ≡ false
      → schedule_waves flow ≡ r
      → Holds (execute_scheduled host flow initial executor r s).1.world
  unfolding execute_scheduled
  execute_scheduled-Holds (ok waves) p e =
      execute_waves-Holds waves (fan_out_finding waves) p e refl
  execute_scheduled-Holds (err (dangling from to)) p e = holds
  execute_scheduled-Holds (err broken) p e = holds
  execute_scheduled-Holds (err (cycle id)) p e =
      execute_bounded_cycle-Holds host executor flow initial Holds
        (λ node results w c.
          keeps node results w (walk_call id e (walk_call-IsAllowed flow initial p node results c)))
        s.world holds

  -- Whatever predicate of the world holds before `Execute`, and is kept by each call that the flow
  -- allows, holds after it. A call that a flow allows is of one of its nodes, with its values resolved
  -- and naming no program, after the flow passed validation; the decision on the edges to the node lets
  -- it run, or there are no results yet, as at the start of a walk. In a wave, a node with a lane has
  -- been routed to an attested binary of the panel, and no wave of the flow has more than four nodes.
  -- An apply node that edges lead to runs, when there are results, only where the source of one of the
  -- edges has a result that clears it under the edge's own condition: the condition asks for a verdict,
  -- the source is a verify node, and its verdict is the one asked for and pass, fail, timeout or
  -- blocked, so not `not_run`; or it asks for a policy, and the result has that policy, one of the
  -- four of the contract; or it is the default, and the source is not a verify node. The goroutines of a wave may run in any order that starts no other
  -- nodes.
  pub execute-Holds : Holds (execute host flow initial (some executor) s).1.world
  unfolding execute execute_with
  execute-Holds = elim (Bool-cases (blocked (validate flow))) [
    | inl t ↦ rw t holds
    | inr t ↦ rw t (execute_scheduled-Holds (schedule_waves flow) t refl)
  ]

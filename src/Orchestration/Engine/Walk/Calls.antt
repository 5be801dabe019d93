-- ===== src/Orchestration/Engine/Walk/Calls.antt =====
-- Which calls of the executor the walk makes.
use jacu_harness.Base.{
  ℕ, zero, suc, ◌≡◌, refl, String, true, false, ◌||◌, ◌+◌, ◌*◌, length, contains-In, In-contains,
  ◌∙◌, sym, String-comparable, List, [], ◌∷◌, Result, ok, err, arith, Bool-cases, Result-cases, inl,
  inr, ◌⊎◌, In,
}
use jacu_harness.Base.Sort.{sort-In}
use jacu_harness.Base.Strings.{is_empty, str_lt}
use jacu_harness.Orchestration.Flow.{Node, Edge, Flow, Fields}
use jacu_harness.Orchestration.Schedule.{first_ids}
use jacu_harness.Orchestration.Schedule.Outcome.{node_ids, first_ids_same}
use jacu_harness.Orchestration.Validation.{is_nil}
use jacu_harness.Orchestration.Edges.{NodeResult, edge_decision, policy_stops}
use jacu_harness.Orchestration.Resolve.{Output, Results, resolve_node}
use jacu_harness.Orchestration.Engine.{Host, Executor, Reply, node_at, edges_to}
use jacu_harness.Orchestration.Engine.Walk.{
  WalkState, may_visit, visited, after_visit, visit_resolved, visit_node, selected_node, walk,
  walk_ids, execute_bounded_cycle,
}
use jacu_harness.Orchestration.Engine.Walk.Visits.{IsChosen, selected_node-IsChosen}

-- The call of a node that the decision on its edges lets run, or of the first one, in front of any
-- result.
pub record IsWalkCall (flow : Flow) (initial : Fields) (node : Node) (results : Results)
    : Type 0 where
  pub id : String
  pub known : In id (node_ids flow)
  pub resolved : resolve_node results initial (node_at flow.nodes id) ≡ ok node
  pub starts : ((edge_decision results (edges_to flow.edges id)).1 ≡ true) ⊎ (is_nil results ≡ true)

may_visit-decided :
    (flow : Flow) (results : Results) (visits : String → ℕ) (id : String)
    → may_visit flow results visits id ≡ true
    → (edge_decision results (edges_to flow.edges id)).1 ≡ true
unfolding may_visit edge_decision
may_visit-decided flow results visits id h = decides (edges_to flow.edges id) (ground arith)
  where
    decides :
        (es : List Edge)
        → is_nil es || (edge_decision results es).1 ≡ true
        → (edge_decision results es).1 ≡ true
    decides [] h = refl
    decides (e ∷ es) h = h

module _ {E W : Type 0} (host : Host E W) (executor : Executor E W) (flow : Flow) (initial : Fields)
    (Holds : W → Type 0)
    (keeps : (node : Node) (results : Results) (w : W)
      → IsWalkCall flow initial node results
      → Holds w
      → Holds (executor node results w).1) where
  known_id : (id : String) → In id (walk_ids host executor flow initial) → In id (node_ids flow)
  known_id id i = contains-In (node_ids flow) id (
      sym (first_ids_same flow id)
      ∙ In-contains (first_ids [] flow.nodes) id (sort-In str_lt id (first_ids [] flow.nodes) i))

  started :
      (results : Results) (visits : String → ℕ) (id : String)
      → (may_visit flow results visits id ≡ true) ⊎ (is_nil results ≡ true)
      → ((edge_decision results (edges_to flow.edges id)).1 ≡ true) ⊎ (is_nil results ≡ true)
  started results visits id (inl v) = inl (may_visit-decided flow results visits id v)
  started results visits id (inr n) = inr n

  module _ (next : WalkState W → Reply E × W)
      (more : (s : WalkState W) → Holds s.world → Holds (next s).1) (s : WalkState W)
      (selected : String) (h : Holds s.world) where
    after_visit-Holds :
        (node : Node) (x : Result E (NodeResult Output) × W)
        → Holds x.1
        → Holds (after_visit host executor flow initial s selected node x next).1
    unfolding after_visit visited
    after_visit-Holds node (err e, w) k = k
    after_visit-Holds node (ok r, w) k = elim (Bool-cases (policy_stops r)) [
      | inl t ↦ rw t k
      | inr t ↦ rw t (more _ k)
    ]

    visit_node-Holds :
        (is_empty selected ≡ false
          → IsChosen flow s.results s.visits (walk_ids host executor flow initial) selected)
        → Holds (visit_node host executor flow initial s selected next).1
    unfolding visit_node visit_resolved
    visit_node-Holds chosen = elim (Bool-cases (host.cancelled s.world)) [
      | inl t ↦ rw t h
      | inr t ↦ elim (Bool-cases (is_empty selected)) [
        | inl e ↦ rw (t, e) h
        | inr e ↦
            elim (Result-cases (resolve_node s.results initial (node_at flow.nodes selected))) [
              | inr (x, q) ↦ rw (t, e, q) h
              | inl (node, q) ↦
                  let c = chosen e in
                  rw (t, e, q)
                    (after_visit-Holds node (executor node s.results s.world) (
                      keeps node s.results s.world
                        (record {
                          id = selected;
                          known = known_id selected c.listed;
                          resolved = q;
                          starts = started s.results s.visits selected c.chosen;
                        })
                        h))
            ]
      ]
    ]

  walk-Holds :
      (steps : ℕ) (s : WalkState W)
      → Holds s.world
      → Holds (walk host executor flow initial steps s).1
  unfolding walk
  walk-Holds zero s h = h
  walk-Holds (suc steps) s h =
      visit_node-Holds (walk host executor flow initial steps) (walk-Holds steps) s
        (selected_node host executor flow initial s) h
        (selected_node-IsChosen host executor flow initial s)

  -- A predicate of the world holds behind the walk, if it did before and every call keeps it.
  pub execute_bounded_cycle-Holds :
      (w : W) → Holds w → Holds (execute_bounded_cycle host executor flow initial w).1
  unfolding execute_bounded_cycle
  execute_bounded_cycle-Holds w h =
      walk-Holds (length (first_ids [] flow.nodes) * 4 + 4)
        (record { results = []; visits = λ x. 0; trace = []; world = w }) h

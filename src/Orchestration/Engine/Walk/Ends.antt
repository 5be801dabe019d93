-- ===== src/Orchestration/Engine/Walk/Ends.antt =====
-- The walk ends by itself where its steps are enough for the visits that the nodes allow.
use jacu_harness.Base.{
  ℕ, zero, suc, ◌+◌, ◌*◌, ◌≤◌, ◌<◌, ◌≡◌, ◌≢◌, refl, String, false, List, [], ◌∷◌, Result, ok, err,
  arith, eq_iff, ◌==◌, String-comparable, Bool-cases, inl, inr, In, length,
}
use jacu_harness.Base.Sort.{sort}
use jacu_harness.Base.Strings.{is_empty, str_lt}
use jacu_harness.Orchestration.Flow.{Node, Flow, Fields}
use jacu_harness.Orchestration.Schedule.{raised, first_ids}
use jacu_harness.Orchestration.Edges.{NodeResult, policy_stops}
use jacu_harness.Orchestration.Resolve.{Output, ResolveError}
use jacu_harness.Orchestration.Engine.{Host, Executor, Reply, node_at}
use jacu_harness.Orchestration.Engine.Walk.{
  max_visits, WalkState, walk_ids, visited, after_visit, visit_resolved, visit_node, selected_node,
  walk, execute_bounded_cycle,
}
use jacu_harness.Orchestration.Engine.Walk.Visits.{
  IsChosen, selected_node-IsChosen, IsCounted, visited-IsCounted, chosen_below, start-IsCounted,
}

-- the sum over the ids
unfoldable pub total : (String → ℕ) → List String → ℕ
total f [] = 0
total f (id ∷ ids) = f id + total f ids

total_mono :
    (f g : String → ℕ) (ids : List String)
    → ((id : String) → f id ≤ g id)
    → total f ids ≤ total g ids
unfolding total
total_mono f g [] h = omega arith
total_mono f g (id ∷ ids) h = omega (arith, h id, total_mono f g ids h)

total-raised :
    (f : String → ℕ) (id : String) (ids : List String)
    → In id ids
    → suc (total f ids) ≤ total (raised f id) ids
unfolding total
total-raised f id [] i = elim i [ ]
total-raised f id (x ∷ ids) (inl e) =
    let grows = total_mono f (raised f id) ids (λ y. ground arith) in ground (arith, eq_iff x id)
total-raised f id (x ∷ ids) (inr i) = let rest = total-raised f id ids i in ground arith

not_failed : (s : String) → (s == "failed") ≡ false → s ≢ "failed"
not_failed s h e = ground (arith, eq_iff s "failed")

-- the visits that the nodes of the flow allow
abbrev pub visit_allowance : Flow → ℕ
visit_allowance flow =
    total (λ id. max_visits (node_at flow.nodes id)) (sort str_lt (first_ids [] flow.nodes))

module _ {E W : Type 0} (host : Host E W) (executor : Executor E W) (flow : Flow)
    (initial : Fields) where
  abbrev ids : List String
  ids = walk_ids host executor flow initial

  abbrev Ends : Reply E × W → Type 0
  Ends r = r.0.result.status ≢ "failed"

  module _ (steps : ℕ) (next : WalkState W → Reply E × W)
      (more : (s : WalkState W)
        → IsCounted host executor flow initial s
        → visit_allowance flow < total s.visits ids + steps
        → Ends (next s))
      (s : WalkState W) (selected : String) (k : IsCounted host executor flow initial s)
      (left : visit_allowance flow < total s.visits ids + suc steps) where
    more_left :
        (node : Node) (r : NodeResult Output) (w : W)
        → suc (total s.visits ids) ≤ total (raised s.visits selected) ids
        → visit_allowance flow
          < total (visited host executor flow initial s selected node r w).visits ids + steps
    unfolding visited
    more_left node r w h = omega (arith, h, left)

    after_visit-Ends :
        (node : Node) (x : Result E (NodeResult Output) × W)
        → IsChosen flow s.results s.visits ids selected
        → Ends (after_visit host executor flow initial s selected node x next)
    unfolding after_visit
    after_visit-Ends node (err e, w) c = not_failed "" refl
    after_visit-Ends node (ok r, w) c = elim (Bool-cases (policy_stops r)) [
      | inl t ↦ rw t (not_failed "escalated" refl)
      | inr t ↦
          let below = chosen_below host executor flow initial s ids selected k c in
          let grown = total-raised s.visits selected ids c.listed in
          rw t (
            more (visited host executor flow initial s selected node r w)
              (visited-IsCounted host executor flow initial s selected node k below r w)
              (more_left node r w grown))
    ]

    visit_resolved-Ends :
        (x : Result ResolveError Node)
        → IsChosen flow s.results s.visits ids selected
        → Ends (visit_resolved host executor flow initial s selected x next)
    unfolding visit_resolved
    visit_resolved-Ends (err e) c = not_failed "" refl
    visit_resolved-Ends (ok node) c = after_visit-Ends node (executor node s.results s.world) c

    visit_node-Ends :
        (is_empty selected ≡ false → IsChosen flow s.results s.visits ids selected)
        → Ends (visit_node host executor flow initial s selected next)
    unfolding visit_node
    visit_node-Ends c = elim (Bool-cases (host.cancelled s.world)) [
      | inl t ↦ rw t (not_failed "cancelled" refl)
      | inr t ↦ elim (Bool-cases (is_empty selected)) [
        | inl e ↦ rw (t, e) (not_failed "ok" refl)
        | inr e ↦ rw (t, e) (visit_resolved-Ends _ (c e))
      ]
    ]

  walk-Ends :
      (steps : ℕ) (s : WalkState W)
      → IsCounted host executor flow initial s
      → visit_allowance flow < total s.visits ids + steps
      → Ends (walk host executor flow initial steps s)
  unfolding walk
  walk-Ends zero s k left =
      absurd
        (omega (arith, total_mono s.visits (λ id. max_visits (node_at flow.nodes id)) ids k.bounds))
  walk-Ends (suc steps) s k left =
      visit_node-Ends steps (walk host executor flow initial steps) (walk-Ends steps) s
        (selected_node host executor flow initial s) k left
        (selected_node-IsChosen host executor flow initial s)

  -- Where the bounds on the visits of the nodes add up to less than four times the number of nodes
  -- plus four, a walk does not end as failed for want of steps, whatever the executor answers.
  pub execute_bounded_cycle-Ends :
      (w : W)
      → visit_allowance flow < length (first_ids [] flow.nodes) * 4 + 4
      → (execute_bounded_cycle host executor flow initial w).0.result.status ≢ "failed"
  unfolding execute_bounded_cycle
  execute_bounded_cycle-Ends w h =
      walk-Ends (length (first_ids [] flow.nodes) * 4 + 4)
        (record { results = []; visits = λ x. 0; trace = []; world = w })
        (start-IsCounted host executor flow initial w) (omega (arith, h))

-- ===== src/Orchestration/Engine/Walk/Visits.antt =====
-- How often the walk visits a node, and which calls it makes.
use jacu_harness.Base.{
  ℕ, zero, suc, ◌+◌, ◌*◌, ◌≤◌, ◌≡◌, refl, sym, subst, String, true, false, ◌&&◌, List, [], ◌∷◌,
  ◌++◌, Result, ok, err, arith, eq_iff, ◌==◌, String-comparable, ℕ-comparable, Bool-cases, inl, inr,
  ◌⊎◌, In, length, select, ltb, if◌then◌else◌,
}
use jacu_harness.Base.Assoc.{put}
use jacu_harness.Base.Int.{pos, pos_part, ltb_ℤ}
use jacu_harness.Base.Strings.{is_empty}
use jacu_harness.Orchestration.Flow.{Node, Flow, Fields}
use jacu_harness.Orchestration.Schedule.{raised, first_ids}
use jacu_harness.Orchestration.Validation.{is_nil}
use jacu_harness.Orchestration.Edges.{NodeResult, policy_stops}
use jacu_harness.Orchestration.Resolve.{Output, Results, ResolveError}
use jacu_harness.Orchestration.Engine.{Host, Executor, TraceEvent, Reply, node_at, executed}
use jacu_harness.Orchestration.Engine.Walk.{
  max_visits, WalkState, may_visit, select_node, seeded, exhausted, walk_ids, visited, after_visit,
  visit_resolved, visit_node, selected_node, walk, execute_bounded_cycle,
}

-- How many events of the trace are about the node.
unfoldable pub visits_in : String → List TraceEvent → ℕ
visits_in id trace = length (select (λ (e : TraceEvent). e.node_id == id) trace)

visits_in-append :
    (id : String) (trace : List TraceEvent) (e : TraceEvent)
    → visits_in id (trace ++ e ∷ [])
      ≡ (if e.node_id == id then suc (visits_in id trace) else visits_in id trace)
unfolding visits_in
visits_in-append id [] e = ground arith
visits_in-append id (x ∷ trace) e = ground (arith, visits_in-append id trace e)

none_counted : (id : String) → visits_in id [] ≡ 0
unfolding visits_in
none_counted id = refl

max_visits_pos : (n : Node) → 1 ≤ max_visits n
unfolding max_visits
max_visits_pos n = ground arith

put-is_nil :
    (results : Results) (id : String) (r : NodeResult Output) → is_nil (put results id r) ≡ false
unfolding put
put-is_nil [] id r = refl
put-is_nil ((k, v) ∷ results) id r = ground arith

-- The node may be visited by the decision on its edges, or no node has been yet.
pub record IsChosen (flow : Flow) (results : Results) (visits : String → ℕ) (ids : List String)
    (id : String) : Type 0 where
  pub listed : In id ids
  pub chosen : (may_visit flow results visits id ≡ true) ⊎ (is_nil results ≡ true)

select_node-IsChosen :
    (flow : Flow) (results : Results) (visits : String → ℕ) (ids : List String)
    → is_empty (select_node flow results visits ids) ≡ false
    → IsChosen flow results visits ids (select_node flow results visits ids)
unfolding select_node
select_node-IsChosen flow results visits [] h = absurd (ground arith)
select_node-IsChosen flow results visits (id ∷ ids) h =
    elim (Bool-cases (may_visit flow results visits id)) [
      | inl t ↦ rw t (record { listed = inl refl; chosen = inl t })
      | inr t ↦
          let rest = select_node-IsChosen flow results visits ids (rw t at h) in
          rw t (record { listed = inr rest.listed; chosen = rest.chosen })
    ]

seeded-IsChosen :
    (flow : Flow) (results : Results) (visits : String → ℕ) (selected : String) (ids : List String)
    → (is_empty selected ≡ false → IsChosen flow results visits ids selected)
    → is_empty (seeded flow results selected ids) ≡ false
    → IsChosen flow results visits ids (seeded flow results selected ids)
unfolding seeded
seeded-IsChosen flow results visits selected [] c h = c h
seeded-IsChosen flow results visits selected (id ∷ ids) c h =
    elim (Bool-cases
      (is_empty selected && (is_nil results && ltb 0 (max_visits (node_at flow.nodes id))))) [
        | inl t ↦
            let none_yet : is_nil results ≡ true = ground arith in
            rw t (record { listed = inl refl; chosen = inr none_yet })
        | inr t ↦ rw t (c (rw t at h))
      ]

module _ {E W : Type 0} (host : Host E W) (executor : Executor E W) (flow : Flow)
    (initial : Fields) where
  pub selected_node-IsChosen :
      (s : WalkState W)
      → is_empty (selected_node host executor flow initial s) ≡ false
      → IsChosen flow s.results s.visits
          (walk_ids host executor flow initial)
          (selected_node host executor flow initial s)
  unfolding selected_node
  selected_node-IsChosen s h =
      seeded-IsChosen flow s.results s.visits _ _ (select_node-IsChosen flow s.results s.visits _) h

  -- The counts are those of the trace, and none passes the bound of its node.
  pub record IsCounted (s : WalkState W) : Type 0 where
    pub counts : (id : String) → visits_in id s.trace ≡ s.visits id
    pub bounds : (id : String) → s.visits id ≤ max_visits (node_at flow.nodes id)
    pub fresh : is_nil s.results ≡ true → (id : String) → s.visits id ≡ 0

  pub chosen_below :
      (s : WalkState W) (ids : List String) (id : String)
      → IsCounted s
      → IsChosen flow s.results s.visits ids id
      → suc (s.visits id) ≤ max_visits (node_at flow.nodes id)
  unfolding may_visit
  chosen_below s ids id k c =
      let low = max_visits_pos (node_at flow.nodes id) in
      elim c.chosen [ inl v ↦ ground arith | inr n ↦ let z = k.fresh n id in ground arith ]

  module _ (s : WalkState W) (selected : String) (node : Node) (k : IsCounted s)
      (below : suc (s.visits selected) ≤ max_visits (node_at flow.nodes selected)) where
    abbrev last_event : NodeResult Output → TraceEvent
    last_event r = record (executed node 0 (raised s.visits selected selected) r) {
      node_id = selected;
    }

    raised_bounds : (id : String) → raised s.visits selected id ≤ max_visits (node_at flow.nodes id)
    raised_bounds id = elim (Bool-cases (id == selected)) [
      | inl t ↦ rw t (
          subst (λ x. suc (s.visits x) ≤ max_visits (node_at flow.nodes x))
            (sym ((eq_iff id selected).0 t)) below)
      | inr t ↦ rw t (k.bounds id)
    ]

    pub visited-IsCounted :
        (r : NodeResult Output) (w : W)
        → IsCounted (visited host executor flow initial s selected node r w)
    unfolding visited
    visited-IsCounted r w = record {
      counts = λ id. ground (
        arith,
        visits_in-append id s.trace (last_event r),
        k.counts id,
        eq_iff id selected,
        eq_iff selected id,
      );
      bounds = raised_bounds;
      fresh = λ h. absurd (ground (arith, put-is_nil s.results selected r));
    }

  -- Exits of the loop give the trace of the state, or the empty one.
  abbrev Within : Reply E × W → Type 0
  Within r = (id : String) → visits_in id r.0.result.trace ≤ max_visits (node_at flow.nodes id)

  Counted-Within :
      (s : WalkState W)
      → IsCounted s
      → (id : String) → visits_in id s.trace ≤ max_visits (node_at flow.nodes id)
  Counted-Within s k id = rw (k.counts id) (k.bounds id)

  aborted-Within : (id : String) → visits_in id [] ≤ max_visits (node_at flow.nodes id)
  unfolding visits_in
  aborted-Within id = omega arith

  module _ (next : WalkState W → Reply E × W)
      (more : (s : WalkState W) → IsCounted s → Within (next s)) (s : WalkState W)
      (selected : String) (k : IsCounted s) where
    after_visit-Within :
        (node : Node) (x : Result E (NodeResult Output) × W)
        → suc (s.visits selected) ≤ max_visits (node_at flow.nodes selected)
        → Within (after_visit host executor flow initial s selected node x next)
    unfolding after_visit
    after_visit-Within node (err e, w) below = aborted-Within
    after_visit-Within node (ok r, w) below =
        let k' = visited-IsCounted s selected node k below r w in
        elim (Bool-cases (policy_stops r)) [
          | inl t ↦ rw t (Counted-Within _ k')
          | inr t ↦ rw t (more _ k')
        ]

    visit_resolved-Within :
        (x : Result ResolveError Node)
        → suc (s.visits selected) ≤ max_visits (node_at flow.nodes selected)
        → Within (visit_resolved host executor flow initial s selected x next)
    unfolding visit_resolved
    visit_resolved-Within (err e) below = aborted-Within
    visit_resolved-Within (ok node) below =
        after_visit-Within node (executor node s.results s.world) below

    visit_node-Within :
        (is_empty selected ≡ false
          → suc (s.visits selected) ≤ max_visits (node_at flow.nodes selected))
        → Within (visit_node host executor flow initial s selected next)
    unfolding visit_node
    visit_node-Within below = elim (Bool-cases (host.cancelled s.world)) [
      | inl t ↦ rw t (Counted-Within s k)
      | inr t ↦ elim (Bool-cases (is_empty selected)) [
        | inl e ↦ rw (t, e) (Counted-Within s k)
        | inr e ↦ rw (t, e) (visit_resolved-Within _ (below e))
      ]
    ]

  walk-Within :
      (steps : ℕ) (s : WalkState W) → IsCounted s → Within (walk host executor flow initial steps s)
  unfolding walk exhausted
  walk-Within zero s k = Counted-Within s k
  walk-Within (suc steps) s k =
      visit_node-Within (walk host executor flow initial steps) (walk-Within steps) s
        (selected_node host executor flow initial s) k
        (λ e. chosen_below s _ _ k (selected_node-IsChosen s e))

  pub start-IsCounted :
      (w : W) → IsCounted (record { results = []; visits = λ x. 0; trace = []; world = w })
  start-IsCounted w = record {
    counts = none_counted;
    bounds = λ id. omega arith;
    fresh = λ h id. refl;
  }

  -- Whatever the executor answers, the trace of a walk holds no more events about a node than its
  -- bound on visits, which is 1 where the flow gives none that is positive.
  pub execute_bounded_cycle-Within :
      (w : W) (id : String)
      → visits_in id (execute_bounded_cycle host executor flow initial w).0.result.trace ≤ (
          let bound = (node_at flow.nodes id).max_visits in
          if ltb_ℤ (pos 0) bound then pos_part bound else 1)
  unfolding execute_bounded_cycle max_visits
  execute_bounded_cycle-Within w id =
      walk-Within (length (first_ids [] flow.nodes) * 4 + 4)
        (record { results = []; visits = λ x. 0; trace = []; world = w }) (start-IsCounted w) id

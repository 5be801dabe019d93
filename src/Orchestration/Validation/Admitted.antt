-- ===== src/Orchestration/Validation/Admitted.antt =====
-- What a flow is that passes validation.
use mathlib.Core.Bool.{false≢true}
use jacu_harness.Base.{
  ◌≡◌, refl, sym, ap, ◌∙◌, subst, String, Bool, true, false, not, ◌&&◌, List, [], ◌∷◌, some, arith,
  eq_iff, ◌==◌, String-comparable, ℕ-comparable, Bool-cases, inl, inr, ◌⊎◌, In, any, In-select, ltb,
  length,
}
use jacu_harness.Base.Assoc.{find}
use jacu_harness.Base.Strings.{trim_space}
use jacu_harness.Scope.Lists.{any-In}
use jacu_harness.Orchestration.Flow.{Node, Edge, Flow}
use jacu_harness.Orchestration.Condition.{ParsedCondition, verify_verdicts}
use jacu_harness.Orchestration.Validation.{
  NodeMap, Edged, check_nodes, check_edges, check_coverage, coverage_findings, verdict_findings,
  conditions_of, covers, uncovered, is_nil, cycle_findings, residual_cycle_nodes, keys_of, no_edges,
  gathered, validate, blocked,
}
use jacu_harness.Orchestration.Validation.Levels.{unblocked-clean}
use jacu_harness.Orchestration.Validation.Nodes.{
  append_nil, only_if_nil, IsEntered, check_nodes-IsEntered, under_id,
}
use jacu_harness.Orchestration.Validation.Edging.{IsSafeEdge, Leaves, AllSafe, check_edges-AllSafe}

-- The map of the nodes that validation builds.
abbrev pub node_map : Flow → NodeMap
node_map flow = (check_nodes [] flow.nodes).nodes

abbrev pub edged : Flow → Edged
edged flow = check_edges (node_map flow) no_edges flow.edges

module _ (flow : Flow) (h : blocked (validate flow) ≡ false) where
  abbrev connected : Bool
  connected = not (is_nil flow.edges) && ltb 1 (length (keys_of (node_map flow)))

  parts :
      ((check_nodes [] flow.nodes).findings ≡ [])
      × ((edged flow).findings ≡ [])
      × (check_coverage connected (edged flow) (node_map flow) ≡ [])
      × (cycle_findings
            (node_map flow)
            (residual_cycle_nodes (keys_of (node_map flow)) (edged flow).linked)
          ≡ [])
  unfolding gathered
  parts =
      let clean = (unblocked-clean flow h).1 in
      let (abc, d) = append_nil _ _ clean in
      let (ab, c) = append_nil _ _ abc in let (a, b) = append_nil _ _ ab in (a, b, c, d)

  all_safe : AllSafe (node_map flow) no_edges flow.edges (edged flow)
  all_safe = check_edges-AllSafe (node_map flow) no_edges flow.edges parts.1

  -- Every node of a flow that passes validation has a name of its own, a known use and lane, no
  -- program named in its object, and no negative bound on its visits.
  pub validate-IsEntered : (n : Node) → In n flow.nodes → IsEntered (node_map flow) n
  validate-IsEntered n i = check_nodes-IsEntered [] flow.nodes n parts.0 i

  -- Every edge of a flow that passes validation joins two nodes under a condition that parses, asks
  -- for a verdict only of a verify node, and leads to an apply node neither on the verdict not_run
  -- nor by default from a verify node.
  pub validate-IsSafeEdge : (e : Edge) → In e flow.edges → IsSafeEdge (node_map flow) e
  validate-IsSafeEdge e i = all_safe.safe e i

pair_of :
    {k l : String} {c d : ParsedCondition}
    → k ≡ l
    → c ≡ d
    → ◌≡◌ {A = String × ParsedCondition} (k, c) (l, d)
pair_of {k} {d = d} p q = ap (λ x. (k, x)) q ∙ ap (λ x. (x, d)) p

conditions_of-In :
    (cs : List (String × ParsedCondition)) (id : String) (c : ParsedCondition)
    → In c (conditions_of cs id)
    → In (id, c) cs
unfolding conditions_of
conditions_of-In [] id c i = elim i [ ]
conditions_of-In ((from, d) ∷ cs) id c i = elim (Bool-cases (from == id)) [
  | inr t ↦ inr (conditions_of-In cs id c (rw t at i))
  | inl t ↦
      let j : (c ≡ d) ⊎ In c (conditions_of cs id) = rw t at i in
      elim j [
        | inl e ↦ inl (pair_of (sym ((eq_iff from id).0 t)) e)
        | inr k ↦ inr (conditions_of-In cs id c k)
      ]
]

In-conditions_of :
    (cs : List (String × ParsedCondition)) (id : String) (c : ParsedCondition)
    → In (id, c) cs
    → In c (conditions_of cs id)
unfolding conditions_of
In-conditions_of [] id c i = elim i [ ]
In-conditions_of ((from, d) ∷ cs) id c (inl e) =
    let same : (from == id) ≡ true = (eq_iff from id).1 (ap (λ x. x.0) (sym e)) in
    rw same (inl (ap (λ x. x.1) e))
In-conditions_of ((from, d) ∷ cs) id c (inr i) = elim (Bool-cases (from == id)) [
  | inl t ↦ rw t (inr (In-conditions_of cs id c i))
  | inr t ↦ rw t (In-conditions_of cs id c i)
]

find-In : (m : NodeMap) (key : String) (n : Node) → find m key ≡ some n → In (key, n) m
unfolding find
find-In [] key n h = absurd (ground arith)
find-In ((k, v) ∷ m) key n h = elim (Bool-cases (k == key)) [
  | inl t ↦
      let e : v ≡ n = ground arith in
      inl (ap (λ x. (key, x)) (sym e) ∙ ap (λ x. (x, v)) (sym ((eq_iff k key).0 t)))
  | inr t ↦ inr (find-In m key n (rw t at h))
]

coverage_nil :
    (b : Bool) (s : Edged) (m : NodeMap) (id : String) (n : Node)
    → check_coverage b s m ≡ []
    → In (id, n) m
    → verdict_findings s id n ≡ []
unfolding check_coverage coverage_findings
coverage_nil b s [] id n h i = elim i [ ]
coverage_nil b s ((k, x) ∷ m) id n h (inr i) =
    coverage_nil b s m id n (append_nil (coverage_findings b s k x) _ h).1 i
coverage_nil b s ((k, x) ∷ m) id n h (inl e) =
    let first = (append_nil (coverage_findings b s k x) _ h).0 in
    subst (λ (p : String × Node). verdict_findings s p.0 p.1 ≡ []) (sym e) (append_nil _ _ first).1

-- The condition lets a node run on the verdict.
abbrev pub Takes : ParsedCondition → String → Type 0
Takes c v = (c.is_default ≡ true) ⊎ ((c.field ≡ "verdict") × (c.value ≡ v))

uncovered_nil :
    (cs : List ParsedCondition) (v : String)
    → is_nil (uncovered cs) ≡ true
    → In v verify_verdicts
    → (c : ParsedCondition) × In c cs × Takes c v
unfolding uncovered
uncovered_nil cs v h i = elim (Bool-cases (any (λ c. c.is_default) cs)) [
  | inl t ↦ let (c, j, d) = any-In (λ c. c.is_default) cs t in (c, j, inl d)
  | inr t ↦ elim (Bool-cases (covers cs v)) [
    | inl k ↦
        let (c, j, d) = any-In (λ c. c.field == "verdict" && c.value == v) cs k in
        (c, j, inr (ground (arith, eq_iff c.field "verdict"), ground (arith, eq_iff c.value v)))
    | inr k ↦
        let missed = In-select (λ w. not (covers cs w)) v verify_verdicts i (ap not k) in
        absurd (not_nil _ missed (rw t at h))
  ]
]
  where
    not_nil : (l : List String) → In v l → ¬ (is_nil l ≡ true)
    not_nil [] j e = elim j [ ]
    not_nil (x ∷ l) j e = false≢true e

uncovered_at :
    (s : Edged) (id : String) (n : Node)
    → verdict_findings s id n ≡ []
    → n.uses ≡ "verify"
    → is_nil (conditions_of s.outgoing id) ≡ false
    → is_nil (uncovered (conditions_of s.outgoing id)) ≡ true
unfolding verdict_findings
uncovered_at s id n h u k =
    let uses = (eq_iff n.uses "verify").1 u in
    let shown : not (is_nil (uncovered (conditions_of s.outgoing id))) ≡ false =
      only_if_nil _ _ (rw (uses, k) at h) in
    ground arith

some_condition : (cs : List ParsedCondition) (c : ParsedCondition) → In c cs → is_nil cs ≡ false
some_condition [] c i = elim i [ ]
some_condition (x ∷ cs) c i = refl

-- In a flow that passes validation a verify node that some edge leaves is left, for each verdict of
-- the verify contract, by an edge whose condition is the default or that verdict.
pub validate_covers :
    (flow : Flow) (n : Node) (e : Edge) (v : String)
    → blocked (validate flow) ≡ false
    → In n flow.nodes
    → n.uses ≡ "verify"
    → In e flow.edges
    → trim_space e.from ≡ trim_space n.id
    → In v verify_verdicts
    → (c : ParsedCondition) × Leaves flow.edges (trim_space n.id) c × Takes c v
validate_covers flow n e v h i u j from k =
    let id = trim_space n.id in
    let s = edged flow in
    let entered = (validate-IsEntered flow h n i).entered in
    let none_found =
      coverage_nil (connected flow h) s (node_map flow) id (under_id n) (parts flow h).2
        (find-In (node_map flow) id (under_id n) entered) in
    let (c', noted) = (all_safe flow h).notes e j in
    let there =
      some_condition (conditions_of s.outgoing id) c'
        (In-conditions_of s.outgoing id c' (rw from at noted)) in
    let (c, l, t) =
      uncovered_nil (conditions_of s.outgoing id) v
        (uncovered_at s id (under_id n) none_found u there) k in
    elim ((all_safe flow h).only id c (conditions_of-In s.outgoing id c l)) [
      | inl z ↦ absurd z
      | inr leaves ↦ (c, leaves, t)
    ]

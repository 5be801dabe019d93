-- ===== src/Orchestration/Engine/Cleared.antt =====
-- Which results let an apply node run, in a flow that passed validation.
use jacu_harness.Base.{
  ◌≡◌, ◌≢◌, refl, sym, ap, ◌∙◌, subst, String, true, false, List, [], ◌∷◌, some, Result, ok, map,
  arith, eq_iff, ◌==◌, String-comparable, Bool-cases, inl, inr, In, select-In,
}
use jacu_harness.Base.Assoc.{find}
use jacu_harness.Base.Strings.{trim_space}
use jacu_harness.Orchestration.Flow.{Node, Edge, Flow}
use jacu_harness.Orchestration.Condition.{
  ParsedCondition, ConditionError, verify_verdicts, policy_values, parse_condition,
}
use jacu_harness.Orchestration.Condition.Closed.{
  IsCondition, by_default, on_verdict, on_policy, parse_condition-IsCondition,
}
use jacu_harness.Orchestration.Validation.{blocked, validate}
use jacu_harness.Orchestration.Validation.Nodes.{under_id}
use jacu_harness.Orchestration.Validation.Edging.{IsSafeEdge}
use jacu_harness.Orchestration.Validation.Admitted.{
  node_map, validate-IsEntered, validate-IsSafeEdge,
}
use jacu_harness.Orchestration.Edges.{NodeResult, edge_decision}
use jacu_harness.Orchestration.Edges.Taken.{
  Meets, by_verdict, by_policy, Reads, FirstMet, met, pending, passed_by, edge_decision_iff,
}
use jacu_harness.Orchestration.Resolve.{Output, Results}
use jacu_harness.Orchestration.Engine.{node_at, edges_to}

-- The result of the source of an edge, under the edge's condition, lets an apply node run: the
-- condition asks for the verdict of a verify node, which is one of the contract and not `not_run`, and
-- the result has it; it asks for a policy of the contract, and the result has it; or it is the
-- default, and the source is not a verify node.
pub data Clears (source : Node) (c : ParsedCondition) (r : NodeResult Output) : Type 0 where
  checked :
      c.field ≡ "verdict"
      → c.is_default ≡ false
      → source.uses ≡ "verify"
      → r.verdict ≡ c.value
      → In r.verdict ("pass" ∷ "fail" ∷ "timeout" ∷ "blocked" ∷ [])
      → Clears source c r
  allowed :
      c.field ≡ "policy"
      → c.is_default ≡ false
      → r.policy ≡ c.value
      → In r.policy ("pass" ∷ "require_approval" ∷ "blocked" ∷ "escalate" ∷ [])
      → Clears source c r
  not_checked : c.is_default ≡ true → source.uses ≢ "verify" → Clears source c r

-- An edge to the node whose source has a result that clears it under the edge's own condition.
pub record IsCleared (flow : Flow) (results : Results) (id : String) : Type 0 where
  pub edge : Edge
  pub listed : In edge flow.edges
  pub target : edge.to ≡ id
  pub source : Node
  pub source_found : find (node_map flow) (trim_space edge.from) ≡ some source
  pub result : NodeResult Output
  pub has_result : find results edge.from ≡ some result
  pub condition : ParsedCondition
  pub parsed : parse_condition edge.condition ≡ ok condition
  pub clears : Clears source condition result

record Met (results : Results) (es : List Edge) : Type 0 where
  pub edge : Edge
  pub listed : In edge es
  pub result : NodeResult Output
  pub condition : ParsedCondition
  pub reads : Reads results edge result condition
  pub meets : Meets result condition

FirstMet-Met : (results : Results) (es : List Edge) → FirstMet results es → Met results es
FirstMet-Met results [] m = elim m [ ]
FirstMet-Met results (e ∷ es) (met r c reads m) = record {
  edge = e;
  listed = inl refl;
  result = r;
  condition = c;
  reads = reads;
  meets = m;
}
FirstMet-Met results (e ∷ es) (pending q f) =
    let m = FirstMet-Met results es f in
    record {
      edge = m.edge;
      listed = inr m.listed;
      result = m.result;
      condition = m.condition;
      reads = m.reads;
      meets = m.meets;
    }
FirstMet-Met results (e ∷ es) (passed_by r c reads n f) =
    let m = FirstMet-Met results es f in
    record {
      edge = m.edge;
      listed = inr m.listed;
      result = m.result;
      condition = m.condition;
      reads = m.reads;
      meets = m.meets;
    }

node_at_other :
    (n : Node) (ns : List Node) (id : String)
    → (n.id == id) ≡ false
    → node_at (n ∷ ns) id ≡ node_at ns id
unfolding node_at
node_at_other n ns id t = rw t refl

-- The id of a node of the flow leads to a node of that id.
pub node_at-In :
    (ns : List Node) (id : String)
    → In id (map (λ (n : Node). n.id) ns)
    → In (node_at ns id) ns × ((node_at ns id).id ≡ id)
unfolding node_at
node_at-In [] id i = elim i [ ]
node_at-In (n ∷ ns) id i = elim (Bool-cases (n.id == id)) [
  | inl t ↦ rw t (inl refl, (eq_iff n.id id).0 t)
  | inr t ↦ elim i [
    | inl e ↦ absurd (ground (arith, eq_iff n.id id))
    | inr j ↦
        let (k, e) = node_at-In ns id j in
        subst (λ (m : Node). In m (n ∷ ns) × (m.id ≡ id)) (sym (node_at_other n ns id t)) (inr k, e)
  ]
]

some_inj : {a b : Node} → some a ≡ some b → a ≡ b
some_inj h = ground arith

ok_inj :
    {c d : ParsedCondition} → ◌≡◌ {A = Result ConditionError ParsedCondition} (ok c) (ok d) → c ≡ d
ok_inj h = ground arith

verdict_met :
    (r : NodeResult Output) (v : String)
    → Meets r (record { field = "verdict"; value = v; is_default = false })
    → r.verdict ≡ v
verdict_met r v (Meets.by_default d) = cc
verdict_met r v (by_verdict f e) = e
verdict_met r v (by_policy f e) = ground (arith, eq_iff "verdict" "policy")

policy_met :
    (r : NodeResult Output) (v : String)
    → Meets r (record { field = "policy"; value = v; is_default = false })
    → r.policy ≡ v
policy_met r v (Meets.by_default d) = cc
policy_met r v (by_policy f e) = e
policy_met r v (by_verdict f e) = ground (arith, eq_iff "policy" "verdict")

-- A verdict of the contract that is not `not_run`.
ran_verdict :
    (v : String)
    → In v verify_verdicts
    → v ≢ "not_run"
    → In v ("pass" ∷ "fail" ∷ "timeout" ∷ "blocked" ∷ [])
ran_verdict v (inl e) n = inl e
ran_verdict v (inr (inl e)) n = inr (inl e)
ran_verdict v (inr (inr (inl e))) n = inr (inr (inl e))
ran_verdict v (inr (inr (inr (inl e)))) n = inr (inr (inr (inl e)))
ran_verdict v (inr (inr (inr (inr (inl e))))) n = absurd (n e)
ran_verdict v (inr (inr (inr (inr (inr i))))) n = elim i [ ]

IsCondition-Clears :
    (source : Node) (r : NodeResult Output) (c : ParsedCondition)
    → IsCondition c
    → (¬ ((c.field ≡ "verdict") × (source.uses ≢ "verify")))
    → (¬ ((c.field ≡ "verdict") × (c.value ≡ "not_run")))
    → (¬ ((c.is_default ≡ true) × (source.uses ≡ "verify")))
    → Meets r c
    → Clears source c r
IsCondition-Clears source r c by_default asks ran unchecked m =
    not_checked refl (λ u. unchecked (refl, u))
IsCondition-Clears source r c (on_verdict v i) asks ran unchecked m =
    elim (Bool-cases (source.uses == "verify")) [
      | inr t ↦ absurd (asks (refl, λ u. ground (arith, eq_iff source.uses "verify")))
      | inl t ↦
          let e = verdict_met r v m in
          checked refl refl ((eq_iff source.uses "verify").0 t) e (
            subst (λ x. In x ("pass" ∷ "fail" ∷ "timeout" ∷ "blocked" ∷ [])) (sym e)
              (ran_verdict v i (λ q. ran (refl, q))))
    ]
IsCondition-Clears source r c (on_policy v i) asks ran unchecked m =
    let e = policy_met r v m in allowed refl refl e (subst (λ x. In x policy_values) (sym e) i)

Meets-Clears :
    (flow : Flow) (e : Edge) (s : IsSafeEdge (node_map flow) e) (r : NodeResult Output)
    → s.to_node.uses ≡ "apply"
    → Meets r s.condition
    → Clears s.from_node s.condition r
Meets-Clears flow e s r a m =
    IsCondition-Clears s.from_node r s.condition
      (parse_condition-IsCondition e.condition s.condition s.parsed).0 s.verdict_of_verify
      (λ (f, v). s.no_apply_unrun (f, v, a)) (λ (d, u). s.no_apply_by_default (d, u, a)) m

-- In a flow that passed validation, an apply node that edges lead to runs only if one of them, by its
-- source's result, clears it.
pub decision-IsCleared :
    (flow : Flow) (results : Results) (n : Node)
    → blocked (validate flow) ≡ false
    → In n flow.nodes
    → n.uses ≡ "apply"
    → edges_to flow.edges n.id ≢ []
    → (edge_decision results (edges_to flow.edges n.id)).1 ≡ true
    → IsCleared flow results n.id
unfolding edges_to
decision-IsCleared flow results n h i u some_edge d =
    elim ((edge_decision_iff results (edges_to flow.edges n.id)).0 d) [
      | inl z ↦ absurd (some_edge z)
      | inr f ↦
          let m = FirstMet-Met results (edges_to flow.edges n.id) f in
          let (listed, same) = select-In (λ e. e.to == n.id) m.edge flow.edges m.listed in
          let to_n : m.edge.to ≡ n.id = (eq_iff m.edge.to n.id).0 same in
          let s = validate-IsSafeEdge flow h m.edge listed in
          let e = validate-IsEntered flow h n i in
          let target : some s.to_node ≡ some (under_id n) =
            sym s.to_found ∙ ap (λ t. find (node_map flow) (trim_space t)) to_n ∙ e.entered in
          let to_apply = ap (λ (x : Node). x.uses) (some_inj target) ∙ u in
          let parsed : ok s.condition ≡ ok m.condition = sym s.parsed ∙ m.reads.parsed in
          record {
            edge = m.edge;
            listed = listed;
            target = to_n;
            source = s.from_node;
            source_found = s.from_found;
            result = m.result;
            has_result = m.reads.source;
            condition = s.condition;
            parsed = s.parsed;
            clears =
                Meets-Clears flow m.edge s m.result to_apply
                  (subst (Meets m.result) (sym (ok_inj parsed)) m.meets);
          }
    ]

-- ===== src/Orchestration/Edges/Taken.antt =====
-- An incoming edge lets a node run only on a result that meets its condition.
use jacu_harness.Base.{
  ◌≡◌, ◌⊎◌, inl, inr, refl, String, true, false, List, [], ◌∷◌, none, some, ok, arith, eq_iff,
  Option-cases, Result-cases, Bool-cases, ◌↔◌, String-comparable,
}
use mathlib.Core.Bool.{false≢true}
use jacu_harness.Base.Assoc.{find}
use jacu_harness.Orchestration.Flow.{Edge}
use jacu_harness.Orchestration.Condition.{ParsedCondition, parse_condition}
use jacu_harness.Orchestration.Edges.{
  NodeResult, condition_holds, decide_edge, decide_edges, edge_decision,
}

module _ {D : Type 0} where
  -- The result meets the condition.
  pub data Meets (r : NodeResult D) (c : ParsedCondition) : Type 0 where
    by_default : c.is_default ≡ true → Meets r c
    by_verdict : c.field ≡ "verdict" → r.verdict ≡ c.value → Meets r c
    by_policy : c.field ≡ "policy" → r.policy ≡ c.value → Meets r c

  -- The edge is read, as its condition, against the result of its source.
  pub record Reads (results : List (String × NodeResult D)) (e : Edge) (r : NodeResult D)
      (c : ParsedCondition) : Type 0 where
    pub source : find results e.from ≡ some r
    pub parsed : parse_condition e.condition ≡ ok c

  -- The first edge that is met: those before it have no result yet, or are read and not met.
  pub data FirstMet (results : List (String × NodeResult D)) : List Edge → Type 0 where
    met :
        {e : Edge} {es : List Edge} (r : NodeResult D) (c : ParsedCondition)
        → Reads results e r c
        → Meets r c
        → FirstMet results (e ∷ es)
    pending :
        {e : Edge} {es : List Edge}
        → find results e.from ≡ none
        → FirstMet results es
        → FirstMet results (e ∷ es)
    passed_by :
        {e : Edge} {es : List Edge} (r : NodeResult D) (c : ParsedCondition)
        → Reads results e r c
        → ¬ Meets r c
        → FirstMet results es
        → FirstMet results (e ∷ es)

  holds_tests :
      (c : ParsedCondition) (r : NodeResult D)
      → (condition_holds c r ≡ true) ↔ (
          (c.is_default ≡ true)
          ⊎ ((c.field ≡ "verdict") × (r.verdict ≡ c.value))
          ⊎ ((c.field ≡ "policy") × (r.policy ≡ c.value)))
  unfolding condition_holds
  holds_tests c r = ground (
    arith,
    eq_iff c.field "verdict",
    eq_iff c.field "policy",
    eq_iff r.verdict c.value,
    eq_iff r.policy c.value,
  )

  holds-Meets : (c : ParsedCondition) (r : NodeResult D) → condition_holds c r ≡ true → Meets r c
  holds-Meets c r h = elim ((holds_tests c r).0 h) [
    | inl d ↦ by_default d
    | inr (inl (f, v)) ↦ by_verdict f v
    | inr (inr (f, v)) ↦ by_policy f v
  ]

  Meets-holds : (c : ParsedCondition) (r : NodeResult D) → Meets r c → condition_holds c r ≡ true
  Meets-holds c r (by_default d) = (holds_tests c r).1 (inl d)
  Meets-holds c r (by_verdict f v) = (holds_tests c r).1 (inr (inl (f, v)))
  Meets-holds c r (by_policy f v) = (holds_tests c r).1 (inr (inr (f, v)))

  not_met : (c : ParsedCondition) (r : NodeResult D) → (¬ Meets r c) → condition_holds c r ≡ false
  not_met c r n = elim (Bool-cases (condition_holds c r)) [
    | inl t ↦ absurd (n (holds-Meets c r t))
    | inr t ↦ t
  ]

  decide-FirstMet :
      (results : List (String × NodeResult D)) (es : List Edge)
      → (decide_edges results es).1 ≡ true
      → FirstMet results es
  unfolding decide_edges decide_edge
  decide-FirstMet results [] h = absurd (false≢true h)
  decide-FirstMet results (e ∷ es) h = elim (Option-cases (find results e.from)) [
    | inl q ↦ pending q (decide-FirstMet results es (rw (q, decide_edges) at h))
    | inr (r, q) ↦ elim (Result-cases (parse_condition e.condition)) [
      | inr (x, p) ↦ absurd (ground arith)
      | inl (c, p) ↦ elim (Bool-cases (condition_holds c r)) [
        | inl t ↦ met r c (record { source = q; parsed = p }) (holds-Meets c r t)
        | inr t ↦
            passed_by r c (record { source = q; parsed = p })
              (λ m. ground (arith, Meets-holds c r m)) (decide-FirstMet results es (ground arith))
      ]
    ]
  ]

  FirstMet-decide :
      (results : List (String × NodeResult D)) (es : List Edge)
      → FirstMet results es
      → (decide_edges results es).1 ≡ true
  unfolding decide_edges decide_edge
  FirstMet-decide results [] m = elim m [ ]
  FirstMet-decide results (e ∷ es) (met r c reads m) =
      let q = reads.source in let p = reads.parsed in ground (arith, Meets-holds c r m)
  FirstMet-decide results (e ∷ es) (pending q f) =
      let rest = FirstMet-decide results es f in ground arith
  FirstMet-decide results (e ∷ es) (passed_by r c reads n f) =
      let q = reads.source in
      let p = reads.parsed in
      let rest = FirstMet-decide results es f in
      let unmet : condition_holds c r ≡ false = not_met c r n in ground arith

  -- A node may run exactly if no edge leads to it, or an edge does whose source has a result that
  -- meets its condition while every edge before it waits for its source or is read and not met: a
  -- condition that does not parse, once its source has a result, keeps the node from running.
  pub edge_decision_iff :
      (results : List (String × NodeResult D)) (es : List Edge)
      → ((edge_decision results es).1 ≡ true) ↔ ((es ≡ []) ⊎ FirstMet results es)
  unfolding edge_decision
  edge_decision_iff results [] = (λ _. inl refl, λ _. refl)
  edge_decision_iff results (e ∷ es) = (λ h. inr (decide-FirstMet results (e ∷ es) h), from_first)
    where
      from_first :
          ((e ∷ es) ≡ []) ⊎ FirstMet results (e ∷ es) → (decide_edges results (e ∷ es)).1 ≡ true
      from_first (inl n) = absurd (ground arith)
      from_first (inr f) = FirstMet-decide results (e ∷ es) f

-- ===== src/Orchestration/Validation/Levels.antt =====
-- Every finding blocks, so that a flow which is not blocked has none.
use jacu_harness.Base.{
  ◌≡◌, refl, subst, String, Bool, true, false, not, ◌||◌, List, [], ◌∷◌, ◌++◌, Option, none, some,
  Result, ok, err, arith, eq_iff, ◌==◌, String-comparable, Bool-cases, inl, inr, All, All-In,
  All-of_In, In,
}
use jacu_harness.Base.Sort.{sort, sort-In, In-sort}
use jacu_harness.Orchestration.Flow.{Node, Edge, Flow}
use jacu_harness.Orchestration.Condition.{ParsedCondition, ConditionError, parse_condition}
use jacu_harness.Orchestration.Validation.{
  Finding, blocked, NodeMap, only_if, node_findings, check_node, check_nodes, Edged,
  condition_findings, read_condition, check_ends, join_ends, check_edges, coverage_findings,
  verdict_findings, check_coverage, cycle_findings, gathered, validate, trimmed, no_edges,
  finding_before, is_nil, found, conditions_of, blocks,
}
use jacu_harness.Base.Strings.{is_empty, trim_space}
use jacu_harness.Base.Assoc.{find}

abbrev IsBlock : Finding → Type 0
IsBlock f = f.level ≡ "BLOCK"

pub record AllBlock (fs : List Finding) : Type 0 where
  pub each : All IsBlock fs

None-AllBlock : AllBlock []
None-AllBlock = record { each = tt }

one-AllBlock : {f : Finding} → IsBlock f → AllBlock (f ∷ [])
one-AllBlock h = record { each = (h, tt) }

All-append : (xs ys : List Finding) → All IsBlock xs → All IsBlock ys → All IsBlock (xs ++ ys)
All-append [] ys a b = b
All-append (x ∷ xs) ys a b = (a.0, All-append xs ys a.1 b)

append-AllBlock : {xs ys : List Finding} → AllBlock xs → AllBlock ys → AllBlock (xs ++ ys)
append-AllBlock {xs} {ys} a b = record { each = All-append xs ys a.each b.each }

only_if-AllBlock : (b : Bool) (f : Finding) → IsBlock f → AllBlock (only_if b f)
unfolding only_if
only_if-AllBlock true f h = one-AllBlock h
only_if-AllBlock false f h = None-AllBlock

node_findings-AllBlock : (id : String) (n : Node) → AllBlock (node_findings id n)
unfolding node_findings
node_findings-AllBlock id n =
    append-AllBlock
      (append-AllBlock (append-AllBlock (only_if-AllBlock _ _ refl) (only_if-AllBlock _ _ refl))
        (only_if-AllBlock _ _ refl))
      (only_if-AllBlock _ _ refl)

check_node-AllBlock : (m : NodeMap) (n : Node) → AllBlock (check_node m n).findings
unfolding check_node
check_node-AllBlock m n = elim (Bool-cases (is_empty (trim_space n.id))) [
  | inl e ↦ rw e (one-AllBlock refl)
  | inr e ↦ elim (Bool-cases (found (find m (trim_space n.id)))) [
    | inl k ↦ rw (e, k) (one-AllBlock refl)
    | inr k ↦ rw (e, k) (node_findings-AllBlock (trim_space n.id) n)
  ]
]

check_nodes-AllBlock : (m : NodeMap) (ns : List Node) → AllBlock (check_nodes m ns).findings
unfolding check_nodes
check_nodes-AllBlock m [] = None-AllBlock
check_nodes-AllBlock m (n ∷ ns) =
    append-AllBlock (check_node-AllBlock m n) (check_nodes-AllBlock (check_node m n).nodes ns)

condition_findings-AllBlock :
    (from to : String) (a b : Node) (c : ParsedCondition)
    → AllBlock (condition_findings from to a b c)
unfolding condition_findings
condition_findings-AllBlock from to a b c =
    append-AllBlock (append-AllBlock (only_if-AllBlock _ _ refl) (only_if-AllBlock _ _ refl))
      (only_if-AllBlock _ _ refl)

join_ends_findings : (s : Edged) (e : Edge) → (join_ends s e).findings ≡ s.findings
unfolding join_ends
join_ends_findings s e = ground arith

read_condition-AllBlock :
    (s : Edged) (from to : String) (a b : Node) (r : Result ConditionError ParsedCondition)
    → AllBlock s.findings
    → AllBlock (read_condition s from to a b r).findings
unfolding read_condition
read_condition-AllBlock s from to a b (err e) h = append-AllBlock h (one-AllBlock refl)
read_condition-AllBlock s from to a b (ok c) h =
    append-AllBlock h (condition_findings-AllBlock from to a b c)

check_ends-AllBlock :
    (s : Edged) (e : Edge) (a b : Option Node)
    → AllBlock s.findings
    → AllBlock (check_ends s e a b).findings
unfolding check_ends
check_ends-AllBlock s e (some a) (some b) h =
    read_condition-AllBlock (join_ends s e) e.from e.to a b (parse_condition e.condition)
      (rw (join_ends_findings s e) h)
check_ends-AllBlock s e none b h = append-AllBlock h (one-AllBlock refl)
check_ends-AllBlock s e (some a) none h = append-AllBlock h (one-AllBlock refl)

check_edges-AllBlock :
    (m : NodeMap) (s : Edged) (es : List Edge)
    → AllBlock s.findings
    → AllBlock (check_edges m s es).findings
unfolding check_edges
check_edges-AllBlock m s [] h = h
check_edges-AllBlock m s (e ∷ es) h =
    check_edges-AllBlock m
      (check_ends s (trimmed e) (find m (trimmed e).from) (find m (trimmed e).to)) es
      (check_ends-AllBlock s (trimmed e) (find m (trimmed e).from) (find m (trimmed e).to) h)

verdict_findings-AllBlock :
    (s : Edged) (id : String) (n : Node) → AllBlock (verdict_findings s id n)
unfolding verdict_findings
verdict_findings-AllBlock s id n =
    elim (Bool-cases (not (n.uses == "verify") || is_nil (conditions_of s.outgoing id))) [
      | inl t ↦ rw t None-AllBlock
      | inr t ↦ rw t (only_if-AllBlock _ _ refl)
    ]

coverage_findings-AllBlock :
    (c : Bool) (s : Edged) (id : String) (n : Node) → AllBlock (coverage_findings c s id n)
unfolding coverage_findings
coverage_findings-AllBlock c s id n =
    append-AllBlock (only_if-AllBlock _ _ refl) (verdict_findings-AllBlock s id n)

check_coverage-AllBlock : (c : Bool) (s : Edged) (m : NodeMap) → AllBlock (check_coverage c s m)
unfolding check_coverage
check_coverage-AllBlock c s [] = None-AllBlock
check_coverage-AllBlock c s ((id, n) ∷ m) =
    append-AllBlock (coverage_findings-AllBlock c s id n) (check_coverage-AllBlock c s m)

gathered-AllBlock : (flow : Flow) → AllBlock (gathered flow)
unfolding gathered cycle_findings
gathered-AllBlock flow =
    let c = check_nodes [] flow.nodes in
    let s = check_edges c.nodes no_edges flow.edges in
    append-AllBlock
      (append-AllBlock
        (append-AllBlock (check_nodes-AllBlock [] flow.nodes)
          (check_edges-AllBlock c.nodes no_edges flow.edges None-AllBlock))
        (check_coverage-AllBlock _ s c.nodes))
      (only_if-AllBlock _ _ refl)

unblocked_nil : (fs : List Finding) → All IsBlock fs → blocked fs ≡ false → fs ≡ []
unfolding blocked
unblocked_nil [] a h = refl
unblocked_nil (f ∷ fs) a h = absurd (ground (arith, eq_iff f.level "BLOCK"))

sorted_nil : (fs : List Finding) → sort finding_before fs ≡ [] → fs ≡ []
sorted_nil [] h = refl
sorted_nil (f ∷ fs) h = absurd (subst (In f) h (In-sort finding_before f (f ∷ fs) (inl refl)))

-- A flow that is not blocked has nodes, and no check found anything.
pub unblocked-clean :
    (flow : Flow)
    → blocked (validate flow) ≡ false
    → (is_nil flow.nodes ≡ false) × (gathered flow ≡ [])
unfolding validate
unblocked-clean flow h = elim (Bool-cases (is_nil flow.nodes)) [
  | inl e ↦
      let alone =
        one-AllBlock {f = blocks "empty_flow" "flow must contain at least one node" "" "flow.nodes"}
          refl in
      absurd (nil_not (unblocked_nil _ alone.each (rw e at h)))
  | inr e ↦ (
    e,
    sorted_nil (gathered flow) (
        unblocked_nil (sort finding_before (gathered flow))
          (All-of_In IsBlock (sort finding_before (gathered flow)) λ f m.
            All-In IsBlock (gathered flow) (gathered-AllBlock flow).each
              (sort-In finding_before f (gathered flow) m))
          (rw e at h)),
  )
]
  where
    nil_not : {f : Finding} {fs : List Finding} → ¬ ((f ∷ fs) ≡ [])
    nil_not h = ground arith

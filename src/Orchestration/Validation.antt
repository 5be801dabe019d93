-- ===== src/Orchestration/Validation.antt =====
-- `Validate` of graph.go: the lint of a flow at its submission.
pub mod Levels
pub mod Nodes
pub mod Edging
pub mod Admitted
mod Tests
use jacu_harness.Base.{
  ℕ, suc, ◌+◌, String, Bool, true, false, not, ◌&&◌, ◌||◌, List, [], ◌∷◌, ◌++◌, Option, none, some,
  Result, ok, err, if◌then◌else◌, ◌==◌, ℕ-comparable, String-comparable, ltb, contains, select, any,
  length, map,
}
use Prim.Native.String.{◌++◌ as str_append}
use jacu_harness.Base.Assoc.{find}
use jacu_harness.Base.Int.{ℤ, pos, ltb_ℤ}
use jacu_harness.Base.Sort.{sort}
use jacu_harness.Base.Strings.{str_lt, trim_space, is_empty}
use jacu_harness.Orchestration.Flow.{Node, Edge, Flow, Fields, no_fields, field}
use jacu_harness.Orchestration.Condition.{
  ParsedCondition, ConditionError, not_closed, unknown_field, unknown_verdict, unknown_policy,
  parse_condition, verify_verdicts,
}
use jacu_harness.Orchestration.Schedule.{
  Link, has_link, Linked, link_edge, Sorting, rounds, starting, raised,
}

pub record Finding : Type 0 where
  pub level : String
  pub rule : String
  pub message : String
  pub node_id : String
  pub field : String

abbrev pub blocks : String → String → String → String → Finding
blocks rule message node_id place = record {
  level = "BLOCK";
  rule = rule;
  message = message;
  node_id = node_id;
  field = place;
}

-- `Validation.Blocked`
unfoldable pub blocked : List Finding → Bool
blocked fs = any (λ f. f.level == "BLOCK") fs

-- the map `nodes`: each trimmed id with its first node
abbrev pub NodeMap : Type 0
NodeMap = List (String × Node)

-- `knownUses`
abbrev pub known_uses : List String
known_uses = "mission" ∷ "workspace" ∷ "verify" ∷ "review" ∷ "apply" ∷ []

unfoldable pub valid_lane : String → Bool
valid_lane lane = lane == "cheap" || (lane == "medium" || (lane == "planner" || lane == "premium"))

unfoldable pub has_key : Fields → String → Bool
has_key no_fields key = false
has_key (field k v fs) key = k == key || has_key fs key

unfoldable pub named_cli : Node → Bool
unfolding has_key
named_cli node = any (has_key node.with_fields) ("cli" ∷ "binary" ∷ "command" ∷ "executable" ∷ [])

abbrev pub found : Option Node → Bool
found none = false
found (some node) = true

unfoldable pub only_if : Bool → Finding → List Finding
only_if b f = if b then f ∷ [] else []

-- the checks on one node under its id
unfoldable pub node_findings : String → Node → List Finding
node_findings id node =
    only_if (not (contains known_uses node.uses))
      (blocks "unknown_capability" "flow node uses an unknown capability" id "uses")
    ++ only_if (named_cli node)
        (blocks "named_cli" "flow node must declare lane, not a CLI binary" id "lane")
    ++ only_if (not (is_empty node.lane) && not (valid_lane node.lane))
        (blocks "unknown_lane" "flow node lane is not a host profile" id "lane")
    ++ only_if (ltb_ℤ node.max_visits (pos 0))
        (blocks "invalid_max_visits" "max_visits must not be negative" id "")

pub record Checked : Type 0 where
  pub nodes : NodeMap
  pub findings : List Finding

-- the body of the loop over the nodes
unfoldable pub check_node : NodeMap → Node → Checked
check_node nodes node =
    let id = trim_space node.id in
    if is_empty id
    then record {
      nodes = nodes;
      findings = blocks "empty_node_id" "node id is required" "" "flow.nodes.id" ∷ [];
    }
    else if found (find nodes id)
    then record {
      nodes = nodes;
      findings = blocks "duplicate_node_id" "node id is duplicated" id "" ∷ [];
    }
    else record {
      nodes = nodes ++ (id, record node { id = id }) ∷ [];
      findings = node_findings id node;
    }

unfoldable pub check_nodes : NodeMap → List Node → Checked
unfolding check_node
check_nodes nodes [] = record { nodes = nodes; findings = [] }
check_nodes nodes (n ∷ ns) =
    let here = check_node nodes n in
    let rest = check_nodes here.nodes ns in
    record rest { findings = here.findings ++ rest.findings }

-- `outgoing`: the conditions of the edges, by their source. `degree` counts the ends of links.
pub record Edged : Type 0 where
  pub linked : Linked
  pub degree : String → ℕ
  pub outgoing : List (String × ParsedCondition)
  pub findings : List Finding

pub condition_message : ConditionError → String
condition_message not_closed = "condition must be a closed equality or default"
condition_message unknown_field = "condition field must be verdict or policy"
condition_message unknown_verdict = "condition verdict is outside the verify contract"
condition_message unknown_policy = "condition policy is outside the policy contract"

-- the checks on an edge whose condition is read
unfoldable pub condition_findings : String → String → Node → Node → ParsedCondition → List Finding
condition_findings from to from_node to_node c =
    only_if (c.field == "verdict" && not (from_node.uses == "verify"))
      (blocks "verdict_source_not_verify" "verdict conditions require a verify node" from "")
    ++ only_if (c.field == "verdict" && (c.value == "not_run" && to_node.uses == "apply"))
        (blocks "not_run_apply" "not_run must never route to apply" to "")
    ++ only_if (c.is_default && (from_node.uses == "verify" && to_node.uses == "apply"))
        (blocks "default_apply" "verify default edge must not route to apply" to "")

-- the part of the body that reads the condition
unfoldable pub read_condition :
    Edged → String → String → Node → Node → Result ConditionError ParsedCondition → Edged
unfolding condition_findings
read_condition s from to from_node to_node (err e) = record s {
  findings =
      s.findings ++ blocks "invalid_condition" (condition_message e) "" "flow.edges.when" ∷ [];
}
read_condition s from to from_node to_node (ok c) = record s {
  findings = s.findings ++ condition_findings from to from_node to_node c;
  outgoing = s.outgoing ++ (from, c) ∷ [];
}

-- `seenEdges`, `adj`, `indegree` and `degree`
unfoldable pub join_ends : Edged → Edge → Edged
join_ends s e =
    if has_link s.linked.links e.from e.to
    then s
    else record s { linked = link_edge s.linked e; degree = raised (raised s.degree e.from) e.to }

-- the body of the loop over the edges, with the nodes at both ends
unfoldable pub check_ends : Edged → Edge → Option Node → Option Node → Edged
unfolding join_ends read_condition
check_ends s e (some from_node) (some to_node) =
    read_condition (join_ends s e) e.from e.to from_node to_node (parse_condition e.condition)
check_ends s e from_node to_node = record s {
  findings =
      s.findings
      ++ blocks "dangling_edge" "edge must reference existing nodes" "" "flow.edges" ∷ [];
}

abbrev pub trimmed : Edge → Edge
trimmed e = record e { from = trim_space e.from; to = trim_space e.to }

unfoldable pub check_edges : NodeMap → Edged → List Edge → Edged
unfolding check_ends
check_edges nodes s [] = s
check_edges nodes s (e ∷ es) =
    let t = trimmed e in check_edges nodes (check_ends s t (find nodes t.from) (find nodes t.to)) es

-- `outgoing[id]`
unfoldable pub conditions_of : List (String × ParsedCondition) → String → List ParsedCondition
conditions_of [] id = []
conditions_of ((from, c) ∷ cs) id =
    let rest = conditions_of cs id in if from == id then c ∷ rest else rest

abbrev pub covers : List ParsedCondition → String → Bool
covers cs verdict = any (λ c. c.field == "verdict" && c.value == verdict) cs

-- `strings.Join(missing, ", ")`
abbrev pub join_comma : List String → String
join_comma [] = ""
join_comma (x ∷ []) = x
join_comma (x ∷ y ∷ l) = str_append x (str_append ", " (join_comma (y ∷ l)))

abbrev pub is_nil : {A : Type 0} → List A → Bool
is_nil [] = true
is_nil (x ∷ xs) = false

-- what the conditions of a verify node leave open
unfoldable pub uncovered : List ParsedCondition → List String
uncovered cs =
    if any (λ c. c.is_default) cs then [] else select (λ v. not (covers cs v)) verify_verdicts

-- the part of the body that is about verify nodes
unfoldable pub verdict_findings : Edged → String → Node → List Finding
verdict_findings s id node =
    if not (node.uses == "verify") || is_nil (conditions_of s.outgoing id)
    then []
    else only_if (not (is_nil (uncovered (conditions_of s.outgoing id)))) (
        blocks "incomplete_verdict_edges"
          (str_append "verify edges must cover: "
            (join_comma (uncovered (conditions_of s.outgoing id))))
          id "")

-- the body of the loop over the map of nodes
unfoldable pub coverage_findings : Bool → Edged → String → Node → List Finding
unfolding verdict_findings
coverage_findings connected s id node =
    only_if (connected && s.degree id == 0)
      (blocks "orphan_node" "node is disconnected from the flow" id "")
    ++ verdict_findings s id node

unfoldable pub check_coverage : Bool → Edged → NodeMap → List Finding
unfolding coverage_findings
check_coverage connected s [] = []
check_coverage connected s ((id, node) ∷ nodes) =
    coverage_findings connected s id node ++ check_coverage connected s nodes

unfoldable pub keys_of : NodeMap → List String
keys_of [] = []
keys_of ((id, node) ∷ nodes) = id ∷ keys_of nodes

-- `residualCycleNodes`. It releases the successors of a node in the order of the edges, `rounds` in
-- the order of their ids; the ready nodes are sorted before each round, so that it is the same.
unfoldable pub residual_cycle_nodes : List String → Linked → List String
residual_cycle_nodes ids g =
    let s = rounds (length ids) g.links (starting ids g) in
    sort str_lt (select (λ id. ltb 0 (s.degree id)) ids)

abbrev pub visits_bounded : Option Node → Bool
visits_bounded none = false
visits_bounded (some node) = ltb_ℤ (pos 0) node.max_visits

unfoldable pub cycle_findings : NodeMap → List String → List Finding
cycle_findings nodes cycle_nodes =
    only_if
      (not (is_nil cycle_nodes) && not (any (λ id. visits_bounded (find nodes id)) cycle_nodes))
      (blocks "unbounded_cycle" "cycle requires max_visits" "" "flow.nodes.max_visits")

unfoldable pub finding_before : Finding → Finding → Bool
finding_before a b =
    if not (a.rule == b.rule) then str_lt a.rule b.rule else str_lt a.node_id b.node_id

abbrev pub no_edges : Edged
no_edges = record {
  linked = record { links = []; indegree = λ x. 0 };
  degree = λ x. 0;
  outgoing = [];
  findings = [];
}

-- the findings in the order in which they are made
unfoldable pub gathered : Flow → List Finding
unfolding check_nodes check_edges check_coverage cycle_findings
gathered flow =
    let c = check_nodes [] flow.nodes in
    let s = check_edges c.nodes no_edges flow.edges in
    c.findings
    ++ s.findings
    ++ check_coverage (not (is_nil flow.edges) && ltb 1 (length (keys_of c.nodes))) s c.nodes
    ++ cycle_findings c.nodes (residual_cycle_nodes (keys_of c.nodes) s.linked)

unfoldable pub validate : Flow → List Finding
validate flow =
    if is_nil flow.nodes
    then blocks "empty_flow" "flow must contain at least one node" "" "flow.nodes" ∷ []
    else sort finding_before (gathered flow)

-- ===== src/Orchestration/Condition.antt =====
-- `parseCondition` of graph.go: the closed language of edge conditions.
pub mod Closed
use Prim.Native.Char.{code}
use jacu_harness.Base.{
  String, Bool, true, false, not, ◌&&◌, ◌||◌, List, [], ◌∷◌, Result, ok, err, if◌then◌else◌, ◌==◌,
  String-comparable, contains, select,
}
use jacu_harness.Base.Paths.{onto_head}
use jacu_harness.Base.Strings.{is_space, trim_space, is_empty}

-- `parsedCondition`: `default`, or the field and its value.
pub record ParsedCondition : Type 0 where
  pub field : String
  pub value : String
  pub is_default : Bool

pub data ConditionError : Type 0 where
  not_closed unknown_field unknown_verdict unknown_policy : ConditionError

-- `verifyVerdicts`
abbrev pub verify_verdicts : List String
verify_verdicts = "pass" ∷ "fail" ∷ "timeout" ∷ "blocked" ∷ "not_run" ∷ []

-- the keys of `allowed`
abbrev pub policy_values : List String
policy_values = "pass" ∷ "require_approval" ∷ "blocked" ∷ "escalate" ∷ []

-- the pieces between white space
split_spaces : String → List String
split_spaces String.[] = "" ∷ []
split_spaces (String.◌∷◌ c s) =
    let rest = split_spaces s in
    if is_space (code c) then "" ∷ rest else onto_head (String.◌∷◌ c "") rest

-- `strings.Fields`
unfoldable pub fields : String → List String
unfolding split_spaces
fields s = select (λ w. not (is_empty w)) (split_spaces s)

-- `parseCondition` behind the test for `default`
pub parse_parts : List String → Result ConditionError ParsedCondition
parse_parts (field ∷ operator ∷ value ∷ []) =
    if not (operator == "==")
    then err not_closed
    else if not (field == "verdict") && not (field == "policy")
    then err unknown_field
    else if field == "verdict" && not (contains verify_verdicts value)
    then err unknown_verdict
    else if field == "policy" && not (contains policy_values value)
    then err unknown_policy
    else ok (record { field = field; value = value; is_default = false })
parse_parts parts = err not_closed

unfoldable pub parse_condition : String → Result ConditionError ParsedCondition
unfolding parse_parts
parse_condition raw =
    let raw' = trim_space raw in
    if raw' == "default"
    then ok (record { field = ""; value = ""; is_default = true })
    else parse_parts (fields raw')

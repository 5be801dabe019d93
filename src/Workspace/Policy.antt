-- ===== src/Workspace/Policy.antt =====
-- policy.go: the autonomy policy, its validation and its verdict on an automatic apply.
pub mod Verdict
pub mod Valid
use jacu_harness.Base.{
  ℕ, String, Bool, true, false, not, ◌&&◌, ◌||◌, List, [], ◌∷◌, Result, ok, err, ltb, if◌then◌else◌,
  ◌==◌, String-comparable, ℕ-comparable, contains, ◌>>=◌, ◌>>◌, refuse,
}
use jacu_harness.Base.Int.{ℤ, pos, ltb_ℤ}

pub record AutonomyPolicy : Type 0 where
  pub require : List String
  pub risk_max : String
  pub max_iterations : ℤ
  pub on_violation : String

pub data Reason : Type 0 where
  verify_not_pass receipt_invalid risk_exceeds risk_unknown budget_exhausted satisfied : Reason

pub record PolicyDecision : Type 0 where
  pub allowed : Bool
  pub escalate : Bool
  pub reason : Reason

pub data PolicyError : Type 0 where
  require_empty : PolicyError
  unknown_requirement duplicate_requirement : String → PolicyError
  require_incomplete : PolicyError
  invalid_risk_max : String → PolicyError
  max_iterations_not_positive : PolicyError
  invalid_on_violation : String → PolicyError

-- `validPolicyRequirements`
pub known_requirement : String → Bool
known_requirement r = r == "verify_pass" || (r == "cross_review" || r == "risk_tier")

-- `riskRank`; a read of a missing key gives 0.
unfoldable pub risk_rank : String → ℕ
risk_rank risk = if risk == "write" then 1 else if risk == "destructive" then 2 else 0

-- The loop of `validateAutonomyPolicy` over the requirements, with those seen.
unfoldable pub check_requirements : List String → List String → Result PolicyError (List String)
unfolding known_requirement
check_requirements seen [] = ok seen
check_requirements seen (r ∷ rs) =
    let rest = check_requirements (r ∷ seen) rs in
    if not (known_requirement r)
    then err (unknown_requirement r)
    else if contains seen r
    then err (duplicate_requirement r)
    else rest

abbrev pub is_nil : List String → Bool
is_nil [] = true
is_nil (x ∷ xs) = false

-- the checks behind the loop
unfoldable pub check_policy : AutonomyPolicy → List String → Result PolicyError AutonomyPolicy
unfolding risk_rank
check_policy policy seen =
    if not (contains seen "verify_pass") || not (contains seen "cross_review")
    then err require_incomplete
    else if risk_rank policy.risk_max == 0 && not (policy.risk_max == "safe")
    then err (invalid_risk_max policy.risk_max)
    else if not (ltb_ℤ (pos 0) policy.max_iterations)
    then err max_iterations_not_positive
    else if not (policy.on_violation == "block") && not (policy.on_violation == "escalate")
    then err (invalid_on_violation policy.on_violation)
    else ok policy

unfoldable pub validate_autonomy_policy : AutonomyPolicy → Result PolicyError AutonomyPolicy
unfolding check_requirements check_policy
validate_autonomy_policy policy = do
  refuse (is_nil policy.require) require_empty
  seen ← check_requirements [] policy.require
  check_policy policy seen

-- the closure `violate`
unfoldable pub violate : AutonomyPolicy → Reason → PolicyDecision
violate policy reason = record {
  allowed = false;
  escalate = policy.on_violation == "escalate";
  reason = reason;
}

unfoldable pub evaluate_auto_apply_policy :
    AutonomyPolicy → String → String → Bool → ℤ → PolicyDecision
unfolding violate risk_rank known_requirement
evaluate_auto_apply_policy policy verdict risk receipt_valid iteration =
    if not (known_requirement "verify_pass") || not (verdict == "pass")
    then violate policy verify_not_pass
    else if not receipt_valid
    then violate policy receipt_invalid
    else if ltb (risk_rank policy.risk_max) (risk_rank risk)
    then violate policy risk_exceeds
    else if (risk_rank risk == 0 && not (risk == "safe"))
        || (risk_rank policy.risk_max == 0 && not (policy.risk_max == "safe"))
    then violate policy risk_unknown
    else if not (ltb_ℤ (pos 0) iteration) || ltb_ℤ policy.max_iterations iteration
    then violate policy budget_exhausted
    else record { allowed = true; escalate = false; reason = satisfied }

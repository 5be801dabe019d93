-- ===== src/ModelControl/Escalation.antt =====
-- internal/modelcontrol/resilience.go: the escalation policy.
pub mod Ladder
use jacu_harness.Base.{
  ℕ, ◌+◌, String, Bool, true, false, ◌||◌, List, [], ◌∷◌, Option, none, some, ltb, leb, length,
  get_elem?, if◌then◌else◌, ◌==◌, ℕ-comparable, String-comparable,
}
use jacu_harness.Base.Strings.{trim_space}

pub record TierTarget : Type 0 where
  pub lane : String
  pub profile_id : String

-- `max_attempts` is a `uint8`.
pub record EscalationPolicy : Type 0 where
  pub max_attempts : ℕ
  pub tiers : List TierTarget
  pub on_exhaust : String

pub data PolicyError : Type 0 where
  bad_max_attempts no_tiers empty_profile_id : PolicyError

pub data Escalation : Type 0 where
  retry : TierTarget → Escalation
  exhausted : String → String → Escalation

-- the loop over the tiers
pub check_tiers : List TierTarget → Option PolicyError
check_tiers [] = none
check_tiers (t ∷ ts) =
    let rest = check_tiers ts in
    if trim_space t.profile_id == "" then some empty_profile_id else rest

unfoldable pub validate_policy : EscalationPolicy → Option PolicyError
unfolding check_tiers
validate_policy p =
    if ltb p.max_attempts 1 || ltb 5 p.max_attempts
    then some bad_max_attempts
    else if length p.tiers == 0
    then some no_tiers
    else check_tiers p.tiers

unfoldable pub reason_for_exhaustion : String → ℕ → ℕ → String
reason_for_exhaustion failure attempt max_attempts =
    if failure == "budget_exceeded"
    then "budget_exceeded"
    else if leb max_attempts attempt
    then "attempts_exhausted"
    else "fail_closed"

-- `Next`. The read `policy.Tiers[attempt]` panics out of range, which is `none` here.
unfoldable pub next_escalation : EscalationPolicy → ℕ → String → Option Escalation
unfolding reason_for_exhaustion
next_escalation p attempt failure =
    if failure == "budget_exceeded"
      || (attempt == 0 || (leb p.max_attempts attempt || leb (length p.tiers) attempt))
    then some (exhausted p.on_exhaust (reason_for_exhaustion failure attempt p.max_attempts))
    else elim (get_elem? p.tiers attempt) [ none ↦ none | some t ↦ some (retry t) ]

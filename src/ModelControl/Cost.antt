-- ===== src/ModelControl/Cost.antt =====
-- internal/modelcontrol/cost.go: cost traces and the budget ledger of a mission. `uint64` values are
-- numbers below 2 ^ 64, with the wrap-around written out where the code adds or multiplies.
pub mod Budget
pub mod Traces
use jacu_harness.Base.{
  ℕ, ◌+◌, ◌-◌, ◌*◌, ◌/◌, ◌%◌, ◌^◌, String, Bool, true, false, not, ◌&&◌, ◌||◌, ltb, leb,
  if◌then◌else◌, ◌==◌, String-comparable, Option, none, some,
}

pub record CostTrace : Type 0 where
  pub profile_id : String
  pub baseline_profile_id : String
  pub billing_mode : String
  pub cost_source : String
  pub input_tokens : ℕ
  pub output_tokens : ℕ
  pub duration_ms : ℕ
  pub cost_units : ℕ
  pub savings_units : ℕ
  pub cache_hit : Bool

-- the errors of `CostTrace.Validate`, in the order of its tests
pub data TraceError : Type 0 where
  profile_required bad_billing_mode bad_cost_source subscription_cost api_dollars : TraceError

-- `CostTrace.Validate`; `none` is a nil error
unfoldable pub validate_trace : CostTrace → Option TraceError
validate_trace t =
    if t.profile_id == ""
    then some profile_required
    else if not (t.billing_mode == "subscription") && not (t.billing_mode == "local")
    then some bad_billing_mode
    else if not (t.cost_source == "none")
        && (not (t.cost_source == "local_units") && not (t.cost_source == "api_dollars"))
    then some bad_cost_source
    else if t.billing_mode == "subscription"
        && (t.cost_source == "api_dollars" || (ltb 0 t.cost_units || ltb 0 t.savings_units))
    then some subscription_cost
    else if t.cost_source == "api_dollars"
    then some api_dollars
    else none

abbrev pub max_u64 : ℕ
max_u64 = 2 ^ 64 - 1

abbrev pub units_per_cent : ℕ
units_per_cent = 1000000

pub record MissionLedger : Type 0 where
  pub ceiling : ℕ
  pub spent : ℕ
  pub saved : ℕ

unfoldable pub new_mission_ledger : ℕ → MissionLedger
new_mission_ledger budget_cents = record {
  ceiling =
      if ltb (max_u64 / units_per_cent) budget_cents
      then max_u64
      else (budget_cents * units_per_cent) % 2 ^ 64;
  spent = 0;
  saved = 0;
}

-- `math.MaxUint64 - left` does not wrap, since `left` is a `uint64`.
unfoldable pub saturating_add : ℕ → ℕ → ℕ
saturating_add left right = if ltb (max_u64 - left) right then max_u64 else (left + right) % 2 ^ 64

unfoldable pub min_u64 : ℕ → ℕ → ℕ
min_u64 left right = if ltb left right then left else right

-- The subtrahend is at most `ceiling`, so `-` is exact.
unfoldable pub remaining : MissionLedger → ℕ
unfolding min_u64
remaining l = l.ceiling - min_u64 l.spent l.ceiling

-- `CanAdmit` of a pointer that may be nil
unfoldable pub can_admit : Option MissionLedger → ℕ → Bool
unfolding remaining
can_admit none projected = false
can_admit (some l) projected = leb projected (remaining l)

-- `Absorb` changes nothing at a nil pointer.
unfoldable pub absorb : Option MissionLedger → ℕ → ℕ → Option MissionLedger
unfolding saturating_add
absorb none cost_units saved_units = none
absorb (some l) cost_units saved_units = some (record l {
  spent = saturating_add l.spent cost_units;
  saved = saturating_add l.saved saved_units;
})

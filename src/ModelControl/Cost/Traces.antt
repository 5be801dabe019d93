-- ===== src/ModelControl/Cost/Traces.antt =====
-- Which cost traces are valid.
use jacu_harness.Base.{◌≡◌, ◌≢◌, ◌⊎◌, ◌↔◌, none, arith, eq_iff}
use jacu_harness.ModelControl.Cost.{CostTrace, validate_trace}

-- A trace is valid exactly if it names a profile, bills by subscription with no unit spent or saved
-- or locally, and has no cost source or local units: never API dollars.
validate_trace_iff :
    (t : CostTrace)
    → (validate_trace t ≡ none) ↔ (
        (t.profile_id ≢ "")
        × (((t.billing_mode ≡ "subscription") × (t.cost_units ≡ 0) × (t.savings_units ≡ 0))
            ⊎ (t.billing_mode ≡ "local"))
        × ((t.cost_source ≡ "none") ⊎ (t.cost_source ≡ "local_units")))
unfolding validate_trace
validate_trace_iff t = ground (
  arith,
  eq_iff t.profile_id "",
  eq_iff t.billing_mode "subscription",
  eq_iff t.billing_mode "local",
  eq_iff t.cost_source "none",
  eq_iff t.cost_source "local_units",
  eq_iff t.cost_source "api_dollars",
  eq_iff "subscription" "local",
  eq_iff "none" "api_dollars",
  eq_iff "local_units" "api_dollars",
)

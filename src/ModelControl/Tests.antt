-- ===== src/ModelControl/Tests.antt =====
-- Runs of the model-control code at concrete inputs, and its theorems applied there.
use jacu_harness.Base.{
  ◌+◌, ◌*◌, ◌≤◌, ◌≡◌, refl, true, false, [], ◌∷◌, none, some, arith, min, if◌then◌else◌, ltb,
}
use jacu_harness.Base.Int.{pos, negsuc, ltb_ℤ}
use jacu_harness.Base.Strings.{trim_space}
use jacu_harness.ModelControl.Complexity.{ComplexityInput, classify}
use jacu_harness.ModelControl.Complexity.Bounds.{tier_rank, classify_mono}
use jacu_harness.ModelControl.Cost.{
  CostTrace, MissionLedger, new_mission_ledger, max_u64, units_per_cent, remaining, can_admit,
  absorb,
}
use jacu_harness.ModelControl.Cost.Budget.{
  IsWithin, Spends, fresh, spend, absorb_admitted, budget_never_passed,
}
use jacu_harness.ModelControl.Breaker.{
  CircuitBreaker, closed, open_, half_open, new_circuit_breaker, time_sub, allow, record_outcome,
  asks, records, run, step,
}
use jacu_harness.ModelControl.Breaker.Invariant.{IsValid, breaker_run-IsValid}
use jacu_harness.ModelControl.Breaker.Trips.{
  failures_at, asks_at, count_of, opens_at_threshold, one_probe,
}
use jacu_harness.ModelControl.Escalation.{
  TierTarget, EscalationPolicy, Escalation, retry, exhausted, validate_policy, next_escalation,
}
use jacu_harness.ModelControl.Escalation.Ladder.{Answers, next_escalation_decides}

-- Classifier and dial.

abbrev small_fix : ComplexityInput
small_fix = record { risk = "medium"; input_tokens = 2001; criteria = 3; kind = "code" }

abbrev large_fix : ComplexityInput
large_fix = record { risk = "medium"; input_tokens = 9000; criteria = 6; kind = "code" }

abbrev risky : ComplexityInput
risky = record { risk = "high"; input_tokens = 0; criteria = 0; kind = "unheard-of" }

small_fix_score : (classify small_fix).score ≡ 60
unfolding classify
small_fix_score = refl

classify_mono_example :
    ((classify small_fix).score ≤ (classify large_fix).score)
    × (tier_rank (classify small_fix).tier ≤ tier_rank (classify large_fix).tier)
    × ((classify large_fix).score ≤ 140)
classify_mono_example = classify_mono small_fix large_fix refl refl (omega arith) (omega arith)

-- Costs.

abbrev one_cent : MissionLedger
one_cent = record { ceiling = 1000000; spent = 0; saved = 0 }

abbrev after_spending : MissionLedger
after_spending = record { ceiling = 1000000; spent = 999999; saved = 7 }

one_cent-new : new_mission_ledger 1 ≡ one_cent
unfolding new_mission_ledger
one_cent-new = refl

spent_most : Spends (new_mission_ledger 1) after_spending
unfolding new_mission_ledger can_admit absorb
spent_most = spend {l = one_cent} 999999 7 fresh refl refl

budget_never_passed_example :
    (after_spending.spent ≤ after_spending.ceiling)
    × (after_spending.ceiling ≡ min (1 * units_per_cent) max_u64)
budget_never_passed_example = budget_never_passed 1 after_spending spent_most

admits_million : can_admit (some one_cent) 1000000 ≡ true
unfolding can_admit
admits_million = refl

absorb_admitted_example :
    (m : MissionLedger) × (absorb (some one_cent) 1000000 3 ≡ some m)
    × IsWithin m
    × (m.spent ≡ 0 + 1000000)
    × (remaining m + 1000000 ≡ remaining one_cent)
    × (m.saved ≡ min (0 + 3) max_u64)
    × (m.ceiling ≡ one_cent.ceiling)
absorb_admitted_example = absorb_admitted one_cent 1000000 3 (omega arith) admits_million

abbrev local_trace : CostTrace
local_trace = record {
  profile_id = "codex";
  baseline_profile_id = "";
  billing_mode = "local";
  cost_source = "local_units";
  input_tokens = 10;
  output_tokens = 20;
  duration_ms = 5;
  cost_units = 30;
  savings_units = 0;
  cache_hit = false;
}

-- Circuit breaker.

abbrev tripped : CircuitBreaker
tripped = record {
  failure_threshold = 2;
  cooldown = 100;
  failures = 2;
  state = open_;
  opened_at = pos 7;
}

two_failures_trip :
    run (new_circuit_breaker (pos 2) (pos 100)) (failures_at (pos 3 ∷ pos 7 ∷ [])) ≡ tripped
unfolding run step new_circuit_breaker record_outcome
two_failures_trip = refl

breaker_run-IsValid_example :
    IsValid
      (run (new_circuit_breaker (negsuc 4) (pos 100)) (records (pos 3) false ∷ asks (pos 200) ∷ []))
breaker_run-IsValid_example =
    breaker_run-IsValid (negsuc 4) (pos 100) (records (pos 3) false ∷ asks (pos 200) ∷ [])

opens_at_threshold_example :
    (run (new_circuit_breaker (pos 2) (pos 100)) (failures_at (pos 3 ∷ pos 7 ∷ []))).state
    ≡ (if ltb (count_of (pos 3 ∷ pos 7 ∷ [])) 2 then closed else open_)
opens_at_threshold_example = opens_at_threshold 2 (pos 100) (pos 3 ∷ pos 7 ∷ []) (omega arith)

abbrev probing : CircuitBreaker
probing = record tripped { state = half_open }

one_probe_example :
    (allow tripped (pos 107) ≡ (
      if ltb_ℤ (time_sub (pos 107) (pos 7)) (pos 100) then (tripped, false) else (probing, true)))
    × (allow (run probing (asks_at (pos 108 ∷ []))) (pos 300) ≡ (probing, false))
    × (record_outcome (run probing (asks_at (pos 108 ∷ []))) (pos 300) true
        ≡ record tripped { failures = 0; state = closed })
    × (record_outcome (run probing (asks_at (pos 108 ∷ []))) (pos 300) false
        ≡ record tripped { failures = 2; state = open_; opened_at = pos 300 })
one_probe_example = one_probe tripped (pos 107) (pos 300) (pos 108 ∷ []) refl

-- Escalation.

abbrev cheap_tier : TierTarget
cheap_tier = record { lane = "cheap"; profile_id = "small" }

abbrev premium_tier : TierTarget
premium_tier = record { lane = "premium"; profile_id = "large" }

abbrev ladder : EscalationPolicy
ladder = record {
  max_attempts = 3;
  tiers = cheap_tier ∷ premium_tier ∷ [];
  on_exhaust = "require_human";
}

ladder_valid : validate_policy ladder ≡ none
unfolding validate_policy trim_space
ladder_valid = refl

next_escalation_decides_example :
    (e : Escalation) × (next_escalation ladder 1 "timeout" ≡ some e) × Answers ladder 1 "timeout" e
next_escalation_decides_example = next_escalation_decides ladder 1 "timeout" ladder_valid

ladder_retries : next_escalation ladder 1 "timeout" ≡ some (retry premium_tier)
unfolding next_escalation
ladder_retries = refl

ladder_ends : next_escalation ladder 2 "timeout" ≡ some (exhausted "require_human" "fail_closed")
unfolding next_escalation
ladder_ends = refl

-- ===== src/ModelControl/Dial.antt =====
-- internal/modelcontrol/dial.go: zero favours the strongest profile, ten favours economy.
use jacu_harness.Base.{ℕ, ◌+◌, ◌-◌, ◌*◌, ◌/◌, ◌≤◌, ◌≡◌, String, arith, ltb, leb, if◌then◌else◌}
use jacu_harness.ModelControl.Complexity.{lane_cheap, lane_medium, lane_planner, lane_premium}

-- `NewCostQualityDial`
unfoldable pub new_cost_quality_dial : ℕ → ℕ
new_cost_quality_dial raw = if ltb 10 raw then 10 else raw

unfoldable pub lane_hint : ℕ → String
lane_hint dial =
    if leb dial 2
    then lane_premium
    else if leb dial 6
    then lane_planner
    else if leb dial 8
    then lane_medium
    else lane_cheap

-- `value` is at most 10 where it is subtracted, so `-` is exact.
unfoldable pub max_parallel_agents : ℕ → ℕ
max_parallel_agents dial =
    let value = if ltb 10 dial then 10 else dial in 1 + ((8 - 1) * (10 - value) + 5) / 10

-- A dial allows between one and eight agents at once, a higher dial never more than a lower one;
-- every setting of ten or more allows one, and the setting zero eight.
max_parallel_agents_bounds :
    (raw more : ℕ)
    → raw ≤ more
    → (1 ≤ max_parallel_agents (new_cost_quality_dial more))
      × (max_parallel_agents (new_cost_quality_dial more)
          ≤ max_parallel_agents (new_cost_quality_dial raw))
      × (max_parallel_agents (new_cost_quality_dial raw) ≤ 8)
      × (max_parallel_agents (new_cost_quality_dial (10 + raw)) ≡ 1)
      × (max_parallel_agents (new_cost_quality_dial 0) ≡ 8)
unfolding new_cost_quality_dial max_parallel_agents
max_parallel_agents_bounds raw more h = ground arith

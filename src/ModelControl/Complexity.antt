-- ===== src/ModelControl/Complexity.antt =====
-- internal/modelcontrol/complexity.go: the deterministic classifier. Go's string types are texts, so
-- a value outside the constants is one more case of each `switch`.
pub mod Bounds
use jacu_harness.Base.{ℕ, ◌+◌, String, Bool, ◌||◌, ltb, leb, if◌then◌else◌, ◌==◌, String-comparable}

-- `Lane`
abbrev pub lane_cheap : String
lane_cheap = "cheap"

abbrev pub lane_medium : String
lane_medium = "medium"

abbrev pub lane_planner : String
lane_planner = "planner"

abbrev pub lane_premium : String
lane_premium = "premium"

-- `ComplexityInput`; the two counts are `uint32`
pub record ComplexityInput : Type 0 where
  pub risk : String
  pub input_tokens : ℕ
  pub criteria : ℕ
  pub kind : String

pub record ComplexityResult : Type 0 where
  pub score : ℕ
  pub tier : String
  pub lane : String

-- the four `switch` statements, in their order
risk_points : String → ℕ
risk_points r = if r == "medium" then 30 else if r == "high" then 70 else 0

token_points : ℕ → ℕ
token_points n = if ltb 8000 n then 30 else if ltb 2000 n then 15 else 0

criteria_points : ℕ → ℕ
criteria_points n = if ltb 5 n then 20 else if leb 3 n then 10 else 0

kind_points : String → ℕ
kind_points k =
    if k == "plan" || k == "review"
    then 20
    else if k == "asset_image" || (k == "asset_sprite_strip" || k == "vision_reference")
    then 10
    else if k == "code" || (k == "verify" || (k == "install" || k == "package"))
    then 5
    else 0

unfoldable pub classify : ComplexityInput → ComplexityResult
unfolding risk_points token_points criteria_points kind_points
classify i =
    let score =
      risk_points i.risk
      + token_points i.input_tokens
      + criteria_points i.criteria
      + kind_points i.kind in
    if ltb 60 score
    then record { score = score; tier = "high"; lane = lane_planner }
    else if ltb 30 score
    then record { score = score; tier = "medium"; lane = lane_medium }
    else record { score = score; tier = "low"; lane = lane_cheap }

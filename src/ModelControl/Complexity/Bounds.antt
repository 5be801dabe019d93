-- ===== src/ModelControl/Complexity/Bounds.antt =====
-- What the classifier's score and lane are, whatever the input.
use jacu_harness.Base.{
  ℕ, ◌+◌, ◌≤◌, ◌<◌, ◌≡◌, ◌≢◌, ◌⊎◌, inl, inr, String, arith, eq_iff, Bool-cases, ltb, ltb→lt,
  ltb-false→le, ap, refl, ◌==◌, String-comparable, if◌then◌else◌,
}
use jacu_harness.ModelControl.Complexity.{
  ComplexityInput, risk_points, token_points, criteria_points, kind_points, classify, lane_cheap,
  lane_medium, lane_planner, lane_premium,
}

risk_points_bound : (r : String) → risk_points r ≤ 70
unfolding risk_points
risk_points_bound r = ground arith

token_points_bound : (n : ℕ) → token_points n ≤ 30
unfolding token_points
token_points_bound n = ground arith

criteria_points_bound : (n : ℕ) → criteria_points n ≤ 20
unfolding criteria_points
criteria_points_bound n = ground arith

kind_points_bound : (k : String) → kind_points k ≤ 20
unfolding kind_points
kind_points_bound k = ground arith

token_points_mono : (m n : ℕ) → m ≤ n → token_points m ≤ token_points n
unfolding token_points
token_points_mono m n h = ground arith

criteria_points_mono : (m n : ℕ) → m ≤ n → criteria_points m ≤ criteria_points n
unfolding criteria_points
criteria_points_mono m n h = ground arith

abbrev points : ComplexityInput → ℕ
points i =
    risk_points i.risk
    + token_points i.input_tokens
    + criteria_points i.criteria
    + kind_points i.kind

score-classify : (i : ComplexityInput) → (classify i).score ≡ points i
unfolding classify
score-classify i = elim (Bool-cases (ltb 60 (points i))) [
  | inl t ↦ rw t
  | inr t ↦ elim (Bool-cases (ltb 30 (points i))) [ inl u ↦ rw (t, u) | inr u ↦ rw (t, u) ]
]

abbrev pub tier_rank : String → ℕ
tier_rank t = if t == "high" then 2 else if t == "medium" then 1 else 0

tier_of_score : ℕ → ℕ
tier_of_score s = if ltb 60 s then 2 else if ltb 30 s then 1 else 0

tier_rank-classify : (i : ComplexityInput) → tier_rank (classify i).tier ≡ tier_of_score (points i)
unfolding classify tier_of_score
tier_rank-classify i = elim (Bool-cases (ltb 60 (points i))) [
  | inl t ↦ rw t
  | inr t ↦ elim (Bool-cases (ltb 30 (points i))) [ inl u ↦ rw (t, u) | inr u ↦ rw (t, u) ]
]

tier_of_score_mono : (a b : ℕ) → a ≤ b → tier_of_score a ≤ tier_of_score b
unfolding tier_of_score
tier_of_score_mono a b h = ground arith

points_mono :
    (i j : ComplexityInput)
    → i.risk ≡ j.risk
    → i.kind ≡ j.kind
    → i.input_tokens ≤ j.input_tokens
    → i.criteria ≤ j.criteria
    → points i ≤ points j
points_mono i j r k t c = omega (
  arith,
  ap risk_points r,
  ap kind_points k,
  token_points_mono i.input_tokens j.input_tokens t,
  criteria_points_mono i.criteria j.criteria c,
)

-- Of two inputs of the same risk and kind, the one with at least as many tokens and criteria
-- scores at least as much and gets at least as high a tier; and no input scores above 140.
pub classify_mono :
    (i j : ComplexityInput)
    → i.risk ≡ j.risk
    → i.kind ≡ j.kind
    → i.input_tokens ≤ j.input_tokens
    → i.criteria ≤ j.criteria
    → ((classify i).score ≤ (classify j).score)
      × (tier_rank (classify i).tier ≤ tier_rank (classify j).tier)
      × ((classify j).score ≤ 140)
classify_mono i j r k t c =
    let more = points_mono i j r k t c in
    (
      omega (arith, score-classify i, score-classify j),
      rw (tier_rank-classify i, tier_rank-classify j)
          (tier_of_score_mono (points i) (points j) more),
      omega (
        arith,
        score-classify j,
        risk_points_bound j.risk,
        token_points_bound j.input_tokens,
        criteria_points_bound j.criteria,
        kind_points_bound j.kind,
      ),
    )

lane_of_points :
    (i : ComplexityInput)
    → ((60 < points i) × ((classify i).lane ≡ lane_planner))
      ⊎ ((points i ≤ 60) × (((classify i).lane ≡ lane_medium) ⊎ ((classify i).lane ≡ lane_cheap)))
unfolding classify
lane_of_points i = elim (Bool-cases (ltb 60 (points i))) [
  | inl t ↦ inl (ltb→lt 60 (points i) t, rw t)
  | inr t ↦ inr (
    ltb-false→le 60 (points i) t,
    elim (Bool-cases (ltb 30 (points i))) [ inl u ↦ inl (rw (t, u)) | inr u ↦ inr (rw (t, u)) ],
  )
]

risk_points_high : risk_points "high" ≡ 70
unfolding risk_points
risk_points_high = refl

-- An input of high risk goes to the planner lane, and no input at all goes to the premium lane.
classify_lanes :
    (i j : ComplexityInput)
    → i.risk ≡ "high"
    → ((classify i).lane ≡ lane_planner) × ((classify j).lane ≢ lane_premium)
classify_lanes i j r = (high (lane_of_points i), not_premium (lane_of_points j))
  where
    high :
        ((60 < points i) × ((classify i).lane ≡ lane_planner))
          ⊎ ((points i ≤ 60)
              × (((classify i).lane ≡ lane_medium) ⊎ ((classify i).lane ≡ lane_cheap)))
        → (classify i).lane ≡ lane_planner
    high (inl (h, e)) = e
    high (inr (h, e)) = absurd (omega (arith, ap risk_points r, risk_points_high))

    not_premium :
        ((60 < points j) × ((classify j).lane ≡ lane_planner))
          ⊎ ((points j ≤ 60)
              × (((classify j).lane ≡ lane_medium) ⊎ ((classify j).lane ≡ lane_cheap)))
        → (classify j).lane ≢ lane_premium
    not_premium d p = ground (
      arith,
      eq_iff lane_planner lane_premium,
      eq_iff lane_medium lane_premium,
      eq_iff lane_cheap lane_premium,
    )

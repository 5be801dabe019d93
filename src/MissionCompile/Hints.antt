-- ===== src/MissionCompile/Hints.antt =====
-- A hint may raise the risk and the ceremony of a mission, and never lower them.
use jacu_harness.Base.{
  ℕ, ◌≡◌, ◌≤◌, refl, max, String, Bool, true, false, ◌&&◌, ◌||◌, ◌↔◌, not, if◌then◌else◌, ◌==◌,
  String-comparable, arith, eq_iff, leb, length, sym,
}
use jacu_harness.MissionCompile.{
  Unicode, MissionInput, risk_tier, derived_risk, effective_risk, classify_ceremony, is_none,
  has_mutation_verb, has_broad_allowed_paths,
}

tier_if :
    (a b c : Bool)
    → 1
      ≤ risk_tier
          (if a then "destructive" else if b then "write" else if c then "write" else "safe")
unfolding risk_tier
tier_if true b c = omega arith
tier_if false true c = omega arith
tier_if false false true = omega arith
tier_if false false false = omega arith

derived_risk-tier :
    (unicode : Unicode) (input : MissionInput) → 1 ≤ risk_tier (derived_risk unicode input)
unfolding derived_risk
derived_risk-tier unicode input = tier_if _ _ _

-- The effective risk of a mission is one of the three tiers, the greater one of the derived risk and
-- the hint; a hint that is no tier changes nothing.
pub effective_risk_tier :
    (unicode : Unicode) (input : MissionInput) (hint : String)
    → let derived = derived_risk unicode input in
      let effective = effective_risk derived hint in
      (1 ≤ risk_tier effective)
      × (risk_tier effective ≡ max (risk_tier derived) (risk_tier hint))
      × (risk_tier hint ≡ 0 → effective ≡ derived)
unfolding effective_risk
effective_risk_tier unicode input hint =
    let low = derived_risk-tier unicode input in (ground arith, ground arith, λ z. ground arith)

unfoldable pub ceremony_rank : String → ℕ
ceremony_rank ceremony = if ceremony == "direct" then 0 else if ceremony == "light" then 1 else 2

effective_mono :
    (derived hint hint' : String)
    → 1 ≤ risk_tier derived
    → risk_tier hint ≤ risk_tier hint'
    → risk_tier (effective_risk derived hint) ≤ risk_tier (effective_risk derived hint')
unfolding effective_risk
effective_mono derived hint hint' low h = ground arith

safe_tier : (risk : String) → (risk == "safe" ≡ true) ↔ (risk_tier risk ≡ 1)
unfolding risk_tier
safe_tier risk = ground (arith, eq_iff risk "safe", eq_iff risk "write", eq_iff risk "destructive")

tier_destructive : (risk : String) → risk ≡ "destructive" → risk_tier risk ≡ 3
unfolding risk_tier
tier_destructive risk e = rw e refl

destructive_tier : (risk : String) → (risk == "destructive" ≡ true) ↔ (risk_tier risk ≡ 3)
unfolding risk_tier
destructive_tier risk =
    (λ t. tier_destructive risk ((eq_iff risk "destructive").0 t), λ h. ground arith)

tier_bound : (risk : String) → risk_tier risk ≤ 3
unfolding risk_tier
tier_bound risk = ground arith

derived_risk_hint :
    (unicode : Unicode) (input : MissionInput) (hint : String)
    → derived_risk unicode (record input { risk_hint = hint }) ≡ derived_risk unicode input
unfolding derived_risk
derived_risk_hint unicode input hint = refl

ceremony_if :
    (a b c : Bool)
    → ceremony_rank (if a then "full" else if b then "direct" else if c then "full" else "light")
      ≡ (if a then 2 else if b then 0 else if c then 2 else 1)
unfolding ceremony_rank
ceremony_if true b c = refl
ceremony_if false true c = refl
ceremony_if false false true = refl
ceremony_if false false false = refl

-- the rank for one derived risk
rank_of : Unicode → MissionInput → String → ℕ
rank_of unicode input risk =
    if input.has_program
    then 2
    else if is_none input.allowed_paths
        && (is_none input.verification_commands
            && (risk == "safe" && not (has_mutation_verb unicode input.objective)))
    then 0
    else if risk == "destructive"
        || (leb 3 (length input.acceptance_criteria) || has_broad_allowed_paths input.allowed_paths)
    then 2
    else 1

classify_ceremony-rank :
    (unicode : Unicode) (input : MissionInput) (hint : String)
    → ceremony_rank (classify_ceremony unicode (record input { risk_hint = hint }))
      ≡ rank_of unicode input (effective_risk (derived_risk unicode input) hint)
unfolding classify_ceremony rank_of
classify_ceremony-rank unicode input hint =
    rw (sym (derived_risk_hint unicode input hint)) (ceremony_if _ _ _)

rank_of_mono :
    (unicode : Unicode) (input : MissionInput) (risk risk' : String)
    → 1 ≤ risk_tier risk
    → risk_tier risk ≤ risk_tier risk'
    → rank_of unicode input risk ≤ rank_of unicode input risk'
unfolding rank_of
rank_of_mono unicode input risk risk' low h = ground (
  arith,
  safe_tier risk,
  safe_tier risk',
  destructive_tier risk,
  destructive_tier risk',
  tier_bound risk',
)

-- Of two hints for one mission, the one of the higher tier never has the lower ceremony.
pub classify_ceremony_mono :
    (unicode : Unicode) (input : MissionInput) (hint hint' : String)
    → risk_tier hint ≤ risk_tier hint'
    → ceremony_rank (classify_ceremony unicode (record input { risk_hint = hint }))
      ≤ ceremony_rank (classify_ceremony unicode (record input { risk_hint = hint' }))
classify_ceremony_mono unicode input hint hint' h =
    let d = derived_risk unicode input in
    let low = derived_risk-tier unicode input in
    rw (classify_ceremony-rank unicode input hint, classify_ceremony-rank unicode input hint')
      (rank_of_mono unicode input (effective_risk d hint) (effective_risk d hint')
        (effective_risk_tier unicode input hint).0 (effective_mono d hint hint' low h))

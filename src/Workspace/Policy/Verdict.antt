-- ===== src/Workspace/Policy/Verdict.antt =====
-- When an automatic apply is allowed.
use jacu_harness.Base.{
  refl, ltb, not, ◌&&◌, ◌||◌, ℕ-comparable, ◌≡◌, ◌⊎◌, inl, inr, ◌↔◌, String, Bool, true, false,
  arith, eq_iff, ◌==◌, String-comparable,
}
use jacu_harness.Base.Int.{ℤ, pos, ◌≤ℤ◌}
use jacu_harness.Workspace.Policy.{
  AutonomyPolicy, PolicyDecision, satisfied, risk_rank, violate, evaluate_auto_apply_policy,
}

-- The tiers: a maximum and a risk that it admits.
pub data Admits (max risk : String) : Type 0 where
  safe : risk ≡ "safe" → (max ≡ "safe") ⊎ (max ≡ "write") ⊎ (max ≡ "destructive") → Admits max risk
  write : risk ≡ "write" → (max ≡ "write") ⊎ (max ≡ "destructive") → Admits max risk
  destructive : risk ≡ "destructive" → max ≡ "destructive" → Admits max risk

abbrev Tiers : String → String → Type 0
Tiers max risk =
    ((risk ≡ "safe") × ((max ≡ "safe") ⊎ (max ≡ "write") ⊎ (max ≡ "destructive")))
    ⊎ ((risk ≡ "write") × ((max ≡ "write") ⊎ (max ≡ "destructive")))
    ⊎ ((risk ≡ "destructive") × (max ≡ "destructive"))

Tiers-Admits : {max risk : String} → Tiers max risk → Admits max risk
Tiers-Admits (inl (e, m)) = safe e m
Tiers-Admits (inr (inl (e, m))) = write e m
Tiers-Admits (inr (inr (e, m))) = destructive e m

pub record MayApply (policy : AutonomyPolicy) (verdict risk : String) (receipt_valid : Bool)
    (iteration : ℤ) : Type 0 where
  pub passed : verdict ≡ "pass"
  pub reviewed : receipt_valid ≡ true
  pub admitted : Admits policy.risk_max risk
  pub started : pos 1 ≤ℤ iteration
  pub in_budget : iteration ≤ℤ policy.max_iterations

abbrev pub tier_fails : String → String → Bool
tier_fails max risk =
    ltb (risk_rank max) (risk_rank risk)
    || ((risk_rank risk == 0 && not (risk == "safe"))
        || (risk_rank max == 0 && not (max == "safe")))

tier_passes-Tiers : (max risk : String) → tier_fails max risk ≡ false → Tiers max risk
unfolding risk_rank
tier_passes-Tiers max risk h = ground (
  arith,
  eq_iff risk "safe",
  eq_iff risk "write",
  eq_iff risk "destructive",
  eq_iff max "safe",
  eq_iff max "write",
  eq_iff max "destructive",
)

Admits-tier_passes : {max risk : String} → Admits max risk → tier_fails max risk ≡ false
unfolding risk_rank
Admits-tier_passes (safe e (inl m)) = rw (e, m) refl
Admits-tier_passes (safe e (inr (inl m))) = rw (e, m) refl
Admits-tier_passes (safe e (inr (inr m))) = rw (e, m) refl
Admits-tier_passes (write e (inl m)) = rw (e, m) refl
Admits-tier_passes (write e (inr m)) = rw (e, m) refl
Admits-tier_passes (destructive e m) = rw (e, m) refl

tier_fails_iff : (max risk : String) → (tier_fails max risk ≡ false) ↔ Admits max risk
tier_fails_iff max risk = (λ h. Tiers-Admits (tier_passes-Tiers max risk h), Admits-tier_passes)

abbrev pub allow : PolicyDecision
allow = record { allowed = true; escalate = false; reason = satisfied }

module _ (policy : AutonomyPolicy) (verdict risk : String) (receipt_valid : Bool)
    (iteration : ℤ) where
  -- The policy allows an automatic apply exactly if the verdict is pass, the review receipt is
  -- valid, the risk is a known tier that the policy's known tier admits, and the iteration is the
  -- first or a later one within the budget. Otherwise it refuses, and escalates exactly if the
  -- policy says so.
  pub auto_apply_decides :
      (MayApply policy verdict risk receipt_valid iteration
        × (evaluate_auto_apply_policy policy verdict risk receipt_valid iteration ≡ allow))
      ⊎ ((¬ MayApply policy verdict risk receipt_valid iteration)
          × ((evaluate_auto_apply_policy policy verdict risk receipt_valid iteration).allowed
              ≡ false)
          × ((evaluate_auto_apply_policy policy verdict risk receipt_valid iteration).escalate
              ≡ (policy.on_violation == "escalate")))
  unfolding evaluate_auto_apply_policy violate
  auto_apply_decides = ground (arith, eq_iff verdict "pass", tier_fails_iff policy.risk_max risk)

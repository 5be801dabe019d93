-- ===== src/ModelControl/Escalation/Ladder.antt =====
-- The escalation is total, bounded, and retries only with a named profile.
use jacu_harness.Base.{
  ℕ, zero, suc, ◌≤◌, ◌<◌, ◌≡◌, refl, ◌≢◌, ◌⊎◌, inl, inr, String, List, [], ◌∷◌, none, some, arith,
  true, leb→le, eq_iff, length, get_elem?, get_elem?-some, Bool-cases, leb, ◌==◌, ℕ-comparable,
  String-comparable, ◌||◌,
}
use jacu_harness.Base.Strings.{trim_space}
use jacu_harness.ModelControl.Escalation.{
  TierTarget, EscalationPolicy, Escalation, retry, exhausted, check_tiers, validate_policy,
  reason_for_exhaustion, next_escalation,
}

check_tiers_at :
    (ts : List TierTarget) (i : ℕ) (t : TierTarget)
    → check_tiers ts ≡ none
    → get_elem? ts i ≡ some t
    → trim_space t.profile_id ≢ ""
unfolding check_tiers
check_tiers_at [] i t c h = cc
check_tiers_at (u ∷ us) zero t c h = ground (arith, eq_iff (trim_space u.profile_id) "")
check_tiers_at (u ∷ us) (suc i) t c h = ground (arith, check_tiers_at us i t)

validate_policy_parts :
    (p : EscalationPolicy)
    → validate_policy p ≡ none
    → (1 ≤ p.max_attempts)
      × (p.max_attempts ≤ 5)
      × (1 ≤ length p.tiers)
      × (check_tiers p.tiers ≡ none)
unfolding validate_policy
validate_policy_parts p v = ground arith

-- What `Next` answers under a valid policy: a retry at the tier that the attempt numbers, whose profile
-- id is not blank, or exhaustion with the reason that fits.
pub data Answers (p : EscalationPolicy) (attempt : ℕ) (failure : String) (e : Escalation)
    : Type 0 where
  retries :
      (t : TierTarget)
      → failure ≢ "budget_exceeded"
      → 1 ≤ attempt
      → attempt < p.max_attempts
      → attempt < 5
      → get_elem? p.tiers attempt ≡ some t
      → trim_space t.profile_id ≢ ""
      → e ≡ retry t
      → Answers p attempt failure e
  over_budget :
      failure ≡ "budget_exceeded"
      → e ≡ exhausted p.on_exhaust "budget_exceeded"
      → Answers p attempt failure e
  out_of_attempts :
      failure ≢ "budget_exceeded"
      → p.max_attempts ≤ attempt
      → e ≡ exhausted p.on_exhaust "attempts_exhausted"
      → Answers p attempt failure e
  no_tier :
      failure ≢ "budget_exceeded"
      → attempt < p.max_attempts
      → (attempt ≡ 0) ⊎ (length p.tiers ≤ attempt)
      → e ≡ exhausted p.on_exhaust "fail_closed"
      → Answers p attempt failure e

gives_up :
    (p : EscalationPolicy) (attempt : ℕ) (failure : String)
    → (failure == "budget_exceeded"
        || (attempt == 0 || (leb p.max_attempts attempt || leb (length p.tiers) attempt)))
      ≡ true
    → Answers p attempt failure
        (exhausted p.on_exhaust (reason_for_exhaustion failure attempt p.max_attempts))
unfolding reason_for_exhaustion
gives_up p attempt failure t = elim (Bool-cases (failure == "budget_exceeded")) [
  | inl b ↦ rw b (over_budget ((eq_iff failure "budget_exceeded").0 b) refl)
  | inr b ↦
      let within : failure ≢ "budget_exceeded" =
        λ e. ground (arith, eq_iff failure "budget_exceeded") in
      elim (Bool-cases (leb p.max_attempts attempt)) [
        | inl m ↦ rw (b, m) (out_of_attempts within (leb→le p.max_attempts attempt m) refl)
        | inr m ↦ rw (b, m) (no_tier within (ground arith) (ground arith) refl)
      ]
]

-- Under a valid policy `Next` answers for every attempt and failure. For another failure than a spent
-- budget it retries exactly at the attempts from one that are below the attempt limit and for which
-- there is a tier, so at most four times, with that tier, whose profile id is not blank. Otherwise it
-- gives up as the policy says: for a spent budget with that reason; from the attempt limit on, as out
-- of attempts; and at attempt zero or where no tier is left, as failed closed.
pub next_escalation_decides :
    (p : EscalationPolicy) (attempt : ℕ) (failure : String)
    → validate_policy p ≡ none
    → (e : Escalation) × (next_escalation p attempt failure ≡ some e) × Answers p attempt failure e
unfolding next_escalation
next_escalation_decides p attempt failure v =
    let stop =
      failure == "budget_exceeded"
      || (attempt == 0 || (leb p.max_attempts attempt || leb (length p.tiers) attempt)) in
    let (_, at_most, _, named) = validate_policy_parts p v in
    elim (Bool-cases stop) [
      | inl t ↦ (
        exhausted p.on_exhaust (reason_for_exhaustion failure attempt p.max_attempts),
        rw t refl,
        gives_up p attempt failure t,
      )
      | inr t ↦
          let below : attempt < length p.tiers = ground arith in
          let below_max : attempt < p.max_attempts = ground arith in
          let (tier, e) = get_elem?-some p.tiers attempt below in
          (
            retry tier,
            rw (t, e) refl,
            retries tier (ground (arith, eq_iff failure "budget_exceeded")) (ground arith) below_max
                (omega arith) e (check_tiers_at p.tiers attempt tier named e) refl,
          )
    ]

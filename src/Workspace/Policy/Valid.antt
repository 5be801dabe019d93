-- ===== src/Workspace/Policy/Valid.antt =====
-- Which policies pass validation.
use jacu_harness.Base.{
  ◌≡◌, refl, ◌⊎◌, inl, inr, ◌↔◌, String, true, false, List, [], ◌∷◌, ok, arith, eq_iff,
  String-comparable, Bool-cases, Result-cases, In, contains, contains-In, In-contains,
}
use jacu_harness.Base.Int.{pos, ◌≤ℤ◌}
use jacu_harness.Workspace.Policy.{
  AutonomyPolicy, known_requirement, check_requirements, check_policy, is_nil, risk_rank,
  validate_autonomy_policy,
}

-- Known requirements, none of them twice and none of those seen before.
abbrev pub Fresh : List String → List String → Type 0
Fresh seen [] = Unit
Fresh seen (r ∷ rs) = (known_requirement r ≡ true) × (¬ In r seen) × Fresh (r ∷ seen) rs

pub record IsValid (policy : AutonomyPolicy) : Type 0 where
  pub distinct_known : Fresh [] policy.require
  pub verifies : In "verify_pass" policy.require
  pub reviews : In "cross_review" policy.require
  pub tier :
      (policy.risk_max ≡ "safe") ⊎ (policy.risk_max ≡ "write") ⊎ (policy.risk_max ≡ "destructive")
  pub positive : pos 1 ≤ℤ policy.max_iterations
  pub on_violation : (policy.on_violation ≡ "block") ⊎ (policy.on_violation ≡ "escalate")

-- Those seen, when the loop is through: last first.
abbrev onto : List String → List String → List String
onto seen [] = seen
onto seen (r ∷ rs) = onto (r ∷ seen) rs

contains-false : (xs : List String) (a : String) → (contains xs a ≡ false) ↔ (¬ In a xs)
contains-false xs a = elim (Bool-cases (contains xs a)) [
  | inl t ↦ (λ h. absurd (ground arith), λ n. absurd (n (contains-In xs a t)))
  | inr t ↦ (λ _ i. ground (arith, In-contains xs a i), λ _. t)
]

check_requirements_ok :
    (seen rs : List String) → Fresh seen rs → check_requirements seen rs ≡ ok (onto seen rs)
unfolding check_requirements
check_requirements_ok seen [] f = refl
check_requirements_ok seen (r ∷ rs) f =
    let fresh = (contains-false seen r).1 f.1 in
    let rest = check_requirements_ok (r ∷ seen) rs f.2 in ground (arith, f.0)

check_requirements-Fresh :
    (seen rs out : List String)
    → check_requirements seen rs ≡ ok out
    → Fresh seen rs × (out ≡ onto seen rs)
unfolding check_requirements
check_requirements-Fresh seen [] out h = (tt, ground arith)
check_requirements-Fresh seen (r ∷ rs) out h =
    let known : known_requirement r ≡ true = ground arith in
    let fresh : contains seen r ≡ false = ground arith in
    let (f, e) = check_requirements-Fresh (r ∷ seen) rs out (ground arith) in
    ((known, (contains-false seen r).0 fresh, f), e)

onto-In : (a : String) (seen rs : List String) → In a (onto seen rs) → In a seen ⊎ In a rs
onto-In a seen [] i = inl i
onto-In a seen (r ∷ rs) i = elim (onto-In a (r ∷ seen) rs i) [
  | inl (inl e) ↦ inr (inl e)
  | inl (inr j) ↦ inl j
  | inr j ↦ inr (inr j)
]

In-onto : (a : String) (seen rs : List String) → In a seen ⊎ In a rs → In a (onto seen rs)
In-onto a seen [] (inl i) = i
In-onto a seen [] (inr i) = absurd i
In-onto a seen (r ∷ rs) (inl i) = In-onto a (r ∷ seen) rs (inl (inr i))
In-onto a seen (r ∷ rs) (inr (inl e)) = In-onto a (r ∷ seen) rs (inl (inl e))
In-onto a seen (r ∷ rs) (inr (inr i)) = In-onto a (r ∷ seen) rs (inr i)

check_policy_iff :
    (p : AutonomyPolicy) (seen : List String)
    → (check_policy p seen ≡ ok p) ↔ (
        (contains seen "verify_pass" ≡ true)
        × (contains seen "cross_review" ≡ true)
        × ((p.risk_max ≡ "safe") ⊎ (p.risk_max ≡ "write") ⊎ (p.risk_max ≡ "destructive"))
        × (pos 1 ≤ℤ p.max_iterations)
        × ((p.on_violation ≡ "block") ⊎ (p.on_violation ≡ "escalate")))
unfolding check_policy risk_rank
check_policy_iff p seen = ground (
  arith,
  eq_iff p.risk_max "safe",
  eq_iff p.risk_max "write",
  eq_iff p.risk_max "destructive",
  eq_iff p.on_violation "block",
  eq_iff p.on_violation "escalate",
)

validate-IsValid : (p : AutonomyPolicy) → validate_autonomy_policy p ≡ ok p → IsValid p
unfolding validate_autonomy_policy
validate-IsValid p h = elim (Result-cases (check_requirements [] p.require)) [
  | inr (e, q) ↦ absurd (ground arith)
  | inl (out, q) ↦
      let (fresh, same) = check_requirements-Fresh [] p.require out q in
      let (v, c, t, m, o) = (check_policy_iff p out).0 (ground arith) in
      record {
        distinct_known = fresh;
        verifies = from_out "verify_pass" out same v;
        reviews = from_out "cross_review" out same c;
        tier = t;
        positive = m;
        on_violation = o;
      }
]
  where
    from_out :
        (r : String) (out : List String)
        → out ≡ onto [] p.require
        → contains out r ≡ true
        → In r p.require
    from_out r out same h = elim (onto-In r [] p.require (rw (← same) (contains-In out r h))) [
      | inl i ↦ absurd i
      | inr i ↦ i
    ]

nonempty : (xs : List String) (a : String) → In a xs → is_nil xs ≡ false
nonempty [] a i = absurd i
nonempty (x ∷ xs) a i = refl

IsValid-validate : (p : AutonomyPolicy) → IsValid p → validate_autonomy_policy p ≡ ok p
unfolding validate_autonomy_policy
IsValid-validate p v =
    let loop = check_requirements_ok [] p.require v.distinct_known in
    let seen_in : (r : String) → In r p.require → contains (onto [] p.require) r ≡ true =
      λ r i. In-contains (onto [] p.require) r (In-onto r [] p.require (inr i)) in
    let checked = (check_policy_iff p (onto [] p.require)).1 (
      seen_in "verify_pass" v.verifies,
      seen_in "cross_review" v.reviews,
      v.tier,
      v.positive,
      v.on_violation,
    ) in
    rw (nonempty p.require "verify_pass" v.verifies, loop) checked

-- A policy passes validation, unchanged, exactly if its requirements are known and distinct and
-- hold verify_pass and cross_review, its risk tier is known, its budget positive, and a violation
-- blocks or escalates.
pub validate_autonomy_policy_iff :
    (p : AutonomyPolicy) → (validate_autonomy_policy p ≡ ok p) ↔ IsValid p
validate_autonomy_policy_iff p = (validate-IsValid p, IsValid-validate p)

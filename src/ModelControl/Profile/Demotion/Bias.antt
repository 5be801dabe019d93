-- ===== src/ModelControl/Profile/Demotion/Bias.antt =====
-- What the demotion bias keeps, and what a sanitized text is.
use jacu_harness.Base.{
  ◌*◌, ◌≤◌, ◌<◌, ◌≡◌, ◌⊎◌, inl, inr, refl, sym, subst, ap, ◌∙◌, ◌↔◌, String, Bool, true, false, not,
  ◌&&◌, List, [], ◌∷◌, arith, eq_iff, leb, ltb, if◌then◌else◌, ◌==◌, String-comparable, contains,
  contains-In, In-contains, select, select-In, In-select, In, Bool-cases,
}
use jacu_harness.ModelControl.Profile.{HostProfile}
use jacu_harness.ModelControl.Profile.Demotion.{
  ModelMetric, evaluate_demotion, demotions, apply_demotion_bias, or_all,
}

-- A profile is demoted for a task if one of the task's metrics has at least ten runs of which more
-- than two in five failed.
pub record IsDemotedBy (task : String) (id : String) (m : ModelMetric) : Type 0 where
  pub same_profile : m.profile_id ≡ id
  pub same_task : m.task_kind ≡ task
  pub enough : 10 ≤ m.total_runs
  pub failing : 5 * m.accepted_runs < 3 * m.total_runs

demoted_iff :
    (m : ModelMetric)
    → (evaluate_demotion m).demoted
      ≡ (leb 10 m.total_runs && ltb (5 * m.accepted_runs) (3 * m.total_runs))
unfolding evaluate_demotion
demoted_iff m = ground arith

abbrev pub demoted_ids : List ModelMetric → String → List String
demoted_ids ms task = (demotions ms task).0

abbrev demotes : String → ModelMetric → Bool
demotes task m = m.task_kind == task && (evaluate_demotion m).demoted

demotes-IsDemotedBy :
    (task : String) (m : ModelMetric) → demotes task m ≡ true → IsDemotedBy task m.profile_id m
demotes-IsDemotedBy task m h = record {
  same_profile = refl;
  same_task = ground (arith, eq_iff m.task_kind task);
  enough = ground (arith, demoted_iff m);
  failing = ground (arith, demoted_iff m);
}

IsDemotedBy-demotes :
    (task id : String) (m : ModelMetric) → IsDemotedBy task id m → demotes task m ≡ true
IsDemotedBy-demotes task id m d = ground (arith, eq_iff m.task_kind task, demoted_iff m)

profile_id-evaluate_demotion : (m : ModelMetric) → (evaluate_demotion m).profile_id ≡ m.profile_id
unfolding evaluate_demotion
profile_id-evaluate_demotion m = refl

demotions-cons :
    (m : ModelMetric) (ms : List ModelMetric) (task : String)
    → demoted_ids (m ∷ ms) task
      ≡ (if demotes task m then m.profile_id ∷ demoted_ids ms task else demoted_ids ms task)
unfolding demotions
demotions-cons m ms task = ground (arith, profile_id-evaluate_demotion m)

IsDemotedBy-In :
    (ms : List ModelMetric) (task id : String) (m : ModelMetric)
    → In m ms
    → IsDemotedBy task id m
    → In id (demoted_ids ms task)
IsDemotedBy-In [] task id m i d = elim i [ ]
IsDemotedBy-In (x ∷ ms) task id m (inl e) d =
    let t = IsDemotedBy-demotes task id m d in
    rw (demotions-cons x ms task, subst (λ y. demotes task y ≡ true) e t)
      (inl (sym d.same_profile ∙ ap (λ (y : ModelMetric). y.profile_id) e))
IsDemotedBy-In (x ∷ ms) task id m (inr i) d =
    let later = IsDemotedBy-In ms task id m i d in
    elim (Bool-cases (demotes task x)) [
      | inl t ↦ rw (demotions-cons x ms task, t) (inr later)
      | inr t ↦ rw (demotions-cons x ms task, t) later
    ]

In-IsDemotedBy :
    (ms : List ModelMetric) (task id : String)
    → In id (demoted_ids ms task)
    → (m : ModelMetric) × In m ms × IsDemotedBy task id m
unfolding demotions
In-IsDemotedBy [] task id i = elim i [ ]
In-IsDemotedBy (x ∷ ms) task id i = elim (Bool-cases (demotes task x)) [
  | inl t ↦
      let i' : (id ≡ x.profile_id) ⊎ In id (demoted_ids ms task) =
        rw (demotions-cons x ms task, t) at i in
      elim i' [
        | inl e ↦
            (x, inl refl, subst (λ y. IsDemotedBy task y x) (sym e) (demotes-IsDemotedBy task x t))
        | inr later ↦ let (m, j, d) = In-IsDemotedBy ms task id later in (m, inr j, d)
      ]
  | inr t ↦
      let (m, j, d) = In-IsDemotedBy ms task id (rw (demotions-cons x ms task, t) at i) in
      (m, inr j, d)
]

-- No metric of the task demotes the profile.
abbrev pub IsSound : List ModelMetric → String → HostProfile → Type 0
IsSound ms task p = (m : ModelMetric) → In m ms → ¬ IsDemotedBy task p.id m

kept : List ModelMetric → String → HostProfile → Bool
kept ms task p = not (contains (demoted_ids ms task) p.id)

kept-IsSound :
    (ms : List ModelMetric) (task : String) (p : HostProfile)
    → kept ms task p ≡ true
    → IsSound ms task p
unfolding kept
kept-IsSound ms task p k m i d =
    ground (arith, In-contains (demoted_ids ms task) p.id (IsDemotedBy-In ms task p.id m i d))

IsSound-kept :
    (ms : List ModelMetric) (task : String) (p : HostProfile)
    → IsSound ms task p
    → kept ms task p ≡ true
unfolding kept
IsSound-kept ms task p s = elim (Bool-cases (contains (demoted_ids ms task) p.id)) [
  | inl t ↦
      let (m, i, d) = In-IsDemotedBy ms task p.id (contains-In (demoted_ids ms task) p.id t) in
      absurd (s m i d)
  | inr t ↦ rw t
]

or_all_of_In :
    (candidates : List HostProfile) (q : HostProfile) (l : List HostProfile)
    → In q l
    → or_all candidates l ≡ l
or_all_of_In candidates q [] i = elim i [ ]
or_all_of_In candidates q (x ∷ l) i = refl

-- Where some candidate is demoted by no metric of the task, the bias keeps exactly the candidates
-- that none demotes.
pub bias_keeps_IsSound :
    (candidates : List HostProfile) (ms : List ModelMetric) (task : String) (q p : HostProfile)
    → In q candidates
    → IsSound ms task q
    → In p (apply_demotion_bias candidates ms task).0 ↔ (In p candidates × IsSound ms task p)
unfolding apply_demotion_bias kept
bias_keeps_IsSound candidates ms task q p i s =
    let q_kept = In-select (kept ms task) q candidates i (IsSound-kept ms task q s) in
    rw (or_all_of_In candidates q (select (kept ms task) candidates) q_kept) (
      λ m.
          let (listed, k) = select-In (kept ms task) p candidates m in
          (listed, kept-IsSound ms task p k),
      λ h. In-select (kept ms task) p candidates h.0 (IsSound-kept ms task p h.1),
    )

select_none :
    {A : Type 0} (f : A → Bool) (l : List A) → ((a : A) → In a l → f a ≡ false) → select f l ≡ []
select_none f [] h = refl
select_none f (x ∷ l) h = rw (h x (inl refl)) (select_none f l (λ a i. h a (inr i)))

-- Where every candidate is demoted, the bias is dropped: no candidate is lost.
bias_never_empties :
    (candidates : List HostProfile) (ms : List ModelMetric) (task : String)
    → ((p : HostProfile) → In p candidates → (m : ModelMetric) × In m ms × IsDemotedBy task p.id m)
    → (apply_demotion_bias candidates ms task).0 ≡ candidates
unfolding apply_demotion_bias kept
bias_never_empties candidates ms task h =
    rw (select_none (kept ms task) candidates λ p i. demoted_dropped p (h p i))
  where
    demoted_dropped :
        (p : HostProfile)
        → (m : ModelMetric) × In m ms × IsDemotedBy task p.id m
        → kept ms task p ≡ false
    demoted_dropped p (m, i, d) =
        ground (arith, In-contains (demoted_ids ms task) p.id (IsDemotedBy-In ms task p.id m i d))

or_all-In :
    (candidates l : List HostProfile) (p : HostProfile)
    → In p (or_all candidates l)
    → In p candidates ⊎ In p l
or_all-In candidates [] p i = inl i
or_all-In candidates (x ∷ l) p i = inr i

-- The bias adds no candidate.
pub bias-In :
    (candidates : List HostProfile) (ms : List ModelMetric) (task : String) (p : HostProfile)
    → In p (apply_demotion_bias candidates ms task).0
    → In p candidates
unfolding apply_demotion_bias kept
bias-In candidates ms task p i =
    elim (or_all-In candidates (select (kept ms task) candidates) p i) [
      | inl j ↦ j
      | inr j ↦ (select-In (kept ms task) p candidates j).0
    ]

-- ===== src/Orchestration/Schedule/Release.antt =====
-- One round of the sorting: what the loop over the successors leaves.
use jacu_harness.Base.{
  ◌-◌, ◌≡◌, refl, String, true, false, ◌&&◌, ◌||◌, List, [], ◌∷◌, ◌++◌, arith, eq_iff,
  if◌then◌else◌, ◌==◌, String-comparable, ℕ-comparable, Bool-cases, inl, inr, contains,
}
use jacu_harness.Base.Distinct.{Distinct, contains-append, Distinct-append_one}
use jacu_harness.Orchestration.Schedule.{Sorting, lowered, release}

pub record Released (ids : List String) (s out : Sorting) : Type 0 where
  pub degree : (x : String) → out.degree x ≡ (if contains ids x then s.degree x - 1 else s.degree x)
  pub ready :
      (x : String)
      → contains out.ready x ≡ contains s.ready x || (contains ids x && out.degree x == 0)
  pub order : out.order ≡ s.order
  pub distinct : Distinct out.ready

abbrev round_one : String → Sorting → Sorting
round_one id s = record {
  degree = lowered s.degree id;
  ready = if lowered s.degree id id == 0 then s.ready ++ id ∷ [] else s.ready;
  order = s.order;
}

round_one-Distinct :
    (id : String) (s : Sorting)
    → Distinct s.ready
    → contains s.ready id ≡ false
    → Distinct (round_one id s).ready
round_one-Distinct id s d h = elim (Bool-cases (lowered s.degree id id == 0)) [
  | inl t ↦ rw t (Distinct-append_one s.ready id d h)
  | inr t ↦ rw t d
]

round_one-ready :
    (id x : String) (s : Sorting)
    → contains (round_one id s).ready x
      ≡ contains s.ready x || (id == x && lowered s.degree id id == 0)
round_one-ready id x s = ground (arith, contains-append s.ready (id ∷ []) x)

pub release_order : (ids : List String) (s : Sorting) → (release ids s).order ≡ s.order
unfolding release
release_order [] s = refl
release_order (id ∷ ids) s = release_order ids (round_one id s)

pub release-Released :
    (ids : List String) (s : Sorting)
    → Distinct ids
    → Distinct s.ready
    → ((x : String) → contains ids x ≡ true → contains s.ready x ≡ false)
    → Released ids s (release ids s)
unfolding release
release-Released [] s d r apart = record {
  degree = λ x. refl;
  ready = λ x. ground arith;
  order = refl;
  distinct = r;
}
release-Released (id ∷ ids) s d r apart =
    let fresh = apart id (ground (arith, eq_iff id id)) in
    let rest =
      release-Released ids (round_one id s) d.1 (round_one-Distinct id s r fresh)
        (λ x h. ground (arith, round_one-ready id x s, apart x, eq_iff id x)) in
    record {
      degree = λ x. ground (arith, rest.degree x, eq_iff id x, eq_iff x id);
      ready = λ x.
          ground
            (arith, rest.ready x, rest.degree x, round_one-ready id x s, eq_iff id x, eq_iff x id);
      order = rest.order;
      distinct = rest.distinct;
    }

-- ===== src/ModelControl/Profile/Routing/Best.antt =====
-- `Route` picks the best of the eligible profiles, and fails only if there is none.
use jacu_harness.Base.{
  suc, ◌+◌, ◌≤◌, ◌≡◌, ◌⊎◌, inl, inr, refl, ap, sym, subst, Bool, true, false, not, ◌&&◌, List, [],
  ◌∷◌, Option, none, some, ok, arith, eq_iff, Bool-cases, In, All-In, contains-In, In-contains,
  String-comparable,
}
use jacu_harness.Base.Int.{pos_part, neg_part, eq_of_parts, ◌≤ℤ◌}
use jacu_harness.Base.Sort.{sort, Sorted, sort-In, In-sort, sort-Sorted, IsLess}
use jacu_harness.Base.Strings.{str_lt, str_lt-asym, str_lt-trans_not, is_some}
use jacu_harness.ModelControl.Profile.{HostProfile, RouteRequest, SignatureVerifier}
use jacu_harness.ModelControl.Profile.Attestation.{
  IsAttested, validate_signed_cli, validate_signed_cli-IsAttested, IsAttested-validate_signed_cli,
}
use jacu_harness.ModelControl.Profile.Routing.{
  is_unsuited, overflows, screen, ranks_before, first_or, route,
}

-- Fit for the request, with room for its tokens and an attested binary.
pub record IsEligible (r : RouteRequest) (verify : SignatureVerifier) (p : HostProfile)
    : Type 0 where
  pub available : p.available ≡ true
  pub same_lane : p.lane ≡ r.lane
  pub capable : r.required_capability ≤ℤ p.capability
  pub serves : In r.contract p.contracts
  pub fits : r.input_tokens + r.output_tokens ≤ p.max_context_tokens
  pub attested : IsAttested p.cli verify

abbrev passes : RouteRequest → SignatureVerifier → HostProfile → Bool
passes r verify p =
    not (is_unsuited p r)
    && (not (overflows p r) && not (is_some (validate_signed_cli p.cli (some verify))))

passes-IsEligible :
    (r : RouteRequest) (verify : SignatureVerifier) (p : HostProfile)
    → passes r verify p ≡ true
    → IsEligible r verify p
unfolding is_unsuited overflows
passes-IsEligible r verify p h = record {
  available = ground arith;
  same_lane = ground (arith, eq_iff p.lane r.lane);
  capable = ground arith;
  serves = contains-In p.contracts r.contract (ground arith);
  fits = ground arith;
  attested = validate_signed_cli-IsAttested p.cli verify (ground arith);
}

IsEligible-passes :
    (r : RouteRequest) (verify : SignatureVerifier) (p : HostProfile)
    → IsEligible r verify p
    → passes r verify p ≡ true
unfolding is_unsuited overflows
IsEligible-passes r verify p e = ground (
  arith,
  eq_iff p.lane r.lane,
  In-contains p.contracts r.contract e.serves,
  IsAttested-validate_signed_cli p.cli verify e.attested,
)

screen-In :
    (ps : List HostProfile) (r : RouteRequest) (verify : SignatureVerifier) (p : HostProfile)
    → In p (screen ps r verify).0
    → In p ps × (passes r verify p ≡ true)
unfolding screen
screen-In [] r verify p m = elim m [ ]
screen-In (q ∷ ps) r verify p m = ground (arith, screen-In ps r verify p)

In-screen :
    (ps : List HostProfile) (r : RouteRequest) (verify : SignatureVerifier) (p : HostProfile)
    → In p ps
    → passes r verify p ≡ true
    → In p (screen ps r verify).0
unfolding screen
In-screen [] r verify p m h = m
In-screen (q ∷ ps) r verify p m h = ground (arith, In-screen ps r verify p)

ranks_before-IsLess : IsLess ranks_before
unfolding ranks_before
ranks_before-IsLess = record {
  asym = λ p q h. ground (arith, str_lt-asym p.id q.id);
  trans_not = λ p q s h k. ground (arith, str_lt-trans_not p.id q.id s.id);
}

module _ (cs : List HostProfile) (q : HostProfile) (m : In q cs) where
  abbrev IsFirst : Type 0
  IsFirst =
      (p : HostProfile) × (first_or (sort ranks_before cs) ≡ ok p)
      × In p cs
      × (ranks_before q p ≡ false)

  first_is_least :
      (l : List HostProfile) → sort ranks_before cs ≡ l → In q l → Sorted ranks_before l → IsFirst
  unfolding first_or
  first_is_least [] e n s = elim n [ ]
  first_is_least (p ∷ l) e n s =
      let here : In p cs = sort-In ranks_before p cs (rw e (inl refl)) in
      (p, ap first_or e, here, least n)
    where
      irreflexive : ranks_before p p ≡ false
      irreflexive = elim (Bool-cases (ranks_before p p)) [
        | inl t ↦ ranks_before-IsLess.asym p p t
        | inr t ↦ t
      ]

      least : (q ≡ p) ⊎ In q l → ranks_before q p ≡ false
      least (inl same) = subst (λ x. ranks_before x p ≡ false) (sym same) irreflexive
      least (inr later) = All-In (λ y. ranks_before y p ≡ false) l s.0 later

  first_of_sorted : IsFirst
  first_of_sorted =
      first_is_least (sort ranks_before cs) refl (In-sort ranks_before q cs m)
        (sort-Sorted ranks_before ranks_before-IsLess cs)

-- `p` has the lower rank, or the same rank and an id that is not greater.
abbrev pub IsPreferred : HostProfile → HostProfile → Type 0
IsPreferred p q =
    (suc (pos_part p.rank + neg_part q.rank) ≤ pos_part q.rank + neg_part p.rank)
    ⊎ ((p.rank ≡ q.rank) × (str_lt q.id p.id ≡ false))

ranks_before-IsPreferred : (p q : HostProfile) → ranks_before q p ≡ false → IsPreferred p q
unfolding ranks_before
ranks_before-IsPreferred p q h = ground (arith, eq_of_parts p.rank q.rank)

-- Where some profile of the list is eligible, `Route` succeeds, with an eligible profile of the list
-- that has a lower rank than it, or the same rank and an id that is not greater.
pub route_picks_best :
    (profiles : List HostProfile) (r : RouteRequest) (verify : SignatureVerifier) (q : HostProfile)
    → In q profiles
    → IsEligible r verify q
    → (p : HostProfile) × ((route profiles r (some verify)).0 ≡ ok p)
      × In p profiles
      × IsEligible r verify p
      × IsPreferred p q
unfolding route
route_picks_best profiles r verify q m e =
    let cs = (screen profiles r verify).0 in
    let here = In-screen profiles r verify q m (IsEligible-passes r verify q e) in
    let (p, picked, found, least) = first_of_sorted cs q here in
    let (listed, fit) = screen-In profiles r verify p found in
    (p, picked, listed, passes-IsEligible r verify p fit, ranks_before-IsPreferred p q least)

first_or-In : (l : List HostProfile) (p : HostProfile) → first_or l ≡ ok p → In p l
unfolding first_or
first_or-In [] p h = cc
first_or-In (q ∷ l) p h = inl (ground arith)

-- Whatever profile `Route` answers, with any verifier, is one of the list and eligible under a
-- verifier that was given.
pub route_sound :
    (profiles : List HostProfile) (r : RouteRequest) (verifier : Option SignatureVerifier)
    (p : HostProfile)
    → (route profiles r verifier).0 ≡ ok p
    → (verify : SignatureVerifier) × (verifier ≡ some verify)
      × In p profiles
      × IsEligible r verify p
unfolding route
route_sound profiles r none p h = cc
route_sound profiles r (some verify) p h =
    let cs = (screen profiles r verify).0 in
    let found = sort-In ranks_before p cs (first_or-In (sort ranks_before cs) p h) in
    let (listed, fit) = screen-In profiles r verify p found in
    (verify, refl, listed, passes-IsEligible r verify p fit)

-- ===== src/ModelControl/Profile/Routing.antt =====
-- `Route`: the eligible profiles, the findings on those passed over, and the first by rank and id.
pub mod Best
use jacu_harness.Base.{
  ℕ, ◌+◌, String, Bool, true, false, not, ◌&&◌, ◌||◌, List, [], ◌∷◌, Option, none, some, Result, ok,
  err, ltb, nat_beq, if◌then◌else◌, ◌==◌, String-comparable, contains,
}
use jacu_harness.Base.Int.{ℤ, pos_part, neg_part, ltb_ℤ}
use jacu_harness.Base.Sort.{sort}
use jacu_harness.Base.Strings.{str_lt, is_some}
use jacu_harness.ModelControl.Profile.{HostProfile, RouteRequest, SignatureVerifier}
use jacu_harness.ModelControl.Profile.Attestation.{validate_signed_cli}

pub data RouteFinding : Type 0 where
  context_overflow attestation : String → RouteFinding

-- the first test of the loop: passed over with no finding
unfoldable pub is_unsuited : HostProfile → RouteRequest → Bool
is_unsuited p r =
    not p.available
    || (not (p.lane == r.lane)
        || (ltb_ℤ p.capability r.required_capability || not (contains p.contracts r.contract)))

-- The sum is taken in `uint64`, where two `uint32` values do not wrap.
unfoldable pub overflows : HostProfile → RouteRequest → Bool
overflows p r = ltb p.max_context_tokens (r.input_tokens + r.output_tokens)

-- the loop over the profiles: candidates and findings, in the order of the profiles
unfoldable pub screen :
    List HostProfile → RouteRequest → SignatureVerifier → List HostProfile × List RouteFinding
screen [] r verify = ([], [])
screen (p ∷ ps) r verify =
    let (cs, fs) = screen ps r verify in
    if is_unsuited p r
    then (cs, fs)
    else if overflows p r
    then (cs, context_overflow p.id ∷ fs)
    else if is_some (validate_signed_cli p.cli (some verify))
    then (cs, attestation p.id ∷ fs)
    else (p ∷ cs, fs)

-- the `less` of the stable sort
unfoldable pub ranks_before : HostProfile → HostProfile → Bool
ranks_before p q =
    if nat_beq (pos_part p.rank + neg_part q.rank) (pos_part q.rank + neg_part p.rank)
    then str_lt p.id q.id
    else ltb_ℤ p.rank q.rank

pub data RouteError : Type 0 where
  verifier_required no_eligible : RouteError

first_or : List HostProfile → Result RouteError HostProfile
first_or [] = err no_eligible
first_or (p ∷ ps) = ok p

unfoldable pub route :
    List HostProfile
    → RouteRequest
    → Option SignatureVerifier
    → Result RouteError HostProfile × List RouteFinding
unfolding first_or
route profiles r none = (err verifier_required, [])
route profiles r (some verify) =
    let (candidates, findings) = screen profiles r verify in
    (first_or (sort ranks_before candidates), findings)

-- ===== src/ModelControl/Profile/Demotion.antt =====
-- `EvaluateDemotion`, `ApplyDemotionBias` and `sanitize` of resilience.go. The failure rate is kept
-- as a fraction: the quotient of two `uint32` values in `float64` is above the literal 0.40 exactly
-- if the fraction is above 2/5, since unequal fractions of that size are further apart than rounding
-- moves them. An event keeps the values that the code formats into its message.
pub mod Bias
pub mod Names
use Prim.Native.Char.{code}
use jacu_harness.Base.{
  ℕ, ◌+◌, ◌-◌, ◌*◌, String, Bool, true, false, not, ◌&&◌, ◌||◌, List, [], ◌∷◌, ltb, leb,
  if◌then◌else◌, ◌==◌, ℕ-comparable, String-comparable, contains, select,
}
use jacu_harness.Base.Strings.{trim_space, is_empty}
use jacu_harness.ModelControl.Profile.{HostProfile}

-- the two counts are `uint32`
pub record ModelMetric : Type 0 where
  pub profile_id : String
  pub task_kind : String
  pub total_runs : ℕ
  pub accepted_runs : ℕ

-- The failure rate is `failed / samples`, and 0 without samples.
pub record DemotionDecision : Type 0 where
  pub profile_id : String
  pub task_kind : String
  pub failed : ℕ
  pub samples : ℕ
  pub demoted : Bool

unfoldable pub evaluate_demotion : ModelMetric → DemotionDecision
evaluate_demotion m =
    let accepted = if ltb m.total_runs m.accepted_runs then m.total_runs else m.accepted_runs in
    let failed = if ltb 0 m.total_runs then m.total_runs - accepted else 0 in
    record {
      profile_id = m.profile_id;
      task_kind = m.task_kind;
      failed = failed;
      samples = m.total_runs;
      demoted = leb 10 m.total_runs && ltb (2 * m.total_runs) (5 * failed);
    }

pub is_plain : ℕ → Bool
is_plain c =
    (leb b'a' c && leb c b'z')
    || ((leb b'A' c && leb c b'Z')
        || ((leb b'0' c && leb c b'9') || (c == b'-' || (c == b'_' || (c == b'.' || c == b' ')))))

-- The loop of `sanitize`, with the length built so far: plain characters are one byte each.
pub keep_plain : ℕ → String → String
unfolding is_plain
keep_plain built String.[] = ""
keep_plain built (String.◌∷◌ c s) =
    let built' = if is_plain (code c) then built + 1 else built in
    let kept = keep_plain built' s in
    let rest = if leb 80 built' then "" else kept in
    if is_plain (code c) then String.◌∷◌ c rest else rest

unfoldable pub sanitize : String → String
unfolding keep_plain
sanitize value =
    let trimmed = trim_space value in
    let kept = keep_plain 0 trimmed in
    if trimmed == "" then "unknown" else if is_empty kept then "unknown" else kept

pub record DemotionEvent : Type 0 where
  pub profile : String
  pub task : String
  pub failed : ℕ
  pub samples : ℕ

-- the loop over the metrics: the ids demoted for the task, and the events, in order
unfoldable pub demotions : List ModelMetric → String → List String × List DemotionEvent
demotions [] task = ([], [])
demotions (m ∷ ms) task =
    let (ids, events) = demotions ms task in
    let d = evaluate_demotion m in
    if not (m.task_kind == task)
    then (ids, events)
    else if d.demoted
    then (
      d.profile_id ∷ ids,
      record {
        profile = sanitize m.profile_id;
        task = sanitize task;
        failed = d.failed;
        samples = d.samples;
      }
          ∷ events,
    )
    else (ids, events)

abbrev pub or_all : List HostProfile → List HostProfile → List HostProfile
or_all candidates [] = candidates
or_all candidates (k ∷ ks) = k ∷ ks

unfoldable pub apply_demotion_bias :
    List HostProfile → List ModelMetric → String → List HostProfile × List DemotionEvent
apply_demotion_bias candidates metrics task =
    let (ids, events) = demotions metrics task in
    (or_all candidates (select (λ (p : HostProfile). not (contains ids p.id)) candidates), events)

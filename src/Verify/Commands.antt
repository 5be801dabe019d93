-- ===== src/Verify/Commands.antt =====
-- core.go: `ExecuteCommands`, which checks a whole batch before it runs the first command, and
-- `aggregate`. `Site` is what the batch asks of its surroundings; the telemetry of a denial is left out.
pub mod Sound
pub mod Passing
use jacu_harness.Base.{
  ℕ, ◌+◌, String, Bool, true, false, ◌||◌, List, [], ◌∷◌, Option, none, some, Result, ok, err,
  if◌then◌else◌, map, any,
}
use jacu_harness.Verify.Allowlist.{Config, Entry, Refusal, new_allowlist, check}
use jacu_harness.Verify.Runner.{
  System, Runner, Outcome, Reason, CommandStatus, passed, failed, timed_out, blocked, not_run, run,
}

pub data Verdict : Type 0 where
  pass fail timeout verdict_blocked verdict_not_run : Verdict

-- `Data`, where a command that the policy refused stands with its refusal.
pub data Entered : Type 0 where
  ran : Outcome → Entered
  denied : List String → Refusal → Entered

pub record Data : Type 0 where
  pub verdict : Verdict
  pub commands : List Entered
  pub evidence_digest : String
  pub total_duration_ms : ℕ

pub data Denial : Type 0 where
  policy_unreadable : String → Denial
  command_refused : List String → Refusal → Denial
  identity_unavailable : String → Denial
  not_prepared : String → Denial

-- `Execution`
pub record Execution : Type 0 where
  pub report : Data
  pub refusal : Option Denial

pub record Site (W : Type 0) : Type 0 where
  pub system : System W
  pub to_lower : String → String
  pub load_config : W → Result String Config
  pub project_id : W → Result String String
  -- `runnerFor`, which makes the directories, and the removal of the scratch directory
  pub runner_for : String → List String → W → Result String Runner × W
  pub cleanup : Runner → W → W
  pub digest_of : List String → String

unfoldable is_blocked : CommandStatus → Bool
is_blocked blocked = true
is_blocked s = false

unfoldable is_timed_out : CommandStatus → Bool
is_timed_out timed_out = true
is_timed_out s = false

unfoldable is_failed : CommandStatus → Bool
is_failed failed = true
is_failed s = false

unfoldable is_not_run : CommandStatus → Bool
is_not_run not_run = true
is_not_run s = false

abbrev pub is_nil : {A : Type 0} → List A → Bool
is_nil [] = true
is_nil (x ∷ xs) = false

-- `aggregate`
unfoldable pub aggregate : List Outcome → Verdict
unfolding is_blocked is_timed_out is_failed is_not_run
aggregate outcomes =
    if is_nil outcomes
    then verdict_not_run
    else if any (λ o. is_blocked o.status) outcomes
    then verdict_blocked
    else if any (λ o. is_timed_out o.status) outcomes
    then timeout
    else if any (λ o. is_failed o.status) outcomes
    then fail
    else if any (λ o. is_not_run o.status) outcomes
    then verdict_not_run
    else pass

-- the first command that the list does not let through
unfoldable pub first_refused :
    (String → String) → List Entry → List (List String) → Option (List String × Refusal)
first_refused to_lower entries [] = none
first_refused to_lower entries (c ∷ cs) = elim (check to_lower entries c) [
  | some e ↦ some (c, e)
  | none ↦ first_refused to_lower entries cs
]

-- no command after this one
unfoldable pub ends_batch : Outcome → Bool
unfolding is_timed_out is_not_run
ends_batch o = is_timed_out o.status || is_not_run o.status

unfoldable total_duration : List Outcome → ℕ
total_duration [] = 0
total_duration (o ∷ os) = o.produced.duration_ms + total_duration os

module _ {W : Type 0} (site : Site W) where
  abbrev onto : Outcome → List Outcome × W → List Outcome × W
  onto o (os, w) = (o ∷ os, w)

  -- the loop over the commands
  unfoldable pub run_batch : Runner → List (List String) → W → List Outcome × W
  run_batch r [] w = ([], w)
  run_batch r (c ∷ cs) w =
      let (o, w') = run site.system r c w in
      let rest = run_batch r cs w' in if ends_batch o then (o ∷ [], w') else onto o rest

  unfoldable pub empty_data : Verdict → Data
  empty_data verdict = record {
    verdict = verdict;
    commands = [];
    evidence_digest = site.digest_of [];
    total_duration_ms = 0;
  }

  unfoldable refused_by : Denial → Data → Execution
  refused_by denial report = record { report = report; refusal = some denial }

  unfoldable pub batch_report : List Outcome → Execution
  unfolding total_duration
  batch_report outcomes = record {
    report = record {
      verdict = aggregate outcomes;
      commands = map ran outcomes;
      evidence_digest = site.digest_of (map (λ o. o.produced.digest) outcomes);
      total_duration_ms = total_duration outcomes;
    };
    refusal = none;
  }

  unfoldable pub finish_batch : Runner → List Outcome × W → Execution × W
  unfolding batch_report
  finish_batch r (outcomes, w) = (batch_report outcomes, site.cleanup r w)

  unfoldable pub run_prepared : List (List String) → Result String Runner × W → Execution × W
  unfolding empty_data refused_by run_batch finish_batch
  run_prepared commands (err m, w) = (refused_by (not_prepared m) (empty_data verdict_blocked), w)
  run_prepared commands (ok r, w) = finish_batch r (run_batch r commands w)

  unfoldable pub run_identified :
      Config → List (List String) → W → Result String String → Execution × W
  unfolding empty_data refused_by run_prepared
  run_identified config commands w (err m) =
      (refused_by (identity_unavailable m) (empty_data verdict_blocked), w)
  run_identified config commands w (ok id) =
      run_prepared commands (site.runner_for id config.path_dirs w)

  unfoldable pub run_checked :
      Config → List (List String) → W → Option (List String × Refusal) → Execution × W
  unfolding empty_data refused_by run_identified
  run_checked config commands w (some (c, e)) = (
    refused_by (command_refused c e)
        (record (empty_data verdict_blocked) { commands = denied c e ∷ [] }),
    w,
  )
  run_checked config commands w none = run_identified config commands w (site.project_id w)

  unfoldable pub run_configured : List (List String) → W → Result String Config → Execution × W
  unfolding empty_data refused_by first_refused run_checked
  run_configured commands w (err m) =
      (refused_by (policy_unreadable m) (empty_data verdict_blocked), w)
  run_configured commands w (ok config) =
      run_checked config commands w (first_refused site.to_lower (new_allowlist config) commands)

  -- `ExecuteCommands`
  unfoldable pub execute_commands : List (List String) → W → Execution × W
  unfolding empty_data run_configured
  execute_commands commands w =
      if is_nil commands
      then (record { report = empty_data verdict_not_run; refusal = none }, w)
      else run_configured commands w (site.load_config w)

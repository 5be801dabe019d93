-- ===== src/Verify/Tests.antt =====
-- A batch on a small system whose state is the list of the processes started, and the theorems there.
use mathlib.Core.Option.{bind}
use jacu_harness.Base.{
  ◌≡◌, refl, String, true, false, none, some, Result, ok, List, [], ◌∷◌, ◌==◌, String-comparable,
  All, map,
}
use jacu_harness.Base.Paths.{clean_path, split_slash}
use jacu_harness.Base.Strings.{has_prefix, trim_space}
use jacu_harness.Verify.Tail.{write, new_tail_buffer}
use jacu_harness.Verify.Allowlist.{
  Config, entry, new_allowlist, check, global_allowlist, shell_programs, interpreter_flags,
  shell_meta, shell_invocation, not_in_allowlist, contains_shell_meta, entry_admits, first_is_flag,
  has_parent_segment, has_separator, is_absolute_path, is_recursive_forced_removal,
}
use jacu_harness.Verify.Paths.{
  relative_path, elements, relative_elements, join_path, existing, leads_out,
}
use jacu_harness.Verify.Runner.{
  System, Runner, Command, Produced, search_path, run, resolve_program, environment, examine,
  find_in, is_outside, outside_the_worktree, resolved_or_same, launch, spawned, outcome_of,
}
use jacu_harness.Verify.Commands.{
  pass, Site, execute_commands, first_refused, run_batch, aggregate, run_configured, run_checked,
  run_identified, run_prepared, finish_batch, batch_report, ends_batch, empty_data,
}

abbrev produced : Produced
produced = record {
  duration_ms = 3;
  stdout_tail = "ok";
  stderr_tail = "";
  truncated = false;
  bytes_out = 2;
  digest = "sha256:aa";
}

abbrev Log : Type 0
Log = List Command

unfoldable system : System Log
system = record {
  is_cancelled = λ w. false;
  goroot = λ w. "";
  user_home = λ w. none;
  state_dir = λ w. "/home/u/.jacu";
  is_dir = λ w d. d == "/usr/bin";
  is_executable = λ w f. f == "/usr/bin/go";
  eval_symlinks = λ w f. some f;
  spawn = λ command w. (
    ok (record { deadline = false; was_cancelled = false; failure = none; produced = produced }),
    command ∷ w,
  );
}

abbrev runner : Runner
runner = record {
  worktree = "/work/run";
  path_dirs = [];
  toolchain_home = "/h";
  scratch_dir = "/t";
}

abbrev config : Config
config = record { allow = entry "jq" [] ∷ []; deny = "npm" ∷ []; path_dirs = [] }

unfoldable site : Site Log
site = record {
  system = system;
  to_lower = λ s. s;
  load_config = λ w. ok config;
  project_id = λ w. ok "p";
  runner_for = λ id dirs w. (ok runner, w);
  cleanup = λ r w. w;
  digest_of = λ l. "sha256:bb";
}

relative_inside : relative_path "/work/run" "/work/run/bin/go" ≡ some "bin/go"
unfolding relative_path elements clean_path has_prefix bind relative_elements
relative_inside = refl

relative_outside : relative_path "/work/run" "/work/other" ≡ some "../other"
unfolding relative_path elements clean_path has_prefix bind relative_elements
relative_outside = refl

relative_same : relative_path "/work/run/" "/work/run" ≡ some "."
unfolding relative_path elements clean_path has_prefix bind relative_elements
relative_same = refl

abbrev go_test : List String
go_test = "go" ∷ "test" ∷ "./..." ∷ []

shell_refused :
    check (λ s. s) (new_allowlist config) ("bash" ∷ "-c" ∷ "x" ∷ []) ≡ some shell_invocation
unfolding check trim_space new_allowlist global_allowlist shell_programs has_separator
    contains_shell_meta shell_meta has_prefix
shell_refused = refl

denied_program : check (λ s. s) (new_allowlist config) ("npm" ∷ "test" ∷ []) ≡ some not_in_allowlist
unfolding check trim_space new_allowlist global_allowlist shell_programs interpreter_flags
    has_prefix has_separator contains_shell_meta shell_meta first_is_flag has_parent_segment
    split_slash is_absolute_path is_recursive_forced_removal entry_admits
denied_program = refl

-- The commands of the batch pass, and one process was started.
go_test_passes :
    ((execute_commands site (go_test ∷ []) []).0.report.verdict ≡ pass)
    × (map (λ (c : Command). c.binary) (execute_commands site (go_test ∷ []) []).1
        ≡ "/usr/bin/go" ∷ [])
unfolding execute_commands run search_path site check trim_space has_separator contains_shell_meta
    shell_meta has_prefix shell_programs first_is_flag interpreter_flags has_parent_segment
    split_slash is_absolute_path is_recursive_forced_removal new_allowlist global_allowlist
    entry_admits resolve_program environment examine find_in is_outside outside_the_worktree
    relative_path relative_elements elements clean_path join_path existing leads_out
    resolved_or_same system bind launch spawned outcome_of first_refused run_batch aggregate
    run_configured run_checked run_identified run_prepared finish_batch batch_report ends_batch
    empty_data
go_test_passes = (refl, refl)

-- Three bytes of output in one read fill a buffer of three, and are marked as truncated.
exact_fit_truncated :
    write (new_tail_buffer 3) (1 ∷ 2 ∷ 3 ∷ [])
    ≡ record { limit = 3; bytes = 1 ∷ 2 ∷ 3 ∷ []; total = 3; truncated = true }
unfolding write new_tail_buffer
exact_fit_truncated = refl

InWorktree : Log → Type 0
InWorktree = All (λ c. c.dir ≡ "/work/run")

abbrev SameResult : Runner → Runner → Type 0
SameResult a b = ◌≡◌ {A = Result String Runner} (ok a) (ok b)

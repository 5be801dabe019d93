-- ===== src/Verify/Runner.antt =====
-- exec.go: one command. The program is looked up by hand in a search path that is built anew, and runs
-- with an environment that is built anew. The operating system is `System`, over a state `W`.
pub mod Confined
use mathlib.Core.Option.{bind}
use Prim.Native.String.{◌++◌ as str_append}
use jacu_harness.Base.{
  ℕ, zero, suc, String, Bool, true, false, not, ◌&&◌, ◌||◌, List, [], ◌∷◌, ◌++◌, Option, none, some,
  Result, ok, err, if◌then◌else◌, ◌==◌, ℕ-comparable, String-comparable, contains, select, leb,
}
use jacu_harness.Base.Int.{ℤ, pos}
use jacu_harness.Base.Paths.{clean_path, split_slash, join_slash}
use jacu_harness.Base.Strings.{has_prefix, is_empty}
use jacu_harness.Verify.Allowlist.{has_separator}
use jacu_harness.Verify.Paths.{join_path, relative_path, existing, leads_out}

pub data CommandStatus : Type 0 where
  passed failed timed_out blocked not_run : CommandStatus

pub data Reason : Type 0 where
  no_reason missing_program cancelled program_path timeout_passed : Reason
  resolved_inside : String → String → Reason
  not_found : String → List String → Reason
  system_error : String → Reason

-- What a process wrote, as `drain` and the tail buffers leave it, and how long it ran.
pub record Produced : Type 0 where
  pub duration_ms : ℕ
  pub stdout_tail : String
  pub stderr_tail : String
  pub truncated : Bool
  pub bytes_out : ℕ
  pub digest : String

-- `Result`
pub record Outcome : Type 0 where
  pub argv : List String
  pub status : CommandStatus
  pub exit_code : Option ℤ
  pub produced : Produced
  pub reason : Reason

-- `Runner`. The timeout and the tail's length are the system's.
pub record Runner : Type 0 where
  pub worktree : String
  pub path_dirs : List String
  pub toolchain_home : String
  pub scratch_dir : String

-- The fields of `exec.Cmd` that the code sets.
pub record Command : Type 0 where
  pub binary : String
  pub args : List String
  pub dir : String
  pub env : List String

pub data WaitError : Type 0 where
  exited : ℤ → WaitError
  wait_failed : String → WaitError

-- A process that ended: whether the deadline had passed and whether the caller had cancelled.
pub record Finished : Type 0 where
  pub deadline : Bool
  pub was_cancelled : Bool
  pub failure : Option WaitError
  pub produced : Produced

pub record System (W : Type 0) : Type 0 where
  pub is_cancelled : W → Bool
  pub goroot : W → String
  pub user_home : W → Option String
  pub state_dir : W → String
  pub is_dir : W → String → Bool
  pub is_executable : W → String → Bool
  pub eval_symlinks : W → String → Option String
  pub spawn : Command → W → Result String Finished × W

module _ {W : Type 0} (sys : System W) where
  under_root : String → List String
  unfolding join_path
  under_root root = if is_empty root then [] else join_path root "bin" ∷ []

  under_home : Option String → List String
  unfolding join_path
  under_home none = []
  under_home (some home) =
      if is_empty home
      then []
      else clean_path (str_append home "/.cargo/bin")
        ∷ clean_path (str_append home "/.local/bin")
        ∷ []

  -- `searchPath`
  unfoldable pub search_path : List String → W → List String
  unfolding existing under_root under_home
  search_path path_dirs w = existing (sys.is_dir w) [] (
      path_dirs
      ++ under_root (sys.goroot w)
      ++ ("/usr/local/go/bin" ∷ "/opt/homebrew/bin" ∷ "/home/linuxbrew/.linuxbrew/bin" ∷ [])
      ++ under_home (sys.user_home w)
      ++ ("/usr/local/bin" ∷ "/usr/bin" ∷ "/bin" ∷ []))

  unfoldable pub resolved_or_same : W → String → String
  resolved_or_same w root = elim (sys.eval_symlinks w root) [ some r ↦ r | none ↦ root ]

  unfoldable pub is_outside : W → String → String → Bool
  unfolding leads_out
  is_outside w root binary =
      is_empty root || leads_out (relative_path (resolved_or_same w root) binary)

  -- `outsideTheWorktree`, of which none is success. The code ranges over a map of the two places, in any
  -- order; here the worktree is first.
  unfoldable pub outside_the_worktree : Runner → W → String → Option Reason
  unfolding is_outside
  outside_the_worktree r w binary =
      if not (is_outside w r.worktree binary)
      then some (resolved_inside "worktree" binary)
      else if not (is_outside w (sys.state_dir w) binary)
      then some (resolved_inside "jacu state directory" binary)
      else none

  abbrev refused_or : String → Option Reason → Result Reason String
  refused_or resolved none = ok resolved
  refused_or resolved (some why) = err why

  -- what the lookup makes of one candidate: nothing, a refusal, or the program
  unfoldable pub examine : Runner → W → String → Option (Result Reason String)
  examine r w candidate =
      if not (sys.is_executable w candidate)
      then none
      else bind (sys.eval_symlinks w candidate)
          (λ resolved. some (refused_or resolved (outside_the_worktree r w resolved)))

  abbrev first :
      Option (Result Reason String) → Option (Result Reason String) → Option (Result Reason String)
  first none later = later
  first (some answer) later = some answer

  unfoldable pub find_in : Runner → W → String → List String → Option (Result Reason String)
  unfolding examine join_path
  find_in r w program [] = none
  find_in r w program (dir ∷ dirs) =
      first (examine r w (join_path dir program)) (find_in r w program dirs)

  abbrev found_or : Reason → Option (Result Reason String) → Result Reason String
  found_or why none = err why
  found_or why (some answer) = answer

  -- `resolveProgram`
  unfoldable pub resolve_program : Runner → W → String → Result Reason String
  unfolding find_in
  resolve_program r w program =
      if has_separator program
      then err program_path
      else found_or (not_found program (search_path r.path_dirs w))
          (find_in r w program (search_path r.path_dirs w))

  -- `strings.Join` of the search path and the list separator
  join_colon : List String → String
  join_colon [] = ""
  join_colon (d ∷ []) = d
  join_colon (d ∷ e ∷ ds) = str_append d (str_append ":" (join_colon (e ∷ ds)))

  unfoldable pub environment : Runner → W → List String
  unfolding join_colon
  environment r w =
      str_append "PATH=" (join_colon (search_path r.path_dirs w))
      ∷ str_append "HOME=" r.toolchain_home
      ∷ str_append "TMPDIR=" r.scratch_dir
      ∷ "LANG=C.UTF-8"
      ∷ []

  abbrev pub nothing_produced : Produced
  nothing_produced = record {
    duration_ms = 0;
    stdout_tail = "";
    stderr_tail = "";
    truncated = false;
    bytes_out = 0;
    digest = "";
  }

  -- a result before anything ran
  abbrev pub without_run : List String → CommandStatus → Reason → Outcome
  without_run argv status why = record {
    argv = argv;
    status = status;
    exit_code = none;
    produced = nothing_produced;
    reason = why;
  }

  abbrev ended : List String → Finished → CommandStatus → Option ℤ → Reason → Outcome
  ended argv f status exit why = record {
    argv = argv;
    status = status;
    exit_code = exit;
    produced = f.produced;
    reason = why;
  }

  unfoldable pub outcome_of : List String → Finished → Outcome
  outcome_of argv f =
      if f.deadline
      then ended argv f timed_out none timeout_passed
      else if f.was_cancelled
      then ended argv f not_run none cancelled
      else elim f.failure [
        | none ↦ ended argv f passed (some (pos 0)) no_reason
        | some (exited code) ↦ ended argv f failed (some code) no_reason
        | some (wait_failed m) ↦ ended argv f failed none (system_error m)
      ]

  unfoldable pub spawned : List String → Result String Finished × W → Outcome × W
  unfolding outcome_of
  spawned argv (ok f, w) = (outcome_of argv f, w)
  spawned argv (err m, w) = (without_run argv blocked (system_error m), w)

  abbrev pub command_of : Runner → W → String → List String → Command
  command_of r w binary args = record {
    binary = binary;
    args = args;
    dir = r.worktree;
    env = environment r w;
  }

  unfoldable pub launch :
      Runner → List String → List String → Result Reason String → W → Outcome × W
  unfolding spawned
  launch r argv args (err why) w = (without_run argv blocked why, w)
  launch r argv args (ok binary) w = spawned argv (sys.spawn (command_of r w binary args) w)

  -- `Run`
  unfoldable pub run : Runner → List String → W → Outcome × W
  unfolding launch resolve_program
  run r [] w = (without_run [] blocked missing_program, w)
  run r (program ∷ args) w =
      if sys.is_cancelled w
      then (without_run (program ∷ args) not_run cancelled, w)
      else launch r (program ∷ args) args (resolve_program r w program) w

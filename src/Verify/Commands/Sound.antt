-- ===== src/Verify/Commands/Sound.antt =====
-- What a batch of commands may run, and what its verdict says.
use jacu_harness.Base.{◌≡◌, String, List, ◌∷◌, ok, In}
use jacu_harness.Verify.Allowlist.{Config}
use jacu_harness.Verify.Allowlist.Sound.{IsAdmitted}
use jacu_harness.Verify.Runner.{Runner, Command}
use jacu_harness.Verify.Runner.Confined.{IsStarted}
use jacu_harness.Verify.Commands.{Site}

-- A command line that the list composed from the configuration admits.
pub record IsAllowed (to_lower : String → String) (config : Config) (argv : List String)
    : Type 0 where
  pub program : String
  pub args : List String
  pub same : argv ≡ program ∷ args
  pub admitted : IsAdmitted to_lower config program args

module _ {W : Type 0} (site : Site W) (commands : List (List String)) (start : W) where
  -- A process of the batch: a command of it, when the configuration that is read at the start allows
  -- the whole batch, started the way `Run` starts one, by the runner that is made at the start.
  pub record IsBatchProcess (w : W) (command : Command) : Type 0 where
    pub config : Config
    pub loaded : site.load_config start ≡ ok config
    pub allowed : (c : List String) → In c commands → IsAllowed site.to_lower config c
    pub argv : List String
    pub of_batch : In argv commands
    pub runner : Runner
    pub project : String
    pub identified : site.project_id start ≡ ok project
    pub prepared : (site.runner_for project config.path_dirs start).0 ≡ ok runner
    pub started : IsStarted site.system runner argv w command

  -- A predicate that survives what a batch may do.
  pub record Survives (P : W → Type 0) : Type 0 where
    pub process :
        (w : W) (command : Command)
        → IsBatchProcess w command
        → P w
        → P (site.system.spawn command w).1
    pub preparing :
        (id : String) (dirs : List String) (w : W) → P w → P (site.runner_for id dirs w).1
    pub cleaning : (r : Runner) (w : W) → P w → P (site.cleanup r w)

-- ===== src/Verify/Runner/Confined.antt =====
-- What `Run` starts, and what its outcome says.
use mathlib.Core.Option.{bind}
use Prim.Native.String.{◌++◌ as str_append}
use jacu_harness.Base.Int.{pos}
use jacu_harness.Verify.Allowlist.{has_separator}
use jacu_harness.Base.{
  ◌≡◌, refl, sym, ap, subst, inl, inr, String, true, false, List, [], ◌∷◌, Option, none, some,
  Result, ok, err, arith, Bool-cases,
}
use jacu_harness.Verify.Paths.{join_path}
use jacu_harness.Verify.Runner.{
  Runner, System, Command, Outcome, passed, Reason, Finished, is_outside, outside_the_worktree,
  examine, resolve_program, environment, join_colon, command_of, launch, run, outcome_of, ended,
  WaitError, exited, wait_failed, failed, no_reason, system_error, refused_or, first, find_in,
  found_or, search_path, program_path, not_found, spawned,
}

spawned-1 :
    {W : Type 0} (sys : System W) (argv : List String) (p : Result String Finished × W)
    → (spawned sys argv p).1 ≡ p.1
unfolding spawned
spawned-1 sys argv (ok f, w) = refl
spawned-1 sys argv (err m, w) = refl

module _ {W : Type 0} (sys : System W) (r : Runner) where
  -- A binary that may be started: it lies outside the worktree and outside the harness's own state.
  pub record IsForeign (w : W) (binary : String) : Type 0 where
    pub outside_worktree : is_outside sys w r.worktree binary ≡ true
    pub outside_state : is_outside sys w (sys.state_dir w) binary ≡ true

  abbrev Answers : W → Option (Result Reason String) → Type 0
  Answers w answer = (binary : String) → answer ≡ some (ok binary) → IsForeign w binary

  outside_the_worktree-IsForeign :
      (w : W) (binary : String) → outside_the_worktree sys r w binary ≡ none → IsForeign w binary
  unfolding outside_the_worktree
  outside_the_worktree-IsForeign w binary h = record {
    outside_worktree = ground arith;
    outside_state = ground arith;
  }

  refused_or-Answers :
      (w : W) (resolved : String) (o : Option Reason)
      → outside_the_worktree sys r w resolved ≡ o
      → Answers w (some (refused_or sys resolved o))
  refused_or-Answers w resolved none q binary h =
      let e : resolved ≡ binary = cc in
      subst (IsForeign w) e (outside_the_worktree-IsForeign w resolved q)
  refused_or-Answers w resolved (some why) q binary h = cc

  bind-Answers :
      (w : W) (o : Option String)
      → Answers w (bind o (λ s. some (refused_or sys s (outside_the_worktree sys r w s))))
  unfolding bind
  bind-Answers w none binary h = cc
  bind-Answers w (some s) binary h =
      refused_or-Answers w s (outside_the_worktree sys r w s) refl binary h

  examine-Answers : (w : W) (candidate : String) → Answers w (examine sys r w candidate)
  unfolding examine
  examine-Answers w candidate binary h = elim (Bool-cases (sys.is_executable w candidate)) [
    | inl t ↦ bind-Answers w (sys.eval_symlinks w candidate) binary (rw t at h)
    | inr t ↦ let q : none ≡ some (ok binary) = rw t at h in cc
  ]

  first-Answers :
      (w : W) (a b : Option (Result Reason String))
      → Answers w a
      → Answers w b
      → Answers w (first sys a b)
  first-Answers w none b p q = q
  first-Answers w (some a) b p q = p

  find_in-Answers :
      (w : W) (program : String) (dirs : List String) → Answers w (find_in sys r w program dirs)
  unfolding find_in
  find_in-Answers w program [] = λ binary h. cc
  find_in-Answers w program (dir ∷ dirs) =
      first-Answers w _ _ (examine-Answers w (join_path dir program))
        (find_in-Answers w program dirs)

  found_or-IsForeign :
      (w : W) (why : Reason) (a : Option (Result Reason String)) (binary : String)
      → Answers w a
      → found_or sys why a ≡ ok binary
      → IsForeign w binary
  found_or-IsForeign w why none binary p h = cc
  found_or-IsForeign w why (some a) binary p h = p binary (ap some h)

  -- `Run` resolves a program to a binary that neither the worktree nor the harness's state supplies.
  resolve_program-IsForeign :
      (w : W) (program binary : String)
      → resolve_program sys r w program ≡ ok binary
      → IsForeign w binary
  unfolding resolve_program
  resolve_program-IsForeign w program binary h = elim (Bool-cases (has_separator program)) [
    | inl t ↦ let q : err program_path ≡ ok binary = rw t at h in cc
    | inr t ↦
        found_or-IsForeign w (not_found program (search_path sys r.path_dirs w))
          (find_in sys r w program (search_path sys r.path_dirs w)) binary
          (find_in-Answers w program (search_path sys r.path_dirs w)) (rw t at h)
  ]

  -- A process that `Run` starts for a command line.
  pub record IsStarted (argv : List String) (w : W) (command : Command) : Type 0 where
    pub program : String
    pub of_line : argv ≡ program ∷ command.args
    pub wanted : sys.is_cancelled w ≡ false
    pub foreign : IsForeign w command.binary
    pub in_worktree : command.dir ≡ r.worktree
    pub path : String
    pub built_env :
        command.env
        ≡ str_append "PATH=" path
          ∷ str_append "HOME=" r.toolchain_home
          ∷ str_append "TMPDIR=" r.scratch_dir
          ∷ "LANG=C.UTF-8"
          ∷ []

  launch_keeps :
      (P : W → Type 0) (program : String) (args : List String) (answer : Result Reason String)
      (w : W)
      → sys.is_cancelled w ≡ false
      → ((binary : String) → answer ≡ ok binary → IsForeign w binary)
      → ((command : Command)
          → IsStarted (program ∷ args) w command
          → P w
          → P (sys.spawn command w).1)
      → P w
      → P (launch sys r (program ∷ args) args answer w).1
  unfolding launch environment
  launch_keeps P program args (err why) w live foreign keeps p = p
  launch_keeps P program args (ok binary) w live foreign keeps p =
      let command = command_of sys r w binary args in
      subst P (sym (spawned-1 sys (program ∷ args) (sys.spawn command w))) (
        keeps command
          (record {
            program = program;
            of_line = refl;
            wanted = live;
            foreign = foreign binary refl;
            in_worktree = refl;
            path = join_colon sys (search_path sys r.path_dirs w);
            built_env = refl;
          })
          p)

  -- What every process that `Run` may start keeps, `Run` keeps.
  pub run_keeps :
      (P : W → Type 0) (argv : List String) (w : W)
      → ((command : Command) → IsStarted argv w command → P w → P (sys.spawn command w).1)
      → P w
      → P (run sys r argv w).1
  unfolding run
  run_keeps P [] w keeps p = p
  run_keeps P (program ∷ args) w keeps p = elim (Bool-cases (sys.is_cancelled w)) [
    | inl t ↦ rw t p
    | inr t ↦ rw t (
        launch_keeps P program args (resolve_program sys r w program) w t
          (resolve_program-IsForeign w program) keeps p)
  ]

module _ {W : Type 0} (sys : System W) (r : Runner) where
  outcome_of-argv : (argv : List String) (f : Finished) → (outcome_of sys argv f).argv ≡ argv
  unfolding outcome_of
  outcome_of-argv argv f = elim (Bool-cases f.deadline) [
    | inl t ↦ rw t refl
    | inr t ↦ elim (Bool-cases f.was_cancelled) [
      | inl u ↦ rw t (rw u refl)
      | inr u ↦ rw t (rw u (failure_of f.failure))
    ]
  ]
    where
      failure_of :
          (o : Option WaitError)
          → (elim o as (λ x. Outcome) [
            | none ↦ ended sys argv f passed (some (pos 0)) no_reason
            | some (exited code) ↦ ended sys argv f failed (some code) no_reason
            | some (wait_failed m) ↦ ended sys argv f failed none (system_error m)
          ]).argv
            ≡ argv
      failure_of none = refl
      failure_of (some (exited code)) = refl
      failure_of (some (wait_failed m)) = refl

  spawned-argv :
      (argv : List String) (p : Result String Finished × W) → (spawned sys argv p).0.argv ≡ argv
  unfolding spawned
  spawned-argv argv (ok f, w) = outcome_of-argv argv f
  spawned-argv argv (err m, w) = refl

  launch-argv :
      (argv args : List String) (a : Result Reason String) (w : W)
      → (launch sys r argv args a w).0.argv ≡ argv
  unfolding launch
  launch-argv argv args (err why) w = refl
  launch-argv argv args (ok binary) w = spawned-argv argv _

  -- The outcome of a command names the command.
  pub run-argv : (argv : List String) (w : W) → (run sys r argv w).0.argv ≡ argv
  unfolding run
  run-argv [] w = refl
  run-argv (p ∷ args) w = elim (Bool-cases (sys.is_cancelled w)) [
    | inl t ↦ rw t refl
    | inr t ↦ rw t (launch-argv (p ∷ args) args _ w)
  ]

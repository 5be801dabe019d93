-- ===== src/Verify/Commands/Passing.antt =====
-- What the verdict "pass" of a batch says.
use jacu_harness.Base.{
  ◌≡◌, refl, inl, inr, String, true, false, List, [], ◌∷◌, Option, none, some, Result, ok, err,
  arith, Bool-cases, In, All, All-In, map, any,
}
use jacu_harness.Verify.Allowlist.{Config, Refusal}
use jacu_harness.Verify.Runner.{
  Runner, Outcome, CommandStatus, passed, failed, timed_out, blocked, not_run, run,
}
use jacu_harness.Verify.Runner.Confined.{run-argv}
use jacu_harness.Verify.Commands.{
  Site, Execution, pass, verdict_not_run, ran, aggregate, ends_batch, run_batch, finish_batch,
  run_prepared, run_identified, run_checked, run_configured, execute_commands, refused_by,
  empty_data, batch_report, is_blocked, is_timed_out, is_failed, is_not_run, is_nil,
}

abbrev Passed : Outcome → Type 0
Passed o = o.status ≡ passed

-- Every command ran, in the order of the batch, and passed.
pub record IsPassed (commands : List (List String)) (e : Execution) : Type 0 where
  pub outcomes : List Outcome
  pub not_refused : e.refusal ≡ none
  pub some_command : is_nil commands ≡ false
  pub reported : e.report.commands ≡ map ran outcomes
  pub of_batch : map (λ o. o.argv) outcomes ≡ commands
  pub all_passed : (o : Outcome) → In o outcomes → o.status ≡ passed

remaining-passed :
    (s : CommandStatus)
    → is_blocked s ≡ false
    → is_timed_out s ≡ false
    → is_failed s ≡ false
    → is_not_run s ≡ false
    → s ≡ passed
unfolding is_blocked is_timed_out is_failed is_not_run
remaining-passed passed a b c d = refl
remaining-passed failed a b c d = cc
remaining-passed timed_out a b c d = cc
remaining-passed blocked a b c d = cc
remaining-passed not_run a b c d = cc

none-Passed :
    (outcomes : List Outcome)
    → any (λ o. is_blocked o.status) outcomes ≡ false
    → any (λ o. is_timed_out o.status) outcomes ≡ false
    → any (λ o. is_failed o.status) outcomes ≡ false
    → any (λ o. is_not_run o.status) outcomes ≡ false
    → All Passed outcomes
none-Passed [] a b c d = tt
none-Passed (o ∷ os) a b c d = (
  remaining-passed o.status (ground arith) (ground arith) (ground arith) (ground arith),
  none-Passed os (ground arith) (ground arith) (ground arith) (ground arith),
)

aggregate-Passed :
    (outcomes : List Outcome)
    → aggregate outcomes ≡ pass
    → All Passed outcomes × (is_nil outcomes ≡ false)
unfolding aggregate
aggregate-Passed outcomes h =
    (none-Passed outcomes (ground arith) (ground arith) (ground arith) (ground arith), ground arith)

ends_batch-Passed : (o : Outcome) → ends_batch o ≡ true → ¬ Passed o
unfolding ends_batch is_timed_out is_not_run
ends_batch-Passed o h p = let q : false ≡ true = rw p at h in cc

cons_eq : {A : Type 0} {x y : A} {xs ys : List A} → x ≡ y → xs ≡ ys → x ∷ xs ≡ y ∷ ys
cons_eq p q = cc

module _ {W : Type 0} (site : Site W) where
  run_batch-argv :
      (r : Runner) (cs : List (List String)) (w : W)
      → All Passed (run_batch site r cs w).0
      → map (λ o. o.argv) (run_batch site r cs w).0 ≡ cs
  unfolding run_batch
  run_batch-argv r [] w h = refl
  run_batch-argv r (c ∷ cs) w h = elim (Bool-cases (ends_batch (run site.system r c w).0)) [
    | inl t ↦
        let k : Passed (run site.system r c w).0 × Unit = rw t at h in
        elim (ends_batch-Passed (run site.system r c w).0 t k.0) [ ]
    | inr t ↦
        let k : Passed (run site.system r c w).0
            × All Passed (run_batch site r cs (run site.system r c w).1).0 =
          rw t at h in
        let first = run-argv site.system r c w in
        let rest = run_batch-argv r cs (run site.system r c w).1 k.1 in rw t (cons_eq first rest)
  ]

  batch-IsPassed :
      (r : Runner) (commands : List (List String)) (w : W)
      → is_nil commands ≡ false
      → (batch_report site (run_batch site r commands w).0).report.verdict ≡ pass
      → IsPassed commands (batch_report site (run_batch site r commands w).0)
  unfolding batch_report
  batch-IsPassed r commands w some_left h =
      let a = aggregate-Passed (run_batch site r commands w).0 h in
      record {
        outcomes = (run_batch site r commands w).0;
        not_refused = refl;
        some_command = some_left;
        reported = refl;
        of_batch = run_batch-argv r commands w a.0;
        all_passed = λ o i. All-In Passed (run_batch site r commands w).0 a.0 i;
      }

  module _ (commands : List (List String)) (some_left : is_nil commands ≡ false) where
    run_prepared-IsPassed :
        (p : Result String Runner × W)
        → (run_prepared site commands p).0.report.verdict ≡ pass
        → IsPassed commands (run_prepared site commands p).0
    unfolding run_prepared finish_batch refused_by empty_data
    run_prepared-IsPassed (err m, w) h = cc
    run_prepared-IsPassed (ok r, w) h = batch-IsPassed r commands w some_left h

    run_identified-IsPassed :
        (config : Config) (w : W) (id : Result String String)
        → (run_identified site config commands w id).0.report.verdict ≡ pass
        → IsPassed commands (run_identified site config commands w id).0
    unfolding run_identified refused_by empty_data
    run_identified-IsPassed config w (err m) h = cc
    run_identified-IsPassed config w (ok id) h = run_prepared-IsPassed _ h

    run_checked-IsPassed :
        (config : Config) (w : W) (refused : Option (List String × Refusal))
        → (run_checked site config commands w refused).0.report.verdict ≡ pass
        → IsPassed commands (run_checked site config commands w refused).0
    unfolding run_checked refused_by empty_data
    run_checked-IsPassed config w (some (c, e)) h = cc
    run_checked-IsPassed config w none h = run_identified-IsPassed config w _ h

    run_configured-IsPassed :
        (w : W) (config : Result String Config)
        → (run_configured site commands w config).0.report.verdict ≡ pass
        → IsPassed commands (run_configured site commands w config).0
    unfolding run_configured refused_by empty_data
    run_configured-IsPassed w (err m) h = cc
    run_configured-IsPassed w (ok config) h = run_checked-IsPassed config w _ h

  -- The verdict is "pass" only where every command of a batch that is not empty ran and passed.
  execute_commands-IsPassed :
      (commands : List (List String)) (w : W)
      → (execute_commands site commands w).0.report.verdict ≡ pass
      → IsPassed commands (execute_commands site commands w).0
  unfolding execute_commands empty_data
  execute_commands-IsPassed commands w h = elim (Bool-cases (is_nil commands)) [
    | inl t ↦ let q : verdict_not_run ≡ pass = rw t at h in cc
    | inr t ↦ rw t (run_configured-IsPassed commands t w (site.load_config w) (rw t at h))
  ]

-- ===== src/Orchestration/Engine/Execute.antt =====
-- engine.go: `Execute`.
pub mod Calls
use jacu_harness.Base.{
  ℕ, Bool, true, false, List, [], ◌∷◌, Option, none, some, Result, ok, err, if◌then◌else◌, String,
}
use Prim.Native.String.{◌++◌ as str_append}
use jacu_harness.Orchestration.Flow.{Flow, Fields}
use jacu_harness.Orchestration.Schedule.{ScheduleError, cycle, schedule_waves}
use jacu_harness.Orchestration.Validation.{Finding, blocks, blocked, validate}
use jacu_harness.Orchestration.Edges.{fan_out_finding, max_wave_width}
use jacu_harness.Orchestration.Engine.{
  Host, Executor, TraceEvent, unscheduled, nil_executor, Reply, replied, schedule_message,
}
use jacu_harness.Orchestration.Engine.Waves.{Site, run_waves}
use jacu_harness.Orchestration.Engine.Walk.{execute_bounded_cycle}

abbrev pub blocked_reply :
    {E : Type 0} → String → List (List String) → List TraceEvent → List Finding → Reply E
blocked_reply summary waves trace findings = record {
  result = record {
    status = "blocked";
    summary = summary;
    waves = waves;
    trace = trace;
    findings = findings;
  };
  error = none;
}

abbrev pub blocked_event : ScheduleError → TraceEvent
blocked_event e = record {
  node_id = "";
  uses = "";
  wave = 0;
  visit = 0;
  status = "";
  verdict = "";
  policy = "";
  decision = "blocked";
  reason = some (unscheduled e);
}

module _ {E W : Type 0} (host : Host E W) (flow : Flow) (initial : Fields) where
  -- `msg` of `fanOutFinding`
  pub fan_out_message : ℕ → String
  fan_out_message width =
      str_append "wave width "
        (str_append (host.decimal width) (str_append " exceeds cap " (host.decimal max_wave_width)))

  -- behind the schedule, and the width of its waves
  unfoldable pub execute_waves :
      Executor E W → List (List String) → Option ℕ → Site W → Reply E × Site W
  execute_waves executor waves (some width) s = (
    blocked_reply "Flow fan-out exceeds cap." waves []
        (blocks "fan_out" (fan_out_message width) "" "" ∷ []),
    s,
  )
  execute_waves executor waves none s =
      run_waves host executor flow initial waves 0 waves
        (record { results = []; trace = []; site = s })

  abbrev pub in_site : Site W → Reply E × W → Reply E × Site W
  in_site s (r, w) = (r, record s { world = w })

  unfoldable pub execute_scheduled :
      Executor E W → Result ScheduleError (List (List String)) → Site W → Reply E × Site W
  unfolding execute_waves
  execute_scheduled executor (ok waves) s = execute_waves executor waves (fan_out_finding waves) s
  execute_scheduled executor (err (cycle id)) s =
      in_site s (execute_bounded_cycle host executor flow initial s.world)
  execute_scheduled executor (err e) s = (
    blocked_reply "Flow scheduling blocked." [] (blocked_event e ∷ [])
        (blocks "schedule" (schedule_message host.quote e) "" "" ∷ []),
    s,
  )

  unfoldable pub execute_with : Option (Executor E W) → Site W → Reply E × Site W
  unfolding execute_scheduled
  execute_with none s = (record (replied {E = E} "" "" [] []) { error = some nil_executor }, s)
  execute_with (some executor) s = execute_scheduled executor (schedule_waves flow) s

  unfoldable pub execute : Option (Executor E W) → Site W → Reply E × Site W
  unfolding execute_with
  execute executor s =
      if blocked (validate flow)
      then (blocked_reply "Flow validation blocked." [] [] (validate flow), s)
      else execute_with executor s

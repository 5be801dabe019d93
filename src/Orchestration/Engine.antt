-- ===== src/Orchestration/Engine.antt =====
-- engine.go: what the two loops that run a flow share. The host gives the executor, the clock, the
-- digests of binaries, whether the run is cancelled, and the order in which the goroutines of a wave
-- come to run; all of it may depend on a world `W`, which the executor changes. The markdown of the
-- opinions is left out.
pub mod Cleared
pub mod Waves
pub mod Calls
pub mod Walk
pub mod Execute
mod Tests
use Prim.Native.String.{◌++◌ as str_append}
use jacu_harness.Base.{
  ℕ, ◌≡◌, String, Bool, List, [], ◌∷◌, Option, none, some, Result, ok, err, if◌then◌else◌, ◌==◌,
  String-comparable, select,
}
use jacu_harness.Base.Int.{ℤ, pos}
use jacu_harness.Base.Strings.{str_lt}
use jacu_harness.Orchestration.Flow.{Node, Edge, Flow, Fields, no_fields}
use jacu_harness.Orchestration.Schedule.{ScheduleError, dangling, cycle, broken}
use jacu_harness.Orchestration.Validation.{Finding}
use jacu_harness.Orchestration.Edges.{NodeResult, Decision}
use jacu_harness.Orchestration.Resolve.{Output, Results, ResolveError}

-- `quote` and `decimal` are the `%q` and `%d` of `fmt`.
pub record Host (E W : Type 0) : Type 0 where
  pub clock : W → ℤ
  pub digest : W → String → Option String
  pub cancelled : W → Bool
  pub arrange : W → List Node → List Node
  pub quote : String → String
  pub decimal : ℕ → String

-- `NodeExecutor`
abbrev pub Executor : Type 0 → Type 0 → Type 0
Executor E W = Node → Results → W → Result E (NodeResult Output) × W

pub data Why : Type 0 where
  unmatched : Decision → Why
  unscheduled : ScheduleError → Why

pub record TraceEvent : Type 0 where
  pub node_id : String
  pub uses : String
  pub wave : ℕ
  pub visit : ℕ
  pub status : String
  pub verdict : String
  pub policy : String
  pub decision : String
  pub reason : Option Why

pub record FlowResult : Type 0 where
  pub status : String
  pub summary : String
  pub waves : List (List String)
  pub trace : List TraceEvent
  pub findings : List Finding

pub data FlowError (E : Type 0) : Type 0 where
  nil_executor : FlowError E
  unresolved : ResolveError → FlowError E
  executor_failed : E → FlowError E

-- the result and the error that are returned together
pub record Reply (E : Type 0) : Type 0 where
  pub result : FlowResult
  pub error : Option (FlowError E)

abbrev pub replied : {E : Type 0} → String → String → List (List String) → List TraceEvent → Reply E
replied status summary waves trace = record {
  result = record {
    status = status;
    summary = summary;
    waves = waves;
    trace = trace;
    findings = [];
  };
  error = none;
}

abbrev pub zero_node : Node
zero_node = record {
  id = "";
  uses = "";
  lane = "";
  with_fields = no_fields;
  allowed_paths = [];
  max_visits = pos 0;
}

-- `nodes[id]`, the first node of the id
unfoldable pub node_at : List Node → String → Node
node_at [] id = zero_node
node_at (n ∷ ns) id = let rest = node_at ns id in if n.id == id then n else rest

-- `edgesByTarget[id]`
unfoldable pub edges_to : List Edge → String → List Edge
edges_to es id = select (λ e. e.to == id) es

abbrev pub executed : Node → ℕ → ℕ → NodeResult Output → TraceEvent
executed node wave visit r = record {
  node_id = node.id;
  uses = node.uses;
  wave = wave;
  visit = visit;
  status = r.status;
  verdict = r.verdict;
  policy = r.policy;
  decision = "executed";
  reason = none;
}

unfoldable pub event_before : TraceEvent → TraceEvent → Bool
event_before a b = str_lt a.node_id b.node_id

-- `ScheduleError.Error`
pub schedule_message : (String → String) → ScheduleError → String
schedule_message quote (dangling from to) =
    str_append "dangling edge " (str_append (quote from) (str_append " -> " (quote to)))
schedule_message quote (cycle node) = str_append "cycle involving " (quote node)
schedule_message quote broken = ""

-- ===== src/Lib.antt =====
-- The governance core of jacu, a harness for coding agents. A mission is given a risk and a ceremony
-- (MissionCompile) and is routed to a host profile under a budget (ModelControl), with a context pack
-- that fits (ContextLedger); its nodes run in the order of a flow's edges (Orchestration) and write
-- within their scopes (Scope); its commands run only as an allow-list lets them (Verify); its run is
-- recorded (RunState), and its changes are applied without a person only under a policy and a review
-- receipt (Workspace).
--
-- ModelControl (internal/modelcontrol):
--   ModelControl/Complexity  complexity.go, `Classify`
--   ModelControl/Dial        dial.go
--   ModelControl/Cost        cost.go, cost traces and the mission ledger
--   ModelControl/Breaker     resilience.go, the circuit breaker as a state machine over its calls
--   ModelControl/Escalation  resilience.go, `EscalationPolicy`
--   ModelControl/Profile     route.go and the rest of resilience.go: attestation, routing, the
--                            demotion bias and the guarded call
-- Scope (internal/scope/scope.go): the one write-scope verdict. `Scope/Verdicts` is about single
-- paths, `Scope/Disjoint` and `Scope/Lists` about scope lists that share a wave.
--
-- RunState (internal/runstate/state.go): the record of a run. `RunState/Lifecycle` has the status
-- machine, `RunState/Ids` the ids, `RunState/Store` the directory of run files with `Save`, `Load`
-- and `Delete`, and `RunState/Listing` the listing. A failing step of the file system is a flag of
-- the operation. encoding/json is an argument: what it makes of a run is read again with the same schema
-- version, id, status and creation time.
--
-- Workspace (internal/capability/workspace): the decisions in front of an automatic apply.
--   Workspace/Policy   policy.go, validation and `EvaluateAutoApplyPolicy`
--   Workspace/Receipt  receipt.go, review receipts: signed, written once, consumed once; the HMAC
--                      is a parameter, and a failing step of the file system a flag
--
-- MissionCompile (internal/capability/missioncompile, risk.go and ceremony.go): the risk and the
-- ceremony of a mission; the tables of Unicode are an argument.
--
-- Orchestration (internal/capability/orchestration): a flow of nodes and edges.
--   Orchestration/Flow        graph.go, the flow as it is submitted
--   Orchestration/Condition   graph.go, `parseCondition`
--   Orchestration/Validation  graph.go, `Validate`, the lint in front of a run
--   Orchestration/Schedule    graph.go, `ScheduleWaves`
--   Orchestration/Edges       engine.go, `edgeDecision`, `policyStops` and `fanOutFinding`
--   Orchestration/Resolve     engine.go, `resolveNode` and `resolveValue`
--   Orchestration/Routing     route.go, `RouteNode`, over the parts of ModelControl
--   Orchestration/Engine      engine.go, `Execute`: Engine/Waves has the loop over the waves,
--                             Engine/Walk the walk of a flow with a cycle, Engine/Execute both behind
--                             validation and schedule
-- The executor of nodes, the clock, the digests of binaries and cancellation are a host's and depend
-- on a world that the executor changes. The goroutines of a wave run one after the other, in an order
-- that the host chooses; nothing is said of steps of two executors that interleave.
--
-- Verify (internal/capability/verify): the commands of a mission.
--   Verify/Allowlist  allowlist.go, `Check` and the list that `New` composes
--   Verify/Paths      path/filepath as exec.go uses it
--   Verify/Runner     exec.go, the lookup of a program, its environment, and `Run`
--   Verify/Tail       exec.go, `tailBuffer`
--   Verify/Commands   core.go, `ExecuteCommands` and `aggregate`
-- The operating system and what prepares a batch (`LoadConfig`, `runnerFor`, the digests) are the host's.
--
-- ContextLedger (internal/capability/ledger/decide.go): which items of a context pack go out.
--
-- Base holds lists, texts, order, sorting and integers that the components share.
--
-- Texts are native strings; Go's `uint` types are numbers, with the wrap-around written out where
-- the code adds or multiplies; `int` values that may be negative are integers.
-- What the host supplies, the signature verifier and the invoker, is an argument. Loops are structural
-- recursion over the lists that the code ranges over. The loop `for len(ready) > 0` of the scheduler
-- has as much fuel as there are nodes: each round takes one node out of the ready list, and a node is
-- ready once. The walk of a cycle has the bound on its steps that the code gives it.
--
-- Not modelled: the pipelines that run git and other processes, file walking, the protocol adapter,
-- rendering and telemetry, which are effects of the host; and the decoders of policy files, the lint of
-- missions and programs, and the capabilities for clarity, memory, storage and specification documents.
pub mod Base
pub mod MissionCompile
pub mod Verify
pub mod ModelControl
pub mod Scope
pub mod RunState
pub mod Workspace
pub mod Orchestration
pub mod ContextLedger

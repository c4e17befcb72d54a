-- ===== src/Lib.antt =====
-- Glassrail: a planning agent. A planner writes a plan, a graph of typed nodes; the validator checks
-- and sorts it; the executor runs its nodes, tools and calls of language models, and records their
-- results; a store keeps the state of each task, and an event bus tells subscribers what happens.
--
-- Which file models which part (paths from the repository's root):
--   Core       src/glassrail/core: plans, nodes, results, the execution state. A nested plan is a
--              mutual data type; floats are exact dyadic rationals, as far as they are compared.
--   Config     src/glassrail/config/settings.py: the settings that the other parts read.
--   Harness    src/glassrail/harness/registry.py: the registry of tools. A tool is a function into a
--              value or the text of its exception; plugins are a parameter.
--   Validator  src/glassrail/validator/validator.py: Topo is `topo_sort`, with its loops as structural
--              recursion (the queue of Kahn's algorithm on fuel, one unit for each node, which is
--              enough because every node enters the queue once at most); Contracts and Nesting are
--              the checks of a level, and Validate puts them together over nested plans. The depth of
--              nested decisions is computed on fuel, one more than the number of nodes, with running
--              out as an error of its own.
--   Executor   src/glassrail/executor: Plans is what it reads off a plan (`_dependency_map`,
--              `_final_output_result`), Recording how results and skipped branches enter the state,
--              Scheduler the loop of `_run`. The loop is a step relation: a turn of the loop, the end
--              of a node's task with any outcome, the return of `asyncio.wait`, and a task that
--              raises. Control changes hands only in the wait, so that these are all interleavings.
--              Retries is `_execute_llm_node` and `_execute_decision`: what a model brings in an
--              attempt is a parameter. Approval is the broker of executor/tool_approval.py and
--              `_approve_tool_call`, and Tools is `_execute_tool`, which returns its calls of the
--              registry beside its result; Tools/Gates is the two calls of a model around it.
--              Streamer is `JsonFieldStreamer` and Context executor/context.py, both over code
--              points. Once is `_execute_llm_node_once` on what a model streams, Subplans
--              `_execute_subplan`, whose call of `_run` is a parameter, and Dispatch `_dispatch_node`,
--              which puts these together.
--              Orchestrator is executor/orchestrator.py: World is the task, the store and the emitted
--              events; Planning is `_plan_with_retry`, by turns of its loop, and Handlers is `run`,
--              `resume`, `revise` and `execute_plan`. A call ends with a value or an exception, and
--              changes state and world in both cases; `except` and `finally` are `conclude`.
--   Planner    src/glassrail/planner/planner.py: Attempt is `plan_attempt` from the model's answer on,
--              Duplicates, Repair and Descriptions are what is done to the JSON before it is a plan,
--              and Rejections says which rejections are tried again.
--   State      src/glassrail/state/memory.py, with a contract over functions from ids to states, and in
--              Sqlite src/glassrail/state/sqlite.py, whose statements are a parameter with the laws
--              that SQLite documents, and the JSON of a state one that need be read back only for states
--              without NaN and infinities. Calls are split where they wait, for interleaving callers.
--   Events     src/glassrail/events/bus.py: bounded queues, delivery, registration.
--   Providers  src/glassrail/providers/router.py: the fall-through of the tier router; providers are a
--              parameter.
--   Gateways   Dag is src/glassrail/gateways/tui/dag.py: the nodes that a plan's JSON names, and in
--              Layers the layer of each. The search for depths is on fuel, one more than the number of
--              nodes, which is enough because an id that is being visited is not entered again.
--              Layout is its edges, dummies and columns. Acp is src/glassrail/gateways/acp/mapping.py.
--   Common     lists, counting, dictionaries, integers, texts and results, shared by all.
--   Samples    a small plan, a run of it, and small inputs, at which the theorems are applied.
--
-- How the parts meet: the scheduler's theorems ask only that `topo_sort` has sorted the plan, and the
-- theorem on decisions that the validator's contract of decisions holds. The orchestrator takes the
-- planner and the executor as parameters; Planner/Validated puts the modelled planner and validator
-- there. Of the executor its theorems ask that a call is a run of the modelled scheduler, which ends
-- regularly or raises anywhere (Orchestrator/Execution); the events of single nodes are left out there.
--
-- Not modelled: time, logging, spans and metrics; what a model or a tool does (network and files);
-- the stripping of a model's answer before its JSON is read; the system prompts; the regular
-- expressions that tell a conditional request; a cancellation while the store or the bus is at work;
-- the servers of the gateways, the drawing of a diagram on the terminal, and the evaluation tools.
pub mod Common
pub mod Core
pub mod Config
pub mod Gateways
pub mod Harness
pub mod Validator
pub mod Executor
pub mod State
pub mod Events
pub mod Planner
pub mod Providers
pub mod Samples

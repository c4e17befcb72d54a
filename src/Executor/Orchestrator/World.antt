-- ===== src/Executor/Orchestrator/World.antt =====
-- What the orchestrator reads and changes: the task at hand, the store, the events of the bus, without
-- those that the executor emits of single nodes. `executions` counts the calls of `Executor.execute`,
-- for the theorems; no code reads it.
use glassrail.Common.{
  Bool, List, Option, Result, String, [], if◌then◌else◌, none, some, ℕ, ℤ, ◌++◌, ◌==◌, ◌∷◌,
  string_eq,
}
use glassrail.Core.{ExecutionState, Plan, PlanningAttempt}
use glassrail.State.{Tasks, save_task}

pub data Event : Type 0 where
  planning_started task_cancelled : (task_id : String) → Event
  plan_ready : (task_id : String) (node_count : ℕ) → Plan → Event
  plan_failed : (task_id error : String) → List PlanningAttempt → (filepath : Option String) → Event
  plan_rejected : (task_id reason : String) → Event
  awaiting_confirmation : (task_id : String) (node_count : ℕ) → Event
  task_failed : (task_id error : String) → List PlanningAttempt → Event
  task_completed : (task_id : String) (final_output : Option String) → Event

-- An exception: `PlanValidationError` or `ValueError`, `CancelledError`, any other; with its `str`.
pub data Raised : Type 0 where
  invalid : String → Raised
  cancel : Raised
  failure : String → Raised

pub record World : Type 0 where
  pub tasks : Tasks
  pub events : List Event
  pub executions : ℕ

-- A call ends with a value or an exception; the state and the world are changed in either case.
pub record Run (A : Type 0) : Type 0 where
  pub state : ExecutionState
  pub world : World
  pub outcome : Result Raised A

-- What a call of the executor leaves: the state, the events that it has emitted, and how it ends.
pub record Execution : Type 0 where
  pub state : ExecutionState
  pub events : List Event
  pub outcome : Result Raised (Unit {0})

-- Another component's answers. The planner answers by the arguments of `plan_attempt`, the executor
-- by the state that it is given.
pub record PlanRequest : Type 0 where
  pub user_request : String
  pub attempt : ℕ
  pub min_tier : ℤ
  pub feedback : Option String
  pub prior_reasoning : Option String
  pub validation_feedback : Option String
  pub rejection_feedback : Option String
  pub thinking : Bool

pub record Services : Type 0 where
  pub plan_attempt : PlanRequest → Result Raised PlanningAttempt
  pub execute : ExecutionState → Execution
  -- Python's `str.lower`, and `str` of an integer
  pub lower : String → String
  pub show : ℤ → String
  -- `_looks_like_conditional_request`
  pub looks_conditional : String → Bool

-- `_emit`, with a bus
abbrev pub emit : Event → World → World
emit e w = record w { events = w.events ++ e ∷ [] }

abbrev pub save : ExecutionState → World → World
save st w = record w { tasks = save_task st w.tasks }

-- `text or default`
abbrev pub or_text : Option String → String → String
or_text none default = default
or_text (some text) default = if text == "" then default else text

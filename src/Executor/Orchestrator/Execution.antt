-- ===== src/Executor/Orchestrator/Execution.antt =====
-- A call of `Executor.execute` by the orchestrator: a run of the scheduler on the task's plan.
use glassrail.Common.{List, String, [], err, none, ok, some, ◌∷◌, ◌≡◌}
use glassrail.Core.{ExecutionState, Plan, Json, nodes, sorted_node_ids}
use glassrail.Config.{Settings}
use glassrail.Executor.Scheduler.{Phase, Config, Reach, begin, job_of}
use glassrail.Executor.Orchestrator.World.{
  Event, task_completed, Raised, failure, Execution, Services,
}

-- The end of `_run`, after its loop.
unfoldable pub completion : ExecutionState → List Event
completion st = task_completed st.task_id st.final_output ∷ []

-- What a call can leave: without a plan it raises; with one it runs the loop of the scheduler, whatever
-- the nodes return, up to its regular end and the event of the completed task, or it raises anywhere.
pub data Executed (s : Settings) (text_of : Json → String) (st : ExecutionState)
    : Execution → Type 0 where
  no_plan :
      st.plan ≡ none
      → Executed s text_of st (record {
        state = st;
        events = [];
        outcome = err (failure "Cannot execute: state has no plan");
      })
  raises :
      (p : Plan) (c : Config) (e : Raised)
      → st.plan ≡ some p
      → Reach (job_of s (nodes p) (sorted_node_ids p)) text_of (begin (sorted_node_ids p) st) c
      → Executed s text_of st (record { state = c.state; events = []; outcome = err e })
  returns :
      (p : Plan) (c : Config)
      → st.plan ≡ some p
      → Reach (job_of s (nodes p) (sorted_node_ids p)) text_of (begin (sorted_node_ids p) st) c
      → c.phase ≡ Phase.finished
      → Executed s text_of st
          (record { state = c.state; events = completion c.state; outcome = ok tt })

-- The executor of the orchestrator is the one of the scheduler.
abbrev pub ExecutorLaw : Settings → (Json → String) → Services → Type 0
ExecutorLaw s text_of services = (st : ExecutionState) → Executed s text_of st (services.execute st)

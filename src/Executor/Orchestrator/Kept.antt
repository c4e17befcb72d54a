-- ===== src/Executor/Orchestrator/Kept.antt =====
-- What planning keeps on its way, and how it may end.
use glassrail.Common.{
  List, Option, String, [], append-nil, append_assoc, arith, err, false, is_some, length,
  length-append, lookup, lookup-insert, none, ok, refl, some, sym, true, ℕ, ◌++◌, ◌+◌, ◌==◌, ◌∙◌,
  ◌∷◌, ◌≡◌, ◌≢◌, ◌≤◌, string_eq,
}
use glassrail.Core.{ExecutionState, TaskStatus, Plan, PlanningAttempt}
use glassrail.State.{save_task}
use glassrail.Executor.Orchestrator.World.{Raised, invalid, World, Run, PlanRequest, Services, save}
use glassrail.Executor.Orchestrator.Planning.{save_planning_attempt}

-- Between two points of planning: the task keeps its id, no event is emitted, the executor is not called, other tasks of the
-- store are not touched, and at most `n` attempts are appended.
pub record Kept (n : ℕ) (st : ExecutionState) (w : World) (st' : ExecutionState) (w' : World)
    : Type 0 where
  pub task_id : st'.task_id ≡ st.task_id
  pub events : w'.events ≡ w.events
  pub executions : w'.executions ≡ w.executions
  pub others :
      (key : String) → (st.task_id == key) ≡ false → lookup key w'.tasks ≡ lookup key w.tasks
  pub added : List PlanningAttempt
  pub appended : st'.planning_attempts ≡ st.planning_attempts ++ added
  pub few : length added ≤ n

pub Kept-trans :
    (n m k : ℕ) (sum : n + m ≤ k) (a : ExecutionState) (u : World) (b : ExecutionState) (v : World)
    (c : ExecutionState) (w : World)
    → Kept n a u b v
    → Kept m b v c w
    → Kept k a u c w
Kept-trans n m k sum a u b v c w first later = record {
  task_id = later.task_id ∙ first.task_id;
  events = later.events ∙ first.events;
  executions = later.executions ∙ first.executions;
  others = λ key other. later.others key (rw first.task_id other) ∙ first.others key other;
  added = first.added ++ later.added;
  appended =
      rw (later.appended, first.appended)
        (append_assoc a.planning_attempts first.added later.added);
  few = omega (arith, sum, first.few, later.few, length-append first.added later.added);
}

pub Kept-none :
    (n : ℕ) (st st' : ExecutionState) (w : World)
    → st'.task_id ≡ st.task_id
    → st'.planning_attempts ≡ st.planning_attempts
    → Kept n st w st' w
Kept-none n st st' w id same = record {
  task_id = id;
  events = refl;
  executions = refl;
  others = λ key other. refl;
  added = [];
  appended = same ∙ sym (append-nil st.planning_attempts);
  few = omega arith;
}

pub save-others :
    (st : ExecutionState) (w : World) (key : String)
    → (st.task_id == key) ≡ false
    → lookup key (save st w).tasks ≡ lookup key w.tasks
unfolding save_task
save-others st w key other = rw (lookup-insert st.task_id key st w.tasks, other) refl

pub Kept-saved :
    (a : PlanningAttempt) (st st' : ExecutionState) (w : World)
    → st'.task_id ≡ st.task_id
    → st'.planning_attempts ≡ st.planning_attempts ++ a ∷ []
    → Kept 1 st w st' (save (save_planning_attempt a st w).0 w)
unfolding save_planning_attempt
Kept-saved a st st' w id same = record {
  task_id = id;
  events = refl;
  executions = refl;
  others = save-others (record st { planning_attempts = st.planning_attempts ++ a ∷ [] }) w;
  added = a ∷ [];
  appended = same;
  few = omega arith;
}

-- How planning ends: with the plan of the last attempt; without one as rejected, for the reason of
-- the last attempt, or as failed; or with an exception that is no failed validation.
pub data Ending (services : Services) : Run (Option Plan) → Type 0 where
  planned :
      (st : ExecutionState) (w : World) (p : Plan) (a : PlanningAttempt)
      (earlier : List PlanningAttempt) (r : PlanRequest)
      → services.plan_attempt r ≡ ok a
      → st.planning_attempts ≡ earlier ++ a ∷ []
      → a.plan ≡ some p
      → st.status ≡ TaskStatus.planning
      → Ending services (record { state = st; world = w; outcome = ok (some p) })
  refused :
      (st : ExecutionState) (w : World) (a : PlanningAttempt) (earlier : List PlanningAttempt)
      → st.planning_attempts ≡ earlier ++ a ∷ []
      → a.plan ≡ none
      → st.status ≡ TaskStatus.rejected
      → st.error ≡ a.error
      → Ending services (record { state = st; world = w; outcome = ok none })
  exhausted :
      (st : ExecutionState) (w : World)
      → st.status ≡ TaskStatus.failed
      → is_some st.error ≡ true
      → Ending services (record { state = st; world = w; outcome = ok none })
  broken :
      (st : ExecutionState) (w : World) (e : Raised)
      → ((text : String) → e ≢ invalid text)
      → Ending services (record { state = st; world = w; outcome = err e })

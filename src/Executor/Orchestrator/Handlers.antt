-- ===== src/Executor/Orchestrator/Handlers.antt =====
-- `run`, `resume`, `revise`, `execute_plan`, and what they share. Log lines and spans are not
-- modelled, nor is a cancellation while the store or the bus is at work.
use glassrail.Common.{
  Bool, List, Option, Result, String, [], err, if◌then◌else◌, length, none, ok, reverse, some,
  truthy, ◌++◌, ◌+◌, ◌==◌, ◌||◌, ◌∷◌, string_eq,
}
use glassrail.Core.{ExecutionState, TaskStatus, Plan, PlanningAttempt, nodes}
use glassrail.Config.{Settings}
use glassrail.State.{status_eq, Tasks, load_task, transition_task_status}
use glassrail.Executor.Orchestrator.World.{
  planning_started, task_cancelled, plan_ready, plan_failed, plan_rejected, awaiting_confirmation,
  task_failed, Raised, invalid, failure, cancel, World, Run, Execution, Services, emit, save,
  or_text,
}
use glassrail.Executor.Orchestrator.Planning.{plan_with_retry}

-- `next((a.filepath for a in reversed(attempts) if a.filepath), None)`, for reversed attempts
unfoldable pub first_filepath : List PlanningAttempt → Option String
first_filepath [] = none
first_filepath (a ∷ as') =
    let later = first_filepath as' in if truthy a.filepath then a.filepath else later

-- `_emit_plan_terminal`
unfoldable pub emit_plan_terminal : ExecutionState → World → World
unfolding first_filepath
emit_plan_terminal st w =
    if st.status == TaskStatus.rejected
    then emit (plan_rejected st.task_id (or_text st.error "rejected")) w
    else emit
        (plan_failed st.task_id (or_text st.error "planning failed") st.planning_attempts
          (first_filepath (reverse st.planning_attempts)))
        w

-- `_mark_cancelled`, without its event
unfoldable pub mark_cancelled : ExecutionState → ExecutionState
mark_cancelled st = record st {
  status = TaskStatus.cancelled;
  error = elim st.error [ none ↦ some "cancelled" | some text ↦ some text ];
}

abbrev pub mark_failed : String → ExecutionState → ExecutionState
mark_failed text st = record st { status = TaskStatus.failed; error = some text }

-- The `except` and `finally` clauses of `run`, `resume` and `revise`; `attempts` are those that the
-- event of a failure shows.
unfoldable pub conclude : (ExecutionState → List PlanningAttempt) → Run Unit → Run Unit
unfolding mark_cancelled
conclude attempts r = elim r.outcome [
  | ok u ↦ record r { world = save r.state r.world }
  | err e ↦ handled e
]
  where
    failed : String → Run Unit
    failed text =
        let st = mark_failed text r.state in
        record {
          state = st;
          world = save st (emit (task_failed st.task_id text (attempts st)) r.world);
          outcome = ok tt;
        }

    handled : Raised → Run Unit
    handled cancel =
        let st = mark_cancelled r.state in
        record {
          state = st;
          world = save st (emit (task_cancelled st.task_id) r.world);
          outcome = err cancel;
        }
    handled (failure text) = failed text
    handled (invalid text) = failed text

-- The statuses from which `resume` takes a task.
abbrev pub resumable : List TaskStatus
resumable = TaskStatus.awaiting_confirmation ∷ TaskStatus.paused ∷ TaskStatus.resuming ∷ []

-- `state.status in (AWAITING_CONFIRMATION, PAUSED)`
unfoldable pub is_revisable : ExecutionState → Bool
is_revisable st = st.status == TaskStatus.awaiting_confirmation || st.status == TaskStatus.paused

-- What a call of the executor makes of the world.
abbrev pub ran : Execution → World → Run Unit
ran x w = record {
  state = x.state;
  world = record w { events = w.events ++ x.events; executions = w.executions + 1 };
  outcome = x.outcome;
}

module _ (s : Settings) (services : Services) where
  -- `self._executor.execute(state)`
  unfoldable pub execute : ExecutionState → World → Run Unit
  execute st w = ran (services.execute st) w

  -- `_present_or_execute`; without a plan its `assert` fails
  unfoldable pub present_or_execute : ExecutionState → World → Run Unit
  unfolding execute
  present_or_execute st w = elim st.plan [
    | none ↦ record { state = st; world = w; outcome = err (failure "") }
    | some p ↦
        let count = length (nodes p) in
        let ready = emit (plan_ready st.task_id count p) w in
        let st' = record st { status = TaskStatus.awaiting_confirmation } in
        if s.confirm_plans
        then record {
          state = st';
          world = emit (awaiting_confirmation st.task_id count) (save st' ready);
          outcome = ok tt;
        }
        else execute st ready
  ]

  -- The body of `try` in `run` and `revise`, after planning.
  unfoldable pub after_planning : Run (Option Plan) → Run Unit
  unfolding emit_plan_terminal present_or_execute
  after_planning r = elim r.outcome [
    | err e ↦ record { state = r.state; world = r.world; outcome = err e }
    | ok plan ↦ elim plan [
      | none ↦ record {
        state = r.state;
        world = save r.state (emit_plan_terminal r.state r.world);
        outcome = ok tt;
      }
      | some p ↦ present_or_execute (record r.state { plan = some p }) r.world
    ]
  ]

  -- `run`: the task is in the store, or nothing is done.
  unfoldable pub run : (task_id : String) → World → World × Result Raised (Unit {0})
  unfolding conclude after_planning
  run task_id w = elim (load_task task_id w.tasks) [
    | none ↦ (w, ok tt)
    | some st ↦
        let planned = plan_with_retry s services none st (emit (planning_started task_id) w) in
        let r = conclude (λ t. t.planning_attempts) (after_planning planned) in (r.world, r.outcome)
  ]

  -- `resume`, by what the transition of the status gave
  unfoldable pub resume_claimed :
      Option ExecutionState × Tasks → World → World × Result Raised (Unit {0})
  unfolding conclude execute
  resume_claimed (none, tasks) w = (record w { tasks = tasks }, ok tt)
  resume_claimed (some st, tasks) w =
      let r = conclude (λ t. t.planning_attempts) (execute st (record w { tasks = tasks })) in
      (r.world, r.outcome)

  -- `resume`
  unfoldable pub resume : (task_id : String) → World → World × Result Raised (Unit {0})
  unfolding resume_claimed
  resume task_id w =
      resume_claimed (transition_task_status task_id resumable TaskStatus.executing w.tasks) w

  -- `revise`
  unfoldable pub revise : (task_id feedback : String) → World → World × Result Raised (Unit {0})
  unfolding conclude after_planning is_revisable
  revise task_id feedback w = elim (load_task task_id w.tasks) [
    | none ↦ (w, ok tt)
    | some st ↦
        let planned =
          plan_with_retry s services (some feedback) st (emit (planning_started task_id) w) in
        let r = conclude (λ t. []) (after_planning planned) in
        if is_revisable st then (r.world, r.outcome) else (w, ok tt)
  ]

  -- `execute_plan`, which only records an exception; a cancellation leaves it.
  unfoldable pub execute_plan : ExecutionState → World → Run Unit
  unfolding execute
  execute_plan st w =
      let r = execute st w in
      elim r.outcome [ ok u ↦ record r { world = save r.state r.world } | err e ↦ recorded r e ]
    where
      recorded : Run Unit → Raised → Run Unit
      recorded r cancel = record r { world = save r.state r.world }
      recorded r (failure text) =
          let st' = mark_failed text r.state in
          record { state = st'; world = save st' r.world; outcome = ok tt }
      recorded r (invalid text) =
          let st' = mark_failed text r.state in
          record { state = st'; world = save st' r.world; outcome = ok tt }

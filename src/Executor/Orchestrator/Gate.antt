-- ===== src/Executor/Orchestrator/Gate.antt =====
-- When the executor is called.
use glassrail.Common.{
  Bool, Bool-cases, List, Option, Result, String, arith, err, false, if◌then◌else◌, inl, inr, none,
  not, ok, refl, some, true, ◌&&◌, ◌+◌, ◌==◌, ◌≡◌, string_eq,
}
use glassrail.Core.{ExecutionState, TaskStatus, Plan, PlanningAttempt}
use glassrail.Config.{Settings}
use glassrail.State.{status_eq, load_task}
use glassrail.Executor.Orchestrator.World.{
  planning_started, Raised, invalid, failure, cancel, World, Run, Services, emit,
}
use glassrail.Executor.Orchestrator.Planning.{plan_with_retry}
use glassrail.Executor.Orchestrator.Attempts.{plan_with_retry_lem}
use glassrail.Executor.Orchestrator.Handlers.{
  emit_plan_terminal, conclude, execute, present_or_execute, after_planning, run,
}

-- Planning gave a plan.
unfoldable pub gives_plan : Result Raised (Option Plan) → Bool
gives_plan (ok (some p)) = true
gives_plan _ = false

calls-conclude :
    (attempts : ExecutionState → List PlanningAttempt) (r : Run Unit)
    → (conclude attempts r).world.executions ≡ r.world.executions
unfolding conclude
calls-conclude attempts r = by_outcome r.outcome
  where
    by_outcome :
        (o : Result Raised (Unit {0}))
        → (conclude attempts
            (record { state = r.state; world = r.world; outcome = o })).world.executions
          ≡ r.world.executions
    by_outcome (ok u) = refl
    by_outcome (err cancel) = refl
    by_outcome (err (invalid text)) = refl
    by_outcome (err (failure text)) = refl

calls-terminal :
    (st : ExecutionState) (w : World) → (emit_plan_terminal st w).executions ≡ w.executions
unfolding emit_plan_terminal
calls-terminal st w = elim (Bool-cases (st.status == TaskStatus.rejected)) [
  | inl e ↦ rw e refl
  | inr e ↦ rw e refl
]

module _ (s : Settings) (services : Services) where
  calls-present :
      (st : ExecutionState) (w : World) (p : Plan)
      → (present_or_execute s services (record st { plan = some p }) w).world.executions
        ≡ w.executions + (if s.confirm_plans then 0 else 1)
  unfolding present_or_execute execute
  calls-present st w p = elim (Bool-cases s.confirm_plans) [
    | inl e ↦ rw e (omega arith)
    | inr e ↦ rw e (omega arith)
  ]

  calls-after :
      (st : ExecutionState) (w : World) (o : Result Raised (Option Plan))
      → (after_planning s services (record { state = st; world = w; outcome = o })).world.executions
        ≡ w.executions + (if gives_plan o && not s.confirm_plans then 1 else 0)
  unfolding after_planning gives_plan
  calls-after st w (err e) = omega arith
  calls-after st w (ok none) = omega (arith, calls-terminal st w)
  calls-after st w (ok (some p)) = ground (arith, calls-present st w p)

  -- `run` of a task of the store calls the executor exactly once if planning gives a plan and plans
  -- need no confirmation, and never otherwise.
  pub calls-run :
      (id : String) (w : World) (st : ExecutionState)
      → load_task id w.tasks ≡ some st
      → (run s services id w).0.executions
        ≡ w.executions
          + (if gives_plan
                  (plan_with_retry s services none st (emit (planning_started id) w)).outcome
                && not s.confirm_plans
              then 1
              else 0)
  unfolding run
  calls-run id w st found =
      let begun = emit (planning_started id) w in
      let planned = plan_with_retry s services none st begun in
      let (kept, ending) = plan_with_retry_lem s services none st begun in
      rw (run, found)
        (omega (
          arith,
          calls-conclude (λ t. t.planning_attempts) (after_planning s services planned),
          calls-after planned.state planned.world planned.outcome,
          kept.executions,
        ))

-- ===== src/Executor/Orchestrator/Attempts.antt =====
-- What planning leaves: the attempts that it made, and the state and store it ends with.
use glassrail.Common.{
  Bool, Option, Result, String, [], arith, err, false, if◌then◌else◌, none, ok, refl, some, suc,
  true, turns_to, zero, ℕ, ◌++◌, ◌+◌, ◌∷◌, ◌≡◌, string_eq,
}
use glassrail.Core.{ExecutionState, TaskStatus, Plan, PlanningAttempt, ErrorType}
use glassrail.Config.{Settings}
use glassrail.Executor.Orchestrator.World.{
  Raised, invalid, failure, cancel, World, Run, PlanRequest, Services, save,
}
use glassrail.Executor.Orchestrator.Planning.{
  RetryContext, no_context, go_on, after_reply, has_error_type, not_last, invalid_context,
  answerable_rejection_retry_feedback, planning_retry_context, plan_request, failed_text,
  save_planning_attempt, mark_plan_rejected, structural_retry_feedback, suspicious, after_rejection,
  after_plan, Turn, over, next, after_failure, after_answer, after_raise, one_turn, try_plans,
  plan_with_retry,
}
use glassrail.Executor.Orchestrator.Kept.{Kept, Kept-trans, Kept-none, Kept-saved, Ending}

-- What one turn of the loop establishes.
TurnLaw : Services → ExecutionState → World → Turn → Type 0
TurnLaw services st w (over r) = Kept 1 st w r.state r.world × Ending services r
TurnLaw services st w (next st' w' ctx) = Kept 1 st w st' w' × (st'.status ≡ TaskStatus.planning)

go_on_lem :
    (services : Services) (turns : ℕ)
    (later : RetryContext → ExecutionState → World → Run (Option Plan))
    → ((ctx : RetryContext) (st : ExecutionState) (w : World)
        → st.status ≡ TaskStatus.planning
        → Kept turns st w (later ctx st w).state (later ctx st w).world
          × Ending services (later ctx st w))
    → (st : ExecutionState) (w : World) (t : Turn) → TurnLaw services st w t
    → Kept (suc turns) st w (go_on later t).state (go_on later t).world
      × Ending services (go_on later t)
unfolding TurnLaw
go_on_lem services turns later law st w (over r) (kept, ending) = (
  record {
    task_id = kept.task_id;
    events = kept.events;
    executions = kept.executions;
    others = kept.others;
    added = kept.added;
    appended = kept.appended;
    few = omega (arith, kept.few);
  },
  ending,
)
go_on_lem services turns later law st w (next st' w' ctx) (kept, status) =
    let (later_kept, ending) = law ctx st' w' status in
    (
      Kept-trans 1 turns (suc turns) (omega arith) st w st' w' (later ctx st' w').state
          (later ctx st' w').world kept later_kept,
      ending,
    )

module _ (s : Settings) (services : Services) where
  if-TurnLaw :
      (st : ExecutionState) (w : World) (b : Bool) (x y : Turn)
      → TurnLaw services st w x
      → TurnLaw services st w y
      → TurnLaw services st w (if b then x else y)
  if-TurnLaw st w true x y p q = p
  if-TurnLaw st w false x y p q = q

  after_rejection-TurnLaw :
      (feedback : Option String) (a : PlanningAttempt) (st : ExecutionState) (w : World)
      → a.plan ≡ none
      → st.status ≡ TaskStatus.planning
      → TurnLaw services st w (
          after_rejection s services feedback a
            (save_planning_attempt a st w).0
            (save_planning_attempt a st w).1)
  unfolding TurnLaw after_rejection save_planning_attempt mark_plan_rejected
  after_rejection-TurnLaw (some feedback) a st w no_plan status = (
    Kept-saved a st (record st { planning_attempts = st.planning_attempts ++ a ∷ [] }) w refl refl,
    status,
  )
  after_rejection-TurnLaw none a st w no_plan status =
      let st' : ExecutionState = record st {
        planning_attempts = st.planning_attempts ++ a ∷ [];
        status = TaskStatus.rejected;
        error = a.error;
      } in
      (
        Kept-saved a st st' w refl refl,
        Ending.refused st' (save (save_planning_attempt a st w).0 w) a st.planning_attempts refl
            no_plan refl refl,
      )

  accepted-TurnLaw :
      (p : Plan) (a : PlanningAttempt) (st : ExecutionState) (w : World) (r : PlanRequest)
      → services.plan_attempt r ≡ ok a
      → a.plan ≡ some p
      → st.status ≡ TaskStatus.planning
      → TurnLaw services st w (
          over (record {
            state = (save_planning_attempt a st w).0;
            world = (save_planning_attempt a st w).1;
            outcome = ok (some p);
          }))
  unfolding TurnLaw save_planning_attempt
  accepted-TurnLaw p a st w r given has_plan status =
      let st' : ExecutionState = record st { planning_attempts = st.planning_attempts ++ a ∷ [] } in
      (
        Kept-saved a st st' w refl refl,
        Ending.planned st' (save st' w) p a st.planning_attempts r given refl has_plan status,
      )

  after_plan-TurnLaw :
      (feedback : Option String) (p : Plan) (a : PlanningAttempt) (attempt : ℕ) (ctx : RetryContext)
      (st : ExecutionState) (w : World)
      → (r : PlanRequest) → services.plan_attempt r ≡ ok a
      → a.plan ≡ some p
      → st.status ≡ TaskStatus.planning
      → TurnLaw services st w (after_plan s services feedback p a attempt ctx st w)
  unfolding TurnLaw after_plan save_planning_attempt
  after_plan-TurnLaw none p a attempt ctx st w r given has_plan status =
      accepted-TurnLaw p a st w r given has_plan status
  after_plan-TurnLaw (some text) p a attempt ctx st w r given has_plan status =
      if-TurnLaw st w (not_last s services attempt)
        (next (save_planning_attempt marked st w).0 (save_planning_attempt marked st w).1
          (invalid_context s services text ctx))
        (over (record {
          state = (save_planning_attempt a st w).0;
          world = (save_planning_attempt a st w).1;
          outcome = ok (some p);
        }))
        (Kept-saved marked st (save_planning_attempt marked st w).0 w refl refl, status)
        (accepted-TurnLaw p a st w r given has_plan status)
    where
      marked : PlanningAttempt
      marked = suspicious s services text a

  after_answer-TurnLaw :
      (o : Option Plan) (a : PlanningAttempt) (attempt : ℕ) (ctx : RetryContext)
      (st : ExecutionState) (w : World)
      → (r : PlanRequest) → services.plan_attempt r ≡ ok a
      → a.plan ≡ o
      → st.status ≡ TaskStatus.planning
      → TurnLaw services st w (after_answer s services o a attempt ctx st w)
  unfolding TurnLaw after_answer after_failure save_planning_attempt
  after_answer-TurnLaw none a attempt ctx st w r given no_plan status =
      let st' : ExecutionState = (save_planning_attempt a st w).0 in
      if-TurnLaw st w (has_error_type a.error_type ErrorType.rejection)
        (after_rejection s services (answerable_rejection_retry_feedback s services a attempt) a st'
          (save_planning_attempt a st w).1)
        (next st' (save_planning_attempt a st w).1 (record {
          last_error = a.error;
          last_error_type = a.error_type;
          prior_reasoning = (planning_retry_context a).0;
          validation_feedback = (planning_retry_context a).1;
          rejected_answer_feedback = none;
        }))
        (after_rejection-TurnLaw (answerable_rejection_retry_feedback s services a attempt) a st w
          no_plan status)
        (Kept-saved a st st' w refl refl, status)
  after_answer-TurnLaw (some p) a attempt ctx st w r given has_plan status =
      after_plan-TurnLaw (structural_retry_feedback s services st.user_request p) p a attempt ctx st
        w r given has_plan status

  after_raise-TurnLaw :
      (e : Raised) (ctx : RetryContext) (st : ExecutionState) (w : World)
      → st.status ≡ TaskStatus.planning
      → TurnLaw services st w (after_raise s services e ctx st w)
  unfolding TurnLaw after_raise
  after_raise-TurnLaw (invalid text) ctx st w status = (Kept-none 1 st st w refl refl, status)
  after_raise-TurnLaw cancel ctx st w status =
      (Kept-none 1 st st w refl refl, Ending.broken st w cancel (λ text e. cc))
  after_raise-TurnLaw (failure text) ctx st w status =
      (Kept-none 1 st st w refl refl, Ending.broken st w (failure text) (λ text' e. cc))

  after_reply-TurnLaw :
      (reply : Result Raised PlanningAttempt) (attempt : ℕ) (ctx : RetryContext)
      (st : ExecutionState) (w : World) (r : PlanRequest)
      → services.plan_attempt r ≡ reply
      → st.status ≡ TaskStatus.planning
      → TurnLaw services st w (after_reply s services reply attempt ctx st w)
  unfolding after_reply TurnLaw
  after_reply-TurnLaw (err e) attempt ctx st w r given status =
      after_raise-TurnLaw e ctx st w status
  after_reply-TurnLaw (ok a) attempt ctx st w r given status =
      counted (after_answer s services a.plan a attempt ctx now w)
        (after_answer-TurnLaw a.plan a attempt ctx now w r given refl status)
    where
      now : ExecutionState
      now = record st { replan_count = attempt }

      counted : (t : Turn) → TurnLaw services now w t → TurnLaw services st w t
      counted (over end_run) (kept, ending) = (
        Kept-trans 0 1 1 (omega arith) st w now w end_run.state end_run.world
            (Kept-none 0 st now w refl refl) kept,
        ending,
      )
      counted (next st' w' ctx') (kept, same) = (
        Kept-trans 0 1 1 (omega arith) st w now w st' w' (Kept-none 0 st now w refl refl) kept,
        same,
      )

  -- The planning loop makes one attempt a turn at most, keeps what it must and ends properly.
  pub try_plans_lem :
      (feedback : Option String) (turns attempt : ℕ) (ctx : RetryContext) (st : ExecutionState)
      (w : World)
      → st.status ≡ TaskStatus.planning
      → Kept turns st w
          (try_plans s services feedback turns attempt ctx st w).state
          (try_plans s services feedback turns attempt ctx st w).world
        × Ending services (try_plans s services feedback turns attempt ctx st w)
  unfolding try_plans
  try_plans_lem feedback zero attempt ctx st w status =
      let st' : ExecutionState = record st {
        status = TaskStatus.failed;
        error = some (failed_text s services ctx.last_error);
      } in
      (Kept-none 0 st st' w refl refl, Ending.exhausted st' w refl refl)
  try_plans_lem feedback (suc turns) attempt ctx st w status =
      go_on_lem services turns (try_plans s services feedback turns (attempt + 1))
        (try_plans_lem feedback turns (attempt + 1)) st w
        (one_turn s services feedback attempt ctx st w)
        (unfold one_turn in
          after_reply-TurnLaw
            (services.plan_attempt (plan_request s services feedback attempt ctx st)) attempt ctx st
            w (plan_request s services feedback attempt ctx st) refl status)

  -- Planning of one task, whatever the planner answers, ends properly: with the plan of the last
  -- attempt, rejected for the reason of the last attempt, failed with an error, or with an exception
  -- that is no failed validation. It keeps the task's id and the other tasks of the store, emits no
  -- event, and appends at most `max_replan_attempts + 1` attempts.
  pub plan_with_retry_lem :
      (feedback : Option String) (st : ExecutionState) (w : World)
      → Kept
          (turns_to s.max_replan_attempts)
          st
          w
          (plan_with_retry s services feedback st w).state
          (plan_with_retry s services feedback st w).world
        × Ending services (plan_with_retry s services feedback st w)
  unfolding plan_with_retry
  plan_with_retry_lem feedback st w =
      let started : ExecutionState = record st { status = TaskStatus.planning } in
      let n = turns_to s.max_replan_attempts in
      let (kept, ending) = try_plans_lem feedback n 0 no_context started w refl in
      (
        Kept-trans 0 n n (omega arith) st w started w
            (try_plans s services feedback n 0 no_context started w).state
            (try_plans s services feedback n 0 no_context started w).world
            (Kept-none 0 st started w refl refl) kept,
        ending,
      )

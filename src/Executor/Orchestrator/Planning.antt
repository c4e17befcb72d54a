-- ===== src/Executor/Orchestrator/Planning.antt =====
-- `_plan_with_retry` and what it calls.
use Prim.Native.String.{◌++◌ as text_append}
use glassrail.Common.{
  Bool, Option, Result, String, [], any, err, false, if◌then◌else◌, int_leb, int_suc, ltb, none,
  not, ok, pos, some, suc, true, truthy, turns_to, zero, ℕ, ◌&&◌, ◌++◌, ◌+◌, ◌||◌, ◌∷◌, int_eq,
  string_eq,
}
use glassrail.Core.{
  ExecutionState, TaskStatus, Plan, PlanningAttempt, ErrorType, NodeType, nodes, is_type,
}
use glassrail.Config.{Settings}
use glassrail.Planner.Rejections.{rejection_retry_feedback}
use glassrail.Executor.Orchestrator.World.{
  Raised, invalid, failure, cancel, World, Run, PlanRequest, Services, save,
}

-- `attempt.error_type == text`
abbrev pub has_error_type : Option ErrorType → ErrorType → Bool
has_error_type (some ErrorType.timeout) ErrorType.timeout = true
has_error_type (some ErrorType.stall) ErrorType.stall = true
has_error_type (some ErrorType.json) ErrorType.json = true
has_error_type (some ErrorType.schema) ErrorType.schema = true
has_error_type (some ErrorType.rejection) ErrorType.rejection = true
has_error_type (some ErrorType.validation) ErrorType.validation = true
has_error_type _ _ = false

-- The local variables that one attempt leaves for the next.
pub record RetryContext : Type 0 where
  pub last_error : Option String
  pub last_error_type : Option ErrorType
  pub prior_reasoning : Option String
  pub validation_feedback : Option String
  pub rejected_answer_feedback : Option String

abbrev pub no_context : RetryContext
no_context = record {
  last_error = none;
  last_error_type = none;
  prior_reasoning = none;
  validation_feedback = none;
  rejected_answer_feedback = none;
}

-- `_planning_retry_context`
unfoldable pub planning_retry_context : PlanningAttempt → Option String × Option String
planning_retry_context a = (
  if has_error_type a.error_type ErrorType.stall
      then (if truthy a.error_detail then a.error_detail else some a.raw_output)
      else none,
  if has_error_type a.error_type ErrorType.schema
        || has_error_type a.error_type ErrorType.validation
      then a.error
      else none,
)

-- `_save_planning_attempt`
unfoldable pub save_planning_attempt :
    PlanningAttempt → ExecutionState → World → ExecutionState × World
save_planning_attempt a st w =
    let st' = record st { planning_attempts = st.planning_attempts ++ a ∷ [] } in (st', save st' w)

-- `_mark_plan_rejected`
unfoldable pub mark_plan_rejected : PlanningAttempt → ExecutionState → ExecutionState
mark_plan_rejected a st = record st { status = TaskStatus.rejected; error = a.error }

abbrev pub structural_text : String
structural_text =
    "The request contains conditional if/otherwise or binary branch logic, but the plan has no decision node. Re-plan with an explicit decision node whose yes/no branches perform the conditional work."

-- How one turn of the loop ends: with `return` or an exception, or with the next turn.
pub data Turn : Type 0 where
  over : Run (Option Plan) → Turn
  next : ExecutionState → World → RetryContext → Turn

-- What comes after a turn: nothing, or the turns that are left.
abbrev pub go_on :
    (later_turns : RetryContext → ExecutionState → World → Run (Option Plan))
    → Turn
    → Run (Option Plan)
go_on later_turns (over r) = r
go_on later_turns (next st w ctx) = later_turns ctx st w

module _ (s : Settings) (services : Services) where
  -- `_structural_retry_feedback`
  unfoldable pub structural_retry_feedback : String → Plan → Option String
  structural_retry_feedback request p =
      if services.looks_conditional request
        && not (any (λ n. is_type n.type NodeType.decision) (nodes p))
      then some structural_text
      else none

  -- `attempt < attempts - 1`
  abbrev pub not_last : ℕ → Bool
  not_last attempt = not (int_leb s.max_replan_attempts (pos attempt))

  -- `_answerable_rejection_retry_feedback`
  unfoldable pub answerable_rejection_retry_feedback : PlanningAttempt → ℕ → Option String
  answerable_rejection_retry_feedback a attempt =
      if not_last attempt then rejection_retry_feedback services.lower a.error else none

  -- The turn after a rejection, which is saved already; another attempt is made with the feedback.
  unfoldable pub after_rejection : Option String → PlanningAttempt → ExecutionState → World → Turn
  unfolding mark_plan_rejected
  after_rejection (some feedback) a st w = next st w (record {
    last_error = a.error;
    last_error_type = some ErrorType.rejection;
    prior_reasoning = none;
    validation_feedback = none;
    rejected_answer_feedback = some feedback;
  })
  after_rejection none a st w =
      over (record { state = mark_plan_rejected a st; world = w; outcome = ok none })

  -- The turn after an answer without a plan, which is saved already.
  unfoldable pub after_failure : PlanningAttempt → ℕ → ExecutionState → World → Turn
  unfolding after_rejection planning_retry_context answerable_rejection_retry_feedback
  after_failure a attempt st w =
      if has_error_type a.error_type ErrorType.rejection
      then after_rejection (answerable_rejection_retry_feedback a attempt) a st w
      else next st w (record {
        last_error = a.error;
        last_error_type = a.error_type;
        prior_reasoning = (planning_retry_context a).0;
        validation_feedback = (planning_retry_context a).1;
        rejected_answer_feedback = none;
      })

  -- The context after a plan that must be made again, or that was refused.
  abbrev pub invalid_context : String → RetryContext → RetryContext
  invalid_context text ctx = record ctx {
    last_error = some text;
    last_error_type = some ErrorType.validation;
    prior_reasoning = none;
    validation_feedback = some text;
  }

  -- `plan_attempt.model_copy`, for a plan that is structurally suspicious
  abbrev pub suspicious : String → PlanningAttempt → PlanningAttempt
  suspicious text a = record a {
    plan = none;
    error = some text;
    error_type = some ErrorType.validation;
  }

  -- The turn after an answer with a plan, by the structural feedback on it.
  unfoldable pub after_plan :
      (structural_feedback : Option String)
      → Plan
      → PlanningAttempt
      → ℕ
      → RetryContext
      → ExecutionState
      → World
      → Turn
  unfolding save_planning_attempt
  after_plan none p a attempt ctx st w =
      let (st', w') = save_planning_attempt a st w in
      over (record { state = st'; world = w'; outcome = ok (some p) })
  after_plan (some text) p a attempt ctx st w =
      let (st', w') = save_planning_attempt a st w in
      let (marked, saved) = save_planning_attempt (suspicious text a) st w in
      if not_last attempt
      then next marked saved (invalid_context text ctx)
      else over (record { state = st'; world = w'; outcome = ok (some p) })

  -- The turn after the planner's answer, by its plan.
  unfoldable pub after_answer :
      (plan : Option Plan) → PlanningAttempt → ℕ → RetryContext → ExecutionState → World → Turn
  unfolding save_planning_attempt after_failure after_plan
  after_answer none a attempt ctx st w =
      let (st', w') = save_planning_attempt a st w in after_failure a attempt st' w'
  after_answer (some p) a attempt ctx st w =
      after_plan (structural_retry_feedback st.user_request p) p a attempt ctx st w

  -- The `except` clause of the loop; other exceptions leave it.
  unfoldable pub after_raise : Raised → RetryContext → ExecutionState → World → Turn
  after_raise (invalid text) ctx st w = next st w (invalid_context text ctx)
  after_raise cancel ctx st w = over (record { state = st; world = w; outcome = err cancel })
  after_raise (failure text) ctx st w =
      over (record { state = st; world = w; outcome = err (failure text) })

  -- The arguments of `plan_attempt`.
  unfoldable pub plan_request :
      (feedback : Option String) (attempt : ℕ) → RetryContext → ExecutionState → PlanRequest
  plan_request feedback attempt ctx st = record {
    user_request = st.user_request;
    attempt = attempt;
    min_tier = s.planner_min_tier;
    feedback = feedback;
    prior_reasoning = ctx.prior_reasoning;
    validation_feedback = ctx.validation_feedback;
    rejection_feedback = ctx.rejected_answer_feedback;
    thinking = ltb 0 attempt && not (has_error_type ctx.last_error_type ErrorType.timeout);
  }

  unfoldable pub after_reply :
      Result Raised PlanningAttempt → ℕ → RetryContext → ExecutionState → World → Turn
  unfolding after_answer after_raise
  after_reply (ok a) attempt ctx st w =
      after_answer a.plan a attempt ctx (record st { replan_count = attempt }) w
  after_reply (err e) attempt ctx st w = after_raise e ctx st w

  unfoldable pub one_turn :
      (feedback : Option String) (attempt : ℕ) → RetryContext → ExecutionState → World → Turn
  unfolding after_reply plan_request
  one_turn feedback attempt ctx st w =
      after_reply (services.plan_attempt (plan_request feedback attempt ctx st)) attempt ctx st w

  -- `f"Planning failed after {attempts} attempts: {last_error}"`
  unfoldable pub failed_text : Option String → String
  failed_text last_error =
      let reason : String = elim last_error [ none ↦ "None" | some text ↦ text ] in
      text_append "Planning failed after " (
        text_append (services.show (int_suc s.max_replan_attempts))
          (text_append " attempts: " reason))

  -- The loop, with the number of turns that are left.
  unfoldable pub try_plans :
      (feedback : Option String) (turns attempt : ℕ)
      → RetryContext
      → ExecutionState
      → World
      → Run (Option Plan)
  unfolding one_turn failed_text
  try_plans feedback zero attempt ctx st w = record {
    state = record st { status = TaskStatus.failed; error = some (failed_text ctx.last_error) };
    world = w;
    outcome = ok none;
  }
  try_plans feedback (suc turns) attempt ctx st w =
      go_on (try_plans feedback turns (attempt + 1)) (one_turn feedback attempt ctx st w)

  unfoldable pub plan_with_retry :
      (feedback : Option String) → ExecutionState → World → Run (Option Plan)
  unfolding try_plans
  plan_with_retry feedback st w =
      try_plans feedback (turns_to s.max_replan_attempts) 0 no_context
        (record st { status = TaskStatus.planning }) w

-- ===== src/Planner/Validated.antt =====
-- A plan of the planner has passed the validator, and so has the plan that the orchestrator runs.
use glassrail.Common.{
  Option, Result, String, ap, arith, err, false, none, ok, ok_injective, refl, some, subst, sym, ℕ,
  ◌∙◌, ◌≡◌, int_eq,
}
use glassrail.Core.{
  Json, Members, Plan, PlanningAttempt, ErrorType, nodes, sorted_node_ids, ExecutionState,
}
use glassrail.Config.{Settings}
use glassrail.Harness.{ToolHarness}
use glassrail.Validator.Errors.{ValidationError}
use glassrail.Validator.Topo.{topo_sort}
use glassrail.Validator.Validate.{validate}
use glassrail.Validator.Accepted.{IsValidated, validate_sound, validate_sorted}
use glassrail.Planner.Payload.{get}
use glassrail.Planner.Duplicates.{prefer_non_null_duplicate_object}
use glassrail.Planner.Repair.{ensure_terminal_result}
use glassrail.Planner.Descriptions.{repair_plan_descriptions}
use glassrail.Planner.Attempt.{
  Outside, Reply, answered, timed_out, broken_off, no_plan, no_json, no_object, failed, validated,
  checked, read_repaired, read_object, read_json, read_reply, members_of, plan_attempt,
}
use glassrail.Executor.Orchestrator.World.{Raised, PlanRequest, World, Run, Services}
use glassrail.Executor.Orchestrator.Planning.{plan_with_retry}
use glassrail.Executor.Orchestrator.Kept.{Ending}
use glassrail.Executor.Orchestrator.Attempts.{plan_with_retry_lem}

module _ (s : Settings) (h : ToolHarness) (o : Outside) where
  -- A plan of the attempt is what `validate` made of some plan.
  IsChecked : PlanningAttempt → Type 0
  IsChecked a = (p' : Plan) → a.plan ≡ some p' → (p : Plan) × (validate s h p ≡ ok p')

  Checks : Result Raised PlanningAttempt → Type 0
  unfolding IsChecked
  Checks (ok a) = IsChecked a
  Checks (err e) = Unit

  failed-IsChecked : (a : PlanningAttempt) → a.plan ≡ none → IsChecked (failed s h o a)
  unfolding failed IsChecked
  failed-IsChecked a none_there p' e = absurd (ground (arith, none_there, e))

  validated-IsChecked :
      (r : PlanRequest) (raw : String) (tokens : ℕ) (parsed : Members) (p : Plan)
      (v : Result ValidationError Plan)
      → validate s h p ≡ v
      → IsChecked (validated s h o r raw tokens parsed v)
  unfolding validated
  validated-IsChecked r raw tokens parsed p (err e) known =
      failed-IsChecked
        (no_plan s h o r raw (some parsed) (o.validation_text e) ErrorType.validation none tokens)
        refl
  validated-IsChecked r raw tokens parsed p (ok q) known =
      unfold IsChecked in λ p' e. (p, known ∙ ap ok (given e))
    where
      given : {x y : Plan} → some x ≡ some y → x ≡ y
      given e = cc

  checked-IsChecked :
      (r : PlanRequest) (raw : String) (tokens : ℕ) (parsed : Members) (v : Result String Plan)
      → IsChecked (checked s h o r raw tokens parsed v)
  unfolding checked
  checked-IsChecked r raw tokens parsed (err e) =
      failed-IsChecked (no_plan s h o r raw (some parsed) e ErrorType.schema none tokens) refl
  checked-IsChecked r raw tokens parsed (ok p) =
      validated-IsChecked r raw tokens parsed p (validate s h p) refl

  read_repaired-Checks :
      (r : PlanRequest) (raw : String) (tokens : ℕ) (repaired : Option Members)
      → Checks (read_repaired s h o r raw tokens repaired)
  unfolding read_repaired Checks
  read_repaired-Checks r raw tokens none = tt
  read_repaired-Checks r raw tokens (some parsed) =
      checked-IsChecked r raw tokens parsed (o.model_validate parsed)

  read_object-Checks :
      (r : PlanRequest) (raw : String) (tokens : ℕ) (parsed : Members) (refusal : Option Json)
      → Checks (read_object s h o r raw tokens parsed refusal)
  unfolding read_object Checks
  read_object-Checks r raw tokens parsed (some reason) =
      failed-IsChecked
        (no_plan s h o r raw (some parsed) (o.texts.str_of reason) ErrorType.rejection none tokens)
        refl
  read_object-Checks r raw tokens parsed none =
      read_repaired-Checks r raw tokens
        (ensure_terminal_result (repair_plan_descriptions o.texts parsed))

  read_json-Checks :
      (r : PlanRequest) (raw : String) (tokens : ℕ) (v : Result String Json)
      → Checks (read_json s h o r raw tokens v)
  unfolding read_json Checks
  read_json-Checks r raw tokens (err e) =
      failed-IsChecked (no_json s h o r raw tokens e) (unfold no_json in refl)
  read_json-Checks r raw tokens (ok (Json.obj parsed)) =
      read_object-Checks r raw tokens parsed (get "rejection" parsed)
  read_json-Checks r raw tokens (ok v) = failed-IsChecked (no_object s h o r raw tokens v) refl

  read_reply-Checks : (r : PlanRequest) (reply : Reply) → Checks (read_reply s h o r reply)
  unfolding read_reply Checks
  read_reply-Checks r timed_out =
      failed-IsChecked
        (no_plan s h o r "" none (o.timeout_text r.thinking) ErrorType.timeout none 0) refl
  read_reply-Checks r (broken_off e) = tt
  read_reply-Checks r (answered raw tokens) = read_json-Checks r raw tokens (
      o.loads (λ pairs. members_of (prefer_non_null_duplicate_object pairs))
        (o.strip_model_output raw))

  plan_attempt-IsChecked :
      (r : PlanRequest) (a : PlanningAttempt) → plan_attempt s h o r ≡ ok a → IsChecked a
  unfolding plan_attempt
  plan_attempt-IsChecked r a e = unfold Checks in subst Checks e (read_reply-Checks r (o.reply r))

  -- When the orchestrator's planner is `plan_attempt`, a plan that planning ends with is what the
  -- validator made of some plan: every level of it is accepted, its sorted ids are those of the sort.
  pub plan_with_retry-IsValidated :
      (services : Services) (feedback : Option String) (st : ExecutionState) (w : World) (p' : Plan)
      → ((r : PlanRequest) → services.plan_attempt r ≡ plan_attempt s h o r)
      → (plan_with_retry s services feedback st w).outcome ≡ ok (some p')
      → ((p : Plan) × IsValidated s h false p p') × (topo_sort (nodes p') ≡ ok (sorted_node_ids p'))
  plan_with_retry-IsValidated services feedback st w p' same e =
      let (p, valid) =
        accepted (plan_with_retry s services feedback st w)
          (plan_with_retry_lem s services feedback st w).1 e in
      ((p, validate_sound s h p p' valid), validate_sorted s h p p' valid)
    where
      accepted :
          (end_run : Run (Option Plan))
          → Ending services end_run
          → end_run.outcome ≡ ok (some p')
          → (p : Plan) × (validate s h p ≡ ok p')
      accepted end_run (Ending.planned st v q a earlier r given f g i) e =
          unfold IsChecked in
          plan_attempt-IsChecked r a (sym (same r) ∙ given) p' (g ∙ ok_injective e)
      accepted end_run (Ending.refused st v a earlier f g i j) e = cc
      accepted end_run (Ending.exhausted st v f g) e = cc
      accepted end_run (Ending.broken st v x f) e = cc

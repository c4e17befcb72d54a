-- ===== src/Planner/Attempt.antt =====
-- `Planner.plan_attempt`, from the model's answer on: how what came back is told apart. The prompt
-- and the spans are not modelled; of the file of a failed attempt only the path is.
use Prim.Native.String.{◌++◌ as text_append}
use glassrail.Common.{
  Bool, List, Option, Result, String, [], codes, err, if◌then◌else◌, int_leb, int_mul, length, none,
  not, ok, pos, some, ℕ, ℤ, ◌∷◌, int_eq,
}
use glassrail.Core.{Json, Members, Plan, PlanningAttempt, ErrorType}
use glassrail.Config.{Settings}
use glassrail.Harness.{ToolHarness}
use glassrail.Validator.Errors.{ValidationError}
use glassrail.Validator.Validate.{validate}
use glassrail.Planner.Payload.{get}
use glassrail.Planner.Duplicates.{prefer_non_null_duplicate_object}
use glassrail.Planner.Repair.{ensure_terminal_result}
use glassrail.Planner.Descriptions.{Texts, repair_plan_descriptions}
use glassrail.Executor.Orchestrator.World.{Raised, failure, PlanRequest}

-- What comes of the call of the router, under its time limit.
pub data Reply : Type 0 where
  answered : (raw : String) (tokens : ℕ) → Reply
  timed_out : Reply
  broken_off : Raised → Reply

-- What the planner is given: the model, Python's `json` and texts, pydantic's check of the schema,
-- the wording of exceptions, and the path of the file of a failed attempt, if it can be written.
pub record Outside : Type 0 where
  pub reply : PlanRequest → Reply
  pub texts : Texts
  pub strip_model_output : String → String
  pub loads : (object_pairs_hook : List (String × Json) → Members) → String → Result String Json
  pub model_validate : Members → Result String Plan
  pub validation_text : ValidationError → String
  pub timeout_text : (thinking : Bool) → String
  pub type_name : Json → String
  pub type_error_text : String
  pub written : PlanningAttempt → Option String

abbrev pub members_of : List (String × Json) → Members
members_of [] = Members.end
members_of ((key, value) ∷ pairs) = Members.member key value (members_of pairs)

module _ (s : Settings) (h : ToolHarness) (o : Outside) where
  -- `_planner_stall_char_limit`
  unfoldable pub planner_stall_char_limit : ℤ
  planner_stall_char_limit = int_mul s.budgets.planner s.planner_stall_char_multiplier

  -- `_failed`
  unfoldable pub failed : PlanningAttempt → PlanningAttempt
  failed a = elim (o.written a) [ none ↦ a | some path ↦ record a { filepath = some path } ]

  abbrev pub no_plan :
      PlanRequest
      → (raw : String) (parsed : Option Members) (error : String) → ErrorType
      → (error_detail : Option String) (tokens : ℕ) → PlanningAttempt
  no_plan r raw parsed error error_type error_detail tokens = record {
    attempt = r.attempt;
    raw_output = raw;
    parsed = parsed;
    plan = none;
    error = some error;
    error_type = some error_type;
    error_detail = error_detail;
    tokens_used = tokens;
    filepath = none;
  }

  -- The attempt for an answer that is no JSON.
  unfoldable pub no_json :
      PlanRequest → (raw : String) (tokens : ℕ) (error : String) → PlanningAttempt
  unfolding planner_stall_char_limit
  no_json r raw tokens error =
      let is_stall = not (int_leb (pos (length (codes raw))) planner_stall_char_limit) in
      no_plan r raw none (text_append "Planner returned invalid JSON: " error)
        (if is_stall then ErrorType.stall else ErrorType.json) (if is_stall then some raw else none)
        tokens

  -- The attempt for a plan that pydantic accepts.
  unfoldable pub validated :
      PlanRequest
      → (raw : String) (tokens : ℕ) → Members
      → Result ValidationError Plan
      → PlanningAttempt
  unfolding failed
  validated r raw tokens parsed (err e) =
      failed (no_plan r raw (some parsed) (o.validation_text e) ErrorType.validation none tokens)
  validated r raw tokens parsed (ok p) = record {
    attempt = r.attempt;
    raw_output = raw;
    parsed = some parsed;
    plan = some p;
    error = none;
    error_type = none;
    error_detail = none;
    tokens_used = tokens;
    filepath = none;
  }

  -- The attempt for a repaired payload.
  unfoldable pub checked :
      PlanRequest → (raw : String) (tokens : ℕ) → Members → Result String Plan → PlanningAttempt
  unfolding validated failed
  checked r raw tokens parsed (err e) =
      failed (no_plan r raw (some parsed) e ErrorType.schema none tokens)
  checked r raw tokens parsed (ok p) = validated r raw tokens parsed (validate s h p)

  -- The attempt for a repaired payload, if there is one: a `TypeError` leaves `plan_attempt`.
  unfoldable pub read_repaired :
      PlanRequest → (raw : String) (tokens : ℕ) → Option Members → Result Raised PlanningAttempt
  unfolding checked
  read_repaired r raw tokens none = err (failure o.type_error_text)
  read_repaired r raw tokens (some parsed) =
      ok (checked r raw tokens parsed (o.model_validate parsed))

  -- The attempt for a JSON object, by its value of `rejection`.
  unfoldable pub read_object :
      PlanRequest
      → (raw : String) (tokens : ℕ) → Members
      → Option Json
      → Result Raised PlanningAttempt
  unfolding read_repaired failed
  read_object r raw tokens parsed (some reason) =
      ok (
        failed
          (no_plan r raw (some parsed) (o.texts.str_of reason) ErrorType.rejection none tokens))
  read_object r raw tokens parsed none =
      read_repaired r raw tokens (ensure_terminal_result (repair_plan_descriptions o.texts parsed))

  -- The attempt for a JSON value that is no object.
  abbrev pub no_object : PlanRequest → (raw : String) (tokens : ℕ) → Json → PlanningAttempt
  no_object r raw tokens other =
      no_plan r raw none
        (text_append "Planner returned " (text_append (o.type_name other) ", expected JSON object"))
        ErrorType.schema none tokens

  -- The attempt for an answer, by what `json.loads` gives.
  unfoldable pub read_json :
      PlanRequest → (raw : String) (tokens : ℕ) → Result String Json → Result Raised PlanningAttempt
  unfolding no_json read_object failed
  read_json r raw tokens (err e) = ok (failed (no_json r raw tokens e))
  read_json r raw tokens (ok (Json.obj parsed)) =
      read_object r raw tokens parsed (get "rejection" parsed)
  read_json r raw tokens (ok other) = ok (failed (no_object r raw tokens other))

  unfoldable pub read_reply : PlanRequest → Reply → Result Raised PlanningAttempt
  unfolding read_json failed
  read_reply r timed_out =
      ok (failed (no_plan r "" none (o.timeout_text r.thinking) ErrorType.timeout none 0))
  read_reply r (broken_off e) = err e
  read_reply r (answered raw tokens) = read_json r raw tokens (
      o.loads (λ pairs. members_of (prefer_non_null_duplicate_object pairs))
        (o.strip_model_output raw))

  unfoldable pub plan_attempt : PlanRequest → Result Raised PlanningAttempt
  unfolding read_reply
  plan_attempt r = read_reply r (o.reply r)

-- ===== src/Samples/Tasks.antt =====
-- The validator and the orchestrator at small inputs.
use glassrail.Common.{
  [], add, all, any, elem, err, false, filter, for_each, if◌then◌else◌, insert, int_leb, lookup,
  none, not, ok, pos, refl, some, sort, turns_to, ◌&&◌, ◌+◌, ◌∷◌, ◌≡◌, string_eq,
}
use glassrail.Core.{
  Json, Members, Plan, Nodes, Subplan, NodeType, ExecutionState, TaskStatus, is_type, node_list,
  nodes, sorted_node_ids,
}
use glassrail.Harness.{ToolHarness, unknown_names}
use glassrail.State.{load_task, status_beq}
use glassrail.Validator.Topo.{topo_sort, degree, edge_beq}
use glassrail.Validator.Contracts.{
  check_node_limit, check_node_contracts, check_tool_names, check_forced_tiers,
}
use glassrail.Validator.Nesting.{check_branches, check_decision_nesting}
use glassrail.Validator.Validate.{validate}
use glassrail.Validator.Accepted.{IsValidated, validate_sound}
use glassrail.Validator.Errors.{out_of_fuel}
use glassrail.Validator.Total.{validate_total}
use glassrail.Planner.Payload.{get}
use glassrail.Planner.Repair.{ensure_terminal_result}
use glassrail.Planner.Descriptions.{repair_plan_descriptions}
use glassrail.Planner.Attempt.{Outside, Reply, plan_attempt}
use glassrail.Planner.Validated.{plan_with_retry-IsValidated}
use glassrail.Executor.Orchestrator.World.{World, Services, emit, planning_started}
use glassrail.Executor.Orchestrator.Planning.{plan_with_retry, structural_retry_feedback}
use glassrail.Executor.Orchestrator.Kept.{Kept, Ending}
use glassrail.Executor.Orchestrator.Attempts.{plan_with_retry_lem}
use glassrail.Executor.Orchestrator.Handlers.{run, resume, revise, is_revisable}
use glassrail.Executor.Orchestrator.Handled.{Concluded}
use glassrail.Executor.Orchestrator.Execution.{ExecutorLaw}
use glassrail.Samples.Driver.{written_output, drive_plan, drive_plan-Executed}
use glassrail.Executor.Orchestrator.Endings.{run-Concluded, revise-Concluded, resume-Concluded}
use glassrail.Executor.Orchestrator.Gate.{gives_plan, calls-run}
use glassrail.Samples.{settings, header, new_task}

-- A plan of a thinking step and a result, before and after it is validated.
abbrev steps : Nodes
steps =
    Nodes.cons (header (pos 1) NodeType.think []) Subplan.absent
      (Nodes.cons (header (pos 2) NodeType.result (pos 1 ∷ [])) Subplan.absent Nodes.nil)

abbrev draft : Plan
draft = Plan.plan steps []

abbrev sorted_plan : Plan
sorted_plan = Plan.plan steps (pos 1 ∷ pos 2 ∷ [])

abbrev no_tools : ToolHarness
no_tools = record { funcs = []; schemas = []; risks = [] }

draft_passes : validate settings no_tools draft ≡ ok sorted_plan
unfolding validate int_leb for_each filter elem sort lookup add insert all is_type node_list
    unknown_names degree edge_beq topo_sort check_node_limit check_node_contracts check_tool_names
    check_forced_tiers check_decision_nesting check_branches
draft_passes = refl

validate_sound_example : IsValidated settings no_tools false draft sorted_plan
validate_sound_example = validate_sound settings no_tools draft sorted_plan draft_passes

validate_total_example : ¬ (validate settings no_tools draft ≡ err out_of_fuel)
validate_total_example = validate_total settings no_tools draft

-- A planner whose model answers with the draft, and what else the orchestrator is given.
abbrev outside : Outside
outside = record {
  reply = λ r. Reply.answered "{}" 7;
  texts = record { strip = λ text. text; str_of = λ v. "?" };
  strip_model_output = λ text. text;
  loads = λ hook text. ok (Json.obj Members.end);
  model_validate = λ payload. ok draft;
  validation_text = λ e. "invalid";
  timeout_text = λ thinking. "timed out";
  type_name = λ v. "list";
  type_error_text = "not iterable";
  written = λ a. none;
}

abbrev services : Services
services = record {
  plan_attempt = plan_attempt settings no_tools outside;
  execute = drive_plan;
  lower = λ text. text;
  show = λ z. "3";
  looks_conditional = λ text. false;
}

abbrev waiting : ExecutionState
waiting = record new_task { status = TaskStatus.awaiting_confirmation }

abbrev world : ExecutionState → World
world st = record { tasks = ("t", st) ∷ []; events = []; executions = 0 }

services-ExecutorLaw : ExecutorLaw settings written_output services
services-ExecutorLaw = drive_plan-Executed

there : (st : ExecutionState) → load_task "t" (world st).tasks ≡ some st
unfolding load_task lookup
there st = refl

plan_with_retry_lem_example :
    Kept 3 new_task
      (world new_task)
      (plan_with_retry settings services none new_task (world new_task)).state
      (plan_with_retry settings services none new_task (world new_task)).world
    × Ending services (plan_with_retry settings services none new_task (world new_task))
unfolding turns_to
plan_with_retry_lem_example = plan_with_retry_lem settings services none new_task (world new_task)

draft_planned :
    (plan_with_retry settings services none new_task (world new_task)).outcome
    ≡ ok (some sorted_plan)
unfolding plan_with_retry turns_to plan_attempt get ensure_terminal_result repair_plan_descriptions
    any nodes structural_retry_feedback
draft_planned = rw draft_passes refl

plan_with_retry-IsValidated_example :
    ((p : Plan) × IsValidated settings no_tools false p sorted_plan)
    × (topo_sort (nodes sorted_plan) ≡ ok (sorted_node_ids sorted_plan))
plan_with_retry-IsValidated_example =
    plan_with_retry-IsValidated settings no_tools outside services none new_task (world new_task)
      sorted_plan (λ r. refl) draft_planned

run-Concluded_example :
    Concluded "t" (world new_task) (run settings services "t" (world new_task)).0
run-Concluded_example =
    run-Concluded settings services written_output services-ExecutorLaw "t" (world new_task)
      new_task (there new_task) refl

revise-Concluded_example :
    Concluded "t" (world waiting) (revise settings services "t" "shorter" (world waiting)).0
revise-Concluded_example =
    revise-Concluded settings services written_output services-ExecutorLaw "t" "shorter"
      (world waiting) waiting (there waiting) refl (unfold is_revisable status_beq in refl)

resume-Concluded_example :
    Concluded "t" (world waiting) (resume settings services "t" (world waiting)).0
unfolding elem status_beq
resume-Concluded_example =
    resume-Concluded settings services written_output services-ExecutorLaw "t" (world waiting)
      waiting (there waiting) refl refl

calls-run_example :
    (run settings services "t" (world new_task)).0.executions
    ≡ 0
      + (if gives_plan
              (plan_with_retry settings services none new_task
                (emit (planning_started "t") (world new_task))).outcome
            && not settings.confirm_plans
          then 1
          else 0)
calls-run_example = calls-run settings services "t" (world new_task) new_task (there new_task)

-- ===== src/Executor/Tools.antt =====
-- The tool node: `_execute_tool`, and the per-type choices `_node_output_budget` and
-- `_node_system_prompt`. What `_extract_args` and `_check_output_shape` return is the environment's
-- here, and in Gates it comes of what a model streams; whether there is context, and the wording of
-- exceptions, are the environment's too.
pub mod Calls
pub mod Gates
use glassrail.Common.{
  Bool, List, Option, Result, String, [], err, false, if◌then◌else◌, none, not, ok, some, true, ℤ,
  ◌&&◌, ◌∷◌,
}
use glassrail.Core.{
  Node, NodeType, NodeResult, NodeStatus, SummaryFormat, Json, Members, end, is_empty_output, Float,
  one_float, float_05,
}
use glassrail.Config.{Settings}
use glassrail.Harness.{ToolHarness, HarnessError, execute}
use glassrail.Executor.Approval.{ToolApprovalBroker, approve_tool_call}

-- What the environment of a tool node decides.
pub record Surroundings : Type 0 where
  -- `assemble_context` gives a text that is not empty
  pub has_context : Bool
  pub extracted_args : Members
  -- the answer of the user
  pub answer : Bool
  -- `_check_output_shape`: none, or the issue
  pub shape_issue : Json → Option (Option String)
  -- `str` of an exception, and of an issue in the result's error
  pub denied_text : String → String
  pub error_text : HarnessError → String
  pub issue_text : Option String → String

-- The result, and the calls of `self._harness.execute`.
abbrev pub Called : Type 0
Called = NodeResult × List (String × Members)

abbrev pub tool_result :
    Node → NodeStatus → Json → Option Members → Float → Bool → Option String → NodeResult
tool_result n status output args confidence flagged error = record {
  node_id = n.id;
  status = status;
  output = output;
  branch_taken = none;
  args_used = args;
  confidence = confidence;
  flagged = flagged;
  tokens_used = 0;
  retries = 0;
  error = error;
  tier_used = none;
}

abbrev no_members : Members → Bool
no_members end = true
no_members _ = false

-- `args`: the template, or what the model extracts from the context if there is no template
unfoldable pub call_args : Surroundings → Node → Members
call_args w n =
    let template : Members = elim n.args_template [ none ↦ end | some m ↦ m ] in
    if w.has_context && no_members template then w.extracted_args else template

-- After `self._harness.execute` has returned.
unfoldable pub check_output : Surroundings → Node → Members → Json → NodeResult
check_output w n args output =
    if is_empty_output output
    then tool_result n NodeStatus.empty output (some args) one_float false none
    else elim (w.shape_issue output) [
      | none ↦ tool_result n NodeStatus.completed output (some args) one_float false none
      | some issue ↦
          tool_result n NodeStatus.completed output (some args) float_05 true
            (some (w.issue_text issue))
    ]

-- What an outcome of `self._harness.execute` leads to.
unfoldable pub after_call : Surroundings → Node → Members → Result HarnessError Json → NodeResult
unfolding check_output
after_call w n args (err e) =
    tool_result n NodeStatus.failed Json.null none one_float false (some (w.error_text e))
after_call w n args (ok output) = check_output w n args output

-- The call of the tool, once it is approved.
unfoldable pub call_tool : ToolHarness → Surroundings → Node → String → Members → Called
call_tool h w n tool args = (after_call w n args (execute h tool args), (tool, args) ∷ [])

-- `_execute_tool`
unfoldable pub execute_tool :
    Settings → ToolHarness → Option ToolApprovalBroker → Surroundings → Node → Called
unfolding call_args call_tool
execute_tool s h broker w n = elim n.tool [
  | none ↦ (
    tool_result n NodeStatus.failed Json.null none one_float false
        (some "TOOL node has no tool name"),
    [],
  )
  | some tool ↦
      if not (approve_tool_call s h broker w.answer tool)
      then (
        tool_result n NodeStatus.failed Json.null none one_float false (some (w.denied_text tool)),
        [],
      )
      else call_tool h w n tool (call_args w n)
]

-- `_node_output_budget`; none is the KeyError of another type
unfoldable pub node_output_budget : Settings → NodeType → Option ℤ
node_output_budget s NodeType.think = some s.budgets.think
node_output_budget s NodeType.summary = some s.budgets.summary
node_output_budget s NodeType.synthesis = some s.budgets.synthesis
node_output_budget s NodeType.result = some s.budgets.result
node_output_budget s _ = none

abbrev summary_prompt : Settings → Option SummaryFormat → String
summary_prompt s (some SummaryFormat.concise) = s.prompts.summary_concise
summary_prompt s (some SummaryFormat.verbose) = s.prompts.summary_verbose
summary_prompt s _ = s.prompts.summary

abbrev prompt_of : Settings → Option SummaryFormat → NodeType → Option String
prompt_of s f NodeType.summary = some (summary_prompt s f)
prompt_of s f NodeType.think = some s.prompts.think
prompt_of s f NodeType.synthesis = some s.prompts.synthesis
prompt_of s f NodeType.result = some s.prompts.result
prompt_of s f _ = none

-- `_node_system_prompt`
unfoldable pub node_system_prompt : Settings → Node → Option String
node_system_prompt s n = prompt_of s n.format n.type

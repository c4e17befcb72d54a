-- ===== src/Samples/Nodes.antt =====
-- A model that fails before it answers, and a tool that wants approval.
use glassrail.Common.{
  String, [], all, elem, false, if◌then◌else◌, inl, lookup, nat_beq, none, ok, pos, refl, some,
  true, ℕ, ℤ, ◌↔◌, ◌∷◌, ◌≡◌, ◌⊎◌, string_eq,
}
use glassrail.Core.{NodeType, Members, Node, NodeStatus, ToolRisk, Float, float_leb, float_05}
use glassrail.Config.{Settings, ToolApprovalPolicy, ToolApprovalMode}
use glassrail.Harness.{ToolHarness, risk_for}
use glassrail.Validator.Contracts.{check_decision_contract}
use glassrail.Executor.Retries.{
  Attempt, Reply, BranchValue, max_llm_node_retries, execute_llm_node, execute_decision,
}
use glassrail.Executor.Retries.Outcomes.{EndsWith, execute_llm_node_lem}
use glassrail.Executor.Retries.Decisions.{IsUnit, IsDecided, execute_decision-IsDecided}
use glassrail.Executor.Approval.{
  ToolApprovalBroker, is_always_allowed, effective_tool_policy, approve_tool_call,
}
use glassrail.Executor.Approval.Policies.{Allowed, approve_tool_call_iff}
use glassrail.Executor.Tools.{Surroundings, execute_tool}
use glassrail.Executor.Tools.Calls.{IsCall, execute_tool_lem}
use glassrail.Samples.{settings, header, decision_node, outcome}

-- Nothing at first, then nobody, then a result.
abbrev slow_model : ℕ → ℤ → Attempt
slow_model attempt tier =
    if nat_beq attempt 0
    then Attempt.empty_output 5
    else if nat_beq attempt 1
    then Attempt.unavailable "down"
    else Attempt.returns (outcome (pos 2) none)

execute_llm_node_lem_example :
    EndsWith settings
      (pos 3)
      slow_model
      (max_llm_node_retries settings)
      0
      (pos 1)
      0
      (execute_llm_node settings (pos 3) slow_model (pos 2) (pos 1))
execute_llm_node_lem_example = execute_llm_node_lem settings (pos 3) slow_model (pos 2) (pos 1)

abbrev odd_model : ℕ → ℤ → Reply
odd_model attempt tier =
    if nat_beq attempt 0
    then Reply.unavailable
    else Reply.answer 12 (BranchValue.text "maybe") (some Float.nan)

decision_contract : check_decision_contract decision_node ≡ ok tt
unfolding check_decision_contract all elem lookup
decision_contract = refl

execute_decision-IsDecided_example :
    IsDecided decision_node decision_contract
      (max_llm_node_retries settings)
      (execute_decision settings (pos 3) odd_model decision_node (pos 1))
execute_decision-IsDecided_example =
    execute_decision-IsDecided decision_node decision_contract settings (pos 3) odd_model (pos 1)

half-IsUnit : IsUnit float_05
unfolding float_leb
half-IsUnit = (refl, refl)

abbrev pub writer : ToolHarness
writer = record { funcs = []; schemas = []; risks = ("write_file", ToolRisk.write) ∷ [] }

abbrev pub careful : Settings
careful = record settings {
  tool_approval = record {
    default = ToolApprovalPolicy.allow;
    mode = ToolApprovalMode.interactive;
    overrides = [];
  };
}

abbrev pub channel : ToolApprovalBroker
channel = record { pending = []; always_allow = [] }

approve_tool_call_iff_example :
    (approve_tool_call careful writer (some channel) false "write_file" ≡ true)
    ↔ Allowed
        (effective_tool_policy careful writer "write_file")
        careful.tool_approval.mode
        (some channel)
        false
        "write_file"
approve_tool_call_iff_example =
    approve_tool_call_iff careful writer (some channel) false "write_file"

writer_risk :
    (risk_for writer "write_file" ≡ ToolRisk.write)
    ⊎ (risk_for writer "write_file" ≡ ToolRisk.execute)
unfolding risk_for lookup
writer_risk = inl refl

writer_approved : approve_tool_call careful writer (some channel) true "write_file" ≡ true
unfolding approve_tool_call effective_tool_policy is_always_allowed risk_for lookup elem
writer_approved = refl

abbrev pub surroundings : Surroundings
surroundings = record {
  has_context = false;
  extracted_args = Members.end;
  answer = true;
  shape_issue = λ output. none;
  denied_text = λ tool. "user_denied";
  error_text = λ e. "failed";
  issue_text = λ issue. "unexpected shape";
}

abbrev pub write_node : Node
write_node = record {
  header = record (header (pos 1) NodeType.tool []) { tool = some "write_file" };
  subplan = none;
}

execute_tool_lem_example :
    (((execute_tool careful writer (some channel) surroundings write_node).1 ≡ [])
      × ((execute_tool careful writer (some channel) surroundings write_node).0.status
          ≡ NodeStatus.failed))
    ⊎ ((tool : String) × IsCall careful writer
          (some channel)
          surroundings
          write_node
          (execute_tool careful writer (some channel) surroundings write_node)
          tool)
execute_tool_lem_example = execute_tool_lem careful writer (some channel) surroundings write_node
